-- ===== src/Dynamic/Handles.antt =====
-- lib/dynamic_library.js: the handle of a library, and its symbols.
use node_ffi_napi.Prelude.{
  ℕ, zero, suc, ◌≡◌, ◌≢◌, refl, inl, inr, Bool-cases, Option, none, some, List, ◌==◌, ==_iff,
}
use node_ffi_napi.Effect.{symbol_error, Result, ok, Exec}
use node_ffi_napi.Effect.Laws.{Ensures, Ensures-pure, Ensures-throw, Ensures-bind, Ensures-run}
use node_ffi_napi.Dynamic.{
  System, Dynamic, on_system, mode_of, redirect, follow, after_error, dynamic_library, get,
  group_file, script_path,
}

module _ {S : Type 0} (sys : System S) where
  -- the library is open
  abbrev pub IsOpen : Dynamic S → Type 0
  IsOpen s = s.handle ≢ 0

  abbrev Opens : Result {0} Unit × Dynamic S → Type 0
  Opens = Ensures (λ _ t. IsOpen t) (λ _ _. Unit)

  redirect-Opens :
      (again : List ℕ → Exec (Dynamic S) Unit)
      → ((file : List ℕ) (s : Dynamic S) → Opens (again file s))
      → (e file : Option (List ℕ)) (s : Dynamic S) → Opens (redirect sys again e file s)
  redirect-Opens again h e none s = Ensures-throw _ s tt
  redirect-Opens again h e (some file) s = h file s

  follow-Opens :
      (again : List ℕ → Exec (Dynamic S) Unit)
      → ((file : List ℕ) (s : Dynamic S) → Opens (again file s))
      → (e script : Option (List ℕ)) (s : Dynamic S) → Opens (follow sys again e script s)
  unfolding follow
  follow-Opens again h e none s = Ensures-throw _ s tt
  follow-Opens again h e (some script) s =
      Ensures-bind (on_system sys (sys.read script))
        (λ content. redirect sys again e (group_file content)) s
        (Ensures-run (on_system sys (sys.read script) s))
        λ content t _. redirect-Opens again h e (group_file content) t

  after_error-Opens :
      (again : List ℕ → Exec (Dynamic S) Unit)
      → ((file : List ℕ) (s : Dynamic S) → Opens (again file s))
      → (e : Option (List ℕ)) (s : Dynamic S) → Opens (after_error sys again e s)
  after_error-Opens again h none s = Ensures-throw _ s tt
  after_error-Opens again h (some text) s = follow-Opens again h (some text) (script_path text) s

  -- The constructor returns, whether at once or through linker scripts, only with an open library.
  pub dynamic_library-IsOpen :
      (fuel : ℕ) (path : Option (List ℕ)) (mode : Option ℕ) (s : Dynamic S)
      → Ensures (λ _ t. IsOpen t) (λ _ _. Unit) (dynamic_library sys fuel path mode s)
  unfolding dynamic_library
  dynamic_library-IsOpen zero path mode s = Ensures-throw _ s tt
  dynamic_library-IsOpen (suc fuel) path mode s =
      Ensures-bind (on_system sys (sys.dlopen path (mode_of sys mode))) _ (record s { path = path })
        (Ensures-run
          (on_system sys (sys.dlopen path (mode_of sys mode)) (record s { path = path })))
        λ h t _. elim (Bool-cases (h == 0)) [
          | inl null ↦ rw null (
              Ensures-bind (on_system sys sys.dlerror) _ (record t { handle = h })
                (Ensures-run (on_system sys sys.dlerror (record t { handle = h })))
                λ e u _.
                  after_error-Opens
                    (λ file. dynamic_library sys fuel (some file) (some (mode_of sys mode)))
                    (λ file v. dynamic_library-IsOpen fuel (some file) (some (mode_of sys mode)) v)
                    e u)
          | inr open' ↦ rw open' (
              Ensures-pure tt (record t { handle = h })
                (λ (e : h ≡ 0). cc (open', (==_iff h 0).1 e)))
        ]

  -- Where the first `dlopen` gives NULL, the text of the error names a file to read, and the content of
  -- that names another file, opening the library is opening that other file, in the same mode.
  pub opens_linker_script :
      (fuel : ℕ) (path : Option (List ℕ)) (text script content file : List ℕ) (mode : Option ℕ)
      (s : Dynamic S) (t u v : S)
      → sys.dlopen path (mode_of sys mode) s.system ≡ (ok 0, t)
      → sys.dlerror t ≡ (ok (some text), u)
      → script_path text ≡ some script
      → sys.read script u ≡ (ok content, v)
      → group_file content ≡ some file
      → dynamic_library sys (suc fuel) path mode s
        ≡ dynamic_library sys fuel
            (some file)
            (some (mode_of sys mode))
            (record { system = v; path = path; handle = 0 })
  unfolding dynamic_library follow
  opens_linker_script fuel path text script content file mode s t u v null error named_script read
        named_file =
      rw (null, error, named_script, read, named_file) refl

  -- `get` returns only a pointer that is not NULL, and leaves the path and the handle alone.
  pub get_found :
      (symbol : List ℕ) (s : Dynamic S)
      → Ensures
          (λ p t. (p ≢ 0) × (t.handle ≡ s.handle) × (t.path ≡ s.path))
          (λ _ t. (t.handle ≡ s.handle) × (t.path ≡ s.path))
          (get sys symbol s)
  unfolding get
  get_found symbol s =
      Ensures-bind {Q = λ _ t. (t.handle ≡ s.handle) × (t.path ≡ s.path)}
        (on_system sys (sys.dlsym s.handle symbol)) _ s
        (record { on_ok = λ a e. (refl, refl); on_err = λ x e. (refl, refl) })
        λ p t same. elim (Bool-cases (p == 0)) [
          | inl null ↦ rw null (
              Ensures-bind {Q = λ _ u. (u.handle ≡ s.handle) × (u.path ≡ s.path)}
                (on_system sys sys.dlerror) _ t
                (record { on_ok = λ a e. same; on_err = λ x e. same })
                λ e u same'. Ensures-throw (symbol_error e) u same')
          | inr found ↦
              rw found (Ensures-pure p t ((λ e. cc (found, (==_iff p 0).1 e)), same.0, same.1))
        ]
