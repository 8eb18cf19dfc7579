-- ===== src/Windows/Opening.antt =====
-- lib/dynamic_library.js over src/win32-dlfcn.cc: opening a library on Windows.
use node_ffi_napi.Prelude.{
  ℕ, suc, ◌*◌, ◌∙◌, ap, Bool, true, false, if◌then◌else◌, ◌≡◌, ◌≢◌, refl, inl, inr, Bool-cases,
  Option, none, some, List, ◌==◌, ==_iff,
}
use node_ffi_napi.Effect.{
  Result, ok, err, Exec, pure, continue, ◌>>=◌, ◌>>◌, null_value, linking_error,
}
use node_ffi_napi.Dynamic.{Dynamic, mode_of, follow, dynamic_library, script_path, so_name}
use node_ffi_napi.Windows.{
  Win32, Windows, message, dlopen, dlerror, windows, on_world, keep_error, utf8_to_wchar, allocate,
  convert, load,
}

-- The message is no error text about a linker script.
message_no_path : (n : ℕ) → script_path (message n) ≡ none
unfolding script_path so_name
message_no_path n = refl

module _ {W : Type 0} (api : Win32 W) where
  -- What the constructor does on Windows: `s` is the state after `dlopen`, which has given `handle`.
  pub data Opened (path : Option (List ℕ)) (handle : ℕ) (s : Windows W)
      (r : Result {0} Unit × Dynamic (Windows W)) : Type 0 where
    open' :
        handle ≢ 0
        → r ≡ (ok tt, record { system = s; path = path; handle = handle })
        → Opened path handle s r
    refused :
        handle ≡ 0
        → s.last_error ≢ 0
        → r ≡ (
          err (linking_error (some (message s.last_error))),
          record { system = record s { last_error = 0 }; path = path; handle = handle },
        )
        → Opened path handle s r
    unreported :
        handle ≡ 0
        → s.last_error ≡ 0
        → r ≡ (err null_value, record { system = s; path = path; handle = handle })
        → Opened path handle s r

  abbrev Returns : {A : Type 0} → Exec (Windows W) A → Type 0
  Returns {A} m = (s : Windows W) → (a : A) × (t : Windows W) × (m s ≡ (ok a, t))

  Returns-bind :
      {A B : Type 0} (m : Exec (Windows W) A) (f : A → Exec (Windows W) B)
      → Returns m
      → ((a : A) → Returns (f a))
      → Returns (m >>= f)
  Returns-bind m f h k s =
      let (a, t, e) = h s in let (b, u, e') = k a t in (b, u, ap (λ r. continue r.0 f r.1) e ∙ e')

  Returns-if :
      {A : Type 0} (b : Bool) (m n : Exec (Windows W) A)
      → Returns m
      → Returns n
      → Returns (if b then m else n)
  Returns-if true m n h k = h
  Returns-if false m n h k = k

  pure-Returns : {A : Type 0} (a : A) → Returns (pure a)
  pure-Returns a s = (a, s, refl)

  keep_error-Returns : Returns (keep_error api)
  unfolding keep_error
  keep_error-Returns s = (tt, _, refl)

  convert-Returns : (input : List ℕ) (size : ℕ) → Returns (convert api input size)
  unfolding convert
  convert-Returns input size s = (_, _, refl)

  allocate-Returns : (input : List ℕ) (size : ℕ) → Returns (allocate api input size)
  unfolding allocate
  allocate-Returns input size s =
      let memory = api.malloc (size * api.wchar_size) s.world in
      Returns-if memory.0 (convert api input size)
        (on_world api (λ w. (tt, api.set_last_error api.error_out_of_memory w)) >> pure none)
        (convert-Returns input size) (λ t. (none, _, refl)) (record s { world = memory.1 })

  utf8_to_wchar-Returns : (input : List ℕ) → Returns (utf8_to_wchar api input)
  unfolding utf8_to_wchar
  utf8_to_wchar-Returns input s =
      let size = api.wide_size input s.world in
      Returns-if (size.0 == 0) (pure none) (allocate api input size.0) (pure-Returns none)
        (allocate-Returns input size.0) (record s { world = size.1 })

  load-Returns : (name : Option (List ℕ)) → Returns (load api name)
  unfolding load
  load-Returns none s =
      Returns-bind {B = ℕ} (keep_error api) (λ _. pure 0) keep_error-Returns (λ _. pure-Returns 0) s
  load-Returns (some name) s =
      let mode = (api.get_error_mode s.world).0 in
      let opened =
        api.load_library name
          (api.set_error_mode (api.fail_critical mode) (api.get_error_mode s.world).1) in
      Returns-bind (if opened.0 == 0 then keep_error api else pure tt)
        (λ _. on_world api (λ w. (tt, api.set_error_mode mode w)) >> pure opened.0)
        (Returns-if (opened.0 == 0) (keep_error api) (pure tt) keep_error-Returns (pure-Returns tt))
        (λ _ t. (_, _, refl)) (record s { world = opened.1 })

  dlopen-Returns : (path : Option (List ℕ)) (mode : ℕ) → Returns (dlopen api path mode)
  unfolding dlopen
  dlopen-Returns none mode s = (_, _, refl)
  dlopen-Returns (some file) mode s =
      Returns-bind (utf8_to_wchar api file) (load api) (utf8_to_wchar-Returns file) load-Returns s

  opened :
      (fuel : ℕ) (path : Option (List ℕ)) (mode : Option ℕ) (d : Dynamic (Windows W)) (handle : ℕ)
      (s : Windows W)
      → dlopen api path (mode_of (windows api) mode) d.system ≡ (ok handle, s)
      → Opened path handle s (dynamic_library (windows api) (suc fuel) path mode d)
  unfolding dynamic_library dlerror follow
  opened fuel path mode d handle s opens = elim (Bool-cases (handle == 0)) [
    | inl null ↦ elim (Bool-cases (s.last_error == 0)) [
      | inl silent ↦
          unreported ((==_iff handle 0).0 null) ((==_iff s.last_error 0).0 silent)
            (rw (opens, null, silent) refl)
      | inr kept ↦
          refused ((==_iff handle 0).0 null) (λ e. cc (kept, (==_iff s.last_error 0).1 e))
            (rw (opens, null, kept, message_no_path s.last_error) refl)
    ]
    | inr found ↦ open' (λ e. cc (found, (==_iff handle 0).1 e)) (rw (opens, found) refl)
  ]

  -- On Windows `dlopen` returns, and the constructor, with any fuel above 0, has no more to do than
  -- to look at its handle: it returns with that or throws the message of the last error, or, where none
  -- was kept, the error of a method call on null. It never reads a linker script.
  pub dynamic_library-Opened :
      (fuel : ℕ) (path : Option (List ℕ)) (mode : Option ℕ) (d : Dynamic (Windows W))
      → (handle : ℕ) × (s : Windows W) × (dlopen api path (mode_of (windows api) mode) d.system
          ≡ (ok handle, s))
        × Opened path handle s (dynamic_library (windows api) (suc fuel) path mode d)
  dynamic_library-Opened fuel path mode d =
      let (handle, s, e) = dlopen-Returns path (mode_of (windows api) mode) d.system in
      (handle, s, e, opened fuel path mode d handle s e)
