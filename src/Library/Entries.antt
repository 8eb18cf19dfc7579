-- ===== src/Library/Entries.antt =====
-- lib/library.js: the entry for one function.
use node_ffi_napi.Prelude.{
  ℕ, ◌≡◌, refl, inl, inr, Bool-cases, Option, some, List, [], Bool, true, false,
}
use node_ffi_napi.Effect.{ok, Exec, ◌>>=◌}
use node_ffi_napi.Effect.Laws.{Ensures, Ensures-pure, Ensures-bind, Ensures-run}
use node_ffi_napi.Types.{Types, Ref}
use node_ffi_napi.Cif.{Libffi}
use node_ffi_napi.Foreign.{Proxy, foreign_function}
use node_ffi_napi.Variadic.{Generator, Session, variadic_foreign_function}
use node_ffi_napi.Dynamic.{System}
use node_ffi_napi.Library.{
  Info, abi_of, async_of, varargs_of, Entry, function, async_function, variadic, entry_for,
  Building, on_types, on_session, make_entry,
}

module _ {S : Type 0} (sys : System S) (ref : Ref) (ffi : Libffi) (fuel long_size : ℕ) where
  -- The entry is what the information asks for, made for the C function at this address.
  abbrev pub IsMade : ℕ → Info → Entry → Type 0
  IsMade p info (function f) =
      (varargs_of info.fopts ≡ false)
      × (async_of info.fopts ≡ false)
      × (s t : Types) × (foreign_function ref ffi fuel long_size (some p) info.result_type
            info.param_types (abi_of info.fopts) s
          ≡ (ok f, t))
  IsMade p info (async_function f) =
      (varargs_of info.fopts ≡ false)
      × (async_of info.fopts ≡ true)
      × (s t : Types) × (foreign_function ref ffi fuel long_size (some p) info.result_type
            info.param_types (abi_of info.fopts) s
          ≡ (ok f, t))
  IsMade p info (variadic g cache) =
      (varargs_of info.fopts ≡ true)
      × (s t : Session) × (variadic_foreign_function ref ffi fuel long_size (some p)
            info.result_type info.param_types (abi_of info.fopts) s
          ≡ (ok g, t))
      × (t.cache ≡ cache)

  abbrev pub Lib : Type 0
  Lib = List ℕ → Option Entry

  -- what `make_entry` leaves alone
  pub record Same (s t : Building S) : Type 0 where
    pub lib : t.lib ≡ s.lib
    pub handle : t.dl.handle ≡ s.dl.handle

  on_types_run :
      {A : Type 0} (m : Exec Types A) (s : Building S)
      → Ensures
          (λ a t. (m s.types ≡ (ok a, t.types)) × Same s t)
          (λ _ t. Same s t)
          (on_types sys ref ffi fuel long_size m s)
  on_types_run m s = record {
    on_ok = λ a e. ((λ i. (e i, (m s.types).1)), record { lib = refl; handle = refl });
    on_err = λ x e. record { lib = refl; handle = refl };
  }

  abbrev started : Building S → Session
  started s = record { types = s.types; ids = s.ids; cache = [] }

  session_run :
      {A : Type 0} (m : Exec Session A) (s : Session)
      → Ensures
          (λ (a : A × List (List ℕ × Proxy)) u. (m s ≡ (ok a.0, u)) × (u.cache ≡ a.1))
          (λ _ _. Unit)
          ((m >>= λ a u. (ok (a, u.cache), u)) s)
  session_run m s =
      Ensures-bind m (λ a u. (ok (a, u.cache), u)) s (Ensures-run (m s))
        λ a u e. Ensures-pure (a, u.cache) u (e, refl)

  on_session_run :
      {A : Type 0} (m : Exec Session A) (s : Building S)
      → Ensures
          (λ a t. ((u : Session) × (m (started s) ≡ (ok a.0, u)) × (u.cache ≡ a.1)) × Same s t)
          (λ _ t. Same s t)
          (on_session sys ref ffi fuel long_size m s)
  on_session_run m s =
      let run = session_run m (started s) in
      record {
        on_ok = λ a e.
            ((_, (run.on_ok a e).0, (run.on_ok a e).1), record { lib = refl; handle = refl });
        on_err = λ x e. record { lib = refl; handle = refl };
      }

  pub make_entry-IsMade :
      (p : ℕ) (info : Info) (s : Building S)
      → Ensures
          (λ e t. IsMade p info e × Same s t)
          (λ _ t. Same s t)
          (make_entry sys ref ffi fuel long_size p info s)
  unfolding make_entry
  make_entry-IsMade p info s = elim (Bool-cases (varargs_of info.fopts)) [
    | inl varargs ↦ rw varargs (
        Ensures-bind (on_session sys ref ffi fuel long_size (made_variadic)) _ s
          (on_session_run made_variadic s)
          λ g t ((u, e, c), same).
            Ensures-pure (variadic g.0 g.1) t ((varargs, started s, u, e, c), same))
    | inr fixed ↦ rw fixed (
        Ensures-bind (on_types sys ref ffi fuel long_size made) _ s (on_types_run made s)
          λ f t (e, same).
            Ensures-pure (entry_for (async_of info.fopts) f) t
              (kind (async_of info.fopts) f t refl fixed e, same))
  ]
    where
      made : Exec Types Proxy
      made =
          foreign_function ref ffi fuel long_size (some p) info.result_type info.param_types
            (abi_of info.fopts)

      made_variadic : Exec Session Generator
      made_variadic =
          variadic_foreign_function ref ffi fuel long_size (some p) info.result_type
            info.param_types (abi_of info.fopts)

      kind :
          (async : Bool) (f : Proxy) (t : Building S)
          → async_of info.fopts ≡ async
          → varargs_of info.fopts ≡ false
          → made s.types ≡ (ok f, t.types)
          → IsMade p info (entry_for async f)
      kind true f t async fixed e = (fixed, async, s.types, t.types, e)
      kind false f t async fixed e = (fixed, async, s.types, t.types, e)
