-- ===== src/Library/Returns.antt =====
-- lib/library.js on functions whose types have their `ffi_type`s.
use node_ffi_napi.Prelude.{
  ℕ, String, suc, ◌≡◌, ◌≢◌, ◌<◌, ◌∙◌, refl, sym, ap, subst, inl, inr, Bool-cases, ==_false, All,
  some, List, [], ◌∷◌, leb, if◌then◌else◌,
}
use node_ffi_napi.Effect.{ok, Exec}
use node_ffi_napi.Bindings.{FfiPtr}
use node_ffi_napi.Types.{Types, Ref, object}
use node_ffi_napi.Types.Known.{IsKnown}
use node_ffi_napi.Types.Results.{CoerceLaws}
use node_ffi_napi.Cif.{Libffi}
use node_ffi_napi.Foreign.{Proxy, objects, foreign_function}
use node_ffi_napi.Foreign.Made.{coerce_all_same}
use node_ffi_napi.Foreign.Exact.{AllKnown, description, verdict, foreign_function_known}
use node_ffi_napi.Variadic.{Generator, Session, get_ids, variadic_foreign_function}
use node_ffi_napi.Dynamic.{System, get}
use node_ffi_napi.Library.{
  ext, LibFile, Info, abi_of, async_of, varargs_of, Entry, entry_for, variadic, Building, set_entry,
  make_entry, define, define_all, open_library, library,
}

module _ {S : Type 0} (sys : System S) (ref : Ref) (laws : CoerceLaws ref) (ffi : Libffi)
    (fuel long_size : ℕ) where
  -- The types of the function have their `ffi_type`s, and libffi accepts them.
  pub record IsCallable (s : Types) (info : Info) : Type 0 where
    pub r : ℕ
    pub ts : List ℕ
    pub rp : FfiPtr
    pub ps : List FfiPtr
    pub result : info.result_type ≡ object r
    pub params : info.param_types ≡ some (objects ts)
    pub known : IsKnown ref s r rp
    pub all : AllKnown ref s ts ps
    pub accepted : verdict ref laws ffi fuel r ts rp ps (abi_of info.fopts) s ≡ ffi.status_ok
    pub sized : 0 < (ref.obj r).size

  -- The library has this symbol, in any state of the system.
  abbrev pub IsExported : ℕ → List ℕ → Type 0
  IsExported handle func =
      (s : S) → (p : ℕ) × (t : S) × (p ≢ 0) × (sys.dlsym handle func s ≡ (ok p, t))

  variadic_returns :
      (p : ℕ) (info : Info) (s : Session)
      → IsCallable s.types info
      → (g : Generator) × (t : Session) × (variadic_foreign_function ref ffi
            (suc fuel)
            long_size
            (some p)
            info.result_type
            info.param_types
            (abi_of info.fopts)
            s
          ≡ (ok g, t))
        × (t.types ≡ s.types)
  unfolding variadic_foreign_function
  variadic_returns p info s c = (
    record {
      func_ptr = p;
      return_type = object c.r;
      fixed_arg_types = c.ts;
      fixed_key = (get_ids c.ts s.ids).0;
      abi = abi_of info.fopts;
    },
    record { types = s.types; ids = (get_ids c.ts s.ids).1; cache = [] },
    rw (c.result, c.params, coerce_all_same ref laws c.ts s.types) refl,
    refl,
  )

  function_returns :
      (p : ℕ) (info : Info) (s : Types)
      → 0 < ffi.arg_size
      → IsCallable s info
      → (f : Proxy) × (foreign_function ref ffi
            (suc fuel)
            long_size
            (some p)
            info.result_type
            info.param_types
            (abi_of info.fopts)
            s
          ≡ (ok f, s))
  function_returns p info s wide c = (
    record {
      cif = description ref laws ffi fuel c.r c.ts c.rp c.ps (abi_of info.fopts) s;
      func_ptr = p;
      return_type = c.r;
      arg_types = c.ts;
      result_size = if leb long_size (ref.obj c.r).size then (ref.obj c.r).size else ffi.arg_size;
    },
    rw (c.result, c.params)
        (foreign_function_known ref laws ffi fuel c.r c.ts c.rp c.ps (abi_of info.fopts) s c.known
          c.all c.accepted long_size p c.sized wide),
  )

  -- what stays where an entry is made
  record Returns (m : Exec (Building S) Entry) (s : Building S) : Type 0 where
    entry : Entry
    t : Building S
    returned : m s ≡ (ok entry, t)
    types : t.types ≡ s.types
    dl : t.dl ≡ s.dl

  make_entry-Returns :
      (p : ℕ) (info : Info) (s : Building S)
      → 0 < ffi.arg_size
      → IsCallable s.types info
      → Returns (make_entry sys ref ffi (suc fuel) long_size p info) s
  unfolding make_entry
  make_entry-Returns p info s wide c = elim (Bool-cases (varargs_of info.fopts)) [
    | inl varargs ↦
        let (g, t, e, same) =
          variadic_returns p info (record { types = s.types; ids = s.ids; cache = [] }) c in
        record {
          entry = variadic g t.cache;
          t = record s { types = t.types; ids = t.ids };
          returned = rw (varargs, e) refl;
          types = same;
          dl = refl;
        }
    | inr fixed ↦
        let (f, e) = function_returns p info s.types wide c in
        record {
          entry = entry_for (async_of info.fopts) f;
          t = s;
          returned = rw (fixed, e) refl;
          types = refl;
          dl = refl;
        }
  ]

  -- what `forEach`'s function leaves
  record Proceeds (func : List ℕ) (info : Info) (s : Building S) : Type 0 where
    t : Building S
    returned : define sys ref ffi (suc fuel) long_size func info s ≡ (ok tt, t)
    types : t.types ≡ s.types
    handle : t.dl.handle ≡ s.dl.handle

  get_returns :
      (func : List ℕ) (s : Building S)
      → IsExported s.dl.handle func
      → (p : ℕ) × (u : S) × (p ≢ 0) × (get sys func s.dl ≡ (ok p, record (s.dl) { system = u }))
  unfolding get
  get_returns func s exported =
      let (p, u, there, e) = exported s.dl.system in (p, u, there, rw (e, ==_false p 0 there) refl)

  define_returns :
      (func : List ℕ) (info : Info) (s : Building S)
      → 0 < ffi.arg_size
      → IsExported s.dl.handle func
      → IsCallable s.types info
      → Proceeds func info s
  unfolding define
  define_returns func info s wide exported c =
      let (p, u, there, found) = get_returns func s exported in
      let s' : Building S = record s { dl = record (s.dl) { system = u } } in
      let made = make_entry-Returns p info s' wide c in
      record {
        t = record (made.t) { lib = set_entry made.t.lib func made.entry };
        returned = rw (found, ==_false p 0 there, made.returned) refl;
        types = made.types;
        handle = ap (λ d. d.handle) made.dl;
      }

  -- The library exports the function, and its types are known.
  abbrev pub IsUsable : ℕ → Types → List ℕ × Info → Type 0
  IsUsable handle s (func, info) = IsExported handle func × IsCallable s info

  define_all_returns :
      (funcs : List (List ℕ × Info)) (s : Building S)
      → 0 < ffi.arg_size
      → All (IsUsable s.dl.handle s.types) funcs
      → (t : Building S) × (define_all sys ref ffi (suc fuel) long_size funcs s ≡ (ok tt, t))
        × (t.types ≡ s.types)
  unfolding define_all
  define_all_returns [] s wide all = (s, refl, refl)
  define_all_returns ((func, info) ∷ funcs) s wide ((exported, c), all) =
      let d = define_returns func info s wide exported c in
      let (t, e, same) = define_all_returns funcs d.t wide (
        subst (λ h. All (IsUsable h d.t.types) funcs) (sym d.handle)
          (subst (λ t. All (IsUsable s.dl.handle t) funcs) (sym d.types) all)) in
      (t, rw (d.returned, e) refl, same ∙ d.types)

  -- Where the library is opened, or given, `Library` returns if that exports each of the functions that are
  -- named, and libffi accepts the types of each, which have their `ffi_type`s; after that it gives no type another.
  pub library_returns :
      (links : ℕ) (platform : String) (rtld_now : ℕ) (libfile : LibFile)
      (funcs : List (List ℕ × Info)) (s t : Building S)
      → open_library sys ref ffi (suc fuel) long_size links (ext platform) rtld_now libfile s
        ≡ (ok tt, t)
      → 0 < ffi.arg_size
      → All (IsUsable t.dl.handle t.types) funcs
      → (u : Building S) × (library sys ref ffi
            (suc fuel)
            long_size
            links
            platform
            rtld_now
            libfile
            funcs
            s
          ≡ (ok tt, u))
        × (u.types ≡ t.types)
  unfolding library
  library_returns links platform rtld_now libfile funcs s t opens wide all =
      let (u, e, same) = define_all_returns funcs t wide all in (u, rw opens e, same)
