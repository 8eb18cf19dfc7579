-- ===== src/Static/Opened.antt =====
-- lib/dynamic_library.js: a library that is opened through the proxy of `dlopen`.
use node_ffi_napi.Prelude.{
  ℕ, suc, ◌*◌, ◌≡◌, ◌≢◌, ◌∙◌, refl, sym, ap, Option, some, List, [], ◌∷◌, arith,
}
use node_ffi_napi.Effect.{Result, ok, Exec}
use node_ffi_napi.Effect.Laws.{ok-injective}
use node_ffi_napi.Bindings.{builtin, pointer_type}
use node_ffi_napi.Types.{Ref, Types}
use node_ffi_napi.Types.Results.{CoerceLaws}
use node_ffi_napi.Cif.{Libffi}
use node_ffi_napi.Foreign.{read_result, Proxy, Native, call}
use node_ffi_napi.Foreign.Calls.{call_marshals}
use node_ffi_napi.Foreign.Marshal.{alloc_all}
use node_ffi_napi.Dynamic.{dynamic_library}
use node_ffi_napi.Dynamic.Chains.{opens, follows_scripts}
use node_ffi_napi.Static.{StaticFunctions, StaticTypes, Values, Proxies, load_proxies, system_of}
use node_ffi_napi.Static.Loaded.{IsReady, proxy_of, load_proxies_known}

module _ {M V : Type 0} (ref : Ref) (nat : Native M V) (vals : Values V) (ffi : Libffi)
    (types : StaticTypes) (laws : CoerceLaws ref) (fuel long_size text : ℕ) (s : Types)
    (ready : IsReady ref ffi types text s) (funcs : StaticFunctions)
    (read : List ℕ → Exec M (List ℕ)) (lazy : ℕ) where
  open nat use {alloc, ffi_call, deref}
  open vals use {string, number, to_address}

  -- `dlopen` of lib/dynamic_library.js
  abbrev pub dlopen_proxy : Proxy
  dlopen_proxy =
      proxy_of ref ffi types laws fuel long_size text s ready funcs.dlopen types.void_ptr
        pointer_type (text ∷ types.int ∷ []) (pointer_type ∷ builtin "int" ∷ [])

  -- After lib/dynamic_library.js is loaded, the constructor calls the C function `dlopen` once, with the
  -- addresses of the C string of the path and of the C int of the mode as its arguments, in this
  -- order; if the pointer that is read from its result is not NULL, the library is open, with this
  -- pointer as its handle.
  pub opens_through_proxy :
      (p : Proxies) (path : Option (List ℕ)) (mode old a b : ℕ) (was : Option (List ℕ)) (v : V)
      (m m1 m2 m3 : M)
      → load_proxies ref ffi (suc fuel) long_size types funcs s ≡ (ok p, s)
      → alloc text (string path) m ≡ (ok a, m1)
      → alloc types.int (number mode) m1 ≡ (ok b, m2)
      → read_result ref nat types.void_ptr (
          ffi_call dlopen_proxy.cif funcs.dlopen dlopen_proxy.result_size
            (record {
              size = 2 * ref.pointer_size;
              writes = (0 * ref.pointer_size, a) ∷ (1 * ref.pointer_size, b) ∷ [];
            })
            m2)
        ≡ (ok v, m3)
      → to_address v ≢ 0
      → dynamic_library
          (system_of ref nat vals read lazy p)
          1
          path
          (some mode)
          (record { system = m; path = was; handle = old })
        ≡ (ok tt, record { system = m3; path = path; handle = to_address v })
  unfolding alloc_all
  opens_through_proxy p path mode old a b was v m m1 m2 m3 loaded for_path for_mode result found =
      follows_scripts (system_of ref nat vals read lazy p) mode 0 1 path path was (to_address v) old
        m m3 (omega arith) found (opens (rw (same_proxy, called) refl))
    where
      same_proxy : p.dlopen ≡ dlopen_proxy
      same_proxy =
          ap (λ (q : Proxies). q.dlopen)
            (ok-injective (
              ap (λ (r : Result Proxies × Types). r.0)
                (sym loaded
                  ∙ load_proxies_known ref ffi types laws fuel long_size text s ready funcs)))

      called : call ref nat dlopen_proxy (string path ∷ number mode ∷ []) m ≡ (ok v, m3)
      called =
          (call_marshals ref nat dlopen_proxy (string path ∷ number mode ∷ []) (a ∷ b ∷ []) m m2
            refl (rw (for_path, for_mode) refl)).0
          ∙ result
