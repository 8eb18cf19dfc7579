-- ===== src/Static/Loaded.antt =====
-- lib/dynamic_library.js: the proxies of the functions of the system.
use node_ffi_napi.Prelude.{
  ℕ, suc, ◌<◌, ◌*◌, ◌≡◌, ◌⊎◌, inl, inr, refl, subst, true, none, List, [], ◌∷◌, All, length,
}
use node_ffi_napi.Effect.{ok}
use node_ffi_napi.PointerArray.{placed}
use node_ffi_napi.Bindings.{FfiPtr, builtin, pointer_type}
use node_ffi_napi.Types.{Types, TypeArg, object, named, Ref}
use node_ffi_napi.Types.Results.{CoerceLaws}
use node_ffi_napi.Types.Known.{IsKnown, pointer-IsKnown}
use node_ffi_napi.Cif.{Libffi, is_given}
use node_ffi_napi.Foreign.{Proxy, coerce_all}
use node_ffi_napi.Foreign.Exact.{AllKnown, described, foreign_function_coerced}
use node_ffi_napi.Static.{StaticFunctions, StaticTypes, load_proxies, foreign}

module _ (ref : Ref) (ffi : Libffi) (types : StaticTypes) where
  -- libffi's type of ints or of pointers
  abbrev pub IsWord : FfiPtr → Type 0
  IsWord p = (p ≡ builtin "int") ⊎ (p ≡ pointer_type)

  -- What the code finds: the types as ref-napi documents them and lib/ffi.js has set them, and a libffi
  -- that accepts, under the default ABI, well-formed descriptions of ints and pointers.
  pub record IsReady (text : ℕ) (s : Types) : Type 0 where
    pub string_named : ref.coerce_type (named "string") s ≡ (ok text, s)
    pub int_named : ref.coerce_type (named "int") s ≡ (ok types.int, s)
    pub string_known : IsKnown ref s text pointer_type
    pub int_known : IsKnown ref s types.int (builtin "int")
    pub void_pointer : 1 < (ref.obj types.void_ptr).indirection
    pub int_pointer : 1 < (ref.obj types.int_ptr).indirection
    pub string_sized : 0 < (ref.obj text).size
    pub int_sized : 0 < (ref.obj types.int).size
    pub pointer_sized : 0 < (ref.obj types.void_ptr).size
    pub int_pointer_sized : 0 < (ref.obj types.int_ptr).size
    pub wide : 0 < ffi.arg_size
    pub accepts :
        (result : FfiPtr) (ps : List FfiPtr)
        → All IsWord (result ∷ ps)
        → ffi.prep_cif
            (length ps)
            result
            (record { size = length ps * ref.pointer_size; writes = placed ref.pointer_size 0 ps })
            ffi.default_abi
          ≡ ffi.status_ok

  module _ (laws : CoerceLaws ref) (fuel long_size text : ℕ) (s : Types)
      (ready : IsReady text s) where
    -- the proxy of the C function at this address, of this signature
    abbrev pub proxy_of : ℕ → ℕ → FfiPtr → List ℕ → List FfiPtr → Proxy
    proxy_of ptr r rp ts ps = described ref laws ffi fuel r ts rp ps none s long_size ptr

    pub foreign_known :
        (ptr r : ℕ) (rp : FfiPtr) (ts : List ℕ) (ps : List FfiPtr) (result : TypeArg)
        (args : List TypeArg)
        → IsKnown ref s r rp
        → AllKnown ref s ts ps
        → length ps ≡ length ts
        → All IsWord (rp ∷ ps)
        → 0 < (ref.obj r).size
        → is_given result ≡ true
        → ref.coerce_type result s ≡ (ok r, s)
        → coerce_all ref args s ≡ (ok ts, s)
        → foreign ref ffi (suc fuel) long_size types ptr result args s
          ≡ (ok (proxy_of ptr r rp ts ps), s)
    foreign_known ptr r rp ts ps result args known all counted words sized given coerced
          coerced_all =
        foreign_function_coerced ref laws ffi fuel r ts rp ps none s known all
          (subst
            (λ n.
              ffi.prep_cif n rp
                (record { size = n * ref.pointer_size; writes = placed ref.pointer_size 0 ps })
                ffi.default_abi
              ≡ ffi.status_ok)
            counted (ready.accepts rp ps words))
          long_size ptr sized ready.wide result args given coerced coerced_all

    void_ptr-IsKnown : IsKnown ref s types.void_ptr pointer_type
    void_ptr-IsKnown = pointer-IsKnown ref s types.void_ptr ready.void_pointer

    -- Loading lib/dynamic_library.js makes the four functions, each of its own C function, and changes
    -- nothing: `dlopen` and `dlsym` return a pointer, `dlclose` an int and `dlerror` a string; `dlopen` takes
    -- a string and an int, `dlclose` a pointer, `dlsym` a pointer and a string, and `dlerror` nothing.
    pub load_proxies_known :
        (funcs : StaticFunctions)
        → load_proxies ref ffi (suc fuel) long_size types funcs s ≡ (
          ok (record {
            dlopen =
                proxy_of funcs.dlopen types.void_ptr pointer_type
                  (text ∷ types.int ∷ [])
                  (pointer_type ∷ builtin "int" ∷ []);
            dlclose =
                proxy_of funcs.dlclose types.int
                  (builtin "int")
                  (types.void_ptr ∷ [])
                  (pointer_type ∷ []);
            dlsym =
                proxy_of funcs.dlsym types.void_ptr pointer_type
                  (types.void_ptr ∷ text ∷ [])
                  (pointer_type ∷ pointer_type ∷ []);
            dlerror = proxy_of funcs.dlerror text pointer_type [] [];
          }),
          s,
        )
    unfolding load_proxies coerce_all
    load_proxies_known funcs =
        rw
          (
            foreign_known funcs.dlopen types.void_ptr pointer_type (text ∷ types.int ∷ [])
                (pointer_type ∷ builtin "int" ∷ []) (object types.void_ptr)
                (named "string" ∷ object types.int ∷ []) void_ptr-IsKnown
                (ready.string_known, (ready.int_known, tt)) refl
                (inr refl, (inr refl, (inl refl, tt))) ready.pointer_sized refl
                (laws.same types.void_ptr s) (rw (ready.string_named, laws.same types.int s) refl),
            foreign_known funcs.dlclose types.int (builtin "int") (types.void_ptr ∷ [])
                (pointer_type ∷ []) (object types.int) (object types.void_ptr ∷ []) ready.int_known
                (void_ptr-IsKnown, tt) refl (inl refl, (inr refl, tt)) ready.int_sized refl
                (laws.same types.int s) (rw (laws.same types.void_ptr s) refl),
            foreign_known funcs.dlsym types.void_ptr pointer_type (types.void_ptr ∷ text ∷ [])
                (pointer_type ∷ pointer_type ∷ []) (object types.void_ptr)
                (object types.void_ptr ∷ named "string" ∷ []) void_ptr-IsKnown
                (void_ptr-IsKnown, (ready.string_known, tt)) refl
                (inr refl, (inr refl, (inr refl, tt))) ready.pointer_sized refl
                (laws.same types.void_ptr s)
                (rw (laws.same types.void_ptr s, ready.string_named) refl),
            foreign_known funcs.dlerror text pointer_type [] [] (named "string") []
                ready.string_known tt refl (inr refl, tt) ready.string_sized refl ready.string_named
                refl,
          )
          refl
