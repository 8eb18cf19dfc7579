-- ===== src/FunctionType/Round.antt =====
-- lib/function.js: a JavaScript function that is put in memory as a function pointer, and taken out.
use node_ffi_napi.Prelude.{
  ℕ, suc, ◌<◌, ◌≡◌, refl, some, List, ==_iff, leb, if◌then◌else◌, update, update_self,
}
use node_ffi_napi.Effect.{ok}
use node_ffi_napi.Bindings.{FfiPtr}
use node_ffi_napi.Types.{Types, Ref}
use node_ffi_napi.Types.Known.{IsKnown}
use node_ffi_napi.Types.Results.{CoerceLaws}
use node_ffi_napi.Cif.{Libffi, Cif}
use node_ffi_napi.Foreign.{Proxy}
use node_ffi_napi.Foreign.Made.{coerce_all_same}
use node_ffi_napi.Foreign.Exact.{AllKnown, description, verdict, cif_known, foreign_function_known}
use node_ffi_napi.Callback.{Func, CallbackInfo, Making, Closures, new_closure, callback}
use node_ffi_napi.FunctionType.{
  FunctionType, Pointers, Space, function, to_pointer, to_function, get, set,
}

module _ {S V : Type 0} (ref : Ref) (laws : CoerceLaws ref) (ffi : Libffi) (clo : Closures S V)
    (ptrs : Pointers S) (fuel long_size : ℕ) (f : FunctionType) (rp : FfiPtr) (ps : List FfiPtr)
    (fn : Func S V) (s : Space S V) where
  abbrev types : Types
  types = s.making.types

  -- what `CIF` describes
  abbrev pub signature : Cif
  signature = description ref laws ffi fuel f.ret_type f.arg_types rp ps (some f.abi) types

  -- what libffi keeps of the closure
  abbrev pub info : CallbackInfo S V
  info = record {
    cif = signature;
    ret_type = f.ret_type;
    arg_types = f.arg_types;
    result_size = (ref.obj f.ret_type).size;
    function = some fn;
  }

  -- the function that is taken out
  abbrev pub taken : ℕ → Proxy
  taken code = record {
    cif = signature;
    func_ptr = code;
    return_type = f.ret_type;
    arg_types = f.arg_types;
    result_size =
        if leb long_size (ref.obj f.ret_type).size then (ref.obj f.ret_type).size else ffi.arg_size;
  }

  -- the state with the closure
  abbrev pub closed : ℕ → Making S V
  closed code = record (s.making) { closures = update s.making.closures code (some info) }

  module _ (code : ℕ) (known : IsKnown ref types f.ret_type rp)
      (all : AllKnown ref types f.arg_types ps)
      (accepted : verdict ref laws ffi fuel f.ret_type f.arg_types rp ps (some f.abi) types
        ≡ ffi.status_ok) where
    pointer_made :
        clo.closure_alloc s.making.closures ≡ some code
        → clo.prep_closure signature code ≡ ffi.status_ok
        → to_pointer ref ffi clo ptrs (suc fuel) long_size f fn s.making ≡ (ok code, closed code)
    unfolding to_pointer callback new_closure
    pointer_made room prepared =
        rw
          (
            laws.same f.ret_type types,
            coerce_all_same ref laws f.arg_types types,
            cif_known ref laws ffi fuel f.ret_type f.arg_types rp ps (some f.abi) types known all,
            (==_iff _ _).1 accepted,
            room,
            (==_iff _ _).1 prepared,
          )
          refl

    function_taken :
        0 < (ref.obj f.ret_type).size
        → 0 < ffi.arg_size
        → to_function ref ffi clo ptrs (suc fuel) long_size f code types ≡ (ok (taken code), types)
    unfolding to_function
    function_taken sized wide =
        foreign_function_known ref laws ffi fuel f.ret_type f.arg_types rp ps (some f.abi) types
          known all accepted long_size code sized wide

    -- A JavaScript function that `set` puts in a function pointer comes out of `get` as a function that
    -- calls the closure of that function, with the types of this type: where the types have their
    -- `ffi_type`s, libffi accepts their description and makes a closure, and what is written at the place
    -- is read there. The closure holds the function, and the state of the types is as before.
    pub set_then_get :
        (place offset : ℕ) (n : S)
        → 0 < (ref.obj f.ret_type).size
        → 0 < ffi.arg_size
        → clo.closure_alloc s.making.closures ≡ some code
        → clo.prep_closure signature code ≡ ffi.status_ok
        → ptrs.write_pointer place offset code s.native ≡ (ok tt, n)
        → ptrs.read_pointer place offset n ≡ (ok code, n)
        → (t : Space S V) × (set ref ffi clo ptrs
              (suc fuel)
              long_size
              f
              place
              offset
              (function fn)
              s
            ≡ (ok tt, t))
          × (get ref ffi clo ptrs (suc fuel) long_size f place offset t ≡ (ok (taken code), t))
          × (t.making.closures code ≡ some info)
          × (t.making.types ≡ types)
    unfolding set get
    set_then_get place offset n sized wide room prepared written reads = (
      record { native = n; making = closed code },
      rw (pointer_made room prepared, written) refl,
      rw (reads, function_taken sized wide) refl,
      update_self s.making.closures code (some info),
      refl,
    )
