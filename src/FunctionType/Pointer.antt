-- ===== src/FunctionType/Pointer.antt =====
-- lib/function.js with lib/type.js: the `ffi_type` of a function type.
use node_ffi_napi.Prelude.{ℕ, suc, ◌≡◌, refl, ap, none, some, List, ◌∷◌}
use node_ffi_napi.Effect.{ok}
use node_ffi_napi.Bindings.{pointer_type}
use node_ffi_napi.Types.{Types, object, Ref, chain, direct, read_ffi, ffi_type_of}
use node_ffi_napi.Types.Known.{IsKnown, ffi_type_of_known}
use node_ffi_napi.Types.Results.{CoerceLaws}
use node_ffi_napi.FunctionType.{function_object}

module _ (ref : Ref) (t prototype : ℕ) (above : List ℕ) (s : Types)
    (is_function : ref.obj t ≡ function_object ref.pointer_size (prototype ∷ above))
    (own : s.ffi_own t ≡ none) (inherited : s.ffi_own prototype ≡ some (some pointer_type)) where
  read_inherited : read_ffi s (chain ref t) ≡ some pointer_type
  unfolding read_ffi
  read_inherited = rw (own, is_function, inherited) refl

  -- A function type has the pointer type of its prototype.
  pub function-IsKnown : IsKnown ref s t pointer_type
  unfolding direct
  function-IsKnown = record {
    valid = rw is_function refl;
    set = rw (ap (λ o. o.indirection) is_function, read_inherited) refl;
  }

  -- `Type` of a function type is libffi's pointer type, which its prototype has, and is no copy of it on
  -- the object: nothing changes.
  pub function_is_pointer :
      CoerceLaws ref → (fuel : ℕ) → ffi_type_of ref (suc fuel) (object t) s ≡ (ok pointer_type, s)
  function_is_pointer laws fuel = ffi_type_of_known ref laws fuel t pointer_type s function-IsKnown
