-- ===== src/Types/Known.antt =====
-- lib/type.js: the types that have an `ffi_type` already.
use node_ffi_napi.Prelude.{ℕ, suc, ◌≡◌, ◌∙◌, ◌<◌, refl, some, true, false, leb, ◌==◌, arith}
use node_ffi_napi.Effect.{ok, Exec}
use node_ffi_napi.Bindings.{FfiPtr, pointer_type}
use node_ffi_napi.Types.{
  Types, TypeArg, object, Ref, read_ffi, direct, or_array, or_struct, or_named, resolve,
  ffi_type_of,
}
use node_ffi_napi.Types.Results.{CoerceLaws, resolved}

-- A type for which `Type` finds this `ffi_type` without making or looking up anything: the object or a
-- prototype has it, or the type is a pointer or an array.
pub record IsKnown (ref : Ref) (s : Types) (t : ℕ) (p : FfiPtr) : Type 0 where
  pub valid : leb 1 (ref.obj t).indirection ≡ true
  pub set : or_array ref t (direct ref t s) ≡ some p

module _ (ref : Ref) where
  resolve_known :
      (rec : TypeArg → Exec Types FfiPtr) (t : ℕ) (p : FfiPtr) (s : Types)
      → IsKnown ref s t p
      → resolve ref rec t s ≡ (ok p, s)
  unfolding resolve or_struct or_named
  resolve_known rec t p s known = rw (known.valid, known.set) refl

  -- `Type` returns that, and changes nothing.
  pub ffi_type_of_known :
      CoerceLaws ref
      → (fuel t : ℕ) (p : FfiPtr) (s : Types) → IsKnown ref s t p
      → ffi_type_of ref (suc fuel) (object t) s ≡ (ok p, s)
  ffi_type_of_known laws fuel t p s known =
      resolved ref laws fuel t s ∙ resolve_known (ffi_type_of ref fuel) t p s known

  -- An own `ffi_type` is the one that is read.
  pub own-IsKnown :
      (s : Types) (t : ℕ) (p : FfiPtr)
      → (ref.obj t).indirection ≡ 1
      → s.ffi_own t ≡ some (some p)
      → IsKnown ref s t p
  unfolding direct read_ffi
  own-IsKnown s t p single own = record { valid = rw single refl; set = rw (single, own) refl }

  -- A pointer to something has the `ffi_type` of pointers.
  pub pointer-IsKnown :
      (s : Types) (t : ℕ) → 1 < (ref.obj t).indirection → IsKnown ref s t pointer_type
  unfolding direct
  pointer-IsKnown s t several = record {
    valid = at_least (ref.obj t).indirection several;
    set = rw (not_one (ref.obj t).indirection several) refl;
  }
    where
      at_least : (n : ℕ) → 1 < n → leb 1 n ≡ true
      at_least n h = ground arith

      not_one : (n : ℕ) → 1 < n → (n == 1) ≡ false
      not_one n h = ground arith
