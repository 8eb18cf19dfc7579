-- ===== src/Foreign/Exact.antt =====
-- lib/cif.js and lib/foreign_function.js on types that have their `ffi_type` already.
use mathlib.Core.List.{append-nil}
use node_ffi_napi.Prelude.{
  ℕ, suc, ◌+◌, ◌*◌, ◌≤◌, ◌<◌, ◌≡◌, ◌∙◌, refl, sym, ap, true, Option, none, some, List, [], ◌∷◌,
  ◌++◌, length, ◌==◌, ltb, leb, if◌then◌else◌, arith, Bool-cases, inl, inr, ==_iff,
}
use node_ffi_napi.Effect.{ok, err}
use node_ffi_napi.Bindings.{FfiPtr}
use node_ffi_napi.PointerArray
use node_ffi_napi.PointerArray.{PointerArray, placed, placed_next}
use node_ffi_napi.Types.{Types, TypeArg, object, Ref}
use node_ffi_napi.Types.Results.{CoerceLaws}
use node_ffi_napi.Types.Known.{IsKnown, ffi_type_of_known}
use node_ffi_napi.Cif.{
  Libffi, Cif, or_default, is_given, write_arg_types, status_error, cif, cif_var,
}
use node_ffi_napi.Foreign.{Proxy, make_proxy, objects, coerce_all, foreign_function}
use node_ffi_napi.Foreign.Made.{coerce_all_same}

pub length-objects : (ts : List ℕ) → length (objects ts) ≡ length ts
length-objects [] = refl
length-objects (t ∷ ts) = ap suc (length-objects ts)

-- These types have these `ffi_type`s.
abbrev pub AllKnown : Ref → Types → List ℕ → List FfiPtr → Type 0
AllKnown ref s [] [] = Unit
AllKnown ref s [] (p ∷ ps) = ⊥
AllKnown ref s (t ∷ ts) [] = ⊥
AllKnown ref s (t ∷ ts) (p ∷ ps) = IsKnown ref s t p × AllKnown ref s ts ps

module _ (ref : Ref) (laws : CoerceLaws ref) (ffi : Libffi) (fuel : ℕ) where
  write_arg_types_known :
      (ts : List ℕ) (ps : List FfiPtr) (i : ℕ) (b : PointerArray FfiPtr) (s : Types)
      → AllKnown ref s ts ps
      → write_arg_types ref ffi (suc fuel) (objects ts) i b s
        ≡ (ok (record b { writes = b.writes ++ placed ref.pointer_size i ps }), s)
  unfolding write_arg_types
  write_arg_types_known [] [] i b s h =
      ap (λ l. (ok (record b { writes = l }), s)) (sym (append-nil b.writes))
  write_arg_types_known [] (p ∷ ps) i b s h = absurd h
  write_arg_types_known (t ∷ ts) [] i b s h = absurd h
  write_arg_types_known (t ∷ ts) (p ∷ ps) i b s (here, h) =
      rw (ffi_type_of_known ref laws fuel t p s here) (
        write_arg_types_known ts ps (i + 1) (PointerArray.write_pointer p (i * ref.pointer_size) b)
          s h
        ∙ ap (λ l. (ok (record b { writes = l }), s))
            (placed_next ref.pointer_size i p ps b.writes))

  module _ (r : ℕ) (ts : List ℕ) (rp : FfiPtr) (ps : List FfiPtr) (abi : Option ℕ) (s : Types) where
    -- the description of this signature
    abbrev pub description : Cif
    description = record {
      fixed_args = none;
      num_args = length ts;
      return_type = rp;
      arg_types = record {
        size = length ts * ref.pointer_size;
        writes = placed ref.pointer_size 0 ps;
      };
      abi = or_default ffi.default_abi abi;
    }

    -- what libffi says to it
    abbrev pub verdict : ℕ
    verdict = ffi.prep_cif (length ts) rp description.arg_types description.abi

    written :
        AllKnown ref s ts ps
        → write_arg_types ref ffi
            (suc fuel)
            (objects ts)
            0
            (PointerArray.alloc (length ts * ref.pointer_size))
            s
          ≡ (ok description.arg_types, s)
    written all =
        write_arg_types_known ts ps 0 (PointerArray.alloc (length ts * ref.pointer_size)) s all

    -- For types that have their `ffi_type`s, `CIF` returns the description of these types if libffi
    -- accepts it, and otherwise throws the error of the status; it changes nothing.
    pub cif_known :
        IsKnown ref s r rp
        → AllKnown ref s ts ps
        → cif ref ffi (suc fuel) (object r) (some (objects ts)) abi s ≡ (
            if verdict == ffi.status_ok
            then (ok description, s)
            else (err (status_error ref ffi (suc fuel) "ffi_prep_cif" verdict none), s))
    unfolding cif
    cif_known known all = elim (Bool-cases (verdict == ffi.status_ok)) [
      | inl yes_ok ↦
          rw (length-objects ts, ffi_type_of_known ref laws fuel r rp s known, written all, yes_ok)
            refl
      | inr not_ok ↦
          rw (length-objects ts, ffi_type_of_known ref laws fuel r rp s known, written all, not_ok)
            refl
    ]

    -- what libffi says to it, where this many arguments are fixed
    abbrev pub verdict_var : ℕ → ℕ
    verdict_var fixed = ffi.prep_cif_var fixed (length ts) rp description.arg_types description.abi

    -- The same of `CIF_var`, if libffi accepts the description.
    pub cif_var_known :
        (fixed : ℕ)
        → 1 ≤ fixed
        → IsKnown ref s r rp
        → AllKnown ref s ts ps
        → verdict_var fixed ≡ ffi.status_ok
        → cif_var ref ffi (suc fuel) (object r) (some (objects ts)) fixed abi s
          ≡ (ok (record description { fixed_args = some fixed }), s)
    unfolding cif_var
    cif_var_known fixed some_fixed known all accepted =
        rw
          (
            at_least fixed some_fixed,
            length-objects ts,
            ffi_type_of_known ref laws fuel r rp s known,
            written all,
            (==_iff (verdict_var fixed) ffi.status_ok).1 accepted,
          )
          refl
      where
        at_least : (n : ℕ) → 1 ≤ n → leb 1 n ≡ true
        at_least n h = ground arith

    pub positive :
        (long_size : ℕ)
        → 0 < (ref.obj r).size
        → 0 < ffi.arg_size
        → ltb 0 (if leb long_size (ref.obj r).size then (ref.obj r).size else ffi.arg_size) ≡ true
    positive long_size sized wide = ground arith

    -- the function of that description
    abbrev pub described : (long_size func_ptr : ℕ) → Proxy
    described long_size func_ptr = record {
      cif = description;
      func_ptr = func_ptr;
      return_type = r;
      arg_types = ts;
      result_size = if leb long_size (ref.obj r).size then (ref.obj r).size else ffi.arg_size;
    }

    -- `ForeignFunction` on what `coerceType` makes these types of.
    pub foreign_function_coerced :
        IsKnown ref s r rp
        → AllKnown ref s ts ps
        → verdict ≡ ffi.status_ok
        → (long_size func_ptr : ℕ) → 0 < (ref.obj r).size
        → 0 < ffi.arg_size
        → (result : TypeArg) (args : List TypeArg) → is_given result ≡ true
        → ref.coerce_type result s ≡ (ok r, s)
        → coerce_all ref args s ≡ (ok ts, s)
        → foreign_function ref ffi (suc fuel) long_size (some func_ptr) result (some args) abi s
          ≡ (ok (described long_size func_ptr), s)
    unfolding foreign_function make_proxy
    foreign_function_coerced known all accepted long_size func_ptr sized wide result args given
          coerced coerced_all =
        rw
          (
            given,
            coerced,
            coerced_all,
            cif_known known all,
            (==_iff verdict ffi.status_ok).1 accepted,
            positive long_size sized wide,
          )
          refl

    -- For types that have their `ffi_type`s and whose description libffi accepts, `ForeignFunction`
    -- returns the function of that description, for the C function and these types, and changes nothing.
    pub foreign_function_known :
        IsKnown ref s r rp
        → AllKnown ref s ts ps
        → verdict ≡ ffi.status_ok
        → (long_size func_ptr : ℕ) → 0 < (ref.obj r).size
        → 0 < ffi.arg_size
        → foreign_function ref ffi
            (suc fuel)
            long_size
            (some func_ptr)
            (object r)
            (some (objects ts))
            abi
            s
          ≡ (
            ok (record {
              cif = description;
              func_ptr = func_ptr;
              return_type = r;
              arg_types = ts;
              result_size =
                  if leb long_size (ref.obj r).size then (ref.obj r).size else ffi.arg_size;
            }),
            s,
          )
    foreign_function_known known all accepted long_size func_ptr sized wide =
        foreign_function_coerced known all accepted long_size func_ptr sized wide (object r)
          (objects ts) refl (laws.same r s) (coerce_all_same ref laws ts s)
