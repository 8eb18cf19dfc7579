-- ===== src/Cif.antt =====
-- lib/cif.js and lib/cif_var.js: the `ffi_cif` that describes a signature to libffi.
pub mod Signature
use node_ffi_napi.Prelude.{
  ℕ, zero, suc, ◌+◌, ◌*◌, String, Option, none, some, List, [], ◌∷◌, Bool, true, false, ◌==◌, leb,
  is_some, if◌then◌else◌, length, str_eq, not,
}
use node_ffi_napi.Effect.{
  Exn, assertion, bad_typedef, bad_abi, prep_failed, Exec, pure, throw, ◌>>=◌, ◌>>◌, check,
}
use node_ffi_napi.Bindings.{FfiPtr}
use node_ffi_napi.PointerArray
use node_ffi_napi.PointerArray.{PointerArray}
use node_ffi_napi.Types.{Types, TypeArg, object, named, missing, Ref, ffi_type_of}

-- What the code takes from libffi through the bindings: the values of `ffi_status`, the default ABI,
-- the size of `ffi_arg`, and the two functions that prepare an `ffi_cif`, of which the JavaScript
-- code sees the status.
pub record Libffi : Type 0 where
  pub status_ok : ℕ
  pub status_bad_typedef : ℕ
  pub status_bad_abi : ℕ
  pub default_abi : ℕ
  pub arg_size : ℕ
  pub prep_cif : (nargs : ℕ) → FfiPtr → PointerArray FfiPtr → (abi : ℕ) → ℕ
  pub prep_cif_var : (nfixed ntotal : ℕ) → FfiPtr → PointerArray FfiPtr → (abi : ℕ) → ℕ

-- The Buffer that `CIF` and `CIF_var` return: what `ffi_prep_cif` was given for it.
pub record Cif : Type 0 where
  pub fixed_args : Option ℕ  -- of `ffi_prep_cif_var` only
  pub num_args : ℕ
  pub return_type : FfiPtr
  pub arg_types : PointerArray FfiPtr
  pub abi : ℕ

-- `!!type`
abbrev pub is_given : TypeArg → Bool
is_given (object _) = true
is_given (named n) = not (str_eq n "")
is_given missing = false

abbrev pub or_default : ℕ → Option ℕ → ℕ
or_default d none = d
or_default d (some abi) = abi

module _ (ref : Ref) (ffi : Libffi) (fuel : ℕ) where
  -- The loop that writes the `ffi_type` of each argument to `_argtypesptr`.
  unfoldable pub write_arg_types :
      List TypeArg → ℕ → PointerArray FfiPtr → Exec Types (PointerArray FfiPtr)
  write_arg_types [] i buffer = pure buffer
  write_arg_types (type ∷ types) i buffer = do
    ffi_type ← ffi_type_of ref fuel type
    write_arg_types types (i + 1)
        (PointerArray.write_pointer ffi_type (i * ref.pointer_size) buffer)

  -- The error that is thrown for a status; `errno` is what the last case sets.
  abbrev pub status_error : String → ℕ → Option ℕ → Exn
  status_error function status errno =
      if status == ffi.status_bad_typedef
      then bad_typedef function status
      else if status == ffi.status_bad_abi
      then bad_abi function status
      else prep_failed function status errno

  -- `CIF(rtype, types, abi)`; `types` is none where it is no Array, `abi` where it is undefined
  unfoldable pub cif : TypeArg → Option (List TypeArg) → Option ℕ → Exec Types Cif
  unfolding write_arg_types
  cif rtype none abi = do
    check (is_given rtype) (assertion "expected a return type object as the first argument")
    throw (assertion "expected an Array of arg type objects as the second argument")
  cif rtype (some types) abi = do
    check (is_given rtype) (assertion "expected a return type object as the first argument")
    let num_args = length types
    rtype_ptr ← ffi_type_of ref fuel rtype
    arg_types ← write_arg_types types 0 (PointerArray.alloc (num_args * ref.pointer_size))
    let abi' = or_default ffi.default_abi abi
    let status = ffi.prep_cif num_args rtype_ptr arg_types abi'
    check (status == ffi.status_ok) (status_error "ffi_prep_cif" status none)
    pure (record {
      fixed_args = none;
      num_args = num_args;
      return_type = rtype_ptr;
      arg_types = arg_types;
      abi = abi';
    })

  -- `CIF_var(rtype, types, numFixedArgs, abi)`
  unfoldable pub cif_var : TypeArg → Option (List TypeArg) → ℕ → Option ℕ → Exec Types Cif
  unfolding write_arg_types
  cif_var rtype none num_fixed abi = do
    check (is_given rtype) (assertion "expected a return type object as the first argument")
    throw (assertion "expected an Array of arg type objects as the second argument")
  cif_var rtype (some types) num_fixed abi = do
    check (is_given rtype) (assertion "expected a return type object as the first argument")
    check (leb 1 num_fixed) (assertion "expected the number of fixed arguments to be at least 1")
    let num_total = length types
    rtype_ptr ← ffi_type_of ref fuel rtype
    arg_types ← write_arg_types types 0 (PointerArray.alloc (num_total * ref.pointer_size))
    let abi' = or_default ffi.default_abi abi
    let status = ffi.prep_cif_var num_fixed num_total rtype_ptr arg_types abi'
    check (status == ffi.status_ok) (status_error "ffi_prep_cif_var" status (some status))
    pure (record {
      fixed_args = some num_fixed;
      num_args = num_total;
      return_type = rtype_ptr;
      arg_types = arg_types;
      abi = abi';
    })
