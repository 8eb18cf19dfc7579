-- ===== src/Foreign/Structs.antt =====
-- lib/foreign_function.js, lib/cif.js and lib/type.js: a function with a struct as its argument.
use node_ffi_napi.Prelude.{ℕ, ◌+◌, ◌*◌, String, Option, none, some, List, [], ◌∷◌, update}
use node_ffi_napi.Bindings.{FfiPtr, made}
use node_ffi_napi.Types.{Types, Ref}
use node_ffi_napi.Types.Results.{CoerceLaws}
use node_ffi_napi.Types.Structs.{struct_of}
use node_ffi_napi.Cif.{Libffi, Cif, or_default}

module _ (ref : Ref) (laws : CoerceLaws ref) (ffi : Libffi) (fuel r t : ℕ) (rp : FfiPtr)
    (fs : List (String × ℕ)) (ps : List FfiPtr) (abi : Option ℕ) (s : Types) where
  -- the types after the struct was made
  abbrev pub with_struct : Types
  with_struct = record {
    ffi_own = update s.ffi_own t (some (some (made s.next)));
    struct = update s.struct s.next (struct_of ref ps);
    next = s.next + 1;
  }

  -- the description of a function with the struct as its argument
  abbrev pub struct_description : Cif
  struct_description = record {
    fixed_args = none;
    num_args = 1;
    return_type = rp;
    arg_types = record {
      size = 1 * ref.pointer_size;
      writes = (0 * ref.pointer_size, made s.next) ∷ [];
    };
    abi = or_default ffi.default_abi abi;
  }
