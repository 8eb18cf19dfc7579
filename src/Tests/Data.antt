-- ===== src/Tests/Data.antt =====
-- A few type objects, a libffi that accepts what it is given, and a world with a counter for memory.
use node_ffi_napi.Prelude.{
  ℕ, ◌+◌, refl, none, some, List, [], ◌∷◌, ◌==◌, if◌then◌else◌, String, update,
}
use node_ffi_napi.Effect.{external, ok, err, Exec, pure, throw}
use node_ffi_napi.Bindings.{builtin}
use node_ffi_napi.PointerArray
use node_ffi_napi.PointerArray.{PointerArray}
use node_ffi_napi.Types.{Types, TypeObject, TypeArg, object, named, missing, Ref}
use node_ffi_napi.Types.Frame.{Framed, Framed-pure, Framed-throw}
use node_ffi_napi.Types.Results.{CoerceLaws}
use node_ffi_napi.Cif.{Libffi, Cif}
use node_ffi_napi.Foreign.{Proxy, Native, Loop}

abbrev pub bare_type : TypeObject
bare_type = record {
  name = none;
  size = 4;
  indirection = 1;
  element = none;
  fixed_length = 0;
  fields = none;
  prototypes = [];
}

-- the fields of `struct { int x; int y[2]; }`
abbrev pub point_fields : List (String × ℕ)
point_fields = ("x", 1) ∷ ("y", 3) ∷ []

-- 1 is "int", 2 a struct, 3 an array of two ints, 4 a type that libffi does not know, 0 its prototype.
abbrev pub test_object : ℕ → TypeObject
test_object t =
    if t == 1
    then record bare_type { name = some "int" }
    else if t == 2
    then record bare_type { fields = some point_fields; size = 12 }
    else if t == 3
    then record bare_type { element = some 1; fixed_length = 2; size = 8 }
    else if t == 4
    then record bare_type { name = some "blob"; prototypes = 0 ∷ [] }
    else bare_type

abbrev pub coerce : TypeArg → Exec Types ℕ
coerce (object t) = pure t
coerce (named _) = throw (external 0)
coerce missing = throw (external 0)

abbrev pub test_ref : Ref
test_ref = record { pointer_size = 8; obj = test_object; coerce_type = coerce }

pub keeps_structs : (a : TypeArg) → Framed (coerce a)
keeps_structs (object t) = Framed-pure t
keeps_structs (named _) = Framed-throw (external 0)
keeps_structs missing = Framed-throw (external 0)

pub test_laws : CoerceLaws test_ref
test_laws = record { same = λ t s. refl; keeps = keeps_structs }

abbrev pub start_types : Types
start_types = record {
  ffi_own = update (λ _. none) 1 (some (some (builtin "int")));
  struct = λ _. record { size = 0; alignment = 0; type = 0; elements = PointerArray.alloc 0 };
  next = 0;
}

abbrev pub test_libffi : Libffi
test_libffi = record {
  status_ok = 0;
  status_bad_typedef = 1;
  status_bad_abi = 2;
  default_abi = 2;
  arg_size = 8;
  prep_cif = λ n p b abi. if abi == 2 then 0 else 2;
  prep_cif_var = λ m n p b abi. if abi == 2 then 0 else 2;
}

abbrev pub test_cif : Cif
test_cif = record {
  fixed_args = none;
  num_args = 2;
  return_type = builtin "int";
  arg_types = PointerArray.alloc 16;
  abi = 2;
}

-- a function of two ints
abbrev pub test_proxy : Proxy
test_proxy = record {
  cif = test_cif;
  func_ptr = 500;
  return_type = 1;
  arg_types = 1 ∷ 1 ∷ [];
  result_size = 8;
}

-- A value that is 99 cannot be converted, one that is 100 is a function. The next free address is
-- the state, and a function returns the number of bytes of its argument array.
abbrev pub test_native : Native ℕ ℕ
test_native = record {
  alloc = λ type v s. if v == 99 then (err (external 7), s) else (ok s, s + 8);
  ffi_call = λ c p size b s. (b.size ∷ [], none, s + 1);
  deref = λ type bytes s. elim bytes [ [] ↦ (ok 0, s) | (b ∷ _) ↦ (ok b, s) ];
  is_function = λ v. v == 100;
}

abbrev pub idle : Loop ℕ ℕ
idle = record { native = 1000; tasks = []; called = [] }
