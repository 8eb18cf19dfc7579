-- ===== src/Init.antt =====
-- lib/ffi.js: the `ffi_type` that the built-in types of ref-napi get when the module is loaded, and the
-- names of the Buffers in `FFI_TYPES`.
pub mod Tables
pub mod Loaded
use node_ffi_napi.Prelude.{
  ℕ, String, Option, none, some, List, [], ◌∷◌, Bool, true, false, ◌==◌, str_eq, if◌then◌else◌,
}
use node_ffi_napi.Effect.{null_value, unsupported_long, Exec, pure, throw, modify, ◌>>=◌, ◌>>◌}
use node_ffi_napi.Bindings.{FfiPtr, builtin, ffi_type_names, pointer_type}
use node_ffi_napi.Types.{Types, assign_ffi}

-- What the code takes from ref-napi: `ref.types`, as the type objects under their names, and
-- `ref.sizeof.long`.
pub record RefTypes : Type 0 where
  pub type_of : String → Option ℕ
  pub long_size : ℕ

-- What loading changes: the `ffi_type` of the types, and the property `name` of the Buffers.
pub record Loading : Type 0 where
  pub types : Types
  pub name : String → Option String

abbrev pub set_text : (String → Option String) → String → Option String → String → Option String
set_text f k v j = if str_eq k j then v else f j

-- `type.name = name`
abbrev pub assign_name : String → Exec Loading Unit
assign_name k = modify (λ s. record s { name = set_text s.name k (some k) })

-- `type.ffi_type = ptr` for a type object, or undefined
abbrev pub assign_to : Option ℕ → FfiPtr → Exec Loading Unit
assign_to none p = throw null_value
assign_to (some t) p = modify (λ s. record s { types = (assign_ffi t (some p) s.types).1 })

-- `a || b` for objects
abbrev pub or_else {ℓ} : {A : Type ℓ} → Option A → Option A → Option A
or_else (some a) b = some a
or_else none b = b

module _ (rt : RefTypes) where
  -- The loop over the names in `FFI_TYPES`; there is no "pointer" type.
  unfoldable pub assign_types : List String → Exec Loading Unit
  assign_types [] = pure tt
  assign_types (k ∷ names) = do
    assign_name k
    if str_eq k "pointer" then pure tt else assign_to (rt.type_of k) (builtin k)
    assign_types names

  -- `ref.types.CString || ref.types.Utf8String`
  abbrev pub cstring : Option ℕ
  cstring = or_else (rt.type_of "CString") (rt.type_of "Utf8String")

  -- the switch on `ref.sizeof.long`
  unfoldable pub assign_long : Exec Loading Unit
  assign_long =
      if rt.long_size == 4
      then (do
        assign_to (rt.type_of "ulong") (builtin "uint32")
        assign_to (rt.type_of "long") (builtin "int32"))
      else if rt.long_size == 8
      then (do
        assign_to (rt.type_of "ulong") (builtin "uint64")
        assign_to (rt.type_of "long") (builtin "int64"))
      else throw (unsupported_long rt.long_size)

  -- lib/ffi.js from the loop over `FFI_TYPES` to the switch
  unfoldable pub load : Exec Loading Unit
  load = do
    assign_types ffi_type_names
    assign_to (rt.type_of "size_t") pointer_type
    assign_to cstring pointer_type
    assign_to (rt.type_of "Object") pointer_type
    assign_long
