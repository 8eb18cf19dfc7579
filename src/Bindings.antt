-- ===== src/Bindings.antt =====
-- src/ffi.cc: the table of libffi's built-in types that `FFI::InitializeBindings` hands to JavaScript,
-- and the pointers to `ffi_type` that the JavaScript code passes around.
use node_ffi_napi.Prelude.{
  ℕ, String, Option, none, some, List, [], ◌∷◌, str_eq, Bool, false, ◌||◌, if◌then◌else◌,
}

-- A Buffer that points to an `ffi_type`: an entry of `FFI_TYPES` under its key, the struct that
-- lib/type.js has made as its n-th, or `ref.NULL`.
pub data FfiPtr : Type 0 where
  builtin : (key : String) → FfiPtr
  made : (index : ℕ) → FfiPtr
  ref_null : FfiPtr

-- the keys of `ftmap`, in its order
abbrev pub ffi_type_names : List String
ffi_type_names =
    "void" ∷ "uint8" ∷ "int8" ∷ "uint16" ∷ "int16" ∷ "uint32" ∷ "int32" ∷ "uint64" ∷ "int64"
    ∷ "uchar" ∷ "char" ∷ "ushort" ∷ "short" ∷ "uint" ∷ "int" ∷ "float" ∷ "double" ∷ "pointer"
    ∷ "ulonglong" ∷ "longlong" ∷ []

unfoldable pub has_name : String → List String → Bool
has_name k [] = false
has_name k (j ∷ js) = str_eq j k || has_name k js

-- `bindings.FFI_TYPES[name]`, for a name that is no property of `Object.prototype`
unfoldable pub ffi_types : String → Option FfiPtr
unfolding has_name
ffi_types k = if has_name k ffi_type_names then some (builtin k) else none

-- `bindings.FFI_TYPES.pointer`
abbrev pub pointer_type : FfiPtr
pointer_type = builtin "pointer"
