-- ===== src/Exports.antt =====
-- lib/ffi.js and lib/dynamic_library.js: what the module exports of `bindings`, and the flags of
-- `DynamicLibrary`. An object is a function from the names of its own properties; `D` is the type of their
-- descriptors.
pub mod Found
pub mod Exported
use node_ffi_napi.Prelude.{String, Option, none, some, List, [], ◌∷◌, Bool, str_eq, if◌then◌else◌}
use text.Mathlib.Text.{starts_with}
use node_ffi_napi.Effect.{Result, type_error, Exec, pure, throw, modify, ◌>>=◌, ◌>>◌}

abbrev pub Object : Type 0 → Type 0
Object D = String → Option D

abbrev pub empty : {D : Type 0} → Object D
empty k = none

abbrev pub set_property : {D : Type 0} → String → D → Object D → Object D
set_property k v f j = if str_eq k j then some v else f j

-- `Object.defineProperty(object, k, desc)`; `desc` is none where it is undefined
unfoldable pub define_property : {D : Type 0} → String → Option D → Exec (Object D) Unit
define_property k none = throw (type_error "Property description must be an object")
define_property k (some desc) = modify (set_property k desc)

-- `/^RTLD_/.test(k)`
unfoldable pub is_flag : String → Bool
is_flag k = starts_with k "RTLD_"

-- The loop over the keys of `bindings` that fills `DynamicLibrary.FLAGS`.
unfoldable pub fill_flags : {D : Type 0} → Object D → List String → Exec (Object D) Unit
fill_flags bindings [] = pure tt
fill_flags bindings (k ∷ keys) = do
  if is_flag k then define_property k (bindings k) else pure tt
  fill_flags bindings keys

-- the names in lib/ffi.js of the properties of `bindings` that it exports
abbrev pub exported_names : List String
exported_names =
    "FFI_TYPES" ∷ "FFI_OK" ∷ "FFI_BAD_TYPEDEF" ∷ "FFI_BAD_ABI" ∷ "FFI_DEFAULT_ABI" ∷ "FFI_FIRST_ABI"
    ∷ "FFI_LAST_ABI" ∷ "FFI_SYSV" ∷ "FFI_UNIX64" ∷ "FFI_WIN64" ∷ "FFI_VFP" ∷ "FFI_STDCALL"
    ∷ "FFI_THISCALL" ∷ "FFI_FASTCALL" ∷ "RTLD_LAZY" ∷ "RTLD_NOW" ∷ "RTLD_LOCAL" ∷ "RTLD_GLOBAL"
    ∷ "RTLD_NOLOAD" ∷ "RTLD_NODELETE" ∷ "RTLD_FIRST" ∷ "RTLD_NEXT" ∷ "RTLD_DEFAULT" ∷ "RTLD_SELF"
    ∷ "RTLD_MAIN_ONLY" ∷ "FFI_MS_CDECL" ∷ []

-- one turn of the loop: nothing is exported where `bindings` has no such property
abbrev pub export_binding : {D : Type 0} → String → Option D → Exec (Object D) Unit
export_binding prop none = pure tt
export_binding prop (some desc) = define_property prop (some desc)

-- The loop over these names.
unfoldable pub export_bindings : {D : Type 0} → Object D → List String → Exec (Object D) Unit
unfolding define_property
export_bindings bindings [] = pure tt
export_bindings bindings (prop ∷ props) = do
  export_binding prop (bindings prop)
  export_bindings bindings props
