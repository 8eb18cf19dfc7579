-- ===== src/Constants/Exported.antt =====
-- src/ffi.cc with lib/ffi.js: the constants and flags that are exported.
use node_ffi_napi.Prelude.{◌≡◌, String, none, some, Bool, true, if◌then◌else◌, All}
use node_ffi_napi.Bindings.{has_name, ffi_types}
use node_ffi_napi.Exports.{Object, exported_names}
use node_ffi_napi.Constants.{
  Build, Property, buffer_at, type_table, common_constants, dlopen_flags, dlsym_flags, enum_value,
  initialize_bindings,
}
use node_ffi_napi.Constants.Abis.{abi_conditions}

module _ (b : Build) where
  -- The constants and the flags that the module exports.
  pub record AreConstants (e : Object Property) : Type 0 where
    pub common : (k : String) → has_name k common_constants ≡ true → e k ≡ some (enum_value b k)
    pub abis :
        All
          (λ (x : String × Bool). e x.0 ≡ (if x.1 then some (enum_value b x.0) else none))
          (abi_conditions b)
    pub for_dlopen :
        (k : String)
        → has_name k dlopen_flags ≡ true
        → e k ≡ (if b.is_defined k then some (enum_value b k) else none)
    pub for_dlsym :
        (k : String)
        → has_name k dlsym_flags ≡ true
        → e k ≡ (if b.is_defined k then some (buffer_at (b.address k)) else none)
    pub types : e "FFI_TYPES" ≡ some (type_table ffi_types)

  abbrev Found : Object Property → Type 0
  Found e =
      (k : String) → e k ≡ (if has_name k exported_names then initialize_bindings b k else none)
