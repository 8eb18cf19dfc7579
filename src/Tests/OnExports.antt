-- ===== src/Tests/OnExports.antt =====
-- lib/ffi.js and lib/dynamic_library.js on `bindings` with three properties.
use node_ffi_napi.Prelude.{String, ℕ, ◌≡◌, refl, none, some, [], ◌∷◌, str_eq, if◌then◌else◌}
use node_ffi_napi.Effect.{ok}
use node_ffi_napi.Bindings.{has_name}
use node_ffi_napi.Exports.{
  Object, empty, fill_flags, is_flag, define_property, export_bindings, exported_names,
}
use node_ffi_napi.Exports.Exported.{loop_exports}

abbrev test_bindings : Object ℕ
test_bindings k =
    if str_eq k "RTLD_LAZY"
    then some 1
    else if str_eq k "FFI_OK"
    then some 0
    else if str_eq k "FFI_CIF_SIZE"
    then some 32
    else none

test_flags :
    (fill_flags test_bindings ("FFI_OK" ∷ "RTLD_LAZY" ∷ "FFI_CIF_SIZE" ∷ []) empty).1 "RTLD_LAZY"
    ≡ some 1
unfolding fill_flags is_flag define_property
test_flags = refl

test_exports : (export_bindings test_bindings exported_names empty).1 "FFI_OK" ≡ some 0
unfolding export_bindings define_property
test_exports = refl

loop_exports_example :
    (e : Object ℕ) × (export_bindings test_bindings exported_names empty ≡ (ok tt, e))
    × ((k : String) → e k ≡ (if has_name k exported_names then test_bindings k else none))
loop_exports_example = loop_exports test_bindings
