-- ===== src/Tests/OnConstants.antt =====
-- src/ffi.cc: `InitializeBindings` on a build for Linux and x86-64, and on one for Windows.
use node_ffi_napi.Prelude.{◌≡◌, refl, String, none, some, true, str_eq, ◌||◌, if◌then◌else◌}
use node_ffi_napi.Effect.{ok}
use node_ffi_napi.Exports.{Object, empty, is_flag, fill_flags, exported_names, export_bindings}
use node_ffi_napi.Constants.{
  Build, Property, number, initialize_bindings, entries, set_entries, abi_names, defined_names,
  binding_keys,
}
use node_ffi_napi.Constants.Flags.{flags_agree}

abbrev linux_build : Build
linux_build = record {
  is_defined = λ k.
      str_eq k "X86_64"
      || (str_eq k "RTLD_LAZY" || (str_eq k "RTLD_NOW" || str_eq k "RTLD_DEFAULT"));
  constant = λ k.
      if str_eq k "RTLD_LAZY"
      then 1
      else if str_eq k "RTLD_NOW"
      then 2
      else if str_eq k "FFI_UNIX64"
      then 2
      else 0;
  address = λ k. 0;
  size_of = λ k. 8;
  package_version = "4.0.3";
}

abbrev windows_build : Build
windows_build = record linux_build { is_defined = λ k. str_eq k "X86_WIN64" }

test_now : initialize_bindings linux_build "RTLD_NOW" ≡ some (number 2)
unfolding initialize_bindings entries set_entries abi_names defined_names
test_now = refl

test_sysv : initialize_bindings linux_build "FFI_SYSV" ≡ none
unfolding initialize_bindings entries set_entries abi_names defined_names
test_sysv = refl

test_windows : initialize_bindings windows_build "RTLD_NOW" ≡ none
unfolding initialize_bindings entries set_entries abi_names defined_names
test_windows = refl

flags_agree_example :
    (e : Object Property) × (g : Object Property) × (export_bindings
        (initialize_bindings linux_build)
        exported_names
        empty
      ≡ (ok tt, e))
    × (fill_flags (initialize_bindings linux_build) (binding_keys (entries linux_build)) empty
        ≡ (ok tt, g))
    × ((k : String) → is_flag k ≡ true → e k ≡ g k)
flags_agree_example = flags_agree linux_build
