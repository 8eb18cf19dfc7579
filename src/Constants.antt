-- ===== src/Constants.antt =====
-- src/ffi.cc: the object that `InitializeBindings` returns, which lib/bindings.js exports: the native
-- functions, libffi's constants, the flags of dlopen and dlsym, the sizes and the table of the types.
-- What the compiler and the headers of the build say is the parameter `Build`.
pub mod Set
pub mod Abis
pub mod Found
pub mod Exported
pub mod Flags
use node_ffi_napi.Prelude.{
  ℕ, ◌%◌, ◌^◌, String, Option, List, [], ◌∷◌, ◌++◌, map, Bool, ◌&&◌, ◌||◌, if◌then◌else◌,
}
use node_ffi_napi.Bindings.{FfiPtr, ffi_types}
use node_ffi_napi.Exports.{Object, empty, set_property}

-- A build of src/ffi.cc: which macros are defined, the value of a constant of libffi or the system as an
-- unsigned number, the pointer that a macro stands for, the sizes, and PACKAGE_VERSION.
pub record Build : Type 0 where
  pub is_defined : String → Bool
  pub constant : String → ℕ
  pub address : String → ℕ
  pub size_of : String → ℕ
  pub package_version : String

-- A property of the object: a string, a number, a Buffer at an address, a native function by its name,
-- FFI_TYPES, the object of `FFI::InitializeStaticFunctions`, or the class of `CallbackInfo::Initialize`.
pub data Property : Type 0 where
  text : String → Property
  number : ℕ → Property
  buffer_at : ℕ → Property
  native : String → Property
  type_table : (String → Option FfiPtr) → Property
  static_functions : Property
  callback_class : Property

abbrev pub Entries : Type 0
Entries = List (String × Property)

-- the names after SET_ENUM_VALUE on every platform
abbrev pub common_constants : List String
common_constants =
    "FFI_OK" ∷ "FFI_BAD_TYPEDEF" ∷ "FFI_BAD_ABI" ∷ "FFI_DEFAULT_ABI" ∷ "FFI_FIRST_ABI"
    ∷ "FFI_LAST_ABI" ∷ []

-- the names of the platform's own ABIs
unfoldable pub abi_names : Build → List String
abi_names b =
    if b.is_defined "__arm__"
    then "FFI_SYSV" ∷ "FFI_VFP" ∷ []
    else if b.is_defined "X86_WIN32"
    then "FFI_SYSV" ∷ "FFI_STDCALL" ∷ "FFI_THISCALL" ∷ "FFI_FASTCALL" ∷ "FFI_MS_CDECL" ∷ []
    else if b.is_defined "X86_WIN64"
    then "FFI_WIN64" ∷ []
    else if b.is_defined "__aarch64__"
    then "FFI_SYSV" ∷ []
    else if b.is_defined "X86_64" || (b.is_defined "__x86_64__" && b.is_defined "X86_DARWIN")
    then "FFI_UNIX64" ∷ []
    else "FFI_SYSV" ∷ []

abbrev pub dlopen_flags : List String
dlopen_flags =
    "RTLD_LAZY" ∷ "RTLD_NOW" ∷ "RTLD_LOCAL" ∷ "RTLD_GLOBAL" ∷ "RTLD_NOLOAD" ∷ "RTLD_NODELETE"
    ∷ "RTLD_FIRST" ∷ []

abbrev pub dlsym_flags : List String
dlsym_flags = "RTLD_NEXT" ∷ "RTLD_DEFAULT" ∷ "RTLD_SELF" ∷ "RTLD_MAIN_ONLY" ∷ []

-- the names of these that are macros of the build (`#ifdef`)
unfoldable pub defined_names : Build → List String → List String
defined_names b [] = []
defined_names b (k ∷ ks) =
    let rest = defined_names b ks in if b.is_defined k then k ∷ rest else rest

-- the value of SET_ENUM_VALUE: a `uint32_t`
abbrev pub enum_value : Build → String → Property
enum_value b k = number (b.constant k % 2 ^ 32)

abbrev pub with_values : (String → Property) → List String → Entries
with_values value = map (λ k. (k, value k))

abbrev pub first_entries : Build → Entries
first_entries b =
    ("version", text b.package_version)
    ∷ ("ffi_prep_cif", native "FFIPrepCif")
    ∷ ("ffi_prep_cif_var", native "FFIPrepCifVar")
    ∷ ("ffi_call", native "FFICall")
    ∷ ("ffi_call_async", native "FFICallAsync")
    ∷ []

abbrev pub last_entries : Build → Entries
last_entries b =
    ("FFI_ARG_SIZE", number (b.size_of "ffi_arg"))
    ∷ ("FFI_SARG_SIZE", number (b.size_of "ffi_sarg"))
    ∷ ("FFI_TYPE_SIZE", number (b.size_of "ffi_type"))
    ∷ ("FFI_CIF_SIZE", number (b.size_of "ffi_cif"))
    ∷ ("FFI_TYPES", type_table ffi_types)
    ∷ ("StaticFunctions", static_functions)
    ∷ ("Callback", callback_class)
    ∷ []

-- What is assigned to the object, in this order.
unfoldable pub entries : Build → Entries
entries b =
    first_entries b
    ++ with_values (enum_value b) common_constants
    ++ with_values (enum_value b) (abi_names b)
    ++ with_values (enum_value b) (defined_names b dlopen_flags)
    ++ with_values (λ k. buffer_at (b.address k)) (defined_names b dlsym_flags)
    ++ last_entries b

-- `target[k] = v`, one after the other
unfoldable pub set_entries : Entries → Object Property → Object Property
set_entries [] o = o
set_entries ((k, v) ∷ rest) o = set_entries rest (set_property k v o)

-- `InitializeBindings`, the exports of lib/bindings.js
unfoldable pub initialize_bindings : Build → Object Property
initialize_bindings b = set_entries (entries b) empty

-- `Object.keys(bindings)`, where no entry has the name of another
unfoldable pub binding_keys : Entries → List String
binding_keys [] = []
binding_keys ((k, v) ∷ rest) = k ∷ binding_keys rest
