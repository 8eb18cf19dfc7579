-- ===== src/Constants/Abis.antt =====
-- src/ffi.cc: the names that a platform has for the ABIs of its own.
use node_ffi_napi.Prelude.{
  ◌≡◌, refl, inl, inr, String, List, [], ◌∷◌, Bool, true, not, ◌&&◌, ◌||◌, Bool-cases, arith, All,
}
use node_ffi_napi.Bindings.{has_name}
use node_ffi_napi.Constants.{Build, abi_names}
use node_ffi_napi.Constants.Set.{every}

-- every name that some platform has for an ABI of its own
abbrev pub platform_abis : List String
platform_abis =
    "FFI_SYSV" ∷ "FFI_VFP" ∷ "FFI_STDCALL" ∷ "FFI_THISCALL" ∷ "FFI_FASTCALL" ∷ "FFI_MS_CDECL"
    ∷ "FFI_WIN64" ∷ "FFI_UNIX64" ∷ []

pub every-abi_names :
    (p : String → Bool) (b : Build) → every p platform_abis ≡ true → every p (abi_names b) ≡ true
unfolding abi_names
every-abi_names p b h = elim (Bool-cases (b.is_defined "__arm__")) [
  | inl e0 ↦ rw e0 (grind (arith, h))
  | inr e0 ↦ elim (Bool-cases (b.is_defined "X86_WIN32")) [
    | inl e1 ↦ rw (e0, e1) (grind (arith, h))
    | inr e1 ↦ elim (Bool-cases (b.is_defined "X86_WIN64")) [
      | inl e2 ↦ rw (e0, e1, e2) (grind (arith, h))
      | inr e2 ↦ elim (Bool-cases (b.is_defined "__aarch64__")) [
        | inl e3 ↦ rw (e0, e1, e2, e3) (grind (arith, h))
        | inr e3 ↦
            elim (Bool-cases
              (b.is_defined "X86_64" || (b.is_defined "__x86_64__" && b.is_defined "X86_DARWIN"))) [
                | inl e4 ↦ rw (e0, e1, e2, e3, e4) (grind (arith, h))
                | inr e4 ↦ rw (e0, e1, e2, e3, e4) (grind (arith, h))
              ]
      ]
    ]
  ]
]

module _ (b : Build) where
  -- the platforms, told apart by the macros in the order of the tests
  abbrev pub is_unix64 : Bool
  is_unix64 = b.is_defined "X86_64" || (b.is_defined "__x86_64__" && b.is_defined "X86_DARWIN")

  abbrev pub is_win32 : Bool
  is_win32 = not (b.is_defined "__arm__") && b.is_defined "X86_WIN32"

  abbrev pub is_win64 : Bool
  is_win64 = not (b.is_defined "__arm__" || b.is_defined "X86_WIN32") && b.is_defined "X86_WIN64"

  -- neither 32-bit ARM nor Windows
  abbrev pub is_other : Bool
  is_other = not (b.is_defined "__arm__" || (b.is_defined "X86_WIN32" || b.is_defined "X86_WIN64"))

  -- each ABI's name, and whether the platform has it
  abbrev pub abi_conditions : List (String × Bool)
  abi_conditions =
      (
        "FFI_SYSV",
        b.is_defined "__arm__"
            || (is_win32 || (is_other && (b.is_defined "__aarch64__" || not is_unix64))),
      )
      ∷ ("FFI_VFP", b.is_defined "__arm__")
      ∷ ("FFI_STDCALL", is_win32)
      ∷ ("FFI_THISCALL", is_win32)
      ∷ ("FFI_FASTCALL", is_win32)
      ∷ ("FFI_MS_CDECL", is_win32)
      ∷ ("FFI_WIN64", is_win64)
      ∷ ("FFI_UNIX64", is_other && (not (b.is_defined "__aarch64__") && is_unix64))
      ∷ []

  pub abis-AreNamed :
      All
        (λ (x : String × Bool).
          (has_name x.0 platform_abis ≡ true) × (has_name x.0 (abi_names b) ≡ x.1))
        abi_conditions
  unfolding has_name abi_names
  abis-AreNamed = (
    (refl, ground arith),
    (
      (refl, ground arith),
      (
        (refl, ground arith),
        (
          (refl, ground arith),
          (
            (refl, ground arith),
            ((refl, ground arith), ((refl, ground arith), ((refl, ground arith), tt))),
          ),
        ),
      ),
    ),
  )
