-- ===== src/Constants/Found.antt =====
-- src/ffi.cc: the constants and flags that are found on the object.
use node_ffi_napi.Prelude.{
  ◌≡◌, refl, ◌∙◌, inl, inr, String, none, some, List, Bool, true, false, not, ◌&&◌, ◌||◌,
  Bool-cases, if◌then◌else◌, arith,
}
use node_ffi_napi.Bindings.{has_name, ffi_types}
use node_ffi_napi.Exports.{empty}
use node_ffi_napi.Constants.{
  Build, Property, buffer_at, type_table, common_constants, abi_names, dlopen_flags, dlsym_flags,
  defined_names, enum_value, first_entries, last_entries, entries, set_entries, initialize_bindings,
  binding_keys,
}
use node_ffi_napi.Constants.Set.{every, of_every, has_name-defined_names, set_groups, set_last}
use node_ffi_napi.Constants.Abis.{platform_abis, every-abi_names}

module _ (b : Build) where
  -- no constant and no flag has a name of the first entries or of the last
  abbrev is_plain : String → Bool
  is_plain k =
      not
        (has_name k (binding_keys (first_entries b)) || has_name k (binding_keys (last_entries b)))

  pub found :
      (k : String)
      → is_plain k ≡ true
      → initialize_bindings b k ≡ (
          if b.is_defined k && has_name k dlsym_flags
          then some (buffer_at (b.address k))
          else if (b.is_defined k && has_name k dlopen_flags)
              || (has_name k (abi_names b) || has_name k common_constants)
          then some (enum_value b k)
          else none)
  unfolding initialize_bindings entries
  found k plain =
      set_groups (enum_value b) (λ j. buffer_at (b.address j)) common_constants (abi_names b)
        (defined_names b dlopen_flags) (defined_names b dlsym_flags) (first_entries b)
        (last_entries b) empty k (grind (arith, plain)) (grind (arith, plain))
      ∙ rw (has_name-defined_names b k dlsym_flags, has_name-defined_names b k dlopen_flags) refl

  apart :
      (ks js : List String) (k : String)
      → every (λ i. not (has_name i js)) ks ≡ true
      → has_name k ks ≡ true
      → has_name k js ≡ false
  apart ks js k all there = grind (arith, of_every (λ i. not (has_name i js)) ks k all there)

  no_abi : (k : String) → has_name k platform_abis ≡ false → has_name k (abi_names b) ≡ false
  unfolding has_name
  no_abi k absent = elim (Bool-cases (has_name k (abi_names b))) [
    | inl there ↦ cc (
      absent,
      of_every (λ i. has_name i platform_abis) (abi_names b) k
          (every-abi_names (λ i. has_name i platform_abis) b refl) there,
    )
    | inr none' ↦ none'
  ]

  pub common_found :
      (k : String)
      → has_name k common_constants ≡ true
      → initialize_bindings b k ≡ some (enum_value b k)
  unfolding has_name binding_keys
  common_found k there =
      found k (of_every is_plain common_constants k refl there)
      ∙ rw
          (
            there,
            apart common_constants dlsym_flags k refl there,
            apart common_constants dlopen_flags k refl there,
            no_abi k (apart common_constants platform_abis k refl there),
          )
          (elim (Bool-cases (b.is_defined k)) [ inl d ↦ rw d refl | inr d ↦ rw d refl ])

  same_branch :
      (c : Bool) (d : Property)
      → (if c || false then some d else none) ≡ (if c then some d else none)
  same_branch true d = refl
  same_branch false d = refl

  pub abi_found :
      (k : String)
      → has_name k platform_abis ≡ true
      → initialize_bindings b k ≡ (if has_name k (abi_names b) then some (enum_value b k) else none)
  unfolding has_name binding_keys
  abi_found k there =
      found k (of_every is_plain platform_abis k refl there)
      ∙ rw
          (
            apart platform_abis dlsym_flags k refl there,
            apart platform_abis dlopen_flags k refl there,
            apart platform_abis common_constants k refl there,
          )
          (elim (Bool-cases (b.is_defined k)) [
            | inl d ↦ rw d (same_branch (has_name k (abi_names b)) _)
            | inr d ↦ rw d (same_branch (has_name k (abi_names b)) _)
          ])

  pub dlopen_found :
      (k : String)
      → has_name k dlopen_flags ≡ true
      → initialize_bindings b k ≡ (if b.is_defined k then some (enum_value b k) else none)
  unfolding has_name binding_keys
  dlopen_found k there =
      found k (of_every is_plain dlopen_flags k refl there)
      ∙ rw
          (
            there,
            apart dlopen_flags dlsym_flags k refl there,
            apart dlopen_flags common_constants k refl there,
            no_abi k (apart dlopen_flags platform_abis k refl there),
          )
          (elim (Bool-cases (b.is_defined k)) [ inl d ↦ rw d refl | inr d ↦ rw d refl ])

  pub dlsym_found :
      (k : String)
      → has_name k dlsym_flags ≡ true
      → initialize_bindings b k ≡ (if b.is_defined k then some (buffer_at (b.address k)) else none)
  unfolding has_name binding_keys
  dlsym_found k there =
      found k (of_every is_plain dlsym_flags k refl there)
      ∙ rw
          (
            there,
            apart dlsym_flags dlopen_flags k refl there,
            apart dlsym_flags common_constants k refl there,
            no_abi k (apart dlsym_flags platform_abis k refl there),
          )
          (elim (Bool-cases (b.is_defined k)) [ inl d ↦ rw d refl | inr d ↦ rw d refl ])

  pub types_found : initialize_bindings b "FFI_TYPES" ≡ some (type_table ffi_types)
  unfolding initialize_bindings entries set_entries
  types_found =
      set_last (enum_value b) (λ j. buffer_at (b.address j)) common_constants (abi_names b)
        (defined_names b dlopen_flags) (defined_names b dlsym_flags) (first_entries b)
        (last_entries b) empty "FFI_TYPES" (type_table ffi_types) (λ q. refl)
