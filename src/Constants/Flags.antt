-- ===== src/Constants/Flags.antt =====
-- src/ffi.cc, lib/ffi.js and lib/dynamic_library.js: the flags that are exported twice.
use node_ffi_napi.Prelude.{
  ◌≡◌, refl, sym, ◌∙◌, inl, inr, String, none, some, List, [], ◌∷◌, Bool, true, false, not, ◌||◌,
  Bool-cases, All, str_eq,
}
use node_ffi_napi.Effect.{ok}
use node_ffi_napi.Bindings.{has_name}
use node_ffi_napi.Exports.{Object, empty, is_flag, fill_flags, exported_names, export_bindings}
use node_ffi_napi.Exports.Found.{flags_found, str_self}
use node_ffi_napi.Exports.Exported.{loop_exports}
use node_ffi_napi.Constants.{
  Build, Property, buffer_at, abi_names, dlopen_flags, dlsym_flags, defined_names, enum_value,
  first_entries, last_entries, common_constants, entries, initialize_bindings, binding_keys,
}
use node_ffi_napi.Constants.Set.{
  every, of_every, every-defined_names, not_set, keys_found, every-groups,
}
use node_ffi_napi.Constants.Abis.{every-abi_names}

All-names :
    {P : String → Type 0} (ks : List String)
    → ((k : String) → has_name k ks ≡ true → P k)
    → All P ks
unfolding has_name
All-names [] h = tt
All-names (k ∷ ks) h = (h k here, All-names ks (λ j there. h j (later j there)))
  where
    here : has_name k (k ∷ ks) ≡ true
    here = rw (str_self k) refl

    later : (j : String) → has_name j ks ≡ true → has_name j (k ∷ ks) ≡ true
    later j there = elim (Bool-cases (str_eq k j)) [ inl e ↦ rw e refl | inr e ↦ rw e there ]

module _ (b : Build) where
  -- a flag among the properties is in the list of lib/ffi.js
  abbrev is_listed : String → Bool
  is_listed k = not (is_flag k) || has_name k exported_names

  all_listed : every is_listed (binding_keys (entries b)) ≡ true
  unfolding entries binding_keys has_name is_flag
  all_listed =
      every-groups is_listed (enum_value b) (λ k. buffer_at (b.address k)) common_constants
        (abi_names b) (defined_names b dlopen_flags) (defined_names b dlsym_flags) (first_entries b)
        (last_entries b) refl refl (every-abi_names is_listed b refl)
        (every-defined_names is_listed b dlopen_flags refl)
        (every-defined_names is_listed b dlsym_flags refl) refl

  unlisted :
      (k : String)
      → is_flag k ≡ true
      → has_name k exported_names ≡ false
      → initialize_bindings b k ≡ none
  unfolding initialize_bindings
  unlisted k flag absent = elim (Bool-cases (has_name k (binding_keys (entries b)))) [
    | inl there ↦
        let l : (not (is_flag k) || has_name k exported_names) ≡ true =
          of_every is_listed (binding_keys (entries b)) k all_listed there in
        cc (rw (flag, absent) at l)
    | inr other ↦ not_set (entries b) empty k other
  ]

  named :
      (j : String) (d : Property)
      → initialize_bindings b j ≡ some d
      → has_name j (binding_keys (entries b)) ≡ true
  unfolding initialize_bindings
  named j d here = elim (Bool-cases (has_name j (binding_keys (entries b)))) [
    | inl there ↦ there
    | inr absent ↦ cc (here, not_set (entries b) empty j absent)
  ]

  -- The loop of lib/ffi.js over its names and the loop of lib/dynamic_library.js over the keys, with what
  -- `InitializeBindings` returns on any build, both return, and the exports and the flags of
  -- `DynamicLibrary` then have the same properties whose names start with "RTLD_": each name is in both
  -- with the same value, or in neither.
  pub flags_agree :
      (e : Object Property) × (g : Object Property) × (export_bindings
          (initialize_bindings b)
          exported_names
          empty
        ≡ (ok tt, e))
      × (fill_flags (initialize_bindings b) (binding_keys (entries b)) empty ≡ (ok tt, g))
      × ((k : String) → is_flag k ≡ true → e k ≡ g k)
  unfolding initialize_bindings
  flags_agree =
      let (e, run, found) = loop_exports (initialize_bindings b) in
      let (g, filled, flag_in) =
        flags_found (initialize_bindings b) (binding_keys (entries b))
          (All-names (binding_keys (entries b)) (keys_found (entries b) empty)) named in
      (
        e,
        g,
        run,
        filled,
        λ k flag. found k ∙ elim (Bool-cases (has_name k exported_names)) [
          | inl there ↦ rw there (sym (flag_in k ∙ rw flag refl))
          | inr absent ↦ rw absent (sym (flag_in k ∙ rw flag (unlisted k flag absent)))
        ],
      )
