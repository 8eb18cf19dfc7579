-- ===== src/Exports/Exported.antt =====
-- lib/ffi.js: the properties that the loop over `bindings` puts on `exports`.
use node_ffi_napi.Prelude.{
  ◌≡◌, ◌∙◌, refl, subst, inl, inr, String, Option, none, some, Option-cases, List, [], ◌∷◌,
  Bool-cases, str_eq, eq_iff, if◌then◌else◌,
}
use node_ffi_napi.Effect.{ok}
use node_ffi_napi.Bindings.{has_name}
use node_ffi_napi.Exports.{
  Object, empty, set_property, define_property, exported_names, export_bindings,
}
use node_ffi_napi.Exports.Found.{str_self}

module _ {D : Type 0} (bindings : Object D) where
  -- what the loop over these names makes of the exports
  abbrev kept_or : Option D → Option D → Option D
  kept_or (some e) old = some e
  kept_or none old = old

  abbrev export_of : List String → Object D → Object D
  export_of names f j = if has_name j names then kept_or (bindings j) (f j) else f j

  export_set :
      (k : String) (names : List String) (d : D) (f : Object D)
      → bindings k ≡ some d
      → (j : String) → export_of names (set_property k d f) j ≡ export_of (k ∷ names) f j
  unfolding has_name
  export_set k names d f has j = elim (Bool-cases (str_eq k j)) [
    | inl same ↦
        subst (λ i. export_of names (set_property k d f) i ≡ export_of (k ∷ names) f i)
          ((eq_iff k j).0 same)
          (elim (Bool-cases (has_name k names)) [
            | inl again ↦ rw (has, str_self k, again) refl
            | inr new ↦ rw (has, str_self k, new) refl
          ])
    | inr differ ↦ rw differ refl
  ]

  export_skipped :
      (k : String) (names : List String) (f : Object D)
      → bindings k ≡ none
      → (j : String) → export_of names f j ≡ export_of (k ∷ names) f j
  unfolding has_name
  export_skipped k names f absent j = elim (Bool-cases (str_eq k j)) [
    | inl same ↦
        subst (λ i. export_of names f i ≡ export_of (k ∷ names) f i) ((eq_iff k j).0 same)
          (elim (Bool-cases (has_name k names)) [
            | inl again ↦ rw (absent, str_self k, again) refl
            | inr new ↦ rw (absent, str_self k, new) refl
          ])
    | inr differ ↦ rw differ refl
  ]

  exported :
      (names : List String) (f : Object D)
      → (g : Object D) × (export_bindings bindings names f ≡ (ok tt, g))
        × ((j : String) → g j ≡ export_of names f j)
  unfolding export_bindings define_property has_name
  exported [] f = (f, refl, λ j. refl)
  exported (k ∷ names) f = elim (Option-cases (bindings k)) [
    | inl absent ↦
        let (g, run, found) = exported names f in
        (g, rw absent run, λ j. found j ∙ export_skipped k names f absent j)
    | inr (d, here) ↦
        let (g, run, found) = exported names (set_property k d f) in
        (g, rw here run, λ j. found j ∙ export_set k names d f here j)
  ]

  -- The loop returns with the properties of `bindings` whose names are in its list, and no others.
  pub loop_exports :
      (e : Object D) × (export_bindings bindings exported_names empty ≡ (ok tt, e))
      × ((k : String) → e k ≡ (if has_name k exported_names then bindings k else none))
  loop_exports =
      let (e, run, found) = exported exported_names empty in
      (
        e,
        run,
        λ k. found k ∙ elim (Bool-cases (has_name k exported_names)) [
          | inl there ↦ rw there (elim (Option-cases (bindings k)) [
            | inl absent ↦ rw absent refl
            | inr (d, here) ↦ rw here refl
          ])
          | inr other ↦ rw other refl
        ],
      )
