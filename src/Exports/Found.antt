-- ===== src/Exports/Found.antt =====
-- lib/ffi.js and lib/dynamic_library.js: the properties that are found on `exports` and on the flags.
use node_ffi_napi.Prelude.{
  ◌≡◌, ◌≢◌, ◌∙◌, refl, sym, subst, inl, inr, String, Option, none, some, Option-cases, List, [],
  ◌∷◌, Bool, true, false, Bool-cases, ◌&&◌, str_eq, eq_iff, if◌then◌else◌, All,
}
use node_ffi_napi.Effect.{ok}
use node_ffi_napi.Bindings.{has_name}
use node_ffi_napi.Exports.{Object, empty, set_property, define_property, is_flag, fill_flags}

pub str_self : (k : String) → str_eq k k ≡ true
str_self k = (eq_iff k k).1 refl

pub str_apart : (j k : String) → j ≢ k → str_eq j k ≡ false
str_apart j k h = elim (Bool-cases (str_eq j k)) [
  | inl same ↦ absurd (h ((eq_iff j k).0 same))
  | inr differ ↦ differ
]

module _ {D : Type 0} (bindings : Object D) where
  -- what the loop over these keys makes of the flags
  abbrev flag_of : List String → Object D → Object D
  flag_of keys f j = if is_flag j && has_name j keys then bindings j else f j

  flag_set :
      (k : String) (keys : List String) (d : D) (f : Object D)
      → is_flag k ≡ true
      → bindings k ≡ some d
      → (j : String) → flag_of keys (set_property k d f) j ≡ flag_of (k ∷ keys) f j
  unfolding has_name
  flag_set k keys d f flag has j = elim (Bool-cases (str_eq k j)) [
    | inl same ↦
        subst (λ i. flag_of keys (set_property k d f) i ≡ flag_of (k ∷ keys) f i)
          ((eq_iff k j).0 same)
          (elim (Bool-cases (has_name k keys)) [
            | inl again ↦ rw (flag, str_self k, again) refl
            | inr new ↦ rw (flag, str_self k, new) (sym has)
          ])
    | inr differ ↦ rw differ refl
  ]

  flag_skipped :
      (k : String) (keys : List String) (f : Object D)
      → is_flag k ≡ false
      → (j : String) → flag_of keys f j ≡ flag_of (k ∷ keys) f j
  unfolding has_name
  flag_skipped k keys f none' j = elim (Bool-cases (str_eq k j)) [
    | inl same ↦
        subst (λ i. flag_of keys f i ≡ flag_of (k ∷ keys) f i) ((eq_iff k j).0 same) (rw none' refl)
    | inr differ ↦ rw differ refl
  ]

  filled :
      (keys : List String) (f : Object D)
      → All (λ k. (d : D) × (bindings k ≡ some d)) keys
      → (g : Object D) × (fill_flags bindings keys f ≡ (ok tt, g))
        × ((j : String) → g j ≡ flag_of keys f j)
  unfolding fill_flags define_property has_name
  filled [] f has = (
    f,
    refl,
    λ j. elim (Bool-cases (is_flag j)) [ inl flag ↦ rw flag refl | inr other ↦ rw other refl ],
  )
  filled (k ∷ keys) f ((d, here), has) = elim (Bool-cases (is_flag k)) [
    | inl flag ↦
        let (g, run, found) = filled keys (set_property k d f) has in
        (g, rw (flag, here) run, λ j. found j ∙ flag_set k keys d f flag here j)
    | inr other ↦
        let (g, run, found) = filled keys f has in
        (g, rw other run, λ j. found j ∙ flag_skipped k keys f other j)
  ]

  -- The loop returns with the flags that are the properties of `bindings` whose names start with
  -- "RTLD_", and no others, if its keys are the names of the properties of `bindings`.
  pub flags_found :
      (keys : List String)
      → All (λ k. (d : D) × (bindings k ≡ some d)) keys
      → ((j : String) (d : D) → bindings j ≡ some d → has_name j keys ≡ true)
      → (g : Object D) × (fill_flags bindings keys empty ≡ (ok tt, g))
        × ((j : String) → g j ≡ (if is_flag j then bindings j else none))
  flags_found keys has complete =
      let (g, run, found) = filled keys empty has in
      (
        g,
        run,
        λ j. found j ∙ elim (Option-cases (bindings j)) [
          | inl absent ↦ elim (Bool-cases (is_flag j && has_name j keys)) [
            | inl there ↦ rw (there, absent) (same_branches (is_flag j) none)
            | inr not_there ↦ rw (not_there, absent) (same_branches (is_flag j) none)
          ]
          | inr (d, here) ↦ rw (complete j d here) (elim (Bool-cases (is_flag j)) [
            | inl flag ↦ rw flag refl
            | inr other ↦ rw other refl
          ])
        ],
      )
    where
      same_branches : (b : Bool) (x : Option D) → x ≡ (if b then x else x)
      same_branches true x = refl
      same_branches false x = refl
