-- ===== src/Init/Tables.antt =====
-- lib/ffi.js: the loop over the names in `FFI_TYPES`.
use node_ffi_napi.Prelude.{
  ℕ, ◌≡◌, ◌≢◌, ◌∙◌, refl, inl, inr, String, some, List, [], ◌∷◌, Bool-cases, true, false, str_eq,
  eq_iff, if◌then◌else◌, All, update_self, update_ne, arith,
}
use node_ffi_napi.Effect.{ok}
use node_ffi_napi.Bindings.{builtin, has_name}
use node_ffi_napi.Types.{assign_ffi}
use node_ffi_napi.Init.{RefTypes, Loading, set_text, assign_types}

pub is_head :
    (j k : String) (names : List String)
    → has_name k (j ∷ names) ≡ true
    → has_name k names ≡ false
    → j ≡ k
unfolding has_name
is_head j k names h no_more = ground (arith, h, no_more, eq_iff j k)

not_head :
    (j k : String) (names : List String)
    → has_name k (j ∷ names) ≡ false
    → (j ≢ k) × (has_name k names ≡ false)
unfolding has_name
not_head j k names h = (λ e. ground (arith, h, (eq_iff j k).1 e), ground (arith, h))

no_name : (k : String) {C : Type 0} → has_name k [] ≡ true → C
unfolding has_name
no_name k h = cc

module _ (rt : RefTypes) (index : String → ℕ) where
  -- the state after one turn of the loop
  abbrev turn : String → Loading → Loading
  turn k s = if str_eq k "pointer" then record s { name = set_text s.name k (some k) } else record {
    types = (assign_ffi (index k) (some (builtin k)) s.types).1;
    name = set_text s.name k (some k);
  }

  -- the state after the loop
  pub after : List String → Loading → Loading
  after [] s = s
  after (k ∷ names) s = after names (turn k s)

  pub assign_types-after :
      (names : List String)
      → All (λ k. k ≢ "pointer" → rt.type_of k ≡ some (index k)) names
      → (s : Loading) → assign_types rt names s ≡ (ok tt, after names s)
  unfolding assign_types after
  assign_types-after [] h s = refl
  assign_types-after (k ∷ names) (here, h) s = elim (Bool-cases (str_eq k "pointer")) [
    | inl pointer ↦ rw pointer (assign_types-after names h _)
    | inr other ↦
        let set : rt.type_of k ≡ some (index k) =
          here (λ e. cc (other, (eq_iff k "pointer").1 e)) in
        rw (other, set) (assign_types-after names h _)
  ]

  turn-name_self : (k : String) (s : Loading) → (turn k s).name k ≡ some k
  turn-name_self k s = elim (Bool-cases (str_eq k "pointer")) [
    | inl pointer ↦ rw (pointer, (eq_iff k k).1 refl) refl
    | inr other ↦ rw (other, (eq_iff k k).1 refl) refl
  ]

  turn-name_other : (j k : String) (s : Loading) → str_eq j k ≡ false → (turn j s).name k ≡ s.name k
  turn-name_other j k s ne = elim (Bool-cases (str_eq j "pointer")) [
    | inl pointer ↦ rw (pointer, ne) refl
    | inr other ↦ rw (other, ne) refl
  ]

  after-name_other :
      (k : String) (names : List String) (s : Loading)
      → has_name k names ≡ false
      → (after names s).name k ≡ s.name k
  unfolding after has_name
  after-name_other k [] s h = refl
  after-name_other k (j ∷ names) s h =
      after-name_other k names (turn j s) (ground (arith, h))
      ∙ turn-name_other j k s (ground (arith, h))

  turn-own_self :
      (k : String) (s : Loading)
      → k ≢ "pointer"
      → (turn k s).types.ffi_own (index k) ≡ some (some (builtin k))
  turn-own_self k s ne = elim (Bool-cases (str_eq k "pointer")) [
    | inl pointer ↦ absurd (ne ((eq_iff k "pointer").0 pointer))
    | inr other ↦ rw other (update_self s.types.ffi_own (index k) _)
  ]

  -- the type object of this name is that of no other
  module _ (k : String) (distinct : (j : String) → index j ≡ index k → j ≡ k) where
    turn-own_other :
        (j : String) (s : Loading)
        → j ≢ k
        → (turn j s).types.ffi_own (index k) ≡ s.types.ffi_own (index k)
    turn-own_other j s ne = elim (Bool-cases (str_eq j "pointer")) [
      | inl pointer ↦ rw pointer refl
      | inr other ↦
          rw other (update_ne s.types.ffi_own (index j) (index k) _ (λ e. ne (distinct j e)))
    ]

    after-own_other :
        (names : List String) (s : Loading)
        → has_name k names ≡ false
        → (after names s).types.ffi_own (index k) ≡ s.types.ffi_own (index k)
    unfolding after
    after-own_other [] s h = refl
    after-own_other (j ∷ names) s h =
        let (ne, rest) = not_head j k names h in
        after-own_other names (turn j s) rest ∙ turn-own_other j s ne

    pub after-own :
        (names : List String) (s : Loading)
        → has_name k names ≡ true
        → k ≢ "pointer"
        → (after names s).types.ffi_own (index k) ≡ some (some (builtin k))
    unfolding after
    after-own [] s h ne = no_name k h
    after-own (j ∷ names) s h ne = elim (Bool-cases (has_name k names)) [
      | inl later ↦ after-own names (turn j s) later ne
      | inr no_more ↦
          let same : j ≡ k = is_head j k names h no_more in
          rw same (after-own_other names (turn k s) no_more ∙ turn-own_self k s ne)
    ]

  pub after-name :
      (k : String) (names : List String) (s : Loading)
      → has_name k names ≡ true
      → (after names s).name k ≡ some k
  unfolding after
  after-name k [] s h = no_name k h
  after-name k (j ∷ names) s h = elim (Bool-cases (has_name k names)) [
    | inl later ↦ after-name k names (turn j s) later
    | inr no_more ↦
        let same : j ≡ k = is_head j k names h no_more in
        rw same (after-name_other k names (turn k s) no_more ∙ turn-name_self k s)
  ]
