-- ===== src/Variadic/Known.antt =====
-- lib/foreign_function_var.js: the ids that types have.
use node_ffi_napi.Prelude.{
  ℕ, zero, suc, ◌+◌, ◌≤◌, ◌<◌, ◌≡◌, ◌≢◌, ◌∙◌, refl, sym, ap, inl, inr, Bool-cases, none, some,
  Option-cases, List, [], ◌∷◌, ◌++◌, All, ◌==◌, ==_iff, update_self, arith,
}
use node_ffi_napi.Variadic.{id_text, hex, Ids, next_id, get_id}
use node_ffi_napi.Variadic.Split.{IsPart}
use node_ffi_napi.Variadic.Keys.{IsUsual, id_text-IsPart, id_text-injective}

-- the type has this id
abbrev pub HasId : Ids → ℕ → List ℕ → Type 0
HasId i t s = i.id_of t ≡ some s

-- The ids are the texts of counters that were used, and no two types share one.
pub record IdsOk (i : Ids) : Type 0 where
  pub limited : i.counter ≤ 0x10000
  pub known : (t : ℕ) (s : List ℕ) → HasId i t s → (c : ℕ) × (c < i.counter) × (s ≡ id_text c)
  pub once : (t u : ℕ) (s : List ℕ) → HasId i t s → HasId i u s → t ≡ u

-- An id, once given, stays.
pub record Extends (i j : Ids) : Type 0 where
  pub grows : i.counter ≤ j.counter
  pub kept : (t : ℕ) (s : List ℕ) → HasId i t s → HasId j t s

pub Extends-refl : (i : Ids) → Extends i i
Extends-refl i = record { grows = omega arith; kept = λ t s h. h }

pub Extends-trans : {i j k : Ids} → Extends i j → Extends j k → Extends i k
Extends-trans e f = record {
  grows = omega (arith, e.grows, f.grows);
  kept = λ t s h. f.kept t s (e.kept t s h);
}

zero_text : id_text 0 ≡ b'0' ∷ []
unfolding id_text hex
zero_text = refl

no_zero : (c : ℕ) {C : Type 0} → IsUsual c → id_text c ≡ id_text 0 → C
no_zero c h e = let p = id_text-IsPart c h in absurd (p.not_zero (cc (p.starts, e, zero_text)))

-- Texts of different counters differ, that of 0 included.
pub id_text_eq : (c d : ℕ) → c < 0x10000 → d < 0x10000 → id_text c ≡ id_text d → c ≡ d
id_text_eq zero zero h l e = refl
id_text_eq zero (suc d) h l e = no_zero (suc d) (omega arith, l) (sym e)
id_text_eq (suc c) zero h l e = no_zero (suc c) (omega arith, h) e
id_text_eq (suc c) (suc d) h l e =
    id_text-injective (suc c) (suc d) (omega arith, h) (omega arith, l) e

-- What `getId` gives for a type.
pub record GotId (t : ℕ) (i : Ids) (r : List ℕ × Ids) : Type 0 where
  pub fine : IdsOk r.1
  pub extends : Extends i r.1
  pub has : HasId r.1 t r.0
  pub one_more : r.1.counter ≤ i.counter + 1

module _ (t : ℕ) (i : Ids) (fine : IdsOk i) where
  new_kept : i.id_of t ≡ none → Extends i (next_id t i none).1
  new_kept new = record {
    grows = omega arith;
    kept = λ u s h. elim (Bool-cases (t == u)) [
      | inl same ↦ cc (ap i.id_of ((==_iff t u).0 same))
      | inr other ↦ rw other h
    ];
  }

  new_known :
      (u : ℕ) (s : List ℕ)
      → HasId (next_id t i none).1 u s
      → (c : ℕ) × (c < i.counter + 1) × (s ≡ id_text c)
  new_known u s h = elim (Bool-cases (t == u)) [
    | inl same ↦ (i.counter, omega arith, cc (rw same at h))
    | inr other ↦ let (c, l, e) = fine.known u s (rw other at h) in (c, omega arith, e)
  ]

  -- an old id is not the new one
  not_new : i.counter < 0x10000 → (u : ℕ) {C : Type 0} → HasId i u (id_text i.counter) → C
  not_new room u h =
      let (c, l, e) = fine.known u (id_text i.counter) h in
      let same : i.counter ≡ c = id_text_eq i.counter c room (omega arith) e in absurd (omega arith)

  new_once :
      i.counter < 0x10000
      → (u v : ℕ) (s : List ℕ) → HasId (next_id t i none).1 u s
      → HasId (next_id t i none).1 v s
      → u ≡ v
  new_once room u v s h k = elim (Bool-cases (t == u)) [
    | inl at_u ↦ elim (Bool-cases (t == v)) [
      | inl at_v ↦ sym ((==_iff t u).0 at_u) ∙ (==_iff t v).0 at_v
      | inr off_v ↦ not_new room v (rw off_v at k ∙ sym (rw at_u at h))
    ]
    | inr off_u ↦ elim (Bool-cases (t == v)) [
      | inl at_v ↦ not_new room u (rw off_u at h ∙ sym (rw at_v at k))
      | inr off_v ↦ fine.once u v s (rw off_u at h) (rw off_v at k)
    ]
  ]

  -- `getId` keeps the ids distinct, while fewer than 65536 were given.
  pub get_id-GotId : i.counter < 0x10000 → GotId t i (get_id t i)
  unfolding get_id
  get_id-GotId room = elim (Option-cases (i.id_of t)) [
    | inl new ↦ rw new (record {
      fine = record { limited = omega arith; known = new_known; once = new_once room };
      extends = new_kept new;
      has = update_self i.id_of t _;
      one_more = omega arith;
    })
    | inr (s, old) ↦
        rw old (record { fine = fine; extends = Extends-refl i; has = old; one_more = omega arith })
  ]

-- the ids of several types
abbrev pub HasIds : Ids → List ℕ → List (List ℕ) → Type 0
HasIds i [] [] = Unit
HasIds i [] (k ∷ ks) = ⊥
HasIds i (t ∷ ts) [] = ⊥
HasIds i (t ∷ ts) (k ∷ ks) = HasId i t k × HasIds i ts ks

pub HasIds-Extends :
    {i j : Ids} (ts : List ℕ) (ks : List (List ℕ)) → Extends i j → HasIds i ts ks → HasIds j ts ks
HasIds-Extends [] [] e h = tt
HasIds-Extends [] (k ∷ ks) e h = absurd h
HasIds-Extends (t ∷ ts) [] e h = absurd h
HasIds-Extends (t ∷ ts) (k ∷ ks) e h = (e.kept t k h.0, HasIds-Extends ts ks e h.1)

pub HasIds-append :
    (i : Ids) (ts us : List ℕ) (ks ls : List (List ℕ))
    → HasIds i ts ks
    → HasIds i us ls
    → HasIds i (ts ++ us) (ks ++ ls)
HasIds-append i [] us [] ls h k = k
HasIds-append i [] us (x ∷ ks) ls h k = absurd h
HasIds-append i (t ∷ ts) us [] ls h k = absurd h
HasIds-append i (t ∷ ts) us (x ∷ ks) ls h k = (h.0, HasIds-append i ts us ks ls h.1 k)

-- The ids tell the types.
pub HasIds-once :
    (i : Ids)
    → IdsOk i
    → (ts us : List ℕ) (ks : List (List ℕ)) → HasIds i ts ks
    → HasIds i us ks
    → ts ≡ us
HasIds-once i ok [] [] ks h k = refl
HasIds-once i ok [] (u ∷ us) [] h k = absurd k
HasIds-once i ok [] (u ∷ us) (x ∷ ks) h k = absurd h
HasIds-once i ok (t ∷ ts) us [] h k = absurd h
HasIds-once i ok (t ∷ ts) [] (x ∷ ks) h k = absurd k
HasIds-once i ok (t ∷ ts) (u ∷ us) (x ∷ ks) h k =
    cc (ok.once t u x h.0 k.0, HasIds-once i ok ts us ks h.1 k.1)

-- An id other than "0" is a part of a key that can be cut out again.
pub HasId-IsPart :
    (i : Ids) → IdsOk i → (t : ℕ) (s : List ℕ) → HasId i t s → s ≢ b'0' ∷ [] → IsPart s
HasId-IsPart i ok t s h plain =
    let (c, l, e) = ok.known t s h in
    rw e (id_text-IsPart c (above c (rw e at plain), omega (arith, ok.limited)))
  where
    above : (c : ℕ) → id_text c ≢ b'0' ∷ [] → 0 < c
    above zero p = absurd (p zero_text)
    above (suc c) p = omega arith

pub HasIds-IsPart :
    (i : Ids)
    → IdsOk i
    → (ts : List ℕ) (ks : List (List ℕ)) → HasIds i ts ks
    → All (λ k. k ≢ b'0' ∷ []) ks
    → All IsPart ks
HasIds-IsPart i ok [] [] h p = tt
HasIds-IsPart i ok [] (k ∷ ks) h p = absurd h
HasIds-IsPart i ok (t ∷ ts) [] h p = absurd h
HasIds-IsPart i ok (t ∷ ts) (k ∷ ks) h p =
    (HasId-IsPart i ok t k h.0 p.0, HasIds-IsPart i ok ts ks h.1 p.1)

-- If another type has the id "0", these types do not.
pub HasIds-plain :
    (i : Ids)
    → IdsOk i
    → (z : ℕ) → HasId i z (b'0' ∷ [])
    → (ts : List ℕ) (ks : List (List ℕ)) → HasIds i ts ks
    → All (λ t. t ≢ z) ts
    → All (λ k. k ≢ b'0' ∷ []) ks
HasIds-plain i ok z first [] [] h p = tt
HasIds-plain i ok z first [] (k ∷ ks) h p = absurd h
HasIds-plain i ok z first (t ∷ ts) [] h p = absurd h
HasIds-plain i ok z first (t ∷ ts) (k ∷ ks) h p = (
  λ e. p.0 (ok.once t z (b'0' ∷ []) (h.0 ∙ ap some e) first),
  HasIds-plain i ok z first ts ks h.1 p.1,
)
