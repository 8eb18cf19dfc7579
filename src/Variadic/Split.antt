-- ===== src/Variadic/Split.antt =====
-- lib/foreign_function_var.js: cutting a joined key into its parts.
use node_ffi_napi.Prelude.{
  ℕ, ◌+◌, ◌≤◌, ◌≡◌, ◌≢◌, ◌∙◌, refl, ap, inl, inr, Bool, Bool-cases, true, false, not, ◌&&◌, Option,
  none, some, List, [], ◌∷◌, ◌++◌, length, All, leb, ◌==◌, arith, if◌then◌else◌,
}
use node_ffi_napi.Variadic.{join}
use node_ffi_napi.Variadic.Text.{zeros}

abbrev push : ℕ → List (List ℕ) → List (List ℕ)
push c [] = (c ∷ []) ∷ []
push c (s ∷ ss) = (c ∷ s) ∷ ss

-- the zeros at the end of what was read, after one more character
abbrev run : ℕ → ℕ → ℕ
run z c = if c == b'0' then z + 1 else 0

abbrev cuts : ℕ → ℕ → Bool
cuts z c = not (c == b'0') && leb 4 z

-- The parts of a text, of which `z` zeros were read just before.
pub split : ℕ → List ℕ → List (List ℕ)
split z [] = [] ∷ []
split z (c ∷ s) = let rest = push c (split (run z c) s) in if cuts z c then [] ∷ rest else rest

-- The zeros at the end of a text, if no part ends inside it.
unfoldable pub scan : ℕ → List ℕ → Option ℕ
scan z [] = some z
scan z (c ∷ s) = let rest = scan (run z c) s in if cuts z c then none else rest

abbrev attach : List ℕ → List (List ℕ) → List (List ℕ)
attach [] ss = ss
attach (c ∷ w) ss = push c (attach w ss)

split-scan : (z y : ℕ) (w s : List ℕ) → scan z w ≡ some y → split z (w ++ s) ≡ attach w (split y s)
unfolding split scan
split-scan z y [] s h = ap (λ (o : ℕ). split o s) (some-eq h)
  where
    some-eq : {a b : ℕ} → some a ≡ some b → a ≡ b
    some-eq e = cc
split-scan z y (c ∷ w) s h = elim (Bool-cases (cuts z c)) [
  | inl cut ↦ cc (rw cut at h)
  | inr whole ↦ rw whole (ap (push c) (split-scan (run z c) y w s (rw whole at h)))
]

pub scan-append : (z y : ℕ) (u v : List ℕ) → scan z u ≡ some y → scan z (u ++ v) ≡ scan y v
unfolding scan
scan-append z y [] v h = ap (λ (o : ℕ). scan o v) (some-eq h)
  where
    some-eq : {a b : ℕ} → some a ≡ some b → a ≡ b
    some-eq e = cc
scan-append z y (c ∷ u) v h = elim (Bool-cases (cuts z c)) [
  | inl cut ↦ cc (rw cut at h)
  | inr whole ↦ rw whole (scan-append (run z c) y u v (rw whole at h))
]

-- No part ends inside a text of at most four characters.
pub scan_short : (z : ℕ) (u : List ℕ) → z + length u ≤ 4 → (y : ℕ) × (scan z u ≡ some y)
unfolding scan
scan_short z [] h = (z, refl)
scan_short z (c ∷ u) h =
    let (y, e) = scan_short (run z c) u (ground arith) in
    let whole : cuts z c ≡ false = ground arith in (y, rw whole e)

pub scan-zeros : (z : ℕ) → scan z zeros ≡ some (z + 1 + 1 + 1 + 1)
unfolding scan
scan-zeros z = refl

-- A part of a key.
pub record IsPart (w : List ℕ) : Type 0 where
  pub first : ℕ
  pub rest : List ℕ
  pub starts : w ≡ first ∷ rest
  pub not_zero : first ≢ b'0'
  pub trailing : ℕ
  pub whole : scan 0 w ≡ some trailing
  pub ends : 4 ≤ trailing

attach-nil : (w : List ℕ) (ss : List (List ℕ)) → attach w ([] ∷ ss) ≡ w ∷ ss
attach-nil [] ss = refl
attach-nil (c ∷ w) ss = ap (push c) (attach-nil w ss)

-- After four zeros a part begins.
split-part : (z : ℕ) (w s : List ℕ) → 4 ≤ z → IsPart w → split z (w ++ s) ≡ [] ∷ split 0 (w ++ s)
unfolding split
split-part z w s h p =
    let cut : cuts z p.first ≡ true = ground (arith, p.not_zero) in
    let other : (p.first == b'0') ≡ false = ground (arith, p.not_zero) in rw (p.starts, cut, other)

pub split-join :
    (w : List ℕ) (ws : List (List ℕ)) → IsPart w → All IsPart ws → split 0 (join (w ∷ ws)) ≡ w ∷ ws
split-join w [] p h = split-scan 0 p.trailing w [] p.whole ∙ (unfold split in attach-nil w [])
split-join w (v ∷ ws) p (q, h) =
    split-scan 0 p.trailing w (join (v ∷ ws)) p.whole
    ∙ ap (attach w)
        (split-part p.trailing v (join ws) p.ends q ∙ ap (λ ss. [] ∷ ss) (split-join v ws q h))
    ∙ attach-nil w (v ∷ ws)
