-- ===== src/Variadic/Keys.antt =====
-- lib/foreign_function_var.js: the keys of signatures, and the signatures.
use node_ffi_napi.Prelude.{
  ℕ, ◌+◌, ◌-◌, ◌*◌, ◌%◌, ◌^◌, ◌≤◌, ◌<◌, ◌≡◌, ◌≢◌, ◌∙◌, refl, sym, ap, inl, inr, Bool-cases, true,
  false, some, List, [], ◌∷◌, ◌++◌, map, All, ltb, arith,
}
use mathlib.Core.List.{append_assoc, append_cancel_right}
use node_ffi_napi.Variadic.{hex, id_text, join}
use node_ffi_napi.Variadic.Text.{
  zeros, hex-zeros, hex-length, hex-StartsWell, hex-injective, hex-times,
}
use node_ffi_napi.Variadic.Split.{
  split, scan, scan-append, scan_short, scan-zeros, IsPart, split-join,
}

-- A counter whose text is not "0", before the counter has gone round.
abbrev pub IsUsual : ℕ → Type 0
IsUsual c = (0 < c) × (c < 0x10000)

positive : (c : ℕ) → 0 < c → c < 0x8000 → id_text c ≡ hex 4 c ++ zeros
unfolding id_text
positive c h l =
    let exact : c * 0x10000 % 2 ^ 32 ≡ c * 0x10000 = omega arith in
    let small : ltb (c * 0x10000) (2 ^ 31) ≡ true = ground arith in
    rw (exact, small) (hex-zeros c h)

negative : (c : ℕ) → 0x8000 ≤ c → c < 0x10000 → id_text c ≡ b'-' ∷ hex 4 (0x10000 - c) ++ zeros
unfolding id_text
negative c h l =
    let exact : c * 0x10000 % 2 ^ 32 ≡ c * 0x10000 = omega arith in
    let large : ltb (c * 0x10000) (2 ^ 31) ≡ false = ground arith in
    let rest : 2 ^ 32 - c * 0x10000 ≡ (0x10000 - c) * 0x10000 = omega arith in
    rw (exact, large, rest) (ap (λ s. b'-' ∷ s) (hex-zeros (0x10000 - c) (omega arith)))

-- a text of at most four characters, the first no zero, and the four zeros
scan-IsPart :
    (c : ℕ) (u : List ℕ) (z : ℕ) → c ≢ b'0' → scan 0 (c ∷ u) ≡ some z → IsPart ((c ∷ u) ++ zeros)
scan-IsPart c u z h e = record {
  first = c;
  rest = u ++ zeros;
  starts = refl;
  not_zero = h;
  trailing = z + 1 + 1 + 1 + 1;
  whole = scan-append 0 z (c ∷ u) zeros e ∙ scan-zeros z;
  ends = omega arith;
}

hex-IsPart : (m : ℕ) → 0 < m → m < 0x10000 → IsPart (hex 4 m ++ zeros)
hex-IsPart m h l =
    let s = hex-StartsWell 4 m h (omega arith) in
    let (z, e) = scan_short 0 (hex 4 m) (omega (arith, hex-length 4 m)) in
    rw s.split (scan-IsPart s.first s.rest z s.not_zero (rw s.split at e))

negative-IsPart : (m : ℕ) → IsPart (b'-' ∷ hex 4 m ++ zeros)
negative-IsPart m =
    let (z, e) = scan_short 0 (hex 4 m) (omega (arith, hex-length 4 m)) in
    scan-IsPart b'-' (hex 4 m) z (omega arith) (unfold scan in e)

pub id_text-IsPart : (c : ℕ) → IsUsual c → IsPart (id_text c)
id_text-IsPart c (h, l) = elim (Bool-cases (ltb c 0x8000)) [
  | inl small ↦ rw (positive c h (ground arith)) (hex-IsPart c h l)
  | inr large ↦ rw (negative c (ground arith) l) (negative-IsPart (0x10000 - c))
]

no_sign : (m : ℕ) (s t : List ℕ) {C : Type 0} → 0 < m → m < 0x10000 → hex 4 m ++ s ≡ b'-' ∷ t → C
no_sign m s t h l e =
    let w = hex-StartsWell 4 m h (omega arith) in absurd (w.not_sign (cc (rw w.split at e)))

tail-eq : {c d : ℕ} {s t : List ℕ} → c ∷ s ≡ d ∷ t → s ≡ t
tail-eq e = cc

-- A text tells its counter.
pub id_text-injective : (c d : ℕ) → IsUsual c → IsUsual d → id_text c ≡ id_text d → c ≡ d
id_text-injective c d (h, l) (h', l') e = elim (Bool-cases (ltb c 0x8000)) [
  | inl small ↦ elim (Bool-cases (ltb d 0x8000)) [
    | inl small' ↦ hex-injective 4 c d (omega arith) (omega arith) (
        append_cancel_right (hex 4 c) (hex 4 d) zeros
          (sym (positive c h (ground arith)) ∙ e ∙ positive d h' (ground arith)))
    | inr large' ↦
        no_sign c zeros (hex 4 (0x10000 - d) ++ zeros) h l
          (sym (positive c h (ground arith)) ∙ e ∙ negative d (ground arith) l')
  ]
  | inr large ↦ elim (Bool-cases (ltb d 0x8000)) [
    | inl small' ↦
        no_sign d zeros (hex 4 (0x10000 - c) ++ zeros) h' l'
          (sym (positive d h' (ground arith)) ∙ sym e ∙ negative c (ground arith) l)
    | inr large' ↦
        let same : 0x10000 - c ≡ 0x10000 - d =
          hex-injective 4 (0x10000 - c) (0x10000 - d) (ground arith) (ground arith) (
            append_cancel_right (hex 4 (0x10000 - c)) (hex 4 (0x10000 - d)) zeros
              (tail-eq (sym (negative c (ground arith) l) ∙ e ∙ negative d (ground arith) l'))) in
        omega arith
  ]
]

map-injective :
    (cs ds : List ℕ) → All IsUsual cs → All IsUsual ds → map id_text cs ≡ map id_text ds → cs ≡ ds
map-injective [] [] h k e = refl
map-injective [] (d ∷ ds) h k e = cc
map-injective (c ∷ cs) [] h k e = cc
map-injective (c ∷ cs) (d ∷ ds) (hc, h) (hd, k) e =
    cc (id_text-injective c d hc hd (cc), map-injective cs ds h k (cc))

All-parts : (cs : List ℕ) → All IsUsual cs → All IsPart (map id_text cs)
All-parts [] h = tt
All-parts (c ∷ cs) (hc, h) = (id_text-IsPart c hc, All-parts cs h)

-- Two signatures of types with usual counters have the same key only if they are the same signature.
pub join-injective :
    (c d : ℕ) (cs ds : List ℕ)
    → All IsUsual (c ∷ cs)
    → All IsUsual (d ∷ ds)
    → join (map id_text (c ∷ cs)) ≡ join (map id_text (d ∷ ds))
    → c ∷ cs ≡ d ∷ ds
join-injective c d cs ds h k e = map-injective (c ∷ cs) (d ∷ ds) h k (
    sym (split-join (id_text c) (map id_text cs) (id_text-IsPart c h.0) (All-parts cs h.1))
    ∙ ap (split 0) e
    ∙ split-join (id_text d) (map id_text ds) (id_text-IsPart d k.0) (All-parts ds k.1))

-- The type with the first counter spoils this: for any other small counter `c`, two types, `c` and 0,
-- have together the text of the one type 16 * c.
pub id_text_collides : (c : ℕ) → 0 < c → c < 0x800 → id_text c ++ id_text 0 ≡ id_text (c * 16)
unfolding id_text hex
id_text_collides c h l =
    ap (λ s. s ++ b'0' ∷ []) (positive c h (omega arith))
    ∙ append_assoc (hex 4 c) zeros (b'0' ∷ [])
    ∙ sym (
        positive (c * 16) (omega arith) (omega arith)
        ∙ ap (λ s. s ++ zeros) (hex-times c h (omega arith))
        ∙ append_assoc (hex 4 c) (b'0' ∷ []) zeros)
