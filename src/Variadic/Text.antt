-- ===== src/Variadic/Text.antt =====
-- lib/foreign_function_var.js: the hexadecimal texts of `getId`.
use mathlib.Core.List.{append_assoc}
use node_ffi_napi.Prelude.{
  ℕ, zero, suc, ◌+◌, ◌-◌, ◌*◌, ◌/◌, ◌%◌, ◌≤◌, ◌<◌, ◌≡◌, ◌≢◌, ◌∙◌, refl, sym, ap, inl, inr,
  Bool-cases, false, List, [], ◌∷◌, ◌++◌, length, length-append, ltb, arith, if◌then◌else◌,
}
use node_ffi_napi.Variadic.{digit, hex, id_text}

-- tests
id_texts :
    (id_text 0 ≡ b'0' ∷ [])
    × (id_text 1 ≡ b'1' ∷ b'0' ∷ b'0' ∷ b'0' ∷ b'0' ∷ [])
    × (id_text 0x8000 ≡ b'-' ∷ b'8' ∷ b'0' ∷ b'0' ∷ b'0' ∷ b'0' ∷ b'0' ∷ b'0' ∷ b'0' ∷ [])
    × (id_text 0x10000 ≡ id_text 0)
unfolding id_text hex
id_texts = (refl, refl, refl, refl)

-- `hex (suc k)` of a number above 0, times 16, is one zero more.
hex-shift : (k n : ℕ) → 0 < n → hex (suc k) (n * 16) ≡ hex k n ++ b'0' ∷ []
unfolding hex
hex-shift k n h =
    let wide : ltb (n * 16) 16 ≡ false = ground arith in
    let high : n * 16 / 16 ≡ n = omega arith in
    let low : n * 16 % 16 ≡ 0 = omega arith in rw (wide, high, low)

abbrev pub zeros : List ℕ
zeros = b'0' ∷ b'0' ∷ b'0' ∷ b'0' ∷ []

-- four zeros more
pub hex-zeros : (m : ℕ) → 0 < m → hex 8 (m * 0x10000) ≡ hex 4 m ++ zeros
hex-zeros m h =
    ap (hex 8) (let e : m * 0x10000 ≡ m * 16 * 16 * 16 * 16 = omega arith in e)
    ∙ hex-shift 7 (m * 16 * 16 * 16) (omega arith)
    ∙ ap (λ l. l ++ b'0' ∷ [])
        (hex-shift 6 (m * 16 * 16) (omega arith)
          ∙ ap (λ l. l ++ b'0' ∷ [])
              (hex-shift 5 (m * 16) (omega arith) ∙ ap (λ l. l ++ b'0' ∷ []) (hex-shift 4 m h)))
    ∙ simp append_assoc

-- The text has at most `k` digits, and the first is neither a zero nor a sign.
pub hex-length : (k n : ℕ) → length (hex k n) ≤ k
unfolding hex
hex-length zero n = omega arith
hex-length (suc k) n = elim (Bool-cases (ltb n 16)) [
  | inl small ↦ rw small (omega arith)
  | inr large ↦
      rw large
        (omega (arith, length-append (hex k (n / 16)) (digit (n % 16) ∷ []), hex-length k (n / 16)))
]

pub record StartsWell (s : List ℕ) : Type 0 where
  pub first : ℕ
  pub rest : List ℕ
  pub split : s ≡ first ∷ rest
  pub not_zero : first ≢ b'0'
  pub not_sign : first ≢ b'-'

-- `16 ^ k`
abbrev pub bound : ℕ → ℕ
bound zero = 1
bound (suc k) = 16 * bound k

pub hex-StartsWell : (k n : ℕ) → 0 < n → n < bound k → StartsWell (hex k n)
unfolding hex
hex-StartsWell zero n h l = absurd (omega arith)
hex-StartsWell (suc k) n h l = elim (Bool-cases (ltb n 16)) [
  | inl small ↦ rw small (record {
    first = digit n;
    rest = [];
    split = refl;
    not_zero = ground arith;
    not_sign = ground arith;
  })
  | inr large ↦
      let ih = hex-StartsWell k (n / 16) (ground arith) (omega arith) in
      rw large (record {
        first = ih.first;
        rest = ih.rest ++ digit (n % 16) ∷ [];
        split = ap (λ s. s ++ digit (n % 16) ∷ []) ih.split;
        not_zero = ih.not_zero;
        not_sign = ih.not_sign;
      })
]

-- `parseInt(s, 16)`, after the number read so far
abbrev undigit : ℕ → ℕ
undigit c = if ltb c 58 then c - b'0' else c - 87

value : ℕ → List ℕ → ℕ
value n [] = n
value n (c ∷ s) = value (n * 16 + undigit c) s

value-append : (n : ℕ) (s t : List ℕ) → value n (s ++ t) ≡ value (value n s) t
unfolding value
value-append n [] t = refl
value-append n (c ∷ s) t = value-append (n * 16 + undigit c) s t

undigit-digit : (d : ℕ) → d < 16 → undigit (digit d) ≡ d
undigit-digit d h = ground arith

value-hex : (k n : ℕ) → n < bound k → value 0 (hex k n) ≡ n
unfolding hex value
value-hex zero n h = omega arith
value-hex (suc k) n h = elim (Bool-cases (ltb n 16)) [
  | inl small ↦ rw (small, undigit-digit n (ground arith)) (omega arith)
  | inr large ↦
      rw
        (
          large,
          value-append 0 (hex k (n / 16)) (digit (n % 16) ∷ []),
          value-hex k (n / 16) (omega arith),
          undigit-digit (n % 16) (omega arith),
        )
        (omega arith)
]

pub hex-injective : (k n m : ℕ) → n < bound k → m < bound k → hex k n ≡ hex k m → n ≡ m
hex-injective k n m h l e = sym (value-hex k n h) ∙ ap (value 0) e ∙ value-hex k m l

-- One more digit of fuel changes nothing.
hex-fuel : (k n : ℕ) → 0 < n → n < bound k → hex (suc k) n ≡ hex k n
unfolding hex
hex-fuel zero n h l = absurd (omega arith)
hex-fuel (suc k) n h l = elim (Bool-cases (ltb n 16)) [
  | inl small ↦ rw small
  | inr large ↦
      rw large
        (ap (λ s. s ++ digit (n % 16) ∷ []) (hex-fuel k (n / 16) (ground arith) (omega arith)))
]

-- times 16, within four digits
pub hex-times : (n : ℕ) → 0 < n → n < 0x1000 → hex 4 (n * 16) ≡ hex 4 n ++ b'0' ∷ []
hex-times n h l = hex-shift 3 n h ∙ ap (λ s. s ++ b'0' ∷ []) (sym (hex-fuel 3 n h (omega arith)))
