-- ===== src/Windows/Digits.antt =====
-- src/win32-dlfcn.cc: the decimal digits of `sprintf`.
use node_ffi_napi.Prelude.{
  ℕ, zero, suc, ◌+◌, ◌-◌, ◌*◌, ◌/◌, ◌%◌, ◌≤◌, ◌<◌, ◌≡◌, refl, inl, inr, Bool-cases, List, [], ◌∷◌,
  ◌++◌, ltb, length, length-append, arith,
}
use node_ffi_napi.Windows.{decimal}

-- the number that decimal digits write, after the digits of `n`
unfoldable pub number : ℕ → List ℕ → ℕ
number n [] = n
number n (c ∷ cs) = number (n * 10 + (c - b'0')) cs

number-append : (n : ℕ) (s : List ℕ) (c : ℕ) → number n (s ++ c ∷ []) ≡ number n s * 10 + (c - b'0')
unfolding number
number-append n [] c = refl
number-append n (d ∷ s) c = number-append (n * 10 + (d - b'0')) s c

-- 10 ^ k
abbrev pub bound : ℕ → ℕ
bound zero = 1
bound (suc k) = 10 * bound k

pub number-decimal : (k n : ℕ) → n < bound k → number 0 (decimal k n) ≡ n
unfolding number decimal
number-decimal zero n h = omega (arith, h)
number-decimal (suc k) n h = elim (Bool-cases (ltb n 10)) [
  | inl small ↦ rw small (omega arith)
  | inr large ↦
      rw
        (
          large,
          number-append 0 (decimal k (n / 10)) (b'0' + n % 10),
          number-decimal k (n / 10) (omega (arith, h)),
        )
        (omega arith)
]

pub decimal-length : (k n : ℕ) → length (decimal k n) ≤ k
unfolding decimal
decimal-length zero n = omega arith
decimal-length (suc k) n = elim (Bool-cases (ltb n 10)) [
  | inl small ↦ rw small (omega arith)
  | inr large ↦ rw large (
      omega (
        arith,
        length-append (decimal k (n / 10)) ((b'0' + n % 10) ∷ []),
        decimal-length k (n / 10),
      ))
]
