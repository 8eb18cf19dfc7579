-- ===== src/Dynamic/Groups.antt =====
-- lib/dynamic_library.js: the pattern for the GROUP directive of a linker script.
use node_ffi_napi.Prelude.{
  ℕ, zero, suc, ◌≡◌, refl, true, false, none, some, List, [], ◌∷◌, ◌++◌, ◌==◌, ◌||◌, All, replicate,
  arith,
}
use node_ffi_napi.Dynamic.{skip_blanks, file_name, group_here, group_file}

-- a character of the file's name
abbrev pub IsFileChar : ℕ → Type 0
IsFileChar c = (c == b' ' || c == b')') ≡ false

skip_blanks-replicate :
    (n c : ℕ) (cs : List ℕ)
    → (c == b' ') ≡ false
    → skip_blanks (replicate n b' ' ++ c ∷ cs) ≡ c ∷ cs
unfolding skip_blanks
skip_blanks-replicate zero c cs h = rw h refl
skip_blanks-replicate (suc n) c cs h = skip_blanks-replicate n c cs h

file_name-append :
    (name : List ℕ) (stop : ℕ) (rest : List ℕ)
    → All IsFileChar name
    → (stop == b' ' || stop == b')') ≡ true
    → file_name (name ++ stop ∷ rest) ≡ name
unfolding file_name
file_name-append [] stop rest h end = rw end refl
file_name-append (c ∷ name) stop rest (good, h) end =
    rw (good, file_name-append name stop rest h end) refl

not_blank : (c : ℕ) → IsFileChar c → (c == b' ') ≡ false
not_blank c h = ground (arith, h)

group_file-here :
    (c : ℕ) (cs : List ℕ) {m : List ℕ} → group_here (c ∷ cs) ≡ some m → group_file (c ∷ cs) ≡ some m
unfolding group_file
group_file-here c cs e = rw e refl

module _ (n k c : ℕ) (name : List ℕ) (stop : ℕ) (rest : List ℕ) where
  -- GROUP, blanks, a parenthesis, blanks, the name, and what ends it
  abbrev pub directive : List ℕ
  directive =
      b'G'
      ∷ b'R'
      ∷ b'O'
      ∷ b'U'
      ∷ b'P'
      ∷ (replicate n b' ' ++ b'(' ∷ (replicate k b' ' ++ c ∷ (name ++ stop ∷ rest)))

  group_here_found :
      All IsFileChar (c ∷ name)
      → (stop == b' ' || stop == b')') ≡ true
      → group_here directive ≡ some (c ∷ name)
  unfolding group_here
  group_here_found (good, h) end =
      rw
        (
          skip_blanks-replicate n b'(' (replicate k b' ' ++ c ∷ (name ++ stop ∷ rest)) refl,
          skip_blanks-replicate k c (name ++ stop ∷ rest) (not_blank c good),
          file_name-append (c ∷ name) stop rest (good, h) end,
        )
        refl

  -- no directive starts in the text before this one
  abbrev pub NoneBefore : List ℕ → Type 0
  NoneBefore [] = Unit
  NoneBefore (b ∷ before) = (group_here (b ∷ (before ++ directive)) ≡ none) × NoneBefore before

  -- In a text, the pattern finds the name in the first GROUP directive, up to the first blank or closing
  -- parenthesis, with any number of blanks around the opening parenthesis, whatever else comes before
  -- the directive.
  pub group_file_found :
      (before : List ℕ)
      → NoneBefore before
      → All IsFileChar (c ∷ name)
      → (stop == b' ' || stop == b')') ≡ true
      → group_file (before ++ directive) ≡ some (c ∷ name)
  unfolding group_file
  group_file_found [] none_before h end = group_file-here b'G' _ (group_here_found h end)
  group_file_found (b ∷ before) (other, others) h end =
      rw other (group_file_found before others h end)
