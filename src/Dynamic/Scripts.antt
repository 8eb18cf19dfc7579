-- ===== src/Dynamic/Scripts.antt =====
-- lib/dynamic_library.js: the pattern for the error of `dlopen`.
use node_ffi_napi.Prelude.{
  ℕ, ◌≡◌, ◌≢◌, refl, inl, inr, ◌⊎◌, Bool-cases, true, false, Option, none, some, List, [], ◌∷◌,
  ◌++◌, ◌==◌, ◌&&◌, arith, All,
}
use node_ffi_napi.Dynamic.{path_char, to_colon, so_name, prefer, script_path}

-- a character of a path, other than a colon
abbrev pub IsNameChar : ℕ → Type 0
IsNameChar c = (path_char c ≡ true) × (c ≢ b':')

not_colon : (c : ℕ) → c ≢ b':' → (c == b':') ≡ false
not_colon c h = ground (arith, h)

to_colon_finds :
    (body rest : List ℕ) → All IsNameChar body → to_colon (body ++ b':' ∷ rest) ≡ some body
unfolding to_colon
to_colon_finds [] rest h = refl
to_colon_finds (c ∷ body) rest ((good, other), h) =
    rw (not_colon c other, good, to_colon_finds body rest h) refl

no_dot : (a : ℕ) (cs : List ℕ) → (a == b'.') ≡ false → so_name (a ∷ cs) ≡ none
unfolding so_name
no_dot a [] h = refl
no_dot a (b ∷ []) h = refl
no_dot a (b ∷ c ∷ cs) h = rw h refl

-- The pattern fails, or finds all of this.
abbrev Finds : List ℕ → Option (List ℕ) → Type 0
Finds body o = (o ≡ none) ⊎ (o ≡ some body)

so_name-Finds :
    (body rest : List ℕ) → All IsNameChar body → Finds body (so_name (body ++ b':' ∷ rest))
unfolding so_name
so_name-Finds [] rest h = inl (no_dot b':' rest refl)
so_name-Finds (a ∷ []) [] h = inl refl
so_name-Finds (a ∷ []) (d ∷ rest) h = elim (Bool-cases (a == b'.')) [
  | inl dot ↦ inl (rw dot refl)
  | inr other ↦ inl (rw other refl)
]
so_name-Finds (a ∷ b ∷ []) rest h = elim (Bool-cases (a == b'.')) [
  | inl dot ↦ elim (Bool-cases (b == b's')) [
    | inl s ↦ inl (rw (dot, s) refl)
    | inr other ↦ inl (rw (dot, other) refl)
  ]
  | inr other ↦ inl (rw other refl)
]
so_name-Finds (a ∷ b ∷ c ∷ cs) rest (_, (_, (_, h))) =
    elim (Bool-cases (a == b'.' && (b == b's' && c == b'o'))) [
      | inl so ↦ inr (rw (so, to_colon_finds cs rest h) refl)
      | inr other ↦ inl (rw other refl)
    ]

module _ (more : List ℕ) where
  -- the end of the text: the colon, a blank and the message
  abbrev after_path : List ℕ
  after_path = b':' ∷ b' ' ∷ more

  prefer-Finds :
      (c : ℕ) (body : List ℕ) {longer short : Option (List ℕ)}
      → Finds body longer
      → Finds body short
      → Finds (c ∷ body) (prefer c longer short)
  prefer-Finds c body (inl e) (inl e') = inl (rw (e, e') refl)
  prefer-Finds c body (inl e) (inr e') = inr (rw (e, e') refl)
  prefer-Finds c body (inr e) f = inr (rw e refl)

  script_path-Finds :
      (body : List ℕ) → All IsNameChar body → Finds body (script_path (body ++ after_path))
  unfolding script_path
  script_path-Finds [] h = inl (rw (no_dot b' ' more refl) refl)
  script_path-Finds (c ∷ body) ((good, _), h) =
      rw good (prefer-Finds c body (script_path-Finds body h) (so_name-Finds body (b' ' ∷ more) h))

  -- ".so" and what comes after it
  so_name_matches :
      (ext : List ℕ)
      → All IsNameChar ext
      → so_name ((b'.' ∷ b's' ∷ b'o' ∷ ext) ++ after_path) ≡ some (b'.' ∷ b's' ∷ b'o' ∷ ext)
  unfolding so_name
  so_name_matches ext h = rw (to_colon_finds ext (b' ' ∷ more) h) refl

  prefer-some :
      (c : ℕ) (longer : Option (List ℕ)) {short : Option (List ℕ)} (m : List ℕ)
      → short ≡ some m
      → prefer c longer short ≢ none
  prefer-some c none m e = rw e (λ p. cc)
  prefer-some c (some l) m e = λ p. cc

  prefer_longer :
      (c : ℕ) {longer : Option (List ℕ)} (short : Option (List ℕ))
      → longer ≢ none
      → prefer c longer short ≢ none
  prefer_longer c {longer = none} short h = absurd (h refl)
  prefer_longer c {longer = some l} short h = λ p. cc

  script_path_matches :
      (c : ℕ) (dir ext : List ℕ)
      → All IsNameChar (c ∷ dir)
      → All IsNameChar ext
      → script_path ((c ∷ dir) ++ (b'.' ∷ b's' ∷ b'o' ∷ ext) ++ after_path) ≢ none
  unfolding script_path
  script_path_matches c [] ext ((good, _), _) k =
      rw good (prefer-some c _ (b'.' ∷ b's' ∷ b'o' ∷ ext) (so_name_matches ext k))
  script_path_matches c (d ∷ dir) ext ((good, _), h) k =
      rw good (prefer_longer c _ (script_path_matches d dir ext h k))

  whole_name :
      (dir ext : List ℕ)
      → All IsNameChar dir
      → All IsNameChar ext
      → All IsNameChar (dir ++ b'.' ∷ b's' ∷ b'o' ∷ ext)
  whole_name [] ext h k = (
    (refl, λ e. omega (arith, e)),
    ((refl, λ e. omega (arith, e)), ((refl, λ e. omega (arith, e)), k)),
  )
  whole_name (d ∷ dir) ext (here, h) k = (here, whole_name dir ext h k)

  -- In an error of `dlopen` that starts with the path of a shared object, a colon and a blank, the
  -- pattern finds exactly that path: any name, ".so", and anything after it, of characters other than
  -- blanks, parentheses and colons.
  pub script_path_found :
      (c : ℕ) (dir ext : List ℕ)
      → All IsNameChar (c ∷ dir)
      → All IsNameChar ext
      → script_path (((c ∷ dir) ++ b'.' ∷ b's' ∷ b'o' ∷ ext) ++ b':' ∷ b' ' ∷ more)
        ≡ some ((c ∷ dir) ++ b'.' ∷ b's' ∷ b'o' ∷ ext)
  script_path_found c dir ext h k =
      elim (script_path-Finds ((c ∷ dir) ++ b'.' ∷ b's' ∷ b'o' ∷ ext)
        (whole_name (c ∷ dir) ext h k)) [
          | inl nothing ↦ absurd (script_path_matches c dir ext h k nothing)
          | inr found ↦ found
        ]
