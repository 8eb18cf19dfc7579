-- ===== src/Library/Text.antt =====
-- lib/library.js: the test for the extension in the name of a file, and the name with the extension.
use mathlib.Core.List.{append-nil}
use node_ffi_napi.Prelude.{
  ℕ, ◌≡◌, ◌∙◌, ◌↔◌, refl, sym, ap, inl, inr, ==_iff, Bool-cases, Option, List, [], ◌∷◌, ◌++◌, true,
  ◌==◌,
}
use node_ffi_napi.Library.{ext_text, starts_with, contains, with_ext}

-- The text goes on after the part.
abbrev GoesOn : List ℕ → List ℕ → Type 0
GoesOn part text = (after : List ℕ) × (text ≡ part ++ after)

-- The part stands in the text.
abbrev pub Occurs : List ℕ → List ℕ → Type 0
Occurs part text = (before after : List ℕ) × (text ≡ before ++ part ++ after)

starts_with-GoesOn : (part text : List ℕ) → starts_with part text ≡ true → GoesOn part text
unfolding starts_with
starts_with-GoesOn [] text h = (text, refl)
starts_with-GoesOn (c ∷ part) [] h = cc h
starts_with-GoesOn (c ∷ part) (d ∷ text) h = elim (Bool-cases (c == d)) [
  | inl same ↦
      let (after, e) = starts_with-GoesOn part text (rw same at h) in
      (after, cc (e, (==_iff c d).0 same))
  | inr differ ↦ cc (rw differ at h)
]

starts_with_append : (part after : List ℕ) → starts_with part (part ++ after) ≡ true
unfolding starts_with
starts_with_append [] after = refl
starts_with_append (c ∷ part) after = rw ((==_iff c c).1 refl) (starts_with_append part after)

contains_later :
    (part text : List ℕ) (d : ℕ) → contains part text ≡ true → contains part (d ∷ text) ≡ true
unfolding contains
contains_later part text d h = elim (Bool-cases (starts_with part (d ∷ text))) [
  | inl at_start ↦ rw at_start refl
  | inr later ↦ rw (later, h) refl
]

contains-Occurs : (part text : List ℕ) → contains part text ≡ true → Occurs part text
unfolding contains
contains-Occurs part [] h = let (after, e) = starts_with-GoesOn part [] h in ([], after, e)
contains-Occurs part (d ∷ text) h = elim (Bool-cases (starts_with part (d ∷ text))) [
  | inl at_start ↦ let (after, e) = starts_with-GoesOn part (d ∷ text) at_start in ([], after, e)
  | inr later ↦
      let (before, after, e) = contains-Occurs part text (rw later at h) in
      (d ∷ before, after, ap (λ t. d ∷ t) e)
]

contains_start : (part text : List ℕ) → starts_with part text ≡ true → contains part text ≡ true
unfolding contains
contains_start part [] h = h
contains_start part (d ∷ text) h = rw h refl

contains_append : (before part after : List ℕ) → contains part (before ++ part ++ after) ≡ true
contains_append [] part after = contains_start part (part ++ after) (starts_with_append part after)
contains_append (d ∷ before) part after =
    contains_later part (before ++ part ++ after) d (contains_append before part after)

-- `indexOf` finds a part of a text exactly where the text is something, the part, and something more.
pub contains_iff : (part text : List ℕ) → (contains part text ≡ true) ↔ Occurs part text
contains_iff part text = (
  contains-Occurs part text,
  λ (before, after, e). ap (contains part) e ∙ contains_append before part after,
)

Occurs-end : (before part : List ℕ) → Occurs part (before ++ part)
Occurs-end before part = (before, [], sym (append-nil (before ++ part)))

-- What the name of a file becomes: it has the extension in it, it goes on from the name that was given,
-- and it is what it would become itself.
pub record IsFile (e : Option (List ℕ)) (name file : List ℕ) : Type 0 where
  pub has_ext : Occurs (ext_text e) file
  pub begins : GoesOn name file
  pub stable : with_ext e file ≡ file

-- Any name that is not empty becomes the name of a file with the extension in it, which begins with that
-- name, and is left as it is if it is given again.
pub with_ext-IsFile :
    (e : Option (List ℕ)) (c : ℕ) (name : List ℕ) → IsFile e (c ∷ name) (with_ext e (c ∷ name))
unfolding with_ext
with_ext-IsFile e c name = elim (Bool-cases (contains (ext_text e) (c ∷ name))) [
  | inl found ↦ rw found (record {
    has_ext = contains-Occurs (ext_text e) (c ∷ name) found;
    begins = ([], sym (append-nil (c ∷ name)));
    stable = rw found refl;
  })
  | inr missing ↦ rw missing (record {
    has_ext = Occurs-end (c ∷ name) (ext_text e);
    begins = (ext_text e, refl);
    stable =
        rw
          ((contains_iff (ext_text e) ((c ∷ name) ++ ext_text e)).1
            (Occurs-end (c ∷ name) (ext_text e)))
          refl;
  })
]
