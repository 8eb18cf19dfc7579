-- ===== src/Variadic/Repeated.antt =====
-- lib/foreign_function_var.js: `getId` of types that have an id.
use node_ffi_napi.Prelude.{
  ℕ, suc, ◌*◌, ◌/◌, ◌%◌, ◌^◌, length-append, Bool-cases, ◌<◌, ◌≡◌, refl, true, inl, inr, List, [],
  ◌∷◌, length, ltb, arith,
}
use node_ffi_napi.Foreign.Exact.{positive}
use node_ffi_napi.Variadic.Known.{HasId, HasIds, IdsOk}
use node_ffi_napi.Variadic.{hex, id_text, digit, Ids, get_id, get_ids}

pub get_id_again : (i : Ids) (t : ℕ) (k : List ℕ) → HasId i t k → get_id t i ≡ (k, i)
unfolding get_id
get_id_again i t k h = rw h refl

pub get_ids_again :
    (i : Ids) (ts : List ℕ) (ks : List (List ℕ)) → HasIds i ts ks → get_ids ts i ≡ (ks, i)
unfolding get_ids
get_ids_again i [] [] h = refl
get_ids_again i [] (k ∷ ks) h = absurd h
get_ids_again i (t ∷ ts) [] h = absurd h
get_ids_again i (t ∷ ts) (k ∷ ks) h = rw (get_id_again i t k h.0, get_ids_again i ts ks h.1) refl

hex_full : (k n : ℕ) → 0 < length (hex (suc k) n)
unfolding hex
hex_full k n = elim (Bool-cases (ltb n 16)) [
  | inl small ↦ rw small (omega arith)
  | inr large ↦ rw large (omega (arith, length-append (hex k (n / 16)) (digit (n % 16) ∷ [])))
]

id_text_full : (c : ℕ) → 0 < length (id_text c)
unfolding id_text
id_text_full c =
    let bits = c * 0x10000 % 2 ^ 32 in
    elim (Bool-cases (ltb bits (2 ^ 31))) [
      | inl positive ↦ rw positive (hex_full 7 bits)
      | inr negative ↦ rw negative (omega arith)
    ]

pub HasId_full : (i : Ids) → IdsOk i → (t : ℕ) (k : List ℕ) → HasId i t k → ltb 0 (length k) ≡ true
HasId_full i fine t k h =
    let (c, l, e) = fine.known t k h in let full = id_text_full c in rw e (ground arith)
