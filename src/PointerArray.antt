-- ===== src/PointerArray.antt =====
-- A Buffer that the JavaScript code fills with pointers: `Buffer.alloc(size)`, then one
-- `writePointer(ptr, offset)` for each element. ref-napi's `writePointer` writes at any offset that
-- it is given, so the model keeps what it is given: the size, and the writes in their order.
use node_ffi_napi.Prelude.{
  ℕ, suc, ◌+◌, ◌*◌, ◌≤◌, ◌≡◌, ◌∙◌, List, [], ◌∷◌, ◌++◌, length, All, arith, ap,
}
use mathlib.Core.List.{append_assoc}

pub record PointerArray {ℓ} (A : Type ℓ) : Type ℓ where
  pub size : ℕ
  pub writes : List (ℕ × A)

module _ {ℓ} {A : Type ℓ} where
  -- `Buffer.alloc(size)`
  abbrev pub alloc : ℕ → PointerArray A
  alloc n = record { size = n; writes = [] }

  -- `buffer.writePointer(ptr, offset)`
  abbrev pub write_pointer : A → ℕ → PointerArray A → PointerArray A
  write_pointer p offset b = record b { writes = b.writes ++ (offset, p) ∷ [] }

  -- The pointers laid out one after the other, `w` bytes each, from element `i` on.
  abbrev pub placed : ℕ → ℕ → List A → List (ℕ × A)
  placed w i [] = []
  placed w i (p ∷ ps) = (i * w, p) ∷ placed w (suc i) ps

  -- The array holds these pointers and nothing else, and every write lies inside the buffer.
  pub record Holds (w : ℕ) (ps : List A) (b : PointerArray A) : Type ℓ where
    pub in_order : b.writes ≡ placed w 0 ps
    pub in_bounds : All (λ (e : ℕ × A). e.0 + w ≤ b.size) b.writes

  pub placed-append :
      (w i : ℕ) (ps qs : List A)
      → placed w i (ps ++ qs) ≡ placed w i ps ++ placed w (i + length ps) qs
  placed-append w i [] qs = ap (λ (j : ℕ). placed w j qs) (omega arith)
  placed-append w i (p ∷ ps) qs =
      ap (λ l. (i * w, p) ∷ l)
        (placed-append w (suc i) ps qs
          ∙ ap (λ (j : ℕ). placed w (suc i) ps ++ placed w j qs) (omega arith))

  -- One more write, and the ones that follow it.
  pub placed_next :
      (w i : ℕ) (p : A) (ps : List A) (l : List (ℕ × A))
      → (l ++ (i * w, p) ∷ []) ++ placed w (i + 1) ps ≡ l ++ placed w i (p ∷ ps)
  placed_next w i p ps l =
      append_assoc l ((i * w, p) ∷ []) (placed w (i + 1) ps)
      ∙ ap (λ (j : ℕ). l ++ (i * w, p) ∷ placed w j ps) (omega arith)

  pub placed_bounds :
      (w i : ℕ) (ps : List A) (n : ℕ)
      → (i + length ps) * w ≤ n
      → All (λ (e : ℕ × A). e.0 + w ≤ n) (placed w i ps)
  placed_bounds w i [] n h = tt
  placed_bounds w i (p ∷ ps) n h = (grind arith, placed_bounds w (suc i) ps n (grind arith))

  -- Pointers that were laid out from the start of a buffer with room for them.
  pub Holds-placed :
      (w : ℕ) (ps : List A) (b : PointerArray A)
      → b.writes ≡ placed w 0 ps
      → length ps * w ≤ b.size
      → Holds w ps b
  Holds-placed w ps b e h = record {
    in_order = e;
    in_bounds = rw e (placed_bounds w 0 ps b.size (omega arith));
  }
