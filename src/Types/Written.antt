-- ===== src/Types/Written.antt =====
-- lib/type.js: elements that are written one after the other.
use node_ffi_napi.Prelude.{
  ℕ, zero, suc, ◌+◌, ◌≡◌, ◌∙◌, refl, sym, ap, List, [], ◌∷◌, ◌++◌, length, replicate, update,
  update_self, update_same, update_again, arith,
}
use mathlib.Core.List.{append-nil, append_assoc}
use node_ffi_napi.Effect.{ok}
use node_ffi_napi.Bindings.{FfiPtr}
use node_ffi_napi.PointerArray.{placed, placed-append}
use node_ffi_napi.Types.{Types, FfiStruct, write_times}

module _ (w n : ℕ) where
  -- the struct with these elements after those that it has
  abbrev pub more : ℕ → List FfiPtr → FfiStruct → FfiStruct
  more i ps f = record f {
    elements = record f.elements { writes = f.elements.writes ++ placed w i ps };
  }

  abbrev pub written : ℕ → List FfiPtr → Types → Types
  written i ps s = record s { struct = update s.struct n (more i ps (s.struct n)) }

  pub written_none : (i : ℕ) (s : Types) → written i [] s ≡ s
  written_none i s =
      ap
        (λ (l : List (ℕ × FfiPtr)). record s {
          struct =
              update s.struct n
                (record (s.struct n) { elements = record (s.struct n).elements { writes = l } });
        })
        (append-nil (s.struct n).elements.writes)
      ∙ ap (λ f. record s { struct = f }) (update_same s.struct n (s.struct n) refl)

  pub written_append :
      (i : ℕ) (ps qs : List FfiPtr) (s : Types)
      → written (i + length ps) qs (written i ps s) ≡ written i (ps ++ qs) s
  written_append i ps qs s =
      ap (λ f. record s { struct = f })
        (update_again s.struct n (more i ps (s.struct n)) _
          ∙ ap (λ f. update s.struct n f)
              (ap (more (i + length ps) qs) (update_self s.struct n (more i ps (s.struct n)))
                ∙ ap
                    (λ (l : List (ℕ × FfiPtr)). record (s.struct n) {
                      elements = record (s.struct n).elements { writes = l };
                    })
                    (append_assoc (s.struct n).elements.writes (placed w i ps)
                        (placed w (i + length ps) qs)
                      ∙ ap (λ l. (s.struct n).elements.writes ++ l)
                          (sym (placed-append w i ps qs)))))

  pub times_written :
      (p : FfiPtr) (k i : ℕ) (s : Types)
      → write_times w n p k i s ≡ (ok (i + k), written i (replicate k p) s)
  unfolding write_times
  times_written p zero i s =
      ap (λ t. (ok i, t)) (sym (written_none i s)) ∙ ap (λ j. (ok j, written i [] s)) (omega arith)
  times_written p (suc k) i s =
      times_written p k (i + 1) (written i (p ∷ []) s)
      ∙ ap (λ t. (ok (i + 1 + k), t)) (written_append i (p ∷ []) (replicate k p) s)
      ∙ ap (λ j. (ok j, written i (replicate (suc k) p) s)) (omega arith)
