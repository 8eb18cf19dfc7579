-- ===== src/Types/Structs.antt =====
-- lib/type.js: `Type` for a struct whose fields have types that have their `ffi_type`.
use node_ffi_napi.Prelude.{
  ℕ, suc, ◌+◌, ◌*◌, ◌≡◌, ◌∙◌, refl, sym, ap, inl, inr, Bool-cases, Option, none, some, List, [],
  ◌∷◌, ◌++◌, length, replicate, length-append, length-replicate, update, update_self, update_again,
  arith, String, ltb,
}
use node_ffi_napi.Effect.{Result, ok}
use node_ffi_napi.Bindings.{FfiPtr, made, ref_null}
use node_ffi_napi.PointerArray
use node_ffi_napi.PointerArray.{placed, placed-append, placed_next}
use node_ffi_napi.Types.{
  Types, FfiStruct, object, Ref, chain, read_ffi, direct, or_struct, or_named, new_struct,
  num_elements, element_arg, fill, make_struct, resolve, ffi_type_of,
}
use node_ffi_napi.Types.Written.{more, written, written_none, written_append, times_written}
use node_ffi_napi.Types.Layout.{slots, slot_arg}
use node_ffi_napi.Types.Known.{IsKnown, ffi_type_of_known}
use node_ffi_napi.Types.Results.{CoerceLaws, IsNewStruct, resolved, direct_unset}

read_ffi_own :
    (s : Types) (f : ℕ → FfiStruct) (m : ℕ) (c : List ℕ)
    → read_ffi (record s { struct = f; next = m }) c ≡ read_ffi s c
unfolding read_ffi
read_ffi_own s f m [] = refl
read_ffi_own s f m (t ∷ c) =
    ap (λ (q : Option FfiPtr). elim (s.ffi_own t) as (λ x. Option FfiPtr) [ none ↦ q | some v ↦ v ])
      (read_ffi_own s f m c)

module _ (ref : Ref) where
  IsKnown-own :
      (s : Types) (f : ℕ → FfiStruct) (m t : ℕ) (p : FfiPtr)
      → IsKnown ref s t p
      → IsKnown ref (record s { struct = f; next = m }) t p
  unfolding direct
  IsKnown-own s f m t p known = record {
    valid = known.valid;
    set = rw (read_ffi_own s f m (chain ref t)) known.set;
  }

  -- `ps` are the `ffi_type`s of the fields, which all have theirs: for an array field that of its
  -- items, once for each of them.
  abbrev pub AreFields : Types → List (String × ℕ) → List FfiPtr → Type 0
  AreFields s [] ps = ps ≡ []
  AreFields s ((_, ft) ∷ fs) ps =
      (u : ℕ) × (p : FfiPtr) × (qs : List FfiPtr) × (slot_arg ref ft ≡ object u)
      × IsKnown ref s u p
      × (ps ≡ replicate (slots ref ft) p ++ qs)
      × AreFields s fs qs

  length-AreFields :
      (s : Types) (fs : List (String × ℕ)) (ps : List FfiPtr)
      → AreFields s fs ps
      → length ps ≡ num_elements ref fs
  unfolding num_elements
  length-AreFields s [] ps d = ap length d
  length-AreFields s ((_, ft) ∷ fs) ps (u, p, qs, a, known, e, d) =
      ap length e
      ∙ length-append (replicate (slots ref ft) p) qs
      ∙ omega (arith, length-replicate (slots ref ft) p, length-AreFields s fs qs d)

  AreFields-own :
      (s : Types) (f : ℕ → FfiStruct) (m : ℕ) (fs : List (String × ℕ)) (ps : List FfiPtr)
      → AreFields s fs ps
      → AreFields (record s { struct = f; next = m }) fs ps
  AreFields-own s f m [] ps d = d
  AreFields-own s f m ((name, ft) ∷ fs) ps (u, p, qs, arg, known, e, d) =
      (u, p, qs, arg, IsKnown-own s f m u p known, e, AreFields-own s f m fs qs d)

  module _ (laws : CoerceLaws ref) (fuel n : ℕ) where
    open ref use {pointer_size}

    -- the turns of the loop after `k` elements
    later_known :
        (p : FfiPtr) (k : ℕ) (fs : List (String × ℕ)) (qs : List FfiPtr) (i : ℕ) (s : Types)
        → ((j : ℕ) (t : Types)
            → AreFields t fs qs
            → fill ref (ffi_type_of ref (suc fuel)) n fs j t
              ≡ (ok (j + length qs), written pointer_size n j qs t))
        → AreFields s fs qs
        → fill ref
            (ffi_type_of ref (suc fuel))
            n
            fs
            (i + length (replicate k p))
            (written pointer_size n i (replicate k p) s)
          ≡ (
            ok (i + length (replicate k p ++ qs)),
            written pointer_size n i (replicate k p ++ qs) s,
          )
    later_known p k fs qs i s later d =
        later (i + length (replicate k p)) (written pointer_size n i (replicate k p) s)
          (AreFields-own s _ s.next fs qs d)
        ∙ ap (λ t. (ok (i + length (replicate k p) + length qs), t))
            (written_append pointer_size n i (replicate k p) qs s)
        ∙ ap (λ j. (ok j, written pointer_size n i (replicate k p ++ qs) s))
            (omega (arith, length-append (replicate k p) qs))

    fill_known :
        (fs : List (String × ℕ)) (ps : List FfiPtr) (i : ℕ) (s : Types)
        → AreFields s fs ps
        → fill ref (ffi_type_of ref (suc fuel)) n fs i s
          ≡ (ok (i + length ps), written pointer_size n i ps s)
    unfolding fill
    fill_known [] ps i s d = rw d (
        ap (λ t. (ok i, t)) (sym (written_none pointer_size n i s))
        ∙ ap (λ j. (ok j, written pointer_size n i [] s)) (omega arith))
    fill_known ((name, ft) ∷ fs) ps i s (u, p, qs, arg, known, all, d) =
        elim (Bool-cases (ltb 0 (ref.obj ft).fixed_length)) [
          | inl array ↦
              let k = (ref.obj ft).fixed_length in
              let arg' : element_arg ref ft ≡ object u = rw array at arg in
              let all' : ps ≡ replicate k p ++ qs = rw array at all in
              rw
                (
                  array,
                  arg',
                  ffi_type_of_known ref laws fuel u p s known,
                  times_written pointer_size n p k i s,
                  all',
                )
                (ap
                    (λ j.
                      fill ref (ffi_type_of ref (suc fuel)) n fs j
                        (written pointer_size n i (replicate k p) s))
                    (omega (arith, length-replicate k p))
                  ∙ later_known p k fs qs i s (λ j t e. fill_known fs qs j t e) d)
          | inr single ↦
              let arg' : object ft ≡ object u = rw single at arg in
              let all' : ps ≡ p ∷ qs = rw single at all in
              rw (single, arg', ffi_type_of_known ref laws fuel u p s known, all')
                (later_known p 1 fs qs i s (λ j t e. fill_known fs qs j t e) d)
        ]

  -- The struct that is made for these fields.
  abbrev pub struct_of : List FfiPtr → FfiStruct
  struct_of ps = record {
    size = 0;
    alignment = 0;
    type = 13;
    elements = record {
      size = ref.pointer_size * (length ps + 1);
      writes = placed ref.pointer_size 0 (ps ++ ref_null ∷ []);
    };
  }

  make_struct_known :
      (laws : CoerceLaws ref) (fuel t : ℕ) (fs : List (String × ℕ)) (ps : List FfiPtr) (s : Types)
      → AreFields s fs ps
      → make_struct ref (ffi_type_of ref (suc fuel)) t fs s ≡ (
        ok (some (made s.next)),
        record {
          ffi_own = update s.ffi_own t (some (some (made s.next)));
          struct = update s.struct s.next (struct_of ps);
          next = s.next + 1;
        },
      )
  unfolding make_struct new_struct
  make_struct_known laws fuel t fs ps s d =
      let w = ref.pointer_size in
      let n = s.next in
      let new : FfiStruct = record {
        size = 0;
        alignment = 0;
        type = 13;
        elements = PointerArray.alloc (w * (num_elements ref fs + 1));
      } in
      let o : Types = record {
        ffi_own = s.ffi_own;
        struct = update s.struct n new;
        next = n + 1;
      } in
      let done : (ℕ → FfiStruct) → Types = λ g. record {
        ffi_own = update s.ffi_own t (some (some (made n)));
        struct = g;
        next = n + 1;
      } in
      let filled = fill_known laws fuel n fs ps 0 o (AreFields-own s o.struct (n + 1) fs ps d) in
      let result : (ℕ → FfiStruct) → Result (Option FfiPtr) × Types =
        λ g. (ok (some (made n)), done g) in
      rw filled (
        ap (λ (v : Types). result v.struct) (written_append w n 0 ps (ref_null ∷ []) o)
        ∙ ap result (
            update_again s.struct n new _
            ∙ ap (λ f. update s.struct n (more w n 0 (ps ++ ref_null ∷ []) f))
                (update_self s.struct n new)
            ∙ ap
                (λ m. update s.struct n (record (struct_of ps) {
                  elements = record (struct_of ps).elements { size = w * (m + 1) };
                }))
                (sym (length-AreFields s fs ps d))))

  -- For a struct type with no `ffi_type` yet, whose fields' types have theirs, `Type` returns the struct
  -- that it has made next, which has size 0, alignment 0, type 13 and, as its elements, exactly the
  -- `ffi_type`s of the fields in their order, that of an array field once for each item, and a final
  -- NULL; it caches it on the type, and changes nothing else.
  pub struct_known :
      CoerceLaws ref
      → (fuel t : ℕ) (fs : List (String × ℕ)) (ps : List FfiPtr) (s : Types)
      → IsNewStruct ref t fs s
      → AreFields s fs ps
      → ffi_type_of ref (suc (suc fuel)) (object t) s ≡ (
        ok (made s.next),
        record {
          ffi_own = update s.ffi_own t (some (some (made s.next)));
          struct = update s.struct s.next (struct_of ps);
          next = s.next + 1;
        },
      )
  unfolding resolve or_struct or_named
  struct_known laws fuel t fs ps s new d = resolved ref laws (suc fuel) t s ∙ by_fields
    where
      by_fields : resolve ref (ffi_type_of ref (suc fuel)) t s ≡ (
        ok (made s.next),
        record {
          ffi_own = update s.ffi_own t (some (some (made s.next)));
          struct = update s.struct s.next (struct_of ps);
          next = s.next + 1;
        },
      )
      by_fields =
          rw
            (
              new.single,
              direct_unset ref (ffi_type_of ref (suc fuel)) t s new.single new.unset,
              new.not_array,
              new.is_struct,
              make_struct_known laws fuel t fs ps s d,
            )
            refl
