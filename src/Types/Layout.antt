-- ===== src/Types/Layout.antt =====
-- lib/type.js: the elements that `Type` lays out for a struct.
use node_ffi_napi.Prelude.{
  ℕ, zero, suc, ◌+◌, ◌*◌, ◌≤◌, ◌<◌, ◌≡◌, ◌∙◌, refl, sym, ap, subst, inl, inr, String, Bool-cases,
  some, List, [], ◌∷◌, ◌++◌, length, replicate, length-append, length-replicate, update_self,
  update_ne, arith, ltb, if◌then◌else◌,
}
use node_ffi_napi.Effect.{ok, Exec, ◌>>=◌}
use node_ffi_napi.Effect.Laws.{
  Ensures, Ensures-pure, Ensures-bind, Ensures-weaken, Ensures-self, Ensures-returned,
}
use node_ffi_napi.Bindings.{FfiPtr, made, ref_null}
use node_ffi_napi.PointerArray
use node_ffi_napi.PointerArray.{placed, Holds, Holds-placed}
use node_ffi_napi.Types.{
  Types, FfiStruct, TypeArg, object, Ref, write_element, write_times, new_struct, num_elements,
  element_arg, fill, make_struct,
}
use node_ffi_napi.Types.Frame.{
  Framed, Frame, Frame-refl, FrameBut, FrameBut-trans, Frame-FrameBut, Grown, header, Grown-Frame,
  Grown-trans, Grown-write,
}

Grown-times :
    (w n : ℕ) (p : FfiPtr) (k i : ℕ) (s : Types)
    → n < s.next
    → ((write_times w n p k i s).0 ≡ ok (i + k))
      × Grown w n i (replicate k p) s (write_times w n p k i s).1
unfolding write_times
Grown-times w n p zero i s h =
    (ap ok (omega arith), Grown-Frame w n i h (record { grows = omega arith; kept = λ m l. refl }))
Grown-times w n p (suc k) i s h =
    let (returned, grown) = Grown-times w n p k (i + 1) (write_element w n p i s).1 h in
    (returned ∙ ap ok (omega arith), Grown-trans w n (Grown-write w n p i s h) grown)

at_index :
    {w n i j : ℕ} {ps : List FfiPtr} {s t : Types} → i ≡ j → Grown w n i ps s t → Grown w n j ps s t
at_index {w} {n} {ps} {s} {t} e g = subst (λ k. Grown w n k ps s t) e g

-- the index after `k` elements and those of `qs`
position :
    (i j last k : ℕ) (p : FfiPtr) (qs : List FfiPtr)
    → j ≡ i + k
    → last ≡ j + length qs
    → last ≡ i + length (replicate k p ++ qs)
position i j last k p qs e e' =
    omega (arith, e, e', length-append (replicate k p) qs, length-replicate k p)

module _ (ref : Ref) where
  -- how many elements a field takes, and what `Type` is asked for it
  abbrev pub slots : ℕ → ℕ
  slots ft = if ltb 0 (ref.obj ft).fixed_length then (ref.obj ft).fixed_length else 1

  abbrev pub slot_arg : ℕ → TypeArg
  slot_arg ft = if ltb 0 (ref.obj ft).fixed_length then element_arg ref ft else object ft

module _ (ref : Ref) (rec : TypeArg → Exec Types FfiPtr) where
  -- `ps` are the elements of the n-th struct for the fields, from the i-th on: for each, the type that
  -- `Type` returns for it, in each of its slots, from one state to another; between the fields the
  -- elements are written.
  abbrev pub Describes : ℕ → ℕ → List (String × ℕ) → List FfiPtr → Types → Types → Type 0
  Describes n i [] ps s u = (ps ≡ []) × (u ≡ s)
  Describes n i ((_, ft) ∷ fs) ps s u =
      (p : FfiPtr) × (qs : List FfiPtr) × (t : Types) × (rec (slot_arg ref ft) s ≡ (ok p, t))
      × (ps ≡ replicate (slots ref ft) p ++ qs)
      × Describes n (i + slots ref ft) fs qs (write_times ref.pointer_size n p (slots ref ft) i t).1
          u

  length-Describes :
      (fs : List (String × ℕ)) (n i : ℕ) (ps : List FfiPtr) (s u : Types)
      → Describes n i fs ps s u
      → length ps ≡ num_elements ref fs
  unfolding num_elements
  length-Describes [] n i ps s u (e, _) = ap length e
  length-Describes ((_, ft) ∷ fs) n i ps s u (p, qs, t, r, e, d) =
      ap length e
      ∙ length-append (replicate (slots ref ft) p) qs
      ∙ omega (
        arith,
        length-replicate (slots ref ft) p,
        length-Describes fs n (i + slots ref ft) qs _ u d,
      )

  -- the state in which the elements of a new struct are filled
  abbrev pub opened : List (String × ℕ) → Types → Types
  opened fs s = (new_struct (ref.pointer_size * (num_elements ref fs + 1)) s).1

  -- The struct that `make_struct`, run from the state `s`, has made for `fs`.
  pub record IsLaidOut (fs : List (String × ℕ)) (s : Types) (f : FfiStruct) : Type 0 where
    pub contents :
        (ps : List FfiPtr) × (v : Types) × Describes s.next 0 fs ps (opened fs s) v
        × Holds ref.pointer_size (ps ++ ref_null ∷ []) f.elements
    pub headed : header f ≡ (0, 0, 13, ref.pointer_size * (num_elements ref fs + 1))

  module _ (rec_Framed : (a : TypeArg) → Framed (rec a)) where
    open ref use {pointer_size}

    -- The elements from `i` on were filled for the fields `fs`, and `index` is the next one.
    abbrev Filled : ℕ → List (String × ℕ) → ℕ → Types → ℕ → Types → Type 0
    Filled n fs i s index t =
        (ps : List FfiPtr) × Describes n i fs ps s t
        × (index ≡ i + length ps)
        × Grown pointer_size n i ps s t

    abbrev Fills : ℕ → List (String × ℕ) → (ℕ → Exec Types ℕ) → Type 0
    Fills n fs m =
        (i : ℕ) (s : Types) → n < s.next → Ensures (Filled n fs i s) (λ _. FrameBut n s) (m i s)

    -- one turn of the loop, for a field that takes `k` elements of the type of `arg`
    abbrev FilledOne : ℕ → TypeArg → ℕ → List (String × ℕ) → ℕ → Types → ℕ → Types → Type 0
    FilledOne n arg k fs i s index t =
        (p : FfiPtr) × (qs : List FfiPtr) × (t' : Types) × (rec arg s ≡ (ok p, t'))
        × Describes n (i + k) fs qs (write_times pointer_size n p k i t').1 t
        × (index ≡ i + length (replicate k p ++ qs))
        × Grown pointer_size n i (replicate k p ++ qs) s t

    fill_field :
        (n : ℕ) (arg : TypeArg) (k : ℕ) (fs : List (String × ℕ)) (later : ℕ → Exec Types ℕ)
        → Fills n fs later
        → (i : ℕ) (s : Types) → n < s.next
        → Ensures
            (FilledOne n arg k fs i s)
            (λ _. FrameBut n s)
            ((do p ← rec arg; index ← write_times pointer_size n p k i; later index) s)
    fill_field n arg k fs later fills i s h =
        Ensures-bind (rec arg) _ s
          (Ensures-weaken (Ensures-self ((rec_Framed arg).at s)) (λ p t q. q)
            (λ e t f. Frame-FrameBut n f))
          λ p t (returned, frame).
            let here : n < t.next = omega (arith, frame.grows) in
            let (written, grown) = Grown-times pointer_size n p k i t here in
            Ensures-bind (write_times pointer_size n p k i) later t
              (Ensures-returned
                {Q = λ j u.
                  (j ≡ i + k)
                  × (u ≡ (write_times pointer_size n p k i t).1)
                  × Grown pointer_size n i (replicate k p) s u}
                written
                (
                  refl,
                  refl,
                  Grown-trans pointer_size n (Grown-Frame pointer_size n i h frame)
                      (at_index (omega arith) grown),
                ))
              λ index u (at, wrote, first).
                Ensures-weaken (fills index u (omega (arith, first.but.grows)))
                  (λ last v (qs, d, at', rest). (
                    p,
                    qs,
                    t,
                    returned,
                    subst (λ (x : ℕ × Types). Describes n x.0 fs qs x.1 v) {x = (index, u)}
                        {y = (i + k, (write_times pointer_size n p k i t).1)} (λ y. (at y, wrote y))
                        d,
                    position i index last k p qs at at',
                    Grown-trans pointer_size n first
                        (at_index (at ∙ ap (λ j. i + j) (sym (length-replicate k p))) rest),
                  ))
                  (λ e v but. FrameBut-trans first.but but)

    fill-Filled : (n : ℕ) (fs : List (String × ℕ)) → Fills n fs (fill ref rec n fs)
    unfolding fill
    fill-Filled n [] i s h =
        Ensures-pure i s
          ([], (refl, refl), omega arith, Grown-Frame pointer_size n i h (Frame-refl s))
    fill-Filled n ((name, ft) ∷ fs) i s h = elim (Bool-cases (ltb 0 (ref.obj ft).fixed_length)) [
      | inl array ↦ rw array (
          Ensures-weaken
            (fill_field n (element_arg ref ft) (ref.obj ft).fixed_length fs (fill ref rec n fs)
              (fill-Filled n fs) i s h)
            (λ j t (p, qs, t', returned, d, at, grown). (
              replicate (ref.obj ft).fixed_length p ++ qs,
              (p, qs, t', rw array returned, rw array refl, rw array d),
              at,
              grown,
            ))
            (λ e t but. but))
      | inr single ↦ rw single (
          Ensures-weaken
            (fill_field n (object ft) 1 fs (fill ref rec n fs) (fill-Filled n fs) i s h)
            (λ j t (p, qs, t', returned, d, at, grown).
              (p ∷ qs, (p, qs, t', rw single returned, rw single refl, rw single d), at, grown))
            (λ e t but. but))
    ]

    opened-Frame : (fs : List (String × ℕ)) (s : Types) → Frame s (opened fs s)
    unfolding new_struct
    opened-Frame fs s = record {
      grows = omega arith;
      kept = λ m h. update_ne s.struct s.next m _ (omega arith);
    }

    at_opened :
        (fs : List (String × ℕ)) (s : Types)
        → (opened fs s).struct s.next ≡ record {
          size = 0;
          alignment = 0;
          type = 13;
          elements = PointerArray.alloc (pointer_size * (num_elements ref fs + 1));
        }
    unfolding new_struct
    at_opened fs s = update_self s.struct s.next _

    Frame-closed :
        (fs : List (String × ℕ)) {s u : Types} → FrameBut s.next (opened fs s) u → Frame s u
    unfolding new_struct
    Frame-closed fs {s} f = record {
      grows = omega (arith, f.grows);
      kept = λ m h. f.others m (omega arith) (omega arith) ∙ (opened-Frame fs s).kept m h;
    }

    -- The buffer has room for the elements and the terminator.
    room :
        (n : ℕ) (fs : List (String × ℕ)) (ps : List FfiPtr) (s u : Types)
        → Describes n 0 fs ps s u
        → (f : FfiStruct) → header f ≡ (0, 0, 13, pointer_size * (num_elements ref fs + 1))
        → length (ps ++ ref_null ∷ []) * pointer_size ≤ f.elements.size
    room n fs ps s u d f h =
        rw (ap (λ (x : ℕ × ℕ × ℕ × ℕ). x.3) h, length-append, length-Describes fs n 0 ps s u d)
          (omega arith)

    Grown-IsLaidOut :
        (fs : List (String × ℕ)) (ps : List FfiPtr) (s v u : Types)
        → Describes s.next 0 fs ps (opened fs s) v
        → Grown pointer_size s.next 0 (ps ++ ref_null ∷ []) (opened fs s) u
        → IsLaidOut fs s (u.struct s.next)
    Grown-IsLaidOut fs ps s v u d g = record {
      contents = (
        ps,
        v,
        d,
        Holds-placed pointer_size (ps ++ ref_null ∷ []) (u.struct s.next).elements
            (g.grown
              ∙ ap
                  (λ (f : FfiStruct).
                    f.elements.writes ++ placed pointer_size 0 (ps ++ ref_null ∷ []))
                  (at_opened fs s))
            (room s.next fs ps (opened fs s) v d (u.struct s.next) headed),
      );
      headed = headed;
    }
      where
        headed : header (u.struct s.next) ≡ (0, 0, 13, pointer_size * (num_elements ref fs + 1))
        headed = g.same_header ∙ ap header (at_opened fs s)

    pub make_struct-IsLaidOut :
        (t : ℕ) (fs : List (String × ℕ)) (s : Types)
        → Ensures
            (λ r u.
              (r ≡ some (made s.next))
              × (u.ffi_own t ≡ some r)
              × IsLaidOut fs s (u.struct s.next)
              × Frame s u)
            (λ _ u. Frame s u)
            (make_struct ref rec t fs s)
    unfolding make_struct new_struct
    make_struct-IsLaidOut t fs s =
        Ensures-bind (fill ref rec s.next fs 0) _ (opened fs s)
          (Ensures-weaken (fill-Filled s.next fs 0 (opened fs s) (omega arith)) (λ index v q. q)
            (λ e v but. Frame-closed fs but))
          λ index v (ps, d, at, grown).
            let done : Grown pointer_size s.next 0 (ps ++ ref_null ∷ []) (opened fs s)
                (write_element pointer_size s.next ref_null index v).1 =
              Grown-trans pointer_size s.next grown (
                at_index at (
                  Grown-write pointer_size s.next ref_null index v
                    (omega (arith, grown.but.grows)))) in
            Ensures-pure (some (made s.next)) _ (
              refl,
              update_self v.ffi_own t _,
              Grown-IsLaidOut fs ps s v _ d done,
              Frame-closed fs (record { grows = done.but.grows; others = done.but.others }),
            )
