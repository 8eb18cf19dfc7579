-- ===== src/Foreign/Marshal.antt =====
-- lib/_foreign_function.js: the loop that lays out the arguments of a call.
use mathlib.Core.List.{append-nil}
use node_ffi_napi.Prelude.{
  ℕ, suc, ◌+◌, ◌*◌, ◌≡◌, ◌∙◌, refl, sym, ap, List, [], ◌∷◌, ◌++◌, length, arith,
}
use node_ffi_napi.Effect.{Exn, setting_argument, Result, ok, err, Exec, pure, continue, ◌>>=◌}
use node_ffi_napi.Effect.Laws.{Ensures, Ensures-pure, Ensures-bind, Ensures-run}
use node_ffi_napi.PointerArray
use node_ffi_napi.PointerArray.{PointerArray, placed, placed_next}
use node_ffi_napi.Types.{Ref}
use node_ffi_napi.Foreign.{Native, rethrow, set_arguments}

-- The pointers, in the place of their elements in the buffer.
abbrev pub laid_out {ℓ} :
    {S : Type ℓ} → ℕ → ℕ → PointerArray ℕ → Result (List ℕ) × S → Result (PointerArray ℕ) × S
laid_out w i b (ok ps, s) = (ok (record b { writes = b.writes ++ placed w i ps }), s)
laid_out w i b (err e, s) = (err e, s)

module _ {S V : Type 0} (ref : Ref) (nat : Native S V) (position : ℕ → ℕ) where
  -- Allocate the C values of the arguments, in order.
  unfoldable pub alloc_all : List ℕ → List V → ℕ → Exec S (List ℕ)
  alloc_all [] vals i = pure []
  alloc_all (type ∷ types) [] i = pure []
  alloc_all (type ∷ types) (val ∷ vals) i = do
    p ← (λ s. rethrow ref nat position i (nat.alloc type val s))
    ps ← alloc_all types vals (i + 1)
    pure (p ∷ ps)

  laid_out-cons :
      (i p : ℕ) (b : PointerArray ℕ) (r : Result (List ℕ) × S)
      → laid_out ref.pointer_size (i + 1) (PointerArray.write_pointer p (i * ref.pointer_size) b) r
        ≡ laid_out ref.pointer_size i b (continue r.0 (λ ps. pure (p ∷ ps)) r.1)
  laid_out-cons i p b (ok ps, s) =
      ap (λ l. (ok (record b { writes = l }), s)) (placed_next ref.pointer_size i p ps b.writes)
  laid_out-cons i p b (err e, s) = refl

  -- one turn of the loop, on what `alloc` has returned
  after_alloc :
      (types : List ℕ) (vals : List V) (i : ℕ) (b : PointerArray ℕ)
      → ((p : ℕ) (s : S)
          → set_arguments ref nat position types vals
              (i + 1)
              (PointerArray.write_pointer p (i * ref.pointer_size) b)
              s
            ≡ laid_out ref.pointer_size
                (i + 1)
                (PointerArray.write_pointer p (i * ref.pointer_size) b)
                (alloc_all types vals (i + 1) s))
      → (r : Result ℕ × S)
      → continue r.0
          (λ p.
            set_arguments ref nat position types vals
              (i + 1)
              (PointerArray.write_pointer p (i * ref.pointer_size) b))
          r.1
        ≡ laid_out ref.pointer_size i b
            (continue r.0 (λ p. alloc_all types vals (i + 1) >>= λ ps. pure (p ∷ ps)) r.1)
  after_alloc types vals i b ih (ok p, s) =
      ih p s ∙ laid_out-cons i p b (alloc_all types vals (i + 1) s)
  after_alloc types vals i b ih (err e, s) = refl

  unchanged :
      (i : ℕ) (b : PointerArray ℕ) (s : S) → pure b s ≡ laid_out ref.pointer_size i b (pure [] s)
  unchanged i b s = ap (λ l. (ok (record b { writes = l }), s)) (sym (append-nil b.writes))

  -- The loop over the arguments is the allocation of all of them, and then their layout.
  pub set_arguments-alloc_all :
      (types : List ℕ) (vals : List V) (i : ℕ) (b : PointerArray ℕ) (s : S)
      → set_arguments ref nat position types vals i b s
        ≡ laid_out ref.pointer_size i b (alloc_all types vals i s)
  unfolding set_arguments alloc_all
  set_arguments-alloc_all [] vals i b s = unchanged i b s
  set_arguments-alloc_all (type ∷ types) [] i b s = unchanged i b s
  set_arguments-alloc_all (type ∷ types) (val ∷ vals) i b s =
      after_alloc types vals i b
        (λ p t.
          set_arguments-alloc_all types vals (i + 1)
            (PointerArray.write_pointer p (i * ref.pointer_size) b) t)
        (rethrow ref nat position i (nat.alloc type val s))

  -- One C value for each argument.
  pub length-alloc_all :
      (types : List ℕ) (vals : List V) (i : ℕ) (s : S)
      → length vals ≡ length types
      → Ensures (λ ps _. length ps ≡ length types) (λ _ _. Unit) (alloc_all types vals i s)
  unfolding alloc_all
  length-alloc_all [] vals i s h = Ensures-pure [] s refl
  length-alloc_all (type ∷ types) [] i s h = absurd (omega arith)
  length-alloc_all (type ∷ types) (val ∷ vals) i s h =
      Ensures-bind (λ t. rethrow ref nat position i (nat.alloc type val t)) _ s
        (Ensures-run (rethrow ref nat position i (nat.alloc type val s)))
        λ p t _.
          Ensures-bind (alloc_all types vals (i + 1)) (λ ps. pure (p ∷ ps)) t
            (length-alloc_all types vals (i + 1) t (omega arith))
            λ ps u e. Ensures-pure (p ∷ ps) u (ap suc e)

-- The two numberings: a run that counts arguments from 1, and one that counts them from 0.
pub data SameButNumber {ℓ} {A S : Type ℓ} (r r' : Result A × S) : Type ℓ where
  returned : (a : A) (s : S) → r ≡ (ok a, s) → r' ≡ (ok a, s) → SameButNumber r r'
  refused :
      (j : ℕ) (e : Exn) (s : S)
      → r ≡ (err (setting_argument (j + 1) e), s)
      → r' ≡ (err (setting_argument j e), s)
      → SameButNumber r r'

module _ {S V : Type 0} (ref : Ref) (nat : Native S V) where
  abbrev from_one : List ℕ → List V → ℕ → Exec S (List ℕ)
  from_one = alloc_all ref nat (λ i. i + 1)

  abbrev from_zero : List ℕ → List V → ℕ → Exec S (List ℕ)
  from_zero = alloc_all ref nat (λ i. i)

  cons-SameButNumber :
      (p : ℕ) {r r' : Result (List ℕ) × S}
      → SameButNumber r r'
      → SameButNumber
          (continue r.0 (λ ps. pure (p ∷ ps)) r.1)
          (continue r'.0 (λ ps. pure (p ∷ ps)) r'.1)
  cons-SameButNumber p (returned ps s h h') = returned (p ∷ ps) s (rw h) (rw h')
  cons-SameButNumber p (refused j e s h h') = refused j e s (rw h) (rw h')

  number_alloc :
      (types : List ℕ) (vals : List V) (i : ℕ)
      → ((s : S) → SameButNumber (from_one types vals (i + 1) s) (from_zero types vals (i + 1) s))
      → (r : Result ℕ × S)
      → SameButNumber
          (let q = rethrow ref nat (λ i. i + 1) i r in
            continue q.0 (λ p. from_one types vals (i + 1) >>= λ ps. pure (p ∷ ps)) q.1)
          (let q = rethrow ref nat (λ i. i) i r in
            continue q.0 (λ p. from_zero types vals (i + 1) >>= λ ps. pure (p ∷ ps)) q.1)
  number_alloc types vals i ih (ok p, s) = cons-SameButNumber p (ih s)
  number_alloc types vals i ih (err e, s) = refused i e s refl refl

  alloc_all-SameButNumber :
      (types : List ℕ) (vals : List V) (i : ℕ) (s : S)
      → SameButNumber (from_one types vals i s) (from_zero types vals i s)
  unfolding alloc_all
  alloc_all-SameButNumber [] vals i s = returned [] s refl refl
  alloc_all-SameButNumber (type ∷ types) [] i s = returned [] s refl refl
  alloc_all-SameButNumber (type ∷ types) (val ∷ vals) i s =
      number_alloc types vals i (alloc_all-SameButNumber types vals (i + 1)) (nat.alloc type val s)

  -- Filling the argument array from the same state, the two forms of a call do the same, but for
  -- the number of the argument in an error.
  pub set_arguments-SameButNumber :
      (types : List ℕ) (vals : List V) (b : PointerArray ℕ) (s : S)
      → SameButNumber
          (set_arguments ref nat (λ i. i + 1) types vals 0 b s)
          (set_arguments ref nat (λ i. i) types vals 0 b s)
  set_arguments-SameButNumber types vals b s = transfer (alloc_all-SameButNumber types vals 0 s)
    where
      transfer :
          SameButNumber (from_one types vals 0 s) (from_zero types vals 0 s)
          → SameButNumber
              (set_arguments ref nat (λ i. i + 1) types vals 0 b s)
              (set_arguments ref nat (λ i. i) types vals 0 b s)
      transfer (returned ps t h h') =
          returned (record b { writes = b.writes ++ placed ref.pointer_size 0 ps }) t
            (set_arguments-alloc_all ref nat (λ i. i + 1) types vals 0 b s
              ∙ ap (laid_out ref.pointer_size 0 b) h)
            (set_arguments-alloc_all ref nat (λ i. i) types vals 0 b s
              ∙ ap (laid_out ref.pointer_size 0 b) h')
      transfer (refused j e t h h') =
          refused j e t
            (set_arguments-alloc_all ref nat (λ i. i + 1) types vals 0 b s
              ∙ ap (laid_out ref.pointer_size 0 b) h)
            (set_arguments-alloc_all ref nat (λ i. i) types vals 0 b s
              ∙ ap (laid_out ref.pointer_size 0 b) h')

module _ {S V : Type 0} (ref : Ref) (nat : Native S V) where
  -- Of these values, the one at `j` is the first that cannot be converted to its type, with this error.
  pub data FailsAt : List ℕ → List V → S → ℕ → Exn → S → Type 0 where
    fails :
        {type : ℕ} {types : List ℕ} {val : V} {vals : List V} {s t : S} {e : Exn}
        → nat.alloc type val s ≡ (err e, t)
        → FailsAt (type ∷ types) (val ∷ vals) s 0 e t
    later :
        {type ptr j : ℕ} {types : List ℕ} {val : V} {vals : List V} {s u t : S} {e : Exn}
        → nat.alloc type val s ≡ (ok ptr, u)
        → FailsAt types vals u j e t
        → FailsAt (type ∷ types) (val ∷ vals) s (suc j) e t

  -- The loop over the arguments then throws this error, with the number for that index.
  set_arguments_fails :
      (position : ℕ → ℕ) (types : List ℕ) (vals : List V) (i : ℕ) (b : PointerArray ℕ) (s : S)
      (j : ℕ) (e : Exn) (t : S)
      → FailsAt types vals s j e t
      → set_arguments ref nat position types vals i b s
        ≡ (err (setting_argument (position (i + j)) e), t)
  unfolding set_arguments
  set_arguments_fails position types vals i b s j e t (fails h) =
      rw h (ap (λ n. (err (setting_argument (position n) e), t)) (omega arith))
  set_arguments_fails position types vals i b s (suc j) e t (later {type} {ptr} h rest) = rw h (
      set_arguments_fails position _ _ (i + 1)
        (PointerArray.write_pointer ptr (i * ref.pointer_size) b) _ j e t rest
      ∙ ap (λ n. (err (setting_argument (position n) e), t)) (omega arith))

  pub first_fails :
      (position : ℕ → ℕ) (types : List ℕ) (vals : List V) (b : PointerArray ℕ) (s : S) (j : ℕ)
      (e : Exn) (t : S)
      → FailsAt types vals s j e t
      → set_arguments ref nat position types vals 0 b s ≡ (err (setting_argument (position j) e), t)
  first_fails position types vals b s j e t h =
      set_arguments_fails position types vals 0 b s j e t h
      ∙ ap (λ n. (err (setting_argument (position n) e), t)) (omega arith)
