-- ===== src/Types/Termination.antt =====
-- lib/type.js: the recursion of `Type` into the fields of structs.
use node_ffi_napi.Prelude.{
  ℕ, zero, suc, ◌+◌, ◌*◌, ◌<◌, ◌≡◌, ◌≢◌, refl, sym, inl, inr, String, Bool, Bool-cases, true, false,
  Option, none, some, List, [], ◌∷◌, All, ltb, leb, is_some, if◌then◌else◌, arith,
}
use node_ffi_napi.Effect.{
  Exn, Exec, ok, err, out_of_fuel, invalid_type, no_ffi_type, pure, throw, ◌>>=◌, check,
}
use node_ffi_napi.Effect.Laws.{Ensures, Ensures-pure, Ensures-throw, Ensures-bind, Ensures-eq}
use node_ffi_napi.Bindings.{FfiPtr, made, ref_null, pointer_type}
use node_ffi_napi.Types.{
  Types, TypeArg, object, named, missing, Ref, chain, type_of_name, search_chain, direct, or_array,
  or_struct, or_named, or_throw, truthy_name, is_cstring, write_element, write_times, assign_ffi,
  new_struct, num_elements, fill, make_struct, make_fields, resolve, ffi_type_of,
}
use node_ffi_napi.Types.Layout.{slot_arg}
use node_ffi_napi.Types.Results.{CoerceLaws, resolved}

-- An action that does not run out of fuel.
record Ends {A : Type 0} (m : Exec Types A) : Type 0 where
  at : (s : Types) → Ensures (λ _ _. Unit) (λ e _. e ≢ out_of_fuel) (m s)

module _ {A : Type 0} where
  Ends-pure : (a : A) → Ends (pure a)
  Ends-pure a = record { at = λ s. Ensures-pure a s tt }

  Ends-throw : (e : Exn) → e ≢ out_of_fuel → Ends (throw {A = A} e)
  Ends-throw e h = record { at = λ s. Ensures-throw e s h }

  Ends-run : (f : Types → A) (g : Types → Types) → Ends (λ s. (ok (f s), g s))
  Ends-run f g = record { at = λ s. Ensures-pure (f s) (g s) tt }

  Ends-if : (b : Bool) {m n : Exec Types A} → Ends m → Ends n → Ends (if b then m else n)
  Ends-if true f g = f
  Ends-if false f g = g

Ends-check : (b : Bool) (e : Exn) → e ≢ out_of_fuel → Ends (check b e)
Ends-check true e h = Ends-pure tt
Ends-check false e h = Ends-throw e h

module _ {A B : Type 0} where
  Ends-bind :
      {m : Exec Types A} {f : A → Exec Types B} → Ends m → ((a : A) → Ends (f a)) → Ends (m >>= f)
  Ends-bind {m} {f} em ef = record { at = λ s. Ensures-bind m f s (em.at s) (λ a t _. (ef a).at t) }

Ends-times : (w n : ℕ) (p : FfiPtr) (k i : ℕ) → Ends (write_times w n p k i)
unfolding write_times
Ends-times w n p zero i = Ends-pure i
Ends-times w n p (suc k) i =
    Ends-bind (Ends-run (λ _. tt) (λ s. (write_element w n p i s).1))
      λ _. Ends-times w n p k (i + 1)

module _ (ref : Ref) where
  Ends-search : (cs : List ℕ) → Ends (search_chain ref cs)
  unfolding search_chain
  Ends-search [] = Ends-pure none
  Ends-search (cur ∷ rest) =
      let ret = type_of_name (ref.obj cur).name in
      Ends-bind (Ends-run (λ _. tt) (λ s. (assign_ffi cur ret s).1))
        λ _. Ends-if (is_some ret) (Ends-pure ret) (Ends-search rest)

  Ends-named : (t : ℕ) (ret : Option FfiPtr) → Ends (or_named ref t ret)
  unfolding or_named
  Ends-named t (some p) = Ends-pure (some p)
  Ends-named t none =
      Ends-if (truthy_name (ref.obj t).name)
        (Ends-if (is_cstring (ref.obj t).name)
          (Ends-run (λ _. some pointer_type) (λ s. (assign_ffi t (some pointer_type) s).1))
          (Ends-search (chain ref t)))
        (Ends-pure none)

  Ends-or_throw : (t : ℕ) (ret : Option FfiPtr) → Ends (or_throw ref t ret)
  Ends-or_throw t none = Ends-throw (no_ffi_type t) (λ e. cc)
  Ends-or_throw t (some p) = Ends-pure p

  module _ (rec : TypeArg → Exec Types FfiPtr) where
    abbrev FieldsEnd : List (String × ℕ) → Type 0
    FieldsEnd fs = All (λ (f : String × ℕ). Ends (rec (slot_arg ref f.1))) fs

    Ends-fill :
        (n : ℕ) (fs : List (String × ℕ)) → FieldsEnd fs → (i : ℕ) → Ends (fill ref rec n fs i)
    unfolding fill
    Ends-fill n [] h i = Ends-pure i
    Ends-fill n ((name, ft) ∷ fs) (e, h) i = elim (Bool-cases (ltb 0 (ref.obj ft).fixed_length)) [
      | inl array ↦ rw array (
          Ends-bind (rw array at e) λ p.
            Ends-bind (Ends-times ref.pointer_size n p (ref.obj ft).fixed_length i)
              λ j. Ends-fill n fs h j)
      | inr single ↦ rw single (
          Ends-bind (rw single at e)
            λ p. Ends-bind (Ends-times ref.pointer_size n p 1 i) λ j. Ends-fill n fs h j)
    ]

    Ends-make : (t : ℕ) (fs : List (String × ℕ)) → FieldsEnd fs → Ends (make_struct ref rec t fs)
    unfolding make_struct new_struct
    Ends-make t fs h =
        let size = ref.pointer_size * (num_elements ref fs + 1) in
        Ends-bind (Ends-run (λ s. s.next) (λ s. (new_struct size s).1)) λ n.
          Ends-bind (Ends-fill n fs h 0) λ i.
            Ends-bind (Ends-run (λ _. tt) (λ s. (write_element ref.pointer_size n ref_null i s).1))
              λ _. Ends-run (λ _. some (made n)) (λ s. (assign_ffi t (some (made n)) s).1)

    Ends-fields :
        (t : ℕ) (o : Option (List (String × ℕ)))
        → ((fs : List (String × ℕ)) → o ≡ some fs → FieldsEnd fs)
        → Ends (make_fields ref rec t o)
    Ends-fields t none h = Ends-pure none
    Ends-fields t (some fs) h = Ends-make t fs (h fs refl)

    Ends-resolve :
        (t : ℕ)
        → ((fs : List (String × ℕ)) → (ref.obj t).fields ≡ some fs → FieldsEnd fs)
        → Ends (resolve ref rec t)
    unfolding resolve
    Ends-resolve t h =
        Ends-bind (Ends-check (leb 1 (ref.obj t).indirection) (invalid_type t) (λ e. cc)) λ _.
          Ends-bind (Ends-run (direct ref t) (λ s. s)) λ found.
            Ends-bind (struct_step (or_array ref t found))
              λ ret. Ends-bind (Ends-named t ret) λ ret'. Ends-or_throw t ret'
      where
        struct_step : (o : Option FfiPtr) → Ends (or_struct ref rec t o)
        struct_step none = unfold or_struct in Ends-fields t (ref.obj t).fields h
        struct_step (some p) = unfold or_struct in Ends-pure (some p)

  -- The types of a struct's fields are lower in the nesting than the struct itself.
  abbrev pub IsLower : (ℕ → ℕ) → ℕ → TypeArg → Type 0
  IsLower rank n (object t) = rank t < n
  IsLower rank n (named _) = ⊥
  IsLower rank n missing = ⊥

  -- `rank` bounds how deep structs nest: every field, or the items of an array field, are lower.
  pub record IsNested (rank : ℕ → ℕ) : Type 0 where
    pub lower :
        (t : ℕ) (fs : List (String × ℕ))
        → (ref.obj t).fields ≡ some fs
        → All (λ (f : String × ℕ). IsLower rank (rank t) (slot_arg ref f.1)) fs

  module _ (laws : CoerceLaws ref) (rank : ℕ → ℕ) (nested : IsNested rank) where
    Ends-lower :
        (rec : TypeArg → Exec Types FfiPtr) (n : ℕ)
        → ((t : ℕ) → rank t < n → Ends (rec (object t)))
        → (a : TypeArg) → IsLower rank n a
        → Ends (rec a)
    Ends-lower rec n h (object t) l = h t l
    Ends-lower rec n h (named _) l = absurd l
    Ends-lower rec n h missing l = absurd l

    All-Ends :
        (rec : TypeArg → Exec Types FfiPtr) (n : ℕ)
        → ((t : ℕ) → rank t < n → Ends (rec (object t)))
        → (fs : List (String × ℕ)) → All (λ (f : String × ℕ). IsLower rank n (slot_arg ref f.1)) fs
        → FieldsEnd rec fs
    All-Ends rec n h [] l = tt
    All-Ends rec n h (f ∷ fs) (l, ls) =
        (Ends-lower rec n h (slot_arg ref f.1) l, All-Ends rec n h fs ls)

    Ends-type : (fuel t : ℕ) → rank t < fuel → Ends (ffi_type_of ref fuel (object t))
    Ends-type zero t h = elim h [ ]
    Ends-type (suc fuel) t h = record {
      at = λ s. Ensures-eq (sym (resolved ref laws fuel t s)) (
          (Ends-resolve (ffi_type_of ref fuel) t λ fs e.
              All-Ends (ffi_type_of ref fuel) (rank t) (λ t' l. Ends-type fuel t' (omega arith)) fs
                (nested.lower t fs e)).at
            s);
    }

    -- With fuel beyond the depth to which structs nest in the type, `Type` returns or throws one
    -- of its own exceptions: it does not run out of fuel.
    pub ffi_type_of_terminates :
        (fuel t : ℕ) (s : Types)
        → rank t < fuel
        → (ffi_type_of ref fuel (object t) s).0 ≢ err out_of_fuel
    ffi_type_of_terminates fuel t s h e = ((Ends-type fuel t h).at s).on_err out_of_fuel e refl
