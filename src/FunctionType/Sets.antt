-- ===== src/FunctionType/Sets.antt =====
-- lib/function.js: what `set` writes.
use node_ffi_napi.Prelude.{ℕ, ◌≡◌, refl, sym, ap, ◌∙◌, some}
use node_ffi_napi.Effect.{ok}
use node_ffi_napi.Effect.Laws.{Ensures, Ensures-pure, Ensures-throw, Ensures-bind}
use node_ffi_napi.Types.{Ref}
use node_ffi_napi.Types.Results.{CoerceLaws}
use node_ffi_napi.Cif.{Libffi}
use node_ffi_napi.Callback.{Func, Making, Closures, both}
use node_ffi_napi.Callback.Created.{IsCreated, callback-IsCreated}
use node_ffi_napi.FunctionType.{
  FunctionType, Pointers, Space, Value, function, pointer, other, to_pointer, pointer_for, set,
}

module _ {S V : Type 0} (ref : Ref) (laws : CoerceLaws ref) (ffi : Libffi) (clo : Closures S V)
    (ptrs : Pointers S) (fuel long_size : ℕ) (f : FunctionType) where
  -- This pointer stands for this value: it is the address of a new closure of the function, or of the
  -- Buffer.
  abbrev pub Stands : Value (Func S V) → Making S V → ℕ → Making S V → Type 0
  Stands (function fn) m ptr k =
      IsCreated ref ffi clo fuel f.ret_type f.arg_types (some f.abi) fn m ptr k
  Stands (pointer address) m ptr k = (ptr ≡ address) × (k ≡ m)
  Stands other m ptr k = ⊥

  -- What `set` has done when it returns: it wrote a pointer that stands for the value.
  pub record IsWritten (place offset : ℕ) (value : Value (Func S V)) (s t : Space S V)
      : Type 0 where
    pub ptr : ℕ
    pub stands : Stands value s.making ptr t.making
    pub writes : ptrs.write_pointer place offset ptr s.native ≡ (ok tt, t.native)

  abbrev Found : Value (Func S V) → Space S V → ℕ → Space S V → Type 0
  Found value s ptr t = Stands value s.making ptr t.making × (t.native ≡ s.native)

  pointer_for_ensures :
      (value : Value (Func S V)) (s : Space S V)
      → Ensures
          (Found value s)
          (λ _ _. Unit)
          (pointer_for ref ffi clo ptrs fuel long_size f value s)
  unfolding to_pointer
  pointer_for_ensures (function fn) s =
      let e =
        callback-IsCreated ref ffi clo fuel laws f.ret_type f.arg_types
          (both (some f.abi) (some fn)) fn s.making refl in
      record { on_ok = λ ptr eq. (e.on_ok ptr eq, refl); on_err = λ x eq. tt }
  pointer_for_ensures (pointer address) s = Ensures-pure address s ((refl, refl), refl)
  pointer_for_ensures other s = Ensures-throw _ s tt

  wrote :
      {place offset : ℕ} (ptr : ℕ) (s t : Space S V)
      → t.native ≡ s.native
      → (ptrs.write_pointer place offset ptr t.native).0 ≡ ok tt
      → ptrs.write_pointer place offset ptr s.native
        ≡ (ok tt, (ptrs.write_pointer place offset ptr t.native).1)
  wrote {place} {offset} ptr s t same e =
      ap (ptrs.write_pointer place offset ptr) (sym same)
      ∙ (λ i. (e i, (ptrs.write_pointer place offset ptr t.native).1))

  -- `set` returns only where it has written a pointer that stands for the value: a Buffer's own address, or
  -- the address of a new closure that calls the function, for the types and the ABI of this type. So it
  -- throws for any other value.
  pub set-IsWritten :
      (place offset : ℕ) (value : Value (Func S V)) (s : Space S V)
      → Ensures
          (λ _ t. IsWritten place offset value s t)
          (λ _ _. Unit)
          (set ref ffi clo ptrs fuel long_size f place offset value s)
  unfolding set
  set-IsWritten place offset value s =
      Ensures-bind {Q = Found value s} (pointer_for ref ffi clo ptrs fuel long_size f value) _ s
        (pointer_for_ensures value s)
        λ ptr t (stands, same). record {
          on_ok = λ u e. record { ptr = ptr; stands = stands; writes = wrote ptr s t same e };
          on_err = λ x e. tt;
        }
