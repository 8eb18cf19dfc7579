-- ===== src/Types/Frame.antt =====
-- lib/type.js: what its functions leave alone, and how the elements of a struct grow.
use mathlib.Core.List.{append_assoc, append-nil}
use node_ffi_napi.Prelude.{
  ℕ, ◌+◌, ◌≤◌, ◌<◌, ◌≡◌, ◌≢◌, ◌∙◌, refl, sym, ap, List, [], ◌∷◌, ◌++◌, length, arith, update_self,
  update_ne, Option, Bool, true, false, if◌then◌else◌,
}
use node_ffi_napi.Effect.{Exn, Exec, pure, throw, gets, ◌>>=◌, check}
use node_ffi_napi.Effect.Laws.{Ensures, Ensures-pure, Ensures-throw, Ensures-bind, Ensures-weaken}
use node_ffi_napi.Bindings.{FfiPtr}
use node_ffi_napi.PointerArray.{placed, placed-append}
use node_ffi_napi.Types.{Types, FfiStruct, assign_ffi, write_element}

-- No struct that was there is changed, and none is taken back.
pub record Frame (s t : Types) : Type 0 where
  pub grows : s.next ≤ t.next
  pub kept : (m : ℕ) → m < s.next → t.struct m ≡ s.struct m

pub Frame-refl : (s : Types) → Frame s s
Frame-refl s = record { grows = omega arith; kept = λ m h. refl }

pub Frame-trans : {s t u : Types} → Frame s t → Frame t u → Frame s u
Frame-trans f g = record {
  grows = omega (arith, f.grows, g.grows);
  kept = λ m h. g.kept m (omega (arith, f.grows)) ∙ f.kept m h;
}

-- An action leaves the structs alone that were there, whether it returns or throws.
pub record Framed {A : Type 0} (m : Exec Types A) : Type 0 where
  pub at : (s : Types) → Ensures (λ _. Frame s) (λ _. Frame s) (m s)

module _ {A : Type 0} where
  pub Framed-pure : (a : A) → Framed (pure a)
  Framed-pure a = record { at = λ s. Ensures-pure a s (Frame-refl s) }

  pub Framed-throw : (e : Exn) → Framed (throw {A = A} e)
  Framed-throw e = record { at = λ s. Ensures-throw e s (Frame-refl s) }

  pub Framed-gets : (f : Types → A) → Framed (gets f)
  Framed-gets f = record { at = λ s. Ensures-pure (f s) s (Frame-refl s) }

  pub Framed-if :
      (b : Bool) {m n : Exec Types A} → Framed m → Framed n → Framed (if b then m else n)
  Framed-if true f g = f
  Framed-if false f g = g

module _ {A B : Type 0} where
  pub Framed-bind :
      {m : Exec Types A} {f : A → Exec Types B}
      → Framed m
      → ((a : A) → Framed (f a))
      → Framed (m >>= f)
  Framed-bind {m} {f} fm ff = record {
    at = λ s. Ensures-bind m f s (fm.at s) λ a t past.
        Ensures-weaken ((ff a).at t) (λ b u later. Frame-trans past later)
          (λ e u later. Frame-trans past later);
  }

pub Framed-check : (b : Bool) (e : Exn) → Framed (check b e)
Framed-check true e = Framed-pure tt
Framed-check false e = Framed-throw e

pub Framed-assign : (t : ℕ) (v : Option FfiPtr) → Framed (assign_ffi t v)
Framed-assign t v = record {
  at = λ s. Ensures-pure tt _ (record { grows = omega arith; kept = λ m h. refl });
}

-- all of a struct but its elements' contents
abbrev pub header : FfiStruct → ℕ × ℕ × ℕ × ℕ
header f = (f.size, f.alignment, f.type, f.elements.size)

-- The n-th struct is under construction: `others` are left alone.
pub record FrameBut (n : ℕ) (s t : Types) : Type 0 where
  pub grows : s.next ≤ t.next
  pub others : (m : ℕ) → m < s.next → m ≢ n → t.struct m ≡ s.struct m

-- Its elements have grown by `ps`, from element `i` on.
pub record Grown (w n i : ℕ) (ps : List FfiPtr) (s t : Types) : Type 0 where
  pub but : FrameBut n s t
  pub same_header : header (t.struct n) ≡ header (s.struct n)
  pub grown : (t.struct n).elements.writes ≡ (s.struct n).elements.writes ++ placed w i ps

pub FrameBut-trans : {n : ℕ} {s t u : Types} → FrameBut n s t → FrameBut n t u → FrameBut n s u
FrameBut-trans f g = record {
  grows = omega (arith, f.grows, g.grows);
  others = λ m h ne. g.others m (omega (arith, f.grows)) ne ∙ f.others m h ne;
}

pub Frame-FrameBut : (n : ℕ) {s t : Types} → Frame s t → FrameBut n s t
Frame-FrameBut n f = record { grows = f.grows; others = λ m h ne. f.kept m h }

module _ (w n : ℕ) where
  pub Grown-Frame : (i : ℕ) {s t : Types} → n < s.next → Frame s t → Grown w n i [] s t
  Grown-Frame i h f = record {
    but = Frame-FrameBut n f;
    same_header = ap header (f.kept n h);
    grown = ap (λ (x : FfiStruct). x.elements.writes) (f.kept n h) ∙ sym (append-nil _);
  }

  pub Grown-trans :
      {i : ℕ} {ps qs : List FfiPtr} {s t u : Types}
      → Grown w n i ps s t
      → Grown w n (i + length ps) qs t u
      → Grown w n i (ps ++ qs) s u
  Grown-trans {i} {ps} {qs} f g = record {
    but = FrameBut-trans f.but g.but;
    same_header = g.same_header ∙ f.same_header;
    grown =
        g.grown
        ∙ ap (λ l. l ++ placed w (i + length ps) qs) f.grown
        ∙ rw (append_assoc, placed-append) refl;
  }

  pub Grown-write :
      (p : FfiPtr) (i : ℕ) (s : Types)
      → n < s.next
      → Grown w n i (p ∷ []) s (write_element w n p i s).1
  Grown-write p i s h = record {
    but = record {
      grows = omega arith;
      others = λ m l ne. update_ne s.struct n m _ (λ e. ne (sym e));
    };
    same_header = ap header (update_self s.struct n _);
    grown = ap (λ (x : FfiStruct). x.elements.writes) (update_self s.struct n _);
  }
