-- ===== src/Effect/Laws.antt =====
-- Reasoning about code that mutates and may throw: what every run of it ensures, returned or thrown,
-- with a rule for each way to build an action.
use node_ffi_napi.Prelude.{◌≡◌, ◌∙◌, refl, sym, subst, Bool, true, false}
use node_ffi_napi.Effect.{Exn, Result, ok, err, Exec, pure, throw, continue, ◌>>=◌, check}

-- `Q` holds of the value and the state of a run that returned, `E` of one that threw.
pub record Ensures {ℓ} {S A : Type ℓ} (Q : A → S → Type ℓ) (E : Exn → S → Type ℓ) (r : Result A × S)
    : Type ℓ where
  pub on_ok : (a : A) → r.0 ≡ ok a → Q a r.1
  pub on_err : (e : Exn) → r.0 ≡ err e → E e r.1

pub ok-injective {ℓ} : {A : Type ℓ} {a b : A} → ok a ≡ ok b → a ≡ b
ok-injective h = cc

err-injective {ℓ} : {A : Type ℓ} {a b : Exn} → ◌≡◌ {A = Result A} (err a) (err b) → a ≡ b
err-injective h = cc

module _ {ℓ} {S A : Type ℓ} {Q : A → S → Type ℓ} {E : Exn → S → Type ℓ} where
  pub Ensures-pure : (a : A) (s : S) → Q a s → Ensures Q E (pure a s)
  Ensures-pure a s q = record {
    on_ok = λ b h. subst (λ c. Q c s) (ok-injective h) q;
    on_err = λ e h. cc;
  }

  pub Ensures-throw : (e : Exn) (s : S) → E e s → Ensures Q E (throw e s)
  Ensures-throw e s q = record {
    on_ok = λ b h. cc;
    on_err = λ d h. subst (λ c. E c s) (err-injective {A = A} h) q;
  }

  pub Ensures-eq : {r r' : Result A × S} → r ≡ r' → Ensures Q E r → Ensures Q E r'
  Ensures-eq h e = subst (Ensures Q E) h e

  -- a run that is known to return
  pub Ensures-returned : {a : A} {r : Result A × S} → r.0 ≡ ok a → Q a r.1 → Ensures Q E r
  Ensures-returned {r} h q = record {
    on_ok = λ b h'. subst (λ c. Q c r.1) (ok-injective (sym h ∙ h')) q;
    on_err = λ e h'. cc;
  }

  -- What is ensured of a value holds of the value that came back.
  pub Ensures-self :
      {r : Result A × S} → Ensures Q E r → Ensures (λ a s. (r ≡ (ok a, s)) × Q a s) E r
  Ensures-self {r} q = record { on_ok = λ a h. ((λ i. (h i, r.1)), q.on_ok a h); on_err = q.on_err }

  -- what a run that is known ensures
  pub Ensures-ok : {a : A} {s : S} {r : Result A × S} → Ensures Q E r → r ≡ (ok a, s) → Q a s
  Ensures-ok {a} q h = (Ensures-eq h q).on_ok a refl

-- the value that came back, and the state
pub Ensures-run {ℓ} :
    {S A : Type ℓ} (r : Result A × S) → Ensures (λ a s. r ≡ (ok a, s)) (λ _ _. Unit {ℓ}) r
Ensures-run r = record { on_ok = λ a h i. (h i, r.1); on_err = λ e h. tt }

module _ {ℓ} {S A B : Type ℓ} {Q : A → S → Type ℓ} {R : B → S → Type ℓ} {E : Exn → S → Type ℓ} where
  Ensures-continue :
      (r : Result A × S) (f : A → Exec S B)
      → Ensures Q E r
      → ((a : A) (s : S) → Q a s → Ensures R E (f a s))
      → Ensures R E (continue r.0 f r.1)
  Ensures-continue (ok a, s) f q k = k a s (q.on_ok a refl)
  Ensures-continue (err e, s) f q k = Ensures-throw e s (q.on_err e refl)

  pub Ensures-bind :
      (m : Exec S A) (f : A → Exec S B) (s : S)
      → Ensures Q E (m s)
      → ((a : A) (t : S) → Q a t → Ensures R E (f a t))
      → Ensures R E ((m >>= f) s)
  Ensures-bind m f s q k = Ensures-continue (m s) f q k

module _ {ℓ} {S A : Type ℓ} {Q Q' : A → S → Type ℓ} {E E' : Exn → S → Type ℓ} where
  pub Ensures-weaken :
      {r : Result A × S}
      → Ensures Q E r
      → ((a : A) (s : S) → Q a s → Q' a s)
      → ((e : Exn) (s : S) → E e s → E' e s)
      → Ensures Q' E' r
  Ensures-weaken {r} q k l = record {
    on_ok = λ a h. k a r.1 (q.on_ok a h);
    on_err = λ e h. l e r.1 (q.on_err e h);
  }

-- The rest of the code may use that the assertion passed.
module _ {S B : Type 0} {R : B → S → Type 0} {E : Exn → S → Type 0} where
  pub Ensures-check :
      (b : Bool) (e : Exn) (f : Unit {0} → Exec S B) (s : S)
      → (b ≡ true → Ensures R E (f tt s))
      → (b ≡ false → E e s)
      → Ensures R E ((check b e >>= f) s)
  Ensures-check true e f s k l = k refl
  Ensures-check false e f s k l = Ensures-throw e s (l refl)

-- what two lemmas say of one call
pub Ensures-both :
    {S A : Type 0} {Q R : A → S → Type 0} {P T : Exn → S → Type 0} {r : Result A × S}
    → Ensures Q P r
    → Ensures R T r
    → Ensures (λ a s. Q a s × R a s) (λ x s. P x s × T x s) r
Ensures-both q k = record {
  on_ok = λ a e. (q.on_ok a e, k.on_ok a e);
  on_err = λ x e. (q.on_err x e, k.on_err x e);
}
