-- ===== src/Variadic/Given.antt =====
-- lib/foreign_function_var.js: the ids that a generator's call gives out.
use node_ffi_napi.Prelude.{
  ℕ, suc, ◌+◌, ◌≤◌, ◌<◌, ◌≡◌, ◌∙◌, refl, sym, subst, List, [], ◌∷◌, All, length, arith,
}
use node_ffi_napi.Effect.{Result, Exec, pure, ◌>>=◌}
use node_ffi_napi.Effect.Laws.{Ensures, Ensures-pure, Ensures-bind, Ensures-check, Ensures-weaken}
use node_ffi_napi.Types.{Types, TypeArg, object, Ref, ffi_type_of}
use node_ffi_napi.Types.Results.{CoerceLaws}
use node_ffi_napi.Cif.{Libffi}
use node_ffi_napi.Foreign.{objects}
use node_ffi_napi.Variadic.{get_id, Generator, Session, on_types, on_ids, is_named, collect}
use node_ffi_napi.Variadic.Known.{
  HasId, IdsOk, Extends, Extends-refl, Extends-trans, get_id-GotId, HasIds, HasIds-Extends,
}
use node_ffi_napi.Variadic.Cache.{Entry, Entries-Extends, CacheOk}

-- An action that only gives out ids, at most `n`.
pub record Kept (n : ℕ) (s t : Session) : Type 0 where
  pub fine : IdsOk t.ids
  pub extends : Extends s.ids t.ids
  pub cache_same : t.cache ≡ s.cache
  pub counted : t.ids.counter ≤ s.ids.counter + n

pub Kept-types : (n : ℕ) (s : Session) (t : Types) → IdsOk s.ids → Kept n s (record s { types = t })
Kept-types n s t fine = record {
  fine = fine;
  extends = Extends-refl s.ids;
  cache_same = refl;
  counted = omega arith;
}

Kept-trans : {n m : ℕ} {s t u : Session} → Kept n s t → Kept m t u → Kept (n + m) s u
Kept-trans h k = record {
  fine = k.fine;
  extends = Extends-trans h.extends k.extends;
  cache_same = k.cache_same ∙ h.cache_same;
  counted = omega (arith, h.counted, k.counted);
}

Kept-more : {n m : ℕ} {s t : Session} → n ≤ m → Kept n s t → Kept m s t
Kept-more l h = record {
  fine = h.fine;
  extends = h.extends;
  cache_same = h.cache_same;
  counted = omega (arith, h.counted);
}

pub CacheOk-Kept : (g : Generator) {n : ℕ} {s t : Session} → CacheOk g s → Kept n s t → CacheOk g t
CacheOk-Kept g {n} {s} {t} good k = record {
  fine = k.fine;
  fixed = HasIds-Extends g.fixed_arg_types g.fixed_key k.extends good.fixed;
  entries =
      subst (All (Entry g t.ids)) (sym k.cache_same)
        (Entries-Extends g s.cache k.extends good.entries);
}

-- An action on the types alone.
pub typed :
    {A : Type 0} (m : Exec Types A) (s : Session)
    → IdsOk s.ids
    → Ensures (λ _. Kept 0 s) (λ _. Kept 0 s) (on_types m s)
typed m s fine = record {
  on_ok = λ a e. Kept-types 0 s (m s.types).1 fine;
  on_err = λ x e. Kept-types 0 s (m s.types).1 fine;
}

-- A call of `getId`.
pub got :
    (t : ℕ) (s : Session)
    → IdsOk s.ids
    → s.ids.counter < 0x10000
    → Ensures (λ k s'. HasId s'.ids t k × Kept 1 s s') (λ _. Kept 1 s) (on_ids (get_id t) s)
got t s fine room =
    let h = get_id-GotId t s.ids fine room in
    Ensures-pure (get_id t s.ids).0 (record s { ids = (get_id t s.ids).1 })
      (
        h.has,
        record { fine = h.fine; extends = h.extends; cache_same = refl; counted = h.one_more },
      )

-- What an action ensures that gives out at most `n` ids and does nothing else to the session.
abbrev pub EnsuresKept :
    {A : Type 0} → ℕ → Session → (A → Session → Type 0) → Result A × Session → Type 0
EnsuresKept n s Q = Ensures (λ a t. Q a t × Kept n s t) (λ _. Kept n s)

more_kept :
    {A : Type 0} {n m : ℕ} {s : Session} {Q : A → Session → Type 0} {r : Result A × Session}
    → n ≤ m
    → EnsuresKept n s Q r
    → EnsuresKept m s Q r
more_kept l e = Ensures-weaken e (λ a u (q, k). (q, Kept-more l k)) (λ x u k. Kept-more l k)

bind_kept :
    {A B : Type 0} (n m : ℕ) (Q : A → Session → Type 0) {R : B → Session → Type 0}
    (f : Exec Session A) (g : A → Exec Session B) (s : Session)
    → EnsuresKept n s Q (f s)
    → ((a : A) (t : Session) → Q a t → Kept n s t → EnsuresKept m t R (g a t))
    → EnsuresKept (n + m) s R ((f >>= g) s)
bind_kept n m Q f g s e k =
    Ensures-bind f g s
      (Ensures-weaken e (λ a t q. q) (λ x t h. Kept-more {m = n + m} (omega arith) h))
      λ a t (q, past).
        Ensures-weaken (k a t q past) (λ b u (r, later). (r, Kept-trans past later))
          (λ x u later. Kept-trans past later)

module _ (ref : Ref) (ffi : Libffi) (fuel long_size : ℕ) where
  -- what `coerceType` gives for a type object
  pub coerced :
      CoerceLaws ref
      → (t : ℕ) (s : Session) → IdsOk s.ids
      → Ensures
          (λ u s'. (u ≡ t) × Kept 0 s s')
          (λ _. Kept 0 s)
          (on_types (ref.coerce_type (object t)) s)
  coerced laws t s fine =
      rw (laws.same t s.types) (Ensures-pure t _ (refl, Kept-types 0 s s.types fine))

  resolved :
      (a : TypeArg) (s : Session)
      → IdsOk s.ids
      → EnsuresKept 0 s (λ _ _. Unit) (on_types (ffi_type_of ref fuel a) s)
  resolved a s fine =
      Ensures-weaken (typed (ffi_type_of ref fuel a) s fine) (λ p t k. (tt, k)) (λ x t k. k)

  pub collect-HasIds :
      CoerceLaws ref
      → (ts : List ℕ) (s : Session) → IdsOk s.ids
      → s.ids.counter + length ts ≤ 0x10000
      → Ensures
          (λ r s'. ((r.0 ≡ ts) × HasIds s'.ids ts r.1) × Kept (length ts) s s')
          (λ _. Kept (length ts) s)
          (collect ref ffi fuel long_size (objects ts) s)
  unfolding collect
  collect-HasIds laws [] s fine room =
      Ensures-pure ([], []) s ((refl, tt), Kept-types 0 s s.types fine)
  collect-HasIds laws (t ∷ ts) s fine room = more_kept (omega arith) (
      bind_kept 0 (suc (length ts)) (λ u _. u ≡ t) (on_types (ref.coerce_type (object t))) _ s
        (coerced laws t s fine)
        λ u s1 same k1. more_kept (omega arith) (
          bind_kept 0 (suc (length ts)) (λ _ _. Unit) (on_types (ffi_type_of ref fuel (object u))) _
            s1 (resolved (object u) s1 k1.fine)
            λ p s2 _ k2.
              Ensures-check (is_named p) _ _ s2
                (λ named_type. more_kept (omega arith) (
                  bind_kept 1 (length ts) (λ k s'. HasId s'.ids u k) (on_ids (get_id u))
                    (λ id. collect ref ffi fuel long_size (objects ts) >>= λ rest.
                      pure (u ∷ rest.0, id ∷ rest.1))
                    s2 (got u s2 k2.fine (omega (arith, k1.counted, k2.counted)))
                    (λ k s3 has k3. last_types u k s3 same has k3.fine (
                      collect-HasIds laws ts s3 k3.fine
                        (omega (arith, k1.counted, k2.counted, k3.counted))))))
                (λ no_name. Kept-types (suc (length ts)) s2 s2.types k2.fine)))
    where
      last_types :
          (u : ℕ) (k : List ℕ) (s3 : Session)
          → u ≡ t
          → HasId s3.ids u k
          → IdsOk s3.ids
          → EnsuresKept
              (length ts)
              s3
              (λ (r : List ℕ × List (List ℕ)) s'. (r.0 ≡ ts) × HasIds s'.ids ts r.1)
              (collect ref ffi fuel long_size (objects ts) s3)
          → EnsuresKept
              (length ts)
              s3
              (λ (r : List ℕ × List (List ℕ)) s'. (r.0 ≡ t ∷ ts) × HasIds s'.ids (t ∷ ts) r.1)
              ((collect ref ffi fuel long_size (objects ts) >>= λ rest.
                  pure (u ∷ rest.0, k ∷ rest.1))
                s3)
      last_types u k s3 same has fine3 collected = more_kept (omega arith) (
          bind_kept (length ts) 0 (λ r s'. (r.0 ≡ ts) × HasIds s'.ids ts r.1)
            (collect ref ffi fuel long_size (objects ts)) (λ rest. pure (u ∷ rest.0, k ∷ rest.1)) s3
            collected
            λ r s4 (types, ids) k4.
              Ensures-pure (u ∷ r.0, k ∷ r.1) s4
                (
                  (cc (same, types), (rw (← same) (k4.extends.kept u k has), ids)),
                  Kept-types 0 s4 s4.types k4.fine,
                ))
