-- ===== src/Tests/World.antt =====
-- A memory of numbers, and a C function in it that is a callback of JavaScript's addition.
use node_ffi_napi.Prelude.{
  ℕ, zero, suc, ◌+◌, ◌*◌, ◌<◌, ◌≡◌, ◌∙◌, ap, subst, Option, none, some, List, [], ◌∷◌, inl, inr,
  Bool-cases, false, ◌==◌, ==_iff, ==_false, ltb, if◌then◌else◌, update, update_self, update_ne,
  arith, get_elem?,
}
use node_ffi_napi.Effect.{Exn, external, Result, ok, err}
use node_ffi_napi.PointerArray.{PointerArray, placed}
use node_ffi_napi.Foreign.{Native}
use node_ffi_napi.Callback.{Memory, Func, invoke}
use node_ffi_napi.Callback.Round.{MemoryLaws, ClosureLaws}
use node_ffi_napi.Tests.Data.{test_ref, test_cif, test_proxy}

-- Addresses below `next` hold values; `params` is the argument array of the call at hand.
pub record World : Type 0 where
  pub next : ℕ
  pub cell : ℕ → ℕ
  pub params : List (ℕ × ℕ)

abbrev pub pointer_at : List (ℕ × ℕ) → ℕ → ℕ
pointer_at [] offset = 0
pointer_at ((o, p) ∷ writes) offset = if o == offset then p else pointer_at writes offset

abbrev pub store_at : ℕ → ℕ → World → World
store_at p v s = record s { cell = update s.cell p v }

abbrev pub world_memory : Memory World ℕ
world_memory = record {
  read_pointer = λ buffer offset size s. (ok (pointer_at s.params offset), s);
  deref_at = λ t p s. (ok (s.cell p), s);
  set = λ p v t s. if ltb p s.next then (ok tt, store_at p v s) else (err (external 1), s);
}

-- JavaScript's function
abbrev pub sum : List ℕ → ℕ
sum [] = 0
sum (x ∷ xs) = x + sum xs

abbrev pub add : Func World ℕ
add vs s = (ok (sum vs), s)

-- the state in which the callback is entered; its result is stored at the address 0
abbrev pub enter : PointerArray ℕ → World → World
enter a s = record s { params = a.writes }

abbrev pub handler : (retval params : ℕ) → World → Option Exn × World
handler = invoke test_ref world_memory test_proxy.arg_types test_proxy.return_type add

abbrev pub first : List ℕ → ℕ
first [] = 0
first (b ∷ bytes) = b

-- Every C function is the callback.
abbrev pub world_native : Native World ℕ
world_native = record {
  alloc = λ t v s. (ok s.next, record (store_at s.next v s) { next = s.next + 8 });
  ffi_call = λ c p size a s. let (e, u) = handler 0 0 (enter a s) in (u.cell 0 ∷ [], none, u);
  deref = λ t bytes s. (ok (first bytes), s);
  is_function = λ v. false;
}

abbrev pub IsStored : ℕ → ℕ → ℕ → World → Type 0
IsStored t p v s = (s.cell p ≡ v) × (p < s.next)

abbrev pub AnyValue : ℕ → ℕ → Type 0
AnyValue t v = Unit

pub from_ok :
    {A : Type 0} {a b : A} {s t : World}
    → ◌≡◌ {A = Result A × World} (ok a, s) (ok b, t)
    → (a ≡ b) × (s ≡ t)
from_ok e = (cc (ap (λ r. r.0) e), ap (λ r. r.1) e)

pub world_laws : MemoryLaws world_native world_memory AnyValue IsStored
world_laws = record {
  alloc_stores = λ t v s p u exact e.
      let (at_p, after) = from_ok e in
      subst (λ q. IsStored t q v u) at_p
        (subst (IsStored t s.next v) after (update_self s.cell s.next v, omega arith));
  alloc_keeps = λ t v s p u t' p' v' e (held, low).
      subst (IsStored t' p' v') (from_ok e).1 (
        update_ne s.cell s.next p' v (λ same. omega (arith, same, low)) ∙ held,
        omega (arith, low),
      );
  deref_stored = λ t p v s (e, l) i. (ok (e i), s);
  set_stores = λ p v t s u exact e. elim (Bool-cases (ltb p s.next)) [
    | inl inside ↦
        subst (IsStored t p v) (from_ok (rw inside at e)).1
          (update_self s.cell p v, ground (arith, inside))
    | inr outside ↦ cc (ap (λ r. r.0) (rw outside at e))
  ];
}

pub pointer_placed :
    (ps : List ℕ) (k i p : ℕ)
    → get_elem? ps i ≡ some p
    → pointer_at (placed 8 k ps) ((i + k) * 8) ≡ p
pointer_placed [] k i p e = cc
pointer_placed (q ∷ ps) k zero p e = rw ((==_iff (k * 8) ((0 + k) * 8)).1 (omega arith)) (cc e)
pointer_placed (q ∷ ps) k (suc i) p e =
    rw (==_false (k * 8) ((suc i + k) * 8) (λ same. omega (arith, same))) (
      subst (λ (n : ℕ). pointer_at (placed 8 (suc k) ps) (n * 8) ≡ p) {x = i + suc k}
        {y = suc i + k} (omega arith) (pointer_placed ps (suc k) i p e))

abbrev pub closure_laws :
    ClosureLaws 4 test_cif test_ref world_native world_memory IsStored test_proxy.func_ptr handler
closure_laws = record {
  entry = enter;
  retval = 0;
  params = 0;
  keeps = λ a s t p v h. h;
  reads = λ a s ps i p size written at_i.
      ap (λ q. (ok q, enter a s))
        (ap (λ w. pointer_at w (i * 8)) written
          ∙ subst (λ (n : ℕ). pointer_at (placed 8 0 ps) (n * 8) ≡ p) {x = i + 0} {y = i}
              (omega arith) (pointer_placed ps 0 i p at_i));
  returns = λ proxy a s u v code same wide handled stored. (
    u.cell 0 ∷ [],
    ap (λ (r : Option Exn × World). (r.1.cell 0 ∷ [], none, r.1)) handled,
    ap (λ w. (ok w, u)) stored.0,
  );
}
