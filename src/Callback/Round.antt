-- ===== src/Callback/Round.antt =====
-- lib/callback.js with lib/_foreign_function.js: calling a callback through its function pointer.
use node_ffi_napi.Prelude.{ℕ, ◌≤◌, ◌+◌, ◌*◌, ◌≡◌, Option, none, some, List, [], ◌∷◌, get_elem?}
use node_ffi_napi.Effect.{Exn, ok, Exec}
use node_ffi_napi.PointerArray.{PointerArray, placed}
use node_ffi_napi.Types.{Ref}
use node_ffi_napi.Cif.{Cif}
use node_ffi_napi.Foreign.{Proxy, Native}
use node_ffi_napi.Foreign.Marshal.{alloc_all}
use node_ffi_napi.Foreign.Calls.{arg_array, invoke as call_array}
use node_ffi_napi.Callback.{Memory, Func, invoke}

-- What ref-napi documents of the memory. `Stored t p v s`: the C value at the address `p` is `v`, as
-- the type `t`. `Exact t v`: the C type `t` has the value `v` itself, which is then read back as it was
-- written; for others, as a number that a C float rounds, nothing is assumed.
pub record MemoryLaws {S V : Type 0} (nat : Native S V) (mem : Memory S V) (Exact : ℕ → V → Type 0)
    (Stored : ℕ → ℕ → V → S → Type 0) : Type 0 where
  pub alloc_stores :
      (t : ℕ) (v : V) (s : S) (p : ℕ) (u : S)
      → Exact t v
      → nat.alloc t v s ≡ (ok p, u)
      → Stored t p v u
  pub alloc_keeps :
      (t : ℕ) (v : V) (s : S) (p : ℕ) (u : S) (t' p' : ℕ) (v' : V)
      → nat.alloc t v s ≡ (ok p, u)
      → Stored t' p' v' s
      → Stored t' p' v' u
  pub deref_stored : (t p : ℕ) (v : V) (s : S) → Stored t p v s → mem.deref_at t p s ≡ (ok v, s)
  pub set_stores :
      (p : ℕ) (v : V) (t : ℕ) (s u : S) → Exact t v → mem.set p v t s ≡ (ok tt, u) → Stored t p v u

-- What libffi documents of a closure at the address `code`: a call of it with an argument array enters
-- the handler in a state where the parameters are the pointers of that array, and where what is stored
-- is still stored; if the call is made with the description `cif` that the closure was prepared with, and
-- the type of the result is no narrower than `ffi_arg`, of `arg_size` bytes, it returns without an exception,
-- with the state that the handler leaves, the bytes of the result that the handler has stored. Of narrower
-- results, which the handler would have to widen, nothing is assumed.
pub record ClosureLaws {S V : Type 0} (arg_size : ℕ) (cif : Cif) (ref : Ref) (nat : Native S V)
    (mem : Memory S V) (Stored : ℕ → ℕ → V → S → Type 0) (code : ℕ)
    (handler : (retval params : ℕ) → S → Option Exn × S) : Type 0 where
  pub entry : PointerArray ℕ → S → S
  pub retval : ℕ
  pub params : ℕ
  pub keeps :
      (a : PointerArray ℕ) (s : S) (t p : ℕ) (v : V) → Stored t p v s → Stored t p v (entry a s)
  pub reads :
      (a : PointerArray ℕ) (s : S) (ps : List ℕ) (i p size : ℕ)
      → a.writes ≡ placed ref.pointer_size 0 ps
      → get_elem? ps i ≡ some p
      → mem.read_pointer params (i * ref.pointer_size) size (entry a s) ≡ (ok p, entry a s)
  pub returns :
      (proxy : Proxy) (a : PointerArray ℕ) (s u : S) (v : V)
      → proxy.func_ptr ≡ code
      → proxy.cif ≡ cif
      → arg_size ≤ (ref.obj proxy.return_type).size
      → handler retval params (entry a s) ≡ (none, u)
      → Stored proxy.return_type retval v u
      → (bytes : List ℕ) × (nat.ffi_call proxy.cif proxy.func_ptr proxy.result_size a s
          ≡ (bytes, none, u))
        × (nat.deref proxy.return_type bytes u ≡ (ok v, u))

module _ {S V : Type 0} (ref : Ref) (nat : Native S V) (mem : Memory S V) (Exact : ℕ → V → Type 0)
    (Stored : ℕ → ℕ → V → S → Type 0) (laws : MemoryLaws nat mem Exact Stored) where
  -- These values are stored at these addresses.
  abbrev AllStored : S → List ℕ → List ℕ → List V → Type 0
  AllStored s [] [] [] = Unit
  AllStored s [] [] (v ∷ vs) = ⊥
  AllStored s [] (p ∷ ps) vs = ⊥
  AllStored s (t ∷ ts) [] vs = ⊥
  AllStored s (t ∷ ts) (p ∷ ps) [] = ⊥
  AllStored s (t ∷ ts) (p ∷ ps) (v ∷ vs) = Stored t p v s × AllStored s ts ps vs

  abbrev allocate : List ℕ → List V → ℕ → Exec S (List ℕ)
  allocate = alloc_all ref nat (λ j. j + 1)

  -- Each value is exact as its type.
  abbrev pub AllExact : List ℕ → List V → Type 0
  AllExact [] vs = Unit
  AllExact (t ∷ ts) [] = Unit
  AllExact (t ∷ ts) (v ∷ vs) = Exact t v × AllExact ts vs

  module _ (arg_size : ℕ) (proxy : Proxy) (func : Func S V)
      (clo : ClosureLaws arg_size proxy.cif ref nat mem Stored proxy.func_ptr
        (invoke ref mem proxy.arg_types proxy.return_type func))
      (vs : List V) (ps : List ℕ) (v : V) (s s1 s2 s3 : S) where
    -- the state in which the callback is entered
    abbrev pub entered : S
    entered = clo.entry (arg_array ref nat proxy ps) s1
