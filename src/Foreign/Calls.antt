-- ===== src/Foreign/Calls.antt =====
-- lib/_foreign_function.js: a call of a proxy.
use node_ffi_napi.Prelude.{
  ℕ, ◌+◌, ◌*◌, ◌≡◌, ◌≢◌, ◌∙◌, refl, ap, true, false, List, [], ◌∷◌, length, ◌==◌, ==_iff, arith,
}
use node_ffi_napi.Effect.{expected_arguments, Result, ok, err, Exec, continue}
use node_ffi_napi.Effect.Laws.{Ensures-ok}
use node_ffi_napi.PointerArray
use node_ffi_napi.PointerArray.{PointerArray, placed, Holds, Holds-placed}
use node_ffi_napi.Types.{Ref}
use node_ffi_napi.Foreign.{Proxy, Native, read_result, Loop, set_arguments, call, call_async}
use node_ffi_napi.Foreign.Marshal.{alloc_all, laid_out, set_arguments-alloc_all, length-alloc_all}

module _ {S V : Type 0} (ref : Ref) (nat : Native S V) (f : Proxy) where
  open nat use {ffi_call, deref, is_function}

  abbrev pub num_args : ℕ
  num_args = length f.arg_types

  -- the argument array of a call
  abbrev pub arg_array : List ℕ → PointerArray ℕ
  arg_array ps = record {
    size = num_args * ref.pointer_size;
    writes = placed ref.pointer_size 0 ps;
  }

  -- `ffi_call` and the reading of its result
  abbrev pub invoke : PointerArray ℕ → Exec S V
  invoke args s = read_result ref nat f.return_type (ffi_call f.cif f.func_ptr f.result_size args s)

  abbrev pub marshalled : Result (PointerArray ℕ) × S → Result V × S
  marshalled r = continue r.0 invoke r.1

  pub arity : (n m : ℕ) → n ≡ m → (n == m) ≡ true
  arity n m e = (==_iff n m).1 e

  pub call-marshalled :
      (args : List V) (s : S)
      → length args ≡ num_args
      → call ref nat f args s
        ≡ marshalled (
            set_arguments ref nat
              (λ i. i + 1)
              f.arg_types
              args
              0
              (PointerArray.alloc (num_args * ref.pointer_size))
              s)
  unfolding call
  call-marshalled args s h = rw (arity _ _ h)

  -- A call with the right number of arguments allocates a C value for each, in order, lays their
  -- addresses out in order inside the array that libffi gets, calls the function, and returns what
  -- is read from the result.
  pub call_marshals :
      (args : List V) (ps : List ℕ) (s t : S)
      → length args ≡ length f.arg_types
      → alloc_all ref nat (λ i. i + 1) f.arg_types args 0 s ≡ (ok ps, t)
      → (call ref nat f args s ≡ invoke (arg_array ps) t) × Holds ref.pointer_size ps (arg_array ps)
  call_marshals args ps s t h e = (
    call-marshalled args s h
        ∙ ap marshalled (
            set_arguments-alloc_all ref nat (λ i. i + 1) f.arg_types args 0 _ s
            ∙ ap (laid_out ref.pointer_size 0 (PointerArray.alloc (num_args * ref.pointer_size)))
                e),
    Holds-placed ref.pointer_size ps (arg_array ps) refl
        (omega (arith, ap (λ (n : ℕ). n * ref.pointer_size) counted)),
  )
    where
      counted : length ps ≡ num_args
      counted = Ensures-ok (length-alloc_all ref nat (λ i. i + 1) f.arg_types args 0 s h) e

  other : (n m : ℕ) → n ≢ m → (n == m) ≡ false
  other n m h = ground arith

  async_arity :
      (args : List V) (l : Loop S V)
      → length args ≢ num_args + 1
      → call_async ref nat f args l ≡ (err (expected_arguments (num_args + 1) (length args)), l)
  unfolding call_async
  async_arity [] l h = refl
  async_arity (x ∷ xs) l h = rw (other (length (x ∷ xs)) (num_args + 1) h)

  sync_arity :
      (args : List V) (s : S)
      → length args ≢ num_args
      → call ref nat f args s ≡ (err (expected_arguments num_args (length args)), s)
  unfolding call
  sync_arity args s h = rw (other (length args) num_args h)

  -- A call with another number of arguments than the function's, and an asynchronous one with
  -- another than that and the callback, throw an error with both numbers, and do nothing else.
  pub wrong_arity :
      (args async_args : List V) (s : S) (l : Loop S V)
      → length args ≢ length f.arg_types
      → length async_args ≢ length f.arg_types + 1
      → (call ref nat f args s ≡ (err (expected_arguments (length f.arg_types) (length args)), s))
        × (call_async ref nat f async_args l
            ≡ (err (expected_arguments (length f.arg_types + 1) (length async_args)), l))
  wrong_arity args async_args s l h h' = (sync_arity args s h, async_arity async_args l h')
