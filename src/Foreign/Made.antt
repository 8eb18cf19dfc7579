-- ===== src/Foreign/Made.antt =====
-- lib/foreign_function.js: what the function that `ForeignFunction` returns has been made for.
use node_ffi_napi.Prelude.{
  ℕ, ◌≤◌, ◌<◌, ◌≡◌, refl, inl, inr, Bool-cases, Option, none, some, List, [], ◌∷◌, leb, ltb, arith,
  if◌then◌else◌,
}
use node_ffi_napi.Effect.{ok}
use node_ffi_napi.Effect.Laws.{Ensures, Ensures-pure, Ensures-throw, Ensures-bind}
use node_ffi_napi.Types.{Types, object, Ref}
use node_ffi_napi.Types.Results.{CoerceLaws}
use node_ffi_napi.Cif.{Libffi, Cif, cif}
use node_ffi_napi.Cif.Signature.{IsSignature, cif-IsSignature}
use node_ffi_napi.Foreign.{Proxy, make_proxy, coerce_all, objects, foreign_function}

-- `argTypes.map(ref.coerceType)` on type objects
pub coerce_all_same :
    (ref : Ref)
    → CoerceLaws ref
    → (ts : List ℕ) (s : Types) → coerce_all ref (objects ts) s ≡ (ok ts, s)
unfolding coerce_all
coerce_all_same ref laws [] s = refl
coerce_all_same ref laws (t ∷ ts) s = rw (laws.same t s, coerce_all_same ref laws ts s) refl

module _ (ref : Ref) (ffi : Libffi) (fuel long_size : ℕ) where
  -- The proxy calls this C function, with an `ffi_cif` of these types that libffi has accepted, and
  -- has room for the result: for its type, and for a C `long`.
  pub record IsFunction (func_ptr r : ℕ) (ts : List ℕ) (abi : Option ℕ) (s u : Types) (f : Proxy)
      : Type 0 where
    pub signature : IsSignature ref fuel ffi.prep_cif ffi (object r) (objects ts) none abi s u f.cif
    pub calls : f.func_ptr ≡ func_ptr
    pub types : (f.return_type ≡ r) × (f.arg_types ≡ ts)
    pub room :
        ((ref.obj r).size ≤ f.result_size) × (long_size ≤ f.result_size) × (0 < f.result_size)

  made_IsFunction :
      (func_ptr r : ℕ) (ts : List ℕ) (abi : Option ℕ) (c : Cif) (before s : Types)
      → long_size ≤ ffi.arg_size
      → IsSignature ref fuel ffi.prep_cif ffi (object r) (objects ts) none abi before s c
      → Ensures
          (λ f u. IsFunction func_ptr r ts abi before u f)
          (λ _ _. Unit)
          (make_proxy ref ffi long_size c func_ptr r ts s)
  unfolding make_proxy
  made_IsFunction func_ptr r ts abi c before s wide sig = elim (Bool-cases (ltb 0 result_size)) [
    | inl positive ↦ rw positive (
        Ensures-pure _ s (record {
          signature = sig;
          calls = refl;
          types = (refl, refl);
          room = (fits, holds_long, ground (arith, positive));
        }))
    | inr empty ↦ rw empty (Ensures-throw _ s tt)
  ]
    where
      result_size : ℕ
      result_size = if leb long_size (ref.obj r).size then (ref.obj r).size else ffi.arg_size

      fits : (ref.obj r).size ≤ result_size
      fits = ground (arith, wide)

      holds_long : long_size ≤ result_size
      holds_long = ground (arith, wide)

  -- For type objects, what `ForeignFunction` returns, if it returns, calls the C function that it was
  -- given, for a signature of these types that libffi has accepted, with a result buffer that has
  -- room for the type of the result and for a `long`; `ffi_arg` has to be as wide as a `long`.
  pub foreign_function-IsFunction :
      CoerceLaws ref
      → long_size ≤ ffi.arg_size
      → (func_ptr r : ℕ) (ts : List ℕ) (abi : Option ℕ) (s : Types)
      → Ensures
          (λ f u. IsFunction func_ptr r ts abi s u f)
          (λ _ _. Unit)
          (foreign_function ref ffi fuel long_size
            (some func_ptr)
            (object r)
            (some (objects ts))
            abi
            s)
  unfolding foreign_function
  foreign_function-IsFunction laws wide func_ptr r ts abi s =
      rw (laws.same r s, coerce_all_same ref laws ts s)
        (Ensures-bind (cif ref ffi fuel (object r) (some (objects ts)) abi)
          (λ c. make_proxy ref ffi long_size c func_ptr r ts) s
          (cif-IsSignature ref fuel ffi (object r) (objects ts) abi s)
          λ c t sig. made_IsFunction func_ptr r ts abi c s t wide sig)
