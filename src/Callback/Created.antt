-- ===== src/Callback/Created.antt =====
-- lib/callback.js: the closure that `Callback` leaves.
use node_ffi_napi.Prelude.{
  ℕ, ◌≡◌, ◌≢◌, refl, sym, subst, true, ap, ◌∙◌, Option, none, some, List, ◌==◌, update, update_self,
  update_ne,
}
use node_ffi_napi.Effect.{closure_refused, closure_status}
use node_ffi_napi.Effect.Laws.{
  Ensures, Ensures-pure, Ensures-throw, Ensures-bind, Ensures-weaken, Ensures-check,
}
use node_ffi_napi.Types.{object, Ref}
use node_ffi_napi.Types.Results.{CoerceLaws}
use node_ffi_napi.Cif.{Libffi, Cif, cif}
use node_ffi_napi.Cif.Signature.{IsSignature, cif-IsSignature}
use node_ffi_napi.Foreign.{objects}
use node_ffi_napi.Foreign.Made.{coerce_all_same}
use node_ffi_napi.Callback.{
  Func, CallbackInfo, Making, Closures, Last, abi_of, func_of, on_types, store, new_closure,
  callback,
}

module _ {S V : Type 0} (ref : Ref) (ffi : Libffi) (clo : Closures S V) (fuel : ℕ) where
  -- A closure that calls this function, for these types, at the address that libffi has allocated for it and
  -- accepted; the closures at other addresses are the same.
  pub record IsCreated (r : ℕ) (ts : List ℕ) (abi : Option ℕ) (func : Func S V) (s : Making S V)
      (code : ℕ) (t : Making S V) : Type 0 where
    pub info : CallbackInfo S V
    pub stored : t.closures code ≡ some info
    pub allocated : clo.closure_alloc s.closures ≡ some code
    pub accepted : (clo.prep_closure info.cif code == ffi.status_ok) ≡ true
    pub signature :
        IsSignature ref fuel ffi.prep_cif ffi
          (object r)
          (objects ts)
          none
          abi
          s.types
          t.types
          info.cif
    pub types : (info.ret_type ≡ r) × (info.arg_types ≡ ts) × (info.result_size ≡ (ref.obj r).size)
    pub calls : info.function ≡ some func
    pub others : (c : ℕ) → code ≢ c → t.closures c ≡ s.closures c

  abbrev SameClosures : Making S V → Making S V → Type 0
  SameClosures s t = t.closures ≡ s.closures

  store_ensures :
      (info : CallbackInfo S V) (code : Option ℕ) (s : Making S V)
      → Ensures
          (λ c t.
            (t.closures ≡ update s.closures c (some info))
            × (t.types ≡ s.types)
            × (code ≡ some c)
            × ((clo.prep_closure info.cif c == ffi.status_ok) ≡ true))
          (λ _. SameClosures s)
          (store ref ffi clo fuel info code s)
  store_ensures info none s = Ensures-throw closure_refused s refl
  store_ensures info (some code) s =
      let status = clo.prep_closure info.cif code in
      Ensures-check (status == ffi.status_ok) (closure_status status) _ s
        (λ accepted. Ensures-pure code _ (refl, refl, refl, accepted)) (λ refused. refl)

  -- what `CIF` leaves
  abbrev Signed : ℕ → List ℕ → Option ℕ → Making S V → Cif → Making S V → Type 0
  Signed r ts abi s c t =
      IsSignature ref fuel ffi.prep_cif ffi (object r) (objects ts) none abi s.types t.types c
      × (t.closures ≡ s.closures)

  on_types_ensures :
      (r : ℕ) (ts : List ℕ) (abi : Option ℕ) (s : Making S V)
      → Ensures
          (Signed r ts abi s)
          (λ _. SameClosures s)
          (on_types ref ffi clo fuel (cif ref ffi fuel (object r) (some (objects ts)) abi) s)
  on_types_ensures r ts abi s =
      let e = cif-IsSignature ref fuel ffi (object r) (objects ts) abi s.types in
      record { on_ok = λ c eq. (e.on_ok c eq, refl); on_err = λ x eq. refl }

  new_closure-IsCreated :
      (r : ℕ) (ts : List ℕ) (abi : Option ℕ) (func : Func S V) (s t : Making S V) (c : Cif)
      → IsSignature ref fuel ffi.prep_cif ffi (object r) (objects ts) none abi s.types t.types c
      → t.closures ≡ s.closures
      → Ensures
          (IsCreated r ts abi func s)
          (λ _ u. u.closures ≡ s.closures)
          (new_closure ref ffi clo fuel
            (record {
              cif = c;
              ret_type = r;
              arg_types = ts;
              result_size = (ref.obj r).size;
              function = some func;
            })
            t)
  unfolding new_closure
  new_closure-IsCreated r ts abi func s t c sig same =
      Ensures-weaken (store_ensures _ (clo.closure_alloc t.closures) t)
        (λ code u (e, typed, from, accepted). record {
          info = _;
          stored = ap (λ f. f code) e ∙ update_self t.closures code _;
          allocated = ap clo.closure_alloc (sym same) ∙ from;
          accepted = accepted;
          signature =
              subst
                (λ v.
                  IsSignature ref fuel ffi.prep_cif ffi (object r) (objects ts) none abi s.types v
                    c)
                (sym typed) sig;
          types = (refl, refl, refl);
          calls = refl;
          others = λ d ne. ap (λ f. f d) e ∙ update_ne t.closures code d _ ne ∙ ap (λ f. f d) same;
        })
        (λ _ u e. e ∙ same)

  -- `Callback` on type objects returns only the address that `ffi_closure_alloc` has given, with a closure
  -- there that `ffi_prep_closure_loc` has accepted and that calls the function that it was given, in
  -- whichever place, for these types and the signature of what `Type` returns for them, which libffi has
  -- accepted; the closures at other addresses do not change, and none if it throws.
  pub callback-IsCreated :
      CoerceLaws ref
      → (r : ℕ) (ts : List ℕ) (last : Last (Func S V)) (func : Func S V) (s : Making S V)
      → func_of last ≡ some func
      → Ensures
          (IsCreated r ts (abi_of last) func s)
          (λ _ t. t.closures ≡ s.closures)
          (callback ref ffi clo fuel (object r) (some (objects ts)) last s)
  unfolding callback
  callback-IsCreated laws r ts last func s given =
      rw (given, laws.same r s.types, coerce_all_same ref laws ts s.types)
        (Ensures-bind {Q = Signed r ts (abi_of last) s}
          (on_types ref ffi clo fuel
            (cif ref ffi fuel (object r) (some (objects ts)) (abi_of last)))
          _ s (on_types_ensures r ts (abi_of last) s)
          (λ c t (sig, same). new_closure-IsCreated r ts (abi_of last) func s t c sig same))
