-- ===== src/Types/Results.antt =====
-- lib/type.js: `Type` as its callers see it.
use node_ffi_napi.Prelude.{
  ℕ, suc, ◌≡◌, ◌∙◌, refl, sym, ap, subst, inl, inr, Bool-cases, true, false, Option, none, some,
  List, All, leb, String,
}
use node_ffi_napi.Effect.{Result, ok, err, Exec, no_ffi_type, continue, ◌>>=◌}
use node_ffi_napi.Effect.Laws.{
  Ensures, Ensures-pure, Ensures-bind, Ensures-eq, Ensures-weaken, Ensures-ok,
}
use node_ffi_napi.Bindings.{FfiPtr, made}
use node_ffi_napi.Types.{
  Types, TypeArg, object, Ref, chain, read_ffi, direct, or_struct, or_named, or_throw, truthy_name,
  is_cstring, type_of_name, make_struct, search_chain, resolve, ffi_type_of,
}
use node_ffi_napi.Types.Frame.{Framed}
use node_ffi_napi.Types.Layout.{IsLaidOut, make_struct-IsLaidOut}
use node_ffi_napi.Types.Steps.{ffi_type_of-Framed}
use node_ffi_napi.Types.Search.{search_chain_fails}
use node_ffi_napi.Types.Caching.{again}

-- What `ref.coerceType` documents: a type object is returned as it is, and no `ffi_type` struct that
-- the library has made is touched.
pub record CoerceLaws (ref : Ref) : Type 0 where
  pub same : (t : ℕ) (s : Types) → ref.coerce_type (object t) s ≡ (ok t, s)
  pub keeps : (a : TypeArg) → Framed (ref.coerce_type a)

-- A struct type that has no `ffi_type` yet.
pub record IsNewStruct (ref : Ref) (t : ℕ) (fs : List (String × ℕ)) (s : Types) : Type 0 where
  pub single : (ref.obj t).indirection ≡ 1
  pub unset : read_ffi s (chain ref t) ≡ none
  pub not_array : (ref.obj t).element ≡ none
  pub is_struct : (ref.obj t).fields ≡ some fs

-- A type that is neither set, nor an array, nor a struct, and whose name and whose prototypes' names
-- libffi does not know.
pub record IsUnknown (ref : Ref) (t : ℕ) (s : Types) : Type 0 where
  pub single : (ref.obj t).indirection ≡ 1
  pub unset : read_ffi s (chain ref t) ≡ none
  pub not_array : (ref.obj t).element ≡ none
  pub not_struct : (ref.obj t).fields ≡ none
  pub is_named : truthy_name (ref.obj t).name ≡ true
  pub not_cstring : is_cstring (ref.obj t).name ≡ false
  pub unknown : All (λ c. type_of_name (ref.obj c).name ≡ none) (chain ref t)

module _ (ref : Ref) (rec : TypeArg → Exec Types FfiPtr) (t : ℕ) where
  pub direct_unset :
      (s : Types)
      → (ref.obj t).indirection ≡ 1
      → read_ffi s (chain ref t) ≡ none
      → direct ref t s ≡ none
  unfolding direct
  direct_unset s single unset = rw single unset

  struct_resolve :
      ((a : TypeArg) → Framed (rec a))
      → (fs : List (String × ℕ)) (s : Types) → IsNewStruct ref t fs s
      → Ensures
          (λ p u.
            (p ≡ made s.next)
            × (u.ffi_own t ≡ some (some p))
            × IsLaidOut ref rec fs s (u.struct s.next))
          (λ _ _. Unit)
          (resolve ref rec t s)
  unfolding resolve or_struct or_named
  struct_resolve rec_Framed fs s new =
      rw (new.single, direct_unset s new.single new.unset, new.not_array, new.is_struct)
        (Ensures-bind
          {Q = λ r u.
            (r ≡ some (made s.next))
            × (u.ffi_own t ≡ some r)
            × IsLaidOut ref rec fs s (u.struct s.next)}
          (make_struct ref rec t fs) (λ ret. or_named ref t ret >>= or_throw ref t) s
          (Ensures-weaken (make_struct-IsLaidOut ref rec rec_Framed t fs s)
            (λ r u q. (q.0, q.1, q.2)) (λ e u f. tt))
          λ r u (is_made, own, laid).
            rw is_made (Ensures-pure (made s.next) u (refl, own ∙ ap some is_made, laid)))

  invalid_throws :
      (s u : Types) {p : FfiPtr} {C : Type 0}
      → leb 1 (ref.obj t).indirection ≡ false
      → resolve ref rec t s ≡ (ok p, u)
      → C
  unfolding resolve
  invalid_throws s u invalid h = cc (ap (λ (r : Result FfiPtr × Types). r.0) (rw invalid at h))

  resolve_unknown :
      (s : Types)
      → IsUnknown ref t s
      → resolve ref rec t s ≡ (search_chain ref (chain ref t) >>= or_throw ref t) s
  unfolding resolve or_struct or_named
  resolve_unknown s h = rw (
    h.single,
    direct_unset s h.single h.unset,
    h.not_array,
    h.not_struct,
    h.is_named,
    h.not_cstring,
  )

  -- the outcome for a type that libffi does not know
  abbrev Pollutes : Result FfiPtr × Types → Type 0
  Pollutes r = (r.0 ≡ err (no_ffi_type t)) × All (λ c. r.1.ffi_own c ≡ some none) (chain ref t)

  thrown :
      (r : Result (Option FfiPtr) × Types)
      → r.0 ≡ ok none
      → All (λ c. r.1.ffi_own c ≡ some none) (chain ref t)
      → Pollutes (continue r.0 (or_throw ref t) r.1)
  thrown (ok none, s) e a = (refl, a)
  thrown (ok (some p), s) e a = cc
  thrown (err x, s) e a = cc

module _ (ref : Ref) (laws : CoerceLaws ref) where
  -- the call, once `coerceType` has returned the type object itself
  pub resolved :
      (fuel t : ℕ) (s : Types)
      → ffi_type_of ref (suc fuel) (object t) s ≡ resolve ref (ffi_type_of ref fuel) t s
  unfolding ffi_type_of
  resolved fuel t s = rw (laws.same t s)

  -- For a struct type with no `ffi_type` yet, `Type` returns the struct that it has made next and
  -- caches it on the type; the struct has size 0, alignment 0 and type 13, and its elements are, for
  -- each field in order, what `Type` returns for it in the state that the fields before it have left, once
  -- for each item of an array field, and the NULL that ends them; every write lies inside the buffer. No other struct is changed.
  pub struct_layout :
      (fuel t : ℕ) (fs : List (String × ℕ)) (s : Types)
      → IsNewStruct ref t fs s
      → Ensures
          (λ p u.
            (p ≡ made s.next)
            × (u.ffi_own t ≡ some (some p))
            × IsLaidOut ref (ffi_type_of ref fuel) fs s (u.struct s.next))
          (λ _ _. Unit)
          (ffi_type_of ref (suc fuel) (object t) s)
  struct_layout fuel t fs s new = Ensures-eq (sym (resolved fuel t s)) (
      struct_resolve ref (ffi_type_of ref fuel) t (ffi_type_of-Framed ref laws.keeps fuel) fs s new)

  -- A type for which `Type` returned is found again: a second call returns the same pointer, and
  -- changes nothing.
  pub ffi_type_of_again :
      (fuel t : ℕ) (p : FfiPtr) (s u : Types)
      → ffi_type_of ref (suc fuel) (object t) s ≡ (ok p, u)
      → ffi_type_of ref (suc fuel) (object t) u ≡ (ok p, u)
  ffi_type_of_again fuel t p s u h = elim (Bool-cases (leb 1 (ref.obj t).indirection)) [
    | inl valid ↦
        resolved fuel t u
        ∙ Ensures-ok
            (again ref (ffi_type_of ref fuel) (ffi_type_of-Framed ref laws.keeps fuel) t valid s)
            (sym (resolved fuel t s) ∙ h)
    | inr invalid ↦
        invalid_throws ref (ffi_type_of ref fuel) t s u invalid (sym (resolved fuel t s) ∙ h)
  ]

  -- For a type that libffi does not know, `Type` throws, and has left an own property `ffi_type`
  -- that is undefined on the type and on every one of its prototypes.
  pub unknown_type_pollutes :
      (fuel t : ℕ) (s : Types)
      → IsUnknown ref t s
      → ((ffi_type_of ref (suc fuel) (object t) s).0 ≡ err (no_ffi_type t))
        × All (λ c. (ffi_type_of ref (suc fuel) (object t) s).1.ffi_own c ≡ some none) (chain ref t)
  unknown_type_pollutes fuel t s h =
      subst (Pollutes ref (ffi_type_of ref fuel) t) (sym (resolved fuel t s)) (
        subst (Pollutes ref (ffi_type_of ref fuel) t)
          (sym (resolve_unknown ref (ffi_type_of ref fuel) t s h))
          (let (nothing, all) = search_chain_fails ref (chain ref t) s h.unknown in
            thrown ref (ffi_type_of ref fuel) t (search_chain ref (chain ref t) s) nothing all))
