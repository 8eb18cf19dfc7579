-- ===== src/Types/Caching.antt =====
-- lib/type.js: a second call of `Type` on the same type object.
use node_ffi_napi.Prelude.{
  ℕ, ◌≡◌, sym, inl, inr, Bool-cases, true, false, Option, none, some, Option-cases, List, ◌==◌, leb,
  is_some, String, update_self, arith,
}
use node_ffi_napi.Effect.{Result, ok, Exec, ◌>>=◌, no_ffi_type}
use node_ffi_napi.Effect.Laws.{
  Ensures, Ensures-pure, Ensures-throw, Ensures-bind, Ensures-weaken, Ensures-eq, Ensures-run,
}
use node_ffi_napi.Bindings.{FfiPtr, made, pointer_type}
use node_ffi_napi.Types.{
  Types, TypeArg, Ref, chain, read_ffi, direct, or_struct, or_named, or_throw, truthy_name,
  is_cstring, make_struct, search_chain, resolve,
}
use node_ffi_napi.Types.Frame.{Framed}
use node_ffi_napi.Types.Layout.{make_struct-IsLaidOut}
use node_ffi_napi.Types.Search.{search_chain_again, search_chain-head}

module _ (ref : Ref) (rec : TypeArg → Exec Types FfiPtr)
    (rec_Framed : (a : TypeArg) → Framed (rec a)) (t : ℕ)
    (valid : leb 1 (ref.obj t).indirection ≡ true) where
  -- `Type` returns `p` at `u`, and changes nothing.
  abbrev pub Settled : FfiPtr → Types → Type 0
  Settled p u = resolve ref rec t u ≡ (ok p, u)

  Settled-direct : (p : FfiPtr) (u : Types) → direct ref t u ≡ some p → Settled p u
  unfolding resolve or_struct or_named
  Settled-direct p u e = rw (valid, e)

  Settled-array :
      (u : Types)
      → direct ref t u ≡ none
      → is_some (ref.obj t).element ≡ true
      → Settled pointer_type u
  unfolding resolve or_struct or_named
  Settled-array u e a = rw (valid, e, a)

  Settled-own :
      (p : FfiPtr) (u : Types)
      → ((ref.obj t).indirection == 1) ≡ true
      → u.ffi_own t ≡ some (some p)
      → Settled p u
  Settled-own p u one e = Settled-direct p u (unfold direct read_ffi in rw (one, e))

  Settled-search :
      (p : FfiPtr) (u : Types)
      → direct ref t u ≡ none
      → is_some (ref.obj t).element ≡ false
      → (ref.obj t).fields ≡ none
      → truthy_name (ref.obj t).name ≡ true
      → is_cstring (ref.obj t).name ≡ false
      → search_chain ref (chain ref t) u ≡ (ok (some p), u)
      → Settled p u
  unfolding resolve or_struct or_named
  Settled-search p u e a f n c h = rw (valid, e, a, f, n, c, h)

  -- a regular type, if nothing was found at once
  regular : (s : Types) → direct ref t s ≡ none → ((ref.obj t).indirection == 1) ≡ true
  unfolding direct
  regular s e = ground arith

  abbrev pub Again : Result FfiPtr × Types → Type 0
  Again = Ensures Settled (λ _ _. Unit)

  -- once `make_struct` has returned
  after_struct :
      (r : Option FfiPtr) (p : FfiPtr) (u : Types)
      → ((ref.obj t).indirection == 1) ≡ true
      → r ≡ some p
      → u.ffi_own t ≡ some r
      → Again ((or_named ref t r >>= or_throw ref t) u)
  unfolding or_named
  after_struct none p u one e own = cc
  after_struct (some q) p u one e own = Ensures-pure q u (Settled-own q u one own)

  -- once the search has returned
  after_search :
      (r : Option FfiPtr) (s u : Types)
      → ((ref.obj t).indirection == 1) ≡ true
      → is_some (ref.obj t).element ≡ false
      → (ref.obj t).fields ≡ none
      → truthy_name (ref.obj t).name ≡ true
      → is_cstring (ref.obj t).name ≡ false
      → search_chain ref (chain ref t) s ≡ (ok r, u)
      → Again (or_throw ref t r u)
  after_search none s u one a f n c h = Ensures-throw (no_ffi_type t) u tt
  after_search (some p) s u one a f n c h =
      Ensures-pure p u (elim (search_chain-head ref t (ref.obj t).prototypes p s u h) [
        | inl own ↦ Settled-own p u one own
        | inr undefined ↦
            Settled-search p u (unfold direct read_ffi in rw (one, undefined)) a f n c
              (search_chain_again ref (chain ref t) p s u h)
      ])

  module _ (s : Types) (unset : direct ref t s ≡ none)
      (single : is_some (ref.obj t).element ≡ false) where
    Again-struct :
        (fs : List (String × ℕ)) → (ref.obj t).fields ≡ some fs → Again (resolve ref rec t s)
    unfolding resolve or_struct
    Again-struct fs e =
        rw (valid, unset, single, e)
          (Ensures-bind {Q = λ r u. (r ≡ some (made s.next)) × (u.ffi_own t ≡ some r)}
            (make_struct ref rec t fs) (λ ret. or_named ref t ret >>= or_throw ref t) s
            (Ensures-weaken (make_struct-IsLaidOut ref rec rec_Framed t fs s) (λ r u q. (q.0, q.1))
              (λ e u f. tt))
            λ r u (is_made, own). after_struct r (made s.next) u (regular s unset) is_made own)

    Again-search :
        (ref.obj t).fields ≡ none
        → truthy_name (ref.obj t).name ≡ true
        → is_cstring (ref.obj t).name ≡ false
        → Again (resolve ref rec t s)
    unfolding resolve or_struct or_named
    Again-search e n c =
        rw (valid, unset, single, e, n, c)
          (Ensures-bind {Q = λ r u. search_chain ref (chain ref t) s ≡ (ok r, u)}
            (search_chain ref (chain ref t)) (or_throw ref t) s
            (Ensures-run (search_chain ref (chain ref t) s))
            λ r u h. after_search r s u (regular s unset) single e n c h)

    Again-cstring :
        (ref.obj t).fields ≡ none
        → truthy_name (ref.obj t).name ≡ true
        → is_cstring (ref.obj t).name ≡ true
        → Again (resolve ref rec t s)
    unfolding resolve or_struct or_named
    Again-cstring e n c =
        rw (valid, unset, single, e, n, c)
          (Ensures-pure pointer_type _
            (Settled-own pointer_type _ (regular s unset) (update_self s.ffi_own t _)))

    Again-unnamed :
        (ref.obj t).fields ≡ none
        → truthy_name (ref.obj t).name ≡ false
        → Again (resolve ref rec t s)
    unfolding resolve or_struct or_named
    Again-unnamed e n = rw (valid, unset, single, e, n) (Ensures-throw (no_ffi_type t) s tt)

    Again-unset : Again (resolve ref rec t s)
    Again-unset = elim (Option-cases (ref.obj t).fields) [
      | inr (fs, e) ↦ Again-struct fs e
      | inl e ↦ elim (Bool-cases (truthy_name (ref.obj t).name)) [
        | inr n ↦ Again-unnamed e n
        | inl n ↦ elim (Bool-cases (is_cstring (ref.obj t).name)) [
          | inl c ↦ Again-cstring e n c
          | inr c ↦ Again-search e n c
        ]
      ]
    ]

  pub again : (s : Types) → Again (resolve ref rec t s)
  again s = elim (Option-cases (direct ref t s)) [
    | inr (p, e) ↦
        let settled = Settled-direct p s e in Ensures-eq (sym settled) (Ensures-pure p s settled)
    | inl unset ↦ elim (Bool-cases (is_some (ref.obj t).element)) [
      | inl array ↦
          let settled = Settled-array s unset array in
          Ensures-eq (sym settled) (Ensures-pure pointer_type s settled)
      | inr single ↦ Again-unset s unset single
    ]
  ]
