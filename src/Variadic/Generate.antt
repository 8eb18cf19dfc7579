-- ===== src/Variadic/Generate.antt =====
-- lib/foreign_function_var.js: a call of a generator, from the cache or not.
use node_ffi_napi.Prelude.{
  ℕ, ◌+◌, ◌<◌, ◌≡◌, ◌≢◌, ◌∙◌, subst, List, [], ◌∷◌, ◌++◌, All, length, ltb, arith,
}
use node_ffi_napi.Effect.{Exec, assertion, ◌>>=◌, check}
use node_ffi_napi.Effect.Laws.{Ensures, Ensures-bind, Ensures-check, Ensures-weaken}
use node_ffi_napi.Types.{object, Ref}
use node_ffi_napi.Types.Results.{CoerceLaws}
use node_ffi_napi.Cif.{Libffi}
use node_ffi_napi.Foreign.{Proxy, objects}
use node_ffi_napi.Variadic.{
  get_id, Generator, Session, join, on_types, on_ids, find_cached, collect, or_make, key_of,
  generate,
}
use node_ffi_napi.Variadic.Known.{
  HasId, Extends-trans, HasIds, HasIds-Extends, HasIds-append, HasIds-plain,
}
use node_ffi_napi.Variadic.Cache.{CacheOk}
use node_ffi_napi.Variadic.Given.{CacheOk-Kept, got, coerced, collect-HasIds}
use node_ffi_napi.Variadic.Made.{Suits, IsMade, IsMade-same, or_make-Suits}

module _ (ref : Ref) (ffi : Libffi) (fuel long_size : ℕ) where
  -- what a generator's call does with the key
  abbrev with_key : Generator → ℕ → List ℕ → List ℕ → Exec Session Proxy
  with_key g u us key s = or_make ref ffi fuel long_size g key u us (find_cached key s.cache) s

  -- the rest of a generator's call, once every type has its id
  keyed_Suits :
      (g : Generator) (r : ℕ) (ts : List ℕ) (z : ℕ) (s : Session) (name : List ℕ)
      (key : List (List ℕ)) (u : ℕ) (us : List ℕ)
      → CacheOk g s
      → HasId s.ids z (b'0' ∷ [])
      → All (λ t. t ≢ z) (r ∷ g.fixed_arg_types ++ ts)
      → u ≡ r
      → us ≡ ts
      → HasId s.ids u name
      → HasIds s.ids ts key
      → Ensures
          (λ f s'.
            Suits ref ffi fuel long_size g r (g.fixed_arg_types ++ ts) f
            × CacheOk g s'
            × IsMade ref ffi fuel long_size g (g.fixed_arg_types ++ ts) s.cache f s')
          (λ _ s'. CacheOk g s')
          (or_make ref ffi fuel long_size g
            (join (name ∷ g.fixed_key ++ key))
            u
            (g.fixed_arg_types ++ us)
            (find_cached (join (name ∷ g.fixed_key ++ key)) s.cache)
            s)
  keyed_Suits g r ts z s name key u us good first others same types has_r has =
      rw (same, types)
        (or_make-Suits ref ffi fuel long_size g name (g.fixed_key ++ key) r
          (g.fixed_arg_types ++ ts) s good has_all
          (HasIds-plain s.ids good.fine z first (r ∷ g.fixed_arg_types ++ ts)
            (name ∷ g.fixed_key ++ key) has_all others))
    where
      has_all : HasIds s.ids (r ∷ g.fixed_arg_types ++ ts) (name ∷ g.fixed_key ++ key)
      has_all = (
        subst (λ t. HasId s.ids t name) same has_r,
        HasIds-append s.ids g.fixed_arg_types ts g.fixed_key key good.fixed has,
      )

  -- While fewer than 65536 types have ids, a generator whose cache is sound returns, for the types of
  -- the variable arguments, if it returns, a function of its own C function, of the return type that
  -- was asked for, and of the fixed and the variable types. The function's `ffi_cif` describes a call
  -- of as many arguments, of which the fixed ones are fixed, under the generator's ABI, where it has
  -- one. The function was in the cache, or its `ffi_cif` has what `Type` returned, between some state
  -- and the end of the call, for the generator's return type and for these types, and libffi has
  -- accepted it. The cache is sound after the call, returned or thrown. None of the types may be the
  -- one with the first id, "0".
  pub generate_right :
      CoerceLaws ref
      → (g : Generator) (r : ℕ) (ts : List ℕ) (z : ℕ) (s : Session) → CacheOk g s
      → HasId s.ids z (b'0' ∷ [])
      → All (λ t. t ≢ z) (r ∷ g.fixed_arg_types ++ ts)
      → s.ids.counter + length ts < 0x10000
      → Ensures
          (λ f s'.
            Suits ref ffi fuel long_size g r (g.fixed_arg_types ++ ts) f
            × CacheOk g s'
            × IsMade ref ffi fuel long_size g (g.fixed_arg_types ++ ts) s.cache f s')
          (λ _ s'. CacheOk g s')
          (generate ref ffi fuel long_size g (object r) (objects ts) s)
  unfolding generate
  generate_right laws g r ts z s good first others room =
      Ensures-bind (collect ref ffi fuel long_size (objects ts)) _ s
        (Ensures-weaken (collect-HasIds ref ffi fuel long_size laws ts s good.fine (omega arith))
          (λ v t q. q) (λ x t k. CacheOk-Kept g good k))
        λ v s1 ((types, has), k1).
          Ensures-bind (on_types (ref.coerce_type (object r))) _ s1
            (Ensures-weaken (coerced ref ffi fuel long_size laws r s1 k1.fine) (λ u t q. q)
              (λ x t k. CacheOk-Kept g (CacheOk-Kept g good k1) k))
            λ u s2 (same, k2).
              Ensures-bind (on_ids (get_id u))
                (λ name.
                  (check (ltb 0 (length name)) (assertion "rtnName") >>= λ _.
                  with_key g u (g.fixed_arg_types ++ v.0)
                    (key_of ref ffi fuel long_size name (g.fixed_key ++ v.1))))
                s2
                (Ensures-weaken (got u s2 k2.fine (omega (arith, k1.counted, k2.counted)))
                  (λ n t q. q)
                  (λ x t k. CacheOk-Kept g (CacheOk-Kept g (CacheOk-Kept g good k1) k2) k))
                λ name s3 (named_type, k3).
                  let after_all = Extends-trans k1.extends (Extends-trans k2.extends k3.extends) in
                  let good3 = CacheOk-Kept g (CacheOk-Kept g (CacheOk-Kept g good k1) k2) k3 in
                  Ensures-check (ltb 0 (length name)) (assertion "rtnName")
                    (λ _.
                      with_key g u (g.fixed_arg_types ++ v.0)
                        (key_of ref ffi fuel long_size name (g.fixed_key ++ v.1)))
                    s3
                    (λ _.
                      Ensures-weaken
                        (keyed_Suits g r ts z s3 name v.1 u v.0 good3
                          (after_all.kept z (b'0' ∷ []) first) others same types named_type
                          (HasIds-Extends ts v.1 (Extends-trans k2.extends k3.extends) has))
                        (λ f t q. (
                          q.0,
                          q.1,
                          IsMade-same ref ffi fuel long_size g (g.fixed_arg_types ++ ts) f t
                              (k3.cache_same ∙ k2.cache_same ∙ k1.cache_same) q.2,
                        ))
                        (λ e t q. q))
                    (λ empty. good3)
