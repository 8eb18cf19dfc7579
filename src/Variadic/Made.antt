-- ===== src/Variadic/Made.antt =====
-- lib/foreign_function_var.js: the function in the cache or made for it, and its description.
use node_ffi_napi.Prelude.{
  ℕ, ◌≡◌, refl, ap, sym, ◌∙◌, ◌⊎◌, subst, inl, inr, Bool-cases, some, Option-cases, List, ◌∷◌,
  length, ltb, leb, if◌then◌else◌,
}
use node_ffi_napi.Effect.Laws.{
  Ensures, Ensures-pure, Ensures-throw, Ensures-bind, Ensures-weaken, Ensures-both,
}
use node_ffi_napi.Types.{Types, Ref}
use node_ffi_napi.Cif.{Libffi, Cif, or_default, cif_var}
use node_ffi_napi.Cif.Signature.{IsSignature, cif_var-IsSignature}
use node_ffi_napi.Foreign.Exact.{length-objects}
use node_ffi_napi.Foreign.{Proxy, make_proxy, objects}
use node_ffi_napi.Variadic.{
  Ids, Generator, Session, join, on_types, find_cached, make_cached, or_make,
}
use node_ffi_napi.Variadic.Known.{IdsOk, HasIds, HasIds-Extends}
use node_ffi_napi.Variadic.Cache.{IsDescribed, Plain, Entry-types, find_cached-Entry, CacheOk}
use node_ffi_napi.Variadic.Given.{Kept-types, CacheOk-Kept, typed, EnsuresKept}

module _ (ref : Ref) (ffi : Libffi) (fuel long_size : ℕ) where
  -- What a generator's call returns: a function of its C function, for these types, with the description of
  -- a call of that many arguments. Of the description's return type nothing is said: it is the generator's
  -- own, whatever `r` is.
  abbrev pub Suits : Generator → ℕ → List ℕ → Proxy → Type 0
  Suits g r ts f =
      (f.return_type ≡ r) × (f.arg_types ≡ ts) × (f.func_ptr ≡ g.func_ptr) × IsDescribed g f

  -- what `CIF_var` returns for the return type of a generator and these types, from one state to another
  abbrev pub Signed : Generator → List ℕ → Types → Types → Cif → Type 0
  Signed g ts s u c =
      IsSignature ref fuel (ffi.prep_cif_var (length g.fixed_arg_types)) ffi g.return_type
        (objects ts) (some (length g.fixed_arg_types)) g.abi s u c

  -- The function was in the cache, or its description is the one that `CIF_var` has made last, of what
  -- `Type` returns for the types.
  abbrev pub IsFromCache : List (List ℕ × Proxy) → Proxy → Type 0
  IsFromCache cache f = (key : List ℕ) × (find_cached key cache ≡ some f)

  abbrev pub IsMade : Generator → List ℕ → List (List ℕ × Proxy) → Proxy → Session → Type 0
  IsMade g ts cache f s = IsFromCache cache f ⊎ ((t : Types) × Signed g ts t s.types f.cif)

  pub IsMade-same :
      (g : Generator) (ts : List ℕ) (f : Proxy) (s : Session) {c d : List (List ℕ × Proxy)}
      → c ≡ d
      → IsMade g ts c f s
      → IsMade g ts d f s
  IsMade-same g ts f s {c} {d} e m = subst (λ x. IsMade g ts x f s) {x = c} {y = d} e m

  on_types-Signed :
      (g : Generator) (ts : List ℕ) (s : Session)
      → Ensures
          (λ c t. Signed g ts s.types t.types c)
          (λ _ _. Unit)
          (on_types
            (cif_var ref ffi fuel g.return_type
              (some (objects ts))
              (length g.fixed_arg_types)
              g.abi)
            s)
  on_types-Signed g ts s =
      let e =
        cif_var-IsSignature ref fuel ffi g.return_type (objects ts) g.abi s.types
          (length g.fixed_arg_types) in
      record { on_ok = λ c eq. (e.on_ok c eq).1; on_err = λ x eq. tt }

  Signed-IsDescribed :
      (g : Generator) (ts : List ℕ) (s u : Types) (f : Proxy)
      → f.arg_types ≡ ts
      → Signed g ts s u f.cif
      → IsDescribed g f
  Signed-IsDescribed g ts s u f same sig = record {
    counted = sig.counted.0 ∙ length-objects ts ∙ ap length (sym same);
    fixed = sig.counted.1;
    convention = λ abi given. sig.convention ∙ ap (or_default ffi.default_abi) given;
  }

  HasIds-Suits :
      (i : Ids) (g : Generator) (f : Proxy) (r : ℕ) (ts : List ℕ) (ks : List (List ℕ))
      → Suits g r ts f
      → HasIds i (r ∷ ts) ks
      → HasIds i (f.return_type ∷ f.arg_types) ks
  HasIds-Suits i g f r ts ks (e, e', _, _) h =
      subst (λ us. HasIds i us ks) {x = r ∷ ts} {y = f.return_type ∷ f.arg_types} (cc (e, e')) h

  make_proxy-Suits :
      (g : Generator) (c : Cif) (r : ℕ) (ts : List ℕ) (s : Session)
      → IdsOk s.ids
      → (t : Types) → Signed g ts t s.types c
      → EnsuresKept 0 s
          (λ f s'. Suits g r ts f × Signed g ts t s'.types f.cif)
          (make_proxy ref ffi long_size c g.func_ptr r ts s)
  unfolding make_proxy
  make_proxy-Suits g c r ts s fine t sig =
      let size = (ref.obj r).size in
      let result_size = if leb long_size size then size else ffi.arg_size in
      elim (Bool-cases (ltb 0 result_size)) [
        | inl positive ↦ rw positive (
            Ensures-pure _ s (
              ((refl, refl, refl, Signed-IsDescribed g ts t s.types _ refl sig), sig),
              Kept-types 0 s s.types fine,
            ))
        | inr empty ↦ rw empty (Ensures-throw _ s (Kept-types 0 s s.types fine))
      ]

  make_cached-Suits :
      (g : Generator) (name : List ℕ) (key : List (List ℕ)) (r : ℕ) (ts : List ℕ) (s : Session)
      → CacheOk g s
      → HasIds s.ids (r ∷ ts) (name ∷ key)
      → Plain (name ∷ key)
      → Ensures
          (λ f s'. Suits g r ts f × CacheOk g s' × IsMade g ts s.cache f s')
          (λ _ s'. CacheOk g s')
          (make_cached ref ffi fuel long_size g (join (name ∷ key)) r ts s)
  unfolding make_cached
  make_cached-Suits g name key r ts s good has plain =
      Ensures-bind
        (on_types
          (cif_var ref ffi fuel g.return_type (some (objects ts)) (length g.fixed_arg_types) g.abi))
        _ s
        (Ensures-weaken
          (Ensures-both
            (typed
              (cif_var ref ffi fuel g.return_type (some (objects ts)) (length g.fixed_arg_types)
                g.abi)
              s good.fine)
            (on_types-Signed g ts s))
          (λ c t k. k) (λ x t k. CacheOk-Kept g good k.0))
        λ c t (k, described).
          Ensures-bind (make_proxy ref ffi long_size c g.func_ptr r ts) _ t
            (Ensures-weaken (make_proxy-Suits g c r ts t k.fine s.types described) (λ f u q. q)
              (λ x u k'. CacheOk-Kept g (CacheOk-Kept g good k) k'))
            λ f u ((suits, sig), k').
              Ensures-pure f (record u { cache = (join (name ∷ key), f) ∷ u.cache })
                (
                  suits,
                  record {
                    fine = k'.fine;
                    fixed = (CacheOk-Kept g (CacheOk-Kept g good k) k').fixed;
                    entries = (
                      record {
                        name = name;
                        key = key;
                        has = HasIds-Suits u.ids g f r ts (name ∷ key) suits (
                            HasIds-Extends (r ∷ ts) (name ∷ key) k'.extends
                              (HasIds-Extends (r ∷ ts) (name ∷ key) k.extends has));
                        plain = plain;
                        keyed = refl;
                        calls = suits.2;
                        described = suits.3;
                      },
                      (CacheOk-Kept g (CacheOk-Kept g good k) k').entries,
                    );
                  },
                  inr (s.types, sig),
                )

  -- the branch on `cache[key]`
  pub or_make-Suits :
      (g : Generator) (name : List ℕ) (key : List (List ℕ)) (r : ℕ) (ts : List ℕ) (s : Session)
      → CacheOk g s
      → HasIds s.ids (r ∷ ts) (name ∷ key)
      → Plain (name ∷ key)
      → Ensures
          (λ f s'. Suits g r ts f × CacheOk g s' × IsMade g ts s.cache f s')
          (λ _ s'. CacheOk g s')
          (or_make ref ffi fuel long_size g
            (join (name ∷ key))
            r
            ts
            (find_cached (join (name ∷ key)) s.cache)
            s)
  or_make-Suits g name key r ts s good has plain =
      elim (Option-cases (find_cached (join (name ∷ key)) s.cache)) [
        | inl new ↦ rw new (make_cached-Suits g name key r ts s good has plain)
        | inr (f, old) ↦
            let entry = find_cached-Entry g s.ids (join (name ∷ key)) s.cache f good.entries old in
            let types = Entry-types g s.ids good.fine f r ts name key has plain entry in
            rw old (
              Ensures-pure f s (
                (head-eq types, rest-eq types, entry.calls, entry.described),
                good,
                inl (join (name ∷ key), old),
              ))
      ]
    where
      head-eq : {a b : ℕ} {us vs : List ℕ} → a ∷ us ≡ b ∷ vs → a ≡ b
      head-eq e = cc

      rest-eq : {a b : ℕ} {us vs : List ℕ} → a ∷ us ≡ b ∷ vs → us ≡ vs
      rest-eq e = cc
