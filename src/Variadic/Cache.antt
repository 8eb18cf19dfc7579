-- ===== src/Variadic/Cache.antt =====
-- lib/foreign_function_var.js: the cache of a generator and its keys.
use node_ffi_napi.Prelude.{
  ℕ, ◌≡◌, ◌≢◌, ◌∙◌, refl, sym, ap, subst, inl, inr, Bool-cases, true, some, List, [], ◌∷◌, All,
  ◌==◌, ==_iff, length,
}
use node_ffi_napi.Foreign.{Proxy}
use node_ffi_napi.Variadic.{Ids, Generator, Session, join, same_text, find_cached}
use node_ffi_napi.Variadic.Split.{IsPart, split, split-join}
use node_ffi_napi.Variadic.Known.{
  IdsOk, Extends, HasIds, HasIds-Extends, HasIds-once, HasIds-IsPart,
}

pub same_text-eq : (s t : List ℕ) → same_text s t ≡ true → s ≡ t
unfolding same_text
same_text-eq [] [] h = refl
same_text-eq [] (d ∷ t) h = cc
same_text-eq (c ∷ s) [] h = cc
same_text-eq (c ∷ s) (d ∷ t) h = elim (Bool-cases (c == d)) [
  | inl e ↦ cc ((==_iff c d).0 e, same_text-eq s t (rw e at h))
  | inr e ↦ cc (rw e at h)
]

abbrev pub Plain : List (List ℕ) → Type 0
Plain ks = All (λ k. k ≢ b'0' ∷ []) ks

-- The function's `ffi_cif` is that of a variadic call: of all the function's arguments, with the fixed ones
-- of the generator, and under the generator's ABI, where it has one.
pub record IsDescribed (g : Generator) (f : Proxy) : Type 0 where
  pub counted : f.cif.num_args ≡ length f.arg_types
  pub fixed : f.cif.fixed_args ≡ some (length g.fixed_arg_types)
  pub convention : (abi : ℕ) → g.abi ≡ some abi → f.cif.abi ≡ abi

-- A cached function stands under the key of its own types.
pub record Entry (g : Generator) (i : Ids) (e : List ℕ × Proxy) : Type 0 where
  pub name : List ℕ
  pub key : List (List ℕ)
  pub has : HasIds i (e.1.return_type ∷ e.1.arg_types) (name ∷ key)
  pub plain : Plain (name ∷ key)
  pub keyed : e.0 ≡ join (name ∷ key)
  pub calls : e.1.func_ptr ≡ g.func_ptr
  pub described : IsDescribed g e.1

Entry-Extends :
    (g : Generator) {i j : Ids} (e : List ℕ × Proxy) → Extends i j → Entry g i e → Entry g j e
Entry-Extends g e x h = record {
  name = h.name;
  key = h.key;
  has = HasIds-Extends (e.1.return_type ∷ e.1.arg_types) (h.name ∷ h.key) x h.has;
  plain = h.plain;
  keyed = h.keyed;
  calls = h.calls;
  described = h.described;
}

pub Entries-Extends :
    (g : Generator) {i j : Ids} (m : List (List ℕ × Proxy))
    → Extends i j
    → All (Entry g i) m
    → All (Entry g j) m
Entries-Extends g [] x h = tt
Entries-Extends g (e ∷ m) x h = (Entry-Extends g e x h.0, Entries-Extends g m x h.1)

pub find_cached-Entry :
    (g : Generator) (i : Ids) (k : List ℕ) (m : List (List ℕ × Proxy)) (f : Proxy)
    → All (Entry g i) m
    → find_cached k m ≡ some f
    → Entry g i (k, f)
unfolding find_cached
find_cached-Entry g i k [] f h e = cc
find_cached-Entry g i k ((j, f') ∷ m) f h e = elim (Bool-cases (same_text j k)) [
  | inl same ↦ subst (Entry g i) (λ n. (same_text-eq j k same n, some-eq (rw same at e) n)) h.0
  | inr other ↦ find_cached-Entry g i k m f h.1 (rw other at e)
]
  where
    some-eq : {a b : Proxy} → some a ≡ some b → a ≡ b
    some-eq p = cc

-- The same key, the same types.
pub Entry-types :
    (g : Generator) (i : Ids)
    → IdsOk i
    → (f : Proxy) (r : ℕ) (ts : List ℕ) (name : List ℕ) (key : List (List ℕ))
    → HasIds i (r ∷ ts) (name ∷ key)
    → Plain (name ∷ key)
    → Entry g i (join (name ∷ key), f)
    → f.return_type ∷ f.arg_types ≡ r ∷ ts
Entry-types g i fine f r ts name key h p e =
    HasIds-once i fine (f.return_type ∷ f.arg_types) (r ∷ ts) (name ∷ key)
      (subst (HasIds i (f.return_type ∷ f.arg_types)) same e.has) h
  where
    parts : All IsPart (name ∷ key)
    parts = HasIds-IsPart i fine (r ∷ ts) (name ∷ key) h p

    parts' : All IsPart (e.name ∷ e.key)
    parts' = HasIds-IsPart i fine (f.return_type ∷ f.arg_types) (e.name ∷ e.key) e.has e.plain

    same : e.name ∷ e.key ≡ name ∷ key
    same =
        sym (split-join e.name e.key parts'.0 parts'.1)
        ∙ ap (split 0) (sym e.keyed)
        ∙ split-join name key parts.0 parts.1

-- What a generator relies on: distinct ids, those of its fixed types, and a cache of functions
-- that stand under the keys of their own types.
pub record CacheOk (g : Generator) (s : Session) : Type 0 where
  pub fine : IdsOk s.ids
  pub fixed : HasIds s.ids g.fixed_arg_types g.fixed_key
  pub entries : All (Entry g s.ids) s.cache
