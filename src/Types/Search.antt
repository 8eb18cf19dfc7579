-- ===== src/Types/Search.antt =====
-- lib/type.js: the search through the prototypes.
use node_ffi_napi.Prelude.{
  ℕ, ◌≡◌, ◌∙◌, refl, sym, ap, subst, inl, inr, ◌⊎◌, Bool-cases, Option, none, some, Option-cases,
  List, [], ◌∷◌, All, update, update_self, update_same, ==_iff, ◌==◌,
}
use node_ffi_napi.Effect.{Result, ok}
use node_ffi_napi.Bindings.{FfiPtr}
use node_ffi_napi.Types.{Types, Ref, type_of_name, search_chain, assign_ffi}

module _ (ref : Ref) where
  -- what the search writes on an object
  abbrev found_for : ℕ → Option FfiPtr
  found_for c = type_of_name (ref.obj c).name

  abbrev assigned : ℕ → Option FfiPtr → Types → Types
  assigned c v s = (assign_ffi c v s).1

  assigned_same :
      (c : ℕ) (v : Option FfiPtr) (s : Types) → s.ffi_own c ≡ some v → assigned c v s ≡ s
  assigned_same c v s h = ap (λ f. record s { ffi_own = f }) (update_same s.ffi_own c (some v) h)

  -- The two turns of the loop.
  step_none :
      (cur : ℕ) (rest : List ℕ) (s : Types)
      → found_for cur ≡ none
      → search_chain ref (cur ∷ rest) s ≡ search_chain ref rest (assigned cur none s)
  unfolding search_chain
  step_none cur rest s e = rw e

  step_some :
      (cur : ℕ) (rest : List ℕ) (s : Types) (q : FfiPtr)
      → found_for cur ≡ some q
      → search_chain ref (cur ∷ rest) s ≡ (ok (some q), assigned cur (some q) s)
  unfolding search_chain
  step_some cur rest s q e = rw e

  -- after one assignment
  written :
      (c cur : ℕ) (s : Types) (v : Option FfiPtr)
      → found_for cur ≡ v
      → s.ffi_own c ≡ some (found_for c)
      → update s.ffi_own cur (some v) c ≡ some (found_for c)
  written c cur s v e h = elim (Bool-cases (cur == c)) [
    | inl same ↦ rw same (ap some (sym e ∙ ap found_for ((==_iff cur c).0 same)))
    | inr other ↦ rw other h
  ]

  -- An object that has what the search would write keeps it.
  search_chain-keeps :
      (c : ℕ) (cs : List ℕ) (s : Types)
      → s.ffi_own c ≡ some (found_for c)
      → (search_chain ref cs s).1.ffi_own c ≡ some (found_for c)
  search_chain-keeps c [] s h = unfold search_chain in h
  search_chain-keeps c (cur ∷ rest) s h = elim (Option-cases (found_for cur)) [
    | inl e ↦
        rw (step_none cur rest s e)
          (search_chain-keeps c rest (assigned cur none s) (written c cur s none e h))
    | inr (q, e) ↦ rw (step_some cur rest s q e) (written c cur s (some q) e h)
  ]

  -- A search that found a type finds it again, and changes nothing more.
  pub search_chain_again :
      (cs : List ℕ) (p : FfiPtr) (s u : Types)
      → search_chain ref cs s ≡ (ok (some p), u)
      → search_chain ref cs u ≡ (ok (some p), u)
  search_chain_again [] p s u h = unfold search_chain in cc
  search_chain_again (cur ∷ rest) p s u h = elim (Option-cases (found_for cur)) [
    | inl e ↦
        let h' = sym (step_none cur rest s e) ∙ h in
        let kept : u.ffi_own cur ≡ some none =
          ap (λ (r : Result (Option FfiPtr) × Types). r.1.ffi_own cur) (sym h')
          ∙ search_chain-keeps cur rest (assigned cur none s)
              (update_self s.ffi_own cur (some none) ∙ ap some (sym e))
          ∙ ap some e in
        step_none cur rest u e
        ∙ ap (search_chain ref rest) (assigned_same cur none u kept)
        ∙ search_chain_again rest p (assigned cur none s) u h'
    | inr (q, e) ↦
        let h' = sym (step_some cur rest s q e) ∙ h in
        let kept : u.ffi_own cur ≡ some (some q) =
          ap (λ (r : Result (Option FfiPtr) × Types). r.1.ffi_own cur) (sym h')
          ∙ update_self s.ffi_own cur (some (some q)) in
        step_some cur rest u q e ∙ (λ i. ((h' i).0, assigned_same cur (some q) u kept i))
  ]

  value : {a b : Option FfiPtr} → ok a ≡ ok b → a ≡ b
  value h = cc

  -- After a search that found a type, the first object of the chain has that type, or none.
  pub search_chain-head :
      (cur : ℕ) (rest : List ℕ) (p : FfiPtr) (s u : Types)
      → search_chain ref (cur ∷ rest) s ≡ (ok (some p), u)
      → (u.ffi_own cur ≡ some (some p)) ⊎ (u.ffi_own cur ≡ some none)
  search_chain-head cur rest p s u h = elim (Option-cases (found_for cur)) [
    | inl e ↦ inr (
        ap (λ (r : Result (Option FfiPtr) × Types). r.1.ffi_own cur)
          (sym h ∙ step_none cur rest s e)
        ∙ search_chain-keeps cur rest (assigned cur none s)
            (update_self s.ffi_own cur (some none) ∙ ap some (sym e))
        ∙ ap some e)
    | inr (q, e) ↦
        let h' = sym (step_some cur rest s q e) ∙ h in
        inl (
          ap (λ (r : Result (Option FfiPtr) × Types). r.1.ffi_own cur) (sym h')
          ∙ update_self s.ffi_own cur (some (some q))
          ∙ ap some (value (ap (λ (r : Result (Option FfiPtr) × Types). r.0) h')))
  ]

  abbrev FoundNothing : List ℕ → Result (Option FfiPtr) × Types → Type 0
  FoundNothing cs r = (r.0 ≡ ok none) × All (λ c. r.1.ffi_own c ≡ some none) cs

  -- A search that finds nothing leaves an own, undefined `ffi_type` on every object of the chain.
  pub search_chain_fails :
      (cs : List ℕ) (s : Types)
      → All (λ c. found_for c ≡ none) cs
      → ((search_chain ref cs s).0 ≡ ok none)
        × All (λ c. (search_chain ref cs s).1.ffi_own c ≡ some none) cs
  search_chain_fails [] s h = unfold search_chain in (refl, tt)
  search_chain_fails (cur ∷ rest) s (e, h) =
      let (nothing, later) = search_chain_fails rest (assigned cur none s) h in
      subst (FoundNothing (cur ∷ rest)) (sym (step_none cur rest s e)) (
        nothing,
        (
          search_chain-keeps cur rest (assigned cur none s)
                (update_self s.ffi_own cur (some none) ∙ ap some (sym e))
              ∙ ap some e,
          later,
        ),
      )
