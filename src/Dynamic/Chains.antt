-- ===== src/Dynamic/Chains.antt =====
-- lib/dynamic_library.js: linker scripts that name one another.
use node_ffi_napi.Prelude.{
  ℕ, zero, suc, ◌<◌, ◌≡◌, ◌≢◌, ◌∙◌, refl, inl, inr, arith, Bool-cases, Option, some, List, ◌==◌,
  ==_iff,
}
use node_ffi_napi.Effect.{ok}
use node_ffi_napi.Dynamic.{System, dynamic_library, script_path, group_file}
use node_ffi_napi.Dynamic.Handles.{opens_linker_script}

module _ {S : Type 0} (sys : System S) (mode : ℕ) where
  -- From this path and state, `n` linker scripts, each named by the one before it, lead to the file
  -- `last`, which `dlopen` opens, with this handle and state after it.
  pub data Leads (last : Option (List ℕ)) (handle : ℕ) (after : S)
      : ℕ → Option (List ℕ) → S → Type 0 where
    opens : {s : S} → sys.dlopen last mode s ≡ (ok handle, after) → Leads last handle after 0 last s
    script :
        {n : ℕ} {path : Option (List ℕ)} {s : S} (text name content file : List ℕ) (t u v : S)
        → sys.dlopen path mode s ≡ (ok 0, t)
        → sys.dlerror t ≡ (ok (some text), u)
        → script_path text ≡ some name
        → sys.read name u ≡ (ok content, v)
        → group_file content ≡ some file
        → Leads last handle after n (some file) v
        → Leads last handle after (suc n) path s

  opened :
      (fuel : ℕ) (path : Option (List ℕ)) (handle old : ℕ) (was : Option (List ℕ)) (s t : S)
      → handle ≢ 0
      → sys.dlopen path mode s ≡ (ok handle, t)
      → dynamic_library sys
          (suc fuel)
          path
          (some mode)
          (record { system = s; path = was; handle = old })
        ≡ (ok tt, record { system = t; path = path; handle = handle })
  unfolding dynamic_library
  opened fuel path handle old was s t open' h = elim (Bool-cases (handle == 0)) [
    | inl null ↦ absurd (open' ((==_iff handle 0).0 null))
    | inr found ↦ rw (h, found) refl
  ]

  -- The constructor follows any number of linker scripts to the library that the last one names, and
  -- returns with its handle and path, if the fuel is more than the number of the scripts.
  pub follows_scripts :
      (n fuel : ℕ) (path last was : Option (List ℕ)) (handle old : ℕ) (s after : S)
      → n < fuel
      → handle ≢ 0
      → Leads last handle after n path s
      → dynamic_library sys fuel path (some mode) (record { system = s; path = was; handle = old })
        ≡ (ok tt, record { system = after; path = last; handle = handle })
  follows_scripts n zero path last was handle old s after enough open' leads =
      absurd (omega (arith, enough))
  follows_scripts zero (suc fuel) path last was handle old s after enough open' (opens h) =
      opened fuel path handle old was s after open' h
  follows_scripts (suc n) (suc fuel) path last was handle old s after enough open'
        (script text name content file t u v null error named_script read named_file leads) =
      opens_linker_script sys fuel path text name content file (some mode)
        (record { system = s; path = was; handle = old }) t u v null error named_script read
        named_file
      ∙ follows_scripts n fuel (some file) last path handle 0 v after (omega (arith, enough)) open'
          leads
