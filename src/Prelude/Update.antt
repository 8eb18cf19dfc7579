-- ===== src/Prelude/Update.antt =====
-- Tables indexed by numbers: an assignment to one entry.
use Prim.Native.Nat.{ℕ}
use mathlib.Core.Path.{◌≡◌, fun_ext}
use mathlib.Core.Logic.{◌≢◌}
use native.Mathlib.Omega.{arith}
use node_ffi_napi.Prelude.Tests.{◌==◌, if◌then◌else◌}

module _ {ℓ} {A : Type ℓ} where
  abbrev pub update : (ℕ → A) → ℕ → A → ℕ → A
  update f k v j = if k == j then v else f j

  pub update_self : (f : ℕ → A) (k : ℕ) (v : A) → update f k v k ≡ v
  update_self f k v = ground arith

  pub update_ne : (f : ℕ → A) (k j : ℕ) (v : A) → k ≢ j → update f k v j ≡ f j
  update_ne f k j v h = ground arith

  -- An assignment of the value that is there changes nothing.
  pub update_same : (f : ℕ → A) (k : ℕ) (v : A) → f k ≡ v → update f k v ≡ f
  update_same f k v h = fun_ext λ j. ground (arith, h)

  -- Of two assignments to one entry, the last one counts.
  pub update_again : (f : ℕ → A) (k : ℕ) (v w : A) → update (update f k v) k w ≡ update f k w
  update_again f k v w = fun_ext λ j. ground arith
