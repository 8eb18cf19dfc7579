-- ===== src/Effect.antt =====
-- JavaScript's effects: code that mutates shared objects and may throw. What was written before a
-- throw stays written, so the state comes back beside the exception too.
pub mod Laws
use node_ffi_napi.Prelude.{ℕ, String, Option, List, Bool, true, false}

-- The exceptions, one constructor for each `throw` or `assert`, with the values that the message or
-- the properties of the error are built from.
pub data Exn : Type 0 where
  -- `assert(c, message)`
  assertion : (message : String) → Exn
  -- an exception of code outside the repository (ref-napi, the fs module, user functions)
  external : (code : ℕ) → Exn
  -- the two asserts of lib/type.js, about the type object with this index
  invalid_type : (type : ℕ) → Exn
  no_ffi_type : (type : ℕ) → Exn
  -- lib/cif.js and lib/cif_var.js: `err.code` with `err.errno`
  bad_typedef : (function : String) (errno : ℕ) → Exn
  bad_abi : (function : String) (errno : ℕ) → Exn
  prep_failed : (function : String) (status : ℕ) (errno : Option ℕ) → Exn
  -- lib/_foreign_function.js
  expected_arguments : (expected got : ℕ) → Exn
  expected_callback : (position : ℕ) → Exn
  setting_argument : (position : ℕ) (cause : Exn) → Exn
  -- lib/dynamic_library.js, with what `dlerror` gave, none for null
  linking_error : (message : Option (List ℕ)) → Exn
  symbol_error : (message : Option (List ℕ)) → Exn
  -- a method of null is called
  null_value : Exn
  -- lib/ffi.js: a size of `long` that it does not know
  unsupported_long : (size : ℕ) → Exn
  -- the value undefined, and another falsy value, that a user function throws
  undefined_thrown : Exn
  falsy_thrown : Exn
  -- lib/callback.js, and `CallbackInfo` of src/callback_info.cc
  setting_return : (cause : Exn) → Exn
  closure_refused : Exn
  closure_status : (status : ℕ) → Exn
  collected : Exn
  -- src/ffi.cc: `TypeError`
  type_error : (message : String) → Exn
  -- lib/function.js
  unknown_callback : Exn
  -- lib/library.js
  null_function : (path : Option (List ℕ)) (name : List ℕ) → Exn
  -- the model's own: the recursion went deeper than the fuel
  out_of_fuel : Exn

pub data Result {ℓ} (A : Type ℓ) : Type ℓ where
  ok : A → Result A
  err : Exn → Result A

abbrev pub Exec {ℓ} : Type ℓ → Type ℓ → Type ℓ
Exec S A = S → Result A × S

module _ {ℓ} {S A : Type ℓ} where
  abbrev pub pure : A → Exec S A
  pure a s = (ok a, s)

  abbrev pub throw : Exn → Exec S A
  throw e s = (err e, s)

  abbrev pub gets : (S → A) → Exec S A
  gets f s = (ok (f s), s)

module _ {ℓ} {S A B : Type ℓ} where
  abbrev pub continue : Result A → (A → Exec S B) → Exec S B
  continue (ok a) f s = f a s
  continue (err e) f s = (err e, s)

  infixl 10 ◌>>=◌ ◌>>◌
  abbrev pub ◌>>=◌ : Exec S A → (A → Exec S B) → Exec S B
  ◌>>=◌ m f s = let (r, s') = m s in continue r f s'

  abbrev pub ◌>>◌ : Exec S A → Exec S B → Exec S B
  m >> n = m >>= λ _. n

module _ {S : Type 0} where
  abbrev pub modify : (S → S) → Exec S Unit
  modify f s = (ok tt, f s)

  -- `assert(c, …)`
  abbrev pub check : Bool → Exn → Exec S Unit
  check true e = pure tt
  check false e = throw e
