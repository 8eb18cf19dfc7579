-- ===== src/Variadic.antt =====
-- lib/foreign_function_var.js: functions with a variable number of arguments. A generator is called
-- with the types of the variable arguments and returns a function for them, from a cache if it has
-- made one before.
pub mod Text
pub mod Split
pub mod Keys
pub mod Known
pub mod Cache
pub mod Given
pub mod Made
pub mod Generate
pub mod Started
pub mod Repeated
pub mod Total
use node_ffi_napi.Prelude.{
  ℕ, zero, suc, ◌+◌, ◌-◌, ◌*◌, ◌/◌, ◌%◌, ◌^◌, Option, none, some, List, [], ◌∷◌, ◌++◌, Bool, true,
  false, ltb, is_some, if◌then◌else◌, ◌==◌, ◌&&◌, update, String, length,
}
use node_ffi_napi.Effect.{
  Exn, assertion, Result, ok, err, Exec, pure, throw, gets, modify, ◌>>=◌, ◌>>◌, check,
}
use node_ffi_napi.Bindings.{FfiPtr, builtin, made, ref_null}
use node_ffi_napi.Types.{Types, TypeArg, object, Ref, ffi_type_of}
use node_ffi_napi.Cif.{Libffi, Cif, is_given, cif_var}
use node_ffi_napi.Foreign.{Proxy, make_proxy, coerce_all, objects}

-- A digit of `toString(16)`, as a character code.
abbrev pub digit : ℕ → ℕ
digit d = if ltb d 10 then b'0' + d else b'a' + (d - 10)

-- `n.toString(16)` for a number of at most `k` digits
unfoldable pub hex : ℕ → ℕ → List ℕ
hex zero n = []
hex (suc k) n =
    let high = hex k (n / 16) in if ltb n 16 then digit n ∷ [] else high ++ digit (n % 16) ∷ []

-- `((counter * 0x10000)|0).toString(16)`: the product is cut to 32 bits and read as a signed number.
-- The product is exact in a double for every counter below 2 ^ 37.
unfoldable pub id_text : ℕ → List ℕ
id_text counter =
    let bits = counter * 0x10000 % 2 ^ 32 in
    if ltb bits (2 ^ 31) then hex 8 bits else b'-' ∷ hex 8 (2 ^ 32 - bits)

-- `key.join('')`
abbrev pub join : List (List ℕ) → List ℕ
join [] = []
join (s ∷ ss) = s ++ join ss

-- The counter of the module, and the own property `_ffiId` of each type object.
pub record Ids : Type 0 where
  pub counter : ℕ
  pub id_of : ℕ → Option (List ℕ)

abbrev pub next_id : ℕ → Ids → Option (List ℕ) → List ℕ × Ids
next_id t i (some s) = (s, i)
next_id t i none = (
  id_text i.counter,
  record { counter = i.counter + 1; id_of = update i.id_of t (some (id_text i.counter)) },
)

-- `getId(type)`
unfoldable pub get_id : ℕ → Ids → List ℕ × Ids
get_id t i = next_id t i (i.id_of t)

-- `fixedArgTypes.map(getId)`
unfoldable pub get_ids : List ℕ → Ids → List (List ℕ) × Ids
get_ids [] i = ([], i)
get_ids (t ∷ ts) i = let (k, i') = get_id t i in let (ks, i'') = get_ids ts i' in (k ∷ ks, i'')

-- What a generator closes over, but for the cache.
pub record Generator : Type 0 where
  pub func_ptr : ℕ
  pub return_type : TypeArg  -- `returnType`, as it was given
  pub fixed_arg_types : List ℕ
  pub fixed_key : List (List ℕ)
  pub abi : Option ℕ

-- What a call of a generator changes: the types' `ffi_type`, the ids, and the generator's cache.
pub record Session : Type 0 where
  pub types : Types
  pub ids : Ids
  pub cache : List (List ℕ × Proxy)

abbrev pub on_types {ℓ} : {A : Type ℓ} → (Types → Result A × Types) → Session → Result A × Session
on_types m s = let (r, t) = m s.types in (r, record s { types = t })

abbrev pub on_ids {ℓ} : {A : Type ℓ} → (Ids → A × Ids) → Session → Result A × Session
on_ids m s = let (a, i) = m s.ids in (ok a, record s { ids = i })

-- `===` on strings
unfoldable pub same_text : List ℕ → List ℕ → Bool
same_text [] [] = true
same_text [] (d ∷ t) = false
same_text (c ∷ s) [] = false
same_text (c ∷ s) (d ∷ t) = c == d && same_text s t

-- `cache[key]`
unfoldable pub find_cached : List ℕ → List (List ℕ × Proxy) → Option Proxy
unfolding same_text
find_cached k [] = none
find_cached k ((j, f) ∷ m) = if same_text j k then some f else find_cached k m

-- `ffi_type.name`: lib/ffi.js has named the built-in types; the Buffer of a struct has no name
abbrev pub is_named : FfiPtr → Bool
is_named (builtin _) = true
is_named (made _) = false
is_named ref_null = false

module _ (ref : Ref) (ffi : Libffi) (fuel long_size : ℕ) where
  -- The loop over the types of the variable arguments: the types, and their ids.
  unfoldable pub collect : List TypeArg → Exec Session (List ℕ × List (List ℕ))
  collect [] = pure ([], [])
  collect (a ∷ args) = do
    type ← on_types (ref.coerce_type a)
    ffi_type ← on_types (ffi_type_of ref fuel (object type))
    check (is_named ffi_type) (assertion "ffi_type.name")
    id ← on_ids (get_id type)
    rest ← collect args
    pure (type ∷ rest.0, id ∷ rest.1)

  -- the branch for a key that is not in the cache
  unfoldable pub make_cached : Generator → List ℕ → ℕ → List ℕ → Exec Session Proxy
  make_cached g key rtype arg_types = do
    c ← on_types (
        cif_var ref ffi fuel g.return_type (some (objects arg_types)) (length g.fixed_arg_types)
          g.abi)
    func ← make_proxy ref ffi long_size c g.func_ptr rtype arg_types
    modify (λ s. record s { cache = (key, func) ∷ s.cache })
    pure func

  abbrev pub or_make : Generator → List ℕ → ℕ → List ℕ → Option Proxy → Exec Session Proxy
  or_make g key rtype arg_types (some func) = pure func
  or_make g key rtype arg_types none = make_cached g key rtype arg_types

  -- `rtnName + key.join('')`
  abbrev pub key_of : List ℕ → List (List ℕ) → List ℕ
  key_of rtn_name key = rtn_name ++ join key

  -- `variadic_function_generator(...)`; `return_type` is its property `returnType`, which is the
  -- generator's own until it is assigned to
  unfoldable pub generate : Generator → TypeArg → List TypeArg → Exec Session Proxy
  unfolding collect make_cached
  generate g return_type args = do
    var ← collect args
    rtn_type ← on_types (ref.coerce_type return_type)
    rtn_name ← on_ids (get_id rtn_type)
    check (ltb 0 (length rtn_name)) (assertion "rtnName")
    let key = key_of rtn_name (g.fixed_key ++ var.1)
    cached ← gets (λ s. find_cached key s.cache)
    or_make g key rtn_type (g.fixed_arg_types ++ var.0) cached

  -- `VariadicForeignFunction(funcPtr, returnType, fixedArgTypes, abi)`
  unfoldable pub variadic_foreign_function :
      Option ℕ → TypeArg → Option (List TypeArg) → Option ℕ → Exec Session Generator
  unfolding get_ids
  variadic_foreign_function none return_type fixed abi =
      throw (assertion "expected Buffer as first argument")
  variadic_foreign_function (some func_ptr) return_type none abi = do
    check (is_given return_type) (assertion "expected a return type object as the second argument")
    throw (assertion "expected Array of arg type objects as the third argument")
  variadic_foreign_function (some func_ptr) return_type (some fixed) abi = do
    check (is_given return_type) (assertion "expected a return type object as the second argument")
    types ← on_types (coerce_all ref fixed)
    key ← on_ids (get_ids types)
    modify (λ s. record s { cache = [] })
    pure (record {
      func_ptr = func_ptr;
      return_type = return_type;
      fixed_arg_types = types;
      fixed_key = key;
      abi = abi;
    })
