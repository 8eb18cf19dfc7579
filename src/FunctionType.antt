-- ===== src/FunctionType.antt =====
-- lib/function.js: the type of C function pointers, whose values are JavaScript functions.
pub mod Pointer
pub mod Round
pub mod Sets
use node_ffi_napi.Prelude.{ℕ, Option, none, some, List}
use node_ffi_napi.Effect.{
  assertion, unknown_callback, Result, Exec, pure, throw, ◌>>=◌, ◌>>◌, check,
}
use node_ffi_napi.Types.{Types, TypeArg, object, TypeObject, Ref}
use node_ffi_napi.Cif.{Libffi, is_given, or_default}
use node_ffi_napi.Foreign.{Proxy, coerce_all, objects, foreign_function}
use node_ffi_napi.Callback.{Func, Making, Closures, both, callback}

-- `this`, but for the properties of its prototype
pub record FunctionType : Type 0 where
  pub ret_type : ℕ
  pub arg_types : List ℕ
  pub abi : ℕ

-- The properties that the prototype of all function types gives to one, but for `ffi_type`, which stands
-- in `Types`: it is no array and no struct, and has no name.
abbrev pub function_object : ℕ → List ℕ → TypeObject
function_object pointer_size prototypes = record {
  name = none;
  size = pointer_size;
  indirection = 1;
  element = none;
  fixed_length = 0;
  fields = none;
  prototypes = prototypes;
}

-- `buffer.readPointer(offset)` and `buffer.writePointer(ptr, offset)` of ref-napi, over the state `S` of
-- the process's memory; a Buffer is its address.
pub record Pointers (S : Type 0) : Type 0 where
  pub read_pointer : (buffer offset : ℕ) → Exec S ℕ
  pub write_pointer : (buffer offset ptr : ℕ) → Exec S Unit

-- The memory, and what changes when callbacks are made.
pub record Space (S V : Type 0) : Type 0 where
  pub native : S
  pub making : Making S V

-- A value that is put in a function pointer.
pub data Value (F : Type 0) : Type 0 where
  function : (fn : F) → Value F
  pointer : (address : ℕ) → Value F  -- a Buffer
  other : Value F

module _ {S V : Type 0} (ref : Ref) (ffi : Libffi) (clo : Closures S V) (ptrs : Pointers S)
    (fuel long_size : ℕ) where
  abbrev pub on_native {ℓ} : {A : Type ℓ} → (S → Result A × S) → Space S V → Result A × Space S V
  on_native m s = let (r, t) = m s.native in (r, record s { native = t })

  abbrev pub on_making {ℓ} :
      {A : Type ℓ} → (Making S V → Result A × Making S V) → Space S V → Result A × Space S V
  on_making m s = let (r, t) = m s.making in (r, record s { making = t })

  abbrev pub of_types {ℓ} :
      {A : Type ℓ} → (Types → Result A × Types) → Space S V → Result A × Space S V
  of_types m s =
      let (r, t) = m s.making.types in (r, record s { making = record (s.making) { types = t } })

  -- `Function(retType, argTypes, abi)`; `arg_types` is none where it is no Array.
  unfoldable pub new_function : TypeArg → Option (List TypeArg) → Option ℕ → Exec Types FunctionType
  new_function ret_type none abi = do
    check (is_given ret_type) (assertion "expected a return type object as the first argument")
    throw (assertion "expected Array of arg type objects as the second argument")
  new_function ret_type (some types) abi = do
    check (is_given ret_type) (assertion "expected a return type object as the first argument")
    rtype ← ref.coerce_type ret_type
    arg_types ← coerce_all ref types
    pure (record { ret_type = rtype; arg_types = arg_types; abi = or_default ffi.default_abi abi })

  -- `toPointer(fn)`
  unfoldable pub to_pointer : FunctionType → Func S V → Exec (Making S V) ℕ
  to_pointer f fn =
      callback ref ffi clo fuel (object f.ret_type) (some (objects f.arg_types))
        (both (some f.abi) (some fn))

  -- `toFunction(buf)`
  unfoldable pub to_function : FunctionType → ℕ → Exec Types Proxy
  to_function f buf =
      foreign_function ref ffi fuel long_size (some buf) (object f.ret_type)
        (some (objects f.arg_types)) (some f.abi)

  -- `get(buffer, offset)`
  unfoldable pub get : FunctionType → (buffer offset : ℕ) → Exec (Space S V) Proxy
  unfolding to_function
  get f buffer offset = do
    ptr ← on_native (ptrs.read_pointer buffer offset)
    of_types (to_function f ptr)

  -- the pointer that `set` writes
  abbrev pub pointer_for : FunctionType → Value (Func S V) → Exec (Space S V) ℕ
  pointer_for f (function fn) = on_making (to_pointer f fn)
  pointer_for f (pointer address) = pure address
  pointer_for f other = throw unknown_callback

  -- `set(buffer, offset, value)`
  unfoldable pub set : FunctionType → (buffer offset : ℕ) → Value (Func S V) → Exec (Space S V) Unit
  unfolding to_pointer
  set f buffer offset value = do
    ptr ← pointer_for f value
    on_native (ptrs.write_pointer buffer offset ptr)
