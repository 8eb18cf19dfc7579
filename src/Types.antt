-- ===== src/Types.antt =====
-- lib/type.js: the `ffi_type` that libffi is given for a ref type. `Type` reads the type object,
-- caches what it finds on it, and builds the `ffi_type` of a struct from its fields.
pub mod Frame
pub mod Layout
pub mod Steps
pub mod Search
pub mod Caching
pub mod Results
pub mod Termination
pub mod Known
pub mod Written
pub mod Structs
use node_ffi_napi.Prelude.{
  ℕ, zero, suc, ◌+◌, ◌*◌, String, Option, none, some, List, [], ◌∷◌, Bool, true, false, ◌==◌, leb,
  ltb, if◌then◌else◌, is_some, update, str_eq, not,
}
use node_ffi_napi.Effect.{
  invalid_type, no_ffi_type, out_of_fuel, Exec, pure, throw, gets, ◌>>=◌, ◌>>◌, modify, check,
}
use node_ffi_napi.Bindings.{FfiPtr, made, ref_null, ffi_types, pointer_type}
use node_ffi_napi.PointerArray
use node_ffi_napi.PointerArray.{PointerArray}

-- A ref type object, by its index: what reading its properties gives, with those inherited from
-- its prototypes. None of these is assigned to by the library; `ffi_type`, which is, is in `Types`.
pub record TypeObject : Type 0 where
  pub name : Option String
  pub size : ℕ
  pub indirection : ℕ
  pub element : Option ℕ  -- `type.type`, the element type of an array type
  pub fixed_length : ℕ  -- `type.fixedLength`, 0 where it is undefined
  pub fields : Option (List (String × ℕ))  -- `type.fields`: the types of a struct's fields
  pub prototypes : List ℕ  -- what `Object.getPrototypeOf` gives, again and again until null

-- The argument of `Type`: a type object, the name of a type, or a value that is neither.
pub data TypeArg : Type 0 where
  object : (type : ℕ) → TypeArg
  named : (name : String) → TypeArg
  missing : TypeArg

-- `FFI_TYPE`, the struct that mirrors libffi's `ffi_type`
pub record FfiStruct : Type 0 where
  pub size : ℕ
  pub alignment : ℕ
  pub type : ℕ
  pub elements : PointerArray FfiPtr

-- What the code changes: the own property `ffi_type` of each object (none: there is no such property;
-- some none: it is there, and undefined), and the structs that were made, of which `next` is the
-- number.
pub record Types : Type 0 where
  pub ffi_own : ℕ → Option (Option FfiPtr)
  pub struct : ℕ → FfiStruct
  pub next : ℕ

-- What the code takes from ref-napi: `ref.sizeof.pointer`, the type objects, and `ref.coerceType`.
pub record Ref : Type 0 where
  pub pointer_size : ℕ
  pub obj : ℕ → TypeObject
  pub coerce_type : TypeArg → Exec Types ℕ

-- `type.ffi_type`: of the first object on the chain that has the property
unfoldable pub read_ffi : Types → List ℕ → Option FfiPtr
read_ffi s [] = none
read_ffi s (t ∷ ts) = elim (s.ffi_own t) [ none ↦ read_ffi s ts | some v ↦ v ]

-- `type.ffi_type = v`
abbrev pub assign_ffi : ℕ → Option FfiPtr → Exec Types Unit
assign_ffi t v = modify (λ s. record s { ffi_own = update s.ffi_own t (some v) })

-- `if (name)` for a property that is a string or undefined
abbrev pub truthy_name : Option String → Bool
truthy_name none = false
truthy_name (some n) = not (str_eq n "")

-- `'CString' == type.name`
abbrev pub is_cstring : Option String → Bool
is_cstring none = false
is_cstring (some n) = str_eq n "CString"

-- `elements.writePointer(ptr, index * ref.sizeof.pointer)` on the elements of the n-th struct
abbrev pub write_element : ℕ → ℕ → FfiPtr → ℕ → Exec Types Unit
write_element w n p index = modify (λ s. record s {
  struct = update s.struct n (record (s.struct n) {
    elements = PointerArray.write_pointer p (index * w) (s.struct n).elements;
  });
})

-- The loop `for (var j = 0; j < field.type.fixedLength; j++)`, with the `index` that it leaves.
unfoldable pub write_times : ℕ → ℕ → FfiPtr → ℕ → ℕ → Exec Types ℕ
write_times w n p zero index = pure index
write_times w n p (suc j) index = do write_element w n p index; write_times w n p j (index + 1)

-- `new FFI_TYPE` with the values of a struct, and its `elements` of `size` bytes
unfoldable pub new_struct : ℕ → Exec Types ℕ
new_struct size = do
  n ← gets (λ s. s.next)
  modify (λ s. record s {
    struct =
        update s.struct n
          (record { size = 0; alignment = 0; type = 13; elements = PointerArray.alloc size });
    next = s.next + 1;
  })
  pure n

-- `bindings.FFI_TYPES[cur.name]`; an undefined name is looked up as "undefined"
unfoldable pub type_of_name : Option String → Option FfiPtr
unfolding ffi_types
type_of_name none = ffi_types "undefined"
type_of_name (some n) = ffi_types n

module _ (ref : Ref) where
  open ref use {pointer_size, obj, coerce_type}

  -- the object and its prototypes, as a property is looked up
  abbrev pub chain : ℕ → List ℕ
  chain t = t ∷ (obj t).prototypes

  -- How many elements the fields take: an array field takes one for each of its items.
  unfoldable pub num_elements : List (String × ℕ) → ℕ
  num_elements [] = 0
  num_elements ((_, ft) ∷ fs) =
      (if ltb 0 (obj ft).fixed_length then (obj ft).fixed_length else 1) + num_elements fs

  -- the argument of `Type(field.type.type)`
  abbrev pub element_arg : ℕ → TypeArg
  element_arg ft = elim (obj ft).element [ none ↦ missing | some t ↦ object t ]

  -- The loop that fills `elements`; `rec` is the recursive call of `Type`.
  unfoldable pub fill : (TypeArg → Exec Types FfiPtr) → ℕ → List (String × ℕ) → ℕ → Exec Types ℕ
  unfolding write_times
  fill rec n [] index = pure index
  fill rec n ((_, ft) ∷ fs) index =
      let later = fill rec n fs in
      if ltb 0 (obj ft).fixed_length
      then (do
        p ← rec (element_arg ft)
        index' ← write_times pointer_size n p (obj ft).fixed_length index
        later index')
      else do p ← rec (object ft); write_element pointer_size n p index; later (index + 1)

  -- the branch for a "ref-struct" type
  unfoldable pub make_struct :
      (TypeArg → Exec Types FfiPtr) → ℕ → List (String × ℕ) → Exec Types (Option FfiPtr)
  unfolding new_struct num_elements fill
  make_struct rec t fs = do
    n ← new_struct (pointer_size * (num_elements fs + 1))
    index ← fill rec n fs 0
    write_element pointer_size n ref_null index
    assign_ffi t (some (made n))
    pure (some (made n))

  -- The loop `while (!ret && cur)` over the prototypes.
  unfoldable pub search_chain : List ℕ → Exec Types (Option FfiPtr)
  search_chain [] = pure none
  search_chain (cur ∷ rest) = do
    let later = search_chain rest
    let ret = type_of_name (obj cur).name
    assign_ffi cur ret
    if is_some ret then pure ret else later

  -- the first two guesses at `ret`: a regular type, or a pointer to something
  unfoldable pub direct : ℕ → Types → Option FfiPtr
  direct t s = if (obj t).indirection == 1 then read_ffi s (chain t) else some pointer_type

  -- arrays are passed by reference
  abbrev pub or_array : ℕ → Option FfiPtr → Option FfiPtr
  or_array t (some p) = some p
  or_array t none = if is_some (obj t).element then some pointer_type else none

  -- a ref-struct type has `fields`
  abbrev pub make_fields :
      (TypeArg → Exec Types FfiPtr) → ℕ → Option (List (String × ℕ)) → Exec Types (Option FfiPtr)
  make_fields rec t none = pure none
  make_fields rec t (some fs) = make_struct rec t fs

  unfoldable pub or_struct :
      (TypeArg → Exec Types FfiPtr) → ℕ → Option FfiPtr → Exec Types (Option FfiPtr)
  or_struct rec t (some p) = pure (some p)
  or_struct rec t none = make_fields rec t (obj t).fields

  unfoldable pub or_named : ℕ → Option FfiPtr → Exec Types (Option FfiPtr)
  or_named t (some p) = pure (some p)
  or_named t none =
      if truthy_name (obj t).name
      then (if is_cstring (obj t).name
          then (do assign_ffi t (some pointer_type); pure (some pointer_type))
          else search_chain (chain t))
      else pure none

  abbrev pub or_throw : ℕ → Option FfiPtr → Exec Types FfiPtr
  or_throw t none = throw (no_ffi_type t)
  or_throw t (some p) = pure p

  -- `Type` from its first assertion on, for the type object; `rec` is its recursive call.
  unfoldable pub resolve : (TypeArg → Exec Types FfiPtr) → ℕ → Exec Types FfiPtr
  resolve rec t = do
    check (leb 1 (obj t).indirection) (invalid_type t)
    found ← gets (direct t)
    ret ← or_struct rec t (or_array t found)
    ret' ← or_named t ret
    or_throw t ret'

  -- `Type(type)`. The fuel bounds how deep structs nest.
  unfoldable pub ffi_type_of : ℕ → TypeArg → Exec Types FfiPtr
  ffi_type_of zero a = throw out_of_fuel
  ffi_type_of (suc fuel) a = do t ← coerce_type a; resolve (ffi_type_of fuel) t
