-- ===== src/Types/Steps.antt =====
-- lib/type.js: each step of `Type`, and the structs that were made before it.
use node_ffi_napi.Prelude.{ℕ, zero, suc, String, Option, none, some, List, [], ◌∷◌, leb, is_some}
use node_ffi_napi.Effect.{Exec, out_of_fuel, invalid_type, no_ffi_type}
use node_ffi_napi.Effect.Laws.{Ensures-weaken}
use node_ffi_napi.Bindings.{FfiPtr, pointer_type}
use node_ffi_napi.Types.{
  Types, TypeArg, Ref, chain, type_of_name, search_chain, direct, or_array, or_struct, or_named,
  or_throw, truthy_name, is_cstring, make_struct, make_fields, resolve, ffi_type_of,
}
use node_ffi_napi.Types.Frame.{
  Framed, Framed-pure, Framed-throw, Framed-gets, Framed-if, Framed-bind, Framed-check,
  Framed-assign,
}
use node_ffi_napi.Types.Layout.{make_struct-IsLaidOut}

module _ (ref : Ref) where
  search_chain-Framed : (cs : List ℕ) → Framed (search_chain ref cs)
  unfolding search_chain
  search_chain-Framed [] = Framed-pure none
  search_chain-Framed (cur ∷ rest) =
      let ret = type_of_name (ref.obj cur).name in
      Framed-bind (Framed-assign cur ret)
        λ _. Framed-if (is_some ret) (Framed-pure ret) (search_chain-Framed rest)

  or_named-Framed : (t : ℕ) (ret : Option FfiPtr) → Framed (or_named ref t ret)
  unfolding or_named
  or_named-Framed t (some p) = Framed-pure (some p)
  or_named-Framed t none =
      Framed-if (truthy_name (ref.obj t).name)
        (Framed-if (is_cstring (ref.obj t).name)
          (Framed-bind (Framed-assign t (some pointer_type)) λ _. Framed-pure (some pointer_type))
          (search_chain-Framed (chain ref t)))
        (Framed-pure none)

  module _ (rec : TypeArg → Exec Types FfiPtr) (rec_Framed : (a : TypeArg) → Framed (rec a)) where
    make_struct-Framed : (t : ℕ) (fs : List (String × ℕ)) → Framed (make_struct ref rec t fs)
    make_struct-Framed t fs = record {
      at = λ s.
          Ensures-weaken (make_struct-IsLaidOut ref rec rec_Framed t fs s) (λ r u q. q.3)
            (λ e u q. q);
    }

    fields-Framed : (t : ℕ) (o : Option (List (String × ℕ))) → Framed (make_fields ref rec t o)
    fields-Framed t none = Framed-pure none
    fields-Framed t (some fs) = make_struct-Framed t fs

    or_struct-Framed : (t : ℕ) (ret : Option FfiPtr) → Framed (or_struct ref rec t ret)
    unfolding or_struct
    or_struct-Framed t (some p) = Framed-pure (some p)
    or_struct-Framed t none = fields-Framed t (ref.obj t).fields

  or_throw-Framed : (t : ℕ) (ret : Option FfiPtr) → Framed (or_throw ref t ret)
  or_throw-Framed t none = Framed-throw (no_ffi_type t)
  or_throw-Framed t (some p) = Framed-pure p

  resolve-Framed :
      (rec : TypeArg → Exec Types FfiPtr)
      → ((a : TypeArg) → Framed (rec a))
      → (t : ℕ) → Framed (resolve ref rec t)
  unfolding resolve
  resolve-Framed rec rec_Framed t =
      Framed-bind (Framed-check (leb 1 (ref.obj t).indirection) (invalid_type t)) λ _.
        Framed-bind (Framed-gets (direct ref t)) λ found.
          Framed-bind (or_struct-Framed rec rec_Framed t (or_array ref t found))
            λ ret. Framed-bind (or_named-Framed t ret) λ ret'. or_throw-Framed t ret'

  pub ffi_type_of-Framed :
      ((a : TypeArg) → Framed (ref.coerce_type a))
      → (fuel : ℕ) (a : TypeArg) → Framed (ffi_type_of ref fuel a)
  unfolding ffi_type_of
  ffi_type_of-Framed coerce_Framed zero a = Framed-throw out_of_fuel
  ffi_type_of-Framed coerce_Framed (suc fuel) a =
      Framed-bind (coerce_Framed a)
        λ t. resolve-Framed (ffi_type_of ref fuel) (ffi_type_of-Framed coerce_Framed fuel) t
