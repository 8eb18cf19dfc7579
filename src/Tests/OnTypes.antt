-- ===== src/Tests/OnTypes.antt =====
-- lib/type.js, lib/cif.js and lib/cif_var.js on concrete types.
use node_ffi_napi.Prelude.{
  ℕ, ◌≡◌, ◌≢◌, refl, none, some, [], ◌∷◌, false, ◌==◌, if◌then◌else◌, String, All, arith,
  Bool-cases, inl, inr, subst, ==_iff, update, List,
}
use node_ffi_napi.Effect.{no_ffi_type, out_of_fuel, ok, err}
use node_ffi_napi.Effect.Laws.{Ensures}
use node_ffi_napi.Bindings.{FfiPtr, builtin, made, ref_null, ffi_types, has_name}
use node_ffi_napi.Types.{
  object, read_ffi, ffi_type_of, resolve, direct, or_struct, or_named, make_struct, fill,
  write_times, new_struct, num_elements, type_of_name,
}
use node_ffi_napi.Types.Layout.{IsLaidOut, slot_arg}
use node_ffi_napi.Types.Results.{IsNewStruct, IsUnknown, struct_layout, unknown_type_pollutes}
use node_ffi_napi.Types.Known.{IsKnown, own-IsKnown}
use node_ffi_napi.Types.Structs.{AreFields, struct_of, struct_known}
use node_ffi_napi.Types.Termination.{IsNested, IsLower, ffi_type_of_terminates}
use node_ffi_napi.Cif.{cif}
use node_ffi_napi.Cif.Signature.{IsSignature, cif-IsSignature}
use node_ffi_napi.Tests.Data.{
  point_fields, test_object, test_ref, test_laws, start_types, test_libffi,
}

int_found : ffi_type_of test_ref 1 (object 1) start_types ≡ (ok (builtin "int"), start_types)
unfolding ffi_type_of resolve direct read_ffi or_struct or_named
int_found = refl

-- the elements of the struct: x, y[0], y[1], and the end
point_elements :
    ((ffi_type_of test_ref 2 (object 2) start_types).1.struct 0).elements.writes
    ≡ (0, builtin "int") ∷ (8, builtin "int") ∷ (16, builtin "int") ∷ (24, ref_null) ∷ []
unfolding ffi_type_of resolve direct read_ffi or_struct or_named make_struct fill write_times
    new_struct num_elements
point_elements = refl

point_new : IsNewStruct test_ref 2 point_fields start_types
unfolding read_ffi
point_new = record { single = refl; unset = refl; not_array = refl; is_struct = refl }

int-IsKnown : IsKnown test_ref start_types 1 (builtin "int")
int-IsKnown = own-IsKnown test_ref start_types 1 (builtin "int") refl refl

abbrev point_elements_known : List FfiPtr
point_elements_known = builtin "int" ∷ builtin "int" ∷ builtin "int" ∷ []

point-AreFields : AreFields test_ref start_types point_fields point_elements_known
point-AreFields = (
  1,
  builtin "int",
  builtin "int" ∷ builtin "int" ∷ [],
  refl,
  int-IsKnown,
  refl,
  (1, builtin "int", [], refl, int-IsKnown, refl, refl),
)

struct_known_example : ffi_type_of test_ref 2 (object 2) start_types ≡ (
  ok (made 0),
  record {
    ffi_own = update start_types.ffi_own 2 (some (some (made 0)));
    struct =
        update start_types.struct 0
          (struct_of test_ref (builtin "int" ∷ builtin "int" ∷ builtin "int" ∷ []));
    next = 1;
  },
)
struct_known_example =
    struct_known test_ref test_laws 0 2 point_fields
      (builtin "int" ∷ builtin "int" ∷ builtin "int" ∷ []) start_types point_new point-AreFields

struct_layout_example :
    Ensures
      (λ p u.
        (p ≡ made 0)
        × (u.ffi_own 2 ≡ some (some p))
        × IsLaidOut test_ref (ffi_type_of test_ref 1) point_fields start_types (u.struct 0))
      (λ _ _. Unit)
      (ffi_type_of test_ref 2 (object 2) start_types)
struct_layout_example = struct_layout test_ref test_laws 1 2 point_fields start_types point_new

blob-IsUnknown : IsUnknown test_ref 4 start_types
unfolding read_ffi type_of_name ffi_types has_name
blob-IsUnknown = record {
  single = refl;
  unset = refl;
  not_array = refl;
  not_struct = refl;
  is_named = refl;
  not_cstring = refl;
  unknown = (refl, (refl, tt));
}

unknown_type_pollutes_example :
    ((ffi_type_of test_ref 1 (object 4) start_types).0 ≡ err (no_ffi_type 4))
    × All
        (λ c. (ffi_type_of test_ref 1 (object 4) start_types).1.ffi_own c ≡ some none)
        (4 ∷ 0 ∷ [])
unknown_type_pollutes_example =
    unknown_type_pollutes test_ref test_laws 0 4 start_types blob-IsUnknown

-- how deep the types of the tests nest
abbrev depth : ℕ → ℕ
depth t = if t == 2 then 1 else 0

fields_two : (t : ℕ) → t ≡ 2 → (test_object t).fields ≡ some point_fields
fields_two t e = rw e refl

fields_other : (t : ℕ) → (t == 2) ≡ false → (test_object t).fields ≡ none
fields_other t e = ground (arith, e)

depth-IsNested : IsNested test_ref depth
depth-IsNested = record {
  lower = λ t fs e. elim (Bool-cases (t == 2)) [
    | inl two ↦
        subst
          (λ us.
            All (λ (f : String × ℕ). IsLower test_ref depth (depth t) (slot_arg test_ref f.1)) us)
          {x = point_fields} {y = fs} (cc (rw (fields_two t ((==_iff t 2).0 two)) at e))
          (rw two (omega arith, (omega arith, tt)))
    | inr other ↦ cc (rw (fields_other t other) at e)
  ];
}

ffi_type_of_terminates_example : (ffi_type_of test_ref 2 (object 2) start_types).0 ≢ err out_of_fuel
ffi_type_of_terminates_example =
    ffi_type_of_terminates test_ref test_laws depth depth-IsNested 2 2 start_types (omega arith)

cif-IsSignature_example :
    Ensures
      (λ c u.
        IsSignature test_ref 2 test_libffi.prep_cif test_libffi
          (object 1)
          (object 1 ∷ object 2 ∷ [])
          none
          none
          start_types
          u
          c)
      (λ _ _. Unit)
      (cif test_ref test_libffi 2 (object 1) (some (object 1 ∷ object 2 ∷ [])) none start_types)
cif-IsSignature_example =
    cif-IsSignature test_ref 2 test_libffi (object 1) (object 1 ∷ object 2 ∷ []) none start_types
