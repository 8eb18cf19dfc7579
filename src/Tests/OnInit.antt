-- ===== src/Tests/OnInit.antt =====
-- lib/ffi.js on a ref-napi that numbers its types.
use node_ffi_napi.Prelude.{
  ℕ, ==_false, suc, ◌≡◌, ◌≢◌, refl, inl, inr, Bool-cases, String, none, some, List, [], ◌∷◌, true,
  str_eq, eq_iff, if◌then◌else◌, arith, All,
}
use node_ffi_napi.Bindings.{builtin, has_name, ffi_type_names, pointer_type}
use node_ffi_napi.Init.{RefTypes, Loading, load}
use node_ffi_napi.Init.Loaded.{ref_names, IsRefNapi, Finds, types_found}
use node_ffi_napi.Tests.Data.{test_ref, test_laws, start_types}

-- where a name stands among names
unfoldable pub position : String → List String → ℕ
position k [] = 0
position k (j ∷ names) = let rest = position k names in if str_eq j k then 0 else suc rest

position-injective :
    (names : List String) (k : String)
    → has_name k names ≡ true
    → (j : String) → position j names ≡ position k names
    → j ≡ k
unfolding position has_name
position-injective [] k there j e = cc
position-injective (n ∷ names) k there j e = elim (Bool-cases (str_eq n k)) [
  | inl here ↦ elim (Bool-cases (str_eq n j)) [
    | inl same ↦ cc ((eq_iff n k).0 here, (eq_iff n j).0 same)
    | inr other ↦ ground (arith, here, other, e)
  ]
  | inr later ↦ elim (Bool-cases (str_eq n j)) [
    | inl same ↦ ground (arith, later, same, e)
    | inr other ↦
        position-injective names k (ground (arith, later, there)) j
          (ground (arith, later, other, e))
  ]
]

-- The types are numbered from 5 on.
abbrev pub index : String → ℕ
index k = suc (suc (suc (suc (suc (position k ref_names)))))

abbrev pub test_types : RefTypes
test_types = record { type_of = λ k. some (index k); long_size = 8 }

table_found :
    (names : List String) → All (λ k. k ≢ "pointer" → test_types.type_of k ≡ some (index k)) names
table_found [] = tt
table_found (k ∷ names) = (λ ne. refl, table_found names)

pub test_types-IsRefNapi : IsRefNapi test_types index
test_types-IsRefNapi = record {
  distinct = λ k there j e. position-injective ref_names k there j (ground (arith, e));
  table = table_found ffi_type_names;
  size_t = refl;
  cstring = refl;
  object = refl;
  ulong = refl;
  long = refl;
  long_size = inr refl;
}

abbrev pub unloaded : Loading
unloaded = record { types = start_types; name = λ k. none }

types_found_example :
    Finds test_ref 0 (load test_types unloaded).1.types (index "double") (builtin "double")
    × ((load test_types unloaded).1.name "double" ≡ some "double")
    × Finds test_ref 0 (load test_types unloaded).1.types (index "long") (builtin "int64")
    × Finds test_ref 0 (load test_types unloaded).1.types (index "ulong") (builtin "uint64")
    × Finds test_ref 0 (load test_types unloaded).1.types (index "Object") pointer_type
    × Finds test_ref 0 (load test_types unloaded).1.types (index "CString") pointer_type
    × Finds test_ref 0 (load test_types unloaded).1.types (index "size_t") pointer_type
unfolding has_name position
types_found_example =
    types_found test_types index test_types-IsRefNapi test_ref test_laws 0 unloaded "double" refl
      (λ e. cc ((eq_iff "double" "pointer").1 e)) (λ j there. single (position j ref_names))
  where
    single : (n : ℕ) → (test_ref.obj (suc (suc (suc (suc (suc n)))))).indirection ≡ 1
    single n =
        rw
          (
            ==_false (suc (suc (suc (suc (suc n))))) 1 (λ e. omega (arith, e)),
            ==_false (suc (suc (suc (suc (suc n))))) 2 (λ e. omega (arith, e)),
            ==_false (suc (suc (suc (suc (suc n))))) 3 (λ e. omega (arith, e)),
            ==_false (suc (suc (suc (suc (suc n))))) 4 (λ e. omega (arith, e)),
          )
          refl
