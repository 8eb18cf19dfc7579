-- ===== src/Tests/OnForeign.antt =====
-- lib/_foreign_function.js and lib/foreign_function.js on concrete calls.
use node_ffi_napi.Prelude.{arith, none, ℕ, ◌+◌, ◌≡◌, refl, List, Bool, ◌==◌, [], ◌∷◌, some}
use node_ffi_napi.Effect.{external, bad_abi, setting_argument, ok, err}
use node_ffi_napi.PointerArray
use node_ffi_napi.PointerArray.{PointerArray, Holds}
use node_ffi_napi.Types.{object, ffi_type_of, resolve, direct, read_ffi, or_struct, or_named}
use node_ffi_napi.Cif.{cif, write_arg_types}
use node_ffi_napi.Foreign.{
  Loop, set_arguments, call, call_async, start_async, foreign_function, coerce_all, make_proxy,
}
use node_ffi_napi.Foreign.Marshal.{fails, later, alloc_all}
use node_ffi_napi.Foreign.Calls.{invoke, arg_array, call_marshals}
use node_ffi_napi.Foreign.Async.{Answers, Misnumbered, call_async_returns, call_async_misnumbers}
use node_ffi_napi.Foreign.Tasks.{
  Reach, start, accept, count, waiting, answered, DerefReturns, answered_once,
}
use node_ffi_napi.Foreign.Exact.{description, foreign_function_known}
use node_ffi_napi.Types.Known.{IsKnown, own-IsKnown}
use node_ffi_napi.Bindings.{FfiPtr, builtin}
use node_ffi_napi.Tests.Data.{
  test_laws, test_ref, start_types, test_libffi, test_proxy, test_native, idle,
}

two_allocated :
    alloc_all test_ref test_native (λ i. i + 1) (1 ∷ 1 ∷ []) (5 ∷ 6 ∷ []) 0 1000
    ≡ (ok (1000 ∷ 1008 ∷ []), 1016)
unfolding alloc_all
two_allocated = refl

called_with_two : call test_ref test_native test_proxy (5 ∷ 6 ∷ []) 1000 ≡ (ok 16, 1017)
unfolding call set_arguments
called_with_two = refl

refused_abi :
    (foreign_function test_ref test_libffi 2 8
      (some 500)
      (object 1)
      (some (object 1 ∷ object 1 ∷ []))
      (some 7)
      start_types).0
    ≡ err (bad_abi "ffi_prep_cif" 2)
unfolding foreign_function cif write_arg_types coerce_all make_proxy ffi_type_of resolve direct
    read_ffi or_struct or_named
refused_abi = refl

call_marshals_example :
    (call test_ref test_native test_proxy (5 ∷ 6 ∷ []) 1000
      ≡ invoke test_ref test_native test_proxy
          (arg_array test_ref test_native test_proxy (1000 ∷ 1008 ∷ []))
          1016)
    × Holds 8 (1000 ∷ 1008 ∷ []) (arg_array test_ref test_native test_proxy (1000 ∷ 1008 ∷ []))
call_marshals_example =
    call_marshals test_ref test_native test_proxy (5 ∷ 6 ∷ []) (1000 ∷ 1008 ∷ []) 1000 1016 refl
      two_allocated

call_async_returns_example :
    Answers test_ref test_native test_proxy (5 ∷ 6 ∷ []) 100 idle refl refl (ok 16) 1017
call_async_returns_example =
    call_async_returns test_ref test_native test_proxy (5 ∷ 6 ∷ []) 100 idle refl refl 16 1017
      called_with_two

second_refused :
    (set_arguments test_ref test_native
      (λ i. i + 1)
      (1 ∷ 1 ∷ [])
      (5 ∷ 99 ∷ [])
      0
      (PointerArray.alloc 16)
      1000).0
    ≡ err (setting_argument 2 (external 7))
unfolding set_arguments
second_refused = refl

call_async_misnumbers_example :
    Misnumbered test_ref test_native test_proxy (5 ∷ 99 ∷ []) 100 idle refl refl 1 (external 7) 1008
call_async_misnumbers_example =
    call_async_misnumbers test_ref test_native test_proxy (5 ∷ 99 ∷ []) 100 idle refl refl 1
      (external 7) 1008 (later refl (fails refl))

deref_returns : DerefReturns test_ref test_native
deref_returns = record { value = value }
  where
    value :
        (type : ℕ) (bytes : List ℕ) (s : ℕ) → (v : ℕ) × ((test_native.deref type bytes s).0 ≡ ok v)
    value type [] s = (0, refl)
    value type (b ∷ bs) s = (b, refl)

one_accepted :
    Reach test_ref test_native 1000
      (100 ∷ [])
      (call_async test_ref test_native test_proxy (5 ∷ 6 ∷ 100 ∷ []) idle).1
unfolding call_async start_async set_arguments
one_accepted = accept test_proxy (5 ∷ 6 ∷ []) 100 start refl

abbrev one_loop : Loop ℕ ℕ
one_loop = (call_async test_ref test_native test_proxy (5 ∷ 6 ∷ 100 ∷ []) idle).1

abbrev is_hundred : ℕ → Bool
is_hundred v = v == 100

answered_once_example :
    count test_ref test_native is_hundred (waiting test_ref test_native one_loop)
      + count test_ref test_native is_hundred (answered test_ref test_native one_loop)
    ≡ count test_ref test_native is_hundred (100 ∷ [])
answered_once_example =
    answered_once test_ref test_native deref_returns 1000 one_accepted is_hundred

int-IsKnown : IsKnown test_ref start_types 1 (builtin "int")
int-IsKnown = own-IsKnown test_ref start_types 1 (builtin "int") refl refl

abbrev two_ints : List FfiPtr
two_ints = builtin "int" ∷ builtin "int" ∷ []

foreign_function_known_example :
    foreign_function test_ref test_libffi 1 8
      (some 500)
      (object 1)
      (some (object 1 ∷ object 1 ∷ []))
      none
      start_types
    ≡ (
      ok (record {
        cif =
            description test_ref test_laws test_libffi 0 1
              (1 ∷ 1 ∷ [])
              (builtin "int")
              two_ints
              none
              start_types;
        func_ptr = 500;
        return_type = 1;
        arg_types = 1 ∷ 1 ∷ [];
        result_size = 8;
      }),
      start_types,
    )
foreign_function_known_example =
    foreign_function_known test_ref test_laws test_libffi 0 1 (1 ∷ 1 ∷ []) (builtin "int") two_ints
      none start_types int-IsKnown (int-IsKnown, (int-IsKnown, tt)) refl 8 500 (omega arith)
      (omega arith)
