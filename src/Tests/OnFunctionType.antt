-- ===== src/Tests/OnFunctionType.antt =====
-- lib/function.js: a pointer to a function of two ints.
use node_ffi_napi.Prelude.{
  ℕ, ◌+◌, ◌≡◌, refl, none, some, List, [], ◌∷◌, ◌==◌, if◌then◌else◌, update, arith,
}
use node_ffi_napi.Effect.{ok}
use node_ffi_napi.Effect.Laws.{Ensures}
use node_ffi_napi.Bindings.{FfiPtr, builtin, pointer_type}
use node_ffi_napi.Types.{Types, Ref}
use node_ffi_napi.Types.Known.{IsKnown, own-IsKnown}
use node_ffi_napi.Types.Results.{CoerceLaws}
use node_ffi_napi.FunctionType.{FunctionType, Pointers, Space, function, function_object, get, set}
use node_ffi_napi.FunctionType.Round.{info, taken, set_then_get}
use node_ffi_napi.FunctionType.Sets.{IsWritten, set-IsWritten}
use node_ffi_napi.Tests.Data.{
  bare_type, keeps_structs, test_ref, test_laws, test_libffi, start_types,
}
use node_ffi_napi.Tests.World.{World, add, store_at}
use node_ffi_napi.Tests.OnCallback.{fresh, making, test_closures}

-- 6 is a function type, 7 the prototype of function types.
abbrev function_ref : Ref
function_ref = record test_ref {
  obj = λ t. if t == 6 then function_object 8 (7 ∷ 8 ∷ []) else bare_type;
}

function_laws : CoerceLaws function_ref
function_laws = record { same = λ t s. refl; keeps = keeps_structs }

abbrev with_prototype : Types
with_prototype = record start_types { ffi_own = update (λ t. none) 7 (some (some pointer_type)) }

abbrev two_ints : FunctionType
two_ints = record { ret_type = 1; arg_types = 1 ∷ 1 ∷ []; abi = 2 }

abbrev cells : Pointers World
cells = record {
  read_pointer = λ buffer offset s. (ok (s.cell (buffer + offset)), s);
  write_pointer = λ buffer offset ptr s. (ok tt, store_at (buffer + offset) ptr s);
}

abbrev space : Space World ℕ
space = record { native = fresh; making = making }

int-IsKnown : IsKnown test_ref start_types 1 (builtin "int")
int-IsKnown = own-IsKnown test_ref start_types 1 (builtin "int") refl refl

abbrev int_types : List FfiPtr
int_types = builtin "int" ∷ builtin "int" ∷ []

set_then_get_example :
    (t : Space World ℕ) × (set test_ref test_libffi test_closures cells 2 8 two_ints 40 8
        (function add)
        space
      ≡ (ok tt, t))
    × (get test_ref test_libffi test_closures cells 2 8 two_ints 40 8 t ≡ (
      ok (
          taken test_ref test_laws test_libffi test_closures cells 1 8 two_ints
            (builtin "int")
            int_types
            add
            space
            900),
      t,
    ))
    × (t.making.closures 900
        ≡ some (
            info test_ref test_laws test_libffi test_closures cells 1 8 two_ints
              (builtin "int")
              int_types
              add
              space))
    × (t.making.types ≡ start_types)
set_then_get_example =
    set_then_get test_ref test_laws test_libffi test_closures cells 1 8 two_ints (builtin "int")
      int_types add space 900 int-IsKnown (int-IsKnown, (int-IsKnown, tt)) refl 40 8
      (store_at 48 900 fresh) (omega arith) (omega arith) refl refl refl refl

set-IsWritten_example :
    Ensures
      (λ _ t.
        IsWritten test_ref test_laws test_libffi test_closures cells 2 8 two_ints 40 8
          (function add)
          space
          t)
      (λ _ _. Unit)
      (set test_ref test_libffi test_closures cells 2 8 two_ints 40 8 (function add) space)
set-IsWritten_example =
    set-IsWritten test_ref test_laws test_libffi test_closures cells 2 8 two_ints 40 8
      (function add) space
