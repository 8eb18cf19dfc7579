-- ===== src/Tests/OnCallback.antt =====
-- lib/callback.js on the addition of two ints.
use node_ffi_napi.Prelude.{ℕ, ◌≡◌, refl, none, some, List, [], ◌∷◌, update}
use node_ffi_napi.Effect.{external, undefined_thrown, collected, ok, err}
use node_ffi_napi.Effect.Laws.{Ensures}
use node_ffi_napi.Types.{object}
use node_ffi_napi.Callback.{
  Func, CallbackInfo, Env, Making, Closures, only, read_args, run_function, run_queue, callback,
}
use node_ffi_napi.Callback.Reports.{errors_reported}
use node_ffi_napi.Callback.Created.{IsCreated, callback-IsCreated}
use node_ffi_napi.Tests.Data.{test_ref, test_laws, test_libffi, test_cif, start_types}
use node_ffi_napi.Tests.World.{World, world_memory, add}

abbrev two_values : List ℕ
two_values = 3 ∷ 4 ∷ []

abbrev pub fresh : World
fresh = record { next = 8; cell = λ p. 0; params = [] }

-- after the allocation of 3 and 4
abbrev allocated : World
allocated = record { next = 24; cell = update (update (λ p. 0) 8 3) 16 4; params = [] }

abbrev inside : World
inside = record allocated { params = (0, 8) ∷ (8, 16) ∷ [] }

abbrev throwing : Func World ℕ
throwing vs s = (err (external 5), s)

abbrev bad_info : CallbackInfo World ℕ
bad_info = record {
  cif = test_cif;
  ret_type = 1;
  arg_types = [];
  result_size = 4;
  function = some throwing;
}

abbrev quiet : Env World
quiet = record { native = fresh; reports = [] }

abbrev undefined_info : CallbackInfo World ℕ
undefined_info = record bad_info { function = some (λ vs s. (err undefined_thrown, s)) }

abbrev gone_info : CallbackInfo World ℕ
gone_info = record bad_info { function = none }

errors_reported_example :
    run_queue test_ref world_memory
      ((bad_info, 0, 0) ∷ (undefined_info, 0, 0) ∷ (gone_info, 0, 0) ∷ [])
      quiet
    ≡ (ok tt, record { native = fresh; reports = collected ∷ external 5 ∷ [] })
unfolding run_function read_args
errors_reported_example =
    errors_reported test_ref world_memory
      ((bad_info, 0, 0) ∷ (undefined_info, 0, 0) ∷ (gone_info, 0, 0) ∷ []) quiet

-- libffi's closures stand from 900 on.
abbrev pub test_closures : Closures World ℕ
test_closures = record { closure_alloc = λ closures. some 900; prep_closure = λ c code. 0 }

abbrev pub making : Making World ℕ
making = record { types = start_types; closures = λ code. none }

callback-IsCreated_example :
    Ensures
      (IsCreated test_ref test_libffi test_closures 2 1 (1 ∷ 1 ∷ []) none add making)
      (λ _ t. t.closures ≡ making.closures)
      (callback test_ref test_libffi test_closures 2
        (object 1)
        (some (object 1 ∷ object 1 ∷ []))
        (only add)
        making)
callback-IsCreated_example =
    callback-IsCreated test_ref test_libffi test_closures 2 test_laws 1 (1 ∷ 1 ∷ []) (only add) add
      making refl
