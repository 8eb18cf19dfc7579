-- ===== src/Tests/OnVariadic.antt =====
-- lib/foreign_function_var.js on concrete signatures.
use node_ffi_napi.Prelude.{◌≡◌, refl, [], ◌∷◌, ◌++◌, arith, none, some, ap, ◌∙◌}
use node_ffi_napi.Effect.Laws.{Ensures}
use node_ffi_napi.Types.{object}
use node_ffi_napi.Variadic.{hex, id_text, Ids, get_id, Generator, Session, generate}
use node_ffi_napi.Variadic.Keys.{id_text_collides}
use node_ffi_napi.Variadic.Known.{IdsOk, GotId, get_id-GotId}
use node_ffi_napi.Variadic.Cache.{CacheOk}
use node_ffi_napi.Variadic.Made.{Suits, IsMade}
use node_ffi_napi.Variadic.Generate.{generate_right}
use node_ffi_napi.Effect.{ok}
use node_ffi_napi.Variadic.{variadic_foreign_function}
use node_ffi_napi.Variadic.Started.{variadic_foreign_function-CacheOk}
use node_ffi_napi.Tests.Data.{test_ref, test_laws, start_types, test_libffi}

abbrev no_ids : Ids
no_ids = record { counter = 0; id_of = λ _. none }

no_ids-IdsOk : IdsOk no_ids
no_ids-IdsOk = record { limited = omega arith; known = λ t s h. cc; once = λ t u s h k. cc }

first_text : id_text 1 ≡ b'1' ∷ b'0' ∷ b'0' ∷ b'0' ∷ b'0' ∷ []
unfolding id_text hex
first_text = refl

id_text_collides_example : id_text 1 ++ id_text 0 ≡ id_text 16
id_text_collides_example = id_text_collides 1 (omega arith) (omega arith)

-- The type 9 has the id "0", and the type 1 the next.
abbrev first_ids : Ids
first_ids = (get_id 9 no_ids).1

abbrev two_ids : Ids
two_ids = (get_id 1 first_ids).1

first_got : GotId 9 no_ids (get_id 9 no_ids)
first_got = get_id-GotId 9 no_ids no_ids-IdsOk (omega arith)

second_got : GotId 1 first_ids (get_id 1 first_ids)
second_got = get_id-GotId 1 first_ids first_got.fine (omega (arith, first_got.one_more))

zero_first : (get_id 9 no_ids).0 ≡ b'0' ∷ []
unfolding get_id id_text hex
zero_first = refl

-- the generator of a function whose fixed argument is an int, and no call yet
abbrev test_generator : Generator
test_generator = record {
  func_ptr = 500;
  return_type = object 1;
  fixed_arg_types = 1 ∷ [];
  fixed_key = (get_id 1 first_ids).0 ∷ [];
  abi = none;
}

abbrev test_session : Session
test_session = record { types = start_types; ids = two_ids; cache = [] }

fresh-CacheOk : CacheOk test_generator test_session
fresh-CacheOk = record { fine = second_got.fine; fixed = (second_got.has, tt); entries = tt }

generate_right_example :
    Ensures
      (λ f s'.
        Suits test_ref test_libffi 2 8 test_generator 1 (1 ∷ 1 ∷ []) f
        × CacheOk test_generator s'
        × IsMade test_ref test_libffi 2 8 test_generator (1 ∷ 1 ∷ []) [] f s')
      (λ _ s'. CacheOk test_generator s')
      (generate test_ref test_libffi 2 8 test_generator (object 1) (object 1 ∷ []) test_session)
generate_right_example =
    generate_right test_ref test_libffi 2 8 test_laws test_generator 1 (1 ∷ []) 9 test_session
      fresh-CacheOk (second_got.extends.kept 9 (b'0' ∷ []) (first_got.has ∙ ap some zero_first))
      ((λ e. omega (arith, e)), ((λ e. omega (arith, e)), ((λ e. omega (arith, e)), tt)))
      (omega (arith, first_got.one_more, second_got.one_more))

abbrev empty_session : Session
empty_session = record { types = start_types; ids = no_ids; cache = [] }

variadic_foreign_function-CacheOk_example :
    (g : Generator) × (t : Session) × (variadic_foreign_function test_ref test_libffi 2 8
        (some 500)
        (object 1)
        (some (object 1 ∷ object 2 ∷ []))
        none
        empty_session
      ≡ (ok g, t))
    × (g.func_ptr ≡ 500)
    × (g.fixed_arg_types ≡ 1 ∷ 2 ∷ [])
    × CacheOk g t
variadic_foreign_function-CacheOk_example =
    variadic_foreign_function-CacheOk test_ref test_libffi 2 8 test_laws 500 1 (1 ∷ 2 ∷ []) none
      empty_session no_ids-IdsOk (omega arith)
