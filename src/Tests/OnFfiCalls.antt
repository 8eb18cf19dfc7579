-- ===== src/Tests/OnFfiCalls.antt =====
-- src/ffi.cc on a call that throws.
use node_ffi_napi.Prelude.{ℕ, ◌≡◌, refl, String, Option, none, some, List, [], ◌∷◌, All}
use node_ffi_napi.Effect.{ok}
use node_ffi_napi.FfiCalls.{
  Value, buffer, function, other, Process, Worker, ffi_call_async, async_ffi_call, finish_async,
  run_work, complete_work, Reach, start, request, work, complete,
}
use node_ffi_napi.FfiCalls.Lost.{errors_lost}

abbrev address : Value → ℕ
address (buffer a) = a
address (function i) = 0
address (other i) = 0

abbrev failing : Process ℕ
failing = record {
  to_number = λ a s. (ok 0, s);
  buffer_data = λ a s. (ok (address a), s);
  prep_cif = λ cif abi n r a s. (0, s);
  prep_cif_var = λ cif abi f n r a s. (0, s);
  ffi_call = λ cif fn res argv s. (some "no such luck", s);
}

abbrev one_request : List Value
one_request = buffer 8 ∷ buffer 16 ∷ buffer 24 ∷ buffer 32 ∷ function 1 ∷ []

-- The call throws, and its callback gets null.
abbrev answered : Worker ℕ
answered = record { process = 0; queued = []; finished = []; called = (function 1, none) ∷ [] }

answered-Reach : Reach failing answered
unfolding ffi_call_async run_work async_ffi_call complete_work finish_async
answered-Reach = complete [] _ [] (work [] _ [] (request one_request (start 0)) refl) refl

errors_lost_example : All (λ (c : Value × Option String). c.1 ≡ none) answered.called
errors_lost_example = errors_lost failing answered answered-Reach
