-- ===== src/Tests/OnThreads.antt =====
-- src/callback_info.cc on one call of one thread.
use node_ffi_napi.Prelude.{ℕ, ◌≡◌, refl, List, [], ◌++◌}
use node_ffi_napi.Threads.{
  hold, returned, Threads, push_call, send, wait, wake, pop, dispatch, signal, stop, finish,
  at_rest, create, Reach, start, call, next,
}
use node_ffi_napi.Threads.Order.{count, returned_executed}
use node_ffi_napi.Threads.Ends.{Run, here, more}

-- the call of thread 7, and all of its steps
abbrev called : Reach (create 7 at_rest)
called = call 7 start refl

abbrev all_steps : (t : Threads) × Run (create 7 at_rest) 10 t × (t.phase 7 ≡ returned)
all_steps = (
  _,
  more
      (more
        (more
          (more
            (more
              (more
                (more (more (more (more here (hold 7 refl)) (push_call 7 refl refl)) (send 7 refl))
                  (wait 7 refl))
                (wake refl refl refl))
              (pop 7 [] refl refl))
            (dispatch 7 refl))
          (signal 7 refl refl))
        (stop refl refl))
      (finish 7 refl),
  refl,
)

abbrev ended : Threads
ended = all_steps.0

along : {s t : Threads} {n : ℕ} → Reach s → Run s n t → Reach t
along r here = r
along r (more run st) = next (along r run) st

returned_executed_example :
    (count 7 ended.executed ≡ 1) × (rest : List ℕ) × (ended.pushed ≡ ended.executed ++ rest)
returned_executed_example = returned_executed ended 7 (along called all_steps.1) refl refl
