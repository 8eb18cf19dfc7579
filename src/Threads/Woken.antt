-- ===== src/Threads/Woken.antt =====
-- src/callback_info.cc and src/threaded_callback_invokation.cc: what a wake without a signal and the flag
-- of `uv_ref` and `uv_unref` lead to.
use node_ffi_napi.Prelude.{ℕ, ◌≡◌, ◌∙◌, refl, ap, true, false, [], ◌∷◌, update_self, update_ne}
use node_ffi_napi.Threads.{
  entered, created, queued, sent, waiting, signalled, returned, Threads, resting, move, create,
  push, Step, hold, push_call, send, wait, finish, wake_early, end_loop, at_rest, Reach, start,
  call, next,
}

-- Any call may return while its invocation is still in the queue and nothing has been executed.
returned_unexecuted :
    (i : ℕ)
    → (s : Threads) × Reach s × (s.phase i ≡ returned) × (s.queue ≡ i ∷ []) × (s.executed ≡ [])
returned_unexecuted i =
    let s0 : Threads = create i at_rest in
    let s1 : Threads = record (move i created s0) { referenced = true } in
    let s2 : Threads = push i s1 in
    let s3 : Threads = record (move i sent s2) { pending = true } in
    let s4 : Threads = move i waiting s3 in
    let s5 : Threads = record (move i signalled s4) { early = i ∷ [] } in
    let s6 : Threads = record (move i returned s5) { referenced = false } in
    let r1 : Reach s1 = next (call i start refl) (hold i (update_self at_rest.phase i entered)) in
    let r2 : Reach s2 = next r1 (push_call i (update_self s0.phase i created) refl) in
    let r4 : Reach s4 =
      next (next r2 (send i (update_self s1.phase i queued)))
        (wait i (update_self s2.phase i sent)) in
    let r6 : Reach s6 =
      next (next r4 (wake_early i (update_self s3.phase i waiting)))
        (finish i (update_self s4.phase i signalled)) in
    (s6, r6, update_self s5.phase i returned, refl, refl)

-- Where one call has been signalled, another waits and the main thread rests, the first can return, and
-- then the loop can end while the other still waits.
released_early :
    (s : Threads) (i j : ℕ)
    → s.phase i ≡ signalled
    → s.phase j ≡ waiting
    → s.main ≡ resting
    → s.ended ≡ false
    → (t u : Threads) × Step s t × Step t u × (u.phase j ≡ waiting) × (u.ended ≡ true)
released_early s i j at_i at_j rest on = (
  record (move i returned s) { referenced = false },
  _,
  finish i at_i,
  end_loop rest refl on,
  update_ne s.phase i j returned (λ (same : i ≡ j). cc (ap s.phase same, at_i, at_j)) ∙ at_j,
  refl,
)
