-- ===== src/Threads/Progress.antt =====
-- src/callback_info.cc: calls from other threads, and the steps that are possible.
use node_ffi_napi.Prelude.{
  ℕ, false, ◌+◌, ◌≤◌, ◌≡◌, ◌≢◌, ◌∙◌, ◌⊎◌, inl, inr, refl, ap, true, false, List, [], ◌∷◌, ◌++◌,
  update_self, update_ne, arith,
}
use node_ffi_napi.Threads.{
  Phase, idle, entered, created, queued, sent, waiting, signalled, returned, Main, resting, looping,
  executing, signalling, Threads, move, create, Step, hold, push_call, send, wait, wake, pop,
  dispatch, signal, stop, finish, wake_early, end_loop, Reach, start, call, next,
}
use node_ffi_napi.Threads.Order.{
  count, in_hand, was_pushed, is_over, count-append, IsOrdered, Reach-IsOrdered,
}

-- The queue is empty, or will be looked at: the main thread runs it, or has been sent for, or some
-- thread is about to send.
pub data Attended (s : Threads) : Type 0 where
  nothing : s.queue ≡ [] → Attended s
  running : s.main ≢ resting → Attended s
  sent_for : s.pending ≡ true → Attended s
  to_send : (j : ℕ) → s.phase j ≡ queued → Attended s

-- a move of a thread that was not about to send
keeps : {s : Threads} (i : ℕ) (p : Phase) → s.phase i ≢ queued → Attended s → Attended (move i p s)
keeps i p other (nothing e) = nothing e
keeps i p other (running e) = running e
keeps i p other (sent_for e) = sent_for e
keeps {s} i p other (to_send j e) =
    to_send j (update_ne s.phase i j p (λ (same : i ≡ j). other (ap s.phase same ∙ e)) ∙ e)

released : {s : Threads} → Attended s → Attended (record s { referenced = false })
released (nothing e) = nothing e
released (running e) = running e
released (sent_for e) = sent_for e
released (to_send j e) = to_send j e

held : {s : Threads} → Attended s → Attended (record s { referenced = true })
held (nothing e) = nothing e
held (running e) = running e
held (sent_for e) = sent_for e
held (to_send j e) = to_send j e

with_early : {s : Threads} {is : List ℕ} → Attended s → Attended (record s { early = is })
with_early (nothing e) = nothing e
with_early (running e) = running e
with_early (sent_for e) = sent_for e
with_early (to_send j e) = to_send j e

closed : {s : Threads} → Attended s → Attended (record s { ended = true })
closed (nothing e) = nothing e
closed (running e) = running e
closed (sent_for e) = sent_for e
closed (to_send j e) = to_send j e

Step-Attended : {s t : Threads} → Step s t → Attended s → Attended t
Step-Attended (hold i at_i) a = held (keeps i created (λ e. cc (e, at_i)) a)
Step-Attended {s} (push_call i at_i rest) a = to_send i (update_self s.phase i queued)
Step-Attended (send i at_i) a = sent_for refl
Step-Attended (wait i at_i) a = keeps i waiting (λ e. cc (e, at_i)) a
Step-Attended (wake rest pending on) a = running (λ e. cc)
Step-Attended (pop i rest loop top) a = running (λ e. cc)
Step-Attended (dispatch i busy) a = running (λ e. cc)
Step-Attended (signal i busy at_i) a = running (λ e. cc)
Step-Attended (stop loop empty) a = nothing empty
Step-Attended (finish i at_i) a = released (keeps i returned (λ e. cc (e, at_i)) a)
Step-Attended (wake_early i at_i) a = with_early (keeps i signalled (λ e. cc (e, at_i)) a)
Step-Attended (end_loop rest free on) a = closed a

call-Attended : (i : ℕ) (s : Threads) → s.phase i ≡ idle → Attended s → Attended (create i s)
call-Attended i s at_i (nothing e) = nothing e
call-Attended i s at_i (running e) = running e
call-Attended i s at_i (sent_for e) = sent_for e
call-Attended i s at_i (to_send j e) =
    to_send j (update_ne s.phase i j entered (λ (same : i ≡ j). cc (ap s.phase same, e, at_i)) ∙ e)

pub Reach-Attended : {s : Threads} → Reach s → Attended s
Reach-Attended start = nothing refl
Reach-Attended (call {s} i r at_i) = call-Attended i s at_i (Reach-Attended r)
Reach-Attended (next r st) = Step-Attended st (Reach-Attended r)

-- A step is possible that does not end the loop.
abbrev pub CanStep : Threads → Type 0
CanStep s = (t : Threads) × Step s t × (t.ended ≡ s.ended)

was_pushed-le : (p : Phase) → was_pushed p ≤ 1
was_pushed-le idle = omega arith
was_pushed-le entered = omega arith
was_pushed-le created = omega arith
was_pushed-le queued = omega arith
was_pushed-le sent = omega arith
was_pushed-le waiting = omega arith
was_pushed-le signalled = omega arith
was_pushed-le returned = omega arith

queue_cases : (q : List ℕ) → (q ≡ []) ⊎ ((i : ℕ) × (rest : List ℕ) × (q ≡ i ∷ rest))
queue_cases [] = inl refl
queue_cases (i ∷ rest) = inr (i, rest, refl)

main_cases : (m : Main) → (m ≡ resting) ⊎ (m ≢ resting)
main_cases resting = inl refl
main_cases looping = inr (λ e. cc)
main_cases (executing i) = inr (λ e. cc)
main_cases (signalling i) = inr (λ e. cc)

-- a call in play: its thread is queued, has sent, or waits
in_play_of :
    (p : Phase) → was_pushed p ≡ 1 → is_over p ≡ 0 → (p ≡ queued) ⊎ (p ≡ sent) ⊎ (p ≡ waiting)
in_play_of idle h k = cc
in_play_of entered h k = cc
in_play_of created h k = cc
in_play_of queued h k = inl refl
in_play_of sent h k = inr (inl refl)
in_play_of waiting h k = inr (inr refl)
in_play_of signalled h k = cc
in_play_of returned h k = cc

module _ {s : Threads} (h : IsOrdered s) (none_early : s.early ≡ []) (on : s.ended ≡ false) where
  executed_pushed :
      (i : ℕ) → count i s.pushed ≡ (count i s.executed + count i (in_hand s.main)) + count i s.queue
  executed_pushed i =
      ap (count i) h.fifo
      ∙ count-append i (s.executed ++ in_hand s.main) s.queue
      ∙ ap (λ (n : ℕ). n + count i s.queue) (count-append i s.executed (in_hand s.main))

  -- The thread whose call was executed has not been signalled.
  signalling-waits :
      (i : ℕ)
      → s.main ≡ signalling i
      → (s.phase i ≡ queued) ⊎ (s.phase i ≡ sent) ⊎ (s.phase i ≡ waiting)
  signalling-waits i busy =
      in_play_of (s.phase i)
        (omega (arith, was_pushed-le (s.phase i), h.once i, executed_pushed i, executed_here))
        (omega (arith, was_pushed-le (s.phase i), h.once i, executed_pushed i, executed_here))
    where
      executed_here : count i s.executed ≡ is_over (s.phase i) + 1
      executed_here = ground (arith, h.done none_early i, busy)

  -- While a call waits, the main thread can go on.
  main_steps : s.main ≢ resting → CanStep s
  main_steps busy = go s.main refl
    where
      go : (m : Main) → s.main ≡ m → CanStep s
      go resting e = absurd (busy e)
      go looping e = elim (queue_cases s.queue) [
        | inl empty ↦ (_, stop e empty, refl)
        | inr (i, rest, top) ↦ (_, pop i rest e top, refl)
      ]
      go (executing i) e = (_, dispatch i e, refl)
      go (signalling i) e = elim (signalling-waits i e) [
        | inl q ↦ (_, send i q, refl)
        | inr (inl q) ↦ (_, wait i q, refl)
        | inr (inr q) ↦ (_, signal i e q, refl)
      ]

  -- A waiting thread's call is in the queue, unless the main thread is at it.
  waiting_queued : (i : ℕ) → s.phase i ≡ waiting → s.main ≡ resting → s.queue ≢ []
  waiting_queued i at_i rest empty =
      let none_left : count i s.queue ≡ 0 = ap (count i) empty in
      let none_in_hand : count i (in_hand s.main) ≡ 0 = ap (λ m. count i (in_hand m)) rest in
      absurd (
        omega (
          arith,
          executed_pushed i,
          none_left,
          none_in_hand,
          rw at_i at (h.once i),
          rw (at_i, rest) at (h.done none_early i),
        ))

  Attended-steps : Attended s → s.main ≡ resting → s.queue ≢ [] → CanStep s
  Attended-steps (nothing e) rest some_left = absurd (some_left e)
  Attended-steps (running e) rest some_left = absurd (e rest)
  Attended-steps (sent_for e) rest some_left = (_, wake rest e on, refl)
  Attended-steps (to_send j e) rest some_left = (_, send j e, refl)

  thread_steps :
      Attended s → (i : ℕ) → (p : Phase) → s.phase i ≡ p → p ≢ idle → p ≢ returned → CanStep s
  thread_steps a i idle e called open' = absurd (called refl)
  thread_steps a i entered e called open' = (_, hold i e, refl)
  thread_steps a i created e called open' = elim (main_cases s.main) [
    | inl rest ↦ (_, push_call i e rest, refl)
    | inr busy ↦ main_steps busy
  ]
  thread_steps a i queued e called open' = (_, send i e, refl)
  thread_steps a i sent e called open' = (_, wait i e, refl)
  thread_steps a i waiting e called open' = elim (main_cases s.main) [
    | inl rest ↦ Attended-steps a rest (waiting_queued i e rest)
    | inr busy ↦ main_steps busy
  ]
  thread_steps a i signalled e called open' = (_, finish i e, refl)
  thread_steps a i returned e called open' = absurd (open' refl)

-- In every reachable state in which no thread was woken early and the loop has not ended, while some
-- thread's call has not returned, a step is possible that is no new call and not the end of the loop.
pub no_deadlock :
    (s : Threads) (i : ℕ)
    → Reach s
    → s.early ≡ []
    → s.ended ≡ false
    → s.phase i ≢ idle
    → s.phase i ≢ returned
    → CanStep s
no_deadlock s i r none_early on called open' =
    thread_steps (Reach-IsOrdered r) none_early on (Reach-Attended r) i (s.phase i) refl called
      open'
