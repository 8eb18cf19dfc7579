-- ===== src/Threads/Ends.antt =====
-- src/callback_info.cc: calls from other threads, and the steps that they take.
use node_ffi_napi.Prelude.{
  ℕ, suc, ◌+◌, ◌*◌, ◌≤◌, ◌<◌, ◌≡◌, ◌∙◌, ◌⊎◌, inl, inr, refl, ap, Bool-cases, List, [], ◌∷◌, ◌==◌,
  ==_iff, if◌then◌else◌, update, arith, length, length-append,
}
use node_ffi_napi.Threads.{
  Phase, idle, entered, created, queued, sent, waiting, signalled, returned, Main, resting, looping,
  executing, signalling, Threads, Step, hold, push_call, send, wait, wake, pop, dispatch, signal,
  stop, finish, wake_early, end_loop, Reach, next,
}
use node_ffi_napi.Threads.Order.{count, was_called, IsOrdered, Reach-IsOrdered}

-- how many steps a thread has still to take part in, each with the main thread's steps that it causes
abbrev pub weight : Phase → ℕ
weight idle = 0
weight entered = 11
weight created = 10
weight queued = 6
weight sent = 3
weight waiting = 2
weight signalled = 1
weight returned = 0

abbrev pub main_weight : Main → ℕ
main_weight resting = 0
main_weight looping = 1
main_weight (executing i) = 3
main_weight (signalling i) = 2

abbrev pub total : (ℕ → Phase) → List ℕ → ℕ
total phase [] = 0
total phase (i ∷ is) = weight (phase i) + total phase is

abbrev pub potential : Threads → ℕ
potential s =
    total s.phase s.calls
    + main_weight s.main
    + (if s.pending then 2 else 0)
    + 3 * length s.queue
    + (if s.ended then 0 else 1)

module _ (phase : ℕ → Phase) (i : ℕ) (p : Phase) where
  total-other : (is : List ℕ) → count i is ≡ 0 → total (update phase i p) is ≡ total phase is
  total-other [] h = refl
  total-other (j ∷ is) h = ground (arith, total-other is)

  total-move :
      (is : List ℕ)
      → count i is ≡ 1
      → total (update phase i p) is + weight (phase i) ≡ total phase is + weight p
  total-move [] h = cc
  total-move (j ∷ is) h = elim (Bool-cases (j == i)) [
    | inl here ↦ ground (arith, total-other is, here, ap phase ((==_iff j i).0 here))
    | inr other ↦ ground (arith, total-move is, other)
  ]

module _ {s : Threads} (h : IsOrdered s) where
  -- the call of a thread that is not idle is among the calls, once
  moves :
      (i : ℕ) (p q : Phase)
      → s.phase i ≡ q
      → was_called q ≡ 1
      → total (update s.phase i p) s.calls + weight q ≡ total s.phase s.calls + weight p
  moves i p q at_i called =
      rw at_i at (total-move s.phase i p s.calls (h.called i ∙ ap was_called at_i ∙ called))

  Step-falls : {t : Threads} → Step s t → potential t < potential s
  Step-falls (hold i at_i) = omega (arith, moves i created entered at_i refl)
  Step-falls (push_call i at_i rest) =
      omega (arith, moves i queued created at_i refl, length-append s.queue (i ∷ []))
  Step-falls (send i at_i) = ground (arith, moves i sent queued at_i refl)
  Step-falls (wait i at_i) = omega (arith, moves i waiting sent at_i refl)
  Step-falls (wake rest pending on) = ground (arith, ap main_weight rest, pending)
  Step-falls (pop i rest loop top) = omega (arith, ap main_weight loop, ap length top)
  Step-falls (dispatch i busy) = omega (arith, ap main_weight busy)
  Step-falls (signal i busy at_i) =
      omega (arith, ap main_weight busy, moves i signalled waiting at_i refl)
  Step-falls (stop loop empty) = omega (arith, ap main_weight loop)
  Step-falls (finish i at_i) = omega (arith, moves i returned signalled at_i refl)
  Step-falls (wake_early i at_i) = omega (arith, moves i signalled waiting at_i refl)
  Step-falls (end_loop rest free on) = ground (arith, on)

-- Steps without new calls, one after the other.
pub data Run (s : Threads) : ℕ → Threads → Type 0 where
  here : Run s 0 s
  more : {n : ℕ} {t u : Threads} → Run s n t → Step t u → Run s (suc n) u

Run-Reach : {s t : Threads} {n : ℕ} → Reach s → Run s n t → Reach t
Run-Reach r here = r
Run-Reach r (more run st) = next (Run-Reach r run) st

-- From a reachable state, only so many steps are possible without new calls.
pub run_bounded : (s t : Threads) (n : ℕ) → Reach s → Run s n t → n + potential t ≤ potential s
run_bounded s t n r here = omega arith
run_bounded s t n r (more {n = m} {t = u} run st) =
    omega (arith, run_bounded s u m r run, Step-falls (Reach-IsOrdered (Run-Reach r run)) st)

abbrev pub IsSettled : Phase → Type 0
IsSettled p = (p ≡ idle) ⊎ (p ≡ returned)
