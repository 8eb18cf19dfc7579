-- ===== src/Threads/Order.antt =====
-- src/callback_info.cc: calls from other threads, and the order in which they come.
use node_ffi_napi.Prelude.{
  ℕ, ◌+◌, ◌≡◌, ◌∙◌, refl, sym, ap, List, [], ◌∷◌, ◌++◌, ◌==◌, if◌then◌else◌, arith,
}
use mathlib.Core.List.{append_assoc, append-nil}
use node_ffi_napi.Threads.{
  Phase, idle, entered, created, signalled, returned, Main, resting, looping, executing, signalling,
  Threads, create, Step, hold, push_call, send, wait, wake, pop, dispatch, signal, stop, finish,
  wake_early, end_loop, Reach, start, call, next,
}

-- how often a call is in a list
abbrev pub count : ℕ → List ℕ → ℕ
count i [] = 0
count i (j ∷ js) = (if j == i then 1 else 0) + count i js

pub count-append : (i : ℕ) (xs ys : List ℕ) → count i (xs ++ ys) ≡ count i xs + count i ys
count-append i [] ys = omega arith
count-append i (x ∷ xs) ys = omega (arith, count-append i xs ys)

-- the call that the main thread has taken from the queue and not executed
abbrev pub in_hand : Main → List ℕ
in_hand resting = []
in_hand looping = []
in_hand (executing i) = i ∷ []
in_hand (signalling i) = []

-- 1 for the call that was executed and not signalled
abbrev pub unsignalled : Main → ℕ → ℕ
unsignalled resting i = 0
unsignalled looping i = 0
unsignalled (executing j) i = 0
unsignalled (signalling j) i = if j == i then 1 else 0

abbrev pub was_called : Phase → ℕ
was_called idle = 0
was_called _ = 1

abbrev pub was_pushed : Phase → ℕ
was_pushed idle = 0
was_pushed entered = 0
was_pushed created = 0
was_pushed _ = 1

abbrev pub is_over : Phase → ℕ
is_over signalled = 1
is_over returned = 1
is_over _ = 0

-- What every reachable state satisfies; what was executed, as long as no thread was woken early.
pub record IsOrdered (s : Threads) : Type 0 where
  pub fifo : s.pushed ≡ (s.executed ++ in_hand s.main) ++ s.queue
  pub called : (i : ℕ) → count i s.calls ≡ was_called (s.phase i)
  pub once : (i : ℕ) → count i s.pushed ≡ was_pushed (s.phase i)
  pub done :
      s.early ≡ [] → (i : ℕ) → count i s.executed ≡ is_over (s.phase i) + unsignalled s.main i

Step-IsOrdered : {s t : Threads} → Step s t → IsOrdered s → IsOrdered t
Step-IsOrdered {s} (hold i at_i) h = record {
  fifo = h.fifo;
  called = λ j. ground (arith, h.called j, at_i);
  once = λ j. ground (arith, h.once j, at_i);
  done = λ e j. ground (arith, h.done e j, at_i);
}
Step-IsOrdered {s} (push_call i at_i rest) h = record {
  fifo =
      ap (λ l. l ++ i ∷ []) h.fifo ∙ append_assoc (s.executed ++ in_hand s.main) s.queue (i ∷ []);
  called = λ j. ground (arith, h.called j, at_i);
  once = λ j. ground (arith, h.once j, count-append j s.pushed (i ∷ []), at_i);
  done = λ e j. ground (arith, h.done e j, at_i);
}
Step-IsOrdered {s} (send i at_i) h = record {
  fifo = h.fifo;
  called = λ j. ground (arith, h.called j, at_i);
  once = λ j. ground (arith, h.once j, at_i);
  done = λ e j. ground (arith, h.done e j, at_i);
}
Step-IsOrdered {s} (wait i at_i) h = record {
  fifo = h.fifo;
  called = λ j. ground (arith, h.called j, at_i);
  once = λ j. ground (arith, h.once j, at_i);
  done = λ e j. ground (arith, h.done e j, at_i);
}
Step-IsOrdered {s} (wake rest pending on) h = record {
  fifo = rw rest at h.fifo;
  called = h.called;
  once = h.once;
  done = λ e j. ground (arith, h.done e j, rest);
}
Step-IsOrdered {s} (pop i rest loop top) h = record {
  fifo = (rw (loop, top) at h.fifo) ∙ simp (append-nil, append_assoc);
  called = h.called;
  once = h.once;
  done = λ e j. ground (arith, h.done e j, loop);
}
Step-IsOrdered {s} (dispatch i busy) h = record {
  fifo = (rw busy at h.fifo) ∙ ap (λ l. l ++ s.queue) (sym (append-nil (s.executed ++ i ∷ [])));
  called = h.called;
  once = h.once;
  done = λ e j. ground (arith, h.done e j, count-append j s.executed (i ∷ []), busy);
}
Step-IsOrdered {s} (signal i busy at_i) h = record {
  fifo = rw busy at h.fifo;
  called = λ j. ground (arith, h.called j, at_i);
  once = λ j. ground (arith, h.once j, at_i);
  done = λ e j. ground (arith, h.done e j, busy, at_i);
}
Step-IsOrdered {s} (stop loop empty) h = record {
  fifo = rw loop at h.fifo;
  called = h.called;
  once = h.once;
  done = λ e j. ground (arith, h.done e j, loop);
}
Step-IsOrdered {s} (finish i at_i) h = record {
  fifo = h.fifo;
  called = λ j. ground (arith, h.called j, at_i);
  once = λ j. ground (arith, h.once j, at_i);
  done = λ e j. ground (arith, h.done e j, at_i);
}
Step-IsOrdered {s} (wake_early i at_i) h = record {
  fifo = h.fifo;
  called = λ j. ground (arith, h.called j, at_i);
  once = λ j. ground (arith, h.once j, at_i);
  done = λ none_early. cc none_early;
}
Step-IsOrdered (end_loop rest free on) h = record {
  fifo = h.fifo;
  called = h.called;
  once = h.once;
  done = h.done;
}

call-IsOrdered : (i : ℕ) (s : Threads) → s.phase i ≡ idle → IsOrdered s → IsOrdered (create i s)
call-IsOrdered i s at_i h = record {
  fifo = h.fifo;
  called = λ j. ground (arith, h.called j, at_i);
  once = λ j. ground (arith, h.once j, at_i);
  done = λ e j. ground (arith, h.done e j, at_i);
}

pub Reach-IsOrdered : {s : Threads} → Reach s → IsOrdered s
Reach-IsOrdered start = record {
  fifo = refl;
  called = λ i. refl;
  once = λ i. refl;
  done = λ e i. omega arith;
}
Reach-IsOrdered (call {s} i r at_i) = call-IsOrdered i s at_i (Reach-IsOrdered r)
Reach-IsOrdered (next r st) = Step-IsOrdered st (Reach-IsOrdered r)

-- In every reachable state in which no thread was woken without a signal so far, a call of a C callback on another thread that has returned was executed on
-- the main thread exactly once, and the executed calls are the first of the queued ones, in the order
-- in which they were queued.
pub returned_executed :
    (s : Threads) (i : ℕ)
    → Reach s
    → s.early ≡ []
    → s.phase i ≡ returned
    → (count i s.executed ≡ 1) × (rest : List ℕ) × (s.pushed ≡ s.executed ++ rest)
returned_executed s i r none_early at_i =
    let h = Reach-IsOrdered r in
    (
      omega (
        arith,
        rw at_i at (h.done none_early i),
        rw at_i at (h.once i),
        ap (count i) h.fifo,
        count-append i (s.executed ++ in_hand s.main) s.queue,
        count-append i s.executed (in_hand s.main),
      ),
      in_hand s.main ++ s.queue,
      h.fifo ∙ append_assoc s.executed (in_hand s.main) s.queue,
    )
