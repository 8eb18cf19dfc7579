-- ===== src/Threads.antt =====
-- src/callback_info.cc and src/threaded_callback_invokation.cc: a C callback that is called on another
-- thread than JavaScript's. `CallbackInfo::Invoke` queues the invocation and waits;
-- `CallbackInfo::WatcherCallback`, on the main thread, runs the queue.
pub mod Order
pub mod Progress
pub mod Ends
pub mod Woken
use node_ffi_napi.Prelude.{ℕ, ◌≡◌, Bool, true, false, List, [], ◌∷◌, ◌++◌, update}

-- Where a thread is in its call of `Invoke`. Its own mutex is held by the thread from the constructor of
-- `ThreadedCallbackInvokation` on, is free while it waits, and is its again once it has been signalled.
pub data Phase : Type 0 where
  idle : Phase  -- before the call
  entered : Phase  -- `Invoke` has begun
  created : Phase  -- after `uv_ref`, with the invocation constructed
  queued : Phase  -- it is in the queue
  sent : Phase  -- `uv_async_send` was called
  waiting : Phase  -- inside `uv_cond_wait`
  signalled : Phase  -- `uv_cond_wait` returns
  returned : Phase  -- `Invoke` has returned

-- Where the main thread is in `WatcherCallback`; it holds `data->mutex` all the time but at rest.
pub data Main : Type 0 where
  resting : Main
  looping : Main  -- at the test of `while`
  executing : (call : ℕ) → Main  -- after `pop`
  signalling : (call : ℕ) → Main  -- after `DispatchToV8`

-- Each call of `Invoke` has a number. `pending` and `referenced` are those of the `uv_async_t`: libuv
-- calls `WatcherCallback` once for any number of `uv_async_send`, and the event loop does not end while the
-- flag is set that `uv_ref` sets and `uv_unref` clears; `ended` says whether it has ended. `calls`,
-- `pushed` and `executed` record the calls, in the order in which they came so far, and `early` those whose
-- thread was woken without a signal.
pub record Threads : Type 0 where
  pub phase : ℕ → Phase
  pub queue : List ℕ
  pub main : Main
  pub pending : Bool
  pub referenced : Bool
  pub calls : List ℕ
  pub pushed : List ℕ
  pub executed : List ℕ
  pub early : List ℕ
  pub ended : Bool

abbrev pub move : ℕ → Phase → Threads → Threads
move i p s = record s { phase = update s.phase i p }

abbrev pub create : ℕ → Threads → Threads
create i s = record (move i entered s) { calls = i ∷ s.calls }

abbrev pub push : ℕ → Threads → Threads
push i s = record (move i queued s) { queue = s.queue ++ i ∷ []; pushed = s.pushed ++ i ∷ [] }

-- A step of the threads that have called, of the main thread, or of libuv, which may wake a thread that
-- was not signalled, and whose event loop may end at rest while nothing holds it open. Of an invocation
-- whose thread was woken early, which is freed, the model says no more than its place in the queue.
pub data Step (s : Threads) : Threads → Type 0 where
  hold : (i : ℕ) → s.phase i ≡ entered → Step s (record (move i created s) { referenced = true })
  push_call : (i : ℕ) → s.phase i ≡ created → s.main ≡ resting → Step s (push i s)
  send : (i : ℕ) → s.phase i ≡ queued → Step s (record (move i sent s) { pending = true })
  wait : (i : ℕ) → s.phase i ≡ sent → Step s (move i waiting s)
  wake :
      s.main ≡ resting
      → s.pending ≡ true
      → s.ended ≡ false
      → Step s (record s { main = looping; pending = false })
  pop :
      (i : ℕ) (rest : List ℕ)
      → s.main ≡ looping
      → s.queue ≡ i ∷ rest
      → Step s (record s { queue = rest; main = executing i })
  dispatch :
      (i : ℕ)
      → s.main ≡ executing i
      → Step s (record s { main = signalling i; executed = s.executed ++ i ∷ [] })
  signal :
      (i : ℕ)
      → s.main ≡ signalling i
      → s.phase i ≡ waiting
      → Step s (record (move i signalled s) { main = looping })
  stop : s.main ≡ looping → s.queue ≡ [] → Step s (record s { main = resting })
  finish :
      (i : ℕ) → s.phase i ≡ signalled → Step s (record (move i returned s) { referenced = false })
  wake_early :
      (i : ℕ) → s.phase i ≡ waiting → Step s (record (move i signalled s) { early = i ∷ s.early })
  end_loop :
      s.main ≡ resting → s.referenced ≡ false → s.ended ≡ false → Step s (record s { ended = true })

abbrev pub at_rest : Threads
at_rest = record {
  phase = λ _. idle;
  queue = [];
  main = resting;
  pending = false;
  referenced = false;
  calls = [];
  pushed = [];
  executed = [];
  early = [];
  ended = false;
}

-- New calls may come at any time.
pub data Reach : Threads → Type 0 where
  start : Reach at_rest
  call : {s : Threads} (i : ℕ) → Reach s → s.phase i ≡ idle → Reach (create i s)
  next : {s t : Threads} → Reach s → Step s t → Reach t
