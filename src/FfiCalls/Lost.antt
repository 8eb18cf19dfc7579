-- ===== src/FfiCalls/Lost.antt =====
-- src/ffi.cc: the errors of asynchronous calls.
use node_ffi_napi.Prelude.{
  ℕ, ◌∙◌, subst, ◌≡◌, refl, String, Option, none, some, List, [], ◌∷◌, ◌++◌, All, ==_iff,
}
use node_ffi_napi.Effect.{Result, ok, err, Exec, ◌>>=◌}
use node_ffi_napi.Effect.Laws.{Ensures, Ensures-pure, Ensures-bind, Ensures-check}
use node_ffi_napi.FfiCalls.{
  Value, is_function, arg, Process, AsyncCallParams, Worker, ffi_ok, four_buffers, on_process,
  ffi_call_async, caught, async_ffi_call, finish_async, run_work, complete_work, Reach, start,
  request, work, complete,
}

module _ {S : Type 0} (proc : Process S) where
  abbrev Fine : List AsyncCallParams → Type 0
  Fine = All (λ p. p.result ≡ ffi_ok)

  -- No call has failed, and no callback was given an error.
  record IsQuiet (w : Worker S) : Type 0 where
    waiting : Fine w.queued
    made : Fine w.finished
    answered : All (λ (c : Value × Option String). c.1 ≡ none) w.called

  Fine-append :
      (ps : List AsyncCallParams) (p : AsyncCallParams)
      → Fine ps
      → p.result ≡ ffi_ok
      → Fine (ps ++ p ∷ [])
  Fine-append [] p all here = (here, tt)
  Fine-append (q ∷ ps) p (first, all) here = (first, Fine-append ps p all here)

  abbrev Keeps : {A : Type 0} → Result A × Worker S → Type 0
  Keeps = Ensures (λ _ w. IsQuiet w) (λ _ w. IsQuiet w)

  always : {A : Type 0} (r : Result A × Worker S) → Keeps r → IsQuiet r.1
  always (ok a, w) k = k.on_ok a refl
  always (err e, w) k = k.on_err e refl

  on_process-Keeps :
      {A : Type 0} (m : Exec S A) (w : Worker S) → IsQuiet w → Keeps (on_process proc m w)
  on_process-Keeps m w q = record {
    on_ok = λ a e. record { waiting = q.waiting; made = q.made; answered = q.answered };
    on_err = λ x e. record { waiting = q.waiting; made = q.made; answered = q.answered };
  }

  finish-null : (p : AsyncCallParams) → p.result ≡ ffi_ok → finish_async proc p ≡ none
  unfolding finish_async
  finish-null p h = rw ((==_iff p.result ffi_ok).1 h) refl

  Fine-split :
      (before : List AsyncCallParams) (p : AsyncCallParams) (after : List AsyncCallParams)
      → Fine (before ++ p ∷ after)
      → (p.result ≡ ffi_ok) × Fine (before ++ after)
  Fine-split [] p after (here, all) = (here, all)
  Fine-split (q ∷ before) p after (first, all) =
      let (here, rest) = Fine-split before p after all in (here, (first, rest))

  caught-result : (p : AsyncCallParams) (e : Option String) → (caught proc p e).result ≡ p.result
  caught-result p none = refl
  caught-result p (some message) = refl

  request-IsQuiet :
      (args : List Value) (w : Worker S) → IsQuiet w → IsQuiet (ffi_call_async proc args w).1
  unfolding ffi_call_async
  request-IsQuiet args w q = always (ffi_call_async proc args w) (
      Ensures-check (four_buffers proc args) _ _ w
        (λ buffers.
          Ensures-check (is_function (arg args 4)) _ _ w
            (λ callable. data_of 0 _ w q λ cif w1 q1. data_of 1 _ w1 q1 λ fn w2 q2.
              data_of 2 _ w2 q2 λ res w3 q3. data_of 3 _ w3 q3 λ argv w4 q4.
                Ensures-pure tt _ (record {
                  waiting = Fine-append w4.queued _ q4.waiting refl;
                  made = q4.made;
                  answered = q4.answered;
                }))
            (λ other. q))
        (λ other. q))
    where
      data_of :
          (i : ℕ) (f : ℕ → Exec (Worker S) Unit) (w : Worker S)
          → IsQuiet w
          → ((a : ℕ) (t : Worker S) → IsQuiet t → Keeps (f a t))
          → Keeps ((on_process proc (proc.buffer_data (arg args i)) >>= f) w)
      data_of i f w q k =
          Ensures-bind {Q = λ _ t. IsQuiet t} (on_process proc (proc.buffer_data (arg args i))) f w
            (on_process-Keeps (proc.buffer_data (arg args i)) w q) k

  Reach-IsQuiet : {w : Worker S} → Reach proc w → IsQuiet w
  unfolding run_work async_ffi_call complete_work
  Reach-IsQuiet (start s) = record { waiting = tt; made = tt; answered = tt }
  Reach-IsQuiet (request {w} args r) = request-IsQuiet args w (Reach-IsQuiet r)
  Reach-IsQuiet (work {w} before p after r split) =
      let q = Reach-IsQuiet r in
      let (here, rest) = Fine-split before p after (subst Fine split q.waiting) in
      record {
        waiting = rest;
        made = Fine-append w.finished _ q.made (caught-result p _ ∙ here);
        answered = q.answered;
      }
  Reach-IsQuiet (complete {w} before p after r split) =
      let q = Reach-IsQuiet r in
      let (here, rest) = Fine-split before p after (subst Fine split q.made) in
      record { waiting = q.waiting; made = rest; answered = (finish-null p here, q.answered) }

  -- Whatever exceptions the calls throw on the thread pool: in every reachable state, no callback of an
  -- asynchronous call has been given an error.
  pub errors_lost :
      (w : Worker S) → Reach proc w → All (λ (c : Value × Option String). c.1 ≡ none) w.called
  errors_lost w r = (Reach-IsQuiet r).answered
