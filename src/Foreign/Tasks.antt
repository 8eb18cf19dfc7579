-- ===== src/Foreign/Tasks.antt =====
-- lib/_foreign_function.js: asynchronous calls and the tasks of the event loop, in any order.
use node_ffi_napi.Prelude.{
  ℕ, ◌+◌, ◌*◌, ◌≡◌, ◌∙◌, refl, ap, inl, inr, Bool-cases, List, [], ◌∷◌, ◌++◌, length, arith, ◌==◌,
  Bool, map, if◌then◌else◌,
}
use node_ffi_napi.Effect.{expected_callback, Result, ok, err}
use node_ffi_napi.Effect.Laws.{Ensures, Ensures-pure, Ensures-throw, Ensures-check, Ensures-ok}
use node_ffi_napi.PointerArray
use node_ffi_napi.PointerArray.{PointerArray}
use node_ffi_napi.Types.{Ref}
use node_ffi_napi.Foreign.{
  Proxy, Native, Task, report, work, complete, Loop, Step, take, set_arguments, start_async,
  schedule, call_async, run_task, finish,
}
use node_ffi_napi.Foreign.Async.{split_last-append}

module _ {S V : Type 0} (ref : Ref) (nat : Native S V) where
  open nat use {deref, is_function}

  -- An asynchronous call that is accepted, or a task that is run.
  -- The callbacks of the accepted calls are kept, the last first.
  pub data Reach (init : S) : List V → Loop S V → Type 0 where
    start : Reach init [] (record { native = init; tasks = []; called = [] })
    accept :
        {cs : List V} {l m : Loop S V} (f : Proxy) (args : List V) (callback : V)
        → Reach init cs l
        → call_async ref nat f (args ++ callback ∷ []) l ≡ (ok tt, m)
        → Reach init (callback ∷ cs) m
    run : {cs : List V} {l m : Loop S V} → Reach init cs l → Step ref nat l m → Reach init cs m

  -- how many of these callbacks satisfy a test
  abbrev pub count : (V → Bool) → List V → ℕ
  count is [] = 0
  count is (c ∷ cs) = (if is c then 1 else 0) + count is cs

  count-append : (is : V → Bool) (cs ds : List V) → count is (cs ++ ds) ≡ count is cs + count is ds
  count-append is [] ds = omega arith
  count-append is (c ∷ cs) ds = omega (arith, count-append is cs ds)

  -- the callback that a task has still to invoke
  abbrev pub owed : Task V → V
  owed (report callback e) = callback
  owed (work f b callback) = callback
  owed (complete f bytes callback) = callback

  abbrev pub waiting : Loop S V → List V
  waiting l = map owed l.tasks

  abbrev pub answered : Loop S V → List V
  answered l = map (λ (a : V × Result V). a.0) l.called

  waiting-append : (ts us : List (Task V)) → map owed (ts ++ us) ≡ map owed ts ++ map owed us
  waiting-append [] us = refl
  waiting-append (t ∷ ts) us = ap (λ cs. owed t ∷ cs) (waiting-append ts us)

  -- reading the result never throws
  pub record DerefReturns : Type 0 where
    pub value : (type : ℕ) (bytes : List ℕ) (s : S) → (v : V) × ((deref type bytes s).0 ≡ ok v)

  module _ (is : V → Bool) where
    -- the calls whose callbacks pass the test: those that wait and those that were answered
    abbrev total : Loop S V → ℕ
    total l = count is (waiting l) + count is (answered l)

    count-tasks :
        (ts us : List (Task V))
        → count is (map owed (ts ++ us)) ≡ count is (map owed ts) + count is (map owed us)
    count-tasks ts us =
        ap (count is) (waiting-append ts us) ∙ count-append is (map owed ts) (map owed us)

    total-schedule :
        (f : Proxy) (callback : V) (r : Result (PointerArray ℕ)) (l : Loop S V)
        → total (schedule ref nat f callback r l) ≡ total l + (if is callback then 1 else 0)
    total-schedule f callback (ok b) l = omega (arith, count-tasks l.tasks (work f b callback ∷ []))
    total-schedule f callback (err e) l =
        omega (arith, count-tasks l.tasks (report callback e ∷ []))

    abbrev Counts : V → Loop S V → Result {0} Unit × Loop S V → Type 0
    Counts callback l =
        Ensures (λ _ m. total m ≡ total l + (if is callback then 1 else 0)) (λ _ _. Unit)

    start_async-Counts :
        (f : Proxy) (args : List V) (callback : V) (l : Loop S V)
        → Counts callback l (start_async ref nat f args callback l)
    unfolding start_async
    start_async-Counts f args callback l = elim (Bool-cases (is_function callback)) [
      | inl callable ↦ rw callable (
          let (r, s) =
            set_arguments ref nat (λ i. i) f.arg_types args 0
              (PointerArray.alloc (length f.arg_types * ref.pointer_size)) l.native in
          Ensures-pure tt _ (total-schedule f callback r (record l { native = s })))
      | inr other ↦ rw other (Ensures-throw (expected_callback (length args)) l tt)
    ]

    call_async-Counts :
        (f : Proxy) (args : List V) (callback : V) (l : Loop S V)
        → Counts callback l (call_async ref nat f (args ++ callback ∷ []) l)
    unfolding call_async
    call_async-Counts f [] callback l =
        Ensures-check (1 == length f.arg_types + 1) _ _ l
          (λ counted. start_async-Counts f [] callback l) (λ wrong. tt)
    call_async-Counts f (x ∷ xs) callback l =
        Ensures-check (length (x ∷ xs ++ callback ∷ []) == length f.arg_types + 1) _ _ l
          (λ counted.
            rw (split_last-append ref nat f callback x xs)
              (start_async-Counts f (x ∷ xs) callback l))
          (λ wrong. tt)

    total-finish :
        (callback : V) (r : Result V × S) (l : Loop S V) (v : V)
        → r.0 ≡ ok v
        → total (finish ref nat callback r l) ≡ total l + (if is callback then 1 else 0)
    total-finish callback (ok w, s) l v e = omega arith
    total-finish callback (err x, s) l v e = cc

    -- Running a task leaves its callback answered, or with the completion.
    total-run_task :
        DerefReturns
        → (t : Task V) (l : Loop S V)
        → total (run_task ref nat t l) ≡ total l + (if is (owed t) then 1 else 0)
    unfolding run_task
    total-run_task h (report callback e) l = omega arith
    total-run_task h (work f b callback) l =
        let (bytes, thrown, s) = nat.ffi_call f.cif f.func_ptr f.result_size b l.native in
        omega (arith, count-tasks l.tasks (complete f bytes callback ∷ []))
    total-run_task h (complete f bytes callback) l =
        let (v, e) = h.value f.return_type bytes l.native in
        total-finish callback (deref f.return_type bytes l.native) l v e

    total-Step : DerefReturns → {l m : Loop S V} → Step ref nat l m → total m ≡ total l
    total-Step h (take before t after {l} e) =
        total-run_task h t (record l { tasks = before ++ after })
        ∙ omega (
          arith,
          ap (λ (ts : List (Task V)). count is (map owed ts)) e,
          count-tasks before after,
          count-tasks before (t ∷ after),
        )

  -- If reading a result never throws: after any calls and any order of tasks, and for any test of
  -- callbacks, as many accepted calls had a callback that passes it as tasks still wait to invoke such a
  -- callback and such callbacks were invoked, taken together. So no callback is invoked more often than
  -- it was given, and, once no task is left, each was invoked as often.
  pub answered_once :
      DerefReturns
      → (init : S) {cs : List V} {l : Loop S V} → Reach init cs l
      → (is : V → Bool) → count is (waiting l) + count is (answered l) ≡ count is cs
  answered_once h init start is = refl
  answered_once h init (accept {cs} {l} f args callback r e) is =
      Ensures-ok (call_async-Counts is f args callback l) e
      ∙ omega (arith, answered_once h init r is)
  answered_once h init (run r st) is = total-Step is h st ∙ answered_once h init r is
