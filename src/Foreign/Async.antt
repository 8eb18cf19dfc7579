-- ===== src/Foreign/Async.antt =====
-- lib/_foreign_function.js: the asynchronous form of a call and the call itself.
use mathlib.Core.List.{append-nil}
use node_ffi_napi.Prelude.{
  ℕ, ◌+◌, ◌*◌, ◌≡◌, ◌∙◌, refl, sym, ap, subst, true, Option, none, some, List, [], ◌∷◌, ◌++◌,
  length, length-append, ==_iff, arith,
}
use node_ffi_napi.Effect.{Exn, setting_argument, Result, ok, err}
use node_ffi_napi.PointerArray
use node_ffi_napi.PointerArray.{PointerArray, placed, Holds, Holds-placed}
use node_ffi_napi.Types.{Ref}
use node_ffi_napi.Foreign.{
  Proxy, Native, read_result, Task, report, work, complete, Loop, Step, take, set_arguments, call,
  split_last, start_async, call_async, run_task, finish, schedule,
}
use node_ffi_napi.Foreign.Calls.{invoke, marshalled, call-marshalled}
use node_ffi_napi.Foreign.Marshal.{
  SameButNumber, returned, refused, set_arguments-SameButNumber, FailsAt, first_fails,
}

module _ {S V : Type 0} (ref : Ref) (nat : Native S V) (f : Proxy) where
  open nat use {ffi_call, deref, is_function}

  pub split_last-append :
      (x y : V) (ys : List V) → split_last ref nat y (ys ++ x ∷ []) ≡ (y ∷ ys, x)
  split_last-append x y [] = refl
  split_last-append x y (z ∷ ys) =
      ap (λ (p : List V × V). (y ∷ p.0, p.1)) (split_last-append x z ys)

  call_async-start :
      (args : List V) (callback : V) (l : Loop S V)
      → length args ≡ length f.arg_types
      → call_async ref nat f (args ++ callback ∷ []) l ≡ start_async ref nat f args callback l
  unfolding call_async
  call_async-start [] callback l h = rw ((==_iff 1 (length f.arg_types + 1)).1 (omega arith))
  call_async-start (y ∷ ys) callback l h = rw (
    (==_iff (length (y ∷ ys ++ callback ∷ [])) (length f.arg_types + 1)).1
        (omega (arith, length-append ys (callback ∷ []))),
    split_last-append callback y ys,
  )

  -- The tasks run one after the other, in some order.
  pub data Runs (l : Loop S V) : Loop S V → Type 0 where
    done : Runs l l
    next : {m n : Loop S V} → Runs l m → Step ref nat m n → Runs l n

  -- The task that was queued last runs.
  run_last :
      (ts : List (Task V)) (t : Task V) {k : Loop S V} (m : Loop S V)
      → m.tasks ≡ ts ++ t ∷ []
      → Runs k m
      → Runs k (run_task ref nat t (record m { tasks = ts }))
  run_last ts t {k} m e r =
      subst (λ us. Runs k (run_task ref nat t (record m { tasks = us }))) (append-nil ts)
        (next r (take ts t [] e))

  module _ (args : List V) (callback : V) (l : Loop S V)
      (counted : length args ≡ length f.arg_types) (callable : is_function callback ≡ true) where
    -- the array before the loop over the arguments
    abbrev pub empty_array : PointerArray ℕ
    empty_array = PointerArray.alloc (length f.arg_types * ref.pointer_size)

    abbrev pub sync_array : Result (PointerArray ℕ) × S
    sync_array = set_arguments ref nat (λ i. i + 1) f.arg_types args 0 empty_array l.native

    abbrev async_array : Result (PointerArray ℕ) × S
    async_array = set_arguments ref nat (λ i. i) f.arg_types args 0 empty_array l.native

    -- `proxy.async` accepts the call, and leaves this behind.
    started :
        (r : Result (PointerArray ℕ)) (s : S)
        → async_array ≡ (r, s)
        → call_async ref nat f (args ++ callback ∷ []) l
          ≡ (ok tt, schedule ref nat f callback r (record l { native = s }))
    started r s h =
        call_async-start args callback l counted ∙ (unfold start_async in rw (callable, h))

    -- the state once the callback was invoked with the outcome, and nothing is left of the call
    abbrev pub answered : Result V → S → Loop S V
    answered r s = record l { native = s; called = (callback, r) ∷ l.called }

    abbrev pub Answers : Result V → S → Type 0
    Answers r s =
        ((call_async ref nat f (args ++ callback ∷ []) l).0 ≡ ok tt)
        × Runs (call_async ref nat f (args ++ callback ∷ []) l).1 (answered r s)

    was_read :
        (x : List ℕ × Option Exn × S) (v : V) (s : S)
        → read_result ref nat f.return_type x ≡ (ok v, s)
        → deref f.return_type x.0 x.2 ≡ (ok v, s)
    was_read (bytes, none, t) v s h = h
    was_read (bytes, some e, t) v s h = cc (ap (λ (r : Result V × S). r.0) h)

    -- Two tasks: the work, and its completion.
    work-Runs :
        (b : PointerArray ℕ) (t s : S) (v : V)
        → invoke ref nat f b t ≡ (ok v, s)
        → Runs (schedule ref nat f callback (ok b) (record l { native = t })) (answered (ok v) s)
    unfolding run_task
    work-Runs b t s v h =
        let (bytes, thrown, u) = ffi_call f.cif f.func_ptr f.result_size b t in
        let read : deref f.return_type bytes u ≡ (ok v, s) =
          was_read (ffi_call f.cif f.func_ptr f.result_size b t) v s h in
        rw (← ap (λ r. finish ref nat callback r (record l { native = u })) read) (
          run_last l.tasks (complete f bytes callback) _ refl
            (run_last l.tasks (work f b callback) _ refl done))

    report-Runs :
        (e : Exn) (s : S)
        → Runs (schedule ref nat f callback (err e) (record l { native = s })) (answered (err e) s)
    unfolding run_task
    report-Runs e s = run_last l.tasks (report callback e) _ refl done

    at_start :
        (r : Result (PointerArray ℕ)) (t s : S) (q : Result V)
        → async_array ≡ (r, t)
        → Runs (schedule ref nat f callback r (record l { native = t })) (answered q s)
        → Answers q s
    at_start r t s q h runs =
        let e = started r t h in
        (
          ap (λ (x : Result Unit × Loop S V). x.0) e,
          subst (λ (x : Result Unit × Loop S V). Runs x.1 (answered q s)) (sym e) runs,
        )

    returns_like :
        SameButNumber sync_array async_array
        → (v : V) (s : S) → marshalled ref nat f sync_array ≡ (ok v, s)
        → Answers (ok v) s
    returns_like (returned b t h h') v s e =
        at_start (ok b) t s (ok v) h' (work-Runs b t s v (sym (ap (marshalled ref nat f) h) ∙ e))
    returns_like (refused j x t h h') v s e =
        cc (ap (λ (r : Result V × S). r.0) (sym (ap (marshalled ref nat f) h) ∙ e))

    -- Where the call returns, the asynchronous call is accepted, and the event loop, once it has run
    -- the work and its completion, has invoked the callback with the same value, and is in the
    -- same native state.
    pub call_async_returns :
        (v : V) (s : S) → call ref nat f args l.native ≡ (ok v, s) → Answers (ok v) s
    call_async_returns v s h =
        returns_like (set_arguments-SameButNumber ref nat f.arg_types args empty_array l.native) v s
          (sym (call-marshalled ref nat f args l.native counted) ∙ h)

    -- the outcomes of the call and of the asynchronous call when the argument at `j`, counted from 0,
    -- cannot be converted
    abbrev pub Misnumbered : ℕ → Exn → S → Type 0
    Misnumbered j e s =
        (call ref nat f args l.native ≡ (err (setting_argument (j + 1) e), s))
        × Answers (err (setting_argument j e)) s

    -- Where the first argument that cannot be converted is the one at `j`, counted from 0, the call throws
    -- its error with the number j + 1; the asynchronous call hands its callback the same error with the
    -- number j.
    pub call_async_misnumbers :
        (j : ℕ) (e : Exn) (s : S)
        → FailsAt ref nat f.arg_types args l.native j e s
        → Misnumbered j e s
    call_async_misnumbers j e s failing = (
      call-marshalled ref nat f args l.native counted
          ∙ ap (marshalled ref nat f) (
              first_fails ref nat (λ i. i + 1) f.arg_types args empty_array l.native j e s failing),
      at_start (err (setting_argument j e)) s s (err (setting_argument j e))
          (first_fails ref nat (λ i. i) f.arg_types args empty_array l.native j e s failing)
          (report-Runs (setting_argument j e) s),
    )
