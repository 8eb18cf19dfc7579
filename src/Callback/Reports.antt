-- ===== src/Callback/Reports.antt =====
-- src/callback_info.cc: the errors of callbacks.
use node_ffi_napi.Prelude.{
  ℕ, ◌≡◌, refl, sym, ap, ◌∙◌, inl, inr, Option, Option-cases, Bool-cases, none, some, List, [], ◌∷◌,
  ◌++◌, true, false, if◌then◌else◌,
}
use node_ffi_napi.Effect.{Exn, collected, Result, ok, err}
use node_ffi_napi.Types.{Ref}
use mathlib.Core.List.{append_assoc}
use node_ffi_napi.Callback.{
  Memory, Func, CallbackInfo, Env, is_undefined, is_falsy, is_truthy, caught, run_function, invoke,
  after_call, report_error, dispatch_to_v8, run_queue,
}

module _ {S V : Type 0} (ref : Ref) (mem : Memory S V) where
  -- what a call throws in JavaScript, or for want of its function, and the native state after it
  abbrev pub outcome : CallbackInfo S V → Option (Func S V) → ℕ → ℕ → S → Result {0} Unit × S
  outcome info none retval params s = (err collected, s)
  outcome info (some func) retval params s =
      run_function ref mem info.arg_types info.ret_type func retval params s

  -- what the event loop is given of it: every error that is truthy
  abbrev pub truthy_error : Result {0} Unit → List Exn
  truthy_error (ok u) = []
  truthy_error (err e) = if is_truthy e then e ∷ [] else []

  -- what the main thread throws: every error but undefined
  abbrev pub not_undefined : Result {0} Unit → Result {0} Unit
  not_undefined (ok u) = ok u
  not_undefined (err e) = if is_undefined e then ok tt else err e

  -- The truthy errors of the calls, one after the other, the last first, and the native state.
  abbrev pub errors_of : List (CallbackInfo S V × ℕ × ℕ) → S → List Exn × S
  errors_of [] s = ([], s)
  errors_of ((info, retval, params) ∷ queue) s =
      let (r, t) = outcome info info.function retval params s in
      let (es, u) = errors_of queue t in (es ++ truthy_error r, u)

  reported :
      (e : Exn) (t : Env S)
      → report_error ref mem e t ≡ (ok tt, record t { reports = truthy_error (err e) ++ t.reports })
  reported e t = elim (Bool-cases (is_truthy e)) [
    | inl truthy ↦ rw truthy refl
    | inr falsy ↦ rw falsy refl
  ]

  -- a result on its way to the event loop
  after_dispatched :
      (x : Result {0} Unit × S) (s : Env S)
      → after_call ref mem true (caught ref mem x).0 (record s { native = (caught ref mem x).1 })
        ≡ (ok tt, record { native = x.1; reports = truthy_error x.0 ++ s.reports })
  after_dispatched (ok u, t) s = refl
  after_dispatched (err e, t) s = elim (Bool-cases (is_undefined e)) [
    | inl undefined ↦ rw undefined refl
    | inr other ↦ rw other (elim (Bool-cases (is_falsy e)) [
      | inl falsy ↦ rw (other, falsy) refl
      | inr truthy ↦ rw (other, truthy) refl
    ])
  ]

  -- and on its way to the caller on the main thread
  after_direct :
      (x : Result {0} Unit × S) (s : Env S)
      → after_call ref mem false (caught ref mem x).0 (record s { native = (caught ref mem x).1 })
        ≡ (not_undefined x.0, record s { native = x.1 })
  after_direct (ok u, t) s = refl
  after_direct (err e, t) s = elim (Bool-cases (is_undefined e)) [
    | inl undefined ↦ rw undefined refl
    | inr other ↦ rw other refl
  ]

  module _ (info : CallbackInfo S V) (retval params : ℕ) (s : Env S) where
    abbrev pub result : Result {0} Unit × S
    result = outcome info info.function retval params s.native

    dispatched :
        dispatch_to_v8 ref mem true info retval params s
        ≡ (ok tt, record { native = result.1; reports = truthy_error result.0 ++ s.reports })
    unfolding dispatch_to_v8 invoke
    dispatched = elim (Option-cases info.function) [
      | inl gone ↦ rw gone refl
      | inr (func, alive) ↦
          rw alive (after_dispatched (outcome info (some func) retval params s.native) s)
    ]

    -- A call on the main thread throws the error of the JavaScript function, or of its absence, but for
    -- undefined, and reports nothing.
    direct :
        dispatch_to_v8 ref mem false info retval params s
        ≡ (not_undefined result.0, record s { native = result.1 })
    unfolding dispatch_to_v8 invoke
    direct = elim (Option-cases info.function) [
      | inl gone ↦ rw gone refl
      | inr (func, alive) ↦
          rw alive (after_direct (outcome info (some func) retval params s.native) s)
    ]

  -- The queued calls from other threads are all made, in their order, whatever their functions throw, and
  -- never throw; the event loop is given each error that is truthy, of the JavaScript functions or of their
  -- absence, in the order of the calls, and no other.
  pub errors_reported :
      (queue : List (CallbackInfo S V × ℕ × ℕ)) (s : Env S)
      → run_queue ref mem queue s ≡ (
        ok tt,
        record {
          native = (errors_of queue s.native).1;
          reports = (errors_of queue s.native).0 ++ s.reports;
        },
      )
  unfolding run_queue
  errors_reported [] s = refl
  errors_reported ((info, retval, params) ∷ queue) s = rw (dispatched info retval params s) (
      errors_reported queue (record {
        native = (result info retval params s).1;
        reports = truthy_error (result info retval params s).0 ++ s.reports;
      })
      ∙ ap
          (λ l. (
            ok tt,
            record { native = (errors_of queue (result info retval params s).1).1; reports = l },
          ))
          (sym (append_assoc (errors_of queue (result info retval params s).1).0 _ s.reports)))
