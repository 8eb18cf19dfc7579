-- ===== src/Callback.antt =====
-- lib/callback.js and `CallbackInfo` of src/callback_info.cc: a C function pointer that calls a JavaScript
-- function.
pub mod Reports
pub mod Round
pub mod Created
use node_ffi_napi.Prelude.{
  ℕ, ◌+◌, ◌*◌, Option, none, some, List, [], ◌∷◌, ◌++◌, Bool, true, false, not, ◌||◌, ◌==◌,
  if◌then◌else◌, length, update,
}
use node_ffi_napi.Effect.{
  Exn, assertion, setting_return, closure_refused, closure_status, collected, undefined_thrown,
  falsy_thrown, Result, ok, err, Exec, pure, throw, modify, ◌>>=◌, ◌>>◌, check,
}
use node_ffi_napi.Types.{Types, TypeArg, object, Ref}
use node_ffi_napi.Cif.{Libffi, Cif, is_given, cif}
use node_ffi_napi.Foreign.{coerce_all, objects}

-- What a callback does outside this code, over the state `S` of the process's memory and the values `V` of
-- JavaScript: `readPointer`, which gives the address of the Buffer that it returns, `deref` of a Buffer
-- at an address, and `ref.set` at an address.
pub record Memory (S V : Type 0) : Type 0 where
  pub read_pointer : (buffer offset size : ℕ) → Exec S ℕ
  pub deref_at : (type address : ℕ) → Exec S V
  pub set : (address : ℕ) → V → (type : ℕ) → Exec S Unit

-- A function of JavaScript
abbrev pub Func : Type 0 → Type 0 → Type 0
Func S V = List V → Exec S V

-- `callback_info`: what the closure was made with; the function is none once it has been collected.
pub record CallbackInfo (S V : Type 0) : Type 0 where
  pub cif : Cif
  pub ret_type : ℕ
  pub arg_types : List ℕ
  pub result_size : ℕ
  pub function : Option (Func S V)

abbrev pub is_undefined : Exn → Bool
is_undefined undefined_thrown = true
is_undefined _ = false

-- null, false, 0, NaN or ""
abbrev pub is_falsy : Exn → Bool
is_falsy falsy_thrown = true
is_falsy _ = false

abbrev pub is_truthy : Exn → Bool
is_truthy e = not (is_undefined e || is_falsy e)

-- The native state, and the errors that `process.nextTick` was given to throw, the last first.
pub record Env (S : Type 0) : Type 0 where
  pub native : S
  pub reports : List Exn

module _ {S V : Type 0} (ref : Ref) (mem : Memory S V) where
  open mem use {read_pointer, deref_at, set}

  -- The loop that reads the arguments.
  unfoldable pub read_args : List ℕ → ℕ → ℕ → Exec S (List V)
  read_args [] i params = pure []
  read_args (type ∷ types) i params = do
    arg_ptr ← read_pointer params (i * ref.pointer_size) (ref.obj type).size
    arg ← deref_at type arg_ptr
    args ← read_args types (i + 1) params
    pure (arg ∷ args)

  -- the `catch` around `ref.set`
  abbrev pub or_setting : Result {0} Unit × S → Result {0} Unit × S
  or_setting (ok u, s) = (ok u, s)
  or_setting (err e, s) = (err (setting_return e), s)

  -- what stands in the outer `try`
  unfoldable pub run_function : List ℕ → ℕ → Func S V → (retval params : ℕ) → Exec S Unit
  unfolding read_args
  run_function arg_types ret_type func retval params = do
    args ← read_args arg_types 0 params
    result ← func args
    λ s. or_setting (set retval result ret_type s)

  -- `catch (e) { return e; }`: what is returned to the closure, none for undefined
  abbrev pub caught : Result {0} Unit × S → Option Exn × S
  caught (ok u, s) = (none, s)
  caught (err e, s) = (if is_undefined e then none else some e, s)

  -- the function that `_Callback` is given
  unfoldable pub invoke : List ℕ → ℕ → Func S V → (retval params : ℕ) → S → Option Exn × S
  unfolding run_function
  invoke arg_types ret_type func retval params s =
      caught (run_function arg_types ret_type func retval params s)

  -- `errorReportCallback(err)`
  abbrev pub report_error : Exn → Exec (Env S) Unit
  report_error e =
      if is_truthy e then modify (λ s. record s { reports = e ∷ s.reports }) else pure tt

  -- an error on the way to C: reported, if the call came from another thread, or thrown, where the new
  -- Error has the text of the old
  abbrev pub fail : Bool → Exn → Exec (Env S) Unit
  fail true e = report_error e
  fail false e = throw e

  abbrev pub after_call : Bool → Option Exn → Exec (Env S) Unit
  after_call dispatched none = pure tt
  after_call dispatched (some e) = fail dispatched e

  abbrev pub call_function :
      Bool → CallbackInfo S V → (retval params : ℕ) → Option (Func S V) → Exec (Env S) Unit
  call_function dispatched info retval params none = fail dispatched collected
  call_function dispatched info retval params (some func) = λ s.
      let (e, t) = invoke info.arg_types info.ret_type func retval params s.native in
      after_call dispatched e (record s { native = t })

  -- `CallbackInfo::DispatchToV8`
  unfoldable pub dispatch_to_v8 : Bool → CallbackInfo S V → (retval params : ℕ) → Exec (Env S) Unit
  unfolding invoke
  dispatch_to_v8 dispatched info retval params =
      call_function dispatched info retval params info.function

  -- The loop of `CallbackInfo::WatcherCallback` over the queued invocations, each with its `callback_info`,
  -- `retval` and `parameters`.
  unfoldable pub run_queue : List (CallbackInfo S V × ℕ × ℕ) → Exec (Env S) Unit
  unfolding dispatch_to_v8
  run_queue [] = pure tt
  run_queue ((info, retval, params) ∷ queue) = do
    dispatch_to_v8 true info retval params
    run_queue queue

-- The last two arguments of `Callback`: the function may stand in the place of the ABI.
pub data Last (F : Type 0) : Type 0 where
  only : (func : F) → Last F  -- a function as the third argument
  both : (abi : Option ℕ) (func : Option F) → Last F  -- an ABI or undefined there

abbrev pub abi_of : {F : Type 0} → Last F → Option ℕ
abi_of (only func) = none
abi_of (both abi func) = abi

abbrev pub func_of : {F : Type 0} → Last F → Option F
func_of (only func) = some func
func_of (both abi func) = func

-- What changes when a callback is made: the types, and the closures that are alive, by their code address.
pub record Making (S V : Type 0) : Type 0 where
  pub types : Types
  pub closures : ℕ → Option (CallbackInfo S V)

-- libffi's closures: `ffi_closure_alloc` gives a code address, or fails, and `ffi_prep_closure_loc` a
-- status.
pub record Closures (S V : Type 0) : Type 0 where
  pub closure_alloc : (ℕ → Option (CallbackInfo S V)) → Option ℕ
  pub prep_closure : Cif → (code : ℕ) → ℕ

module _ {S V : Type 0} (ref : Ref) (ffi : Libffi) (clo : Closures S V) (fuel : ℕ) where
  abbrev pub on_types {ℓ} :
      {A : Type ℓ} → (Types → Result A × Types) → Making S V → Result A × Making S V
  on_types m s = let (r, t) = m s.types in (r, record s { types = t })

  abbrev pub store : CallbackInfo S V → Option ℕ → Exec (Making S V) ℕ
  store info none = throw closure_refused
  store info (some code) = do
    let status = clo.prep_closure info.cif code
    check (status == ffi.status_ok) (closure_status status)
    modify (λ s. record s { closures = update s.closures code (some info) })
    pure code

  -- `CallbackInfo::Callback`: the code address of the new closure
  unfoldable pub new_closure : CallbackInfo S V → Exec (Making S V) ℕ
  new_closure info s = store info (clo.closure_alloc s.closures) s

  abbrev pub with_function :
      TypeArg → List TypeArg → Option ℕ → Option (Func S V) → Exec (Making S V) ℕ
  with_function ret_type types abi none =
      throw (assertion "expected a function as the third argument")
  with_function ret_type types abi (some func) = do
    rtype ← on_types (ref.coerce_type ret_type)
    arg_types ← on_types (coerce_all ref types)
    c ← on_types (cif ref ffi fuel (object rtype) (some (objects arg_types)) abi)
    new_closure (record {
      cif = c;
      ret_type = rtype;
      arg_types = arg_types;
      result_size = (ref.obj rtype).size;
      function = some func;
    })

  -- `Callback(retType, argTypes, abi, func)`
  unfoldable pub callback : TypeArg → Option (List TypeArg) → Last (Func S V) → Exec (Making S V) ℕ
  unfolding new_closure
  callback ret_type none last = do
    check (is_given ret_type) (assertion "expected a return type object as the first argument")
    throw (assertion "expected an Array of arg type objects as the second argument")
  callback ret_type (some types) last = do
    check (is_given ret_type) (assertion "expected a return type object as the first argument")
    with_function ret_type types (abi_of last) (func_of last)
