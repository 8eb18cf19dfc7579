-- ===== src/FfiCalls.antt =====
-- src/ffi.cc: the native functions that check their arguments and call libffi.
pub mod Checks
pub mod Lost
use node_ffi_napi.Prelude.{
  ℕ, ◌≡◌, zero, suc, ◌%◌, String, Option, none, some, List, [], ◌∷◌, ◌++◌, Bool, true, false, not,
  ◌==◌, ◌&&◌, if◌then◌else◌, get_elem?,
}
use node_ffi_napi.Effect.{type_error, Result, ok, Exec, pure, throw, modify, ◌>>=◌, ◌>>◌, check}

-- A JavaScript value, as these functions tell them apart: a Buffer is the address of its data.
pub data Value : Type 0 where
  buffer : (address : ℕ) → Value
  function : (index : ℕ) → Value
  other : (index : ℕ) → Value

abbrev pub is_buffer : Value → Bool
is_buffer (buffer address) = true
is_buffer (function index) = false
is_buffer (other index) = false

abbrev pub is_function : Value → Bool
is_function (buffer address) = false
is_function (function index) = true
is_function (other index) = false

-- What these functions call, over the state `S` of the process: `ToNumber`, as the bits of the 32-bit
-- integer that it is cut to; `GetBufferData` of ref-napi, which is asked for the data of a value that may
-- be no Buffer; and libffi, whose call may throw an exception, with its message.
pub record Process (S : Type 0) : Type 0 where
  pub to_number : Value → Exec S ℕ
  pub buffer_data : Value → Exec S ℕ
  pub prep_cif : (cif abi nargs rtype atypes : ℕ) → S → ℕ × S
  pub prep_cif_var : (cif abi fargs targs rtype atypes : ℕ) → S → ℕ × S
  pub ffi_call : (cif fn res fnargs : ℕ) → S → Option String × S

-- `AsyncCallParams`; an error that was never set is the empty text.
pub record AsyncCallParams : Type 0 where
  pub cif : ℕ
  pub fn : ℕ
  pub res : ℕ
  pub argv : ℕ
  pub result : ℕ
  pub err : String
  pub callback : Value

-- The process, the calls that are queued for the thread pool, those that it has made, and the invocations of
-- callbacks with their argument, none for null, the last first.
pub record Worker (S : Type 0) : Type 0 where
  pub process : S
  pub queued : List AsyncCallParams
  pub finished : List AsyncCallParams
  pub called : List (Value × Option String)

-- `FFI_OK`
abbrev pub ffi_ok : ℕ
ffi_ok = 0

-- `args[i]`; `undefined` is the other value 0
abbrev pub arg : List Value → ℕ → Value
arg [] i = other 0
arg (a ∷ args) zero = a
arg (a ∷ args) (suc i) = arg args i

module _ {S : Type 0} (proc : Process S) where
  open proc use {to_number, buffer_data}

  -- `FFI::FFIPrepCif` after its checks
  unfoldable pub prep_data : List Value → Exec S ℕ
  prep_data args = do
    cif ← buffer_data (arg args 0)
    nargs ← to_number (arg args 1)
    rtype ← buffer_data (arg args 2)
    atypes ← buffer_data (arg args 3)
    abi ← to_number (arg args 4)
    λ s. let (status, t) = proc.prep_cif cif abi nargs rtype atypes s in (ok status, t)

  -- `FFI::FFIPrepCif`
  unfoldable pub ffi_prep_cif : List Value → Exec S ℕ
  ffi_prep_cif args = do
    check (is_buffer (arg args 0)) (type_error "prepCif(): Buffer required as cif arg")
    check (is_buffer (arg args 2)) (type_error "prepCif(): Buffer required as rtype arg")
    check (is_buffer (arg args 3)) (type_error "prepCif(): Buffer required as atypes arg")
    prep_data args

  -- `FFI::FFIPrepCifVar` after its checks
  unfoldable pub prep_var_data : List Value → Exec S ℕ
  prep_var_data args = do
    cif ← buffer_data (arg args 0)
    fargs ← to_number (arg args 1)
    targs ← to_number (arg args 2)
    rtype ← buffer_data (arg args 3)
    atypes ← buffer_data (arg args 4)
    abi ← to_number (arg args 5)
    λ s. let (status, t) = proc.prep_cif_var cif abi fargs targs rtype atypes s in (ok status, t)

  -- `FFI::FFIPrepCifVar`; the last check is of the argument that the second has checked
  unfoldable pub ffi_prep_cif_var : List Value → Exec S ℕ
  ffi_prep_cif_var args = do
    check (is_buffer (arg args 0)) (type_error "prepCifVar(): Buffer required as cif arg")
    check (is_buffer (arg args 3)) (type_error "prepCifVar(): Buffer required as rtype arg")
    check (is_buffer (arg args 3)) (type_error "prepCifVar(): Buffer required as atypes arg")
    prep_var_data args

  abbrev pub four_buffers : List Value → Bool
  four_buffers args =
      is_buffer (arg args 0)
      && (is_buffer (arg args 1) && (is_buffer (arg args 2) && is_buffer (arg args 3)))

  -- `FFI::FFICall`, for a call that throws no exception
  unfoldable pub ffi_call_now : List Value → Exec S Unit
  ffi_call_now args = do
    check (four_buffers args) (type_error "ffi_call() requires 4 Buffer arguments!")
    cif ← buffer_data (arg args 0)
    fn ← buffer_data (arg args 1)
    res ← buffer_data (arg args 2)
    fnargs ← buffer_data (arg args 3)
    λ s. (ok tt, (proc.ffi_call cif fn res fnargs s).1)

  abbrev pub on_process : {A : Type 0} → Exec S A → Exec (Worker S) A
  on_process m s = let (r, t) = m s.process in (r, record s { process = t })

  -- `FFI::FFICallAsync`
  unfoldable pub ffi_call_async : List Value → Exec (Worker S) Unit
  ffi_call_async args = do
    check (four_buffers args) (type_error "ffi_call_async() requires 4 Buffer arguments!")
    check (is_function (arg args 4)) (type_error "ffi_call_async() requires a function argument")
    cif ← on_process (buffer_data (arg args 0))
    fn ← on_process (buffer_data (arg args 1))
    res ← on_process (buffer_data (arg args 2))
    argv ← on_process (buffer_data (arg args 3))
    modify (λ s. record s {
      queued =
          s.queued
          ++ record {
            cif = cif;
            fn = fn;
            res = res;
            argv = argv;
            result = ffi_ok;
            err = "";
            callback = arg args 4;
          }
            ∷ [];
    })

  -- what an exception does to `p`
  abbrev pub caught : AsyncCallParams → Option String → AsyncCallParams
  caught p none = p
  caught p (some message) = record p { err = message }

  -- `FFI::AsyncFFICall`, on the thread pool
  unfoldable pub async_ffi_call : AsyncCallParams → S → AsyncCallParams × S
  async_ffi_call p s = let (e, t) = proc.ffi_call p.cif p.fn p.res p.argv s in (caught p e, t)

  -- the argument that `FFI::FinishAsyncFFICall` gives to the callback, none for null
  unfoldable pub finish_async : AsyncCallParams → Option String
  finish_async p = if p.result == ffi_ok then none else some p.err

  -- `FFI::AsyncFFICall` of one queued call
  unfoldable pub run_work : AsyncCallParams → Worker S → Worker S
  unfolding async_ffi_call
  run_work p w =
      let (q, t) = async_ffi_call p w.process in
      record w { process = t; finished = w.finished ++ q ∷ [] }

  -- `FFI::FinishAsyncFFICall` of one finished call
  unfoldable pub complete_work : AsyncCallParams → Worker S → Worker S
  unfolding finish_async
  complete_work p w = record w { called = (p.callback, finish_async p) ∷ w.called }

  -- Requests, and the work and the completion of any of them, in any order.
  pub data Reach : Worker S → Type 0 where
    start : (s : S) → Reach (record { process = s; queued = []; finished = []; called = [] })
    request : {w : Worker S} (args : List Value) → Reach w → Reach (ffi_call_async args w).1
    work :
        {w : Worker S} (before : List AsyncCallParams) (p : AsyncCallParams)
        (after : List AsyncCallParams)
        → Reach w
        → w.queued ≡ before ++ p ∷ after
        → Reach (run_work p (record w { queued = before ++ after }))
    complete :
        {w : Worker S} (before : List AsyncCallParams) (p : AsyncCallParams)
        (after : List AsyncCallParams)
        → Reach w
        → w.finished ≡ before ++ p ∷ after
        → Reach (complete_work p (record w { finished = before ++ after }))
