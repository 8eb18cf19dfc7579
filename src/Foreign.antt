-- ===== src/Foreign.antt =====
-- lib/_foreign_function.js and lib/foreign_function.js: a JavaScript function that calls a C function,
-- and its asynchronous form.
pub mod Marshal
pub mod Calls
pub mod Async
pub mod Tasks
pub mod Made
pub mod Exact
pub mod Structs
use node_ffi_napi.Prelude.{
  ℕ, zero, suc, ◌+◌, ◌*◌, ◌≡◌, Option, none, some, List, [], ◌∷◌, ◌++◌, Bool, true, false, ◌==◌,
  leb, ltb, not, if◌then◌else◌, length,
}
use node_ffi_napi.Effect.{
  Exn, assertion, expected_arguments, expected_callback, setting_argument, Result, ok, err, Exec,
  pure, throw, gets, ◌>>=◌, ◌>>◌, check, modify,
}
use node_ffi_napi.PointerArray
use node_ffi_napi.PointerArray.{PointerArray}
use node_ffi_napi.Types.{Types, TypeArg, object, Ref}
use node_ffi_napi.Cif.{Libffi, Cif, is_given, cif}

-- What the proxy closes over: `cif`, `funcPtr`, `returnType`, `argTypes`, and `resultSize`.
pub record Proxy : Type 0 where
  pub cif : Cif
  pub func_ptr : ℕ
  pub return_type : ℕ
  pub arg_types : List ℕ
  pub result_size : ℕ

-- `_ForeignFunction(cif, funcPtr, returnType, argTypes)`; `long_size` is `ref.sizeof.long`
unfoldable pub make_proxy {ℓ} :
    {S : Type ℓ} → Ref → Libffi → ℕ → Cif → ℕ → ℕ → List ℕ → S → Result Proxy × S
make_proxy ref ffi long_size c func_ptr return_type arg_types s =
    let size = (ref.obj return_type).size in
    let result_size = if leb long_size size then size else ffi.arg_size in
    if ltb 0 result_size
    then (
      ok (record {
        cif = c;
        func_ptr = func_ptr;
        return_type = return_type;
        arg_types = arg_types;
        result_size = result_size;
      }),
      s,
    )
    else (err (assertion "resultSize > 0"), s)

-- What a call does outside this code, over the state `S` of the process's memory and the values `V`
-- of JavaScript: `ref.alloc` gives the address of the C value, libffi's `ffi_call` calls the function
-- and gives the bytes of the result Buffer, of the given size, with the exception that a callback has left, if
-- one has, and `deref` reads a Buffer as its type.
pub record Native (S V : Type 0) : Type 0 where
  pub alloc : (type : ℕ) → V → Exec S ℕ
  pub ffi_call : Cif → (func_ptr result_size : ℕ) → PointerArray ℕ → S → List ℕ × Option Exn × S
  pub deref : (type : ℕ) → List ℕ → Exec S V
  pub is_function : V → Bool

-- What the code has asked the event loop for: a `process.nextTick` of the callback with the error,
-- the work of a call on the thread pool, and, once that is done, the completion on the main thread,
-- with the bytes of the result.
pub data Task (V : Type 0) : Type 0 where
  report : (callback : V) (error : Exn) → Task V
  work : (proxy : Proxy) (args : PointerArray ℕ) (callback : V) → Task V
  complete : (proxy : Proxy) (result : List ℕ) (callback : V) → Task V

-- The native state, the tasks that wait, and the callbacks that were invoked, the last first.
pub record Loop (S V : Type 0) : Type 0 where
  pub native : S
  pub tasks : List (Task V)
  pub called : List (V × Result V)

module _ {S V : Type 0} (ref : Ref) (nat : Native S V) where
  open nat use {alloc, ffi_call, deref, is_function}

  -- The error of an argument; the code that catches it has the index `i` of the argument at hand.
  abbrev pub rethrow {ℓ} : {A : Type ℓ} → (ℕ → ℕ) → ℕ → Result A × S → Result A × S
  rethrow position i (ok a, s) = (ok a, s)
  rethrow position i (err e, s) = (err (setting_argument (position i) e), s)

  -- The loop `for (i = 0; i < numArgs; i++)` inside its `try`; `position` is the number that the
  -- `catch` puts in the message for the index.
  unfoldable pub set_arguments :
      (ℕ → ℕ) → List ℕ → List V → ℕ → PointerArray ℕ → Exec S (PointerArray ℕ)
  set_arguments position [] vals i buffer = pure buffer
  set_arguments position (type ∷ types) [] i buffer = pure buffer
  set_arguments position (type ∷ types) (val ∷ vals) i buffer = do
    ptr ← (λ s. rethrow position i (alloc type val s))
    set_arguments position types vals (i + 1)
        (PointerArray.write_pointer ptr (i * ref.pointer_size) buffer)

  -- what follows `bindings.ffi_call`: the exception of a callback goes on, or the result is read
  abbrev pub read_result : ℕ → List ℕ × Option Exn × S → Result V × S
  read_result type (bytes, none, s) = deref type bytes s
  read_result type (bytes, some e, s) = (err e, s)

  -- `proxy(...)`
  unfoldable pub call : Proxy → List V → Exec S V
  unfolding set_arguments
  call f args = do
    let num_args = length f.arg_types
    check (length args == num_args) (expected_arguments num_args (length args))
    args_list ←
        set_arguments (λ i. i + 1) f.arg_types args 0
          (PointerArray.alloc (num_args * ref.pointer_size))
    λ s. read_result f.return_type (ffi_call f.cif f.func_ptr f.result_size args_list s)

  -- the arguments but the last, and the last
  abbrev pub split_last : V → List V → List V × V
  split_last x [] = ([], x)
  split_last x (y ∷ ys) = let (init, last) = split_last y ys in (x ∷ init, last)

  abbrev pub enqueue : Task V → Loop S V → Loop S V
  enqueue t l = record l { tasks = l.tasks ++ t ∷ [] }

  -- what `proxy.async` does with the outcome of the loop over the arguments
  abbrev pub schedule : Proxy → V → Result (PointerArray ℕ) → Loop S V → Loop S V
  schedule f callback (ok args_list) = enqueue (work f args_list callback)
  schedule f callback (err e) = enqueue (report callback e)

  -- `proxy.async(..., callback)` from the test of the callback on
  unfoldable pub start_async : Proxy → List V → V → Exec (Loop S V) Unit
  start_async f args callback l =
      if not (is_function callback)
      then (err (expected_callback (length args)), l)
      else let (r, s) =
          set_arguments (λ i. i) f.arg_types args 0
            (PointerArray.alloc (length f.arg_types * ref.pointer_size)) l.native in
        (ok tt, schedule f callback r (record l { native = s }))

  -- `proxy.async(...)`
  unfoldable pub call_async : Proxy → List V → Exec (Loop S V) Unit
  unfolding start_async
  call_async f [] = throw (expected_arguments (length f.arg_types + 1) 0)
  call_async f (x ∷ xs) = do
    check (length (x ∷ xs) == length f.arg_types + 1)
        (expected_arguments (length f.arg_types + 1) (length (x ∷ xs)))
    let (args, callback) = split_last x xs
    start_async f args callback

  -- the function that `ffi_call_async` is given, once the work is done
  abbrev pub finish : V → Result V × S → Loop S V → Loop S V
  finish callback (ok v, s) l = record l { native = s; called = (callback, ok v) ∷ l.called }
  finish callback (err e, s) l = record l { native = s }

  -- One task. An exception that `deref` throws is thrown in the event loop, and the callback is not
  -- invoked.
  unfoldable pub run_task : Task V → Loop S V → Loop S V
  run_task (report callback e) l = record l { called = (callback, err e) ∷ l.called }
  run_task (work f args_list callback) l =
      let (bytes, thrown, s) = ffi_call f.cif f.func_ptr f.result_size args_list l.native in
      enqueue (complete f bytes callback) (record l { native = s })
  run_task (complete f bytes callback) l = finish callback (deref f.return_type bytes l.native) l

  -- The event loop and the thread pool take the tasks in any order: `before` and `after` are those
  -- around the one that is taken.
  pub data Step : Loop S V → Loop S V → Type 0 where
    take :
        (before : List (Task V)) (task : Task V) (after : List (Task V)) {l : Loop S V}
        → l.tasks ≡ before ++ task ∷ after
        → Step l (run_task task (record l { tasks = before ++ after }))

-- `argTypes.map(ref.coerceType)`
unfoldable pub coerce_all : Ref → List TypeArg → Exec Types (List ℕ)
coerce_all ref [] = pure []
coerce_all ref (a ∷ types) = do t ← ref.coerce_type a; ts ← coerce_all ref types; pure (t ∷ ts)

abbrev pub objects : List ℕ → List TypeArg
objects [] = []
objects (t ∷ ts) = object t ∷ objects ts

-- `ForeignFunction(funcPtr, returnType, argTypes, abi)`; `func_ptr` is none where it is no Buffer,
-- `arg_types` where it is no Array.
module _ (ref : Ref) (ffi : Libffi) (fuel long_size : ℕ) where
  unfoldable pub foreign_function :
      Option ℕ → TypeArg → Option (List TypeArg) → Option ℕ → Exec Types Proxy
  unfolding coerce_all
  foreign_function none return_type arg_types abi =
      throw (assertion "expected Buffer as first argument")
  foreign_function (some func_ptr) return_type none abi = do
    check (is_given return_type) (assertion "expected a return type object as the second argument")
    throw (assertion "expected Array of arg type objects as the third argument")
  foreign_function (some func_ptr) return_type (some arg_types) abi = do
    check (is_given return_type) (assertion "expected a return type object as the second argument")
    rtype ← ref.coerce_type return_type
    types ← coerce_all ref arg_types
    c ← cif ref ffi fuel (object rtype) (some (objects types)) abi
    make_proxy ref ffi long_size c func_ptr rtype types
