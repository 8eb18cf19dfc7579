-- ===== src/FfiCalls/Checks.antt =====
-- src/ffi.cc: the checks of `FFI::FFIPrepCif` and `FFI::FFIPrepCifVar`, and the two calls.
use node_ffi_napi.Prelude.{ℕ, ◌≡◌, refl, String, Option, List, [], ◌∷◌, ◌++◌, false}
use node_ffi_napi.Effect.{type_error, ok, err}
use node_ffi_napi.FfiCalls.{
  Value, buffer, function, is_buffer, Process, AsyncCallParams, Worker, ffi_ok, ffi_prep_cif,
  prep_var_data, ffi_prep_cif_var, ffi_call_now, ffi_call_async, async_ffi_call, run_work,
}

module _ {S : Type 0} (proc : Process S) where
  -- Of an array of argument types that is no Buffer, `FFIPrepCif` throws, and changes nothing;
  -- `FFIPrepCifVar` goes on and asks for its data.
  unchecked_types :
      (cif rtype : ℕ) (nargs fargs targs types abi : Value) (s : S)
      → is_buffer types ≡ false
      → (ffi_prep_cif proc (buffer cif ∷ nargs ∷ buffer rtype ∷ types ∷ abi ∷ []) s
          ≡ (err (type_error "prepCif(): Buffer required as atypes arg"), s))
        × (ffi_prep_cif_var proc (buffer cif ∷ fargs ∷ targs ∷ buffer rtype ∷ types ∷ abi ∷ []) s
            ≡ prep_var_data proc (buffer cif ∷ fargs ∷ targs ∷ buffer rtype ∷ types ∷ abi ∷ []) s)
  unfolding ffi_prep_cif ffi_prep_cif_var
  unchecked_types cif rtype nargs fargs targs types abi s no_buffer = (rw no_buffer refl, refl)

  -- After the Buffers were asked for their data, which is their address and changes nothing, the work of an
  -- asynchronous call leaves the process as the call itself does.
  work_is_call :
      (cif fn res argv : ℕ) (callback : ℕ) (s : S) (queued finished : List AsyncCallParams)
      (called : List (Value × Option String))
      → ((a : ℕ) (t : S) → proc.buffer_data (buffer a) t ≡ (ok a, t))
      → let args = buffer cif ∷ buffer fn ∷ buffer res ∷ buffer argv ∷ [] in
        let p : AsyncCallParams = record {
          cif = cif;
          fn = fn;
          res = res;
          argv = argv;
          result = ffi_ok;
          err = "";
          callback = function callback;
        } in
        let w : Worker S = record {
          process = s;
          queued = queued;
          finished = finished;
          called = called;
        } in
        (ffi_call_async proc (args ++ function callback ∷ []) w
          ≡ (ok tt, record w { queued = queued ++ p ∷ [] }))
        × (ffi_call_now proc args s ≡ (ok tt, (run_work proc p w).process))
  unfolding ffi_call_async ffi_call_now run_work async_ffi_call
  work_is_call cif fn res argv callback s queued finished called held = (
    rw (held cif s, held fn s, held res s, held argv s) refl,
    rw (held cif s, held fn s, held res s, held argv s) refl,
  )
