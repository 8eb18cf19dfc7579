-- ===== src/Library/Awaited.antt =====
-- lib/library.js with lib/_foreign_function.js: a call of an asynchronous function of a library.
use node_ffi_napi.Prelude.{
  ℕ, String, suc, ◌+◌, ◌≡◌, ◌≢◌, ◌∙◌, ◌<◌, refl, Option, some, List, [], ◌∷◌, true, false, length,
}
use node_ffi_napi.Effect.{ok}
use node_ffi_napi.Types.{Ref}
use node_ffi_napi.Types.Results.{CoerceLaws}
use node_ffi_napi.Cif.{Libffi}
use node_ffi_napi.Foreign.{Native, Loop}
use node_ffi_napi.Foreign.Marshal.{alloc_all}
use node_ffi_napi.Foreign.Calls.{call_marshals}
use node_ffi_napi.Foreign.Async.{Answers, call_async_returns}
use node_ffi_napi.Dynamic.{System}
use node_ffi_napi.Library.{
  opened, Info, async_of, varargs_of, async_function, Building, define_all, open_library, library,
}
use node_ffi_napi.Library.Returns.{IsCallable}
use node_ffi_napi.Library.Defined.{same_text_refl}
use node_ffi_napi.Library.Called.{symbol, c_call, defined}

module _ {S M V : Type 0} (sys : System S) (ref : Ref) (laws : CoerceLaws ref) (ffi : Libffi)
    (fuel long_size : ℕ) (nat : Native M V) where
  -- With the option async, and not varargs, `lib` has the asynchronous function of the symbol: a call of it
  -- with the right number of arguments, all of which can be allocated, and a callback is accepted, and
  -- the event loop, once it has run the work and its completion, has invoked the callback with the value that the
  -- C call of the address from `dlsym` on these arguments gives.
  pub library_calls_async :
      (links : ℕ) (platform : String) (rtld_now : ℕ) (path : Option (List ℕ)) (handle : ℕ)
      (func : List ℕ) (info : Info) (s : Building S) (p : ℕ) (u : S)
      (c : IsCallable sys ref laws ffi fuel long_size s.types info) (args : List V) (ps : List ℕ)
      (callback v : V) (l : Loop M V) (n k : M)
      → 0 < ffi.arg_size
      → varargs_of info.fopts ≡ false
      → async_of info.fopts ≡ true
      → p ≢ 0
      → sys.dlsym handle func s.dl.system ≡ (ok p, u)
      → (counted : length args ≡ length c.ts) (callable : nat.is_function callback ≡ true)
      → alloc_all ref nat (λ i. i + 1) c.ts args 0 l.native ≡ (ok ps, n)
      → c_call sys ref laws ffi fuel long_size nat func info s p c ps n ≡ (ok v, k)
      → ((library sys ref ffi
              (suc fuel)
              long_size
              links
              platform
              rtld_now
              (opened path handle)
              ((func, info) ∷ [])
              s).1.lib
            func
          ≡ some (async_function (symbol sys ref laws ffi fuel long_size nat func info s p c)))
        × Answers ref nat
            (symbol sys ref laws ffi fuel long_size nat func info s p c)
            args
            callback
            l
            counted
            callable
            (ok v)
            k
  unfolding library open_library define_all
  library_calls_async links platform rtld_now path handle func info s p u c args ps callback v l n k
        wide fixed async there exported counted callable allocated result =
      (
        rw
            (
              defined sys ref laws ffi fuel long_size nat func info s p handle path u c wide fixed
                  there exported,
              async,
              same_text_refl func,
            )
            refl,
        call_async_returns ref nat (symbol sys ref laws ffi fuel long_size nat func info s p c) args
            callback l counted callable v k
            ((call_marshals ref nat (symbol sys ref laws ffi fuel long_size nat func info s p c)
                args ps l.native n counted allocated).0
              ∙ result),
      )
