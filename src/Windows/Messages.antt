-- ===== src/Windows/Messages.antt =====
-- src/win32-dlfcn.cc: the number of the last error, and the message about it.
use node_ffi_napi.Prelude.{
  ℕ, ◌+◌, ◌*◌, ◌^◌, ◌≤◌, ◌<◌, ◌≡◌, ◌≢◌, refl, inl, inr, Bool, true, false, Bool-cases, Option, none,
  some, List, ◌++◌, ◌==◌, ==_iff, if◌then◌else◌, length, arith,
}
use node_ffi_napi.Effect.{Result, ok, err, Exec, pure, modify, continue, ◌>>=◌, ◌>>◌}
use node_ffi_napi.Windows.Digits.{number, number-decimal, decimal-length}
use node_ffi_napi.Windows.{
  Win32, Windows, decimal, message_start, message, on_world, keep_error, convert, allocate,
  utf8_to_wchar, load, dlopen, dlclose, dlsym, dlerror,
}

module _ {W : Type 0} (api : Win32 W) where
  -- the last error is a DWORD
  abbrev IsSmall : Windows W → Type 0
  IsSmall s = s.last_error < 2 ^ 32

  abbrev Keeps : {A : Type 0} → Exec (Windows W) A → Type 0
  Keeps m = (s : Windows W) → IsSmall s → IsSmall (m s).1

  Keeps-continue :
      {A B : Type 0} (r : Result A) (f : A → Exec (Windows W) B)
      → ((a : A) → Keeps (f a))
      → (s : Windows W) → IsSmall s
      → IsSmall (continue r f s).1
  Keeps-continue (ok a) f k s h = k a s h
  Keeps-continue (err e) f k s h = h

  Keeps-bind :
      {A B : Type 0} (m : Exec (Windows W) A) (f : A → Exec (Windows W) B)
      → Keeps m
      → ((a : A) → Keeps (f a))
      → Keeps (m >>= f)
  Keeps-bind m f k l s h = Keeps-continue (m s).0 f l (m s).1 (k s h)

  Keeps-if :
      {A : Type 0} (b : Bool) (m n : Exec (Windows W) A)
      → Keeps m
      → Keeps n
      → Keeps (if b then m else n)
  Keeps-if true m n k l = k
  Keeps-if false m n k l = l

  -- The calls of the four functions, with whatever else happens to the system between them.
  pub data Reach : Windows W → Type 0 where
    start : (w : W) → Reach (record { world = w; last_error = 0 })
    others : {s : Windows W} (w : W) → Reach s → Reach (record s { world = w })
    opens :
        {s : Windows W} (path : Option (List ℕ)) (mode : ℕ)
        → Reach s
        → Reach (dlopen api path mode s).1
    closes : {s : Windows W} (handle : ℕ) → Reach s → Reach (dlclose api handle s).1
    looks :
        {s : Windows W} (handle : ℕ) (name : List ℕ) → Reach s → Reach (dlsym api handle name s).1
    asks : {s : Windows W} → Reach s → Reach (dlerror api s).1

  -- What `dlerror` does.
  pub data Reports (s : Windows W) (r : Result (Option (List ℕ)) × Windows W) : Type 0 where
    silent : s.last_error ≡ 0 → r ≡ (ok none, s) → Reports s r
    reported :
        (digits : List ℕ)
        → s.last_error ≢ 0
        → number 0 digits ≡ s.last_error
        → r ≡ (ok (some (message_start ++ digits)), record s { last_error = 0 })
        → length (message_start ++ digits) + 1 ≤ 64
        → dlerror api r.1 ≡ (ok none, r.1)
        → Reports s r

  module _ (dword : (w : W) → (api.get_last_error w).0 < 2 ^ 32) where
    keep_error-Keeps : Keeps (keep_error api)
    unfolding keep_error
    keep_error-Keeps s h = dword s.world

    load-Keeps : (name : Option (List ℕ)) → Keeps (load api name)
    unfolding load
    load-Keeps none s h =
        Keeps-bind {B = ℕ} (keep_error api) (λ _. pure 0) keep_error-Keeps (λ _ t k. k) s h
    load-Keeps (some name) s h =
        let mode = (api.get_error_mode s.world).0 in
        let opened =
          api.load_library name
            (api.set_error_mode (api.fail_critical mode) (api.get_error_mode s.world).1) in
        Keeps-bind (if opened.0 == 0 then keep_error api else pure tt)
          (λ _. on_world api (λ w. (tt, api.set_error_mode mode w)) >> pure opened.0)
          (Keeps-if (opened.0 == 0) (keep_error api) (pure tt) keep_error-Keeps (λ t k. k))
          (λ _ t k. k) (record s { world = opened.1 }) h

    convert-Keeps : (input : List ℕ) (size : ℕ) → Keeps (convert api input size)
    unfolding convert
    convert-Keeps input size s h = h

    allocate-Keeps : (input : List ℕ) (size : ℕ) → Keeps (allocate api input size)
    unfolding allocate
    allocate-Keeps input size s h =
        let memory = api.malloc (size * api.wchar_size) s.world in
        Keeps-if memory.0 (convert api input size)
          (on_world api (λ w. (tt, api.set_last_error api.error_out_of_memory w)) >> pure none)
          (convert-Keeps input size) (λ t k. k) (record s { world = memory.1 }) h

    utf8_to_wchar-Keeps : (input : List ℕ) → Keeps (utf8_to_wchar api input)
    unfolding utf8_to_wchar
    utf8_to_wchar-Keeps input s h =
        let size = api.wide_size input s.world in
        Keeps-if (size.0 == 0) (pure none) (allocate api input size.0) (λ t k. k)
          (allocate-Keeps input size.0) (record s { world = size.1 }) h

    dlopen-Keeps : (path : Option (List ℕ)) (mode : ℕ) → Keeps (dlopen api path mode)
    unfolding dlopen
    dlopen-Keeps none mode s h = h
    dlopen-Keeps (some file) mode s h =
        Keeps-bind (utf8_to_wchar api file) (load api) (utf8_to_wchar-Keeps file) load-Keeps s h

    dlclose-Keeps : (handle : ℕ) → Keeps (dlclose api handle)
    unfolding dlclose
    dlclose-Keeps handle s h =
        let own = api.get_module_handle s.world in
        Keeps-bind
          (if handle == own.0
            then pure 0
            else on_world api (api.free_library handle) >>= λ freed. pure (if freed then 0 else 1))
          (λ rc. (if rc == 0 then pure tt else keep_error api) >> pure rc)
          (Keeps-if (handle == own.0) (pure 0)
            (on_world api (api.free_library handle) >>= λ freed. pure (if freed then 0 else 1))
            (λ t k. k) (λ t k. k))
          (λ rc.
            Keeps-bind (if rc == 0 then pure tt else keep_error api) (λ _. pure rc)
              (Keeps-if (rc == 0) (pure tt) (keep_error api) (λ t k. k) keep_error-Keeps)
              (λ _ t k. k))
          (record s { world = own.1 }) h

    dlsym-Keeps : (handle : ℕ) (name : List ℕ) → Keeps (dlsym api handle name)
    unfolding dlsym
    dlsym-Keeps handle name s h =
        let address = api.get_proc_address handle name s.world in
        Keeps-bind (if address.0 == 0 then keep_error api else pure tt) (λ _. pure address.0)
          (Keeps-if (address.0 == 0) (keep_error api) (pure tt) keep_error-Keeps (λ t k. k))
          (λ _ t k. k) (record s { world = address.1 }) h

    dlerror-Keeps : Keeps (dlerror api)
    unfolding dlerror
    dlerror-Keeps s h =
        Keeps-if (s.last_error == 0) (pure none)
          (modify (λ t. record t { last_error = 0 }) >> pure (some (message s.last_error)))
          (λ t k. k) (λ t k. omega arith) s h

    Reach-IsSmall : {s : Windows W} → Reach s → IsSmall s
    Reach-IsSmall (start w) = omega arith
    Reach-IsSmall (others w r) = Reach-IsSmall r
    Reach-IsSmall (opens path mode r) = dlopen-Keeps path mode _ (Reach-IsSmall r)
    Reach-IsSmall (closes handle r) = dlclose-Keeps handle _ (Reach-IsSmall r)
    Reach-IsSmall (looks handle name r) = dlsym-Keeps handle name _ (Reach-IsSmall r)
    Reach-IsSmall (asks r) = dlerror-Keeps _ (Reach-IsSmall r)

    -- After any calls of the four functions, `dlerror` returns NULL if no error is kept, and otherwise the
    -- message with the decimal digits of the last error, which with its NUL fits in the 64 bytes of the
    -- buffer; it clears the error, so that the next call returns NULL.
    pub dlerror-Reports : {s : Windows W} → Reach s → Reports s (dlerror api s)
    unfolding dlerror
    dlerror-Reports {s} r = elim (Bool-cases (s.last_error == 0)) [
      | inl no_error ↦ silent ((==_iff s.last_error 0).0 no_error) (rw no_error refl)
      | inr kept ↦
          let small = Reach-IsSmall r in
          reported (decimal 10 s.last_error) (λ e. cc (kept, (==_iff s.last_error 0).1 e))
            (number-decimal 10 s.last_error (omega (arith, small))) (rw kept refl)
            (omega (arith, decimal-length 10 s.last_error)) (rw kept refl)
    ]
