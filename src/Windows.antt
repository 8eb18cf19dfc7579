-- ===== src/Windows.antt =====
-- src/win32-dlfcn.cc: `dlopen`, `dlclose`, `dlsym` and `dlerror` on Windows. The buffers that the code
-- allocates and frees have no counterpart, but for the allocation that fails.
pub mod Digits
pub mod Messages
pub mod Opening
use node_ffi_napi.Prelude.{
  ℕ, zero, suc, ◌+◌, ◌*◌, ◌/◌, ◌%◌, Option, none, some, List, [], ◌∷◌, ◌++◌, Bool, true, false, not,
  ◌==◌, ltb, if◌then◌else◌,
}
use node_ffi_napi.Effect.{Result, ok, Exec, pure, gets, modify, ◌>>=◌, ◌>>◌}
use node_ffi_napi.Dynamic.{System}

-- The functions of the Windows API that the code calls, over the state of the system. A handle or a
-- pointer is its address, 0 for NULL.
pub record Win32 (W : Type 0) : Type 0 where
  pub get_module_handle : W → ℕ × W  -- `GetModuleHandle(NULL)`
  pub wide_size : List ℕ → W → ℕ × W  -- `MultiByteToWideChar(CP_UTF8, 0, s, -1, NULL, 0)`
  pub to_wide : List ℕ → ℕ → W → (ℕ × List ℕ) × W  -- the same, with what it writes
  pub malloc : ℕ → W → Bool × W  -- whether it gives memory
  pub wchar_size : ℕ  -- `sizeof(WCHAR)`
  pub get_last_error : W → ℕ × W
  pub set_last_error : ℕ → W → W
  pub error_out_of_memory : ℕ  -- `ERROR_OUTOFMEMORY`
  pub get_error_mode : W → ℕ × W
  pub set_error_mode : ℕ → W → W
  pub fail_critical : ℕ → ℕ  -- `mode | SEM_FAILCRITICALERRORS`
  pub load_library : List ℕ → W → ℕ × W  -- `LoadLibraryW`
  pub free_library : ℕ → W → Bool × W
  pub get_proc_address : ℕ → List ℕ → W → ℕ × W
  pub read_file : List ℕ → W → Result (List ℕ) × W  -- `fs.readFileSync` of lib/dynamic_library.js
  pub rtld_lazy : ℕ

-- The static variable `lastError`, and the system.
pub record Windows (W : Type 0) : Type 0 where
  pub world : W
  pub last_error : ℕ

-- The decimal digits of a number that has at most `k`.
unfoldable pub decimal : ℕ → ℕ → List ℕ
decimal zero n = []
decimal (suc k) n =
    let high = decimal k (n / 10) in
    if ltb n 10 then (b'0' + n) ∷ [] else high ++ (b'0' + n % 10) ∷ []

-- "Win32 error "
abbrev pub message_start : List ℕ
message_start =
    b'W' ∷ b'i' ∷ b'n' ∷ b'3' ∷ b'2' ∷ b' ' ∷ b'e' ∷ b'r' ∷ b'r' ∷ b'o' ∷ b'r' ∷ b' ' ∷ []

-- `sprintf(errorMessage, "Win32 error %lu", lastError)`: a DWORD has at most ten digits
abbrev pub message : ℕ → List ℕ
message n = message_start ++ decimal 10 n

module _ {W : Type 0} (api : Win32 W) where
  -- a call of the system
  abbrev pub on_world : {A : Type 0} → (W → A × W) → Exec (Windows W) A
  on_world f s = let (a, w) = f s.world in (ok a, record s { world = w })

  -- `lastError = GetLastError()`
  unfoldable pub keep_error : Exec (Windows W) Unit
  keep_error = do code ← on_world api.get_last_error; modify (λ s. record s { last_error = code })

  -- the second call of `MultiByteToWideChar`, into memory that was allocated
  unfoldable pub convert : List ℕ → ℕ → Exec (Windows W) (Option (List ℕ))
  convert input size = do
    written ← on_world (api.to_wide input size)
    pure (if written.0 == size then some written.1 else none)

  unfoldable pub allocate : List ℕ → ℕ → Exec (Windows W) (Option (List ℕ))
  unfolding convert
  allocate input size = do
    memory ← on_world (api.malloc (size * api.wchar_size))
    let out_of_memory : Exec (Windows W) (Option (List ℕ)) =
        on_world (λ w. (tt, api.set_last_error api.error_out_of_memory w)) >> pure none
    if memory then convert input size else out_of_memory

  -- `UTF8toWCHAR(inputString)`, none for NULL
  unfoldable pub utf8_to_wchar : List ℕ → Exec (Windows W) (Option (List ℕ))
  unfolding allocate
  utf8_to_wchar input = do
    size ← on_world (api.wide_size input)
    if size == 0 then pure none else allocate input size

  -- what `dlopen` does with the name in Unicode
  unfoldable pub load : Option (List ℕ) → Exec (Windows W) ℕ
  unfolding keep_error
  load none = keep_error >> pure 0
  load (some name) = do
    error_mode ← on_world api.get_error_mode
    on_world (λ w. (tt, api.set_error_mode (api.fail_critical error_mode) w))
    handle ← on_world (api.load_library name)
    if handle == 0 then keep_error else pure tt
    on_world (λ w. (tt, api.set_error_mode error_mode w))
    pure handle

  -- `dlopen(file, mode)`
  unfoldable pub dlopen : Option (List ℕ) → (mode : ℕ) → Exec (Windows W) ℕ
  unfolding utf8_to_wchar load
  dlopen none mode = on_world api.get_module_handle
  dlopen (some file) mode = utf8_to_wchar file >>= load

  -- `dlclose(handle)`
  unfoldable pub dlclose : ℕ → Exec (Windows W) ℕ
  unfolding keep_error
  dlclose handle = do
    own ← on_world api.get_module_handle
    rc ←
        if handle == own
        then pure 0
        else on_world (api.free_library handle) >>= λ freed. pure (if freed then 0 else 1)
    if rc == 0 then pure tt else keep_error
    pure rc

  -- `dlsym(handle, name)`
  unfoldable pub dlsym : ℕ → List ℕ → Exec (Windows W) ℕ
  unfolding keep_error
  dlsym handle name = do
    address ← on_world (api.get_proc_address handle name)
    if address == 0 then keep_error else pure tt
    pure address

  -- `dlerror()`, none for NULL
  unfoldable pub dlerror : Exec (Windows W) (Option (List ℕ))
  dlerror = do
    code ← gets (λ s. s.last_error)
    let report : Exec (Windows W) (Option (List ℕ)) =
        modify (λ s. record s { last_error = 0 }) >> pure (some (message code))
    if code == 0 then pure none else report

  -- `fs.readFileSync`
  abbrev pub read : List ℕ → Exec (Windows W) (List ℕ)
  read file s = let (r, w) = api.read_file file s.world in (r, record s { world = w })

  -- the functions that lib/dynamic_library.js calls on Windows
  abbrev pub windows : System (Windows W)
  windows = record {
    dlopen = dlopen;
    dlclose = dlclose;
    dlsym = dlsym;
    dlerror = dlerror;
    read = read;
    rtld_lazy = api.rtld_lazy;
  }
