-- ===== src/Static.antt =====
-- lib/dynamic_library.js and lib/errno.js: the functions of the system, as proxies of the C functions
-- whose pointers `FFI::InitializeStaticFunctions` of src/ffi.cc hands over.
pub mod Loaded
pub mod Numbers
pub mod Opened
use node_ffi_napi.Prelude.{ℕ, String, Option, none, some, List, [], ◌∷◌, str_eq, if◌then◌else◌}
use node_ffi_napi.Effect.{Result, Exec, pure, ◌>>=◌, ◌>>◌}
use node_ffi_napi.Types.{Types, TypeArg, object, named, Ref}
use node_ffi_napi.Cif.{Libffi}
use node_ffi_napi.Foreign.{Proxy, Native, call, foreign_function}
use node_ffi_napi.Dynamic.{System, Dynamic, dynamic_library, get}

-- `bindings.StaticFunctions`: the addresses of the C functions
pub record StaticFunctions : Type 0 where
  pub dlopen : ℕ
  pub dlclose : ℕ
  pub dlsym : ℕ
  pub dlerror : ℕ
  pub errno : ℕ

-- The type objects that the code names: `ref.types.int`, `ref.refType(ref.types.void)` and
-- `ref.refType(int)`.
pub record StaticTypes : Type 0 where
  pub int : ℕ
  pub void_ptr : ℕ
  pub int_ptr : ℕ

-- The values of JavaScript that these functions take and give: a string or null, a number, and a
-- Buffer, by the address of its memory.
pub record Values (V : Type 0) : Type 0 where
  pub string : Option (List ℕ) → V
  pub number : ℕ → V
  pub buffer : ℕ → V
  pub to_string : V → Option (List ℕ)
  pub to_number : V → ℕ
  pub to_address : V → ℕ

-- The four functions of lib/dynamic_library.js.
pub record Proxies : Type 0 where
  pub dlopen : Proxy
  pub dlclose : Proxy
  pub dlsym : Proxy
  pub dlerror : Proxy

-- `errno` of lib/errno.js: it follows the pointer that a function returns, or it is the function.
pub data Errno : Type 0 where
  through : (errno_ptr : Proxy) → Errno
  direct : (proxy : Proxy) → Errno

-- the library that lib/errno.js opens, and what changes when it is loaded
pub record Opening (S : Type 0) : Type 0 where
  pub types : Types
  pub dl : Dynamic S

-- 'msvcrt.dll'
abbrev pub msvcrt : List ℕ
msvcrt = b'm' ∷ b's' ∷ b'v' ∷ b'c' ∷ b'r' ∷ b't' ∷ b'.' ∷ b'd' ∷ b'l' ∷ b'l' ∷ []

-- '_errno'
abbrev pub errno_name : List ℕ
errno_name = b'_' ∷ b'e' ∷ b'r' ∷ b'r' ∷ b'n' ∷ b'o' ∷ []

module _ (ref : Ref) (ffi : Libffi) (fuel long_size : ℕ) (types : StaticTypes) where
  open types use {int, void_ptr, int_ptr}

  abbrev pub foreign : ℕ → TypeArg → List TypeArg → Exec Types Proxy
  foreign ptr result args =
      foreign_function ref ffi fuel long_size (some ptr) result (some args) none

  -- the four constants of lib/dynamic_library.js
  unfoldable pub load_proxies : StaticFunctions → Exec Types Proxies
  load_proxies funcs = do
    open' ← foreign funcs.dlopen (object void_ptr) (named "string" ∷ object int ∷ [])
    close' ← foreign funcs.dlclose (object int) (object void_ptr ∷ [])
    sym' ← foreign funcs.dlsym (object void_ptr) (object void_ptr ∷ named "string" ∷ [])
    error' ← foreign funcs.dlerror (named "string") []
    pure (record { dlopen = open'; dlclose = close'; dlsym = sym'; dlerror = error' })

  module _ {S : Type 0} where
    abbrev pub on_types : {A : Type 0} → Exec Types A → Opening S → Result A × Opening S
    on_types m s = let (r, t) = m s.types in (r, record s { types = t })

    abbrev pub on_dl : {A : Type 0} → Exec (Dynamic S) A → Opening S → Result A × Opening S
    on_dl m s = let (r, d) = m s.dl in (r, record s { dl = d })

    -- the branch of lib/errno.js for Windows, and the other
    unfoldable pub errno_on_windows : System S → Exec (Opening S) Errno
    errno_on_windows sys = do
      on_dl (dynamic_library sys fuel (some msvcrt) none)
      ptr ← on_dl (get sys errno_name)
      f ← on_types (foreign ptr (object int_ptr) [])
      pure (through f)

    unfoldable pub errno_elsewhere : StaticFunctions → Exec (Opening S) Errno
    errno_elsewhere funcs = do f ← on_types (foreign funcs.errno (named "int") []); pure (direct f)

    -- lib/errno.js, on a `process.platform`
    unfoldable pub load_errno : System S → StaticFunctions → String → Exec (Opening S) Errno
    unfolding errno_on_windows errno_elsewhere
    load_errno sys funcs platform =
        if str_eq platform "win32" then errno_on_windows sys else errno_elsewhere funcs

module _ {S V : Type 0} (ref : Ref) (nat : Native S V) where
  -- `errno()`; `deref_buffer` is the method `deref` of a Buffer
  unfoldable pub errno : (V → Exec S V) → Errno → Exec S V
  errno deref_buffer (through f) = call ref nat f [] >>= deref_buffer
  errno deref_buffer (direct f) = call ref nat f []

module _ {S V : Type 0} (ref : Ref) (nat : Native S V) (vals : Values V) where
  open vals use {string, number, buffer, to_string, to_number, to_address}

  -- The calls of the four functions. `read` is `fs.readFileSync`, and `rtld_lazy` that flag.
  abbrev pub system_of : (List ℕ → Exec S (List ℕ)) → ℕ → Proxies → System S
  system_of read rtld_lazy p = record {
    dlopen = λ path mode.
        call ref nat p.dlopen (string path ∷ number mode ∷ []) >>= λ v. pure (to_address v);
    dlclose = λ handle. call ref nat p.dlclose (buffer handle ∷ []) >>= λ v. pure (to_number v);
    dlsym = λ handle name.
        call ref nat p.dlsym (buffer handle ∷ string (some name) ∷ []) >>= λ v. pure (to_address v);
    dlerror = call ref nat p.dlerror [] >>= λ v. pure (to_string v);
    read = read;
    rtld_lazy = rtld_lazy;
  }
