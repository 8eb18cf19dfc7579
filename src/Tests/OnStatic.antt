-- ===== src/Tests/OnStatic.antt =====
-- lib/dynamic_library.js and lib/errno.js over proxies, on a world where a call gives the size of
-- its argument array.
use node_ffi_napi.Prelude.{
  ℕ, ◌≡◌, ◌+◌, refl, none, some, List, [], ◌∷◌, ◌==◌, update, str_eq, if◌then◌else◌, arith,
}
use node_ffi_napi.Effect.{external, ok, Exec, pure, throw, ◌>>=◌}
use node_ffi_napi.PointerArray
use node_ffi_napi.Bindings.{builtin, pointer_type}
use node_ffi_napi.Types.{Types, TypeObject, TypeArg, object, named, missing, Ref}
use node_ffi_napi.Types.Frame.{Framed, Framed-pure, Framed-throw, Framed-if}
use node_ffi_napi.Types.Results.{CoerceLaws}
use node_ffi_napi.Types.Known.{IsKnown, own-IsKnown}
use node_ffi_napi.Foreign.{Proxy}
use node_ffi_napi.Foreign.Calls.{invoke}
use node_ffi_napi.Dynamic.{System, dynamic_library}
use node_ffi_napi.Static.{
  StaticFunctions, StaticTypes, Values, through, Opening, Proxies, msvcrt, load_errno, system_of,
  errno,
}
use node_ffi_napi.Static.Loaded.{IsReady, proxy_of, load_proxies_known}
use node_ffi_napi.Static.Numbers.{errno_proxy, pointer_proxy, errno_through_pointer}
use node_ffi_napi.Static.Opened.{opens_through_proxy}
use node_ffi_napi.Tests.Data.{bare_type, start_types, test_libffi, test_native}
use node_ffi_napi.Tests.OnDynamic.{test_system, real_name, unopened}

-- 1 is "int", 5 a pointer to void, 6 one to int, and 7 "string".
abbrev static_object : ℕ → TypeObject
static_object t =
    if t == 5
    then record bare_type { indirection = 2; size = 8 }
    else if t == 6
    then record bare_type { indirection = 2; size = 8 }
    else bare_type

abbrev static_coerce : TypeArg → Exec Types ℕ
static_coerce (object t) = pure t
static_coerce (named k) =
    if str_eq k "string" then pure 7 else if str_eq k "int" then pure 1 else throw (external 0)
static_coerce missing = throw (external 0)

abbrev static_ref : Ref
static_ref = record { pointer_size = 8; obj = static_object; coerce_type = static_coerce }

static_keeps : (a : TypeArg) → Framed (static_coerce a)
static_keeps (object t) = Framed-pure t
static_keeps (named k) =
    Framed-if (str_eq k "string") (Framed-pure 7)
      (Framed-if (str_eq k "int") (Framed-pure 1) (Framed-throw (external 0)))
static_keeps missing = Framed-throw (external 0)

abbrev static_laws : CoerceLaws static_ref
static_laws = record { same = λ t s. refl; keeps = static_keeps }

abbrev static_types : StaticTypes
static_types = record { int = 1; void_ptr = 5; int_ptr = 6 }

abbrev static_start : Types
static_start = record start_types {
  ffi_own = update start_types.ffi_own 7 (some (some pointer_type));
}

int-IsKnown : IsKnown static_ref static_start 1 (builtin "int")
int-IsKnown = own-IsKnown static_ref static_start 1 (builtin "int") refl refl

string-IsKnown : IsKnown static_ref static_start 7 pointer_type
string-IsKnown = own-IsKnown static_ref static_start 7 pointer_type refl refl

abbrev static-IsReady : IsReady static_ref test_libffi static_types 7 static_start
static-IsReady = record {
  string_named = refl;
  int_named = refl;
  string_known = string-IsKnown;
  int_known = int-IsKnown;
  void_pointer = omega arith;
  int_pointer = omega arith;
  string_sized = omega arith;
  int_sized = omega arith;
  pointer_sized = omega arith;
  int_pointer_sized = omega arith;
  wide = omega arith;
  accepts = λ result ps words. refl;
}

abbrev static_funcs : StaticFunctions
static_funcs = record { dlopen = 501; dlclose = 502; dlsym = 503; dlerror = 504; errno = 505 }

abbrev static_values : Values ℕ
static_values = record {
  string = λ t. 3;
  number = λ n. n;
  buffer = λ a. a;
  to_string = λ v. none;
  to_number = λ v. v;
  to_address = λ v. v;
}

abbrev static_read : List ℕ → Exec ℕ (List ℕ)
static_read file = pure file

abbrev loaded_proxies : Proxies
loaded_proxies = record {
  dlopen =
      proxy_of static_ref test_libffi static_types static_laws 1 8 7 static_start static-IsReady 501
        5 pointer_type (7 ∷ 1 ∷ []) (pointer_type ∷ builtin "int" ∷ []);
  dlclose =
      proxy_of static_ref test_libffi static_types static_laws 1 8 7 static_start static-IsReady 502
        1 (builtin "int") (5 ∷ []) (pointer_type ∷ []);
  dlsym =
      proxy_of static_ref test_libffi static_types static_laws 1 8 7 static_start static-IsReady 503
        5 pointer_type (5 ∷ 7 ∷ []) (pointer_type ∷ pointer_type ∷ []);
  dlerror =
      proxy_of static_ref test_libffi static_types static_laws 1 8 7 static_start static-IsReady 504
        7 pointer_type [] [];
}

opens_through_proxy_example :
    dynamic_library
      (system_of static_ref test_native static_values static_read 1 loaded_proxies)
      1
      (some real_name)
      (some 1)
      (record { system = 1000; path = none; handle = 0 })
    ≡ (ok tt, record { system = 1017; path = some real_name; handle = 16 })
opens_through_proxy_example =
    opens_through_proxy static_ref test_native static_values test_libffi static_types static_laws 1
      8 7 static_start static-IsReady static_funcs static_read 1 loaded_proxies (some real_name) 1 0
      1000 1008 none 16 1000 1008 1016 1017
      (load_proxies_known static_ref test_libffi static_types static_laws 1 8 7 static_start
        static-IsReady static_funcs)
      refl refl refl (λ e. omega (arith, e))

abbrev static_opening : Opening ℕ
static_opening = record { types = static_start; dl = unopened }

abbrev test_errno : Proxy
test_errno =
    errno_proxy static_ref test_libffi static_types static_laws 1 8 7 static_start static-IsReady
      505

-- A world where the library msvcrt.dll can be opened, and has `_errno` at the address 88.
abbrev msvcrt_system : System ℕ
msvcrt_system = record test_system {
  dlopen = λ path mode s. (ok 77, s + 1);
  dlsym = λ h symbol s. (ok 88, s);
}

abbrev test_pointer : Proxy
test_pointer =
    pointer_proxy static_ref test_libffi static_types static_laws 1 8 7 static_start static-IsReady
      88

errno_through_pointer_example :
    (load_errno static_ref test_libffi 2 8 static_types msvcrt_system static_funcs "win32"
        static_opening
      ≡ (
        ok (through test_pointer),
        record static_opening { dl = record { system = 1; path = some msvcrt; handle = 77 } },
      ))
    × ((m : ℕ)
        → errno static_ref test_native (λ v. pure v) (through test_pointer) m
          ≡ (invoke static_ref test_native test_pointer (PointerArray.alloc 0) >>= λ v. pure v) m)
errno_through_pointer_example =
    errno_through_pointer static_ref test_libffi static_types static_laws 1 8 7 static_opening
      static-IsReady msvcrt_system static_funcs test_native (λ v. pure v) 77 88 1 1 refl
      (λ e. omega (arith, e)) refl (λ e. omega (arith, e))
