-- ===== src/Tests/OnLibrary.antt =====
-- lib/library.js on a library with two functions.
use node_ffi_napi.Prelude.{
  ℕ, ◌≡◌, refl, Option, none, some, List, [], ◌∷◌, ◌++◌, true, false, arith,
}
use node_ffi_napi.Effect.{ok}
use node_ffi_napi.Effect.Laws.{Ensures}
use node_ffi_napi.Types.{object}
use node_ffi_napi.Types.Known.{IsKnown, own-IsKnown}
use node_ffi_napi.Variadic.{same_text}
use node_ffi_napi.Bindings.{builtin}
use node_ffi_napi.Library.{
  ext, starts_with, contains, with_ext, open_library, function, async_function, opened, text,
  abi_of, Info, Options, Building, library,
}
use node_ffi_napi.Library.Defined.{HasAll, HasSome, IsOpened, library-HasAll}
use node_ffi_napi.Library.Awaited.{library_calls_async}
use node_ffi_napi.Foreign.Async.{Answers}
use node_ffi_napi.Library.Called.{symbol, library_calls}
use node_ffi_napi.Foreign.{Proxy, call}
use node_ffi_napi.Foreign.Marshal.{alloc_all}
use node_ffi_napi.Library.Returns.{IsCallable, library_returns}
use node_ffi_napi.Tests.Data.{test_ref, test_laws, test_libffi, test_native, start_types, idle}
use node_ffi_napi.Tests.OnDynamic.{test_system, unopened, real_name}
use node_ffi_napi.Dynamic.{
  dynamic_library, follow, script_path, so_name, to_colon, group_file, group_here, skip_blanks,
  file_name,
}

-- "m" and "m.so"
abbrev short_name : List ℕ
short_name = b'm' ∷ []

abbrev full_name : List ℕ
full_name = b'm' ∷ b'.' ∷ b's' ∷ b'o' ∷ []

on_linux : with_ext (ext "linux") short_name ≡ full_name
unfolding with_ext ext contains starts_with
on_linux = refl

on_darwin :
    with_ext (ext "darwin") full_name ≡ full_name ++ b'.' ∷ b'd' ∷ b'y' ∷ b'l' ∷ b'i' ∷ b'b' ∷ []
unfolding with_ext ext contains starts_with
on_darwin = refl

-- Where the platform is not in the table, the name ends in "undefined".
on_aix :
    with_ext (ext "aix") short_name
    ≡ b'm' ∷ b'u' ∷ b'n' ∷ b'd' ∷ b'e' ∷ b'f' ∷ b'i' ∷ b'n' ∷ b'e' ∷ b'd' ∷ []
unfolding with_ext ext contains starts_with
on_aix = refl

abbrev int_info : Option Options → Info
int_info fopts = record {
  result_type = object 1;
  param_types = some (object 1 ∷ object 1 ∷ []);
  fopts = fopts;
}

abbrev variable : Options
variable = record { abi = none; async = false; varargs = true }

-- "pow", and "fmt" with a variable number of arguments
abbrev two_funcs : List (List ℕ × Info)
two_funcs =
    (b'p' ∷ b'o' ∷ b'w' ∷ [], int_info none)
    ∷ (b'f' ∷ b'm' ∷ b't' ∷ [], int_info (some variable))
    ∷ []

abbrev empty : Building ℕ
empty = record {
  types = start_types;
  ids = record { counter = 1; id_of = λ t. none };
  dl = unopened;
  lib = λ name. none;
}

library-HasAll_example :
    Ensures
      (λ _ t.
        HasAll test_system test_ref test_libffi 2 8 two_funcs empty.lib t.lib
        × IsOpened test_system test_ref test_libffi 2 8 (text short_name) t.dl.handle)
      (λ _ t. HasSome test_system test_ref test_libffi 2 8 two_funcs empty.lib t.lib)
      (library test_system test_ref test_libffi 2 8 3 "linux" 2 (text short_name) two_funcs empty)
unfolding same_text
library-HasAll_example =
    library-HasAll test_system test_ref test_libffi 2 8 3 "linux" 2 (text short_name) two_funcs
      empty ((refl, tt), (tt, tt))

int-IsKnown : IsKnown test_ref start_types 1 (builtin "int")
int-IsKnown = own-IsKnown test_ref start_types 1 (builtin "int") refl refl

int-IsCallable :
    (fopts : Option Options)
    → abi_of fopts ≡ none
    → IsCallable test_system test_ref test_laws test_libffi 1 8 start_types (int_info fopts)
int-IsCallable fopts no_abi = record {
  r = 1;
  ts = 1 ∷ 1 ∷ [];
  rp = builtin "int";
  ps = builtin "int" ∷ builtin "int" ∷ [];
  result = refl;
  params = refl;
  known = int-IsKnown;
  all = (int-IsKnown, (int-IsKnown, tt));
  accepted = rw no_abi refl;
  sized = omega arith;
}

-- The file that "m" becomes is a linker script, so that its library is the one of another file.
abbrev linked : Building ℕ
linked = record empty { dl = record { system = 2; path = some real_name; handle = 77 } }

library_opens :
    open_library test_system test_ref test_libffi 2 8 3 (ext "linux") 2 (text short_name) empty
    ≡ (ok tt, linked)
unfolding open_library dynamic_library follow script_path so_name to_colon group_file group_here
    skip_blanks file_name with_ext contains starts_with ext
library_opens = refl

library_returns_example :
    (t : Building ℕ) × (library test_system test_ref test_libffi 2 8 3 "linux" 2
        (text short_name)
        two_funcs
        empty
      ≡ (ok tt, t))
    × (t.types ≡ start_types)
library_returns_example =
    library_returns test_system test_ref test_laws test_libffi 1 8 3 "linux" 2 (text short_name)
      two_funcs empty linked library_opens (omega arith)
      (
        (λ s. (88, s, λ e. omega (arith, e), refl), int-IsCallable none refl),
        ((λ s. (88, s, λ e. omega (arith, e), refl), int-IsCallable (some variable) refl), tt),
      )

abbrev pow_callable :
    IsCallable test_system test_ref test_laws test_libffi 1 8 start_types (int_info none)
pow_callable = record {
  r = 1;
  ts = 1 ∷ 1 ∷ [];
  rp = builtin "int";
  ps = builtin "int" ∷ builtin "int" ∷ [];
  result = refl;
  params = refl;
  known = int-IsKnown;
  all = (int-IsKnown, (int-IsKnown, tt));
  accepted = refl;
  sized = omega arith;
}

library_calls_example :
    (f : Proxy) × ((library test_system test_ref test_libffi 2 8 3 "linux" 2
          (opened none 77)
          ((b'p' ∷ b'o' ∷ b'w' ∷ [], int_info none) ∷ [])
          empty).1.lib
        (b'p' ∷ b'o' ∷ b'w' ∷ [])
      ≡ some (function f))
    × (call test_ref test_native f (5 ∷ 6 ∷ []) 1000 ≡ (ok 16, 1017))
unfolding alloc_all
library_calls_example =
    library_calls test_system test_ref test_laws test_libffi 1 8 test_native 3 "linux" 2 none 77
      (b'p' ∷ b'o' ∷ b'w' ∷ []) (int_info none) empty 88 0 pow_callable (5 ∷ 6 ∷ [])
      (1000 ∷ 1008 ∷ []) 1000 1016 (omega arith) refl refl (λ e. omega (arith, e)) refl refl refl

-- the option async
abbrev awaited : Options
awaited = record { abi = none; async = true; varargs = false }

abbrev pow_awaited :
    IsCallable test_system test_ref test_laws test_libffi 1 8 start_types (int_info (some awaited))
pow_awaited = record {
  r = 1;
  ts = 1 ∷ 1 ∷ [];
  rp = builtin "int";
  ps = builtin "int" ∷ builtin "int" ∷ [];
  result = refl;
  params = refl;
  known = int-IsKnown;
  all = (int-IsKnown, (int-IsKnown, tt));
  accepted = refl;
  sized = omega arith;
}

abbrev pow_symbol : Proxy
pow_symbol =
    symbol test_system test_ref test_laws test_libffi 1 8 test_native (b'p' ∷ b'o' ∷ b'w' ∷ [])
      (int_info (some awaited)) empty 88 pow_awaited

library_calls_async_example :
    ((library test_system test_ref test_libffi 2 8 3 "linux" 2
          (opened none 77)
          ((b'p' ∷ b'o' ∷ b'w' ∷ [], int_info (some awaited)) ∷ [])
          empty).1.lib
        (b'p' ∷ b'o' ∷ b'w' ∷ [])
      ≡ some (async_function pow_symbol))
    × Answers test_ref test_native pow_symbol (5 ∷ 6 ∷ []) 100 idle refl refl (ok 16) 1017
unfolding alloc_all
library_calls_async_example =
    library_calls_async test_system test_ref test_laws test_libffi 1 8 test_native 3 "linux" 2 none
      77 (b'p' ∷ b'o' ∷ b'w' ∷ []) (int_info (some awaited)) empty 88 0 pow_awaited (5 ∷ 6 ∷ [])
      (1000 ∷ 1008 ∷ []) 100 16 idle 1016 1017 (omega arith) refl refl (λ e. omega (arith, e)) refl
      refl refl refl refl
