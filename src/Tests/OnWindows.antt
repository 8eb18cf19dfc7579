-- ===== src/Tests/OnWindows.antt =====
-- src/win32-dlfcn.cc on a system where one library can be loaded.
use node_ffi_napi.Prelude.{
  ℕ, ◌≡◌, refl, none, some, true, List, [], ◌∷◌, ◌==◌, ◌+◌, if◌then◌else◌, arith, length,
}
use node_ffi_napi.Effect.{ok, err, linking_error}
use node_ffi_napi.Dynamic.{Dynamic, dynamic_library, mode_of, follow, script_path, so_name}
use node_ffi_napi.Windows.{
  Win32, Windows, decimal, message, dlopen, dlerror, utf8_to_wchar, allocate, convert, load,
  keep_error, windows,
}
use node_ffi_napi.Windows.Messages.{start, opens, Reports, dlerror-Reports}
use node_ffi_napi.Windows.Opening.{Opened, dynamic_library-Opened}

-- A name of two characters is that of a library, and the last error is 126, that it is not found. The
-- state counts the loads.
abbrev test_win32 : Win32 ℕ
test_win32 = record {
  get_module_handle = λ w. (1, w);
  wide_size = λ s w. (length s + 1, w);
  to_wide = λ s n w. ((n, s), w);
  malloc = λ n w. (true, w);
  wchar_size = 2;
  get_last_error = λ w. (126, w);
  set_last_error = λ n w. w;
  error_out_of_memory = 14;
  get_error_mode = λ w. (0, w);
  set_error_mode = λ n w. w;
  fail_critical = λ n. n + 1;
  load_library = λ s w. (if length s == 2 then 77 else 0, w + 1);
  free_library = λ h w. (true, w);
  get_proc_address = λ h s w. (0, w);
  read_file = λ s w. (ok s, w);
  rtld_lazy = 1;
}

abbrev new : Windows ℕ
new = record { world = 0; last_error = 0 }

abbrev absent : List ℕ
absent = b'a' ∷ []

abbrev unopened : Dynamic (Windows ℕ)
unopened = record { system = new; path = none; handle = 0 }

not_found : dlopen test_win32 (some absent) 1 new ≡ (ok 0, record { world = 1; last_error = 126 })
unfolding dlopen utf8_to_wchar allocate convert load keep_error
not_found = refl

throws_message : dynamic_library (windows test_win32) 1 (some absent) none unopened ≡ (
  err (linking_error (some (message 126))),
  record { system = record { world = 1; last_error = 0 }; path = some absent; handle = 0 },
)
unfolding dynamic_library follow script_path so_name dlopen utf8_to_wchar allocate convert load
    keep_error dlerror
throws_message = refl

digits : decimal 10 126 ≡ b'1' ∷ b'2' ∷ b'6' ∷ []
unfolding decimal
digits = refl

dlerror-Reports_example :
    Reports test_win32
      (dlopen test_win32 (some absent) 1 new).1
      (dlerror test_win32 (dlopen test_win32 (some absent) 1 new).1)
dlerror-Reports_example =
    dlerror-Reports test_win32 (λ w. omega arith) {s = (dlopen test_win32 (some absent) 1 new).1}
      (opens (some absent) 1 (start 0))

dynamic_library-Opened_example :
    (handle : ℕ) × (s : Windows ℕ) × (dlopen test_win32
        (some absent)
        (mode_of (windows test_win32) none)
        new
      ≡ (ok handle, s))
    × Opened test_win32
        (some absent)
        handle
        s
        (dynamic_library (windows test_win32) 1 (some absent) none unopened)
dynamic_library-Opened_example = dynamic_library-Opened test_win32 0 (some absent) none unopened
