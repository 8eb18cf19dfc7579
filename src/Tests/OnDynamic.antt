-- ===== src/Tests/OnDynamic.antt =====
-- lib/dynamic_library.js on a system where one library is a linker script.
use node_ffi_napi.Prelude.{
  ℕ, ◌≡◌, ◌+◌, refl, Option, none, some, Bool, false, List, [], ◌∷◌, ◌++◌, ◌==◌, if◌then◌else◌,
  arith, length,
}
use node_ffi_napi.Effect.{ok}
use node_ffi_napi.Effect.Laws.{Ensures}
use node_ffi_napi.Dynamic.{
  System, Dynamic, dynamic_library, follow, script_path, so_name, to_colon, group_file, group_here,
  skip_blanks, file_name,
}
use node_ffi_napi.Dynamic.Chains.{script, opens as opens_file, follows_scripts}
use node_ffi_napi.Dynamic.Groups.{directive, group_file_found}
use node_ffi_napi.Dynamic.Scripts.{script_path_found}
use node_ffi_napi.Dynamic.Handles.{IsOpen, dynamic_library-IsOpen}

-- "c.so", and "/l" for the real library
abbrev script_name : List ℕ
script_name = b'c' ∷ b'.' ∷ b's' ∷ b'o' ∷ []

abbrev pub real_name : List ℕ
real_name = b'/' ∷ b'l' ∷ []

-- "c.so: x"
abbrev error_text : List ℕ
error_text = script_name ++ b':' ∷ b' ' ∷ b'x' ∷ []

-- "/*GROUP ( /l )"
abbrev script_text : List ℕ
script_text =
    b'/' ∷ b'*' ∷ b'G' ∷ b'R' ∷ b'O' ∷ b'U' ∷ b'P' ∷ b' ' ∷ b'(' ∷ b' ' ∷ b'/' ∷ b'l' ∷ b' ' ∷ b')'
    ∷ []

abbrev pub opens : Option (List ℕ) → Bool
opens none = false
opens (some name) = length name == 2

-- A file opens if its name has two characters.
abbrev pub test_system : System ℕ
test_system = record {
  dlopen = λ path mode s. (ok (if opens path then 77 else 0), s + 1);
  dlclose = λ h s. (ok 0, s);
  dlsym = λ h symbol s. (ok (if length symbol == 3 then 88 else 0), s);
  dlerror = λ s. (ok (some error_text), s);
  read = λ path s. (ok script_text, s);
  rtld_lazy = 1;
}

abbrev pub unopened : Dynamic ℕ
unopened = record { system = 0; path = none; handle = 0 }

path_in_error : script_path error_text ≡ some script_name
unfolding script_path so_name to_colon
path_in_error = refl

file_in_script : group_file script_text ≡ some real_name
unfolding group_file group_here skip_blanks file_name
file_in_script = refl

redirected :
    dynamic_library test_system 2 (some script_name) none unopened
    ≡ (ok tt, record { system = 2; path = some real_name; handle = 77 })
unfolding dynamic_library follow script_path so_name to_colon group_file group_here skip_blanks
    file_name
redirected = refl

script_path_found_example : script_path (script_name ++ b':' ∷ b' ' ∷ b'x' ∷ []) ≡ some script_name
script_path_found_example =
    script_path_found (b'x' ∷ []) b'c' [] [] ((refl, λ e. omega (arith, e)), tt) tt

dynamic_library-IsOpen_example :
    Ensures
      (λ _ t. IsOpen test_system t)
      (λ _ _. Unit)
      (dynamic_library test_system 2 (some script_name) none unopened)
dynamic_library-IsOpen_example =
    dynamic_library-IsOpen test_system 2 (some script_name) none unopened

abbrev pub opened : Dynamic ℕ
opened = record { system = 2; path = some real_name; handle = 77 }

-- "GNU " before the directive
abbrev gnu : List ℕ
gnu = b'G' ∷ b'N' ∷ b'U' ∷ b' ' ∷ []

group_file_found_example :
    group_file (gnu ++ directive 1 1 b'/' (b'l' ∷ []) b' ' (b')' ∷ [])) ≡ some real_name
unfolding group_here skip_blanks file_name
group_file_found_example =
    group_file_found 1 1 b'/' (b'l' ∷ []) b' ' (b')' ∷ []) gnu (refl, (refl, (refl, (refl, tt))))
      (refl, (refl, tt)) refl

follows_scripts_example :
    dynamic_library test_system 2
      (some script_name)
      (some 1)
      (record { system = 0; path = none; handle = 0 })
    ≡ (ok tt, record { system = 2; path = some real_name; handle = 77 })
follows_scripts_example =
    follows_scripts test_system 1 1 2 (some script_name) (some real_name) none 77 0 0 2
      (omega arith) (λ e. omega (arith, e))
      (script error_text script_name script_text real_name 1 1 1 refl refl path_in_error refl
        file_in_script (opens_file refl))
