-- ===== src/Dynamic.antt =====
-- lib/dynamic_library.js: the library that `dlopen` opens, also where its file is a linker script, and
-- the symbols in it. The pointers that the system's functions return are Buffers, so the assertions
-- that they are have no counterpart; neither has the name that `get` puts on a pointer.
pub mod Scripts
pub mod Groups
pub mod Handles
pub mod Chains
use node_ffi_napi.Prelude.{
  ℕ, zero, suc, Option, none, some, List, [], ◌∷◌, ◌++◌, Bool, true, false, not, ◌==◌, ◌&&◌, ◌||◌,
  if◌then◌else◌,
}
use node_ffi_napi.Effect.{
  linking_error, symbol_error, null_value, out_of_fuel, Result, Exec, pure, throw, gets, modify,
  ◌>>=◌, ◌>>◌,
}

-- `[^ \t()]`
abbrev pub path_char : ℕ → Bool
path_char c = not (c == b' ' || (c == 9 || (c == b'(' || c == b')')))

-- `([^ \t:()])*):`: the text before the colon
unfoldable pub to_colon : List ℕ → Option (List ℕ)
to_colon [] = none
to_colon (c ∷ cs) =
    let rest = to_colon cs in
    if c == b':'
    then some []
    else if path_char c
    then elim rest [ none ↦ none | some m ↦ some (c ∷ m) ]
    else none

-- `\.so([^ \t:()])*):`
unfoldable pub so_name : List ℕ → Option (List ℕ)
unfolding to_colon
so_name (a ∷ b ∷ c ∷ cs) =
    if a == b'.' && (b == b's' && c == b'o')
    then elim (to_colon cs) [ none ↦ none | some m ↦ some (a ∷ b ∷ c ∷ m) ]
    else none
so_name (a ∷ b ∷ []) = none
so_name (a ∷ []) = none
so_name [] = none

-- the longer match, and else the shorter
abbrev pub prefer : ℕ → Option (List ℕ) → Option (List ℕ) → Option (List ℕ)
prefer c (some m) short = some (c ∷ m)
prefer c none (some m) = some (c ∷ m)
prefer c none none = none

-- `err.match(/^(([^ \t()])+\.so([^ \t:()])*):([ \t])*/)`: its first group. The `+` takes as many
-- characters as it can.
unfoldable pub script_path : List ℕ → Option (List ℕ)
unfolding so_name
script_path [] = none
script_path (c ∷ cs) =
    let longer = script_path cs in if path_char c then prefer c longer (so_name cs) else none

-- ` *` before something that starts with no blank
unfoldable pub skip_blanks : List ℕ → List ℕ
skip_blanks [] = []
skip_blanks (c ∷ cs) = let rest = skip_blanks cs in if c == b' ' then rest else c ∷ cs

-- `([^ )])+`, taken as far as it goes
unfoldable pub file_name : List ℕ → List ℕ
file_name [] = []
file_name (c ∷ cs) = let rest = file_name cs in if c == b' ' || c == b')' then [] else c ∷ rest

abbrev pub non_empty : List ℕ → Option (List ℕ)
non_empty [] = none
non_empty (c ∷ cs) = some (c ∷ cs)

-- `\( *(([^ )])+)`
abbrev pub in_parens : List ℕ → Option (List ℕ)
in_parens [] = none
in_parens (c ∷ cs) = if c == b'(' then non_empty (file_name (skip_blanks cs)) else none

-- `GROUP *\( *(([^ )])+)` at the start of the text
unfoldable pub group_here : List ℕ → Option (List ℕ)
unfolding skip_blanks file_name
group_here (c1 ∷ c2 ∷ c3 ∷ c4 ∷ c5 ∷ cs) =
    if c1 == b'G' && (c2 == b'R' && (c3 == b'O' && (c4 == b'U' && c5 == b'P')))
    then in_parens (skip_blanks cs)
    else none
group_here _ = none

-- the match here, and else the one further on
abbrev pub or_later : Option (List ℕ) → Option (List ℕ) → Option (List ℕ)
or_later (some m) later = some m
or_later none later = later

-- `content.match(/GROUP *\( *(([^ )])+)/)`: its first group, at the first place where it matches
unfoldable pub group_file : List ℕ → Option (List ℕ)
group_file [] = none
group_file (c ∷ cs) = let later = group_file cs in or_later (group_here (c ∷ cs)) later

-- The functions of the system, over its state: a pointer is its address, 0 for NULL; the path may be
-- null, and `dlerror` may return null.
pub record System (S : Type 0) : Type 0 where
  pub dlopen : Option (List ℕ) → (mode : ℕ) → Exec S ℕ
  pub dlclose : ℕ → Exec S ℕ
  pub dlsym : ℕ → List ℕ → Exec S ℕ
  pub dlerror : Exec S (Option (List ℕ))
  pub read : List ℕ → Exec S (List ℕ)  -- `fs.readFileSync`
  pub rtld_lazy : ℕ

-- `this`, with its properties, and the system.
pub record Dynamic (S : Type 0) : Type 0 where
  pub system : S
  pub path : Option (List ℕ)
  pub handle : ℕ

module _ {S : Type 0} (sys : System S) where
  abbrev pub on_system : {A : Type 0} → Exec S A → Dynamic S → Result A × Dynamic S
  on_system m s = let (r, t) = m s.system in (r, record s { system = t })

  -- `error()`
  abbrev pub error : Exec (Dynamic S) (Option (List ℕ))
  error = on_system sys.dlerror

  -- `null == mode`
  abbrev pub mode_of : Option ℕ → ℕ
  mode_of none = sys.rtld_lazy
  mode_of (some m) = m

  -- the file that a linker script names; `again` is the call of the constructor on it
  abbrev pub redirect :
      (List ℕ → Exec (Dynamic S) Unit) → Option (List ℕ) → Option (List ℕ) → Exec (Dynamic S) Unit
  redirect again err none = throw (linking_error err)
  redirect again err (some file) = again file

  -- what the constructor does where `err.match` has matched, or not
  unfoldable pub follow :
      (List ℕ → Exec (Dynamic S) Unit) → Option (List ℕ) → Option (List ℕ) → Exec (Dynamic S) Unit
  follow again err none = throw (linking_error err)
  follow again err (some script) = do
    content ← on_system (sys.read script)
    redirect again err (group_file content)

  abbrev pub after_error :
      (List ℕ → Exec (Dynamic S) Unit) → Option (List ℕ) → Exec (Dynamic S) Unit
  after_error again none = throw null_value
  after_error again (some text) = follow again (some text) (script_path text)

  -- `DynamicLibrary(path, mode)`. The fuel bounds how many linker scripts name one another.
  unfoldable pub dynamic_library : ℕ → Option (List ℕ) → Option ℕ → Exec (Dynamic S) Unit
  dynamic_library zero path mode = throw out_of_fuel
  dynamic_library (suc fuel) path mode = do
    modify (λ s. record s { path = path })
    handle ← on_system (sys.dlopen path (mode_of mode))
    modify (λ s. record s { handle = handle })
    let again : List ℕ → Exec (Dynamic S) Unit =
        λ file. dynamic_library fuel (some file) (some (mode_of mode))
    if handle == 0 then error >>= after_error again else pure tt

  -- `close()`
  unfoldable pub close : Exec (Dynamic S) ℕ
  close s = on_system (sys.dlclose s.handle) s

  -- `get(symbol)`
  unfoldable pub get : List ℕ → Exec (Dynamic S) ℕ
  get symbol = do
    handle ← gets (λ s. s.handle)
    ptr ← on_system (sys.dlsym handle symbol)
    if ptr == 0 then error >>= (λ err. throw (symbol_error err)) else pure ptr

  -- `path()`
  abbrev pub path_of : Exec (Dynamic S) (Option (List ℕ))
  path_of = gets (λ s. s.path)
