-- ===== src/Library.antt =====
-- lib/library.js: an object with a function for each C function that is named.
pub mod Text
pub mod Entries
pub mod Built
pub mod Defined
pub mod Returns
pub mod Called
pub mod Awaited
use node_ffi_napi.Prelude.{
  ℕ, String, Option, none, some, List, [], ◌∷◌, ◌++◌, Bool, true, false, ◌==◌, ◌&&◌, ◌||◌, str_eq,
  if◌then◌else◌, not,
}
use node_ffi_napi.Effect.{null_function, Result, ok, Exec, pure, throw, gets, modify, ◌>>=◌, ◌>>◌}
use node_ffi_napi.Types.{Types, TypeArg, Ref}
use node_ffi_napi.Cif.{Libffi}
use node_ffi_napi.Foreign.{Proxy, foreign_function}
use node_ffi_napi.Variadic.{Ids, Generator, Session, same_text, variadic_foreign_function}
use node_ffi_napi.Dynamic.{System, Dynamic, dynamic_library, get, path_of}

abbrev so_text : List ℕ
so_text = b'.' ∷ b's' ∷ b'o' ∷ []

abbrev dylib_text : List ℕ
dylib_text = b'.' ∷ b'd' ∷ b'y' ∷ b'l' ∷ b'i' ∷ b'b' ∷ []

abbrev dll_text : List ℕ
dll_text = b'.' ∷ b'd' ∷ b'l' ∷ b'l' ∷ []

-- `EXT` for a `process.platform`, none where it is undefined
unfoldable pub ext : String → Option (List ℕ)
ext platform =
    if str_eq platform "linux"
      || (str_eq platform "linux2"
          || (str_eq platform "sunos"
              || (str_eq platform "solaris"
                  || (str_eq platform "freebsd" || str_eq platform "openbsd"))))
    then some so_text
    else if str_eq platform "darwin" || str_eq platform "mac"
    then some dylib_text
    else if str_eq platform "win32"
    then some dll_text
    else none

-- `EXT` where a string is wanted
abbrev pub ext_text : Option (List ℕ) → List ℕ
ext_text (some e) = e
ext_text none = b'u' ∷ b'n' ∷ b'd' ∷ b'e' ∷ b'f' ∷ b'i' ∷ b'n' ∷ b'e' ∷ b'd' ∷ []

-- whether a text stands at the start of another
unfoldable pub starts_with : List ℕ → List ℕ → Bool
starts_with [] text = true
starts_with (c ∷ part) [] = false
starts_with (c ∷ part) (d ∷ text) = c == d && starts_with part text

-- `text.indexOf(part) !== -1`
unfoldable pub contains : List ℕ → List ℕ → Bool
unfolding starts_with
contains part [] = starts_with part []
contains part (d ∷ text) = starts_with part (d ∷ text) || contains part text

-- the name of the file after `libfile += EXT`, for a `libfile` that is a string
unfoldable pub with_ext : Option (List ℕ) → List ℕ → List ℕ
with_ext e [] = []
with_ext e (c ∷ name) =
    if contains (ext_text e) (c ∷ name) then c ∷ name else (c ∷ name) ++ ext_text e

-- `libfile || null` for a string
abbrev pub or_null : List ℕ → Option (List ℕ)
or_null [] = none
or_null (c ∷ name) = some (c ∷ name)

-- `libfile`: a string, nothing, or an object that is a `DynamicLibrary`.
pub data LibFile : Type 0 where
  text : (name : List ℕ) → LibFile
  absent : LibFile
  opened : (path : Option (List ℕ)) (handle : ℕ) → LibFile

-- `info[2]`
pub record Options : Type 0 where
  pub abi : Option ℕ
  pub async : Bool
  pub varargs : Bool

-- `info`
pub record Info : Type 0 where
  pub result_type : TypeArg
  pub param_types : Option (List TypeArg)
  pub fopts : Option Options

-- `fopts && fopts.abi`, and the others
abbrev pub abi_of : Option Options → Option ℕ
abi_of none = none
abi_of (some o) = o.abi

abbrev pub async_of : Option Options → Bool
async_of none = false
async_of (some o) = o.async

abbrev pub varargs_of : Option Options → Bool
varargs_of none = false
varargs_of (some o) = o.varargs

-- A property of `lib`: a function, the `async` of one, or a generator, with its cache.
pub data Entry : Type 0 where
  function : (proxy : Proxy) → Entry
  async_function : (proxy : Proxy) → Entry
  variadic : (generator : Generator) (cache : List (List ℕ × Proxy)) → Entry

-- `async ? ff.async : ff`
abbrev pub entry_for : Bool → Proxy → Entry
entry_for true f = async_function f
entry_for false f = function f

-- The types and their ids, the library that is open, and `lib`.
pub record Building (S : Type 0) : Type 0 where
  pub types : Types
  pub ids : Ids
  pub dl : Dynamic S
  pub lib : List ℕ → Option Entry

abbrev pub set_entry : (List ℕ → Option Entry) → List ℕ → Entry → List ℕ → Option Entry
set_entry lib name e k = if same_text name k then some e else lib k

module _ {S : Type 0} (sys : System S) (ref : Ref) (ffi : Libffi) (fuel long_size : ℕ) where
  abbrev pub on_dl : {A : Type 0} → Exec (Dynamic S) A → Building S → Result A × Building S
  on_dl m s = let (r, d) = m s.dl in (r, record s { dl = d })

  abbrev pub on_types : {A : Type 0} → Exec Types A → Building S → Result A × Building S
  on_types m s = let (r, t) = m s.types in (r, record s { types = t })

  -- on the types and the ids, with a new cache, which it leaves
  abbrev pub on_session :
      {A : Type 0} → Exec Session A → Building S → Result (A × List (List ℕ × Proxy)) × Building S
  on_session m s =
      let (r, t) =
        (m >>= λ a u. (ok (a, u.cache), u)) (record { types = s.types; ids = s.ids; cache = [] }) in
      (r, record s { types = t.types; ids = t.ids })

  -- what is assigned to `lib[func]`, for the C function at this address
  unfoldable pub make_entry : ℕ → Info → Exec (Building S) Entry
  make_entry fptr info =
      if varargs_of info.fopts
      then (do
        g ← on_session (
            variadic_foreign_function ref ffi fuel long_size (some fptr) info.result_type
              info.param_types (abi_of info.fopts))
        pure (variadic g.0 g.1))
      else (do
        ff ← on_types (
            foreign_function ref ffi fuel long_size (some fptr) info.result_type info.param_types
              (abi_of info.fopts))
        pure (entry_for (async_of info.fopts) ff))

  -- the function that `forEach` is given
  unfoldable pub define : List ℕ → Info → Exec (Building S) Unit
  unfolding make_entry
  define func info = do
    fptr ← on_dl (get sys func)
    path ← on_dl (path_of sys)
    if fptr == 0 then throw (null_function path func) else pure tt
    entry ← make_entry fptr info
    modify (λ s. record s { lib = set_entry s.lib func entry })

  -- `Object.keys(funcs || {}).forEach(...)`
  unfoldable pub define_all : List (List ℕ × Info) → Exec (Building S) Unit
  unfolding define
  define_all [] = pure tt
  define_all ((func, info) ∷ funcs) = do define func info; define_all funcs

  -- the library: opened under the name, or the given one
  unfoldable pub open_library :
      (links : ℕ) → Option (List ℕ) → (rtld_now : ℕ) → LibFile → Exec (Building S) Unit
  open_library links e rtld_now (text name) =
      on_dl (dynamic_library sys links (or_null (with_ext e name)) (some rtld_now))
  open_library links e rtld_now absent = on_dl (dynamic_library sys links none (some rtld_now))
  open_library links e rtld_now (opened path handle) =
      modify (λ s. record s { dl = record (s.dl) { path = path; handle = handle } })

  -- `Library(libfile, funcs, lib)`, on a state that holds `lib`
  unfoldable pub library :
      (links : ℕ)
      → String
      → (rtld_now : ℕ) → LibFile
      → List (List ℕ × Info)
      → Exec (Building S) Unit
  unfolding define_all open_library
  library links platform rtld_now libfile funcs = do
    open_library links (ext platform) rtld_now libfile
    define_all funcs
