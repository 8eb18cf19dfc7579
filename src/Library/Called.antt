-- ===== src/Library/Called.antt =====
-- lib/library.js with lib/_foreign_function.js: a call of a function of a library.
use node_ffi_napi.Prelude.{
  ℕ, String, suc, ◌+◌, ◌*◌, ◌≡◌, ◌≢◌, ◌<◌, refl, Option, some, List, [], ◌∷◌, false, ==_false, leb,
  if◌then◌else◌, length,
}
use node_ffi_napi.Effect.{ok, Exec}
use node_ffi_napi.PointerArray.{placed}
use node_ffi_napi.Types.{Ref}
use node_ffi_napi.Types.Results.{CoerceLaws}
use node_ffi_napi.Cif.{Libffi}
use node_ffi_napi.Foreign.{read_result, Proxy, Native, call}
use node_ffi_napi.Foreign.Marshal.{alloc_all}
use node_ffi_napi.Foreign.Calls.{call_marshals}
use node_ffi_napi.Foreign.Exact.{description, foreign_function_known}
use node_ffi_napi.Dynamic.{System, get}
use node_ffi_napi.Library.{
  opened, Info, abi_of, async_of, varargs_of, function, entry_for, Building, set_entry, make_entry,
  define, define_all, open_library, library,
}
use node_ffi_napi.Library.Returns.{IsCallable}
use node_ffi_napi.Library.Defined.{same_text_refl}

module _ {S M V : Type 0} (sys : System S) (ref : Ref) (laws : CoerceLaws ref) (ffi : Libffi)
    (fuel long_size : ℕ) (nat : Native M V) where
  module _ (func : List ℕ) (info : Info) (s : Building S) (p : ℕ)
      (c : IsCallable sys ref laws ffi fuel long_size s.types info) where
    -- the function that is made for the symbol
    abbrev pub symbol : Proxy
    symbol = record {
      cif = description ref laws ffi fuel c.r c.ts c.rp c.ps (abi_of info.fopts) s.types;
      func_ptr = p;
      return_type = c.r;
      arg_types = c.ts;
      result_size = if leb long_size (ref.obj c.r).size then (ref.obj c.r).size else ffi.arg_size;
    }

    -- the C call of the symbol on these addresses, and the reading of its result
    abbrev pub c_call : List ℕ → Exec M V
    c_call ps m = read_result ref nat c.r (
        nat.ffi_call symbol.cif p symbol.result_size
          (record { size = length c.ts * ref.pointer_size; writes = placed ref.pointer_size 0 ps })
          m)

    made :
        0 < ffi.arg_size
        → varargs_of info.fopts ≡ false
        → make_entry sys ref ffi (suc fuel) long_size p info s
          ≡ (ok (entry_for (async_of info.fopts) symbol), s)
    unfolding make_entry
    made wide fixed =
        rw
          (
            fixed,
            c.result,
            c.params,
            foreign_function_known ref laws ffi fuel c.r c.ts c.rp c.ps (abi_of info.fopts) s.types
                c.known c.all c.accepted long_size p c.sized wide,
          )
          refl

  -- the library that is given, after the symbol was looked up
  abbrev pub looked_up : Building S → Option (List ℕ) → ℕ → S → Building S
  looked_up s path handle u = record s { dl = record { system = u; path = path; handle = handle } }

  pub defined :
      (func : List ℕ) (info : Info) (s : Building S) (p handle : ℕ) (path : Option (List ℕ)) (u : S)
      (c : IsCallable sys ref laws ffi fuel long_size s.types info)
      → 0 < ffi.arg_size
      → varargs_of info.fopts ≡ false
      → p ≢ 0
      → sys.dlsym handle func s.dl.system ≡ (ok p, u)
      → define sys ref ffi (suc fuel) long_size func info (looked_up s path handle s.dl.system) ≡ (
        ok tt,
        record (looked_up s path handle u) {
          lib = set_entry s.lib func (entry_for (async_of info.fopts) (symbol func info s p c));
        },
      )
  unfolding define get
  defined func info s p handle path u c wide fixed there exported =
      rw
        (
          exported,
          ==_false p 0 there,
          ==_false p 0 there,
          made func info (looked_up s path handle u) p c wide fixed,
        )
        refl

  -- The function that `Library` makes for a symbol of an open library calls that symbol: for types that have
  -- their `ffi_type`s and that libffi accepts, and neither the option varargs nor async, `lib` has a
  -- function whose call, with the right number of arguments, all of which can be allocated, is the C call
  -- of the address that `dlsym` gives, on an array of their addresses in order, and the reading of its
  -- result.
  pub library_calls :
      (links : ℕ) (platform : String) (rtld_now : ℕ) (path : Option (List ℕ)) (handle : ℕ)
      (func : List ℕ) (info : Info) (s : Building S) (p : ℕ) (u : S)
      (c : IsCallable sys ref laws ffi fuel long_size s.types info) (args : List V) (ps : List ℕ)
      (m n : M)
      → 0 < ffi.arg_size
      → varargs_of info.fopts ≡ false
      → async_of info.fopts ≡ false
      → p ≢ 0
      → sys.dlsym handle func s.dl.system ≡ (ok p, u)
      → length args ≡ length c.ts
      → alloc_all ref nat (λ i. i + 1) c.ts args 0 m ≡ (ok ps, n)
      → (f : Proxy) × ((library sys ref ffi
              (suc fuel)
              long_size
              links
              platform
              rtld_now
              (opened path handle)
              ((func, info) ∷ [])
              s).1.lib
            func
          ≡ some (function f))
        × (call ref nat f args m ≡ c_call func info s p c ps n)
  unfolding library open_library define_all
  library_calls links platform rtld_now path handle func info s p u c args ps m n wide fixed sync
        there exported counted allocated =
      (
        symbol func info s p c,
        rw
            (
              defined func info s p handle path u c wide fixed there exported,
              sync,
              same_text_refl func,
            )
            refl,
        (call_marshals ref nat (symbol func info s p c) args ps m n counted allocated).0,
      )
