-- ===== src/Static/Numbers.antt =====
-- lib/errno.js: what `errno` reads.
use node_ffi_napi.Prelude.{
  ℕ, suc, ◌≡◌, ◌≢◌, refl, ap, false, inl, inr, Bool-cases, some, [], String, ◌==◌, ==_false, str_eq,
  eq_iff, arith,
}
use node_ffi_napi.Effect.{ok, Exec, ◌>>=◌}
use node_ffi_napi.PointerArray
use node_ffi_napi.PointerArray.{PointerArray}
use node_ffi_napi.Bindings.{builtin, pointer_type}
use node_ffi_napi.Types.{Types, object, named, Ref}
use node_ffi_napi.Types.Results.{CoerceLaws}
use node_ffi_napi.Types.Known.{pointer-IsKnown}
use node_ffi_napi.Cif.{Libffi}
use node_ffi_napi.Foreign.{read_result, Proxy, Native, call, set_arguments, coerce_all}
use node_ffi_napi.Foreign.Calls.{invoke}
use node_ffi_napi.Dynamic.{System, dynamic_library, get}
use node_ffi_napi.Static.{
  StaticFunctions, StaticTypes, through, direct, Opening, msvcrt, errno_name, errno_on_windows,
  errno_elsewhere, load_errno, errno,
}
use node_ffi_napi.Static.Loaded.{IsReady, proxy_of, foreign_known}

module _ {M V : Type 0} (ref : Ref) (nat : Native M V) where
  call_empty :
      (f : Proxy) (s : M)
      → f.arg_types ≡ []
      → call ref nat f [] s ≡ invoke ref nat f (PointerArray.alloc 0) s
  unfolding call set_arguments
  call_empty f s no_types = rw no_types (
      ap (λ (n : ℕ). invoke ref nat (record f { arg_types = [] }) (PointerArray.alloc n) s)
        (omega arith))

module _ (ref : Ref) (ffi : Libffi) (types : StaticTypes) (laws : CoerceLaws ref)
    (fuel long_size text : ℕ) (s : Types) (ready : IsReady ref ffi types text s) where
  -- the proxy of the C function at this address, that returns an int, or a pointer to one
  abbrev pub errno_proxy : ℕ → Proxy
  errno_proxy ptr =
      proxy_of ref ffi types laws fuel long_size text s ready ptr types.int (builtin "int") [] []

  abbrev pub pointer_proxy : ℕ → Proxy
  pointer_proxy ptr =
      proxy_of ref ffi types laws fuel long_size text s ready ptr types.int_ptr pointer_type [] []

module _ {S M V : Type 0} (ref : Ref) (ffi : Libffi) (types : StaticTypes) (laws : CoerceLaws ref)
    (fuel long_size text : ℕ) (o : Opening S) (ready : IsReady ref ffi types text o.types)
    (sys : System S) (funcs : StaticFunctions) (nat : Native M V)
    (deref_buffer : V → Exec M V) where
  abbrev by_value : Proxy
  by_value = errno_proxy ref ffi types laws fuel long_size text o.types ready funcs.errno

  abbrev by_pointer : ℕ → Proxy
  by_pointer ptr = pointer_proxy ref ffi types laws fuel long_size text o.types ready ptr

  -- On another platform than Windows, loading lib/errno.js opens no library and makes `errno` the C
  -- function of src/ffi.cc; each call of it calls this function without arguments, and returns the int
  -- that is read from its result.
  pub errno_is_function :
      (platform : String)
      → platform ≢ "win32"
      → (load_errno ref ffi (suc fuel) long_size types sys funcs platform o
          ≡ (ok (direct by_value), o))
        × ((m : M)
            → errno ref nat deref_buffer (direct by_value) m ≡ (
                read_result ref nat types.int (
                  nat.ffi_call by_value.cif funcs.errno by_value.result_size
                    (PointerArray.alloc 0)
                    m)))
  unfolding load_errno errno_elsewhere coerce_all errno
  errno_is_function platform elsewhere = (
    rw
        (
          other platform elsewhere,
          foreign_known ref ffi types laws fuel long_size text o.types ready funcs.errno types.int
              (builtin "int") [] [] (named "int") [] ready.int_known tt refl (inl refl, tt)
              ready.int_sized refl ready.int_named refl,
        )
        refl,
    λ m. call_empty ref nat by_value m refl,
  )
    where
      other : (p : String) → p ≢ "win32" → str_eq p "win32" ≡ false
      other p h = elim (Bool-cases (str_eq p "win32")) [
        | inl same ↦ absurd (h ((eq_iff p "win32").0 same))
        | inr differ ↦ differ
      ]

  -- On Windows, if `dlopen` opens msvcrt.dll and `dlsym` finds `_errno` in it, loading lib/errno.js makes a
  -- function of that address that returns a pointer to an int; each call of `errno` calls it without
  -- arguments and returns what the method `deref` gives of the pointer that it returns.
  pub errno_through_pointer :
      (handle ptr : ℕ) (t u : S)
      → sys.dlopen (some msvcrt) sys.rtld_lazy o.dl.system ≡ (ok handle, t)
      → handle ≢ 0
      → sys.dlsym handle errno_name t ≡ (ok ptr, u)
      → ptr ≢ 0
      → (load_errno ref ffi (suc fuel) long_size types sys funcs "win32" o ≡ (
        ok (through (by_pointer ptr)),
        record o { dl = record { system = u; path = some msvcrt; handle = handle } },
      ))
        × ((m : M)
            → errno ref nat deref_buffer (through (by_pointer ptr)) m
              ≡ (invoke ref nat (by_pointer ptr) (PointerArray.alloc 0) >>= deref_buffer) m)
  unfolding load_errno errno_on_windows dynamic_library get coerce_all errno
  errno_through_pointer handle ptr t u opens handle_set finds ptr_set = (
    rw
        (
          opens,
          not_zero handle handle_set,
          finds,
          not_zero ptr ptr_set,
          foreign_known ref ffi types laws fuel long_size text o.types ready ptr types.int_ptr
              pointer_type [] [] (object types.int_ptr) []
              (pointer-IsKnown ref o.types types.int_ptr ready.int_pointer) tt refl (inr refl, tt)
              ready.int_pointer_sized refl (laws.same types.int_ptr o.types) refl,
        )
        refl,
    λ m. rw (call_empty ref nat (by_pointer ptr) m refl) refl,
  )
    where
      not_zero : (n : ℕ) → n ≢ 0 → (n == 0) ≡ false
      not_zero n h = ==_false n 0 h
