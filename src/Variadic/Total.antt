-- ===== src/Variadic/Total.antt =====
-- lib/foreign_function_var.js: a call of a generator for types that have their `ffi_type`, and another.
use node_ffi_napi.Prelude.{ℕ, ◌≤◌, ◌<◌, ◌≡◌, true, List, ◌++◌, All, length}
use node_ffi_napi.Bindings.{FfiPtr}
use node_ffi_napi.Types.{Types, object, Ref}
use node_ffi_napi.Types.Results.{CoerceLaws}
use node_ffi_napi.Types.Known.{IsKnown}
use node_ffi_napi.Cif.{Libffi}
use node_ffi_napi.Foreign.Exact.{AllKnown, verdict_var}
use node_ffi_napi.Variadic.{Generator, is_named}

abbrev AllNamed : List FfiPtr → Type 0
AllNamed = All (λ p. is_named p ≡ true)

module _ (ref : Ref) (laws : CoerceLaws ref) (ffi : Libffi) (fuel long_size : ℕ) where
  -- The types of a generator, of the variable arguments and of the result have their `ffi_type`s, those
  -- of the variable arguments with a name, some argument is fixed, and libffi accepts the description.
  pub record IsReady (g : Generator) (r : ℕ) (ts : List ℕ) (s : Types) : Type 0 where
    pub given : ℕ
    pub given_ptr : FfiPtr
    pub fixed_ptrs : List FfiPtr
    pub ptrs : List FfiPtr
    pub return_same : g.return_type ≡ object given
    pub given_known : IsKnown ref s given given_ptr
    pub fixed_known : AllKnown ref s g.fixed_arg_types fixed_ptrs
    pub known : AllKnown ref s ts ptrs
    pub names : AllNamed ptrs
    pub some_fixed : 1 ≤ length g.fixed_arg_types
    pub accepted :
        verdict_var ref laws ffi fuel given
          (g.fixed_arg_types ++ ts)
          given_ptr
          (fixed_ptrs ++ ptrs)
          g.abi
          s
          (length g.fixed_arg_types)
        ≡ ffi.status_ok
    pub sized : 0 < (ref.obj r).size
    pub wide : 0 < ffi.arg_size
