-- ===== src/Init/Loaded.antt =====
-- lib/ffi.js: what `Type` finds once the module is loaded.
use node_ffi_napi.Prelude.{
  ℕ, suc, ◌≡◌, ◌≢◌, ◌⊎◌, refl, inl, inr, String, some, List, ◌∷◌, true, false, ◌==◌, ==_iff,
  ==_false, str_eq, eq_iff, if◌then◌else◌, All, arith,
}
use node_ffi_napi.Effect.{ok}
use node_ffi_napi.Bindings.{FfiPtr, builtin, has_name, ffi_type_names, pointer_type}
use node_ffi_napi.Types.{Types, object, Ref, assign_ffi, ffi_type_of}
use node_ffi_napi.Types.Results.{CoerceLaws}
use node_ffi_napi.Types.Known.{own-IsKnown, ffi_type_of_known}
use node_ffi_napi.Init.{RefTypes, Loading, assign_long, load}
use node_ffi_napi.Init.Tables.{after, assign_types-after, after-own, after-name}

-- the names of the types that the module changes
abbrev pub ref_names : List String
ref_names = "size_t" ∷ "CString" ∷ "Object" ∷ "ulong" ∷ "long" ∷ ffi_type_names

-- What ref-napi has: a type object of its own under each of the names, and a known size of `long`.
pub record IsRefNapi (rt : RefTypes) (index : String → ℕ) : Type 0 where
  pub distinct :
      (k : String) → has_name k ref_names ≡ true → (j : String) → index j ≡ index k → j ≡ k
  pub table : All (λ k. k ≢ "pointer" → rt.type_of k ≡ some (index k)) ffi_type_names
  pub size_t : rt.type_of "size_t" ≡ some (index "size_t")
  pub cstring : rt.type_of "CString" ≡ some (index "CString")
  pub object : rt.type_of "Object" ≡ some (index "Object")
  pub ulong : rt.type_of "ulong" ≡ some (index "ulong")
  pub long : rt.type_of "long" ≡ some (index "long")
  pub long_size : (rt.long_size ≡ 4) ⊎ (rt.long_size ≡ 8)

-- `Type` returns this for this type object, and changes nothing.
abbrev pub Finds : Ref → ℕ → Types → ℕ → FfiPtr → Type 0
Finds ref fuel s t p = ffi_type_of ref (suc fuel) (object t) s ≡ (ok p, s)

module _ (rt : RefTypes) (index : String → ℕ) where
  -- the number type as wide as a `long`
  abbrev pub long_type : FfiPtr
  long_type = if rt.long_size == 4 then builtin "int32" else builtin "int64"

  abbrev pub ulong_type : FfiPtr
  ulong_type = if rt.long_size == 4 then builtin "uint32" else builtin "uint64"

  abbrev set_type : String → FfiPtr → Loading → Loading
  set_type k p s = record s { types = (assign_ffi (index k) (some p) s.types).1 }

  abbrev finished : Loading → Loading
  finished s = set_type "long" long_type (
      set_type "ulong" ulong_type (
        set_type "Object" pointer_type (
          set_type "CString" pointer_type
            (set_type "size_t" pointer_type (after rt index ffi_type_names s)))))

  not_four : rt.long_size ≡ 8 → (rt.long_size == 4) ≡ false
  not_four e = ground (arith, e)

  load-finished : IsRefNapi rt index → (s : Loading) → load rt s ≡ (ok tt, finished s)
  unfolding load assign_long
  load-finished h s = elim h.long_size [
    | inl four ↦
        rw
          (
            assign_types-after rt index ffi_type_names h.table s,
            h.size_t,
            h.cstring,
            h.object,
            h.ulong,
            h.long,
            (==_iff rt.long_size 4).1 four,
          )
          refl
    | inr eight ↦
        rw
          (
            assign_types-after rt index ffi_type_names h.table s,
            h.size_t,
            h.cstring,
            h.object,
            h.ulong,
            h.long,
            not_four eight,
            (==_iff rt.long_size 8).1 eight,
          )
          refl
  ]

  pub load_returns : IsRefNapi rt index → (s : Loading) → load rt s ≡ (ok tt, (load rt s).1)
  load_returns h s = rw (load-finished h s) refl

  module _ (h : IsRefNapi rt index) where
    apart : (j k : String) → has_name k ref_names ≡ true → j ≢ k → (index j == index k) ≡ false
    apart j k there ne = ==_false (index j) (index k) (λ e. ne (h.distinct k there j e))

    self : (k : String) → (index k == index k) ≡ true
    self k = (==_iff (index k) (index k)).1 refl

    texts :
        (j k : String)
        → has_name k ref_names ≡ true
        → str_eq j k ≡ false
        → (index j == index k) ≡ false
    texts j k there differ = apart j k there (λ e. cc (differ, (eq_iff j k).1 e))

    module _ (s : Loading) (k : String) (in_table : has_name k ffi_type_names ≡ true) where
      known : has_name k ref_names ≡ true
      unfolding has_name
      known = ground (arith, in_table)

      off : (j : String) → has_name j ffi_type_names ≡ false → (index j == index k) ≡ false
      off j absent = apart j k known (λ e. cc (rw e at absent, in_table))

      finished-own : k ≢ "pointer" → (finished s).types.ffi_own (index k) ≡ some (some (builtin k))
      unfolding has_name
      finished-own ne =
          rw
            (
              off "long" refl,
              off "ulong" refl,
              off "Object" refl,
              off "CString" refl,
              off "size_t" refl,
            )
            (after-own rt index k (h.distinct k known) ffi_type_names s in_table ne)

    finished-others :
        (s : Loading)
        → let own = (finished s).types.ffi_own in
          (own (index "long") ≡ some (some long_type))
          × (own (index "ulong") ≡ some (some ulong_type))
          × (own (index "Object") ≡ some (some pointer_type))
          × (own (index "CString") ≡ some (some pointer_type))
          × (own (index "size_t") ≡ some (some pointer_type))
    unfolding has_name
    finished-others s = (
      rw (self "long") refl,
      rw (texts "long" "ulong" refl refl, self "ulong") refl,
      rw (texts "long" "Object" refl refl, texts "ulong" "Object" refl refl, self "Object") refl,
      rw
          (
            texts "long" "CString" refl refl,
            texts "ulong" "CString" refl refl,
            texts "Object" "CString" refl refl,
            self "CString",
          )
          refl,
      rw
          (
            texts "long" "size_t" refl refl,
            texts "ulong" "size_t" refl refl,
            texts "Object" "size_t" refl refl,
            texts "CString" "size_t" refl refl,
            self "size_t",
          )
          refl,
    )

    module _ (ref : Ref) (laws : CoerceLaws ref) (fuel : ℕ) (s : Loading) where
      found_own :
          (t : ℕ) (p : FfiPtr)
          → (ref.obj t).indirection ≡ 1
          → (finished s).types.ffi_own t ≡ some (some p)
          → ffi_type_of ref (suc fuel) (object t) (load rt s).1.types ≡ (ok p, (load rt s).1.types)
      found_own t p single own =
          let u = (finished s).types in
          rw (load-finished h s)
            (ffi_type_of_known ref laws fuel t p u (own-IsKnown ref u t p single own))

      -- Once the module is loaded, if the types are no pointers: `Type` on the built-in type of any name in
      -- `FFI_TYPES` but "pointer" returns the libffi type of that name, which has that name; for `long` and
      -- `ulong` it returns the libffi types of their size, and for `size_t`, `CString` and `Object` the
      -- pointer type; it changes nothing.
      pub types_found :
          (k : String)
          → has_name k ffi_type_names ≡ true
          → k ≢ "pointer"
          → ((j : String) → has_name j ref_names ≡ true → (ref.obj (index j)).indirection ≡ 1)
          → Finds ref fuel (load rt s).1.types (index k) (builtin k)
            × ((load rt s).1.name k ≡ some k)
            × Finds ref fuel (load rt s).1.types (index "long") long_type
            × Finds ref fuel (load rt s).1.types (index "ulong") ulong_type
            × Finds ref fuel (load rt s).1.types (index "Object") pointer_type
            × Finds ref fuel (load rt s).1.types (index "CString") pointer_type
            × Finds ref fuel (load rt s).1.types (index "size_t") pointer_type
      unfolding has_name
      types_found k in_table ne single =
          let (l, u, o, c, z) = finished-others s in
          (
            found_own (index k) (builtin k) (single k (known s k in_table))
                (finished-own s k in_table ne),
            rw (load-finished h s) (after-name rt index k ffi_type_names s in_table),
            found_own (index "long") long_type (single "long" refl) l,
            found_own (index "ulong") ulong_type (single "ulong" refl) u,
            found_own (index "Object") pointer_type (single "Object" refl) o,
            found_own (index "CString") pointer_type (single "CString" refl) c,
            found_own (index "size_t") pointer_type (single "size_t" refl) z,
          )
