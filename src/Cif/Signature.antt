-- ===== src/Cif/Signature.antt =====
-- lib/cif.js and lib/cif_var.js: the signature that an `ffi_cif` describes.
use mathlib.Core.List.{append-nil}
use node_ffi_napi.Prelude.{
  ℕ, suc, ◌+◌, ◌*◌, ◌≤◌, ◌≡◌, ◌∙◌, refl, sym, ap, Option, none, some, List, [], ◌∷◌, ◌++◌, true,
  ◌==◌, leb, length, arith,
}
use node_ffi_napi.Effect.{Exn, ok, Exec, ◌>>=◌, ◌>>◌, check, pure}
use node_ffi_napi.Effect.Laws.{
  Ensures, Ensures-pure, Ensures-bind, Ensures-weaken, Ensures-check, Ensures-run,
}
use node_ffi_napi.Bindings.{FfiPtr}
use node_ffi_napi.PointerArray
use node_ffi_napi.PointerArray.{PointerArray, alloc, placed, placed_next, Holds, Holds-placed}
use node_ffi_napi.Types.{Types, TypeArg, Ref, ffi_type_of}
use node_ffi_napi.Cif.{
  Libffi, Cif, is_given, or_default, write_arg_types, status_error, cif, cif_var,
}

module _ (ref : Ref) (fuel : ℕ) where
  -- `ps` are what `Type` returns for the types, one after the other, from one state to another.
  abbrev pub Resolved : List TypeArg → List FfiPtr → Types → Types → Type 0
  Resolved [] ps s u = (ps ≡ []) × (u ≡ s)
  Resolved (a ∷ types) ps s u =
      (p : FfiPtr) × (qs : List FfiPtr) × (t : Types) × (ffi_type_of ref fuel a s ≡ (ok p, t))
      × (ps ≡ p ∷ qs)
      × Resolved types qs t u

  length-Resolved :
      (types : List TypeArg) (ps : List FfiPtr) (s u : Types)
      → Resolved types ps s u
      → length ps ≡ length types
  length-Resolved [] ps s u (e, _) = ap length e
  length-Resolved (a ∷ types) ps s u (p, qs, t, r, e, h) =
      ap length e ∙ ap suc (length-Resolved types qs t u h)

  abbrev Written :
      List TypeArg → ℕ → PointerArray FfiPtr → Types → PointerArray FfiPtr → Types → Type 0
  Written types i b s c u =
      (ps : List FfiPtr) × Resolved types ps s u
      × (c.size ≡ b.size)
      × (c.writes ≡ b.writes ++ placed ref.pointer_size i ps)

  write_arg_types-Written :
      (ffi : Libffi) (types : List TypeArg) (i : ℕ) (b : PointerArray FfiPtr) (s : Types)
      → Ensures (Written types i b s) (λ _ _. Unit) (write_arg_types ref ffi fuel types i b s)
  unfolding write_arg_types
  write_arg_types-Written ffi [] i b s =
      Ensures-pure b s ([], (refl, refl), refl, sym (append-nil b.writes))
  write_arg_types-Written ffi (a ∷ types) i b s =
      Ensures-bind (ffi_type_of ref fuel a) _ s (Ensures-run (ffi_type_of ref fuel a s))
        λ p t returned.
          Ensures-weaken
            (write_arg_types-Written ffi types (i + 1)
              (PointerArray.write_pointer p (i * ref.pointer_size) b) t)
            (λ c u (ps, h, size, writes). (
              p ∷ ps,
              (p, ps, t, returned, refl, h),
              size,
              writes ∙ placed_next ref.pointer_size i p ps b.writes,
            ))
            (λ e u q. q)

  -- The buffer has room for the arguments' types.
  room :
      (types : List TypeArg) (ps : List FfiPtr) (s u : Types)
      → Resolved types ps s u
      → (b : PointerArray FfiPtr) → b.size ≡ length types * ref.pointer_size
      → length ps * ref.pointer_size ≤ b.size
  room types ps s u h b size = rw (size, length-Resolved types ps s u h) (omega arith)

  -- What `prep`, one of libffi's two functions, has accepted: what `Type` returns for the types from
  -- the state `s` on, which is then `u`.
  pub record IsSignature (prep : ℕ → FfiPtr → PointerArray FfiPtr → ℕ → ℕ) (ffi : Libffi)
      (rtype : TypeArg) (types : List TypeArg) (fixed abi : Option ℕ) (s u : Types) (c : Cif)
      : Type 0 where
    pub counted : (c.num_args ≡ length types) × (c.fixed_args ≡ fixed)
    pub resolved :
        (t : Types) × (ps : List FfiPtr) × (ffi_type_of ref fuel rtype s ≡ (ok c.return_type, t))
        × Resolved types ps t u
        × Holds ref.pointer_size ps c.arg_types
    pub convention : c.abi ≡ or_default ffi.default_abi abi
    pub accepted : (prep c.num_args c.return_type c.arg_types c.abi == ffi.status_ok) ≡ true

  -- What `CIF` and `CIF_var` do once their arguments have been checked.
  abbrev prepare :
      (ℕ → FfiPtr → PointerArray FfiPtr → ℕ → ℕ)
      → Libffi
      → TypeArg
      → List TypeArg
      → Option ℕ
      → Option ℕ
      → (ℕ → Exn)
      → Exec Types Cif
  prepare prep ffi rtype types fixed abi error = do
    rtype_ptr ← ffi_type_of ref fuel rtype
    arg_types ←
        write_arg_types ref ffi fuel types 0 (PointerArray.alloc (length types * ref.pointer_size))
    let abi' = or_default ffi.default_abi abi
    let status = prep (length types) rtype_ptr arg_types abi'
    check (status == ffi.status_ok) (error status)
    pure (record {
      fixed_args = fixed;
      num_args = length types;
      return_type = rtype_ptr;
      arg_types = arg_types;
      abi = abi';
    })

  prepare-IsSignature :
      (prep : ℕ → FfiPtr → PointerArray FfiPtr → ℕ → ℕ) (ffi : Libffi) (rtype : TypeArg)
      (types : List TypeArg) (fixed abi : Option ℕ) (error : ℕ → Exn) (s : Types)
      → Ensures
          (λ c u. IsSignature prep ffi rtype types fixed abi s u c)
          (λ _ _. Unit)
          (prepare prep ffi rtype types fixed abi error s)
  prepare-IsSignature prep ffi rtype types fixed abi error s =
      Ensures-bind (ffi_type_of ref fuel rtype) _ s (Ensures-run (ffi_type_of ref fuel rtype s))
        λ p t returned.
          Ensures-bind
            (write_arg_types ref ffi fuel types 0 (alloc (length types * ref.pointer_size))) _ t
            (write_arg_types-Written ffi types 0 (alloc (length types * ref.pointer_size)) t)
            λ b u (ps, h, size, writes).
              let status = prep (length types) p b (or_default ffi.default_abi abi) in
              Ensures-check (status == ffi.status_ok) (error status) _ u
                (λ accepted. Ensures-pure _ u (record {
                  counted = (refl, refl);
                  resolved = (
                    t,
                    ps,
                    returned,
                    h,
                    Holds-placed ref.pointer_size ps b writes (room types ps t u h b size),
                  );
                  convention = refl;
                  accepted = accepted;
                }))
                (λ rejected. tt)

module _ (ref : Ref) (fuel : ℕ) (ffi : Libffi) (rtype : TypeArg) (types : List TypeArg)
    (abi : Option ℕ) (s : Types) where
  -- `CIF` returns only a description that libffi accepted: of the type of the returned value, and,
  -- in order and inside the buffer, of the types of all arguments, under the given or the default ABI.
  pub cif-IsSignature :
      Ensures
        (λ c u. IsSignature ref fuel ffi.prep_cif ffi rtype types none abi s u c)
        (λ _ _. Unit)
        (cif ref ffi fuel rtype (some types) abi s)
  unfolding cif
  cif-IsSignature =
      Ensures-check (is_given rtype) _ _ s
        (λ given.
          prepare-IsSignature ref fuel ffi.prep_cif ffi rtype types none abi
            (λ status. status_error ref ffi fuel "ffi_prep_cif" status none) s)
        (λ missing. tt)

  -- `CIF_var` returns only for at least one fixed argument, and then only a description that libffi
  -- accepted, of the same things, with the number of fixed arguments.
  pub cif_var-IsSignature :
      (num_fixed : ℕ)
      → Ensures
          (λ c u.
            (1 ≤ num_fixed)
            × IsSignature ref fuel
                (ffi.prep_cif_var num_fixed)
                ffi
                rtype
                types
                (some num_fixed)
                abi
                s
                u
                c)
          (λ _ _. Unit)
          (cif_var ref ffi fuel rtype (some types) num_fixed abi s)
  unfolding cif_var
  cif_var-IsSignature num_fixed =
      Ensures-check (is_given rtype) _ _ s
        (λ given.
          Ensures-check (leb 1 num_fixed) _ _ s
            (λ enough.
              Ensures-weaken
                (prepare-IsSignature ref fuel (ffi.prep_cif_var num_fixed) ffi rtype types
                  (some num_fixed) abi
                  (λ status. status_error ref ffi fuel "ffi_prep_cif_var" status (some status)) s)
                (λ c u h. (ground arith, h)) (λ e u h. h))
            (λ few. tt))
        (λ missing. tt)
