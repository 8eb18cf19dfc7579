-- ===== src/Variadic/Started.antt =====
-- lib/foreign_function_var.js: the generator that `VariadicForeignFunction` returns.
use node_ffi_napi.Prelude.{ℕ, ◌+◌, ◌≤◌, ◌≡◌, refl, Option, some, List, [], ◌∷◌, length, arith}
use node_ffi_napi.Effect.{ok}
use node_ffi_napi.Types.{object, Ref}
use node_ffi_napi.Types.Results.{CoerceLaws}
use node_ffi_napi.Cif.{Libffi}
use node_ffi_napi.Foreign.{objects}
use node_ffi_napi.Foreign.Made.{coerce_all_same}
use node_ffi_napi.Variadic.{Ids, get_id, get_ids, Generator, Session, variadic_foreign_function}
use node_ffi_napi.Variadic.Known.{IdsOk, HasIds, Extends, Extends-refl, Extends-trans, get_id-GotId}
use node_ffi_napi.Variadic.Cache.{CacheOk}

-- What `getId` on every type gives.
pub record GotIds (ts : List ℕ) (i : Ids) (r : List (List ℕ) × Ids) : Type 0 where
  pub fine : IdsOk r.1
  pub extends : Extends i r.1
  pub has : HasIds r.1 ts r.0
  pub counted : r.1.counter ≤ i.counter + length ts

pub get_ids-GotIds :
    (ts : List ℕ) (i : Ids) → IdsOk i → i.counter + length ts ≤ 0x10000 → GotIds ts i (get_ids ts i)
unfolding get_ids
get_ids-GotIds [] i ids_ok room = record {
  fine = ids_ok;
  extends = Extends-refl i;
  has = tt;
  counted = omega arith;
}
get_ids-GotIds (t ∷ ts) i ids_ok room =
    let h = get_id-GotId t i ids_ok (omega arith) in
    let later = get_ids-GotIds ts (get_id t i).1 h.fine (omega (arith, h.one_more)) in
    record {
      fine = later.fine;
      extends = Extends-trans h.extends later.extends;
      has = (later.extends.kept t (get_id t i).0 h.has, later.has);
      counted = omega (arith, h.one_more, later.counted);
    }

module _ (ref : Ref) (ffi : Libffi) (fuel long_size : ℕ) where
  -- While the ids have not gone round, `VariadicForeignFunction` on type objects returns a
  -- generator for the function and the types that it was given, whose cache is sound, as its calls
  -- need it.
  pub variadic_foreign_function-CacheOk :
      CoerceLaws ref
      → (func_ptr r : ℕ) (ts : List ℕ) (abi : Option ℕ) (s : Session) → IdsOk s.ids
      → s.ids.counter + length ts ≤ 0x10000
      → (g : Generator) × (t : Session) × (variadic_foreign_function ref ffi fuel long_size
            (some func_ptr)
            (object r)
            (some (objects ts))
            abi
            s
          ≡ (ok g, t))
        × (g.func_ptr ≡ func_ptr)
        × (g.fixed_arg_types ≡ ts)
        × CacheOk g t
  unfolding variadic_foreign_function
  variadic_foreign_function-CacheOk laws func_ptr r ts abi s ids_ok room =
      let h = get_ids-GotIds ts s.ids ids_ok room in
      (
        record {
          func_ptr = func_ptr;
          return_type = object r;
          fixed_arg_types = ts;
          fixed_key = (get_ids ts s.ids).0;
          abi = abi;
        },
        record { types = s.types; ids = (get_ids ts s.ids).1; cache = [] },
        rw (coerce_all_same ref laws ts s.types) refl,
        refl,
        refl,
        record { fine = h.fine; fixed = h.has; entries = tt },
      )
