-- ===== src/Library/Built.antt =====
-- lib/library.js: the loop over the functions that are named.
use node_ffi_napi.Prelude.{
  ℕ, ◌≡◌, ◌≢◌, ◌∙◌, refl, ap, subst, inl, inr, ==_iff, Bool-cases, List, [], ◌∷◌, ◌++◌, ◌==◌,
}
use node_ffi_napi.Effect.Laws.{Ensures, Ensures-pure, Ensures-bind, Ensures-weaken}
use node_ffi_napi.Types.{Ref}
use node_ffi_napi.Cif.{Libffi}
use node_ffi_napi.Dynamic.{System, get}
use node_ffi_napi.Dynamic.Handles.{get_found}
use node_ffi_napi.Library.{Info, Entry, Building, set_entry, on_dl, make_entry, define, define_all}
use node_ffi_napi.Library.Entries.{IsMade, Lib, Same, make_entry-IsMade}

module _ {S : Type 0} (sys : System S) (ref : Ref) (ffi : Libffi) (fuel long_size : ℕ) where
  -- what `forEach`'s function has done where it returned
  record IsDefined (func : List ℕ) (info : Info) (s t : Building S) : Type 0 where
    ptr : ℕ
    entry : Entry
    not_null : ptr ≢ 0
    is_made : IsMade sys ref ffi fuel long_size ptr info entry
    lib : t.lib ≡ set_entry s.lib func entry
    handle : t.dl.handle ≡ s.dl.handle

  on_get :
      (func : List ℕ) (s : Building S)
      → Ensures
          (λ p t. (p ≢ 0) × Same sys ref ffi fuel long_size s t)
          (λ _ t. Same sys ref ffi fuel long_size s t)
          (on_dl sys ref ffi fuel long_size (get sys func) s)
  on_get func s =
      let found = get_found sys func s.dl in
      record {
        on_ok = λ p e. ((found.on_ok p e).0, record { lib = refl; handle = (found.on_ok p e).1 });
        on_err = λ x e. record { lib = refl; handle = (found.on_err x e).0 };
      }

  define-IsDefined :
      (func : List ℕ) (info : Info) (s : Building S)
      → Ensures
          (λ _ t. IsDefined func info s t)
          (λ _ t. Same sys ref ffi fuel long_size s t)
          (define sys ref ffi fuel long_size func info s)
  unfolding define
  define-IsDefined func info s =
      Ensures-bind (on_dl sys ref ffi fuel long_size (get sys func)) _ s (on_get func s)
        λ p t (found, same). elim (Bool-cases (p == 0)) [
          | inl null ↦ absurd (found ((==_iff p 0).0 null))
          | inr there ↦ rw there (
              Ensures-bind (make_entry sys ref ffi fuel long_size p info) _ t
                (Ensures-weaken (make_entry-IsMade sys ref ffi fuel long_size p info t) (λ e u h. h)
                  (λ x u h. along same h))
                λ e u (is_made, same'). Ensures-pure tt _ (record {
                  ptr = p;
                  entry = e;
                  not_null = found;
                  is_made = is_made;
                  lib = ap (λ l. set_entry l func e) (along same same').lib;
                  handle = (along same same').handle;
                }))
        ]
    where
      along :
          {s t u : Building S}
          → Same sys ref ffi fuel long_size s t
          → Same sys ref ffi fuel long_size t u
          → Same sys ref ffi fuel long_size s u
      along h k = record { lib = k.lib ∙ h.lib; handle = k.handle ∙ h.handle }

  -- The entries that these functions have been given, one after the other.
  abbrev pub Built :
      List (List ℕ × Info)
      → Lib sys ref ffi fuel long_size
      → Lib sys ref ffi fuel long_size
      → Type 0
  Built [] l l' = l' ≡ l
  Built ((func, info) ∷ funcs) l l' =
      (p : ℕ) × (e : Entry) × (p ≢ 0)
      × IsMade sys ref ffi fuel long_size p info e
      × Built funcs (set_entry l func e) l'

  -- what `forEach` has done where it threw
  pub record IsPartial (funcs : List (List ℕ × Info)) (s t : Building S) : Type 0 where
    pub done : List (List ℕ × Info)
    pub rest : List (List ℕ × Info)
    pub split : funcs ≡ done ++ rest
    pub built : Built done s.lib t.lib
    pub handle : t.dl.handle ≡ s.dl.handle

  pub define_all-Built :
      (funcs : List (List ℕ × Info)) (s : Building S)
      → Ensures
          (λ _ t. Built funcs s.lib t.lib × (t.dl.handle ≡ s.dl.handle))
          (λ _ t. IsPartial funcs s t)
          (define_all sys ref ffi fuel long_size funcs s)
  unfolding define_all
  define_all-Built [] s = Ensures-pure tt s (refl, refl)
  define_all-Built ((func, info) ∷ funcs) s =
      Ensures-bind (define sys ref ffi fuel long_size func info) _ s
        (Ensures-weaken (define-IsDefined func info s) (λ u t h. h)
          (λ x t h. record {
            done = [];
            rest = (func, info) ∷ funcs;
            split = refl;
            built = h.lib;
            handle = h.handle;
          }))
        λ u t d.
          Ensures-weaken (define_all-Built funcs t)
            (λ v w h. (
              (d.ptr, d.entry, d.not_null, d.is_made, subst (λ l. Built funcs l w.lib) d.lib h.0),
              h.1 ∙ d.handle,
            ))
            (λ x w h. record {
              done = (func, info) ∷ h.done;
              rest = h.rest;
              split = ap (λ l. (func, info) ∷ l) h.split;
              built = (
                d.ptr,
                d.entry,
                d.not_null,
                d.is_made,
                subst (λ l. Built h.done l w.lib) d.lib h.built,
              );
              handle = h.handle ∙ d.handle;
            })
