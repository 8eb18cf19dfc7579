-- ===== src/Library/Defined.antt =====
-- lib/library.js: what stands in `lib` for each function that is named, and what library is open.
use node_ffi_napi.Prelude.{
  ℕ, String, ◌≡◌, ◌≢◌, ◌∙◌, refl, sym, ap, subst, ==_iff, All, Option, none, some, List, [], ◌∷◌,
  ◌++◌, true, false,
}
use node_ffi_napi.Effect.{Result}
use node_ffi_napi.Effect.Laws.{Ensures, Ensures-pure, Ensures-bind, Ensures-weaken}
use node_ffi_napi.Types.{Ref}
use node_ffi_napi.Cif.{Libffi}
use node_ffi_napi.Variadic.{same_text}
use node_ffi_napi.Dynamic.{System, dynamic_library}
use node_ffi_napi.Dynamic.Handles.{dynamic_library-IsOpen}
use node_ffi_napi.Library.{
  ext, with_ext, or_null, LibFile, text, absent, opened, Info, Entry, Building, set_entry, on_dl,
  open_library, library,
}
use node_ffi_napi.Library.Entries.{IsMade, Lib}
use node_ffi_napi.Library.Built.{Built, IsPartial, define_all-Built}

pub same_text_refl : (s : List ℕ) → same_text s s ≡ true
unfolding same_text
same_text_refl [] = refl
same_text_refl (c ∷ s) = rw ((==_iff c c).1 refl) (same_text_refl s)

-- No function has this name.
abbrev pub IsFresh : List ℕ → List (List ℕ × Info) → Type 0
IsFresh k funcs = All (λ f. same_text f.0 k ≡ false) funcs

-- The functions have different names, as the keys of an object have.
abbrev pub DistinctKeys : List (List ℕ × Info) → Type 0
DistinctKeys [] = Unit
DistinctKeys ((func, info) ∷ funcs) = IsFresh func funcs × DistinctKeys funcs

module _ {S : Type 0} (sys : System S) (ref : Ref) (ffi : Libffi) (fuel long_size : ℕ) where
  -- `lib` has a function of this name, made for a C function of the library that is not NULL, as the
  -- information asks for.
  abbrev pub HasFunction : Lib sys ref ffi fuel long_size → List ℕ × Info → Type 0
  HasFunction lib (func, info) =
      (p : ℕ) × (e : Entry) × (p ≢ 0)
      × IsMade sys ref ffi fuel long_size p info e
      × (lib func ≡ some e)

  -- `lib` has these functions, and for other names what it had.
  pub record HasAll (funcs : List (List ℕ × Info)) (l l' : Lib sys ref ffi fuel long_size)
      : Type 0 where
    pub each : All (HasFunction l') funcs
    pub others : (k : List ℕ) → IsFresh k funcs → l' k ≡ l k

  Built-others :
      (funcs : List (List ℕ × Info)) (l l' : Lib sys ref ffi fuel long_size) (k : List ℕ)
      → Built sys ref ffi fuel long_size funcs l l'
      → IsFresh k funcs
      → l' k ≡ l k
  Built-others [] l l' k b fresh = ap (λ f. f k) b
  Built-others ((func, info) ∷ funcs) l l' k (p, e, there, is_made, b) (other, fresh) =
      Built-others funcs (set_entry l func e) l' k b fresh ∙ rw other refl

  Built-each :
      (funcs : List (List ℕ × Info)) (l l' : Lib sys ref ffi fuel long_size)
      → DistinctKeys funcs
      → Built sys ref ffi fuel long_size funcs l l'
      → All (HasFunction l') funcs
  Built-each [] l l' distinct b = tt
  Built-each ((func, info) ∷ funcs) l l' (fresh, distinct) (p, e, there, is_made, b) = (
    (
      p,
      e,
      there,
      is_made,
      Built-others funcs (set_entry l func e) l' func b fresh ∙ rw (same_text_refl func) refl,
    ),
    Built-each funcs (set_entry l func e) l' distinct b,
  )

  DistinctKeys-prefix :
      (done rest : List (List ℕ × Info)) → DistinctKeys (done ++ rest) → DistinctKeys done
  DistinctKeys-prefix [] rest d = tt
  DistinctKeys-prefix ((func, info) ∷ done) rest (fresh, d) =
      (prefix func done fresh, DistinctKeys-prefix done rest d)
    where
      prefix :
          (k : List ℕ) (done : List (List ℕ × Info)) → IsFresh k (done ++ rest) → IsFresh k done
      prefix k [] h = tt
      prefix k (f ∷ done) (here, h) = (here, prefix k done h)

  -- The handle is one that was opened, or the one that was given.
  abbrev pub IsOpened : LibFile → ℕ → Type 0
  IsOpened (text name) handle = handle ≢ 0
  IsOpened absent handle = handle ≢ 0
  IsOpened (opened path given) handle = handle ≡ given

  abbrev Opens : LibFile → Building S → Result {0} Unit × Building S → Type 0
  Opens libfile s =
      Ensures (λ _ t. IsOpened libfile t.dl.handle × (t.lib ≡ s.lib)) (λ _ t. t.lib ≡ s.lib)

  new-Opens :
      (links rtld_now : ℕ) (path : Option (List ℕ)) (s : Building S)
      → Ensures
          (λ _ t. (t.dl.handle ≢ 0) × (t.lib ≡ s.lib))
          (λ _ t. t.lib ≡ s.lib)
          (on_dl sys ref ffi fuel long_size (dynamic_library sys links path (some rtld_now)) s)
  new-Opens links rtld_now path s = record {
    on_ok = λ u e. ((dynamic_library-IsOpen sys links path (some rtld_now) s.dl).on_ok u e, refl);
    on_err = λ x e. refl;
  }

  open_library-Opens :
      (links : ℕ) (e : Option (List ℕ)) (rtld_now : ℕ) (libfile : LibFile) (s : Building S)
      → Opens libfile s (open_library sys ref ffi fuel long_size links e rtld_now libfile s)
  unfolding open_library
  open_library-Opens links e rtld_now (text name) s =
      new-Opens links rtld_now (or_null (with_ext e name)) s
  open_library-Opens links e rtld_now absent s = new-Opens links rtld_now none s
  open_library-Opens links e rtld_now (opened path handle) s = Ensures-pure tt _ (refl, refl)

  -- What `Library` has done where it threw: the functions before one of them are there.
  pub record HasSome (funcs : List (List ℕ × Info)) (l l' : Lib sys ref ffi fuel long_size)
      : Type 0 where
    pub done : List (List ℕ × Info)
    pub rest : List (List ℕ × Info)
    pub split : funcs ≡ done ++ rest
    pub has_all : HasAll done l l'

  Built-HasAll :
      (funcs : List (List ℕ × Info)) (l l' : Lib sys ref ffi fuel long_size)
      → DistinctKeys funcs
      → Built sys ref ffi fuel long_size funcs l l'
      → HasAll funcs l l'
  Built-HasAll funcs l l' distinct b = record {
    each = Built-each funcs l l' distinct b;
    others = λ k fresh. Built-others funcs l l' k b fresh;
  }

  partial-HasSome :
      (funcs : List (List ℕ × Info)) (s t : Building S)
      → DistinctKeys funcs
      → IsPartial sys ref ffi fuel long_size funcs s t
      → HasSome funcs s.lib t.lib
  partial-HasSome funcs s t distinct h = record {
    done = h.done;
    rest = h.rest;
    split = h.split;
    has_all =
        Built-HasAll h.done s.lib t.lib
          (DistinctKeys-prefix h.done h.rest (subst DistinctKeys h.split distinct)) h.built;
  }

  unchanged-HasSome :
      (funcs : List (List ℕ × Info)) (l l' : Lib sys ref ffi fuel long_size)
      → l' ≡ l
      → HasSome funcs l l'
  unchanged-HasSome funcs l l' same = record {
    done = [];
    rest = funcs;
    split = refl;
    has_all = Built-HasAll [] l l' tt same;
  }

  -- For functions of different names, `Library` returns only where `lib` has each of them, made as its
  -- information asks for a C function that is not NULL, and for other names what it had, and where the
  -- library was opened, or is the one that was given. Where it throws, `lib` has this for the functions
  -- that stand before one of them, and no other has changed.
  pub library-HasAll :
      (links : ℕ) (platform : String) (rtld_now : ℕ) (libfile : LibFile)
      (funcs : List (List ℕ × Info)) (s : Building S)
      → DistinctKeys funcs
      → Ensures
          (λ _ t. HasAll funcs s.lib t.lib × IsOpened libfile t.dl.handle)
          (λ _ t. HasSome funcs s.lib t.lib)
          (library sys ref ffi fuel long_size links platform rtld_now libfile funcs s)
  unfolding library
  library-HasAll links platform rtld_now libfile funcs s distinct =
      Ensures-bind (open_library sys ref ffi fuel long_size links (ext platform) rtld_now libfile) _
        s
        (Ensures-weaken (open_library-Opens links (ext platform) rtld_now libfile s) (λ u t h. h)
          (λ x t h. unchanged-HasSome funcs s.lib t.lib h))
        λ u t (is_opened, same).
          Ensures-weaken (define_all-Built sys ref ffi fuel long_size funcs t)
            (λ v w h. (
              subst (λ l. HasAll funcs l w.lib) same (Built-HasAll funcs t.lib w.lib distinct h.0),
              subst (IsOpened libfile) (sym h.1) is_opened,
            ))
            (λ x w h.
              subst (λ l. HasSome funcs l w.lib) same (partial-HasSome funcs t w distinct h))
