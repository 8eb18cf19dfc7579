-- ===== src/Constants/Set.antt =====
-- src/ffi.cc: the properties that are found on the object once the entries are set.
use node_ffi_napi.Prelude.{
  ◌≡◌, refl, ◌∙◌, subst, inl, inr, String, some, List, [], ◌∷◌, ◌++◌, Bool, true, false, ◌&&◌, ◌||◌,
  Bool-cases, str_eq, eq_iff, if◌then◌else◌, arith,
}
use node_ffi_napi.Bindings.{has_name}
use node_ffi_napi.Exports.{Object, set_property}
use node_ffi_napi.Exports.Found.{str_self}
use node_ffi_napi.Constants.{
  Build, Property, Entries, with_values, set_entries, binding_keys, defined_names,
}

-- the test holds of all these names
abbrev pub every : (String → Bool) → List String → Bool
every p [] = true
every p (k ∷ ks) = p k && every p ks

pub of_every :
    (p : String → Bool) (ks : List String) (j : String)
    → every p ks ≡ true
    → has_name j ks ≡ true
    → p j ≡ true
unfolding has_name
of_every p [] j all there = cc there
of_every p (k ∷ ks) j all there = elim (Bool-cases (str_eq k j)) [
  | inl same ↦ subst (λ i. p i ≡ true) ((eq_iff k j).0 same) (grind (arith, all))
  | inr differ ↦ of_every p ks j (grind (arith, all)) (rw differ at there)
]

pub every-defined_names :
    (p : String → Bool) (b : Build) (ks : List String)
    → every p ks ≡ true
    → every p (defined_names b ks) ≡ true
unfolding defined_names
every-defined_names p b [] a = refl
every-defined_names p b (k ∷ ks) a = elim (Bool-cases (b.is_defined k)) [
  | inl there ↦ rw there (grind (arith, every-defined_names p b ks))
  | inr absent ↦ rw absent (grind (arith, every-defined_names p b ks))
]

pub has_name-defined_names :
    (b : Build) (j : String) (ks : List String)
    → has_name j (defined_names b ks) ≡ (b.is_defined j && has_name j ks)
unfolding has_name defined_names
has_name-defined_names b j [] = grind arith
has_name-defined_names b j (k ∷ ks) = elim (Bool-cases (str_eq k j)) [
  | inl same ↦
      subst (λ i. has_name i (defined_names b (k ∷ ks)) ≡ (b.is_defined i && has_name i (k ∷ ks)))
        ((eq_iff k j).0 same)
        (elim (Bool-cases (b.is_defined k)) [
          | inl there ↦ rw (there, str_self k) refl
          | inr absent ↦ rw (absent, has_name-defined_names b k ks, absent) refl
        ])
  | inr differ ↦ elim (Bool-cases (b.is_defined k)) [
    | inl there ↦ rw (there, differ, has_name-defined_names b j ks) refl
    | inr absent ↦ rw (absent, differ, has_name-defined_names b j ks) refl
  ]
]

pub set_entries-++ :
    (l m : Entries) (o : Object Property) → set_entries (l ++ m) o ≡ set_entries m (set_entries l o)
unfolding set_entries
set_entries-++ [] m o = refl
set_entries-++ ((k, v) ∷ l) m o = set_entries-++ l m (set_property k v o)

-- an entry of these names has the value of its own name, however often it is set
pub set_entries-with_values :
    (f : String → Property) (ks : List String) (o : Object Property) (j : String)
    → set_entries (with_values f ks) o j ≡ (if has_name j ks then some (f j) else o j)
unfolding set_entries has_name
set_entries-with_values f [] o j = refl
set_entries-with_values f (k ∷ ks) o j =
    set_entries-with_values f ks (set_property k (f k) o) j ∙ elim (Bool-cases (str_eq k j)) [
      | inl same ↦
          subst
            (λ i.
              (if has_name i ks then some (f i) else set_property k (f k) o i)
              ≡ (if str_eq k i || has_name i ks then some (f i) else o i))
            ((eq_iff k j).0 same)
            (elim (Bool-cases (has_name k ks)) [
              | inl again ↦ rw (str_self k, again) refl
              | inr new ↦ rw (str_self k, new) refl
            ])
      | inr differ ↦ rw differ refl
    ]

pub not_set :
    (l : Entries) (o : Object Property) (j : String)
    → has_name j (binding_keys l) ≡ false
    → set_entries l o j ≡ o j
unfolding set_entries has_name binding_keys
not_set [] o j absent = refl
not_set ((k, v) ∷ l) o j absent = elim (Bool-cases (str_eq k j)) [
  | inl same ↦ cc (rw same at absent)
  | inr differ ↦ not_set l (set_property k v o) j (rw differ at absent) ∙ rw differ refl
]

every-keys_of_values :
    (p : String → Bool) (f : String → Property) (ks : List String)
    → every p (binding_keys (with_values f ks)) ≡ every p ks
unfolding binding_keys
every-keys_of_values p f [] = refl
every-keys_of_values p f (k ∷ ks) = rw (every-keys_of_values p f ks) refl

every-keys_of_both :
    (p : String → Bool) (l m : Entries)
    → every p (binding_keys (l ++ m)) ≡ (every p (binding_keys l) && every p (binding_keys m))
unfolding binding_keys
every-keys_of_both p [] m = refl
every-keys_of_both p ((k, v) ∷ l) m = rw (every-keys_of_both p l m) (and_assoc (p k) _ _)
  where
    and_assoc : (a b c : Bool) → (a && (b && c)) ≡ ((a && b) && c)
    and_assoc a b c = ground arith

-- an object on which entries are set has a property of each of their names
pub keys_found :
    (l : Entries) (o : Object Property) (j : String)
    → has_name j (binding_keys l) ≡ true
    → (d : Property) × (set_entries l o j ≡ some d)
unfolding set_entries has_name binding_keys
keys_found [] o j there = cc there
keys_found ((k, v) ∷ l) o j there = elim (Bool-cases (has_name j (binding_keys l))) [
  | inl again ↦ keys_found l (set_property k v o) j again
  | inr last ↦ elim (Bool-cases (str_eq k j)) [
    | inl same ↦ (v, not_set l (set_property k v o) j last ∙ rw same refl)
    | inr differ ↦ cc (rw (differ, last) at there)
  ]
]

-- what is found after four groups of names, of which the last has another value than the others
pub set_groups :
    (f g : String → Property) (ks js is hs : List String) (first last : Entries)
    (o : Object Property) (j : String)
    → has_name j (binding_keys first) ≡ false
    → has_name j (binding_keys last) ≡ false
    → set_entries
        (first
          ++ with_values f ks
          ++ with_values f js
          ++ with_values f is
          ++ with_values g hs
          ++ last)
        o
        j
      ≡ (if has_name j hs
          then some (g j)
          else if has_name j is || (has_name j js || has_name j ks)
          then some (f j)
          else o j)
set_groups f g ks js is hs first last o j before after =
    rw
      (
        set_entries-++,
        set_entries-++,
        set_entries-++,
        set_entries-++,
        set_entries-++,
        not_set last _ j after,
        set_entries-with_values,
        set_entries-with_values,
        set_entries-with_values,
        set_entries-with_values,
        not_set first o j before,
      )
      (elim (Bool-cases (has_name j hs)) [
        | inl h ↦ rw h refl
        | inr h ↦ elim (Bool-cases (has_name j is)) [
          | inl i ↦ rw (h, i) refl
          | inr i ↦ elim (Bool-cases (has_name j js)) [
            | inl e ↦ rw (h, i, e) refl
            | inr e ↦ rw (h, i, e) refl
          ]
        ]
      ])

-- The names in such a list of entries all pass a test, if those of each part do.
pub every-groups :
    (p : String → Bool) (f g : String → Property) (ks js is hs : List String) (first last : Entries)
    → every p (binding_keys first) ≡ true
    → every p ks ≡ true
    → every p js ≡ true
    → every p is ≡ true
    → every p hs ≡ true
    → every p (binding_keys last) ≡ true
    → every p (
        binding_keys (
          first
          ++ with_values f ks
          ++ with_values f js
          ++ with_values f is
          ++ with_values g hs
          ++ last))
      ≡ true
every-groups p f g ks js is hs first last a0 a1 a2 a3 a4 a5 =
    rw
      (
        every-keys_of_both, every-keys_of_both, every-keys_of_both, every-keys_of_both,
        every-keys_of_both, every-keys_of_values, every-keys_of_values, every-keys_of_values,
        every-keys_of_values, a0, a1, a2, a3, a4,
      )
      a5

-- what the last entries set, whatever was there, is found
pub set_last :
    (f g : String → Property) (ks js is hs : List String) (first last : Entries)
    (o : Object Property) (j : String) (d : Property)
    → ((q : Object Property) → set_entries last q j ≡ some d)
    → set_entries
        (first
          ++ with_values f ks
          ++ with_values f js
          ++ with_values f is
          ++ with_values g hs
          ++ last)
        o
        j
      ≡ some d
set_last f g ks js is hs first last o j d sets =
    rw (set_entries-++, set_entries-++, set_entries-++, set_entries-++, set_entries-++) (sets _)
