-- ===== src/Schema/Invariant.antt =====
-- What holds of a schema while the handlers put it together.
use hypertable.Base.{
  ℕ, zero, suc, ◌+◌, ◌≤◌, ◌<◌, ◌≡◌, ◌⊎◌, inl, inr, refl, sym, ap, ◌∙◌, Bool, true, false,
  Option-cases, Bool-cases, List, [], ◌∷◌, ◌++◌, append-nil, append_assoc, Option, none, some,
  arith, length, get_elem?, All,
}
use hypertable.ByteString.Order.{lex-flip}
use hypertable.Deletes.{same}
use hypertable.Deletes.Newest.{same-eq, same_refl}
use mathlib.Core.Path.{subst}
use mathlib.Core.Option.{some-injective}
use hypertable.Schema.{
  ColumnFamily, AccessGroup, Schema, new_schema, find, find_group, set_error_string,
  open_access_group, new_access_group,
}

-- The pointers of the groups, one group after the other.
abbrev pub columns_of : List AccessGroup → List ℕ
columns_of [] = []
columns_of (g ∷ gs) = g.columns ++ columns_of gs

abbrev pub open_columns : Option AccessGroup → List ℕ
open_columns none = []
open_columns (some g) = g.columns

-- Numbers that grow, the first from `n` on and the last below `m`.
unfoldable pub Climbs : ℕ → List ℕ → ℕ → Type 0
Climbs n [] m = n ≤ m
Climbs n (p ∷ ps) m = (n ≤ p) × Climbs (p + 1) ps m

-- No group has the name of another one.
unfoldable pub GroupsApart : List AccessGroup → Type 0
GroupsApart [] = Unit
GroupsApart (g ∷ gs) = (find_group g.name gs ≡ false) × GroupsApart gs

-- An entry of the map leads to a family of its name.
abbrev pub LeadsTo : List ColumnFamily → List ℕ × Option ℕ → Type 0
LeadsTo families (name, none) = ⊥
LeadsTo families (name, some ptr) =
    (cf : ColumnFamily) × (get_elem? families ptr ≡ some cf) × (cf.name ≡ name)

unfoldable pub NamesApart : List (List ℕ × Option ℕ) → Type 0
NamesApart [] = Unit
NamesApart (e ∷ m) = (find e.0 m ≡ none) × NamesApart m

-- Each column family stands in the map under its name, with the pointer to itself.
pub IsFound : List ColumnFamily → List (List ℕ × Option ℕ) → Type 0
IsFound families m =
    (ptr : ℕ) (cf : ColumnFamily)
    → get_elem? families ptr ≡ some cf
    → find cf.name m ≡ some (some ptr)

-- Two column families have two names.
pub FamiliesApart : List ColumnFamily → Type 0
FamiliesApart families =
    (p q : ℕ) (c d : ColumnFamily)
    → get_elem? families p ≡ some c
    → get_elem? families q ≡ some d
    → c.name ≡ d.name
    → p ≡ q

-- A column family is in one group at most, and has a name, and an id if ids are read; names are not
-- used twice.
pub record IsSchema (s : Schema) : Type 0 where
  pub pointers :
      Climbs 0 (columns_of s.access_groups ++ open_columns s.open_group) (length s.families)
  pub groups : GroupsApart s.access_groups
  pub map : All (LeadsTo s.families) s.column_family_map
  pub names : NamesApart s.column_family_map
  pub found : IsFound s.families s.column_family_map
  pub families : FamiliesApart s.families
  pub named : All (λ cf. 0 < length cf.name) s.families
  pub ids : (s.read_ids ≡ false) ⊎ All (λ cf. 0 < cf.id) s.families

pub new_schema-IsSchema : (read_ids : Bool) → IsSchema (new_schema read_ids)
unfolding new_schema Climbs GroupsApart NamesApart IsFound FamiliesApart
new_schema-IsSchema read_ids = record {
  pointers = omega arith;
  groups = tt;
  map = tt;
  names = tt;
  found = λ ptr cf e. cc;
  families = λ p q c d e f n. cc;
  named = tt;
  ids = inr tt;
}

pub Climbs-le : (n m : ℕ) (ys : List ℕ) → Climbs n ys m → n ≤ m
unfolding Climbs
Climbs-le n m [] h = h
Climbs-le n m (y ∷ ys) h = omega (arith, h.0, Climbs-le (y + 1) m ys h.1)

pub Climbs-front : (n m : ℕ) (xs ys : List ℕ) → Climbs n (xs ++ ys) m → Climbs n xs m
unfolding Climbs
Climbs-front n m [] ys h = Climbs-le n m ys h
Climbs-front n m (x ∷ xs) ys h = (h.0, Climbs-front (x + 1) m xs ys h.1)

pub Climbs-snoc : (n m : ℕ) (xs : List ℕ) → Climbs n xs m → Climbs n (xs ++ (m ∷ [])) (m + 1)
unfolding Climbs
Climbs-snoc n m [] h = (h, omega arith)
Climbs-snoc n m (x ∷ xs) h = (h.0, Climbs-snoc (x + 1) m xs h.1)

pub columns_of-append :
    (gs : List AccessGroup) (g : AccessGroup)
    → columns_of (gs ++ (g ∷ [])) ≡ columns_of gs ++ g.columns
columns_of-append [] g = append-nil g.columns
columns_of-append (h ∷ gs) g =
    ap (λ t. h.columns ++ t) (columns_of-append gs g)
    ∙ sym (append_assoc h.columns (columns_of gs) g.columns)

same_sym : (p q : List ℕ) → same p q ≡ same q p
unfolding same
same_sym p q = ground (arith, lex-flip p q)

find_group-snoc :
    (name : List ℕ) (gs : List AccessGroup) (g : AccessGroup)
    → find_group name gs ≡ false
    → same g.name name ≡ false
    → find_group name (gs ++ (g ∷ [])) ≡ false
unfolding find_group
find_group-snoc name [] g h e = rw e refl
find_group-snoc name (x ∷ gs) g h e = ground (arith, find_group-snoc name gs g)

pub GroupsApart-snoc :
    (gs : List AccessGroup) (g : AccessGroup)
    → GroupsApart gs
    → find_group g.name gs ≡ false
    → GroupsApart (gs ++ (g ∷ []))
unfolding GroupsApart find_group
GroupsApart-snoc [] g a h = (refl, tt)
GroupsApart-snoc (x ∷ gs) g a h = (
  find_group-snoc x.name gs g a.0 (same_sym g.name x.name ∙ ground (arith, h)),
  GroupsApart-snoc gs g a.1 (ground (arith, h)),
)

get_elem?-append :
    (xs ys : List ColumnFamily) (p : ℕ) (cf : ColumnFamily)
    → get_elem? xs p ≡ some cf
    → get_elem? (xs ++ ys) p ≡ some cf
get_elem?-append [] ys p cf h = cc
get_elem?-append (x ∷ xs) ys zero cf h = h
get_elem?-append (x ∷ xs) ys (suc p) cf h = get_elem?-append xs ys p cf h

pub get_elem?-snoc :
    (xs : List ColumnFamily) (cf : ColumnFamily) → get_elem? (xs ++ (cf ∷ [])) (length xs) ≡ some cf
get_elem?-snoc [] cf = refl
get_elem?-snoc (x ∷ xs) cf = get_elem?-snoc xs cf

pub LeadsTo-snoc :
    (families : List ColumnFamily) (cf : ColumnFamily) (m : List (List ℕ × Option ℕ))
    → All (LeadsTo families) m
    → All (LeadsTo (families ++ (cf ∷ []))) m
LeadsTo-snoc families cf [] h = tt
LeadsTo-snoc families cf ((name, none) ∷ m) h = absurd h.0
LeadsTo-snoc families cf ((name, some ptr) ∷ m) ((d, e, n), h) =
    ((d, get_elem?-append families (cf ∷ []) ptr d e, n), LeadsTo-snoc families cf m h)

get_elem?-last :
    (xs : List ColumnFamily) (cf : ColumnFamily) (p : ℕ) (c : ColumnFamily)
    → get_elem? (xs ++ (cf ∷ [])) p ≡ some c
    → (get_elem? xs p ≡ some c) ⊎ ((p ≡ length xs) × (c ≡ cf))
get_elem?-last [] cf zero c h = inr (refl, sym (some-injective cf c h))
get_elem?-last [] cf (suc p) c h = absurd (ground (arith, h))
get_elem?-last (x ∷ xs) cf zero c h = inl h
get_elem?-last (x ∷ xs) cf (suc p) c h = elim (get_elem?-last xs cf p c h) [
  | inl e ↦ inl e
  | inr (e, f) ↦ inr (omega (arith, e), f)
]

pub IsFound-snoc :
    (families : List ColumnFamily) (cf : ColumnFamily) (m : List (List ℕ × Option ℕ))
    → IsFound families m
    → find cf.name m ≡ none
    → IsFound (families ++ (cf ∷ [])) ((cf.name, some (length families)) ∷ m)
unfolding IsFound find
IsFound-snoc families cf m i f ptr c h = elim (get_elem?-last families cf ptr c h) [
  | inl e ↦ elim (Bool-cases (same cf.name c.name)) [
    | inl s ↦
        let n = same-eq cf.name c.name s in
        absurd (cc (f, subst (λ k. find k m ≡ some (some ptr)) (sym n) (i ptr c e)))
    | inr s ↦ rw s (i ptr c e)
  ]
  | inr (e, d) ↦ rw (d, e, same_refl cf.name) refl
]

-- What is found by its name is alone in having it.
pub IsFound-FamiliesApart :
    (families : List ColumnFamily) (m : List (List ℕ × Option ℕ))
    → IsFound families m
    → FamiliesApart families
unfolding IsFound FamiliesApart
IsFound-FamiliesApart families m i p q c d e f n =
    some-injective p q
      (some-injective (some p) (some q) (sym (i p c e) ∙ ap (λ k. find k m) n ∙ i q d f))

module _ (s : Schema) (i : IsSchema s) where
  -- The rest of the state does not matter.
  pub IsSchema-rest :
      (error : Bool) (f : Option ColumnFamily) (generation max : ℕ) (compressor : List ℕ)
      → IsSchema (record s {
        error = error;
        open_family = f;
        generation = generation;
        max_column_family_id = max;
        compressor = compressor;
      })
  IsSchema-rest error f generation max compressor = record {
    pointers = i.pointers;
    groups = i.groups;
    map = i.map;
    names = i.names;
    found = i.found;
    families = i.families;
    named = i.named;
    ids = i.ids;
  }

  pub set_error_string-IsSchema : IsSchema (set_error_string s)
  set_error_string-IsSchema =
      IsSchema-rest true s.open_family s.generation s.max_column_family_id s.compressor

  -- Another open group with the same columns, or none.
  pub IsSchema-open :
      (o : Option AccessGroup)
      → (open_columns o ≡ []) ⊎ (open_columns o ≡ open_columns s.open_group)
      → IsSchema (record s { open_group = o })
  IsSchema-open o e = record {
    pointers = columns_kept e;
    groups = i.groups;
    map = i.map;
    names = i.names;
    found = i.found;
    families = i.families;
    named = i.named;
    ids = i.ids;
  }
    where
      columns_kept :
          (open_columns o ≡ []) ⊎ (open_columns o ≡ open_columns s.open_group)
          → Climbs 0 (columns_of s.access_groups ++ open_columns o) (length s.families)
      columns_kept (inl e) =
          rw (e, append-nil (columns_of s.access_groups))
            (Climbs-front 0 (length s.families) (columns_of s.access_groups)
              (open_columns s.open_group) i.pointers)
      columns_kept (inr e) = rw e i.pointers

pub open_access_group-IsSchema : (s : Schema) → IsSchema s → IsSchema (open_access_group s)
unfolding open_access_group
open_access_group-IsSchema s i = elim (Option-cases s.open_group) [
  | inl n ↦ rw (n, open_access_group) (IsSchema-open s i (some new_access_group) (inl refl))
  | inr (g, e) ↦ rw (e, open_access_group) (set_error_string-IsSchema s i)
]
