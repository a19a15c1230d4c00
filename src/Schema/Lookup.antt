-- ===== src/Schema/Lookup.antt =====
-- Lookups by name, and names that come in pieces.
use hypertable.Base.{
  ℕ, ◌≡◌, inl, inr, refl, sym, ap, ◌∙◌, true, Bool-cases, List, [], ◌∷◌, Option, none, some, arith,
  get_elem?, All,
}
use mathlib.Core.Path.{subst}
use mathlib.Core.Option.{some-injective}
use hypertable.Deletes.{same}
use hypertable.Deletes.Newest.{same-eq, same_refl}
use hypertable.Schema.{
  ColumnFamily, Schema, find, find_group, get_column_family, add_column_family,
  set_column_family_parameter, family_parameter, handle, handle_all, start_element, end_element,
  character_data, name_tag, start_element_handler, end_element_handler,
}
use hypertable.Schema.Invariant.{IsSchema, LeadsTo}

find-LeadsTo :
    (families : List ColumnFamily) (name : List ℕ) (m : List (List ℕ × Option ℕ)) (o : Option ℕ)
    → All (LeadsTo families) m
    → find name m ≡ some o
    → LeadsTo families (name, o)
unfolding find
find-LeadsTo families name [] o h e = absurd (ground (arith, e))
find-LeadsTo families name ((q, v) ∷ m) o h e = elim (Bool-cases (same q name)) [
  | inl s ↦
      subst (λ n. LeadsTo families (n, o)) (same-eq q name s)
        (subst (λ p. LeadsTo families (q, p)) (some-injective v o (rw s at e)) h.0)
  | inr s ↦ find-LeadsTo families name m o h.1 (rw s at e)
]

abbrev got : Schema → List ℕ → Option (Option ℕ) → Option ColumnFamily × Schema
got s name (some (some ptr)) = (get_elem? s.families ptr, s)
got s name (some none) = (none, s)
got s name none = (none, record s { column_family_map = (name, none) ∷ s.column_family_map })

found :
    (s : Schema) (name : List ℕ) (cf : ColumnFamily)
    → IsSchema s
    → (o : Option (Option ℕ)) → find name s.column_family_map ≡ o
    → (got s name o).0 ≡ some cf
    → (cf.name ≡ name) × ((got s name o).1 ≡ s)
found s name cf i none f e = absurd (ground (arith, e))
found s name cf i (some none) f e = absurd (ground (arith, e))
found s name cf i (some (some ptr)) f e =
    let (d, g, n) = find-LeadsTo s.families name s.column_family_map (some ptr) i.map f in
    (ap (λ c. c.name) (some-injective cf d (sym e ∙ g)) ∙ n, refl)

-- A lookup in a well-formed schema finds the column family of that name, if it finds one, and then the
-- schema stays as it is.
pub get_column_family-finds :
    (s : Schema) (name : List ℕ) (cf : ColumnFamily)
    → IsSchema s
    → (get_column_family name s).0 ≡ some cf
    → (cf.name ≡ name) × ((get_column_family name s).1 ≡ s)
unfolding get_column_family
get_column_family-finds s name cf i e = found s name cf i (find name s.column_family_map) refl e

-- A column family with a name that the schema does not have, for one of its access groups, is added
-- without an error; but after a lookup of that name it is refused.
pub get_column_family-spoils :
    (s : Schema) (cf : ColumnFamily)
    → find cf.name s.column_family_map ≡ none
    → find_group cf.ag s.access_groups ≡ true
    → ((add_column_family cf s).error ≡ s.error)
      × ((add_column_family cf (get_column_family cf.name s).1).error ≡ true)
unfolding get_column_family add_column_family find
get_column_family-spoils s cf n g = (
  rw (n, add_column_family, g) refl,
  rw (n, get_column_family, add_column_family, find, same_refl cf.name) refl,
)

-- Where the parser passes the text of a Name element on in two pieces, the open column family gets the
-- second one for its name.
pub handle_all-last_piece :
    (trim : List ℕ → List ℕ) (s : Schema) (collected p q : List ℕ) (cf : ColumnFamily)
    → s.open_family ≡ some cf
    → (handle_all trim
        (start_element name_tag []
          ∷ character_data p
          ∷ character_data q
          ∷ end_element name_tag
          ∷ [])
        (s, collected)).0.open_family
      ≡ some (record cf { name = trim q })
unfolding handle_all handle start_element_handler end_element_handler set_column_family_parameter
    family_parameter
handle_all-last_piece trim s collected p q cf e = rw e refl
