-- ===== src/ScanContext/Overrun.antt =====
-- Column families whose ids the tables have no room for.
use hypertable.Base.{
  ℕ, ◌≡◌, ◌≢◌, inl, inr, refl, ap, ◌∙◌, Bool, true, false, ◌||◌, Bool-cases, List, [], ◌∷◌, arith,
  Option, none, some, ltb, leb, ◌==◌, length, All,
}
use hypertable.Schema.{ColumnFamily, Schema}
use hypertable.Schema.Invariant.{columns_of}
use hypertable.ScanSpec.{ScanSpec}
use hypertable.ScanContext.{
  failed, undefined, Filters, same_filters, put_family, add_group, let_deletes, filters_of,
}
use hypertable.ScanContext.Families.{Pointed}
use hypertable.ScanContext.Asked.{add_groups-columns_of}

-- Whether one of the ids has more than eight bits.
unfoldable pub is_large : List ColumnFamily → Bool
is_large [] = false
is_large (cf ∷ cfs) = leb 256 cf.id || is_large cfs

add_group-large :
    (ts max_versions : ℕ) (families : List ColumnFamily) (ptrs : List ℕ) (cfs : List ColumnFamily)
    (fs : Filters)
    → Pointed families ptrs cfs
    → All (λ cf. cf.id ≢ 0) cfs
    → is_large cfs ≡ true
    → add_group ts max_versions families ptrs fs ≡ failed undefined
unfolding Pointed add_group is_large
add_group-large ts max_versions families [] [] fs e l b = cc
add_group-large ts max_versions families [] (cf ∷ cfs) fs e l b = elim e [ ]
add_group-large ts max_versions families (ptr ∷ ptrs) [] fs e l b = elim e [ ]
add_group-large ts max_versions families (ptr ∷ ptrs) (cf ∷ cfs) fs e l b =
    let sound : (cf.id == 0) ≡ false = ground (arith, l.0) in
    rw (e.0, add_group)
      (rw (sound, add_group)
        (elim (Bool-cases (ltb cf.id 256)) [
          | inr h ↦ rw h refl
          | inl h ↦ rw h (
              add_group-large ts max_versions families ptrs cfs (put_family ts max_versions cf fs)
                e.1 l.1 (ground arith))
        ]))

abbrev pub names_none : Option ScanSpec → Bool
names_none none = true
names_none (some spec) = length spec.columns == 0

-- Where one of the schema's column families has an id above 255, and none the id 0, a scan that names no columns,
-- with a specification or with none, writes behind the end of its tables.
pub filters_of-overrun :
    (ts : ℕ) (spec : Option ScanSpec) (s : Schema) (cfs : List ColumnFamily)
    → names_none spec ≡ true
    → Pointed s.families (columns_of s.access_groups) cfs
    → All (λ cf. cf.id ≢ 0) cfs
    → is_large cfs ≡ true
    → filters_of ts spec (some s) ≡ (failed undefined, some s)
unfolding filters_of
filters_of-overrun ts none s cfs e p l b =
    let fs = let_deletes (same_filters true) in
    ap (λ o. (o, some s))
      (add_groups-columns_of ts 0 s.families s.access_groups fs
        ∙ add_group-large ts 0 s.families (columns_of s.access_groups) cfs fs p l b)
filters_of-overrun ts (some spec) s cfs e p l b =
    let fs = let_deletes (same_filters false) in
    rw (e, filters_of)
      (ap (λ o. (o, some s))
        (add_groups-columns_of ts spec.max_versions s.families s.access_groups fs
          ∙ add_group-large ts spec.max_versions s.families (columns_of s.access_groups) cfs fs p l
              b))
