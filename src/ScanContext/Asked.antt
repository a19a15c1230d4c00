-- ===== src/ScanContext/Asked.antt =====
-- What the tables of a scan context say of a column family.
use hypertable.Base.{
  ℕ, ◌<◌, ◌≡◌, ◌≢◌, inl, inr, refl, sym, ap, ◌∙◌, Bool, true, false, ◌&&◌, ◌||◌, Bool-cases,
  Option-cases, List, [], ◌∷◌, ◌++◌, arith, some, ltb, ◌==◌, length, All, get_elem?,
}
use hypertable.MergeScanner.Counts.{within}
use hypertable.Schema.{ColumnFamily, AccessGroup, Schema}
use hypertable.Schema.Invariant.{columns_of}
use hypertable.ScanSpec.{ScanSpec}
use hypertable.ScanContext.{
  Outcome, done, failed, Filters, same_filters, put_family, add_group, add_groups, let_deletes,
  filters_of,
}
use hypertable.ScanContext.Families.{
  takes_id, last_family, Named, Pointed, put_all, put_all-mask, put_all-info, add_columns-Named,
  add_group-Pointed,
}

add_group-append :
    (ts max_versions : ℕ) (families : List ColumnFamily) (xs ys : List ℕ) (fs : Filters)
    → add_group ts max_versions families (xs ++ ys) fs
      ≡ elim (add_group ts max_versions families xs fs) [
        | failed e ↦ failed e
        | done fs1 ↦ add_group ts max_versions families ys fs1
      ]
unfolding add_group
add_group-append ts max_versions families [] ys fs = refl
add_group-append ts max_versions families (x ∷ xs) ys fs =
    elim (Option-cases (get_elem? families x)) [
      | inl e ↦ rw (e, add_group) refl
      | inr (cf, e) ↦
          rw (e, add_group)
            ((elim (Bool-cases (cf.id == 0)) [
              | inl z ↦ rw z refl
              | inr z ↦ rw z (elim (Bool-cases (ltb cf.id 256)) [
                | inr l ↦ rw l refl
                | inl l ↦ rw l (
                    add_group-append ts max_versions families xs ys
                      (put_family ts max_versions cf fs))
              ])
            ]))
    ]

then_same :
    (f g : Filters → Outcome Filters) (o : Outcome Filters)
    → ((fs : Filters) → f fs ≡ g fs)
    → elim o as (λ x. Outcome Filters) [ failed e ↦ failed e | done fs ↦ f fs ]
      ≡ elim o as (λ x. Outcome Filters) [ failed e ↦ failed e | done fs ↦ g fs ]
then_same f g (failed e) h = refl
then_same f g (done fs) h = h fs

-- The loops over the groups are one over all their columns.
pub add_groups-columns_of :
    (ts max_versions : ℕ) (families : List ColumnFamily) (gs : List AccessGroup) (fs : Filters)
    → add_groups ts max_versions families gs fs
      ≡ add_group ts max_versions families (columns_of gs) fs
unfolding add_groups add_group
add_groups-columns_of ts max_versions families [] fs = refl
add_groups-columns_of ts max_versions families (g ∷ gs) fs =
    then_same (add_groups ts max_versions families gs)
      (add_group ts max_versions families (columns_of gs))
      (add_group ts max_versions families g.columns fs)
      (add_groups-columns_of ts max_versions families gs)
    ∙ sym (add_group-append ts max_versions families g.columns (columns_of gs) fs)

-- The column families that a scan is for: those of the names, or where there are none all of the schema, whose
-- ids are not 0.
abbrev pub Asked : ScanSpec → Schema → List ColumnFamily → Type 0
Asked spec s cfs = elim (length spec.columns == 0) [
  | true ↦ Pointed s.families (columns_of s.access_groups) cfs × All (λ cf. cf.id ≢ 0) cfs
  | false ↦ Named s spec.columns cfs
]

both :
    (P Q : ColumnFamily → Type 0) (cfs : List ColumnFamily)
    → All P cfs
    → All Q cfs
    → All (λ cf. P cf × Q cf) cfs
both P Q [] p q = tt
both P Q (cf ∷ cfs) p q = ((p.0, q.0), both P Q cfs p.1 q.1)

-- What the tables say.
record Tables (ts max_versions : ℕ) (everything : Bool) (cfs : List ColumnFamily) (fs : Filters)
    : Type 0 where
  mask : (f : ℕ) → fs.family_mask f ≡ (takes_id f cfs || ((f == 0) && everything))
  limit :
      (f n : ℕ) (cf : ColumnFamily)
      → last_family f cfs ≡ some cf
      → within (fs.family_info f).max_versions n
        ≡ (within max_versions n && within cf.max_versions n)

put_all-Tables :
    (ts max_versions : ℕ) (everything : Bool) (cfs : List ColumnFamily) (fs : Filters)
    → ((f : ℕ) → fs.family_mask f ≡ ((f == 0) && everything))
    → Tables ts max_versions everything cfs (put_all ts max_versions cfs fs)
put_all-Tables ts max_versions everything cfs fs h = record {
  mask = λ f. put_all-mask ts max_versions f cfs fs ∙ ap (λ b. takes_id f cfs || b) (h f);
  limit = λ f n cf e. put_all-info ts max_versions f n cfs fs ∙ rw e refl;
}

filters_of-columns :
    (ts : ℕ) (spec : ScanSpec) (s : Schema) (cfs : List ColumnFamily)
    → (length spec.columns == 0) ≡ false
    → Named s spec.columns cfs
    → All (λ cf. cf.id < 256) cfs
    → filters_of ts (some spec) (some s)
      ≡ (done (put_all ts spec.max_versions cfs (same_filters false)), some s)
unfolding filters_of
filters_of-columns ts spec s cfs e a l =
    rw (e, filters_of)
      (rw (add_columns-Named ts spec.max_versions spec.columns cfs (same_filters false) s a l) refl)

filters_of-groups :
    (ts : ℕ) (spec : ScanSpec) (s : Schema) (cfs : List ColumnFamily)
    → (length spec.columns == 0) ≡ true
    → Pointed s.families (columns_of s.access_groups) cfs
    → All (λ cf. (cf.id ≢ 0) × (cf.id < 256)) cfs
    → filters_of ts (some spec) (some s)
      ≡ (done (put_all ts spec.max_versions cfs (let_deletes (same_filters false))), some s)
unfolding filters_of
filters_of-groups ts spec s cfs e a l =
    let fs = let_deletes (same_filters false) in
    rw (e, filters_of)
      (ap (λ o. (o, some s))
        (add_groups-columns_of ts spec.max_versions s.families s.access_groups fs
          ∙ add_group-Pointed ts spec.max_versions s.families (columns_of s.access_groups) cfs fs a
              l))

-- A scan with a specification, for column families with ids below 256, and none of them 0 where no
-- columns are named, has its tables: they let a family in
-- exactly if one of those has its id, or it is the 0 of the deletes of rows and no columns are named; and as many
-- versions of its cells as both the specification and the last of those families with its id allow, where
-- a limit of 0 is none. The schema is as it was.
pub filters_of-Asked :
    (ts : ℕ) (spec : ScanSpec) (s : Schema) (cfs : List ColumnFamily)
    → Asked spec s cfs
    → All (λ cf. cf.id < 256) cfs
    → (fs : Filters) × (filters_of ts (some spec) (some s) ≡ (done fs, some s))
      × ((f : ℕ) → fs.family_mask f ≡ (takes_id f cfs || ((f == 0) && (length spec.columns == 0))))
      × ((f n : ℕ) (cf : ColumnFamily)
          → last_family f cfs ≡ some cf
          → within (fs.family_info f).max_versions n
            ≡ (within spec.max_versions n && within cf.max_versions n))
unfolding let_deletes same_filters
filters_of-Asked ts spec s cfs a l = elim (Bool-cases (length spec.columns == 0)) [
  | inl e ↦
      let given = rw (e, Asked) at a in
      let fs = let_deletes (same_filters false) in
      let t =
        put_all-Tables ts spec.max_versions (length spec.columns == 0) cfs fs
          (λ f. rw e (ground arith)) in
      (
        put_all ts spec.max_versions cfs fs,
        filters_of-groups ts spec s cfs e given.0
            (both (λ cf. cf.id ≢ 0) (λ cf. cf.id < 256) cfs given.1 l),
        t.mask,
        t.limit,
      )
  | inr e ↦
      let given = rw (e, Asked) at a in
      let fs = same_filters false in
      let t =
        put_all-Tables ts spec.max_versions (length spec.columns == 0) cfs fs
          (λ f. rw e (ground arith)) in
      (
        put_all ts spec.max_versions cfs fs,
        filters_of-columns ts spec s cfs e given l,
        t.mask,
        t.limit,
      )
]
