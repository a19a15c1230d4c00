-- ===== src/ScanContext/Families.antt =====
-- The column families that a scan context takes in, and how many versions of their cells.
use hypertable.Base.{
  ℕ, ◌<◌, ◌≡◌, ◌≢◌, inl, inr, refl, ◌∙◌, Bool, true, false, ◌&&◌, ◌||◌, Bool-cases, Option-cases,
  List, [], ◌∷◌, arith, Option, none, some, ltb, ◌==◌, if◌then◌else◌, All, get_elem?,
}
use hypertable.Serialization.Codec.{Cstring, chars}
use hypertable.MergeScanner.Counts.{within}
use hypertable.Schema.{ColumnFamily, Schema, get_column_family}
use hypertable.ScanContext.{done, Filters, fewer_versions, put_family, add_columns, add_group}
use hypertable.ScanContext.Cells.{get_column_family-state}

-- Whether one of the column families has the id, and the last of those.
unfoldable pub takes_id : ℕ → List ColumnFamily → Bool
takes_id f [] = false
takes_id f (cf ∷ cfs) = (f == cf.id) || takes_id f cfs

unfoldable pub last_family : ℕ → List ColumnFamily → Option ColumnFamily
last_family f [] = none
last_family f (cf ∷ cfs) = elim (last_family f cfs) [
  | some d ↦ some d
  | none ↦ if f == cf.id then some cf else none
]

-- The column families that the names lead to, and those that the places of groups lead to.
unfoldable pub Named : Schema → List Cstring → List ColumnFamily → Type 0
Named s [] [] = Unit
Named s [] (cf ∷ cfs) = ⊥
Named s (c ∷ cs) [] = ⊥
Named s (c ∷ cs) (cf ∷ cfs) = ((get_column_family (chars c) s).0 ≡ some cf) × Named s cs cfs

unfoldable pub Pointed : List ColumnFamily → List ℕ → List ColumnFamily → Type 0
Pointed families [] [] = Unit
Pointed families [] (cf ∷ cfs) = ⊥
Pointed families (ptr ∷ ptrs) [] = ⊥
Pointed families (ptr ∷ ptrs) (cf ∷ cfs) =
    (get_elem? families ptr ≡ some cf) × Pointed families ptrs cfs

unfoldable pub put_all : ℕ → ℕ → List ColumnFamily → Filters → Filters
put_all ts max_versions [] fs = fs
put_all ts max_versions (cf ∷ cfs) fs =
    put_all ts max_versions cfs (put_family ts max_versions cf fs)

pub put_all-mask :
    (ts max_versions f : ℕ) (cfs : List ColumnFamily) (fs : Filters)
    → (put_all ts max_versions cfs fs).family_mask f ≡ (takes_id f cfs || fs.family_mask f)
unfolding put_all put_family takes_id
put_all-mask ts max_versions f [] fs = refl
put_all-mask ts max_versions f (cf ∷ cfs) fs =
    put_all-mask ts max_versions f cfs (put_family ts max_versions cf fs) ∙ ground arith

-- The larger the limit, the more it lets through; 0 is none.
fewer_versions-within : (m v n : ℕ) → within (fewer_versions m v) n ≡ (within m n && within v n)
unfolding fewer_versions
fewer_versions-within m v n = ground arith

pub put_all-info :
    (ts max_versions f n : ℕ) (cfs : List ColumnFamily) (fs : Filters)
    → within ((put_all ts max_versions cfs fs).family_info f).max_versions n
      ≡ elim (last_family f cfs) [
        | none ↦ within (fs.family_info f).max_versions n
        | some cf ↦ within max_versions n && within cf.max_versions n
      ]
unfolding put_all put_family last_family
put_all-info ts max_versions f n [] fs = refl
put_all-info ts max_versions f n (cf ∷ cfs) fs =
    put_all-info ts max_versions f n cfs (put_family ts max_versions cf fs)
    ∙ (elim (Option-cases (last_family f cfs)) [
      | inr (d, e) ↦ rw e refl
      | inl e ↦ rw e (elim (Bool-cases (f == cf.id)) [
        | inl h ↦ rw h (fewer_versions-within max_versions cf.max_versions n)
        | inr h ↦ rw h refl
      ])
    ])

pub add_columns-Named :
    (ts max_versions : ℕ) (cs : List Cstring) (cfs : List ColumnFamily) (fs : Filters) (s : Schema)
    → Named s cs cfs
    → All (λ cf. cf.id < 256) cfs
    → add_columns ts max_versions cs fs s ≡ (done (put_all ts max_versions cfs fs), s)
unfolding Named add_columns put_all
add_columns-Named ts max_versions [] [] fs s e l = refl
add_columns-Named ts max_versions [] (cf ∷ cfs) fs s e l = elim e [ ]
add_columns-Named ts max_versions (c ∷ cs) [] fs s e l = elim e [ ]
add_columns-Named ts max_versions (c ∷ cs) (cf ∷ cfs) fs s e l =
    let small : ltb cf.id 256 ≡ true = ground (arith, l.0) in
    rw (e.0, add_columns)
      (rw (small, add_columns)
        (rw (get_column_family-state (chars c) s cf e.0)
          (add_columns-Named ts max_versions cs cfs (put_family ts max_versions cf fs) s e.1 l.1)))

pub add_group-Pointed :
    (ts max_versions : ℕ) (families : List ColumnFamily) (ptrs : List ℕ) (cfs : List ColumnFamily)
    (fs : Filters)
    → Pointed families ptrs cfs
    → All (λ cf. (cf.id ≢ 0) × (cf.id < 256)) cfs
    → add_group ts max_versions families ptrs fs ≡ done (put_all ts max_versions cfs fs)
unfolding Pointed add_group put_all
add_group-Pointed ts max_versions families [] [] fs e l = refl
add_group-Pointed ts max_versions families [] (cf ∷ cfs) fs e l = elim e [ ]
add_group-Pointed ts max_versions families (ptr ∷ ptrs) [] fs e l = elim e [ ]
add_group-Pointed ts max_versions families (ptr ∷ ptrs) (cf ∷ cfs) fs e l =
    let small : ltb cf.id 256 ≡ true = ground (arith, l.0.1) in
    let sound : (cf.id == 0) ≡ false = ground (arith, l.0.0) in
    rw (e.0, add_group)
      (rw (sound, add_group)
        (rw (small, add_group)
          (add_group-Pointed ts max_versions families ptrs cfs (put_family ts max_versions cf fs)
            e.1 l.1)))
