-- ===== src/Schema/Operations.antt =====
-- What opens and closes access groups and column families, and sets their parameters, keeps a schema
-- well-formed.
use hypertable.Base.{
  ℕ, ◌+◌, ◌<◌, ◌≡◌, ◌⊎◌, inl, inr, refl, sym, ap, ◌∙◌, Bool, true, false, ◌&&◌, ◌||◌, Bool-cases,
  Option-cases, List, [], ◌∷◌, ◌++◌, append-nil, append_assoc, none, some, arith, ◌==◌, leb, ◌^◌,
  length, length-append, All, All-append,
}
use mathlib.Core.Path.{subst}
use hypertable.Deletes.{same}
use hypertable.Schema.{
  ColumnFamily, AccessGroup, Schema, find, find_group, set_error_string, set_generation, atoi,
  strtoll, strcasecmp, text_true, text_false, Param, name_param, in_memory_param, blksz_param,
  compressor_param, ttl_param, max_versions_param, id_param, generation_param, other_param,
  group_parameter, family_parameter, close_access_group, open_column_family, new_column_family,
  add_open_family, close_column_family, set_access_group_parameter, set_column_family_parameter,
}
use hypertable.Schema.Invariant.{
  IsSchema, Climbs, NamesApart, columns_of, open_columns, set_error_string-IsSchema, IsSchema-rest,
  IsSchema-open, Climbs-snoc, columns_of-append, GroupsApart-snoc, get_elem?-snoc, LeadsTo-snoc,
  IsFound, IsFound-snoc, IsFound-FamiliesApart,
}

module _ (s : Schema) (i : IsSchema s) where
  -- The open group is closed.
  group-IsSchema :
      (g : AccessGroup)
      → s.open_group ≡ some g
      → find_group g.name s.access_groups ≡ false
      → IsSchema (record s { open_group = none; access_groups = s.access_groups ++ (g ∷ []) })
  group-IsSchema g e apart = record {
    pointers =
        rw
          (
            append-nil (columns_of (s.access_groups ++ (g ∷ []))),
            columns_of-append s.access_groups g,
          )
          (subst (λ o. Climbs 0 (columns_of s.access_groups ++ open_columns o) (length s.families))
            e i.pointers);
    groups = GroupsApart-snoc s.access_groups g i.groups apart;
    map = i.map;
    names = i.names;
    found = i.found;
    families = i.families;
    named = i.named;
    ids = i.ids;
  }

  pub close_access_group-IsSchema : IsSchema (close_access_group s)
  unfolding close_access_group
  close_access_group-IsSchema = elim (Option-cases s.open_group) [
    | inl n ↦ rw (n, close_access_group) (set_error_string-IsSchema s i)
    | inr (g, e) ↦
        let closed : Schema = record s { open_group = none } in
        let refused : IsSchema (set_error_string closed) =
          set_error_string-IsSchema closed (IsSchema-open s i none (inl refl)) in
        elim (Bool-cases (length g.name == 0)) [
          | inl z ↦ rw (e, close_access_group, z) refused
          | inr z ↦ elim (Bool-cases (find_group g.name s.access_groups)) [
            | inl f ↦ rw (e, close_access_group, z, f) refused
            | inr f ↦ rw (e, close_access_group, z, f) (group-IsSchema g e f)
          ]
        ]
  ]

  pub open_column_family-IsSchema : IsSchema (open_column_family s)
  unfolding open_column_family
  open_column_family-IsSchema = elim (Option-cases s.open_group) [
    | inl n ↦ rw (n, open_column_family) (set_error_string-IsSchema s i)
    | inr (g, e) ↦ elim (Option-cases s.open_family) [
      | inl n ↦
          rw (e, open_column_family, n)
            (IsSchema-rest s i s.error (some (new_column_family g.name)) s.generation
              s.max_column_family_id s.compressor)
      | inr (cf, f) ↦ rw (e, open_column_family, f) (set_error_string-IsSchema s i)
    ]
  ]

  module _ (g : AccessGroup) (e : s.open_group ≡ some g) (cf : ColumnFamily) where
    add_open_family-IsSchema :
        0 < length cf.name
        → (s.read_ids ≡ false) ⊎ (0 < cf.id)
        → find cf.name s.column_family_map ≡ none
        → IsSchema (add_open_family g cf s)
    unfolding add_open_family NamesApart
    add_open_family-IsSchema n d f = record {
      pointers = pointers_grow;
      groups = i.groups;
      map = (
        (cf, get_elem?-snoc s.families cf, refl),
        LeadsTo-snoc s.families cf s.column_family_map i.map,
      );
      names = (f, i.names);
      found = found_still;
      families =
          IsFound-FamiliesApart (s.families ++ (cf ∷ []))
            ((cf.name, some (length s.families)) ∷ s.column_family_map) found_still;
      named = All-append (λ c. 0 < length c.name) s.families (cf ∷ []) i.named (n, tt);
      ids = ids_grow d i.ids;
    }
      where
        found_still :
            IsFound
              (s.families ++ (cf ∷ []))
              ((cf.name, some (length s.families)) ∷ s.column_family_map)
        found_still = IsFound-snoc s.families cf s.column_family_map i.found f

        grown : length (s.families ++ (cf ∷ [])) ≡ length s.families + 1
        grown = length-append s.families (cf ∷ [])

        pointers_grow :
            Climbs 0
              (columns_of s.access_groups ++ (g.columns ++ (length s.families ∷ [])))
              (length (s.families ++ (cf ∷ [])))
        pointers_grow =
            rw
              (
                grown,
                ← append_assoc (columns_of s.access_groups) g.columns (length s.families ∷ []),
              )
              (Climbs-snoc 0 (length s.families) (columns_of s.access_groups ++ g.columns) (
                subst
                  (λ o. Climbs 0 (columns_of s.access_groups ++ open_columns o) (length s.families))
                  e i.pointers))

        ids_grow :
            (s.read_ids ≡ false) ⊎ (0 < cf.id)
            → (s.read_ids ≡ false) ⊎ All (λ c. 0 < c.id) s.families
            → (s.read_ids ≡ false) ⊎ All (λ c. 0 < c.id) (s.families ++ (cf ∷ []))
        ids_grow (inl r) a = inl r
        ids_grow (inr d) (inl r) = inl r
        ids_grow (inr d) (inr a) = inr (All-append (λ c. 0 < c.id) s.families (cf ∷ []) a (d, tt))

    close_family-IsSchema : s.open_family ≡ some cf → IsSchema (close_column_family s)
    unfolding close_column_family
    close_family-IsSchema f = elim (Bool-cases (length cf.name == 0)) [
      | inl z ↦ rw (e, close_column_family, f, z) (set_error_string-IsSchema s i)
      | inr z ↦ elim (Bool-cases (s.read_ids && (cf.id == 0))) [
        | inl r ↦ rw (e, close_column_family, f, z, r) (set_error_string-IsSchema s i)
        | inr r ↦ elim (Option-cases (find cf.name s.column_family_map)) [
          | inl n ↦
              rw (e, close_column_family, f, z, r, n)
                (add_open_family-IsSchema (ground arith) (read_id s.read_ids cf.id r) n)
          | inr (p, n) ↦
              rw (e, close_column_family, f, z, r, n)
                (IsSchema-rest s i true none s.generation s.max_column_family_id s.compressor)
        ]
      ]
    ]
      where
        read_id : (b : Bool) (n : ℕ) → (b && (n == 0)) ≡ false → (b ≡ false) ⊎ (0 < n)
        read_id true n h = inr (ground arith)
        read_id false n h = inl refl

  pub close_column_family-IsSchema : IsSchema (close_column_family s)
  unfolding close_column_family
  close_column_family-IsSchema = elim (Option-cases s.open_group) [
    | inl n ↦ rw (n, close_column_family) (set_error_string-IsSchema s i)
    | inr (g, e) ↦ elim (Option-cases s.open_family) [
      | inl n ↦ rw (e, close_column_family, n) (set_error_string-IsSchema s i)
      | inr (cf, f) ↦ close_family-IsSchema g e cf f
    ]
  ]

group_parameter-columns :
    (trim : List ℕ → List ℕ) (p : Param) (value : List ℕ) (g h : AccessGroup)
    → group_parameter trim p value g ≡ some h
    → h.columns ≡ g.columns
unfolding group_parameter
group_parameter-columns trim name_param value g h e = sym (ap open_columns e)
group_parameter-columns trim compressor_param value g h e = sym (ap open_columns e)
group_parameter-columns trim in_memory_param value g h e =
    elim (Bool-cases (strcasecmp value text_true || same value (b'1' ∷ []))) [
      | inl t ↦ sym (ap open_columns (rw t at e))
      | inr t ↦ elim (Bool-cases (strcasecmp value text_false || same value (b'0' ∷ []))) [
        | inl f ↦ sym (ap open_columns (rw (t, f) at e))
        | inr f ↦ absurd (ground (arith, rw (t, f) at e))
      ]
    ]
group_parameter-columns trim blksz_param value g h e =
    elim (Bool-cases ((strtoll value == 0) || leb (2 ^ 32) (strtoll value))) [
      | inl z ↦ absurd (ground (arith, rw z at e))
      | inr z ↦ sym (ap open_columns (rw z at e))
    ]
group_parameter-columns trim ttl_param value g h e = absurd (ground (arith, e))
group_parameter-columns trim max_versions_param value g h e = absurd (ground (arith, e))
group_parameter-columns trim id_param value g h e = absurd (ground (arith, e))
group_parameter-columns trim generation_param value g h e = absurd (ground (arith, e))
group_parameter-columns trim other_param value g h e = absurd (ground (arith, e))

module _ (s : Schema) (i : IsSchema s) where
  pub set_access_group_parameter-IsSchema :
      (trim : List ℕ → List ℕ) (p : Param) (value : List ℕ)
      → IsSchema (set_access_group_parameter trim p value s)
  unfolding set_access_group_parameter
  set_access_group_parameter-IsSchema trim p value = elim (Option-cases s.open_group) [
    | inl n ↦ rw (n, set_access_group_parameter) (set_error_string-IsSchema s i)
    | inr (g, e) ↦ elim (Option-cases (group_parameter trim p value g)) [
      | inl n ↦ rw (e, set_access_group_parameter, n) (set_error_string-IsSchema s i)
      | inr (h, f) ↦
          rw (e, set_access_group_parameter, f)
            (IsSchema-open s i (some h)
              (inr (group_parameter-columns trim p value g h f ∙ sym (ap open_columns e))))
    ]
  ]

  pub set_column_family_parameter-IsSchema :
      (p : Param) (value : List ℕ) → IsSchema (set_column_family_parameter p value s)
  unfolding set_column_family_parameter
  set_column_family_parameter-IsSchema p value = elim (Option-cases s.open_family) [
    | inl n ↦ rw (n, set_column_family_parameter) (set_error_string-IsSchema s i)
    | inr (cf, e) ↦ elim (Bool-cases (family_parameter s.read_ids p value cf).0) [
      | inl v ↦ rw (e, set_column_family_parameter, v) (IsSchema-rest s i _ _ _ _ _)
      | inr v ↦ rw (e, set_column_family_parameter, v) (IsSchema-rest s i _ _ _ _ _)
    ]
  ]

  pub set_generation-IsSchema : (value : List ℕ) → IsSchema (set_generation value s)
  unfolding set_generation
  set_generation-IsSchema value = elim (Bool-cases (atoi value == 0)) [
    | inl z ↦ rw z (IsSchema-rest s i true s.open_family _ s.max_column_family_id s.compressor)
    | inr z ↦ rw z (IsSchema-rest s i s.error s.open_family _ s.max_column_family_id s.compressor)
  ]
