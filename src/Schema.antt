-- ===== src/Schema.antt =====
-- src/cc/Hypertable/Lib/Schema.h and Schema.cc: the access groups and column families of a table, as the
-- handlers of the XML parser put them together.
-- An error message is that there is one. A pointer to a column family is its place among `families`.
-- `m_access_group_map` leads to the groups of the list by their names. An element's or attribute's name
-- is told apart by `strcasecmp`; a number has no sign and no white space before it.
pub mod Invariant
pub mod Operations
pub mod Parsed
pub mod Numbered
pub mod Lookup
mod Tests
use hypertable.Base.{
  ℕ, zero, suc, ◌+◌, ◌-◌, ◌*◌, ◌%◌, ◌^◌, Bool, true, false, ◌&&◌, ◌||◌, not, List, [], ◌∷◌, ◌++◌,
  map, Option, none, some, ltb, leb, ◌==◌, if◌then◌else◌, length, get_elem?, set, min,
}
use hypertable.Deletes.{same}

pub record ColumnFamily : Type 0 where
  pub name : List ℕ
  pub ag : List ℕ
  pub id : ℕ
  pub max_versions : ℕ
  pub ttl : ℕ

pub record AccessGroup : Type 0 where
  pub name : List ℕ
  pub in_memory : Bool
  pub blocksize : ℕ
  pub compressor : List ℕ
  pub columns : List ℕ

pub record Schema : Type 0 where
  pub error : Bool
  pub families : List ColumnFamily
  pub column_family_map : List (List ℕ × Option ℕ)
  pub column_family_id_map : List (ℕ × ℕ)
  pub generation : ℕ
  pub access_groups : List AccessGroup
  pub open_group : Option AccessGroup
  pub open_family : Option ColumnFamily
  pub read_ids : Bool
  pub output_ids : Bool
  pub max_column_family_id : ℕ
  pub compressor : List ℕ

unfoldable pub new_schema : Bool → Schema
new_schema read_ids = record {
  error = false;
  families = [];
  column_family_map = [];
  column_family_id_map = [];
  generation = 1;
  access_groups = [];
  open_group = none;
  open_family = none;
  read_ids = read_ids;
  output_ids = false;
  max_column_family_id = 0;
  compressor = [];
}

-- `find` of a map by a name.
unfoldable pub find {ℓ} : {A : Type ℓ} → List ℕ → List (List ℕ × A) → Option A
find k [] = none
find k ((q, v) ∷ m) = if same q k then some v else find k m

-- `atoi` and `strtoll` of digits; the latter stops at the largest value.
unfoldable pub digits : ℕ → List ℕ → ℕ
digits n [] = n
digits n (b ∷ bs) = if leb b'0' b && leb b b'9' then digits (n * 10 + (b - b'0')) bs else n

unfoldable pub atoi : List ℕ → ℕ
atoi value = digits 0 value

unfoldable pub strtoll : List ℕ → ℕ
strtoll value = min (digits 0 value) (2 ^ 63 - 1)

abbrev pub set_error_string : Schema → Schema
set_error_string s = record s { error = true }

unfoldable pub is_valid : Schema → Bool
is_valid s = not s.error

unfoldable pub set_generation : List ℕ → Schema → Schema
set_generation value s =
    let n = atoi value in
    let s' = if n == 0 then set_error_string s else s in record s' { generation = n }

abbrev pub new_access_group : AccessGroup
new_access_group = record {
  name = [];
  in_memory = false;
  blocksize = 0;
  compressor = [];
  columns = [];
}

unfoldable pub open_access_group : Schema → Schema
open_access_group s = elim s.open_group [
  | some g ↦ set_error_string s
  | none ↦ record s { open_group = some new_access_group }
]

unfoldable pub find_group : List ℕ → List AccessGroup → Bool
find_group name [] = false
find_group name (g ∷ gs) = same g.name name || find_group name gs

unfoldable pub close_access_group : Schema → Schema
close_access_group s = elim s.open_group [
  | none ↦ set_error_string s
  | some g ↦
      let closed : Schema = record s { open_group = none } in
      if length g.name == 0
      then set_error_string closed
      else if find_group g.name s.access_groups
      then set_error_string closed
      else record closed { access_groups = s.access_groups ++ (g ∷ []) }
]

abbrev pub new_column_family : List ℕ → ColumnFamily
new_column_family ag = record { name = []; ag = ag; id = 0; max_versions = 0; ttl = 0 }

unfoldable pub open_column_family : Schema → Schema
open_column_family s = elim s.open_group [
  | none ↦ set_error_string s
  | some g ↦ elim s.open_family [
    | some cf ↦ set_error_string s
    | none ↦ record s { open_family = some (new_column_family g.name) }
  ]
]

-- The column family goes into the maps and into the open access group.
unfoldable pub add_open_family : AccessGroup → ColumnFamily → Schema → Schema
add_open_family g cf s =
    let ptr = length s.families in
    record s {
      families = s.families ++ (cf ∷ []);
      column_family_map = (cf.name, some ptr) ∷ s.column_family_map;
      column_family_id_map =
          if s.read_ids then (cf.id, ptr) ∷ s.column_family_id_map else s.column_family_id_map;
      open_group = some (record g { columns = g.columns ++ (ptr ∷ []) });
      open_family = none;
    }

unfoldable pub close_column_family : Schema → Schema
close_column_family s = elim s.open_group [
  | none ↦ set_error_string s
  | some g ↦ elim s.open_family [
    | none ↦ set_error_string s
    | some cf ↦
        if length cf.name == 0
        then set_error_string s
        else if s.read_ids && (cf.id == 0)
        then set_error_string s
        else elim (find cf.name s.column_family_map) [
          | some ptr ↦ set_error_string (record s { open_family = none })
          | none ↦ add_open_family g cf s
        ]
  ]
]

-- The names of attributes and of the elements whose text is one.
pub data Param : Type 0 where
  name_param in_memory_param blksz_param compressor_param : Param
  ttl_param max_versions_param id_param generation_param : Param
  other_param : Param

unfoldable pub lower : ℕ → ℕ
lower b = if leb b'A' b && leb b b'Z' then b + 32 else b

unfoldable pub strcasecmp : List ℕ → List ℕ → Bool
strcasecmp p q = same (map lower p) (map lower q)

abbrev pub text_true : List ℕ
text_true = b't' ∷ b'r' ∷ b'u' ∷ b'e' ∷ []

abbrev pub text_false : List ℕ
text_false = b'f' ∷ b'a' ∷ b'l' ∷ b's' ∷ b'e' ∷ []

-- The branches of `set_access_group_parameter`; `none` is an invalid value or attribute.
-- `trim` is boost's.
unfoldable pub group_parameter :
    (List ℕ → List ℕ) → Param → List ℕ → AccessGroup → Option AccessGroup
group_parameter trim name_param value g = some (record g { name = value })
group_parameter trim in_memory_param value g =
    if strcasecmp value text_true || same value (b'1' ∷ [])
    then some (record g { in_memory = true })
    else if strcasecmp value text_false || same value (b'0' ∷ [])
    then some (record g { in_memory = false })
    else none
group_parameter trim blksz_param value g =
    let blocksize = strtoll value in
    if (blocksize == 0) || leb (2 ^ 32) blocksize
    then none
    else some (record g { blocksize = blocksize })
group_parameter trim compressor_param value g = some (record g { compressor = trim value })
group_parameter trim _ value g = none

unfoldable pub set_access_group_parameter : (List ℕ → List ℕ) → Param → List ℕ → Schema → Schema
set_access_group_parameter trim param value s = elim s.open_group [
  | none ↦ set_error_string s
  | some g ↦ elim (group_parameter trim param value g) [
    | none ↦ set_error_string s
    | some g' ↦ record s { open_group = some g' }
  ]
]

-- The branches of `set_column_family_parameter`, the first value is whether there is no error.
unfoldable pub family_parameter : Bool → Param → List ℕ → ColumnFamily → Bool × ColumnFamily
family_parameter read_ids name_param value cf = (true, record cf { name = value })
family_parameter read_ids ttl_param value cf = (true, record cf { ttl = strtoll value })
family_parameter read_ids max_versions_param value cf =
    let n = atoi value % 2 ^ 32 in (not (n == 0), record cf { max_versions = n })
family_parameter read_ids id_param value cf =
    let n = atoi value % 2 ^ 32 in
    if read_ids then (not (n == 0), record cf { id = n }) else (false, cf)
family_parameter read_ids _ value cf = (false, cf)

abbrev pub is_id : Param → Bool
is_id id_param = true
is_id _ = false

unfoldable pub set_column_family_parameter : Param → List ℕ → Schema → Schema
set_column_family_parameter param value s = elim s.open_family [
  | none ↦ set_error_string s
  | some cf ↦
      let (valid, cf') = family_parameter s.read_ids param value cf in
      let max =
        if is_id param && s.read_ids && ltb s.max_column_family_id cf'.id
        then cf'.id
        else s.max_column_family_id in
      let s' : Schema = record s { open_family = some cf'; max_column_family_id = max } in
      if valid then s' else set_error_string s'
]

-- What the parser calls back with; an attribute's value is there.
pub data Tag : Type 0 where
  schema_tag access_group_tag column_family_tag max_versions_tag ttl_tag name_tag other_tag : Tag

pub data Event : Type 0 where
  start_element : Tag → List (Param × List ℕ) → Event
  end_element : Tag → Event
  character_data : List ℕ → Event

unfoldable pub schema_attribute : Param → List ℕ → Schema → Schema
schema_attribute generation_param value s =
    if s.read_ids then set_generation value s else set_error_string s
schema_attribute compressor_param value s = record s { compressor = value }
schema_attribute _ value s = set_error_string s

unfoldable pub schema_attributes : List (Param × List ℕ) → Schema → Schema
schema_attributes [] s = s
schema_attributes ((p, value) ∷ atts) s = schema_attributes atts (schema_attribute p value s)

unfoldable pub group_attributes : (List ℕ → List ℕ) → List (Param × List ℕ) → Schema → Schema
group_attributes trim [] s = s
group_attributes trim ((p, value) ∷ atts) s =
    group_attributes trim atts (set_access_group_parameter trim p value s)

unfoldable pub family_attributes : List (Param × List ℕ) → Schema → Schema
family_attributes [] s = s
family_attributes ((p, value) ∷ atts) s =
    family_attributes atts (set_column_family_parameter p value s)

-- `ms_schema` and `ms_collected_text`.
unfoldable pub start_element_handler :
    (List ℕ → List ℕ) → Tag → List (Param × List ℕ) → Schema × List ℕ → Schema × List ℕ
start_element_handler trim schema_tag atts (s, collected) = (schema_attributes atts s, collected)
start_element_handler trim access_group_tag atts (s, collected) =
    (group_attributes trim atts (open_access_group s), collected)
start_element_handler trim column_family_tag atts (s, collected) =
    (family_attributes atts (open_column_family s), collected)
start_element_handler trim other_tag atts (s, collected) = (set_error_string s, collected)
start_element_handler trim _ atts (s, collected) = (s, [])

unfoldable pub end_element_handler : (List ℕ → List ℕ) → Tag → Schema × List ℕ → Schema × List ℕ
end_element_handler trim access_group_tag (s, collected) = (close_access_group s, collected)
end_element_handler trim column_family_tag (s, collected) = (close_column_family s, collected)
end_element_handler trim max_versions_tag (s, collected) =
    (set_column_family_parameter max_versions_param (trim collected) s, trim collected)
end_element_handler trim ttl_tag (s, collected) =
    (set_column_family_parameter ttl_param (trim collected) s, trim collected)
end_element_handler trim name_tag (s, collected) =
    (set_column_family_parameter name_param (trim collected) s, trim collected)
end_element_handler trim _ (s, collected) = (s, collected)

unfoldable pub handle : (List ℕ → List ℕ) → Event → Schema × List ℕ → Schema × List ℕ
handle trim (start_element tag atts) s = start_element_handler trim tag atts s
handle trim (end_element tag) s = end_element_handler trim tag s
handle trim (character_data text) (s, collected) = (s, text)

unfoldable pub handle_all : (List ℕ → List ℕ) → List Event → Schema × List ℕ → Schema × List ℕ
handle_all trim [] s = s
handle_all trim (e ∷ es) s = handle_all trim es (handle trim e s)

-- `new_instance` over the events that the parser finds; its last argument is whether it parses.
unfoldable pub new_instance : (List ℕ → List ℕ) → List Event → Bool → Bool → Schema
new_instance trim events read_ids parses =
    let (s, collected) = handle_all trim events (new_schema read_ids, []) in
    if parses then s else set_error_string s

-- A pointer's object gets the next number.
unfoldable pub assign_columns : List ℕ → ℕ → List ColumnFamily → ℕ × List ColumnFamily
assign_columns [] n families = (n, families)
assign_columns (ptr ∷ columns) n families = elim (get_elem? families ptr) [
  | none ↦ assign_columns columns (n + 1) families
  | some cf ↦ assign_columns columns (n + 1) (set families ptr (record cf { id = n + 1 }))
]

unfoldable pub assign_groups : List AccessGroup → ℕ → List ColumnFamily → ℕ × List ColumnFamily
assign_groups [] n families = (n, families)
assign_groups (g ∷ gs) n families =
    let (m, families') = assign_columns g.columns n families in assign_groups gs m families'

unfoldable pub assign_ids : Schema → Schema
assign_ids s =
    let (n, families) = assign_groups s.access_groups 0 s.families in
    record s { families = families; max_column_family_id = n; generation = 1; output_ids = true }

-- `m_column_family_map[name]`, which puts a null pointer down for a name that is not there.
unfoldable pub get_column_family : List ℕ → Schema → Option ColumnFamily × Schema
get_column_family name s = elim (find name s.column_family_map) [
  | some (some ptr) ↦ (get_elem? s.families ptr, s)
  | some none ↦ (none, s)
  | none ↦ (none, record s { column_family_map = (name, none) ∷ s.column_family_map })
]

unfoldable pub add_access_group : AccessGroup → Schema → Schema
add_access_group g s =
    if find_group g.name s.access_groups
    then set_error_string s
    else record s { access_groups = s.access_groups ++ (g ∷ []) }

unfoldable pub push_column : List ℕ → ℕ → List AccessGroup → List AccessGroup
push_column name ptr [] = []
push_column name ptr (g ∷ gs) =
    let rest = push_column name ptr gs in
    if same g.name name then record g { columns = g.columns ++ (ptr ∷ []) } ∷ gs else g ∷ rest

unfoldable pub add_column_family : ColumnFamily → Schema → Schema
add_column_family cf s = elim (find cf.name s.column_family_map) [
  | some ptr ↦ set_error_string s
  | none ↦
      let ptr = length s.families in
      if find_group cf.ag s.access_groups
      then record s {
        families = s.families ++ (cf ∷ []);
        column_family_map = (cf.name, some ptr) ∷ s.column_family_map;
        access_groups = push_column cf.ag ptr s.access_groups;
      }
      else set_error_string s
]
