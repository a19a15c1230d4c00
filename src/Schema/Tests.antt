-- ===== src/Schema/Tests.antt =====
-- The theorems at a table with one access group and two column families.
use hypertable.Base.{ℕ, ◌≡◌, refl, true, false, List, [], ◌∷◌, map, none, some, length}
use hypertable.ByteString.Order.{lex}
use hypertable.Deletes.{same}
use hypertable.Schema.{
  ColumnFamily, Schema, new_schema, new_column_family, Event, start_element, end_element,
  character_data, name_param, schema_tag, access_group_tag, column_family_tag, name_tag,
  new_instance, handle, handle_all, start_element_handler, end_element_handler, schema_attributes,
  group_attributes, family_attributes, set_access_group_parameter, group_parameter,
  set_column_family_parameter, family_parameter, open_access_group, close_access_group,
  open_column_family, close_column_family, add_open_family, find, find_group, assign_ids,
  get_column_family,
}
use hypertable.Schema.Invariant.{IsSchema, columns_of}
use hypertable.Schema.Parsed.{new_instance-IsSchema}
use hypertable.Schema.Numbered.{id_at, count_from, assign_ids-numbers}

abbrev untrimmed : List ℕ → List ℕ
untrimmed s = s

abbrev family_events : List ℕ → List Event → List Event
family_events name rest =
    start_element column_family_tag []
    ∷ start_element name_tag []
    ∷ character_data name
    ∷ end_element name_tag
    ∷ end_element column_family_tag
    ∷ rest

abbrev name_a : List ℕ
name_a = b'a' ∷ []

abbrev name_b : List ℕ
name_b = b'b' ∷ b'x' ∷ []

abbrev name_c : List ℕ
name_c = b'c' ∷ []

abbrev table : List Event
table =
    start_element schema_tag []
    ∷ start_element access_group_tag ((name_param, name_c) ∷ [])
    ∷ family_events name_a
        (family_events name_b (end_element access_group_tag ∷ end_element schema_tag ∷ []))

abbrev parsed : Schema
parsed = new_instance untrimmed table false true

abbrev expected : Schema
expected = record (new_schema false) {
  families =
      record (new_column_family name_c) { name = name_a }
      ∷ record (new_column_family name_c) { name = name_b }
      ∷ [];
  column_family_map = (name_b, some 1) ∷ (name_a, some 0) ∷ [];
  access_groups =
      record {
        name = name_c;
        in_memory = false;
        blocksize = 0;
        compressor = [];
        columns = 0 ∷ 1 ∷ [];
      }
      ∷ [];
}

parsed_table : parsed ≡ expected
unfolding new_instance handle_all handle start_element_handler end_element_handler schema_attributes
    group_attributes family_attributes set_access_group_parameter group_parameter
    set_column_family_parameter family_parameter open_access_group close_access_group
    open_column_family close_column_family add_open_family find find_group same lex new_schema
parsed_table = refl

parsed-IsSchema : IsSchema parsed
parsed-IsSchema = new_instance-IsSchema untrimmed table false true

new_instance-IsSchema_example : IsSchema (new_instance untrimmed table false true)
new_instance-IsSchema_example = new_instance-IsSchema untrimmed table false true

assign_ids-numbers_example :
    (map (id_at (assign_ids parsed).families) (columns_of (assign_ids parsed).access_groups)
      ≡ count_from 1 (length (columns_of parsed.access_groups)))
    × ((assign_ids parsed).max_column_family_id ≡ length (columns_of parsed.access_groups))
assign_ids-numbers_example = assign_ids-numbers parsed parsed-IsSchema

abbrev family_a : ColumnFamily
family_a = record (new_column_family name_c) { name = name_a }

found_a : (get_column_family name_a parsed).0 ≡ some family_a
unfolding get_column_family find same lex
found_a = rw parsed_table refl

abbrev family_c : ColumnFamily
family_c = record (new_column_family name_c) { name = name_c }

absent_c : find family_c.name expected.column_family_map ≡ none
unfolding find same lex
absent_c = refl

group_c : find_group family_c.ag expected.access_groups ≡ true
unfolding find_group same lex
group_c = refl

abbrev in_family : Schema
in_family = record expected { open_family = some (new_column_family name_c) }
