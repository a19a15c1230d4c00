-- ===== src/Schema/Parsed.antt =====
-- A schema that the parser's events make is well-formed.
use hypertable.Base.{ℕ, Bool, true, false, List, [], ◌∷◌, if◌then◌else◌}
use hypertable.Schema.{
  schema_tag, access_group_tag, column_family_tag, max_versions_tag, ttl_tag, name_tag, other_tag,
  Schema, new_schema, Param, name_param, in_memory_param, blksz_param, compressor_param, ttl_param,
  max_versions_param, id_param, generation_param, other_param, open_access_group,
  open_column_family, set_access_group_parameter, set_column_family_parameter, schema_attribute,
  schema_attributes, group_attributes, family_attributes, Tag, Event, start_element, end_element,
  character_data, start_element_handler, end_element_handler, handle, handle_all, new_instance,
}
use hypertable.Schema.Invariant.{
  IsSchema, new_schema-IsSchema, set_error_string-IsSchema, open_access_group-IsSchema,
  IsSchema-rest,
}
use hypertable.Schema.Operations.{
  close_access_group-IsSchema, open_column_family-IsSchema, close_column_family-IsSchema,
  set_access_group_parameter-IsSchema, set_column_family_parameter-IsSchema,
  set_generation-IsSchema,
}

schema_attribute-IsSchema :
    (p : Param) (value : List ℕ) (s : Schema) → IsSchema s → IsSchema (schema_attribute p value s)
unfolding schema_attribute
schema_attribute-IsSchema generation_param value s i =
    IsSchema-if s.read_ids (set_generation-IsSchema s i value) (set_error_string-IsSchema s i)
  where
    IsSchema-if :
        {x y : Schema} (b : Bool) → IsSchema x → IsSchema y → IsSchema (if b then x else y)
    IsSchema-if true h k = h
    IsSchema-if false h k = k
schema_attribute-IsSchema compressor_param value s i =
    IsSchema-rest s i s.error s.open_family s.generation s.max_column_family_id value
schema_attribute-IsSchema name_param value s i = set_error_string-IsSchema s i
schema_attribute-IsSchema in_memory_param value s i = set_error_string-IsSchema s i
schema_attribute-IsSchema blksz_param value s i = set_error_string-IsSchema s i
schema_attribute-IsSchema ttl_param value s i = set_error_string-IsSchema s i
schema_attribute-IsSchema max_versions_param value s i = set_error_string-IsSchema s i
schema_attribute-IsSchema id_param value s i = set_error_string-IsSchema s i
schema_attribute-IsSchema other_param value s i = set_error_string-IsSchema s i

schema_attributes-IsSchema :
    (atts : List (Param × List ℕ)) (s : Schema) → IsSchema s → IsSchema (schema_attributes atts s)
unfolding schema_attributes
schema_attributes-IsSchema [] s i = i
schema_attributes-IsSchema ((p, value) ∷ atts) s i =
    schema_attributes-IsSchema atts (schema_attribute p value s)
      (schema_attribute-IsSchema p value s i)

group_attributes-IsSchema :
    (trim : List ℕ → List ℕ) (atts : List (Param × List ℕ)) (s : Schema)
    → IsSchema s
    → IsSchema (group_attributes trim atts s)
unfolding group_attributes
group_attributes-IsSchema trim [] s i = i
group_attributes-IsSchema trim ((p, value) ∷ atts) s i =
    group_attributes-IsSchema trim atts (set_access_group_parameter trim p value s)
      (set_access_group_parameter-IsSchema s i trim p value)

family_attributes-IsSchema :
    (atts : List (Param × List ℕ)) (s : Schema) → IsSchema s → IsSchema (family_attributes atts s)
unfolding family_attributes
family_attributes-IsSchema [] s i = i
family_attributes-IsSchema ((p, value) ∷ atts) s i =
    family_attributes-IsSchema atts (set_column_family_parameter p value s)
      (set_column_family_parameter-IsSchema s i p value)

module _ (trim : List ℕ → List ℕ) where
  start_element-IsSchema :
      (tag : Tag) (atts : List (Param × List ℕ)) (s : Schema × List ℕ)
      → IsSchema s.0
      → IsSchema (start_element_handler trim tag atts s).0
  unfolding start_element_handler
  start_element-IsSchema schema_tag atts s i = schema_attributes-IsSchema atts s.0 i
  start_element-IsSchema access_group_tag atts s i =
      group_attributes-IsSchema trim atts (open_access_group s.0) (open_access_group-IsSchema s.0 i)
  start_element-IsSchema column_family_tag atts s i =
      family_attributes-IsSchema atts (open_column_family s.0) (open_column_family-IsSchema s.0 i)
  start_element-IsSchema other_tag atts s i = set_error_string-IsSchema s.0 i
  start_element-IsSchema max_versions_tag atts s i = i
  start_element-IsSchema ttl_tag atts s i = i
  start_element-IsSchema name_tag atts s i = i

  end_element-IsSchema :
      (tag : Tag) (s : Schema × List ℕ) → IsSchema s.0 → IsSchema (end_element_handler trim tag s).0
  unfolding end_element_handler
  end_element-IsSchema access_group_tag s i = close_access_group-IsSchema s.0 i
  end_element-IsSchema column_family_tag s i = close_column_family-IsSchema s.0 i
  end_element-IsSchema max_versions_tag s i =
      set_column_family_parameter-IsSchema s.0 i max_versions_param (trim s.1)
  end_element-IsSchema ttl_tag s i = set_column_family_parameter-IsSchema s.0 i ttl_param (trim s.1)
  end_element-IsSchema name_tag s i =
      set_column_family_parameter-IsSchema s.0 i name_param (trim s.1)
  end_element-IsSchema schema_tag s i = i
  end_element-IsSchema other_tag s i = i

  handle_all-IsSchema :
      (es : List Event) (s : Schema × List ℕ) → IsSchema s.0 → IsSchema (handle_all trim es s).0
  unfolding handle_all handle
  handle_all-IsSchema [] s i = i
  handle_all-IsSchema (start_element tag atts ∷ es) s i =
      handle_all-IsSchema es (start_element_handler trim tag atts s)
        (start_element-IsSchema tag atts s i)
  handle_all-IsSchema (end_element tag ∷ es) s i =
      handle_all-IsSchema es (end_element_handler trim tag s) (end_element-IsSchema tag s i)
  handle_all-IsSchema (character_data text ∷ es) s i = handle_all-IsSchema es (s.0, text) i

  -- Whatever the parser finds, and also if it finds a mistake: no two access groups of the schema have the
  -- same name, and no two column families; each entry of the map by names leads to a family of that
  -- name, and each family stands there under its name; each family is in one access group at most, once; families have names, and ids other than 0 where
  -- ids are read.
  pub new_instance-IsSchema :
      (events : List Event) (read_ids parses : Bool)
      → IsSchema (new_instance trim events read_ids parses)
  unfolding new_instance
  new_instance-IsSchema events read_ids true =
      handle_all-IsSchema events (new_schema read_ids, []) (new_schema-IsSchema read_ids)
  new_instance-IsSchema events read_ids false =
      set_error_string-IsSchema (handle_all trim events (new_schema read_ids, [])).0
        (handle_all-IsSchema events (new_schema read_ids, []) (new_schema-IsSchema read_ids))
