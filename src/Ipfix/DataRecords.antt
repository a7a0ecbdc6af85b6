-- ===== src/Ipfix/DataRecords.antt =====
-- crates/rustflow_core/src/ipfix/parser.rs: how data records are read by their templates, and the
-- values of their fields, lists of values or of records included. Where the source counts how deep a
-- list is, the model counts the levels that are left, MAX_LIST_DEPTH less the depth.
use rustflow.Prelude.{
  ℕ, zero, suc, ◌-◌, ◌||◌, Option, none, some, List, [], ◌∷◌, ◌==◌, if◌then◌else◌, ltb, map, length,
}
use rustflow.IeRegistry.{IeRegistry, IeDefinition, DataType, lookup as registered}
use rustflow.TemplateCache.{TemplateCache, get, TemplateKey}
use rustflow.Wire.Read.{Bytes, Parser, ◌>>=◌, map_value}
use rustflow.Wire.Nom.{Nom, many}
use rustflow.FieldParsers.{Chrono}
use rustflow.Ipfix.Types.{
  FieldSpecifier, Field, Semantic, none_of, exactly_one_of, one_or_more_of, all_of, ordered,
  undefined, FieldValue, Values, no_values, value, Records, no_records, data_record, Items,
  no_items, item, DataRecord, Record, data_of, options_data,
}
use rustflow.Ipfix.Templates.{parse_field_specifier, parse_field_length}
use rustflow.Ipfix.ElementTypes.{ElementTypes, lookup as learned}
use rustflow.Ipfix.FieldValues.{plain_value}

abbrev pub max_list_depth : ℕ
max_list_depth = 8

abbrev pub Templates : Type 0
Templates = TemplateCache Field

pub record IpfixParser : Type 0 where
  pub ie_registry : IeRegistry
  pub element_types : ElementTypes
  pub templates : Templates
  pub options_templates : Templates

abbrev or_else : {A : Type 0} → Option A → Option A → Option A
or_else (some a) o = some a
or_else none o = o

-- The registry's definition, or else the exporter's.
unfoldable pub lookup : IeRegistry → ElementTypes → ℕ → FieldSpecifier → Option IeDefinition
lookup registry element_types domain spec =
    let id = spec.information_element_identifier in
    let enterprise_number = spec.enterprise_number in
    or_else (registered id enterprise_number registry)
      (learned domain id enterprise_number element_types)

-- `Semantic::from`
unfoldable pub semantic_of : ℕ → Semantic
semantic_of v =
    if v == 0
    then none_of
    else if v == 1
    then exactly_one_of
    else if v == 2
    then one_or_more_of
    else if v == 3
    then all_of
    else if v == 4
    then ordered
    else undefined

abbrev pub type_or_octets : Option IeDefinition → DataType
type_or_octets none = DataType.octet_array
type_or_octets (some ie) = ie.data_type

-- The fields of a template, and what its records are.
abbrev first_of :
    {D : Type 0}
    → Option (List Field)
    → Option (List Field)
    → Option (List Field × (DataRecord D → Record D))
first_of (some t) _ = some (t, data_of)
first_of none (some t) = some (t, options_data)
first_of none none = none

-- The data records among records.
unfoldable pub data_records : {D : Type 0} → List (Record D) → Records D
data_records [] = no_records
data_records (data_of r ∷ rs) = data_record r.fields r.values (data_records rs)
data_records (options_data r ∷ rs) = data_record r.fields r.values (data_records rs)
data_records (_ ∷ rs) = data_records rs

module _ (nom : Nom) (chrono : Chrono) where
  open nom use {be_u8, be_u16, take}

  abbrev Value : Type 0
  Value = FieldValue chrono.DateTime

  -- What reads a value of a type and a length.
  abbrev pub ValueParser : Type 0
  ValueParser = DataType → ℕ → Parser Value

  module _ (now domain : ℕ) (p : IpfixParser) where
    module _ (parse_value : ValueParser) where
      -- The loop over the fields.
      unfoldable pub parse_values : List Field → Parser (Values chrono.DateTime)
      parse_values [] input = some (input, no_values)
      parse_values (f ∷ fs) input = do
        (input, field_length) ← parse_field_length nom f.spec.field_length input
        (input, v) ← parse_value f.data_type field_length input
        (input, vs) ← parse_values fs input
        some (input, value v vs)

      unfoldable pub parse_record_from_fields : List Field → Parser (DataRecord chrono.DateTime)
      parse_record_from_fields fields input =
          map_value (λ values. record { fields = fields; values = values })
            (parse_values fields input)

      -- A template without fields has no records.
      unfoldable pub parse_by :
          List Field
          → (DataRecord chrono.DateTime → Record chrono.DateTime)
          → Parser (List (Record chrono.DateTime))
      parse_by [] wrap input = some (input, [])
      parse_by (f ∷ fs) wrap input =
          map_value (map wrap)
            (many nom (DataRecord chrono.DateTime) (parse_record_from_fields (f ∷ fs)) input)

      abbrev parse_by_template :
          Bytes
          → Option (List Field × (DataRecord chrono.DateTime → Record chrono.DateTime))
          → Option (Bytes × List (Record chrono.DateTime))
      parse_by_template input none = some (input, [])
      parse_by_template input (some (fields, wrap)) = parse_by fields wrap input

      unfoldable pub parse_templated_records : ℕ → Parser (List (Record chrono.DateTime))
      parse_templated_records template_id input =
          let key : TemplateKey = (domain, template_id) in
          parse_by_template input
            (first_of (get now key p.templates) (get now key p.options_templates))

      -- A round of the loop over the elements of a basic list, with what follows it.
      abbrev pub element_added :
          (Bytes → Option (Values chrono.DateTime))
          → Option (Bytes × Value)
          → Option (Values chrono.DateTime)
      element_added again none = none
      element_added again (some (next_data, v)) = again next_data >>= λ vs. some (value v vs)

      abbrev pub element_read :
          (Bytes → Option (Values chrono.DateTime))
          → FieldSpecifier
          → DataType
          → Option (Bytes × ℕ)
          → Option (Values chrono.DateTime)
      element_read again field element_data_type none = none
      element_read again field element_data_type (some (next_data, actual_length)) =
          if field.field_length == 0 || ltb (length next_data) actual_length
          then some no_values
          else element_added again (parse_value element_data_type actual_length next_data)

      abbrev pub content_round :
          (Bytes → Option (Values chrono.DateTime))
          → FieldSpecifier
          → DataType
          → Bytes
          → Option (Values chrono.DateTime)
      content_round again field element_data_type [] = some no_values
      content_round again field element_data_type (b ∷ bs) =
          element_read again field element_data_type
            (parse_field_length nom field.field_length (b ∷ bs))

      -- The rounds, and what they give when they run out: an element takes a byte at least, so more
      -- rounds than bytes do not.
      unfoldable pub content_loop :
          Option (Values chrono.DateTime)
          → ℕ
          → FieldSpecifier
          → DataType
          → Bytes
          → Option (Values chrono.DateTime)
      content_loop ran_out zero field element_data_type list_data = ran_out
      content_loop ran_out (suc rounds) field element_data_type list_data =
          let again = content_loop ran_out rounds field element_data_type in
          content_round again field element_data_type list_data

      unfoldable pub parse_basic_list : ℕ → Parser Value
      parse_basic_list len input = do
        (remaining, list) ← take len input
        (list, semantic) ← map_value semantic_of (be_u8 list)
        (list, field) ← parse_field_specifier nom list
        let element_data_type = type_or_octets (lookup p.ie_registry p.element_types domain field)
        content ← content_loop none (suc (length list)) field element_data_type list
        some (remaining, FieldValue.basic_list semantic field content)

      unfoldable pub parse_sub_template_list : ℕ → Parser Value
      parse_sub_template_list len input = do
        (remaining, list) ← take len input
        (list, semantic) ← map_value semantic_of (be_u8 list)
        (list, template_id) ← be_u16 list
        (_, records) ← parse_templated_records template_id list
        some (remaining, FieldValue.sub_template_list semantic template_id (data_records records))

      -- So for the items of a list of several templates, each of four bytes at least. An item
      -- without content is passed over.
      abbrev pub item_added :
          (Bytes → Option (Items chrono.DateTime))
          → ℕ
          → ℕ
          → Option (Bytes × Bytes)
          → Option (Items chrono.DateTime)
      item_added again template_id item_length none = none
      item_added again template_id item_length (some (next_data, item_data)) = do
        (_, records) ← parse_templated_records template_id item_data
        more ← again next_data
        some (item template_id item_length (data_records records) more)

      abbrev pub item_read :
          (Bytes → Option (Items chrono.DateTime))
          → ℕ
          → Option (Bytes × ℕ)
          → Option (Items chrono.DateTime)
      item_read again template_id none = none
      item_read again template_id (some (next_data, item_length)) =
          if (item_length - 4) == 0
          then again next_data
          else item_added again template_id item_length (take (item_length - 4) next_data)

      abbrev pub item_id_read :
          (Bytes → Option (Items chrono.DateTime))
          → Option (Bytes × ℕ)
          → Option (Items chrono.DateTime)
      item_id_read again none = none
      item_id_read again (some (next_data, template_id)) =
          item_read again template_id (be_u16 next_data)

      abbrev pub items_round :
          (Bytes → Option (Items chrono.DateTime)) → Bytes → Option (Items chrono.DateTime)
      items_round again [] = some no_items
      items_round again (b ∷ bs) = item_id_read again (be_u16 (b ∷ bs))

      unfoldable pub items_loop :
          Option (Items chrono.DateTime) → ℕ → Bytes → Option (Items chrono.DateTime)
      items_loop ran_out zero list_data = ran_out
      items_loop ran_out (suc rounds) list_data =
          let again = items_loop ran_out rounds in items_round again list_data

      unfoldable pub parse_sub_template_multi_list : ℕ → Parser Value
      parse_sub_template_multi_list len input = do
        (remaining, list) ← take len input
        (list, semantic) ← map_value semantic_of (be_u8 list)
        items ← items_loop none (suc (length list)) list
        some (remaining, FieldValue.sub_template_multi_list semantic items)

    -- By the levels that are left for lists.
    unfoldable pub parse_field_value : ℕ → ValueParser
    parse_field_value zero data_type len input = plain_value nom chrono data_type len input
    parse_field_value (suc levels) DataType.basic_list len input =
        parse_basic_list (parse_field_value levels) len input
    parse_field_value (suc levels) DataType.sub_template_list len input =
        parse_sub_template_list (parse_field_value levels) len input
    parse_field_value (suc levels) DataType.sub_template_multi_list len input =
        parse_sub_template_multi_list (parse_field_value levels) len input
    parse_field_value (suc levels) data_type len input = plain_value nom chrono data_type len input
