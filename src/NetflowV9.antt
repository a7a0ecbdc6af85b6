-- ===== src/NetflowV9.antt =====
-- crates/rustflow_core/src/netflow_v9/parser.rs: the parser of one exporter's NetFlow v9. It keeps
-- the templates that the exporter sent and reads data by them. A method that changes the parser
-- returns it beside its result, also where that is an error. The clock is read once for a message.
-- The log calls are left out.
pub mod Fields
pub mod Templates
pub mod Widths
pub mod Sets
pub mod Sizes
pub mod Learn
mod Tests
use rustflow.Prelude.{
  ℕ, zero, suc, ◌+◌, ◌-◌, Option, none, some, List, [], ◌∷◌, ◌++◌, ◌==◌, if◌then◌else◌, ltb, map,
  length,
}
use rustflow.DataRecord.{DataRecord, from_template}
use rustflow.TemplateCache.{get, TemplateKey}
use rustflow.Wire.Read.{Bytes, Parser, ◌>>=◌, map_value, map_parser}
use rustflow.Wire.Nom.{Nom, many}
use rustflow.FieldParsers.{Chrono, verify_version, timestamp_secs}
use Fields.{FieldValue, parse_field_value}
use Templates.{
  netflow_v9_version, template_flow_set_id, options_template_flow_set_id, flow_set_header_size,
  TemplateField, ScopeField, scope_type, OptionsTemplateField, TemplateRecord,
  OptionsTemplateRecord, Field, NetflowV9Parser, insert_templates, insert_options,
}

pub record Header (D : Type 0) : Type 0 where
  pub version : ℕ
  pub count : ℕ
  pub system_uptime : ℕ
  pub unix_seconds : D
  pub sequence_number : ℕ
  pub source_id : ℕ

abbrev pub Data : Type 0 → Type 0
Data D = DataRecord TemplateField (FieldValue D)

pub data Record (D : Type 0) : Type 0 where
  template : TemplateRecord → Record D
  options_template : OptionsTemplateRecord → Record D
  data_record : Data D → Record D
  options_data : Data D → Record D

pub record FlowSet (D : Type 0) : Type 0 where
  pub id : ℕ
  pub length : ℕ
  pub records : List (Record D)

pub record NetFlowV9Packet (D : Type 0) : Type 0 where
  pub header : Header D
  pub flow_sets : List (FlowSet D)

-- The value that each of two lookups wraps, the first that finds something.
abbrev first_of :
    {D : Type 0}
    → Option (List Field)
    → Option (List Field)
    → Option (List Field × (Data D → Record D))
first_of (some t) _ = some (t, data_record)
first_of none (some t) = some (t, options_data)
first_of none none = none

module _ (nom : Nom) where
  open nom use {be_u16, be_u32, take, count, many0}

  unfoldable pub parse_template_field : Parser TemplateField
  parse_template_field input = do
    (input, type_id) ← be_u16 input
    (input, length) ← be_u16 input
    some (input, record { type_id = type_id; length = length })

  unfoldable pub parse_scope_field : Parser ScopeField
  parse_scope_field input = do
    (input, type_id) ← map_value scope_type (be_u16 input)
    (input, length) ← be_u16 input
    some (input, record { type_id = type_id; length = length })

  unfoldable pub parse_template_record : Parser TemplateRecord
  parse_template_record input = do
    (input, id) ← be_u16 input
    (input, field_count) ← be_u16 input
    (input, fields) ← count TemplateField parse_template_field field_count input
    some (input, record { id = id; fields = fields })

  unfoldable pub parse_options_template_record : Parser OptionsTemplateRecord
  parse_options_template_record input = do
    (input, id) ← be_u16 input
    (input, option_scope_length) ← be_u16 input
    (input, option_length) ← be_u16 input
    (input, scope) ← map_parser (take option_scope_length input) (
        many nom OptionsTemplateField
          (λ i. map_value OptionsTemplateField.scope (parse_scope_field i)))
    (input, options) ← map_parser (take option_length input) (
        many nom OptionsTemplateField
          (λ i. map_value OptionsTemplateField.option (parse_template_field i)))
    some (
      input,
      record {
        id = id;
        option_scope_length = option_scope_length;
        option_length = option_length;
        fields = scope ++ options;
      },
    )

  module _ (chrono : Chrono) where
    abbrev D : Type 0
    D = chrono.DateTime

    unfoldable pub parse_header : Parser (Header D)
    parse_header input = do
      (input, version) ← verify_version nom input netflow_v9_version
      (input, count) ← be_u16 input
      (input, system_uptime) ← be_u32 input
      (input, unix_seconds) ← timestamp_secs nom chrono input
      (input, sequence_number) ← be_u32 input
      (input, source_id) ← be_u32 input
      some (
        input,
        record {
          version = version;
          count = count;
          system_uptime = system_uptime;
          unix_seconds = unix_seconds;
          sequence_number = sequence_number;
          source_id = source_id;
        },
      )

    -- The loop over the fields.
    unfoldable pub parse_data_record : List Field → Parser (List (FieldValue D))
    parse_data_record [] input = some (input, [])
    parse_data_record (f ∷ fs) input = do
      (input, value) ← parse_field_value nom chrono f.data_type f.spec.length input
      (input, values) ← parse_data_record fs input
      some (input, value ∷ values)

    -- The data records of one set, by the fields of their template.
    unfoldable pub parse_by : List Field → (Data D → Record D) → Parser (List (Record D))
    parse_by [] wrap input = some (input, [])
    parse_by (f ∷ fs) wrap input = map_value (map wrap) (
        many nom (Data D) (λ i. map_value (from_template (f ∷ fs)) (parse_data_record (f ∷ fs) i))
          input)

    abbrev parse_by_template :
        Bytes → Option (List Field × (Data D → Record D)) → Option (Bytes × List (Record D))
    parse_by_template input none = some (input, [])
    parse_by_template input (some (fields, wrap)) = parse_by fields wrap input

    unfoldable pub parse_templated_records : ℕ → ℕ → ℕ → NetflowV9Parser → Parser (List (Record D))
    parse_templated_records now source_id template_id p input =
        let key : TemplateKey = (source_id, template_id) in
        parse_by_template input
          (first_of (get now key p.templates) (get now key p.options_templates))

    abbrev templates_stored :
        ℕ
        → ℕ
        → NetflowV9Parser
        → Option (Bytes × List TemplateRecord)
        → NetflowV9Parser × Option (Bytes × List (Record D))
    templates_stored now source_id p none = (p, none)
    templates_stored now source_id p (some (input, templates)) =
        (insert_templates now source_id templates p, some (input, map template templates))

    abbrev options_stored :
        ℕ
        → ℕ
        → NetflowV9Parser
        → Option (Bytes × List OptionsTemplateRecord)
        → NetflowV9Parser × Option (Bytes × List (Record D))
    options_stored now source_id p none = (p, none)
    options_stored now source_id p (some (input, templates)) =
        (insert_options now source_id templates p, some (input, map options_template templates))

    unfoldable pub parse_records :
        ℕ → ℕ → ℕ → NetflowV9Parser → Bytes → NetflowV9Parser × Option (Bytes × List (Record D))
    parse_records now source_id flow_set_id p input =
        if flow_set_id == template_flow_set_id
        then templates_stored now source_id p (many nom TemplateRecord parse_template_record input)
        else if flow_set_id == options_template_flow_set_id
        then options_stored now source_id p
            (many nom OptionsTemplateRecord parse_options_template_record input)
        else (p, parse_templated_records now source_id flow_set_id p input)

    -- A set's ID, its length and its bytes.
    unfoldable pub set_bytes : Parser (ℕ × ℕ × Bytes)
    set_bytes input = do
      (input, id) ← be_u16 input
      (input, length) ← be_u16 input
      if ltb length flow_set_header_size
          then none
          else map_value (λ bytes. (id, length, bytes)) (take (length - flow_set_header_size) input)

    abbrev flow_set : ℕ → ℕ → Bytes → Option (Bytes × List (Record D)) → Option (Bytes × FlowSet D)
    flow_set id length rest none = none
    flow_set id length rest (some (left, records)) =
        some (rest, record { id = id; length = length; records = records })

    abbrev set_parsed :
        ℕ
        → ℕ
        → NetflowV9Parser
        → Option (Bytes × (ℕ × ℕ × Bytes))
        → NetflowV9Parser × Option (Bytes × FlowSet D)
    set_parsed now source_id p none = (p, none)
    set_parsed now source_id p (some (rest, (id, length, bytes))) =
        let (p', records) = parse_records now source_id id p bytes in
        (p', flow_set id length rest records)

    unfoldable pub parse_flow_set :
        ℕ → ℕ → NetflowV9Parser → Bytes → NetflowV9Parser × Option (Bytes × FlowSet D)
    parse_flow_set now source_id p input = set_parsed now source_id p (set_bytes input)

    abbrev packet :
        Header D → Option (Bytes × List (FlowSet D)) → Option (Bytes × NetFlowV9Packet D)
    packet header sets =
        map_value (λ flow_sets. record { header = header; flow_sets = flow_sets }) sets

    abbrev sets_parsed :
        ℕ
        → NetflowV9Parser
        → Option (Bytes × Header D)
        → NetflowV9Parser × Option (Bytes × NetFlowV9Packet D)
    sets_parsed now p none = (p, none)
    sets_parsed now p (some (input, header)) =
        let (p', sets) =
          many0 NetflowV9Parser (FlowSet D) (parse_flow_set now header.source_id) p input in
        (p', packet header sets)

    unfoldable pub parse :
        ℕ → NetflowV9Parser → Bytes → NetflowV9Parser × Option (Bytes × NetFlowV9Packet D)
    parse now p input = sets_parsed now p (parse_header input)
