-- ===== src/Ipfix/Sets.antt =====
-- crates/rustflow_core/src/ipfix/parser.rs: the parser of one exporter's IPFIX, with its templates. A
-- method that changes the parser returns it beside its result, also where that is an error. The clock
-- is read once for a message. The log calls are left out.
use rustflow.Prelude.{
  ℕ, ◌-◌, Bool, false, ◌&&◌, ◌||◌, Option, none, some, List, [], ◌∷◌, ◌==◌, if◌then◌else◌, ltb, leb,
  map,
}
use rustflow.IeRegistry.{IeRegistry, IeDefinition, DataType}
use rustflow.TemplateCache.{new, insert, remove, remove_domain, refresh_domain}
use rustflow.Wire.Read.{Bytes, Parser, ◌>>=◌, map_value, map_parsed}
use rustflow.Wire.Nom.{Nom, many}
use rustflow.FieldParsers.{Chrono, verify_version, timestamp_secs}
use rustflow.Ipfix.Types.{
  ipfix_version, set_header_size, ipfix_header_size, FieldSpecifier, Field, TemplateRecord,
  OptionsTemplateRecord, Record, template, options_template, options_data, Set, Header, IpfixPacket,
}
use rustflow.Ipfix.Templates.{parse_template_record, parse_options_template_record}
use rustflow.Ipfix.ElementTypes.{ElementTypes, no_elements, learn, unknown_element_name}
use rustflow.Ipfix.DataRecords.{
  max_list_depth, Templates, IpfixParser, lookup, parse_templated_records, parse_field_value,
}

abbrev pub ipfix_template_set_id : ℕ
ipfix_template_set_id = 2

abbrev pub ipfix_options_template_set_id : ℕ
ipfix_options_template_set_id = 3

-- `IPFIX_VALID_TEMPLATE_ID.contains`
abbrev pub is_valid_template_id : ℕ → Bool
is_valid_template_id id = leb 256 id && leb id 65535

unfoldable pub new_parser : ℕ → IeRegistry → ℕ → IpfixParser
new_parser now ie_registry timeout = record {
  ie_registry = ie_registry;
  element_types = no_elements;
  templates = new now timeout;
  options_templates = new now timeout;
}

abbrev pub resolved : FieldSpecifier → Option IeDefinition → Field
resolved spec none = record {
  spec = spec;
  data_type = DataType.octet_array;
  name = unknown_element_name spec.information_element_identifier spec.enterprise_number;
}
resolved spec (some ie) = record { spec = spec; data_type = ie.data_type; name = ie.name }

unfoldable pub resolve_fields : IeRegistry → ElementTypes → ℕ → List FieldSpecifier → List Field
resolve_fields registry element_types domain fields =
    map (λ spec. resolved spec (lookup registry element_types domain spec)) fields

-- A template's ID, or that of the set, which withdraws every template.
unfoldable pub withdraw_templates : ℕ → ℕ → ℕ → Templates → Templates
withdraw_templates domain template_id all_id cache =
    if template_id == all_id then remove_domain domain cache else remove (domain, template_id) cache

-- What a template record does to the cache of its kind.
unfoldable pub apply_template :
    ℕ → IeRegistry → ElementTypes → ℕ → ℕ → ℕ → List FieldSpecifier → Templates → Templates
apply_template now registry element_types domain all_id template_id [] cache =
    withdraw_templates domain template_id all_id cache
apply_template now registry element_types domain all_id template_id (f ∷ fs) cache =
    if is_valid_template_id template_id
    then insert now (domain, template_id) (resolve_fields registry element_types domain (f ∷ fs))
        cache
    else cache

-- The loops of `parse_records` over the templates of a set.
unfoldable pub apply_templates : ℕ → ℕ → List TemplateRecord → IpfixParser → IpfixParser
apply_templates now domain [] p = p
apply_templates now domain (t ∷ ts) p =
    let cache =
      apply_template now p.ie_registry p.element_types domain ipfix_template_set_id t.template_id
        t.fields p.templates in
    apply_templates now domain ts (record p { templates = cache })

unfoldable pub apply_options : ℕ → ℕ → List OptionsTemplateRecord → IpfixParser → IpfixParser
apply_options now domain [] p = p
apply_options now domain (t ∷ ts) p =
    let cache =
      apply_template now p.ie_registry p.element_types domain ipfix_options_template_set_id
        t.template_id t.fields p.options_templates in
    apply_options now domain ts (record p { options_templates = cache })

module _ {D : Type 0} where
  abbrev pub learn_record : ℕ → IeRegistry → Record D → ElementTypes → ElementTypes × Bool
  learn_record domain registry (options_data r) types = learn domain r registry types
  learn_record domain registry _ types = (types, false)

  -- The loop of `learn_element_types`: the element types, and whether something changed.
  unfoldable pub learn_records :
      ℕ → IeRegistry → List (Record D) → ElementTypes → Bool → ElementTypes × Bool
  learn_records domain registry [] types changed = (types, changed)
  learn_records domain registry (r ∷ rs) types changed =
      let (types', more) = learn_record domain registry r types in
      learn_records domain registry rs types' (changed || more)

  unfoldable pub learn_element_types : ℕ → List (Record D) → IpfixParser → IpfixParser
  learn_element_types domain records p =
      let (types, changed) = learn_records domain p.ie_registry records p.element_types false in
      let resolve : List Field → List Field =
        λ fields. resolve_fields p.ie_registry types domain (map (λ f. f.spec) fields) in
      if changed
      then record p {
        element_types = types;
        templates = refresh_domain domain resolve p.templates;
        options_templates = refresh_domain domain resolve p.options_templates;
      }
      else record p { element_types = types }

module _ (nom : Nom) (chrono : Chrono) where
  open nom use {be_u16, be_u32, take, many0}

  abbrev pub D : Type 0
  D = chrono.DateTime

  unfoldable pub parse_header : Parser (Header D)
  parse_header input = do
    (input, version) ← verify_version nom input ipfix_version
    (input, length) ← be_u16 input
    (input, export_time) ← timestamp_secs nom chrono input
    (input, sequence_number) ← be_u32 input
    (input, observation_domain_id) ← be_u32 input
    some (
      input,
      record {
        version = version;
        length = length;
        export_time = export_time;
        sequence_number = sequence_number;
        observation_domain_id = observation_domain_id;
      },
    )

  abbrev pub Result : Type 0
  Result = IpfixParser × Option (Bytes × List (Record D))

  abbrev pub templates_applied : ℕ → ℕ → IpfixParser → Option (Bytes × List TemplateRecord) → Result
  templates_applied now domain p none = (p, none)
  templates_applied now domain p (some (input, templates)) =
      (apply_templates now domain templates p, some (input, map template templates))

  abbrev pub options_applied :
      ℕ → ℕ → IpfixParser → Option (Bytes × List OptionsTemplateRecord) → Result
  options_applied now domain p none = (p, none)
  options_applied now domain p (some (input, templates)) =
      (apply_options now domain templates p, some (input, map options_template templates))

  abbrev pub records_learned : ℕ → IpfixParser → Option (Bytes × List (Record D)) → Result
  records_learned domain p none = (p, none)
  records_learned domain p (some (input, records)) =
      (learn_element_types domain records p, some (input, records))

  unfoldable pub parse_records : ℕ → ℕ → ℕ → IpfixParser → Bytes → Result
  parse_records now domain set_id p input =
      if set_id == ipfix_template_set_id
      then templates_applied now domain p
          (many nom TemplateRecord (parse_template_record nom) input)
      else if set_id == ipfix_options_template_set_id
      then options_applied now domain p
          (many nom OptionsTemplateRecord (parse_options_template_record nom) input)
      else if is_valid_template_id set_id
      then records_learned domain p (
          parse_templated_records nom chrono now domain p
            (parse_field_value nom chrono now domain p max_list_depth) set_id input)
      else (p, some (input, []))

  -- A set's ID, its length and its bytes.
  unfoldable pub set_bytes : Parser (ℕ × ℕ × Bytes)
  set_bytes input = do
    (input, id) ← be_u16 input
    (input, length) ← be_u16 input
    if ltb length set_header_size
        then none
        else map_value (λ bytes. (id, length, bytes)) (take (length - set_header_size) input)

  abbrev pub set_of : ℕ → ℕ → Bytes → Option (Bytes × List (Record D)) → Option (Bytes × Set D)
  set_of id length rest none = none
  set_of id length rest (some (left, records)) =
      some (rest, record { id = id; length = length; records = records })

  abbrev pub set_parsed :
      ℕ → ℕ → IpfixParser → Option (Bytes × (ℕ × ℕ × Bytes)) → IpfixParser × Option (Bytes × Set D)
  set_parsed now domain p none = (p, none)
  set_parsed now domain p (some (rest, (id, length, bytes))) =
      let (p', records) = parse_records now domain id p bytes in (p', set_of id length rest records)

  unfoldable pub parse_set : ℕ → ℕ → IpfixParser → Bytes → IpfixParser × Option (Bytes × Set D)
  parse_set now domain p input = set_parsed now domain p (set_bytes input)

  abbrev pub packet :
      Header D → Bytes → Option (Bytes × List (Set D)) → Option (Bytes × IpfixPacket D)
  packet header rest sets =
      map_parsed rest (map_value (λ l. record { header = header; sets = l }) sets)

  abbrev pub body_parsed :
      ℕ
      → IpfixParser
      → Header D
      → Option (Bytes × Bytes)
      → IpfixParser × Option (Bytes × IpfixPacket D)
  body_parsed now p header none = (p, none)
  body_parsed now p header (some (rest, body)) =
      let (p', sets) =
        many0 IpfixParser (Set D) (parse_set now header.observation_domain_id) p body in
      (p', packet header rest sets)

  abbrev pub header_parsed :
      ℕ → IpfixParser → Option (Bytes × Header D) → IpfixParser × Option (Bytes × IpfixPacket D)
  header_parsed now p none = (p, none)
  header_parsed now p (some (input, header)) =
      body_parsed now p header (take (header.length - ipfix_header_size) input)

  unfoldable pub parse : ℕ → IpfixParser → Bytes → IpfixParser × Option (Bytes × IpfixPacket D)
  parse now p input = header_parsed now p (parse_header input)
