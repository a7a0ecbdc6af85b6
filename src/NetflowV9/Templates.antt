-- ===== src/NetflowV9/Templates.antt =====
-- crates/rustflow_core/src/netflow_v9/parser.rs: templates, how their fields are resolved, and the
-- parser's two template caches.
use rustflow.Prelude.{ℕ, Option, none, some, List, [], ◌∷◌, ◌==◌, if◌then◌else◌, map, length}
use rustflow.Prelude.Decimal.{decimal}
use rustflow.IeRegistry.{IeRegistry, IeDefinition, DataType, Text, lookup}
use rustflow.DataRecord.{ResolvedField}
use rustflow.TemplateCache.{TemplateCache, new, insert}

abbrev pub netflow_v9_version : ℕ
netflow_v9_version = 9

abbrev pub template_flow_set_id : ℕ
template_flow_set_id = 0

abbrev pub options_template_flow_set_id : ℕ
options_template_flow_set_id = 1

abbrev pub flow_set_header_size : ℕ
flow_set_header_size = 4

-- The field `type` of the source.
pub record TemplateField : Type 0 where
  pub type_id : ℕ
  pub length : ℕ

pub data ScopeFieldType : Type 0 where
  system interface line_card cache template : ScopeFieldType
  unknown : ℕ → ScopeFieldType

pub record ScopeField : Type 0 where
  pub type_id : ScopeFieldType
  pub length : ℕ

pub data OptionsTemplateField : Type 0 where
  scope : ScopeField → OptionsTemplateField
  option : TemplateField → OptionsTemplateField

pub record TemplateRecord : Type 0 where
  pub id : ℕ
  pub fields : List TemplateField

pub record OptionsTemplateRecord : Type 0 where
  pub id : ℕ
  pub option_scope_length : ℕ
  pub option_length : ℕ
  pub fields : List OptionsTemplateField

abbrev pub Field : Type 0
Field = ResolvedField TemplateField

abbrev pub Templates : Type 0
Templates = TemplateCache Field

pub record NetflowV9Parser : Type 0 where
  pub ie_registry : IeRegistry
  pub templates : Templates
  pub options_templates : Templates

unfoldable pub new_parser : ℕ → IeRegistry → ℕ → NetflowV9Parser
new_parser now ie_registry timeout = record {
  ie_registry = ie_registry;
  templates = new now timeout;
  options_templates = new now timeout;
}

unfoldable pub scope_type : ℕ → ScopeFieldType
scope_type v =
    if v == 1
    then system
    else if v == 2
    then interface
    else if v == 3
    then line_card
    else if v == 4
    then cache
    else if v == 5
    then template
    else unknown v

unfoldable pub scope_number : ScopeFieldType → ℕ
scope_number system = 1
scope_number interface = 2
scope_number line_card = 3
scope_number cache = 4
scope_number template = 5
scope_number (unknown v) = v

-- "System", "Interface", "LineCard", "Cache", "Template" and "Unknown".
abbrev scope_name : ScopeFieldType → Text
scope_name system = 83 ∷ 121 ∷ 115 ∷ 116 ∷ 101 ∷ 109 ∷ []
scope_name interface = 73 ∷ 110 ∷ 116 ∷ 101 ∷ 114 ∷ 102 ∷ 97 ∷ 99 ∷ 101 ∷ []
scope_name line_card = 76 ∷ 105 ∷ 110 ∷ 101 ∷ 67 ∷ 97 ∷ 114 ∷ 100 ∷ []
scope_name cache = 67 ∷ 97 ∷ 99 ∷ 104 ∷ 101 ∷ []
scope_name template = 84 ∷ 101 ∷ 109 ∷ 112 ∷ 108 ∷ 97 ∷ 116 ∷ 101 ∷ []
scope_name (unknown v) = 85 ∷ 110 ∷ 107 ∷ 110 ∷ 111 ∷ 119 ∷ 110 ∷ []

abbrev known_field : ℕ → ℕ → Option IeDefinition → Field
known_field type_id length none = record {
  spec = record { type_id = type_id; length = length };
  data_type = DataType.octet_array;
  name = decimal type_id;
}
known_field type_id length (some ie) = record {
  spec = record { type_id = type_id; length = length };
  data_type = ie.data_type;
  name = ie.name;
}

unfoldable pub from_registry : IeRegistry → ℕ → ℕ → Field
from_registry registry type_id length = known_field type_id length (lookup type_id none registry)

unfoldable pub resolve : IeRegistry → TemplateRecord → List Field
resolve registry t = map (λ field. from_registry registry field.type_id field.length) t.fields

abbrev resolve_option : IeRegistry → OptionsTemplateField → Field
resolve_option registry (scope s) = record {
  spec = record { type_id = scope_number s.type_id; length = s.length };
  data_type = DataType.unsigned;
  name = scope_name s.type_id;
}
resolve_option registry (option o) = from_registry registry o.type_id o.length

unfoldable pub resolve_options : IeRegistry → OptionsTemplateRecord → List Field
resolve_options registry t = map (resolve_option registry) t.fields

-- The loops of `parse_records` over the templates of a set.
unfoldable pub insert_templates : ℕ → ℕ → List TemplateRecord → NetflowV9Parser → NetflowV9Parser
insert_templates now source_id [] p = p
insert_templates now source_id (t ∷ ts) p =
    let cache = insert now (source_id, t.id) (resolve p.ie_registry t) p.templates in
    insert_templates now source_id ts (record p { templates = cache })

unfoldable pub insert_options :
    ℕ → ℕ → List OptionsTemplateRecord → NetflowV9Parser → NetflowV9Parser
insert_options now source_id [] p = p
insert_options now source_id (t ∷ ts) p =
    let cache =
      insert now (source_id, t.id) (resolve_options p.ie_registry t) p.options_templates in
    insert_options now source_id ts (record p { options_templates = cache })
