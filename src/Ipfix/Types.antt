-- ===== src/Ipfix/Types.antt =====
-- crates/rustflow_core/src/ipfix/parser.rs: the parts of an IPFIX message. A list of values or of
-- records inside a value is a data type of its own, since a value may hold lists of values.
use rustflow.Prelude.{ℕ, ◌%◌, ◌^◌, Bool, true, false, Option, none, some, List, length}
use rustflow.Prelude.Ints.{ℤ}
use rustflow.IeRegistry.{Text}
use rustflow.DataRecord.{ResolvedField}
use rustflow.Wire.Read.{Bytes}

abbrev pub ipfix_version : ℕ
ipfix_version = 10

abbrev pub ipfix_variable_length : ℕ
ipfix_variable_length = 0xffff

abbrev pub set_header_size : ℕ
set_header_size = 4

abbrev pub ipfix_header_size : ℕ
ipfix_header_size = 16

pub record FieldSpecifier : Type 0 where
  pub enterprise_bit : Bool
  pub information_element_identifier : ℕ
  pub field_length : ℕ
  pub enterprise_number : Option ℕ

-- A field specifier of an element that IANA registers.
unfoldable pub iana : ℕ → ℕ → FieldSpecifier
iana id length = record {
  enterprise_bit = false;
  information_element_identifier = id;
  field_length = length;
  enterprise_number = none;
}

-- A field specifier of an enterprise's element.
unfoldable pub enterprise : ℕ → ℕ → ℕ → FieldSpecifier
enterprise id length number = record {
  enterprise_bit = true;
  information_element_identifier = id;
  field_length = length;
  enterprise_number = some number;
}

abbrev pub Field : Type 0
Field = ResolvedField FieldSpecifier

pub data Semantic : Type 0 where
  none_of exactly_one_of one_or_more_of all_of ordered undefined : Semantic

unfoldable pub semantic_number : Semantic → ℕ
semantic_number none_of = 0x00
semantic_number exactly_one_of = 0x01
semantic_number one_or_more_of = 0x02
semantic_number all_of = 0x03
semantic_number ordered = 0x04
semantic_number undefined = 0xff

mutual
  pub data FieldValue (D : Type 0) : Type 0 where
    unsigned8 unsigned16 unsigned32 unsigned64 : ℕ → FieldValue D
    -- A U256 by its 32 bytes.
    unsigned256 : Bytes → FieldValue D
    signed8 signed16 signed32 signed64 : ℤ → FieldValue D
    float32 float64 : ℕ → FieldValue D
    boolean : Bool → FieldValue D
    mac_address octet_array : Bytes → FieldValue D
    string : Text → FieldValue D
    date_time_seconds date_time_milliseconds date_time_microseconds date_time_nanoseconds :
        D → FieldValue D
    ipv4_address : ℕ → FieldValue D
    ipv6_address : Bytes → FieldValue D
    basic_list : Semantic → FieldSpecifier → Values D → FieldValue D
    sub_template_list : Semantic → ℕ → Records D → FieldValue D
    sub_template_multi_list : Semantic → Items D → FieldValue D
    null : FieldValue D

  pub data Values (D : Type 0) : Type 0 where
    no_values : Values D
    value : FieldValue D → Values D → Values D

  -- A data record is its fields and its values.
  pub data Records (D : Type 0) : Type 0 where
    no_records : Records D
    data_record : List Field → Values D → Records D → Records D

  -- An item is a template's ID, its length and its records.
  pub data Items (D : Type 0) : Type 0 where
    no_items : Items D
    item : ℕ → ℕ → Records D → Items D → Items D

pub record TemplateRecord : Type 0 where
  pub template_id : ℕ
  pub field_count : ℕ
  pub fields : List FieldSpecifier

unfoldable pub new_template : ℕ → List FieldSpecifier → TemplateRecord
new_template template_id fields = record {
  template_id = template_id;
  field_count = length fields % 2 ^ 16;
  fields = fields;
}

pub record OptionsTemplateRecord : Type 0 where
  pub template_id : ℕ
  pub field_count : ℕ
  pub scope_field_count : ℕ
  pub fields : List FieldSpecifier

unfoldable pub new_options_template : ℕ → ℕ → List FieldSpecifier → OptionsTemplateRecord
new_options_template template_id scope_field_count fields = record {
  template_id = template_id;
  field_count = length fields % 2 ^ 16;
  scope_field_count = scope_field_count;
  fields = fields;
}

pub record DataRecord (D : Type 0) : Type 0 where
  pub fields : List Field
  pub values : Values D

pub data Record (D : Type 0) : Type 0 where
  template : TemplateRecord → Record D
  options_template : OptionsTemplateRecord → Record D
  data_of : DataRecord D → Record D
  options_data : DataRecord D → Record D

pub record Set (D : Type 0) : Type 0 where
  pub id : ℕ
  pub length : ℕ
  pub records : List (Record D)

unfoldable pub new_set : {D : Type 0} → ℕ → List (Record D) → Set D
new_set id records = record { id = id; length = 0; records = records }

pub record Header (D : Type 0) : Type 0 where
  pub version : ℕ
  pub length : ℕ
  pub export_time : D
  pub sequence_number : ℕ
  pub observation_domain_id : ℕ

unfoldable pub new_header : {D : Type 0} → D → ℕ → ℕ → Header D
new_header export_time sequence_number observation_domain_id = record {
  version = ipfix_version;
  length = 0;
  export_time = export_time;
  sequence_number = sequence_number;
  observation_domain_id = observation_domain_id;
}

pub record IpfixPacket (D : Type 0) : Type 0 where
  pub header : Header D
  pub sets : List (Set D)
