-- ===== src/Ipfix/Templates.antt =====
-- crates/rustflow_core/src/ipfix/parser.rs: how templates and their field specifiers are read.
use Prim.Native.Nat.{bit_and}
use rustflow.Prelude.{ℕ, Bool, true, false, not, Option, none, some, ◌==◌, if◌then◌else◌, ltb}
use rustflow.Wire.Read.{Parser, ◌>>=◌, map_value}
use rustflow.Wire.Nom.{Nom}
use rustflow.Ipfix.Types.{
  FieldSpecifier, TemplateRecord, OptionsTemplateRecord, ipfix_variable_length,
}

module _ (nom : Nom) where
  open nom use {be_u8, be_u16, be_u32, count}

  -- `cond(enterprise_bit, be_u32)`
  unfoldable pub enterprise_part : Bool → Parser (Option ℕ)
  enterprise_part true input = map_value some (be_u32 input)
  enterprise_part false input = some (input, none)

  unfoldable pub parse_field_specifier : Parser FieldSpecifier
  parse_field_specifier input = do
    (input, id) ← be_u16 input
    let enterprise_bit = not (bit_and id 0x8000 == 0)
    let information_element_identifier = bit_and id 0x7fff
    (input, field_length) ← be_u16 input
    (input, enterprise_number) ← enterprise_part enterprise_bit input
    some (
      input,
      record {
        enterprise_bit = enterprise_bit;
        information_element_identifier = information_element_identifier;
        field_length = field_length;
        enterprise_number = enterprise_number;
      },
    )

  unfoldable pub parse_template_record : Parser TemplateRecord
  parse_template_record input = do
    (input, template_id) ← be_u16 input
    (input, field_count) ← be_u16 input
    (input, fields) ← count FieldSpecifier parse_field_specifier field_count input
    some (input, record { template_id = template_id; field_count = field_count; fields = fields })

  -- A withdrawal is only a template ID and a field count of 0.
  unfoldable pub scope_part : ℕ → Parser ℕ
  scope_part field_count input = if field_count == 0 then some (input, 0) else be_u16 input

  unfoldable pub parse_options_template_record : Parser OptionsTemplateRecord
  parse_options_template_record input = do
    (input, template_id) ← be_u16 input
    (input, field_count) ← be_u16 input
    (input, scope_field_count) ← scope_part field_count input
    (input, fields) ← count FieldSpecifier parse_field_specifier field_count input
    some (
      input,
      record {
        template_id = template_id;
        field_count = field_count;
        scope_field_count = scope_field_count;
        fields = fields;
      },
    )

  -- The length of a value: that of its field, or a prefix of one byte or three.
  unfoldable pub parse_field_length : ℕ → Parser ℕ
  parse_field_length field_length input =
      if not (field_length == ipfix_variable_length)
      then some (input, field_length)
      else (be_u8 input >>= λ t. if ltb t.1 255 then some (t.0, t.1) else be_u16 t.0)
