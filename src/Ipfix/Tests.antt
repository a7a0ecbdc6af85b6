-- ===== src/Ipfix/Tests.antt =====
-- Runs of the IPFIX encoder and of the template parsers, and inputs at which the theorems apply.
use rustflow.Prelude.{◌<◌, ◌^◌, ◌≡◌, refl, none, some, [], ◌∷◌, ◌++◌, arith, true, false}
use rustflow.Prelude.Ints.{ℤ, bits, is_negative}
use rustflow.Wire.Read.{read_number, number_from, read_count}
use rustflow.Wire.Write.{number_bytes}
use rustflow.Wire.Reference.{nom, buf}
use rustflow.Ipfix.Types.{
  FieldSpecifier, TemplateRecord, OptionsTemplateRecord, new_options_template,
}
use rustflow.Ipfix.Encoder.{
  encode_template, encode_options_template, encode_specifiers, put_int, put_uint, put_fixed,
  floor_char_boundary, is_char_boundary,
}
use rustflow.Ipfix.Templates.{parse_template_record, parse_options_template_record, scope_part}
use rustflow.Ipfix.RoundTrip.{
  FitsSpecifier, FitsTemplate, parse-encode_template, parse-encode_options_template,
}

abbrev octets_field : FieldSpecifier
octets_field = record {
  enterprise_bit = false;
  information_element_identifier = 1;
  field_length = 8;
  enterprise_number = none;
}

abbrev own_field : FieldSpecifier
own_field = record {
  enterprise_bit = true;
  information_element_identifier = 7;
  field_length = 65535;
  enterprise_number = some 9;
}

octets_field-FitsSpecifier : FitsSpecifier octets_field
octets_field-FitsSpecifier = record {
  marked = _;
  identifier = omega arith;
  field_length = omega arith;
}

own_field-FitsSpecifier : FitsSpecifier own_field
own_field-FitsSpecifier = record {
  marked = let fits : 9 < 2 ^ 32 = omega arith in fits;
  identifier = omega arith;
  field_length = omega arith;
}

abbrev two_fields : TemplateRecord
two_fields = record { template_id = 256; field_count = 2; fields = octets_field ∷ own_field ∷ [] }

two_fields-FitsTemplate : FitsTemplate 256 2 (octets_field ∷ own_field ∷ [])
two_fields-FitsTemplate = record {
  template_id = omega arith;
  field_count = refl;
  fields = (octets_field-FitsSpecifier, (own_field-FitsSpecifier, _));
  count = omega arith;
}

parse-encode_template_example :
    parse_template_record nom (encode_template buf two_fields [] ++ 1 ∷ [])
    ≡ some (1 ∷ [], two_fields)
parse-encode_template_example =
    parse-encode_template nom buf two_fields (1 ∷ []) two_fields-FitsTemplate

abbrev scoped : OptionsTemplateRecord
scoped = record {
  template_id = 256;
  field_count = 2;
  scope_field_count = 1;
  fields = octets_field ∷ own_field ∷ [];
}

parse-encode_options_template_example :
    parse_options_template_record nom (encode_options_template buf scoped [] ++ 1 ∷ [])
    ≡ some (1 ∷ [], scoped)
parse-encode_options_template_example =
    parse-encode_options_template nom buf scoped (1 ∷ []) two_fields-FitsTemplate (omega arith)
      (omega arith)

-- A withdrawal that is written has a scope count, which the parser does not expect there.
withdrawal_written :
    parse_options_template_record nom
      (encode_options_template buf (new_options_template 256 0 []) [])
    ≡ some (0 ∷ 0 ∷ [], new_options_template 256 0 [])
unfolding parse_options_template_record encode_options_template encode_specifiers scope_part
    new_options_template number_bytes read_number number_from read_count
withdrawal_written = refl

-- Integers at a width that is not their own, and a text cut before a character that does not fit.
widths :
    (put_uint buf 258 3 [] ≡ 0 ∷ 1 ∷ 2 ∷ [])
    × (put_int buf (ℤ.negsuc 0) 2 [] ≡ 255 ∷ 255 ∷ [])
    × (put_fixed buf (65 ∷ []) 3 [] ≡ 65 ∷ 0 ∷ 0 ∷ [])
    × (floor_char_boundary (65 ∷ 0xc3 ∷ 0xa9 ∷ []) 2 ≡ 1)
unfolding put_uint put_int put_fixed number_bytes bits is_negative floor_char_boundary
    is_char_boundary
widths = (refl, refl, refl, refl)
