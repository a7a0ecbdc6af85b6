-- ===== src/Ipfix/ParserTests.antt =====
-- Runs of the IPFIX parser, and inputs at which its theorems apply.
use rustflow.Prelude.{
  ◌≡◌, ◌⊎◌, refl, Option, none, some, List, [], ◌∷◌, ◌++◌, arith, ℕ_discrete, false, ℕ, map,
}
use rustflow.Prelude.Ints.{ℤ}
use rustflow.Prelude.Decimal.{decimal}
use rustflow.IeRegistry
use rustflow.IeRegistry.{IeKey-discrete, DataType, new, add_element}
use rustflow.TemplateCache.Valid.{new-IsValid}
use rustflow.Prelude.Assoc.{
  weight, weight_of, retain, is_empty, lookup, insert as put, remove as delete,
}
use rustflow.Prelude.Words.{add_usize, sub_usize}
use rustflow.TemplateCache
use rustflow.TemplateCache.{
  get, contains_key, fits, earliest_in, earliest, remove_expired, remove, store_entry, swept,
  make_room, insert,
}
use rustflow.TemplateCache.Levels.{find, store, put_back, retain_all, total}
use rustflow.Wire.Read.{Bytes, read_number, read_bytes, number_from, read_count}
use rustflow.Wire.Reference.{nom, many0_model, many0_fuel}
use rustflow.Wire.Nom.{many}
use rustflow.Wire.Many.{Gives, Succeeds}
use rustflow.FieldParsers.{verify_version, timestamp_secs}
use rustflow.FieldParsers.Calendar.{calendar}
use rustflow.FieldParsers.Takes.{Takes}
use rustflow.Ipfix.Types.{
  FieldSpecifier, Field, FieldValue, no_values, no_items, value, DataRecord, Record, Header,
  IpfixPacket, template, data_of, all_of,
}
use rustflow.Ipfix.Templates.{
  enterprise_part, parse_field_specifier, parse_template_record, parse_field_length,
}
use rustflow.Ipfix.ElementTypes.{
  Description, no_elements, found, lookup as learned_type, learn, read, unsigned, usable_name,
  semantics_fit, type_of, described_type, set_learned, learn_element, learn_description,
  ElementKey-discrete, Description-discrete, unknown_element_name,
}
use rustflow.Ipfix.FieldValues.{unsigned_value, plain_value, octets}
use rustflow.Ipfix.DataRecords
use rustflow.Ipfix.DataRecords.{
  IpfixParser, semantic_of, content_loop, items_loop, parse_basic_list, parse_field_value,
  parse_values, parse_record_from_fields, parse_by, parse_templated_records, data_records,
}
use rustflow.Ipfix.Sets.{
  new_parser, resolve_fields, apply_template, apply_templates, learn_records, learn_element_types,
  parse_header, parse_records, set_bytes, parse_set, parse,
}
use rustflow.Ipfix.Lists.{field_value-Takes}
use rustflow.Ipfix.Rounds.{loops_enough}
use rustflow.Ipfix.Messages.{SetTaken, IsMessage, parse_set-SetTaken, parse-IsMessage}
use rustflow.Ipfix.Whole.{IsWhole, IsRead, parse-IsWhole}
use rustflow.Ipfix.Counted.{IsCounted, learn-IsCounted}
use rustflow.Ipfix.Isolation.{Keeps}
use rustflow.Ipfix.Learn.{parse-KeepsDomains}

-- A message of 36 bytes from domain 7: a template 256 with one field of 4 bytes, and one record.
abbrev header_bytes : ℕ → Bytes
header_bytes n = 0 ∷ 10 ∷ 0 ∷ n ∷ 0 ∷ 0 ∷ 0 ∷ 2 ∷ 0 ∷ 0 ∷ 0 ∷ 3 ∷ 0 ∷ 0 ∷ 0 ∷ 7 ∷ []

abbrev template_set : Bytes
template_set = 0 ∷ 2 ∷ 0 ∷ 12 ∷ 1 ∷ 0 ∷ 0 ∷ 1 ∷ 0 ∷ 1 ∷ 0 ∷ 4 ∷ []

abbrev data_set : Bytes
data_set = 1 ∷ 0 ∷ 0 ∷ 8 ∷ 0 ∷ 0 ∷ 0 ∷ 42 ∷ []

abbrev body : Bytes
body = template_set ++ data_set

abbrev header : ℕ → Header ℤ
header n = record {
  version = 10;
  length = n;
  export_time = ℤ.pos 2;
  sequence_number = 3;
  observation_domain_id = 7;
}

abbrev parser : IpfixParser
parser = new_parser 5 (add_element 1 none (111 ∷ []) DataType.unsigned new) 600

header_read : parse_header nom calendar (header_bytes 36 ++ body) ≡ some (body, header 36)
unfolding parse_header verify_version timestamp_secs read_number number_from
header_read = refl

parse-KeepsDomains_example :
    Keeps 5 7 parser (parse nom calendar 5 parser (header_bytes 36 ++ body)).0
parse-KeepsDomains_example =
    parse-KeepsDomains nom calendar 5 parser (header_bytes 36 ++ body) body (header 36)
      (omega arith) (unfold new_parser in new-IsValid 5 600)
      (unfold new_parser in new-IsValid 5 600) header_read

parse-IsMessage_example :
    Succeeds (parse nom calendar 5 parser (header_bytes 36 ++ body)).1
    × Gives
        (IsMessage nom calendar (header 36) body)
        (parse nom calendar 5 parser (header_bytes 36 ++ body)).1
parse-IsMessage_example =
    parse-IsMessage nom calendar 5 parser (header_bytes 36 ++ body) body (header 36) header_read
      (omega arith)

-- The message is whole, and is refused where its header says one byte more.
cut_refused : parse nom calendar 5 parser (header_bytes 37 ++ body) ≡ (parser, none)
unfolding parse parse_header verify_version timestamp_secs read_number number_from read_bytes
cut_refused = refl

parse-IsWhole_example :
    (IsWhole nom calendar (header_bytes 36 ++ body)
      × Succeeds (parse nom calendar 5 parser (header_bytes 36 ++ body)).1
      × Gives
          (IsRead nom calendar (header_bytes 36 ++ body))
          (parse nom calendar 5 parser (header_bytes 36 ++ body)).1)
    ⊎ ((¬ IsWhole nom calendar (header_bytes 36 ++ body))
        × (parse nom calendar 5 parser (header_bytes 36 ++ body) ≡ (parser, none)))
parse-IsWhole_example = parse-IsWhole nom calendar 5 parser (header_bytes 36 ++ body)

parse_set-SetTaken_example :
    Gives (SetTaken (data_set ++ 3 ∷ [])) (parse_set nom calendar 5 7 parser (data_set ++ 3 ∷ [])).1
parse_set-SetTaken_example = parse_set-SetTaken nom calendar 5 7 parser (data_set ++ 3 ∷ [])

-- A list of two numbers of two bytes, and a byte that follows it.
abbrev two_numbers : Bytes
two_numbers = 3 ∷ 0 ∷ 1 ∷ 0 ∷ 2 ∷ 0 ∷ 5 ∷ 0 ∷ 6 ∷ 77 ∷ []

abbrev two_bytes : FieldSpecifier
two_bytes = record {
  enterprise_bit = false;
  information_element_identifier = 1;
  field_length = 2;
  enterprise_number = none;
}

field_value-Takes_example :
    Takes 9 two_numbers
      (parse_field_value nom calendar 5 7 parser 8 DataType.basic_list 9 two_numbers)
field_value-Takes_example =
    field_value-Takes nom calendar 5 7 parser 8 DataType.basic_list 9 two_numbers

loops_enough_example :
    (content_loop nom calendar 5 7 parser
        (parse_field_value nom calendar 5 7 parser 8)
        none
        9
        two_bytes
        DataType.unsigned
        data_set
      ≡ content_loop nom calendar 5 7 parser
          (parse_field_value nom calendar 5 7 parser 8)
          (some no_values)
          100
          two_bytes
          DataType.unsigned
          data_set)
    × (items_loop nom calendar 5 7 parser
          (parse_field_value nom calendar 5 7 parser 8)
          none
          9
          data_set
        ≡ items_loop nom calendar 5 7 parser
            (parse_field_value nom calendar 5 7 parser 8)
            (some no_items)
            100
            data_set)
loops_enough_example =
    loops_enough nom calendar 5 7 parser 8 two_bytes DataType.unsigned data_set 9 100 none
      (some no_values) none (some no_items) (omega arith) (omega arith)

-- A type record: the element 7 of the enterprise 9 is an unsigned number, named "t".
abbrev field_of : ℕ → ℕ → Field
field_of id n = record {
  spec = record {
    enterprise_bit = false;
    information_element_identifier = id;
    field_length = n;
    enterprise_number = none;
  };
  data_type = DataType.unsigned;
  name = [];
}

abbrev type_record : DataRecord ℤ
type_record = record {
  fields =
      field_of 346 4 ∷ field_of 303 2 ∷ field_of 339 1 ∷ field_of 344 1 ∷ field_of 341 65535 ∷ [];
  values = value (FieldValue.unsigned32 9) (
      value (FieldValue.unsigned16 7) (
        value (FieldValue.unsigned8 1)
          (value (FieldValue.unsigned8 0) (value (FieldValue.string (116 ∷ [])) no_values))));
}

abbrev description : Description
description = record {
  id = 7;
  enterprise_number = some 9;
  data_type = 1;
  semantics = 0;
  name = some (116 ∷ []);
}

no_elements-IsCounted : IsCounted no_elements
unfolding no_elements weight
no_elements-IsCounted = record { counted = refl; bounded = omega arith }

learn-IsCounted_example : IsCounted (learn 3 type_record new no_elements).0
learn-IsCounted_example = learn-IsCounted 3 type_record new no_elements no_elements-IsCounted

program : Unit {0}
unfolding weight weight_of retain is_empty lookup put delete add_usize sub_usize get contains_key
    fits earliest_in earliest remove_expired remove store_entry swept make_room insert find store
    put_back retain_all total ℕ_discrete parse_header verify_version timestamp_secs read_number
    number_from read_bytes read_count new_parser add_element IeRegistry.lookup IeKey-discrete parse
    parse_set set_bytes parse_records parse_templated_records parse_by many parse_template_record
    parse_field_specifier enterprise_part parse_field_length parse_values parse_record_from_fields
    parse_field_value plain_value unsigned_value octets apply_templates apply_template
    resolve_fields learn_records learn_element_types DataRecords.lookup found learned_type
    many0_model many0_fuel TemplateCache.new IeRegistry.new parse_basic_list content_loop
    semantic_of learn read unsigned usable_name learn_description learn_element described_type
    type_of semantics_fit set_learned ElementKey-discrete Description-discrete no_elements
    unknown_element_name decimal
program = tt

-- The record of the message is read by the template before it, and the list is read whole.
abbrev records_of : {D : Type 0} → Option (Bytes × IpfixPacket D) → List (List (Record D))
records_of none = []
records_of (some (rest, packet)) = map (λ s. s.records) packet.sets

message_read : records_of (parse nom calendar 5 parser (header_bytes 36 ++ body)).1 ≡ (
    (template (record { template_id = 256; field_count = 1; fields = (field_of 1 4).spec ∷ [] })
      ∷ [])
    ∷ (data_of (record {
      fields = record (field_of 1 4) { name = 111 ∷ [] } ∷ [];
      values = value (FieldValue.unsigned32 42) no_values;
    })
        ∷ [])
    ∷ [])
unfolding program
message_read = refl

list_read :
    parse_field_value nom calendar 5 7 parser 8 DataType.basic_list 9 two_numbers
    ≡ some (
      77 ∷ [],
      FieldValue.basic_list all_of two_bytes
          (value (FieldValue.unsigned16 5) (value (FieldValue.unsigned16 6) no_values)),
    )
unfolding program
list_read = refl
