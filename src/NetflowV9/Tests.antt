-- ===== src/NetflowV9/Tests.antt =====
-- Runs of the NetFlow v9 parser, and inputs at which the theorems apply.
use rustflow.Prelude.{
  ◌≡◌, refl, Option, none, some, List, [], ◌∷◌, ◌++◌, arith, length, subst, sym, ℕ_discrete,
}
use rustflow.Prelude.Ints.{ℤ}
use rustflow.IeRegistry
use rustflow.IeRegistry.{IeKey-discrete, DataType, new, add_element}
use rustflow.DataRecord.{from_template}
use rustflow.TemplateCache.Valid.{new-IsValid}
use rustflow.Prelude.Assoc.{
  weight, weight_of, retain, is_empty, lookup, insert as put, remove as delete,
}
use rustflow.Prelude.Words.{add_usize, sub_usize}
use rustflow.TemplateCache
use rustflow.TemplateCache.{
  get, contains_key, fits, earliest_in, earliest, remove_expired, remove, store_entry, swept,
  make_room, insert,
}
use rustflow.TemplateCache.Levels.{find, store, put_back, retain_all, total}
use rustflow.Wire.Read.{Bytes, read_number, read_bytes, number_from, read_count}
use rustflow.Wire.Nom.{many}
use rustflow.Wire.Reference.{nom, many0_model, many0_fuel}
use rustflow.Wire.Many.{Gives, Succeeds}
use rustflow.FieldParsers.{verify_version, timestamp_secs}
use rustflow.FieldParsers.Calendar.{calendar}
use rustflow.FieldParsers.Takes.{Takes}
use rustflow.NetflowV9.Fields.{FieldValue, typed_value, unsigned_value, parse_field_value}
use rustflow.NetflowV9.Templates.{
  Field, NetflowV9Parser, new_parser, resolve, from_registry, insert_templates,
}
use rustflow.NetflowV9.Widths.{parse_field_value-Takes}
use rustflow.NetflowV9.Sets.{
  width, parse_data_record-Takes, parse_flow_set-SetTaken, SetTaken, parse-Succeeds,
}
use rustflow.NetflowV9.Learn.{Keeps, parse-Keeps}
use rustflow.NetflowV9.{
  NetFlowV9Packet, FlowSet, data_record, set_bytes, parse_records, parse_templated_records,
  parse_by, parse_template_record, parse_template_field, Header, parse, parse_header,
  parse_data_record, parse_flow_set,
}

program : Unit {0}
unfolding weight weight_of retain is_empty lookup put delete add_usize sub_usize get contains_key
    fits earliest_in earliest remove_expired remove store_entry swept make_room insert find store
    put_back retain_all total ℕ_discrete parse_header verify_version timestamp_secs read_number
    number_from read_bytes read_count new_parser add_element IeRegistry.lookup IeKey-discrete parse
    parse_flow_set set_bytes parse_records parse_templated_records parse_by many
    parse_template_record parse_template_field parse_data_record parse_field_value typed_value
    unsigned_value from_template resolve from_registry insert_templates many0_model many0_fuel
    TemplateCache.new IeRegistry.new
program = tt

abbrev header_bytes : Bytes
header_bytes = 0 ∷ 9 ∷ 0 ∷ 2 ∷ 0 ∷ 0 ∷ 0 ∷ 1 ∷ 0 ∷ 0 ∷ 0 ∷ 2 ∷ 0 ∷ 0 ∷ 0 ∷ 3 ∷ 0 ∷ 0 ∷ 0 ∷ 7 ∷ []

-- A template 256 with one field of 4 bytes, and a set of one record.
abbrev template_set : Bytes
template_set = 0 ∷ 0 ∷ 0 ∷ 12 ∷ 1 ∷ 0 ∷ 0 ∷ 1 ∷ 0 ∷ 1 ∷ 0 ∷ 4 ∷ []

abbrev data_set : Bytes
data_set = 1 ∷ 0 ∷ 0 ∷ 8 ∷ 0 ∷ 0 ∷ 0 ∷ 42 ∷ []

abbrev header : Header ℤ
header = record {
  version = 9;
  count = 2;
  system_uptime = 1;
  unix_seconds = ℤ.pos 2;
  sequence_number = 3;
  source_id = 7;
}

abbrev parser : NetflowV9Parser
parser = new_parser 5 (add_element 1 none (111 ∷ []) DataType.unsigned new) 600

abbrev field : Field
field = record {
  spec = record { type_id = 1; length = 4 };
  data_type = DataType.unsigned;
  name = 111 ∷ [];
}

header_read :
    parse_header nom calendar (header_bytes ++ template_set ++ data_set)
    ≡ some (template_set ++ data_set, header)
unfolding parse_header verify_version timestamp_secs read_number number_from
header_read = refl

parse-Keeps_example :
    Keeps 5 7 parser (parse nom calendar 5 parser (header_bytes ++ template_set ++ data_set)).0
parse-Keeps_example =
    parse-Keeps nom calendar 5 parser (header_bytes ++ template_set ++ data_set)
      (template_set ++ data_set) header (omega arith) (unfold new_parser in new-IsValid 5 600)
      (unfold new_parser in new-IsValid 5 600) header_read

parse-Succeeds_example :
    Succeeds (parse nom calendar 5 parser (header_bytes ++ template_set ++ data_set)).1
parse-Succeeds_example =
    parse-Succeeds nom calendar 5 parser (header_bytes ++ template_set ++ data_set)
      (subst Succeeds (sym header_read) (unfold Succeeds in _))

parse_flow_set-SetTaken_example :
    Gives
      (SetTaken (data_set ++ 3 ∷ []))
      (parse_flow_set nom calendar 5 7 parser (data_set ++ 3 ∷ [])).1
parse_flow_set-SetTaken_example =
    parse_flow_set-SetTaken nom calendar 5 7 parser (data_set ++ 3 ∷ [])

parse_data_record-Takes_example :
    Takes
      (width (field ∷ field ∷ []))
      data_set
      (parse_data_record nom calendar (field ∷ field ∷ []) data_set)
parse_data_record-Takes_example = parse_data_record-Takes nom calendar (field ∷ field ∷ []) data_set

parse_field_value-Takes_example :
    Takes 3 data_set (parse_field_value nom calendar DataType.unsigned 3 data_set)
parse_field_value-Takes_example = parse_field_value-Takes nom calendar 3 data_set DataType.unsigned

-- The template set is learned, and the data set behind it is read by it.
abbrev sets_of : {D : Type 0} → Option (Bytes × NetFlowV9Packet D) → List (FlowSet D)
sets_of none = []
sets_of (some (rest, packet)) = packet.flow_sets

whole_packet :
    length (sets_of (parse nom calendar 5 parser (header_bytes ++ template_set ++ data_set)).1) ≡ 2
unfolding program
whole_packet = refl

data_read :
    parse_flow_set nom calendar 5 7
      (parse nom calendar 5 parser (header_bytes ++ template_set)).0
      data_set
    ≡ (
      (parse nom calendar 5 parser (header_bytes ++ template_set)).0,
      some (
        [],
        record {
          id = 256;
          length = 8;
          records =
              data_record (record { fields = field ∷ []; values = FieldValue.unsigned32 42 ∷ [] })
              ∷ [];
        },
      ),
    )
unfolding program
data_read = refl
