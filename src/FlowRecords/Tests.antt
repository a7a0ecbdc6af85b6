-- ===== src/FlowRecords/Tests.antt =====
-- Inputs at which the theorems on the exporter's records apply.
use rustflow.Prelude.{◌≡◌, refl, [], ◌∷◌, ◌++◌, length, none, some, arith, ℕ_discrete}
use rustflow.Prelude.Assoc.{lookup as find, insert as put}
use rustflow.Prelude.Ints.{ℤ}
use rustflow.IeRegistry
use rustflow.IeRegistry.{IeKey-discrete, IeDefinition, DataType, new, add_element}
use rustflow.PacketInfo.{Link}
use rustflow.Meter.{PacketData}
use rustflow.Wire.Reference.{nom, buf}
use rustflow.FieldParsers.Calendar.{calendar}
use rustflow.Sampler.{count}
use rustflow.FlowCache.{IpAddr, Flow}
use rustflow.Ipfix.Types.{iana, new_template}
use rustflow.Ipfix.Encoder.{encode_values}
use rustflow.Ipfix.DataRecords.{IpfixParser, lookup, parse_values, parse_field_value}
use rustflow.Ipfix.Sets.{new_parser, resolve_fields}
use rustflow.FlowRecords.Packets.{packet_fields, packet_record}
use rustflow.FlowRecords.PacketTrip.{parse_values-packet_record}
use rustflow.FlowRecords.{
  to_flow_data, to_data_record, template_id, create_flow_templates, flow_template,
  create_options_template, options_record,
}
use rustflow.FlowRecords.Widths.{
  declared, declared_by, length-to_data_record, length-options_record,
}

abbrev ipv6_flow : Flow ℤ
ipv6_flow = record {
  key = record {
    source_ip = IpAddr.v6 1;
    destination_ip = IpAddr.v6 2;
    protocol = 17;
    source_port = 1111;
    destination_port = 53;
  };
  octet_count = 100;
  packet_count = 1;
  tcp_flags = 0;
  flow_start = ℤ.pos 5;
  flow_end = ℤ.pos 6;
  first_seen = 1;
  last_seen = 2;
  flow_end_reason = none;
}

-- Records of IPv4 take 49 bytes, and records of IPv6 take 73.
widths : (declared_by 256 create_flow_templates ≡ 49) × (declared_by 257 create_flow_templates ≡ 73)
unfolding declared declared_by create_flow_templates flow_template new_template iana
widths = (refl, refl)

length-to_data_record_example :
    length (
      encode_values buf calendar
        (to_data_record (to_flow_data ipv6_flow)).fields
        (to_data_record (to_flow_data ipv6_flow)).values
        [])
    ≡ declared_by (template_id (to_flow_data ipv6_flow)) create_flow_templates
length-to_data_record_example = length-to_data_record buf calendar ipv6_flow _

length-options_record_example :
    length (
      encode_values buf calendar
        (options_record {D = ℤ} 1 (count 100)).fields
        (options_record 1 (count 100)).values
        [])
    ≡ declared (create_options_template (count 100)).fields
length-options_record_example = length-options_record buf calendar 1 (count 100)

-- A parser that knows both elements of a packet's template.
abbrev packet_parser : IpfixParser
packet_parser =
    new_parser 5
      (add_element 312 none (115 ∷ []) DataType.unsigned
        (add_element 315 none (98 ∷ []) DataType.octet_array new))
      600

abbrev big_packet : PacketData
big_packet = record { link = Link.ethernet; length = 70000; section = 1 ∷ 2 ∷ 3 ∷ [] }

abbrev size_element : IeDefinition
size_element = record {
  id = 312;
  enterprise_number = none;
  name = 115 ∷ [];
  data_type = DataType.unsigned;
}

abbrev section_element : IeDefinition
section_element = record {
  id = 315;
  enterprise_number = none;
  name = 98 ∷ [];
  data_type = DataType.octet_array;
}

elements_known :
    (lookup packet_parser.ie_registry packet_parser.element_types 7 (iana 312 2)
      ≡ some size_element)
    × (lookup packet_parser.ie_registry packet_parser.element_types 7 (iana 315 65535)
        ≡ some section_element)
unfolding lookup IeRegistry.lookup find put add_element IeRegistry.new IeKey-discrete new_parser
    ℕ_discrete iana
elements_known = (refl, refl)

parse_values-packet_record_example :
    parse_values nom calendar 5 7 packet_parser
      (parse_field_value nom calendar 5 7 packet_parser 8)
      (resolve_fields packet_parser.ie_registry packet_parser.element_types 7
        (packet_fields Link.ethernet))
      (encode_values buf calendar
          (packet_record {D = ℤ} big_packet).fields
          (packet_record big_packet).values
          []
        ++ 9 ∷ [])
    ≡ some (9 ∷ [], (packet_record big_packet).values)
parse_values-packet_record_example =
    parse_values-packet_record nom buf calendar 5 7 packet_parser big_packet (9 ∷ []) size_element
      section_element (elements_known.0) refl (elements_known.1) refl (omega arith)
