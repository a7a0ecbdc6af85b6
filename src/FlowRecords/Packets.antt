-- ===== src/FlowRecords/Packets.antt =====
-- crates/rustflow_export/src/ipfix, data.rs and template.rs: what is sent of a packet, and the
-- templates of both modes.
use rustflow.Prelude.{ℕ, min, List, [], ◌∷◌, ◌^◌, ◌-◌, map}
use rustflow.IeRegistry.{DataType}
use rustflow.PacketInfo.{Link, ethernet, ip}
use rustflow.Meter.{Mode, flow, packet, PacketData}
use rustflow.Ipfix.Types.{
  FieldSpecifier, Field, iana, TemplateRecord, new_template, DataRecord, FieldValue, no_values,
  value, ipfix_variable_length,
}
use rustflow.FlowRecords.{create_flow_templates}

abbrev pub packet_frame_template_id : ℕ
packet_frame_template_id = 259

abbrev pub packet_ip_template_id : ℕ
packet_ip_template_id = 260

unfoldable pub packet_template_id : Link → ℕ
packet_template_id ethernet = packet_frame_template_id
packet_template_id ip = packet_ip_template_id

-- The element of the packet's bytes.
abbrev pub section_id : Link → ℕ
section_id ethernet = 315
section_id ip = 313

unfoldable pub packet_fields : Link → List FieldSpecifier
packet_fields link = iana 312 2 ∷ iana (section_id link) ipfix_variable_length ∷ []

unfoldable pub create_packet_template : Link → TemplateRecord
create_packet_template link = new_template (packet_template_id link) (packet_fields link)

unfoldable pub create_templates : Mode → List TemplateRecord
create_templates flow = create_flow_templates
create_templates packet = map create_packet_template (ethernet ∷ ip ∷ [])

-- `PacketData::template_id`
unfoldable pub template_id_of : PacketData → ℕ
template_id_of p = packet_template_id p.link

abbrev pub unnamed : FieldSpecifier → Field
unnamed spec = record { spec = spec; data_type = DataType.octet_array; name = [] }

-- `PacketData::to_data_record`, with a length of more than 16 bits cut to the largest.
unfoldable pub packet_record : {D : Type 0} → PacketData → DataRecord D
packet_record p = record {
  fields = map unnamed (packet_fields p.link);
  values =
      value (FieldValue.unsigned16 (min p.length (2 ^ 16 - 1)))
        (value (FieldValue.octet_array p.section) no_values);
}
