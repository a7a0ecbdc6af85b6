-- ===== src/FlowRecords.antt =====
-- crates/rustflow_export/src/ipfix: data.rs and template.rs, and `to_flow_data` of flow/mod.rs: what
-- is sent of a flow, and the template that describes it.
pub mod Widths
pub mod Packets
pub mod PacketTrip
mod Tests
use rustflow.Prelude.{ℕ, ◌-◌, ◌+◌, Option, none, some, List, [], ◌∷◌, ◌++◌}
use rustflow.Wire.Write.{number_bytes}
use rustflow.FieldParsers.{Chrono}
use rustflow.Sampler.{Sampling, count}
use rustflow.IeRegistry.{DataType}
use rustflow.FlowCache.{IpAddr, FlowEndReason, Flow}
use rustflow.Ipfix.Types.{
  FieldSpecifier, Field, iana, TemplateRecord, new_template, OptionsTemplateRecord,
  new_options_template, DataRecord, FieldValue, Values, no_values, value,
}

abbrev pub flow_ipv4_template_id : ℕ
flow_ipv4_template_id = 256

abbrev pub flow_ipv6_template_id : ℕ
flow_ipv6_template_id = 257

abbrev pub options_template_id : ℕ
options_template_id = 258

pub record FlowData (D : Type 0) : Type 0 where
  pub source_ip : IpAddr
  pub destination_ip : IpAddr
  pub protocol : ℕ
  pub source_port : ℕ
  pub destination_port : ℕ
  pub octet_count : ℕ
  pub packet_count : ℕ
  pub tcp_flags : ℕ
  pub flow_start : D
  pub flow_end : D
  pub flow_end_reason : ℕ

abbrev reason_number : Option FlowEndReason → ℕ
reason_number none = 0
reason_number (some FlowEndReason.idle_timeout) = 1
reason_number (some FlowEndReason.active_timeout) = 2
reason_number (some FlowEndReason.forced_end) = 4
reason_number (some FlowEndReason.lack_of_resources) = 5

unfoldable pub to_flow_data : {D : Type 0} → Flow D → FlowData D
to_flow_data f = record {
  source_ip = f.key.source_ip;
  destination_ip = f.key.destination_ip;
  protocol = f.key.protocol;
  source_port = f.key.source_port;
  destination_port = f.key.destination_port;
  octet_count = f.octet_count;
  packet_count = f.packet_count;
  tcp_flags = f.tcp_flags;
  flow_start = f.flow_start;
  flow_end = f.flow_end;
  flow_end_reason = reason_number f.flow_end_reason;
}

abbrev pub template_of : IpAddr → ℕ
template_of (IpAddr.v4 a) = flow_ipv4_template_id
template_of (IpAddr.v6 a) = flow_ipv6_template_id

abbrev version_of : IpAddr → ℕ
version_of (IpAddr.v4 a) = 4
version_of (IpAddr.v6 a) = 6

unfoldable pub template_id : {D : Type 0} → FlowData D → ℕ
template_id d = template_of d.source_ip

unfoldable pub ip_version : {D : Type 0} → FlowData D → ℕ
ip_version d = version_of d.source_ip

unfoldable pub address : {D : Type 0} → IpAddr → FieldValue D
address (IpAddr.v4 a) = FieldValue.ipv4_address a
address (IpAddr.v6 a) = FieldValue.ipv6_address (number_bytes 16 a)

-- `DataRecord::new`: every value with a field without a width or a name.
abbrev placeholder : Field
placeholder = record { spec = iana 0 0; data_type = DataType.octet_array; name = [] }

unfoldable pub placeholders : {D : Type 0} → Values D → List Field
placeholders no_values = []
placeholders (value v vs) = placeholder ∷ placeholders vs

unfoldable pub new_record : {D : Type 0} → Values D → DataRecord D
new_record vs = record { fields = placeholders vs; values = vs }

unfoldable pub to_data_record : {D : Type 0} → FlowData D → DataRecord D
to_data_record d = new_record (
    value (address d.source_ip) (
      value (address d.destination_ip) (
        value (FieldValue.unsigned8 (ip_version d)) (
          value (FieldValue.unsigned8 d.protocol) (
            value (FieldValue.unsigned16 d.source_port) (
              value (FieldValue.unsigned16 d.destination_port) (
                value (FieldValue.unsigned64 d.octet_count) (
                  value (FieldValue.unsigned64 d.packet_count) (
                    value (FieldValue.unsigned16 d.tcp_flags) (
                      value (FieldValue.date_time_milliseconds d.flow_start) (
                        value (FieldValue.date_time_milliseconds d.flow_end)
                          (value (FieldValue.unsigned8 d.flow_end_reason) no_values))))))))))))

unfoldable pub flow_template : ℕ → List FieldSpecifier → TemplateRecord
flow_template id addresses = new_template id (
    addresses
    ++ (iana 60 1
        ∷ iana 4 1
        ∷ iana 7 2
        ∷ iana 11 2
        ∷ iana 1 8
        ∷ iana 2 8
        ∷ iana 6 2
        ∷ iana 152 8
        ∷ iana 153 8
        ∷ iana 136 1
        ∷ []))

unfoldable pub create_flow_templates : List TemplateRecord
create_flow_templates =
    flow_template flow_ipv4_template_id (iana 8 4 ∷ iana 12 4 ∷ [])
    ∷ flow_template flow_ipv6_template_id (iana 27 16 ∷ iana 28 16 ∷ [])
    ∷ []

-- The options that describe the sampling.
unfoldable pub create_options_template : Sampling → OptionsTemplateRecord
create_options_template (count interval) =
    new_options_template options_template_id 1
      (iana 149 4 ∷ iana 34 4 ∷ iana 304 2 ∷ iana 305 4 ∷ iana 306 4 ∷ [])

unfoldable pub options_record : {D : Type 0} → ℕ → Sampling → DataRecord D
options_record observation_domain_id (count interval) = new_record (
    value (FieldValue.unsigned32 observation_domain_id) (
      value (FieldValue.unsigned32 interval) (
        value (FieldValue.unsigned16 1) (
          value (FieldValue.unsigned32 1)
            (value (FieldValue.unsigned32 (interval - 1)) no_values)))))
