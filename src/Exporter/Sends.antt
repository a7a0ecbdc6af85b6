-- ===== src/Exporter/Sends.antt =====
-- crates/rustflow_export/src/exporter.rs: what is sent, and when. Instants and the refresh rate are
-- numbers of one unit.
use rustflow.Prelude.{ℕ, ◌-◌, Bool, true, false, List, [], ◌∷◌, ◌++◌, map, leb, if◌then◌else◌}
use rustflow.Wire.Read.{Bytes}
use rustflow.Wire.Write.{BufMut}
use rustflow.FieldParsers.{Chrono}
use rustflow.FlowCache.{IpAddr, Flow}
use rustflow.Meter.{Records, PacketData, flow_records, packet_records}
use rustflow.Ipfix.Types.{DataRecord, template, options_template, options_data}
use rustflow.Ipfix.Sets.{ipfix_template_set_id, ipfix_options_template_set_id}
use rustflow.FlowRecords.{
  FlowData, to_flow_data, template_id, to_data_record, options_template_id, create_options_template,
  options_record,
}
use rustflow.FlowRecords.Packets.{create_templates, template_id_of, packet_record}
use rustflow.Exporter.{Message, Exporter, send_sets, send_data, send_records}

abbrev pub is_ipv4 : IpAddr → Bool
is_ipv4 (IpAddr.v4 a) = true
is_ipv4 (IpAddr.v6 a) = false

abbrev pub from_ipv4 : {D : Type 0} → FlowData D → Bool
from_ipv4 d = is_ipv4 d.source_ip

-- The values that pass a test, and those that do not.
unfoldable pub partition : {A : Type 0} → (A → Bool) → List A → List A × List A
partition test [] = ([], [])
partition test (x ∷ xs) =
    let (yes_part, no_part) = partition test xs in
    if test x then (x ∷ yes_part, no_part) else (yes_part, x ∷ no_part)

unfoldable pub should_send_template : {D : Type 0} → ℕ → Exporter D → Bool
should_send_template now e = leb e.args.template_refresh_rate (now - e.last_template_send)

module _ (buf : BufMut) (chrono : Chrono) (send_to : List (Message chrono.DateTime) → Bytes → Bool)
    (time : chrono.DateTime) where
  abbrev D : Type 0
  D = chrono.DateTime

  unfoldable pub send_templates : ℕ → Exporter D → Exporter D × Bool
  send_templates now e =
      let templates = map template (create_templates e.args.mode) in
      let options = options_template (create_options_template e.args.sampling) ∷ [] in
      let (e', accepted) =
        send_sets buf chrono send_to time
          (record { id = ipfix_template_set_id; length = 0; records = templates }
            ∷ record { id = ipfix_options_template_set_id; length = 0; records = options }
            ∷ [])
          e in
      (record e' { last_template_send = if accepted then now else e'.last_template_send }, accepted)

  unfoldable pub send_options_data : Exporter D → Exporter D × Bool
  send_options_data e =
      let r = options_record e.args.observation_domain_id e.args.sampling in
      send_data buf chrono send_to time options_template_id (options_data r ∷ []) e

  abbrev pub flow_to_send : FlowData D → ℕ × DataRecord D
  flow_to_send d = (template_id d, to_data_record d)

  abbrev pub packet_to_send : PacketData → ℕ × DataRecord D
  packet_to_send p = (template_id_of p, packet_record p)

  unfoldable pub send_flows : List (Flow D) → Exporter D → Exporter D × Bool
  send_flows [] e = (e, true)
  send_flows (f ∷ fs) e =
      let (ipv4, ipv6) = partition from_ipv4 (map to_flow_data (f ∷ fs)) in
      send_records buf chrono send_to time (map flow_to_send (ipv4 ++ ipv6)) e

  unfoldable pub send_packets : List PacketData → Exporter D → Exporter D × Bool
  send_packets packets e = send_records buf chrono send_to time (map packet_to_send packets) e

  unfoldable pub send : Records D → Exporter D → Exporter D × Bool
  send (flow_records flows) e = send_flows flows e
  send (packet_records packets) e = send_packets packets e
