-- ===== src/Exporter/Tests.antt =====
-- Runs of the exporter's batching, and an input at which the theorem applies.
use rustflow.Prelude.{ℕ, ◌≡◌, refl, Bool, true, false, none, List, [], ◌∷◌, ◌++◌, All, length}
use rustflow.Prelude.Ints.{ℤ}
use rustflow.Wire.Read.{Bytes}
use rustflow.Wire.Write.{number_bytes}
use rustflow.Wire.Reference.{buf}
use rustflow.FieldParsers.Calendar.{calendar}
use rustflow.IeRegistry.{DataType}
use rustflow.Ipfix.Types.{Set, Field, DataRecord, value, no_values, FieldValue, iana}
use rustflow.Ipfix.Encoder.{
  encode, encode_value, encode_values, encode_field_value, encode_sets, encode_set, encode_records,
  encode_record, at_width,
}
use rustflow.Exporter.{
  Message, Exporter, send_records, send_loop, flush, flush_rest, add_record, must_flush, record_len,
  send_data, send_sets, packet,
}
use rustflow.Exporter.Order.{tagged, all_data}
use rustflow.Exporter.Batches.{IsFilled, records_in, send_records-sent}
use rustflow.Exporter.Sends.{send}
use rustflow.Exporter.Exported.{Tried, send-Tried}
use rustflow.Sampler.{count}
use rustflow.Meter.{Mode, flow_records}
use rustflow.FlowCache.{IpAddr, Flow}

program : Unit {0}
unfolding send_sets records_in encode encode_value encode_values encode_field_value encode_sets
    encode_set encode_records encode_record send_records send_loop flush flush_rest add_record
    must_flush record_len send_data packet number_bytes iana at_width
program = tt

abbrev protocol_field : Field
protocol_field = record { spec = iana 4 0; data_type = DataType.octet_array; name = [] }

abbrev small_record : DataRecord ℤ
small_record = record {
  fields = protocol_field ∷ [];
  values = value (FieldValue.unsigned8 6) no_values;
}

abbrev three : List (ℕ × DataRecord ℤ)
three = (256, small_record) ∷ (256, small_record) ∷ (257, small_record) ∷ []

-- The first message is refused, and costs only its own records.
abbrev socket : List (Message ℤ) → Bytes → Bool
socket [] bytes = false
socket (m ∷ ms) bytes = true

abbrev exporter : Exporter ℤ
exporter = record {
  args = record {
    observation_domain_id = 1;
    template_refresh_rate = 60;
    mode = Mode.flow;
    sampling = count 1;
  };
  sequence_number = 7;
  last_template_send = 0;
  sent = [];
}

abbrev first_id : List (Set ℤ) → ℕ
first_id [] = 0
first_id (s ∷ ss) = s.id

abbrev ids : List (Message ℤ) → List (ℕ × ℕ × ℕ)
ids [] = []
ids (m ∷ ms) =
    (first_id m.sets, length (records_in buf calendar socket (ℤ.pos 5) m.sets), length m.encoded)
    ∷ ids ms

two_messages :
    (ids (send_records buf calendar socket (ℤ.pos 5) three exporter).0.sent
      ≡ (256, 2, 22) ∷ (257, 1, 21) ∷ [])
    × ((send_records buf calendar socket (ℤ.pos 5) three exporter).0.sequence_number ≡ 8)
    × ((send_records buf calendar socket (ℤ.pos 5) three exporter).1 ≡ false)
unfolding program
two_messages = (refl, refl, refl)

send_records-sent_example :
    (tagged (send_records buf calendar socket (ℤ.pos 5) three exporter).0.sent
      ≡ [] ++ all_data three)
    × All
        (IsFilled buf calendar socket (ℤ.pos 5))
        (send_records buf calendar socket (ℤ.pos 5) three exporter).0.sent
unfolding tagged
send_records-sent_example = send_records-sent buf calendar socket (ℤ.pos 5) three exporter _

abbrev flow_from : IpAddr → Flow ℤ
flow_from source = record {
  key = record {
    source_ip = source;
    destination_ip = source;
    protocol = 17;
    source_port = 1111;
    destination_port = 53;
  };
  octet_count = 100;
  packet_count = 1;
  tcp_flags = 0;
  flow_start = ℤ.pos 5;
  flow_end = ℤ.pos 6;
  first_seen = 1;
  last_seen = 2;
  flow_end_reason = none;
}

abbrev mixed : List (Flow ℤ)
mixed = flow_from (IpAddr.v6 1) ∷ flow_from (IpAddr.v4 2) ∷ []

send-Tried_example :
    Tried buf calendar socket
      (ℤ.pos 5)
      (flow_records mixed)
      exporter
      (send buf calendar socket (ℤ.pos 5) (flow_records mixed) exporter).0
send-Tried_example = send-Tried buf calendar socket (ℤ.pos 5) (flow_records mixed) exporter _
