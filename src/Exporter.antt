-- ===== src/Exporter.antt =====
-- crates/rustflow_export/src/exporter.rs: how data records are sent. The socket is a parameter,
-- which accepts a datagram or not by what was sent before it; the exporter's log has every message
-- that was tried. A result is whether it is `Ok`. The time of a message is a parameter of the call.
pub mod Order
pub mod Batches
pub mod Sends
pub mod Exported
mod Tests
use rustflow.Prelude.{
  ℕ, zero, suc, ◌+◌, ◌-◌, ◌%◌, ◌^◌, Bool, true, false, not, ◌&&◌, ◌||◌, List, [], ◌∷◌, ◌++◌, ◌==◌,
  ltb, if◌then◌else◌, length,
}
use rustflow.Wire.Read.{Bytes}
use rustflow.Wire.Write.{BufMut}
use rustflow.FieldParsers.{Chrono}
use rustflow.Ipfix.Types.{
  ipfix_version, ipfix_header_size, set_header_size, DataRecord, Record, Set, Header, IpfixPacket,
}
use rustflow.Ipfix.Encoder.{encode, encode_values}
use rustflow.Sampler.{Sampling}
use rustflow.Meter.{Mode}

abbrev pub max_message_size : ℕ
max_message_size = 1400

abbrev pub max_set_body : ℕ
max_set_body = max_message_size - ipfix_header_size - set_header_size

pub record Message (D : Type 0) : Type 0 where
  pub sets : List (Set D)
  pub encoded : Bytes

-- What the exporter reads of the command line.
pub record ExportArgs : Type 0 where
  pub observation_domain_id : ℕ
  pub template_refresh_rate : ℕ
  pub mode : Mode
  pub sampling : Sampling

pub record Exporter (D : Type 0) : Type 0 where
  pub args : ExportArgs
  pub sequence_number : ℕ
  pub last_template_send : ℕ
  pub sent : List (Message D)

-- The variables of the loop in `send_records`.
pub record Batch (D : Type 0) : Type 0 where
  pub exporter : Exporter D
  pub result : Bool
  pub pending : List (Record D)
  pub template_id : ℕ
  pub size : ℕ

abbrev pub is_empty : {A : Type 0} → List A → Bool
is_empty [] = true
is_empty (x ∷ xs) = false

module _ (buf : BufMut) (chrono : Chrono) (send_to : List (Message chrono.DateTime) → Bytes → Bool)
    (time : chrono.DateTime) where
  -- The packet of `send_sets`.
  unfoldable pub packet :
      List (Set chrono.DateTime) → Exporter chrono.DateTime → IpfixPacket chrono.DateTime
  packet sets e = record {
    header = record {
      version = ipfix_version;
      length = 0;
      export_time = time;
      sequence_number = e.sequence_number;
      observation_domain_id = e.args.observation_domain_id;
    };
    sets = sets;
  }

  unfoldable pub send_sets :
      List (Set chrono.DateTime) → Exporter chrono.DateTime → Exporter chrono.DateTime × Bool
  send_sets sets e =
      let encoded = encode buf chrono (packet sets e) [] in
      (
        record e { sent = e.sent ++ (record { sets = sets; encoded = encoded } ∷ []) },
        send_to e.sent encoded,
      )

  unfoldable pub send_data :
      ℕ → List (Record chrono.DateTime) → Exporter chrono.DateTime → Exporter chrono.DateTime × Bool
  send_data template_id records e =
      let count = length records % 2 ^ 32 in
      let (e', accepted) =
        send_sets (record { id = template_id; length = 0; records = records } ∷ []) e in
      (
        record e' {
          sequence_number =
              if accepted then (e'.sequence_number + count) % 2 ^ 32 else e'.sequence_number;
        },
        accepted,
      )

  -- `result = result.and(self.send_data(template_id, take(&mut pending)))`
  unfoldable pub flush : Batch chrono.DateTime → Batch chrono.DateTime
  flush b =
      let (e, accepted) = send_data b.template_id b.pending b.exporter in
      record b { exporter = e; result = b.result && accepted; pending = []; size = 0 }

  unfoldable pub record_len : DataRecord chrono.DateTime → ℕ
  record_len r = length (encode_values buf chrono r.fields r.values [])

  unfoldable pub must_flush : ℕ → DataRecord chrono.DateTime → Batch chrono.DateTime → Bool
  must_flush id r b =
      not (is_empty b.pending)
      && (ltb max_set_body (b.size + record_len r) || not (id == b.template_id))

  unfoldable pub add_record :
      ℕ → DataRecord chrono.DateTime → Batch chrono.DateTime → Batch chrono.DateTime
  add_record id r b = record b {
    template_id = id;
    size = b.size + record_len r;
    pending = b.pending ++ (Record.data_of r ∷ []);
  }

  unfoldable pub send_loop :
      List (ℕ × DataRecord chrono.DateTime) → Batch chrono.DateTime → Batch chrono.DateTime
  send_loop [] b = b
  send_loop ((id, r) ∷ rs) b =
      let b' = if must_flush id r b then flush b else b in send_loop rs (add_record id r b')

  unfoldable pub flush_rest : Batch chrono.DateTime → Batch chrono.DateTime
  flush_rest b = if is_empty b.pending then b else flush b

  unfoldable pub send_records :
      List (ℕ × DataRecord chrono.DateTime)
      → Exporter chrono.DateTime
      → Exporter chrono.DateTime × Bool
  send_records rs e =
      let b = flush_rest (
        send_loop rs
          (record { exporter = e; result = true; pending = []; template_id = 0; size = 0 })) in
      (b.exporter, b.result)
