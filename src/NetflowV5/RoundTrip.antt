-- ===== src/NetflowV5/RoundTrip.antt =====
-- A NetFlow v5 packet that is written is read back: encoder.rs against parser.rs.
use Prim.Native.Nat.{bit_or, bit_and}
use rustflow.Prelude.{
  ℕ, ◌+◌, ◌*◌, ◌/◌, ◌%◌, ◌^◌, ◌<◌, ◌≡◌, refl, ap, ◌∙◌, sym, some, List, [], ◌∷◌, ◌++◌, ◌==◌, length,
  arith, All, leb, lt→leb_false, length-append, false, true,
}
use mathlib.Core.List.{append_assoc}
use native.Mathlib.Nat.{mod-eq_of_lt}
use rustflow.Prelude.Bits.{bit_or_disjoint, bit_and_blocks}
use rustflow.FieldParsers.{verify_version}
use rustflow.Wire.Read.{Bytes}
use rustflow.Wire.Nom.{Nom}
use rustflow.Wire.Write.{BufMut, number_bytes}
use rustflow.Wire.RoundTrip.{reads, length-number_bytes}
use rustflow.NetflowV5.{
  Header, FlowRecord, NetFlowV5Packet, netflow_v5_version, parse_header, parse_flow_record,
  parse_netflow_v5_packet, encode_header, octets, encode_flow_record, encode_records, encode,
}
use rustflow.NetflowV5.Layout.{FitsRecord, record_bytes, parse_flow_record-bytes}

-- A header whose fields fit their types, or their bits of the sampling field.
pub record FitsHeader (h : Header) : Type 0 where
  pub version : h.version ≡ netflow_v5_version
  pub sys_uptime : h.sys_uptime < 2 ^ 32
  pub unix_secs : h.unix_secs < 2 ^ 32
  pub unix_nsecs : h.unix_nsecs < 2 ^ 32
  pub flow_sequence : h.flow_sequence < 2 ^ 32
  pub engine_type : h.engine_type < 2 ^ 8
  pub engine_id : h.engine_id < 2 ^ 8
  pub sampling_mode : h.sampling_mode < 2 ^ 2
  pub sampling_interval : h.sampling_interval < 2 ^ 14

unfoldable header_bytes : Header → ℕ → Bytes → Bytes
header_bytes h n rest =
    number_bytes 2 h.version
    ++ (number_bytes 2 n
        ++ (number_bytes 4 h.sys_uptime
            ++ (number_bytes 4 h.unix_secs
                ++ (number_bytes 4 h.unix_nsecs
                    ++ (number_bytes 4 h.flow_sequence
                        ++ (number_bytes 1 h.engine_type
                            ++ (number_bytes 1 h.engine_id
                                ++ (number_bytes 2 (h.sampling_mode * 2 ^ 14 + h.sampling_interval)
                                    ++ rest))))))))

interval_read : (m i : ℕ) → i < 2 ^ 14 → bit_and (m * 2 ^ 14 + i) 0x3fff ≡ i
interval_read m i hi = bit_and_blocks 14 m i hi

zero_add_read : (i : ℕ) → i < 2 ^ 14 → bit_and i 0x3fff ≡ i
zero_add_read i hi =
    let z : 0 + i ≡ i = omega arith in
    ap (λ (t : ℕ). bit_and t 0x3fff) (sym z) ∙ interval_read 0 i hi

-- The bits of the sampling field.
sampling_written :
    (m i : ℕ)
    → m < 2 ^ 2
    → i < 2 ^ 14
    → bit_or (m * 2 ^ 14 % 2 ^ 16) (bit_and i 0x3fff) ≡ m * 2 ^ 14 + i
sampling_written m i hm hi =
    let fits : m * 2 ^ 14 % 2 ^ 16 ≡ m * 2 ^ 14 = mod-eq_of_lt (omega arith) in
    let masked : bit_and i 0x3fff ≡ i = zero_add_read i hi in
    rw (fits, masked) (bit_or_disjoint 14 m i hi)

mode_read : (m i : ℕ) → i < 2 ^ 14 → (m * 2 ^ 14 + i) / 2 ^ 14 ≡ m
mode_read m i hi = omega arith

octets_lem : (a : ℕ) → octets a ≡ number_bytes 4 a
unfolding octets number_bytes
octets_lem a = let one : a / 1 ≡ a = omega arith in rw one refl

parse_header-bytes :
    (nom : Nom) (h : Header) (n : ℕ) (rest : Bytes)
    → FitsHeader h
    → n < 2 ^ 16
    → parse_header nom (header_bytes h n rest) ≡ some (rest, record (h) { count = n })
unfolding parse_header header_bytes verify_version
parse_header-bytes nom h n rest f small =
    let v : h.version < 2 ^ 16 = omega (arith, f.version) in
    let s : h.sampling_mode * 2 ^ 14 + h.sampling_interval < 2 ^ 16 =
      omega (arith, f.sampling_mode, f.sampling_interval) in
    let is_five : (h.version == netflow_v5_version) ≡ true = rw f.version refl in
    simp (
      reads,
      v,
      small,
      f.sys_uptime,
      f.unix_secs,
      f.unix_nsecs,
      f.flow_sequence,
      f.engine_type,
      f.engine_id,
      s,
      is_five,
      mode_read h.sampling_mode h.sampling_interval f.sampling_interval,
      interval_read h.sampling_mode h.sampling_interval f.sampling_interval,
    )

module _ (buf : BufMut) where
  encode_header-bytes :
      (h : Header) (b rest : Bytes)
      → FitsHeader h
      → encode_header buf h b ++ rest ≡ b ++ header_bytes h h.count rest
  unfolding encode_header header_bytes
  encode_header-bytes h b rest f = simp (
    append_assoc,
    buf.put_u8_lem,
    buf.put_u16_lem,
    buf.put_u32_lem,
    sampling_written h.sampling_mode h.sampling_interval f.sampling_mode f.sampling_interval,
  )

  encode_flow_record-bytes :
      (r : FlowRecord) (b rest : Bytes)
      → encode_flow_record buf r b ++ rest ≡ b ++ record_bytes r rest
  unfolding encode_flow_record record_bytes
  encode_flow_record-bytes r b rest = simp (
    octets_lem, append_assoc, buf.put_u8_lem, buf.put_u16_lem, buf.put_u32_lem, buf.put_slice_lem,
  )

length-record_bytes :
    (r : FlowRecord) (rest : Bytes) → length (record_bytes r rest) ≡ 48 + length rest
unfolding record_bytes
length-record_bytes r rest = simp (length-append, length-number_bytes) (omega arith)

-- The bytes of the records, with what follows them.
records_bytes : List FlowRecord → Bytes → Bytes
records_bytes [] rest = rest
records_bytes (r ∷ rs) rest = record_bytes r (records_bytes rs rest)

encode_records-bytes :
    (buf : BufMut) (rs : List FlowRecord) (b rest : Bytes)
    → encode_records buf rs b ++ rest ≡ b ++ records_bytes rs rest
unfolding encode_records records_bytes
encode_records-bytes buf [] b rest = refl
encode_records-bytes buf (r ∷ rs) b rest =
    encode_records-bytes buf rs (encode_flow_record buf r b) rest
    ∙ encode_flow_record-bytes buf r b (records_bytes rs rest)

many_records :
    (nom : Nom) (rs : List FlowRecord) (rest : Bytes)
    → All FitsRecord rs
    → nom.many FlowRecord (length rs) (parse_flow_record nom) (records_bytes rs rest)
      ≡ some (rest, rs)
unfolding records_bytes
many_records nom [] rest h = nom.many-zero FlowRecord (parse_flow_record nom) rest
many_records nom (r ∷ rs) rest (h, hs) =
    let later = records_bytes rs rest in
    let shorter : leb (length (record_bytes r later)) (length later) ≡ false =
      lt→leb_false _ _ (omega (arith, length-record_bytes r later)) in
    rw
      (
        nom.many-suc FlowRecord (parse_flow_record nom) (length rs) (record_bytes r later),
        parse_flow_record-bytes nom r later h,
        shorter,
        many_records nom rs rest hs,
      )
      refl

-- What `encode` writes of a packet of version 5, whose fields fit their types and whose records are
-- fewer than 2 ^ 16, `parse` reads back from any bytes that begin with it, leaving what follows: the
-- same records, and the same header with the number of the records as its count.
pub parse-encode :
    (nom : Nom) (buf : BufMut) (p : NetFlowV5Packet) (rest : Bytes)
    → FitsHeader p.header
    → All FitsRecord p.flow_records
    → length p.flow_records < 2 ^ 16
    → parse_netflow_v5_packet nom (encode buf p [] ++ rest)
      ≡ some (rest, record (p) { header = record (p.header) { count = length p.flow_records } })
unfolding encode parse_netflow_v5_packet
parse-encode nom buf p rest f fs small =
    let n = length p.flow_records in
    let header : Header = record (p.header) { count = n } in
    let counted : n % 2 ^ 16 ≡ n = mod-eq_of_lt small in
    let fits : FitsHeader header = record {
      version = f.version;
      sys_uptime = f.sys_uptime;
      unix_secs = f.unix_secs;
      unix_nsecs = f.unix_nsecs;
      flow_sequence = f.flow_sequence;
      engine_type = f.engine_type;
      engine_id = f.engine_id;
      sampling_mode = f.sampling_mode;
      sampling_interval = f.sampling_interval;
    } in
    let bytes : encode_records buf p.flow_records (encode_header buf header []) ++ rest
        ≡ header_bytes header n (records_bytes p.flow_records rest) =
      encode_records-bytes buf p.flow_records (encode_header buf header []) rest
      ∙ encode_header-bytes buf header [] (records_bytes p.flow_records rest) fits in
    rw counted (
      rw
        (
          bytes,
          parse_header-bytes nom header n (records_bytes p.flow_records rest) fits small,
          many_records nom p.flow_records rest fs,
        )
        refl)
