-- ===== src/NetflowV5.antt =====
-- crates/rustflow_core/src/netflow_v5: parser.rs and encoder.rs. An IPv4 address is its number,
-- and an encoder returns the buffer with what it added. The order of a record's bytes is that of
-- the calls.
pub mod Layout
pub mod RoundTrip
mod Tests
use Prim.Native.Nat.{bit_or, bit_and}
use rustflow.Prelude.{
  ℕ, zero, suc, ◌+◌, ◌*◌, ◌/◌, ◌%◌, ◌^◌, Option, none, some, List, [], ◌∷◌, ◌==◌, if◌then◌else◌,
  length,
}
use rustflow.FieldParsers.{verify_version, ipv4_addr}
use rustflow.Wire.Read.{Bytes, Parser, ◌>>=◌}
use rustflow.Wire.Nom.{Nom}
use rustflow.Wire.Write.{BufMut}

abbrev pub netflow_v5_version : ℕ
netflow_v5_version = 5

pub record Header : Type 0 where
  pub version : ℕ
  pub count : ℕ
  pub sys_uptime : ℕ
  pub unix_secs : ℕ
  pub unix_nsecs : ℕ
  pub flow_sequence : ℕ
  pub engine_type : ℕ
  pub engine_id : ℕ
  pub sampling_mode : ℕ
  pub sampling_interval : ℕ

pub record FlowRecord : Type 0 where
  pub srcaddr : ℕ
  pub dstaddr : ℕ
  pub nexthop : ℕ
  pub input : ℕ
  pub output : ℕ
  pub d_pkts : ℕ
  pub d_ockts : ℕ
  pub first : ℕ
  pub last : ℕ
  pub srcport : ℕ
  pub dstport : ℕ
  pub tcp_flags : ℕ
  pub prot : ℕ
  pub tos : ℕ
  pub src_as : ℕ
  pub dst_as : ℕ
  pub src_mask : ℕ
  pub dst_mask : ℕ

pub record NetFlowV5Packet : Type 0 where
  pub header : Header
  pub flow_records : List FlowRecord

module _ (nom : Nom) where
  open nom use {be_u8, be_u16, be_u32, take, many}

  unfoldable pub parse_header : Parser Header
  parse_header input = do
    (input, version) ← verify_version nom input netflow_v5_version
    (input, count) ← be_u16 input
    (input, sys_uptime) ← be_u32 input
    (input, unix_secs) ← be_u32 input
    (input, unix_nsecs) ← be_u32 input
    (input, flow_sequence) ← be_u32 input
    (input, engine_type) ← be_u8 input
    (input, engine_id) ← be_u8 input
    (input, sampling) ← be_u16 input
    let mode = sampling / 2 ^ 14
    let interval = bit_and sampling 0x3fff
    some (
      input,
      record {
        version = version;
        count = count;
        sys_uptime = sys_uptime;
        unix_secs = unix_secs;
        unix_nsecs = unix_nsecs;
        flow_sequence = flow_sequence;
        engine_type = engine_type;
        engine_id = engine_id;
        sampling_mode = mode;
        sampling_interval = interval;
      },
    )

  unfoldable pub parse_flow_record : Parser FlowRecord
  parse_flow_record input = do
    (input, srcaddr) ← ipv4_addr nom input
    (input, dstaddr) ← ipv4_addr nom input
    (input, nexthop) ← ipv4_addr nom input
    (input, input_) ← be_u16 input
    (input, output) ← be_u16 input
    (input, d_pkts) ← be_u32 input
    (input, d_ockts) ← be_u32 input
    (input, first) ← be_u32 input
    (input, last) ← be_u32 input
    (input, srcport) ← be_u16 input
    (input, dstport) ← be_u16 input
    (input, pad1) ← take 1 input
    (input, tcp_flags) ← be_u8 input
    (input, prot) ← be_u8 input
    (input, tos) ← be_u8 input
    (input, src_as) ← be_u16 input
    (input, dst_as) ← be_u16 input
    (input, src_mask) ← be_u8 input
    (input, dst_mask) ← be_u8 input
    (input, pad2) ← take 2 input
    some (
      input,
      record {
        srcaddr = srcaddr;
        dstaddr = dstaddr;
        nexthop = nexthop;
        input = input_;
        output = output;
        d_pkts = d_pkts;
        d_ockts = d_ockts;
        first = first;
        last = last;
        srcport = srcport;
        dstport = dstport;
        tcp_flags = tcp_flags;
        prot = prot;
        tos = tos;
        src_as = src_as;
        dst_as = dst_as;
        src_mask = src_mask;
        dst_mask = dst_mask;
      },
    )

  unfoldable pub parse_netflow_v5_packet : Parser NetFlowV5Packet
  parse_netflow_v5_packet input = do
    (input, header) ← parse_header input
    (input, flow_records) ← many FlowRecord header.count parse_flow_record input
    some (input, record { header = header; flow_records = flow_records })

-- `put_slice(&addr.octets())` writes the four bytes of an address, the highest first.
unfoldable pub octets : ℕ → Bytes
octets a = (a / 2 ^ 24 % 256) ∷ (a / 2 ^ 16 % 256) ∷ (a / 2 ^ 8 % 256) ∷ (a % 256) ∷ []

module _ (buf : BufMut) where
  open buf use {put_u8, put_u16, put_u32, put_slice}

  unfoldable pub encode_header : Header → Bytes → Bytes
  encode_header h b =
      let b = put_u16 h.version b in
      let b = put_u16 h.count b in
      let b = put_u32 h.sys_uptime b in
      let b = put_u32 h.unix_secs b in
      let b = put_u32 h.unix_nsecs b in
      let b = put_u32 h.flow_sequence b in
      let b = put_u8 h.engine_type b in
      let b = put_u8 h.engine_id b in
      put_u16 (bit_or (h.sampling_mode * 2 ^ 14 % 2 ^ 16) (bit_and h.sampling_interval 0x3fff)) b

  unfoldable pub encode_flow_record : FlowRecord → Bytes → Bytes
  encode_flow_record r b =
      let b = put_slice (octets r.srcaddr) b in
      let b = put_slice (octets r.dstaddr) b in
      let b = put_slice (octets r.nexthop) b in
      let b = put_u16 r.input b in
      let b = put_u16 r.output b in
      let b = put_u32 r.d_pkts b in
      let b = put_u32 r.d_ockts b in
      let b = put_u32 r.first b in
      let b = put_u32 r.last b in
      let b = put_u16 r.srcport b in
      let b = put_u16 r.dstport b in
      let b = put_u8 0 b in
      let b = put_u8 r.tcp_flags b in
      let b = put_u8 r.prot b in
      let b = put_u8 r.tos b in
      let b = put_u16 r.src_as b in
      let b = put_u16 r.dst_as b in
      let b = put_u8 r.src_mask b in let b = put_u8 r.dst_mask b in put_u16 0 b

  unfoldable pub encode_records : List FlowRecord → Bytes → Bytes
  encode_records [] b = b
  encode_records (r ∷ rs) b = encode_records rs (encode_flow_record r b)

  -- The header is written with the number of the records as its count, as a u16.
  unfoldable pub encode : NetFlowV5Packet → Bytes → Bytes
  encode p b =
      encode_records p.flow_records
        (encode_header (record (p.header) { count = length p.flow_records % 2 ^ 16 }) b)
