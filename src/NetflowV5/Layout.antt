-- ===== src/NetflowV5/Layout.antt =====
-- The bytes of a NetFlow v5 packet, which its encoder writes and its parser reads back.
use rustflow.Prelude.{◌^◌, ◌<◌, ◌≡◌, some, ◌++◌}
use rustflow.FieldParsers.{ipv4_addr}
use rustflow.Wire.Read.{Bytes}
use rustflow.Wire.Nom.{Nom}
use rustflow.Wire.Write.{number_bytes}
use rustflow.Wire.RoundTrip.{reads}
use rustflow.NetflowV5.{FlowRecord, parse_flow_record}

-- A record whose fields fit their types.
pub record FitsRecord (r : FlowRecord) : Type 0 where
  pub srcaddr : r.srcaddr < 2 ^ 32
  pub dstaddr : r.dstaddr < 2 ^ 32
  pub nexthop : r.nexthop < 2 ^ 32
  pub input : r.input < 2 ^ 16
  pub output : r.output < 2 ^ 16
  pub d_pkts : r.d_pkts < 2 ^ 32
  pub d_ockts : r.d_ockts < 2 ^ 32
  pub first : r.first < 2 ^ 32
  pub last : r.last < 2 ^ 32
  pub srcport : r.srcport < 2 ^ 16
  pub dstport : r.dstport < 2 ^ 16
  pub tcp_flags : r.tcp_flags < 2 ^ 8
  pub prot : r.prot < 2 ^ 8
  pub tos : r.tos < 2 ^ 8
  pub src_as : r.src_as < 2 ^ 16
  pub dst_as : r.dst_as < 2 ^ 16
  pub src_mask : r.src_mask < 2 ^ 8
  pub dst_mask : r.dst_mask < 2 ^ 8

-- The bytes of a record, with what follows.
unfoldable pub record_bytes : FlowRecord → Bytes → Bytes
record_bytes r rest =
    number_bytes 4 r.srcaddr
    ++ (number_bytes 4 r.dstaddr
        ++ (number_bytes 4 r.nexthop
            ++ (number_bytes 2 r.input
                ++ (number_bytes 2 r.output
                    ++ (number_bytes 4 r.d_pkts
                        ++ (number_bytes 4 r.d_ockts
                            ++ (number_bytes 4 r.first
                                ++ (number_bytes 4 r.last
                                    ++ (number_bytes 2 r.srcport
                                        ++ (number_bytes 2 r.dstport
                                            ++ (number_bytes 1 0
                                                ++ (number_bytes 1 r.tcp_flags
                                                    ++ (number_bytes 1 r.prot
                                                        ++ (number_bytes 1 r.tos
                                                            ++ (number_bytes 2 r.src_as
                                                            ++ (number_bytes 2 r.dst_as
                                                            ++ (number_bytes 1 r.src_mask
                                                            ++ (number_bytes 1 r.dst_mask
                                                            ++ (number_bytes 2 0
                                                            ++ rest)))))))))))))))))))

pub parse_flow_record-bytes :
    (nom : Nom) (r : FlowRecord) (rest : Bytes)
    → FitsRecord r
    → parse_flow_record nom (record_bytes r rest) ≡ some (rest, r)
unfolding parse_flow_record record_bytes ipv4_addr
parse_flow_record-bytes nom r rest h = simp (
  reads, h.srcaddr, h.dstaddr, h.nexthop, h.input, h.output, h.d_pkts, h.d_ockts, h.first, h.last,
  h.srcport, h.dstport, h.tcp_flags, h.prot, h.tos, h.src_as, h.dst_as, h.src_mask, h.dst_mask,
)
