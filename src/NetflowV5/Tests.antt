-- ===== src/NetflowV5/Tests.antt =====
-- Runs of the NetFlow v5 parser and encoder, and inputs at which the theorems apply.
use rustflow.Prelude.{◌≡◌, refl, some, [], ◌∷◌, ◌++◌, arith}
use rustflow.Wire.Reference.{nom, buf}
use rustflow.NetflowV5.{Header, FlowRecord, NetFlowV5Packet, parse_netflow_v5_packet, encode}
use rustflow.NetflowV5.Layout.{FitsRecord}
use rustflow.NetflowV5.RoundTrip.{FitsHeader, parse-encode}

abbrev header : Header
header = record {
  version = 5;
  count = 7;
  sys_uptime = 3600000;
  unix_secs = 1700000000;
  unix_nsecs = 0;
  flow_sequence = 42;
  engine_type = 0;
  engine_id = 1;
  sampling_mode = 1;
  sampling_interval = 100;
}

abbrev flow_record : FlowRecord
flow_record = record {
  srcaddr = 3221225985;
  dstaddr = 3325256705;
  nexthop = 0;
  input = 1;
  output = 2;
  d_pkts = 10;
  d_ockts = 1500;
  first = 3540000;
  last = 3599000;
  srcport = 1234;
  dstport = 80;
  tcp_flags = 24;
  prot = 6;
  tos = 0;
  src_as = 0;
  dst_as = 0;
  src_mask = 0;
  dst_mask = 0;
}

abbrev packet : NetFlowV5Packet
packet = record { header = header; flow_records = flow_record ∷ flow_record ∷ [] }

header_fits : FitsHeader header
header_fits = record {
  version = refl;
  sys_uptime = omega arith;
  unix_secs = omega arith;
  unix_nsecs = omega arith;
  flow_sequence = omega arith;
  engine_type = omega arith;
  engine_id = omega arith;
  sampling_mode = omega arith;
  sampling_interval = omega arith;
}

record_fits : FitsRecord flow_record
record_fits = record {
  srcaddr = omega arith;
  dstaddr = omega arith;
  nexthop = omega arith;
  input = omega arith;
  output = omega arith;
  d_pkts = omega arith;
  d_ockts = omega arith;
  first = omega arith;
  last = omega arith;
  srcport = omega arith;
  dstport = omega arith;
  tcp_flags = omega arith;
  prot = omega arith;
  tos = omega arith;
  src_as = omega arith;
  dst_as = omega arith;
  src_mask = omega arith;
  dst_mask = omega arith;
}

parse-encode_example :
    parse_netflow_v5_packet nom (encode buf packet [] ++ 9 ∷ [])
    ≡ some (9 ∷ [], record (packet) { header = record (header) { count = 2 } })
parse-encode_example =
    parse-encode nom buf packet (9 ∷ []) header_fits (record_fits, (record_fits, _)) (omega arith)
