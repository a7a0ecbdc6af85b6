-- ===== src/SflowV5/FlowTypes.antt =====
-- crates/rustflow_core/src/sflow_v5/parser.rs: what flow records tell of a sampled packet.
use rustflow.Prelude.{ℕ, Option, List}
use rustflow.FlowCache.{IpAddr}
use rustflow.FieldParsers.Utf8.{Text}
use rustflow.Wire.Read.{Bytes}
use rustflow.SflowV5.Enums.{HeaderProtocol, UrlDirection, Direction}

-- A hash set is the list of its elements, each once.
pub data AsPathType : Type 0 where
  as_set as_sequence : List ℕ → AsPathType

pub record SampledHeader : Type 0 where
  pub protocol : HeaderProtocol
  pub frame_length : ℕ
  pub stripped : ℕ
  pub header : Bytes

pub record SampledEthernet : Type 0 where
  pub length : ℕ
  pub src_mac : Bytes
  pub dst_mac : Bytes
  pub type_ : ℕ

pub record SampledIpv4 : Type 0 where
  pub length : ℕ
  pub protocol : ℕ
  pub src_ip : ℕ
  pub dst_ip : ℕ
  pub src_port : ℕ
  pub dst_port : ℕ
  pub tcp_flags : ℕ
  pub tos : ℕ

pub record SampledIpv6 : Type 0 where
  pub length : ℕ
  pub protocol : ℕ
  pub src_ip : Bytes
  pub dst_ip : Bytes
  pub src_port : ℕ
  pub dst_port : ℕ
  pub tcp_flags : ℕ
  pub priority : ℕ

pub record ExtendedSwitch : Type 0 where
  pub src_vlan : ℕ
  pub src_priority : ℕ
  pub dst_vlan : ℕ
  pub dst_priority : ℕ

pub record ExtendedRouter : Type 0 where
  pub nexthop : Option IpAddr
  pub src_mask : ℕ
  pub dst_mask : ℕ

pub record ExtendedGateway : Type 0 where
  pub nexthop : Option IpAddr
  pub as_ : ℕ
  pub src_as : ℕ
  pub src_peer_as : ℕ
  pub dst_as_path : List AsPathType
  pub communities : List ℕ
  pub localpref : ℕ

pub record ExtendedUser : Type 0 where
  pub src_charset : ℕ
  pub src_user : Text
  pub dst_charset : ℕ
  pub dst_user : Text

pub record ExtendedUrl : Type 0 where
  pub direction : UrlDirection
  pub url : Text

pub record ExtendedEgressQueue : Type 0 where
  pub queue : ℕ

pub record ExtendedAcl : Type 0 where
  pub number : ℕ
  pub name : Text
  pub direction : Direction

pub record ExtendedFunction : Type 0 where
  pub symbol : Text
