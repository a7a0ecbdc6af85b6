-- ===== src/PacketInfo.antt =====
-- crates/rustflow_export/src/flow/parse.rs: what a flow needs of a frame. The crate etherparse,
-- which slices the frame, is a parameter: what it finds of the headers, as far as they are read.
use Prim.Native.Nat.{bit_or}
use rustflow.Prelude.{ℕ, ◌+◌, ◌*◌, ◌^◌, Bool, true, false, Option, none, some}
use rustflow.Wire.Read.{Bytes}
use rustflow.FlowCache.{IpAddr, FlowKey}

pub data Link : Type 0 where
  ethernet ip : Link

pub data Net : Type 0 where
  -- Source, destination, protocol and total length.
  ipv4 : ℕ → ℕ → ℕ → ℕ → Net
  -- Source, destination, payload length, and the protocol past the extension headers.
  ipv6 : ℕ → ℕ → ℕ → ℕ → Net
  arp : Net

pub record TcpHeader : Type 0 where
  pub source_port : ℕ
  pub destination_port : ℕ
  pub ns : Bool
  pub fin : Bool
  pub syn : Bool
  pub rst : Bool
  pub psh : Bool
  pub ack : Bool
  pub urg : Bool
  pub ece : Bool
  pub cwr : Bool

pub data Transport : Type 0 where
  tcp : TcpHeader → Transport
  udp : ℕ → ℕ → Transport
  other : Transport

pub record Sliced : Type 0 where
  pub net : Option Net
  pub transport : Option Transport

-- `LaxSlicedPacket`'s two constructors.
pub record Etherparse : Type 0 where
  pub from_ethernet : Bytes → Option Sliced
  pub from_ip : Bytes → Option Sliced

pub record PacketInfo : Type 0 where
  pub flow_key : FlowKey
  pub packet_size : ℕ
  pub tcp_flags : ℕ

abbrev as_u16 : Bool → ℕ
as_u16 true = 1
as_u16 false = 0

unfoldable pub tcp_flags_of : TcpHeader → ℕ
tcp_flags_of h =
    let flags = bit_or (as_u16 h.ns * 2 ^ 8) (as_u16 h.fin) in
    let flags = bit_or flags (as_u16 h.syn * 2 ^ 1) in
    let flags = bit_or flags (as_u16 h.rst * 2 ^ 2) in
    let flags = bit_or flags (as_u16 h.psh * 2 ^ 3) in
    let flags = bit_or flags (as_u16 h.ack * 2 ^ 4) in
    let flags = bit_or flags (as_u16 h.urg * 2 ^ 5) in
    let flags = bit_or flags (as_u16 h.ece * 2 ^ 6) in bit_or flags (as_u16 h.cwr * 2 ^ 7)

-- Ports and TCP flags.
abbrev ports : Option Transport → ℕ × ℕ × ℕ
ports (some (tcp h)) = (h.source_port, h.destination_port, tcp_flags_of h)
ports (some (udp source_port destination_port)) = (source_port, destination_port, 0)
ports (some other) = (0, 0, 0)
ports none = (0, 0, 0)

abbrev info : IpAddr → IpAddr → ℕ → ℕ → ℕ × ℕ × ℕ → PacketInfo
info source_ip destination_ip protocol total_length (source_port, destination_port, flags) =
    record {
      flow_key = record {
        source_ip = source_ip;
        destination_ip = destination_ip;
        protocol = protocol;
        source_port = source_port;
        destination_port = destination_port;
      };
      packet_size = total_length;
      tcp_flags = flags;
    }

abbrev net_info : Option Net → Option Transport → Option PacketInfo
net_info (some (ipv4 source destination protocol total_length)) t =
    some (info (IpAddr.v4 source) (IpAddr.v4 destination) protocol total_length (ports t))
net_info (some (ipv6 source destination payload_length protocol)) t =
    some (info (IpAddr.v6 source) (IpAddr.v6 destination) protocol (payload_length + 40) (ports t))
net_info (some arp) t = none
net_info none t = none

unfoldable pub packet_info : Sliced → Option PacketInfo
packet_info s = net_info s.net s.transport

abbrev slice : Etherparse → Link → Bytes → Option Sliced
slice lib ethernet bytes = lib.from_ethernet bytes
slice lib ip bytes = lib.from_ip bytes

unfoldable pub parse : Etherparse → Link → Bytes → Option PacketInfo
parse lib link bytes = elim (slice lib link bytes) [ none ↦ none | some s ↦ packet_info s ]
