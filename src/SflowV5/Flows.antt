-- ===== src/SflowV5/Flows.antt =====
-- crates/rustflow_core/src/sflow_v5/parser.rs: how flow records are read, and the parts of XDR that they
-- share.
use rustflow.Prelude.{
  ℕ, ◌-◌, ◌%◌, Option, none, some, List, [], ◌∷◌, ◌==◌, if◌then◌else◌, Bool, false, ◌||◌,
}
use rustflow.FlowCache.{IpAddr}
use rustflow.FieldParsers.{ipv4_addr, ipv6_addr, macaddr6}
use rustflow.FieldParsers.Utf8.{Text, from_utf8_lossy}
use rustflow.Wire.Read.{Bytes, Parser, ◌>>=◌, map_value, map_opt}
use rustflow.Wire.Nom.{Nom}
use rustflow.SflowV5.Enums.{
  header_protocol, AsPathSegmentType, segment_type_of, url_direction, direction_of,
}
use rustflow.SflowV5.FlowTypes.{
  AsPathType, SampledHeader, SampledEthernet, SampledIpv4, SampledIpv6, ExtendedSwitch,
  ExtendedRouter, ExtendedGateway, ExtendedUser, ExtendedUrl, ExtendedEgressQueue, ExtendedAcl,
  ExtendedFunction,
}

abbrev pub unknown_address : ℕ
unknown_address = 0

abbrev pub ipv4_address : ℕ
ipv4_address = 1

abbrev pub ipv6_address : ℕ
ipv6_address = 2

-- A list into a hash set: what is there already is not added again.
abbrev pub contains : ℕ → List ℕ → Bool
contains a [] = false
contains a (b ∷ l) = a == b || contains a l

unfoldable pub collect : List ℕ → List ℕ
collect [] = []
collect (a ∷ l) = let set = collect l in if contains a set then set else a ∷ set

abbrev pub segment_of : AsPathSegmentType → List ℕ → AsPathType
segment_of AsPathSegmentType.as_set ases = AsPathType.as_set (collect ases)
segment_of AsPathSegmentType.as_sequence ases = AsPathType.as_sequence ases

module _ (nom : Nom) where
  open nom use {be_u32, be_u128, take, count}

  unfoldable pub parse_address : Parser (Option IpAddr)
  parse_address input = do
    (input, address_type) ← be_u32 input
    if address_type == unknown_address
        then some (input, none)
        else if address_type == ipv4_address
        then map_value (λ a. some (IpAddr.v4 a)) (be_u32 input)
        else if address_type == ipv6_address
        then map_value (λ a. some (IpAddr.v6 a)) (be_u128 input)
        else none

  unfoldable pub parse_padded_mac : Parser Bytes
  parse_padded_mac input = do
    (input, mac) ← macaddr6 nom input
    (input, pad) ← take 2 input
    some (input, mac)

  unfoldable pub parse_xdr_string : Parser Text
  parse_xdr_string input = do
    (input, length) ← be_u32 input
    (input, string) ← map_value from_utf8_lossy (take length input)
    let padding = (4 - length % 4) % 4
    (input, pad) ← take padding input
    some (input, string)

  unfoldable pub parse_as_path_segment : Parser AsPathType
  parse_as_path_segment input = do
    (input, segment_type) ← map_opt segment_type_of (be_u32 input)
    (input, length) ← be_u32 input
    (input, ases) ← count ℕ be_u32 length input
    some (input, segment_of segment_type ases)

  unfoldable pub parse_sampled_header : Parser SampledHeader
  parse_sampled_header input = do
    (input, protocol) ← map_opt header_protocol (be_u32 input)
    (input, frame_length) ← be_u32 input
    (input, stripped) ← be_u32 input
    (input, original_length) ← be_u32 input
    (input, header) ← take original_length input
    some (
      input,
      record {
        protocol = protocol;
        frame_length = frame_length;
        stripped = stripped;
        header = header;
      },
    )

  unfoldable pub parse_sampled_ethernet : Parser SampledEthernet
  parse_sampled_ethernet input = do
    (input, length) ← be_u32 input
    (input, src_mac) ← parse_padded_mac input
    (input, dst_mac) ← parse_padded_mac input
    (input, type_) ← be_u32 input
    some (input, record { length = length; src_mac = src_mac; dst_mac = dst_mac; type_ = type_ })

  unfoldable pub parse_sampled_ipv4 : Parser SampledIpv4
  parse_sampled_ipv4 input = do
    (input, length) ← be_u32 input
    (input, protocol) ← be_u32 input
    (input, src_ip) ← ipv4_addr nom input
    (input, dst_ip) ← ipv4_addr nom input
    (input, src_port) ← be_u32 input
    (input, dst_port) ← be_u32 input
    (input, tcp_flags) ← be_u32 input
    (input, tos) ← be_u32 input
    some (
      input,
      record {
        length = length;
        protocol = protocol;
        src_ip = src_ip;
        dst_ip = dst_ip;
        src_port = src_port;
        dst_port = dst_port;
        tcp_flags = tcp_flags;
        tos = tos;
      },
    )

  unfoldable pub parse_sampled_ipv6 : Parser SampledIpv6
  parse_sampled_ipv6 input = do
    (input, length) ← be_u32 input
    (input, protocol) ← be_u32 input
    (input, src_ip) ← ipv6_addr nom input
    (input, dst_ip) ← ipv6_addr nom input
    (input, src_port) ← be_u32 input
    (input, dst_port) ← be_u32 input
    (input, tcp_flags) ← be_u32 input
    (input, priority) ← be_u32 input
    some (
      input,
      record {
        length = length;
        protocol = protocol;
        src_ip = src_ip;
        dst_ip = dst_ip;
        src_port = src_port;
        dst_port = dst_port;
        tcp_flags = tcp_flags;
        priority = priority;
      },
    )

  unfoldable pub parse_extended_switch : Parser ExtendedSwitch
  parse_extended_switch input = do
    (input, src_vlan) ← be_u32 input
    (input, src_priority) ← be_u32 input
    (input, dst_vlan) ← be_u32 input
    (input, dst_priority) ← be_u32 input
    some (
      input,
      record {
        src_vlan = src_vlan;
        src_priority = src_priority;
        dst_vlan = dst_vlan;
        dst_priority = dst_priority;
      },
    )

  unfoldable pub parse_extended_router : Parser ExtendedRouter
  parse_extended_router input = do
    (input, nexthop) ← parse_address input
    (input, src_mask) ← be_u32 input
    (input, dst_mask) ← be_u32 input
    some (input, record { nexthop = nexthop; src_mask = src_mask; dst_mask = dst_mask })

  unfoldable pub parse_extended_gateway : Parser ExtendedGateway
  parse_extended_gateway input = do
    (input, nexthop) ← parse_address input
    (input, as_) ← be_u32 input
    (input, src_as) ← be_u32 input
    (input, src_peer_as) ← be_u32 input
    (input, dst_as_path_length) ← be_u32 input
    (input, dst_as_path) ← count AsPathType parse_as_path_segment dst_as_path_length input
    (input, communities_length) ← be_u32 input
    (input, communities) ← count ℕ be_u32 communities_length input
    (input, localpref) ← be_u32 input
    some (
      input,
      record {
        nexthop = nexthop;
        as_ = as_;
        src_as = src_as;
        src_peer_as = src_peer_as;
        dst_as_path = dst_as_path;
        communities = communities;
        localpref = localpref;
      },
    )

  unfoldable pub parse_extended_user : Parser ExtendedUser
  parse_extended_user input = do
    (input, src_charset) ← be_u32 input
    (input, src_user) ← parse_xdr_string input
    (input, dst_charset) ← be_u32 input
    (input, dst_user) ← parse_xdr_string input
    some (
      input,
      record {
        src_charset = src_charset;
        src_user = src_user;
        dst_charset = dst_charset;
        dst_user = dst_user;
      },
    )

  unfoldable pub parse_extended_url : Parser ExtendedUrl
  parse_extended_url input = do
    (input, direction) ← map_opt url_direction (be_u32 input)
    (input, url) ← parse_xdr_string input
    some (input, record { direction = direction; url = url })

  unfoldable pub parse_extended_egress_queue : Parser ExtendedEgressQueue
  parse_extended_egress_queue input = do
    (input, queue) ← be_u32 input
    some (input, record { queue = queue })

  unfoldable pub parse_extended_acl : Parser ExtendedAcl
  parse_extended_acl input = do
    (input, number) ← be_u32 input
    (input, name) ← parse_xdr_string input
    (input, direction) ← map_opt direction_of (be_u32 input)
    some (input, record { number = number; name = name; direction = direction })

  unfoldable pub parse_extended_function : Parser ExtendedFunction
  parse_extended_function input = do
    (input, symbol) ← parse_xdr_string input
    some (input, record { symbol = symbol })
