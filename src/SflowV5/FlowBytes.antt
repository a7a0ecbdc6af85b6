-- ===== src/SflowV5/FlowBytes.antt =====
-- The layout of the flow records of an sFlow datagram (sFlow version 5), which the parser reads back.
-- It leaves two parts unread: what fills a sampled header up to whole words, and the host of a URL.
use rustflow.Prelude.{◌≡◌, refl, some, ◌++◌, length, All, arith}
use rustflow.FieldParsers.{ipv4_addr, ipv6_addr}
use rustflow.FieldParsers.Utf8.{Text}
use rustflow.Wire.Read.{Bytes}
use rustflow.Wire.Nom.{Nom}
use rustflow.Wire.Layout.{word, IsU32, each, count-each, take-slice}
use rustflow.Wire.RoundTrip.{reads}
use rustflow.SflowV5.Enums.{
  HeaderProtocol, header_protocol, protocol_number, UrlDirection, url_direction,
  url_direction_number, Direction, direction_of, direction_number,
}
use rustflow.SflowV5.FlowTypes.{
  SampledHeader, SampledEthernet, SampledIpv4, SampledIpv6, ExtendedSwitch, ExtendedRouter,
  ExtendedGateway, ExtendedUser, ExtendedUrl, ExtendedEgressQueue, ExtendedAcl, ExtendedFunction,
}
use rustflow.SflowV5.Flows.{
  parse_as_path_segment, parse_sampled_header, parse_sampled_ethernet, parse_sampled_ipv4,
  parse_sampled_ipv6, parse_extended_switch, parse_extended_router, parse_extended_gateway,
  parse_extended_user, parse_extended_url, parse_extended_egress_queue, parse_extended_acl,
  parse_extended_function,
}
use rustflow.SflowV5.PartBytes.{
  address_bytes, FitsAddress, parse_address-bytes, mac_bytes, parse_padded_mac-bytes, fill_bytes,
  string_bytes, FitsText, parse_xdr_string-bytes, segment_bytes, FitsSegment,
  parse_as_path_segment-bytes, count-words,
}

header_protocol-number : (p : HeaderProtocol) → header_protocol (protocol_number p) ≡ some p
unfolding header_protocol protocol_number
header_protocol-number HeaderProtocol.pos = refl
header_protocol-number _ = refl

protocol_number-IsU32 : (p : HeaderProtocol) → IsU32 (protocol_number p)
unfolding protocol_number
protocol_number-IsU32 HeaderProtocol.pos = omega arith
protocol_number-IsU32 _ = omega arith

url_direction-number : (d : UrlDirection) → url_direction (url_direction_number d) ≡ some d
unfolding url_direction url_direction_number
url_direction-number UrlDirection.src = refl
url_direction-number UrlDirection.dst = refl

url_direction_number-IsU32 : (d : UrlDirection) → IsU32 (url_direction_number d)
unfolding url_direction_number
url_direction_number-IsU32 UrlDirection.src = omega arith
url_direction_number-IsU32 UrlDirection.dst = omega arith

direction_of-number : (d : Direction) → direction_of (direction_number d) ≡ some d
unfolding direction_of direction_number
direction_of-number Direction.egress = refl
direction_of-number _ = refl

direction_number-IsU32 : (d : Direction) → IsU32 (direction_number d)
unfolding direction_number
direction_number-IsU32 Direction.egress = omega arith
direction_number-IsU32 _ = omega arith

ruleset numbers = (
  header_protocol-number, protocol_number-IsU32, url_direction-number, url_direction_number-IsU32,
  direction_of-number, direction_number-IsU32,
)

-- The header of a packet is filled up to whole words.
abbrev pub sampled_header_bytes : SampledHeader → Bytes → Bytes
sampled_header_bytes v rest = word (protocol_number v.protocol) (
    word v.frame_length
      (word v.stripped (word (length v.header) (v.header ++ fill_bytes v.header rest))))

pub record FitsSampledHeader (v : SampledHeader) : Type 0 where
  pub frame_length : IsU32 v.frame_length
  pub stripped : IsU32 v.stripped
  pub header : IsU32 (length v.header)

pub parse_sampled_header-bytes :
    (nom : Nom) (v : SampledHeader) (rest : Bytes)
    → FitsSampledHeader v
    → parse_sampled_header nom (sampled_header_bytes v rest) ≡ some (fill_bytes v.header rest, v)
unfolding parse_sampled_header
parse_sampled_header-bytes nom v rest h = simp (
  reads,
  numbers,
  h.frame_length,
  h.stripped,
  h.header,
  take-slice nom (length v.header) v.header _ refl,
)

abbrev pub sampled_ethernet_bytes : SampledEthernet → Bytes → Bytes
sampled_ethernet_bytes v rest =
    word v.length (mac_bytes v.src_mac (mac_bytes v.dst_mac (word v.type_ rest)))

pub record FitsSampledEthernet (v : SampledEthernet) : Type 0 where
  pub size : IsU32 v.length
  pub src_mac : length v.src_mac ≡ 6
  pub dst_mac : length v.dst_mac ≡ 6
  pub type_ : IsU32 v.type_

pub parse_sampled_ethernet-bytes :
    (nom : Nom) (v : SampledEthernet) (rest : Bytes)
    → FitsSampledEthernet v
    → parse_sampled_ethernet nom (sampled_ethernet_bytes v rest) ≡ some (rest, v)
unfolding parse_sampled_ethernet
parse_sampled_ethernet-bytes nom v rest h = simp (
  reads,
  h.size,
  parse_padded_mac-bytes nom v.src_mac _ h.src_mac,
  parse_padded_mac-bytes nom v.dst_mac _ h.dst_mac,
  h.type_,
)

abbrev pub sampled_ipv4_bytes : SampledIpv4 → Bytes → Bytes
sampled_ipv4_bytes v rest = word v.length (
    word v.protocol (
      word v.src_ip
        (word v.dst_ip (word v.src_port (word v.dst_port (word v.tcp_flags (word v.tos rest)))))))

pub record FitsSampledIpv4 (v : SampledIpv4) : Type 0 where
  pub size : IsU32 v.length
  pub protocol : IsU32 v.protocol
  pub src_ip : IsU32 v.src_ip
  pub dst_ip : IsU32 v.dst_ip
  pub src_port : IsU32 v.src_port
  pub dst_port : IsU32 v.dst_port
  pub tcp_flags : IsU32 v.tcp_flags
  pub tos : IsU32 v.tos

pub parse_sampled_ipv4-bytes :
    (nom : Nom) (v : SampledIpv4) (rest : Bytes)
    → FitsSampledIpv4 v
    → parse_sampled_ipv4 nom (sampled_ipv4_bytes v rest) ≡ some (rest, v)
unfolding parse_sampled_ipv4 ipv4_addr ipv6_addr
parse_sampled_ipv4-bytes nom v rest h =
    simp (reads, h.size, h.protocol, h.src_ip, h.dst_ip, h.src_port, h.dst_port, h.tcp_flags, h.tos)

abbrev pub sampled_ipv6_bytes : SampledIpv6 → Bytes → Bytes
sampled_ipv6_bytes v rest = word v.length (
    word v.protocol (
      v.src_ip
      ++ (v.dst_ip
          ++ (word v.src_port (word v.dst_port (word v.tcp_flags (word v.priority rest)))))))

pub record FitsSampledIpv6 (v : SampledIpv6) : Type 0 where
  pub size : IsU32 v.length
  pub protocol : IsU32 v.protocol
  pub src_ip : length v.src_ip ≡ 16
  pub dst_ip : length v.dst_ip ≡ 16
  pub src_port : IsU32 v.src_port
  pub dst_port : IsU32 v.dst_port
  pub tcp_flags : IsU32 v.tcp_flags
  pub priority : IsU32 v.priority

pub parse_sampled_ipv6-bytes :
    (nom : Nom) (v : SampledIpv6) (rest : Bytes)
    → FitsSampledIpv6 v
    → parse_sampled_ipv6 nom (sampled_ipv6_bytes v rest) ≡ some (rest, v)
unfolding parse_sampled_ipv6 ipv4_addr ipv6_addr
parse_sampled_ipv6-bytes nom v rest h = simp (
  reads,
  h.size,
  h.protocol,
  take-slice nom 16 v.src_ip _ h.src_ip,
  take-slice nom 16 v.dst_ip _ h.dst_ip,
  h.src_port,
  h.dst_port,
  h.tcp_flags,
  h.priority,
)

abbrev pub extended_switch_bytes : ExtendedSwitch → Bytes → Bytes
extended_switch_bytes v rest =
    word v.src_vlan (word v.src_priority (word v.dst_vlan (word v.dst_priority rest)))

pub record FitsExtendedSwitch (v : ExtendedSwitch) : Type 0 where
  pub src_vlan : IsU32 v.src_vlan
  pub src_priority : IsU32 v.src_priority
  pub dst_vlan : IsU32 v.dst_vlan
  pub dst_priority : IsU32 v.dst_priority

pub parse_extended_switch-bytes :
    (nom : Nom) (v : ExtendedSwitch) (rest : Bytes)
    → FitsExtendedSwitch v
    → parse_extended_switch nom (extended_switch_bytes v rest) ≡ some (rest, v)
unfolding parse_extended_switch
parse_extended_switch-bytes nom v rest h =
    simp (reads, h.src_vlan, h.src_priority, h.dst_vlan, h.dst_priority)

abbrev pub extended_router_bytes : ExtendedRouter → Bytes → Bytes
extended_router_bytes v rest = address_bytes v.nexthop (word v.src_mask (word v.dst_mask rest))

pub record FitsExtendedRouter (v : ExtendedRouter) : Type 0 where
  pub nexthop : FitsAddress v.nexthop
  pub src_mask : IsU32 v.src_mask
  pub dst_mask : IsU32 v.dst_mask

pub parse_extended_router-bytes :
    (nom : Nom) (v : ExtendedRouter) (rest : Bytes)
    → FitsExtendedRouter v
    → parse_extended_router nom (extended_router_bytes v rest) ≡ some (rest, v)
unfolding parse_extended_router
parse_extended_router-bytes nom v rest h =
    simp (reads, parse_address-bytes nom v.nexthop _ h.nexthop, h.src_mask, h.dst_mask)

abbrev pub extended_gateway_bytes : ExtendedGateway → Bytes → Bytes
extended_gateway_bytes v rest = address_bytes v.nexthop (
    word v.as_ (
      word v.src_as (
        word v.src_peer_as (
          word (length v.dst_as_path) (
            each segment_bytes v.dst_as_path
              (word (length v.communities) (each word v.communities (word v.localpref rest))))))))

pub record FitsExtendedGateway (v : ExtendedGateway) : Type 0 where
  pub nexthop : FitsAddress v.nexthop
  pub as_ : IsU32 v.as_
  pub src_as : IsU32 v.src_as
  pub src_peer_as : IsU32 v.src_peer_as
  pub dst_as_path_count : IsU32 (length v.dst_as_path)
  pub dst_as_path : All FitsSegment v.dst_as_path
  pub communities_count : IsU32 (length v.communities)
  pub communities : All IsU32 v.communities
  pub localpref : IsU32 v.localpref

pub parse_extended_gateway-bytes :
    (nom : Nom) (v : ExtendedGateway) (rest : Bytes)
    → FitsExtendedGateway v
    → parse_extended_gateway nom (extended_gateway_bytes v rest) ≡ some (rest, v)
unfolding parse_extended_gateway
parse_extended_gateway-bytes nom v rest h = simp (
  reads,
  parse_address-bytes nom v.nexthop _ h.nexthop,
  h.as_,
  h.src_as,
  h.src_peer_as,
  h.dst_as_path_count,
  count-each segment_bytes (parse_as_path_segment nom) FitsSegment nom v.dst_as_path _
      (parse_as_path_segment-bytes nom) h.dst_as_path,
  h.communities_count,
  count-words nom v.communities _ h.communities,
  h.localpref,
)

abbrev pub extended_user_bytes : ExtendedUser → Bytes → Bytes
extended_user_bytes v rest =
    word v.src_charset (string_bytes v.src_user (word v.dst_charset (string_bytes v.dst_user rest)))

pub record FitsExtendedUser (v : ExtendedUser) : Type 0 where
  pub src_charset : IsU32 v.src_charset
  pub src_user : FitsText v.src_user
  pub dst_charset : IsU32 v.dst_charset
  pub dst_user : FitsText v.dst_user

pub parse_extended_user-bytes :
    (nom : Nom) (v : ExtendedUser) (rest : Bytes)
    → FitsExtendedUser v
    → parse_extended_user nom (extended_user_bytes v rest) ≡ some (rest, v)
unfolding parse_extended_user
parse_extended_user-bytes nom v rest h = simp (
  reads,
  h.src_charset,
  parse_xdr_string-bytes nom v.src_user _ h.src_user,
  h.dst_charset,
  parse_xdr_string-bytes nom v.dst_user _ h.dst_user,
)

-- The host of the request stands behind the URL.
abbrev pub extended_url_bytes : Text → ExtendedUrl → Bytes → Bytes
extended_url_bytes host v rest =
    word (url_direction_number v.direction) (string_bytes v.url (string_bytes host rest))

pub record FitsExtendedUrl (v : ExtendedUrl) : Type 0 where
  pub url : FitsText v.url

pub parse_extended_url-bytes :
    (nom : Nom) (host : Text) (v : ExtendedUrl) (rest : Bytes)
    → FitsExtendedUrl v
    → parse_extended_url nom (extended_url_bytes host v rest) ≡ some (string_bytes host rest, v)
unfolding parse_extended_url
parse_extended_url-bytes nom host v rest h =
    simp (reads, numbers, parse_xdr_string-bytes nom v.url _ h.url)

abbrev pub extended_egress_queue_bytes : ExtendedEgressQueue → Bytes → Bytes
extended_egress_queue_bytes v rest = word v.queue rest

pub record FitsExtendedEgressQueue (v : ExtendedEgressQueue) : Type 0 where
  pub queue : IsU32 v.queue

pub parse_extended_egress_queue-bytes :
    (nom : Nom) (v : ExtendedEgressQueue) (rest : Bytes)
    → FitsExtendedEgressQueue v
    → parse_extended_egress_queue nom (extended_egress_queue_bytes v rest) ≡ some (rest, v)
unfolding parse_extended_egress_queue
parse_extended_egress_queue-bytes nom v rest h = simp (reads, h.queue)

abbrev pub extended_acl_bytes : ExtendedAcl → Bytes → Bytes
extended_acl_bytes v rest =
    word v.number (string_bytes v.name (word (direction_number v.direction) rest))

pub record FitsExtendedAcl (v : ExtendedAcl) : Type 0 where
  pub number : IsU32 v.number
  pub name : FitsText v.name

pub parse_extended_acl-bytes :
    (nom : Nom) (v : ExtendedAcl) (rest : Bytes)
    → FitsExtendedAcl v
    → parse_extended_acl nom (extended_acl_bytes v rest) ≡ some (rest, v)
unfolding parse_extended_acl
parse_extended_acl-bytes nom v rest h =
    simp (reads, numbers, h.number, parse_xdr_string-bytes nom v.name _ h.name)

abbrev pub extended_function_bytes : ExtendedFunction → Bytes → Bytes
extended_function_bytes v rest = string_bytes v.symbol rest

pub record FitsExtendedFunction (v : ExtendedFunction) : Type 0 where
  pub symbol : FitsText v.symbol

pub parse_extended_function-bytes :
    (nom : Nom) (v : ExtendedFunction) (rest : Bytes)
    → FitsExtendedFunction v
    → parse_extended_function nom (extended_function_bytes v rest) ≡ some (rest, v)
unfolding parse_extended_function
parse_extended_function-bytes nom v rest h = simp (parse_xdr_string-bytes nom v.symbol _ h.symbol)
