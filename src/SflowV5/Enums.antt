-- ===== src/SflowV5/Enums.antt =====
-- crates/rustflow_core/src/sflow_v5/parser.rs: the enumerations of flow records, by their numbers.
use rustflow.Prelude.{ℕ, Option, none, some, ◌==◌, if◌then◌else◌}

pub data HeaderProtocol : Type 0 where
  ethernet_iso8023 iso88024_token_bus iso88025_token_ring fddi : HeaderProtocol
  frame_relay x25 ppp smds : HeaderProtocol
  aal5 aal5_ip ipv4 ipv6 : HeaderProtocol
  mpls pos : HeaderProtocol

-- `HeaderProtocol::try_from`
unfoldable pub header_protocol : ℕ → Option HeaderProtocol
header_protocol n =
    if n == 1
    then some HeaderProtocol.ethernet_iso8023
    else if n == 2
    then some HeaderProtocol.iso88024_token_bus
    else if n == 3
    then some HeaderProtocol.iso88025_token_ring
    else if n == 4
    then some HeaderProtocol.fddi
    else if n == 5
    then some HeaderProtocol.frame_relay
    else if n == 6
    then some HeaderProtocol.x25
    else if n == 7
    then some HeaderProtocol.ppp
    else if n == 8
    then some HeaderProtocol.smds
    else if n == 9
    then some HeaderProtocol.aal5
    else if n == 10
    then some HeaderProtocol.aal5_ip
    else if n == 11
    then some HeaderProtocol.ipv4
    else if n == 12
    then some HeaderProtocol.ipv6
    else if n == 13
    then some HeaderProtocol.mpls
    else if n == 14
    then some HeaderProtocol.pos
    else none

unfoldable pub protocol_number : HeaderProtocol → ℕ
protocol_number HeaderProtocol.ethernet_iso8023 = 1
protocol_number HeaderProtocol.iso88024_token_bus = 2
protocol_number HeaderProtocol.iso88025_token_ring = 3
protocol_number HeaderProtocol.fddi = 4
protocol_number HeaderProtocol.frame_relay = 5
protocol_number HeaderProtocol.x25 = 6
protocol_number HeaderProtocol.ppp = 7
protocol_number HeaderProtocol.smds = 8
protocol_number HeaderProtocol.aal5 = 9
protocol_number HeaderProtocol.aal5_ip = 10
protocol_number HeaderProtocol.ipv4 = 11
protocol_number HeaderProtocol.ipv6 = 12
protocol_number HeaderProtocol.mpls = 13
protocol_number HeaderProtocol.pos = 14

pub data AsPathSegmentType : Type 0 where
  as_set as_sequence : AsPathSegmentType

-- `AsPathSegmentType::try_from`
unfoldable pub segment_type_of : ℕ → Option AsPathSegmentType
segment_type_of n =
    if n == 1
    then some AsPathSegmentType.as_set
    else if n == 2
    then some AsPathSegmentType.as_sequence
    else none

unfoldable pub segment_number : AsPathSegmentType → ℕ
segment_number AsPathSegmentType.as_set = 1
segment_number AsPathSegmentType.as_sequence = 2

pub data UrlDirection : Type 0 where
  src dst : UrlDirection

-- `UrlDirection::try_from`
unfoldable pub url_direction : ℕ → Option UrlDirection
url_direction n =
    if n == 1 then some UrlDirection.src else if n == 2 then some UrlDirection.dst else none

unfoldable pub url_direction_number : UrlDirection → ℕ
url_direction_number UrlDirection.src = 1
url_direction_number UrlDirection.dst = 2

pub data Direction : Type 0 where
  unknown ingress egress : Direction

-- `Direction::try_from`
unfoldable pub direction_of : ℕ → Option Direction
direction_of n =
    if n == 0
    then some Direction.unknown
    else if n == 1
    then some Direction.ingress
    else if n == 2
    then some Direction.egress
    else none

unfoldable pub direction_number : Direction → ℕ
direction_number Direction.unknown = 0
direction_number Direction.ingress = 1
direction_number Direction.egress = 2
