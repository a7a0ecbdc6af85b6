-- ===== src/SflowV5/Reasons.antt =====
-- crates/rustflow_core/src/sflow_v5/parser.rs: `DropReason`, with the number of each reason.
use rustflow.Prelude.{ℕ, List, [], ◌∷◌, ◌==◌, if◌then◌else◌}

pub data DropReason : Type 0 where
  net_unreachable host_unreachable protocol_unreachable : DropReason
  port_unreachable frag_needed src_route_failed : DropReason
  dst_net_unknown dst_host_unknown src_host_isolated : DropReason
  dst_net_prohibited dst_host_prohibited dst_net_tos_unreachable : DropReason
  dst_host_tos_unreachable comm_admin_prohibited host_precedence_violation : DropReason
  precedence_cutoff unknown ttl_exceeded : DropReason
  acl no_buffer_space red : DropReason
  traffic_shaping pkt_too_big src_mac_is_multicast : DropReason
  vlan_tag_mismatch ingress_vlan_filter ingress_spanning_tree_filter : DropReason
  port_list_is_empty port_loopback_filter blackhole_route : DropReason
  non_ip uc_dip_over_mc_dmac dip_is_loopback_address : DropReason
  sip_is_mc sip_is_loopback_address ip_header_corrupted : DropReason
  ipv4_sip_is_limited_bc ipv6_mc_dip_reserved_scope ipv6_mc_dip_interface_local_scope : DropReason
  unresolved_neigh mc_reverse_path_forwarding non_routable_packet : DropReason
  decap_error overlay_smac_is_mc unknown_l2 : DropReason
  unknown_l3 unknown_l3_exception unknown_buffer : DropReason
  unknown_tunnel unknown_l4 sip_is_unspecified : DropReason
  mlag_port_isolated blackhole_arp_neigh src_mac_is_dmac : DropReason
  dmac_is_reserved sip_is_class_e mc_dmac_mismatch : DropReason
  sip_is_dip dip_is_local_network dip_is_link_local : DropReason
  overlay_smac_is_dmac egress_vlan_filter uc_reverse_path_forwarding : DropReason
  split_horizon : DropReason
  unrecognized : ℕ → DropReason

abbrev pub drop_reasons : List (ℕ × DropReason)
drop_reasons =
    (0, net_unreachable)
    ∷ (1, host_unreachable)
    ∷ (2, protocol_unreachable)
    ∷ (3, port_unreachable)
    ∷ (4, frag_needed)
    ∷ (5, src_route_failed)
    ∷ (6, dst_net_unknown)
    ∷ (7, dst_host_unknown)
    ∷ (8, src_host_isolated)
    ∷ (9, dst_net_prohibited)
    ∷ (10, dst_host_prohibited)
    ∷ (11, dst_net_tos_unreachable)
    ∷ (12, dst_host_tos_unreachable)
    ∷ (13, comm_admin_prohibited)
    ∷ (14, host_precedence_violation)
    ∷ (15, precedence_cutoff)
    ∷ (256, unknown)
    ∷ (257, ttl_exceeded)
    ∷ (258, acl)
    ∷ (259, no_buffer_space)
    ∷ (260, red)
    ∷ (261, traffic_shaping)
    ∷ (262, pkt_too_big)
    ∷ (263, src_mac_is_multicast)
    ∷ (264, vlan_tag_mismatch)
    ∷ (265, ingress_vlan_filter)
    ∷ (266, ingress_spanning_tree_filter)
    ∷ (267, port_list_is_empty)
    ∷ (268, port_loopback_filter)
    ∷ (269, blackhole_route)
    ∷ (270, non_ip)
    ∷ (271, uc_dip_over_mc_dmac)
    ∷ (272, dip_is_loopback_address)
    ∷ (273, sip_is_mc)
    ∷ (274, sip_is_loopback_address)
    ∷ (275, ip_header_corrupted)
    ∷ (276, ipv4_sip_is_limited_bc)
    ∷ (277, ipv6_mc_dip_reserved_scope)
    ∷ (278, ipv6_mc_dip_interface_local_scope)
    ∷ (279, unresolved_neigh)
    ∷ (280, mc_reverse_path_forwarding)
    ∷ (281, non_routable_packet)
    ∷ (282, decap_error)
    ∷ (283, overlay_smac_is_mc)
    ∷ (284, unknown_l2)
    ∷ (285, unknown_l3)
    ∷ (286, unknown_l3_exception)
    ∷ (287, unknown_buffer)
    ∷ (288, unknown_tunnel)
    ∷ (289, unknown_l4)
    ∷ (290, sip_is_unspecified)
    ∷ (291, mlag_port_isolated)
    ∷ (292, blackhole_arp_neigh)
    ∷ (293, src_mac_is_dmac)
    ∷ (294, dmac_is_reserved)
    ∷ (295, sip_is_class_e)
    ∷ (296, mc_dmac_mismatch)
    ∷ (297, sip_is_dip)
    ∷ (298, dip_is_local_network)
    ∷ (299, dip_is_link_local)
    ∷ (300, overlay_smac_is_dmac)
    ∷ (301, egress_vlan_filter)
    ∷ (302, uc_reverse_path_forwarding)
    ∷ (303, split_horizon)
    ∷ []

abbrev pub reason_in : List (ℕ × DropReason) → ℕ → DropReason
reason_in [] n = unrecognized n
reason_in ((k, reason) ∷ l) n = if k == n then reason else reason_in l n

-- `DropReason::from`: a number without a reason is kept as it is.
unfoldable pub drop_reason : ℕ → DropReason
drop_reason n = reason_in drop_reasons n

-- The number of a reason.
unfoldable pub reason_number : DropReason → ℕ
reason_number net_unreachable = 0
reason_number host_unreachable = 1
reason_number protocol_unreachable = 2
reason_number port_unreachable = 3
reason_number frag_needed = 4
reason_number src_route_failed = 5
reason_number dst_net_unknown = 6
reason_number dst_host_unknown = 7
reason_number src_host_isolated = 8
reason_number dst_net_prohibited = 9
reason_number dst_host_prohibited = 10
reason_number dst_net_tos_unreachable = 11
reason_number dst_host_tos_unreachable = 12
reason_number comm_admin_prohibited = 13
reason_number host_precedence_violation = 14
reason_number precedence_cutoff = 15
reason_number unknown = 256
reason_number ttl_exceeded = 257
reason_number acl = 258
reason_number no_buffer_space = 259
reason_number red = 260
reason_number traffic_shaping = 261
reason_number pkt_too_big = 262
reason_number src_mac_is_multicast = 263
reason_number vlan_tag_mismatch = 264
reason_number ingress_vlan_filter = 265
reason_number ingress_spanning_tree_filter = 266
reason_number port_list_is_empty = 267
reason_number port_loopback_filter = 268
reason_number blackhole_route = 269
reason_number non_ip = 270
reason_number uc_dip_over_mc_dmac = 271
reason_number dip_is_loopback_address = 272
reason_number sip_is_mc = 273
reason_number sip_is_loopback_address = 274
reason_number ip_header_corrupted = 275
reason_number ipv4_sip_is_limited_bc = 276
reason_number ipv6_mc_dip_reserved_scope = 277
reason_number ipv6_mc_dip_interface_local_scope = 278
reason_number unresolved_neigh = 279
reason_number mc_reverse_path_forwarding = 280
reason_number non_routable_packet = 281
reason_number decap_error = 282
reason_number overlay_smac_is_mc = 283
reason_number unknown_l2 = 284
reason_number unknown_l3 = 285
reason_number unknown_l3_exception = 286
reason_number unknown_buffer = 287
reason_number unknown_tunnel = 288
reason_number unknown_l4 = 289
reason_number sip_is_unspecified = 290
reason_number mlag_port_isolated = 291
reason_number blackhole_arp_neigh = 292
reason_number src_mac_is_dmac = 293
reason_number dmac_is_reserved = 294
reason_number sip_is_class_e = 295
reason_number mc_dmac_mismatch = 296
reason_number sip_is_dip = 297
reason_number dip_is_local_network = 298
reason_number dip_is_link_local = 299
reason_number overlay_smac_is_dmac = 300
reason_number egress_vlan_filter = 301
reason_number uc_reverse_path_forwarding = 302
reason_number split_horizon = 303
reason_number (unrecognized n) = n
