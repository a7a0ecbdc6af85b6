-- ===== src/SflowV5/CounterBytes.antt =====
-- The layout of counters in an sFlow datagram (the counter structures of sFlow version 5), which the
-- parser reads back.
use rustflow.Prelude.{◌^◌, ◌<◌, ◌≡◌, some, arith}
use rustflow.Prelude.Ints.{ℤ, bits}
use rustflow.Wire.Read.{Bytes}
use rustflow.Wire.Nom.{Nom}
use rustflow.Wire.Layout.{word, hyper, IsU32, IsU64, IsI32, be_i32-bytes}
use rustflow.Wire.RoundTrip.{reads}
use rustflow.SflowV5.CounterTypes.{
  IfCounters, EthernetCounters, TokenringCounters, VgCounters, VlanCounters, Processor,
}
use rustflow.SflowV5.Counters.{
  parse_if_counters, parse_ethernet_counters, parse_tokenring_counters, parse_vg_counters,
  parse_vlan_counters, parse_processor,
}

abbrev pub if_counters_bytes : IfCounters → Bytes → Bytes
if_counters_bytes c rest = word c.if_index (
    word c.if_type (
      hyper c.if_speed (
        word c.if_direction (
          word c.if_status (
            hyper c.if_in_octets (
              word c.if_in_ucast_pkts (
                word c.if_in_multicast_pkts (
                  word c.if_in_broadcast_pkts (
                    word c.if_in_discards (
                      word c.if_in_errors (
                        word c.if_in_unknown_protos (
                          hyper c.if_out_octets (
                            word c.if_out_ucast_pkts (
                              word c.if_out_multicast_pkts (
                                word c.if_out_broadcast_pkts (
                                  word c.if_out_discards (
                                    word c.if_out_errors
                                      (word c.if_promiscuous_mode rest))))))))))))))))))

pub record FitsIfCounters (c : IfCounters) : Type 0 where
  pub if_index : IsU32 c.if_index
  pub if_type : IsU32 c.if_type
  pub if_speed : IsU64 c.if_speed
  pub if_direction : IsU32 c.if_direction
  pub if_status : IsU32 c.if_status
  pub if_in_octets : IsU64 c.if_in_octets
  pub if_in_ucast_pkts : IsU32 c.if_in_ucast_pkts
  pub if_in_multicast_pkts : IsU32 c.if_in_multicast_pkts
  pub if_in_broadcast_pkts : IsU32 c.if_in_broadcast_pkts
  pub if_in_discards : IsU32 c.if_in_discards
  pub if_in_errors : IsU32 c.if_in_errors
  pub if_in_unknown_protos : IsU32 c.if_in_unknown_protos
  pub if_out_octets : IsU64 c.if_out_octets
  pub if_out_ucast_pkts : IsU32 c.if_out_ucast_pkts
  pub if_out_multicast_pkts : IsU32 c.if_out_multicast_pkts
  pub if_out_broadcast_pkts : IsU32 c.if_out_broadcast_pkts
  pub if_out_discards : IsU32 c.if_out_discards
  pub if_out_errors : IsU32 c.if_out_errors
  pub if_promiscuous_mode : IsU32 c.if_promiscuous_mode

pub parse_if_counters-bytes :
    (nom : Nom) (c : IfCounters) (rest : Bytes)
    → FitsIfCounters c
    → parse_if_counters nom (if_counters_bytes c rest) ≡ some (rest, c)
unfolding parse_if_counters
parse_if_counters-bytes nom c rest h = simp (
  reads, h.if_index, h.if_type, h.if_speed, h.if_direction, h.if_status, h.if_in_octets,
  h.if_in_ucast_pkts, h.if_in_multicast_pkts, h.if_in_broadcast_pkts, h.if_in_discards,
  h.if_in_errors, h.if_in_unknown_protos, h.if_out_octets, h.if_out_ucast_pkts,
  h.if_out_multicast_pkts, h.if_out_broadcast_pkts, h.if_out_discards, h.if_out_errors,
  h.if_promiscuous_mode,
)

abbrev pub ethernet_counters_bytes : EthernetCounters → Bytes → Bytes
ethernet_counters_bytes c rest = word c.dot3_stats_alignment_errors (
    word c.dot3_stats_fcs_errors (
      word c.dot3_stats_single_collision_frames (
        word c.dot3_stats_multiple_collision_frames (
          word c.dot3_stats_sqetest_errors (
            word c.dot3_stats_deferred_transmissions (
              word c.dot3_stats_late_collisions (
                word c.dot3_stats_excessive_collisions (
                  word c.dot3_stats_internal_mac_transmit_errors (
                    word c.dot3_stats_carrier_sense_errors (
                      word c.dot3_stats_frame_too_longs (
                        word c.dot3_stats_internal_mac_receive_errors
                          (word c.dot3_stats_symbol_errors rest))))))))))))

pub record FitsEthernetCounters (c : EthernetCounters) : Type 0 where
  pub dot3_stats_alignment_errors : IsU32 c.dot3_stats_alignment_errors
  pub dot3_stats_fcs_errors : IsU32 c.dot3_stats_fcs_errors
  pub dot3_stats_single_collision_frames : IsU32 c.dot3_stats_single_collision_frames
  pub dot3_stats_multiple_collision_frames : IsU32 c.dot3_stats_multiple_collision_frames
  pub dot3_stats_sqetest_errors : IsU32 c.dot3_stats_sqetest_errors
  pub dot3_stats_deferred_transmissions : IsU32 c.dot3_stats_deferred_transmissions
  pub dot3_stats_late_collisions : IsU32 c.dot3_stats_late_collisions
  pub dot3_stats_excessive_collisions : IsU32 c.dot3_stats_excessive_collisions
  pub dot3_stats_internal_mac_transmit_errors : IsU32 c.dot3_stats_internal_mac_transmit_errors
  pub dot3_stats_carrier_sense_errors : IsU32 c.dot3_stats_carrier_sense_errors
  pub dot3_stats_frame_too_longs : IsU32 c.dot3_stats_frame_too_longs
  pub dot3_stats_internal_mac_receive_errors : IsU32 c.dot3_stats_internal_mac_receive_errors
  pub dot3_stats_symbol_errors : IsU32 c.dot3_stats_symbol_errors

pub parse_ethernet_counters-bytes :
    (nom : Nom) (c : EthernetCounters) (rest : Bytes)
    → FitsEthernetCounters c
    → parse_ethernet_counters nom (ethernet_counters_bytes c rest) ≡ some (rest, c)
unfolding parse_ethernet_counters
parse_ethernet_counters-bytes nom c rest h = simp (
  reads, h.dot3_stats_alignment_errors, h.dot3_stats_fcs_errors,
  h.dot3_stats_single_collision_frames, h.dot3_stats_multiple_collision_frames,
  h.dot3_stats_sqetest_errors, h.dot3_stats_deferred_transmissions, h.dot3_stats_late_collisions,
  h.dot3_stats_excessive_collisions, h.dot3_stats_internal_mac_transmit_errors,
  h.dot3_stats_carrier_sense_errors, h.dot3_stats_frame_too_longs,
  h.dot3_stats_internal_mac_receive_errors, h.dot3_stats_symbol_errors,
)

abbrev pub tokenring_counters_bytes : TokenringCounters → Bytes → Bytes
tokenring_counters_bytes c rest = word c.dot5_stats_line_errors (
    word c.dot5_stats_burst_errors (
      word c.dot5_stats_ac_errors (
        word c.dot5_stats_abort_trans_errors (
          word c.dot5_stats_internal_errors (
            word c.dot5_stats_lost_frame_errors (
              word c.dot5_stats_receive_congestions (
                word c.dot5_stats_frame_copied_errors (
                  word c.dot5_stats_token_errors (
                    word c.dot5_stats_soft_errors (
                      word c.dot5_stats_hard_errors (
                        word c.dot5_stats_signal_loss (
                          word c.dot5_stats_transmit_beacons (
                            word c.dot5_stats_recoveries (
                              word c.dot5_stats_lobe_wires (
                                word c.dot5_stats_removes (
                                  word c.dot5_stats_singles
                                    (word c.dot5_stats_freq_errors rest)))))))))))))))))

pub record FitsTokenringCounters (c : TokenringCounters) : Type 0 where
  pub dot5_stats_line_errors : IsU32 c.dot5_stats_line_errors
  pub dot5_stats_burst_errors : IsU32 c.dot5_stats_burst_errors
  pub dot5_stats_ac_errors : IsU32 c.dot5_stats_ac_errors
  pub dot5_stats_abort_trans_errors : IsU32 c.dot5_stats_abort_trans_errors
  pub dot5_stats_internal_errors : IsU32 c.dot5_stats_internal_errors
  pub dot5_stats_lost_frame_errors : IsU32 c.dot5_stats_lost_frame_errors
  pub dot5_stats_receive_congestions : IsU32 c.dot5_stats_receive_congestions
  pub dot5_stats_frame_copied_errors : IsU32 c.dot5_stats_frame_copied_errors
  pub dot5_stats_token_errors : IsU32 c.dot5_stats_token_errors
  pub dot5_stats_soft_errors : IsU32 c.dot5_stats_soft_errors
  pub dot5_stats_hard_errors : IsU32 c.dot5_stats_hard_errors
  pub dot5_stats_signal_loss : IsU32 c.dot5_stats_signal_loss
  pub dot5_stats_transmit_beacons : IsU32 c.dot5_stats_transmit_beacons
  pub dot5_stats_recoveries : IsU32 c.dot5_stats_recoveries
  pub dot5_stats_lobe_wires : IsU32 c.dot5_stats_lobe_wires
  pub dot5_stats_removes : IsU32 c.dot5_stats_removes
  pub dot5_stats_singles : IsU32 c.dot5_stats_singles
  pub dot5_stats_freq_errors : IsU32 c.dot5_stats_freq_errors

pub parse_tokenring_counters-bytes :
    (nom : Nom) (c : TokenringCounters) (rest : Bytes)
    → FitsTokenringCounters c
    → parse_tokenring_counters nom (tokenring_counters_bytes c rest) ≡ some (rest, c)
unfolding parse_tokenring_counters
parse_tokenring_counters-bytes nom c rest h = simp (
  reads, h.dot5_stats_line_errors, h.dot5_stats_burst_errors, h.dot5_stats_ac_errors,
  h.dot5_stats_abort_trans_errors, h.dot5_stats_internal_errors, h.dot5_stats_lost_frame_errors,
  h.dot5_stats_receive_congestions, h.dot5_stats_frame_copied_errors, h.dot5_stats_token_errors,
  h.dot5_stats_soft_errors, h.dot5_stats_hard_errors, h.dot5_stats_signal_loss,
  h.dot5_stats_transmit_beacons, h.dot5_stats_recoveries, h.dot5_stats_lobe_wires,
  h.dot5_stats_removes, h.dot5_stats_singles, h.dot5_stats_freq_errors,
)

abbrev pub vg_counters_bytes : VgCounters → Bytes → Bytes
vg_counters_bytes c rest = word c.dot12_in_high_priority_frames (
    hyper c.dot12_in_high_priority_octets (
      word c.dot12_in_norm_priority_frames (
        hyper c.dot12_in_norm_priority_octets (
          word c.dot12_in_ipm_errors (
            word c.dot12_in_oversize_frame_errors (
              word c.dot12_in_data_errors (
                word c.dot12_in_null_addressed_frames (
                  word c.dot12_out_high_priority_frames (
                    hyper c.dot12_out_high_priority_octets (
                      word c.dot12_transition_into_training (
                        hyper c.dot12_hc_in_high_priority_octets (
                          hyper c.dot12_hc_in_norm_priority_octets
                            (hyper c.dot12_hc_out_high_priority_octets rest)))))))))))))

pub record FitsVgCounters (c : VgCounters) : Type 0 where
  pub dot12_in_high_priority_frames : IsU32 c.dot12_in_high_priority_frames
  pub dot12_in_high_priority_octets : IsU64 c.dot12_in_high_priority_octets
  pub dot12_in_norm_priority_frames : IsU32 c.dot12_in_norm_priority_frames
  pub dot12_in_norm_priority_octets : IsU64 c.dot12_in_norm_priority_octets
  pub dot12_in_ipm_errors : IsU32 c.dot12_in_ipm_errors
  pub dot12_in_oversize_frame_errors : IsU32 c.dot12_in_oversize_frame_errors
  pub dot12_in_data_errors : IsU32 c.dot12_in_data_errors
  pub dot12_in_null_addressed_frames : IsU32 c.dot12_in_null_addressed_frames
  pub dot12_out_high_priority_frames : IsU32 c.dot12_out_high_priority_frames
  pub dot12_out_high_priority_octets : IsU64 c.dot12_out_high_priority_octets
  pub dot12_transition_into_training : IsU32 c.dot12_transition_into_training
  pub dot12_hc_in_high_priority_octets : IsU64 c.dot12_hc_in_high_priority_octets
  pub dot12_hc_in_norm_priority_octets : IsU64 c.dot12_hc_in_norm_priority_octets
  pub dot12_hc_out_high_priority_octets : IsU64 c.dot12_hc_out_high_priority_octets

pub parse_vg_counters-bytes :
    (nom : Nom) (c : VgCounters) (rest : Bytes)
    → FitsVgCounters c
    → parse_vg_counters nom (vg_counters_bytes c rest) ≡ some (rest, c)
unfolding parse_vg_counters
parse_vg_counters-bytes nom c rest h = simp (
  reads, h.dot12_in_high_priority_frames, h.dot12_in_high_priority_octets,
  h.dot12_in_norm_priority_frames, h.dot12_in_norm_priority_octets, h.dot12_in_ipm_errors,
  h.dot12_in_oversize_frame_errors, h.dot12_in_data_errors, h.dot12_in_null_addressed_frames,
  h.dot12_out_high_priority_frames, h.dot12_out_high_priority_octets,
  h.dot12_transition_into_training, h.dot12_hc_in_high_priority_octets,
  h.dot12_hc_in_norm_priority_octets, h.dot12_hc_out_high_priority_octets,
)

abbrev pub vlan_counters_bytes : VlanCounters → Bytes → Bytes
vlan_counters_bytes c rest = word c.vlan_id (
    hyper c.octets
      (word c.ucast_pkts (word c.multicast_pkts (word c.broadcast_pkts (word c.discards rest)))))

pub record FitsVlanCounters (c : VlanCounters) : Type 0 where
  pub vlan_id : IsU32 c.vlan_id
  pub octets : IsU64 c.octets
  pub ucast_pkts : IsU32 c.ucast_pkts
  pub multicast_pkts : IsU32 c.multicast_pkts
  pub broadcast_pkts : IsU32 c.broadcast_pkts
  pub discards : IsU32 c.discards

pub parse_vlan_counters-bytes :
    (nom : Nom) (c : VlanCounters) (rest : Bytes)
    → FitsVlanCounters c
    → parse_vlan_counters nom (vlan_counters_bytes c rest) ≡ some (rest, c)
unfolding parse_vlan_counters
parse_vlan_counters-bytes nom c rest h =
    simp (reads, h.vlan_id, h.octets, h.ucast_pkts, h.multicast_pkts, h.broadcast_pkts, h.discards)

bits32 : (z : ℤ) → bits 32 z < 2 ^ 32
unfolding bits
bits32 (ℤ.pos n) = omega arith
bits32 (ℤ.negsuc n) = omega arith

abbrev pub processor_bytes : Processor → Bytes → Bytes
processor_bytes c rest = word (bits 32 c.avg_5s_cpu) (
    word (bits 32 c.avg_1m_cpu)
      (word (bits 32 c.avg_5m_cpu) (hyper c.total_memory (hyper c.free_memory rest))))

pub record FitsProcessor (c : Processor) : Type 0 where
  pub avg_5s_cpu : IsI32 c.avg_5s_cpu
  pub avg_1m_cpu : IsI32 c.avg_1m_cpu
  pub avg_5m_cpu : IsI32 c.avg_5m_cpu
  pub total_memory : IsU64 c.total_memory
  pub free_memory : IsU64 c.free_memory

pub parse_processor-bytes :
    (nom : Nom) (c : Processor) (rest : Bytes)
    → FitsProcessor c
    → parse_processor nom (processor_bytes c rest) ≡ some (rest, c)
unfolding parse_processor
parse_processor-bytes nom c rest h = simp (
  reads,
  be_i32-bytes,
  bits32 c.avg_5s_cpu,
  bits32 c.avg_1m_cpu,
  bits32 c.avg_5m_cpu,
  h.avg_5s_cpu,
  h.avg_1m_cpu,
  h.avg_5m_cpu,
  h.total_memory,
  h.free_memory,
)
