-- ===== src/SflowV5/Counters.antt =====
-- crates/rustflow_core/src/sflow_v5/parser.rs: how counters are read, one field behind the other.
use rustflow.Prelude.{some}
use rustflow.Wire.Read.{Parser, ◌>>=◌}
use rustflow.Wire.Nom.{Nom}
use rustflow.SflowV5.CounterTypes.{
  IfCounters, EthernetCounters, TokenringCounters, VgCounters, VlanCounters, Processor,
}

module _ (nom : Nom) where
  open nom use {be_u32, be_u64, be_i32}

  unfoldable pub parse_if_counters : Parser IfCounters
  parse_if_counters input = do
    (input, if_index) ← be_u32 input
    (input, if_type) ← be_u32 input
    (input, if_speed) ← be_u64 input
    (input, if_direction) ← be_u32 input
    (input, if_status) ← be_u32 input
    (input, if_in_octets) ← be_u64 input
    (input, if_in_ucast_pkts) ← be_u32 input
    (input, if_in_multicast_pkts) ← be_u32 input
    (input, if_in_broadcast_pkts) ← be_u32 input
    (input, if_in_discards) ← be_u32 input
    (input, if_in_errors) ← be_u32 input
    (input, if_in_unknown_protos) ← be_u32 input
    (input, if_out_octets) ← be_u64 input
    (input, if_out_ucast_pkts) ← be_u32 input
    (input, if_out_multicast_pkts) ← be_u32 input
    (input, if_out_broadcast_pkts) ← be_u32 input
    (input, if_out_discards) ← be_u32 input
    (input, if_out_errors) ← be_u32 input
    (input, if_promiscuous_mode) ← be_u32 input
    some (
      input,
      record {
        if_index = if_index;
        if_type = if_type;
        if_speed = if_speed;
        if_direction = if_direction;
        if_status = if_status;
        if_in_octets = if_in_octets;
        if_in_ucast_pkts = if_in_ucast_pkts;
        if_in_multicast_pkts = if_in_multicast_pkts;
        if_in_broadcast_pkts = if_in_broadcast_pkts;
        if_in_discards = if_in_discards;
        if_in_errors = if_in_errors;
        if_in_unknown_protos = if_in_unknown_protos;
        if_out_octets = if_out_octets;
        if_out_ucast_pkts = if_out_ucast_pkts;
        if_out_multicast_pkts = if_out_multicast_pkts;
        if_out_broadcast_pkts = if_out_broadcast_pkts;
        if_out_discards = if_out_discards;
        if_out_errors = if_out_errors;
        if_promiscuous_mode = if_promiscuous_mode;
      },
    )

  unfoldable pub parse_ethernet_counters : Parser EthernetCounters
  parse_ethernet_counters input = do
    (input, dot3_stats_alignment_errors) ← be_u32 input
    (input, dot3_stats_fcs_errors) ← be_u32 input
    (input, dot3_stats_single_collision_frames) ← be_u32 input
    (input, dot3_stats_multiple_collision_frames) ← be_u32 input
    (input, dot3_stats_sqetest_errors) ← be_u32 input
    (input, dot3_stats_deferred_transmissions) ← be_u32 input
    (input, dot3_stats_late_collisions) ← be_u32 input
    (input, dot3_stats_excessive_collisions) ← be_u32 input
    (input, dot3_stats_internal_mac_transmit_errors) ← be_u32 input
    (input, dot3_stats_carrier_sense_errors) ← be_u32 input
    (input, dot3_stats_frame_too_longs) ← be_u32 input
    (input, dot3_stats_internal_mac_receive_errors) ← be_u32 input
    (input, dot3_stats_symbol_errors) ← be_u32 input
    some (
      input,
      record {
        dot3_stats_alignment_errors = dot3_stats_alignment_errors;
        dot3_stats_fcs_errors = dot3_stats_fcs_errors;
        dot3_stats_single_collision_frames = dot3_stats_single_collision_frames;
        dot3_stats_multiple_collision_frames = dot3_stats_multiple_collision_frames;
        dot3_stats_sqetest_errors = dot3_stats_sqetest_errors;
        dot3_stats_deferred_transmissions = dot3_stats_deferred_transmissions;
        dot3_stats_late_collisions = dot3_stats_late_collisions;
        dot3_stats_excessive_collisions = dot3_stats_excessive_collisions;
        dot3_stats_internal_mac_transmit_errors = dot3_stats_internal_mac_transmit_errors;
        dot3_stats_carrier_sense_errors = dot3_stats_carrier_sense_errors;
        dot3_stats_frame_too_longs = dot3_stats_frame_too_longs;
        dot3_stats_internal_mac_receive_errors = dot3_stats_internal_mac_receive_errors;
        dot3_stats_symbol_errors = dot3_stats_symbol_errors;
      },
    )

  unfoldable pub parse_tokenring_counters : Parser TokenringCounters
  parse_tokenring_counters input = do
    (input, dot5_stats_line_errors) ← be_u32 input
    (input, dot5_stats_burst_errors) ← be_u32 input
    (input, dot5_stats_ac_errors) ← be_u32 input
    (input, dot5_stats_abort_trans_errors) ← be_u32 input
    (input, dot5_stats_internal_errors) ← be_u32 input
    (input, dot5_stats_lost_frame_errors) ← be_u32 input
    (input, dot5_stats_receive_congestions) ← be_u32 input
    (input, dot5_stats_frame_copied_errors) ← be_u32 input
    (input, dot5_stats_token_errors) ← be_u32 input
    (input, dot5_stats_soft_errors) ← be_u32 input
    (input, dot5_stats_hard_errors) ← be_u32 input
    (input, dot5_stats_signal_loss) ← be_u32 input
    (input, dot5_stats_transmit_beacons) ← be_u32 input
    (input, dot5_stats_recoveries) ← be_u32 input
    (input, dot5_stats_lobe_wires) ← be_u32 input
    (input, dot5_stats_removes) ← be_u32 input
    (input, dot5_stats_singles) ← be_u32 input
    (input, dot5_stats_freq_errors) ← be_u32 input
    some (
      input,
      record {
        dot5_stats_line_errors = dot5_stats_line_errors;
        dot5_stats_burst_errors = dot5_stats_burst_errors;
        dot5_stats_ac_errors = dot5_stats_ac_errors;
        dot5_stats_abort_trans_errors = dot5_stats_abort_trans_errors;
        dot5_stats_internal_errors = dot5_stats_internal_errors;
        dot5_stats_lost_frame_errors = dot5_stats_lost_frame_errors;
        dot5_stats_receive_congestions = dot5_stats_receive_congestions;
        dot5_stats_frame_copied_errors = dot5_stats_frame_copied_errors;
        dot5_stats_token_errors = dot5_stats_token_errors;
        dot5_stats_soft_errors = dot5_stats_soft_errors;
        dot5_stats_hard_errors = dot5_stats_hard_errors;
        dot5_stats_signal_loss = dot5_stats_signal_loss;
        dot5_stats_transmit_beacons = dot5_stats_transmit_beacons;
        dot5_stats_recoveries = dot5_stats_recoveries;
        dot5_stats_lobe_wires = dot5_stats_lobe_wires;
        dot5_stats_removes = dot5_stats_removes;
        dot5_stats_singles = dot5_stats_singles;
        dot5_stats_freq_errors = dot5_stats_freq_errors;
      },
    )

  unfoldable pub parse_vg_counters : Parser VgCounters
  parse_vg_counters input = do
    (input, dot12_in_high_priority_frames) ← be_u32 input
    (input, dot12_in_high_priority_octets) ← be_u64 input
    (input, dot12_in_norm_priority_frames) ← be_u32 input
    (input, dot12_in_norm_priority_octets) ← be_u64 input
    (input, dot12_in_ipm_errors) ← be_u32 input
    (input, dot12_in_oversize_frame_errors) ← be_u32 input
    (input, dot12_in_data_errors) ← be_u32 input
    (input, dot12_in_null_addressed_frames) ← be_u32 input
    (input, dot12_out_high_priority_frames) ← be_u32 input
    (input, dot12_out_high_priority_octets) ← be_u64 input
    (input, dot12_transition_into_training) ← be_u32 input
    (input, dot12_hc_in_high_priority_octets) ← be_u64 input
    (input, dot12_hc_in_norm_priority_octets) ← be_u64 input
    (input, dot12_hc_out_high_priority_octets) ← be_u64 input
    some (
      input,
      record {
        dot12_in_high_priority_frames = dot12_in_high_priority_frames;
        dot12_in_high_priority_octets = dot12_in_high_priority_octets;
        dot12_in_norm_priority_frames = dot12_in_norm_priority_frames;
        dot12_in_norm_priority_octets = dot12_in_norm_priority_octets;
        dot12_in_ipm_errors = dot12_in_ipm_errors;
        dot12_in_oversize_frame_errors = dot12_in_oversize_frame_errors;
        dot12_in_data_errors = dot12_in_data_errors;
        dot12_in_null_addressed_frames = dot12_in_null_addressed_frames;
        dot12_out_high_priority_frames = dot12_out_high_priority_frames;
        dot12_out_high_priority_octets = dot12_out_high_priority_octets;
        dot12_transition_into_training = dot12_transition_into_training;
        dot12_hc_in_high_priority_octets = dot12_hc_in_high_priority_octets;
        dot12_hc_in_norm_priority_octets = dot12_hc_in_norm_priority_octets;
        dot12_hc_out_high_priority_octets = dot12_hc_out_high_priority_octets;
      },
    )

  unfoldable pub parse_vlan_counters : Parser VlanCounters
  parse_vlan_counters input = do
    (input, vlan_id) ← be_u32 input
    (input, octets) ← be_u64 input
    (input, ucast_pkts) ← be_u32 input
    (input, multicast_pkts) ← be_u32 input
    (input, broadcast_pkts) ← be_u32 input
    (input, discards) ← be_u32 input
    some (
      input,
      record {
        vlan_id = vlan_id;
        octets = octets;
        ucast_pkts = ucast_pkts;
        multicast_pkts = multicast_pkts;
        broadcast_pkts = broadcast_pkts;
        discards = discards;
      },
    )

  unfoldable pub parse_processor : Parser Processor
  parse_processor input = do
    (input, avg_5s_cpu) ← be_i32 input
    (input, avg_1m_cpu) ← be_i32 input
    (input, avg_5m_cpu) ← be_i32 input
    (input, total_memory) ← be_u64 input
    (input, free_memory) ← be_u64 input
    some (
      input,
      record {
        avg_5s_cpu = avg_5s_cpu;
        avg_1m_cpu = avg_1m_cpu;
        avg_5m_cpu = avg_5m_cpu;
        total_memory = total_memory;
        free_memory = free_memory;
      },
    )
