-- ===== src/SflowV5/CounterTypes.antt =====
-- crates/rustflow_core/src/sflow_v5/parser.rs: the counters that an agent reports.
use rustflow.Prelude.{ℕ}
use rustflow.Prelude.Ints.{ℤ}

pub record IfCounters : Type 0 where
  pub if_index : ℕ
  pub if_type : ℕ
  pub if_speed : ℕ
  pub if_direction : ℕ
  pub if_status : ℕ
  pub if_in_octets : ℕ
  pub if_in_ucast_pkts : ℕ
  pub if_in_multicast_pkts : ℕ
  pub if_in_broadcast_pkts : ℕ
  pub if_in_discards : ℕ
  pub if_in_errors : ℕ
  pub if_in_unknown_protos : ℕ
  pub if_out_octets : ℕ
  pub if_out_ucast_pkts : ℕ
  pub if_out_multicast_pkts : ℕ
  pub if_out_broadcast_pkts : ℕ
  pub if_out_discards : ℕ
  pub if_out_errors : ℕ
  pub if_promiscuous_mode : ℕ

pub record EthernetCounters : Type 0 where
  pub dot3_stats_alignment_errors : ℕ
  pub dot3_stats_fcs_errors : ℕ
  pub dot3_stats_single_collision_frames : ℕ
  pub dot3_stats_multiple_collision_frames : ℕ
  pub dot3_stats_sqetest_errors : ℕ
  pub dot3_stats_deferred_transmissions : ℕ
  pub dot3_stats_late_collisions : ℕ
  pub dot3_stats_excessive_collisions : ℕ
  pub dot3_stats_internal_mac_transmit_errors : ℕ
  pub dot3_stats_carrier_sense_errors : ℕ
  pub dot3_stats_frame_too_longs : ℕ
  pub dot3_stats_internal_mac_receive_errors : ℕ
  pub dot3_stats_symbol_errors : ℕ

pub record TokenringCounters : Type 0 where
  pub dot5_stats_line_errors : ℕ
  pub dot5_stats_burst_errors : ℕ
  pub dot5_stats_ac_errors : ℕ
  pub dot5_stats_abort_trans_errors : ℕ
  pub dot5_stats_internal_errors : ℕ
  pub dot5_stats_lost_frame_errors : ℕ
  pub dot5_stats_receive_congestions : ℕ
  pub dot5_stats_frame_copied_errors : ℕ
  pub dot5_stats_token_errors : ℕ
  pub dot5_stats_soft_errors : ℕ
  pub dot5_stats_hard_errors : ℕ
  pub dot5_stats_signal_loss : ℕ
  pub dot5_stats_transmit_beacons : ℕ
  pub dot5_stats_recoveries : ℕ
  pub dot5_stats_lobe_wires : ℕ
  pub dot5_stats_removes : ℕ
  pub dot5_stats_singles : ℕ
  pub dot5_stats_freq_errors : ℕ

pub record VgCounters : Type 0 where
  pub dot12_in_high_priority_frames : ℕ
  pub dot12_in_high_priority_octets : ℕ
  pub dot12_in_norm_priority_frames : ℕ
  pub dot12_in_norm_priority_octets : ℕ
  pub dot12_in_ipm_errors : ℕ
  pub dot12_in_oversize_frame_errors : ℕ
  pub dot12_in_data_errors : ℕ
  pub dot12_in_null_addressed_frames : ℕ
  pub dot12_out_high_priority_frames : ℕ
  pub dot12_out_high_priority_octets : ℕ
  pub dot12_transition_into_training : ℕ
  pub dot12_hc_in_high_priority_octets : ℕ
  pub dot12_hc_in_norm_priority_octets : ℕ
  pub dot12_hc_out_high_priority_octets : ℕ

pub record VlanCounters : Type 0 where
  pub vlan_id : ℕ
  pub octets : ℕ
  pub ucast_pkts : ℕ
  pub multicast_pkts : ℕ
  pub broadcast_pkts : ℕ
  pub discards : ℕ

pub record Processor : Type 0 where
  pub avg_5s_cpu : ℤ
  pub avg_1m_cpu : ℤ
  pub avg_5m_cpu : ℤ
  pub total_memory : ℕ
  pub free_memory : ℕ
