-- ===== src/SflowV5/Records.antt =====
-- crates/rustflow_core/src/sflow_v5/parser.rs: the records of a sample. A record has a format, a length
-- and so many bytes; what cannot be read of them, or has a format that is not known, is kept as
-- bytes.
use rustflow.Prelude.{ℕ, Option, none, some, List, [], ◌∷◌, ◌==◌, if◌then◌else◌}
use rustflow.Wire.Read.{Bytes, Parser, ◌>>=◌, read_value}
use rustflow.Wire.Nom.{Nom}
use rustflow.SflowV5.CounterTypes.{
  IfCounters, EthernetCounters, TokenringCounters, VgCounters, VlanCounters, Processor,
}
use rustflow.SflowV5.Counters.{
  parse_if_counters, parse_ethernet_counters, parse_tokenring_counters, parse_vg_counters,
  parse_vlan_counters, parse_processor,
}
use rustflow.SflowV5.FlowTypes.{
  SampledHeader, SampledEthernet, SampledIpv4, SampledIpv6, ExtendedSwitch, ExtendedRouter,
  ExtendedGateway, ExtendedUser, ExtendedUrl, ExtendedEgressQueue, ExtendedAcl, ExtendedFunction,
}
use rustflow.SflowV5.Flows.{
  parse_sampled_header, parse_sampled_ethernet, parse_sampled_ipv4, parse_sampled_ipv6,
  parse_extended_switch, parse_extended_router, parse_extended_gateway, parse_extended_user,
  parse_extended_url, parse_extended_egress_queue, parse_extended_acl, parse_extended_function,
}

pub record RecordHeader : Type 0 where
  pub data_format : ℕ
  pub length : ℕ

pub data FlowRecordType : Type 0 where
  sampled_header : SampledHeader → FlowRecordType
  sampled_ethernet : SampledEthernet → FlowRecordType
  sampled_ipv4 : SampledIpv4 → FlowRecordType
  sampled_ipv6 : SampledIpv6 → FlowRecordType
  extended_switch : ExtendedSwitch → FlowRecordType
  extended_router : ExtendedRouter → FlowRecordType
  extended_gateway : ExtendedGateway → FlowRecordType
  extended_user : ExtendedUser → FlowRecordType
  extended_url : ExtendedUrl → FlowRecordType
  extended_egress_queue : ExtendedEgressQueue → FlowRecordType
  extended_acl : ExtendedAcl → FlowRecordType
  extended_function : ExtendedFunction → FlowRecordType
  unknown : Bytes → FlowRecordType

pub data FlowType : Type 0 where
  sampled_header sampled_ethernet sampled_ipv4 sampled_ipv6 : FlowType
  extended_switch extended_router extended_gateway extended_user : FlowType
  extended_url extended_egress_queue extended_acl extended_function : FlowType

-- `FlowType::try_from`
unfoldable pub flow_type : ℕ → Option FlowType
flow_type n =
    if n == 1
    then some FlowType.sampled_header
    else if n == 2
    then some FlowType.sampled_ethernet
    else if n == 3
    then some FlowType.sampled_ipv4
    else if n == 4
    then some FlowType.sampled_ipv6
    else if n == 1001
    then some FlowType.extended_switch
    else if n == 1002
    then some FlowType.extended_router
    else if n == 1003
    then some FlowType.extended_gateway
    else if n == 1004
    then some FlowType.extended_user
    else if n == 1005
    then some FlowType.extended_url
    else if n == 1036
    then some FlowType.extended_egress_queue
    else if n == 1037
    then some FlowType.extended_acl
    else if n == 1038
    then some FlowType.extended_function
    else none

pub record FlowRecord : Type 0 where
  pub header : RecordHeader
  pub record_data : FlowRecordType

pub data CounterRecordType : Type 0 where
  if_counters : IfCounters → CounterRecordType
  ethernet_counters : EthernetCounters → CounterRecordType
  tokenring_counters : TokenringCounters → CounterRecordType
  vg_counters : VgCounters → CounterRecordType
  vlan_counters : VlanCounters → CounterRecordType
  processor : Processor → CounterRecordType
  unknown : Bytes → CounterRecordType

pub data CounterType : Type 0 where
  if_counters ethernet_counters tokenring_counters vg_counters : CounterType
  vlan_counters processor : CounterType

-- `CounterType::try_from`
unfoldable pub counter_type : ℕ → Option CounterType
counter_type n =
    if n == 1
    then some CounterType.if_counters
    else if n == 2
    then some CounterType.ethernet_counters
    else if n == 3
    then some CounterType.tokenring_counters
    else if n == 4
    then some CounterType.vg_counters
    else if n == 5
    then some CounterType.vlan_counters
    else if n == 1001
    then some CounterType.processor
    else none

pub record CounterRecord : Type 0 where
  pub header : RecordHeader
  pub record_data : List CounterRecordType

-- `unwrap_or_else`
abbrev pub or_unknown : {R : Type 0} → (Bytes → R) → Bytes → Option R → R
or_unknown keep v none = keep v
or_unknown keep v (some r) = r

module _ (nom : Nom) where
  open nom use {be_u32, take}

  unfoldable pub parse_record_header : Parser RecordHeader
  parse_record_header input = do
    (input, data_format) ← be_u32 input
    (input, length) ← be_u32 input
    some (input, record { data_format = data_format; length = length })

  -- What a flow record of a known type holds, or nothing where its parser fails.
  unfoldable pub flow_record_data : Option FlowType → Bytes → Option FlowRecordType
  flow_record_data (some FlowType.sampled_header) v =
      read_value FlowRecordType.sampled_header (parse_sampled_header nom v)
  flow_record_data (some FlowType.sampled_ethernet) v =
      read_value FlowRecordType.sampled_ethernet (parse_sampled_ethernet nom v)
  flow_record_data (some FlowType.sampled_ipv4) v =
      read_value FlowRecordType.sampled_ipv4 (parse_sampled_ipv4 nom v)
  flow_record_data (some FlowType.sampled_ipv6) v =
      read_value FlowRecordType.sampled_ipv6 (parse_sampled_ipv6 nom v)
  flow_record_data (some FlowType.extended_switch) v =
      read_value FlowRecordType.extended_switch (parse_extended_switch nom v)
  flow_record_data (some FlowType.extended_router) v =
      read_value FlowRecordType.extended_router (parse_extended_router nom v)
  flow_record_data (some FlowType.extended_gateway) v =
      read_value FlowRecordType.extended_gateway (parse_extended_gateway nom v)
  flow_record_data (some FlowType.extended_user) v =
      read_value FlowRecordType.extended_user (parse_extended_user nom v)
  flow_record_data (some FlowType.extended_url) v =
      read_value FlowRecordType.extended_url (parse_extended_url nom v)
  flow_record_data (some FlowType.extended_egress_queue) v =
      read_value FlowRecordType.extended_egress_queue (parse_extended_egress_queue nom v)
  flow_record_data (some FlowType.extended_acl) v =
      read_value FlowRecordType.extended_acl (parse_extended_acl nom v)
  flow_record_data (some FlowType.extended_function) v =
      read_value FlowRecordType.extended_function (parse_extended_function nom v)
  flow_record_data none v = some (FlowRecordType.unknown v)

  unfoldable pub flow_data_of : ℕ → Bytes → FlowRecordType
  flow_data_of format v =
      or_unknown FlowRecordType.unknown v (flow_record_data (flow_type format) v)

  unfoldable pub parse_flow_record : Parser FlowRecord
  parse_flow_record input = do
    (input, header) ← parse_record_header input
    (input, v) ← take header.length input
    some (input, record { header = header; record_data = flow_data_of header.data_format v })

  -- So for the counters.
  unfoldable pub counter_record_data : Option CounterType → Bytes → Option CounterRecordType
  counter_record_data (some CounterType.if_counters) v =
      read_value CounterRecordType.if_counters (parse_if_counters nom v)
  counter_record_data (some CounterType.ethernet_counters) v =
      read_value CounterRecordType.ethernet_counters (parse_ethernet_counters nom v)
  counter_record_data (some CounterType.tokenring_counters) v =
      read_value CounterRecordType.tokenring_counters (parse_tokenring_counters nom v)
  counter_record_data (some CounterType.vg_counters) v =
      read_value CounterRecordType.vg_counters (parse_vg_counters nom v)
  counter_record_data (some CounterType.vlan_counters) v =
      read_value CounterRecordType.vlan_counters (parse_vlan_counters nom v)
  counter_record_data (some CounterType.processor) v =
      read_value CounterRecordType.processor (parse_processor nom v)
  counter_record_data none v = some (CounterRecordType.unknown v)

  unfoldable pub counters_of : ℕ → Bytes → CounterRecordType
  counters_of format v =
      or_unknown CounterRecordType.unknown v (counter_record_data (counter_type format) v)

  unfoldable pub parse_counter_record : Parser CounterRecord
  parse_counter_record input = do
    (input, header) ← parse_record_header input
    (input, v) ← take header.length input
    some (input, record { header = header; record_data = counters_of header.data_format v ∷ [] })
