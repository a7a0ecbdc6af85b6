-- ===== src/SflowV5/RecordBytes.antt =====
-- The layout of the records of an sFlow sample, which the parser reads back.
use rustflow.Prelude.{ℕ, ◌≡◌, refl, sym, ap, ◌∙◌, some, none, List, [], ◌∷◌, ◌++◌, length}
use rustflow.FieldParsers.Utf8.{Text}
use rustflow.SflowV5.FlowTypes.{ExtendedUrl}
use rustflow.Wire.Read.{Bytes}
use rustflow.Wire.Nom.{Nom}
use rustflow.Wire.Layout.{word, IsU32, take-slice}
use rustflow.Wire.RoundTrip.{reads}
use rustflow.SflowV5.CounterBytes
use rustflow.SflowV5.FlowBytes
use rustflow.SflowV5.Records.{
  FlowRecordType, flow_type, FlowRecord, CounterRecordType, counter_type, CounterRecord,
  parse_record_header, flow_record_data, flow_data_of, parse_flow_record, counter_record_data,
  counters_of, parse_counter_record,
}

-- The bytes of what a record holds.
unfoldable pub counters_bytes : CounterRecordType → Bytes
counters_bytes (CounterRecordType.if_counters v) = CounterBytes.if_counters_bytes v []
counters_bytes (CounterRecordType.ethernet_counters v) = CounterBytes.ethernet_counters_bytes v []
counters_bytes (CounterRecordType.tokenring_counters v) = CounterBytes.tokenring_counters_bytes v []
counters_bytes (CounterRecordType.vg_counters v) = CounterBytes.vg_counters_bytes v []
counters_bytes (CounterRecordType.vlan_counters v) = CounterBytes.vlan_counters_bytes v []
counters_bytes (CounterRecordType.processor v) = CounterBytes.processor_bytes v []
counters_bytes (CounterRecordType.unknown v) = v

-- A format and what a record of it holds, whose fields fit their types. A format that is not known goes
-- with any bytes.
abbrev pub FitsCounters : ℕ → CounterRecordType → Type 0
FitsCounters format (CounterRecordType.if_counters v) = (format ≡ 1) × CounterBytes.FitsIfCounters v
FitsCounters format (CounterRecordType.ethernet_counters v) =
    (format ≡ 2) × CounterBytes.FitsEthernetCounters v
FitsCounters format (CounterRecordType.tokenring_counters v) =
    (format ≡ 3) × CounterBytes.FitsTokenringCounters v
FitsCounters format (CounterRecordType.vg_counters v) = (format ≡ 4) × CounterBytes.FitsVgCounters v
FitsCounters format (CounterRecordType.vlan_counters v) =
    (format ≡ 5) × CounterBytes.FitsVlanCounters v
FitsCounters format (CounterRecordType.processor v) = (format ≡ 1001) × CounterBytes.FitsProcessor v
FitsCounters format (CounterRecordType.unknown v) = counter_type format ≡ none

pub counters_of-bytes :
    (nom : Nom) (format : ℕ) (d : CounterRecordType)
    → FitsCounters format d
    → counters_of nom format (counters_bytes d) ≡ d
unfolding counters_of counters_bytes counter_record_data counter_type
counters_of-bytes nom format (CounterRecordType.if_counters v) h =
    rw (h.0, CounterBytes.parse_if_counters-bytes nom v [] h.1) refl
counters_of-bytes nom format (CounterRecordType.ethernet_counters v) h =
    rw (h.0, CounterBytes.parse_ethernet_counters-bytes nom v [] h.1) refl
counters_of-bytes nom format (CounterRecordType.tokenring_counters v) h =
    rw (h.0, CounterBytes.parse_tokenring_counters-bytes nom v [] h.1) refl
counters_of-bytes nom format (CounterRecordType.vg_counters v) h =
    rw (h.0, CounterBytes.parse_vg_counters-bytes nom v [] h.1) refl
counters_of-bytes nom format (CounterRecordType.vlan_counters v) h =
    rw (h.0, CounterBytes.parse_vlan_counters-bytes nom v [] h.1) refl
counters_of-bytes nom format (CounterRecordType.processor v) h =
    rw (h.0, CounterBytes.parse_processor-bytes nom v [] h.1) refl
counters_of-bytes nom format (CounterRecordType.unknown v) h = rw h refl

-- A record of counters holds one kind of them.
abbrev pub held : List CounterRecordType → CounterRecordType
held [] = CounterRecordType.unknown []
held (c ∷ _) = c

unfoldable pub counter_record_bytes : CounterRecord → Bytes → Bytes
counter_record_bytes r rest =
    word r.header.data_format (word r.header.length (counters_bytes (held r.record_data) ++ rest))

-- A record whose length is that of what it holds.
pub record FitsCounterRecord (r : CounterRecord) : Type 0 where
  pub data_format : IsU32 r.header.data_format
  pub size : IsU32 r.header.length
  pub exact : length (counters_bytes (held r.record_data)) ≡ r.header.length
  pub content : FitsCounters r.header.data_format (held r.record_data)
  pub single : r.record_data ≡ held r.record_data ∷ []

abbrev as_single : CounterRecord → CounterRecord
as_single r = record { header = r.header; record_data = held r.record_data ∷ [] }

single_record : (r : CounterRecord) → r.record_data ≡ held r.record_data ∷ [] → as_single r ≡ r
single_record r h = ap (λ l. record { header = r.header; record_data = l }) (sym h)

pub parse_counter_record-bytes :
    (nom : Nom) (r : CounterRecord) (rest : Bytes)
    → FitsCounterRecord r
    → parse_counter_record nom (counter_record_bytes r rest) ≡ some (rest, r)
unfolding parse_counter_record counter_record_bytes parse_record_header
parse_counter_record-bytes nom r rest h =
    let read : parse_counter_record nom (counter_record_bytes r rest) ≡ some (rest, as_single r) =
      simp (
        reads,
        h.data_format,
        h.size,
        take-slice nom r.header.length (counters_bytes (held r.record_data)) rest h.exact,
        counters_of-bytes nom r.header.data_format (held r.record_data) h.content,
      ) in
    read ∙ ap (λ q. some (rest, q)) (single_record r h.single)

-- For the host that stands behind each URL.
module _ (host : ExtendedUrl → Text) where
  -- The bytes of what a record holds.
  unfoldable pub flow_data_bytes : FlowRecordType → Bytes
  flow_data_bytes (FlowRecordType.sampled_header v) = FlowBytes.sampled_header_bytes v []
  flow_data_bytes (FlowRecordType.sampled_ethernet v) = FlowBytes.sampled_ethernet_bytes v []
  flow_data_bytes (FlowRecordType.sampled_ipv4 v) = FlowBytes.sampled_ipv4_bytes v []
  flow_data_bytes (FlowRecordType.sampled_ipv6 v) = FlowBytes.sampled_ipv6_bytes v []
  flow_data_bytes (FlowRecordType.extended_switch v) = FlowBytes.extended_switch_bytes v []
  flow_data_bytes (FlowRecordType.extended_router v) = FlowBytes.extended_router_bytes v []
  flow_data_bytes (FlowRecordType.extended_gateway v) = FlowBytes.extended_gateway_bytes v []
  flow_data_bytes (FlowRecordType.extended_user v) = FlowBytes.extended_user_bytes v []
  flow_data_bytes (FlowRecordType.extended_url v) = FlowBytes.extended_url_bytes (host v) v []
  flow_data_bytes (FlowRecordType.extended_egress_queue v) =
      FlowBytes.extended_egress_queue_bytes v []
  flow_data_bytes (FlowRecordType.extended_acl v) = FlowBytes.extended_acl_bytes v []
  flow_data_bytes (FlowRecordType.extended_function v) = FlowBytes.extended_function_bytes v []
  flow_data_bytes (FlowRecordType.unknown v) = v

  -- A format and what a record of it holds, whose fields fit their types. A format that is not known goes
  -- with any bytes.
  abbrev pub FitsFlowData : ℕ → FlowRecordType → Type 0
  FitsFlowData format (FlowRecordType.sampled_header v) =
      (format ≡ 1) × FlowBytes.FitsSampledHeader v
  FitsFlowData format (FlowRecordType.sampled_ethernet v) =
      (format ≡ 2) × FlowBytes.FitsSampledEthernet v
  FitsFlowData format (FlowRecordType.sampled_ipv4 v) = (format ≡ 3) × FlowBytes.FitsSampledIpv4 v
  FitsFlowData format (FlowRecordType.sampled_ipv6 v) = (format ≡ 4) × FlowBytes.FitsSampledIpv6 v
  FitsFlowData format (FlowRecordType.extended_switch v) =
      (format ≡ 1001) × FlowBytes.FitsExtendedSwitch v
  FitsFlowData format (FlowRecordType.extended_router v) =
      (format ≡ 1002) × FlowBytes.FitsExtendedRouter v
  FitsFlowData format (FlowRecordType.extended_gateway v) =
      (format ≡ 1003) × FlowBytes.FitsExtendedGateway v
  FitsFlowData format (FlowRecordType.extended_user v) =
      (format ≡ 1004) × FlowBytes.FitsExtendedUser v
  FitsFlowData format (FlowRecordType.extended_url v) =
      (format ≡ 1005) × FlowBytes.FitsExtendedUrl v
  FitsFlowData format (FlowRecordType.extended_egress_queue v) =
      (format ≡ 1036) × FlowBytes.FitsExtendedEgressQueue v
  FitsFlowData format (FlowRecordType.extended_acl v) =
      (format ≡ 1037) × FlowBytes.FitsExtendedAcl v
  FitsFlowData format (FlowRecordType.extended_function v) =
      (format ≡ 1038) × FlowBytes.FitsExtendedFunction v
  FitsFlowData format (FlowRecordType.unknown v) = flow_type format ≡ none

  pub flow_data_of-bytes :
      (nom : Nom) (format : ℕ) (d : FlowRecordType)
      → FitsFlowData format d
      → flow_data_of nom format (flow_data_bytes d) ≡ d
  unfolding flow_data_of flow_data_bytes flow_record_data flow_type
  flow_data_of-bytes nom format (FlowRecordType.sampled_header v) h =
      rw (h.0, FlowBytes.parse_sampled_header-bytes nom v [] h.1) refl
  flow_data_of-bytes nom format (FlowRecordType.sampled_ethernet v) h =
      rw (h.0, FlowBytes.parse_sampled_ethernet-bytes nom v [] h.1) refl
  flow_data_of-bytes nom format (FlowRecordType.sampled_ipv4 v) h =
      rw (h.0, FlowBytes.parse_sampled_ipv4-bytes nom v [] h.1) refl
  flow_data_of-bytes nom format (FlowRecordType.sampled_ipv6 v) h =
      rw (h.0, FlowBytes.parse_sampled_ipv6-bytes nom v [] h.1) refl
  flow_data_of-bytes nom format (FlowRecordType.extended_switch v) h =
      rw (h.0, FlowBytes.parse_extended_switch-bytes nom v [] h.1) refl
  flow_data_of-bytes nom format (FlowRecordType.extended_router v) h =
      rw (h.0, FlowBytes.parse_extended_router-bytes nom v [] h.1) refl
  flow_data_of-bytes nom format (FlowRecordType.extended_gateway v) h =
      rw (h.0, FlowBytes.parse_extended_gateway-bytes nom v [] h.1) refl
  flow_data_of-bytes nom format (FlowRecordType.extended_user v) h =
      rw (h.0, FlowBytes.parse_extended_user-bytes nom v [] h.1) refl
  flow_data_of-bytes nom format (FlowRecordType.extended_url v) h =
      rw (h.0, FlowBytes.parse_extended_url-bytes nom (host v) v [] h.1) refl
  flow_data_of-bytes nom format (FlowRecordType.extended_egress_queue v) h =
      rw (h.0, FlowBytes.parse_extended_egress_queue-bytes nom v [] h.1) refl
  flow_data_of-bytes nom format (FlowRecordType.extended_acl v) h =
      rw (h.0, FlowBytes.parse_extended_acl-bytes nom v [] h.1) refl
  flow_data_of-bytes nom format (FlowRecordType.extended_function v) h =
      rw (h.0, FlowBytes.parse_extended_function-bytes nom v [] h.1) refl
  flow_data_of-bytes nom format (FlowRecordType.unknown v) h = rw h refl

  unfoldable pub flow_record_bytes : FlowRecord → Bytes → Bytes
  flow_record_bytes r rest =
      word r.header.data_format (word r.header.length (flow_data_bytes r.record_data ++ rest))

  -- A record whose length is that of what it holds.
  pub record FitsFlowRecord (r : FlowRecord) : Type 0 where
    pub data_format : IsU32 r.header.data_format
    pub size : IsU32 r.header.length
    pub exact : length (flow_data_bytes r.record_data) ≡ r.header.length
    pub content : FitsFlowData r.header.data_format r.record_data

  pub parse_flow_record-bytes :
      (nom : Nom) (r : FlowRecord) (rest : Bytes)
      → FitsFlowRecord r
      → parse_flow_record nom (flow_record_bytes r rest) ≡ some (rest, r)
  unfolding parse_flow_record flow_record_bytes parse_record_header
  parse_flow_record-bytes nom r rest h = simp (
    reads,
    h.data_format,
    h.size,
    take-slice nom r.header.length (flow_data_bytes r.record_data) rest h.exact,
    flow_data_of-bytes nom r.header.data_format r.record_data h.content,
  )
