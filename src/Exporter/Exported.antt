-- ===== src/Exporter/Exported.antt =====
-- Which records exporter.rs sends of what the meter gives it.
use mathlib.Core.List.{Perm, perm_middle, append-nil}
use mathlib.Core.List.Perm
use rustflow.Prelude.{
  ℕ, ◌≡◌, ◌⊎◌, refl, subst, sym, Bool, List, [], ◌∷◌, ◌++◌, map, All, Bool-cases, inl, inr,
}
use rustflow.Wire.Read.{Bytes}
use rustflow.Wire.Write.{BufMut}
use rustflow.FieldParsers.{Chrono}
use rustflow.FlowCache.{IpAddr, Flow}
use rustflow.Meter.{Records, flow_records, packet_records}
use rustflow.Ipfix.Types.{DataRecord}
use rustflow.FlowRecords.{FlowData, to_flow_data}
use rustflow.Exporter.{Message, Exporter}
use rustflow.Exporter.Order.{tagged, all_data}
use rustflow.Exporter.Batches.{IsFilled, send_records-sent}
use rustflow.Exporter.Sends.{
  from_ipv4, partition, flow_to_send, packet_to_send, send_flows, send_packets, send,
}

partition-Perm :
    {A : Type 0} (test : A → Bool) (xs : List A)
    → Perm ((partition test xs).0 ++ (partition test xs).1) xs
unfolding partition
partition-Perm test [] = Perm.refl []
partition-Perm test (x ∷ xs) = elim (Bool-cases (test x)) [
  | inl e ↦ rw e (Perm.cons x (partition-Perm test xs))
  | inr e ↦ rw e (
      Perm.trans (perm_middle (partition test xs).0 (partition test xs).1)
        (Perm.cons x (partition-Perm test xs)))
]

-- The flows of either address family, in their order, by the address alone.
abbrev add_v4 : {A : Type 0} → IpAddr → A → List A → List A
add_v4 (IpAddr.v4 _) x l = x ∷ l
add_v4 (IpAddr.v6 _) x l = l

abbrev add_v6 : {A : Type 0} → IpAddr → A → List A → List A
add_v6 (IpAddr.v4 _) x l = l
add_v6 (IpAddr.v6 _) x l = x ∷ l

abbrev ipv4_only : {D : Type 0} → List (FlowData D) → List (FlowData D)
ipv4_only [] = []
ipv4_only (x ∷ xs) = add_v4 x.source_ip x (ipv4_only xs)

abbrev ipv6_only : {D : Type 0} → List (FlowData D) → List (FlowData D)
ipv6_only [] = []
ipv6_only (x ∷ xs) = add_v6 x.source_ip x (ipv6_only xs)

IpAddr-cases : (a : IpAddr) → ((n : ℕ) × (a ≡ IpAddr.v4 n)) ⊎ ((n : ℕ) × (a ≡ IpAddr.v6 n))
IpAddr-cases (IpAddr.v4 n) = inl (n, refl)
IpAddr-cases (IpAddr.v6 n) = inr (n, refl)

partition-families :
    {D : Type 0} (xs : List (FlowData D)) → partition from_ipv4 xs ≡ (ipv4_only xs, ipv6_only xs)
unfolding partition
partition-families [] = refl
partition-families (x ∷ xs) = elim (IpAddr-cases x.source_ip) [
  | inl (n, e) ↦ rw e (rw (partition-families xs) refl)
  | inr (n, e) ↦ rw e (rw (partition-families xs) refl)
]

module _ (buf : BufMut) (chrono : Chrono) (send_to : List (Message chrono.DateTime) → Bytes → Bool)
    (time : chrono.DateTime) where
  abbrev D : Type 0
  D = chrono.DateTime

  -- The records of flows or of packets, each with its template.
  abbrev pub to_send : Records D → List (ℕ × DataRecord D)
  to_send (flow_records flows) = map (flow_to_send buf chrono send_to time) (map to_flow_data flows)
  to_send (packet_records packets) = map (packet_to_send buf chrono send_to time) packets

  -- Flows of IPv4 come before those of IPv6.
  abbrev pub in_order : Records D → List (ℕ × DataRecord D)
  in_order (flow_records flows) =
      let flow_data = map to_flow_data flows in
      map (flow_to_send buf chrono send_to time) (ipv4_only flow_data ++ ipv6_only flow_data)
  in_order (packet_records packets) = map (packet_to_send buf chrono send_to time) packets

  -- What was tried of `rs`: each of its records once.
  pub record Tried (rs : Records D) (e e' : Exporter D) : Type 0 where
    pub tried : tagged e'.sent ≡ tagged e.sent ++ all_data (in_order rs)
    pub each_once : Perm (in_order rs) (to_send rs)
    pub filled : All (IsFilled buf chrono send_to time) e'.sent

  flows-Tried :
      (flows : List (Flow D)) (e : Exporter D)
      → All (IsFilled buf chrono send_to time) e.sent
      → Tried (flow_records flows) e (send_flows buf chrono send_to time flows e).0
  unfolding send_flows all_data
  flows-Tried [] e h = record {
    tried = sym (append-nil (tagged e.sent));
    each_once = Perm.refl [];
    filled = h;
  }
  flows-Tried (f ∷ fs) e h =
      let flow_data = map to_flow_data (f ∷ fs) in
      let families = partition-families flow_data in
      let sent = send_records-sent buf chrono send_to time (in_order (flow_records (f ∷ fs))) e h in
      rw families (record {
        tried = sent.0;
        each_once = Perm.map (flow_to_send buf chrono send_to time) (
            subst (λ t. Perm (t.0 ++ t.1) flow_data) families (partition-Perm from_ipv4 flow_data));
        filled = sent.1;
      })

  -- What the meter gives is sent once each: the messages that are tried hold, behind what was sent
  -- before, a permutation of its records, each under its own template, with the flows of IPv4 before
  -- those of IPv6 and packets in their order. Every message has records, and is encoded to at most
  -- 1,400 bytes or has a single record. All messages sent before were so.
  pub send-Tried :
      (rs : Records D) (e : Exporter D)
      → All (IsFilled buf chrono send_to time) e.sent
      → Tried rs e (send buf chrono send_to time rs e).0
  unfolding send send_packets
  send-Tried (flow_records flows) e h = flows-Tried flows e h
  send-Tried (packet_records packets) e h =
      let sent =
        send_records-sent buf chrono send_to time (in_order (packet_records packets)) e h in
      record {
        tried = sent.0;
        each_once = Perm.refl (in_order (packet_records packets));
        filled = sent.1;
      }
