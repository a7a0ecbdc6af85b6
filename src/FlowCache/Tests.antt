-- ===== src/FlowCache/Tests.antt =====
-- The flow cache at concrete inputs.
use rustflow.Prelude.{ℕ, ◌+◌, ◌≡◌, refl, none, some, List, [], ◌∷◌, ◌++◌, arith}
use rustflow.Prelude.Assoc.{lookup, insert, retain, weight}
use rustflow.FlowCache.{
  v4, FlowKey, Flow, FlowCache, Seen, add_u64, new_flow, ended, update, retain_ended, last_seens,
  lacks_resources, eviction_count, evict_idle_longest, insert_new, update_flow, has_evicted,
  timed_out, check_expired_flows, drained, export_all, new, len, lack_of_resources, active_timeout,
  idle_timeout, from_secs,
}
use rustflow.FlowCache.Select.{nth_smallest, sort, insert_sorted}
use rustflow.FlowCache.Eviction.{sum}
use rustflow.FlowCache.Counts.{Metered, update_flow-Metered, held}
use rustflow.FlowCache.Export.{
  SharedOut, Expired, check_expired_flows-SharedOut, check_expired_flows_lem,
}

program : Unit {0}
unfolding lookup insert retain weight add_u64 new_flow ended update retain_ended last_seens
    lacks_resources eviction_count evict_idle_longest insert_new update_flow has_evicted timed_out
    check_expired_flows drained export_all new len nth_smallest sort insert_sorted sum held
program = tt

abbrev key_of : ℕ → FlowKey
key_of port = record {
  source_ip = v4 0x0a000001;
  destination_ip = v4 0x0a000002;
  protocol = 6;
  source_port = port;
  destination_port = 80;
}

abbrev at : ℕ → Seen ℕ
at t = record { time = 1000 + t; instant = t }

abbrev one_packet : ℕ → ℕ → Flow ℕ
one_packet port t = record {
  key = key_of port;
  octet_count = 100;
  packet_count = 1;
  tcp_flags = 2;
  flow_start = 1000 + t;
  flow_end = 1000 + t;
  first_seen = t;
  last_seen = t;
  flow_end_reason = none;
}

abbrev two_flows : FlowCache ℕ
two_flows = record {
  flows = (key_of 1, one_packet 1 5) ∷ (key_of 2, one_packet 2 9) ∷ [];
  active_timeout = from_secs 60;
  inactive_timeout = from_secs 15;
  max_flows = 2;
  evicted = [];
}

new_lem : new {Time = ℕ} 60 15 2 ≡ record two_flows { flows = [] }
unfolding program
new_lem = refl

-- A full cache ends the flow idle longest.
evict_one :
    evict_idle_longest two_flows
    ≡ some (record two_flows {
      flows = (key_of 2, one_packet 2 9) ∷ [];
      evicted = record (one_packet 1 5) { flow_end_reason = some lack_of_resources } ∷ [];
    })
unfolding program
evict_one = refl

idle_after_15_seconds :
    (check_expired_flows (from_secs 15 + 5) two_flows).1
    ≡ record (one_packet 1 5) { flow_end_reason = some idle_timeout } ∷ []
unfolding program
idle_after_15_seconds = refl

update_flow-Metered_example :
    (c' : FlowCache ℕ) × (update_flow (key_of 3) 40 16 (at 12) two_flows ≡ some c')
    × Metered (key_of 3) 40 16 (at 12) two_flows c'
update_flow-Metered_example =
    update_flow-Metered (key_of 3) 40 16 (at 12) two_flows (omega arith) (omega arith)
      (unfold program in omega arith) (unfold program in omega arith)

-- After 61 seconds the first flow is active for too long, though it is still in use, the second is
-- idle for too long, and the third stays.
abbrev after : ℕ
after = from_secs 61

abbrev three_flows : FlowCache ℕ
three_flows = record two_flows {
  flows =
      (key_of 1, record (one_packet 1 5) { last_seen = from_secs 60 })
      ∷ (key_of 2, one_packet 2 (from_secs 30))
      ∷ (key_of 3, one_packet 3 (from_secs 50))
      ∷ [];
}

two_expired :
    (check_expired_flows after three_flows).1
    ≡ record (one_packet 1 5) { last_seen = from_secs 60; flow_end_reason = some active_timeout }
      ∷ record (one_packet 2 (from_secs 30)) { flow_end_reason = some idle_timeout }
      ∷ []
unfolding program
two_expired = refl

check_expired_flows-SharedOut_example :
    SharedOut three_flows
      (check_expired_flows after three_flows).0
      (check_expired_flows after three_flows).1
check_expired_flows-SharedOut_example = check_expired_flows-SharedOut after three_flows

check_expired_flows_lem_example :
    (out : List (Flow ℕ)) × ((check_expired_flows after three_flows).1 ≡ [] ++ out)
    × Expired after three_flows three_flows.flows
        (check_expired_flows after three_flows).0.flows
        out
    × ((check_expired_flows after three_flows).0.evicted ≡ [])
check_expired_flows_lem_example = check_expired_flows_lem after three_flows
