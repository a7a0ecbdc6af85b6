-- ===== src/FlowCache.antt =====
-- crates/rustflow_export/src/flow/mod.rs: the flows that the exporter meters. An `Instant` is a
-- number of nanoseconds on the monotonic clock. `Time` is chrono's `DateTime<Utc>`, which is
-- stored and never computed with. The capacity of the table, which `check_expired_flows` shrinks,
-- is not seen by any caller and is left out.
pub mod Select
pub mod Eviction
pub mod Counts
pub mod Export
mod Tests
use Prim.Native.Nat.{bit_or}
use rustflow.Prelude.{
  ℕ, zero, suc, ◌+◌, ◌-◌, ◌*◌, ◌/◌, ◌%◌, ◌^◌, ◌≤◌, ◌<◌, ◌≡◌, refl, Bool, true, false, not, Option,
  none, some, List, [], ◌∷◌, ◌++◌, ltb, leb, if◌then◌else◌, length, max, ℕ_discrete,
}
use rustflow.Prelude.Assoc.{Assoc, lookup, insert, is_empty}
use Select.{nth_smallest}

pub data IpAddr : Type 0 where
  v4 : ℕ → IpAddr
  v6 : ℕ → IpAddr

pub data FlowEndReason : Type 0 where
  idle_timeout active_timeout forced_end lack_of_resources : FlowEndReason

pub record FlowKey : Type 0 where
  pub source_ip : IpAddr
  pub destination_ip : IpAddr
  pub protocol : ℕ
  pub source_port : ℕ
  pub destination_port : ℕ

unfoldable pub FlowKey-discrete : Discrete FlowKey
FlowKey-discrete = hlevel ℕ_discrete

pub record Seen (Time : Type 0) : Type 0 where
  pub time : Time
  pub instant : ℕ

pub record Flow (Time : Type 0) : Type 0 where
  pub key : FlowKey
  pub octet_count : ℕ
  pub packet_count : ℕ
  pub tcp_flags : ℕ
  pub flow_start : Time
  pub flow_end : Time
  pub first_seen : ℕ
  pub last_seen : ℕ
  pub flow_end_reason : Option FlowEndReason

pub record FlowCache (Time : Type 0) : Type 0 where
  pub flows : Assoc FlowKey (Flow Time)
  pub active_timeout : ℕ
  pub inactive_timeout : ℕ
  pub max_flows : ℕ
  pub evicted : List (Flow Time)

-- u64 addition, which wraps in a release build.
unfoldable pub add_u64 : ℕ → ℕ → ℕ
add_u64 a b = (a + b) % 2 ^ 64

abbrev pub eviction_fraction : ℕ
eviction_fraction = 8

-- `Duration::from_secs`, in nanoseconds.
abbrev pub from_secs : ℕ → ℕ
from_secs s = s * 1_000_000_000

module _ {Time : Type 0} where
  unfoldable pub new_flow : FlowKey → Seen Time → Flow Time
  new_flow key seen = record {
    key = key;
    octet_count = 0;
    packet_count = 0;
    tcp_flags = 0;
    flow_start = seen.time;
    flow_end = seen.time;
    first_seen = seen.instant;
    last_seen = seen.instant;
    flow_end_reason = none;
  }

  unfoldable pub ended : FlowEndReason → Flow Time → Flow Time
  ended reason f = record f { flow_end_reason = some reason }

  unfoldable pub update : ℕ → ℕ → Seen Time → Flow Time → Flow Time
  update packet_size tcp_flags seen f = record f {
    octet_count = add_u64 f.octet_count packet_size;
    packet_count = add_u64 f.packet_count 1;
    tcp_flags = bit_or f.tcp_flags tcp_flags;
    flow_end = seen.time;
    last_seen = seen.instant;
  }

  unfoldable pub new : ℕ → ℕ → ℕ → FlowCache Time
  new active inactive most = record {
    flows = [];
    active_timeout = from_secs active;
    inactive_timeout = from_secs inactive;
    max_flows = most;
    evicted = [];
  }

  -- `retain` with a closure that pushes each flow it drops, ended for a reason, onto a list.
  unfoldable pub retain_ended :
      (Flow Time → Option FlowEndReason)
      → Assoc FlowKey (Flow Time)
      → List (Flow Time)
      → Assoc FlowKey (Flow Time) × List (Flow Time)
  retain_ended due [] out = ([], out)
  retain_ended due ((k, f) ∷ m) out = elim (due f) [
    | none ↦ let (kept, out') = retain_ended due m out in ((k, f) ∷ kept, out')
    | some reason ↦ retain_ended due m (out ++ (ended reason f ∷ []))
  ]

  unfoldable pub last_seens : Assoc FlowKey (Flow Time) → List ℕ
  last_seens [] = []
  last_seens ((_, f) ∷ m) = f.last_seen ∷ last_seens m

  unfoldable pub lacks_resources : ℕ → Flow Time → Option FlowEndReason
  lacks_resources cutoff f = if ltb cutoff f.last_seen then none else some lack_of_resources

  unfoldable pub eviction_count : FlowCache Time → ℕ
  eviction_count c = max (c.max_flows / eviction_fraction) 1

  -- `none` is the panic of `select_nth_unstable` at a position out of bounds.
  unfoldable pub evict_idle_longest : FlowCache Time → Option (FlowCache Time)
  evict_idle_longest c = elim (nth_smallest (eviction_count c - 1) (last_seens c.flows)) [
    | none ↦ none
    | some cutoff ↦
        let (kept, out) = retain_ended (lacks_resources cutoff) c.flows c.evicted in
        some (record c { flows = kept; evicted = out })
  ]

  unfoldable pub insert_new : FlowKey → ℕ → ℕ → Seen Time → FlowCache Time → FlowCache Time
  insert_new key packet_size tcp_flags seen c =
      let flow = update packet_size tcp_flags seen (new_flow key seen) in
      record c { flows = insert FlowKey-discrete key flow c.flows }

  abbrev pub and_then :
      Option (FlowCache Time) → (FlowCache Time → FlowCache Time) → Option (FlowCache Time)
  and_then none f = none
  and_then (some c) f = some (f c)

  abbrev full : FlowCache Time → Bool
  full c = leb c.max_flows (length c.flows)

  unfoldable pub update_flow :
      FlowKey → ℕ → ℕ → Seen Time → FlowCache Time → Option (FlowCache Time)
  update_flow key packet_size tcp_flags seen c = elim (lookup FlowKey-discrete key c.flows) [
    | some flow ↦ some (record c {
      flows = insert FlowKey-discrete key (update packet_size tcp_flags seen flow) c.flows;
    })
    | none ↦
        and_then (if full c then evict_idle_longest c else some c)
          (insert_new key packet_size tcp_flags seen)
  ]

  unfoldable pub has_evicted : FlowCache Time → Bool
  has_evicted c = elim c.evicted [ [] ↦ false | _ ↦ true ]

  unfoldable pub timed_out : ℕ → FlowCache Time → Flow Time → Option FlowEndReason
  timed_out now c f =
      let age = now - f.first_seen in
      let idle_time = now - f.last_seen in
      if leb c.active_timeout age
      then some active_timeout
      else if leb c.inactive_timeout idle_time
      then some idle_timeout
      else none

  unfoldable pub check_expired_flows : ℕ → FlowCache Time → FlowCache Time × List (Flow Time)
  check_expired_flows now c =
      let (kept, expired) = retain_ended (timed_out now c) c.flows c.evicted in
      (record c { flows = kept; evicted = [] }, expired)

  -- `drain` in the order of the map.
  unfoldable pub drained : Assoc FlowKey (Flow Time) → List (Flow Time)
  drained [] = []
  drained ((_, f) ∷ m) = ended forced_end f ∷ drained m

  unfoldable pub export_all : FlowCache Time → FlowCache Time × List (Flow Time)
  export_all c = (record c { flows = []; evicted = [] }, c.evicted ++ drained c.flows)

  unfoldable pub len : FlowCache Time → ℕ
  len c = length c.flows
