-- ===== src/FlowCache/Export.antt =====
-- What leaves the flow cache: `check_expired_flows` and `export_all`.
use rustflow.Prelude.{
  ℕ, ◌+◌, ◌-◌, ◌≤◌, ◌<◌, ◌≡◌, refl, some, List, [], ◌∷◌, ◌++◌, leb, arith, Bool-cases, inl, inr,
}
use rustflow.Prelude.Assoc.{Assoc, retain}
use rustflow.FlowCache.{
  FlowKey, Flow, FlowCache, FlowEndReason, active_timeout, idle_timeout, ended, timed_out,
  check_expired_flows,
}
use rustflow.FlowCache.Eviction.{
  is_none, ended_flows, retain_ended_lem, sum, sum-append, retain-ended-sum,
}
use rustflow.FlowCache.Counts.{held, packets, octets}

module _ {Time : Type 0} where
  -- `c'` and `out` share out what `c` held: nothing is lost, and nothing is left waiting.
  pub record SharedOut (c c' : FlowCache Time) (out : List (Flow Time)) : Type 0 where
    pub packets_kept : packets c' + sum (λ f. f.packet_count) out ≡ packets c
    pub octets_kept : octets c' + sum (λ f. f.octet_count) out ≡ octets c
    pub none_waiting : c'.evicted ≡ []

  module _ (g : Flow Time → ℕ)
      (keeps : (r : FlowEndReason) (f : Flow Time) → g (ended r f) ≡ g f) where
    expired-sum :
        (now : ℕ) (c : FlowCache Time)
        → held g (check_expired_flows now c).0 + sum g (check_expired_flows now c).1 ≡ held g c
    unfolding check_expired_flows held sum
    expired-sum now c = rw (retain_ended_lem (timed_out now c) c.flows c.evicted) (
        omega (
          arith,
          retain-ended-sum g keeps (timed_out now c) c.flows,
          sum-append g c.evicted (ended_flows (timed_out now c) c.flows),
        ))

  -- No packet and no octet is lost when flows expire: what is returned and what stays count
  -- together what was held.
  pub check_expired_flows-SharedOut :
      (now : ℕ) (c : FlowCache Time)
      → SharedOut c (check_expired_flows now c).0 (check_expired_flows now c).1
  check_expired_flows-SharedOut now c = record {
    packets_kept = expired-sum (λ f. f.packet_count) (λ r f. unfold ended in refl) now c;
    octets_kept = expired-sum (λ f. f.octet_count) (λ r f. unfold ended in refl) now c;
    none_waiting = unfold check_expired_flows in refl;
  }

  -- What the two timeouts say of each flow of a map at an instant, in the order of the map: the map
  -- of those that stay, and the list of those that end, each with its reason.
  pub data Expired (now : ℕ) (c : FlowCache Time)
      : Assoc FlowKey (Flow Time) → Assoc FlowKey (Flow Time) → List (Flow Time) → Type 0 where
    no_more : Expired now c [] [] []
    stays :
        {m m' : Assoc FlowKey (Flow Time)} {out : List (Flow Time)} (k : FlowKey) (f : Flow Time)
        → now - f.first_seen < c.active_timeout
        → now - f.last_seen < c.inactive_timeout
        → Expired now c m m' out
        → Expired now c ((k, f) ∷ m) ((k, f) ∷ m') out
    was_active :
        {m m' : Assoc FlowKey (Flow Time)} {out : List (Flow Time)} (k : FlowKey) (f : Flow Time)
        → c.active_timeout ≤ now - f.first_seen
        → Expired now c m m' out
        → Expired now c ((k, f) ∷ m) m' (record f { flow_end_reason = some active_timeout } ∷ out)
    was_idle :
        {m m' : Assoc FlowKey (Flow Time)} {out : List (Flow Time)} (k : FlowKey) (f : Flow Time)
        → now - f.first_seen < c.active_timeout
        → c.inactive_timeout ≤ now - f.last_seen
        → Expired now c m m' out
        → Expired now c ((k, f) ∷ m) m' (record f { flow_end_reason = some idle_timeout } ∷ out)

  retain_ended-Expired :
      (now : ℕ) (c : FlowCache Time) (m : Assoc FlowKey (Flow Time))
      → Expired now c m
          (retain (λ f. is_none (timed_out now c f)) m)
          (ended_flows (timed_out now c) m)
  unfolding retain ended_flows timed_out ended
  retain_ended-Expired now c [] = no_more
  retain_ended-Expired now c ((k, f) ∷ m) =
      let rest = retain_ended-Expired now c m in
      elim (Bool-cases (leb c.active_timeout (now - f.first_seen))) [
        | inl a ↦ rw (a, retain, ended_flows, timed_out) (was_active k f (ground arith) rest)
        | inr a ↦ elim (Bool-cases (leb c.inactive_timeout (now - f.last_seen))) [
          | inl b ↦
              rw (a, b, retain, ended_flows, timed_out)
                (was_idle k f (ground arith) (ground arith) rest)
          | inr b ↦
              rw (a, b, retain, ended_flows, timed_out)
                (stays k f (ground arith) (ground arith) rest)
        ]
      ]

  -- The flows returned are those that waited, and behind them, in the order of the map, every flow
  -- whose age reached the active timeout, with that reason, and every other one that was idle for
  -- the inactive timeout, with that one. The flows that stay are all others, unchanged, and nothing
  -- is left waiting.
  pub check_expired_flows_lem :
      (now : ℕ) (c : FlowCache Time)
      → (out : List (Flow Time)) × ((check_expired_flows now c).1 ≡ c.evicted ++ out)
        × Expired now c c.flows (check_expired_flows now c).0.flows out
        × ((check_expired_flows now c).0.evicted ≡ [])
  unfolding check_expired_flows
  check_expired_flows_lem now c = (
    ended_flows (timed_out now c) c.flows,
    rw (retain_ended_lem (timed_out now c) c.flows c.evicted) refl,
    rw (retain_ended_lem (timed_out now c) c.flows c.evicted) (retain_ended-Expired now c c.flows),
    refl,
  )
