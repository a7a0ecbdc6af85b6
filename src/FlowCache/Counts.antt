-- ===== src/FlowCache/Counts.antt =====
-- What the flow cache counts: no packet and no octet is lost between metering and export.
use rustflow.Prelude.{
  ℕ, ◌+◌, ◌≤◌, ◌<◌, ◌≡◌, ◌^◌, refl, ◌∙◌, Option, none, some, length, arith, Bool-cases,
  Option-cases, inl, inr, leb→le, leb_false→lt, if_pos,
}
use rustflow.Prelude.Assoc.{
  Assoc, lookup, insert, weight, weight_of, lookup-retain-none, weight-insert, weight_of-le,
  length-weight, lookup-insert,
}
use rustflow.FlowCache.{
  FlowKey, FlowKey-discrete, Flow, FlowCache, FlowEndReason, Seen, add_u64, ended, update, new_flow,
  insert_new, update_flow, full, and_then, lacks_resources,
}
use rustflow.FlowCache.Eviction.{
  is_none, ended_flows, sum, sum-append, retain-ended-sum, evicted_at, evict-evicted_at,
  eviction_count-bounds, MadeRoom, evicted_at-MadeRoom,
}

module _ {Time : Type 0} where
  -- A count over the flows in the cache and those that wait to be exported.
  unfoldable pub held : (Flow Time → ℕ) → FlowCache Time → ℕ
  held g c = weight g c.flows + sum g c.evicted

  abbrev pub packets : FlowCache Time → ℕ
  packets = held (λ f. f.packet_count)

  abbrev pub octets : FlowCache Time → ℕ
  octets = held (λ f. f.octet_count)

  abbrev or_new : Option (Flow Time) → FlowKey → Seen Time → Flow Time
  or_new none key seen = new_flow key seen
  or_new (some f) key seen = f

  -- `c'` is `c` with one packet more.
  pub record Metered (key : FlowKey) (size flags : ℕ) (seen : Seen Time) (c c' : FlowCache Time)
      : Type 0 where
    pub bounded : length c'.flows ≤ c'.max_flows
    pub one_more : packets c' ≡ packets c + 1
    pub size_more : octets c' ≡ octets c + size
    pub found :
        lookup FlowKey-discrete key c'.flows
        ≡ some (update size flags seen (or_new (lookup FlowKey-discrete key c.flows) key seen))

  held-evicted_at :
      (g : Flow Time → ℕ)
      → ((r : FlowEndReason) (f : Flow Time) → g (ended r f) ≡ g f)
      → (cutoff : ℕ) (c : FlowCache Time) → held g (evicted_at cutoff c) ≡ held g c
  unfolding held evicted_at
  held-evicted_at g e cutoff c = omega (
    arith,
    retain-ended-sum g e (lacks_resources cutoff) c.flows,
    sum-append g c.evicted (ended_flows (lacks_resources cutoff) c.flows),
  )

  module _ (key : FlowKey) (size flags : ℕ) (seen : Seen Time) where
    -- The counts when the flow of the key is put back updated.
    put_counts :
        (c : FlowCache Time) (f : Flow Time)
        → weight_of (λ x. x.packet_count) (lookup FlowKey-discrete key c.flows) ≡ f.packet_count
        → weight_of (λ x. x.octet_count) (lookup FlowKey-discrete key c.flows) ≡ f.octet_count
        → packets c + 1 < 2 ^ 64
        → octets c + size < 2 ^ 64
        → let c' : FlowCache Time = record c {
          flows = insert FlowKey-discrete key (update size flags seen f) c.flows;
        } in
          (packets c' ≡ packets c + 1) × (octets c' ≡ octets c + size)
    unfolding held update add_u64
    put_counts c f p o hp ho =
        let g : Flow Time → ℕ = λ x. x.packet_count in
        let h : Flow Time → ℕ = λ x. x.octet_count in
        let f' = update size flags seen f in
        (
          omega (
            arith,
            weight-insert FlowKey-discrete g key f' c.flows,
            weight_of-le FlowKey-discrete g key c.flows,
          ),
          omega (
            arith,
            weight-insert FlowKey-discrete h key f' c.flows,
            weight_of-le FlowKey-discrete h key c.flows,
          ),
        )

    lookup-insert_self :
        (m : Assoc FlowKey (Flow Time)) (f : Flow Time)
        → lookup FlowKey-discrete key (insert FlowKey-discrete key f m) ≡ some f
    lookup-insert_self m f =
        lookup-insert FlowKey-discrete key key f m ∙ if_pos (FlowKey-discrete key key) refl _ _

    length-insert :
        (m : Assoc FlowKey (Flow Time)) (f : Flow Time)
        → length (insert FlowKey-discrete key f m)
            + weight_of (λ x. 1) (lookup FlowKey-discrete key m)
          ≡ length m + 1
    length-insert m f = omega (
      arith,
      length-weight m,
      length-weight (insert FlowKey-discrete key f m),
      weight-insert FlowKey-discrete (λ x. 1) key f m,
    )

    old_flow :
        (c : FlowCache Time) (f : Flow Time)
        → lookup FlowKey-discrete key c.flows ≡ some f
        → length c.flows ≤ c.max_flows
        → packets c + 1 < 2 ^ 64
        → octets c + size < 2 ^ 64
        → Metered key size flags seen c
            (record c { flows = insert FlowKey-discrete key (update size flags seen f) c.flows })
    unfolding weight_of
    old_flow c f s b hp ho =
        let counts = put_counts c f (rw s refl) (rw s refl) hp ho in
        let one = length-insert c.flows (update size flags seen f) in
        let one' : length (insert FlowKey-discrete key (update size flags seen f) c.flows) + 1
            ≡ length c.flows + 1 =
          rw s at one in
        record {
          bounded = omega arith;
          one_more = counts.0;
          size_more = counts.1;
          found = lookup-insert_self c.flows (update size flags seen f) ∙ rw s refl;
        }

    new_entry :
        (c : FlowCache Time)
        → lookup FlowKey-discrete key c.flows ≡ none
        → length c.flows < c.max_flows
        → packets c + 1 < 2 ^ 64
        → octets c + size < 2 ^ 64
        → Metered key size flags seen c (insert_new key size flags seen c)
    unfolding weight_of insert_new new_flow
    new_entry c n b hp ho =
        let f = new_flow key seen in
        let counts = put_counts c f (rw n refl) (rw n refl) hp ho in
        let one = length-insert c.flows (update size flags seen f) in
        let one' : length (insert FlowKey-discrete key (update size flags seen f) c.flows) + 0
            ≡ length c.flows + 1 =
          rw n at one in
        record {
          bounded = omega arith;
          one_more = counts.0;
          size_more = counts.1;
          found = lookup-insert_self c.flows (update size flags seen f) ∙ rw n refl;
        }

    -- One packet more, whatever room had to be made for it.
    Metered-evicted_at :
        (cutoff : ℕ) (c c' : FlowCache Time)
        → lookup FlowKey-discrete key c.flows ≡ none
        → Metered key size flags seen (evicted_at cutoff c) c'
        → Metered key size flags seen c c'
    unfolding evicted_at
    Metered-evicted_at cutoff c c' n m =
        let absent =
          lookup-retain-none FlowKey-discrete (λ f. is_none (lacks_resources cutoff f)) key c.flows
            n in
        record {
          bounded = m.bounded;
          one_more = omega (
            arith,
            m.one_more,
            held-evicted_at (λ x. x.packet_count) (λ r f. unfold ended in refl) cutoff c,
          );
          size_more = omega (
            arith,
            m.size_more,
            held-evicted_at (λ x. x.octet_count) (λ r f. unfold ended in refl) cutoff c,
          );
          found = m.found ∙ rw (absent, n) refl;
        }

    -- Metering a packet never faults and keeps the cache within its bound. The flows in the cache
    -- and those that wait to be exported count exactly one packet and its octets more, also when
    -- room had to be made, and the flow of the packet's key is found updated, or new. The bound
    -- is at least 1, and the counts stay below 2 ^ 64.
    pub update_flow-Metered :
        (c : FlowCache Time)
        → 0 < c.max_flows
        → length c.flows ≤ c.max_flows
        → packets c + 1 < 2 ^ 64
        → octets c + size < 2 ^ 64
        → (c' : FlowCache Time) × (update_flow key size flags seen c ≡ some c')
          × Metered key size flags seen c c'
    unfolding update_flow
    update_flow-Metered c pos b hp ho = elim (Option-cases (lookup FlowKey-discrete key c.flows)) [
      | inr (f, s) ↦ (
        record c { flows = insert FlowKey-discrete key (update size flags seen f) c.flows },
        rw (s, update_flow) refl,
        old_flow c f s b hp ho,
      )
      | inl n ↦ elim (Bool-cases (full c)) [
        | inr room ↦ (
          insert_new key size flags seen c,
          rw (n, update_flow) (rw room refl),
          new_entry c n (leb_false→lt _ _ room) hp ho,
        )
        | inl filled ↦
            let (cutoff, found, e) =
              evict-evicted_at c
                (omega
                  (arith, eviction_count-bounds c pos, leb→le c.max_flows (length c.flows) filled))
                pos in
            let c1 : FlowCache Time = evicted_at cutoff c in
            let m : MadeRoom c c1 = evicted_at-MadeRoom c cutoff found in
            let absent : lookup FlowKey-discrete key c1.flows ≡ none =
              unfold evicted_at in
              lookup-retain-none FlowKey-discrete (λ f. is_none (lacks_resources cutoff f)) key
                c.flows n in
            let same_p =
              held-evicted_at (λ x. x.packet_count) (λ r f. unfold ended in refl) cutoff c in
            let same_o =
              held-evicted_at (λ x. x.octet_count) (λ r f. unfold ended in refl) cutoff c in
            let same_max : c1.max_flows ≡ c.max_flows = unfold evicted_at in refl in
            (
              insert_new key size flags seen c1,
              rw (n, update_flow) (rw filled (rw (e, and_then) refl)),
              Metered-evicted_at cutoff c _ n (
                  new_entry c1 absent (omega (arith, m.all, m.enough, same_max))
                    (omega (arith, same_p)) (omega (arith, same_o))),
            )
      ]
    ]
