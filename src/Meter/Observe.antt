-- ===== src/Meter/Observe.antt =====
-- What metering one frame does: meter.rs over the sampler and the flow cache.
use rustflow.Prelude.{
  ℕ, ◌+◌, ◌≤◌, ◌<◌, ◌^◌, ◌≡◌, refl, ap, ◌∙◌, ◌∙◌, Bool, true, false, Option, none, some,
  if◌then◌else◌, length, arith, Bool-cases, Option-cases, inl, inr,
}
use rustflow.Sampler.{select}
use rustflow.FlowCache.{Seen, FlowCache}
use rustflow.FlowCache.Counts.{
  Metered, packets as packets_in, octets as octets_in, update_flow-Metered,
}
use rustflow.PacketInfo.{Etherparse, PacketInfo, parse}
use rustflow.Meter.{Meter, Frame, flows, is_export, observe}

-- The size of a packet.
abbrev pub size_of : Option PacketInfo → ℕ
size_of none = 0
size_of (some p) = p.packet_size

module _ {Time : Type 0} where
  -- The packet that is metered of a frame, if the frame was selected: no datagram of the exporter.
  abbrev pub kept : Bool → Option PacketInfo → Meter Time → Option PacketInfo
  kept false p m = none
  kept true none m = none
  kept true (some p) m = if is_export p m then none else some p

  -- A cache without a packet, or with one packet more.
  abbrev pub Observed : Option PacketInfo → Seen Time → FlowCache Time → FlowCache Time → Type 0
  Observed none seen c c' = c' ≡ c
  Observed (some p) seen c c' = Metered p.flow_key p.packet_size p.tcp_flags seen c c'

  -- The meter `m` with a flow cache as its output.
  abbrev pub meter_of : Meter Time → FlowCache Time → Meter Time
  meter_of m c = record m { output = flows c }

  abbrev pub with_sampler : Meter Time → Meter Time
  with_sampler m = record m { sampler = (select m.sampler).0 }

  is_export-same :
      (p : PacketInfo) (m : Meter Time) (c : FlowCache Time)
      → is_export p (meter_of (with_sampler m) c) ≡ is_export p m
  unfolding is_export
  is_export-same p m c = refl

  -- In flow mode a frame never faults. It moves the sampler on by one packet; and the cache is left
  -- as it was, unless the sampler selects the frame, it has a packet, and that is not one of the
  -- exporter's own datagrams: then the cache has exactly this packet more, its octets included,
  -- within its bound. The cache is within its bound of at least 1, and the counts stay below 2 ^ 64.
  pub observe-Observed :
      (lib : Etherparse) (now : ℕ) (frame : Frame Time) (m : Meter Time) (c : FlowCache Time)
      → 0 < c.max_flows
      → length c.flows ≤ c.max_flows
      → packets_in c + 1 < 2 ^ 64
      → octets_in c + size_of (parse lib m.link frame.bytes) < 2 ^ 64
      → (c' : FlowCache Time) × (observe lib now frame (meter_of m c)
          ≡ some (meter_of (with_sampler m) c'))
        × Observed
            (kept (select m.sampler).1 (parse lib m.link frame.bytes) m)
            (record { time = frame.time; instant = now })
            c
            c'
  unfolding observe
  observe-Observed lib now frame m c pos bound few small = elim (Bool-cases (select m.sampler).1) [
    | inl e ↦ elim (Option-cases (parse lib m.link frame.bytes)) [
      | inl n ↦ (c, rw (e, n) refl, rw (e, n) refl)
      | inr (p, s) ↦ elim (Bool-cases (is_export p m)) [
        | inl x ↦ (c, rw (e, s, is_export-same p m c ∙ x) refl, rw (e, s, x) refl)
        | inr x ↦
            let fits : octets_in c + p.packet_size < 2 ^ 64 = omega (arith, small, ap size_of s) in
            let (c', met, metered) =
              update_flow-Metered p.flow_key p.packet_size p.tcp_flags
                (record { time = frame.time; instant = now }) c pos bound few fits in
            (c', rw (e, s, is_export-same p m c ∙ x, met) refl, rw (e, s, x) metered)
      ]
    ]
    | inr e ↦ (c, rw e refl, rw e refl)
  ]
