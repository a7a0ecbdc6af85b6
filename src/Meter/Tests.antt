-- ===== src/Meter/Tests.antt =====
-- Runs of the meter, and an input at which the theorem applies.
use rustflow.Prelude.{ℕ, ◌≡◌, refl, Option, none, some, List, [], ◌∷◌, arith, ℕ_discrete}
use rustflow.Prelude.Assoc.{lookup, insert, weight}
use rustflow.Sampler
use rustflow.Sampler.{Sampling, select}
use rustflow.FlowCache
use rustflow.FlowCache.{
  IpAddr, Seen, Flow, FlowCache, FlowKey-discrete, update_flow, insert_new, update, new_flow,
  add_u64, export_all, drained, ended,
}
use rustflow.FlowCache.Eviction.{sum}
use rustflow.FlowCache.Counts.{held}
use rustflow.PacketInfo.{Link, Etherparse, Net, Transport, parse, packet_info}
use rustflow.Meter.{
  ExportArgs, Mode, Meter, Frame, flow_records, packet_records, new, observe, take_all, is_export,
  IpAddr-discrete,
}
use rustflow.Meter.Observe.{Observed, kept, meter_of, with_sampler, observe-Observed}

program : Unit {0}
unfolding lookup insert weight held sum Sampler.new select FlowCache.new FlowKey-discrete ℕ_discrete
    update_flow insert_new update new_flow add_u64 export_all drained ended parse packet_info new
    observe take_all is_export IpAddr-discrete
program = tt

-- Every frame is a datagram of 28 bytes from 10.0.0.1, port 1111, to 10.0.0.2, port 2222.
abbrev lib : Etherparse
lib = record {
  from_ethernet = λ b. some (record {
    net = some (Net.ipv4 167772161 167772162 17 28);
    transport = some (Transport.udp 1111 2222);
  });
  from_ip = λ b. none;
}

abbrev args : ExportArgs
args = record {
  mode = Mode.flow;
  active_timeout = 60;
  inactive_timeout = 15;
  max_flows = 8;
  clip_length = 128;
  sampling = Sampling.count 2;
}

abbrev frame : Frame ℕ
frame = record { bytes = 1 ∷ []; length = 60; time = 5 }

abbrev cache : FlowCache ℕ
cache = FlowCache.new 60 15 8

-- A meter whose exporter sends from the local port to port 9 of 10.0.0.2.
abbrev meter : ℕ → Meter ℕ
meter local_port = new args Link.ethernet local_port (IpAddr.v4 167772162) 2222

abbrev after_three : Option (Meter ℕ) → Option (Meter ℕ)
after_three none = none
after_three (some m) = observe lib 1 frame m

abbrev counts : List (Flow ℕ) → List (ℕ × ℕ)
counts [] = []
counts (f ∷ fs) = (f.packet_count, f.octet_count) ∷ counts fs

abbrev flows_of : Option (Meter ℕ) → List (ℕ × ℕ)
flows_of none = []
flows_of (some m) = elim (take_all m).1 [ flow_records fs ↦ counts fs | packet_records ps ↦ [] ]

-- Of three frames, one in two is metered; and none of the exporter's own.
three_frames :
    (flows_of (after_three (after_three (observe lib 1 frame (meter 9)))) ≡ (2, 56) ∷ [])
    × (flows_of (after_three (after_three (observe lib 1 frame (meter 1111)))) ≡ [])
unfolding program
three_frames = (refl, refl)

observe-Observed_example :
    (c' : FlowCache ℕ) × (observe lib 1 frame (meter_of (meter 9) cache)
      ≡ some (meter_of (with_sampler (meter 9)) c'))
    × Observed
        (kept (select (meter 9).sampler).1 (parse lib (meter 9).link (1 ∷ [])) (meter 9))
        (record { time = 5; instant = 1 })
        cache
        c'
unfolding program
observe-Observed_example =
    observe-Observed lib 1 frame (meter 9) cache (omega arith) (omega arith) (omega arith)
      (omega arith)
