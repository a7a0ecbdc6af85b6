-- ===== src/Meter.antt =====
-- crates/rustflow_export/src/meter.rs: frames are sampled, parsed and metered into flows, or their
-- starts are kept. `none` is the panic of the flow cache. The arguments of `new` are those of the
-- command line that it reads; the capacity of the pending packets is left out.
pub mod Observe
mod Tests
use rustflow.Prelude.{
  ℕ, zero, suc, min, Bool, true, false, ◌&&◌, not, Option, none, some, List, [], ◌∷◌, ◌++◌, ◌==◌,
  leb, if◌then◌else◌, length, take, ℕ_discrete,
}
use rustflow.Wire.Read.{Bytes}
use rustflow.Sampler
use rustflow.Sampler.{Sampling, Sampler, select}
use rustflow.FlowCache
use rustflow.FlowCache.{
  IpAddr, FlowKey, Seen, Flow, FlowCache, update_flow, has_evicted, check_expired_flows, export_all,
}
use rustflow.PacketInfo.{Link, Etherparse, PacketInfo, parse}

abbrev pub packet_batch : ℕ
packet_batch = 64

abbrev pub udp : ℕ
udp = 17

pub data Mode : Type 0 where
  flow packet : Mode

pub record PacketData : Type 0 where
  pub link : Link
  pub length : ℕ
  pub section : Bytes

pub record Frame (Time : Type 0) : Type 0 where
  pub bytes : Bytes
  pub length : ℕ
  pub time : Time

pub data Records (Time : Type 0) : Type 0 where
  flow_records : List (Flow Time) → Records Time
  packet_records : List PacketData → Records Time

pub data Output (Time : Type 0) : Type 0 where
  flows : FlowCache Time → Output Time
  -- The clip length, and the packets pending.
  packets : ℕ → List PacketData → Output Time

pub record Meter (Time : Type 0) : Type 0 where
  pub link : Link
  pub local_port : ℕ
  pub collector_ip : IpAddr
  pub collector_port : ℕ
  pub sampler : Sampler
  pub output : Output Time

pub record ExportArgs : Type 0 where
  pub mode : Mode
  pub active_timeout : ℕ
  pub inactive_timeout : ℕ
  pub max_flows : ℕ
  pub clip_length : ℕ
  pub sampling : Sampling

unfoldable pub IpAddr-discrete : Discrete IpAddr
IpAddr-discrete = hlevel ℕ_discrete

abbrev same_ip : IpAddr → IpAddr → Bool
same_ip a b = elim (IpAddr-discrete a b) [ yes e ↦ true | no n ↦ false ]

module _ {Time : Type 0} where
  abbrev new_output : Mode → ExportArgs → Output Time
  new_output flow args =
      flows (FlowCache.new args.active_timeout args.inactive_timeout args.max_flows)
  new_output packet args = packets args.clip_length []

  unfoldable pub new : ExportArgs → Link → ℕ → IpAddr → ℕ → Meter Time
  new args link local_port collector_ip collector_port = record {
    link = link;
    local_port = local_port;
    collector_ip = collector_ip;
    collector_port = collector_port;
    sampler = Sampler.new args.sampling;
    output = new_output args.mode args;
  }

  unfoldable pub is_export : PacketInfo → Meter Time → Bool
  is_export p m =
      let key = p.flow_key in
      (key.protocol == udp)
      && (key.source_port == m.local_port)
      && same_ip key.destination_ip m.collector_ip
      && (key.destination_port == m.collector_port)

  -- What is metered of a frame that was selected: nothing of the exporter's own datagrams.
  abbrev foreign : Option PacketInfo → Meter Time → Bool
  foreign none m = true
  foreign (some p) m = not (is_export p m)

  abbrev with_flows : Meter Time → Option (FlowCache Time) → Option (Meter Time)
  with_flows m none = none
  with_flows m (some c) = some (record m { output = flows c })

  abbrev record_packet :
      ℕ → Frame Time → Meter Time → Option PacketInfo → Output Time → Option (Meter Time)
  record_packet now frame m (some p) (flows cache) =
      let seen : Seen Time = record { time = frame.time; instant = now } in
      with_flows m (update_flow p.flow_key p.packet_size p.tcp_flags seen cache)
  record_packet now frame m none (flows cache) = some m
  record_packet now frame m p (packets clip_length pending) =
      let clipped : PacketData = record {
        link = m.link;
        length = frame.length;
        section = take (min (length frame.bytes) clip_length) frame.bytes;
      } in
      some (record m { output = packets clip_length (pending ++ (clipped ∷ [])) })

  unfoldable pub observe : Etherparse → ℕ → Frame Time → Meter Time → Option (Meter Time)
  observe lib now frame m =
      let (sampler, selected) = select m.sampler in
      let m' : Meter Time = record m { sampler = sampler } in
      let packet = parse lib m.link frame.bytes in
      if selected
      then if foreign packet m' then record_packet now frame m' packet m'.output else some m'
      else some m'

  abbrev output_full : Output Time → Bool
  output_full (flows cache) = has_evicted cache
  output_full (packets clip_length pending) = leb packet_batch (length pending)

  unfoldable pub is_full : Meter Time → Bool
  is_full m = output_full m.output

  abbrev due : ℕ → Meter Time → Output Time → Meter Time × Records Time
  due now m (flows cache) =
      let (cache', expired) = check_expired_flows now cache in
      (record m { output = flows cache' }, flow_records expired)
  due now m (packets clip_length pending) =
      (record m { output = packets clip_length [] }, packet_records pending)

  unfoldable pub take_due : ℕ → Meter Time → Meter Time × Records Time
  take_due now m = due now m m.output

  abbrev all_of : Meter Time → Output Time → Meter Time × Records Time
  all_of m (flows cache) =
      let (cache', ended) = export_all cache in
      (record m { output = flows cache' }, flow_records ended)
  all_of m (packets clip_length pending) =
      (record m { output = packets clip_length [] }, packet_records pending)

  unfoldable pub take_all : Meter Time → Meter Time × Records Time
  take_all m = all_of m m.output

  abbrev active_in : Output Time → ℕ
  active_in (flows cache) = FlowCache.len cache
  active_in (packets clip_length pending) = 0

  unfoldable pub active_flows : Meter Time → ℕ
  active_flows m = active_in m.output
