-- ===== src/SflowV5.antt =====
-- crates/rustflow_core/src/sflow_v5/parser.rs: the parser of an sFlow datagram, which is a header and
-- samples. The parser has no state.
pub mod CounterTypes
pub mod Counters
pub mod Reasons
pub mod Enums
pub mod FlowTypes
pub mod Flows
pub mod Records
pub mod Samples
pub mod CounterBytes
pub mod PartBytes
pub mod FlowBytes
pub mod RecordBytes
pub mod SampleBytes
pub mod SampleReads
pub mod Datagram
pub mod Bounds
mod Tests
use rustflow.Prelude.{ℕ, Option, none, some, List, ◌==◌, if◌then◌else◌}
use rustflow.FlowCache.{IpAddr}
use rustflow.Wire.Read.{Bytes, Parser, ◌>>=◌}
use rustflow.Wire.Nom.{Nom}
use Flows.{parse_address}
use Samples.{Sample, parse_sample}

abbrev pub sflow_v5_version : ℕ
sflow_v5_version = 5

pub record SflowV5 : Type 0 where
  pub version : ℕ
  pub agent_address : Option IpAddr
  pub sub_agent_id : ℕ
  pub sequence_number : ℕ
  pub uptime : ℕ
  pub samples : List Sample

module _ (nom : Nom) where
  open nom use {be_u32, count}

  abbrev verify : ℕ → Option (Bytes × ℕ) → Option (Bytes × ℕ)
  verify expected none = none
  verify expected (some (rest, v)) = if v == expected then some (rest, v) else none

  unfoldable pub parse_sflow_v5 : Parser SflowV5
  parse_sflow_v5 input = do
    (input, version) ← verify sflow_v5_version (be_u32 input)
    (input, agent_address) ← parse_address nom input
    (input, sub_agent_id) ← be_u32 input
    (input, sequence_number) ← be_u32 input
    (input, uptime) ← be_u32 input
    (input, sample_count) ← be_u32 input
    (input, samples) ← count Sample (parse_sample nom) sample_count input
    some (
      input,
      record {
        version = version;
        agent_address = agent_address;
        sub_agent_id = sub_agent_id;
        sequence_number = sequence_number;
        uptime = uptime;
        samples = samples;
      },
    )

  -- `SflowV5Parser::parse`
  unfoldable pub parse : Parser SflowV5
  parse input = parse_sflow_v5 input
