-- ===== src/SflowV5/Tests.antt =====
-- Runs of the sFlow parser, and inputs at which the theorems apply.
use rustflow.Prelude.{
  ℕ, ◌≡◌, refl, some, List, [], ◌∷◌, arith, map, replicate, length, ◌+◌, ◌*◌, ◌≤◌,
}
use rustflow.FlowCache.{IpAddr}
use rustflow.FieldParsers.Utf8.{Text, from_utf8, is_utf8}
use rustflow.Wire.Read.{Bytes}
use rustflow.Wire.Write.{number_bytes}
use rustflow.Wire.Reference.{nom}
use rustflow.Wire.Layout.{each}
use rustflow.Wire.Many.{Gives}
use rustflow.SflowV5.Enums.{HeaderProtocol, UrlDirection}
use rustflow.SflowV5.Reasons.{DropReason, drop_reason, reason_number}
use rustflow.SflowV5.FlowTypes.{SampledHeader, ExtendedUrl}
use rustflow.SflowV5.CounterTypes.{VlanCounters}
use rustflow.SflowV5.Records.{FlowRecordType, CounterRecordType}
use rustflow.SflowV5.RecordBytes.{
  flow_record_bytes, counter_record_bytes, flow_data_bytes, counters_bytes,
}
use rustflow.SflowV5.Samples.{
  Sample, FlowSample, CounterSample, DropSample, sample_of, sample_format,
}
use rustflow.SflowV5.SampleBytes.{FitsFlowSample, FitsCounterSample, FitsDropSample, opaque}
use rustflow.SflowV5.{SflowV5, parse}
use rustflow.SflowV5.Datagram.{
  FitsDatagram, datagram_bytes, chunk_of, parse-chunks, parse-datagram_bytes,
}
use rustflow.SflowV5.Bounds.{parse-Bounded}

abbrev sampled : SampledHeader
sampled = record {
  protocol = HeaderProtocol.ethernet_iso8023;
  frame_length = 64;
  stripped = 4;
  header = 1 ∷ 2 ∷ 3 ∷ [];
}

abbrev url : ExtendedUrl
url = record { direction = UrlDirection.src; url = b'a' ∷ b'b' ∷ [] }

-- The host behind a URL.
abbrev host_of : ExtendedUrl → Text
host_of _ = b'c' ∷ []

abbrev flow : FlowSample
flow = record {
  header = record {
    format = 1;
    length = 88;
    sample_sequence_number = 1;
    source_id_type = 2;
    source_id_value = 3;
  };
  sampling_rate = 100;
  sample_pool = 1000;
  drops = 0;
  input = 3;
  output = 4;
  records =
      record {
        header = record { data_format = 1; length = 20 };
        record_data = FlowRecordType.sampled_header sampled;
      }
      ∷ record {
        header = record { data_format = 1005; length = 20 };
        record_data = FlowRecordType.extended_url url;
      }
      ∷ [];
}

abbrev vlan : VlanCounters
vlan = record {
  vlan_id = 7;
  octets = 5000000000;
  ucast_pkts = 1;
  multicast_pkts = 2;
  broadcast_pkts = 3;
  discards = 4;
}

abbrev counters : CounterSample
counters = record {
  header = record {
    format = 2;
    length = 48;
    sample_sequence_number = 9;
    source_id_type = 0;
    source_id_value = 3;
  };
  records =
      record {
        header = record { data_format = 5; length = 28 };
        record_data = CounterRecordType.vlan_counters vlan ∷ [];
      }
      ∷ [];
}

abbrev dropped : DropSample
dropped = record {
  header = record {
    format = 5;
    length = 32;
    sample_sequence_number = 9;
    source_id_type = 0;
    source_id_value = 3;
  };
  drops = 1;
  input = 2;
  output = 3;
  reason = DropReason.acl;
  records = [];
}

abbrev samples : List (ℕ × Sample)
samples =
    (1, Sample.flow_sample flow)
    ∷ (2, Sample.counter_sample counters)
    ∷ (9, Sample.unknown (5 ∷ 6 ∷ 7 ∷ 8 ∷ []))
    ∷ (5, Sample.drop_sample dropped)
    ∷ []

abbrev datagram : SflowV5
datagram = record {
  version = 5;
  agent_address = some (IpAddr.v4 3221225985);
  sub_agent_id = 0;
  sequence_number = 1;
  uptime = 1000;
  samples = map (λ t. t.1) samples;
}

datagram_fits : FitsDatagram datagram
datagram_fits = record {
  version = refl;
  agent_address = omega arith;
  sub_agent_id = omega arith;
  sequence_number = omega arith;
  uptime = omega arith;
}

flow_fits : FitsFlowSample host_of flow
unfolding each flow_record_bytes flow_data_bytes number_bytes from_utf8 is_utf8
flow_fits = record {
  header = record {
    of_format = refl;
    of_size = refl;
    size_fits = omega arith;
    sample_sequence_number = omega arith;
  };
  source = record { source_id_type = omega arith; source_id_value = omega arith };
  sampling_rate = omega arith;
  sample_pool = omega arith;
  drops = omega arith;
  input = omega arith;
  output = omega arith;
  records = record {
    number = omega arith;
    each = (
      record {
        data_format = omega arith;
        size = omega arith;
        exact = refl;
        content = (
          refl,
          record { frame_length = omega arith; stripped = omega arith; header = omega arith },
        );
      },
      (
        record {
          data_format = omega arith;
          size = omega arith;
          exact = refl;
          content = (refl, record { url = record { utf8 = refl; length = omega arith } });
        },
        _,
      ),
    );
  };
}

counters_fit : FitsCounterSample counters
unfolding each counter_record_bytes counters_bytes number_bytes
counters_fit = record {
  header = record {
    of_format = refl;
    of_size = refl;
    size_fits = omega arith;
    sample_sequence_number = omega arith;
  };
  source = record { source_id_type = omega arith; source_id_value = omega arith };
  records = record {
    number = omega arith;
    each = (
      record {
        data_format = omega arith;
        size = omega arith;
        exact = refl;
        content = (
          refl,
          record {
            vlan_id = omega arith;
            octets = omega arith;
            ucast_pkts = omega arith;
            multicast_pkts = omega arith;
            broadcast_pkts = omega arith;
            discards = omega arith;
          },
        );
        single = refl;
      },
      _,
    );
  };
}

dropped_fits : FitsDropSample host_of dropped
unfolding each number_bytes drop_reason reason_number
dropped_fits = record {
  header = record {
    of_format = refl;
    of_size = refl;
    size_fits = omega arith;
    sample_sequence_number = omega arith;
  };
  source = record { source_id_type = omega arith; source_id_value = omega arith };
  drops = omega arith;
  input = omega arith;
  output = omega arith;
  reason = refl;
  reason_fits = omega arith;
  records = record { number = omega arith; each = _ };
}

parse-datagram_bytes_example :
    parse nom (datagram_bytes datagram (map (chunk_of host_of) samples) (7 ∷ []))
    ≡ some (7 ∷ [], datagram)
unfolding sample_format
parse-datagram_bytes_example =
    parse-datagram_bytes nom host_of datagram samples (7 ∷ []) datagram_fits (omega arith)
      (
        (refl, flow_fits),
        ((refl, counters_fit), ((refl, omega arith, omega arith), ((refl, dropped_fits), _))),
      )
      refl

-- A sample of an unknown format, and one that is too short for its format, between others.
parse-chunks_example :
    parse nom (datagram_bytes datagram ((9, 5 ∷ []) ∷ (1, 6 ∷ []) ∷ []) [])
    ≡ some (
      [],
      record (datagram) {
        samples = sample_of nom 9 (opaque 9 (5 ∷ [])) ∷ sample_of nom 1 (opaque 1 (6 ∷ [])) ∷ [];
      },
    )
parse-chunks_example =
    parse-chunks nom datagram ((9, 5 ∷ []) ∷ (1, 6 ∷ []) ∷ []) [] datagram_fits (omega arith)
      ((omega arith, omega arith), ((omega arith, omega arith), _))

-- A datagram of no samples.
abbrev empty_datagram : Bytes
empty_datagram = 0 ∷ 0 ∷ 0 ∷ 5 ∷ replicate 20 0

parse-Bounded_example :
    Gives
      (λ rest d.
        (d.version ≡ 5) × (24 + 8 * length d.samples + length rest ≤ length empty_datagram))
      (parse nom empty_datagram)
parse-Bounded_example = parse-Bounded nom empty_datagram
