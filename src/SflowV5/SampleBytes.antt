-- ===== src/SflowV5/SampleBytes.antt =====
-- The layout of the samples of an sFlow datagram, which the parser reads back.
use rustflow.Prelude.{ℕ, ◌+◌, ◌*◌, ◌^◌, ◌<◌, ◌≡◌, none, List, [], length, All}
use rustflow.FieldParsers.Utf8.{Text}
use rustflow.SflowV5.FlowTypes.{ExtendedUrl}
use rustflow.Wire.Read.{Bytes}
use rustflow.Wire.Layout.{word, IsU32, each}
use rustflow.SflowV5.Reasons.{drop_reason, reason_number}
use rustflow.SflowV5.RecordBytes.{
  flow_record_bytes, FitsFlowRecord, counter_record_bytes, FitsCounterRecord,
}
use rustflow.SflowV5.Samples.{
  SampleHeader, sample_format, FlowSample, CounterSample, ExpandedFlowSample, DropSample, Sample,
}

-- The source of a sample: packed in one word, or in two.
abbrev pub packed_bytes : SampleHeader → Bytes → Bytes
packed_bytes s rest = word (s.source_id_type * 2 ^ 24 + s.source_id_value) rest

abbrev pub expanded_bytes : SampleHeader → Bytes → Bytes
expanded_bytes s rest = word s.source_id_type (word s.source_id_value rest)

-- What follows the length of a sample of counters.
abbrev pub counter_body : (SampleHeader → Bytes → Bytes) → CounterSample → Bytes
counter_body source s =
    word s.header.sample_sequence_number
      (source s.header (word (length s.records) (each counter_record_bytes s.records [])))

-- A format, a length and so many bytes.
unfoldable pub opaque : ℕ → Bytes → Bytes
opaque format body = word format (word (length body) body)

-- A header of the format and the length that it stands with.
pub record FitsHeader (format size : ℕ) (s : SampleHeader) : Type 0 where
  pub of_format : s.format ≡ format
  pub of_size : s.length ≡ size
  pub size_fits : IsU32 size
  pub sample_sequence_number : IsU32 s.sample_sequence_number

pub record FitsPacked (s : SampleHeader) : Type 0 where
  pub source_id_type : s.source_id_type < 2 ^ 8
  pub source_id_value : s.source_id_value < 2 ^ 24

pub record FitsExpanded (s : SampleHeader) : Type 0 where
  pub source_id_type : IsU32 s.source_id_type
  pub source_id_value : IsU32 s.source_id_value

-- Records whose number fits its word.
pub record FitsRecords {R : Type 0} (Fits : R → Type 0) (l : List R) : Type 0 where
  pub number : IsU32 (length l)
  pub each : All Fits l

pub record FitsCounterSample (s : CounterSample) : Type 0 where
  pub header : FitsHeader 2 (length (counter_body packed_bytes s)) s.header
  pub source : FitsPacked s.header
  pub records : FitsRecords FitsCounterRecord s.records

pub record FitsExpandedCounterSample (s : CounterSample) : Type 0 where
  pub header : FitsHeader 4 (length (counter_body expanded_bytes s)) s.header
  pub source : FitsExpanded s.header
  pub records : FitsRecords FitsCounterRecord s.records

-- For the host that stands behind each URL.
module _ (host : ExtendedUrl → Text) where
  -- What follows the length of a sample.
  abbrev pub flow_body : FlowSample → Bytes
  flow_body s = word s.header.sample_sequence_number (
      packed_bytes s.header (
        word s.sampling_rate (
          word s.sample_pool (
            word s.drops (
              word s.input (
                word s.output
                  (word (length s.records) (each (flow_record_bytes host) s.records []))))))))

  abbrev pub expanded_flow_body : ExpandedFlowSample → Bytes
  expanded_flow_body s = word s.header.sample_sequence_number (
      expanded_bytes s.header (
        word s.sampling_rate (
          word s.sample_pool (
            word s.drops (
              word s.input_if_format (
                word s.input_if_value (
                  word s.output_if_format (
                    word s.output_if_value
                      (word (length s.records) (each (flow_record_bytes host) s.records []))))))))))

  abbrev pub drop_body : DropSample → Bytes
  drop_body s = word s.header.sample_sequence_number (
      expanded_bytes s.header (
        word s.drops (
          word s.input (
            word s.output (
              word (reason_number s.reason)
                (word (length s.records) (each (flow_record_bytes host) s.records [])))))))

  unfoldable pub sample_body : Sample → Bytes
  sample_body (Sample.flow_sample s) = flow_body s
  sample_body (Sample.counter_sample s) = counter_body packed_bytes s
  sample_body (Sample.expanded_flow_sample s) = expanded_flow_body s
  sample_body (Sample.expanded_counter_sample s) = counter_body expanded_bytes s
  sample_body (Sample.drop_sample s) = drop_body s
  sample_body (Sample.unknown v) = v

  pub record FitsFlowSample (s : FlowSample) : Type 0 where
    pub header : FitsHeader 1 (length (flow_body s)) s.header
    pub source : FitsPacked s.header
    pub sampling_rate : IsU32 s.sampling_rate
    pub sample_pool : IsU32 s.sample_pool
    pub drops : IsU32 s.drops
    pub input : IsU32 s.input
    pub output : IsU32 s.output
    pub records : FitsRecords (FitsFlowRecord host) s.records

  pub record FitsExpandedFlowSample (s : ExpandedFlowSample) : Type 0 where
    pub header : FitsHeader 3 (length (expanded_flow_body s)) s.header
    pub source : FitsExpanded s.header
    pub sampling_rate : IsU32 s.sampling_rate
    pub sample_pool : IsU32 s.sample_pool
    pub drops : IsU32 s.drops
    pub input_if_format : IsU32 s.input_if_format
    pub input_if_value : IsU32 s.input_if_value
    pub output_if_format : IsU32 s.output_if_format
    pub output_if_value : IsU32 s.output_if_value
    pub records : FitsRecords (FitsFlowRecord host) s.records

  pub record FitsDropSample (s : DropSample) : Type 0 where
    pub header : FitsHeader 5 (length (drop_body s)) s.header
    pub source : FitsExpanded s.header
    pub drops : IsU32 s.drops
    pub input : IsU32 s.input
    pub output : IsU32 s.output
    pub reason : drop_reason (reason_number s.reason) ≡ s.reason
    pub reason_fits : IsU32 (reason_number s.reason)
    pub records : FitsRecords (FitsFlowRecord host) s.records

  -- A format and a sample of it. An unknown format goes with any bytes.
  abbrev pub FitsSample : ℕ → Sample → Type 0
  FitsSample format (Sample.flow_sample s) = (format ≡ 1) × FitsFlowSample s
  FitsSample format (Sample.counter_sample s) = (format ≡ 2) × FitsCounterSample s
  FitsSample format (Sample.expanded_flow_sample s) = (format ≡ 3) × FitsExpandedFlowSample s
  FitsSample format (Sample.expanded_counter_sample s) = (format ≡ 4) × FitsExpandedCounterSample s
  FitsSample format (Sample.drop_sample s) = (format ≡ 5) × FitsDropSample s
  FitsSample format (Sample.unknown v) =
      (sample_format format ≡ none) × IsU32 format × IsU32 (length v)
