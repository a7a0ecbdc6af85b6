-- ===== src/SflowV5/Samples.antt =====
-- crates/rustflow_core/src/sflow_v5/parser.rs: the samples of a datagram. A sample has a format, a
-- length and so many bytes, and one that cannot be read is kept as these.
use Prim.Native.Nat.{bit_and}
use rustflow.Prelude.{
  ℕ, ◌+◌, ◌/◌, ◌^◌, Option, none, some, List, ◌==◌, if◌then◌else◌, drop, min, ◌-◌,
}
use rustflow.Wire.Read.{Bytes, Parser, ◌>>=◌, map_value, read_value}
use rustflow.Wire.Nom.{Nom}
use rustflow.SflowV5.Reasons.{DropReason, drop_reason}
use rustflow.SflowV5.Records.{
  FlowRecord, CounterRecord, parse_flow_record, parse_counter_record, or_unknown,
}

pub data SampleFormat : Type 0 where
  flow counter expanded_flow expanded_counter drop_format : SampleFormat

-- `SampleFormat::try_from`
unfoldable pub sample_format : ℕ → Option SampleFormat
sample_format n =
    if n == 1
    then some flow
    else if n == 2
    then some counter
    else if n == 3
    then some expanded_flow
    else if n == 4
    then some expanded_counter
    else if n == 5
    then some drop_format
    else none

pub record SampleHeader : Type 0 where
  pub format : ℕ
  pub length : ℕ
  pub sample_sequence_number : ℕ
  pub source_id_type : ℕ
  pub source_id_value : ℕ

pub record FlowSample : Type 0 where
  pub header : SampleHeader
  pub sampling_rate : ℕ
  pub sample_pool : ℕ
  pub drops : ℕ
  pub input : ℕ
  pub output : ℕ
  pub records : List FlowRecord

pub record CounterSample : Type 0 where
  pub header : SampleHeader
  pub records : List CounterRecord

pub record ExpandedFlowSample : Type 0 where
  pub header : SampleHeader
  pub sampling_rate : ℕ
  pub sample_pool : ℕ
  pub drops : ℕ
  pub input_if_format : ℕ
  pub input_if_value : ℕ
  pub output_if_format : ℕ
  pub output_if_value : ℕ
  pub records : List FlowRecord

pub record DropSample : Type 0 where
  pub header : SampleHeader
  pub drops : ℕ
  pub input : ℕ
  pub output : ℕ
  pub reason : DropReason
  pub records : List FlowRecord

pub data Sample : Type 0 where
  flow_sample : FlowSample → Sample
  counter_sample : CounterSample → Sample
  expanded_flow_sample : ExpandedFlowSample → Sample
  expanded_counter_sample : CounterSample → Sample
  drop_sample : DropSample → Sample
  unknown : Bytes → Sample

module _ (nom : Nom) where
  open nom use {be_u32, take, count}

  -- The source of a sample: its type in the upper byte of a word, or in a word of its own.
  unfoldable pub source_packed : Parser (ℕ × ℕ)
  source_packed input = do
    (input, source_id) ← be_u32 input
    let source_id_type = source_id / 2 ^ 24
    let source_id_value = bit_and source_id 0x00ffffff
    some (input, (source_id_type, source_id_value))

  unfoldable pub source_expanded : Parser (ℕ × ℕ)
  source_expanded input = do
    (input, source_id_type) ← be_u32 input
    (input, source_id_value) ← be_u32 input
    some (input, (source_id_type, source_id_value))

  unfoldable pub source_of : Option SampleFormat → Parser (ℕ × ℕ)
  source_of (some flow) input = source_packed input
  source_of (some counter) input = source_packed input
  source_of (some expanded_flow) input = source_expanded input
  source_of (some expanded_counter) input = source_expanded input
  source_of (some drop_format) input = source_expanded input
  source_of none input = none

  unfoldable pub parse_sample_header : Parser SampleHeader
  parse_sample_header input = do
    (input, format) ← be_u32 input
    (input, length) ← be_u32 input
    (input, sample_sequence_number) ← be_u32 input
    (input, (source_id_type, source_id_value)) ← source_of (sample_format format) input
    some (
      input,
      record {
        format = format;
        length = length;
        sample_sequence_number = sample_sequence_number;
        source_id_type = source_id_type;
        source_id_value = source_id_value;
      },
    )

  unfoldable pub parse_flow_sample : Parser FlowSample
  parse_flow_sample input = do
    (input, header) ← parse_sample_header input
    (input, sampling_rate) ← be_u32 input
    (input, sample_pool) ← be_u32 input
    (input, drops) ← be_u32 input
    (input, input_) ← be_u32 input
    (input, output) ← be_u32 input
    (input, flow_records_count) ← be_u32 input
    (input, records) ← count FlowRecord (parse_flow_record nom) flow_records_count input
    some (
      input,
      record {
        header = header;
        sampling_rate = sampling_rate;
        sample_pool = sample_pool;
        drops = drops;
        input = input_;
        output = output;
        records = records;
      },
    )

  unfoldable pub parse_counter_sample : Parser CounterSample
  parse_counter_sample input = do
    (input, header) ← parse_sample_header input
    (input, records_count) ← be_u32 input
    (input, records) ← count CounterRecord (parse_counter_record nom) records_count input
    some (input, record { header = header; records = records })

  unfoldable pub parse_expanded_flow_sample : Parser ExpandedFlowSample
  parse_expanded_flow_sample input = do
    (input, header) ← parse_sample_header input
    (input, sampling_rate) ← be_u32 input
    (input, sample_pool) ← be_u32 input
    (input, drops) ← be_u32 input
    (input, input_if_format) ← be_u32 input
    (input, input_if_value) ← be_u32 input
    (input, output_if_format) ← be_u32 input
    (input, output_if_value) ← be_u32 input
    (input, flow_records_count) ← be_u32 input
    (input, records) ← count FlowRecord (parse_flow_record nom) flow_records_count input
    some (
      input,
      record {
        header = header;
        sampling_rate = sampling_rate;
        sample_pool = sample_pool;
        drops = drops;
        input_if_format = input_if_format;
        input_if_value = input_if_value;
        output_if_format = output_if_format;
        output_if_value = output_if_value;
        records = records;
      },
    )

  unfoldable pub parse_drop_sample : Parser DropSample
  parse_drop_sample input = do
    (input, header) ← parse_sample_header input
    (input, drops) ← be_u32 input
    (input, input_) ← be_u32 input
    (input, output) ← be_u32 input
    (input, reason) ← map_value drop_reason (be_u32 input)
    (input, records_count) ← be_u32 input
    (input, records) ← count FlowRecord (parse_flow_record nom) records_count input
    some (
      input,
      record {
        header = header;
        drops = drops;
        input = input_;
        output = output;
        reason = reason;
        records = records;
      },
    )

  -- What a sample of a known format holds, or nothing where its parser fails. The bytes are those of
  -- the whole sample, from its format on.
  unfoldable pub sample_data : Option SampleFormat → Bytes → Option Sample
  sample_data (some flow) v = read_value flow_sample (parse_flow_sample v)
  sample_data (some counter) v = read_value counter_sample (parse_counter_sample v)
  sample_data (some expanded_flow) v =
      read_value expanded_flow_sample (parse_expanded_flow_sample v)
  sample_data (some expanded_counter) v =
      read_value expanded_counter_sample (parse_counter_sample v)
  sample_data (some drop_format) v = read_value drop_sample (parse_drop_sample v)
  sample_data none v = some (unknown (drop 8 v))

  unfoldable pub sample_of : ℕ → Bytes → Sample
  sample_of format v = or_unknown (λ w. unknown (drop 8 w)) v (sample_data (sample_format format) v)

  -- The format and the length are peeked: the sample starts with them.
  unfoldable pub parse_sample : Parser Sample
  parse_sample input = do
    (rest, format) ← be_u32 input
    (rest, length) ← be_u32 rest
    (input, sample) ← take (min (length + 8) (2 ^ 64 - 1)) input
    some (input, sample_of format sample)
