-- ===== src/SflowV5/SampleReads.antt =====
-- Samples of an sFlow datagram are read back.
use rustflow.Prelude.{
  ℕ, ◌+◌, ◌*◌, ◌^◌, ◌<◌, ◌≡◌, refl, sym, ◌∙◌, some, List, [], length, arith, ◌/◌,
}
use rustflow.FieldParsers.Utf8.{Text}
use rustflow.SflowV5.FlowTypes.{ExtendedUrl}
use rustflow.Wire.Read.{Bytes}
use rustflow.Wire.Nom.{Nom}
use rustflow.Wire.Write.{number_bytes}
use rustflow.Wire.Layout.{word, IsU32, each, count-each}
use rustflow.Wire.RoundTrip.{reads}
use rustflow.SflowV5.RecordBytes.{
  flow_record_bytes, FitsFlowRecord, parse_flow_record-bytes, counter_record_bytes,
  FitsCounterRecord, parse_counter_record-bytes,
}
use rustflow.SflowV5.Records.{FlowRecord, CounterRecord, parse_flow_record, parse_counter_record}
use rustflow.SflowV5.Samples.{
  SampleHeader, sample_format, FlowSample, CounterSample, ExpandedFlowSample, DropSample, Sample,
  source_of, source_packed, source_expanded, parse_sample_header, parse_flow_sample,
  parse_counter_sample, parse_expanded_flow_sample, parse_drop_sample, sample_data, sample_of,
}
use rustflow.Prelude.Bits.{bit_and_blocks}
use rustflow.SflowV5.SampleBytes.{
  packed_bytes, expanded_bytes, flow_body, counter_body, expanded_flow_body, drop_body, sample_body,
  opaque, FitsHeader, FitsPacked, FitsExpanded, FitsRecords, FitsFlowSample, FitsExpandedFlowSample,
  FitsDropSample, FitsSample,
}

module _ (nom : Nom) (host : ExtendedUrl → Text) where
  source_packed-bytes :
      (s : SampleHeader) (rest : Bytes)
      → FitsPacked s
      → source_packed nom (packed_bytes s rest) ≡ some (rest, (s.source_id_type, s.source_id_value))
  unfolding source_packed
  source_packed-bytes s rest h =
      let fits : s.source_id_type * 2 ^ 24 + s.source_id_value < 2 ^ 32 =
        omega (arith, h.source_id_type, h.source_id_value) in
      let upper : (s.source_id_type * 2 ^ 24 + s.source_id_value) / 2 ^ 24 ≡ s.source_id_type =
        omega (arith, h.source_id_value) in
      simp
        (reads, fits, upper, bit_and_blocks 24 s.source_id_type s.source_id_value h.source_id_value)

  source_expanded-bytes :
      (s : SampleHeader) (rest : Bytes)
      → FitsExpanded s
      → source_expanded nom (expanded_bytes s rest)
        ≡ some (rest, (s.source_id_type, s.source_id_value))
  unfolding source_expanded
  source_expanded-bytes s rest h = simp (reads, h.source_id_type, h.source_id_value)

  -- The header of a sample, whatever its source is written as.
  parse_sample_header-bytes :
      (format size : ℕ) (s : SampleHeader) (source rest : Bytes)
      → FitsHeader format size s
      → IsU32 format
      → source_of nom (sample_format format) source
        ≡ some (rest, (s.source_id_type, s.source_id_value))
      → parse_sample_header nom (word format (word size (word s.sample_sequence_number source)))
        ≡ some (rest, s)
  unfolding parse_sample_header
  parse_sample_header-bytes format size s source rest h small e =
      let read : parse_sample_header nom
            (word format (word size (word s.sample_sequence_number source)))
          ≡ some (
            rest,
            record {
              format = format;
              length = size;
              sample_sequence_number = s.sample_sequence_number;
              source_id_type = s.source_id_type;
              source_id_value = s.source_id_value;
            },
          ) =
        simp (reads, small, h.size_fits, h.sample_sequence_number, e) in
      read ∙ (λ i. some (
        rest,
        record {
          format = sym h.of_format i;
          length = sym h.of_size i;
          sample_sequence_number = s.sample_sequence_number;
          source_id_type = s.source_id_type;
          source_id_value = s.source_id_value;
        },
      ))

  flow_records-bytes :
      (l : List FlowRecord)
      → FitsRecords (FitsFlowRecord host) l
      → nom.count FlowRecord (parse_flow_record nom) (length l) (each (flow_record_bytes host) l [])
        ≡ some ([], l)
  flow_records-bytes l h =
      count-each (flow_record_bytes host) (parse_flow_record nom) (FitsFlowRecord host) nom l []
        (parse_flow_record-bytes host nom) h.each

  counter_records-bytes :
      (l : List CounterRecord)
      → FitsRecords FitsCounterRecord l
      → nom.count CounterRecord
          (parse_counter_record nom)
          (length l)
          (each counter_record_bytes l [])
        ≡ some ([], l)
  counter_records-bytes l h =
      count-each counter_record_bytes (parse_counter_record nom) FitsCounterRecord nom l []
        (parse_counter_record-bytes nom) h.each

  parse_flow_sample-bytes :
      (s : FlowSample)
      → FitsFlowSample host s
      → parse_flow_sample nom (opaque 1 (flow_body host s)) ≡ some ([], s)
  unfolding parse_flow_sample opaque source_of sample_format
  parse_flow_sample-bytes s h = simp (
    parse_sample_header-bytes 1 (length (flow_body host s)) s.header _ _ h.header (omega arith)
        (source_packed-bytes s.header _ h.source),
    reads,
    h.sampling_rate,
    h.sample_pool,
    h.drops,
    h.input,
    h.output,
    h.records.number,
    flow_records-bytes s.records h.records,
  )

  parse_expanded_flow_sample-bytes :
      (s : ExpandedFlowSample)
      → FitsExpandedFlowSample host s
      → parse_expanded_flow_sample nom (opaque 3 (expanded_flow_body host s)) ≡ some ([], s)
  unfolding parse_expanded_flow_sample opaque source_of sample_format
  parse_expanded_flow_sample-bytes s h = simp (
    parse_sample_header-bytes 3 (length (expanded_flow_body host s)) s.header _ _ h.header
        (omega arith) (source_expanded-bytes s.header _ h.source),
    reads,
    h.sampling_rate,
    h.sample_pool,
    h.drops,
    h.input_if_format,
    h.input_if_value,
    h.output_if_format,
    h.output_if_value,
    h.records.number,
    flow_records-bytes s.records h.records,
  )

  parse_drop_sample-bytes :
      (s : DropSample)
      → FitsDropSample host s
      → parse_drop_sample nom (opaque 5 (drop_body host s)) ≡ some ([], s)
  unfolding parse_drop_sample opaque source_of sample_format
  parse_drop_sample-bytes s h = simp (
    parse_sample_header-bytes 5 (length (drop_body host s)) s.header _ _ h.header (omega arith)
        (source_expanded-bytes s.header _ h.source),
    reads,
    h.drops,
    h.input,
    h.output,
    h.reason,
    h.reason_fits,
    h.records.number,
    flow_records-bytes s.records h.records,
  )

  -- Both formats of counter samples, by how their source is written.
  parse_counter_sample-bytes :
      (format : ℕ) (source : SampleHeader → Bytes → Bytes) (s : CounterSample)
      → FitsHeader format (length (counter_body source s)) s.header
      → IsU32 format
      → ((rest : Bytes)
          → source_of nom (sample_format format) (source s.header rest)
            ≡ some (rest, (s.header.source_id_type, s.header.source_id_value)))
      → FitsRecords FitsCounterRecord s.records
      → parse_counter_sample nom (opaque format (counter_body source s)) ≡ some ([], s)
  unfolding parse_counter_sample opaque
  parse_counter_sample-bytes format source s header small e records = simp (
    parse_sample_header-bytes format (length (counter_body source s)) s.header _ _ header small
        (e _),
    reads,
    records.number,
    counter_records-bytes s.records records,
  )

  -- A sample that is written is read back, of every format.
  pub sample_of-bytes :
      (format : ℕ) (s : Sample)
      → FitsSample host format s
      → sample_of nom format (opaque format (sample_body host s)) ≡ s
  unfolding sample_of sample_data sample_body
  sample_of-bytes format (Sample.flow_sample s) (e, h) =
      unfold sample_format in rw e (rw (parse_flow_sample-bytes s h) refl)
  sample_of-bytes format (Sample.counter_sample s) (e, h) =
      unfold sample_format source_of in
      rw e (
        rw
          (parse_counter_sample-bytes 2 packed_bytes s h.header (omega arith)
            (λ rest. source_packed-bytes s.header rest h.source) h.records)
          refl)
  sample_of-bytes format (Sample.expanded_flow_sample s) (e, h) =
      unfold sample_format in rw e (rw (parse_expanded_flow_sample-bytes s h) refl)
  sample_of-bytes format (Sample.expanded_counter_sample s) (e, h) =
      unfold sample_format source_of in
      rw e (
        rw
          (parse_counter_sample-bytes 4 expanded_bytes s h.header (omega arith)
            (λ rest. source_expanded-bytes s.header rest h.source) h.records)
          refl)
  sample_of-bytes format (Sample.drop_sample s) (e, h) =
      unfold sample_format in rw e (rw (parse_drop_sample-bytes s h) refl)
  sample_of-bytes format (Sample.unknown v) h = unfold opaque number_bytes in rw (h.0) refl
