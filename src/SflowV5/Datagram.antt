-- ===== src/SflowV5/Datagram.antt =====
-- A whole sFlow datagram: its samples are read apart, and what is written of a datagram is read back.
use rustflow.Prelude.{
  ℕ, ◌+◌, ◌-◌, ◌^◌, ◌≡◌, refl, sym, ap, ◌∙◌, some, List, [], ◌∷◌, ◌++◌, length, All, arith, map,
  min, ◌==◌, ==_iff, length-map, true,
}
use mathlib.Core.List.{append_assoc}
use rustflow.FieldParsers.Utf8.{Text}
use rustflow.SflowV5.FlowTypes.{ExtendedUrl}
use rustflow.Wire.Read.{Bytes}
use rustflow.Wire.Nom.{Nom}
use rustflow.Wire.Write.{number_bytes}
use rustflow.Wire.Layout.{word, IsU32, each, count-map, take-slice}
use rustflow.Wire.RoundTrip.{reads}
use rustflow.SflowV5.PartBytes.{address_bytes, FitsAddress, parse_address-bytes}
use rustflow.SflowV5.Samples.{Sample, sample_of, parse_sample}
use rustflow.SflowV5.SampleBytes.{opaque, sample_body, FitsSample}
use rustflow.SflowV5.SampleReads.{sample_of-bytes}
use rustflow.SflowV5.{SflowV5, parse, parse_sflow_v5}

-- A format and the bytes of a sample behind its length.
abbrev pub Chunk : Type 0
Chunk = ℕ × Bytes

abbrev pub FitsChunk : Chunk → Type 0
FitsChunk c = IsU32 c.0 × IsU32 (length c.1)

abbrev pub chunk_bytes : Chunk → Bytes → Bytes
chunk_bytes c rest = opaque c.0 c.1 ++ rest

-- The fields of a datagram fit their types, and its version is 5.
pub record FitsDatagram (d : SflowV5) : Type 0 where
  pub version : d.version ≡ 5
  pub agent_address : FitsAddress d.agent_address
  pub sub_agent_id : IsU32 d.sub_agent_id
  pub sequence_number : IsU32 d.sequence_number
  pub uptime : IsU32 d.uptime

-- A datagram with the given samples, each in its bytes.
unfoldable pub datagram_bytes : SflowV5 → List Chunk → Bytes → Bytes
datagram_bytes d chunks rest = word d.version (
    address_bytes d.agent_address (
      word d.sub_agent_id (
        word d.sequence_number
          (word d.uptime (word (length chunks) (each chunk_bytes chunks rest))))))

module _ (host : ExtendedUrl → Text) where
  -- The samples with their formats, as chunks, for the host behind each URL.
  abbrev pub chunk_of : ℕ × Sample → Chunk
  chunk_of t = (t.0, sample_body host t.1)

  FitsSample-FitsChunk : (t : ℕ × Sample) → FitsSample host t.0 t.1 → FitsChunk (chunk_of t)
  unfolding sample_body
  FitsSample-FitsChunk (format, Sample.flow_sample s) (e, h) =
      (rw e (omega arith), h.header.size_fits)
  FitsSample-FitsChunk (format, Sample.counter_sample s) (e, h) =
      (rw e (omega arith), h.header.size_fits)
  FitsSample-FitsChunk (format, Sample.expanded_flow_sample s) (e, h) =
      (rw e (omega arith), h.header.size_fits)
  FitsSample-FitsChunk (format, Sample.expanded_counter_sample s) (e, h) =
      (rw e (omega arith), h.header.size_fits)
  FitsSample-FitsChunk (format, Sample.drop_sample s) (e, h) =
      (rw e (omega arith), h.header.size_fits)
  FitsSample-FitsChunk (format, Sample.unknown v) (e, small, short) = (small, short)

  abbrev pub FitsEach : List (ℕ × Sample) → Type 0
  FitsEach l = All (λ t. FitsSample host t.0 t.1) l

  all-FitsChunk : (l : List (ℕ × Sample)) → FitsEach l → All FitsChunk (map chunk_of l)
  all-FitsChunk [] h = _
  all-FitsChunk (t ∷ l) h = (FitsSample-FitsChunk t h.0, all-FitsChunk l h.1)

module _ (nom : Nom) where
  parse_sample-opaque :
      (c : Chunk) (rest : Bytes)
      → FitsChunk c
      → parse_sample nom (chunk_bytes c rest) ≡ some (rest, sample_of nom c.0 (opaque c.0 c.1))
  unfolding parse_sample opaque
  parse_sample-opaque (format, body) rest (small, short) =
      let size : length (opaque format body) ≡ min (length body + 8) (2 ^ 64 - 1) =
        unfold number_bytes in omega (arith, short) in
      let taken =
        take-slice nom (min (length body + 8) (2 ^ 64 - 1)) (opaque format body) rest size in
      let first : nom.be_u32 (chunk_bytes (format, body) rest)
          ≡ some (number_bytes 4 (length body) ++ (body ++ rest), format) =
        simp (append_assoc, reads, small) in
      let second : nom.be_u32 (number_bytes 4 (length body) ++ (body ++ rest))
          ≡ some (body ++ rest, length body) =
        simp (reads, short) in
      rw first (rw second (rw taken refl))

  -- The samples of a datagram are read apart: each from its own bytes alone, whatever these and
  -- those of the others are, and nothing of what follows the datagram. The header's fields fit
  -- their types and its version is 5, and the formats, lengths and the number of the samples fit a
  -- word.
  pub parse-chunks :
      (d : SflowV5) (chunks : List Chunk) (rest : Bytes)
      → FitsDatagram d
      → IsU32 (length chunks)
      → All FitsChunk chunks
      → parse nom (datagram_bytes d chunks rest)
        ≡ some (rest, record d { samples = map (λ c. sample_of nom c.0 (opaque c.0 c.1)) chunks })
  unfolding parse parse_sflow_v5 datagram_bytes
  parse-chunks d chunks rest h few fits =
      let version : IsU32 d.version = rw h.version (omega arith) in
      let samples =
        count-map chunk_bytes (parse_sample nom) (λ c. sample_of nom c.0 (opaque c.0 c.1)) nom
          FitsChunk chunks rest parse_sample-opaque fits in
      let five : (d.version == 5) ≡ true = (==_iff _ _).1 h.version in
      simp (
        reads,
        version,
        five,
        parse_address-bytes nom d.agent_address _ h.agent_address,
        h.sub_agent_id,
        h.sequence_number,
        h.uptime,
        few,
        samples,
      )

module _ (nom : Nom) (host : ExtendedUrl → Text) where
  samples-read :
      (l : List (ℕ × Sample))
      → FitsEach host l
      → map (λ c. sample_of nom c.0 (opaque c.0 c.1)) (map (chunk_of host) l) ≡ map (λ t. t.1) l
  samples-read [] h = refl
  samples-read (t ∷ l) h = rw (sample_of-bytes nom host t.0 t.1 h.0) (rw (samples-read l h.1) refl)

  -- A datagram that is written by the specification is read back: its header, and every sample with
  -- all its records, and what follows is left. Version 5, all five kinds of samples, all twelve kinds
  -- of flow records and six of counters, and samples and records of other formats, as the bytes that
  -- their lengths count. Sampled headers and texts are filled up to whole words, and behind a URL
  -- stands its host, any text, the same for equal URL records, which is not kept. Every field fits
  -- its type, the length that each header states is that of what it holds with what fills it up, a
  -- record of counters holds one kind, the texts that are kept are UTF-8, a set of autonomous systems
  -- has each once, and a drop reason has its own number.
  pub parse-datagram_bytes :
      (d : SflowV5) (l : List (ℕ × Sample)) (rest : Bytes)
      → FitsDatagram d
      → IsU32 (length l)
      → FitsEach host l
      → d.samples ≡ map (λ t. t.1) l
      → parse nom (datagram_bytes d (map (chunk_of host) l) rest) ≡ some (rest, d)
  parse-datagram_bytes d l rest h few fits e =
      let few' : IsU32 (length (map (chunk_of host) l)) =
        omega (arith, few, length-map (chunk_of host) l) in
      parse-chunks nom d (map (chunk_of host) l) rest h few' (all-FitsChunk host l fits)
      ∙ ap (λ s. some (rest, record d { samples = s })) (samples-read l fits ∙ sym e)
