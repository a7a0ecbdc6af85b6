-- ===== src/Lib.antt =====
-- RustFlow collects and exports flow records: NetFlow v5 and v9, IPFIX and sFlow v5.
--
-- An exporter (crates/rustflow_export) captures frames, samples them (src/sampler.rs), meters
-- the sampled packets into flows (src/flow/mod.rs) and sends the flows that ended as IPFIX. A
-- collector reads datagrams with the parsers of crates/rustflow_core, which for NetFlow v9 and
-- IPFIX keep the exporter's templates in a cache (src/common/template_cache.rs).
--
-- The model, file by file (a folder beside a file holds its lemmas, theorems and runs):
-- - Prelude: Boolean tests, lists, association lists, wrapping words and bit fields over ℕ.
-- - Wire: the crates nom and bytes, as records of functions with their documented laws
--   (Wire/Nom, Wire/Write) and one implementation of them, to run the models (Wire/Reference).
-- - TemplateCache: crates/rustflow_core/src/common/template_cache.rs. A cache is a record with the
--   source's fields, and a function for each method returns the new cache. A hash map is an
--   association list. Runs is the relation of the states that the methods reach.
-- - FlowCache: crates/rustflow_export/src/flow/mod.rs, `none` where the source panics.
-- - Sampler: crates/rustflow_export/src/sampler.rs.
-- - FieldParsers: crates/rustflow_core/src/common/parser.rs. chrono is a parameter; Utf8 is the
--   standard library's check of UTF-8.
-- - IeRegistry and DataRecord: crates/rustflow_core/src/common/ie_registry.rs and data_record.rs.
-- - NetflowV5: crates/rustflow_core/src/netflow_v5, `parse_…` and `encode`.
-- - NetflowV9: crates/rustflow_core/src/netflow_v9/parser.rs. Templates has the templates and the
--   parser's state, Fields the values of fields; a method returns the parser beside its result.
-- - Ipfix: crates/rustflow_core/src/ipfix. Types has the parts of a message, Encoder is encoder.rs,
--   ElementTypes is element_types.rs, and parser.rs is four files: Templates reads templates and
--   field lengths, FieldValues the values that are no lists, DataRecords the data records and the
--   lists in them, and Sets has the methods that change the parser. Where the source counts how deep
--   a list is nested, the model counts the levels that are left, MAX_LIST_DEPTH less the depth.
-- - Exporter: crates/rustflow_export/src/exporter.rs, how data records are batched into messages, and
--   in Sends what is sent of flows, packets, templates and options.
-- - PacketInfo and Meter: crates/rustflow_export/src/flow/parse.rs and meter.rs, over the sampler and
--   the flow cache. etherparse is a parameter.
-- - FlowRecords: crates/rustflow_export/src/ipfix, data.rs and template.rs; Packets has what is sent
--   of packets.
-- - SflowV5: crates/rustflow_core/src/sflow_v5/parser.rs, its types and parsers in children by what they
--   read; the files whose names end in Bytes lay out datagrams as the sFlow version 5 specification
--   has them, with what fills opaque data up to whole words and with the host of a URL, which
--   the parser does not keep. Data of a format that is not known are as many bytes as their length
--   counts.
-- - CryptoPan: crates/rustflow_core/src/common/cryptopan.rs. AES is a parameter.
--
-- Numbers are natural numbers: u64 and usize arithmetic that could overflow is taken modulo
-- 2 ^ 64, and what a field's type bounds is a hypothesis where a theorem needs it. Time is a
-- number that the operations take as `now`. A parser returns the input that is left with its
-- value, or `none` for any error. Fuel stands in three places: `many0` in Wire/Reference has one
-- more than the length of the input, since every round takes some of it; so have the loops over
-- the elements and the items of an IPFIX list, whose first argument is what they give when the
-- rounds run out (the parser passes `none`); and `decimal` has 20 digits, which are enough for a
-- u64.
--
-- Not modelled: capture, sockets, command lines, logs and metrics, the enrichment and the sinks of
-- the collector, the conversions to one flow format, the table of registered elements, and the
-- exporter's main loop.
pub mod Prelude
pub mod Wire
pub mod IeRegistry
pub mod FieldParsers
pub mod DataRecord
pub mod TemplateCache
pub mod FlowCache
pub mod Sampler
pub mod NetflowV5
pub mod NetflowV9
pub mod Ipfix
pub mod Exporter
pub mod PacketInfo
pub mod Meter
pub mod FlowRecords
pub mod SflowV5
pub mod CryptoPan
