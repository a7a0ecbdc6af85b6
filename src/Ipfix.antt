-- ===== src/Ipfix.antt =====
-- crates/rustflow_core/src/ipfix: parser.rs, encoder.rs and element_types.rs.
pub mod Types
pub mod Encoder
pub mod Templates
pub mod RoundTrip
pub mod Sizes
pub mod ElementTypes
pub mod FieldValues
pub mod DataRecords
pub mod Sets
pub mod Widths
pub mod Lists
pub mod Rounds
pub mod Messages
pub mod Whole
pub mod Described
pub mod Counted
pub mod Isolation
pub mod TemplateSizes
pub mod Learn
mod Tests
mod ParserTests
