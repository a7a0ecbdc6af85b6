-- ===== src/NetflowV9/Fields.antt =====
-- crates/rustflow_core/src/netflow_v9/parser.rs: the values of fields, and `parse_field_value`.
use rustflow.Prelude.{ℕ, Option, none, some, ◌==◌, ◌&&◌, if◌then◌else◌, leb, Bool}
use rustflow.Prelude.Ints.{ℤ}
use rustflow.IeRegistry.{DataType, Text}
use rustflow.Wire.Read.{Bytes, Parser, map_value}
use rustflow.Wire.Nom.{Nom}
use rustflow.FieldParsers.{
  Chrono, ipv4_addr, ipv6_addr, macaddr6, string as parse_string, be_uint, be_int, vector,
  timestamp_secs, timestamp_millis, timestamp_micros, timestamp_nanos,
}

pub data FieldValue (D : Type 0) : Type 0 where
  unsigned8 unsigned16 unsigned32 unsigned64 : ℕ → FieldValue D
  signed8 signed16 signed32 signed64 : ℤ → FieldValue D
  float32 float64 : ℕ → FieldValue D
  mac_address octet_array : Bytes → FieldValue D
  string : Text → FieldValue D
  date_time_seconds date_time_milliseconds date_time_microseconds date_time_nanoseconds :
      D → FieldValue D
  ipv4_address : ℕ → FieldValue D
  ipv6_address : Bytes → FieldValue D
  null : FieldValue D

abbrev pub or_null : {A D : Type 0} → (A → FieldValue D) → Option A → FieldValue D
or_null f none = FieldValue.null
or_null f (some a) = f a

-- An integer of 5, 6 or 7 bytes.
abbrev pub is_reduced : ℕ → Bool
is_reduced length = leb 5 length && leb length 7

module _ (nom : Nom) (chrono : Chrono) where
  open nom use {
    be_u8, be_u16, be_u24, be_u32, be_u64, be_i8, be_i16, be_i24, be_i32, be_i64, be_f32, be_f64,
  }

  abbrev Value : Type 0
  Value = FieldValue chrono.DateTime

  unfoldable pub octets : ℕ → Parser Value
  octets length input = map_value FieldValue.octet_array (vector nom length input)

  unfoldable pub unsigned_value : ℕ → Parser Value
  unsigned_value length input =
      if length == 1
      then map_value FieldValue.unsigned8 (be_u8 input)
      else if length == 2
      then map_value FieldValue.unsigned16 (be_u16 input)
      else if length == 4
      then map_value FieldValue.unsigned32 (be_u32 input)
      else if length == 8
      then map_value FieldValue.unsigned64 (be_u64 input)
      else if length == 3
      then map_value FieldValue.unsigned32 (be_u24 input)
      else if is_reduced length
      then map_value FieldValue.unsigned64 (be_uint nom length input)
      else octets length input

  unfoldable pub signed_value : ℕ → Parser Value
  signed_value length input =
      if length == 1
      then map_value FieldValue.signed8 (be_i8 input)
      else if length == 2
      then map_value FieldValue.signed16 (be_i16 input)
      else if length == 4
      then map_value FieldValue.signed32 (be_i32 input)
      else if length == 8
      then map_value FieldValue.signed64 (be_i64 input)
      else if length == 3
      then map_value FieldValue.signed32 (be_i24 input)
      else if is_reduced length
      then map_value FieldValue.signed64 (be_int nom length input)
      else octets length input

  unfoldable pub float_value : ℕ → Parser Value
  float_value length input =
      if length == 4
      then map_value FieldValue.float32 (be_f32 input)
      else if length == 8
      then map_value FieldValue.float64 (be_f64 input)
      else octets length input

  -- The arms of a type that has one width: any other width is kept as octets.
  unfoldable pub fixed : ℕ → Option (Bytes × Value) → ℕ → Parser Value
  fixed width value length input = if length == width then value else octets length input

  unfoldable pub typed_value : DataType → ℕ → Parser Value
  typed_value DataType.unsigned length input = unsigned_value length input
  typed_value DataType.signed length input = signed_value length input
  typed_value DataType.float length input = float_value length input
  typed_value DataType.mac_address length input =
      fixed 6 (map_value FieldValue.mac_address (macaddr6 nom input)) length input
  typed_value DataType.ipv4_address length input =
      fixed 4 (map_value FieldValue.ipv4_address (ipv4_addr nom input)) length input
  typed_value DataType.ipv6_address length input =
      fixed 16 (map_value FieldValue.ipv6_address (ipv6_addr nom input)) length input
  typed_value DataType.string length input =
      map_value (or_null FieldValue.string) (parse_string nom length input)
  typed_value DataType.date_time_seconds length input =
      fixed 4 (map_value FieldValue.date_time_seconds (timestamp_secs nom chrono input)) length
        input
  typed_value DataType.date_time_milliseconds length input =
      fixed 8
        (map_value (or_null FieldValue.date_time_milliseconds) (timestamp_millis nom chrono input))
        length input
  typed_value DataType.date_time_microseconds length input =
      fixed 8 (map_value FieldValue.date_time_microseconds (timestamp_micros nom chrono input))
        length input
  typed_value DataType.date_time_nanoseconds length input =
      fixed 8 (map_value FieldValue.date_time_nanoseconds (timestamp_nanos nom chrono input)) length
        input
  typed_value _ length input = octets length input

  unfoldable pub parse_field_value : DataType → ℕ → Parser Value
  parse_field_value data_type length input =
      if length == 0 then some (input, FieldValue.null) else typed_value data_type length input
