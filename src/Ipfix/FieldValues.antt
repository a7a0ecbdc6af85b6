-- ===== src/Ipfix/FieldValues.antt =====
-- crates/rustflow_core/src/ipfix/parser.rs: the values of fields that are no lists.
use rustflow.Prelude.{ℕ, Bool, ◌||◌, Option, none, some, ◌==◌, if◌then◌else◌}
use rustflow.IeRegistry.{DataType}
use rustflow.Wire.Read.{Bytes, Parser, map_value}
use rustflow.Wire.Nom.{Nom}
use rustflow.FieldParsers.{
  Chrono, ipv4_addr, ipv6_addr, macaddr6, string as parse_string, boolean as parse_boolean, be_uint,
  be_int, vector, timestamp_secs, timestamp_millis, timestamp_micros, timestamp_nanos,
}
use rustflow.Ipfix.Types.{FieldValue}

abbrev pub or_null : {A D : Type 0} → (A → FieldValue D) → Option A → FieldValue D
or_null f none = FieldValue.null
or_null f (some a) = f a

abbrev pub is_reduced : ℕ → Bool
is_reduced length = (length == 5) || (length == 6) || (length == 7)

module _ (nom : Nom) (chrono : Chrono) where
  open nom use {
    be_u8, be_u16, be_u24, be_u32, be_u64, be_i8, be_i16, be_i24, be_i32, be_i64, be_f32, be_f64,
  }

  abbrev Value : Type 0
  Value = FieldValue chrono.DateTime

  unfoldable pub octets : ℕ → Parser Value
  octets length input = map_value FieldValue.octet_array (vector nom length input)

  unfoldable pub unsigned_value : ℕ → Parser Value
  unsigned_value length input =
      if length == 1
      then map_value FieldValue.unsigned8 (be_u8 input)
      else if length == 2
      then map_value FieldValue.unsigned16 (be_u16 input)
      else if length == 4
      then map_value FieldValue.unsigned32 (be_u32 input)
      else if length == 8
      then map_value FieldValue.unsigned64 (be_u64 input)
      else if length == 3
      then map_value FieldValue.unsigned32 (be_u24 input)
      else if is_reduced length
      then map_value FieldValue.unsigned64 (be_uint nom length input)
      else octets length input

  unfoldable pub signed_value : ℕ → Parser Value
  signed_value length input =
      if length == 1
      then map_value FieldValue.signed8 (be_i8 input)
      else if length == 2
      then map_value FieldValue.signed16 (be_i16 input)
      else if length == 4
      then map_value FieldValue.signed32 (be_i32 input)
      else if length == 8
      then map_value FieldValue.signed64 (be_i64 input)
      else if length == 3
      then map_value FieldValue.signed32 (be_i24 input)
      else if is_reduced length
      then map_value FieldValue.signed64 (be_int nom length input)
      else octets length input

  unfoldable pub float_value : ℕ → Parser Value
  float_value length input =
      if length == 4
      then map_value FieldValue.float32 (be_f32 input)
      else if length == 8
      then map_value FieldValue.float64 (be_f64 input)
      else octets length input

  -- The arms of a type that has one width: any other width is kept as octets.
  unfoldable pub fixed : ℕ → Option (Bytes × Value) → ℕ → Parser Value
  fixed width v length input = if length == width then v else octets length input

  -- A value that is no list, or one that is nested too deep.
  unfoldable pub plain_value : DataType → ℕ → Parser Value
  plain_value DataType.boolean length input =
      fixed 1 (map_value (or_null FieldValue.boolean) (parse_boolean nom input)) length input
  plain_value DataType.unsigned length input = unsigned_value length input
  plain_value DataType.signed length input = signed_value length input
  plain_value DataType.float length input = float_value length input
  plain_value DataType.mac_address length input =
      fixed 6 (map_value FieldValue.mac_address (macaddr6 nom input)) length input
  plain_value DataType.ipv4_address length input =
      fixed 4 (map_value FieldValue.ipv4_address (ipv4_addr nom input)) length input
  plain_value DataType.ipv6_address length input =
      fixed 16 (map_value FieldValue.ipv6_address (ipv6_addr nom input)) length input
  plain_value DataType.string length input =
      map_value (or_null FieldValue.string) (parse_string nom length input)
  plain_value DataType.date_time_seconds length input =
      fixed 4 (map_value FieldValue.date_time_seconds (timestamp_secs nom chrono input)) length
        input
  plain_value DataType.date_time_milliseconds length input =
      fixed 8
        (map_value (or_null FieldValue.date_time_milliseconds) (timestamp_millis nom chrono input))
        length input
  plain_value DataType.date_time_microseconds length input =
      fixed 8 (map_value FieldValue.date_time_microseconds (timestamp_micros nom chrono input))
        length input
  plain_value DataType.date_time_nanoseconds length input =
      fixed 8 (map_value FieldValue.date_time_nanoseconds (timestamp_nanos nom chrono input)) length
        input
  plain_value _ length input = octets length input
