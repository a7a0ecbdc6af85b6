-- ===== src/NetflowV9/Widths.antt =====
-- How much the parts of a NetFlow v9 packet take of their input.
use rustflow.Prelude.{ℕ, ◌≡◌, refl, Option, arith, ◌==◌, ==_iff, Bool-cases, inl, inr}
use rustflow.IeRegistry.{DataType}
use rustflow.Wire.Read.{Bytes}
use rustflow.Wire.Nom.{Nom}
use rustflow.FieldParsers.{
  Chrono, ipv4_addr, ipv6_addr, macaddr6, string, be_uint, be_int, vector, timestamp_secs,
  timestamp_millis, two_u32, timestamp_micros, timestamp_nanos,
}
use rustflow.FieldParsers.Takes.{
  Takes, map_value-Takes, map_opt-Takes, width-Takes, either-Takes, then-Takes,
}
use rustflow.FieldParsers.Numbers.{
  take-Takes, u8-Takes, u16-Takes, u24-Takes, u32-Takes, u64-Takes, i8-Takes, i16-Takes, i24-Takes,
  i32-Takes, i64-Takes, f32-Takes, f64-Takes,
}
use rustflow.NetflowV9.Fields.{
  FieldValue, parse_field_value, octets, unsigned_value, signed_value, float_value, fixed,
  typed_value, is_reduced,
}

module _ (nom : Nom) (chrono : Chrono) (n : ℕ) (input : Bytes) where
  abbrev Value : Type 0
  Value = FieldValue chrono.DateTime

  octets-Takes : Takes n input (octets nom chrono n input)
  unfolding octets vector
  octets-Takes =
      map_value-Takes n input FieldValue.octet_array (nom.take n input) (take-Takes nom input n)

  uint-Takes : Takes n input (be_uint nom n input)
  unfolding be_uint
  uint-Takes = map_value-Takes n input _ (nom.take n input) (take-Takes nom input n)

  -- A value read at a width, and octets at any other.
  unsigned_value-Takes : Takes n input (unsigned_value nom chrono n input)
  unfolding unsigned_value
  unsigned_value-Takes =
      width-Takes n input _ _ 1 (map_value-Takes 1 input _ _ (u8-Takes nom input)) (
        width-Takes n input _ _ 2 (map_value-Takes 2 input _ _ (u16-Takes nom input)) (
          width-Takes n input _ _ 4 (map_value-Takes 4 input _ _ (u32-Takes nom input)) (
            width-Takes n input _ _ 8 (map_value-Takes 8 input _ _ (u64-Takes nom input)) (
              width-Takes n input _ _ 3 (map_value-Takes 3 input _ _ (u24-Takes nom input)) (
                either-Takes n input _ _ (is_reduced n) (map_value-Takes n input _ _ uint-Takes)
                  octets-Takes)))))

  int-Takes : Takes n input (be_int nom n input)
  unfolding be_int
  int-Takes = map_value-Takes n input _ _ uint-Takes

  signed_value-Takes : Takes n input (signed_value nom chrono n input)
  unfolding signed_value
  signed_value-Takes =
      width-Takes n input _ _ 1 (map_value-Takes 1 input _ _ (i8-Takes nom input)) (
        width-Takes n input _ _ 2 (map_value-Takes 2 input _ _ (i16-Takes nom input)) (
          width-Takes n input _ _ 4 (map_value-Takes 4 input _ _ (i32-Takes nom input)) (
            width-Takes n input _ _ 8 (map_value-Takes 8 input _ _ (i64-Takes nom input)) (
              width-Takes n input _ _ 3 (map_value-Takes 3 input _ _ (i24-Takes nom input)) (
                either-Takes n input _ _ (is_reduced n) (map_value-Takes n input _ _ int-Takes)
                  octets-Takes)))))

  float_value-Takes : Takes n input (float_value nom chrono n input)
  unfolding float_value
  float_value-Takes =
      width-Takes n input _ _ 4 (map_value-Takes 4 input _ _ (f32-Takes nom input))
        (width-Takes n input _ _ 8 (map_value-Takes 8 input _ _ (f64-Takes nom input)) octets-Takes)

  -- A value of the one width of its type.
  fixed-Takes :
      (w : ℕ) (value : Option (Bytes × Value))
      → Takes w input value
      → Takes n input (fixed nom chrono w value n input)
  unfolding fixed
  fixed-Takes w value h = width-Takes n input _ _ w h octets-Takes

  two_u32-Takes : Takes 8 input (two_u32 nom input)
  unfolding two_u32 Takes
  two_u32-Takes = then-Takes 4 4 input (nom.be_u32 input) _ (u32-Takes nom input) (λ rest s.
      then-Takes 4 0 rest (nom.be_u32 rest) _ (u32-Takes nom rest) (λ rest' f. (omega arith, refl)))

  millis-Takes : Takes 8 input (timestamp_millis nom chrono input)
  unfolding timestamp_millis
  millis-Takes = map_value-Takes 8 input _ _ (u64-Takes nom input)

  typed_value-Takes : (t : DataType) → Takes n input (typed_value nom chrono t n input)
  unfolding typed_value macaddr6 ipv4_addr ipv6_addr string timestamp_secs timestamp_micros
      timestamp_nanos
  typed_value-Takes DataType.unsigned = unsigned_value-Takes
  typed_value-Takes DataType.signed = signed_value-Takes
  typed_value-Takes DataType.float = float_value-Takes
  typed_value-Takes DataType.mac_address =
      fixed-Takes 6 _ (map_value-Takes 6 input _ _ (take-Takes nom input 6))
  typed_value-Takes DataType.ipv4_address =
      fixed-Takes 4 _ (map_value-Takes 4 input _ _ (u32-Takes nom input))
  typed_value-Takes DataType.ipv6_address =
      fixed-Takes 16 _ (map_value-Takes 16 input _ _ (take-Takes nom input 16))
  typed_value-Takes DataType.string =
      map_value-Takes n input _ _ (map_value-Takes n input _ _ (take-Takes nom input n))
  typed_value-Takes DataType.date_time_seconds =
      fixed-Takes 4 _
        (map_value-Takes 4 input _ _ (map_opt-Takes 4 input _ _ (u32-Takes nom input)))
  typed_value-Takes DataType.date_time_milliseconds =
      fixed-Takes 8 _ (map_value-Takes 8 input _ _ millis-Takes)
  typed_value-Takes DataType.date_time_microseconds =
      fixed-Takes 8 _ (map_value-Takes 8 input _ _ (map_opt-Takes 8 input _ _ two_u32-Takes))
  typed_value-Takes DataType.date_time_nanoseconds =
      fixed-Takes 8 _ (map_value-Takes 8 input _ _ (map_opt-Takes 8 input _ _ two_u32-Takes))
  typed_value-Takes DataType.boolean = octets-Takes
  typed_value-Takes DataType.octet_array = octets-Takes
  typed_value-Takes DataType.basic_list = octets-Takes
  typed_value-Takes DataType.sub_template_list = octets-Takes
  typed_value-Takes DataType.sub_template_multi_list = octets-Takes

  -- Whatever its type, a field whose value is read takes exactly the bytes that its template
  -- declares, so that the next field starts where this one ends.
  pub parse_field_value-Takes :
      (t : DataType) → Takes n input (parse_field_value nom chrono t n input)
  unfolding parse_field_value
  parse_field_value-Takes t = elim (Bool-cases (n == 0)) [
    | inl e ↦ rw e (let z : n ≡ 0 = (==_iff n 0).0 e in unfold Takes in (omega arith, rw z refl))
    | inr e ↦ rw e (typed_value-Takes t)
  ]
