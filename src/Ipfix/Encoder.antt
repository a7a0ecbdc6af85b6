-- ===== src/Ipfix/Encoder.antt =====
-- crates/rustflow_core/src/ipfix/encoder.rs. An encoder returns the buffer with what it added.
use Prim.Native.Nat.{bit_or}
use rustflow.Prelude.{
  ℕ, zero, suc, ◌+◌, ◌-◌, ◌*◌, ◌/◌, ◌%◌, ◌^◌, Bool, true, false, Option, none, some, List, [], ◌∷◌,
  ◌==◌, ltb, leb, if◌then◌else◌, length, take, drop, min, ◌&&◌,
}
use rustflow.Prelude.Ints.{ℤ, bits, is_negative}
use rustflow.IeRegistry.{Text}
use rustflow.Wire.Read.{Bytes}
use rustflow.Wire.Write.{BufMut, number_bytes}
use rustflow.FieldParsers.{Chrono, ntp_unix_epoch_diff}
use rustflow.NetflowV5.{octets}
use rustflow.Ipfix.Types.{
  ipfix_variable_length, set_header_size, ipfix_header_size, FieldSpecifier, Field, semantic_number,
  FieldValue, Values, no_values, value, Records, no_records, data_record, Items, no_items, item,
  TemplateRecord, OptionsTemplateRecord, Record, Set, IpfixPacket,
}

-- Whether `n` bytes of a text end at a character: a byte from 0x80 to 0xbf continues one.
unfoldable pub is_char_boundary : Text → ℕ → Bool
is_char_boundary v zero = true
is_char_boundary [] (suc n) = true
is_char_boundary (b ∷ []) (suc zero) = true
is_char_boundary (b ∷ c ∷ v) (suc zero) = if leb 0x80 c && ltb c 0xc0 then false else true
is_char_boundary (b ∷ v) (suc n) = is_char_boundary v n

-- The greatest character boundary up to `n`.
unfoldable pub floor_char_boundary : Text → ℕ → ℕ
floor_char_boundary v zero = zero
floor_char_boundary v (suc n) =
    let lower = floor_char_boundary v n in if is_char_boundary v (suc n) then suc n else lower

module _ (buf : BufMut) where
  open buf use {put_u8, put_u16, put_u32, put_u64, put_slice, put_bytes}

  unfoldable pub put_fixed : Bytes → ℕ → Bytes → Bytes
  put_fixed v len b =
      let cut = take (min (length v) len) v in
      let b = put_slice cut b in put_bytes 0 (len - length cut) b

  unfoldable pub put_uint : ℕ → ℕ → Bytes → Bytes
  put_uint v len b =
      let v_bytes = number_bytes 8 v in
      if leb len (length v_bytes)
      then put_slice (drop (length v_bytes - len) v_bytes) b
      else let b = put_bytes 0 (len - length v_bytes) b in put_slice v_bytes b

  unfoldable pub put_int : ℤ → ℕ → Bytes → Bytes
  put_int v len b =
      let v_bytes = number_bytes 8 (bits 64 v) in
      if leb len (length v_bytes)
      then put_slice (drop (length v_bytes - len) v_bytes) b
      else let b = put_bytes (if is_negative v then 0xff else 0) (len - length v_bytes) b in
        put_slice v_bytes b

  -- A length prefix of one byte or three, and the value.
  unfoldable pub put_variable : Bytes → Bytes → Bytes
  put_variable value_data b =
      let b =
        if ltb (length value_data) 255
        then put_u8 (length value_data % 2 ^ 8) b
        else put_u16 (length value_data % 2 ^ 16) (put_u8 255 b) in
      put_slice value_data b

  -- The value at a fixed width; `encode` writes it at its natural one.
  unfoldable pub at_width : {D : Type 0} → (Bytes → Bytes) → FieldValue D → ℕ → Bytes → Bytes
  at_width encode (FieldValue.unsigned8 v) len b = put_uint v len b
  at_width encode (FieldValue.unsigned16 v) len b = put_uint v len b
  at_width encode (FieldValue.unsigned32 v) len b = put_uint v len b
  at_width encode (FieldValue.unsigned64 v) len b = put_uint v len b
  at_width encode (FieldValue.signed8 v) len b = put_int v len b
  at_width encode (FieldValue.signed16 v) len b = put_int v len b
  at_width encode (FieldValue.signed32 v) len b = put_int v len b
  at_width encode (FieldValue.signed64 v) len b = put_int v len b
  at_width encode (FieldValue.octet_array v) len b = put_fixed v len b
  at_width encode (FieldValue.string v) len b = put_fixed (take (floor_char_boundary v len) v) len b
  at_width encode FieldValue.null len b = put_bytes 0 len b
  at_width encode _ len b = encode b

  -- `encode` writes the value at its natural width.
  unfoldable pub encode_field_value :
      {D : Type 0} → (Bytes → Bytes) → FieldValue D → ℕ → Bytes → Bytes
  encode_field_value encode v field_length b =
      if field_length == ipfix_variable_length
      then put_variable (encode []) b
      else if field_length == 0
      then encode b
      else at_width encode v field_length b

  unfoldable pub encode_number : Option ℕ → Bytes → Bytes
  encode_number none b = b
  encode_number (some n) b = put_u32 n b

  unfoldable pub encode_specifier : FieldSpecifier → Bytes → Bytes
  encode_specifier f b =
      let id_with_enterprise_bit =
        if f.enterprise_bit
        then bit_or f.information_element_identifier 0x8000
        else f.information_element_identifier in
      let b = put_u16 id_with_enterprise_bit b in
      let b = put_u16 f.field_length b in encode_number f.enterprise_number b

  unfoldable pub encode_specifiers : List FieldSpecifier → Bytes → Bytes
  encode_specifiers [] b = b
  encode_specifiers (f ∷ fs) b = encode_specifiers fs (encode_specifier f b)

  unfoldable pub encode_template : TemplateRecord → Bytes → Bytes
  encode_template t b =
      let b = put_u16 t.template_id b in
      let b = put_u16 t.field_count b in encode_specifiers t.fields b

  unfoldable pub encode_options_template : OptionsTemplateRecord → Bytes → Bytes
  encode_options_template t b =
      let b = put_u16 t.template_id b in
      let b = put_u16 t.field_count b in
      let b = put_u16 t.scope_field_count b in encode_specifiers t.fields b

  module _ (chrono : Chrono) where
    open chrono use {DateTime, timestamp, timestamp_millis, timestamp_subsec_nanos}

    -- Seconds since 1900 and the fraction of a second, each a u32.
    unfoldable pub datetime_to_ntp : DateTime → ℕ × ℕ
    datetime_to_ntp dt =
        let unix_secs = bits 64 (timestamp dt) in
        let ntp_secs = (unix_secs + ntp_unix_epoch_diff) % 2 ^ 64 in
        let fraction = timestamp_subsec_nanos dt * 2 ^ 32 % 2 ^ 64 / 1_000_000_000 in
        (ntp_secs % 2 ^ 32, fraction % 2 ^ 32)

    unfoldable pub encode_ntp : DateTime → Bytes → Bytes
    encode_ntp dt b =
        let (ntp_secs, fraction) = datetime_to_ntp dt in put_u32 fraction (put_u32 ntp_secs b)

    unfoldable mutual
      pub encode_value : FieldValue DateTime → Bytes → Bytes
      encode_value (FieldValue.unsigned8 v) b = put_u8 v b
      encode_value (FieldValue.unsigned16 v) b = put_u16 v b
      encode_value (FieldValue.unsigned32 v) b = put_u32 v b
      encode_value (FieldValue.unsigned64 v) b = put_u64 v b
      encode_value (FieldValue.unsigned256 v) b = put_slice v b
      encode_value (FieldValue.signed8 v) b = put_u8 (bits 8 v) b
      encode_value (FieldValue.signed16 v) b = put_u16 (bits 16 v) b
      encode_value (FieldValue.signed32 v) b = put_u32 (bits 32 v) b
      encode_value (FieldValue.signed64 v) b = put_u64 (bits 64 v) b
      encode_value (FieldValue.float32 v) b = put_u32 v b
      encode_value (FieldValue.float64 v) b = put_u64 v b
      encode_value (FieldValue.boolean v) b = put_u8 (if v then 1 else 2) b
      encode_value (FieldValue.mac_address v) b = put_slice v b
      encode_value (FieldValue.octet_array v) b = put_slice v b
      encode_value (FieldValue.string v) b = put_slice v b
      encode_value (FieldValue.date_time_seconds v) b = put_u32 (bits 32 (timestamp v)) b
      encode_value (FieldValue.date_time_milliseconds v) b =
          put_u64 (bits 64 (timestamp_millis v)) b
      encode_value (FieldValue.date_time_microseconds v) b = encode_ntp v b
      encode_value (FieldValue.date_time_nanoseconds v) b = encode_ntp v b
      encode_value (FieldValue.ipv4_address v) b = put_slice (octets v) b
      encode_value (FieldValue.ipv6_address v) b = put_slice v b
      encode_value (FieldValue.basic_list semantic field content) b =
          let b = put_u8 (semantic_number semantic) b in
          let b = encode_specifier field b in encode_content field.field_length content b
      encode_value (FieldValue.sub_template_list semantic template_id records) b =
          let b = put_u8 (semantic_number semantic) b in
          let b = put_u16 template_id b in encode_data_records records b
      encode_value (FieldValue.sub_template_multi_list semantic items) b =
          let b = put_u8 (semantic_number semantic) b in encode_items items b
      encode_value FieldValue.null b = b

      -- Every value of a basic list at the width of the list's specifier.
      pub encode_content : ℕ → Values DateTime → Bytes → Bytes
      encode_content len no_values b = b
      encode_content len (value v vs) b =
          encode_content len vs (encode_field_value (encode_value v) v len b)

      -- The values of a record by their fields, as far as both go.
      pub encode_values : List Field → Values DateTime → Bytes → Bytes
      encode_values fs no_values b = b
      encode_values [] (value v vs) b = b
      encode_values (f ∷ fs) (value v vs) b =
          encode_values fs vs (encode_field_value (encode_value v) v f.spec.field_length b)

      pub encode_data_records : Records DateTime → Bytes → Bytes
      encode_data_records no_records b = b
      encode_data_records (data_record fields vs rs) b =
          encode_data_records rs (encode_values fields vs b)

      pub encode_items : Items DateTime → Bytes → Bytes
      encode_items no_items b = b
      encode_items (item template_id len rs more) b =
          encode_items more (encode_data_records rs (put_u16 len (put_u16 template_id b)))

    unfoldable pub encode_record : Record DateTime → Bytes → Bytes
    encode_record (Record.template t) b = encode_template t b
    encode_record (Record.options_template t) b = encode_options_template t b
    encode_record (Record.data_of r) b = encode_values r.fields r.values b
    encode_record (Record.options_data r) b = encode_values r.fields r.values b

    unfoldable pub encode_records : List (Record DateTime) → Bytes → Bytes
    encode_records [] b = b
    encode_records (r ∷ rs) b = encode_records rs (encode_record r b)

    unfoldable pub encode_set : Set DateTime → Bytes → Bytes
    encode_set s b =
        let records_data = encode_records s.records [] in
        let b = put_u16 s.id b in
        let b = put_u16 ((set_header_size + length records_data % 2 ^ 16) % 2 ^ 16) b in
        put_slice records_data b

    unfoldable pub encode_sets : List (Set DateTime) → Bytes → Bytes
    encode_sets [] b = b
    encode_sets (s ∷ ss) b = encode_sets ss (encode_set s b)

    unfoldable pub encode : IpfixPacket DateTime → Bytes → Bytes
    encode p b =
        let sets_data = encode_sets p.sets [] in
        let b = put_u16 p.header.version b in
        let b = put_u16 ((ipfix_header_size + length sets_data % 2 ^ 16) % 2 ^ 16) b in
        let b = put_u32 (bits 32 (timestamp p.header.export_time)) b in
        let b = put_u32 p.header.sequence_number b in
        let b = put_u32 p.header.observation_domain_id b in put_slice sets_data b
