-- ===== src/Ipfix/Sizes.antt =====
-- How much the encoders of encoder.rs add to a buffer, whatever is in it.
use rustflow.Prelude.{
  ℕ, ◌+◌, ◌≡◌, ap, Bool, true, false, Option, none, some, List, [], ◌∷◌, ◌++◌, ◌==◌, if◌then◌else◌,
  length, arith, length-append, leb, ltb,
}
use rustflow.Prelude.Ints.{ℤ}
use rustflow.Wire.Read.{Bytes}
use rustflow.Wire.Write.{BufMut, number_bytes}
use rustflow.Wire.RoundTrip.{length-number_bytes}
use rustflow.FieldParsers.{Chrono}
use rustflow.Ipfix.Types.{
  FieldSpecifier, Field, FieldValue, Values, no_values, value, Records, no_records, data_record,
  Items, no_items, item, Record, Set, TemplateRecord, OptionsTemplateRecord, IpfixPacket,
  ipfix_variable_length,
}
use rustflow.Ipfix.Encoder.{
  put_fixed, put_uint, put_int, put_variable, at_width, encode_field_value, encode_number,
  encode_specifier, encode_specifiers, encode_template, encode_options_template, encode_ntp,
  encode_value, encode_content, encode_values, encode_data_records, encode_items, encode_record,
  encode_records, encode_set, encode_sets, encode,
}

-- What is added does not depend on the buffer.
abbrev pub Adds : (Bytes → Bytes) → Type 0
Adds f = (b : Bytes) → length (f b) ≡ length b + length (f [])

nothing-Adds : Adds (λ b. b)
nothing-Adds b = omega arith

then-Adds : (f g : Bytes → Bytes) → Adds f → Adds g → Adds (λ b. g (f b))
then-Adds f g hf hg b = omega (arith, hf b, hg (f b), hg (f []))

put-Adds : (f : Bytes → Bytes) (s : Bytes) → ((b : Bytes) → f b ≡ b ++ s) → Adds f
put-Adds f s e b = omega (arith, ap length (e b), ap length (e []), length-append b s)

if-Adds : (t : Bool) (f g : Bytes → Bytes) → Adds f → Adds g → Adds (λ b. if t then f b else g b)
if-Adds true f g hf hg = hf
if-Adds false f g hf hg = hg

module _ (buf : BufMut) where
  u8 : (v : ℕ) → Adds (buf.put_u8 v)
  u8 v = put-Adds (buf.put_u8 v) (number_bytes 1 v) (buf.put_u8_lem v)

  u16 : (v : ℕ) → Adds (buf.put_u16 v)
  u16 v = put-Adds (buf.put_u16 v) (number_bytes 2 v) (buf.put_u16_lem v)

  u32 : (v : ℕ) → Adds (buf.put_u32 v)
  u32 v = put-Adds (buf.put_u32 v) (number_bytes 4 v) (buf.put_u32_lem v)

  u64 : (v : ℕ) → Adds (buf.put_u64 v)
  u64 v = put-Adds (buf.put_u64 v) (number_bytes 8 v) (buf.put_u64_lem v)

  slice : (s : Bytes) → Adds (buf.put_slice s)
  slice s = put-Adds (buf.put_slice s) s (buf.put_slice_lem s)

  repeated : (v n : ℕ) → Adds (buf.put_bytes v n)
  repeated v n = put-Adds (buf.put_bytes v n) _ (buf.put_bytes_lem v n)

  put_fixed-Adds : (v : Bytes) (len : ℕ) → Adds (put_fixed buf v len)
  unfolding put_fixed
  put_fixed-Adds v len = then-Adds (buf.put_slice _) (buf.put_bytes 0 _) (slice _) (repeated 0 _)

  put_uint-Adds : (v len : ℕ) → Adds (put_uint buf v len)
  unfolding put_uint
  put_uint-Adds v len =
      if-Adds (leb len (length (number_bytes 8 v))) (buf.put_slice _)
        (λ b. buf.put_slice _ (buf.put_bytes 0 _ b)) (slice _)
        (then-Adds (buf.put_bytes 0 _) (buf.put_slice _) (repeated 0 _) (slice _))

  put_int-Adds : (v : ℤ) (len : ℕ) → Adds (put_int buf v len)
  unfolding put_int
  put_int-Adds v len =
      if-Adds _ (buf.put_slice _) (λ b. buf.put_slice _ (buf.put_bytes _ _ b)) (slice _)
        (then-Adds (buf.put_bytes _ _) (buf.put_slice _) (repeated _ _) (slice _))

  put_variable-Adds : (v : Bytes) → Adds (put_variable buf v)
  unfolding put_variable
  put_variable-Adds v =
      then-Adds _ (buf.put_slice v)
        (if-Adds (ltb (length v) 255) (buf.put_u8 _) (λ b. buf.put_u16 _ (buf.put_u8 255 b)) (u8 _)
          (then-Adds (buf.put_u8 255) (buf.put_u16 _) (u8 255) (u16 _)))
        (slice v)

  at_width-Adds :
      {D : Type 0} (enc : Bytes → Bytes) (v : FieldValue D) (len : ℕ)
      → Adds enc
      → Adds (at_width buf enc v len)
  unfolding at_width
  at_width-Adds enc (FieldValue.unsigned8 v) len h = put_uint-Adds v len
  at_width-Adds enc (FieldValue.unsigned16 v) len h = put_uint-Adds v len
  at_width-Adds enc (FieldValue.unsigned32 v) len h = put_uint-Adds v len
  at_width-Adds enc (FieldValue.unsigned64 v) len h = put_uint-Adds v len
  at_width-Adds enc (FieldValue.signed8 v) len h = put_int-Adds v len
  at_width-Adds enc (FieldValue.signed16 v) len h = put_int-Adds v len
  at_width-Adds enc (FieldValue.signed32 v) len h = put_int-Adds v len
  at_width-Adds enc (FieldValue.signed64 v) len h = put_int-Adds v len
  at_width-Adds enc (FieldValue.octet_array v) len h = put_fixed-Adds v len
  at_width-Adds enc (FieldValue.string v) len h = put_fixed-Adds _ len
  at_width-Adds enc FieldValue.null len h = repeated 0 len
  at_width-Adds enc (FieldValue.unsigned256 v) len h = h
  at_width-Adds enc (FieldValue.float32 v) len h = h
  at_width-Adds enc (FieldValue.float64 v) len h = h
  at_width-Adds enc (FieldValue.boolean v) len h = h
  at_width-Adds enc (FieldValue.mac_address v) len h = h
  at_width-Adds enc (FieldValue.date_time_seconds v) len h = h
  at_width-Adds enc (FieldValue.date_time_milliseconds v) len h = h
  at_width-Adds enc (FieldValue.date_time_microseconds v) len h = h
  at_width-Adds enc (FieldValue.date_time_nanoseconds v) len h = h
  at_width-Adds enc (FieldValue.ipv4_address v) len h = h
  at_width-Adds enc (FieldValue.ipv6_address v) len h = h
  at_width-Adds enc (FieldValue.basic_list s f vs) len h = h
  at_width-Adds enc (FieldValue.sub_template_list s t rs) len h = h
  at_width-Adds enc (FieldValue.sub_template_multi_list s is) len h = h

  encode_field_value-Adds :
      {D : Type 0} (enc : Bytes → Bytes) (v : FieldValue D) (len : ℕ)
      → Adds enc
      → Adds (encode_field_value buf enc v len)
  unfolding encode_field_value
  encode_field_value-Adds enc v len h =
      if-Adds (len == ipfix_variable_length) (put_variable buf (enc [])) _
        (put_variable-Adds (enc []))
        (if-Adds (len == 0) enc (at_width buf enc v len) h (at_width-Adds enc v len h))

  encode_number-Adds : (o : Option ℕ) → Adds (encode_number buf o)
  unfolding encode_number
  encode_number-Adds none = nothing-Adds
  encode_number-Adds (some n) = u32 n

  encode_specifier-Adds : (f : FieldSpecifier) → Adds (encode_specifier buf f)
  unfolding encode_specifier
  encode_specifier-Adds f =
      then-Adds (λ b. buf.put_u16 f.field_length (buf.put_u16 _ b))
        (encode_number buf f.enterprise_number)
        (then-Adds (buf.put_u16 _) (buf.put_u16 f.field_length) (u16 _) (u16 f.field_length))
        (encode_number-Adds f.enterprise_number)

  encode_specifiers-Adds : (fs : List FieldSpecifier) → Adds (encode_specifiers buf fs)
  unfolding encode_specifiers
  encode_specifiers-Adds [] = nothing-Adds
  encode_specifiers-Adds (f ∷ fs) =
      then-Adds (encode_specifier buf f) (encode_specifiers buf fs) (encode_specifier-Adds f)
        (encode_specifiers-Adds fs)

  encode_template-Adds : (t : TemplateRecord) → Adds (encode_template buf t)
  unfolding encode_template
  encode_template-Adds t =
      then-Adds (λ b. buf.put_u16 t.field_count (buf.put_u16 t.template_id b))
        (encode_specifiers buf t.fields)
        (then-Adds (buf.put_u16 t.template_id) (buf.put_u16 t.field_count) (u16 _) (u16 _))
        (encode_specifiers-Adds t.fields)

  encode_options_template-Adds : (t : OptionsTemplateRecord) → Adds (encode_options_template buf t)
  unfolding encode_options_template
  encode_options_template-Adds t =
      then-Adds
        (λ b.
          buf.put_u16 t.scope_field_count (buf.put_u16 t.field_count (buf.put_u16 t.template_id b)))
        (encode_specifiers buf t.fields)
        (then-Adds (λ b. buf.put_u16 t.field_count (buf.put_u16 t.template_id b))
          (buf.put_u16 t.scope_field_count)
          (then-Adds (buf.put_u16 t.template_id) (buf.put_u16 t.field_count) (u16 _) (u16 _))
          (u16 _))
        (encode_specifiers-Adds t.fields)

  module _ (chrono : Chrono) where
    encode_ntp-Adds : (dt : chrono.DateTime) → Adds (encode_ntp buf chrono dt)
    unfolding encode_ntp
    encode_ntp-Adds dt = then-Adds (buf.put_u32 _) (buf.put_u32 _) (u32 _) (u32 _)

    mutual
      unfolding encode_value encode_content encode_values encode_data_records encode_items

      encode_value-Adds : (v : FieldValue chrono.DateTime) → Adds (encode_value buf chrono v)
      encode_value-Adds (FieldValue.unsigned8 v) = u8 v
      encode_value-Adds (FieldValue.unsigned16 v) = u16 v
      encode_value-Adds (FieldValue.unsigned32 v) = u32 v
      encode_value-Adds (FieldValue.unsigned64 v) = u64 v
      encode_value-Adds (FieldValue.unsigned256 v) = slice v
      encode_value-Adds (FieldValue.signed8 v) = u8 _
      encode_value-Adds (FieldValue.signed16 v) = u16 _
      encode_value-Adds (FieldValue.signed32 v) = u32 _
      encode_value-Adds (FieldValue.signed64 v) = u64 _
      encode_value-Adds (FieldValue.float32 v) = u32 v
      encode_value-Adds (FieldValue.float64 v) = u64 v
      encode_value-Adds (FieldValue.boolean v) = u8 _
      encode_value-Adds (FieldValue.mac_address v) = slice v
      encode_value-Adds (FieldValue.octet_array v) = slice v
      encode_value-Adds (FieldValue.string v) = slice v
      encode_value-Adds (FieldValue.date_time_seconds v) = u32 _
      encode_value-Adds (FieldValue.date_time_milliseconds v) = u64 _
      encode_value-Adds (FieldValue.date_time_microseconds v) = encode_ntp-Adds v
      encode_value-Adds (FieldValue.date_time_nanoseconds v) = encode_ntp-Adds v
      encode_value-Adds (FieldValue.ipv4_address v) = slice _
      encode_value-Adds (FieldValue.ipv6_address v) = slice v
      encode_value-Adds (FieldValue.basic_list semantic field content) =
          then-Adds (λ b. encode_specifier buf field (buf.put_u8 _ b))
            (encode_content buf chrono field.field_length content)
            (then-Adds (buf.put_u8 _) (encode_specifier buf field) (u8 _)
              (encode_specifier-Adds field))
            (encode_content-Adds field.field_length content)
      encode_value-Adds (FieldValue.sub_template_list semantic id rs) =
          then-Adds (λ b. buf.put_u16 id (buf.put_u8 _ b)) (encode_data_records buf chrono rs)
            (then-Adds (buf.put_u8 _) (buf.put_u16 id) (u8 _) (u16 id))
            (encode_data_records-Adds rs)
      encode_value-Adds (FieldValue.sub_template_multi_list semantic is) =
          then-Adds (buf.put_u8 _) (encode_items buf chrono is) (u8 _) (encode_items-Adds is)
      encode_value-Adds FieldValue.null = nothing-Adds

      encode_content-Adds :
          (len : ℕ) (vs : Values chrono.DateTime) → Adds (encode_content buf chrono len vs)
      encode_content-Adds len no_values = nothing-Adds
      encode_content-Adds len (value v vs) =
          then-Adds (encode_field_value buf (encode_value buf chrono v) v len)
            (encode_content buf chrono len vs)
            (encode_field_value-Adds (encode_value buf chrono v) v len (encode_value-Adds v))
            (encode_content-Adds len vs)

      encode_values-Adds :
          (fs : List Field) (vs : Values chrono.DateTime) → Adds (encode_values buf chrono fs vs)
      encode_values-Adds fs no_values = nothing-Adds
      encode_values-Adds [] (value v vs) = nothing-Adds
      encode_values-Adds (f ∷ fs) (value v vs) =
          then-Adds (encode_field_value buf (encode_value buf chrono v) v f.spec.field_length)
            (encode_values buf chrono fs vs)
            (encode_field_value-Adds (encode_value buf chrono v) v f.spec.field_length
              (encode_value-Adds v))
            (encode_values-Adds fs vs)

      encode_data_records-Adds :
          (rs : Records chrono.DateTime) → Adds (encode_data_records buf chrono rs)
      encode_data_records-Adds no_records = nothing-Adds
      encode_data_records-Adds (data_record fs vs rs) =
          then-Adds (encode_values buf chrono fs vs) (encode_data_records buf chrono rs)
            (encode_values-Adds fs vs) (encode_data_records-Adds rs)

      encode_items-Adds : (is : Items chrono.DateTime) → Adds (encode_items buf chrono is)
      encode_items-Adds no_items = nothing-Adds
      encode_items-Adds (item id len rs more) =
          then-Adds (λ b. encode_data_records buf chrono rs (buf.put_u16 len (buf.put_u16 id b)))
            (encode_items buf chrono more)
            (then-Adds (λ b. buf.put_u16 len (buf.put_u16 id b)) (encode_data_records buf chrono rs)
              (then-Adds (buf.put_u16 id) (buf.put_u16 len) (u16 id) (u16 len))
              (encode_data_records-Adds rs))
            (encode_items-Adds more)

    pub encode_record-Adds : (r : Record chrono.DateTime) → Adds (encode_record buf chrono r)
    unfolding encode_record
    encode_record-Adds (Record.template t) = encode_template-Adds t
    encode_record-Adds (Record.options_template t) = encode_options_template-Adds t
    encode_record-Adds (Record.data_of r) = encode_values-Adds r.fields r.values
    encode_record-Adds (Record.options_data r) = encode_values-Adds r.fields r.values

    encode_records-Adds : (rs : List (Record chrono.DateTime)) → Adds (encode_records buf chrono rs)
    unfolding encode_records
    encode_records-Adds [] = nothing-Adds
    encode_records-Adds (r ∷ rs) =
        then-Adds (encode_record buf chrono r) (encode_records buf chrono rs) (encode_record-Adds r)
          (encode_records-Adds rs)

    -- The records of a set are as long as their encodings together.
    pub length-encode_records :
        (r : Record chrono.DateTime) (rs : List (Record chrono.DateTime))
        → length (encode_records buf chrono (r ∷ rs) [])
          ≡ length (encode_record buf chrono r []) + length (encode_records buf chrono rs [])
    unfolding encode_records
    length-encode_records r rs = encode_records-Adds rs (encode_record buf chrono r [])

    -- A packet of one set is 20 bytes longer than the set's records.
    pub length-encode :
        (p : IpfixPacket chrono.DateTime) (s : Set chrono.DateTime)
        → p.sets ≡ s ∷ []
        → length (encode buf chrono p []) ≡ 20 + length (encode_records buf chrono s.records [])
    unfolding encode encode_sets encode_set
    length-encode p s e = rw e (
        simp
          (buf.put_u16_lem, buf.put_u32_lem, buf.put_slice_lem, length-append, length-number_bytes)
          (omega arith))
