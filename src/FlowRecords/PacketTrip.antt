-- ===== src/FlowRecords/PacketTrip.antt =====
-- What the exporter sends of a packet is read by the IPFIX parser.
use rustflow.Prelude.{
  ℕ, ◌^◌, ◌<◌, ◌≡◌, refl, min, ap, ◌∙◌, some, List, [], ◌∷◌, ◌++◌, length, arith, Bool-cases, inl,
  inr, ltb,
}
use mathlib.Core.List.{append_assoc}
use rustflow.IeRegistry.{DataType, IeDefinition}
use rustflow.Wire.Read.{Bytes, ◌>>=◌}
use rustflow.Wire.Nom.{Nom}
use rustflow.Wire.Write.{BufMut, number_bytes}
use rustflow.Wire.RoundTrip.{be_u16-bytes, read_bytes-append}
use rustflow.FieldParsers.{Chrono, vector}
use rustflow.Meter.{PacketData}
use rustflow.Ipfix.Types.{Field, iana, FieldValue, value}
use rustflow.Ipfix.Encoder.{
  encode_values, encode_field_value, encode_value, at_width, put_uint, put_variable,
}
use rustflow.Ipfix.Templates.{parse_field_length}
use rustflow.Ipfix.RoundTrip.{parse_field_length-put_variable}
use rustflow.Ipfix.FieldValues.{plain_value, unsigned_value, octets}
use rustflow.Ipfix.DataRecords.{
  IpfixParser, max_list_depth, lookup, ValueParser, parse_values, parse_field_value,
}
use rustflow.Ipfix.Sets.{resolve_fields, resolved}
use rustflow.FlowRecords.Packets.{packet_fields, section_id, packet_record}

put_variable-append :
    (buf : BufMut) (v b : Bytes) → put_variable buf v b ≡ b ++ put_variable buf v []
unfolding put_variable
put_variable-append buf v b = elim (Bool-cases (ltb (length v) 255)) [
  | inl e ↦ simp (e, append_assoc, buf.put_u8_lem, buf.put_slice_lem)
  | inr e ↦ simp (e, append_assoc, buf.put_u8_lem, buf.put_u16_lem, buf.put_slice_lem)
]

two_bytes : (buf : BufMut) (v : ℕ) → put_uint buf v 2 [] ≡ number_bytes 2 v
unfolding put_uint number_bytes
two_bytes buf v = buf.put_slice_lem _ []

module _ (nom : Nom) (buf : BufMut) (chrono : Chrono) where
  record_bytes :
      (r : PacketData)
      → encode_values buf chrono
          (packet_record {D = chrono.DateTime} r).fields
          (packet_record r).values
          []
        ≡ number_bytes 2 (min r.length 65535) ++ put_variable buf r.section []
  unfolding packet_record packet_fields iana encode_values encode_field_value encode_value at_width
  record_bytes r =
      rw (buf.put_slice_lem r.section [], two_bytes buf (min r.length 65535))
        (put_variable-append buf r.section (number_bytes 2 (min r.length 65535)))

  module _ (now domain : ℕ) (p : IpfixParser) where
    abbrev call : ValueParser nom chrono
    call = parse_field_value nom chrono now domain p max_list_depth

    one_value :
        (f : Field) (fs : List Field) (input i1 i2 : Bytes) (n : ℕ) (v : FieldValue chrono.DateTime)
        → parse_field_length nom f.spec.field_length input ≡ some (i1, n)
        → call f.data_type n i1 ≡ some (i2, v)
        → parse_values nom chrono now domain p call (f ∷ fs) input
          ≡ (parse_values nom chrono now domain p call fs i2 >>= λ t. some (t.0, value v t.1))
    unfolding parse_values
    one_value f fs input i1 i2 n v e e' = rw e (rw e' refl)

    size_read :
        (v : ℕ) (rest : Bytes)
        → v < 2 ^ 16
        → call DataType.unsigned 2 (number_bytes 2 v ++ rest) ≡ some (rest, FieldValue.unsigned16 v)
    unfolding parse_field_value plain_value unsigned_value
    size_read v rest h = rw (be_u16-bytes nom v rest h) refl

    section_read :
        (s rest : Bytes)
        → call DataType.octet_array (length s) (s ++ rest) ≡ some (rest, FieldValue.octet_array s)
    unfolding parse_field_value plain_value octets vector
    section_read s rest =
        rw (nom.take_lem (length s) (s ++ rest), read_bytes-append s rest (length s) refl) refl

  -- What is sent of a packet, as a record of its template, is read back by a parser that resolved the
  -- template's fields: the values that were sent, and what follows is left. The parser knows the
  -- first field's element as an unsigned number and the second's as octets, by its registry or by
  -- type records, and the packet's bytes are fewer than 2 ^ 16.
  pub parse_values-packet_record :
      (now domain : ℕ) (p : IpfixParser) (r : PacketData) (rest : Bytes)
      (size section : IeDefinition)
      → lookup p.ie_registry p.element_types domain (iana 312 2) ≡ some size
      → size.data_type ≡ DataType.unsigned
      → lookup p.ie_registry p.element_types domain (iana (section_id r.link) 65535) ≡ some section
      → section.data_type ≡ DataType.octet_array
      → length r.section < 2 ^ 16
      → parse_values nom chrono now domain p
          (parse_field_value nom chrono now domain p max_list_depth)
          (resolve_fields p.ie_registry p.element_types domain (packet_fields r.link))
          (encode_values buf chrono
              (packet_record {D = chrono.DateTime} r).fields
              (packet_record r).values
              []
            ++ rest)
        ≡ some (rest, (packet_record r).values)
  unfolding resolve_fields packet_fields parse_field_length parse_values iana packet_record
  parse_values-packet_record now domain p r rest size section e t e' t' small =
      let n = min r.length 65535 in
      let tail = put_variable buf r.section [] ++ rest in
      let f1 = resolved (iana 312 2) (some size) in
      let f2 = resolved (iana (section_id r.link) 65535) (some section) in
      let first =
        one_value now domain p f1 (f2 ∷ []) (number_bytes 2 n ++ tail) (number_bytes 2 n ++ tail)
          tail 2 (FieldValue.unsigned16 n) refl
          (rw t (size_read now domain p n tail (omega arith))) in
      let second =
        one_value now domain p f2 [] tail (r.section ++ rest) rest (length r.section)
          (FieldValue.octet_array r.section)
          (parse_field_length-put_variable nom buf r.section rest small)
          (rw t' (section_read now domain p r.section rest)) in
      let sent =
        encode_values buf chrono (packet_record {D = chrono.DateTime} r).fields
          (packet_record r).values [] in
      let fields = resolve_fields p.ie_registry p.element_types domain (packet_fields r.link) in
      let fields_known : fields ≡ f1 ∷ f2 ∷ [] = rw (e, e') refl in
      let bytes_known : sent ++ rest ≡ number_bytes 2 n ++ tail =
        ap (λ (b : Bytes). b ++ rest) (record_bytes r)
        ∙ append_assoc (number_bytes 2 n) (put_variable buf r.section []) rest in
      let parse = parse_values nom chrono now domain p (call now domain p) in
      ap (λ (fs : List Field). parse fs (sent ++ rest)) fields_known
      ∙ ap (parse (f1 ∷ f2 ∷ [])) bytes_known
      ∙ first
      ∙ ap (λ o. o >>= λ t. some (t.0, value (FieldValue.unsigned16 n) t.1)) second
