-- ===== src/FlowRecords/Widths.antt =====
-- The data records that the exporter sends against its templates.
use rustflow.Prelude.{
  ℕ, ◌+◌, ◌≡◌, refl, List, [], ◌∷◌, ◌==◌, if◌then◌else◌, length, arith, length-append,
}
use rustflow.Wire.Write.{BufMut}
use rustflow.Wire.RoundTrip.{length-number_bytes}
use rustflow.FieldParsers.{Chrono}
use rustflow.Sampler.{Sampling, count}
use rustflow.NetflowV5.{octets}
use rustflow.FlowCache.{IpAddr, Flow}
use rustflow.Ipfix.Types.{FieldSpecifier, iana, TemplateRecord, new_template, new_options_template}
use rustflow.Ipfix.Encoder.{encode_values, encode_value, encode_field_value}
use rustflow.FlowRecords.{
  FlowData, to_flow_data, template_id, address, placeholders, new_record, to_data_record,
  flow_template, create_flow_templates, create_options_template, options_record, template_of,
}

-- The bytes that the fields declare together.
unfoldable pub declared : List FieldSpecifier → ℕ
declared [] = 0
declared (f ∷ fs) = f.field_length + declared fs

-- The bytes that a template of that ID declares, among templates.
unfoldable pub declared_by : ℕ → List TemplateRecord → ℕ
declared_by id [] = 0
declared_by id (t ∷ ts) =
    let later = declared_by id ts in if t.template_id == id then declared t.fields else later

-- Both addresses of a flow are of one version.
abbrev pub SameVersion : IpAddr → IpAddr → Type 0
SameVersion (IpAddr.v4 a) (IpAddr.v4 b) = Unit
SameVersion (IpAddr.v6 a) (IpAddr.v6 b) = Unit
SameVersion _ _ = ⊥

length-octets : (a : ℕ) → length (octets a) ≡ 4
unfolding octets
length-octets a = refl

-- A flow's data with other addresses.
abbrev between : {D : Type 0} → IpAddr → IpAddr → FlowData D → FlowData D
between source destination d = record d { source_ip = source; destination_ip = destination }

length-between :
    (buf : BufMut) (chrono : Chrono) (s t : IpAddr) (d : FlowData chrono.DateTime)
    → SameVersion s t
    → length (
        encode_values buf chrono
          (to_data_record (between s t d)).fields
          (to_data_record (between s t d)).values
          [])
      ≡ declared_by (template_of s) create_flow_templates
unfolding to_data_record create_flow_templates declared_by declared flow_template new_template iana
    new_record placeholders address encode_values encode_value encode_field_value
length-between buf chrono (IpAddr.v4 a) (IpAddr.v4 b) d same =
    simp
      (
        buf.put_u8_lem, buf.put_u16_lem, buf.put_u64_lem, buf.put_slice_lem, length-append,
        length-number_bytes, length-octets,
      )
      (omega arith)
length-between buf chrono (IpAddr.v6 a) (IpAddr.v6 b) d same =
    simp
      (
        buf.put_u8_lem, buf.put_u16_lem, buf.put_u64_lem, buf.put_slice_lem, length-append,
        length-number_bytes,
      )
      (omega arith)
length-between buf chrono (IpAddr.v4 a) (IpAddr.v6 b) d same = absurd same
length-between buf chrono (IpAddr.v6 a) (IpAddr.v4 b) d same = absurd same

-- The record that is sent of a flow, of either version, is exactly as long as the template of its
-- ID among those that the exporter sends declares. The addresses are of one version.
pub length-to_data_record :
    (buf : BufMut) (chrono : Chrono) (f : Flow chrono.DateTime)
    → SameVersion f.key.source_ip f.key.destination_ip
    → length (
        encode_values buf chrono
          (to_data_record (to_flow_data f)).fields
          (to_data_record (to_flow_data f)).values
          [])
      ≡ declared_by (template_id (to_flow_data f)) create_flow_templates
unfolding to_flow_data template_id
length-to_data_record buf chrono f same =
    length-between buf chrono f.key.source_ip f.key.destination_ip (to_flow_data f) same

-- So is the options record that describes the sampling, against the options template.
pub length-options_record :
    (buf : BufMut) (chrono : Chrono) (domain : ℕ) (s : Sampling)
    → length (
        encode_values buf chrono
          (options_record {D = chrono.DateTime} domain s).fields
          (options_record domain s).values
          [])
      ≡ declared (create_options_template s).fields
unfolding options_record create_options_template declared new_options_template iana new_record
    placeholders encode_values encode_value encode_field_value
length-options_record buf chrono domain (count interval) =
    simp (buf.put_u16_lem, buf.put_u32_lem, length-append, length-number_bytes) (omega arith)
