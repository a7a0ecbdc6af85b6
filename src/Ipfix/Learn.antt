-- ===== src/Ipfix/Learn.antt =====
-- What parsing an IPFIX message does to the templates and the element types of a parser.
use rustflow.Prelude.{
  ℕ, ◌+◌, ◌-◌, ◌≤◌, ◌<◌, ◌^◌, ◌≡◌, ◌≢◌, refl, ◌∙◌, false, Option, none, some, List, length,
  length-map, arith, ◌==◌, Bool-cases, inl, inr, All, map, ltb,
}
use rustflow.TemplateCache.Valid.{IsValid}
use rustflow.TemplateCache.Refresh.{get-refresh_domain, refresh_domain-IsValid}
use rustflow.Wire.Read.{Bytes}
use rustflow.Wire.Nom.{Nom, many}
use rustflow.Wire.Many.{Gives, then-Gives, Gives-map, map_value-Gives, many0-keeps, many_each}
use rustflow.FieldParsers.{Chrono}
use rustflow.FieldParsers.Takes.{Takes, Takes-eq}
use rustflow.FieldParsers.Numbers.{u16-Shrinks, taken-Shrinks, take-Parts}
use rustflow.Ipfix.Types.{
  FieldSpecifier, Field, TemplateRecord, OptionsTemplateRecord, Record, Header, set_header_size,
  ipfix_header_size,
}
use rustflow.Ipfix.Templates.{parse_template_record, parse_options_template_record}
use rustflow.Ipfix.ElementTypes.{lookup}
use rustflow.Ipfix.DataRecords.{
  IpfixParser, max_list_depth, parse_templated_records, parse_field_value,
}
use rustflow.Ipfix.Sets.{
  resolve_fields, learn_records, learn_element_types, is_valid_template_id, ipfix_template_set_id,
  ipfix_options_template_set_id, templates_applied, options_applied, records_learned, parse_records,
  set_bytes, set_parsed, parse_set, parse, parse_header, body_parsed,
}
use rustflow.Ipfix.Isolation.{
  Keeps, ne_false, length-resolve_fields, apply_templates-Keeps, apply_options-Keeps,
  learn_records-others,
}
use rustflow.Ipfix.Messages.{parse_header-Takes}
use rustflow.Ipfix.TemplateSizes.{parse_template_record-Small, parse_options_template_record-Small}

shorter_resolved :
    (f : List FieldSpecifier → List Field) (fields : List Field)
    → ((l : List FieldSpecifier) → length (f l) ≡ length l)
    → length (f (map (λ g. g.spec) fields)) ≡ length fields
shorter_resolved f fields h = h (map (λ g. g.spec) fields) ∙ length-map (λ g. g.spec) fields

module _ (now domain : ℕ) (p : IpfixParser) where
  learn_element_types-Keeps :
      {D : Type 0} (records : List (Record D)) (p' : IpfixParser)
      → Keeps now domain p p'
      → Keeps now domain p (learn_element_types domain records p')
  unfolding learn_element_types
  learn_element_types-Keeps records p' k =
      let learned = learn_records domain p'.ie_registry records p'.element_types false in
      let resolve : List Field → List Field =
        λ fields. resolve_fields p'.ie_registry learned.0 domain (map (λ f. f.spec) fields) in
      let same : (fields : List Field) → length (resolve fields) ≡ length fields = λ fields.
        shorter_resolved (resolve_fields p'.ie_registry learned.0 domain) fields
          (length-resolve_fields p'.ie_registry learned.0 domain) in
      let types : (d id : ℕ) (number : Option ℕ)
          → d ≢ domain
          → lookup d id number learned.0 ≡ lookup d id number p.element_types =
        λ d id number ne.
          learn_records-others domain p'.ie_registry records p'.element_types false d id number ne
          ∙ k.types_kept d id number ne in
      elim (Bool-cases learned.1) [
        | inl e ↦ rw e (record {
          templates_valid =
              refresh_domain-IsValid resolve same p'.templates domain k.templates_valid;
          options_valid =
              refresh_domain-IsValid resolve same p'.options_templates domain k.options_valid;
          templates_kept = λ t d i le ne.
              get-refresh_domain resolve t domain d i p'.templates
              ∙ rw (ne_false d domain ne) (k.templates_kept t d i le ne);
          options_kept = λ t d i le ne.
              get-refresh_domain resolve t domain d i p'.options_templates
              ∙ rw (ne_false d domain ne) (k.options_kept t d i le ne);
          types_kept = types;
        })
        | inr e ↦ rw e (record {
          templates_valid = k.templates_valid;
          options_valid = k.options_valid;
          templates_kept = k.templates_kept;
          options_kept = k.options_kept;
          types_kept = types;
        })
      ]

abbrev IsShort : TemplateRecord → Type 0
IsShort t = length t.fields < 2 ^ 63

abbrev IsShortOptions : OptionsTemplateRecord → Type 0
IsShortOptions t = length t.fields < 2 ^ 63

abbrev BytesWithin : Bytes → Bytes → ℕ × ℕ × Bytes → Type 0
BytesWithin input rest (id, len, bytes) = length bytes ≤ length input

set_bytes-BytesWithin :
    (nom : Nom) (chrono : Chrono) (input : Bytes)
    → Gives (BytesWithin input) (set_bytes nom chrono input)
unfolding set_bytes
set_bytes-BytesWithin nom chrono input =
    then-Gives _ _ (nom.be_u16 input) _ (u16-Shrinks nom input) (λ r1 id s1.
      then-Gives _ _ (nom.be_u16 r1) _ (u16-Shrinks nom r1) (λ r2 len s2.
        elim (Bool-cases (ltb len set_header_size)) [
          | inl b ↦ rw b (unfold Gives in _)
          | inr b ↦ rw b (
              map_value-Gives _ _ (nom.take (len - set_header_size) r2)
                (λ rest bytes h. omega (arith, s1, s2, h))
                (take-Parts nom (len - set_header_size) r2))
        ]))

module _ (nom : Nom) (chrono : Chrono) (now domain : ℕ) (p : IpfixParser) where
  templates_applied-Keeps :
      (p' : IpfixParser) (o : Option (Bytes × List TemplateRecord))
      → Gives (λ rest ts. All IsShort ts) o
      → Keeps now domain p p'
      → Keeps now domain p (templates_applied nom chrono now domain p' o).0
  unfolding Gives
  templates_applied-Keeps p' none h k = k
  templates_applied-Keeps p' (some (rest, ts)) h k = apply_templates-Keeps now domain p ts p' h k

  options_applied-Keeps :
      (p' : IpfixParser) (o : Option (Bytes × List OptionsTemplateRecord))
      → Gives (λ rest ts. All IsShortOptions ts) o
      → Keeps now domain p p'
      → Keeps now domain p (options_applied nom chrono now domain p' o).0
  unfolding Gives
  options_applied-Keeps p' none h k = k
  options_applied-Keeps p' (some (rest, ts)) h k = apply_options-Keeps now domain p ts p' h k

  records_learned-Keeps :
      (p' : IpfixParser) (o : Option (Bytes × List (Record chrono.DateTime)))
      → Keeps now domain p p'
      → Keeps now domain p (records_learned nom chrono domain p' o).0
  records_learned-Keeps p' none k = k
  records_learned-Keeps p' (some (rest, rs)) k = learn_element_types-Keeps now domain p rs p' k

  parse_records-Keeps :
      (id : ℕ) (p' : IpfixParser) (input : Bytes)
      → length input < 2 ^ 63
      → Keeps now domain p p'
      → Keeps now domain p (parse_records nom chrono now domain id p' input).0
  unfolding parse_records
  parse_records-Keeps id p' input small k = elim (Bool-cases (id == ipfix_template_set_id)) [
    | inl e ↦ rw e (
        templates_applied-Keeps p' (many nom TemplateRecord (parse_template_record nom) input)
          (many_each nom (parse_template_record nom) IsShort input (λ i le.
            Gives-map _ _ (parse_template_record nom i) (λ rest t h. omega (arith, h, le, small))
              (parse_template_record-Small nom i)))
          k)
    | inr e ↦ elim (Bool-cases (id == ipfix_options_template_set_id)) [
      | inl e' ↦
          rw (e, e')
            (options_applied-Keeps p'
              (many nom OptionsTemplateRecord (parse_options_template_record nom) input)
              (many_each nom (parse_options_template_record nom) IsShortOptions input (λ i le.
                Gives-map _ _ (parse_options_template_record nom i)
                  (λ rest t h. omega (arith, h, le, small))
                  (parse_options_template_record-Small nom i)))
              k)
      | inr e' ↦ elim (Bool-cases (is_valid_template_id id)) [
        | inl e'' ↦
            rw (e, e', e'')
              (records_learned-Keeps p'
                (parse_templated_records nom chrono now domain p'
                  (parse_field_value nom chrono now domain p' max_list_depth) id input)
                k)
        | inr e'' ↦ rw (e, e', e'') k
      ]
    ]
  ]

  set_parsed-Keeps :
      (p' : IpfixParser) (input : Bytes) (o : Option (Bytes × (ℕ × ℕ × Bytes)))
      → length input < 2 ^ 63
      → Gives (BytesWithin input) o
      → Keeps now domain p p'
      → Keeps now domain p (set_parsed nom chrono now domain p' o).0
  unfolding Gives
  set_parsed-Keeps p' input none small h k = k
  set_parsed-Keeps p' input (some (rest, (id, len, bytes))) small h k =
      parse_records-Keeps id p' bytes (omega (arith, small, h)) k

  parse_set-Keeps :
      (p' : IpfixParser) (input : Bytes)
      → length input < 2 ^ 63
      → Keeps now domain p p'
      → Keeps now domain p (parse_set nom chrono now domain p' input).0
  unfolding parse_set
  parse_set-Keeps p' input small k =
      set_parsed-Keeps p' input (set_bytes nom chrono input) small
        (set_bytes-BytesWithin nom chrono input) k

body_parsed-Keeps :
    (nom : Nom) (chrono : Chrono) (now : ℕ) (p : IpfixParser) (header : Header chrono.DateTime)
    (rest : Bytes) (o : Option (Bytes × Bytes))
    → length rest < 2 ^ 63
    → Gives (λ left body. length body + length left ≤ length rest) o
    → Keeps now header.observation_domain_id p p
    → Keeps now header.observation_domain_id p (body_parsed nom chrono now p header o).0
unfolding Gives
body_parsed-Keeps nom chrono now p header rest none small h k = k
body_parsed-Keeps nom chrono now p header rest (some (left, body)) small h k =
    many0-keeps nom (parse_set nom chrono now header.observation_domain_id)
      (Keeps now header.observation_domain_id p) (length body)
      (λ s i le s'.
        parse_set-Keeps nom chrono now header.observation_domain_id p s i
          (omega (arith, small, h, le)) s')
      p body (omega arith) k

-- What a message leads to, whatever follows its header and whether or not it is well-formed: both
-- template caches are valid, and from then on the templates of every observation domain but the
-- header's, and the definitions of that domain's elements, are read as before. Both caches were
-- valid, and the input is shorter than 2 ^ 63 bytes.
pub parse-KeepsDomains :
    (nom : Nom) (chrono : Chrono) (now : ℕ) (p : IpfixParser) (input rest : Bytes)
    (header : Header chrono.DateTime)
    → length input < 2 ^ 63
    → IsValid now p.templates
    → IsValid now p.options_templates
    → parse_header nom chrono input ≡ some (rest, header)
    → Keeps now header.observation_domain_id p (parse nom chrono now p input).0
unfolding parse Gives
parse-KeepsDomains nom chrono now p input rest header small v v' e =
    let t : Takes 16 input (some (rest, header)) =
      Takes-eq 16 input e (parse_header-Takes nom chrono input) in
    let shorter : 16 + length rest ≤ length input =
      taken-Shrinks 16 input (some (rest, header)) t in
    let within : length rest < 2 ^ 63 = omega (arith, small, shorter) in
    rw e (
      body_parsed-Keeps nom chrono now p header rest
        (nom.take (header.length - ipfix_header_size) rest) within
        (take-Parts nom (header.length - ipfix_header_size) rest)
        (record {
          templates_valid = v;
          options_valid = v';
          templates_kept = λ t d i le ne. refl;
          options_kept = λ t d i le ne. refl;
          types_kept = λ d id number ne. refl;
        }))
