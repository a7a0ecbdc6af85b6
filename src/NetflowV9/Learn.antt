-- ===== src/NetflowV9/Learn.antt =====
-- What parsing a NetFlow v9 packet does to the parser's templates.
use rustflow.Prelude.{
  ℕ, ◌+◌, ◌-◌, ◌≤◌, ◌<◌, ◌^◌, ◌≡◌, ◌≢◌, refl, ◌∙◌, Option, none, some, List, [], ◌∷◌, length, arith,
  All, length-map, ◌==◌, ==_iff, Bool-cases, inl, inr, ltb,
}
use rustflow.TemplateCache.{TemplateCache, get, insert}
use rustflow.TemplateCache.Valid.{IsValid}
use rustflow.TemplateCache.Preserve.{insert-IsValid}
use rustflow.TemplateCache.Contract.{get-insert}
use rustflow.IeRegistry.{IeRegistry}
use rustflow.Wire.Read.{Bytes}
use rustflow.Wire.Nom.{Nom, many}
use rustflow.Wire.Many.{Gives, then-Gives, Gives-map, map_value-Gives, many0-keeps, many_each}
use rustflow.FieldParsers.{Chrono}
use rustflow.NetflowV9.Templates.{
  Field, NetflowV9Parser, TemplateRecord, OptionsTemplateRecord, resolve, resolve_options,
  insert_templates, insert_options, flow_set_header_size, template_flow_set_id,
  options_template_flow_set_id,
}
use rustflow.FieldParsers.Numbers.{taken-Shrinks, take-Parts, u16-Shrinks}
use rustflow.NetflowV9.Sizes.{parse_template_record-Sizes, parse_options_template_record-Sizes}
use rustflow.FieldParsers.Takes.{Takes, Takes-eq}
use rustflow.NetflowV9.Sets.{parse_header-Takes}
use rustflow.NetflowV9.{
  parse_template_record, parse_options_template_record, templates_stored, options_stored,
  parse_records, set_bytes, set_parsed, parse_flow_set, parse, parse_header, Header,
}

-- What reading packets of `source_id` at `now` keeps of a parser `p`: both caches are valid, and
-- from `now` on the templates of every other source are read as they were in `p`.
pub record Keeps (now source_id : ℕ) (p p' : NetflowV9Parser) : Type 0 where
  pub templates_valid : IsValid now p'.templates
  pub options_valid : IsValid now p'.options_templates
  pub templates_kept :
      (t d i : ℕ) → now ≤ t → d ≢ source_id → get t (d, i) p'.templates ≡ get t (d, i) p.templates
  pub options_kept :
      (t d i : ℕ)
      → now ≤ t
      → d ≢ source_id
      → get t (d, i) p'.options_templates ≡ get t (d, i) p.options_templates

-- A template read from fewer than 2 ^ 63 bytes.
abbrev IsShort : TemplateRecord → Type 0
IsShort t = length t.fields < 2 ^ 63

abbrev IsShortOptions : OptionsTemplateRecord → Type 0
IsShortOptions t = length t.fields < 2 ^ 63

other_source :
    (now t d source_id i j : ℕ) (fields : List Field) (c : TemplateCache Field)
    → IsValid now c
    → length fields < 2 ^ 63
    → now ≤ t
    → d ≢ source_id
    → get t (d, j) (insert now (source_id, i) fields c) ≡ get t (d, j) c
other_source now t d source_id i j fields c v h le ne = elim (Bool-cases (d == source_id)) [
  | inl e ↦ absurd (ne ((==_iff d source_id).0 e))
  | inr e ↦ get-insert now t source_id i d j fields c v h le ∙ rw e refl
]

length-resolve : (r : IeRegistry) (t : TemplateRecord) → length (resolve r t) ≡ length t.fields
unfolding resolve
length-resolve r t = length-map _ t.fields

length-resolve_options :
    (r : IeRegistry) (t : OptionsTemplateRecord) → length (resolve_options r t) ≡ length t.fields
unfolding resolve_options
length-resolve_options r t = length-map _ t.fields

abbrev BytesWithin : Bytes → Bytes → ℕ × ℕ × Bytes → Type 0
BytesWithin input rest (id, len, bytes) = length bytes ≤ length input

set_bytes-BytesWithin :
    (nom : Nom) (chrono : Chrono) (input : Bytes)
    → Gives (BytesWithin input) (set_bytes nom chrono input)
unfolding set_bytes
set_bytes-BytesWithin nom chrono input =
    then-Gives _ _ (nom.be_u16 input) _ (u16-Shrinks nom input) (λ r1 id s1.
      then-Gives _ _ (nom.be_u16 r1) _ (u16-Shrinks nom r1) (λ r2 len s2.
        elim (Bool-cases (ltb len flow_set_header_size)) [
          | inl b ↦ rw b (unfold Gives in _)
          | inr b ↦ rw b (
              map_value-Gives _ _ (nom.take (len - flow_set_header_size) r2)
                (λ rest bytes h. omega (arith, s1, s2, h))
                (take-Parts nom (len - flow_set_header_size) r2))
        ]))

module _ (now source_id : ℕ) (p : NetflowV9Parser) where
  insert_templates-Keeps :
      (ts : List TemplateRecord) (p' : NetflowV9Parser)
      → All IsShort ts
      → Keeps now source_id p p'
      → Keeps now source_id p (insert_templates now source_id ts p')
  unfolding insert_templates
  insert_templates-Keeps [] p' h k = k
  insert_templates-Keeps (t ∷ ts) p' (h, hs) k =
      let fields = resolve p'.ie_registry t in
      let short : length fields < 2 ^ 63 = omega (arith, h, length-resolve p'.ie_registry t) in
      insert_templates-Keeps ts _ hs (record {
        templates_valid =
            insert-IsValid now p'.templates source_id t.id fields k.templates_valid short;
        options_valid = k.options_valid;
        templates_kept = λ u d i le ne.
            other_source now u d source_id t.id i fields p'.templates k.templates_valid short le ne
            ∙ k.templates_kept u d i le ne;
        options_kept = k.options_kept;
      })

  insert_options-Keeps :
      (ts : List OptionsTemplateRecord) (p' : NetflowV9Parser)
      → All IsShortOptions ts
      → Keeps now source_id p p'
      → Keeps now source_id p (insert_options now source_id ts p')
  unfolding insert_options
  insert_options-Keeps [] p' h k = k
  insert_options-Keeps (t ∷ ts) p' (h, hs) k =
      let fields = resolve_options p'.ie_registry t in
      let short : length fields < 2 ^ 63 =
        omega (arith, h, length-resolve_options p'.ie_registry t) in
      insert_options-Keeps ts _ hs (record {
        templates_valid = k.templates_valid;
        options_valid =
            insert-IsValid now p'.options_templates source_id t.id fields k.options_valid short;
        templates_kept = k.templates_kept;
        options_kept = λ u d i le ne.
            other_source now u d source_id t.id i fields p'.options_templates k.options_valid short
              le ne
            ∙ k.options_kept u d i le ne;
      })

  module _ (nom : Nom) (chrono : Chrono) where
    templates_stored-Keeps :
        (p' : NetflowV9Parser) (o : Option (Bytes × List TemplateRecord))
        → Gives (λ rest ts. All IsShort ts) o
        → Keeps now source_id p p'
        → Keeps now source_id p (templates_stored nom chrono now source_id p' o).0
    unfolding Gives
    templates_stored-Keeps p' none h k = k
    templates_stored-Keeps p' (some (rest, ts)) h k = insert_templates-Keeps ts p' h k

    options_stored-Keeps :
        (p' : NetflowV9Parser) (o : Option (Bytes × List OptionsTemplateRecord))
        → Gives (λ rest ts. All IsShortOptions ts) o
        → Keeps now source_id p p'
        → Keeps now source_id p (options_stored nom chrono now source_id p' o).0
    unfolding Gives
    options_stored-Keeps p' none h k = k
    options_stored-Keeps p' (some (rest, ts)) h k = insert_options-Keeps ts p' h k

    parse_records-Keeps :
        (id : ℕ) (p' : NetflowV9Parser) (input : Bytes)
        → length input < 2 ^ 63
        → Keeps now source_id p p'
        → Keeps now source_id p (parse_records nom chrono now source_id id p' input).0
    unfolding parse_records
    parse_records-Keeps id p' input small k = elim (Bool-cases (id == template_flow_set_id)) [
      | inl e ↦ rw e (
          templates_stored-Keeps p' (many nom TemplateRecord (parse_template_record nom) input)
            (many_each nom (parse_template_record nom) IsShort input (λ i le.
              Gives-map _ _ (parse_template_record nom i) (λ rest t h. omega (arith, h, le, small))
                (parse_template_record-Sizes nom i)))
            k)
      | inr e ↦ elim (Bool-cases (id == options_template_flow_set_id)) [
        | inl e' ↦
            rw (e, e')
              (options_stored-Keeps p'
                (many nom OptionsTemplateRecord (parse_options_template_record nom) input)
                (many_each nom (parse_options_template_record nom) IsShortOptions input (λ i le.
                  Gives-map _ _ (parse_options_template_record nom i)
                    (λ rest t h. omega (arith, h, le, small))
                    (parse_options_template_record-Sizes nom i)))
                k)
        | inr e' ↦ rw (e, e') k
      ]
    ]

    set_parsed-Keeps :
        (p' : NetflowV9Parser) (input : Bytes) (o : Option (Bytes × (ℕ × ℕ × Bytes)))
        → length input < 2 ^ 63
        → Gives (BytesWithin input) o
        → Keeps now source_id p p'
        → Keeps now source_id p (set_parsed nom chrono now source_id p' o).0
    unfolding Gives
    set_parsed-Keeps p' input none small h k = k
    set_parsed-Keeps p' input (some (rest, (id, len, bytes))) small h k =
        parse_records-Keeps id p' bytes (omega (arith, small, h)) k

    parse_flow_set-Keeps :
        (p' : NetflowV9Parser) (input : Bytes)
        → length input < 2 ^ 63
        → Keeps now source_id p p'
        → Keeps now source_id p (parse_flow_set nom chrono now source_id p' input).0
    unfolding parse_flow_set
    parse_flow_set-Keeps p' input small k =
        set_parsed-Keeps p' input (set_bytes nom chrono input) small
          (set_bytes-BytesWithin nom chrono input) k

-- Parsing a packet, whatever follows its header and whether or not it is well-formed, keeps both
-- template caches valid and never changes what is read, from then on, of the templates of any source
-- but the header's. Both caches were valid, and the packet is shorter than 2 ^ 63 bytes.
pub parse-Keeps :
    (nom : Nom) (chrono : Chrono) (now : ℕ) (p : NetflowV9Parser) (input rest : Bytes)
    (header : Header chrono.DateTime)
    → length input < 2 ^ 63
    → IsValid now p.templates
    → IsValid now p.options_templates
    → parse_header nom chrono input ≡ some (rest, header)
    → Keeps now header.source_id p (parse nom chrono now p input).0
unfolding parse Gives
parse-Keeps nom chrono now p input rest header small v v' e =
    let t : Takes 20 input (some (rest, header)) =
      Takes-eq 20 input e (parse_header-Takes nom chrono input) in
    let shorter : 20 + length rest ≤ length input =
      taken-Shrinks 20 input (some (rest, header)) t in
    let start : Keeps now header.source_id p p = record {
      templates_valid = v;
      options_valid = v';
      templates_kept = λ t d i le ne. refl;
      options_kept = λ t d i le ne. refl;
    } in
    rw e (
      many0-keeps nom (parse_flow_set nom chrono now header.source_id)
        (Keeps now header.source_id p) (length rest)
        (λ s i le k.
          parse_flow_set-Keeps now header.source_id p nom chrono s i
            (omega (arith, small, shorter, le)) k)
        p rest (omega arith) start)
