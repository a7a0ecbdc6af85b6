-- ===== src/NetflowV9/Sets.antt =====
-- How a NetFlow v9 packet falls into flow sets and records, whatever they hold.
use rustflow.Prelude.{
  ℕ, ◌+◌, ◌-◌, ◌≤◌, ◌≡◌, refl, ap, Option, none, some, List, [], ◌∷◌, ltb, length, drop, arith,
  Bool-cases, inl, inr, Option-cases, subst, length-drop,
}
use rustflow.Wire.Read.{Bytes, map_value}
use rustflow.Wire.Nom.{Nom}
use rustflow.Wire.Many.{Gives, Succeeds, Shorter, many0-Succeeds}
use rustflow.FieldParsers.{Chrono, verify_version, timestamp_secs}
use rustflow.FieldParsers.Takes.{
  Takes, Takes-eq, then-Takes, then_value-Takes, taken_behind, map_opt-Takes,
}
use rustflow.NetflowV9.Fields.{parse_field_value}
use rustflow.NetflowV9.Templates.{Field, NetflowV9Parser, flow_set_header_size, netflow_v9_version}
use rustflow.FieldParsers.Numbers.{verify_version-Takes, take-Takes, u16-Takes, u32-Takes}
use rustflow.NetflowV9.Widths.{parse_field_value-Takes}
use rustflow.NetflowV9.{
  parse_data_record, set_bytes, parse_flow_set, parse_records, FlowSet, set_parsed, flow_set,
  Record, parse, parse_header,
}

-- The width of a record.
unfoldable pub width : List Field → ℕ
width [] = 0
width (f ∷ fs) = f.spec.length + width fs

-- A data record that is read takes exactly the bytes that its template's fields declare together,
-- so the next record starts where it ends.
pub parse_data_record-Takes :
    (nom : Nom) (chrono : Chrono) (fields : List Field) (input : Bytes)
    → Takes (width fields) input (parse_data_record nom chrono fields input)
unfolding width parse_data_record Takes
parse_data_record-Takes nom chrono [] input = (omega arith, refl)
parse_data_record-Takes nom chrono (f ∷ fs) input =
    then-Takes f.spec.length (width fs) input
      (parse_field_value nom chrono f.data_type f.spec.length input) _
      (parse_field_value-Takes nom chrono f.spec.length input f.data_type)
      (λ rest value.
        then_value-Takes (width fs) rest (λ values. value ∷ values)
          (parse_data_record nom chrono fs rest) (parse_data_record-Takes nom chrono fs rest))

-- What `set_bytes` gives: an ID, a length and the bytes behind these.
abbrev SetRead : Bytes → Bytes → ℕ × ℕ × Bytes → Type 0
SetRead input rest (id, len, bytes) = (4 ≤ len) × (len ≤ length input) × (rest ≡ drop len input)

set_bytes-SetRead :
    (nom : Nom) (chrono : Chrono) (input : Bytes)
    → Gives (SetRead input) (set_bytes nom chrono input)
unfolding Gives Takes set_bytes
set_bytes-SetRead nom chrono input = elim (Option-cases (nom.be_u16 input)) [
  | inl e ↦ rw e _
  | inr ((r1, id), e1) ↦ elim (Option-cases (nom.be_u16 r1)) [
    | inl e ↦ rw (e1, e) _
    | inr ((r2, len), e2) ↦ elim (Bool-cases (ltb len flow_set_header_size)) [
      | inl b ↦ rw (e1, e2, b) _
      | inr b ↦ elim (Option-cases (nom.take (len - flow_set_header_size) r2)) [
        | inl e ↦ rw (e1, e2, b, e) _
        | inr ((r3, bytes), e3) ↦
            let t1 : Takes 2 input (some (r1, id)) = Takes-eq 2 input e1 (u16-Takes nom input) in
            let t2 : Takes 2 r1 (some (r2, len)) = Takes-eq 2 r1 e2 (u16-Takes nom r1) in
            let t3 : Takes (len - flow_set_header_size) r2 (some (r3, bytes)) =
              Takes-eq (len - flow_set_header_size) r2 e3
                (take-Takes nom r2 (len - flow_set_header_size)) in
            let big : 4 ≤ len = ground arith in
            let whole : 4 + (len - flow_set_header_size) ≡ len = omega (arith, big) in
            let t : Takes (4 + (len - flow_set_header_size)) input (some (r3, bytes)) =
              taken_behind 4 (len - flow_set_header_size) input r2 (some (r3, bytes))
                (taken_behind 2 2 input r1 (some (r2, len)) t1 t2) t3 in
            let t' : Takes len input (some (r3, bytes)) =
              subst (λ (k : ℕ). Takes k input (some (r3, bytes))) whole t in
            rw (e1, e2, b, e3) (big, t'.0, t'.1)
      ]
    ]
  ]
]

abbrev pub SetTaken : {D : Type 0} → Bytes → Bytes → FlowSet D → Type 0
SetTaken input rest set =
    (4 ≤ set.length) × (set.length ≤ length input) × (rest ≡ drop set.length input)

flow_set-SetTaken :
    (nom : Nom) (chrono : Chrono) (input rest : Bytes) (id len : ℕ) (bytes : Bytes)
    (o : Option (Bytes × List (Record chrono.DateTime)))
    → SetRead input rest (id, len, bytes)
    → Gives (SetTaken input) (flow_set nom chrono id len rest o)
unfolding Gives
flow_set-SetTaken nom chrono input rest id len bytes none h = _
flow_set-SetTaken nom chrono input rest id len bytes (some (left, records)) h = h

set_parsed-SetTaken :
    (nom : Nom) (chrono : Chrono) (now source_id : ℕ) (p : NetflowV9Parser) (input : Bytes)
    (o : Option (Bytes × (ℕ × ℕ × Bytes)))
    → Gives (SetRead input) o
    → Gives (SetTaken input) (set_parsed nom chrono now source_id p o).1
unfolding Gives
set_parsed-SetTaken nom chrono now source_id p input none h = _
set_parsed-SetTaken nom chrono now source_id p input (some (rest, (id, len, bytes))) h =
    flow_set-SetTaken nom chrono input rest id len bytes
      (parse_records nom chrono now source_id id p bytes).1 h

-- A flow set that is read takes exactly as many bytes as its length field says, at least the four
-- of its header, whatever its records are and however they are read.
pub parse_flow_set-SetTaken :
    (nom : Nom) (chrono : Chrono) (now source_id : ℕ) (p : NetflowV9Parser) (input : Bytes)
    → Gives (SetTaken input) (parse_flow_set nom chrono now source_id p input).1
unfolding parse_flow_set
parse_flow_set-SetTaken nom chrono now source_id p input =
    set_parsed-SetTaken nom chrono now source_id p input (set_bytes nom chrono input)
      (set_bytes-SetRead nom chrono input)

taken-Shorter :
    {D : Type 0} (input : Bytes) (o : Option (Bytes × FlowSet D))
    → Gives (SetTaken input) o
    → Gives (Shorter input) o
unfolding Gives
taken-Shorter input none h = _
taken-Shorter input (some (rest, set)) (h, le, e) =
    omega (arith, h, le, ap length e, length-drop set.length input)

map_value-Succeeds :
    {A B : Type 0} (f : A → B) (o : Option (Bytes × A)) → Succeeds o → Succeeds (map_value f o)
unfolding Succeeds
map_value-Succeeds f none h = absurd h
map_value-Succeeds f (some t) h = _

-- A packet whose header is read is parsed, to a packet: the loop over the flow sets ends without an
-- error, whatever follows the header, a malformed flow set or one of an unknown template included.
pub parse-Succeeds :
    (nom : Nom) (chrono : Chrono) (now : ℕ) (p : NetflowV9Parser) (input : Bytes)
    → Succeeds (parse_header nom chrono input)
    → Succeeds (parse nom chrono now p input).1
unfolding parse Succeeds
parse-Succeeds nom chrono now p input h = elim (Option-cases (parse_header nom chrono input)) [
  | inl e ↦ absurd (subst Succeeds e h)
  | inr ((rest, header), e) ↦ rw e (
      map_value-Succeeds _ _ (
        many0-Succeeds nom (parse_flow_set nom chrono now header.source_id)
          (λ s i.
            taken-Shorter i (parse_flow_set nom chrono now header.source_id s i).1
              (parse_flow_set-SetTaken nom chrono now header.source_id s i))
          p rest))
]

-- A header that is read takes 20 bytes.
pub parse_header-Takes :
    (nom : Nom) (chrono : Chrono) (input : Bytes) → Takes 20 input (parse_header nom chrono input)
unfolding parse_header timestamp_secs Takes
parse_header-Takes nom chrono input =
    then-Takes 2 18 input (verify_version nom input netflow_v9_version) _
      (verify_version-Takes nom _ input)
      (λ r1 a. then-Takes 2 16 r1 (nom.be_u16 r1) _ (u16-Takes nom r1) (λ r2 b.
        then-Takes 4 12 r2 (nom.be_u32 r2) _ (u32-Takes nom r2) (λ r3 c.
          then-Takes 4 8 r3 (timestamp_secs nom chrono r3) _
            (map_opt-Takes 4 r3 _ _ (u32-Takes nom r3))
            (λ r4 d. then-Takes 4 4 r4 (nom.be_u32 r4) _ (u32-Takes nom r4) (λ r5 e.
              then-Takes 4 0 r5 (nom.be_u32 r5) _ (u32-Takes nom r5)
                (λ r6 f. (omega arith, refl)))))))
