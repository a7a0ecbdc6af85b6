-- ===== src/Ipfix/TemplateSizes.antt =====
-- How many fields a template has that is read: no more than its bytes.
use rustflow.Prelude.{ℕ, ◌≤◌, Bool, true, false, some, length, arith, ◌==◌}
use rustflow.Wire.Read.{Bytes}
use rustflow.Wire.Nom.{Nom}
use rustflow.Wire.Many.{Gives, then-Gives, Gives-map, map_value-Gives, either-Gives}
use rustflow.FieldParsers.Numbers.{Shrinks, Counted, u16-Shrinks, u32-Shrinks, read_count-Counted}
use rustflow.Ipfix.Types.{FieldSpecifier}
use rustflow.Ipfix.Templates.{
  enterprise_part, parse_field_specifier, parse_template_record, scope_part,
  parse_options_template_record,
}

module _ (nom : Nom) where
  enterprise_part-Shrinks :
      (b : Bool) (input : Bytes) → Gives (Shrinks 0 input) (enterprise_part nom b input)
  unfolding enterprise_part Gives
  enterprise_part-Shrinks true input =
      map_value-Gives (Shrinks 4 input) (Shrinks 0 input) (nom.be_u32 input)
        (λ rest v s. omega (arith, s)) (u32-Shrinks nom input)
  enterprise_part-Shrinks false input = omega arith

  parse_field_specifier-Shrinks :
      (input : Bytes) → Gives (Shrinks 4 input) (parse_field_specifier nom input)
  unfolding parse_field_specifier Gives
  parse_field_specifier-Shrinks input =
      then-Gives _ _ (nom.be_u16 input) _ (u16-Shrinks nom input) (λ r1 id s1.
        then-Gives _ _ (nom.be_u16 r1) _ (u16-Shrinks nom r1) (λ r2 len s2.
          then-Gives _ _ (enterprise_part nom _ r2) _ (enterprise_part-Shrinks _ r2)
            (λ r3 number s3. omega (arith, s1, s2, s3))))

  fields-Counted :
      (n : ℕ) (input : Bytes)
      → Gives (Counted 4 n input) (nom.count FieldSpecifier (parse_field_specifier nom) n input)
  fields-Counted n input =
      rw (nom.count_lem FieldSpecifier (parse_field_specifier nom) n input)
        (read_count-Counted (parse_field_specifier nom) 4 n input parse_field_specifier-Shrinks)

  -- A template has no more fields than a quarter of the bytes that it is read from.
  pub parse_template_record-Small :
      (input : Bytes)
      → Gives (λ rest t. length t.fields ≤ length input) (parse_template_record nom input)
  unfolding parse_template_record Gives
  parse_template_record-Small input =
      then-Gives _ _ (nom.be_u16 input) _ (u16-Shrinks nom input) (λ r1 id s1.
        then-Gives _ _ (nom.be_u16 r1) _ (u16-Shrinks nom r1) (λ r2 n s2.
          then-Gives _ _ (nom.count FieldSpecifier (parse_field_specifier nom) n r2) _
            (fields-Counted n r2) (λ r3 fields s3. omega (arith, s1, s2, s3.1))))

  scope_part-Shrinks : (n : ℕ) (input : Bytes) → Gives (Shrinks 0 input) (scope_part nom n input)
  unfolding scope_part Gives
  scope_part-Shrinks n input =
      either-Gives (Shrinks 0 input) (n == 0) (some (input, 0)) (nom.be_u16 input) (omega arith) (
        Gives-map (Shrinks 2 input) (Shrinks 0 input) (nom.be_u16 input) (λ r v s. omega (arith, s))
          (u16-Shrinks nom input))

  pub parse_options_template_record-Small :
      (input : Bytes)
      → Gives (λ rest t. length t.fields ≤ length input) (parse_options_template_record nom input)
  unfolding parse_options_template_record Gives
  parse_options_template_record-Small input =
      then-Gives _ _ (nom.be_u16 input) _ (u16-Shrinks nom input) (λ r1 id s1.
        then-Gives _ _ (nom.be_u16 r1) _ (u16-Shrinks nom r1) (λ r2 n s2.
          then-Gives _ _ (scope_part nom n r2) _ (scope_part-Shrinks n r2) (λ r3 m s3.
            then-Gives _ _ (nom.count FieldSpecifier (parse_field_specifier nom) n r3) _
              (fields-Counted n r3) (λ r4 fields s4. omega (arith, s1, s2, s3, s4.1)))))
