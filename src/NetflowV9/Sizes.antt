-- ===== src/NetflowV9/Sizes.antt =====
-- A template has no more fields than its bytes: what parser.rs reads of a template set.
use rustflow.Prelude.{
  ℕ, zero, suc, ◌+◌, ◌≤◌, refl, sym, Option, none, some, List, length, arith, subst, length-append,
}
use rustflow.Wire.Read.{Bytes, Parser, map_parser, map_parsed, read_count}
use rustflow.Wire.Nom.{Nom, many}
use rustflow.Wire.Many.{Gives, Gives-map, then-Gives, many0-Gives}
use rustflow.FieldParsers.Takes.{Takes, then-Takes}
use rustflow.NetflowV9.Templates.{TemplateField}
use rustflow.FieldParsers.Numbers.{u16-Takes, Shrinks, taken-Shrinks, u16-Shrinks, take-Parts}
use rustflow.NetflowV9.{parse_template_field, parse_template_record, parse_options_template_record}

abbrev Fits : {A : Type 0} → Bytes → Bytes → List A → Type 0
Fits input rest l = length l + length rest ≤ length input

-- Values that each take something are no more than the bytes.
read_count-Fits :
    {A : Type 0} (p : Parser A) (n : ℕ) (input : Bytes)
    → ((i : Bytes) → Gives (Shrinks 1 i) (p i))
    → Gives (Fits input) (read_count n p input)
unfolding read_count Gives
read_count-Fits p zero input h = omega arith
read_count-Fits p (suc n) input h = then-Gives _ _ (p input) _ (h input) (λ rest a s.
    then-Gives _ _ (read_count n p rest) _ (read_count-Fits p n rest h)
      (λ rest' l s'. omega (arith, s, s')))

parse_template_field-Takes :
    (nom : Nom) (input : Bytes) → Takes 4 input (parse_template_field nom input)
unfolding parse_template_field Takes
parse_template_field-Takes nom input =
    then-Takes 2 2 input (nom.be_u16 input) _ (u16-Takes nom input) (λ rest t.
      then-Takes 2 0 rest (nom.be_u16 rest) _ (u16-Takes nom rest) (λ rest' l. (omega arith, refl)))

parse_template_field-Shrinks :
    (nom : Nom) (input : Bytes) → Gives (Shrinks 1 input) (parse_template_field nom input)
unfolding Gives
parse_template_field-Shrinks nom input =
    Gives-map (Shrinks 4 input) (Shrinks 1 input) (parse_template_field nom input)
      (λ rest t h. omega (arith, h))
      (taken-Shrinks 4 input (parse_template_field nom input)
        (parse_template_field-Takes nom input))

-- A template's fields are no more than the bytes that it was read from.
pub parse_template_record-Sizes :
    (nom : Nom) (input : Bytes)
    → Gives (λ rest t. length t.fields ≤ length input) (parse_template_record nom input)
unfolding Gives parse_template_record
parse_template_record-Sizes nom input =
    then-Gives _ _ (nom.be_u16 input) _ (u16-Shrinks nom input) (λ r1 id s1.
      then-Gives _ _ (nom.be_u16 r1) _ (u16-Shrinks nom r1) (λ r2 n s2.
        then-Gives (Fits r2) _ (nom.count TemplateField (parse_template_field nom) n r2) _
          (subst (Gives (Fits r2))
            (sym (nom.count_lem TemplateField (parse_template_field nom) n r2))
            (read_count-Fits (parse_template_field nom) n r2 (parse_template_field-Shrinks nom)))
          (λ r3 fields s3. omega (arith, s1, s2, s3))))

anything : {A : Type 0} (o : Option (Bytes × A)) → Gives (λ rest a. Unit) o
unfolding Gives
anything none = _
anything (some t) = _

many-Fits :
    {A : Type 0} (nom : Nom) (p : Parser A) (input : Bytes)
    → Gives (Fits input) (many nom A p input)
unfolding many Gives
many-Fits {A} nom p input =
    Gives-map _ _ (nom.many0 Unit A (λ s i. (s, p i)) _ input).1 (λ rest l h. h.1)
      (many0-Gives nom (λ s i. (s, p i)) (λ a. Unit) (length input) (λ s i le. anything (p i)) _
        input (omega arith))

parsed-Fits :
    {A : Type 0} (input rest bytes : Bytes) (o : Option (Bytes × List A))
    → length bytes + length rest ≤ length input
    → Gives (Fits bytes) o
    → Gives (Fits input) (map_parsed rest o)
unfolding Gives
parsed-Fits input rest bytes none le h = _
parsed-Fits input rest bytes (some (left, l)) le h = omega (arith, le, h)

map_parser-Fits :
    {A : Type 0} (input : Bytes) (o : Option (Bytes × Bytes)) (p : Bytes → Option (Bytes × List A))
    → Gives (λ rest bytes. length bytes + length rest ≤ length input) o
    → ((bytes : Bytes) → Gives (Fits bytes) (p bytes))
    → Gives (Fits input) (map_parser o p)
unfolding Gives
map_parser-Fits input none p h hp = _
map_parser-Fits input (some (rest, bytes)) p h hp =
    parsed-Fits input rest bytes (p bytes) h (hp bytes)

-- So are those of an options template, its scope fields included.
pub parse_options_template_record-Sizes :
    (nom : Nom) (input : Bytes)
    → Gives (λ rest t. length t.fields ≤ length input) (parse_options_template_record nom input)
unfolding Gives parse_options_template_record
parse_options_template_record-Sizes nom input =
    then-Gives _ _ (nom.be_u16 input) _ (u16-Shrinks nom input) (λ r1 id s1.
      then-Gives _ _ (nom.be_u16 r1) _ (u16-Shrinks nom r1) (λ r2 n s2.
        then-Gives _ _ (nom.be_u16 r2) _ (u16-Shrinks nom r2) (λ r3 m s3.
          then-Gives (Fits r3) _ (map_parser (nom.take n r3) _) _
            (map_parser-Fits r3 (nom.take n r3) _ (take-Parts nom n r3)
              (λ bytes. many-Fits nom _ bytes))
            (λ r4 scope s4.
              then-Gives (Fits r4) _ (map_parser (nom.take m r4) _) _
                (map_parser-Fits r4 (nom.take m r4) _ (take-Parts nom m r4)
                  (λ bytes. many-Fits nom _ bytes))
                (λ r5 options s5.
                  omega (arith, s1, s2, s3, s4, s5, length-append scope options))))))
