-- ===== src/Ipfix/Lists.antt =====
-- How much of its input a value of parser.rs takes, lists included.
use rustflow.Prelude.{ℕ, zero, suc, ◌+◌, ◌≡◌, refl, Option, none, some, arith, length, subst}
use rustflow.IeRegistry.{DataType}
use rustflow.Wire.Read.{Bytes, ◌>>=◌, map_value}
use rustflow.Wire.Nom.{Nom}
use rustflow.FieldParsers.{Chrono}
use rustflow.FieldParsers.Takes.{Takes, then-Takes}
use rustflow.FieldParsers.Numbers.{take-Takes}
use rustflow.Ipfix.DataRecords.{
  IpfixParser, parse_basic_list, parse_sub_template_list, parse_sub_template_multi_list,
  parse_field_value, semantic_of, content_loop, items_loop, parse_templated_records, data_records,
  lookup, type_or_octets,
}
use rustflow.Ipfix.Types.{FieldValue}
use rustflow.Ipfix.Templates.{parse_field_specifier}
use rustflow.Ipfix.Widths.{plain_value-Takes}

-- What is read of other bytes leaves the rest alone.
aside :
    {A B : Type 0} (rest : Bytes) (o : Option A) (k : A → Option (Bytes × B))
    → ((a : A) → Takes 0 rest (k a))
    → Takes 0 rest (o >>= k)
unfolding Takes
aside rest none k h = _
aside rest (some a) k h = h a

whole : {B : Type 0} (rest : Bytes) (b : B) → Takes 0 rest (some (rest, b))
unfolding Takes
whole rest b = (omega arith, refl)

module _ (nom : Nom) (n : ℕ) (input : Bytes) where
  -- A list takes its length, however its elements are read.
  list-Takes :
      {B : Type 0} (k : Bytes × Bytes → Option (Bytes × B))
      → ((rest list : Bytes) → Takes 0 rest (k (rest, list)))
      → Takes n input (nom.take n input >>= k)
  list-Takes k h =
      let same : n + 0 ≡ n = omega arith in
      subst (λ m. Takes m input (nom.take n input >>= k)) same
        (then-Takes n 0 input (nom.take n input) k (take-Takes nom input n) h)

module _ (nom : Nom) (chrono : Chrono) (now domain : ℕ) (p : IpfixParser) where
  -- Whatever its type, a field whose value is read takes exactly the bytes that its length states, so
  -- that the next field starts where this one ends. Lists are included, nested to any depth and
  -- whether or not their elements are read.
  pub field_value-Takes :
      (levels : ℕ) (t : DataType) (n : ℕ) (input : Bytes)
      → Takes n input (parse_field_value nom chrono now domain p levels t n input)
  unfolding parse_field_value parse_basic_list parse_sub_template_list parse_sub_template_multi_list
      Takes
  field_value-Takes zero t n input = plain_value-Takes nom chrono n input t
  field_value-Takes (suc levels) DataType.basic_list n input =
      let call = parse_field_value nom chrono now domain p levels in
      list-Takes nom n input _ (λ rest list.
        aside rest (map_value semantic_of (nom.be_u8 list)) _ (λ t.
          aside rest (parse_field_specifier nom t.0) _ (λ u.
            aside rest
              (content_loop nom chrono now domain p call none (suc (length u.0)) u.1
                (type_or_octets (lookup p.ie_registry p.element_types domain u.1)) u.0)
              _ (λ c. whole rest (FieldValue.basic_list t.1 u.1 c)))))
  field_value-Takes (suc levels) DataType.sub_template_list n input =
      let call = parse_field_value nom chrono now domain p levels in
      list-Takes nom n input _ (λ rest list.
        aside rest (map_value semantic_of (nom.be_u8 list)) _ (λ t.
          aside rest (nom.be_u16 t.0) _ (λ u.
            aside rest (parse_templated_records nom chrono now domain p call u.1 u.0) _
              (λ c. whole rest (FieldValue.sub_template_list t.1 u.1 (data_records c.1))))))
  field_value-Takes (suc levels) DataType.sub_template_multi_list n input =
      let call = parse_field_value nom chrono now domain p levels in
      list-Takes nom n input _ (λ rest list.
        aside rest (map_value semantic_of (nom.be_u8 list)) _ (λ t.
          aside rest (items_loop nom chrono now domain p call none (suc (length t.0)) t.0) _
            (λ c. whole rest (FieldValue.sub_template_multi_list t.1 c))))
  field_value-Takes (suc levels) t n input = plain_value-Takes nom chrono n input t
