-- ===== src/Ipfix/RoundTrip.antt =====
-- IPFIX templates that are written are read back: encoder.rs against parser.rs.
use Prim.Native.Nat.{bit_or, bit_and}
use rustflow.Prelude.{
  ℕ, ◌+◌, ◌*◌, ◌%◌, ◌^◌, ◌<◌, ◌≡◌, refl, ap, ◌∙◌, Bool, true, false, not, Option, none, some, List,
  [], ◌∷◌, ◌++◌, ◌==◌, if◌then◌else◌, length, arith, All, Bool-cases, inl, inr, ltb, ltb→lt,
}
use mathlib.Core.List.{append_assoc}
use native.Mathlib.Nat.{mod-eq_of_lt}
use rustflow.Prelude.Bits.{bit_or_disjoint_right, bit_and_blocks, bit_and_bit}
use rustflow.Wire.Read.{Bytes, read_count}
use rustflow.Wire.Nom.{Nom}
use rustflow.Wire.Write.{BufMut, number_bytes}
use rustflow.Wire.RoundTrip.{reads}
use rustflow.Ipfix.Types.{
  FieldSpecifier, TemplateRecord, OptionsTemplateRecord, ipfix_variable_length,
}
use rustflow.Ipfix.Encoder.{
  encode_number, encode_specifier, encode_specifiers, encode_template, encode_options_template,
  put_variable,
}
use rustflow.Ipfix.Templates.{
  enterprise_part, parse_field_specifier, parse_template_record, scope_part,
  parse_options_template_record, parse_field_length,
}

-- An enterprise's number is there if and only if its bit is set.
abbrev IsMarked : Bool → Option ℕ → Type 0
IsMarked true none = ⊥
IsMarked true (some n) = n < 2 ^ 32
IsMarked false none = Unit
IsMarked false (some n) = ⊥

-- A specifier whose fields fit their bits.
pub record FitsSpecifier (f : FieldSpecifier) : Type 0 where
  pub marked : IsMarked f.enterprise_bit f.enterprise_number
  pub identifier : f.information_element_identifier < 2 ^ 15
  pub field_length : f.field_length < 2 ^ 16

unfoldable number_part : Option ℕ → Bytes → Bytes
number_part none rest = rest
number_part (some n) rest = number_bytes 4 n ++ rest

abbrev marked_id : Bool → ℕ → ℕ
marked_id true id = 2 ^ 15 + id
marked_id false id = id

unfoldable specifier_bytes : FieldSpecifier → Bytes → Bytes
specifier_bytes f rest =
    number_bytes 2 (marked_id f.enterprise_bit f.information_element_identifier)
    ++ (number_bytes 2 f.field_length ++ number_part f.enterprise_number rest)

bit_read : (e : Bool) (id : ℕ) → id < 2 ^ 15 → not (bit_and (marked_id e id) 0x8000 == 0) ≡ e
bit_read true id h =
    let b : bit_and (1 * 2 ^ 15 + id) (2 ^ 15) ≡ 1 % 2 * 2 ^ 15 = bit_and_bit 15 1 id h in rw b refl
bit_read false id h =
    let b : bit_and (0 * 2 ^ 15 + id) (2 ^ 15) ≡ 0 % 2 * 2 ^ 15 = bit_and_bit 15 0 id h in
    let z : id ≡ 0 + id = omega arith in rw z (rw b refl)

id_read : (e : Bool) (id : ℕ) → id < 2 ^ 15 → bit_and (marked_id e id) 0x7fff ≡ id
id_read true id h = bit_and_blocks 15 1 id h
id_read false id h = let z : id ≡ 0 + id = omega arith in rw z (bit_and_blocks 15 0 id h ∙ z)

marked_id_fits : (e : Bool) (id : ℕ) → id < 2 ^ 15 → marked_id e id < 2 ^ 16
marked_id_fits true id h = omega arith
marked_id_fits false id h = omega arith

enterprise_part-bytes :
    (nom : Nom) (e : Bool) (o : Option ℕ) (rest : Bytes)
    → IsMarked e o
    → enterprise_part nom e (number_part o rest) ≡ some (rest, o)
unfolding enterprise_part number_part
enterprise_part-bytes nom true none rest h = absurd h
enterprise_part-bytes nom true (some n) rest h = simp (reads, h)
enterprise_part-bytes nom false none rest h = refl
enterprise_part-bytes nom false (some n) rest h = absurd h

id_written :
    (e : Bool) (id : ℕ) → id < 2 ^ 15 → (if e then bit_or id 0x8000 else id) ≡ marked_id e id
id_written true id h = bit_or_disjoint_right 15 1 id h
id_written false id h = refl

parse_field_specifier-bytes :
    (nom : Nom) (f : FieldSpecifier) (rest : Bytes)
    → FitsSpecifier f
    → parse_field_specifier nom (specifier_bytes f rest) ≡ some (rest, f)
unfolding parse_field_specifier specifier_bytes
parse_field_specifier-bytes nom f rest h =
    let e = f.enterprise_bit in
    let id = f.information_element_identifier in
    simp (
      reads,
      marked_id_fits e id h.identifier,
      h.field_length,
      bit_read e id h.identifier,
      id_read e id h.identifier,
      enterprise_part-bytes nom e f.enterprise_number rest h.marked,
    )

module _ (buf : BufMut) where
  encode_number-bytes :
      (o : Option ℕ) (b rest : Bytes) → encode_number buf o b ++ rest ≡ b ++ number_part o rest
  unfolding encode_number number_part
  encode_number-bytes none b rest = refl
  encode_number-bytes (some n) b rest = simp (append_assoc, buf.put_u32_lem)

  encode_specifier-bytes :
      (f : FieldSpecifier) (b rest : Bytes)
      → FitsSpecifier f
      → encode_specifier buf f b ++ rest ≡ b ++ specifier_bytes f rest
  unfolding encode_specifier specifier_bytes
  encode_specifier-bytes f b rest h = simp (
    encode_number-bytes,
    append_assoc,
    buf.put_u16_lem,
    id_written f.enterprise_bit f.information_element_identifier h.identifier,
  )

specifiers_bytes : List FieldSpecifier → Bytes → Bytes
specifiers_bytes [] rest = rest
specifiers_bytes (f ∷ fs) rest = specifier_bytes f (specifiers_bytes fs rest)

encode_specifiers-bytes :
    (buf : BufMut) (fs : List FieldSpecifier) (b rest : Bytes)
    → All FitsSpecifier fs
    → encode_specifiers buf fs b ++ rest ≡ b ++ specifiers_bytes fs rest
unfolding encode_specifiers specifiers_bytes
encode_specifiers-bytes buf [] b rest h = refl
encode_specifiers-bytes buf (f ∷ fs) b rest (h, hs) =
    encode_specifiers-bytes buf fs (encode_specifier buf f b) rest hs
    ∙ encode_specifier-bytes buf f b (specifiers_bytes fs rest) h

count_specifiers :
    (nom : Nom) (fs : List FieldSpecifier) (rest : Bytes)
    → All FitsSpecifier fs
    → read_count (length fs) (parse_field_specifier nom) (specifiers_bytes fs rest)
      ≡ some (rest, fs)
unfolding specifiers_bytes read_count
count_specifiers nom [] rest h = refl
count_specifiers nom (f ∷ fs) rest (h, hs) =
    rw
      (
        parse_field_specifier-bytes nom f (specifiers_bytes fs rest) h,
        count_specifiers nom fs rest hs,
      )
      refl

-- The fields of a template, which fit theirs and are counted as they are.
pub record FitsTemplate (id n : ℕ) (fs : List FieldSpecifier) : Type 0 where
  pub template_id : id < 2 ^ 16
  pub field_count : n ≡ length fs
  pub fields : All FitsSpecifier fs
  pub count : length fs < 2 ^ 16

fields_read :
    (nom : Nom) (n : ℕ) (fs : List FieldSpecifier) (rest : Bytes)
    → n ≡ length fs
    → All FitsSpecifier fs
    → nom.count FieldSpecifier (parse_field_specifier nom) n (specifiers_bytes fs rest)
      ≡ some (rest, fs)
fields_read nom n fs rest e h =
    nom.count_lem FieldSpecifier (parse_field_specifier nom) n (specifiers_bytes fs rest)
    ∙ ap (λ (k : ℕ). read_count k (parse_field_specifier nom) (specifiers_bytes fs rest)) e
    ∙ count_specifiers nom fs rest h

-- A template record that is written is read back from any bytes that begin with it, enterprise
-- elements included, and what follows is left. Its fields fit theirs, an enterprise number is
-- there if and only if its bit is set, and the field count is the number of the fields.
pub parse-encode_template :
    (nom : Nom) (buf : BufMut) (t : TemplateRecord) (rest : Bytes)
    → FitsTemplate t.template_id t.field_count t.fields
    → parse_template_record nom (encode_template buf t [] ++ rest) ≡ some (rest, t)
unfolding parse_template_record encode_template
parse-encode_template nom buf t rest h =
    let n : t.field_count < 2 ^ 16 = omega (arith, h.field_count, h.count) in
    let written =
      encode_specifiers-bytes buf t.fields
        (buf.put_u16 t.field_count (buf.put_u16 t.template_id [])) rest h.fields in
    rw written (
      simp (
        append_assoc,
        buf.put_u16_lem,
        reads,
        h.template_id,
        n,
        fields_read nom t.field_count t.fields rest h.field_count h.fields,
      ))

-- So is an options template record that has fields, with its scope.
pub parse-encode_options_template :
    (nom : Nom) (buf : BufMut) (t : OptionsTemplateRecord) (rest : Bytes)
    → FitsTemplate t.template_id t.field_count t.fields
    → t.scope_field_count < 2 ^ 16
    → 0 < length t.fields
    → parse_options_template_record nom (encode_options_template buf t [] ++ rest) ≡ some (rest, t)
unfolding parse_options_template_record encode_options_template scope_part
parse-encode_options_template nom buf t rest h scope some_fields =
    let n : t.field_count < 2 ^ 16 = omega (arith, h.field_count, h.count) in
    let here : (t.field_count == 0) ≡ false = ground (arith, h.field_count) in
    let written =
      encode_specifiers-bytes buf t.fields
        (buf.put_u16 t.scope_field_count (buf.put_u16 t.field_count (buf.put_u16 t.template_id [])))
        rest h.fields in
    rw written (
      simp (
        append_assoc,
        buf.put_u16_lem,
        reads,
        h.template_id,
        n,
        scope,
        here,
        fields_read nom t.field_count t.fields rest h.field_count h.fields,
      ))

pub parse_field_length-put_variable :
    (nom : Nom) (buf : BufMut) (v rest : Bytes)
    → length v < 2 ^ 16
    → parse_field_length nom ipfix_variable_length (put_variable buf v [] ++ rest)
      ≡ some (v ++ rest, length v)
unfolding parse_field_length put_variable
parse_field_length-put_variable nom buf v rest h = elim (Bool-cases (ltb (length v) 255)) [
  | inl b ↦
      let e : length v % 2 ^ 8 ≡ length v = mod-eq_of_lt (omega (arith, ltb→lt _ _ b)) in
      let small : length v < 2 ^ 8 = omega (arith, ltb→lt _ _ b) in
      simp (b, e, append_assoc, buf.put_u8_lem, buf.put_slice_lem, reads, small)
  | inr b ↦
      let e : length v % 2 ^ 16 ≡ length v = mod-eq_of_lt h in
      let mark : 255 < 2 ^ 8 = omega arith in
      simp (b, e, append_assoc, buf.put_u8_lem, buf.put_u16_lem, buf.put_slice_lem, reads, mark, h)
]
