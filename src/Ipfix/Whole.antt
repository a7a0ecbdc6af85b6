-- ===== src/Ipfix/Whole.antt =====
-- Which IPFIX messages are parsed and which are refused, by their bytes alone.
use rustflow.Prelude.{
  ℕ, ◌+◌, ◌-◌, ◌≤◌, ◌<◌, ◌≡◌, ◌⊎◌, refl, sym, ap, ◌∙◌, Bool, Option, none, some, leb, ltb, length,
  drop, take, arith, ◌==◌, ==_iff, Bool-cases, Option-cases, inl, inr, subst, length-drop, true,
  le→leb, leb→le,
}
use rustflow.Prelude.Ints.{ℤ}
use rustflow.Wire.Read.{Bytes, read_number, number_from}
use rustflow.Wire.Nom.{Nom}
use rustflow.Wire.Many.{Gives, Gives-map, Succeeds}
use rustflow.FieldParsers.{Chrono, timestamp_secs, verify_version}
use rustflow.FieldParsers.Takes.{Takes, drop-drop}
use rustflow.Ipfix.Types.{Header, IpfixPacket}
use rustflow.Ipfix.DataRecords.{IpfixParser}
use rustflow.Ipfix.Sets.{parse, parse_header, header_parsed}
use rustflow.Ipfix.Messages.{IsMessage, parse-IsMessage, cut-refused, parse_header-Takes}

-- The number that `n` bytes are, behind `i` others.
abbrev word_at : ℕ → ℕ → Bytes → ℕ
word_at i n input = number_from 0 (take n (drop i input))

read_number-at :
    (i n : ℕ) (input : Bytes)
    → i + n ≤ length input
    → read_number n (drop i input) ≡ some (drop (i + n) input, word_at i n input)
unfolding read_number
read_number-at i n input h =
    let long : n ≤ length (drop i input) = omega (arith, h, length-drop i input) in
    rw (le→leb n (length (drop i input)) long) (rw (drop-drop i n input) refl)

module _ (nom : Nom) (chrono : Chrono) where
  -- A message that is all there: 16 bytes of a header of version 10, with a time that has a date,
  -- and as many bytes as the header says.
  pub record IsWhole (input : Bytes) : Type 0 where
    pub header : 16 ≤ length input
    pub version : word_at 0 2 input ≡ 10
    pub date : Succeeds (chrono.from_timestamp_secs (ℤ.pos (word_at 4 4 input)))
    pub size : word_at 2 2 input ≤ length input

  -- What is read of such a message: the words of its header, and what follows the length that it
  -- states, or the header where it states less.
  pub record IsRead (input left : Bytes) (m : IpfixPacket chrono.DateTime) : Type 0 where
    pub version : m.header.version ≡ 10
    pub size : m.header.length ≡ word_at 2 2 input
    pub date : chrono.from_timestamp_secs (ℤ.pos (word_at 4 4 input)) ≡ some m.header.export_time
    pub sequence : m.header.sequence_number ≡ word_at 8 4 input
    pub domain : m.header.observation_domain_id ≡ word_at 12 4 input
    pub rest : left ≡ drop (16 + (word_at 2 2 input - 16)) input

  abbrev header_of : Bytes → chrono.DateTime → Header chrono.DateTime
  header_of input date = record {
    version = word_at 0 2 input;
    length = word_at 2 2 input;
    export_time = date;
    sequence_number = word_at 8 4 input;
    observation_domain_id = word_at 12 4 input;
  }

  abbrev header_at : Bytes → Bool → Option chrono.DateTime → Option (Bytes × Header chrono.DateTime)
  header_at input true (some date) = some (drop 16 input, header_of input date)
  header_at input _ _ = none

  parse_header-at :
      (input : Bytes)
      → 16 ≤ length input
      → parse_header nom chrono input
        ≡ header_at input
            (word_at 0 2 input == 10)
            (chrono.from_timestamp_secs (ℤ.pos (word_at 4 4 input)))
  unfolding parse_header verify_version timestamp_secs
  parse_header-at input h =
      let version : nom.be_u16 input ≡ some (drop 2 input, word_at 0 2 input) =
        nom.be_u16_lem input ∙ read_number-at 0 2 input (omega (arith, h)) in
      let size : nom.be_u16 (drop 2 input) ≡ some (drop 4 input, word_at 2 2 input) =
        nom.be_u16_lem _ ∙ read_number-at 2 2 input (omega (arith, h)) in
      let time : nom.be_u32 (drop 4 input) ≡ some (drop 8 input, word_at 4 4 input) =
        nom.be_u32_lem _ ∙ read_number-at 4 4 input (omega (arith, h)) in
      let sequence : nom.be_u32 (drop 8 input) ≡ some (drop 12 input, word_at 8 4 input) =
        nom.be_u32_lem _ ∙ read_number-at 8 4 input (omega (arith, h)) in
      let domain : nom.be_u32 (drop 12 input) ≡ some (drop 16 input, word_at 12 4 input) =
        nom.be_u32_lem _ ∙ read_number-at 12 4 input (omega (arith, h)) in
      rw version (elim (Bool-cases (word_at 0 2 input == 10)) [
        | inr b ↦ rw b refl
        | inl b ↦ rw b (
            rw size (
              rw time
                (elim (Option-cases (chrono.from_timestamp_secs (ℤ.pos (word_at 4 4 input)))) [
                  | inl n ↦ rw n refl
                  | inr (d, s) ↦ rw s (rw sequence (rw domain refl))
                ])))
      ])

  refused_without_header :
      (now : ℕ) (p : IpfixParser) (input : Bytes)
      → parse_header nom chrono input ≡ none
      → parse nom chrono now p input ≡ (p, none)
  unfolding parse
  refused_without_header now p input e = rw e refl

  short-none :
      (input : Bytes) (o : Option (Bytes × Header chrono.DateTime))
      → length input < 16
      → Takes 16 input o
      → o ≡ none
  unfolding Takes
  short-none input none short h = refl
  short-none input (some t) short h = absurd (omega (arith, short, h.0))

  whole-IsRead :
      (now : ℕ) (p : IpfixParser) (input : Bytes) (date : chrono.DateTime)
      → parse_header nom chrono input ≡ some (drop 16 input, header_of input date)
      → word_at 0 2 input ≡ 10
      → chrono.from_timestamp_secs (ℤ.pos (word_at 4 4 input)) ≡ some date
      → word_at 2 2 input - 16 ≤ length (drop 16 input)
      → Succeeds (parse nom chrono now p input).1
        × Gives (IsRead input) (parse nom chrono now p input).1
  whole-IsRead now p input date e version dated le =
      let read =
        parse-IsMessage nom chrono now p input (drop 16 input) (header_of input date) e le in
      (
        read.0,
        Gives-map (IsMessage nom chrono (header_of input date) (drop 16 input)) (IsRead input)
            (parse nom chrono now p input).1
            (λ left m h. record {
              version = ap (λ x. x.version) h.1 ∙ version;
              size = ap (λ x. x.length) h.1;
              date = dated ∙ ap (λ x. some x.export_time) (sym h.1);
              sequence = ap (λ x. x.sequence_number) h.1;
              domain = ap (λ x. x.observation_domain_id) h.1;
              rest = h.0 ∙ drop-drop 16 (word_at 2 2 input - 16) input;
            })
            read.1,
      )

  abbrev Outcome : ℕ → IpfixParser → Bytes → Type 0
  Outcome now p input =
      (IsWhole input
        × Succeeds (parse nom chrono now p input).1
        × Gives (IsRead input) (parse nom chrono now p input).1)
      ⊎ ((¬ IsWhole input) × (parse nom chrono now p input ≡ (p, none)))

  dated-IsWhole :
      (now : ℕ) (p : IpfixParser) (input : Bytes) (date : chrono.DateTime)
      → 16 ≤ length input
      → parse_header nom chrono input ≡ some (drop 16 input, header_of input date)
      → word_at 0 2 input ≡ 10
      → chrono.from_timestamp_secs (ℤ.pos (word_at 4 4 input)) ≡ some date
      → Outcome now p input
  unfolding Succeeds
  dated-IsWhole now p input date long e version dated =
      let left = length-drop 16 input in
      elim (Bool-cases (leb (word_at 2 2 input) (length input))) [
        | inl b ↦
            let size : word_at 2 2 input ≤ length input = leb→le _ _ b in
            let read =
              whole-IsRead now p input date e version dated (omega (arith, size, left, long)) in
            inl (
              record { header = long; version = version; date = rw dated _; size = size },
              read.0,
              read.1,
            )
        | inr b ↦
            let cut : length input < word_at 2 2 input = ground arith in
            inr (
              (λ w. omega (arith, w.size, cut)),
              unfold parse in
                  ap (header_parsed nom chrono now p) e
                  ∙ cut-refused nom chrono now p (some (drop 16 input, header_of input date))
                      (unfold Gives in omega (arith, cut, left, long)),
            )
      ]

  long-IsWhole :
      (now : ℕ) (p : IpfixParser) (input : Bytes) → 16 ≤ length input → Outcome now p input
  unfolding Succeeds
  long-IsWhole now p input long =
      let read = parse_header-at input long in
      elim (Bool-cases (word_at 0 2 input == 10)) [
        | inr b ↦ inr (
          (λ w. let t = (==_iff _ _).1 w.version in cc),
          refused_without_header now p input (read ∙ rw b refl),
        )
        | inl b ↦ elim (Option-cases (chrono.from_timestamp_secs (ℤ.pos (word_at 4 4 input)))) [
          | inl n ↦ inr (
            (λ w. subst Succeeds n w.date),
            refused_without_header now p input (read ∙ rw b (rw n refl)),
          )
          | inr (d, s) ↦
              dated-IsWhole now p input d long (read ∙ rw b (rw s refl)) ((==_iff _ _).0 b) s
        ]
      ]

  -- A message is parsed exactly when it is all there: its 16 bytes of header, of version 10 and with
  -- a time that has a date, and as many bytes as the header says. Then the header is that of its
  -- words and what follows the message is left, whatever its sets hold. Any other input is
  -- refused, and the parser keeps its templates and element types as they were.
  pub parse-IsWhole :
      (now : ℕ) (p : IpfixParser) (input : Bytes)
      → (IsWhole input
          × Succeeds (parse nom chrono now p input).1
          × Gives (IsRead input) (parse nom chrono now p input).1)
        ⊎ ((¬ IsWhole input) × (parse nom chrono now p input ≡ (p, none)))
  parse-IsWhole now p input = elim (Bool-cases (ltb (length input) 16)) [
    | inl short ↦
        let short : length input < 16 = ground arith in
        inr (
          (λ w. omega (arith, w.header, short)),
          refused_without_header now p input
              (short-none input _ short (parse_header-Takes nom chrono input)),
        )
    | inr long ↦ long-IsWhole now p input (ground arith)
  ]
