-- ===== src/Ipfix/Messages.antt =====
-- How an IPFIX message falls into sets, whatever they hold, and when a message is refused.
use rustflow.Prelude.{
  ℕ, ◌+◌, ◌-◌, ◌≤◌, ◌<◌, ◌≡◌, refl, ap, Option, none, some, List, ltb, length, drop, arith,
  Bool-cases, inl, inr, subst, length-drop, true, false, leb, le→leb, take, ◌∙◌, lt→leb_false,
}
use rustflow.Wire.Read.{Bytes, read_bytes}
use rustflow.Wire.Nom.{Nom}
use rustflow.Wire.Many.{Gives, then-Gives, map_value-Gives, Succeeds, Shorter, many0-Succeeds}
use rustflow.FieldParsers.{Chrono, timestamp_secs, verify_version}
use rustflow.FieldParsers.Takes.{Takes, then-Takes, map_opt-Takes, two_steps}
use rustflow.FieldParsers.Numbers.{
  verify_version-Takes, u32-Takes, Reads, Takes-Reads, u16-Takes, take-Takes,
}
use rustflow.Ipfix.Types.{
  ipfix_version, Set, Header, Record, IpfixPacket, ipfix_header_size, set_header_size,
}
use rustflow.Ipfix.DataRecords.{IpfixParser}
use rustflow.Ipfix.Sets.{
  parse, parse_header, parse_set, parse_records, set_bytes, set_of, set_parsed, packet,
  header_parsed,
}

-- What `set_bytes` gives: an ID, a length and the bytes behind these.
abbrev SetRead : Bytes → Bytes → ℕ × ℕ × Bytes → Type 0
SetRead input rest (id, len, bytes) = (4 ≤ len) × (len ≤ length input) × (rest ≡ drop len input)

-- Both words of a set's header and its bytes are the set's length.
whole_set :
    (input r1 r2 r3 : Bytes) (len : ℕ)
    → 4 ≤ len
    → Reads {A = ℕ} 2 input r1 len
    → Reads {A = ℕ} 2 r1 r2 len
    → Reads {A = ℕ} (len - 4) r2 r3 len
    → (len ≤ length input) × (r3 ≡ drop len input)
whole_set input r1 r2 r3 len big t1 t2 t3 =
    let four = two_steps 2 2 input r1 r2 t1 t2 in
    let all = two_steps 4 (len - 4) input r2 r3 four t3 in
    let same : 4 + (len - 4) ≡ len = omega (arith, big) in
    subst (λ (k : ℕ). (k ≤ length input) × (r3 ≡ drop k input)) same all

module _ (nom : Nom) (chrono : Chrono) where
  set_bytes-SetRead : (input : Bytes) → Gives (SetRead input) (set_bytes nom chrono input)
  unfolding Gives set_bytes
  set_bytes-SetRead input =
      then-Gives (Reads 2 input) _ (nom.be_u16 input) _
        (Takes-Reads 2 input (nom.be_u16 input) (u16-Takes nom input))
        (λ r1 id t1.
          then-Gives (Reads 2 r1) _ (nom.be_u16 r1) _
            (Takes-Reads 2 r1 (nom.be_u16 r1) (u16-Takes nom r1))
            (λ r2 len t2. elim (Bool-cases (ltb len set_header_size)) [
              | inl b ↦ rw b _
              | inr b ↦
                  let big : 4 ≤ len = ground arith in
                  rw b (
                    map_value-Gives (Reads (len - 4) r2) (SetRead input)
                      {f = λ bytes. (id, len, bytes)} (nom.take (len - 4) r2)
                      (λ r3 bytes t3.
                        let all = whole_set input r1 r2 r3 len big t1 t2 t3 in (big, all.0, all.1))
                      (Takes-Reads (len - 4) r2 _ (take-Takes nom r2 (len - 4))))
            ]))

abbrev pub SetTaken : {D : Type 0} → Bytes → Bytes → Set D → Type 0
SetTaken input rest set =
    (4 ≤ set.length) × (set.length ≤ length input) × (rest ≡ drop set.length input)

module _ (nom : Nom) (chrono : Chrono) where
  set_of-SetTaken :
      (input rest : Bytes) (id len : ℕ) (bytes : Bytes)
      (o : Option (Bytes × List (Record chrono.DateTime)))
      → SetRead input rest (id, len, bytes)
      → Gives (SetTaken input) (set_of nom chrono id len rest o)
  unfolding Gives
  set_of-SetTaken input rest id len bytes none h = _
  set_of-SetTaken input rest id len bytes (some (left, records)) h = h

  set_parsed-SetTaken :
      (now domain : ℕ) (p : IpfixParser) (input : Bytes) (o : Option (Bytes × (ℕ × ℕ × Bytes)))
      → Gives (SetRead input) o
      → Gives (SetTaken input) (set_parsed nom chrono now domain p o).1
  unfolding Gives
  set_parsed-SetTaken now domain p input none h = _
  set_parsed-SetTaken now domain p input (some (rest, (id, len, bytes))) h =
      set_of-SetTaken input rest id len bytes (parse_records nom chrono now domain id p bytes).1 h

  -- A set that is read takes exactly as many bytes as its length field says, at least the four of its
  -- header, whatever its records are and however they are read.
  pub parse_set-SetTaken :
      (now domain : ℕ) (p : IpfixParser) (input : Bytes)
      → Gives (SetTaken input) (parse_set nom chrono now domain p input).1
  unfolding parse_set
  parse_set-SetTaken now domain p input =
      set_parsed-SetTaken now domain p input (set_bytes nom chrono input)
        (set_bytes-SetRead nom chrono input)

  taken-Shorter :
      (input : Bytes) (o : Option (Bytes × Set chrono.DateTime))
      → Gives (SetTaken input) o
      → Gives (Shorter input) o
  unfolding Gives
  taken-Shorter input none h = _
  taken-Shorter input (some (rest, set)) (h, le, e) =
      omega (arith, h, le, ap length e, length-drop set.length input)

  -- A message that is read, with what it leaves.
  abbrev pub IsMessage :
      Header chrono.DateTime → Bytes → Bytes → IpfixPacket chrono.DateTime → Type 0
  IsMessage header rest left m =
      (left ≡ drop (header.length - ipfix_header_size) rest) × (m.header ≡ header)

  packet-IsMessage :
      (header : Header chrono.DateTime) (rest left : Bytes)
      (o : Option (Bytes × List (Set chrono.DateTime)))
      → left ≡ drop (header.length - ipfix_header_size) rest
      → Succeeds o
      → Succeeds (packet nom chrono header left o)
        × Gives (IsMessage header rest) (packet nom chrono header left o)
  unfolding Gives Succeeds
  packet-IsMessage header rest left none e h = absurd h
  packet-IsMessage header rest left (some (empty, sets)) e h = (_, (e, refl))

  sets-Succeeds :
      (now domain : ℕ) (p : IpfixParser) (body : Bytes)
      → Succeeds
          (nom.many0 IpfixParser (Set chrono.DateTime) (parse_set nom chrono now domain) p body).1
  sets-Succeeds now domain p body =
      many0-Succeeds nom (parse_set nom chrono now domain)
        (λ s i.
          taken-Shorter i (parse_set nom chrono now domain s i).1
            (parse_set-SetTaken now domain s i))
        p body

  -- A message whose header is read and whose bytes are all there is parsed, to a message with this
  -- header, and what follows the length that it states is left: malformed sets, unknown templates and
  -- lists that cannot be read do not make it fail.
  pub parse-IsMessage :
      (now : ℕ) (p : IpfixParser) (input rest : Bytes) (header : Header chrono.DateTime)
      → parse_header nom chrono input ≡ some (rest, header)
      → header.length - ipfix_header_size ≤ length rest
      → Succeeds (parse nom chrono now p input).1
        × Gives (IsMessage header rest) (parse nom chrono now p input).1
  unfolding parse read_bytes
  parse-IsMessage now p input rest header e le =
      let n = header.length - ipfix_header_size in
      let enough : leb n (length rest) ≡ true = le→leb n (length rest) le in
      let body : nom.take n rest ≡ some (drop n rest, take n rest) =
        nom.take_lem n rest ∙ rw enough refl in
      rw e (
        rw body (
          packet-IsMessage header rest (drop n rest) _ refl
            (sets-Succeeds now header.observation_domain_id p (take n rest))))

  -- A header whose message is longer than what follows it.
  abbrev pub IsCut : Bytes → Header chrono.DateTime → Type 0
  IsCut rest header = length rest < header.length - ipfix_header_size

  pub cut-refused :
      (now : ℕ) (p : IpfixParser) (o : Option (Bytes × Header chrono.DateTime))
      → Gives IsCut o
      → header_parsed nom chrono now p o ≡ (p, none)
  unfolding Gives read_bytes
  cut-refused now p none h = refl
  cut-refused now p (some (rest, header)) h =
      let n = header.length - ipfix_header_size in
      let short : leb n (length rest) ≡ false = lt→leb_false n (length rest) h in
      let body : nom.take n rest ≡ none = nom.take_lem n rest ∙ rw short refl in rw body refl

-- A header that is read takes 16 bytes.
pub parse_header-Takes :
    (nom : Nom) (chrono : Chrono) (input : Bytes) → Takes 16 input (parse_header nom chrono input)
unfolding parse_header timestamp_secs Takes
parse_header-Takes nom chrono input =
    then-Takes 2 14 input (verify_version nom input ipfix_version) _
      (verify_version-Takes nom _ input)
      (λ r1 a. then-Takes 2 12 r1 (nom.be_u16 r1) _ (u16-Takes nom r1) (λ r2 b.
        then-Takes 4 8 r2 (timestamp_secs nom chrono r2) _
          (map_opt-Takes 4 r2 _ _ (u32-Takes nom r2))
          (λ r3 c. then-Takes 4 4 r3 (nom.be_u32 r3) _ (u32-Takes nom r3) (λ r4 d.
            then-Takes 4 0 r4 (nom.be_u32 r4) _ (u32-Takes nom r4) (λ r5 e. (omega arith, refl))))))
