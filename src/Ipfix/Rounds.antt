-- ===== src/Ipfix/Rounds.antt =====
-- The loops over lists have rounds enough: each round takes something of the list.
use rustflow.Prelude.{
  ℕ, zero, suc, ◌+◌, ◌≤◌, ◌<◌, ◌≡◌, refl, false, Option, none, some, [], ◌∷◌, ◌==◌, ◌-◌, ltb,
  length, arith, Bool-cases, inl, inr, ◌||◌,
}
use rustflow.IeRegistry.{DataType}
use rustflow.Wire.Read.{Bytes}
use rustflow.Wire.Nom.{Nom}
use rustflow.Wire.Many.{Gives, then-Gives, Gives-map, either-Gives}
use rustflow.FieldParsers.{Chrono}
use rustflow.FieldParsers.Takes.{Takes}
use rustflow.FieldParsers.Numbers.{Shrinks, u8-Shrinks, u16-Shrinks, taken-Shrinks, take-Takes}
use rustflow.Ipfix.Types.{FieldSpecifier, FieldValue, Values, Items, ipfix_variable_length}
use rustflow.Ipfix.Templates.{parse_field_length}
use rustflow.Ipfix.DataRecords.{
  IpfixParser, ValueParser, content_loop, items_loop, element_added, element_read, item_added,
  item_read, item_id_read, parse_field_value,
}
use rustflow.Ipfix.Lists.{field_value-Takes}

-- A length that is read takes a byte, or is that of a field that has one.
abbrev Moves : Bytes → Bytes → ℕ → Type 0
Moves input rest len = (length rest ≤ length input) × (length rest < length input + len)

parse_field_length-Moves :
    (nom : Nom) (field_length : ℕ) (input : Bytes)
    → (field_length == 0) ≡ false
    → Gives (Moves input) (parse_field_length nom field_length input)
unfolding parse_field_length Gives
parse_field_length-Moves nom field_length input h =
    elim (Bool-cases (field_length == ipfix_variable_length)) [
      | inl b ↦ rw b (
          then-Gives (Shrinks 1 input) (Moves input) (nom.be_u8 input) _ (u8-Shrinks nom input)
            (λ r v s.
              either-Gives (Moves input) (ltb v 255) (some (r, v)) (nom.be_u16 r) (omega (arith, s))
                (Gives-map (Shrinks 2 r) (Moves input) (nom.be_u16 r)
                  (λ r' w s'. omega (arith, s, s')) (u16-Shrinks nom r))))
      | inr b ↦ rw b (ground arith)
    ]

module _ (nom : Nom) (chrono : Chrono) (now domain : ℕ) (p : IpfixParser)
    (call : ValueParser nom chrono)
    (takes : (t : DataType) (n : ℕ) (i : Bytes) → Takes n i (call t n i)) where
  abbrev SameBelow : {A : Type 0} → (Bytes → Option A) → (Bytes → Option A) → ℕ → Type 0
  SameBelow f g n = (rest : Bytes) → length rest < n → f rest ≡ g rest

  same_element :
      (f g : Bytes → Option (Values chrono.DateTime)) (n : ℕ)
      (o : Option (Bytes × FieldValue chrono.DateTime))
      → Gives (λ rest v. length rest < n) o
      → SameBelow f g n
      → element_added nom chrono now domain p call f o
        ≡ element_added nom chrono now domain p call g o
  unfolding Gives
  same_element f g n none h same = refl
  same_element f g n (some (rest, v)) h same = rw (same rest h) refl

  same_element_read :
      (f g : Bytes → Option (Values chrono.DateTime)) (field : FieldSpecifier) (t : DataType)
      (list : Bytes) (o : Option (Bytes × ℕ))
      → ((field.field_length == 0) ≡ false → Gives (Moves list) o)
      → SameBelow f g (length list)
      → element_read nom chrono now domain p call f field t o
        ≡ element_read nom chrono now domain p call g field t o
  unfolding Gives
  same_element_read f g field t list none h same = refl
  same_element_read f g field t list (some (rest, len)) h same =
      elim (Bool-cases (field.field_length == 0 || ltb (length rest) len)) [
        | inl c ↦ rw c refl
        | inr c ↦
            let moves : Moves list rest len = h (ground arith) in
            let long : len ≤ length rest = ground arith in
            rw c (
              same_element f g (length list) (call t len rest)
                (Gives-map (Shrinks len rest) _ (call t len rest)
                  (λ rest' v s. omega (arith, s, moves))
                  (taken-Shrinks len rest (call t len rest) (takes t len rest)))
                same)
      ]

  pub content_loop_enough :
      (out out' : Option (Values chrono.DateTime)) (field : FieldSpecifier) (t : DataType) (n m : ℕ)
      (list : Bytes)
      → length list < n
      → length list < m
      → content_loop nom chrono now domain p call out n field t list
        ≡ content_loop nom chrono now domain p call out' m field t list
  unfolding content_loop
  content_loop_enough out out' field t zero m list h h' = absurd (omega arith)
  content_loop_enough out out' field t (suc n) zero list h h' = absurd (omega arith)
  content_loop_enough out out' field t (suc n) (suc m) [] h h' = refl
  content_loop_enough out out' field t (suc n) (suc m) (x ∷ xs) h h' =
      same_element_read (content_loop nom chrono now domain p call out n field t)
        (content_loop nom chrono now domain p call out' m field t) field t (x ∷ xs)
        (parse_field_length nom field.field_length (x ∷ xs))
        (parse_field_length-Moves nom field.field_length (x ∷ xs))
        (λ rest lt.
          content_loop_enough out out' field t n m rest (omega (arith, lt, h))
            (omega (arith, lt, h')))

  same_item :
      (f g : Bytes → Option (Items chrono.DateTime)) (n id len : ℕ) (o : Option (Bytes × Bytes))
      → Gives (λ rest v. length rest < n) o
      → SameBelow f g n
      → item_added nom chrono now domain p call f id len o
        ≡ item_added nom chrono now domain p call g id len o
  unfolding Gives
  same_item f g n id len none h same = refl
  same_item f g n id len (some (rest, v)) h same = rw (same rest h) refl

  same_item_read :
      (f g : Bytes → Option (Items chrono.DateTime)) (n id : ℕ) (o : Option (Bytes × ℕ))
      → Gives (λ rest v. length rest < n) o
      → SameBelow f g n
      → item_read nom chrono now domain p call f id o
        ≡ item_read nom chrono now domain p call g id o
  unfolding Gives
  same_item_read f g n id none h same = refl
  same_item_read f g n id (some (rest, len)) h same = elim (Bool-cases ((len - 4) == 0)) [
    | inl c ↦ rw c (same rest h)
    | inr c ↦ rw c (
        same_item f g n id len (nom.take (len - 4) rest)
          (Gives-map (Shrinks (len - 4) rest) _ (nom.take (len - 4) rest)
            (λ rest' v s. omega (arith, s, h))
            (taken-Shrinks (len - 4) rest _ (take-Takes nom rest (len - 4))))
          same)
  ]

  same_item_id :
      (f g : Bytes → Option (Items chrono.DateTime)) (n : ℕ) (o : Option (Bytes × ℕ))
      → Gives (λ rest v. length rest < n) o
      → SameBelow f g n
      → item_id_read nom chrono now domain p call f o
        ≡ item_id_read nom chrono now domain p call g o
  unfolding Gives
  same_item_id f g n none h same = refl
  same_item_id f g n (some (rest, id)) h same =
      same_item_read f g n id (nom.be_u16 rest)
        (Gives-map (Shrinks 2 rest) _ (nom.be_u16 rest) (λ r v s. omega (arith, s, h))
          (u16-Shrinks nom rest))
        same

  pub items_loop_enough :
      (out out' : Option (Items chrono.DateTime)) (n m : ℕ) (list : Bytes)
      → length list < n
      → length list < m
      → items_loop nom chrono now domain p call out n list
        ≡ items_loop nom chrono now domain p call out' m list
  unfolding items_loop
  items_loop_enough out out' zero m list h h' = absurd (omega arith)
  items_loop_enough out out' (suc n) zero list h h' = absurd (omega arith)
  items_loop_enough out out' (suc n) (suc m) [] h h' = refl
  items_loop_enough out out' (suc n) (suc m) (x ∷ xs) h h' =
      same_item_id (items_loop nom chrono now domain p call out n)
        (items_loop nom chrono now domain p call out' m) (length (x ∷ xs)) (nom.be_u16 (x ∷ xs))
        (Gives-map (Shrinks 2 (x ∷ xs)) _ (nom.be_u16 (x ∷ xs)) (λ r v s. omega (arith, s))
          (u16-Shrinks nom (x ∷ xs)))
        (λ rest lt.
          items_loop_enough out out' n m rest (omega (arith, lt, h)) (omega (arith, lt, h')))

-- The loops over the elements of a basic list and over the items of a list of several templates end
-- by their own tests: with more rounds than the list has bytes the result depends neither on how
-- many there are nor on what a loop would give that ran out of them. Whatever the elements are,
-- lists nested in them included.
pub loops_enough :
    (nom : Nom) (chrono : Chrono) (now domain : ℕ) (p : IpfixParser) (levels : ℕ)
    (field : FieldSpecifier) (t : DataType) (list : Bytes) (n m : ℕ)
    (values values' : Option (Values chrono.DateTime))
    (items items' : Option (Items chrono.DateTime))
    → length list < n
    → length list < m
    → (content_loop nom chrono now domain p
          (parse_field_value nom chrono now domain p levels)
          values
          n
          field
          t
          list
        ≡ content_loop nom chrono now domain p
            (parse_field_value nom chrono now domain p levels)
            values'
            m
            field
            t
            list)
      × (items_loop nom chrono now domain p
            (parse_field_value nom chrono now domain p levels)
            items
            n
            list
          ≡ items_loop nom chrono now domain p
              (parse_field_value nom chrono now domain p levels)
              items'
              m
              list)
loops_enough nom chrono now domain p levels field t list n m values values' items items' h h' =
    let call = parse_field_value nom chrono now domain p levels in
    let takes = field_value-Takes nom chrono now domain p levels in
    (
      content_loop_enough nom chrono now domain p call takes values values' field t n m list h h',
      items_loop_enough nom chrono now domain p call takes items items' n m list h h',
    )
