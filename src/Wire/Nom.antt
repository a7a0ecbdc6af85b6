-- ===== src/Wire/Nom.antt =====
-- nom's parsers and combinators, with their documented behaviour as laws.
use rustflow.Prelude.{ℕ, suc, ◌≡◌, Option, none, some, List, [], ◌∷◌, leb, if◌then◌else◌, length}
use rustflow.Prelude.Ints.{ℤ, signed}
use rustflow.Wire.Read.{map_value, Bytes, Parser, ◌>>=◌, read_bytes, read_number, read_count}

module _ {S A : Type 0} where
  -- One round of `many0`, whose parser may change a state `S`: an error ends the list, and keeps
  -- the state as the parser left it; a value that took no input is an error
  -- (the rest of a slice is never longer than the slice).
  abbrev pub many0_round :
      (S → Bytes → S × Option (Bytes × List A))
      → Bytes
      → S
      → Option (Bytes × A)
      → S × Option (Bytes × List A)
  many0_round again input s none = (s, some (input, []))
  many0_round again input s (some (rest, a)) =
      if leb (length input) (length rest)
      then (s, none)
      else let (s', more) = again s rest in (s', more >>= λ t. some (t.0, a ∷ t.1))

-- A signed number of `w` bits, big-endian, in two's complement.
abbrev pub read_signed : ℕ → ℕ → Parser ℤ
read_signed n w input = map_value (signed w) (read_number n input)

pub record Nom : Type 1 where
  pub be_u8 : Parser ℕ
  pub be_u16 : Parser ℕ
  pub be_u24 : Parser ℕ
  pub be_u32 : Parser ℕ
  pub be_u64 : Parser ℕ
  pub be_u128 : Parser ℕ
  pub be_i8 : Parser ℤ
  pub be_i16 : Parser ℤ
  pub be_i24 : Parser ℤ
  pub be_i32 : Parser ℤ
  pub be_i64 : Parser ℤ
  -- A float is the number of its bits.
  pub be_f32 : Parser ℕ
  pub be_f64 : Parser ℕ
  pub take : ℕ → Parser Bytes
  pub count : (A : Type 0) → Parser A → ℕ → Parser (List A)
  pub many : (A : Type 0) → ℕ → Parser A → Parser (List A)
  pub many0 :
      (S A : Type 0)
      → (S → Bytes → S × Option (Bytes × A))
      → S
      → Bytes
      → S × Option (Bytes × List A)
  pub be_u8_lem : (input : Bytes) → be_u8 input ≡ read_number 1 input
  pub be_u16_lem : (input : Bytes) → be_u16 input ≡ read_number 2 input
  pub be_u24_lem : (input : Bytes) → be_u24 input ≡ read_number 3 input
  pub be_u32_lem : (input : Bytes) → be_u32 input ≡ read_number 4 input
  pub be_u64_lem : (input : Bytes) → be_u64 input ≡ read_number 8 input
  pub be_u128_lem : (input : Bytes) → be_u128 input ≡ read_number 16 input
  pub be_i8_lem : (input : Bytes) → be_i8 input ≡ read_signed 1 8 input
  pub be_i16_lem : (input : Bytes) → be_i16 input ≡ read_signed 2 16 input
  pub be_i24_lem : (input : Bytes) → be_i24 input ≡ read_signed 3 24 input
  pub be_i32_lem : (input : Bytes) → be_i32 input ≡ read_signed 4 32 input
  pub be_i64_lem : (input : Bytes) → be_i64 input ≡ read_signed 8 64 input
  pub be_f32_lem : (input : Bytes) → be_f32 input ≡ read_number 4 input
  pub be_f64_lem : (input : Bytes) → be_f64 input ≡ read_number 8 input
  pub take_lem : (n : ℕ) (input : Bytes) → take n input ≡ read_bytes n input
  pub count_lem :
      (A : Type 0) (p : Parser A) (n : ℕ) (input : Bytes) → count A p n input ≡ read_count n p input
  -- `many` over an exact count is `count`, but a value that took no input is an error.
  pub many-zero : (A : Type 0) (p : Parser A) (input : Bytes) → many A 0 p input ≡ some (input, [])
  pub many-suc :
      (A : Type 0) (p : Parser A) (n : ℕ) (input : Bytes)
      → many A (suc n) p input ≡ (
          p input >>= λ t.
          if leb (length input) (length t.0)
          then none
          else many A n p t.0 >>= λ u. some (u.0, t.1 ∷ u.1))
  pub many0_lem :
      (S A : Type 0) (p : S → Bytes → S × Option (Bytes × A)) (s : S) (input : Bytes)
      → many0 S A p s input ≡ many0_round (many0 S A p) input (p s input).0 (p s input).1

-- `many0` of a parser that changes nothing.
unfoldable pub many : (nom : Nom) (A : Type 0) → Parser A → Parser (List A)
many nom A p input = (nom.many0 Unit A (λ s i. (s, p i)) _ input).1
