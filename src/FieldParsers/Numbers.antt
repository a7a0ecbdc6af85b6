-- ===== src/FieldParsers/Numbers.antt =====
-- How much of its input each of nom's parsers of numbers takes, and `take`.
use rustflow.Prelude.{
  ◌==◌, ℕ, ◌+◌, ◌≤◌, ap, Option, none, some, length, arith, length-drop, Bool-cases, inl, inr, leb,
  leb→le, length-take, ◌≡◌, drop, refl, zero, suc, ◌*◌, List,
}
use rustflow.Wire.Read.{Bytes, Parser, read_bytes, read_count}
use rustflow.Wire.Nom.{Nom}
use rustflow.Wire.Many.{Gives, then-Gives}
use rustflow.FieldParsers.{verify_version}
use rustflow.FieldParsers.Takes.{
  Takes, read_bytes-Takes, read_number-Takes, map_value-Takes, then-Takes, either-Takes,
}

module _ (nom : Nom) (input : Bytes) where
  pub take-Takes : (n : ℕ) → Takes n input (nom.take n input)
  take-Takes n = rw (nom.take_lem n input) (read_bytes-Takes n input)

  pub u8-Takes : Takes 1 input (nom.be_u8 input)
  u8-Takes = rw (nom.be_u8_lem input) (read_number-Takes 1 input)

  pub u16-Takes : Takes 2 input (nom.be_u16 input)
  u16-Takes = rw (nom.be_u16_lem input) (read_number-Takes 2 input)

  pub u24-Takes : Takes 3 input (nom.be_u24 input)
  u24-Takes = rw (nom.be_u24_lem input) (read_number-Takes 3 input)

  pub u32-Takes : Takes 4 input (nom.be_u32 input)
  u32-Takes = rw (nom.be_u32_lem input) (read_number-Takes 4 input)

  pub u64-Takes : Takes 8 input (nom.be_u64 input)
  u64-Takes = rw (nom.be_u64_lem input) (read_number-Takes 8 input)

  pub u128-Takes : Takes 16 input (nom.be_u128 input)
  u128-Takes = rw (nom.be_u128_lem input) (read_number-Takes 16 input)

  pub i8-Takes : Takes 1 input (nom.be_i8 input)
  i8-Takes = rw (nom.be_i8_lem input) (map_value-Takes 1 input _ _ (read_number-Takes 1 input))

  pub i16-Takes : Takes 2 input (nom.be_i16 input)
  i16-Takes = rw (nom.be_i16_lem input) (map_value-Takes 2 input _ _ (read_number-Takes 2 input))

  pub i24-Takes : Takes 3 input (nom.be_i24 input)
  i24-Takes = rw (nom.be_i24_lem input) (map_value-Takes 3 input _ _ (read_number-Takes 3 input))

  pub i32-Takes : Takes 4 input (nom.be_i32 input)
  i32-Takes = rw (nom.be_i32_lem input) (map_value-Takes 4 input _ _ (read_number-Takes 4 input))

  pub i64-Takes : Takes 8 input (nom.be_i64 input)
  i64-Takes = rw (nom.be_i64_lem input) (map_value-Takes 8 input _ _ (read_number-Takes 8 input))

  pub f32-Takes : Takes 4 input (nom.be_f32 input)
  f32-Takes = rw (nom.be_f32_lem input) (read_number-Takes 4 input)

  pub f64-Takes : Takes 8 input (nom.be_f64 input)
  f64-Takes = rw (nom.be_f64_lem input) (read_number-Takes 8 input)

-- Where a result was read, `n` bytes were taken.
abbrev pub Reads : {A : Type 0} → ℕ → Bytes → Bytes → A → Type 0
Reads n input rest a = (n ≤ length input) × (rest ≡ drop n input)

pub Takes-Reads :
    {A : Type 0} (n : ℕ) (input : Bytes) (o : Option (Bytes × A))
    → Takes n input o
    → Gives (Reads n input) o
unfolding Gives Takes
Takes-Reads n input none h = _
Takes-Reads n input (some (rest, a)) h = h

-- What is read, in bytes and in values, is no more than the input.
abbrev pub Shrinks : {A : Type 0} → ℕ → Bytes → Bytes → A → Type 0
Shrinks n input rest a = n + length rest ≤ length input

pub taken-Shrinks :
    {A : Type 0} (n : ℕ) (input : Bytes) (o : Option (Bytes × A))
    → Takes n input o
    → Gives (Shrinks n input) o
unfolding Gives Takes
taken-Shrinks n input none h = _
taken-Shrinks n input (some (rest, a)) (le, e) = omega (arith, le, ap length e, length-drop n input)

pub u16-Shrinks : (nom : Nom) (input : Bytes) → Gives (Shrinks 2 input) (nom.be_u16 input)
u16-Shrinks nom input = taken-Shrinks 2 input (nom.be_u16 input) (u16-Takes nom input)

pub u32-Shrinks : (nom : Nom) (input : Bytes) → Gives (Shrinks 4 input) (nom.be_u32 input)
u32-Shrinks nom input = taken-Shrinks 4 input (nom.be_u32 input) (u32-Takes nom input)

pub take-Parts :
    (nom : Nom) (n : ℕ) (input : Bytes)
    → Gives (λ rest bytes. length bytes + length rest ≤ length input) (nom.take n input)
unfolding Gives read_bytes
take-Parts nom n input = rw (nom.take_lem n input) (elim (Bool-cases (leb n (length input))) [
  | inl b ↦ rw b (omega (arith, leb→le _ _ b, length-take n input, length-drop n input))
  | inr b ↦ rw b _
])

pub u8-Shrinks : (nom : Nom) (input : Bytes) → Gives (Shrinks 1 input) (nom.be_u8 input)
u8-Shrinks nom input = taken-Shrinks 1 input (nom.be_u8 input) (u8-Takes nom input)

-- So many values, each of `k` bytes at least.
abbrev pub Counted : {A : Type 0} → ℕ → ℕ → Bytes → Bytes → List A → Type 0
Counted k n input rest l = (length l ≡ n) × (k * length l + length rest ≤ length input)

more : (k n : ℕ) → k * suc n ≡ k + k * n
more k n = grind arith

pub read_count-Counted :
    {A : Type 0} (p : Parser A) (k n : ℕ) (input : Bytes)
    → ((i : Bytes) → Gives (Shrinks k i) (p i))
    → Gives (Counted k n input) (read_count n p input)
unfolding read_count Gives
read_count-Counted p k zero input h = (refl, omega arith)
read_count-Counted p k (suc n) input h = then-Gives _ _ (p input) _ (h input) (λ rest a s.
    then-Gives _ _ (read_count n p rest) _ (read_count-Counted p k n rest h)
      (λ rest' l t. (ap suc t.0, omega (arith, s, t.1, more k (length l)))))

pub verify_version-Takes :
    (nom : Nom) (v : ℕ) (input : Bytes) → Takes 2 input (verify_version nom input v)
unfolding verify_version Takes
verify_version-Takes nom v input =
    then-Takes 2 0 input (nom.be_u16 input) _ (u16-Takes nom input)
      (λ rest read. either-Takes 0 rest _ _ (read == v) (omega arith, refl) _)
