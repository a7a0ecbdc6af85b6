-- ===== src/Wire/Reference.antt =====
-- Functions that behave as documented, so that the laws of `Nom` and `BufMut` can hold and the
-- models can run.
use rustflow.Prelude.{
  ℕ, zero, suc, ◌<◌, ◌≡◌, refl, Option, none, some, List, [], ◌∷◌, ◌++◌, leb, if◌then◌else◌, length,
  replicate, arith, Bool-cases, inl, inr, leb_false→lt,
}
use rustflow.Wire.Read.{Bytes, Parser, ◌>>=◌, read_bytes, read_number, read_count}
use rustflow.Wire.Nom.{Nom, read_signed, many0_round}
use rustflow.Wire.Write.{BufMut, number_bytes}

module _ (A : Type 0) where
  unfoldable pub many_model : ℕ → Parser A → Parser (List A)
  many_model zero p input = some (input, [])
  many_model (suc n) p input = p input >>= λ t.
      if leb (length input) (length t.0)
      then none
      else many_model n p t.0 >>= λ u. some (u.0, t.1 ∷ u.1)

module _ (S A : Type 0) (p : S → Bytes → S × Option (Bytes × A)) where
  unfoldable pub many0_fuel : ℕ → S → Bytes → S × Option (Bytes × List A)
  many0_fuel zero s input = (s, none)
  many0_fuel (suc n) s input =
      let again = many0_fuel n in many0_round again input (p s input).0 (p s input).1

  -- A round looks at what comes after it only where input was taken.
  same_round :
      (f g : S → Bytes → S × Option (Bytes × List A)) (input : Bytes) (s : S)
      (o : Option (Bytes × A))
      → ((t : S) (rest : Bytes) → length rest < length input → f t rest ≡ g t rest)
      → many0_round f input s o ≡ many0_round g input s o
  same_round f g input s none h = refl
  same_round f g input s (some (rest, a)) h = elim (Bool-cases (leb (length input) (length rest))) [
    | inl b ↦ rw b refl
    | inr b ↦ rw b (rw (h s rest (leb_false→lt _ _ b)) refl)
  ]

  -- The fuel is enough once it exceeds the input.
  many0_fuel_enough :
      (n m : ℕ) (s : S) (input : Bytes)
      → length input < n
      → length input < m
      → many0_fuel n s input ≡ many0_fuel m s input
  unfolding many0_fuel
  many0_fuel_enough zero m s input h h' = absurd (omega arith)
  many0_fuel_enough (suc n) zero s input h h' = absurd (omega arith)
  many0_fuel_enough (suc n) (suc m) s input h h' =
      same_round (many0_fuel n) (many0_fuel m) input (p s input).0 (p s input).1
        (λ t rest lt. many0_fuel_enough n m t rest (omega arith) (omega arith))

  unfoldable pub many0_model : S → Bytes → S × Option (Bytes × List A)
  unfolding many0_fuel
  many0_model s input = many0_fuel (suc (length input)) s input

  pub many0_model_lem :
      (s : S) (input : Bytes)
      → many0_model s input ≡ many0_round many0_model input (p s input).0 (p s input).1
  unfolding many0_model
  many0_model_lem s input =
      same_round (many0_fuel (length input)) many0_model input (p s input).0 (p s input).1
        (λ t rest lt. many0_fuel_enough (length input) (suc (length rest)) t rest lt (omega arith))

pub many_model-zero :
    (A : Type 0) (p : Parser A) (input : Bytes) → many_model A 0 p input ≡ some (input, [])
unfolding many_model
many_model-zero A p input = refl

pub many_model-suc :
    (A : Type 0) (p : Parser A) (n : ℕ) (input : Bytes)
    → many_model A (suc n) p input ≡ (
        p input >>= λ t.
        if leb (length input) (length t.0)
        then none
        else many_model A n p t.0 >>= λ u. some (u.0, t.1 ∷ u.1))
unfolding many_model
many_model-suc A p n input = refl

abbrev pub nom : Nom
nom = record {
  be_u8 = read_number 1;
  be_u16 = read_number 2;
  be_u24 = read_number 3;
  be_u32 = read_number 4;
  be_u64 = read_number 8;
  be_u128 = read_number 16;
  be_i8 = read_signed 1 8;
  be_i16 = read_signed 2 16;
  be_i24 = read_signed 3 24;
  be_i32 = read_signed 4 32;
  be_i64 = read_signed 8 64;
  be_f32 = read_number 4;
  be_f64 = read_number 8;
  take = read_bytes;
  count = λ A p n input. read_count n p input;
  many = many_model;
  many0 = many0_model;
  be_u8_lem = λ input. refl;
  be_u16_lem = λ input. refl;
  be_u24_lem = λ input. refl;
  be_u32_lem = λ input. refl;
  be_u64_lem = λ input. refl;
  be_u128_lem = λ input. refl;
  be_i8_lem = λ input. refl;
  be_i16_lem = λ input. refl;
  be_i24_lem = λ input. refl;
  be_i32_lem = λ input. refl;
  be_i64_lem = λ input. refl;
  be_f32_lem = λ input. refl;
  be_f64_lem = λ input. refl;
  take_lem = λ n input. refl;
  count_lem = λ A p n input. refl;
  many-zero = many_model-zero;
  many-suc = many_model-suc;
  many0_lem = many0_model_lem;
}

abbrev pub buf : BufMut
buf = record {
  put_u8 = λ v b. b ++ number_bytes 1 v;
  put_u16 = λ v b. b ++ number_bytes 2 v;
  put_u32 = λ v b. b ++ number_bytes 4 v;
  put_u64 = λ v b. b ++ number_bytes 8 v;
  put_slice = λ s b. b ++ s;
  put_bytes = λ v n b. b ++ replicate n v;
  put_u8_lem = λ v b. refl;
  put_u16_lem = λ v b. refl;
  put_u32_lem = λ v b. refl;
  put_u64_lem = λ v b. refl;
  put_slice_lem = λ s b. refl;
  put_bytes_lem = λ v n b. refl;
}
