-- ===== src/Wire/RoundTrip.antt =====
-- What a reader makes of what a writer wrote.
use rustflow.Prelude.{
  ℕ, zero, suc, ◌+◌, ◌*◌, ◌/◌, ◌%◌, ◌^◌, ◌≤◌, ◌<◌, ◌≡◌, refl, ap, ◌∙◌, sym, some, true, ◌++◌, leb,
  length, length-append, take, drop, take-append, drop-append, arith, le→leb,
}
use native.Mathlib.Nat.{
  pow-suc, one-le-pow, div-add-mod, mod-lt, mod-eq_of_lt, add-mul-mod_self_right,
}
use rustflow.Wire.Read.{Bytes, number_from, read_bytes, read_number}
use rustflow.Wire.Nom.{Nom}
use rustflow.Wire.Write.{number_bytes}

pub length-number_bytes : (n v : ℕ) → length (number_bytes n v) ≡ n
unfolding number_bytes
length-number_bytes zero v = refl
length-number_bytes (suc n) v = ap suc (length-number_bytes n v)

digit_fits : (p d r : ℕ) → d < 256 → r < p → d * p + r < 256 * p
digit_fits p d r h lt = grind arith

-- The digit above `p` and what is below it make the rest by 256 p.
digit_split : (p v : ℕ) → 1 ≤ p → v / p % 256 * p + v % p ≡ v % (256 * p)
digit_split p v pos =
    let q' = v / p / 256 in
    let low = v / p % 256 * p + v % p in
    let parts : v ≡ low + q' * (256 * p) =
      omega (arith, div-add-mod v p, ap (λ (t : ℕ). p * t) (div-add-mod (v / p) 256)) in
    let fits : low < 256 * p = digit_fits p (v / p % 256) (v % p) (omega arith) (mod-lt v pos) in
    sym (
      ap (λ (t : ℕ). t % (256 * p)) parts
      ∙ add-mul-mod_self_right low q' (256 * p)
      ∙ mod-eq_of_lt fits)

number_from-bytes : (n acc v : ℕ) → number_from acc (number_bytes n v) ≡ acc * 256 ^ n + v % 256 ^ n
unfolding number_from number_bytes
number_from-bytes zero acc v = omega arith
number_from-bytes (suc n) acc v =
    let p = 256 ^ n in
    let wide : 256 ^ suc n ≡ 256 * p = omega (arith, pow-suc 256 n) in
    rw wide (
      omega (
        arith,
        number_from-bytes n (acc * 256 + v / p % 256) v,
        digit_split p v (one-le-pow n 256 (omega arith)),
      ))

pub read_bytes-append :
    (s rest : Bytes) (n : ℕ) → length s ≡ n → read_bytes n (s ++ rest) ≡ some (rest, s)
unfolding read_bytes
read_bytes-append s rest n e =
    let long : leb n (length (s ++ rest)) ≡ true =
      le→leb _ _ (omega (arith, length-append s rest)) in
    let dropped : drop n (s ++ rest) ≡ rest =
      ap (λ k. drop k (s ++ rest)) (sym e) ∙ drop-append s rest in
    let taken : take n (s ++ rest) ≡ s =
      ap (λ k. take k (s ++ rest)) (sym e) ∙ take-append s rest in
    rw long (rw (dropped, taken) refl)

-- A number that fits `n` bytes is read back, and what follows it is left.
pub read_number-bytes :
    (n v : ℕ) (rest : Bytes)
    → v < 256 ^ n
    → read_number n (number_bytes n v ++ rest) ≡ some (rest, v)
unfolding read_number
read_number-bytes n v rest h =
    let long : leb n (length (number_bytes n v ++ rest)) ≡ true =
      le→leb _ _ (omega (arith, length-append (number_bytes n v) rest, length-number_bytes n v)) in
    let e = length-number_bytes n v in
    let dropped : drop n (number_bytes n v ++ rest) ≡ rest =
      ap (λ k. drop k (number_bytes n v ++ rest)) (sym e) ∙ drop-append (number_bytes n v) rest in
    let taken : take n (number_bytes n v ++ rest) ≡ number_bytes n v =
      ap (λ k. take k (number_bytes n v ++ rest)) (sym e) ∙ take-append (number_bytes n v) rest in
    let value : 0 * 256 ^ n + v ≡ v = omega arith in
    rw long (rw (dropped, taken, number_from-bytes n 0 v, mod-eq_of_lt h, value) refl)

module _ (nom : Nom) (v : ℕ) (rest : Bytes) where
  pub be_u8-bytes : v < 2 ^ 8 → nom.be_u8 (number_bytes 1 v ++ rest) ≡ some (rest, v)
  be_u8-bytes h = nom.be_u8_lem _ ∙ read_number-bytes 1 v rest h

  pub be_u16-bytes : v < 2 ^ 16 → nom.be_u16 (number_bytes 2 v ++ rest) ≡ some (rest, v)
  be_u16-bytes h = nom.be_u16_lem _ ∙ read_number-bytes 2 v rest h

  pub be_u32-bytes : v < 2 ^ 32 → nom.be_u32 (number_bytes 4 v ++ rest) ≡ some (rest, v)
  be_u32-bytes h = nom.be_u32_lem _ ∙ read_number-bytes 4 v rest h

  pub be_u64-bytes : v < 2 ^ 64 → nom.be_u64 (number_bytes 8 v ++ rest) ≡ some (rest, v)
  be_u64-bytes h = nom.be_u64_lem _ ∙ read_number-bytes 8 v rest h

  pub be_u128-bytes : v < 2 ^ 128 → nom.be_u128 (number_bytes 16 v ++ rest) ≡ some (rest, v)
  be_u128-bytes h = nom.be_u128_lem _ ∙ read_number-bytes 16 v rest h

  pub take-bytes : (n : ℕ) → nom.take n (number_bytes n v ++ rest) ≡ some (rest, number_bytes n v)
  take-bytes n =
      nom.take_lem n _ ∙ read_bytes-append (number_bytes n v) rest n (length-number_bytes n v)

pub ruleset reads =
    (be_u8-bytes, be_u16-bytes, be_u32-bytes, be_u64-bytes, be_u128-bytes, take-bytes)
