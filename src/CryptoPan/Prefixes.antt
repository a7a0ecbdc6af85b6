-- ===== src/CryptoPan/Prefixes.antt =====
-- What the digits of an anonymized address are made of.
use Prim.Native.Nat.{bit_and, bit_xor}
use native.Mathlib.Nat.{pow-suc, mul-div-mul_right, one-le-pow}
use rustflow.Prelude.{
  ℕ, zero, suc, ◌+◌, ◌-◌, ◌*◌, ◌/◌, ◌^◌, ◌<◌, ◌≤◌, ◌≡◌, refl, ap, sym, ◌∙◌, arith,
}
use rustflow.Prelude.Digits.{bit_xor_undo, bit_xor-div, bit_and_masked, half_first}
use rustflow.Wire.Write.{number_bytes}
use rustflow.Wire.RoundTrip.{length-number_bytes}
use rustflow.CryptoPan.{
  Aes128, CryptoPan, prefix_mask, block_input, flip_of, flips_from, anonymize_bits,
}
use rustflow.CryptoPan.Powers.{
  number_bytes-All, first_byte-IsByte, pow_split, mask_shape, joined, shorter,
}

module _ (aes : Aes128) (c : CryptoPan) where
  flip_of-bit : (addr i : ℕ) → flip_of aes c addr i < 2
  unfolding flip_of
  flip_of-bit addr i =
      let block = number_bytes 16 (block_input aes c addr i) in
      let made =
        aes.encrypt_block_lem c.cipher block (length-number_bytes 16 _, number_bytes-All 16 _) in
      omega (arith, first_byte-IsByte (aes.encrypt_block c.cipher block) made.1)

  -- A round's digit depends only on the digits before it.
  flip_of-prefix :
      (a b i : ℕ) → a / 2 ^ (128 - i) ≡ b / 2 ^ (128 - i) → flip_of aes c a i ≡ flip_of aes c b i
  unfolding flip_of
  flip_of-prefix a b i e =
      let m = (mask_shape i).0 in
      let same : bit_and a (prefix_mask i) ≡ bit_and b (prefix_mask i) =
        rw ((mask_shape i).1, bit_and_masked (128 - i) a m, bit_and_masked (128 - i) b m, e) refl in
      rw same refl

  -- The digits of the first `n` rounds, as a number.
  unfoldable pub digits_of : ℕ → ℕ → ℕ
  digits_of addr zero = 0
  digits_of addr (suc n) = 2 * digits_of addr n + flip_of aes c addr n

  digits_of-lt : (addr n : ℕ) → digits_of addr n < 2 ^ n
  unfolding digits_of
  digits_of-lt addr zero = omega arith
  digits_of-lt addr (suc n) = omega (arith, digits_of-lt addr n, flip_of-bit addr n, pow-suc 2 n)

  digits_of-div : (addr n k : ℕ) → digits_of addr (k + n) / 2 ^ k ≡ digits_of addr n
  unfolding digits_of
  digits_of-div addr n zero = let same : 0 + n ≡ n = omega arith in rw same (omega arith)
  digits_of-div addr n (suc k) =
      let sum : suc k + n ≡ suc (k + n) = omega arith in
      let half : digits_of addr (suc (k + n)) / 2 ≡ digits_of addr (k + n) =
        omega (arith, flip_of-bit addr (k + n)) in
      half_first (digits_of addr (suc k + n)) k ∙ rw sum (rw half (digits_of-div addr n k))

  flips_from-digits :
      (addr rounds i : ℕ)
      → rounds + i ≤ 128
      → flips_from aes c addr rounds i (digits_of addr i * 2 ^ (128 - i))
        ≡ digits_of addr (rounds + i) * 2 ^ (128 - (rounds + i))
  unfolding flips_from digits_of
  flips_from-digits addr zero i le = let same : 0 + i ≡ i = omega arith in rw same refl
  flips_from-digits addr (suc rounds) i le =
      let next : 128 - i ≡ suc (127 - i) = omega (arith, le) in
      let last : 128 - suc i ≡ 127 - i = omega arith in
      let join =
        joined (digits_of addr i) (flip_of aes c addr i) (127 - i) (flip_of-bit addr i)
          (omega arith) in
      let sum : suc rounds + i ≡ rounds + suc i = omega arith in
      let rest = flips_from-digits addr rounds (suc i) (omega (arith, le)) in
      rw (next, join, sum, sym last) rest

  bits-digits :
      (addr bits : ℕ)
      → bits ≤ 128
      → anonymize_bits aes c addr bits ≡ bit_xor addr (digits_of addr bits * 2 ^ (128 - bits))
  unfolding anonymize_bits digits_of
  bits-digits addr bits le =
      let same : bits + 0 ≡ bits = omega arith in
      ap (λ (f : ℕ). bit_xor addr f)
        (rw same at (flips_from-digits addr bits 0 (omega (arith, le))))

  -- The first `n` digits of what an address becomes, if `n` rounds are made at least.
  pub prefix-bits :
      (addr n bits : ℕ)
      → n ≤ bits
      → bits ≤ 128
      → anonymize_bits aes c addr bits / 2 ^ (128 - n)
        ≡ bit_xor (addr / 2 ^ (128 - n)) (digits_of addr n)
  prefix-bits addr n bits le le' =
      let parts : 128 - n ≡ bits - n + (128 - bits) = omega (arith, le, le') in
      let all : bits - n + n ≡ bits = omega (arith, le) in
      let power : 2 ^ (128 - n) ≡ 2 ^ (bits - n) * 2 ^ (128 - bits) =
        ap (λ (m : ℕ). 2 ^ m) parts ∙ pow_split (bits - n) (128 - bits) in
      let one : 1 ≤ 2 ^ (128 - bits) = one-le-pow (128 - bits) 2 (omega arith) in
      let flips : digits_of addr bits * 2 ^ (128 - bits) / 2 ^ (128 - n) ≡ digits_of addr n =
        ap (λ (p : ℕ). digits_of addr bits * 2 ^ (128 - bits) / p) power
        ∙ mul-div-mul_right (digits_of addr bits) (2 ^ (bits - n)) one
        ∙ (rw all at (digits_of-div addr n (bits - n))) in
      ap (λ (x : ℕ). x / 2 ^ (128 - n)) (bits-digits addr bits le')
      ∙ bit_xor-div (128 - n) addr (digits_of addr bits * 2 ^ (128 - bits))
      ∙ ap (λ (f : ℕ). bit_xor (addr / 2 ^ (128 - n)) f) flips

  digits_of-prefix :
      (a b n : ℕ) → n ≤ 128 → a / 2 ^ (128 - n) ≡ b / 2 ^ (128 - n) → digits_of a n ≡ digits_of b n
  unfolding digits_of
  digits_of-prefix a b zero le e = refl
  digits_of-prefix a b (suc n) le e =
      let e' = shorter a b n le e in
      omega (arith, flip_of-prefix a b n e', digits_of-prefix a b n (omega (arith, le)) e')

  module _ (a b bits : ℕ) (le : bits ≤ 128) where
    abbrev out : ℕ → ℕ
    out addr = anonymize_bits aes c addr bits

    pub prefix_kept :
        (n : ℕ)
        → n ≤ bits
        → a / 2 ^ (128 - n) ≡ b / 2 ^ (128 - n)
        → out a / 2 ^ (128 - n) ≡ out b / 2 ^ (128 - n)
    prefix_kept n h e =
        prefix-bits a n bits h le
        ∙ rw (e, digits_of-prefix a b n (omega (arith, h, le)) e) refl
        ∙ sym (prefix-bits b n bits h le)

    pub prefix_reflected :
        (n : ℕ)
        → a < 2 ^ 128
        → b < 2 ^ 128
        → n ≤ bits
        → out a / 2 ^ (128 - n) ≡ out b / 2 ^ (128 - n)
        → a / 2 ^ (128 - n) ≡ b / 2 ^ (128 - n)
    unfolding digits_of
    prefix_reflected zero fa fb h e = omega (arith, fa, fb)
    prefix_reflected (suc n) fa fb h e =
        let small : suc n ≤ 128 = omega (arith, h, le) in
        let e' = prefix_reflected n fa fb (omega (arith, h)) (shorter (out a) (out b) n small e) in
        let same : digits_of a (suc n) ≡ digits_of b (suc n) =
          omega
            (arith, flip_of-prefix a b n e', digits_of-prefix a b n (omega (arith, small)) e') in
        let mixed = sym (prefix-bits a (suc n) bits h le) ∙ e ∙ prefix-bits b (suc n) bits h le in
        sym (bit_xor_undo (a / 2 ^ (128 - suc n)) (digits_of a (suc n)))
        ∙ ap (λ (x : ℕ). bit_xor x (digits_of a (suc n))) mixed
        ∙ ap (λ (d : ℕ). bit_xor (bit_xor (b / 2 ^ (128 - suc n)) (digits_of b (suc n))) d) same
        ∙ bit_xor_undo (b / 2 ^ (128 - suc n)) (digits_of b (suc n))
