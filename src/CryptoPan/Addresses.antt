-- ===== src/CryptoPan/Addresses.antt =====
-- What `anonymize` keeps of an address.
use native.Mathlib.Nat.{div-div-eq-div-mul}
use rustflow.Prelude.{ℕ, ◌+◌, ◌-◌, ◌/◌, ◌%◌, ◌^◌, ◌<◌, ◌≤◌, ◌≡◌, refl, ap, sym, ◌∙◌, arith, ◌↔◌}
use rustflow.FlowCache.{IpAddr}
use rustflow.CryptoPan.{
  Aes128, CryptoPan, shift_left, anonymize_bits, anonymize_v4, anonymize_v6, anonymize,
}
use rustflow.CryptoPan.Powers.{pow_split}
use rustflow.CryptoPan.Prefixes.{prefix-bits, prefix_kept, prefix_reflected, digits_of}

-- The bits of an address.
abbrev pub width : IpAddr → ℕ
width (IpAddr.v4 a) = 32
width (IpAddr.v6 a) = 128

abbrev pub FitsAddress : IpAddr → Type 0
FitsAddress (IpAddr.v4 a) = a < 2 ^ 32
FitsAddress (IpAddr.v6 a) = a < 2 ^ 128

-- Two addresses of one version with the same first `n` bits.
abbrev pub SharePrefix : ℕ → IpAddr → IpAddr → Type 0
SharePrefix n (IpAddr.v4 a) (IpAddr.v4 b) = a / 2 ^ (32 - n) ≡ b / 2 ^ (32 - n)
SharePrefix n (IpAddr.v6 a) (IpAddr.v6 b) = a / 2 ^ (128 - n) ≡ b / 2 ^ (128 - n)
SharePrefix n _ _ = ⊥

-- The first `n` bits of 32 are the first `n` of the 128 that they start.
high_bits : (x n : ℕ) → n ≤ 32 → x / 2 ^ 96 / 2 ^ (32 - n) ≡ x / 2 ^ (128 - n)
high_bits x n le =
    let sum : 96 + (32 - n) ≡ 128 - n = omega (arith, le) in
    div-div-eq-div-mul x (2 ^ 96) (2 ^ (32 - n))
    ∙ ap (λ (p : ℕ). x / p) (sym (pow_split 96 (32 - n)) ∙ ap (λ (m : ℕ). 2 ^ m) sum)

raised : (a : ℕ) → a < 2 ^ 32 → (shift_left a 96 / 2 ^ 96 ≡ a) × (shift_left a 96 < 2 ^ 128)
raised a h = omega (arith, h)

low_prefix : (a n : ℕ) → a < 2 ^ 32 → n ≤ 32 → a / 2 ^ (32 - n) ≡ shift_left a 96 / 2 ^ (128 - n)
low_prefix a n h le =
    ap (λ (x : ℕ). x / 2 ^ (32 - n)) (sym (raised a h).0) ∙ high_bits (shift_left a 96) n le

module _ (aes : Aes128) (c : CryptoPan) where
  out_fits : (x bits : ℕ) → x < 2 ^ 128 → bits ≤ 128 → anonymize_bits aes c x bits < 2 ^ 128
  unfolding digits_of
  out_fits x bits h le =
      let none : x / 2 ^ 128 ≡ 0 = omega (arith, h) in
      let e : anonymize_bits aes c x bits / 2 ^ 128 ≡ 0 =
        prefix-bits aes c x 0 bits (omega arith) le ∙ rw none refl in
      omega (arith, e)

  v4_prefix :
      (a n : ℕ)
      → a < 2 ^ 32
      → n ≤ 32
      → anonymize_v4 aes c a / 2 ^ (32 - n)
        ≡ anonymize_bits aes c (shift_left a 96) 32 / 2 ^ (128 - n)
  unfolding anonymize_v4
  v4_prefix a n h le =
      let x = anonymize_bits aes c (shift_left a 96) 32 in
      let small = out_fits (shift_left a 96) 32 (raised a h).1 (omega arith) in
      let whole : x / 2 ^ 96 % 2 ^ 32 ≡ x / 2 ^ 96 = omega (arith, small) in
      ap (λ (y : ℕ). y / 2 ^ (32 - n)) whole ∙ high_bits x n le

  v4_share :
      (a b n : ℕ)
      → a < 2 ^ 32
      → b < 2 ^ 32
      → n ≤ 32
      → (a / 2 ^ (32 - n) ≡ b / 2 ^ (32 - n))
        ↔ (anonymize_v4 aes c a / 2 ^ (32 - n) ≡ anonymize_v4 aes c b / 2 ^ (32 - n))
  v4_share a b n ha hb le =
      let x = shift_left a 96 in
      let y = shift_left b 96 in
      (
        (λ e.
            v4_prefix a n ha le
            ∙ prefix_kept aes c x y 32 (omega arith) n le
                (sym (low_prefix a n ha le) ∙ e ∙ low_prefix b n hb le)
            ∙ sym (v4_prefix b n hb le)),
        (λ e.
            low_prefix a n ha le
            ∙ prefix_reflected aes c x y 32 (omega arith) n (raised a ha).1 (raised b hb).1 le
                (sym (v4_prefix a n ha le) ∙ e ∙ v4_prefix b n hb le)
            ∙ sym (low_prefix b n hb le)),
      )

  v6_share :
      (a b n : ℕ)
      → a < 2 ^ 128
      → b < 2 ^ 128
      → n ≤ 128
      → (a / 2 ^ (128 - n) ≡ b / 2 ^ (128 - n))
        ↔ (anonymize_v6 aes c a / 2 ^ (128 - n) ≡ anonymize_v6 aes c b / 2 ^ (128 - n))
  unfolding anonymize_v6
  v6_share a b n ha hb le = (
    prefix_kept aes c a b 128 (omega arith) n le,
    prefix_reflected aes c a b 128 (omega arith) n ha hb le,
  )

-- Two addresses share their first `n` bits exactly if their anonymizations do, for every `n` up to
-- the width of an address, whatever the key and whatever AES makes of a block. So different
-- addresses are anonymized to different ones. Addresses of different versions stay so. Both addresses
-- fit the width of their version.
pub anonymize-SharePrefix :
    (aes : Aes128) (c : CryptoPan) (n : ℕ) (s t : IpAddr)
    → FitsAddress s
    → FitsAddress t
    → n ≤ width s
    → SharePrefix n s t ↔ SharePrefix n (anonymize aes c s) (anonymize aes c t)
unfolding anonymize
anonymize-SharePrefix aes c n (IpAddr.v4 a) (IpAddr.v4 b) ha hb le = v4_share aes c a b n ha hb le
anonymize-SharePrefix aes c n (IpAddr.v6 a) (IpAddr.v6 b) ha hb le = v6_share aes c a b n ha hb le
anonymize-SharePrefix aes c n (IpAddr.v4 a) (IpAddr.v6 b) ha hb le = ((λ h. h), (λ h. h))
anonymize-SharePrefix aes c n (IpAddr.v6 a) (IpAddr.v4 b) ha hb le = ((λ h. h), (λ h. h))
