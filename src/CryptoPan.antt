-- ===== src/CryptoPan.antt =====
-- crates/rustflow_core/src/common/cryptopan.rs: anonymized addresses that keep what prefixes they
-- share. AES is a parameter: what it makes of a block of 16 bytes under a key.
pub mod Powers
pub mod Prefixes
pub mod Addresses
mod Tests
use Prim.Native.Nat.{bit_and, bit_or, bit_xor}
use rustflow.Prelude.{
  ℕ, zero, suc, ◌+◌, ◌-◌, ◌*◌, ◌/◌, ◌%◌, ◌^◌, ◌<◌, ◌≡◌, [], ◌∷◌, ◌==◌, if◌then◌else◌, All, length,
  take, drop,
}
use rustflow.Wire.Read.{Bytes, IsByte, number_from}
use rustflow.Wire.Write.{number_bytes}
use rustflow.FlowCache.{IpAddr}

abbrev pub IsBlock : Bytes → Type 0
IsBlock block = (length block ≡ 16) × All IsByte block

-- The crate aes.
pub record Aes128 : Type 0 where
  pub encrypt_block : Bytes → Bytes → Bytes
  pub encrypt_block_lem : (key block : Bytes) → IsBlock block → IsBlock (encrypt_block key block)

abbrev pub key_len : ℕ
key_len = 32

-- The cipher is the key that it was made from.
pub record CryptoPan : Type 0 where
  pub cipher : Bytes
  pub pad : ℕ

abbrev pub u128_max : ℕ
u128_max = 2 ^ 128 - 1

-- `a << n` of a u128.
abbrev pub shift_left : ℕ → ℕ → ℕ
shift_left a n = a * 2 ^ n % 2 ^ 128

abbrev pub first_byte : Bytes → ℕ
first_byte [] = 0
first_byte (b ∷ bs) = b

abbrev pub prefix_mask : ℕ → ℕ
prefix_mask i = if i == 0 then 0 else shift_left u128_max (128 - i)

module _ (aes : Aes128) where
  unfoldable pub new : Bytes → CryptoPan
  new key = record {
    cipher = take 16 key;
    pad = number_from 0 (aes.encrypt_block (take 16 key) (drop 16 key));
  }

  module _ (c : CryptoPan) where
    -- The block of round `i`.
    abbrev pub block_input : ℕ → ℕ → ℕ
    block_input addr i =
        bit_or (bit_and addr (prefix_mask i)) (bit_and c.pad (u128_max - prefix_mask i))

    unfoldable pub flip_of : ℕ → ℕ → ℕ
    flip_of addr i =
        first_byte (aes.encrypt_block c.cipher (number_bytes 16 (block_input addr i))) / 2 ^ 7

    -- The loop: so many rounds from `i` on.
    unfoldable pub flips_from : ℕ → ℕ → ℕ → ℕ → ℕ
    flips_from addr zero i flips = flips
    flips_from addr (suc rounds) i flips =
        flips_from addr rounds (suc i) (bit_or flips (shift_left (flip_of addr i) (127 - i)))

    unfoldable pub anonymize_bits : ℕ → ℕ → ℕ
    anonymize_bits addr bits = bit_xor addr (flips_from addr bits 0 0)

    unfoldable pub anonymize_v4 : ℕ → ℕ
    anonymize_v4 addr = anonymize_bits (shift_left addr 96) 32 / 2 ^ 96 % 2 ^ 32

    unfoldable pub anonymize_v6 : ℕ → ℕ
    anonymize_v6 addr = anonymize_bits addr 128

    unfoldable pub anonymize : IpAddr → IpAddr
    anonymize (IpAddr.v4 a) = IpAddr.v4 (anonymize_v4 a)
    anonymize (IpAddr.v6 a) = IpAddr.v6 (anonymize_v6 a)
