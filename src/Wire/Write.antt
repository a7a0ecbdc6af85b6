-- ===== src/Wire/Write.antt =====
-- `BufMut` over a growing buffer, with its documented behaviour as laws.
use rustflow.Prelude.{ℕ, zero, suc, ◌/◌, ◌%◌, ◌^◌, ◌≡◌, [], ◌∷◌, ◌++◌, replicate}
use rustflow.Wire.Read.{Bytes}

-- The last `n` bytes of a number, the highest first.
unfoldable pub number_bytes : ℕ → ℕ → Bytes
number_bytes zero v = []
number_bytes (suc n) v = (v / 256 ^ n % 256) ∷ number_bytes n v

pub record BufMut : Type 0 where
  pub put_u8 : ℕ → Bytes → Bytes
  pub put_u16 : ℕ → Bytes → Bytes
  pub put_u32 : ℕ → Bytes → Bytes
  pub put_u64 : ℕ → Bytes → Bytes
  pub put_slice : Bytes → Bytes → Bytes
  pub put_bytes : ℕ → ℕ → Bytes → Bytes
  pub put_u8_lem : (v : ℕ) (buf : Bytes) → put_u8 v buf ≡ buf ++ number_bytes 1 v
  pub put_u16_lem : (v : ℕ) (buf : Bytes) → put_u16 v buf ≡ buf ++ number_bytes 2 v
  pub put_u32_lem : (v : ℕ) (buf : Bytes) → put_u32 v buf ≡ buf ++ number_bytes 4 v
  pub put_u64_lem : (v : ℕ) (buf : Bytes) → put_u64 v buf ≡ buf ++ number_bytes 8 v
  pub put_slice_lem : (s buf : Bytes) → put_slice s buf ≡ buf ++ s
  pub put_bytes_lem : (v n : ℕ) (buf : Bytes) → put_bytes v n buf ≡ buf ++ replicate n v
