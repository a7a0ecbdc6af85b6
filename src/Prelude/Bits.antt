-- ===== src/Prelude/Bits.antt =====
-- Bit fields as arithmetic: `|` of disjoint fields, `&` with a low mask or with one bit. Each law
-- is proved of the native operation's digit recursion, at any fuel that covers the first number.
use Prim.Native.Nat.{
  ℕ, zero, suc, ◌+◌, ◌-◌, ◌*◌, ◌/◌, ◌%◌, ◌^◌, ◌≤◌, ◌<◌, min, max, digits, bit_and, bit_or,
  bit_and-bitwise, bit_or-bitwise,
}
use mathlib.Core.Path.{◌≡◌, refl, ap}
use native.Mathlib.Nat.{pow-suc, one-le-pow}
use native.Mathlib.Omega.{arith}

abbrev or_with : ℕ → ℕ → ℕ → ℕ
or_with = digits (λ b. b) max

abbrev and_with : ℕ → ℕ → ℕ → ℕ
and_with = digits (λ b. 0) min

double_block : (q k : ℕ) → q * 2 ^ suc k ≡ 2 * (q * 2 ^ k)
double_block q k = omega (arith, ap (λ (p : ℕ). q * p) (pow-suc 2 k))

or_nothing : (n a : ℕ) → a ≤ n → or_with n a 0 ≡ a
or_nothing zero zero h = refl
or_nothing zero (suc a) h = absurd (omega arith)
or_nothing (suc n) zero h = refl
or_nothing (suc n) (suc a) h = omega (arith, or_nothing n (suc a / 2) (omega arith))

or_blocks : (k n a q r : ℕ) → a ≤ n → a ≡ q * 2 ^ k → r < 2 ^ k → or_with n a r ≡ a + r
or_blocks zero n a q r h e lt =
    let z : r ≡ 0 = omega arith in rw z (omega (arith, or_nothing n a h))
or_blocks (suc k) zero zero q r h e lt = omega arith
or_blocks (suc k) zero (suc a) q r h e lt = absurd (omega arith)
or_blocks (suc k) (suc n) zero q r h e lt = omega arith
or_blocks (suc k) (suc n) (suc a) q r h e lt =
    let halved : suc a / 2 ≡ q * 2 ^ k = omega (arith, double_block q k) in
    let fits : r / 2 < 2 ^ k = omega (arith, pow-suc 2 k) in
    omega (arith, double_block q k, or_blocks k n (suc a / 2) q (r / 2) (omega arith) halved fits)

-- `a | r` is a sum when `a` is a multiple of 2 ^ k and `r` fits `k` bits.
pub bit_or_disjoint : (k q r : ℕ) → r < 2 ^ k → bit_or (q * 2 ^ k) r ≡ q * 2 ^ k + r
bit_or_disjoint k q r lt = omega (
  arith,
  bit_or-bitwise (q * 2 ^ k) r,
  or_blocks k (q * 2 ^ k) (q * 2 ^ k) q r (omega arith) refl lt,
)

and_nothing : (n a : ℕ) → a ≤ n → and_with n a 0 ≡ 0
and_nothing zero a h = refl
and_nothing (suc n) zero h = refl
and_nothing (suc n) (suc a) h = omega (arith, and_nothing n (suc a / 2) (omega arith))

and_mask_digits :
    (k n a q r m : ℕ) → a ≤ n → a ≡ q * 2 ^ k + r → r < 2 ^ k → m + 1 ≡ 2 ^ k → and_with n a m ≡ r
and_mask_digits zero n a q r m h e lt em =
    let z : m ≡ 0 = omega arith in rw z (omega (arith, and_nothing n a h))
and_mask_digits (suc k) zero zero q r m h e lt em = omega arith
and_mask_digits (suc k) zero (suc a) q r m h e lt em = absurd (omega arith)
and_mask_digits (suc k) (suc n) zero q r m h e lt em = omega arith
and_mask_digits (suc k) (suc n) (suc a) q r m h e lt em =
    let halved : suc a / 2 ≡ q * 2 ^ k + r / 2 = omega (arith, double_block q k) in
    let fits : r / 2 < 2 ^ k = omega (arith, pow-suc 2 k) in
    let mask : m / 2 + 1 ≡ 2 ^ k = omega (arith, pow-suc 2 k, one-le-pow k 2) in
    omega (
      arith,
      double_block q k,
      pow-suc 2 k,
      one-le-pow k 2,
      and_mask_digits k n (suc a / 2) q (r / 2) (m / 2) (omega arith) halved fits mask,
    )

-- `a & (2 ^ k - 1)` is what is left by 2 ^ k, at any `a` given as blocks of 2 ^ k and a rest.
pub bit_and_blocks : (k q r : ℕ) → r < 2 ^ k → bit_and (q * 2 ^ k + r) (2 ^ k - 1) ≡ r
bit_and_blocks k q r lt =
    let a = q * 2 ^ k + r in
    omega (
      arith,
      bit_and-bitwise a (2 ^ k - 1),
      and_mask_digits k a a q r (2 ^ k - 1) (omega arith) refl lt (omega (arith, one-le-pow k 2)),
    )

no_block : (q p r : ℕ) → 1 ≤ p → 0 ≡ q * p + r → 0 ≡ q % 2 * p
no_block zero p r h e = omega arith
no_block (suc q) p r h e = absurd (omega arith)

and_bit_digits :
    (k n a q r : ℕ) → a ≤ n → a ≡ q * 2 ^ k + r → r < 2 ^ k → and_with n a (2 ^ k) ≡ q % 2 * 2 ^ k
and_bit_digits zero zero zero q r h e lt = omega arith
and_bit_digits zero (suc n) zero q r h e lt = omega arith
and_bit_digits zero zero (suc a) q r h e lt = absurd (omega arith)
and_bit_digits zero (suc n) (suc a) q r h e lt =
    omega (arith, and_nothing n (suc a / 2) (omega arith))
and_bit_digits (suc k) zero zero q r h e lt =
    no_block q (2 ^ suc k) r (one-le-pow (suc k) 2 (omega arith)) e
and_bit_digits (suc k) zero (suc a) q r h e lt = absurd (omega arith)
and_bit_digits (suc k) (suc n) zero q r h e lt =
    no_block q (2 ^ suc k) r (one-le-pow (suc k) 2 (omega arith)) e
and_bit_digits (suc k) (suc n) (suc a) q r h e lt =
    let halved : suc a / 2 ≡ q * 2 ^ k + r / 2 = omega (arith, double_block q k) in
    let fits : r / 2 < 2 ^ k = omega (arith, pow-suc 2 k) in
    let bit : 2 ^ suc k / 2 ≡ 2 ^ k = omega (arith, pow-suc 2 k) in
    let low : 2 ^ suc k % 2 ≡ 0 = omega (arith, pow-suc 2 k) in
    rw (bit, low)
      (omega (
        arith,
        double_block (q % 2) k,
        and_bit_digits k n (suc a / 2) q (r / 2) (omega arith) halved fits,
      ))

-- `a & 2 ^ k` is the bit at position `k`, in place.
pub bit_and_bit : (k q r : ℕ) → r < 2 ^ k → bit_and (q * 2 ^ k + r) (2 ^ k) ≡ q % 2 * 2 ^ k
bit_and_bit k q r lt =
    let a = q * 2 ^ k + r in
    omega (arith, bit_and-bitwise a (2 ^ k), and_bit_digits k a a q r (omega arith) refl lt)

nothing_or : (n m : ℕ) → or_with n 0 m ≡ m
nothing_or zero m = refl
nothing_or (suc n) m = refl

or_blocks_right : (k n a q m : ℕ) → a ≤ n → m ≡ q * 2 ^ k → a < 2 ^ k → or_with n a m ≡ m + a
or_blocks_right zero n a q m h e lt =
    let z : a ≡ 0 = omega arith in rw z (omega (arith, nothing_or n m))
or_blocks_right (suc k) zero zero q m h e lt = omega arith
or_blocks_right (suc k) zero (suc a) q m h e lt = absurd (omega arith)
or_blocks_right (suc k) (suc n) zero q m h e lt = omega arith
or_blocks_right (suc k) (suc n) (suc a) q m h e lt =
    let halved : m / 2 ≡ q * 2 ^ k = omega (arith, double_block q k) in
    let fits : suc a / 2 < 2 ^ k = omega (arith, pow-suc 2 k) in
    omega
      (arith, double_block q k, or_blocks_right k n (suc a / 2) q (m / 2) (omega arith) halved fits)

-- The same sum, with the multiple on the right.
pub bit_or_disjoint_right : (k q r : ℕ) → r < 2 ^ k → bit_or r (q * 2 ^ k) ≡ q * 2 ^ k + r
bit_or_disjoint_right k q r lt =
    omega (
      arith,
      bit_or-bitwise r (q * 2 ^ k),
      or_blocks_right k r r q (q * 2 ^ k) (omega arith) refl lt,
    )
