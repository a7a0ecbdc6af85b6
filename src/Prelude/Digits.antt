-- ===== src/Prelude/Digits.antt =====
-- `&` and `^` by their lowest binary digit, and what this makes of shifts and masks.
use Prim.Native.Nat.{
  ℕ, zero, suc, ◌+◌, ◌*◌, ◌/◌, ◌%◌, ◌^◌, ◌≤◌, ◌<◌, min, digits, differ, bit_and, bit_xor,
  bit_and-bitwise, bit_xor-bitwise,
}
use mathlib.Core.Path.{◌≡◌, refl, ap, sym, ◌∙◌}
use native.Mathlib.Nat.{pow-suc, div-div-eq-div-mul}
use native.Mathlib.Omega.{arith}

module _ (z : ℕ → ℕ) (f : ℕ → ℕ → ℕ) where
  -- Any count that covers `a` gives the same.
  any_count : (a b n m : ℕ) → a ≤ n → a ≤ m → digits z f n a b ≡ digits z f m a b
  any_count zero b zero zero h h' = refl
  any_count zero b zero (suc m) h h' = refl
  any_count zero b (suc n) zero h h' = refl
  any_count zero b (suc n) (suc m) h h' = refl
  any_count (suc a) b zero m h h' = absurd (omega (arith, h))
  any_count (suc a) b (suc n) zero h h' = absurd (omega (arith, h'))
  any_count (suc a) b (suc n) (suc m) h h' =
      ap (λ (rest : ℕ). rest * 2 + f (suc a % 2) (b % 2))
        (any_count (suc a / 2) (b / 2) n m (omega (arith, h)) (omega (arith, h')))

  by_digit :
      (op : ℕ → ℕ → ℕ)
      → ((a b : ℕ) → op a b ≡ digits z f a a b)
      → ((b : ℕ) → z b ≡ z (b / 2) * 2 + f 0 (b % 2))
      → (a b : ℕ) → op a b ≡ op (a / 2) (b / 2) * 2 + f (a % 2) (b % 2)
  by_digit op is_digits run_out zero b =
      is_digits 0 b
      ∙ run_out b
      ∙ ap (λ (rest : ℕ). rest * 2 + f 0 (b % 2)) (sym (is_digits 0 (b / 2)))
  by_digit op is_digits run_out (suc a) b =
      let half = suc a / 2 in
      is_digits (suc a) b
      ∙ ap (λ (rest : ℕ). rest * 2 + f (suc a % 2) (b % 2))
          (any_count half (b / 2) a half (omega arith) (omega arith) ∙ sym (is_digits half (b / 2)))

and_by_digit : (a b : ℕ) → bit_and a b ≡ bit_and (a / 2) (b / 2) * 2 + min (a % 2) (b % 2)
and_by_digit = by_digit (λ b. 0) min bit_and (λ a b. bit_and-bitwise a b) (λ b. omega arith)

xor_by_digit : (a b : ℕ) → bit_xor a b ≡ bit_xor (a / 2) (b / 2) * 2 + differ (a % 2) (b % 2)
xor_by_digit = by_digit (λ b. b) differ bit_xor (λ a b. bit_xor-bitwise a b) (λ b. omega arith)

differ_bit : (x y : ℕ) → x < 2 → y < 2 → differ x y < 2
differ_bit zero y p q = q
differ_bit (suc zero) zero p q = omega arith
differ_bit (suc zero) (suc y) p q = omega arith
differ_bit (suc (suc x)) y p q = absurd (omega arith)

differ_undo : (x y : ℕ) → x < 2 → y < 2 → differ (differ x y) y ≡ x
differ_undo zero zero p q = refl
differ_undo zero (suc zero) p q = refl
differ_undo (suc zero) zero p q = refl
differ_undo (suc zero) (suc zero) p q = refl
differ_undo (suc zero) (suc (suc y)) p q = absurd (omega arith)
differ_undo zero (suc (suc y)) p q = absurd (omega arith)
differ_undo (suc (suc x)) y p q = absurd (omega arith)

xor_halves :
    (a b : ℕ)
    → (bit_xor a b / 2 ≡ bit_xor (a / 2) (b / 2)) × (bit_xor a b % 2 ≡ differ (a % 2) (b % 2))
xor_halves a b =
    let bit = differ_bit (a % 2) (b % 2) (omega arith) (omega arith) in
    (omega (arith, xor_by_digit a b, bit), omega (arith, xor_by_digit a b, bit))

undo_up_to : (n a b : ℕ) → a ≤ n → b ≤ n → bit_xor (bit_xor a b) b ≡ a
undo_up_to zero zero zero p q = refl
undo_up_to zero (suc a) b p q = absurd (omega arith)
undo_up_to zero zero (suc b) p q = absurd (omega arith)
undo_up_to (suc n) a b p q =
    let halves = xor_halves a b in
    let undone = undo_up_to n (a / 2) (b / 2) (omega arith) (omega arith) in
    let digit = differ_undo (a % 2) (b % 2) (omega arith) (omega arith) in
    let again : bit_xor (bit_xor a b / 2) (b / 2) ≡ a / 2 = rw (halves.0) undone in
    let last : differ (bit_xor a b % 2) (b % 2) ≡ a % 2 = rw (halves.1) digit in
    omega (arith, xor_by_digit (bit_xor a b) b, again, last)

-- `^` by the same number is undone by doing it again.
pub bit_xor_undo : (a b : ℕ) → bit_xor (bit_xor a b) b ≡ a
bit_xor_undo a b = undo_up_to (a + b) a b (omega arith) (omega arith)

pub half_first : (a k : ℕ) → a / 2 ^ suc k ≡ a / 2 / 2 ^ k
half_first a k =
    ap (λ (p : ℕ). a / p) (pow-suc 2 k ∙ omega arith) ∙ sym (div-div-eq-div-mul a 2 (2 ^ k))

over_one : (n : ℕ) → n / 1 ≡ n
over_one n = omega arith

-- `^` goes digit by digit, so it can be shifted.
pub bit_xor-div : (k a b : ℕ) → bit_xor a b / 2 ^ k ≡ bit_xor (a / 2 ^ k) (b / 2 ^ k)
bit_xor-div zero a b = rw (over_one a, over_one b, over_one (bit_xor a b)) refl
bit_xor-div (suc k) a b =
    rw (half_first a k, half_first b k, half_first (bit_xor a b) k)
      (ap (λ (x : ℕ). x / 2 ^ k) (xor_halves a b).0 ∙ bit_xor-div k (a / 2) (b / 2))

min_zero : (x : ℕ) → min x 0 ≡ 0
min_zero x = omega arith

next_power : (m k : ℕ) → m * 2 ^ suc k ≡ m * 2 ^ k + m * 2 ^ k
next_power m k = ap (λ (p : ℕ). m * p) (pow-suc 2 k) ∙ omega arith

-- `a` under a mask without its lowest `k` digits is that of its other digits.
pub bit_and_masked : (k a m : ℕ) → bit_and a (m * 2 ^ k) ≡ bit_and (a / 2 ^ k) m * 2 ^ k
bit_and_masked zero a m = let same : m * 1 ≡ m = omega arith in rw (same, over_one a) (omega arith)
bit_and_masked (suc k) a m =
    let half : m * 2 ^ suc k / 2 ≡ m * 2 ^ k = omega (arith, next_power m k) in
    let even : m * 2 ^ suc k % 2 ≡ 0 = omega (arith, next_power m k) in
    let rest = bit_and_masked k (a / 2) m in
    and_by_digit a (m * 2 ^ suc k)
    ∙ rw (half, even, half_first a k, min_zero (a % 2), rest)
        (omega (arith, next_power (bit_and (a / 2 / 2 ^ k) m) k))
