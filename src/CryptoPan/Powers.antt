-- ===== src/CryptoPan/Powers.antt =====
-- Shifts and masks of 128 bits, as powers of 2.
use Prim.Native.Nat.{bit_or}
use native.Mathlib.Nat.{
  pow-suc, pow-le-pow_right, one-le-pow, mod-eq_of_lt, div-add-mod, mod-lt, add-mul-mod_self_right,
  div-div-eq-div-mul,
}
use rustflow.Prelude.{
  ℕ, zero, suc, ◌+◌, ◌-◌, ◌*◌, ◌/◌, ◌%◌, ◌^◌, ◌<◌, ◌≤◌, ◌≡◌, ap, sym, ◌∙◌, [], ◌∷◌, All, arith,
}
use rustflow.Prelude.Bits.{bit_or_disjoint}
use rustflow.Wire.Read.{Bytes, IsByte}
use rustflow.Wire.Write.{number_bytes}
use rustflow.CryptoPan.{u128_max, shift_left, first_byte, prefix_mask}

pub number_bytes-All : (n v : ℕ) → All IsByte (number_bytes n v)
unfolding number_bytes
number_bytes-All zero v = _
number_bytes-All (suc n) v = (omega arith, number_bytes-All n v)

pub first_byte-IsByte : (l : Bytes) → All IsByte l → first_byte l < 256
first_byte-IsByte [] h = omega arith
first_byte-IsByte (b ∷ l) (h, hs) = h

pub pow_split : (k n : ℕ) → 2 ^ (k + n) ≡ 2 ^ k * 2 ^ n
pow_split zero n = let same : 0 + n ≡ n = omega arith in rw same (omega arith)
pow_split (suc k) n =
    let sum : suc k + n ≡ suc (k + n) = omega arith in
    omega (
      arith,
      ap (λ (m : ℕ). 2 ^ m) sum,
      pow-suc 2 (k + n),
      ap (λ (p : ℕ). p * 2 ^ n) (pow-suc 2 k),
      pow_split k n,
    )

pub shift_lt : (r q p : ℕ) → 1 ≤ p → r < q → r * p < q * p
shift_lt r q p h lt = grind arith

pub shifted_mod : (x q p : ℕ) → 1 ≤ p → 1 ≤ q → x * p % (q * p) ≡ x % q * p
shifted_mod x q p h h' =
    let split : x * p ≡ x % q * p + (x / q) * (q * p) =
      omega (arith, ap (λ (t : ℕ). t * p) (div-add-mod x q)) in
    let lt : x % q * p < q * p = shift_lt (x % q) q p h (mod-lt x h') in
    ap (λ (t : ℕ). t % (q * p)) split
    ∙ add-mul-mod_self_right (x % q * p) (x / q) (q * p)
    ∙ mod-eq_of_lt lt

-- What is left of a number shifted by `s` in 128 bits.
pub shifted : (x s : ℕ) → s ≤ 128 → shift_left x s ≡ x % 2 ^ (128 - s) * 2 ^ s
shifted x s le =
    let whole : 2 ^ 128 ≡ 2 ^ (128 - s) * 2 ^ s =
      let sum : 128 ≡ 128 - s + s = omega (arith, le) in
      ap (λ (m : ℕ). 2 ^ m) sum ∙ pow_split (128 - s) s in
    rw whole (
      shifted_mod x (2 ^ (128 - s)) (2 ^ s) (one-le-pow s 2 (omega arith))
        (one-le-pow (128 - s) 2 (omega arith)))

pub mask_shape : (i : ℕ) → (m : ℕ) × (prefix_mask i ≡ m * 2 ^ (128 - i))
mask_shape zero = (0, omega arith)
mask_shape (suc i) = (
  u128_max % 2 ^ (128 - (128 - suc i)),
  (let small : 128 - suc i ≤ 128 = omega arith in
      ground (arith, shifted u128_max (128 - suc i) small)),
)

-- A digit behind others.
pub joined :
    (g flip k : ℕ)
    → flip < 2
    → suc k ≤ 128
    → bit_or (g * 2 ^ suc k) (shift_left flip k) ≡ (2 * g + flip) * 2 ^ k
joined g flip k bit le =
    let below : flip * 2 ^ k < 2 ^ suc k =
      omega (arith, shift_lt flip 2 (2 ^ k) (one-le-pow k 2 (omega arith)) bit, pow-suc 2 k) in
    let whole : 2 ^ suc k ≤ 2 ^ 128 = pow-le-pow_right (omega arith) le in
    let fits : shift_left flip k ≡ flip * 2 ^ k = mod-eq_of_lt (omega (arith, below, whole)) in
    rw fits (
      bit_or_disjoint (suc k) g (flip * 2 ^ k) below
      ∙ omega (arith, ap (λ (p : ℕ). g * p) (pow-suc 2 k)))

pub half_last : (a k : ℕ) → a / 2 ^ suc k ≡ a / 2 ^ k / 2
half_last a k = ap (λ (p : ℕ). a / p) (pow-suc 2 k) ∙ sym (div-div-eq-div-mul a (2 ^ k) 2)

-- Numbers that share a prefix share the shorter ones.
pub shorter :
    (a b n : ℕ)
    → suc n ≤ 128
    → a / 2 ^ (128 - suc n) ≡ b / 2 ^ (128 - suc n)
    → a / 2 ^ (128 - n) ≡ b / 2 ^ (128 - n)
shorter a b n le e =
    let next : 128 - n ≡ suc (128 - suc n) = omega (arith, le) in
    rw next (half_last a (128 - suc n) ∙ ap (λ (x : ℕ). x / 2) e ∙ sym (half_last b (128 - suc n)))
