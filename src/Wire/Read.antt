-- ===== src/Wire/Read.antt =====
-- The documented behaviour of the parsers, as functions of their own.
use rustflow.Prelude.{
  ℕ, zero, suc, ◌+◌, ◌*◌, ◌<◌, Option, none, some, List, [], ◌∷◌, leb, if◌then◌else◌, length, take,
  drop,
}

abbrev pub Bytes : Type 0
Bytes = List ℕ

abbrev pub IsByte : ℕ → Type 0
IsByte b = b < 256

abbrev pub Parser : Type 0 → Type 0
Parser A = Bytes → Option (Bytes × A)

infixl 5 ◌>>=◌
abbrev pub ◌>>=◌ {ℓ κ} : {A : Type ℓ} {B : Type κ} → Option A → (A → Option B) → Option B
none >>= f = none
some a >>= f = f a

-- `map` and `map_opt`.
abbrev pub map_value {ℓ κ} :
    {A : Type ℓ} {B : Type κ} → (A → B) → Option (Bytes × A) → Option (Bytes × B)
map_value f none = none
map_value f (some (rest, a)) = some (rest, f a)

-- What was read, without what is left of the input.
abbrev pub read_value {ℓ κ} : {A : Type ℓ} {B : Type κ} → (A → B) → Option (Bytes × A) → Option B
read_value f none = none
read_value f (some (rest, a)) = some (f a)

abbrev pub some_value {ℓ} : {B : Type ℓ} → Bytes → Option B → Option (Bytes × B)
some_value rest none = none
some_value rest (some b) = some (rest, b)

abbrev pub map_opt {ℓ κ} :
    {A : Type ℓ} {B : Type κ} → (A → Option B) → Option (Bytes × A) → Option (Bytes × B)
map_opt f none = none
map_opt f (some (rest, a)) = some_value rest (f a)

abbrev pub map_parsed {ℓ} : {B : Type ℓ} → Bytes → Option (Bytes × B) → Option (Bytes × B)
map_parsed rest none = none
map_parsed rest (some (left, b)) = some (rest, b)

-- `map_parser`: what the second parser leaves of the bytes that the first one gave is dropped.
abbrev pub map_parser {ℓ} :
    {B : Type ℓ} → Option (Bytes × Bytes) → (Bytes → Option (Bytes × B)) → Option (Bytes × B)
map_parser none p = none
map_parser (some (rest, bytes)) p = map_parsed rest (p bytes)

-- A big-endian number.
unfoldable pub number_from : ℕ → Bytes → ℕ
number_from acc [] = acc
number_from acc (b ∷ bs) = number_from (acc * 256 + b) bs

-- Exactly `n` bytes, and what follows them.
unfoldable pub read_bytes : ℕ → Parser Bytes
read_bytes n input = if leb n (length input) then some (drop n input, take n input) else none

unfoldable pub read_number : ℕ → Parser ℕ
read_number n input =
    if leb n (length input) then some (drop n input, number_from 0 (take n input)) else none

module _ {A : Type 0} where
  abbrev pub cons_to : A → Bytes × List A → Bytes × List A
  cons_to a (rest, l) = (rest, a ∷ l)

  -- `n` values, one behind the other, or an error.
  unfoldable pub read_count : ℕ → Parser A → Parser (List A)
  read_count zero p input = some (input, [])
  read_count (suc n) p input = do
    (input, a) ← p input
    (input, l) ← read_count n p input
    some (input, a ∷ l)
