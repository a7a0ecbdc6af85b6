-- ===== src/Wire/Layout.antt =====
-- Sequences of what a writer wrote, in front of the bytes that follow them.
use rustflow.Prelude.{ℕ, ◌^◌, ◌<◌, ◌≡◌, refl, ◌∙◌, some, List, [], ◌∷◌, ◌++◌, length, All, map}
use rustflow.Prelude.Ints.{ℤ, bits, signed}
use rustflow.Wire.Read.{Bytes, Parser, read_count}
use rustflow.Wire.Nom.{Nom}
use rustflow.Wire.Write.{number_bytes}
use rustflow.Wire.RoundTrip.{read_bytes-append, read_number-bytes}

-- A word of four bytes, and one of eight.
abbrev pub word : ℕ → Bytes → Bytes
word v rest = number_bytes 4 v ++ rest

abbrev pub hyper : ℕ → Bytes → Bytes
hyper v rest = number_bytes 8 v ++ rest

abbrev pub IsU32 : ℕ → Type 0
IsU32 v = v < 2 ^ 32

abbrev pub IsU64 : ℕ → Type 0
IsU64 v = v < 2 ^ 64

-- A number of 32 bits with its sign.
abbrev pub IsI32 : ℤ → Type 0
IsI32 z = signed 32 (bits 32 z) ≡ z

module _ {A : Type 0} (enc : A → Bytes → Bytes) where
  unfoldable pub each : List A → Bytes → Bytes
  each [] rest = rest
  each (a ∷ l) rest = enc a (each l rest)

  module _ (p : Parser A) (Fits : A → Type 0) where
    pub read_count-each :
        (l : List A) (rest : Bytes)
        → ((a : A) (after : Bytes) → Fits a → p (enc a after) ≡ some (after, a))
        → All Fits l
        → read_count (length l) p (each l rest) ≡ some (rest, l)
    unfolding read_count each
    read_count-each [] rest h fits = refl
    read_count-each (a ∷ l) rest h fits =
        rw (h a (each l rest) fits.0) (rw (read_count-each l rest h fits.1) refl)

    -- As many values as a list has are read back as the list.
    pub count-each :
        (nom : Nom) (l : List A) (rest : Bytes)
        → ((a : A) (after : Bytes) → Fits a → p (enc a after) ≡ some (after, a))
        → All Fits l
        → nom.count A p (length l) (each l rest) ≡ some (rest, l)
    count-each nom l rest h fits =
        nom.count_lem A p (length l) (each l rest) ∙ read_count-each l rest h fits

module _ {A B : Type 0} (enc : A → Bytes → Bytes) (p : Parser B) (f : A → B) where
  read_count-map :
      (Fits : A → Type 0) (l : List A) (rest : Bytes)
      → ((a : A) (after : Bytes) → Fits a → p (enc a after) ≡ some (after, f a))
      → All Fits l
      → read_count (length l) p (each enc l rest) ≡ some (rest, map f l)
  unfolding read_count each
  read_count-map Fits [] rest h fits = refl
  read_count-map Fits (a ∷ l) rest h fits =
      rw (h a (each enc l rest) fits.0) (rw (read_count-map Fits l rest h fits.1) refl)

  -- So are as many values that the parser makes of what was written.
  pub count-map :
      (nom : Nom) (Fits : A → Type 0) (l : List A) (rest : Bytes)
      → ((a : A) (after : Bytes) → Fits a → p (enc a after) ≡ some (after, f a))
      → All Fits l
      → nom.count B p (length l) (each enc l rest) ≡ some (rest, map f l)
  count-map nom Fits l rest h fits =
      nom.count_lem B p (length l) (each enc l rest) ∙ read_count-map Fits l rest h fits

module _ (nom : Nom) where
  -- A slice that is written is read back by its length.
  pub take-slice : (n : ℕ) (s rest : Bytes) → length s ≡ n → nom.take n (s ++ rest) ≡ some (rest, s)
  take-slice n s rest e = nom.take_lem n _ ∙ read_bytes-append s rest n e

  pub be_i32-bytes :
      (z : ℤ) (rest : Bytes)
      → bits 32 z < 2 ^ 32
      → IsI32 z
      → nom.be_i32 (number_bytes 4 (bits 32 z) ++ rest) ≡ some (rest, z)
  be_i32-bytes z rest lt h =
      nom.be_i32_lem _ ∙ rw (read_number-bytes 4 (bits 32 z) rest lt) (rw h refl)
