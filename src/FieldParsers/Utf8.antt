-- ===== src/FieldParsers/Utf8.antt =====
-- The standard library's `from_utf8` and `trim_end_matches('\0')`, as parser.rs uses them: which
-- bytes are well-formed UTF-8, and a text without its trailing zeros.
use rustflow.Prelude.{
  ℕ, zero, suc, Option, none, some, List, [], ◌∷◌, Bool, true, false, ◌&&◌, ltb, leb, if◌then◌else◌,
  ◌==◌, ◌++◌, ◌≡◌, refl, Bool-cases, inl, inr, subst,
}
use mathlib.Core.List.{append_assoc}
use rustflow.Wire.Read.{Bytes}

abbrev pub Text : Type 0
Text = List ℕ

abbrev within : ℕ → ℕ → ℕ → Bool
within low high b = leb low b && leb b high

-- The least and the greatest byte that may follow the first byte of a longer sequence, and how
-- many bytes follow that one (the table of well-formed byte sequences of Unicode).
abbrev sequence : ℕ → Option (ℕ × ℕ × ℕ)
sequence b =
    if within 0xc2 0xdf b
    then some (0x80, 0xbf, 0)
    else if b == 0xe0
    then some (0xa0, 0xbf, 1)
    else if within 0xe1 0xec b
    then some (0x80, 0xbf, 1)
    else if b == 0xed
    then some (0x80, 0x9f, 1)
    else if within 0xee 0xef b
    then some (0x80, 0xbf, 1)
    else if b == 0xf0
    then some (0x90, 0xbf, 2)
    else if within 0xf1 0xf3 b
    then some (0x80, 0xbf, 2)
    else if b == 0xf4
    then some (0x80, 0x8f, 2)
    else none

pub data Expecting : Type 0 where
  a_character : Expecting
  -- A byte between two bounds, and so many bytes behind it.
  a_byte : ℕ → ℕ → ℕ → Expecting

abbrev after_first : Option (ℕ × ℕ × ℕ) → Option Expecting
after_first none = none
after_first (some (low, high, more)) = some (a_byte low high more)

abbrev after_byte : ℕ → Expecting
after_byte zero = a_character
after_byte (suc more) = a_byte 0x80 0xbf more

abbrev next : Expecting → ℕ → Option Expecting
next a_character b = if ltb b 0x80 then some a_character else after_first (sequence b)
next (a_byte low high more) b = if within low high b then some (after_byte more) else none

abbrev finished : Expecting → Bool
finished a_character = true
finished (a_byte _ _ _) = false

unfoldable pub is_utf8 : Option Expecting → Bytes → Bool
is_utf8 none bs = false
is_utf8 (some e) [] = finished e
is_utf8 (some e) (b ∷ bs) = is_utf8 (next e b) bs

unfoldable pub from_utf8 : Bytes → Option Text
from_utf8 v = if is_utf8 (some a_character) v then some v else none

abbrev replacement : Text
replacement = 0xef ∷ 0xbf ∷ 0xbd ∷ []

abbrev begun : ℕ → Option Expecting → Text × Expecting × Text
begun b none = (replacement, a_character, [])
begun b (some a_character) = (b ∷ [], a_character, [])
begun b (some e) = ([], e, b ∷ [])

-- One byte, in a sequence or between two: what is now known of the text, and the bytes of a
-- sequence that goes on. A byte that ends a sequence too early starts anew.
abbrev advance : Text → ℕ → Expecting → Option Expecting → Text × Expecting × Text
advance seen b a_character o = begun b o
advance seen b (a_byte _ _ _) none =
    let (text, e, seen') = begun b (next a_character b) in (replacement ++ text, e, seen')
advance seen b (a_byte _ _ _) (some a_character) = (seen ++ b ∷ [], a_character, [])
advance seen b (a_byte _ _ _) (some e) = ([], e, seen ++ b ∷ [])

unfoldable pub lossy_from : Expecting → Text → Bytes → Text
lossy_from e seen [] = if finished e then [] else replacement
lossy_from e seen (b ∷ bs) =
    let (text, e', seen') = advance seen b e (next e b) in text ++ lossy_from e' seen' bs

-- Each sequence that is not well-formed becomes one replacement character, U+FFFD.
unfoldable pub from_utf8_lossy : Bytes → Text
from_utf8_lossy v = lossy_from a_character [] v

unfoldable pub trim_end_zeros : Text → Text
trim_end_zeros [] = []
trim_end_zeros (b ∷ bs) =
    let rest = trim_end_zeros bs in
    elim rest [ [] ↦ if b == 0 then [] else b ∷ [] | (c ∷ cs) ↦ b ∷ c ∷ cs ]

-- What is pending of a sequence, between two characters: nothing.
abbrev Pending : Expecting → Text → Type 0
Pending a_character seen = seen ≡ []
Pending (a_byte _ _ _) seen = Unit

advance-utf8 :
    (e : Expecting) (seen : Text) (b : ℕ) (bs : Bytes) (o : Option Expecting)
    → Pending e seen
    → is_utf8 o bs ≡ true
    → ((e' : Expecting) (seen' : Text)
        → Pending e' seen'
        → is_utf8 (some e') bs ≡ true
        → lossy_from e' seen' bs ≡ seen' ++ bs)
    → (advance seen b e o).0 ++ lossy_from (advance seen b e o).1 (advance seen b e o).2 bs
      ≡ seen ++ (b ∷ bs)
unfolding is_utf8
advance-utf8 a_character seen b bs none p h ih = cc
advance-utf8 a_character seen b bs (some a_character) p h ih = rw (ih a_character [] refl h, p) refl
advance-utf8 a_character seen b bs (some (a_byte l g m)) p h ih =
    rw (ih (a_byte l g m) (b ∷ []) _ h, p) refl
advance-utf8 (a_byte _ _ _) seen b bs none p h ih = cc
advance-utf8 (a_byte _ _ _) seen b bs (some a_character) p h ih =
    rw (ih a_character [] refl h) (append_assoc seen (b ∷ []) bs)
advance-utf8 (a_byte _ _ _) seen b bs (some (a_byte l g m)) p h ih =
    rw (ih (a_byte l g m) (seen ++ b ∷ []) _ h) (append_assoc seen (b ∷ []) bs)

lossy_from-utf8 :
    (e : Expecting) (seen : Text) (bs : Bytes)
    → Pending e seen
    → is_utf8 (some e) bs ≡ true
    → lossy_from e seen bs ≡ seen ++ bs
unfolding lossy_from is_utf8
lossy_from-utf8 a_character seen [] p h = rw p refl
lossy_from-utf8 (a_byte _ _ _) seen [] p h = cc
lossy_from-utf8 e seen (b ∷ bs) p h =
    advance-utf8 e seen b bs (next e b) p h (λ e' seen' p' h'. lossy_from-utf8 e' seen' bs p' h')

-- Well-formed UTF-8 is kept as it is.
pub from_utf8_lossy-utf8 : (s : Text) → from_utf8 s ≡ some s → from_utf8_lossy s ≡ s
unfolding from_utf8 from_utf8_lossy
from_utf8_lossy-utf8 s h = elim (Bool-cases (is_utf8 (some a_character) s)) [
  | inl b ↦ lossy_from-utf8 a_character [] s refl b
  | inr b ↦ let absent = subst (λ t. (if t then some s else none) ≡ some s) b h in cc
]
