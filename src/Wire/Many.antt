-- ===== src/Wire/Many.antt =====
-- Induction on the rounds of nom's `many0`: what it keeps of a state, and what it gives.
use rustflow.Prelude.{
  ℕ, zero, suc, ◌+◌, ◌≤◌, ◌<◌, ◌≡◌, Bool, true, false, if◌then◌else◌, Option, none, some, List, ◌∷◌,
  leb, length, arith, Bool-cases, inl, inr, leb_false→lt, All, lt→leb_false,
}
use rustflow.Wire.Read.{Bytes, Parser, ◌>>=◌, map_value}
use rustflow.Wire.Nom.{Nom, many0_round, many}

-- Where there is a result, its value and what is left have the property.
unfoldable pub Gives {ℓ} : {A : Type ℓ} → (Bytes → A → Type 0) → Option (Bytes × A) → Type 0
Gives Q none = Unit
Gives Q (some (rest, a)) = Q rest a

pub then-Gives :
    {A B : Type 0} (Q : Bytes → A → Type 0) (R : Bytes → B → Type 0) (o : Option (Bytes × A))
    (k : Bytes × A → Option (Bytes × B))
    → Gives Q o
    → ((rest : Bytes) (a : A) → Q rest a → Gives R (k (rest, a)))
    → Gives R (o >>= k)
unfolding Gives
then-Gives Q R none k h hk = _
then-Gives Q R (some (rest, a)) k h hk = hk rest a h

pub Gives-map :
    {A : Type 0} (Q R : Bytes → A → Type 0) (o : Option (Bytes × A))
    → ((rest : Bytes) (a : A) → Q rest a → R rest a)
    → Gives Q o
    → Gives R o
unfolding Gives
Gives-map Q R none f h = _
Gives-map Q R (some (rest, a)) f h = f rest a h

pub map_value-Gives :
    {A B : Type 0} (Q : Bytes → A → Type 0) (R : Bytes → B → Type 0) {f : A → B}
    (o : Option (Bytes × A))
    → ((rest : Bytes) (a : A) → Q rest a → R rest (f a))
    → Gives Q o
    → Gives R (map_value f o)
unfolding Gives
map_value-Gives Q R none g h = _
map_value-Gives Q R (some (rest, a)) g h = g rest a h

pub either-Gives :
    {A : Type 0} (Q : Bytes → A → Type 0) (b : Bool) (x y : Option (Bytes × A))
    → Gives Q x
    → Gives Q y
    → Gives Q (if b then x else y)
either-Gives Q true x y h k = h
either-Gives Q false x y h k = k

-- There is a result.
unfoldable pub Succeeds {ℓ} : {A : Type ℓ} → Option A → Type 0
Succeeds none = ⊥
Succeeds (some a) = Unit

abbrev pub Shorter {ℓ} : {A : Type ℓ} → Bytes → Bytes → A → Type 0
Shorter input rest a = length rest < length input

module _ {A : Type 0} where
  abbrev Each : (A → Type 0) → Bytes → Bytes → List A → Type 0
  Each Q input rest l = All Q l × (length l + length rest ≤ length input)

  later-Gives :
      (Q : A → Type 0) (input rest : Bytes) (a : A) (o : Option (Bytes × List A))
      → length rest < length input
      → Q a
      → Gives (Each Q rest) o
      → Gives (Each Q input) (o >>= λ t. some (t.0, a ∷ t.1))
  unfolding Gives
  later-Gives Q input rest a none lt q h = _
  later-Gives Q input rest a (some (rest', l)) lt q (h, le) = ((q, h), omega (arith, lt, le))

  later-Succeeds :
      (a : A) (o : Option (Bytes × List A))
      → Succeeds o
      → Succeeds {A = Bytes × List A} (o >>= λ t. some (t.0, a ∷ t.1))
  unfolding Succeeds
  later-Succeeds a none h = absurd h
  later-Succeeds a (some t) h = _

module _ {S A : Type 0} where
  round_keeps :
      (P : S → Type 0) (again : S → Bytes → S × Option (Bytes × List A)) (input : Bytes) (s : S)
      (o : Option (Bytes × A))
      → P s
      → ((t : S) (rest : Bytes) → length rest < length input → P t → P (again t rest).0)
      → P (many0_round again input s o).0
  round_keeps P again input s none h step = h
  round_keeps P again input s (some (rest, a)) h step =
      elim (Bool-cases (leb (length input) (length rest))) [
        | inl b ↦ rw b h
        | inr b ↦ rw b (step s rest (leb_false→lt _ _ b) h)
      ]

  round-Gives :
      (Q : A → Type 0) (again : S → Bytes → S × Option (Bytes × List A)) (input : Bytes) (s : S)
      (o : Option (Bytes × A))
      → Gives (λ rest a. Q a) o
      → ((t : S) (rest : Bytes) → length rest < length input → Gives (Each Q rest) (again t rest).1)
      → Gives (Each Q input) (many0_round again input s o).1
  unfolding Gives
  round-Gives Q again input s none h step = (_, omega arith)
  round-Gives Q again input s (some (rest, a)) h step =
      elim (Bool-cases (leb (length input) (length rest))) [
        | inl b ↦ rw b _
        | inr b ↦
            let lt = leb_false→lt _ _ b in
            rw b (later-Gives Q input rest a (again s rest).1 lt h (step s rest lt))
      ]

  round-Succeeds :
      (again : S → Bytes → S × Option (Bytes × List A)) (input : Bytes) (s : S)
      (o : Option (Bytes × A))
      → Gives (Shorter input) o
      → ((t : S) (rest : Bytes) → length rest < length input → Succeeds (again t rest).1)
      → Succeeds (many0_round again input s o).1
  unfolding Gives Succeeds
  round-Succeeds again input s none h step = _
  round-Succeeds again input s (some (rest, a)) h step =
      let b : leb (length input) (length rest) ≡ false = lt→leb_false _ _ h in
      rw b (later-Succeeds a (again s rest).1 (step s rest h))

  module _ (nom : Nom) (p : S → Bytes → S × Option (Bytes × A)) where
    keeps_on :
        (P : S → Type 0) (most n : ℕ)
        → ((s : S) (input : Bytes) → length input ≤ most → P s → P (p s input).0)
        → (s : S) (input : Bytes) → length input < n
        → length input ≤ most
        → P s
        → P (nom.many0 S A p s input).0
    keeps_on P most zero step s input lt le h = absurd (omega (arith, lt))
    keeps_on P most (suc n) step s input lt le h = rw (nom.many0_lem S A p s input) (
        round_keeps P (nom.many0 S A p) input (p s input).0 (p s input).1 (step s input le h)
          (λ t rest shorter ht.
            keeps_on P most n step t rest (omega (arith, lt, shorter)) (omega (arith, le, shorter))
              ht))

    -- What every round keeps of the state, on inputs up to a length, all rounds keep.
    pub many0-keeps :
        (P : S → Type 0) (most : ℕ)
        → ((s : S) (input : Bytes) → length input ≤ most → P s → P (p s input).0)
        → (s : S) (input : Bytes) → length input ≤ most
        → P s
        → P (nom.many0 S A p s input).0
    many0-keeps P most step s input =
        keeps_on P most (suc (length input)) step s input (omega arith)

    Gives-on :
        (Q : A → Type 0) (most n : ℕ)
        → ((s : S) (input : Bytes) → length input ≤ most → Gives (λ rest a. Q a) (p s input).1)
        → (s : S) (input : Bytes) → length input < n
        → length input ≤ most
        → Gives (Each Q input) (nom.many0 S A p s input).1
    Gives-on Q most zero step s input lt le = absurd (omega (arith, lt))
    Gives-on Q most (suc n) step s input lt le = rw (nom.many0_lem S A p s input) (
        round-Gives Q (nom.many0 S A p) input (p s input).0 (p s input).1 (step s input le)
          (λ t rest shorter.
            Gives-on Q most n step t rest (omega (arith, lt, shorter))
              (omega (arith, le, shorter))))

    -- The values have what each round's value has, and are no more than the bytes they took.
    pub many0-Gives :
        (Q : A → Type 0) (most : ℕ)
        → ((s : S) (input : Bytes) → length input ≤ most → Gives (λ rest a. Q a) (p s input).1)
        → (s : S) (input : Bytes) → length input ≤ most
        → Gives
            (λ rest l. All Q l × (length l + length rest ≤ length input))
            (nom.many0 S A p s input).1
    many0-Gives Q most step s input =
        Gives-on Q most (suc (length input)) step s input (omega arith)

    Succeeds-on :
        (n : ℕ)
        → ((s : S) (input : Bytes) → Gives (Shorter input) (p s input).1)
        → (s : S) (input : Bytes) → length input < n
        → Succeeds (nom.many0 S A p s input).1
    Succeeds-on zero step s input lt = absurd (omega (arith, lt))
    Succeeds-on (suc n) step s input lt = rw (nom.many0_lem S A p s input) (
        round-Succeeds (nom.many0 S A p) input (p s input).0 (p s input).1 (step s input)
          (λ t rest shorter. Succeeds-on n step t rest (omega (arith, lt, shorter))))

    -- A parser that takes something of its input, or fails, is repeated without an error.
    pub many0-Succeeds :
        ((s : S) (input : Bytes) → Gives (Shorter input) (p s input).1)
        → (s : S) (input : Bytes) → Succeeds (nom.many0 S A p s input).1
    many0-Succeeds step s input = Succeeds-on (suc (length input)) step s input (omega arith)

-- What each value has that a repeated parser gives, all have.
pub many_each :
    {A : Type 0} (nom : Nom) (q : Parser A) (Q : A → Type 0) (input : Bytes)
    → ((i : Bytes) → length i ≤ length input → Gives (λ rest a. Q a) (q i))
    → Gives (λ rest l. All Q l) (many nom A q input)
unfolding many
many_each {A} nom q Q input h =
    Gives-map _ _ (nom.many0 Unit A (λ s i. (s, q i)) _ input).1 (λ rest l e. e.0)
      (many0-Gives nom (λ s i. (s, q i)) Q (length input) (λ s i le. h i le) _ input (omega arith))
