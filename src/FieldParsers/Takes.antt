-- ===== src/FieldParsers/Takes.antt =====
-- How much of its input a parser takes.
use rustflow.Prelude.{
  ℕ, zero, suc, ◌+◌, ◌≤◌, ◌≡◌, refl, ap, ◌∙◌, Option, none, some, List, [], ◌∷◌, Bool, true, false,
  leb, if◌then◌else◌, length, drop, arith, ◌==◌, ==_iff, Bool-cases, inl, inr, leb→le, Option-cases,
  subst, length-drop, ◌-◌,
}
use rustflow.Wire.Read.{Bytes, ◌>>=◌, map_value, map_opt, read_bytes, read_number}

-- Where a result was read, exactly `n` bytes were taken.
unfoldable pub Takes {ℓ} : {A : Type ℓ} → ℕ → Bytes → Option (Bytes × A) → Type 0
Takes n input none = Unit
Takes n input (some (rest, a)) = (n ≤ length input) × (rest ≡ drop n input)

pub read_bytes-Takes : (n : ℕ) (input : Bytes) → Takes n input (read_bytes n input)
unfolding Takes read_bytes
read_bytes-Takes n input = elim (Bool-cases (leb n (length input))) [
  | inl t ↦ rw t (leb→le _ _ t, refl)
  | inr f ↦ rw f _
]

pub read_number-Takes : (n : ℕ) (input : Bytes) → Takes n input (read_number n input)
unfolding Takes read_number
read_number-Takes n input = elim (Bool-cases (leb n (length input))) [
  | inl t ↦ rw t (leb→le _ _ t, refl)
  | inr f ↦ rw f _
]

module _ {A B : Type 0} (n : ℕ) (input : Bytes) where
  pub map_value-Takes :
      (f : A → B) (o : Option (Bytes × A)) → Takes n input o → Takes n input (map_value f o)
  unfolding Takes
  map_value-Takes f none h = _
  map_value-Takes f (some t) h = h

  pub then_value-Takes :
      (f : A → B) (o : Option (Bytes × A))
      → Takes n input o
      → Takes {A = B} n input (o >>= λ t. some (t.0, f t.1))
  unfolding Takes
  then_value-Takes f none h = _
  then_value-Takes f (some t) h = h

  pub map_opt-Takes :
      (f : A → Option B) (o : Option (Bytes × A)) → Takes n input o → Takes n input (map_opt f o)
  unfolding Takes
  map_opt-Takes f none h = _
  map_opt-Takes f (some (rest, a)) h = elim (Option-cases (f a)) [
    | inl e ↦ rw e _
    | inr (b, e) ↦ rw e h
  ]

module _ {A : Type 0} (n : ℕ) (input : Bytes) (x y : Option (Bytes × A)) where
  -- A parser that is chosen by the width of the field takes the field.
  pub width-Takes :
      (w : ℕ) → Takes w input x → Takes n input y → Takes n input (if n == w then x else y)
  width-Takes w hx hy = elim (Bool-cases (n == w)) [
    | inl t ↦ rw t (let e : n ≡ w = (==_iff n w).0 t in rw e hx)
    | inr f ↦ rw f hy
  ]

  pub either-Takes :
      (b : Bool) → Takes n input x → Takes n input y → Takes n input (if b then x else y)
  either-Takes true hx hy = hx
  either-Takes false hx hy = hy

pub drop-drop : {A : Type 0} (n m : ℕ) (l : List A) → drop m (drop n l) ≡ drop (n + m) l
drop-drop zero m l = let e : zero + m ≡ m = omega arith in rw e refl
drop-drop (suc n) zero [] = let e : suc n + zero ≡ suc n = omega arith in rw e refl
drop-drop (suc n) (suc m) [] = let e : suc n + suc m ≡ suc (n + suc m) = omega arith in rw e refl
drop-drop (suc n) m (x ∷ l) =
    let e : suc n + m ≡ suc (n + m) = omega arith in rw e (drop-drop n m l)

pub two_steps :
    {A : Type 0} (n m : ℕ) (input rest rest' : List A)
    → (n ≤ length input) × (rest ≡ drop n input)
    → (m ≤ length rest) × (rest' ≡ drop m rest)
    → (n + m ≤ length input) × (rest' ≡ drop (n + m) input)
two_steps n m input rest rest' (le, e) (le', e') =
    let long : length rest ≡ length input - n = ap length e ∙ length-drop n input in
    (omega (arith, long, le, le'), e' ∙ ap (drop m) e ∙ drop-drop n m input)

pub Takes-eq :
    {A : Type 0} (n : ℕ) (input : Bytes) {o o' : Option (Bytes × A)}
    → o ≡ o'
    → Takes n input o
    → Takes n input o'
Takes-eq n input e h = subst (λ x. Takes n input x) e h

-- What is read behind something that was taken.
pub taken_behind :
    {B : Type 0} (n m : ℕ) (input rest : Bytes) (o : Option (Bytes × B))
    → (n ≤ length input) × (rest ≡ drop n input)
    → Takes m rest o
    → Takes (n + m) input o
unfolding Takes
taken_behind n m input rest none h h' = _
taken_behind n m input rest (some (rest', b)) h h' = two_steps n m input rest rest' h h'

-- What is read behind something else.
pub then-Takes :
    {A B : Type 0} (n m : ℕ) (input : Bytes) (o : Option (Bytes × A))
    (k : Bytes × A → Option (Bytes × B))
    → Takes n input o
    → ((rest : Bytes) (a : A) → Takes m rest (k (rest, a)))
    → Takes (n + m) input (o >>= k)
unfolding Takes
then-Takes n m input none k h hk = _
then-Takes n m input (some (rest, a)) k h hk =
    taken_behind n m input rest (k (rest, a)) h (hk rest a)
