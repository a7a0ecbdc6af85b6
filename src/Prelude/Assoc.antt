-- ===== src/Prelude/Assoc.antt =====
-- Hash maps as association lists. A key stands in a map once (`Distinct`); the order of the
-- entries stands for the unspecified order in which a hash map is walked.
use Prim.Native.Nat.{ℕ, ◌+◌, ◌≤◌}
use mathlib.Core.Path.{◌≡◌, refl, subst}
use mathlib.Core.Logic.{◌≢◌, ite, if_pos, if_neg, inl, inr}
use mathlib.Core.Bool.{Bool, true, false}
use mathlib.Core.Option.{Option, none, some}
use mathlib.Core.List.{List, [], ◌∷◌}
use native.Mathlib.Omega.{arith}
use rustflow.Prelude.Lists.{length}
use rustflow.Prelude.Tests.{if◌then◌else◌, Bool-cases}

abbrev pub Assoc {ℓ} : Type ℓ → Type ℓ → Type ℓ
Assoc K V = List (K × V)

-- A number of a value that may be missing, which counts nothing.
unfoldable pub weight_of {ℓ} : {V : Type ℓ} → (V → ℕ) → Option V → ℕ
weight_of f none = 0
weight_of f (some v) = f v

module _ {ℓ} {K V : Type ℓ} where
  -- The sum of a number over the values.
  unfoldable pub weight : (V → ℕ) → Assoc K V → ℕ
  weight f [] = 0
  weight f ((_, v) ∷ m) = f v + weight f m

  -- `retain`: the entries that pass the test.
  unfoldable pub retain : (V → Bool) → Assoc K V → Assoc K V
  retain p [] = []
  retain p ((k, v) ∷ m) = let rest = retain p m in if p v then (k, v) ∷ rest else rest

  -- A statement about every value.
  abbrev pub Every {κ} : (V → Type κ) → Assoc K V → Type κ
  Every P [] = Unit {κ}
  Every P ((_, v) ∷ m) = P v × Every P m

  pub Every-map {κ} :
      (P Q : V → Type κ) → ((v : V) → P v → Q v) → (m : Assoc K V) → Every P m → Every Q m
  Every-map P Q h [] e = tt
  Every-map P Q h ((k, v) ∷ m) (p, e) = (h v p, Every-map P Q h m e)

  pub Every-both {κ} :
      (P Q R : V → Type κ)
      → ((v : V) → P v → Q v → R v)
      → (m : Assoc K V) → Every P m
      → Every Q m
      → Every R m
  Every-both P Q R h [] e e' = tt
  Every-both P Q R h ((k, v) ∷ m) (p, e) (q, e') = (h v p q, Every-both P Q R h m e e')

  pub Every-retain :
      (P : V → Type 0) (p : V → Bool) (m : Assoc K V)
      → Every P m
      → Every (λ v. P v × (p v ≡ true)) (retain p m)
  unfolding retain
  Every-retain P p [] e = tt
  Every-retain P p ((k, v) ∷ m) (h, e) = elim (Bool-cases (p v)) [
    | inl t ↦ rw t ((h, t), Every-retain P p m e)
    | inr t ↦ rw t (Every-retain P p m e)
  ]

  pub length-weight : (m : Assoc K V) → length m ≡ weight (λ v. 1) m
  unfolding weight
  length-weight [] = refl
  length-weight ((k, v) ∷ m) = omega (arith, length-weight m)

  pub weight-add :
      (f g h : V → ℕ)
      → ((v : V) → f v + g v ≡ h v)
      → (m : Assoc K V) → weight f m + weight g m ≡ weight h m
  unfolding weight
  weight-add f g h e [] = omega arith
  weight-add f g h e ((k, v) ∷ m) = omega (arith, e v, weight-add f g h e m)

  pub weight-eq : (f g : V → ℕ) (m : Assoc K V) → Every (λ v. f v ≡ g v) m → weight f m ≡ weight g m
  unfolding weight
  weight-eq f g [] e = refl
  weight-eq f g ((k, v) ∷ m) (p, e) = omega (arith, weight-eq f g m e)

  unfoldable pub is_empty : Assoc K V → Bool
  is_empty [] = true
  is_empty (_ ∷ _) = false

module _ {ℓ} {K V : Type ℓ} (dec : Discrete K) where
  unfoldable pub lookup : K → Assoc K V → Option V
  lookup k [] = none
  lookup k ((j, v) ∷ m) = ite (dec k j) (some v) (lookup k m)

  -- The value of a key is replaced in place; a new key is added.
  unfoldable pub insert : K → V → Assoc K V → Assoc K V
  insert k w [] = (k, w) ∷ []
  insert k w ((j, v) ∷ m) = ite (dec k j) ((j, w) ∷ m) ((j, v) ∷ insert k w m)

  unfoldable pub remove : K → Assoc K V → Assoc K V
  remove k [] = []
  remove k ((j, v) ∷ m) = ite (dec k j) m ((j, v) ∷ remove k m)

  abbrev pub Distinct : Assoc K V → Type ℓ
  Distinct [] = Unit {ℓ}
  Distinct ((k, v) ∷ m) = (lookup k m ≡ none) × Distinct m

  pub lookup-insert :
      (k j : K) (w : V) (m : Assoc K V)
      → lookup j (insert k w m) ≡ ite (dec j k) (some w) (lookup j m)
  unfolding lookup insert
  lookup-insert k j w [] = refl
  lookup-insert k j w ((i, v) ∷ m) = ground (arith, lookup-insert k j w m)

  pub lookup-remove_ne : (k j : K) (m : Assoc K V) → j ≢ k → lookup j (remove k m) ≡ lookup j m
  unfolding lookup remove
  lookup-remove_ne k j [] h = refl
  lookup-remove_ne k j ((i, v) ∷ m) h = ground (arith, lookup-remove_ne k j m)

  pub lookup-remove_self : (k : K) (m : Assoc K V) → Distinct m → lookup k (remove k m) ≡ none
  unfolding lookup remove
  lookup-remove_self k [] d = refl
  lookup-remove_self k ((i, v) ∷ m) (fresh, d) = ground (arith, lookup-remove_self k m d)

  pub weight-insert :
      (f : V → ℕ) (k : K) (w : V) (m : Assoc K V)
      → weight f (insert k w m) + weight_of f (lookup k m) ≡ weight f m + f w
  unfolding lookup insert weight weight_of
  weight-insert f k w [] = omega arith
  weight-insert f k w ((i, v) ∷ m) = ground (arith, weight-insert f k w m)

  pub weight-remove :
      (f : V → ℕ) (k : K) (m : Assoc K V)
      → weight f (remove k m) + weight_of f (lookup k m) ≡ weight f m
  unfolding lookup remove weight weight_of
  weight-remove f k [] = omega arith
  weight-remove f k ((i, v) ∷ m) = ground (arith, weight-remove f k m)

  pub weight_of-le : (f : V → ℕ) (k : K) (m : Assoc K V) → weight_of f (lookup k m) ≤ weight f m
  weight_of-le f k m = omega (arith, weight-remove f k m)

  pub insert-Distinct : (k : K) (w : V) (m : Assoc K V) → Distinct m → Distinct (insert k w m)
  unfolding lookup insert
  insert-Distinct k w [] d = (refl, tt)
  insert-Distinct k w ((i, v) ∷ m) (fresh, d) =
      ground (arith, lookup-insert k i w m, insert-Distinct k w m d)

  lookup-remove-none : (k j : K) (m : Assoc K V) → lookup j m ≡ none → lookup j (remove k m) ≡ none
  unfolding lookup remove
  lookup-remove-none k j [] h = refl
  lookup-remove-none k j ((i, v) ∷ m) h = ground (arith, lookup-remove-none k j m)

  pub remove-Distinct : (k : K) (m : Assoc K V) → Distinct m → Distinct (remove k m)
  unfolding lookup remove
  remove-Distinct k [] d = tt
  remove-Distinct k ((i, v) ∷ m) (fresh, d) =
      ground (arith, lookup-remove-none k i m, remove-Distinct k m d)

  pub lookup-retain-none :
      (p : V → Bool) (j : K) (m : Assoc K V) → lookup j m ≡ none → lookup j (retain p m) ≡ none
  unfolding lookup retain
  lookup-retain-none p j [] h = refl
  lookup-retain-none p j ((i, v) ∷ m) h = ground (arith, lookup-retain-none p j m)

  pub lookup-retain :
      (p : V → Bool) (j : K) (m : Assoc K V)
      → Distinct m
      → lookup j (retain p m)
        ≡ elim (lookup j m) [ none ↦ none | some v ↦ if p v then some v else none ]
  unfolding lookup retain
  lookup-retain p j [] d = refl
  lookup-retain p j ((i, v) ∷ m) (fresh, d) =
      ground (arith, lookup-retain p j m d, lookup-retain-none p j m)

  pub retain-Distinct : (p : V → Bool) (m : Assoc K V) → Distinct m → Distinct (retain p m)
  unfolding lookup retain
  retain-Distinct p [] d = tt
  retain-Distinct p ((i, v) ∷ m) (fresh, d) =
      ground (arith, lookup-retain-none p i m, retain-Distinct p m d)

  module _ {κ'} (P : V → Type κ') where
    pub Every-lookup : (k : K) (m : Assoc K V) {v : V} → Every P m → lookup k m ≡ some v → P v
    unfolding lookup
    Every-lookup k [] e h = cc
    Every-lookup k ((j, w) ∷ m) {v} (p, e) h = elim (dec k j) [
      | yes q ↦ let same : w ≡ v = ground arith in subst P same p
      | no q ↦ Every-lookup k m e (rw (if_neg (dec k j) q (some w) (lookup k m)) at h)
    ]

    pub Every-insert : (k : K) (w : V) (m : Assoc K V) → P w → Every P m → Every P (insert k w m)
    unfolding insert
    Every-insert k w [] p e = (p, tt)
    Every-insert k w ((j, v) ∷ m) p (q, e) = elim (dec k j) [
      | yes h ↦ rw (if_pos (dec k j) h) (p, e)
      | no h ↦ rw (if_neg (dec k j) h) (q, Every-insert k w m p e)
    ]

    pub Every-remove : (k : K) (m : Assoc K V) → Every P m → Every P (remove k m)
    unfolding remove
    Every-remove k [] e = tt
    Every-remove k ((j, v) ∷ m) (q, e) = elim (dec k j) [
      | yes h ↦ rw (if_pos (dec k j) h) e
      | no h ↦ rw (if_neg (dec k j) h) (q, Every-remove k m e)
    ]
