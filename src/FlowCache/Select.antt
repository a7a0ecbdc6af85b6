-- ===== src/FlowCache/Select.antt =====
-- `slice::select_nth_unstable`: the element that stands at a position of the sorted slice.
use rustflow.Prelude.{
  ℕ, zero, suc, ◌+◌, ◌≤◌, ◌<◌, ◌≡◌, refl, Option, none, some, List, [], ◌∷◌, leb, if◌then◌else◌,
  length, arith, All,
}

abbrev pub get_elem? {ℓ} : {A : Type ℓ} → List A → ℕ → Option A
get_elem? [] i = none
get_elem? (x ∷ xs) zero = some x
get_elem? (x ∷ xs) (suc i) = get_elem? xs i

unfoldable pub insert_sorted : ℕ → List ℕ → List ℕ
insert_sorted x [] = x ∷ []
insert_sorted x (y ∷ ys) = if leb x y then x ∷ y ∷ ys else y ∷ insert_sorted x ys

unfoldable pub sort : List ℕ → List ℕ
sort [] = []
sort (x ∷ xs) = insert_sorted x (sort xs)

-- `none` is the panic of a position out of bounds.
unfoldable pub nth_smallest : ℕ → List ℕ → Option ℕ
nth_smallest k xs = get_elem? (sort xs) k

-- How many elements are at most `b`.
unfoldable pub count_le : ℕ → List ℕ → ℕ
count_le b [] = 0
count_le b (x ∷ xs) = (if leb x b then 1 else 0) + count_le b xs

abbrev IsSorted : List ℕ → Type 0
IsSorted [] = Unit
IsSorted (x ∷ xs) = All (λ y. x ≤ y) xs × IsSorted xs

count_le-insert_sorted :
    (b x : ℕ) (ys : List ℕ) → count_le b (insert_sorted x ys) ≡ count_le b (x ∷ ys)
unfolding count_le insert_sorted
count_le-insert_sorted b x [] = refl
count_le-insert_sorted b x (y ∷ ys) = ground (arith, count_le-insert_sorted b x ys)

count_le-sort : (b : ℕ) (xs : List ℕ) → count_le b (sort xs) ≡ count_le b xs
unfolding count_le sort
count_le-sort b [] = refl
count_le-sort b (x ∷ xs) = omega (arith, count_le-insert_sorted b x (sort xs), count_le-sort b xs)

length-insert_sorted : (x : ℕ) (ys : List ℕ) → length (insert_sorted x ys) ≡ suc (length ys)
unfolding insert_sorted
length-insert_sorted x [] = refl
length-insert_sorted x (y ∷ ys) = ground (arith, length-insert_sorted x ys)

length-sort : (xs : List ℕ) → length (sort xs) ≡ length xs
unfolding sort
length-sort [] = refl
length-sort (x ∷ xs) = omega (arith, length-insert_sorted x (sort xs), length-sort xs)

All-insert_sorted :
    (a x : ℕ) (ys : List ℕ) → a ≤ x → All (λ y. a ≤ y) ys → All (λ y. a ≤ y) (insert_sorted x ys)
unfolding insert_sorted
All-insert_sorted a x [] h p = (h, tt)
All-insert_sorted a x (y ∷ ys) h (p, q) = ground (arith, All-insert_sorted a x ys h q)

All-le_trans : (a b : ℕ) (ys : List ℕ) → a ≤ b → All (λ y. b ≤ y) ys → All (λ y. a ≤ y) ys
All-le_trans a b [] h p = tt
All-le_trans a b (y ∷ ys) h (p, q) = (omega arith, All-le_trans a b ys h q)

insert_sorted-IsSorted : (x : ℕ) (ys : List ℕ) → IsSorted ys → IsSorted (insert_sorted x ys)
unfolding insert_sorted
insert_sorted-IsSorted x [] s = (tt, tt)
insert_sorted-IsSorted x (y ∷ ys) (p, s) =
    ground (arith, All-le_trans x y ys, All-insert_sorted y x ys, insert_sorted-IsSorted x ys s)

sort-IsSorted : (xs : List ℕ) → IsSorted (sort xs)
unfolding sort
sort-IsSorted [] = tt
sort-IsSorted (x ∷ xs) = insert_sorted-IsSorted x (sort xs) (sort-IsSorted xs)

All-get_elem? :
    (a i : ℕ) (xs : List ℕ) {c : ℕ} → All (λ y. a ≤ y) xs → get_elem? xs i ≡ some c → a ≤ c
All-get_elem? a i [] p h = cc
All-get_elem? a zero (x ∷ xs) (p, q) h = ground arith
All-get_elem? a (suc i) (x ∷ xs) (p, q) h = All-get_elem? a i xs q h

sorted_count :
    (i : ℕ) (xs : List ℕ) {c : ℕ} → IsSorted xs → get_elem? xs i ≡ some c → suc i ≤ count_le c xs
unfolding count_le
sorted_count i [] s h = cc
sorted_count zero (x ∷ xs) (p, s) h = ground arith
sorted_count (suc i) (x ∷ xs) (p, s) h =
    ground (arith, sorted_count i xs s h, All-get_elem? x i xs p h)

-- At least k + 1 elements are at most the one at position k.
pub nth_smallest-count :
    (k : ℕ) (xs : List ℕ) {c : ℕ} → nth_smallest k xs ≡ some c → suc k ≤ count_le c xs
unfolding nth_smallest
nth_smallest-count k xs {c} h =
    omega (arith, sorted_count k (sort xs) (sort-IsSorted xs) h, count_le-sort c xs)

get_elem?-total : (i : ℕ) (xs : List ℕ) → i < length xs → (c : ℕ) × (get_elem? xs i ≡ some c)
get_elem?-total i [] h = absurd (omega arith)
get_elem?-total zero (x ∷ xs) h = (x, refl)
get_elem?-total (suc i) (x ∷ xs) h = get_elem?-total i xs (omega arith)

-- A position in bounds has an element.
pub nth_smallest-total :
    (k : ℕ) (xs : List ℕ) → k < length xs → (c : ℕ) × (nth_smallest k xs ≡ some c)
unfolding nth_smallest
nth_smallest-total k xs h = get_elem?-total k (sort xs) (omega (arith, length-sort xs))
