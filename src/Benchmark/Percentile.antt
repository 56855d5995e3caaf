-- ===== src/Benchmark/Percentile.antt =====
-- A percentile is an order statistic of the values.
use mcpgate.Prelude.{
  ℕ, zero, suc, ◌-◌, ◌≤◌, ◌<◌, ◌≡◌, refl, Bool, some, List, [], ◌∷◌, ℤ, pos, negsuc, leb, ltb, min,
  length, get_elem?, select, arith, All, inl, inr, Bool-cases,
}
use mcpgate.Benchmark.{
  insert_value, sorted, last_index, not_negative, at_most, nth, index_of, percentile,
}

-- How many values are below a bound, and how many are not above it.
abbrev pub below : ℕ → List ℕ → ℕ
below v values = length (select (λ x. ltb x v) values)

abbrev pub up_to : ℕ → List ℕ → ℕ
up_to v values = length (select (λ x. leb x v) values)

module _ (p : ℕ → Bool) where
  count-insert_value :
      (x : ℕ) (l : List ℕ) → length (select p (insert_value x l)) ≡ length (select p (x ∷ l))
  unfolding insert_value
  count-insert_value x [] = refl
  count-insert_value x (y ∷ l) = ground (arith, count-insert_value x l)

  pub count-sorted : (l : List ℕ) → length (select p (sorted l)) ≡ length (select p l)
  unfolding sorted
  count-sorted [] = refl
  count-sorted (x ∷ l) = ground (arith, count-insert_value x (sorted l), count-sorted l)

length-insert_value : (x : ℕ) (l : List ℕ) → length (insert_value x l) ≡ suc (length l)
unfolding insert_value
length-insert_value x [] = refl
length-insert_value x (y ∷ l) = ground (arith, length-insert_value x l)

pub length-sorted : (l : List ℕ) → length (sorted l) ≡ length l
unfolding sorted
length-sorted [] = refl
length-sorted (x ∷ l) = ground (arith, length-insert_value x (sorted l), length-sorted l)

-- Each value is at most those after it.
abbrev pub IsSorted : List ℕ → Type 0
IsSorted [] = Unit
IsSorted (x ∷ l) = All (λ y. x ≤ y) l × IsSorted l

All-insert_value :
    (z x : ℕ) (l : List ℕ) → z ≤ x → All (λ y. z ≤ y) l → All (λ y. z ≤ y) (insert_value x l)
unfolding insert_value
All-insert_value z x [] h k = (h, tt)
All-insert_value z x (y ∷ l) h k = ground (arith, All-insert_value z x l h k.1)

All-le : (z x : ℕ) (l : List ℕ) → z ≤ x → All (λ y. x ≤ y) l → All (λ y. z ≤ y) l
All-le z x [] h k = tt
All-le z x (y ∷ l) h k = (omega (arith, k.0), All-le z x l h k.1)

insert_value-IsSorted : (x : ℕ) (l : List ℕ) → IsSorted l → IsSorted (insert_value x l)
unfolding insert_value
insert_value-IsSorted x [] h = (tt, tt)
insert_value-IsSorted x (y ∷ l) h = elim (Bool-cases (leb x y)) [
  | inl t ↦ rw t ((ground arith, All-le x y l (ground arith) h.0), h)
  | inr f ↦ rw f (All-insert_value y x l (ground arith) h.0, insert_value-IsSorted x l h.1)
]

pub sorted-IsSorted : (l : List ℕ) → IsSorted (sorted l)
unfolding sorted
sorted-IsSorted [] = tt
sorted-IsSorted (x ∷ l) = insert_value-IsSorted x (sorted l) (sorted-IsSorted l)

none_below : (v : ℕ) (l : List ℕ) → All (λ y. v ≤ y) l → below v l ≡ 0
none_below v [] h = refl
none_below v (x ∷ l) h = ground (arith, none_below v l h.1)

least : (x v i : ℕ) (l : List ℕ) → All (λ y. x ≤ y) l → get_elem? l i ≡ some v → x ≤ v
least x v i [] h e = cc
least x v zero (y ∷ l) h e = ground (arith, h.0)
least x v (suc i) (y ∷ l) h e = least x v i l h.1 e

up_to-cons : (x v : ℕ) (l : List ℕ) → x ≤ v → up_to v (x ∷ l) ≡ suc (up_to v l)
up_to-cons x v l h = ground arith

below-cons : (x v i : ℕ) (l : List ℕ) → below v l ≤ i → below v (x ∷ l) ≤ suc i
below-cons x v i l h = ground arith

-- The value at a place of a sorted list, by the values around it.
pub at_place :
    (l : List ℕ) (i : ℕ)
    → IsSorted l
    → i < length l
    → (v : ℕ) × (get_elem? l i ≡ some v) × (below v l ≤ i) × (i < up_to v l)
at_place [] i h k = absurd (omega arith)
at_place (x ∷ l) zero h k = (x, refl, ground (arith, none_below x l h.0), ground arith)
at_place (x ∷ l) (suc i) h k =
    let (v, e, b, u) = at_place l i h.1 (omega arith) in
    (v, e, below-cons x v i l b, omega (arith, u, up_to-cons x v l (least x v i l h.0 e)))

abbrev at_least_zero : ℤ → ℕ
at_least_zero (pos n) = n
at_least_zero (negsuc n) = 0

-- The place of a percentile in the sorted values.
abbrev pub place : (ℤ → ℤ) → ℕ → ℕ
place rank n = min (n - 1) (at_least_zero (rank (pos (n - 1))))

index_of-place : (rank : ℤ → ℤ) (n : ℕ) → 1 ≤ n → index_of rank n ≡ pos (place rank n)
unfolding index_of last_index not_negative at_most
index_of-place rank zero h = absurd (omega arith)
index_of-place rank (suc n) h = let e : suc n - 1 ≡ n = omega arith in rw e refl

module _ (rank : ℤ → ℤ) (values : List ℕ) where
  -- The percentile of a list that is not empty is one of its values, the one at the rounded rank, cut to
  -- the list: no more than so many values are smaller, and more than so many are not larger.
  pub percentile_lem :
      1 ≤ length values
      → let i = place rank (length values) in
        (v : ℕ) × (percentile rank values ≡ some v) × (below v values ≤ i) × (i < up_to v values)
  unfolding percentile nth
  percentile_lem h =
      let n = length-sorted values in
      let (v, e, b, u) =
        at_place (sorted values) (place rank (length values)) (sorted-IsSorted values)
          (ground (arith, n)) in
      (
        v,
        rw (n, index_of-place rank (length values) h) e,
        omega (arith, b, count-sorted (λ x. ltb x v) values),
        omega (arith, u, count-sorted (λ x. leb x v) values),
      )
