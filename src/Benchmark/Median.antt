-- ===== src/Benchmark/Median.antt =====
-- The median stands in the middle of the values.
use mcpgate.Prelude.{
  ℕ, zero, suc, ◌+◌, ◌-◌, ◌*◌, ◌/◌, ◌%◌, ◌≤◌, ◌<◌, ◌≡◌, refl, subst, Bool, true, false, some, List,
  [], ◌∷◌, leb, ltb, nat_eq, length, get_elem?, select, arith, All, inl, inr, Bool-cases,
}
use mcpgate.Benchmark.{sorted, median_at, add_values, twice_median}
use mcpgate.Benchmark.Percentile.{
  below, up_to, count-sorted, length-sorted, IsSorted, sorted-IsSorted, at_place,
}

-- `twice` is twice a number that no more than half of the values are below, and no more than half above.
pub record IsMedian (twice : ℕ) (values : List ℕ) : Type 0 where
  pub few_below : 2 * length (select (λ x. ltb (2 * x) twice) values) ≤ length values
  pub few_above : 2 * length (select (λ x. ltb twice (2 * x)) values) ≤ length values

fewer :
    (p q : ℕ → Bool) (l : List ℕ)
    → ((x : ℕ) → p x ≡ true → q x ≡ true)
    → length (select p l) ≤ length (select q l)
fewer p q [] h = omega arith
fewer p q (x ∷ l) h = ground (arith, fewer p q l h, h x)

apart :
    (p q : ℕ → Bool) (l : List ℕ)
    → ((x : ℕ) → p x ≡ true → q x ≡ false)
    → length (select p l) + length (select q l) ≤ length l
apart p q [] h = omega arith
apart p q (x ∷ l) h = ground (arith, apart p q l h, h x)

first_least : (x v i : ℕ) (l : List ℕ) → All (λ y. x ≤ y) l → get_elem? l i ≡ some v → x ≤ v
first_least x v i [] h e = cc
first_least x v zero (y ∷ l) h e = ground (arith, h.0)
first_least x v (suc i) (y ∷ l) h e = first_least x v i l h.1 e

-- Of two neighbours in a sorted list the first is not larger.
neighbours :
    (l : List ℕ) (i v w : ℕ)
    → IsSorted l
    → get_elem? l i ≡ some v
    → get_elem? l (suc i) ≡ some w
    → v ≤ w
neighbours [] i v w h a b = cc
neighbours (x ∷ l) zero v w h a b = ground (arith, first_least x w 0 l h.0 b)
neighbours (x ∷ l) (suc i) v w h a b = neighbours l i v w h.1 a b

-- The mean of two values at places i ≤ j of which one half of the list lies below j and above i.
middle_IsMedian :
    (l : List ℕ) (i j v w : ℕ)
    → v ≤ w
    → below w l ≤ j
    → i < up_to v l
    → 2 * j ≤ length l
    → length l ≤ 2 * (i + 1)
    → IsMedian (v + w) l
middle_IsMedian l i j v w le b u few many = record {
  few_below = omega (
    arith,
    fewer (λ x. ltb (2 * x) (v + w)) (λ x. ltb x w) l (λ x h. ground (arith, h, le)),
    b,
    few,
  );
  few_above = omega (
    arith,
    apart (λ x. ltb (v + w) (2 * x)) (λ x. leb x v) l (λ x h. ground (arith, h, le)),
    u,
    many,
  );
}

module _ (l : List ℕ) (h : IsSorted l) (many : 1 ≤ length l) where
  some_values : nat_eq (length l) 0 ≡ false
  some_values = ground (arith, many)

  odd-IsMedian :
      nat_eq (length l % 2) 1 ≡ true → (m : ℕ) × (median_at l (length l) ≡ some m) × IsMedian m l
  unfolding median_at add_values
  odd-IsMedian odd =
      let k = length l / 2 in
      let rest : length l % 2 ≡ 1 = ground (arith, odd) in
      let (v, e, b, u) = at_place l k h (omega (arith, rest)) in
      (
        v + v,
        rw (some_values, odd, e) refl,
        middle_IsMedian l k k v v (omega arith) b u (omega arith) (omega arith),
      )

  even-IsMedian :
      nat_eq (length l % 2) 1 ≡ false → (m : ℕ) × (median_at l (length l) ≡ some m) × IsMedian m l
  unfolding median_at add_values
  even-IsMedian even =
      let rest : length l % 2 ≡ 0 = ground (arith, even) in
      let j = length l / 2 in
      let i = j - 1 in
      let next : j ≡ suc i = omega (arith, rest, many) in
      let (v, e, _, u) = at_place l i h (omega (arith, rest, many)) in
      let (w, f, b, _) = at_place l j h (omega (arith, rest, many)) in
      let f' : get_elem? l (suc i) ≡ some w = subst (λ k. get_elem? l k ≡ some w) next f in
      (
        v + w,
        rw (some_values, even, e, f) refl,
        middle_IsMedian l i j v w (neighbours l i v w h e f') b u (omega arith)
            (omega (arith, rest, many)),
      )

  median_at-IsMedian : (m : ℕ) × (median_at l (length l) ≡ some m) × IsMedian m l
  median_at-IsMedian = elim (Bool-cases (nat_eq (length l % 2) 1)) [
    | inl odd ↦ odd-IsMedian odd
    | inr even ↦ even-IsMedian even
  ]

-- The median of a list that is not empty exists and stands in its middle: no more than half of the
-- values are below it, and no more than half above.
pub twice_median-IsMedian :
    (values : List ℕ)
    → 1 ≤ length values
    → (m : ℕ) × (twice_median values ≡ some m) × IsMedian m values
unfolding twice_median
twice_median-IsMedian values many =
    let same = length-sorted values in
    let (m, e, middle) =
      median_at-IsMedian (sorted values) (sorted-IsSorted values) (omega (arith, same, many)) in
    (
      m,
      e,
      record {
        few_below = omega (arith, same, middle.few_below, count-sorted (λ x. ltb (2 * x) m) values);
        few_above = omega (arith, same, middle.few_above, count-sorted (λ x. ltb m (2 * x)) values);
      },
    )
