-- ===== src/RateLimit/Bound.antt =====
-- What `allow` grants over a sequence of calls, of one identity and of others.
use mcpgate.Prelude.{
  ℕ, ◌+◌, ◌-◌, ◌*◌, ◌≤◌, String, ◌≡◌, refl, ap, ◌∙◌, true, false, inl, inr, some, List, [], ◌∷◌,
  ◌==◌, ==_iff, lookup, if◌then◌else◌, arith, Bool-cases,
}
use mcpgate.RateLimit.{
  Bucket, Limiter, Buckets, put_bucket, current, Verdict, allowed, limited, take_token, allow,
}

abbrev pub charged : Verdict → ℕ
charged allowed = 1
charged (limited w) = 0

module _ (l : Limiter) (cost now : ℕ) (b : Bucket) where
  pub updated_at-take_token : (take_token l cost now b).1.updated_at ≡ now
  unfolding take_token
  updated_at-take_token = ground arith

  take_token-le-capacity :
      charged (take_token l cost now b).0 * cost + (take_token l cost now b).1.tokens ≤ l.capacity
  unfolding take_token
  take_token-le-capacity = ground arith

  take_token-le-credit :
      charged (take_token l cost now b).0 * cost + (take_token l cost now b).1.tokens
      ≤ b.tokens + (now - b.updated_at) * l.refill_per_second
  unfolding take_token
  take_token-le-credit = ground arith

pub lookup-put_bucket :
    (k j : String) (b : Bucket) (m : Buckets)
    → lookup j (put_bucket k b m) ≡ (if j == k then some b else lookup j m)
unfolding put_bucket
lookup-put_bucket k j b [] = refl
lookup-put_bucket k j b ((i, c) ∷ m) =
    ground (arith, ==_iff j k, ==_iff k i, ==_iff j i, lookup-put_bucket k j b m)

-- A sequence of calls, each an identity and the clock's reading.
abbrev pub Calls : Type 0
Calls = List (String × ℕ)

-- The readings stand between `t0` and `t1` and do not fall.
abbrev pub IsMonotone : ℕ → ℕ → Calls → Type 0
IsMonotone t0 t1 [] = t0 ≤ t1
IsMonotone t0 t1 ((k, t) ∷ calls) = (t0 ≤ t) × IsMonotone t t1 calls

IsMonotone-le : (t0 t1 : ℕ) (calls : Calls) → IsMonotone t0 t1 calls → t0 ≤ t1
IsMonotone-le t0 t1 [] h = h
IsMonotone-le t0 t1 ((k, t) ∷ calls) h = omega (arith, IsMonotone-le t t1 calls h.1)

pub span_split :
    (u t t1 rate : ℕ) → u ≤ t → t ≤ t1 → (t1 - u) * rate ≡ (t - u) * rate + (t1 - t) * rate
span_split u t t1 rate h k = grind arith

module _ (l : Limiter) (cost : ℕ) (k : String) where
  -- How many of the calls of `k` are allowed.
  pub admissions : Calls → Buckets → ℕ
  admissions [] m = 0
  admissions ((j, t) ∷ calls) m =
      (if j == k then charged (allow l j cost t m).0 else 0)
      + admissions calls (allow l j cost t m).1

module _ (l : Limiter) (cost : ℕ) (m : Buckets) where
  -- A call of `j` leaves the bucket of every other identity as it is.
  pub lookup-allow_ne :
      (j k : String) (t : ℕ) → (j == k) ≡ false → lookup k (allow l j cost t m).1 ≡ lookup k m
  unfolding allow
  lookup-allow_ne j k t h = ground (
    arith,
    ==_iff j k,
    ==_iff k j,
    lookup-put_bucket j k (take_token l cost t (current l j t m)).1 m,
  )

  pub lookup-allow_self :
      (j k : String) (t : ℕ)
      → (j == k) ≡ true
      → lookup k (allow l j cost t m).1 ≡ some (take_token l cost t (current l k t m)).1
  unfolding allow
  lookup-allow_self j k t h = ground (
    arith,
    ==_iff j k,
    ==_iff k j,
    lookup-put_bucket j k (take_token l cost t (current l j t m)).1 m,
  )

  pub verdict-allow :
      (j k : String) (t : ℕ)
      → (j == k) ≡ true
      → (allow l j cost t m).0 ≡ (take_token l cost t (current l k t m)).0
  unfolding allow
  verdict-allow j k t h = ground (arith, ==_iff j k)

  pub current-some : (k : String) (t : ℕ) (b : Bucket) → lookup k m ≡ some b → current l k t m ≡ b
  unfolding current
  current-some k t b e = rw e

module _ (l : Limiter) (cost : ℕ) (k : String) where
  admissions_bucket :
      (t0 t1 : ℕ) (calls : Calls) (m : Buckets) (b : Bucket)
      → IsMonotone t0 t1 calls
      → lookup k m ≡ some b
      → b.updated_at ≤ t0
      → admissions l cost k calls m * cost ≤ b.tokens + (t1 - b.updated_at) * l.refill_per_second
  unfolding admissions
  admissions_bucket t0 t1 [] m b h e u = grind arith
  admissions_bucket t0 t1 ((j, t) ∷ calls) m b h e u = elim (Bool-cases (j == k)) [
    | inl same ↦
        let b' = (take_token l cost t b).1 in
        let now = updated_at-take_token l cost t b in
        rw (same, verdict-allow l cost m j k t same, current-some l cost m k t b e)
          (grind (
            arith,
            now,
            take_token-le-credit l cost t b,
            span_split b.updated_at t t1 l.refill_per_second (omega arith)
                (IsMonotone-le t t1 calls h.1),
            admissions_bucket t t1 calls (allow l j cost t m).1 b' h.1
                (lookup-allow_self l cost m j k t same
                  ∙ ap (λ (c : Bucket). some (take_token l cost t c).1)
                      (current-some l cost m k t b e))
                (omega (arith, now)),
          ))
    | inr other ↦ rw other (
        omega (
          arith,
          admissions_bucket t t1 calls (allow l j cost t m).1 b h.1
              (lookup-allow_ne l cost m j k t other ∙ e) (omega arith),
        ))
  ]

  -- Over any sequence of calls of any identities, whose clock readings do not fall, and from any
  -- state of the buckets, the calls of one identity that are allowed cost at most the capacity and
  -- what is refilled between the bounds of the readings.
  pub admissions-le-budget :
      (t0 t1 : ℕ) (calls : Calls) (m : Buckets)
      → IsMonotone t0 t1 calls
      → admissions l cost k calls m * cost ≤ l.capacity + (t1 - t0) * l.refill_per_second
  unfolding admissions
  admissions-le-budget t0 t1 [] m h = grind arith
  admissions-le-budget t0 t1 ((j, t) ∷ calls) m h = elim (Bool-cases (j == k)) [
    | inl same ↦
        let b = current l k t m in
        let now = updated_at-take_token l cost t b in
        rw (same, verdict-allow l cost m j k t same)
          (grind (
            arith,
            now,
            take_token-le-capacity l cost t b,
            span_split t0 t t1 l.refill_per_second h.0 (IsMonotone-le t t1 calls h.1),
            admissions_bucket t t1 calls (allow l j cost t m).1 (take_token l cost t b).1 h.1
                (lookup-allow_self l cost m j k t same) (omega (arith, now)),
          ))
    | inr other ↦ rw other (
        grind (
          arith,
          span_split t0 t t1 l.refill_per_second h.0 (IsMonotone-le t t1 calls h.1),
          admissions-le-budget t t1 calls (allow l j cost t m).1 h.1,
        ))
  ]
