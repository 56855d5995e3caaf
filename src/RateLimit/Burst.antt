-- ===== src/RateLimit/Burst.antt =====
-- What a fresh limiter grants at once.
use mcpgate.Prelude.{
  ℕ, ◌+◌, ◌*◌, ◌≤◌, String, ◌≡◌, sym, ◌∙◌, subst, some, List, [], ◌∷◌, All, length, lookup, ==_iff,
  ==_refl, ◌==◌, arith, inl, inr, Bool-cases, Option-cases,
}
use mcpgate.RateLimit.{
  Bucket, Limiter, new_limiter, one_token, Buckets, current, Verdict, allowed, take_token, allow,
}
use mcpgate.RateLimit.Bound.{Calls, lookup-allow_ne, lookup-allow_self, verdict-allow}

-- The verdicts of a sequence of calls.
abbrev pub verdicts : Limiter → ℕ → Calls → Buckets → List Verdict
verdicts l cost [] m = []
verdicts l cost ((k, t) ∷ calls) m =
    (allow l k cost t m).0 ∷ verdicts l cost calls (allow l k cost t m).1

-- Every bucket holds at least so much.
abbrev pub HoldAtLeast : ℕ → Buckets → Type 0
HoldAtLeast n m = (k : String) (b : Bucket) → lookup k m ≡ some b → n ≤ b.tokens

module _ (l : Limiter) (cost : ℕ) where
  enough :
      (n t : ℕ) (b : Bucket)
      → n + cost ≤ l.capacity
      → n + cost ≤ b.tokens
      → ((take_token l cost t b).0 ≡ allowed) × (n ≤ (take_token l cost t b).1.tokens)
  unfolding take_token
  enough n t b fits h = (ground arith, ground arith)

  current_holds :
      (n : ℕ) (m : Buckets) (k : String) (t : ℕ)
      → n ≤ l.capacity
      → HoldAtLeast n m
      → n ≤ (current l k t m).tokens
  unfolding current
  current_holds n m k t fits h = elim (Option-cases (lookup k m)) [
    | inl e ↦ rw e fits
    | inr (b, e) ↦ rw e (h k b e)
  ]

  held : (n : ℕ) (a b : Bucket) → n ≤ a.tokens → some b ≡ some a → n ≤ b.tokens
  held n a b h e = ground (arith, h, e)

  pub allow_holds :
      (n : ℕ) (m : Buckets) (k : String) (t : ℕ)
      → n + cost ≤ l.capacity
      → HoldAtLeast (n + cost) m
      → ((allow l k cost t m).0 ≡ allowed) × HoldAtLeast n (allow l k cost t m).1
  allow_holds n m k t fits h =
      let (yes_it, left) =
        enough n t (current l k t m) fits (current_holds (n + cost) m k t fits h) in
      (
        verdict-allow l cost m k k t (==_refl k) ∙ yes_it,
        λ j b e. elim (Bool-cases (k == j)) [
          | inl same ↦
              let new : some b ≡ some (take_token l cost t (current l j t m)).1 =
                sym e ∙ lookup-allow_self l cost m k j t same in
              held n (take_token l cost t (current l j t m)).1 b
                (subst (λ (x : String). n ≤ (take_token l cost t (current l x t m)).1.tokens)
                  ((==_iff k j).0 same) left)
                new
          | inr other ↦ omega (arith, h j b (sym (lookup-allow_ne l cost m k j t other) ∙ e))
        ],
      )

  burst_granted :
      (calls : Calls) (m : Buckets)
      → length calls * cost ≤ l.capacity
      → HoldAtLeast (length calls * cost) m
      → All (λ v. v ≡ allowed) (verdicts l cost calls m)
  burst_granted [] m fits h = tt
  burst_granted ((k, t) ∷ calls) m fits h =
      let more : length calls * cost + cost ≡ length ((k, t) ∷ calls) * cost = grind arith in
      let (first_one, left) =
        allow_holds (length calls * cost) m k t (omega (arith, more))
          (λ j b e. omega (arith, more, h j b e)) in
      (first_one, burst_granted calls (allow l k cost t m).1 (omega (arith, more)) left)

-- A limiter of at least one token and a positive rate can be built.
pub new_limiter-some :
    (capacity rate : ℕ)
    → 1 ≤ capacity
    → 1 ≤ rate
    → new_limiter capacity rate
      ≡ some (record { capacity = capacity * one_token; refill_per_second = rate })
unfolding new_limiter
new_limiter-some capacity rate a b = ground arith

-- A new limiter grants its capacity at once: the first `capacity` calls are all allowed, of whatever
-- identities and whatever the clock reads, also if its readings fall. `run_benchmark` relies on it: its
-- limiter has ten tokens more than the calls that it makes.
pub burst_allowed :
    (l : Limiter) (capacity refill : ℕ) (calls : Calls)
    → new_limiter capacity refill ≡ some l
    → length calls ≤ capacity
    → All (λ v. v ≡ allowed) (verdicts l one_token calls [])
unfolding new_limiter
burst_allowed l capacity refill calls built few =
    let room : length calls * one_token ≤ l.capacity = ground arith in
    burst_granted l one_token calls [] room (λ j b e. cc)
