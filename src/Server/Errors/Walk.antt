-- ===== src/Server/Errors/Walk.antt =====
-- The walk ends, on chains with cycles too, and answers whether the chain holds an audited refusal.
use mcpgate.Prelude.{
  ℕ, zero, suc, ◌+◌, ◌≤◌, ◌<◌, ◌≡◌, ◌↔◌, ◌⊎◌, inl, inr, refl, sym, ap, subst, ◌∙◌, Bool, true,
  false, Option, none, some, List, [], ◌∷◌, nat_eq, length, if◌then◌else◌, arith, Bool-cases, ltb,
  get_elem?-above,
}
use mcpgate.Server.Errors.{Errors, next_error, is_audited, is_seen, walk, already_audited}

-- How many of the first `n` objects have not been seen.
unseen : ℕ → List ℕ → ℕ
unseen zero seen = 0
unseen (suc n) seen = unseen n seen + (if is_seen n seen then 0 else 1)

unseen-le : (n : ℕ) (seen : List ℕ) → unseen n seen ≤ n
unfolding unseen
unseen-le zero seen = omega arith
unseen-le (suc n) seen = ground (arith, unseen-le n seen)

unseen-cons_above : (n i : ℕ) (seen : List ℕ) → n ≤ i → unseen n (i ∷ seen) ≡ unseen n seen
unfolding unseen
unseen-cons_above zero i seen h = refl
unseen-cons_above (suc n) i seen h = ground (arith, unseen-cons_above n i seen)

unseen-cons :
    (n i : ℕ) (seen : List ℕ)
    → i < n
    → is_seen i seen ≡ false
    → unseen n (i ∷ seen) + 1 ≡ unseen n seen
unfolding unseen
unseen-cons zero i seen h new = absurd (omega arith)
unseen-cons (suc n) i seen h new = elim (Bool-cases (nat_eq n i)) [
  | inl last ↦ ground (arith, unseen-cons_above n i seen)
  | inr below ↦ ground (arith, unseen-cons n i seen)
]

module _ (errors : Errors) where
  -- An object that is not there has no object after it.
  next_error_above : (i : ℕ) → length errors ≤ i → next_error errors i ≡ none
  next_error_above i h = rw (get_elem?-above errors i h)

  -- The fuel is enough: each turn but the last two sees an object that was not seen.
  walk_total :
      (fuel : ℕ) (seen : List ℕ) (current : Option ℕ)
      → unseen (length errors) seen + 1 < fuel
      → (b : Bool) × (walk errors fuel seen current ≡ some b)
  unfolding walk
  walk_total zero seen current h = absurd (omega arith)
  walk_total (suc fuel) seen none h = (false, refl)
  walk_total (suc fuel) seen (some i) h = elim (Bool-cases (is_seen i seen)) [
    | inl old ↦ (false, rw old)
    | inr new ↦ elim (Bool-cases (is_audited errors i)) [
      | inl hit ↦ (true, rw (new, hit))
      | inr miss ↦ elim (Bool-cases (ltb i (length errors))) [
        | inl there ↦
            rw (new, miss)
              (walk_total fuel (i ∷ seen) (next_error errors i)
                (omega (arith, unseen-cons (length errors) i seen (ground arith) new)))
        | inr above ↦
            rw (new, miss, next_error_above i (ground arith))
              (last_turn fuel (i ∷ seen) (omega arith))
      ]
    ]
  ]
    where
      last_turn : (f : ℕ) (s : List ℕ) → 0 < f → (b : Bool) × (walk errors f s none ≡ some b)
      last_turn zero s p = absurd (omega arith)
      last_turn (suc f) s p = (false, refl)

  -- The objects that the chain from `i` leads to.
  pub data Chain (i : ℕ) : ℕ → Type 0 where
    itself : Chain i i
    further : {j k : ℕ} → Chain i j → next_error errors j ≡ some k → Chain i k

  Chain-before : {i j k : ℕ} → next_error errors i ≡ some j → Chain j k → Chain i k
  Chain-before e itself = further itself e
  Chain-before e (further c e') = further (Chain-before e c) e'

  -- The chain from an object holds an audited refusal.
  abbrev pub HoldsAudited : ℕ → Type 0
  HoldsAudited i = (j : ℕ) × Chain i j × (is_audited errors j ≡ true)

  walk_held :
      (fuel : ℕ) (seen : List ℕ) (current : Option ℕ)
      → walk errors fuel seen current ≡ some true
      → (i : ℕ) × (current ≡ some i) × HoldsAudited i
  unfolding walk
  walk_held zero seen current h = cc
  walk_held (suc fuel) seen none h = cc
  walk_held (suc fuel) seen (some i) h = elim (Bool-cases (is_seen i seen)) [
    | inl old ↦ ground (arith, old, h)
    | inr new ↦ elim (Bool-cases (is_audited errors i)) [
      | inl hit ↦ (i, refl, (i, itself, hit))
      | inr miss ↦
          let (k, e, held) =
            walk_held fuel (i ∷ seen) (next_error errors i) (rw (new, miss) at h) in
          (i, refl, (held.0, Chain-before e held.1, held.2))
    ]
  ]

  -- Nothing among the seen objects is an audited refusal, and each leads to a seen one or to `current`.
  record Explored (seen : List ℕ) (current : Option ℕ) : Type 0 where
    quiet : (i : ℕ) → is_seen i seen ≡ true → is_audited errors i ≡ false
    onto :
        (i k : ℕ)
        → is_seen i seen ≡ true
        → next_error errors i ≡ some k
        → (is_seen k seen ≡ true) ⊎ (current ≡ some k)

  Explored-cons :
      (seen : List ℕ) (i : ℕ)
      → Explored seen (some i)
      → is_audited errors i ≡ false
      → Explored (i ∷ seen) (next_error errors i)
  Explored-cons seen i x miss = record {
    quiet = λ j m. elim (Bool-cases (nat_eq j i)) [
      | inl same ↦ let e : j ≡ i = ground arith in rw e miss
      | inr other ↦ x.quiet j (ground arith)
    ];
    onto = λ j k m e. elim (Bool-cases (nat_eq j i)) [
      | inl same ↦ let e' : j ≡ i = ground arith in inr (ap (next_error errors) (sym e') ∙ e)
      | inr other ↦ elim (x.onto j k (ground arith) e) [
        | inl old ↦ inl (ground arith)
        | inr now ↦ inl (ground arith)
      ]
    ];
  }

  -- The set of objects that a walk without a hit has explored: no object leads out of it.
  record Closed (seen : List ℕ) (current : Option ℕ) (final : List ℕ) : Type 0 where
    quiet : (i : ℕ) → is_seen i final ≡ true → is_audited errors i ≡ false
    onto :
        (i k : ℕ) → is_seen i final ≡ true → next_error errors i ≡ some k → is_seen k final ≡ true
    keeps : (i : ℕ) → is_seen i seen ≡ true → is_seen i final ≡ true
    reaches : (i : ℕ) → current ≡ some i → is_seen i final ≡ true

  walk_free :
      (fuel : ℕ) (seen : List ℕ) (current : Option ℕ)
      → Explored seen current
      → walk errors fuel seen current ≡ some false
      → (final : List ℕ) × Closed seen current final
  unfolding walk
  walk_free zero seen current x h = cc
  walk_free (suc fuel) seen none x h = (
    seen,
    record {
      quiet = x.quiet;
      onto = λ i k m e. elim (x.onto i k m e) [ inl old ↦ old | inr gone ↦ cc ];
      keeps = λ i m. m;
      reaches = λ i e. cc;
    },
  )
  walk_free (suc fuel) seen (some i) x h = elim (Bool-cases (is_seen i seen)) [
    | inl old ↦ (
      seen,
      record {
        quiet = x.quiet;
        onto = λ j k m e. elim (x.onto j k m e) [ inl here ↦ here | inr now ↦ ground arith ];
        keeps = λ j m. m;
        reaches = λ j e. ground arith;
      },
    )
    | inr new ↦ elim (Bool-cases (is_audited errors i)) [
      | inl hit ↦ ground (arith, new, hit, h)
      | inr miss ↦
          let (final, c) =
            walk_free fuel (i ∷ seen) (next_error errors i) (Explored-cons seen i x miss)
              (rw (new, miss) at h) in
          (
            final,
            record {
              quiet = c.quiet;
              onto = c.onto;
              keeps = λ j m. c.keeps j (ground arith);
              reaches = λ j e. c.keeps j (ground arith);
            },
          )
    ]
  ]

  Chain-final :
      (seen : List ℕ) (i : ℕ) (final : List ℕ)
      → Closed seen (some i) final
      → {j : ℕ} → Chain i j
      → is_seen j final ≡ true
  Chain-final seen i final c itself = c.reaches i refl
  Chain-final seen i final c (further r e) = c.onto _ _ (Chain-final seen i final c r) e

  answered :
      (i : ℕ) (b : Bool)
      → walk errors (length errors + 2) [] (some i) ≡ some b
      → (b ≡ true) ↔ HoldsAudited i
  answered i true h =
      let (k, e, held) = walk_held (length errors + 2) [] (some i) h in
      let same : k ≡ i = cc in (λ t. subst HoldsAudited same held, λ held'. refl)
  answered i false h =
      let nothing_seen : Explored [] (some i) = record {
        quiet = λ j m. cc;
        onto = λ j k m e. cc;
      } in
      let (final, c) = walk_free (length errors + 2) [] (some i) nothing_seen h in
      (λ t. cc, λ held. sym (c.quiet held.0 (Chain-final [] i final c held.1)) ∙ held.2)

-- `_already_audited` ends on every exception, whatever chain of causes and contexts hangs on it, cycles
-- included, and answers True exactly when an `AuditedToolError` stands in the chain.
pub already_audited_lem :
    (errors : Errors) (i : ℕ)
    → (b : Bool) × (already_audited errors i ≡ some b) × ((b ≡ true) ↔ HoldsAudited errors i)
unfolding already_audited
already_audited_lem errors i =
    let (b, e) =
      walk_total errors (length errors + 2) [] (some i)
        (omega (arith, unseen-le (length errors) [])) in
    (b, e, answered errors i b e)
