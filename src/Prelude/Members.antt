-- ===== src/Prelude/Members.antt =====
-- Membership of lists with its position, under selection, truncation and reversal.
use Prim.Native.Nat.{ℕ, zero, suc}
use mathlib.Core.Path.{◌≡◌, refl, sym, ap, subst, ◌∙◌}
use mathlib.Core.Logic.{inl, inr, ◌↔◌, ◌⊎◌}
use mathlib.Core.Bool.{Bool, true, false, false≢true}
use mathlib.Core.List.{List, [], ◌∷◌, ◌++◌, reverse, reverse-cons}
use mcpgate.Prelude.Tests.{if◌then◌else◌, Bool-cases}
use mcpgate.Prelude.Lists.{select, take, All}

module _ {ℓ} {A : Type ℓ} where
  -- `a` stands in the list, with its position.
  pub data In (a : A) : List A → Type ℓ where
    here : (x : A) (xs : List A) → a ≡ x → In a (x ∷ xs)
    there : (x : A) (xs : List A) → In a xs → In a (x ∷ xs)

module _ {ℓ} {A : Type ℓ} where
  In-select_cons :
      (p : A → Bool) (a x : A) (xs ys : List A)
      → (In a ys ↔ (In a xs × (p a ≡ true)))
      → In a (if p x then x ∷ ys else ys) ↔ (In a (x ∷ xs) × (p a ≡ true))
  In-select_cons p a x xs ys ih = elim (Bool-cases (p x)) [
    | inl t ↦ rw t (take_in t, give_in)
    | inr f ↦ rw f (λ m. (there x xs (ih.0 m).0, (ih.0 m).1), skip_in f)
  ]
    where
      take_in : p x ≡ true → In a (x ∷ ys) → In a (x ∷ xs) × (p a ≡ true)
      take_in t (here _ _ e) = (here x xs e, ap p e ∙ t)
      take_in t (there _ _ m) = (there x xs (ih.0 m).0, (ih.0 m).1)

      give_in : In a (x ∷ xs) × (p a ≡ true) → In a (x ∷ ys)
      give_in (here _ _ e, q) = here x ys e
      give_in (there _ _ m, q) = there x ys (ih.1 (m, q))

      skip_in : p x ≡ false → In a (x ∷ xs) × (p a ≡ true) → In a ys
      skip_in f (here _ _ e, q) = absurd (false≢true (sym f ∙ (ap p (sym e) ∙ q)))
      skip_in f (there _ _ m, q) = ih.1 (m, q)

  no_member : (a : A) → In a [] → ⊥
  no_member a m = elim m [ ]

  pub In-select :
      (p : A → Bool) (a : A) (xs : List A) → In a (select p xs) ↔ (In a xs × (p a ≡ true))
  In-select p a [] = (λ m. absurd (no_member a m), λ m. m.0)
  In-select p a (x ∷ xs) = In-select_cons p a x xs (select p xs) (In-select p a xs)

  pub In-take : (n : ℕ) (a : A) (xs : List A) → In a (take n xs) → In a xs
  In-take zero a xs m = absurd (no_member a m)
  In-take (suc n) a [] m = absurd (no_member a m)
  In-take (suc n) a (x ∷ xs) (here _ _ e) = here x xs e
  In-take (suc n) a (x ∷ xs) (there _ _ m) = there x xs (In-take n a xs m)

  In-append : (a : A) (xs ys : List A) → In a (xs ++ ys) → In a xs ⊎ In a ys
  In-append a [] ys m = inr m
  In-append a (x ∷ xs) ys (here _ _ e) = inl (here x xs e)
  In-append a (x ∷ xs) ys (there _ _ m) = elim (In-append a xs ys m) [
    | inl l ↦ inl (there x xs l)
    | inr r ↦ inr r
  ]

  In-append_left : (a : A) (xs ys : List A) → In a xs → In a (xs ++ ys)
  In-append_left a [] ys m = absurd (no_member a m)
  In-append_left a (x ∷ xs) ys (here _ _ e) = here x (xs ++ ys) e
  In-append_left a (x ∷ xs) ys (there _ _ m) = there x (xs ++ ys) (In-append_left a xs ys m)

  In-append_right : (a : A) (xs ys : List A) → In a ys → In a (xs ++ ys)
  In-append_right a [] ys m = m
  In-append_right a (x ∷ xs) ys m = there x (xs ++ ys) (In-append_right a xs ys m)

  In-last : (a x : A) (xs : List A) → In a (xs ++ x ∷ []) → In a (x ∷ xs)
  In-last a x xs m = elim (In-append a xs (x ∷ []) m) [ inl l ↦ there x xs l | inr r ↦ only r ]
    where
      only : In a (x ∷ []) → In a (x ∷ xs)
      only (here _ _ e) = here x xs e
      only (there _ _ n) = absurd (no_member a n)

  In-cons_of_last : (a x : A) (xs : List A) → In a (x ∷ xs) → In a (xs ++ x ∷ [])
  In-cons_of_last a x xs (here _ _ e) = In-append_right a xs (x ∷ []) (here x [] e)
  In-cons_of_last a x xs (there _ _ m) = In-append_left a xs (x ∷ []) m

  In-cons_map : (a x : A) (xs ys : List A) → (In a xs → In a ys) → In a (x ∷ xs) → In a (x ∷ ys)
  In-cons_map a x xs ys f (here _ _ e) = here x ys e
  In-cons_map a x xs ys f (there _ _ m) = there x ys (f m)

  pub In-reverse : (a : A) (xs : List A) → In a (reverse xs) ↔ In a xs
  In-reverse a [] = (λ m. m, λ m. m)
  In-reverse a (x ∷ xs) =
      let ih = In-reverse a xs in
      rw (reverse-cons x xs) (
        λ m. In-cons_map a x (reverse xs) xs ih.0 (In-last a x (reverse xs) m),
        λ m. In-cons_of_last a x (reverse xs) (In-cons_map a x xs (reverse xs) ih.1 m),
      )

-- A predicate holds of all the members exactly if it holds of each.
module _ {ℓ κ} {A : Type ℓ} (P : A → Type κ) where
  pub All-In : (xs : List A) → ((a : A) → In a xs → P a) → All P xs
  All-In [] h = tt
  All-In (x ∷ xs) h = (h x (here x xs refl), All-In xs (λ a m. h a (there x xs m)))

  pub In-All : (a : A) (xs : List A) → In a xs → All P xs → P a
  In-All a [] m h = elim m [ ]
  In-All a (x ∷ xs) (here _ _ e) h = subst P (sym e) h.0
  In-All a (x ∷ xs) (there _ _ m) h = In-All a xs m h.1
