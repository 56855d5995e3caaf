-- ===== src/Policy/Order.antt =====
-- Python's `sorted(set(texts))`: the order of texts by code points, insertion into a sorted list
-- without repeats.
use Prim.Native.Char.{code}
use Prim.Native.String.{compare, then as then_order}
use Prim.Native.String.compare
use text.Mathlib.Text.{is_eq, is_lt}
use Prim.Native.Nat.{Ordering, compare as compare_ℕ}
use mcpgate.Prelude.{
  ℕ, String, ◌≡◌, refl, sym, ◌∙◌, Bool, true, false, ◌||◌, List, [], ◌∷◌, arith, ◌==◌, ==_iff,
  contains, if◌then◌else◌,
}

-- `s < t` on texts.
unfoldable pub text_lt : String → String → Bool
text_lt s t = elim (compare s t) [ Ordering.lt ↦ true | _ ↦ false ]

-- Adds `x` to a sorted list that holds no text twice, unless it is there.
unfoldable pub insert_text : String → List String → List String
insert_text x [] = x ∷ []
insert_text x (y ∷ ys) =
    if x == y then y ∷ ys else if text_lt x y then x ∷ y ∷ ys else y ∷ insert_text x ys

unfoldable pub sorted_set : List String → List String
unfolding insert_text
sorted_set [] = []
sorted_set (x ∷ xs) = insert_text x (sorted_set xs)

abbrev pub IsSorted : List String → Type 0
IsSorted [] = Unit
IsSorted (x ∷ []) = Unit
IsSorted (x ∷ y ∷ l) = (text_lt x y ≡ true) × IsSorted (y ∷ l)

numbers_flip : (m n : ℕ) → compare_ℕ m n ≡ Ordering.gt → compare_ℕ n m ≡ Ordering.lt
numbers_flip m n h = ground arith

numbers_eq : (m n : ℕ) → compare_ℕ m n ≡ Ordering.eq → compare_ℕ n m ≡ Ordering.eq
numbers_eq m n h = ground arith

then_flip :
    (o o' r r' : Ordering)
    → (o ≡ Ordering.gt → o' ≡ Ordering.lt)
    → (o ≡ Ordering.eq → o' ≡ Ordering.eq)
    → (r ≡ Ordering.gt → r' ≡ Ordering.lt)
    → then_order o r ≡ Ordering.gt
    → then_order o' r' ≡ Ordering.lt
then_flip Ordering.lt o' r r' f g k h = cc
then_flip Ordering.eq o' r r' f g k h = rw (g refl) (k h)
then_flip Ordering.gt o' r r' f g k h = rw (f refl)

compare_flip : (s t : String) → compare s t ≡ Ordering.gt → compare t s ≡ Ordering.lt
compare_flip String.[] String.[] h = cc
compare_flip String.[] (String.◌∷◌ d t) h = cc (compare.nil-cons d t)
compare_flip (String.◌∷◌ c s) String.[] h = compare.nil-cons c s
compare_flip (String.◌∷◌ c s) (String.◌∷◌ d t) h =
    compare.cons-cons d c t s
    ∙ then_flip (compare_ℕ (code c) (code d)) (compare_ℕ (code d) (code c)) (compare s t)
        (compare t s) (numbers_flip (code c) (code d)) (numbers_eq (code c) (code d))
        (compare_flip s t) (sym (compare.cons-cons c d s t) ∙ h)

-- Of two different texts the one that is not before the other is after it.
text_lt_total : (x y : String) → (x == y) ≡ false → text_lt x y ≡ false → text_lt y x ≡ true
unfolding text_lt ◌==◌
text_lt_total x y ne ge = go (compare x y) refl ne ge
  where
    go : (o : Ordering) → compare x y ≡ o → is_eq o ≡ false → is_lt o ≡ false → text_lt y x ≡ true
    go Ordering.lt e h k = cc
    go Ordering.eq e h k = cc
    go Ordering.gt e h k = rw (compare_flip x y e, text_lt)

pub insert_text-IsSorted : (x : String) (l : List String) → IsSorted l → IsSorted (insert_text x l)
unfolding insert_text
insert_text-IsSorted x [] h = tt
insert_text-IsSorted x (y ∷ []) h = ground (arith, text_lt_total x y)
insert_text-IsSorted x (y ∷ z ∷ l) h =
    ground (arith, text_lt_total x y, insert_text-IsSorted x (z ∷ l) h.1)

pub sorted_set-IsSorted : (l : List String) → IsSorted (sorted_set l)
unfolding sorted_set
sorted_set-IsSorted [] = tt
sorted_set-IsSorted (x ∷ l) = insert_text-IsSorted x (sorted_set l) (sorted_set-IsSorted l)

contains-insert_text :
    (k x : String) (l : List String) → contains (insert_text x l) k ≡ ((k == x) || contains l k)
unfolding insert_text
contains-insert_text k x [] = refl
contains-insert_text k x (y ∷ l) = ground (arith, ==_iff x y, contains-insert_text k x l)

pub contains-sorted_set : (k : String) (l : List String) → contains (sorted_set l) k ≡ contains l k
unfolding sorted_set
contains-sorted_set k [] = refl
contains-sorted_set k (x ∷ l) =
    ground (arith, contains-insert_text k x (sorted_set l), contains-sorted_set k l)
