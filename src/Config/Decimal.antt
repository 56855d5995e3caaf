-- ===== src/Config/Decimal.antt =====
-- The decimal print of an integer is read back by `int`.
use Prim.Native.Nat.{zero, suc}
use Prim.Native.Char.{Char, code}
use mathlib.Core.List.{foldl, foldl-append}
use mcpgate.Prelude.{
  ℕ, ◌+◌, ◌*◌, ◌/◌, ◌%◌, ◌<◌, ◌≤◌, String, ◌≡◌, ◌≢◌, refl, ap, ◌∙◌, Bool, true, false, Option, some,
  List, [], ◌∷◌, ◌++◌, map, length, length-append, ℤ, pos, negsuc, ltb, if◌then◌else◌, All,
  All-append, arith, Bool-cases, inl, inr,
}
use mcpgate.Gateway.Validate.{codes}
use mcpgate.Config.Integers.{
  Reading, add_digit, blank, signed, digits, read_code, number_of, negated, max_digits, int,
}

abbrev digit_char : ℕ → Char
digit_char zero = Char.char 48 tt
digit_char (suc zero) = Char.char 49 tt
digit_char (suc (suc zero)) = Char.char 50 tt
digit_char (suc (suc (suc zero))) = Char.char 51 tt
digit_char (suc (suc (suc (suc zero)))) = Char.char 52 tt
digit_char (suc (suc (suc (suc (suc zero))))) = Char.char 53 tt
digit_char (suc (suc (suc (suc (suc (suc zero)))))) = Char.char 54 tt
digit_char (suc (suc (suc (suc (suc (suc (suc zero))))))) = Char.char 55 tt
digit_char (suc (suc (suc (suc (suc (suc (suc (suc zero)))))))) = Char.char 56 tt
digit_char _ = Char.char 57 tt

abbrev spelled : List ℕ → String
spelled [] = String.[]
spelled (d ∷ ds) = String.◌∷◌ (digit_char d) (spelled ds)

-- The digits of a number; as many rounds as the number are enough.
decimals : ℕ → ℕ → List ℕ
decimals zero n = n ∷ []
decimals (suc rounds) n =
    let rest = decimals rounds (n / 10) in if ltb n 10 then n ∷ [] else rest ++ n % 10 ∷ []

value : ℕ → List ℕ → ℕ
value = foldl (λ n d. n * 10 + d)

value-decimals : (rounds n : ℕ) → n ≤ rounds → value 0 (decimals rounds n) ≡ n
unfolding value decimals
value-decimals zero n h = omega (arith, h)
value-decimals (suc rounds) n h = elim (Bool-cases (ltb n 10)) [
  | inl small ↦ rw small (omega arith)
  | inr large ↦ rw large (
      foldl-append (λ n d. n * 10 + d) 0 (decimals rounds (n / 10)) (n % 10 ∷ [])
      ∙ rw (value-decimals rounds (n / 10) (omega (arith, h))) (omega arith))
]

decimals-digits : (rounds n : ℕ) → n ≤ rounds → All (λ d. d < 10) (decimals rounds n)
unfolding decimals
decimals-digits zero n h = (omega (arith, h), tt)
decimals-digits (suc rounds) n h = elim (Bool-cases (ltb n 10)) [
  | inl small ↦ rw small (ground arith, tt)
  | inr large ↦ rw large (
      All-append (λ d. d < 10) (decimals rounds (n / 10)) (n % 10 ∷ [])
        (decimals-digits rounds (n / 10) (omega (arith, h))) (omega arith, tt))
]

code-digit_char : (d : ℕ) → d < 10 → code (digit_char d) ≡ 48 + d
code-digit_char zero h = refl
code-digit_char (suc zero) h = refl
code-digit_char (suc (suc zero)) h = refl
code-digit_char (suc (suc (suc zero))) h = refl
code-digit_char (suc (suc (suc (suc zero)))) h = refl
code-digit_char (suc (suc (suc (suc (suc zero))))) h = refl
code-digit_char (suc (suc (suc (suc (suc (suc zero)))))) h = refl
code-digit_char (suc (suc (suc (suc (suc (suc (suc zero))))))) h = refl
code-digit_char (suc (suc (suc (suc (suc (suc (suc (suc zero)))))))) h = refl
code-digit_char (suc (suc (suc (suc (suc (suc (suc (suc (suc zero))))))))) h = refl
code-digit_char (suc (suc (suc (suc (suc (suc (suc (suc (suc (suc d)))))))))) h =
    absurd (omega arith)

codes-spelled : (ds : List ℕ) → All (λ d. d < 10) ds → codes (spelled ds) ≡ map (λ d. 48 + d) ds
codes-spelled [] h = refl
codes-spelled (d ∷ ds) h = rw (code-digit_char d h.0, codes-spelled ds h.1) refl

module _ (digit : ℕ → Option ℕ) (ascii : (d : ℕ) → d < 10 → digit (48 + d) ≡ some d) where
  read_code-digit : (r : Reading) (d : ℕ) → d < 10 → read_code digit r (48 + d) ≡ add_digit r d
  unfolding read_code
  read_code-digit r d h = ground (arith, ascii d h)

  read_digits :
      (negative : Bool) (ds : List ℕ) (n count : ℕ)
      → All (λ d. d < 10) ds
      → foldl (read_code digit) (digits negative n count) (map (λ d. 48 + d) ds)
        ≡ digits negative (value n ds) (count + length ds)
  unfolding value add_digit
  read_digits negative [] n count h = ap (digits negative n) (omega arith)
  read_digits negative (d ∷ ds) n count h =
      ap (λ r. foldl (read_code digit) r (map (λ d. 48 + d) ds))
        (read_code-digit (digits negative n count) d h.0)
      ∙ (read_digits negative ds (n * 10 + d) (count + 1) h.1
          ∙ ap (digits negative (value (n * 10 + d) ds)) (omega arith))

  read_first :
      (negative : Bool) (r : Reading) (ds : List ℕ)
      → ((d : ℕ) → add_digit r d ≡ digits negative d 1)
      → ds ≢ []
      → All (λ d. d < 10) ds
      → foldl (read_code digit) r (map (λ d. 48 + d) ds) ≡ digits negative (value 0 ds) (length ds)
  unfolding value
  read_first negative r [] new full h = absurd (full refl)
  read_first negative r (d ∷ ds) new full h =
      let same : d ≡ 0 * 10 + d = omega arith in
      ap (λ r. foldl (read_code digit) r (map (λ d. 48 + d) ds)) (read_code-digit r d h.0 ∙ new d)
      ∙ (read_digits negative ds d 1 h.1
          ∙ (ap (λ m. digits negative (value m ds) (1 + length ds)) same
              ∙ ap (digits negative (value 0 (d ∷ ds))) (omega arith)))

append_full : (ds : List ℕ) (d : ℕ) → ds ++ d ∷ [] ≢ []
append_full [] d h = cc
append_full (c ∷ ds) d h = cc

decimals_full : (rounds n : ℕ) → decimals rounds n ≢ []
unfolding decimals
decimals_full zero n = λ h. cc
decimals_full (suc rounds) n = elim (Bool-cases (ltb n 10)) [
  | inl small ↦ rw small (λ h. cc)
  | inr large ↦ rw large (append_full (decimals rounds (n / 10)) (n % 10))
]

-- The digits of an integer.
pub decimals_of : ℤ → List ℕ
decimals_of (pos n) = decimals n n
decimals_of (negsuc n) = decimals (suc n) (suc n)

-- `str(n)`
pub written : ℤ → String
written (pos n) = spelled (decimals n n)
written (negsuc n) = String.◌∷◌ (Char.char b'-' tt) (spelled (decimals (suc n) (suc n)))

number-short :
    (negative : Bool) (n count : ℕ)
    → count ≤ max_digits
    → number_of (digits negative n count) ≡ some (if negative then negated n else pos n)
unfolding number_of
number-short negative n count h = ground (arith, h)

-- What `int` makes of the digits of a number, behind the sign that was read.
read_number :
    (digit : ℕ → Option ℕ) (negative : Bool) (r : Reading) (n : ℕ)
    → ((d : ℕ) → d < 10 → digit (48 + d) ≡ some d)
    → ((d : ℕ) → add_digit r d ≡ digits negative d 1)
    → length (decimals n n) ≤ max_digits
    → number_of (foldl (read_code digit) r (codes (spelled (decimals n n))))
      ≡ some (if negative then negated n else pos n)
read_number digit negative r n ascii new h =
    let below = decimals-digits n n (omega arith) in
    ap (λ cs. number_of (foldl (read_code digit) r cs)) (codes-spelled (decimals n n) below)
    ∙ (ap number_of (read_first digit ascii negative r (decimals n n) new (decimals_full n n) below)
        ∙ (number-short negative (value 0 (decimals n n)) (length (decimals n n)) h
            ∙ ap (λ m. some (if negative then negated m else pos m))
                (value-decimals n n (omega arith))))

-- `int` reads back what `str` writes of an integer of at most 4,300 digits.
pub int-written :
    (digit : ℕ → Option ℕ) (k : ℤ)
    → ((d : ℕ) → d < 10 → digit (48 + d) ≡ some d)
    → length (decimals_of k) ≤ max_digits
    → int digit (written k) ≡ some k
unfolding int add_digit read_code negated decimals_of written
int-written digit (pos n) ascii h = read_number digit false blank n ascii (λ d. refl) h
int-written digit (negsuc n) ascii h =
    read_number digit true (signed true) (suc n) ascii (λ d. refl) h

length-decimals : (rounds n : ℕ) → length (decimals rounds n) ≤ rounds + 1
unfolding decimals
length-decimals zero n = omega arith
length-decimals (suc rounds) n = elim (Bool-cases (ltb n 10)) [
  | inl small ↦ rw small (omega arith)
  | inr large ↦ rw large (
      omega (
        arith,
        length-decimals rounds (n / 10),
        length-append (decimals rounds (n / 10)) (n % 10 ∷ []),
      ))
]

-- A number has no more digits than it counts, and one.
pub length-decimals_of : (n : ℕ) → length (decimals_of (pos n)) ≤ n + 1
unfolding decimals_of
length-decimals_of n = length-decimals n n

pub length-decimals_of_negsuc : (n : ℕ) → length (decimals_of (negsuc n)) ≤ n + 2
unfolding decimals_of
length-decimals_of_negsuc n = omega (arith, length-decimals (suc n) (suc n))
