-- ===== src/Auth/Words.antt =====
-- Python's `str.split()` and `" ".join(words)`, as the program uses them on scopes.
use Prim.Native.Char.{code}
use Prim.Native.String.{String}
use text.Mathlib.TextLemmas.{nil-append, append-nil, cons-append, append_assoc}
use mcpgate.Prelude.{
  ◌≡◌, refl, sym, ap, ◌∙◌, Bool, false, List, [], ◌∷◌, ◌==◌, All, arith, if◌then◌else◌, ◌||◌,
}
use mcpgate.Gateway.Validate.{codes, any_code, is_space}
use Prim.Native.String.{◌++◌ as text_append}

-- A word that is complete, unless it is empty.
closing : String → List String → List String
closing word rest = if word == "" then rest else word ∷ rest

-- What is left of the text, after the letters of a word.
split_from : String → String → List String
unfolding closing
split_from word String.[] = closing word []
split_from word (String.◌∷◌ c s) =
    let closed = closing word (split_from "" s) in
    let longer = split_from (text_append word (String.◌∷◌ c String.[])) s in
    if is_space (code c) then closed else longer

unfoldable pub split : String → List String
unfolding split_from
split s = split_from "" s

unfoldable pub join : List String → String
join [] = ""
join (w ∷ []) = w
join (w ∷ v ∷ words) = text_append w (text_append " " (join (v ∷ words)))

-- Not empty, and without white space.
abbrev pub IsWord : String → Type 0
IsWord w = ((w == "") ≡ false) × (any_code is_space (codes w) ≡ false)

not_space : (a b : Bool) → (a || b) ≡ false → (a ≡ false) × (b ≡ false)
not_space a b h = ground (arith, h)

split_from-append :
    (w word rest : String)
    → any_code is_space (codes w) ≡ false
    → split_from word (text_append w rest) ≡ split_from (text_append word w) rest
unfolding split_from
split_from-append String.[] word rest h = rw (nil-append rest, append-nil word) refl
split_from-append (String.◌∷◌ c w) word rest h =
    let (plain, others) = not_space (is_space (code c)) (any_code is_space (codes w)) h in
    rw (cons-append c w rest, plain)
      (split_from-append w (text_append word (String.◌∷◌ c String.[])) rest others
        ∙ ap (λ x. split_from x rest)
            (append_assoc word (String.◌∷◌ c String.[]) w
              ∙ ap (text_append word)
                  (cons-append c String.[] w ∙ ap (String.◌∷◌ c) (nil-append w))))

split_from-word : (w : String) → IsWord w → split_from "" w ≡ w ∷ []
unfolding split_from closing
split_from-word w (full, plain) =
    ap (split_from "") (sym (append-nil w))
    ∙ (split_from-append w "" "" plain ∙ rw (nil-append w, full) refl)

split_from-space :
    (w rest : String)
    → IsWord w
    → split_from "" (text_append w (text_append " " rest)) ≡ w ∷ split_from "" rest
unfolding split_from closing is_space
split_from-space w rest (full, plain) =
    split_from-append w "" (text_append " " rest) plain
    ∙ rw (nil-append w) rw (cons-append " " String.[] rest, nil-append rest, full) refl

-- Scopes survive the text they are written in: words without white space, joined by spaces, are what
-- `split` gives back.
pub split-join : (words : List String) → All IsWord words → split (join words) ≡ words
unfolding split join ◌==◌
split-join [] h = refl
split-join (w ∷ []) h = split_from-word w h.0
split-join (w ∷ v ∷ words) h =
    split_from-space w (join (v ∷ words)) h.0
    ∙ ap (λ (l : List String). w ∷ l) (split-join (v ∷ words) h.1)
