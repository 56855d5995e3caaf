-- ===== src/Gateway/Validate/Requests.antt =====
-- The five shapes of validated arguments, and that validation fails only by refusing.
use Prim.Native.String.{count}
use mathlib.Core.Path.{subst₂}
use mcpgate.Prelude.{
  String, ◌≡◌, inl, inr, refl, ap, ◌∙◌, subst, Bool, true, false, not, Option, none, some, [], ◌∷◌,
  ℤ, below_one, leb, ◌==◌, ==_iff, contains, lookup, arith, Bool-cases,
}
use mcpgate.Result.{Code, ok, ◌>>◌, refuse_if}
use mcpgate.Value.{Args}
use mcpgate.Gateway.Clean.{Arg, nothing, whole, words, Clean}
use mcpgate.Gateway.Validate.{
  ArgKind, Declared, argument_types, valid_statuses, has_control, is_blank, check_ticket,
  check_status, check_id, check_values, validate_inputs,
}
use mcpgate.Gateway.Validate.Shapes.{
  fits, Matches, validate_inputs-Matches, validate_inputs_checked,
}

-- A text that the store may be given.
abbrev pub IsPlain : String → Type 0
IsPlain s = (leb (count s) 4_000 ≡ true) × (has_control s ≡ false)

abbrev pub PlainOption : Option String → Type 0
PlainOption none = Unit
PlainOption (some s) = IsPlain s

abbrev pub of_words : Option String → Arg
of_words none = nothing
of_words (some s) = words s

abbrev pub of_whole : Option ℤ → Arg
of_whole none = nothing
of_whole (some n) = whole n

-- The arguments of a tool, once validated.
pub data Request (tool : String) (clean : Clean) : Type 0 where
  listing :
      (status : Option String)
      → tool ≡ "list_tickets"
      → clean ≡ ("status", of_words status) ∷ []
      → PlainOption status
      → Request tool clean
  reading :
      (id : ℤ)
      → tool ≡ "get_ticket"
      → clean ≡ ("ticket_id", whole id) ∷ []
      → below_one id ≡ false
      → Request tool clean
  creating :
      (team title body : String)
      → tool ≡ "create_ticket"
      → clean ≡ ("team", words team) ∷ ("title", words title) ∷ ("body", words body) ∷ []
      → IsPlain team × IsPlain title × IsPlain body
      → (is_blank title ≡ false) × (is_blank body ≡ false)
      → Request tool clean
  updating :
      (id : ℤ) (status : String)
      → tool ≡ "update_ticket_status"
      → clean ≡ ("ticket_id", whole id) ∷ ("status", words status) ∷ []
      → contains valid_statuses status ≡ true
      → Request tool clean
  auditing :
      (limit : Option ℤ)
      → tool ≡ "audit_recent"
      → clean ≡ ("limit", of_whole limit) ∷ []
      → Request tool clean

words_of : (a : Arg) → fits ArgKind.text a ≡ true → (s : String) × (a ≡ words s) × IsPlain s
words_of nothing h = cc
words_of (whole n) h = cc
words_of (words s) h = (s, refl, ground arith)

whole_of : (a : Arg) → fits ArgKind.integer a ≡ true → (n : ℤ) × (a ≡ whole n)
whole_of nothing h = cc
whole_of (whole n) h = (n, refl)
whole_of (words s) h = cc

optional_words_of :
    (a : Arg)
    → fits ArgKind.optional_text a ≡ true
    → (o : Option String) × (a ≡ of_words o) × PlainOption o
optional_words_of nothing h = (none, refl, tt)
optional_words_of (whole n) h = cc
optional_words_of (words s) h = (some s, refl, ground arith)

optional_whole_of :
    (a : Arg) → fits ArgKind.optional_integer a ≡ true → (o : Option ℤ) × (a ≡ of_whole o)
optional_whole_of nothing h = (none, refl)
optional_whole_of (whole n) h = (some n, refl)
optional_whole_of (words s) h = cc

-- One declared argument.
one_arg :
    (args : Args) (name : String) (kind : ArgKind) (clean : Clean)
    → Matches args ((name, kind) ∷ []) clean
    → (a : Arg) × (clean ≡ (name, a) ∷ []) × (fits kind a ≡ true)
one_arg args name kind ((k, a) ∷ []) (p, q, r, s) = (a, ap (λ (x : String). (x, a) ∷ []) p, q)
one_arg args name kind ((k, a) ∷ c ∷ clean) (p, q, r, s) = absurd s
one_arg args name kind [] h = absurd h

more_args :
    (args : Args) (name : String) (kind : ArgKind) (declared : Declared) (clean : Clean)
    → Matches args ((name, kind) ∷ declared) clean
    → (a : Arg) × (rest : Clean) × (clean ≡ (name, a) ∷ rest)
      × (fits kind a ≡ true)
      × Matches args declared rest
more_args args name kind declared ((k, a) ∷ rest) (p, q, r, s) =
    (a, rest, ap (λ (x : String). (x, a) ∷ rest) p, q, s)
more_args args name kind declared [] h = absurd h

-- A tool that `ARGUMENT_TYPES` names, with what it declares.
data Known (tool : String) (declared : Declared) : Type 0 where
  lists :
      tool ≡ "list_tickets"
      → declared ≡ ("status", ArgKind.optional_text) ∷ []
      → Known tool declared
  reads : tool ≡ "get_ticket" → declared ≡ ("ticket_id", ArgKind.integer) ∷ [] → Known tool declared
  creates :
      tool ≡ "create_ticket"
      → declared ≡ ("team", ArgKind.text) ∷ ("title", ArgKind.text) ∷ ("body", ArgKind.text) ∷ []
      → Known tool declared
  updates :
      tool ≡ "update_ticket_status"
      → declared ≡ ("ticket_id", ArgKind.integer) ∷ ("status", ArgKind.text) ∷ []
      → Known tool declared
  audits :
      tool ≡ "audit_recent"
      → declared ≡ ("limit", ArgKind.optional_integer) ∷ []
      → Known tool declared

find-Known :
    (tool : String) (declared : Declared)
    → lookup tool argument_types ≡ some declared
    → Known tool declared
find-Known tool declared h = elim (Bool-cases (tool == "list_tickets")) [
  | inl e ↦ lists ((==_iff tool _).0 e) (ground arith)
  | inr a ↦ elim (Bool-cases (tool == "get_ticket")) [
    | inl e ↦ reads ((==_iff tool _).0 e) (ground arith)
    | inr b ↦ elim (Bool-cases (tool == "create_ticket")) [
      | inl e ↦ creates ((==_iff tool _).0 e) (ground arith)
      | inr c ↦ elim (Bool-cases (tool == "update_ticket_status")) [
        | inl e ↦ updates ((==_iff tool _).0 e) (ground arith)
        | inr d ↦ elim (Bool-cases (tool == "audit_recent")) [
          | inl e ↦ audits ((==_iff tool _).0 e) (ground arith)
          | inr f ↦ absurd (ground arith)
        ]
      ]
    ]
  ]
]

required :
    (b : Bool) (code : Code) (clean result : Clean)
    → (refuse_if (not b) code >> ok clean) ≡ ok result
    → b ≡ true
required true code clean result h = refl
required false code clean result h = cc

excluded :
    (b : Bool) (code : Code) (clean result : Clean)
    → (refuse_if b code >> ok clean) ≡ ok result
    → b ≡ false
excluded false code clean result h = refl
excluded true code clean result h = cc

check_creation :
    (team title body : String) (result : Clean)
    → check_values "create_ticket"
        (("team", words team) ∷ ("title", words title) ∷ ("body", words body) ∷ [])
      ≡ ok result
    → (is_blank title ≡ false) × (is_blank body ≡ false)
unfolding check_values check_ticket ◌==◌
check_creation team title body result h = ground arith

check_update :
    (id : ℤ) (status : String) (result : Clean)
    → check_values "update_ticket_status" (("ticket_id", whole id) ∷ ("status", words status) ∷ [])
      ≡ ok result
    → contains valid_statuses status ≡ true
unfolding check_values check_status ◌==◌
check_update id status result h =
    required (contains valid_statuses status) Code.invalid_status _ result h

check_read :
    (id : ℤ) (result : Clean)
    → check_values "get_ticket" (("ticket_id", whole id) ∷ []) ≡ ok result
    → below_one id ≡ false
unfolding check_values check_id ◌==◌
check_read id result h = excluded (below_one id) Code.invalid_argument_type _ result h

request_of :
    (tool : String) (args : Args) (declared : Declared) (clean : Clean)
    → Known tool declared
    → Matches args declared clean
    → check_values tool clean ≡ ok clean
    → Request tool clean
request_of tool args declared clean (lists t d) m k =
    let (a, e, f) =
      one_arg args "status" ArgKind.optional_text clean (subst (λ x. Matches args x clean) d m) in
    let (o, g, plain) = optional_words_of a f in
    listing o t (e ∙ ap (λ (x : Arg). ("status", x) ∷ []) g) plain
request_of tool args declared clean (reads t d) m k =
    let (a, e, f) =
      one_arg args "ticket_id" ArgKind.integer clean (subst (λ x. Matches args x clean) d m) in
    let (n, g) = whole_of a f in
    let shape = e ∙ ap (λ (x : Arg). ("ticket_id", x) ∷ []) g in
    reading n t shape (check_read n clean (subst₂ (λ x y. check_values x y ≡ ok clean) t shape k))
request_of tool args declared clean (creates t d) m k =
    let (a, ra, ea, fa, ma) =
      more_args args "team" ArgKind.text (("title", ArgKind.text) ∷ ("body", ArgKind.text) ∷ [])
        clean (subst (λ x. Matches args x clean) d m) in
    let (b, rb, eb, fb, mb) =
      more_args args "title" ArgKind.text (("body", ArgKind.text) ∷ []) ra ma in
    let (c, ec, fc) = one_arg args "body" ArgKind.text rb mb in
    let (team, ga, pa) = words_of a fa in
    let (title, gb, pb) = words_of b fb in
    let (body, gc, pc) = words_of c fc in
    let shape : clean ≡ ("team", words team) ∷ ("title", words title) ∷ ("body", words body) ∷ [] =
      cc in
    creating team title body t shape (pa, pb, pc)
      (check_creation team title body clean (subst₂ (λ x y. check_values x y ≡ ok clean) t shape k))
request_of tool args declared clean (updates t d) m k =
    let (a, ra, ea, fa, ma) =
      more_args args "ticket_id" ArgKind.integer (("status", ArgKind.text) ∷ []) clean
        (subst (λ x. Matches args x clean) d m) in
    let (b, eb, fb) = one_arg args "status" ArgKind.text ra ma in
    let (n, ga) = whole_of a fa in
    let (status, gb, pb) = words_of b fb in
    let shape : clean ≡ ("ticket_id", whole n) ∷ ("status", words status) ∷ [] = cc in
    updating n status t shape
      (check_update n status clean (subst₂ (λ x y. check_values x y ≡ ok clean) t shape k))
request_of tool args declared clean (audits t d) m k =
    let (a, e, f) =
      one_arg args "limit" ArgKind.optional_integer clean (subst (λ x. Matches args x clean) d m) in
    let (o, g) = optional_whole_of a f in auditing o t (e ∙ ap (λ (x : Arg). ("limit", x) ∷ []) g)

-- Arguments that pass validation are a request to one of the five tools: texts of at most 4,000
-- characters without control characters, a new ticket's title and body not blank, a new status one of
-- the five, an id to read at least 1.
pub validate_inputs-Request :
    (tool : String) (args : Args) (clean : Clean)
    → validate_inputs tool args ≡ ok clean
    → Request tool clean
validate_inputs-Request tool args clean h =
    let (declared, known, names, m) = validate_inputs-Matches tool args clean h in
    request_of tool args declared clean (find-Known tool declared known) m
      (validate_inputs_checked tool args clean h)
