-- ===== src/Store/Artifacts/RoundTrip.antt =====
-- What is read after a put.
use mathlib.Core.Path.{ap₂}
use mcpgate.Prelude.{
  ℕ, ◌+◌, String, ◌≡◌, ◌≢◌, refl, sym, ap, ◌∙◌, Bool, true, false, ◌&&◌, not, Option, none, some,
  List, [], ◌∷◌, ◌++◌, ltb, nat_eq, ◌==◌, ==_iff, ==_refl, ==_ne, length, length-append, select,
  first, if◌then◌else◌, arith, first-append, select-append,
}
use mcpgate.Crypto.{Crypto}
use mcpgate.Store.{Kind, Payload, Artifact, Db}
use mcpgate.Store.Artifacts.{
  kind_eq, put_artifact, is_live, consumed_count, Found, found, take_found, get_artifact,
}

abbrev others : String → List Artifact → List Artifact
others digest rows = select (λ a. not (a.digest == digest)) rows

module _ (digest : String) where
  no_live_other :
      (kind : Kind) (now : ℕ) (rows : List Artifact)
      → first (is_live digest kind now) (others digest rows) ≡ none
  unfolding is_live
  no_live_other kind now [] = refl
  no_live_other kind now (a ∷ rows) = ground (arith, no_live_other kind now rows)

  consumed_count-others : (rows : List Artifact) → consumed_count digest (others digest rows) ≡ 0
  unfolding consumed_count
  consumed_count-others [] = refl
  consumed_count-others (a ∷ rows) = ground (arith, consumed_count-others rows)

  first_live-others :
      (other : String) (kind : Kind) (now : ℕ) (rows : List Artifact)
      → (digest == other) ≡ false
      → first (is_live other kind now) (others digest rows) ≡ first (is_live other kind now) rows
  unfolding is_live
  first_live-others other kind now [] h = refl
  first_live-others other kind now (a ∷ rows) h = ground (
    arith,
    ==_iff a.digest digest,
    ==_iff a.digest other,
    ==_iff digest other,
    first_live-others other kind now rows h,
  )

  count-others :
      (other : String) (rows : List Artifact)
      → (digest == other) ≡ false
      → consumed_count other (others digest rows) ≡ consumed_count other rows
  unfolding consumed_count
  count-others other [] h = refl
  count-others other (a ∷ rows) h = ground (
    arith,
    ==_iff a.digest digest,
    ==_iff a.digest other,
    ==_iff digest other,
    count-others other rows h,
  )

consumed_count-append :
    (digest : String) (xs ys : List Artifact)
    → consumed_count digest (xs ++ ys) ≡ consumed_count digest xs + consumed_count digest ys
unfolding consumed_count
consumed_count-append digest xs ys =
    ap length (select-append (λ (a : Artifact). (a.digest == digest) && not a.consumed) xs ys)
    ∙ length-append (select (λ (a : Artifact). (a.digest == digest) && not a.consumed) xs)
        (select (λ (a : Artifact). (a.digest == digest) && not a.consumed) ys)

-- What a read answers, from the rowcount of its UPDATE and the row that its SELECT found.
abbrev answer : Bool → ℕ → Option Artifact → Option Found
answer consume n none = none
answer false n (some a) = some (found a)
answer true n (some a) = if nat_eq n 1 then some (found a) else none

take_found-answer :
    (digest : String) (consume : Bool) (db : Db) (o : Option Artifact)
    → (take_found digest consume db o).0 ≡ answer consume (consumed_count digest db.artifacts) o
unfolding take_found
take_found-answer digest consume db none = refl
take_found-answer digest false db (some a) = refl
take_found-answer digest true db (some a) = refl

answer_one :
    (consume test : Bool) (a : Artifact)
    → answer consume 1 (if test then some a else none) ≡ (if test then some (found a) else none)
answer_one true true a = refl
answer_one false true a = refl
answer_one true false a = refl
answer_one _ false a = refl

module _ (c : Crypto) (token client_id : String) (kind : Kind) (payload : Payload)
    (expires_at : ℕ) where
  abbrev new_row : Artifact
  new_row = record {
    digest = c.sha256 token;
    kind = kind;
    client_id = client_id;
    payload = payload;
    expires_at = expires_at;
    consumed = false;
    revoked = false;
  }

  new_row_live :
      (wanted : Kind) (now : ℕ)
      → is_live (c.sha256 token) wanted now new_row ≡ (kind_eq kind wanted && ltb now expires_at)
  unfolding is_live
  new_row_live wanted now = rw (==_refl (c.sha256 token))

  new_row_alone : consumed_count (c.sha256 token) (new_row ∷ []) ≡ 1
  unfolding consumed_count
  new_row_alone = rw (==_refl (c.sha256 token))

  new_row_other :
      (digest : String) (wanted : Kind) (now : ℕ)
      → (c.sha256 token == digest) ≡ false
      → (is_live digest wanted now new_row ≡ false) × (consumed_count digest (new_row ∷ []) ≡ 0)
  unfolding is_live consumed_count
  new_row_other digest wanted now h = (rw h, rw h)

  -- After a put, a read of the same token, consuming or not, finds what was put, exactly if it asks for
  -- the kind that was put and comes before the expiry; what the digest stood for before is gone.
  pub get-put_self :
      (wanted : Kind) (consume : Bool) (now : ℕ) (db : Db)
      → (get_artifact c token wanted consume now
          (put_artifact c token kind client_id payload expires_at db)).0
        ≡ (if kind_eq kind wanted && ltb now expires_at
            then some (record { payload = payload; client_id = client_id; expires_at = expires_at })
            else none)
  unfolding get_artifact put_artifact
  get-put_self wanted consume now db =
      let d = c.sha256 token in
      let old = others d db.artifacts in
      take_found-answer d consume _ _
      ∙ rw
          (
            first-append (is_live d wanted now) old (new_row ∷ []),
            no_live_other d wanted now db.artifacts,
            consumed_count-append d old (new_row ∷ []),
            consumed_count-others d db.artifacts,
            new_row_alone,
            new_row_live wanted now,
          )
          (answer_one consume (kind_eq kind wanted && ltb now expires_at) new_row)

  -- A put of one token does not change what a read of a token with another digest finds.
  pub get-put_ne :
      (other : String) (wanted : Kind) (consume : Bool) (now : ℕ) (db : Db)
      → c.sha256 token ≢ c.sha256 other
      → (get_artifact c other wanted consume now
          (put_artifact c token kind client_id payload expires_at db)).0
        ≡ (get_artifact c other wanted consume now db).0
  unfolding get_artifact put_artifact
  get-put_ne other wanted consume now db ne =
      let d = c.sha256 token in
      let o = c.sha256 other in
      let old = others d db.artifacts in
      let differ = ==_ne d o ne in
      let foreign = new_row_other o wanted now differ in
      take_found-answer o consume _ _
      ∙ (ap₂ (answer consume)
            (consumed_count-append o old (new_row ∷ [])
              ∙ omega (arith, foreign.1, count-others d o db.artifacts differ))
            (first-append (is_live o wanted now) old (new_row ∷ [])
              ∙ ground (arith, foreign.0, first_live-others d o wanted now db.artifacts differ))
          ∙ sym (take_found-answer o consume db _))

-- A read that does not consume depends on the artifacts alone.
pub get_artifact-same :
    (c : Crypto) (token : String) (kind : Kind) (now : ℕ) (d e : Db)
    → d.artifacts ≡ e.artifacts
    → (get_artifact c token kind false now d).0 ≡ (get_artifact c token kind false now e).0
unfolding get_artifact
get_artifact-same c token kind now d e h =
    let digest = c.sha256 token in
    take_found-answer digest false d (first (is_live digest kind now) d.artifacts)
    ∙ (ap
          (λ (rows : List Artifact).
            answer false (consumed_count digest rows) (first (is_live digest kind now) rows))
          h
        ∙ sym (take_found-answer digest false e (first (is_live digest kind now) e.artifacts)))
