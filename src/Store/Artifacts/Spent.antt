-- ===== src/Store/Artifacts/Spent.antt =====
-- Codes and tokens are single-use: what happens to an artifact when it is put, read, consumed, revoked.
use mcpgate.Prelude.{
  ℕ, String, ◌≡◌, refl, Bool, true, false, ◌&&◌, not, Option, none, some, List, [], ◌∷◌, ◌==◌,
  select, first, arith, ◌||◌, All, All-append, All-select,
}
use mcpgate.Crypto.{Crypto}
use mcpgate.Store.{Kind, Payload, Artifact, Db}
use mcpgate.Store.Artifacts.{
  kind_eq, put_artifact, is_live, consume_rows, Found, take_found, get_artifact, revoke_rows,
  revoke_artifact,
}

-- A row that is not readable under the digest as an artifact of the kind: it has another digest or
-- kind, or is consumed or revoked.
spent_row : String → Kind → Artifact → Bool
spent_row digest kind a =
    not (a.digest == digest) || (not (kind_eq a.kind kind) || (a.consumed || a.revoked))

-- No row is.
abbrev AllSpent : String → Kind → List Artifact → Type 0
unfolding spent_row
AllSpent digest kind rows = All (λ a. spent_row digest kind a ≡ true) rows

first_spent :
    (digest : String) (kind : Kind) (now : ℕ) (rows : List Artifact)
    → AllSpent digest kind rows
    → first (is_live digest kind now) rows ≡ none
unfolding is_live spent_row
first_spent digest kind now [] h = refl
first_spent digest kind now (a ∷ rows) h = ground (arith, first_spent digest kind now rows h.1)

spent_consume :
    (digest : String) (kind : Kind) (rows : List Artifact)
    → AllSpent digest kind (consume_rows digest rows)
unfolding consume_rows spent_row
spent_consume digest kind [] = tt
spent_consume digest kind (a ∷ rows) = (ground arith, spent_consume digest kind rows)

spent_revoke :
    (digest : String) (kind : Kind) (rows : List Artifact)
    → AllSpent digest kind (revoke_rows digest rows)
unfolding revoke_rows spent_row
spent_revoke digest kind [] = tt
spent_revoke digest kind (a ∷ rows) = (ground arith, spent_revoke digest kind rows)

consume-AllSpent :
    (digest other : String) (kind : Kind) (rows : List Artifact)
    → AllSpent digest kind rows
    → AllSpent digest kind (consume_rows other rows)
unfolding consume_rows spent_row
consume-AllSpent digest kind other [] h = tt
consume-AllSpent digest kind other (a ∷ rows) h =
    (ground arith, consume-AllSpent digest kind other rows h.1)

revoke-AllSpent :
    (digest other : String) (kind : Kind) (rows : List Artifact)
    → AllSpent digest kind rows
    → AllSpent digest kind (revoke_rows other rows)
unfolding revoke_rows spent_row
revoke-AllSpent digest kind other [] h = tt
revoke-AllSpent digest kind other (a ∷ rows) h =
    (ground arith, revoke-AllSpent digest kind other rows h.1)

module _ (c : Crypto) (digest : String) (kind : Kind) where
  -- One use of the table: a put of an artifact with another digest or of another kind, a read of any
  -- token, a revocation; a change of another table.
  pub data Step (db : Db) : Db → Type 0 where
    put :
        (token : String) (k : Kind) (client_id : String) (payload : Payload) (expires_at : ℕ)
        → ((c.sha256 token == digest) && kind_eq k kind) ≡ false
        → Step db (put_artifact c token k client_id payload expires_at db)
    get :
        (token : String) (k : Kind) (consume : Bool) (now : ℕ)
        → Step db (get_artifact c token k consume now db).1
    revoke : (token : String) → Step db (revoke_artifact c token db)
    elsewhere : (db' : Db) → db'.artifacts ≡ db.artifacts → Step db db'

  pub data Later (db : Db) : Db → Type 0 where
    at_once : Later db db
    then_step : {d e : Db} → Later db d → Step d e → Later db e

module _ (c : Crypto) (digest : String) (kind : Kind) where
  take_found-AllSpent :
      (other : String) (consume : Bool) (db : Db) (o : Option Artifact)
      → AllSpent digest kind db.artifacts
      → AllSpent digest kind (take_found other consume db o).1.artifacts
  unfolding take_found
  take_found-AllSpent other consume db none h = h
  take_found-AllSpent other false db (some a) h = h
  take_found-AllSpent other true db (some a) h = consume-AllSpent digest other kind db.artifacts h

  Step-AllSpent :
      {d e : Db}
      → Step c digest kind d e
      → AllSpent digest kind d.artifacts
      → AllSpent digest kind e.artifacts
  unfolding put_artifact get_artifact revoke_artifact spent_row
  Step-AllSpent {d} (put token k client_id payload expires_at fresh) h =
      All-append _ (select (λ a. not (a.digest == c.sha256 token)) d.artifacts) _
        (All-select _ (λ a. not (a.digest == c.sha256 token)) d.artifacts h)
        (ground (arith, fresh), tt)
  Step-AllSpent {d} (get token k consume now) h = take_found-AllSpent (c.sha256 token) consume d _ h
  Step-AllSpent {d} (revoke token) h = revoke-AllSpent digest (c.sha256 token) kind d.artifacts h
  Step-AllSpent (elsewhere db' e) h = rw e h

  Later-AllSpent :
      {d e : Db}
      → Later c digest kind d e
      → AllSpent digest kind d.artifacts
      → AllSpent digest kind e.artifacts
  Later-AllSpent at_once h = h
  Later-AllSpent (then_step l s) h = Step-AllSpent s (Later-AllSpent l h)

taken_spent :
    (digest : String) (kind : Kind) (db : Db) (o : Option Artifact) (f : Found)
    → (take_found digest true db o).0 ≡ some f
    → AllSpent digest kind (take_found digest true db o).1.artifacts
unfolding take_found
taken_spent digest kind db none f h = cc
taken_spent digest kind db (some a) f h = spent_consume digest kind db.artifacts

module _ (c : Crypto) (token : String) (kind : Kind) where
  unreadable :
      (consume : Bool) (now : ℕ) (db : Db)
      → AllSpent (c.sha256 token) kind db.artifacts
      → get_artifact c token kind consume now db ≡ (none, db)
  unfolding get_artifact take_found
  unreadable consume now db h = rw (first_spent (c.sha256 token) kind now db.artifacts h)

  -- An artifact is consumed once: after a consuming read that found it, a later read of the token for
  -- its kind finds nothing and changes nothing, at whatever time, as long as no new artifact of the kind
  -- and the digest is put.
  pub consumed_once :
      (consume : Bool) (now now' : ℕ) (db later : Db) (f : Found)
      → (get_artifact c token kind true now db).0 ≡ some f
      → Later c (c.sha256 token) kind (get_artifact c token kind true now db).1 later
      → get_artifact c token kind consume now' later ≡ (none, later)
  unfolding get_artifact
  consumed_once consume now now' db later f h l =
      unreadable consume now' later
        (Later-AllSpent c (c.sha256 token) kind l (taken_spent (c.sha256 token) kind db _ f h))

  -- A revoked token is never found again: a later read of it for the kind finds nothing and changes
  -- nothing, as long as no new artifact of the kind and its digest is put.
  pub revoked_forever :
      (consume : Bool) (now : ℕ) (db later : Db)
      → Later c (c.sha256 token) kind (revoke_artifact c token db) later
      → get_artifact c token kind consume now later ≡ (none, later)
  unfolding revoke_artifact
  revoked_forever consume now db later l =
      unreadable consume now later
        (Later-AllSpent c (c.sha256 token) kind l (spent_revoke (c.sha256 token) kind db.artifacts))
