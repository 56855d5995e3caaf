-- ===== src/Store/Artifacts/Vault/Unique.antt =====
-- The digest is the table's primary key, under every use.
use mcpgate.Prelude.{
  String, ◌≡◌, refl, Bool, true, false, not, none, List, [], ◌∷◌, ◌++◌, ◌==◌, ==_iff, select, first,
  arith, first-append, Option, some,
}
use mcpgate.Crypto.{Crypto}
use mcpgate.Store.{Artifact, Db}
use mcpgate.Store.Artifacts.{
  put_artifact, get_artifact, take_found, consume_rows, revoke_rows, revoke_artifact,
}
use mcpgate.Store.Artifacts.Vault.{Use, put, get, revoke, perform}

abbrev pub has_digest : String → Artifact → Bool
has_digest digest a = a.digest == digest

-- No two rows have the same digest.
abbrev pub IsUnique : List Artifact → Type 0
IsUnique [] = Unit
IsUnique (a ∷ rows) = (first (has_digest a.digest) rows ≡ none) × IsUnique rows

absent-select :
    (digest : String) (p : Artifact → Bool) (rows : List Artifact)
    → first (has_digest digest) rows ≡ none
    → first (has_digest digest) (select p rows) ≡ none
absent-select digest p [] h = refl
absent-select digest p (a ∷ rows) h = ground (arith, absent-select digest p rows)

absent-consume_rows :
    (digest other : String) (rows : List Artifact)
    → first (has_digest digest) rows ≡ none
    → first (has_digest digest) (consume_rows other rows) ≡ none
unfolding consume_rows
absent-consume_rows digest other [] h = refl
absent-consume_rows digest other (a ∷ rows) h =
    ground (arith, absent-consume_rows digest other rows)

absent-revoke_rows :
    (digest other : String) (rows : List Artifact)
    → first (has_digest digest) rows ≡ none
    → first (has_digest digest) (revoke_rows other rows) ≡ none
unfolding revoke_rows
absent-revoke_rows digest other [] h = refl
absent-revoke_rows digest other (a ∷ rows) h = ground (arith, absent-revoke_rows digest other rows)

absent-others :
    (digest : String) (rows : List Artifact)
    → first (has_digest digest) (select (λ a. not (a.digest == digest)) rows) ≡ none
absent-others digest [] = refl
absent-others digest (a ∷ rows) = ground (arith, absent-others digest rows)

IsUnique-select :
    (p : Artifact → Bool) (rows : List Artifact) → IsUnique rows → IsUnique (select p rows)
IsUnique-select p [] h = tt
IsUnique-select p (a ∷ rows) h =
    ground (arith, IsUnique-select p rows h.1, absent-select a.digest p rows h.0)

IsUnique-append :
    (rows : List Artifact) (a : Artifact)
    → IsUnique rows
    → first (has_digest a.digest) rows ≡ none
    → IsUnique (rows ++ a ∷ [])
IsUnique-append [] a h k = (refl, tt)
IsUnique-append (b ∷ rows) a h k = (
  ground (
    arith,
    ==_iff a.digest b.digest,
    ==_iff b.digest a.digest,
    first-append (has_digest b.digest) rows (a ∷ []),
  ),
  IsUnique-append rows a h.1 (ground arith),
)

IsUnique-consume_rows :
    (digest : String) (rows : List Artifact) → IsUnique rows → IsUnique (consume_rows digest rows)
unfolding consume_rows
IsUnique-consume_rows digest [] h = tt
IsUnique-consume_rows digest (a ∷ rows) h =
    ground
      (arith, IsUnique-consume_rows digest rows h.1, absent-consume_rows a.digest digest rows h.0)

IsUnique-revoke_rows :
    (digest : String) (rows : List Artifact) → IsUnique rows → IsUnique (revoke_rows digest rows)
unfolding revoke_rows
IsUnique-revoke_rows digest [] h = tt
IsUnique-revoke_rows digest (a ∷ rows) h =
    ground
      (arith, IsUnique-revoke_rows digest rows h.1, absent-revoke_rows a.digest digest rows h.0)

-- Every use keeps the digests distinct.
pub perform-IsUnique :
    (c : Crypto) (u : Use) (db : Db) → IsUnique db.artifacts → IsUnique (perform c u db).1.artifacts
unfolding put_artifact get_artifact take_found revoke_artifact
perform-IsUnique c (put token kind client_id payload expires_at) db h =
    IsUnique-append (select (λ a. not (a.digest == c.sha256 token)) db.artifacts) _
      (IsUnique-select _ db.artifacts h) (absent-others (c.sha256 token) db.artifacts)
perform-IsUnique c (get token kind consume now) db h = go consume _
  where
    go :
        (consume' : Bool) (o : Option Artifact)
        → IsUnique (take_found (c.sha256 token) consume' db o).1.artifacts
    go consume' none = h
    go false (some a) = h
    go true (some a) = IsUnique-consume_rows (c.sha256 token) db.artifacts h
perform-IsUnique c (revoke token) db h = IsUnique-revoke_rows (c.sha256 token) db.artifacts h
