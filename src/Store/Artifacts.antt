-- ===== src/Store/Artifacts.antt =====
-- The oauth_artifacts table: `digest`, `put_artifact`, `get_artifact`, `revoke_artifact`.
pub mod Spent
pub mod RoundTrip
pub mod Vault
pub mod Frame
use mcpgate.Prelude.{
  ℕ, String, Bool, true, false, ◌&&◌, not, Option, none, some, List, [], ◌∷◌, ◌++◌, ltb, nat_eq,
  ◌==◌, length, select, first, if◌then◌else◌,
}
use mcpgate.Crypto.{Crypto}
use mcpgate.Store.{Kind, authorization_code, refresh_token, access_token, Payload, Artifact, Db}

abbrev pub kind_eq : Kind → Kind → Bool
kind_eq authorization_code authorization_code = true
kind_eq refresh_token refresh_token = true
kind_eq access_token access_token = true
kind_eq _ _ = false

-- `digest` is the primary key: INSERT OR REPLACE takes the place of a row that has it.
unfoldable pub put_artifact : Crypto → String → Kind → String → Payload → ℕ → Db → Db
put_artifact c token kind client_id payload expires_at db = record db {
  artifacts =
      select (λ a. not (a.digest == c.sha256 token)) db.artifacts
      ++ record {
        digest = c.sha256 token;
        kind = kind;
        client_id = client_id;
        payload = payload;
        expires_at = expires_at;
        consumed = false;
        revoked = false;
      }
        ∷ [];
}

-- `digest=? AND kind=? AND revoked=0 AND consumed=0 AND expires_at>?`
pub is_live : String → Kind → ℕ → Artifact → Bool
is_live digest kind now a =
    (a.digest == digest)
    && (kind_eq a.kind kind && (not a.revoked && (not a.consumed && ltb now a.expires_at)))

-- `UPDATE oauth_artifacts SET consumed=1 WHERE digest=? AND consumed=0`
pub consume_rows : String → List Artifact → List Artifact
consume_rows digest [] = []
consume_rows digest (a ∷ rows) =
    (if (a.digest == digest) && not a.consumed then record a { consumed = true } else a)
    ∷ consume_rows digest rows

-- The rowcount of that UPDATE.
pub consumed_count : String → List Artifact → ℕ
consumed_count digest rows = length (select (λ a. (a.digest == digest) && not a.consumed) rows)

-- The payload, updated by `client_id` and `expires_at`.
pub record Found : Type 0 where
  pub payload : Payload
  pub client_id : String
  pub expires_at : ℕ

abbrev found : Artifact → Found
found a = record { payload = a.payload; client_id = a.client_id; expires_at = a.expires_at }

take_found : String → Bool → Db → Option Artifact → Option Found × Db
take_found digest consume db none = (none, db)
take_found digest false db (some a) = (some (found a), db)
take_found digest true db (some a) = (
  if nat_eq (consumed_count digest db.artifacts) 1 then some (found a) else none,
  record db { artifacts = consume_rows digest db.artifacts },
)

unfoldable pub get_artifact : Crypto → String → Kind → Bool → ℕ → Db → Option Found × Db
unfolding take_found is_live consume_rows consumed_count
get_artifact c token kind consume now db =
    take_found (c.sha256 token) consume db (first (is_live (c.sha256 token) kind now) db.artifacts)

-- `UPDATE oauth_artifacts SET revoked=1 WHERE digest=?`
pub revoke_rows : String → List Artifact → List Artifact
revoke_rows digest [] = []
revoke_rows digest (a ∷ rows) =
    (if a.digest == digest then record a { revoked = true } else a) ∷ revoke_rows digest rows

unfoldable pub revoke_artifact : Crypto → String → Db → Db
unfolding revoke_rows
revoke_artifact c token db = record db { artifacts = revoke_rows (c.sha256 token) db.artifacts }
