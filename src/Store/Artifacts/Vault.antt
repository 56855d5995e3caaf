-- ===== src/Store/Artifacts/Vault.antt =====
-- What the artifacts table promises: a vault that holds an artifact under a digest until it is spent.
pub mod Unique
pub mod Rows
pub mod Refines
use mcpgate.Prelude.{
  ℕ, String, Bool, true, false, ◌&&◌, not, Option, none, some, List, [], ◌∷◌, ltb, ◌==◌, first,
  if◌then◌else◌,
}
use mcpgate.Crypto.{Crypto}
use mcpgate.Store.{Kind, Payload, Artifact, Db}
use mcpgate.Store.Artifacts.{kind_eq, put_artifact, Found, get_artifact, revoke_artifact}

-- A use of the table.
pub data Use : Type 0 where
  put :
      (token : String) (kind : Kind) (client_id : String) (payload : Payload) (expires_at : ℕ) → Use
  get : (token : String) (kind : Kind) (consume : Bool) (now : ℕ) → Use
  revoke : (token : String) → Use

-- It, on the database. Only a read answers.
abbrev pub perform : Crypto → Use → Db → Option Found × Db
perform c (put token kind client_id payload expires_at) db =
    (none, put_artifact c token kind client_id payload expires_at db)
perform c (get token kind consume now) db = get_artifact c token kind consume now db
perform c (revoke token) db = (none, revoke_artifact c token db)

-- An artifact that can still be used, and the vault of them. A spent one is not there.
pub record Slot : Type 0 where
  pub kind : Kind
  pub found : Found

abbrev pub Vault : Type 0
Vault = String → Option Slot

abbrev pub deposit : String → Slot → Vault → Vault
deposit digest slot v d = if d == digest then some slot else v d

abbrev pub withdraw : String → Vault → Vault
withdraw digest v d = if d == digest then none else v d

-- A slot, for a reader who wants the kind at the time.
abbrev pub offered : Kind → ℕ → Option Slot → Option Found
offered kind now none = none
offered kind now (some slot) =
    if kind_eq slot.kind kind && ltb now slot.found.expires_at then some slot.found else none

-- A read empties the slot if it consumes and finds.
abbrev pub emptied : String → Bool → Option Found → Vault → Vault
emptied digest consume none v = v
emptied digest true (some f) v = withdraw digest v
emptied digest false (some f) v = v

-- A use, on the vault.
abbrev pub promise : Crypto → Use → Vault → Option Found × Vault
promise c (put token kind client_id payload expires_at) v = (
  none,
  deposit (c.sha256 token)
      (record {
        kind = kind;
        found = record { payload = payload; client_id = client_id; expires_at = expires_at };
      })
      v,
)
promise c (get token kind consume now) v =
    let f = offered kind now (v (c.sha256 token)) in (f, emptied (c.sha256 token) consume f v)
promise c (revoke token) v = (none, withdraw (c.sha256 token) v)

-- The answers of the uses, one after the other: of the table, and of the vault.
abbrev pub answers : Crypto → List Use → Db → List (Option Found)
answers c [] db = []
answers c (u ∷ uses) db = (perform c u db).0 ∷ answers c uses (perform c u db).1

abbrev pub promises : Crypto → List Use → Vault → List (Option Found)
promises c [] v = []
promises c (u ∷ uses) v = (promise c u v).0 ∷ promises c uses (promise c u v).1

-- A row that is not spent.
abbrev pub is_open : String → Artifact → Bool
is_open digest a = (a.digest == digest) && (not a.revoked && not a.consumed)

abbrev pub slot_of : Option Artifact → Option Slot
slot_of none = none
slot_of (some a) = some (record {
  kind = a.kind;
  found = record { payload = a.payload; client_id = a.client_id; expires_at = a.expires_at };
})

-- The vault that a table stands for.
abbrev pub vault_of : Db → Vault
vault_of db digest = slot_of (first (is_open digest) db.artifacts)
