-- ===== src/Store/Artifacts/Vault/Refines.antt =====
-- The artifacts table does what the vault promises.
use mathlib.Core.Path.{ap₂}
use mcpgate.Prelude.{
  ℕ, String, ◌≡◌, refl, ap, ◌∙◌, subst, Bool, true, false, not, Option, none, some, List, [], ◌∷◌,
  ◌==◌, ==_iff, select, first, arith, if◌then◌else◌, first-append,
}
use mcpgate.Crypto.{Crypto}
use mcpgate.Store.{Kind, Payload, Artifact, Db}
use mcpgate.Store.Artifacts.{
  put_artifact, is_live, Found, found, take_found, get_artifact, revoke_artifact,
}
use mcpgate.Store.Artifacts.Vault.{
  Use, put, get, revoke, perform, Vault, offered, emptied, promise, answers, promises, is_open,
  slot_of, vault_of,
}
use mcpgate.Store.Artifacts.Vault.Rows.{
  accepted, first_live, count_live, open-consume_rows, open-revoke_rows, open-others,
}
use mcpgate.Store.Artifacts.Vault.Unique.{IsUnique, perform-IsUnique}

slot_of-if :
    (b : Bool) (o : Option Artifact)
    → slot_of (if b then none else o) ≡ (if b then none else slot_of o)
slot_of-if b o = ground arith

handed : Option Artifact → Option Found
handed none = none
handed (some a) = some (found a)

-- A step of the table and one of the vault agree: in the answer, and in what is left.
abbrev Agrees : Option Found × Db → Option Found × Vault → Type 0
Agrees (f, db) (f', v) = (f ≡ f') × (vault_of db ≡ v)

module _ (c : Crypto) (db : Db) where
  put-Agrees :
      (token client_id : String) (kind : Kind) (payload : Payload) (expires_at : ℕ)
      → let u = put token kind client_id payload expires_at in
        Agrees (perform c u db) (promise c u (vault_of db))
  unfolding put_artifact
  put-Agrees token client_id kind payload expires_at = (refl, λ i d. at d i)
    where
      at :
          (d : String)
          → vault_of (put_artifact c token kind client_id payload expires_at db) d
            ≡ (promise c (put token kind client_id payload expires_at) (vault_of db)).1 d
      at d = ground (
        arith,
        first-append (is_open d) (select (λ a. not (a.digest == c.sha256 token)) db.artifacts) (
            record {
              digest = c.sha256 token;
              kind = kind;
              client_id = client_id;
              payload = payload;
              expires_at = expires_at;
              consumed = false;
              revoked = false;
            }
            ∷ []),
        open-others (c.sha256 token) d db.artifacts,
        ==_iff d (c.sha256 token),
        ==_iff (c.sha256 token) d,
      )

  revoke-Agrees :
      (token : String)
      → Agrees (perform c (revoke token) db) (promise c (revoke token) (vault_of db))
  unfolding revoke_artifact
  revoke-Agrees token =
      let digest = c.sha256 token in
      (
        refl,
        λ i d.
            (ap slot_of (open-revoke_rows digest d db.artifacts)
                ∙ slot_of-if (d == digest) (first (is_open d) db.artifacts))
              i,
      )

  found_accepted :
      (kind : Kind) (now : ℕ) (o : Option Artifact)
      → handed (accepted kind now o) ≡ offered kind now (slot_of o)
  unfolding accepted handed
  found_accepted kind now none = refl
  found_accepted kind now (some a) = ground arith

  taken-Agrees :
      (digest : String) (kind : Kind) (consume : Bool) (now : ℕ) (o : Option Artifact)
      → IsUnique db.artifacts
      → first (is_live digest kind now) db.artifacts ≡ o
      → Agrees
          (take_found digest consume db o)
          (handed o, emptied digest consume (handed o) (vault_of db))
  unfolding take_found handed
  taken-Agrees digest kind consume now none h e = (refl, refl)
  taken-Agrees digest kind false now (some a) h e = (refl, refl)
  taken-Agrees digest kind true now (some a) h e = (
    rw (count_live digest kind now db.artifacts a h e),
    λ i d.
        (ap slot_of (open-consume_rows digest d db.artifacts)
            ∙ slot_of-if (d == digest) (first (is_open d) db.artifacts))
          i,
  )

  get-Agrees :
      (token : String) (kind : Kind) (consume : Bool) (now : ℕ)
      → IsUnique db.artifacts
      → Agrees
          (perform c (get token kind consume now) db)
          (promise c (get token kind consume now) (vault_of db))
  unfolding get_artifact
  get-Agrees token kind consume now h =
      let digest = c.sha256 token in
      subst
        (λ f.
          Agrees (perform c (get token kind consume now) db)
            (f, emptied digest consume f (vault_of db)))
        (ap handed (first_live digest kind now db.artifacts h)
          ∙ found_accepted kind now (first (is_open digest) db.artifacts))
        (taken-Agrees digest kind consume now _ h refl)

perform-Agrees :
    (c : Crypto) (u : Use) (db : Db)
    → IsUnique db.artifacts
    → Agrees (perform c u db) (promise c u (vault_of db))
perform-Agrees c (put token kind client_id payload expires_at) db h =
    put-Agrees c db token client_id kind payload expires_at
perform-Agrees c (get token kind consume now) db h = get-Agrees c db token kind consume now h
perform-Agrees c (revoke token) db h = revoke-Agrees c db token

-- The artifacts table keeps the promise of a vault that holds an artifact under its digest until it is
-- consumed or revoked and then forgets it: any sequence of puts, reads and revocations, with any tokens,
-- kinds and times, gets from the table the answers that it gets from the vault that the table stands
-- for, if no two rows have the same digest at the start.
pub answers-promises :
    (c : Crypto) (uses : List Use) (db : Db)
    → IsUnique db.artifacts
    → answers c uses db ≡ promises c uses (vault_of db)
answers-promises c [] db h = refl
answers-promises c (u ∷ uses) db h =
    let (same, left) = perform-Agrees c u db h in
    ap₂ (λ f l. f ∷ l) same
      (answers-promises c uses (perform c u db).1 (perform-IsUnique c u db h)
        ∙ ap (promises c uses) left)
