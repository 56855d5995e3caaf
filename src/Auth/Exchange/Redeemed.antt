-- ===== src/Auth/Exchange/Redeemed.antt =====
-- A code that its client exchanges in time.
use mcpgate.Prelude.{ℕ, String, ◌≡◌, ap, ◌∙◌, true, Option, some, ==_iff}
use mcpgate.Store.{authorization_code, Db}
use mcpgate.Store.Artifacts.{Found, get_artifact}
use mcpgate.Auth.Types.{Provider, ClientInfo}
use mcpgate.Auth.Issue.{Draw, issue_pair}
use mcpgate.Auth.Issue.Keeps.{issue_pair-SameTables}
use mcpgate.Store.Artifacts.Frame.{SameTables, SameTables-trans, get_artifact-SameTables}
use mcpgate.Auth.Exchange.{redeem_code, issue_for_code, exchange_authorization_code}

module _ (p : Provider) (client : ClientInfo) (d : Draw) where
  redeem_own :
      (f : Found) (resource : String) (db : Db)
      → f.client_id ≡ client.client_id
      → f.payload.resource ≡ some resource
      → redeem_code p client d (some f, db)
        ≡ issue_pair p f.client_id f.payload.scopes resource d db
  unfolding redeem_code issue_for_code
  redeem_own f resource db own named = rw ((==_iff f.client_id client.client_id).1 own, named)

  -- A code that is found, the client's own and for a resource, is exchanged for a pair of tokens with its
  -- scopes.
  pub exchange-found :
      (code : String) (t : ℕ) (db : Db) (f : Found) (resource : String)
      → (get_artifact p.crypto code authorization_code true t db).0 ≡ some f
      → f.client_id ≡ client.client_id
      → f.payload.resource ≡ some resource
      → exchange_authorization_code p client code t d db
        ≡ issue_pair p f.client_id f.payload.scopes resource d
            (get_artifact p.crypto code authorization_code true t db).1
  unfolding exchange_authorization_code
  exchange-found code t db f resource found own named =
      let left = (get_artifact p.crypto code authorization_code true t db).1 in
      ap (λ (o : Option Found). redeem_code p client d (o, left)) found
      ∙ redeem_own f resource left own named

  -- Such an exchange writes to the artifacts' table alone.
  pub exchange-SameTables :
      (code : String) (t : ℕ) (db : Db) (f : Found) (resource : String)
      → (get_artifact p.crypto code authorization_code true t db).0 ≡ some f
      → f.client_id ≡ client.client_id
      → f.payload.resource ≡ some resource
      → SameTables db (exchange_authorization_code p client code t d db).1
  exchange-SameTables code t db f resource found own named =
      rw (exchange-found code t db f resource found own named) (
        SameTables-trans (get_artifact-SameTables p.crypto code authorization_code true t db) (
          issue_pair-SameTables p f.client_id d
            (get_artifact p.crypto code authorization_code true t db).1 f.payload.scopes resource))
