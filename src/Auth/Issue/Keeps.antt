-- ===== src/Auth/Issue/Keeps.antt =====
-- What issuing tokens leaves alone.
use mcpgate.Prelude.{Bool, true, false, String, refl, Option, none, some, List}
use mcpgate.Policy
use mcpgate.Policy.{ClientPolicy, Permission, granted, denied}
use mcpgate.Policy.Order.{sorted_set}
use mcpgate.Store.{Db}
use mcpgate.Store.Artifacts.{put_artifact}
use mcpgate.Store.Artifacts.Frame.{SameTables}
use mcpgate.Auth.Types.{Provider, or_scopes}
use mcpgate.Auth.Issue.{
  Draw, issue_to, issue_pair, issue_with, with_secret, compare_digest, credentialed,
  issue_for_client,
}

SameTables-refl : (db : Db) → SameTables db db
SameTables-refl db = record { tickets = refl; last_ticket_id = refl; events = refl }

module _ (p : Provider) (client_id : String) (d : Draw) (db : Db) where
  issue_to-SameTables :
      (scopes : List String) (resource : String) (o : Option ClientPolicy)
      → SameTables db (issue_to p client_id scopes resource d o db).1
  unfolding issue_to put_artifact
  issue_to-SameTables scopes resource none = SameTables-refl db
  issue_to-SameTables scopes resource (some client) = record {
    tickets = refl;
    last_ticket_id = refl;
    events = refl;
  }

  pub issue_pair-SameTables :
      (scopes : List String) (resource : String)
      → SameTables db (issue_pair p client_id scopes resource d db).1
  unfolding issue_pair
  issue_pair-SameTables scopes resource =
      issue_to-SameTables scopes resource (Policy.client p.policy client_id)

  issue_with-SameTables :
      (r : Permission (List String)) → SameTables db (issue_with p client_id d r db).1
  unfolding issue_with
  issue_with-SameTables (denied e) = SameTables-refl db
  issue_with-SameTables (granted scopes) = issue_pair-SameTables scopes p.settings.resource_url

  with_secret-SameTables :
      (scopes : Option (List String)) (client : ClientPolicy) (o : Option Bool)
      → SameTables db (with_secret p client_id scopes d client o db).1
  unfolding with_secret
  with_secret-SameTables scopes client none = SameTables-refl db
  with_secret-SameTables scopes client (some false) = SameTables-refl db
  with_secret-SameTables scopes client (some true) =
      issue_with-SameTables
        (Policy.authorize_scopes p.policy client_id (or_scopes scopes (sorted_set client.scopes)))

  -- `issue_for_client` writes to the artifacts' table alone, whether it issues or refuses.
  pub issue_for_client-SameTables :
      (secret : String) (scopes : Option (List String))
      → SameTables db (issue_for_client p client_id secret scopes d db).1
  unfolding issue_for_client credentialed
  issue_for_client-SameTables secret scopes = go (Policy.client p.policy client_id)
    where
      go :
          (o : Option ClientPolicy)
          → SameTables db (credentialed p client_id secret scopes d o db).1
      go none = SameTables-refl db
      go (some client) = with_secret-SameTables scopes client (compare_digest client.secret secret)
