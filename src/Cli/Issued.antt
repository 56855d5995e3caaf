-- ===== src/Cli/Issued.antt =====
-- A token that `issue-token` prints is good at the server.
use mcpgate.Prelude.{
  ◌≤◌, ℕ, ◌+◌, ◌*◌, ◌/◌, String, ◌≡◌, ◌≢◌, refl, sym, ap, subst, ◌∙◌, true, Option, none, some,
  List, ltb,
}
use mcpgate.Policy
use mcpgate.Policy.{ClientPolicy, granted}
use mcpgate.Policy.Scopes.{IsWithin}
use mcpgate.Policy.Order.{sorted_set}
use mcpgate.Store.{Db}
use mcpgate.Store.Tickets.{seed}
use mcpgate.Store.Tickets.Frame.{seed-SameElsewhere}
use mcpgate.Auth.Types.{Provider, AuthResult, ok, err, second, or_scopes}
use mcpgate.Auth.Issue.{Draw, OauthToken, issue_pair, issue_for_client}
use mcpgate.Auth.Issue.Grants.{
  issue_for_client-Issued, issue_for_client-granted, issue_for_client_lem,
}
use mcpgate.Auth.Access.{AccessToken, load_access_token}
use mcpgate.Auth.Access.Accepted.{
  issued_claims, issued_token, issue_pair-known, load-issue_pair, load_access_token-same,
}
use mcpgate.Gateway.Pipeline.{Gateway, State}
use mcpgate.Runtime.Started.{create_runtime-some}
use mcpgate.Cli.{Process, start, printed, issued_in, issue_token, wanted}

abbrev pub provider_in : Process → Provider
provider_in p = record { crypto = p.crypto; policy = p.policy; settings = p.settings }

-- What the printed access token stands for.
abbrev pub printed_access : Process → String → Draw → ClientPolicy → OauthToken → AccessToken
printed_access p client_id d c pair = record {
  token = pair.access_token;
  client_id = client_id;
  scopes = pair.scope;
  expires_at = d.now / second + p.settings.access_token_ttl;
  resource = p.settings.resource_url;
  subject = client_id;
  claims = record { teams = some (sorted_set c.teams); jti = some d.jti };
}

-- The token's `iat`, before which PyJWT refuses it.
abbrev pub printed_iat : Draw → ℕ
printed_iat d = d.now / second * second

-- Until when it is good.
abbrev pub printed_expiry : Process → Draw → ℕ
printed_expiry p d = (d.now / second + p.settings.access_token_ttl) * second

printed-some :
    (o : AuthResult OauthToken × Db) (x : OauthToken × Db) → printed o ≡ some x → o ≡ (ok x.0, x.1)
unfolding printed
printed-some (err e, db) x h = cc
printed-some (ok pair, db) x h = cc

module _ (p : Process) (client_id secret scopes : String) (d : Draw) (pair : OauthToken)
    (db1 : Db) where
  -- The call of the provider behind the command.
  issued-some :
      (o : Option (Gateway × State)) (db : Db)
      → start p db ≡ o
      → issued_in client_id secret scopes d o ≡ some (pair, db1)
      → issue_for_client (provider_in p) client_id secret (wanted scopes) d (seed p.now db)
        ≡ (ok pair, db1)
  unfolding issued_in
  issued-some none db e h = cc
  issued-some (some x) db e h =
      let (limiter, same) =
        create_runtime-some p.crypto p.policy p.settings p.now db p.rate_capacity p.rate_refill x
          e in
      printed-some
        (issue_for_client (provider_in p) client_id secret (wanted scopes) d (seed p.now db))
        (pair, db1)
        (subst (λ y. issued_in client_id secret scopes d (some y) ≡ some (pair, db1)) same h)

ok-injective : {x y : OauthToken} → AuthResult.ok x ≡ ok y → x ≡ y
ok-injective h = cc

known_once : {c c' : ClientPolicy} → some c ≡ some c' → c ≡ c'
known_once h = cc

-- A token that was issued is good on a database that a later process seeds again.
still_good :
    (p : Process) (client_id : String) (scopes : List String) (d : Draw) (c : ClientPolicy)
    (db : Db) (later n m : ℕ)
    → Policy.client p.policy client_id ≡ some c
    → p.crypto.jwt_decode
        (issued_token (provider_in p) client_id scopes d c)
        p.settings.jwt_secret
        p.settings.resource_url
        p.settings.issuer_url
        n
      ≡ some (issued_claims (provider_in p) client_id scopes d c)
    → p.crypto.sha256 d.refresh
      ≢ p.crypto.sha256 (issued_token (provider_in p) client_id scopes d c)
    → ltb m (printed_expiry p d) ≡ true
    → load_access_token
        (provider_in p)
        (issued_token (provider_in p) client_id scopes d c)
        n
        m
        (seed later (issue_pair (provider_in p) client_id scopes p.settings.resource_url d db).1)
      ≡ ok (
          some (
            printed_access p client_id d c (record {
              access_token = issued_token (provider_in p) client_id scopes d c;
              expires_in = p.settings.access_token_ttl;
              scope = scopes;
              refresh_token = d.refresh;
            })))
still_good p client_id scopes d c db later n m known decodes apart live =
    load_access_token-same (provider_in p) _ n m _ _
      (seed-SameElsewhere later
        (issue_pair (provider_in p) client_id scopes p.settings.resource_url d db).1).artifacts
    ∙ load-issue_pair (provider_in p) client_id scopes d c n m db known decodes apart live

module _ (p : Process) (client_id secret scopes : String) (d : Draw) (db : Db) (pair : OauthToken)
    (db1 : Db) (c : ClientPolicy) (known : Policy.client p.policy client_id ≡ some c)
    (decodes : (n : ℕ)
      → printed_iat d ≤ n
      → ltb n (printed_expiry p d) ≡ true
      → p.crypto.jwt_decode pair.access_token p.settings.jwt_secret p.settings.resource_url
          p.settings.issuer_url n
        ≡ some (issued_claims (provider_in p) client_id pair.scope d c))
    (apart : p.crypto.sha256 d.refresh ≢ p.crypto.sha256 pair.access_token) where
  loads_later :
      (later n m : ℕ)
      → issue_for_client (provider_in p) client_id secret (wanted scopes) d (seed p.now db)
        ≡ (ok pair, db1)
      → printed_iat d ≤ n
      → ltb n (printed_expiry p d) ≡ true
      → ltb m (printed_expiry p d) ≡ true
      → load_access_token (provider_in p) pair.access_token n m (seed later db1)
        ≡ ok (some (printed_access p client_id d c pair))
  loads_later later n m issued begun early live =
      let P = provider_in p in
      let (c', kept, (held, right, may)) =
        issue_for_client-Issued P client_id secret (wanted scopes) d (seed p.now db) pair
          (ap (λ o. o.0) issued) in
      let start_db = seed p.now db in
      let same =
        sym issued
        ∙ issue_for_client-granted P client_id secret (wanted scopes) kept d start_db c' held right
            may in
      let new : pair ≡ record {
        access_token = issued_token P client_id kept d c;
        expires_in = p.settings.access_token_ttl;
        scope = kept;
        refresh_token = d.refresh;
      } =
        ok-injective (ap (λ o. o.0) same ∙ issue_pair-known P client_id kept d c start_db known) in
      subst
        (λ (x : OauthToken).
          load_access_token P x.access_token n m (seed later db1)
          ≡ ok (some (printed_access p client_id d c x)))
        (sym new)
        (subst
          (λ (e : Db).
            load_access_token P (issued_token P client_id kept d c) n m (seed later e)
            ≡ ok (
                some (
                  printed_access p client_id d c (record {
                    access_token = issued_token P client_id kept d c;
                    expires_in = p.settings.access_token_ttl;
                    scope = kept;
                    refresh_token = d.refresh;
                  }))))
          (sym (ap (λ o. o.1) same))
          (still_good p client_id kept d c start_db later n m known
            (subst
              (λ (x : OauthToken).
                p.crypto.jwt_decode x.access_token p.settings.jwt_secret p.settings.resource_url
                  p.settings.issuer_url n
                ≡ some (issued_claims P client_id x.scope d c))
              new (decodes n begun early))
            (subst (λ (x : OauthToken). p.crypto.sha256 d.refresh ≢ p.crypto.sha256 x.access_token)
              new apart)
            live))

  -- A token that `issue-token` prints is good at a server: a process that starts later on the database
  -- accepts the access token until it expires, for the client with the printed scopes and the client's
  -- teams; the secret was the client's, and the scopes are the policy's for it and among those asked for.
  -- This is for a client of the policy, if the JWT library decodes the token to the claims it encodes, and
  -- the two printed tokens have different digests.
  pub issue_token-accepted :
      (later n m : ℕ) (g : Gateway) (s : State)
      → issue_token p client_id secret scopes d db ≡ some (pair, db1)
      → start (record p { now = later }) db1 ≡ some (g, s)
      → printed_iat d ≤ n
      → ltb n (printed_expiry p d) ≡ true
      → ltb m (printed_expiry p d) ≡ true
      → (load_access_token g.provider pair.access_token n m s.db
          ≡ ok (some (printed_access p client_id d c pair)))
        × (c.secret ≡ secret)
        × IsWithin pair.scope c.scopes
        × IsWithin pair.scope (or_scopes (wanted scopes) (sorted_set c.scopes))
  unfolding issue_token
  issue_token-accepted later n m g s printed_pair started begun early live =
      let P = provider_in p in
      let issued =
        issued-some p client_id secret scopes d pair db1 (start p db) db refl printed_pair in
      let (limiter, same) =
        create_runtime-some p.crypto p.policy p.settings later db1 p.rate_capacity p.rate_refill
          (g, s) started in
      let (c', held, right, within, asked) =
        issue_for_client_lem P client_id secret (wanted scopes) d (seed p.now db) pair
          (ap (λ o. o.0) issued) in
      let one = known_once (sym held ∙ known) in
      (
        subst
            (λ (x : Gateway × State).
              load_access_token x.0.provider pair.access_token n m x.1.db
              ≡ ok (some (printed_access p client_id d c pair)))
            (sym same) (loads_later later n m issued begun early live),
        subst (λ (x : ClientPolicy). x.secret ≡ secret) one right,
        subst (λ (x : ClientPolicy). IsWithin pair.scope x.scopes) one within,
        subst
            (λ (x : ClientPolicy).
              IsWithin pair.scope (or_scopes (wanted scopes) (sorted_set x.scopes)))
            one asked,
      )
