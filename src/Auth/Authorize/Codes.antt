-- ===== src/Auth/Authorize/Codes.antt =====
-- A code is loaded as it was authorized, by the client it was made for and until it expires.
use mcpgate.Prelude.{
  ℕ, ◌+◌, ◌*◌, String, ◌≡◌, refl, sym, ap, ◌∙◌, Bool, true, false, Option, none, some, List, ◌==◌,
  ==_iff, ==_refl, ◌&&◌, arith, ltb, if◌then◌else◌, inl, inr, Bool-cases,
}
use mcpgate.Policy.{Permission, granted, denied, authorize_scopes}
use mcpgate.Store.{authorization_code, Db}
use mcpgate.Store.Artifacts.{Found, put_artifact, get_artifact}
use mcpgate.Store.Artifacts.Frame.{SameTables}
use mcpgate.Store.Artifacts.RoundTrip.{get-put_self}
use mcpgate.Auth.Words.{split}
use mcpgate.Auth.Types.{
  Provider, AuthFailure, AuthResult, ok, err, second, ClientInfo, Params, Redirect, or_scopes,
  is_foreign, or_resource,
}
use mcpgate.Auth.Authorize.{
  AuthorizationCode, code_payload, store_code, authorize, code_of, owned_code,
  load_authorization_code,
}

pub not_foreign :
    (o : Option String) (url : String) → is_foreign o url ≡ false → or_resource o url ≡ url
not_foreign none url h = refl
not_foreign (some r) url h = ground (arith, ==_iff r url)

redirected :
    (b : Bool) (x r : Redirect) (f : AuthFailure) (db db' : Db)
    → b ≡ false
    → (if◌then◌else◌ {A = AuthResult Redirect × Db} b (err f, db) (ok x, db')).0 ≡ ok r
    → r ≡ x
redirected true x r f db db' e h = cc
redirected false x r f db db' e h = cc

-- The authorization code that stands for an authorization: bound to the client, to the challenge, to the
-- redirect URI and to this server as its resource.
abbrev pub authorized_code :
    Provider → ClientInfo → Params → String → ℕ → List String → AuthorizationCode
authorized_code p client params code now scopes = record {
  code = code;
  scopes = scopes;
  expires_at = now + 120 * second;
  client_id = client.client_id;
  code_challenge = params.code_challenge;
  redirect_uri = params.redirect_uri;
  redirect_uri_provided_explicitly = params.redirect_uri_provided_explicitly;
  resource = p.settings.resource_url;
  subject = client.client_id;
}

module _ (p : Provider) (client other : ClientInfo) (params : Params) (code : String)
    (now now' : ℕ) where
  owned_if :
      (b : Bool) (f : Found) (a : AuthorizationCode)
      → code_of code f ≡ ok a
      → owned_code other code (if b then some f else none)
        ≡ (if (f.client_id == other.client_id) && b then ok (some a) else ok none)
  unfolding owned_code
  owned_if false f a h = ground arith
  owned_if true f a h = elim (Bool-cases (f.client_id == other.client_id)) [
    | inl own ↦ rw (own, h) refl
    | inr foreign ↦ rw foreign refl
  ]

  stored :
      (a : Permission (List String)) (db : Db) (r : Redirect)
      → (store_code p client params code now a db).0 ≡ ok r
      → (scopes : List String) × (a ≡ granted scopes)
        × (r ≡ record { uri = params.redirect_uri; code = code; state = params.state })
        × (load_authorization_code p other code now' (store_code p client params code now a db).1
            ≡ (if (client.client_id == other.client_id) && ltb now' (now + 120 * second)
                then ok (some (authorized_code p client params code now scopes))
                else ok none))
  unfolding store_code load_authorization_code owned_code code_of
  stored (denied e) db r h = cc
  stored (granted scopes) db r h =
      elim (Bool-cases (is_foreign params.resource p.settings.resource_url)) [
        | inl foreign ↦ ground (arith, foreign, h)
        | inr own ↦ (
          scopes,
          refl,
          redirected _ _ r _ _ _ own h,
          rw own (
              ap (owned_code other code) (
                get-put_self p.crypto code client.client_id authorization_code _ _
                  authorization_code false now' db)
              ∙ owned_if _ _ (authorized_code p client params code now scopes)
                  (rw (not_foreign params.resource p.settings.resource_url own) refl)),
        )
      ]

  -- A successful `authorize` redirects to the given URI with the code and the caller's state, and the
  -- code is then loaded by the client it was made for, within 120 seconds, with the scopes that the
  -- policy granted and this server as its resource, and by no other client and at no later time.
  pub load-authorize :
      (db : Db) (r : Redirect)
      → (authorize p client params code now db).0 ≡ ok r
      → (scopes : List String) × (authorize_scopes p.policy client.client_id
            (or_scopes params.scopes (split client.scope))
          ≡ granted scopes)
        × (r ≡ record { uri = params.redirect_uri; code = code; state = params.state })
        × (load_authorization_code p other code now' (authorize p client params code now db).1 ≡ (
            if (client.client_id == other.client_id) && ltb now' (now + 120 * second)
            then ok (some (authorized_code p client params code now scopes))
            else ok none))
  unfolding authorize
  load-authorize db r h = stored _ db r h

-- What `authorize` answers and stores, where the policy grants the scopes and the request is for this
-- server.
pub authorize-granted :
    (p : Provider) (client : ClientInfo) (params : Params) (code : String) (now : ℕ) (db : Db)
    (scopes : List String)
    → authorize_scopes p.policy client.client_id (or_scopes params.scopes (split client.scope))
      ≡ granted scopes
    → is_foreign params.resource p.settings.resource_url ≡ false
    → authorize p client params code now db ≡ (
      ok (record { uri = params.redirect_uri; code = code; state = params.state }),
      put_artifact p.crypto code authorization_code client.client_id
          (code_payload p params scopes)
          (now + 120 * second)
          db,
    )
unfolding authorize store_code
authorize-granted p client params code now db scopes grants here = rw (grants, here) refl

granted-injective : {xs ys : List String} → granted xs ≡ granted ys → xs ≡ ys
granted-injective h = cc

module _ (p : Provider) (client : ClientInfo) (params : Params) (code : String) (now : ℕ) (db : Db)
    (scopes : List String)
    (grants : authorize_scopes p.policy client.client_id
        (or_scopes params.scopes (split client.scope))
      ≡ granted scopes)
    (here : is_foreign params.resource p.settings.resource_url ≡ false) where
  -- What a consuming read finds of the code in time.
  pub found-authorize :
      (t : ℕ)
      → ltb t (now + 120 * second) ≡ true
      → (get_artifact p.crypto code authorization_code true t
          (authorize p client params code now db).1).0
        ≡ some (record {
          payload = code_payload p params scopes;
          client_id = client.client_id;
          expires_at = now + 120 * second;
        })
  found-authorize t early = rw (authorize-granted p client params code now db scopes grants here) (
      get-put_self p.crypto code client.client_id authorization_code _ _ authorization_code true t
        db
      ∙ rw early refl)

  -- An authorization writes to the artifacts' table alone.
  pub authorize-SameTables : SameTables db (authorize p client params code now db).1
  unfolding put_artifact
  authorize-SameTables =
      rw (authorize-granted p client params code now db scopes grants here)
        (record { tickets = refl; last_ticket_id = refl; events = refl })

  -- The client itself loads its code in time.
  pub load-authorize_own :
      (t : ℕ)
      → ltb t (now + 120 * second) ≡ true
      → load_authorization_code p client code t (authorize p client params code now db).1
        ≡ ok (some (authorized_code p client params code now scopes))
  load-authorize_own t early =
      let (scopes', known, _, loads) =
        load-authorize p client client params code now t db
          (record { uri = params.redirect_uri; code = code; state = params.state })
          (ap (λ o. o.0) (authorize-granted p client params code now db scopes grants here)) in
      loads
      ∙ rw (==_refl client.client_id, early)
          (ap (λ (l : List String). ok (some (authorized_code p client params code now l)))
            (granted-injective (sym known ∙ grants)))
