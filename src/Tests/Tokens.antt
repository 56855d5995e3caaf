-- ===== src/Tests/Tokens.antt =====
-- The provider's theorems at the small deployment's code, refresh token and access token.
use mcpgate.Prelude.{
  String, ◌≡◌, refl, true, false, none, some, List, [], ◌∷◌, ◌==◌, ne_of_test, ltb, if◌then◌else◌,
  ◌&&◌,
}
use mcpgate.Policy
use mcpgate.Policy.{Permission, granted, authorize_scopes}
use mcpgate.Policy.Order.{sorted_set}
use mcpgate.Store.{authorization_code, refresh_token, Db}
use mcpgate.Store.Artifacts.{Found, get_artifact}
use mcpgate.Store.Artifacts.Spent.{at_once}
use mcpgate.Auth.Words.{split}
use mcpgate.Gateway.Validate.{is_space}
use mcpgate.Auth.Types.{ok, err, token_error, invalid_grant, Params, Redirect}
use mcpgate.Auth.Authorize.{authorize, load_authorization_code}
use mcpgate.Auth.Authorize.Codes.{authorized_code, load-authorize}
use mcpgate.Auth.Issue.{OauthToken, issue_pair}
use mcpgate.Auth.Exchange.{exchange_authorization_code, exchange_refresh_token}
use mcpgate.Auth.Exchange.SingleUse.{exchange_code_once, exchange_refresh_once}
use mcpgate.Auth.Exchange.Narrowing.{Narrowed, exchange_refresh_token_lem}
use mcpgate.Auth.Access.{load_access_token, revoke_token}
use mcpgate.Auth.Access.Accepted.{load-revoke_token}
use mcpgate.Tests.World.{claims, crypto, provider, ann, ann_info, bob_info, db, payload, draw}

abbrev kept : Found
kept = record { payload = payload; client_id = "ann"; expires_at = 901_000_000 }

code_kept : (get_artifact crypto "code" authorization_code true 5 db).0 ≡ some kept
unfolding get_artifact ◌==◌
code_kept = refl

refresh_kept : (get_artifact crypto "old" refresh_token true 5 db).0 ≡ some kept
unfolding get_artifact ◌==◌
refresh_kept = refl

new_is_not_old : ("new" == "old") ≡ false
unfolding ◌==◌
new_is_not_old = refl

pub new_is_not_jwt : ("new" == "jwt") ≡ false
unfolding ◌==◌
new_is_not_jwt = refl

abbrev pair : OauthToken
pair = record {
  access_token = "jwt";
  expires_in = 900;
  scope = "tickets:read" ∷ [];
  refresh_token = "new";
}

-- Bob tries Ann's code and spoils it.
abbrev spoiled : Db
spoiled = (exchange_authorization_code provider bob_info "code" 5 draw db).1

exchange_code_once_example :
    exchange_authorization_code provider ann_info "code" 6 draw spoiled
    ≡ (err (token_error invalid_grant), spoiled)
exchange_code_once_example =
    exchange_code_once provider bob_info ann_info 5 6 draw draw kept "code" db spoiled code_kept
      at_once

abbrev rotated : Db
rotated = (exchange_refresh_token provider ann_info "old" [] 5 draw db).1

exchange_refresh_once_example :
    exchange_refresh_token provider ann_info "old" [] 6 draw rotated
    ≡ (err (token_error invalid_grant), rotated)
exchange_refresh_once_example =
    exchange_refresh_once provider ann_info ann_info 5 6 draw draw kept "old" [] [] db rotated
      refresh_kept (ne_of_test "new" "old" new_is_not_old) at_once

rotation_ok : (exchange_refresh_token provider ann_info "old" [] 5 draw db).0 ≡ ok pair
unfolding exchange_refresh_token issue_pair get_artifact authorize_scopes sorted_set ◌==◌
rotation_ok = refl

exchange_refresh_token_example :
    (f : Found) × ((get_artifact crypto "old" refresh_token true 5 db).0 ≡ some f)
    × Narrowed provider ann_info draw pair f
exchange_refresh_token_example =
    exchange_refresh_token_lem provider ann_info draw pair "old" [] 5 db rotation_ok

abbrev revoked : Db
revoked = revoke_token provider "jwt" db

load-revoke_token_example : load_access_token provider "jwt" 7 8 revoked ≡ ok none
load-revoke_token_example = load-revoke_token provider "jwt" 7 8 db revoked at_once

pub ann_held : Policy.client provider.policy "ann" ≡ some ann
unfolding Policy.client ◌==◌
ann_held = refl

pub jwt_decodes : provider.crypto.jwt_decode "jwt" "k" "url" "iss" 7 ≡ some claims
unfolding ◌==◌
jwt_decodes = refl

abbrev pub params : Params
params = record {
  scopes = none;
  state = some "st";
  code_challenge = "challenge";
  redirect_uri = "uri";
  redirect_uri_provided_explicitly = true;
  resource = some "url";
}

abbrev redirect : Redirect
redirect = record { uri = "uri"; code = "fresh"; state = some "st" }

authorize_ok : (authorize provider ann_info params "fresh" 5 db).0 ≡ ok redirect
unfolding split is_space authorize authorize_scopes sorted_set ◌==◌
authorize_ok = refl

load-authorize_example :
    (scopes : List String) × (authorize_scopes provider.policy "ann" ("tickets:read" ∷ [])
      ≡ granted scopes)
    × (redirect ≡ record { uri = "uri"; code = "fresh"; state = some "st" })
    × (load_authorization_code provider bob_info "fresh" 6
          (authorize provider ann_info params "fresh" 5 db).1
        ≡ (if ("ann" == "bob") && ltb 6 120_000_005
            then ok (some (authorized_code provider ann_info params "fresh" 5 scopes))
            else ok none))
unfolding split is_space ◌==◌
load-authorize_example =
    load-authorize provider ann_info bob_info params "fresh" 5 6 db redirect authorize_ok
