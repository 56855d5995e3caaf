-- ===== src/Tests/Flow.antt =====
-- The authorization-code flow on the small deployment, and two overlapping records.
use mcpgate.Prelude.{◌≡◌, refl, false, some, [], ◌∷◌, ◌==◌, ne_of_test, arith}
use mcpgate.Policy.{granted, authorize_scopes}
use mcpgate.Policy.Order.{sorted_set}
use mcpgate.Auth.Words.{split}
use mcpgate.Gateway.Validate.{is_space}
use mcpgate.Auth.Types.{ok, is_foreign}
use mcpgate.Auth.Authorize.{authorize}
use mcpgate.Auth.Exchange.{exchange_authorization_code}
use mcpgate.Auth.Access.{load_access_token}
use mcpgate.Auth.Flow.{pair_of, access_of_pair, load-exchange-authorize}
use mcpgate.Store.Events.{append_audit, last_audit_hash}
use mcpgate.Audit.{canonical, verify_chain}
use mcpgate.Audit.Overlap.{append_after, record_overlapping, verify_chain-record_overlapping}
use mcpgate.Tests.World.{provider, crypto, draw, db, ann, ann_info, entry_with, logged}
use mcpgate.Tests.Tokens.{params, new_is_not_jwt, ann_held, jwt_decodes}

ann_granted :
    authorize_scopes provider.policy "ann" (split ann_info.scope) ≡ granted ("tickets:read" ∷ [])
unfolding split is_space authorize_scopes sorted_set ◌==◌
ann_granted = refl

here : is_foreign (some "url") "url" ≡ false
unfolding ◌==◌
here = refl

flow_example :
    let (redirect, db1) = authorize provider ann_info params "fresh" 5 db in
    let (token, db2) = exchange_authorization_code provider ann_info "fresh" 6 draw db1 in
    (redirect ≡ ok (record { uri = "uri"; code = "fresh"; state = some "st" }))
    × (token ≡ ok (pair_of provider ann_info params ("tickets:read" ∷ []) draw ann))
    × (load_access_token provider "jwt" 7 8 db2
        ≡ ok (some (access_of_pair provider ann_info params ("tickets:read" ∷ []) draw ann)))
unfolding sorted_set
flow_example =
    load-exchange-authorize provider ann_info params ("tickets:read" ∷ []) draw ann "fresh" 5 6 db
      ann_granted here ann_held refl 7 8 jwt_decodes (ne_of_test "new" "jwt" new_is_not_jwt) refl

hash_is_new : ("get_ticket" == "list_tickets") ≡ false
unfolding ◌==◌
hash_is_new = refl

apart :
    ((append_after crypto "a" (entry_with "t") 9 (last_audit_hash logged) logged).0.event_hash
      == last_audit_hash logged)
    ≡ false
unfolding append_after last_audit_hash append_audit canonical ◌==◌
apart = refl

overlap_example :
    verify_chain crypto "a"
      (record_overlapping crypto "a" (entry_with "t") 9 (entry_with "u") 10 logged)
    ≡ false
overlap_example =
    verify_chain-record_overlapping crypto "a" (entry_with "t") (entry_with "u") 9 10 logged
      (omega arith) (ne_of_test _ _ apart)
