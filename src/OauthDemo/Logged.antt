-- ===== src/OauthDemo/Logged.antt =====
-- The log after the one tool call of the demo.
use mcpgate.Prelude.{◌≡◌, refl, ap, subst, ◌∙◌, true, none, [], ◌∷◌, ◌++◌, length, arith}
use mcpgate.Store.{Event, Db}
use mcpgate.Store.Events.{audit_events}
use mcpgate.Audit.{verify_chain}
use mcpgate.Audit.Chain.{verify_chain-empty}
use mcpgate.Gateway.Dispatch.{Reply}
use mcpgate.Gateway.Pipeline.{Gateway, State, Invocation, Readings, Outcome, returned, invoke}
use mcpgate.Gateway.Pipeline.Audited.{IsAudited, invoke-IsAudited, serve, serve_verifies}

one_shown : (db : Db) (e : Event) → db.events ≡ e ∷ [] → audit_events none 10 none db ≡ e ∷ []
unfolding audit_events
one_shown db e h = rw h refl

module _ (g : Gateway) (i : Invocation) (r : Readings) (s : State) (fresh : s.db.events ≡ []) where
  left_one :
      (o : Outcome × State) (reply : Reply)
      → IsAudited g i s o
      → o.0 ≡ returned reply
      → (e : Event) × (o.1.db.events ≡ e ∷ [])
  left_one (o, s') reply audited h =
      let left = subst (λ x. IsAudited g i s (x, s')) h audited in
      (left.0, left.1 ∙ ap (λ l. l ++ left.0 ∷ []) fresh)

  -- After a call that returns, on a log without events, the log shows one event.
  pub call_logged :
      (reply : Reply)
      → (invoke g i r s).0 ≡ returned reply
      → (e : Event) × (audit_events none 10 none (invoke g i r s).1.db ≡ e ∷ [])
  call_logged reply h =
      let (e, only) = left_one (invoke g i r s) reply (invoke-IsAudited g i r s) h in
      (e, one_shown (invoke g i r s).1.db e only)

  -- It verifies.
  pub call_verifies : verify_chain g.provider.crypto g.audit_key (invoke g i r s).1.db ≡ true
  unfolding serve
  call_verifies =
      serve_verifies g ((i, r) ∷ []) s (omega (arith, ap length fresh))
        (verify_chain-empty g.provider.crypto g.audit_key s.db fresh)
