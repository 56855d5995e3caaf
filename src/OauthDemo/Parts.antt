-- ===== src/OauthDemo/Parts.antt =====
-- The parts of the demo, from what their requests are answered.
use mcpgate.Prelude.{String, ◌≡◌, refl, true, false, some, none, List, [], ◌∷◌, ◌==◌}
use Prim.Native.String.{◌++◌ as text_append}
use mcpgate.Policy.Shipped.{both_scopes}
use mcpgate.Store.{Ticket, Event}
use mcpgate.Store.Events.{audit_events}
use mcpgate.Audit.{verify_chain}
use mcpgate.Gateway.Pipeline.{Gateway, State}
use mcpgate.OauthDemo.{
  Web, Verifiers, Turns, HttpResponse, initialize, call_tool, token_page, authorize_page,
  resource_metadata, server_metadata, anonymous_list, query, form, shows_both_teams, call_part,
  mismatch_part, token_part, run_flow,
}

module _ (s256 : String → String) (g : Gateway) (web : Web) (v : Verifiers) (turns : Turns) where
  pub call_part-passes :
      (access : String) (s s1 s2 : State) (r1 r2 : HttpResponse) (tickets : List Ticket) (e : Event)
      → web (initialize access) turns.initialize_turn s ≡ (r1, s1)
      → web (call_tool access "list_tickets" []) turns.call_turn s1 ≡ (r2, s2)
      → r2.tickets ≡ some tickets
      → shows_both_teams tickets ≡ true
      → audit_events none 10 none s2.db ≡ e ∷ []
      → verify_chain g.provider.crypto g.audit_key s2.db ≡ true
      → call_part g web turns access true s ≡ some true
  unfolding call_part
  call_part-passes access s s1 s2 r1 r2 tickets e a b c d f h = rw (a, b, c, d, f, h) refl

  pub mismatch_part-passes :
      (url access code : String) (s s1 : State) (r : HttpResponse)
      → web (token_page (form code (text_append v.other "tampered") url)) turns.mismatch_turn s
        ≡ (r, s1)
      → r.status ≡ 400
      → call_part g web turns access true s1 ≡ some true
      → mismatch_part g web v turns url access true (some code) s ≡ some true
  unfolding mismatch_part
  mismatch_part-passes url access code s s1 r a b c = rw (a, b) c

  pub token_part-passes :
      (code access second : String) (s s1 s2 s3 s4 : State)
      (page issued replay other : HttpResponse)
      → let url = g.provider.settings.resource_url in
        web
            (authorize_page (query (s256 v.first) both_scopes "demo-state" url))
            turns.authorize_turn
            s
          ≡ (page, s1)
        → page.status ≡ 302
        → page.code ≡ some code
        → (code == "") ≡ false
        → web (token_page (form code v.first g.provider.settings.resource_url)) turns.token_turn s1
          ≡ (issued, s2)
        → issued.status ≡ 200
        → issued.access_token ≡ some access
        → (access == "") ≡ false
        → web (token_page (form code v.first g.provider.settings.resource_url)) turns.replay_turn s2
          ≡ (replay, s3)
        → replay.status ≡ 400
        → web
            (authorize_page
              (query (s256 v.other) ("tickets:read" ∷ []) "s2" g.provider.settings.resource_url))
            turns.second_turn
            s3
          ≡ (other, s4)
        → other.code ≡ some second
        → mismatch_part g web v turns g.provider.settings.resource_url access true (some second) s4
          ≡ some true
        → token_part s256 g web v turns true s ≡ some true
  unfolding token_part
  token_part-passes code access second s s1 s2 s3 s4 page issued replay other a a1 a2 a3 b b1 b2 b3
        c c1 d d1 rest =
      rw (a, a2, b, b2, c, d, d1, a1, b1, c1, a3, b3) rest

  pub run_flow-passes :
      (s s1 s2 s3 : State) (resource metadata anonymous : HttpResponse)
      → web resource_metadata turns.resource_turn s ≡ (resource, s1)
      → resource.status ≡ 200
      → web server_metadata turns.server_turn s1 ≡ (metadata, s2)
      → metadata.status ≡ 200
      → web anonymous_list turns.anonymous_turn s2 ≡ (anonymous, s3)
      → anonymous.status ≡ 401
      → token_part s256 g web v turns true s3 ≡ some true
      → run_flow s256 g web v turns s ≡ some true
  unfolding run_flow
  run_flow-passes s s1 s2 s3 resource metadata anonymous a a1 b b1 c c1 rest =
      rw (a, b, c, a1, b1, c1) rest
