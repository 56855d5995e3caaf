-- ===== src/Auth/Exchange/Narrowing.antt =====
-- A refresh token is exchanged by its owner only, and never for wider scopes.
use mcpgate.Prelude.{
  ℕ, String, ◌≡◌, refl, true, Option, none, some, List, ◌==◌, ==_iff, is_subset, arith, inl, inr,
  Bool-cases,
}
use mcpgate.Policy
use mcpgate.Policy.{Policy, ClientPolicy, Permission, granted, denied, authorize_scopes}
use mcpgate.Policy.Scopes.{IsWithin, is_subset-IsWithin, granted-IsWithin}
use mcpgate.Store.{refresh_token, Db}
use mcpgate.Store.Artifacts.{Found, get_artifact}
use mcpgate.Auth.Types.{Provider, ok, ClientInfo, or_scopes}
use mcpgate.Auth.Issue.{Draw, OauthToken}
use mcpgate.Auth.Issue.Grants.{issue_pair-scope}
use mcpgate.Auth.Exchange.{reissue, rotate, exchange_refresh_token}

module _ (p : Provider) (client : ClientInfo) (d : Draw) (t : OauthToken) where
  -- What a successful exchange of the artifact `f` says.
  abbrev pub Narrowed : Found → Type 0
  Narrowed f =
      (f.client_id ≡ client.client_id)
      × IsWithin t.scope f.payload.scopes
      × ((c : ClientPolicy) × (Policy.client p.policy f.client_id ≡ some c)
          × IsWithin t.scope c.scopes)

  reissue_within :
      (f : Found) (requested : List String) (a : Permission (List String)) (db : Db)
      → (f.client_id ≡ client.client_id)
      → IsWithin requested f.payload.scopes
      → authorize_scopes p.policy f.client_id requested ≡ a
      → (reissue p f d a db).0 ≡ ok t
      → Narrowed f
  unfolding reissue
  reissue_within f requested (denied e) db own inside held h = cc
  reissue_within f requested (granted scopes) db own inside held h =
      let g = granted-IsWithin p.policy f.client_id requested scopes held in
      rw (issue_pair-scope p f.client_id scopes _ d db t h)
        (own, λ k m. inside k (g.3 k m), (g.0, g.1, g.2))

  rotate_within :
      (scopes : List String) (o : Option Found) (db : Db)
      → (rotate p client scopes d (o, db)).0 ≡ ok t
      → (f : Found) × (o ≡ some f) × Narrowed f
  unfolding rotate
  rotate_within scopes none db h = cc
  rotate_within scopes (some f) db h =
      let requested = or_scopes (some scopes) f.payload.scopes in
      elim (Bool-cases (f.client_id == client.client_id)) [
        | inr foreign ↦ ground (arith, foreign, h)
        | inl own ↦ elim (Bool-cases (is_subset requested f.payload.scopes)) [
          | inr beyond ↦ ground (arith, own, beyond, h)
          | inl inside ↦ (
            f,
            refl,
            reissue_within f requested _ db ((==_iff f.client_id client.client_id).0 own)
                (is_subset-IsWithin requested f.payload.scopes inside) refl (rw (own, inside) at h),
          )
        ]
      ]

-- A refresh token is exchanged only if it is live and the client's own, and the scopes of the new token
-- are among those of the old one and among those that the policy gives to the client now.
pub exchange_refresh_token_lem :
    (p : Provider) (client : ClientInfo) (d : Draw) (t : OauthToken) (token : String)
    (scopes : List String) (now : ℕ) (db : Db)
    → (exchange_refresh_token p client token scopes now d db).0 ≡ ok t
    → (f : Found) × ((get_artifact p.crypto token refresh_token true now db).0 ≡ some f)
      × Narrowed p client d t f
unfolding exchange_refresh_token
exchange_refresh_token_lem p client d t token scopes now db h =
    rotate_within p client d t scopes _ _ h
