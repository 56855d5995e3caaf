-- ===== src/Auth/Issue/Grants.antt =====
-- What a token may carry: the policy bounds every issue, and a refresh never widens.
use mcpgate.Prelude.{
  String, ◌≡◌, refl, subst, Bool, false, true, Option, none, some, List, ◌==◌, ==_iff, arith, inl,
  inr, Bool-cases,
}
use mcpgate.Policy
use mcpgate.Policy.{Policy, ClientPolicy, Denial, Permission, granted, denied, authorize_scopes}
use mcpgate.Policy.Order.{sorted_set}
use mcpgate.Policy.Scopes.{IsWithin, granted-IsWithin}
use mcpgate.Store.{Db}
use mcpgate.Auth.Types.{Provider, ok, or_scopes}
use mcpgate.Auth.Issue.{
  Draw, OauthToken, issue_to, issue_pair, issue_with, with_secret, compare_digest, credentialed,
  issue_for_client,
}

issue_to-scope :
    (p : Provider) (client_id : String) (scopes : List String) (resource : String) (d : Draw)
    (o : Option ClientPolicy) (db : Db) (t : OauthToken)
    → (issue_to p client_id scopes resource d o db).0 ≡ ok t
    → t.scope ≡ scopes
unfolding issue_to
issue_to-scope p client_id scopes resource d none db t h = cc
issue_to-scope p client_id scopes resource d (some c) db t h = cc

-- The scopes of an issued pair of tokens are those that it was issued for.
pub issue_pair-scope :
    (p : Provider) (client_id : String) (scopes : List String) (resource : String) (d : Draw)
    (db : Db) (t : OauthToken)
    → (issue_pair p client_id scopes resource d db).0 ≡ ok t
    → t.scope ≡ scopes
unfolding issue_pair
issue_pair-scope p client_id scopes resource d db t h =
    issue_to-scope p client_id scopes resource d (Policy.client p.policy client_id) db t h

issue_with-IsWithin :
    (p : Provider) (client_id : String) (requested : List String) (d : Draw)
    (a : Permission (List String)) (db : Db) (t : OauthToken)
    → authorize_scopes p.policy client_id requested ≡ a
    → (issue_with p client_id d a db).0 ≡ ok t
    → (c : ClientPolicy) × (Policy.client p.policy client_id ≡ some c)
      × IsWithin t.scope c.scopes
      × IsWithin t.scope requested
unfolding issue_with
issue_with-IsWithin p client_id requested d (denied e) db t held h = cc
issue_with-IsWithin p client_id requested d (granted scopes) db t held h =
    rw (issue_pair-scope p client_id scopes _ d db t h)
      (granted-IsWithin p.policy client_id requested scopes held)

same_client : {o : Option ClientPolicy} {a b : ClientPolicy} → o ≡ some a → o ≡ some b → a ≡ b
same_client h k = cc

compare_digest-same :
    (a b : String) (o : Option Bool) → compare_digest a b ≡ o → o ≡ some true → a ≡ b
unfolding compare_digest
compare_digest-same a b o e h = elim (Bool-cases (a == b)) [
  | inl same ↦ (==_iff a b).0 same
  | inr other ↦ ground (arith, e, h, other)
]

with_secret-IsWithin :
    (p : Provider) (client_id secret : String) (scopes : Option (List String)) (d : Draw)
    (c : ClientPolicy) (o : Option Bool) (db : Db) (t : OauthToken)
    → Policy.client p.policy client_id ≡ some c
    → compare_digest c.secret secret ≡ o
    → (with_secret p client_id scopes d c o db).0 ≡ ok t
    → (e : ClientPolicy) × (Policy.client p.policy client_id ≡ some e)
      × (e.secret ≡ secret)
      × IsWithin t.scope e.scopes
      × IsWithin t.scope (or_scopes scopes (sorted_set e.scopes))
unfolding with_secret
with_secret-IsWithin p client_id secret scopes d c none db t held right h = cc
with_secret-IsWithin p client_id secret scopes d c (some false) db t held right h = cc
with_secret-IsWithin p client_id secret scopes d c (some true) db t held right h =
    let g = issue_with-IsWithin p client_id _ d _ db t refl h in
    (
      c,
      held,
      compare_digest-same c.secret secret (some true) right refl,
      subst (λ a. IsWithin t.scope a.scopes) (same_client g.1 held) g.2,
      g.3,
    )

credentialed-IsWithin :
    (p : Provider) (client_id secret : String) (scopes : Option (List String)) (d : Draw)
    (o : Option ClientPolicy) (db : Db) (t : OauthToken)
    → Policy.client p.policy client_id ≡ o
    → (credentialed p client_id secret scopes d o db).0 ≡ ok t
    → (c : ClientPolicy) × (Policy.client p.policy client_id ≡ some c)
      × (c.secret ≡ secret)
      × IsWithin t.scope c.scopes
      × IsWithin t.scope (or_scopes scopes (sorted_set c.scopes))
unfolding credentialed
credentialed-IsWithin p client_id secret scopes d none db t held h = cc
credentialed-IsWithin p client_id secret scopes d (some c) db t held h =
    with_secret-IsWithin p client_id secret scopes d c (compare_digest c.secret secret) db t held
      refl h

pub issue_for_client_lem :
    (p : Provider) (client_id secret : String) (scopes : Option (List String)) (d : Draw) (db : Db)
    (t : OauthToken)
    → (issue_for_client p client_id secret scopes d db).0 ≡ ok t
    → (c : ClientPolicy) × (Policy.client p.policy client_id ≡ some c)
      × (c.secret ≡ secret)
      × IsWithin t.scope c.scopes
      × IsWithin t.scope (or_scopes scopes (sorted_set c.scopes))
unfolding issue_for_client
issue_for_client_lem p client_id secret scopes d db t h =
    credentialed-IsWithin p client_id secret scopes d _ db t refl h

-- A client of the policy that gives its secret is issued a pair with the scopes that the policy grants.
pub issue_for_client-granted :
    (p : Provider) (client_id secret : String) (wanted : Option (List String))
    (scopes : List String) (d : Draw) (db : Db) (c : ClientPolicy)
    → Policy.client p.policy client_id ≡ some c
    → compare_digest c.secret secret ≡ some true
    → authorize_scopes p.policy client_id (or_scopes wanted (sorted_set c.scopes)) ≡ granted scopes
    → issue_for_client p client_id secret wanted d db
      ≡ issue_pair p client_id scopes p.settings.resource_url d db
unfolding issue_for_client
issue_for_client-granted p client_id secret wanted scopes d db c known same grants =
    rw (known, same, grants) refl

-- How a pair was issued.
abbrev pub Issued :
    Provider → String → String → Option (List String) → ClientPolicy → List String → Type 0
Issued p client_id secret wanted c scopes =
    (Policy.client p.policy client_id ≡ some c)
    × (compare_digest c.secret secret ≡ some true)
    × (authorize_scopes p.policy client_id (or_scopes wanted (sorted_set c.scopes))
        ≡ granted scopes)

module _ (p : Provider) (client_id secret : String) (wanted : Option (List String)) (d : Draw)
    (db : Db) (t : OauthToken) where
  issue_with-granted :
      (a : Permission (List String))
      → (issue_with p client_id d a db).0 ≡ ok t
      → (scopes : List String) × (a ≡ granted scopes)
  unfolding issue_with
  issue_with-granted (denied e) h = cc
  issue_with-granted (granted scopes) h = (scopes, refl)

  with_secret-Issued :
      (c : ClientPolicy) (o : Option Bool)
      → Policy.client p.policy client_id ≡ some c
      → compare_digest c.secret secret ≡ o
      → (with_secret p client_id wanted d c o db).0 ≡ ok t
      → (c : ClientPolicy) × (scopes : List String) × Issued p client_id secret wanted c scopes
  unfolding with_secret
  with_secret-Issued c none held right h = cc
  with_secret-Issued c (some false) held right h = cc
  with_secret-Issued c (some true) held right h =
      let (scopes, may) =
        issue_with-granted
          (authorize_scopes p.policy client_id (or_scopes wanted (sorted_set c.scopes))) h in
      (c, scopes, (held, right, may))

  credentialed-Issued :
      (o : Option ClientPolicy)
      → Policy.client p.policy client_id ≡ o
      → (credentialed p client_id secret wanted d o db).0 ≡ ok t
      → (c : ClientPolicy) × (scopes : List String) × Issued p client_id secret wanted c scopes
  unfolding credentialed
  credentialed-Issued none held h = cc
  credentialed-Issued (some c) held h =
      with_secret-Issued c (compare_digest c.secret secret) held refl h

  pub issue_for_client-Issued :
      (issue_for_client p client_id secret wanted d db).0 ≡ ok t
      → (c : ClientPolicy) × (scopes : List String) × Issued p client_id secret wanted c scopes
  unfolding issue_for_client
  issue_for_client-Issued h = credentialed-Issued (Policy.client p.policy client_id) refl h
