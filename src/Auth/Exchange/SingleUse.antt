-- ===== src/Auth/Exchange/SingleUse.antt =====
-- Authorization codes and refresh tokens are redeemed once.
use mcpgate.Prelude.{
  ℕ, String, ◌≡◌, ◌≢◌, refl, ap, Bool, true, false, ◌&&◌, Option, none, some, List, ◌==◌, ==_ne,
  is_subset, inl, inr, Bool-cases,
}
use mcpgate.Policy.{ClientPolicy, Permission, granted, denied}
use mcpgate.Crypto.{Crypto}
use mcpgate.Store.{Kind, authorization_code, refresh_token, access_token, Db}
use mcpgate.Store.Artifacts.{Found, get_artifact}
use mcpgate.Store.Artifacts.Spent.{put, Later, at_once, then_step, consumed_once}
use mcpgate.Auth.Types.{Provider, token_error, invalid_grant, ok, err, ClientInfo, or_scopes}
use mcpgate.Auth.Authorize.{owned_code, load_authorization_code}
use mcpgate.Auth.Issue.{Draw, issue_to, issue_pair}
use mcpgate.Auth.Exchange.{
  issue_for_code, redeem_code, exchange_authorization_code, reissue, rotate, exchange_refresh_token,
}

and_false : (b : Bool) → (b && false) ≡ false
and_false true = refl
and_false false = refl

Later-trans :
    {c : Crypto} {digest : String} {kind : Kind} {x y z : Db}
    → Later c digest kind x y
    → Later c digest kind y z
    → Later c digest kind x z
Later-trans l at_once = l
Later-trans l (then_step m s) = then_step (Later-trans l m) s

module _ (p : Provider) (digest : String) where
  -- Issuing a pair of tokens puts no authorization code.
  issue_to-Later :
      (client_id : String) (scopes : List String) (resource : String) (d : Draw)
      (o : Option ClientPolicy) (db : Db)
      → Later p.crypto digest authorization_code db (issue_to p client_id scopes resource d o db).1
  unfolding issue_to
  issue_to-Later client_id scopes resource d none db = at_once
  issue_to-Later client_id scopes resource d (some client) db =
      then_step (then_step at_once (put _ access_token client_id _ _ (and_false _)))
        (put d.refresh refresh_token client_id _ _ (and_false _))

  -- It puts the refresh token that was drawn and no other.
  issue_to-Later_refresh :
      (client_id : String) (scopes : List String) (resource : String) (d : Draw)
      (o : Option ClientPolicy) (db : Db)
      → (p.crypto.sha256 d.refresh == digest) ≡ false
      → Later p.crypto digest refresh_token db (issue_to p client_id scopes resource d o db).1
  unfolding issue_to
  issue_to-Later_refresh client_id scopes resource d none db h = at_once
  issue_to-Later_refresh client_id scopes resource d (some client) db h =
      then_step (then_step at_once (put _ access_token client_id _ _ (and_false _)))
        (put d.refresh refresh_token client_id _ _ (rw h))

  redeem_code-Later :
      (client : ClientInfo) (d : Draw) (o : Option Found) (db : Db)
      → Later p.crypto digest authorization_code db (redeem_code p client d (o, db)).1
  unfolding redeem_code issue_for_code issue_pair
  redeem_code-Later client d none db = at_once
  redeem_code-Later client d (some f) db = elim (Bool-cases (f.client_id == client.client_id)) [
    | inl h ↦ rw h (redeemed f.payload.resource)
    | inr h ↦ rw h at_once
  ]
    where
      redeemed :
          (o : Option String)
          → Later p.crypto digest authorization_code db (issue_for_code p f d o db).1
      redeemed none = at_once
      redeemed (some resource) = issue_to-Later f.client_id f.payload.scopes resource d _ db

  rotate-Later :
      (client : ClientInfo) (scopes : List String) (d : Draw) (o : Option Found) (db : Db)
      → (p.crypto.sha256 d.refresh == digest) ≡ false
      → Later p.crypto digest refresh_token db (rotate p client scopes d (o, db)).1
  unfolding rotate reissue issue_pair
  rotate-Later client scopes d none db h = at_once
  rotate-Later client scopes d (some f) db h = elim (Bool-cases (f.client_id == client.client_id)) [
    | inr foreign ↦ rw foreign at_once
    | inl own ↦
        elim (Bool-cases (is_subset (or_scopes (some scopes) f.payload.scopes) f.payload.scopes)) [
          | inr beyond ↦ rw (own, beyond) at_once
          | inl within ↦ rw (own, within) (reissued _)
        ]
  ]
    where
      reissued :
          (a : Permission (List String))
          → Later p.crypto digest refresh_token db (reissue p f d a db).1
      reissued (denied e) = at_once
      reissued (granted granted_scopes) =
          issue_to-Later_refresh f.client_id granted_scopes _ d _ db h

module _ (p : Provider) (client other : ClientInfo) (now now' : ℕ) (d d' : Draw) (f : Found) where
  -- An authorization code is redeemed once: after an exchange that found it, also one that was refused
  -- because the code belongs to another client, every later exchange of it, by any client, is refused
  -- as `invalid_grant` and changes nothing, as long as no code with its digest is put again.
  pub exchange_code_once :
      (code : String) (db later : Db)
      → (get_artifact p.crypto code authorization_code true now db).0 ≡ some f
      → Later p.crypto
          (p.crypto.sha256 code)
          authorization_code
          (exchange_authorization_code p client code now d db).1
          later
      → exchange_authorization_code p other code now' d' later
        ≡ (err (token_error invalid_grant), later)
  unfolding exchange_authorization_code redeem_code
  exchange_code_once code db later h l = ap (redeem_code p other d') (
      consumed_once p.crypto code authorization_code true now now' db later f h
        (Later-trans (redeem_code-Later p (p.crypto.sha256 code) client d _ _) l))

  -- A refresh token is rotated once: after an exchange that found it, whatever that exchange answered,
  -- every later exchange of it is refused as `invalid_grant` and changes nothing, if the refresh token
  -- drawn then has another digest and none with this digest is put again.
  pub exchange_refresh_once :
      (token : String) (scopes scopes' : List String) (db later : Db)
      → (get_artifact p.crypto token refresh_token true now db).0 ≡ some f
      → p.crypto.sha256 d.refresh ≢ p.crypto.sha256 token
      → Later p.crypto
          (p.crypto.sha256 token)
          refresh_token
          (exchange_refresh_token p client token scopes now d db).1
          later
      → exchange_refresh_token p other token scopes' now' d' later
        ≡ (err (token_error invalid_grant), later)
  unfolding exchange_refresh_token rotate
  exchange_refresh_once token scopes scopes' db later h ne l = ap (rotate p other scopes' d') (
      consumed_once p.crypto token refresh_token true now now' db later f h
        (Later-trans (rotate-Later p (p.crypto.sha256 token) client scopes d _ _ (==_ne _ _ ne)) l))

module _ (p : Provider) (client other : ClientInfo) (now now' : ℕ) (d : Draw) (f : Found) where
  -- A code that an exchange found is not loaded any more, by any client, as long as no code with its
  -- digest is put again.
  pub load-exchanged :
      (code : String) (db later : Db)
      → (get_artifact p.crypto code authorization_code true now db).0 ≡ some f
      → Later p.crypto
          (p.crypto.sha256 code)
          authorization_code
          (exchange_authorization_code p client code now d db).1
          later
      → load_authorization_code p other code now' later ≡ ok none
  unfolding exchange_authorization_code load_authorization_code
  load-exchanged code db later h l =
      ap (λ o. owned_code other code o.0)
        (consumed_once p.crypto code authorization_code false now now' db later f h
          (Later-trans (redeem_code-Later p (p.crypto.sha256 code) client d _ _) l))
