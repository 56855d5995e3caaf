-- ===== src/Policy/Loading/Filed.antt =====
-- What a policy that was loaded is like.
use mcpgate.Prelude.{
  String, ◌≡◌, refl, Bool, true, false, List, [], ◌∷◌, All, ap, ◌∙◌, subst, arith,
}
use mcpgate.Value.{Value, object, Fields, end, field}
use mcpgate.Policy.{ClientPolicy, ToolPolicy, Policy}
use mcpgate.Policy.Loading.{
  Load, loaded, unsupported, broken, beyond, ◌>>=◌, item, frozenset, as_text, client_of, tool_of,
  entries, comprehended, version_one, checked, load_policy,
}

-- Each client and each tool is filed under its own name.
pub record IsFiled (p : Policy) : Type 0 where
  pub clients : All (λ e. e.1.client_id ≡ e.0) p.clients
  pub tools : All (λ e. e.1.name ≡ e.0) p.tools

-- A chain that loads, by its first step.
>>=-loaded {ℓ κ} :
    {A : Type ℓ} {B : Type κ} (m : Load A) (next : A → Load B) (b : B)
    → (m >>= next) ≡ loaded b
    → (a : A) × (m ≡ loaded a) × (next a ≡ loaded b)
>>=-loaded (loaded a) next b h = (a, refl, h)
>>=-loaded unsupported next b h = cc
>>=-loaded broken next b h = cc
>>=-loaded beyond next b h = cc

loaded-injective {ℓ} : {A : Type ℓ} {a b : A} → loaded a ≡ loaded b → a ≡ b
loaded-injective h = cc

checked-loaded : (b : Bool) (u : Unit {0}) → checked b ≡ loaded u → b ≡ true
unfolding checked
checked-loaded true u h = refl
checked-loaded false u h = cc

module _ {ℓ κ} {A : Type ℓ} (read : String → Value → Load A) (P : String × A → Type κ) where
  entries-All :
      ((k : String) (v : Value) (a : A) → read k v ≡ loaded a → P (k, a))
      → (fields : Fields) (l : List (String × A)) → entries read fields ≡ loaded l
      → All P l
  unfolding entries
  entries-All keep end [] h = tt
  entries-All keep end (e ∷ l) h = cc
  entries-All keep (field k v fields) l h =
      let (a, one, more) = >>=-loaded (read k v) _ l h in
      let (rest, others, all) = >>=-loaded (entries read fields) _ l more in
      subst (All P) (loaded-injective all) (keep k v a one, entries-All keep fields rest others)

  comprehended-All :
      ((k : String) (v : Value) (a : A) → read k v ≡ loaded a → P (k, a))
      → (v : Value) (l : List (String × A)) → comprehended read v ≡ loaded l
      → All P l
  unfolding comprehended
  comprehended-All keep (object fields) l h = entries-All keep fields l h
  comprehended-All keep _ l h = cc

client_id-client_of :
    (other : Value → String) (k : String) (v : Value) (c : ClientPolicy)
    → client_of other k v ≡ loaded c
    → c.client_id ≡ k
unfolding client_of
client_id-client_of other k v c h =
    let (secret, a, h1) = >>=-loaded (item "secret" v) _ c h in
    let (scopes, b, h2) = >>=-loaded (item "scopes" v) _ c h1 in
    let (scope_set, d, h3) = >>=-loaded (frozenset scopes) _ c h2 in
    let (teams, e, h4) = >>=-loaded (item "teams" v) _ c h3 in
    let (team_set, f, h5) = >>=-loaded (frozenset teams) _ c h4 in ground (arith, h5)

name-tool_of : (k : String) (v : Value) (t : ToolPolicy) → tool_of k v ≡ loaded t → t.name ≡ k
unfolding tool_of
name-tool_of k v t h =
    let (scope, a, h1) = >>=-loaded (item "scope" v) _ t h in
    let (action, b, h2) = >>=-loaded (item "action" v) _ t h1 in
    let (scope_text, c, h3) = >>=-loaded (as_text scope) _ t h2 in
    let (action_text, d, h4) = >>=-loaded (as_text action) _ t h3 in ground (arith, h4)

-- A policy loads only from a file of version 1, and files each client and each tool under its own name.
pub load_policy-IsFiled :
    (other : Value → String) (raw : Value) (p : Policy)
    → load_policy other raw ≡ loaded p
    → IsFiled p × (version_one raw ≡ loaded true)
unfolding load_policy
load_policy-IsFiled other raw p h =
    let (one, version, h1) = >>=-loaded (version_one raw) _ p h in
    let (u, passed, h2) = >>=-loaded (checked one) _ p h1 in
    let (clients, a, h3) = >>=-loaded (item "clients" raw) _ p h2 in
    let (cs, c, h4) = >>=-loaded (comprehended (client_of other) clients) _ p h3 in
    let (tools, b, h5) = >>=-loaded (item "tools" raw) _ p h4 in
    let (ts, t, h6) = >>=-loaded (comprehended tool_of tools) _ p h5 in
    (
      subst IsFiled (loaded-injective h6) (record {
        clients =
            comprehended-All (client_of other) (λ e. e.1.client_id ≡ e.0)
              (client_id-client_of other) clients cs c;
        tools = comprehended-All tool_of (λ e. e.1.name ≡ e.0) name-tool_of tools ts t;
      }),
      version ∙ ap (λ b. loaded b) (checked-loaded one u passed),
    )
