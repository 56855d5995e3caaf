-- ===== src/Policy/Loading/RoundTrip.antt =====
-- A policy is read back from the file that says it.
use mcpgate.Prelude.{String, ◌≡◌, refl, ap, sym, ◌∙◌, ◌==◌, List, [], ◌∷◌, pos, All}
use mcpgate.Value.{Value, integer, text, array, object, Items, nil, cons, Fields, end, field}
use mcpgate.Policy.{ClientPolicy, ToolPolicy, Policy}
use mcpgate.Policy.Loading.{
  loaded, members, frozenset, item, client_of, tool_of, entries, comprehended, load_policy,
  field_of, required, str_of, as_text, version_one, given_one, is_one, checked,
}
use mcpgate.Policy.Loading.Filed.{IsFiled}

-- A policy as a file: what policy.yaml says, entry by entry.
texts : List String → Items
texts [] = nil
texts (s ∷ l) = cons (text s) (texts l)

client_spec : ClientPolicy → Value
unfolding texts
client_spec c = object (
    field "scopes" (array (texts c.scopes))
      (field "secret" (text c.secret) (field "teams" (array (texts c.teams)) end)))

tool_spec : ToolPolicy → Value
tool_spec t = object (field "action" (text t.action) (field "scope" (text t.scope) end))

specs {ℓ} : {A : Type ℓ} → (A → Value) → List (String × A) → Fields
specs spec [] = end
specs spec ((k, a) ∷ l) = field k (spec a) (specs spec l)

unfoldable pub document : Policy → Value
unfolding specs client_spec tool_spec
document p = object (
    field "clients" (object (specs client_spec p.clients))
      (field "tools" (object (specs tool_spec p.tools)) (field "version" (integer (pos 1)) end)))

members-texts : (l : List String) → members (texts l) ≡ loaded l
unfolding members texts
members-texts [] = refl
members-texts (s ∷ l) = rw (members-texts l)

module _ (other : Value → String) where
  client_read :
      (k : String) (c : ClientPolicy)
      → client_of other k (client_spec c) ≡ loaded (record c { client_id = k })
  unfolding client_of client_spec item field_of required frozenset str_of ◌==◌
  client_read k c = rw (members-texts c.scopes, members-texts c.teams)

  client_back :
      (k : String) (c : ClientPolicy)
      → c.client_id ≡ k
      → client_of other k (client_spec c) ≡ loaded c
  client_back k c e = client_read k c ∙ ap (λ x. loaded (record c { client_id = x })) (sym e)

  tool_back : (k : String) (t : ToolPolicy) → t.name ≡ k → tool_of k (tool_spec t) ≡ loaded t
  unfolding tool_of tool_spec item field_of required as_text ◌==◌
  tool_back k t e = ap (λ x. loaded (record t { name = x })) (sym e)

  clients_back :
      (l : List (String × ClientPolicy))
      → All (λ e. e.1.client_id ≡ e.0) l
      → entries (client_of other) (specs client_spec l) ≡ loaded l
  unfolding entries specs
  clients_back [] h = refl
  clients_back ((k, c) ∷ l) h = rw (client_back k c h.0, clients_back l h.1)

  tools_back :
      (l : List (String × ToolPolicy))
      → All (λ e. e.1.name ≡ e.0) l
      → entries tool_of (specs tool_spec l) ≡ loaded l
  unfolding entries specs
  tools_back [] h = refl
  tools_back ((k, t) ∷ l) h = rw (tool_back k t h.0, tools_back l h.1)

  -- A policy is read back from the file that says it, whatever `str` does, if each client and each tool
  -- is filed under its own name.
  pub load_policy-document : (p : Policy) → IsFiled p → load_policy other (document p) ≡ loaded p
  unfolding load_policy document version_one given_one is_one checked item field_of required
      comprehended ◌==◌
  load_policy-document p h = rw (clients_back p.clients h.clients, tools_back p.tools h.tools)
