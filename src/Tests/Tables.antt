-- ===== src/Tests/Tables.antt =====
-- The store's theorems at the small deployment's tables.
use mcpgate.Prelude.{◌≡◌, refl, true, List, [], ◌∷◌, ◌==◌}
use mcpgate.Store.{authorization_code}
use mcpgate.Store.Artifacts.Vault.{Use, put, get, revoke, answers, promises, vault_of}
use mcpgate.Store.Artifacts.Vault.Unique.{IsUnique}
use mcpgate.Store.Artifacts.Vault.Refines.{answers-promises}
use mcpgate.Tests.World.{crypto, db, payload}

db-IsUnique : IsUnique db.artifacts
unfolding ◌==◌
db-IsUnique = (refl, (refl, (refl, tt)))

-- A code is read and consumed, read again, put again, and revoked.
abbrev uses : List Use
uses =
    get "code" authorization_code true 5
    ∷ get "code" authorization_code true 6
    ∷ put "code" authorization_code "bob" payload 9
    ∷ revoke "code"
    ∷ get "code" authorization_code true 7
    ∷ []

answers_example : answers crypto uses db ≡ promises crypto uses (vault_of db)
answers_example = answers-promises crypto uses db db-IsUnique
