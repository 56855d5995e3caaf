-- ===== src/Store/Artifacts/Vault/Rows.antt =====
-- What the statements on the artifacts table do to its open rows.
use mcpgate.Prelude.{
  ℕ, String, ◌≡◌, refl, ◌&&◌, not, Option, none, some, List, [], ◌∷◌, ltb, ◌==◌, ==_iff, select,
  first, arith, if◌then◌else◌,
}
use mcpgate.Store.{Kind, Artifact}
use mcpgate.Store.Artifacts.{kind_eq, is_live, consume_rows, consumed_count, revoke_rows}
use mcpgate.Store.Artifacts.Vault.{is_open}
use mcpgate.Store.Artifacts.Vault.Unique.{has_digest, IsUnique}

-- The open row that a read of the kind at the time accepts.
unfoldable pub accepted : Kind → ℕ → Option Artifact → Option Artifact
accepted kind now none = none
accepted kind now (some a) = if kind_eq a.kind kind && ltb now a.expires_at then some a else none

module _ (digest : String) where
  absent_open :
      (rows : List Artifact)
      → first (has_digest digest) rows ≡ none
      → first (is_open digest) rows ≡ none
  absent_open [] h = refl
  absent_open (a ∷ rows) h = ground (arith, absent_open rows)

  absent_live :
      (kind : Kind) (now : ℕ) (rows : List Artifact)
      → first (has_digest digest) rows ≡ none
      → first (is_live digest kind now) rows ≡ none
  unfolding is_live
  absent_live kind now [] h = refl
  absent_live kind now (a ∷ rows) h = ground (arith, absent_live kind now rows)

  absent_count :
      (rows : List Artifact)
      → first (has_digest digest) rows ≡ none
      → consumed_count digest rows ≡ 0
  unfolding consumed_count
  absent_count [] h = refl
  absent_count (a ∷ rows) h = ground (arith, absent_count rows)

  -- The row that the SELECT finds is the open one, if it is acceptable.
  pub first_live :
      (kind : Kind) (now : ℕ) (rows : List Artifact)
      → IsUnique rows
      → first (is_live digest kind now) rows ≡ accepted kind now (first (is_open digest) rows)
  unfolding is_live accepted
  first_live kind now [] h = refl
  first_live kind now (a ∷ rows) h = ground (
    arith,
    ==_iff a.digest digest,
    first_live kind now rows h.1,
    absent_open rows,
    absent_live kind now rows,
  )

  -- Its UPDATE changes one row.
  pub count_live :
      (kind : Kind) (now : ℕ) (rows : List Artifact) (a : Artifact)
      → IsUnique rows
      → first (is_live digest kind now) rows ≡ some a
      → consumed_count digest rows ≡ 1
  unfolding is_live consumed_count
  count_live kind now [] a h e = cc
  count_live kind now (b ∷ rows) a h e = ground (
    arith,
    ==_iff b.digest digest,
    count_live kind now rows a h.1,
    absent_count rows,
    absent_live kind now rows,
  )

  module _ (d : String) where
    pub open-consume_rows :
        (rows : List Artifact)
        → first (is_open d) (consume_rows digest rows)
          ≡ (if d == digest then none else first (is_open d) rows)
    unfolding consume_rows
    open-consume_rows [] = ground arith
    open-consume_rows (a ∷ rows) =
        ground (
          arith,
          ==_iff a.digest digest,
          ==_iff a.digest d,
          ==_iff d digest,
          open-consume_rows rows,
        )

    pub open-revoke_rows :
        (rows : List Artifact)
        → first (is_open d) (revoke_rows digest rows)
          ≡ (if d == digest then none else first (is_open d) rows)
    unfolding revoke_rows
    open-revoke_rows [] = ground arith
    open-revoke_rows (a ∷ rows) =
        ground
          (arith, ==_iff a.digest digest, ==_iff a.digest d, ==_iff d digest, open-revoke_rows rows)

    pub open-others :
        (rows : List Artifact)
        → first (is_open d) (select (λ a. not (a.digest == digest)) rows)
          ≡ (if d == digest then none else first (is_open d) rows)
    open-others [] = ground arith
    open-others (a ∷ rows) =
        ground (arith, ==_iff a.digest digest, ==_iff a.digest d, ==_iff d digest, open-others rows)
