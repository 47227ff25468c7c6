-- ===== src/Audit/Chain/Walks.antt =====
-- The walks find exactly the chains that are broken, and the first row where they are.
use tamper.Prelude.{
  ℕ, zero, suc, ◌+◌, ◌≡◌, refl, ap, ◌∙◌, ◌↔◌, ◌⊎◌, inl, inr, false, Option, none, some, List, [],
  ◌∷◌, ◌++◌, length, Result, ok, err, arith, ℕ_eq,
}
use tamper.Audit.Bytes.{Bytes, bytes_equal_iff}
use tamper.Audit.Event.{Event}
use tamper.Audit.Payload.{canonical_payload_v4}
use tamper.Audit.Chain.{
  from_row, hash_chain_link, VerifyResult, tamper_at, clean, walk_rows, walk_chain, boot_rows,
  verify_chain_post_migration, BootError, expired, mismatch,
}
use tamper.Audit.Chain.Linked.{Follows, Linked, Intact}

-- The walk at boot reports the row that the other walk reports.
abbrev pub as_result : ℕ → Result BootError ℕ → Option VerifyResult
as_result total (ok n) = some (clean n)
as_result total (err expired) = none
as_result total (err (mismatch m)) = some (tamper_at total m.index)

module _ (sha256 : Bytes → Bytes) where
  -- From the second row on, a walk that finds nothing has seen a linked chain.
  walk_rows-Linked :
      (total i : ℕ) (prev : Bytes) (rows : List Event)
      → (walk_rows sha256 total (suc i) prev rows ≡ clean total) ↔ Linked sha256 prev rows
  unfolding walk_rows
  walk_rows-Linked total i prev [] = ground arith
  walk_rows-Linked total i prev (r ∷ rows) = ground (
    arith,
    walk_rows-Linked total (suc i) r.hash rows,
    bytes_equal_iff r.prev_hash prev,
    bytes_equal_iff r.hash (hash_chain_link sha256 prev (canonical_payload_v4 (from_row r) prev)),
  )

  walk_rows_nil : (total i : ℕ) (prev : Bytes) → walk_rows sha256 total i prev [] ≡ clean total
  unfolding walk_rows
  walk_rows_nil total i prev = refl

  -- A walk ends clean on a linked chain, or at the first row that breaks it.
  abbrev Verdict : (List Event → Type 0) → ℕ → ℕ → VerifyResult → List Event → Type 0
  Verdict P total i result rows =
      ((result ≡ clean total) × P rows)
      ⊎ ((before : List Event) × (r : Event) × (after : List Event) × (rows ≡ before ++ r ∷ after)
          × (result ≡ tamper_at total (i + length before))
          × P before
          × (¬ P (before ++ r ∷ [])))

  walk_row :
      (total i : ℕ) (prev : Bytes) (r : Event) (rows : List Event)
      → ((walk_rows sha256 total (suc i) prev (r ∷ rows)
            ≡ walk_rows sha256 total (suc (suc i)) r.hash rows)
          × Follows sha256 prev r)
        ⊎ ((walk_rows sha256 total (suc i) prev (r ∷ rows) ≡ tamper_at total (suc i))
            × (¬ Follows sha256 prev r))
  unfolding walk_rows
  walk_row total i prev r rows = ground (
    arith,
    bytes_equal_iff r.prev_hash prev,
    bytes_equal_iff r.hash (hash_chain_link sha256 prev (canonical_payload_v4 (from_row r) prev)),
  )

  walk_rows-Verdict :
      (total i : ℕ) (prev : Bytes) (rows : List Event)
      → Verdict (Linked sha256 prev) total (suc i) (walk_rows sha256 total (suc i) prev rows) rows
  walk_rows-Verdict total i prev [] = inl (walk_rows_nil total (suc i) prev, tt)
  walk_rows-Verdict total i prev (r ∷ rows) = elim (walk_row total i prev r rows) [
    | inr (found, broken) ↦
        inr ([], r, rows, refl, found ∙ ap (tamper_at total) (omega arith), tt, λ l. broken l.0)
    | inl (goes_on, follows) ↦ elim (walk_rows-Verdict total (suc i) r.hash rows) [
      | inl (ends, linked) ↦ inl (goes_on ∙ ends, (follows, linked))
      | inr (before, bad, after, split, found, linked, broken) ↦ inr (
        r ∷ before,
        bad,
        after,
        ap (◌∷◌ r) split,
        goes_on ∙ found ∙ ap (tamper_at total) (omega arith),
        (follows, linked),
        λ l. broken l.1,
      )
    ]
  ]

  boot_rows-walk :
      (total i : ℕ) (prev : Bytes) (rows : List Event)
      → total ≡ i + length rows
      → as_result total (boot_rows sha256 (λ _. false) i prev rows)
        ≡ some (walk_rows sha256 total i prev rows)
  unfolding boot_rows walk_rows
  boot_rows-walk total i prev [] h = ground arith
  boot_rows-walk total zero prev (r ∷ rows) h = ground (
    arith,
    boot_rows-walk total 1 r.hash rows,
    bytes_equal_iff r.hash
        (hash_chain_link sha256 r.prev_hash (canonical_payload_v4 (from_row r) r.prev_hash)),
    bytes_equal_iff
        (hash_chain_link sha256 r.prev_hash (canonical_payload_v4 (from_row r) r.prev_hash)) r.hash,
  )
  boot_rows-walk total (suc i) prev (r ∷ rows) h = ground (
    arith,
    boot_rows-walk total (suc (suc i)) r.hash rows,
    bytes_equal_iff r.hash (hash_chain_link sha256 prev (canonical_payload_v4 (from_row r) prev)),
    bytes_equal_iff (hash_chain_link sha256 prev (canonical_payload_v4 (from_row r) prev)) r.hash,
  )

  walk_first :
      (total : ℕ) (r : Event) (rows : List Event)
      → ((walk_rows sha256 total 0 [] (r ∷ rows) ≡ walk_rows sha256 total 1 r.hash rows)
          × Follows sha256 r.prev_hash r)
        ⊎ ((walk_rows sha256 total 0 [] (r ∷ rows) ≡ tamper_at total 0)
            × (¬ Follows sha256 r.prev_hash r))
  unfolding walk_rows
  walk_first total r rows = ground (
    arith,
    bytes_equal_iff r.prev_hash r.prev_hash,
    bytes_equal_iff r.hash
        (hash_chain_link sha256 r.prev_hash (canonical_payload_v4 (from_row r) r.prev_hash)),
  )

  -- `Verify` reports no tampering, and the number of rows, on an intact chain; otherwise it reports
  -- the index of the first row that breaks the chain: the rows before it are intact, and with this
  -- row they are not.
  pub walk_chain-Verdict :
      (rows : List Event)
      → ((walk_chain sha256 rows ≡ clean (length rows)) × Intact sha256 rows)
        ⊎ ((before : List Event) × (r : Event) × (after : List Event) × (rows ≡ before ++ r ∷ after)
            × (walk_chain sha256 rows ≡ tamper_at (length rows) (length before))
            × Intact sha256 before
            × (¬ Intact sha256 (before ++ r ∷ [])))
  unfolding walk_chain
  walk_chain-Verdict [] = inl (walk_rows_nil 0 0 [], tt)
  walk_chain-Verdict (r ∷ rows) = elim (walk_first (length (r ∷ rows)) r rows) [
    | inr (found, broken) ↦ inr ([], r, rows, refl, found, tt, λ l. broken l.0)
    | inl (goes_on, follows) ↦ elim (walk_rows-Verdict (length (r ∷ rows)) 0 r.hash rows) [
      | inl (ends, linked) ↦ inl (goes_on ∙ ends, (follows, linked))
      | inr (before, bad, after, split, found, linked, broken) ↦ inr (
        r ∷ before,
        bad,
        after,
        ap (◌∷◌ r) split,
        goes_on ∙ found ∙ ap (tamper_at (length (r ∷ rows))) (omega arith),
        (follows, linked),
        λ l. broken l.1,
      )
    ]
  ]

  pub walk_chain-Intact :
      (rows : List Event) → (walk_chain sha256 rows ≡ clean (length rows)) ↔ Intact sha256 rows
  unfolding walk_chain walk_rows
  walk_chain-Intact [] = ground arith
  walk_chain-Intact (r ∷ rows) = ground (
    arith,
    walk_rows-Linked (length (r ∷ rows)) 0 r.hash rows,
    bytes_equal_iff r.prev_hash r.prev_hash,
    bytes_equal_iff r.hash
        (hash_chain_link sha256 r.prev_hash (canonical_payload_v4 (from_row r) r.prev_hash)),
  )

  -- The walk at boot, with time to finish, passes the chains that `Verify` passes, with the same
  -- number of rows, and otherwise names the row that `Verify` names.
  pub verify_chain_post_migration-walk_chain :
      (rows : List Event)
      → as_result (length rows) (verify_chain_post_migration sha256 false (λ _. false) rows)
        ≡ some (walk_chain sha256 rows)
  unfolding verify_chain_post_migration walk_chain
  verify_chain_post_migration-walk_chain rows = boot_rows-walk (length rows) 0 [] rows (omega arith)
