-- ===== src/Ledger/Store/Appending.antt =====
-- What `append` does (src/agents/ledger/pg.ts) while others write to the same table.
use ledgerdesk.Prelude.{◌≡◌, refl, ℕ, zero, suc, ◌+◌, true, ◌∷◌, Option, Text}
use ledgerdesk.Prelude.Checked.{Checked, ok, throws}
use ledgerdesk.Canonical.{is_hex64}
use ledgerdesk.Chain.{head_hash, last_hash}
use ledgerdesk.Ledger.{LedgerRowContent, ChainedRow, link_row, verify_row_hash}
use ledgerdesk.Ledger.Linking.{link_row-Attached}
use ledgerdesk.Ledger.Store.{
  Table, Admission, LedgerHead, rows_of, read_head, map_option, Insertion, inserted, chain_conflict,
  refused, Outcome, appended, write_failed, database_error, thrown, insertion, after_insert,
  insert_linked, attempts, append,
}
use ledgerdesk.Ledger.Store.Runs.{AreRuns, Older, insertion-head, insertion-AreRuns}

module _ (sha256_hex : Text → Text) (admits : ChainedRow → Table → Admission)
    (others : ℕ → Table → Table) (run org : Text)
    (build : Option LedgerHead → LedgerRowContent) where
  -- What an append leaves: the runs are sound, and a row that it reports is the newest of the
  -- table, attached to what was the last row of its run.
  abbrev pub Settled : Outcome × Table → Type 0
  Settled (appended c, after) =
      (before : Table) × (head : Option LedgerHead) × (after ≡ c ∷ before)
      × AreRuns sha256_hex after
      × (c.content ≡ build head)
      × (c.prev_hash ≡ head_hash (last_hash (rows_of c.content.run_id before)))
      × Older c.content.seq (rows_of c.content.run_id before)
  Settled (write_failed, after) = AreRuns sha256_hex after
  Settled (database_error, after) = AreRuns sha256_hex after
  Settled (thrown t, after) = AreRuns sha256_hex after

  after_insert-Settled :
      (head : Option LedgerHead) (c : ChainedRow) (table : Table) (i : Insertion)
      (again : Table → Outcome × Table)
      → AreRuns sha256_hex table
      → c.content ≡ build head
      → verify_row_hash sha256_hex c ≡ ok true
      → insertion sha256_hex admits c table ≡ i
      → ((t : Table) → AreRuns sha256_hex t → Settled (again t))
      → Settled (after_insert sha256_hex admits c table i again)
  after_insert-Settled head c table inserted again runs b v e rest =
      let (p, o) = insertion-head sha256_hex admits c table runs e in
      (table, head, refl, insertion-AreRuns sha256_hex admits c table runs v e, b, p, o)
  after_insert-Settled head c table chain_conflict again runs b v e rest = rest table runs
  after_insert-Settled head c table refused again runs b v e rest = runs

  module _ (hex : (t : Text) → is_hex64 (sha256_hex t) ≡ true)
      (keep : (n : ℕ) (t : Table) → AreRuns sha256_hex t → AreRuns sha256_hex (others n t)) where
    insert_linked-Settled :
        (linked : Checked ChainedRow) (head : Option LedgerHead) (attempt : ℕ) (table : Table)
        (again : Table → Outcome × Table)
        → link_row sha256_hex (build head) (map_option (λ h. h.row_hash) head) ≡ linked
        → AreRuns sha256_hex table
        → ((t : Table) → AreRuns sha256_hex t → Settled (again t))
        → Settled (insert_linked sha256_hex admits others run org build linked attempt table again)
    unfolding insert_linked
    insert_linked-Settled (throws t) head attempt table again e runs rest = runs
    insert_linked-Settled (ok c) head attempt table again e runs rest =
        let a =
          link_row-Attached sha256_hex (build head) (map_option (λ h. h.row_hash) head) c hex e in
        after_insert-Settled head c (others attempt table)
          (insertion sha256_hex admits c (others attempt table)) again (keep attempt table runs)
          a.content a.verifies refl rest

    attempts-Settled :
        (left attempt : ℕ) (table : Table)
        → AreRuns sha256_hex table
        → Settled (attempts sha256_hex admits others run org build left attempt table)
    unfolding attempts
    attempts-Settled zero attempt table runs = runs
    attempts-Settled (suc left) attempt table runs =
        let head = read_head run org table in
        insert_linked-Settled (link_row sha256_hex (build head) (map_option (λ h. h.row_hash) head))
          head attempt table (attempts sha256_hex admits others run org build left (attempt + 1))
          refl runs (attempts-Settled left (attempt + 1))

    pub append-Settled :
        (table : Table)
        → AreRuns sha256_hex table
        → Settled (append sha256_hex admits others run org build table)
    unfolding append
    append-Settled table runs = attempts-Settled 6 0 table runs
