-- ===== src/Ledger/Store/Alone.antt =====
-- `append` (src/agents/ledger/pg.ts) where nobody else writes in between.
use mathlib.Core.Path.{subst}
use ledgerdesk.Prelude.{
  ◌≡◌, ◌≢◌, refl, sym, ap, ◌∙◌, ℕ, zero, suc, ◌+◌, Bool, true, false, ◌||◌, [], ◌∷◌, Option, All,
  Text, text_eq, text_eq_iff, text_eq_refl, not-eq-true, arith,
}
use ledgerdesk.Prelude.Checked.{ok}
use ledgerdesk.Canonical.{is_hex64}
use ledgerdesk.Chain.{genesis, head_hash, last_hash}
use ledgerdesk.Chain.Evidence.{verified}
use ledgerdesk.Ledger.{LedgerRowContent, ChainedRow, canonical_row, link_row, verify_row_hash}
use ledgerdesk.Ledger.Linking.{link_row-Attached}
use ledgerdesk.Ledger.Store.{
  Table, Admission, admitted, LedgerHead, rows_of, read_head, newest, map_option, behind,
  hash_shape, taken, judge, inserted, chain_conflict, appended, write_failed, insertion,
  insert_linked, attempts, append,
}
use ledgerdesk.Ledger.Store.Runs.{IsRun, AreRuns, Older, first, newest-first, newest-last_hash}

Older-ahead : (seq : ℕ) (rows : Table) → Older seq rows → behind seq (first rows) ≡ false
Older-ahead seq [] h = refl
Older-ahead seq (d ∷ rows) (o, h) = ground arith

free-taken :
    (c : ChainedRow) (rows : Table)
    → Older c.content.seq rows
    → All (λ d. d.prev_hash ≢ c.prev_hash) rows
    → taken c rows ≡ false
free-taken c [] o h = refl
free-taken c (d ∷ rows) (l, o) (n, h) =
    let apart : text_eq d.prev_hash c.prev_hash ≡ false =
      not-eq-true _ (λ e. absurd (n ((text_eq_iff d.prev_hash c.prev_hash).0 e))) in
    rw apart (ground (arith, free-taken c rows o h))

differ : (s t : Text) → s ≢ t → text_eq s t ≡ false
differ s t n = not-eq-true _ (λ e. absurd (n ((text_eq_iff s t).0 e)))

last_hash-shape :
    (sha256_hex : Text → Text) (rows : Table)
    → IsRun sha256_hex rows
    → (text_eq (head_hash (last_hash rows)) genesis || is_hex64 (head_hash (last_hash rows))) ≡ true
unfolding verify_row_hash
last_hash-shape sha256_hex [] h = ground (arith, text_eq_refl genesis)
last_hash-shape sha256_hex (c ∷ rows) (v, p, o, h) =
    ground (arith, (verified canonical_row sha256_hex c v).0)

-- Nobody else writes.
abbrev pub undisturbed : ℕ → Table → Table
undisturbed n table = table

judge-forked : (a : Bool) (d : Admission) (e f : Bool) → judge a true d e f ≡ chain_conflict
judge-forked true d e f = refl
judge-forked false d e f = refl

module _ (sha256_hex : Text → Text) (admits : ChainedRow → Table → Admission) where
  insertion-inserted :
      (c : ChainedRow) (table : Table)
      → AreRuns sha256_hex table
      → c.prev_hash ≡ head_hash (last_hash (rows_of c.content.run_id table))
      → Older c.content.seq (rows_of c.content.run_id table)
      → All (λ d. d.prev_hash ≢ c.prev_hash) (rows_of c.content.run_id table)
      → admits c table ≡ admitted
      → is_hex64 c.row_hash ≡ true
      → c.row_hash ≢ c.prev_hash
      → insertion sha256_hex admits c table ≡ inserted
  unfolding insertion
  insertion-inserted c table runs p o n a x u =
      let rows : Table = rows_of c.content.run_id table in
      let here = runs c.content.run_id in
      let ahead : behind c.content.seq (newest rows) ≡ false =
        ap (behind c.content.seq) (newest-first sha256_hex rows here)
        ∙ Older-ahead c.content.seq rows o in
      let hashes : c.prev_hash ≡ head_hash (map_option (λ d. d.row_hash) (newest rows)) =
        p ∙ ap head_hash (sym (newest-last_hash sha256_hex rows here)) in
      let shape : (text_eq c.prev_hash genesis || is_hex64 c.prev_hash) ≡ true =
        subst (λ s. (text_eq s genesis || is_hex64 s) ≡ true) (sym p)
          (last_hash-shape sha256_hex rows here) in
      rw
        (
          ahead,
          (text_eq_iff c.prev_hash (head_hash (map_option (λ d. d.row_hash) (newest rows)))).1
              hashes,
          a,
          x,
          shape,
          differ c.row_hash c.prev_hash u,
          free-taken c rows o n,
        )
        refl

  insertion-forked :
      (c : ChainedRow) (table : Table)
      → AreRuns sha256_hex table
      → c.prev_hash ≢ head_hash (last_hash (rows_of c.content.run_id table))
      → insertion sha256_hex admits c table ≡ chain_conflict
  unfolding insertion
  insertion-forked c table runs n =
      let rows : Table = rows_of c.content.run_id table in
      let hashes = newest-last_hash sha256_hex rows (runs c.content.run_id) in
      let other : text_eq c.prev_hash (head_hash (map_option (λ d. d.row_hash) (newest rows)))
          ≡ false =
        differ c.prev_hash (head_hash (map_option (λ d. d.row_hash) (newest rows)))
          (λ e. n (e ∙ ap head_hash hashes)) in
      rw other (
        judge-forked (behind c.content.seq (newest rows)) (admits c table) (hash_shape c)
          (taken c rows))

  module _ (run org : Text) (build : Option LedgerHead → LedgerRowContent) where
    -- With nobody else writing, a row that links, counts further than its run, follows the run's
    -- last row as the tenant sees it, is the first to do so and is admitted by the database, is
    -- appended in the first round, and nothing else changes. The digest function returns
    -- sixty-four hexadecimal digits.
    pub append-appends :
        (table : Table) (c : ChainedRow)
        → ((t : Text) → is_hex64 (sha256_hex t) ≡ true)
        → AreRuns sha256_hex table
        → link_row sha256_hex
            (build (read_head run org table))
            (map_option (λ h. h.row_hash) (read_head run org table))
          ≡ ok c
        → c.prev_hash ≡ head_hash (last_hash (rows_of c.content.run_id table))
        → Older c.content.seq (rows_of c.content.run_id table)
        → All (λ d. d.prev_hash ≢ c.prev_hash) (rows_of c.content.run_id table)
        → admits c table ≡ admitted
        → append sha256_hex admits undisturbed run org build table ≡ (appended c, c ∷ table)
    unfolding append attempts insert_linked
    append-appends table c hex runs l p o n a =
        let at =
          link_row-Attached sha256_hex (build (read_head run org table))
            (map_option (λ h. h.row_hash) (read_head run org table)) c hex l in
        let shape =
          (verified canonical_row sha256_hex c (unfold verify_row_hash in at.verifies)).0 in
        rw (l, insertion-inserted c table runs p o n a shape at.unlike) refl

    attempts-blind :
        (left attempt : ℕ) (table : Table) (c : ChainedRow)
        → link_row sha256_hex
            (build (read_head run org table))
            (map_option (λ h. h.row_hash) (read_head run org table))
          ≡ ok c
        → insertion sha256_hex admits c table ≡ chain_conflict
        → attempts sha256_hex admits undisturbed run org build left attempt table
          ≡ (write_failed, table)
    unfolding attempts insert_linked
    attempts-blind zero attempt table c l e = refl
    attempts-blind (suc left) attempt table c l e =
        rw (l, e) (attempts-blind left (attempt + 1) table c l e)

    -- A row that attaches to another row than the last of its run, as where the tenant does not
    -- see the last one, is never written: after all its rounds the append fails, and the table is
    -- as it was.
    pub append-blind :
        (table : Table) (c : ChainedRow)
        → AreRuns sha256_hex table
        → link_row sha256_hex
            (build (read_head run org table))
            (map_option (λ h. h.row_hash) (read_head run org table))
          ≡ ok c
        → c.prev_hash ≢ head_hash (last_hash (rows_of c.content.run_id table))
        → append sha256_hex admits undisturbed run org build table ≡ (write_failed, table)
    unfolding append
    append-blind table c runs l n = attempts-blind 6 0 table c l (insertion-forked c table runs n)
