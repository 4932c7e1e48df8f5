-- ===== src/Ledger/Store/Runs.antt =====
-- Runs of the ledger in the table, and what an insert does to them (src/agents/ledger/pg.ts).
use mathlib.Core.Path.{subst}
use ledgerdesk.Prelude.{
  ◌≡◌, refl, sym, ap, ◌∙◌, ℕ, ◌<◌, Bool, true, false, [], ◌∷◌, Option, none, some, All,
  if◌then◌else◌, Text, text_eq, text_eq_iff, Bool-cases, inl, inr, arith,
}
use ledgerdesk.Prelude.Checked.{ok}
use ledgerdesk.Chain.{head_hash, last_hash, IsChain}
use ledgerdesk.Ledger.{ChainedRow, canonical_row, verify_row_hash}
use ledgerdesk.Ledger.Store.{
  Table, newer, newest, rows_of, map_option, behind, inserted, judge, insertion, Admission,
  admitted, doubled, excluded,
}

abbrev pub first : Table → Option ChainedRow
first [] = none
first (c ∷ rows) = some c

abbrev pub Older : ℕ → Table → Type 0
Older seq = All (λ d. d.content.seq < seq)

module _ (sha256_hex : Text → Text) where
  -- One run, newest row first: each row verifies, carries the digest of the row before it, and
  -- counts further than all before it.
  abbrev pub IsRun : Table → Type 0
  IsRun [] = Unit
  IsRun (c ∷ rows) =
      (verify_row_hash sha256_hex c ≡ ok true)
      × (c.prev_hash ≡ head_hash (last_hash rows))
      × Older c.content.seq rows
      × IsRun rows

  abbrev pub AreRuns : Table → Type 0
  AreRuns table = (run : Text) → IsRun (rows_of run table)

  pub IsRun-IsChain : (rows : Table) → IsRun rows → IsChain canonical_row sha256_hex rows
  unfolding verify_row_hash
  IsRun-IsChain [] h = tt
  IsRun-IsChain (c ∷ rows) (v, p, o, h) = (v, p, IsRun-IsChain rows h)

  pub newest-first : (rows : Table) → IsRun rows → newest rows ≡ first rows
  unfolding newest
  newest-first [] h = refl
  newest-first (c ∷ []) h = refl
  newest-first (c ∷ d ∷ rows) (v, p, (o, os), h) =
      ap (newer c) (newest-first (d ∷ rows) h) ∙ ground arith

  pub newest-last_hash :
      (rows : Table) → IsRun rows → map_option (λ d. d.row_hash) (newest rows) ≡ last_hash rows
  newest-last_hash [] h = ap (map_option (λ d. d.row_hash)) (newest-first [] h)
  newest-last_hash (c ∷ rows) h = ap (map_option (λ d. d.row_hash)) (newest-first (c ∷ rows) h)

  Older-weaken : (m n : ℕ) (rows : Table) → m < n → Older m rows → Older n rows
  Older-weaken m n [] l h = tt
  Older-weaken m n (c ∷ rows) l (o, h) = (omega arith, Older-weaken m n rows l h)

  ahead-Older :
      (seq : ℕ) (rows : Table) → IsRun rows → behind seq (newest rows) ≡ false → Older seq rows
  ahead-Older seq [] h e = tt
  ahead-Older seq (c ∷ rows) h e =
      let (v, p, o, hs) = h in
      let ahead : behind seq (some c) ≡ false =
        sym (ap (behind seq) (newest-first (c ∷ rows) h)) ∙ e in
      let less : c.content.seq < seq = ground arith in
      (less, Older-weaken c.content.seq seq rows less o)

judge-inserted :
    (a b : Bool) (d : Admission) (e f : Bool)
    → judge a b d e f ≡ inserted
    → (a ≡ false) × (b ≡ false) × (d ≡ admitted) × (e ≡ true) × (f ≡ false)
judge-inserted true b d e f h = cc
judge-inserted false true d e f h = cc
judge-inserted false false excluded e f h = cc
judge-inserted false false doubled true f h = cc
judge-inserted false false doubled false f h = cc
judge-inserted false false admitted false f h = cc
judge-inserted false false admitted true true h = cc
judge-inserted false false admitted true false h = (refl, refl, refl, refl, refl)

unless_same : (b : Bool) → (if b then false else true) ≡ false → b ≡ true
unless_same true h = refl
unless_same false h = cc

module _ (sha256_hex : Text → Text) (admits : ChainedRow → Table → Admission) where
  -- The head that a row was inserted on.
  pub insertion-head :
      (c : ChainedRow) (table : Table)
      → AreRuns sha256_hex table
      → insertion sha256_hex admits c table ≡ inserted
      → (c.prev_hash ≡ head_hash (last_hash (rows_of c.content.run_id table)))
        × Older c.content.seq (rows_of c.content.run_id table)
  unfolding insertion
  insertion-head c table runs h =
      let rows : Table = rows_of c.content.run_id table in
      let (ahead, forked, allowed, shaped, free) = judge-inserted _ _ _ _ _ h in
      let here = runs c.content.run_id in
      let hashes = newest-last_hash sha256_hex rows here in
      (
        (text_eq_iff c.prev_hash (head_hash (map_option (λ d. d.row_hash) (newest rows)))).0
              (unless_same _ forked)
            ∙ ap head_hash hashes,
        ahead-Older sha256_hex c.content.seq rows here ahead,
      )

  pub insertion-AreRuns :
      (c : ChainedRow) (table : Table)
      → AreRuns sha256_hex table
      → verify_row_hash sha256_hex c ≡ ok true
      → insertion sha256_hex admits c table ≡ inserted
      → AreRuns sha256_hex (c ∷ table)
  insertion-AreRuns c table runs v h run = elim (Bool-cases (text_eq c.content.run_id run)) [
    | inr other ↦ rw other (runs run)
    | inl own ↦
        let same = (text_eq_iff c.content.run_id run).0 own in
        let (p, o) = insertion-head c table runs h in
        rw own (
          v,
          subst (λ r. c.prev_hash ≡ head_hash (last_hash (rows_of r table))) (same) p,
          subst (λ r. Older c.content.seq (rows_of r table)) (same) o,
          runs run,
        )
  ]
