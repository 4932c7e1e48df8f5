-- ===== src/Ledger/Store.antt =====
-- The store behind the ledger: `append` of src/agents/ledger/pg.ts, against the table as the
-- migrations leave it (0002_ledger.sql and `ledger_link` of 0011_error_codes_in_english.sql). The
-- table has its newest row first. What the database asks of a row's other columns and of its other
-- unique indexes is a parameter. Numbers that `id` counts are left out.
pub mod Runs
pub mod Appending
pub mod Alone
use ledgerdesk.Prelude.{
  ◌≡◌, ℕ, zero, suc, ◌+◌, Bool, true, false, ◌&&◌, ◌||◌, List, [], ◌∷◌, Option, none, some, select,
  any, leb, ◌==◌, if◌then◌else◌, Text, text_eq,
}
use ledgerdesk.Prelude.Checked.{Checked, Thrown, ok, throws}
use ledgerdesk.Canonical.{is_hex64}
use ledgerdesk.Chain.{Chained, genesis, head_hash}
use ledgerdesk.Ledger.{LedgerRowContent, ChainedRow, link_row}

abbrev pub Table : Type 0
Table = List ChainedRow

-- `LedgerHead`
pub record LedgerHead : Type 0 where
  pub seq : ℕ
  pub row_hash : Text
  pub cum_tokens : ℕ

abbrev pub newer : ChainedRow → Option ChainedRow → Option ChainedRow
newer c none = some c
newer c (some d) = if leb d.content.seq c.content.seq then some c else some d

-- `order by seq desc limit 1`
unfoldable pub newest : Table → Option ChainedRow
newest [] = none
newest (c ∷ table) = newer c (newest table)

abbrev pub rows_of : Text → Table → Table
rows_of run table = select (λ c. text_eq c.content.run_id run) table

-- The rows that the tenant of a transaction sees.
abbrev pub seen_by : Text → Table → Table
seen_by org table = select (λ c. text_eq c.content.org_id org) table

abbrev pub as_head : ChainedRow → LedgerHead
as_head c = record { seq = c.content.seq; row_hash = c.row_hash; cum_tokens = c.content.cum_tokens }

abbrev pub map_option {ℓ κ} : {A : Type ℓ} {B : Type κ} → (A → B) → Option A → Option B
map_option f none = none
map_option f (some a) = some (f a)

-- The query `HEAD`.
unfoldable pub read_head : Text → Text → Table → Option LedgerHead
unfolding newest
read_head run org table = map_option as_head (newest (rows_of run (seen_by org table)))

-- `new.seq <= head_seq`
abbrev pub behind : ℕ → Option ChainedRow → Bool
behind seq none = false
behind seq (some d) = leb seq d.content.seq

-- `ledger_hash_shape`
abbrev pub hash_shape : ChainedRow → Bool
unfolding is_hex64
hash_shape c =
    is_hex64 c.row_hash
    && (text_eq c.prev_hash genesis || is_hex64 c.prev_hash)
    && (if text_eq c.row_hash c.prev_hash then false else true)

-- The unique keys on a run's `seq` and on its `prev_hash`.
abbrev pub taken : ChainedRow → Table → Bool
taken c rows = any (λ d. (d.content.seq == c.content.seq) || text_eq d.prev_hash c.prev_hash) rows

pub data Insertion : Type 0 where
  inserted chain_conflict refused : Insertion

-- What the database finds beyond the digests and the two keys: nothing, a value of another unique
-- index that is taken (23505 too), or a violation of another kind.
pub data Admission : Type 0 where
  admitted doubled excluded : Admission

-- The trigger, the constraints and the unique keys, in their order.
abbrev pub judge : (behind_head forked : Bool) → Admission → (shaped taken : Bool) → Insertion
judge true forked admission shaped taken = chain_conflict
judge false true admission shaped taken = chain_conflict
judge false false excluded shaped taken = refused
judge false false doubled false taken = refused
judge false false doubled true taken = chain_conflict
judge false false admitted false taken = refused
judge false false admitted true true = chain_conflict
judge false false admitted true false = inserted

pub data Outcome : Type 0 where
  appended : ChainedRow → Outcome
  write_failed database_error : Outcome
  thrown : Thrown → Outcome

module _ (sha256_hex : Text → Text) (admits : ChainedRow → Table → Admission) where
  unfoldable pub insertion : ChainedRow → Table → Insertion
  unfolding newest hash_shape
  insertion c table =
      let rows = rows_of c.content.run_id table in
      judge (behind c.content.seq (newest rows))
        (if text_eq c.prev_hash (head_hash (map_option (λ d. d.row_hash) (newest rows)))
          then false
          else true)
        (admits c table) (hash_shape c) (taken c rows)

  -- After the insert: the row is there, or the next attempt begins, or the error goes up.
  abbrev pub after_insert :
      ChainedRow → Table → Insertion → (Table → Outcome × Table) → Outcome × Table
  after_insert c table inserted again = (appended c, c ∷ table)
  after_insert c table chain_conflict again = again table
  after_insert c table refused again = (database_error, table)

  module _ (others : ℕ → Table → Table) (run org : Text)
      (build : Option LedgerHead → LedgerRowContent) where
    -- What `linkRow` gives is inserted into the table as the other writers have left it.
    unfoldable pub insert_linked :
        Checked ChainedRow → ℕ → Table → (Table → Outcome × Table) → Outcome × Table
    unfolding insertion
    insert_linked (throws t) attempt table again = (thrown t, table)
    insert_linked (ok c) attempt table again =
        after_insert c (others attempt table) (insertion c (others attempt table)) again

    unfoldable pub attempts : ℕ → ℕ → Table → Outcome × Table
    unfolding read_head link_row insert_linked
    attempts zero attempt table = (write_failed, table)
    attempts (suc left) attempt table =
        let head = read_head run org table in
        insert_linked (link_row sha256_hex (build head) (map_option (λ h. h.row_hash) head)) attempt
          table (attempts left (attempt + 1))

    -- `append`, with `APPEND_ATTEMPTS` rounds. `others n` is what other writers do to the table
    -- between the reading of the head and the insert of round `n`.
    unfoldable pub append : Table → Outcome × Table
    unfolding attempts
    append table = attempts 6 0 table
