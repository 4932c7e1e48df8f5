-- ===== src/Audit.antt =====
-- The security events and their chain: src/agents/audit.ts, `record` of src/agents/ledger/pg.ts, and
-- the trigger, the constraint and the key of 0001_core.sql. The table has its newest row first.
pub mod Recording
mod Examples
use ledgerdesk.Prelude.{
  ◌≡◌, ℕ, zero, suc, ◌+◌, Bool, true, false, ◌&&◌, ◌||◌, List, [], ◌∷◌, Option, none, some, select,
  any, if◌then◌else◌, Text, text, text_eq,
}
use ledgerdesk.Prelude.Checked.{Checked, Thrown, ok, throws, ◌>>=◌}
use ledgerdesk.Canonical.{Json, string, object, member, end, canonical_json, is_hex64}
use ledgerdesk.Chain.{Chained, genesis, head_hash, last_hash, digest, verify}
use ledgerdesk.Ledger.{or_null}

pub record AuditEventContent : Type 0 where
  pub org_id : Text
  pub actor_id : Option Text
  pub action : Text
  pub object_type : Text
  pub object_id : Text
  pub detail : Json
  pub ts : Text

abbrev pub ChainedAuditEvent : Type 0
ChainedAuditEvent = Chained AuditEventContent

unfoldable pub canonical_audit_row : AuditEventContent → Checked Text
unfolding canonical_json
canonical_audit_row r = canonical_json (
    object (
      member (text "org_id") (string r.org_id) (
        member (text "actor_id") (or_null string r.actor_id) (
          member (text "action") (string r.action) (
            member (text "object_type") (string r.object_type) (
              member (text "object_id") (string r.object_id)
                (member (text "detail") r.detail (member (text "ts") (string r.ts) end))))))))

abbrev pub AuditTable : Type 0
AuditTable = List ChainedAuditEvent

-- The events of an organisation, by `id` from the last.
abbrev pub events_of : Text → AuditTable → AuditTable
events_of org table = select (λ c. text_eq c.content.org_id org) table

-- `audit_hash_shape`
abbrev pub audit_shape : ChainedAuditEvent → Bool
audit_shape c =
    is_hex64 c.row_hash
    && (text_eq c.prev_hash genesis || is_hex64 c.prev_hash)
    && (if text_eq c.row_hash c.prev_hash then false else true)

pub data Recorded : Type 0 where
  recorded : ChainedAuditEvent → Recorded
  write_failed database_error : Recorded
  thrown : Thrown → Recorded

pub data Verdict : Type 0 where
  accepted conflict rejected : Verdict

-- The trigger, the constraint and the unique key, in their order.
abbrev pub verdict : (attached shaped taken : Bool) → Verdict
verdict false shaped taken = conflict
verdict true false taken = rejected
verdict true true true = conflict
verdict true true false = accepted

unfoldable pub judged : ChainedAuditEvent → AuditTable → Verdict
judged c table =
    verdict (text_eq c.prev_hash (head_hash (last_hash (events_of c.content.org_id table))))
      (audit_shape c)
      (any (λ d. text_eq d.prev_hash c.prev_hash) (events_of c.content.org_id table))

module _ (sha256_hex : Text → Text) where
  unfoldable pub audit_row_hash : Text → AuditEventContent → Checked Text
  audit_row_hash = digest canonical_audit_row sha256_hex

  unfoldable pub link_audit_row : AuditEventContent → Option Text → Checked ChainedAuditEvent
  unfolding audit_row_hash
  link_audit_row row head = do
    own ← audit_row_hash (head_hash head) row
    ok (record { content = row; prev_hash = head_hash head; row_hash = own })

  unfoldable pub verify_audit_row_hash : ChainedAuditEvent → Checked Bool
  verify_audit_row_hash = verify canonical_audit_row sha256_hex

  abbrev pub after_verdict :
      ChainedAuditEvent
      → AuditTable
      → Verdict
      → (AuditTable → Recorded × AuditTable)
      → Recorded × AuditTable
  after_verdict c table accepted again = (recorded c, c ∷ table)
  after_verdict c table conflict again = again table
  after_verdict c table rejected again = (database_error, table)

  module _ (others : ℕ → AuditTable → AuditTable) (event : AuditEventContent) where
    abbrev pub record_linked :
        Checked ChainedAuditEvent
        → ℕ
        → AuditTable
        → (AuditTable → Recorded × AuditTable)
        → Recorded × AuditTable
    record_linked (throws t) attempt table again = (thrown t, table)
    record_linked (ok c) attempt table again =
        after_verdict c (others attempt table) (judged c (others attempt table)) again

    unfoldable pub record_rounds : ℕ → ℕ → AuditTable → Recorded × AuditTable
    unfolding link_audit_row
    record_rounds zero attempt table = (write_failed, table)
    record_rounds (suc left) attempt table =
        record_linked (link_audit_row event (last_hash (events_of event.org_id table))) attempt
          table (record_rounds left (attempt + 1))

    -- `record`, in `APPEND_ATTEMPTS` rounds. `others n` is what other writers do to the table
    -- between the reading of the head and the insert of round `n`.
    unfoldable pub record_event : AuditTable → Recorded × AuditTable
    unfolding record_rounds
    record_event table = record_rounds 6 0 table
