-- ===== src/Audit/Recording.antt =====
-- What `record` leaves in the audit's chains (src/agents/ledger/pg.ts).
use mathlib.Core.Path.{subst}
use ledgerdesk.Prelude.{
  ◌≡◌, refl, ℕ, zero, suc, ◌+◌, Bool, true, false, ◌∷◌, Option, Text, text_eq, text_eq_iff,
  Bool-cases, inl, inr,
}
use ledgerdesk.Prelude.Checked.{Checked, ok, throws, >>=-ok}
use ledgerdesk.Canonical.{is_hex64}
use ledgerdesk.Chain.{head_hash, last_hash, digest, verify, IsChain}
use ledgerdesk.Chain.Evidence.{digest-verify}
use ledgerdesk.Audit.{
  AuditEventContent, ChainedAuditEvent, canonical_audit_row, AuditTable, events_of, Recorded,
  recorded, write_failed, database_error, thrown, Verdict, accepted, conflict, rejected, verdict,
  judged, audit_row_hash, link_audit_row, after_verdict, record_linked, record_rounds, record_event,
}

verdict-accepted : (a b c : Bool) → verdict a b c ≡ accepted → a ≡ true
verdict-accepted true b c h = refl
verdict-accepted false b c h = cc

module _ (sha256_hex : Text → Text) where
  -- The events of every organisation are a chain.
  abbrev pub AreChains : AuditTable → Type 0
  AreChains table = (org : Text) → IsChain canonical_audit_row sha256_hex (events_of org table)

  judged-AreChains :
      (c : ChainedAuditEvent) (table : AuditTable)
      → AreChains table
      → verify canonical_audit_row sha256_hex c ≡ ok true
      → judged c table ≡ accepted
      → AreChains (c ∷ table)
  unfolding judged
  judged-AreChains c table chains v h org = elim (Bool-cases (text_eq c.content.org_id org)) [
    | inr other ↦ rw other (chains org)
    | inl own ↦
        let same = (text_eq_iff c.content.org_id org).0 own in
        let attached =
          (text_eq_iff c.prev_hash (head_hash (last_hash (events_of c.content.org_id table)))).0
            (verdict-accepted _ _ _ h) in
        rw own (
          v,
          subst (λ o. c.prev_hash ≡ head_hash (last_hash (events_of o table))) (same) attached,
          chains org,
        )
  ]

  module _ (others : ℕ → AuditTable → AuditTable) (event : AuditEventContent) where
    -- The chains hold, and an event that is reported is the one that was given, at the end of its
    -- organisation's chain.
    abbrev pub Filed : Recorded × AuditTable → Type 0
    Filed (recorded c, after) =
        AreChains after × (c.content ≡ event) × (before : AuditTable) × (after ≡ c ∷ before)
    Filed (write_failed, after) = AreChains after
    Filed (database_error, after) = AreChains after
    Filed (thrown t, after) = AreChains after

    module _ (hex : (t : Text) → is_hex64 (sha256_hex t) ≡ true)
        (keep : (n : ℕ) (t : AuditTable) → AreChains t → AreChains (others n t)) where
      after_verdict-Filed :
          (c : ChainedAuditEvent) (table : AuditTable) (i : Verdict)
          (again : AuditTable → Recorded × AuditTable)
          → AreChains table
          → c.content ≡ event
          → verify canonical_audit_row sha256_hex c ≡ ok true
          → judged c table ≡ i
          → ((t : AuditTable) → AreChains t → Filed (again t))
          → Filed (after_verdict sha256_hex c table i again)
      after_verdict-Filed c table accepted again chains b v e rest =
          (judged-AreChains c table chains v e, b, table, refl)
      after_verdict-Filed c table conflict again chains b v e rest = rest table chains
      after_verdict-Filed c table rejected again chains b v e rest = chains

      linked-verifies :
          (head : Option Text) (c : ChainedAuditEvent)
          → link_audit_row sha256_hex event head ≡ ok c
          → (c.content ≡ event) × (verify canonical_audit_row sha256_hex c ≡ ok true)
      unfolding link_audit_row audit_row_hash
      linked-verifies head c e =
          let (own, d, q) =
            >>=-ok (digest canonical_audit_row sha256_hex (head_hash head) event)
              (λ own. ok (record { content = event; prev_hash = head_hash head; row_hash = own }))
              e in
          let same : ◌≡◌ {A = ChainedAuditEvent}
              (record { content = event; prev_hash = head_hash head; row_hash = own }) c =
            cc in
          rw (← same) (
            refl,
            digest-verify canonical_audit_row sha256_hex
                (record { content = event; prev_hash = head_hash head; row_hash = own }) hex d,
          )

      record_linked-Filed :
          (head : Option Text) (linked : Checked ChainedAuditEvent) (attempt : ℕ)
          (table : AuditTable) (again : AuditTable → Recorded × AuditTable)
          → link_audit_row sha256_hex event head ≡ linked
          → AreChains table
          → ((t : AuditTable) → AreChains t → Filed (again t))
          → Filed (record_linked sha256_hex others event linked attempt table again)
      record_linked-Filed head (throws t) attempt table again e chains rest = chains
      record_linked-Filed head (ok c) attempt table again e chains rest =
          let (b, v) = linked-verifies head c e in
          after_verdict-Filed c (others attempt table) (judged c (others attempt table)) again
            (keep attempt table chains) b v refl rest

      record_rounds-Filed :
          (left attempt : ℕ) (table : AuditTable)
          → AreChains table
          → Filed (record_rounds sha256_hex others event left attempt table)
      unfolding record_rounds
      record_rounds-Filed zero attempt table chains = chains
      record_rounds-Filed (suc left) attempt table chains =
          record_linked-Filed (last_hash (events_of event.org_id table)) _ attempt table
            (record_rounds sha256_hex others event left (attempt + 1)) refl chains
            (record_rounds-Filed left (attempt + 1))

      -- Recording an event leaves the events of every organisation a chain, whatever others write in
      -- between, if they keep them so: each row verifies and carries the digest of the row before
      -- it. An event that is reported is the one that was given, and is the newest of the table.
      -- The digest function returns sixty-four hexadecimal digits.
      pub record_event-Filed :
          (table : AuditTable)
          → AreChains table
          → Filed (record_event sha256_hex others event table)
      unfolding record_event
      record_event-Filed table chains = record_rounds-Filed 6 0 table chains
