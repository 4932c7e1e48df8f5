-- ===== src/Audit/Examples.antt =====
-- One event in an empty table, under a digest that is always the same.
use ledgerdesk.Prelude.{◌≡◌, refl, ℕ, zero, suc, [], ◌∷◌, none, true, Text, text}
use ledgerdesk.Canonical.{null, is_hex64}
use ledgerdesk.Audit.{AuditEventContent, AuditTable, record_event}
use ledgerdesk.Audit.Recording.{AreChains, Filed, record_event-Filed}

fill : ℕ → Text
fill zero = []
fill (suc n) = 97 ∷ fill n

constant_digest : Text → Text
unfolding fill
constant_digest t = fill 64

constant_digest-hex : (t : Text) → is_hex64 (constant_digest t) ≡ true
unfolding constant_digest is_hex64
constant_digest-hex t = refl

abbrev sample_event : AuditEventContent
sample_event = record {
  org_id = text "o";
  actor_id = none;
  action = text "E_PII_EGRESS";
  object_type = text "run";
  object_id = text "r";
  detail = null;
  ts = text "2026-01-01T00:00:00.000Z";
}

undisturbed : ℕ → AuditTable → AuditTable
undisturbed n table = table

undisturbed-AreChains :
    (n : ℕ) (t : AuditTable)
    → AreChains constant_digest t
    → AreChains constant_digest (undisturbed n t)
unfolding undisturbed
undisturbed-AreChains n t h = h

empty-AreChains : AreChains constant_digest []
empty-AreChains org = tt

record_event-Filed_example :
    Filed constant_digest undisturbed sample_event
      (record_event constant_digest undisturbed sample_event [])
record_event-Filed_example =
    record_event-Filed constant_digest undisturbed sample_event constant_digest-hex
      undisturbed-AreChains [] empty-AreChains
