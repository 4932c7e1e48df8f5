-- ===== src/Dedupe/Decision.antt =====
-- `dedupeDecision`: when a submission folds, and its key.
use ledgerdesk.Prelude.{◌≡◌, refl, ◌↔◌, true, arith, Option, none, some, ℤ, ltb_ℤ, ◌-ℤ◌, ◌≤ℤ◌}
use ledgerdesk.Dedupe.{Submission, DedupeIncumbent, dedupe_decision, dedupe_key}

-- The incumbent is open, and the submission comes at its anchor or later, inside the window.
pub record Repeats (s : Submission) (i : DedupeIncumbent) (window : ℤ) : Type 0 where
  pub still_open : i.is_open ≡ true
  pub not_earlier : i.anchor_created_at ≤ℤ s.created_at
  pub inside : ltb_ℤ (s.created_at -ℤ i.anchor_created_at) window ≡ true

-- A submission folds exactly when it repeats its incumbent.
pub dedupe_decision-collapse_iff :
    (s : Submission) (i : DedupeIncumbent) (window : ℤ)
    → ((dedupe_decision s (some i) window).collapse ≡ true) ↔ Repeats s i window
unfolding dedupe_decision ◌-ℤ◌
dedupe_decision-collapse_iff s i window = (λ h. ground arith, λ r. ground arith)

-- Whatever is decided, the key is that of the decision's own anchor.
pub dedupe_decision-key :
    (s : Submission) (incumbent : Option DedupeIncumbent) (window : ℤ)
    → let d = dedupe_decision s incumbent window in
      d.key ≡ dedupe_key s.org_id s.body_sha256 d.anchor_created_at
unfolding dedupe_decision
dedupe_decision-key s none window = refl
dedupe_decision-key s (some i) window = ground arith
