-- ===== src/Dedupe/Examples.antt =====
-- Three submissions of the same words.
use mathlib.Core.List.{Perm}
use ledgerdesk.Prelude.{List, [], ◌∷◌, true, ℤ, pos, Text, text, arith}
use ledgerdesk.Dedupe.{Submission, DedupeIncumbent, collapse_duplicates}
use ledgerdesk.Dedupe.Keys.{Plain}
use ledgerdesk.Dedupe.Collapse.{dealt, collapse_duplicates-perm}
use ledgerdesk.Dedupe.Spacing.{Ascending}

abbrev sent_at : Text → ℤ → Submission
sent_at id t = record { id = id; org_id = text "o"; body_sha256 = text "ab"; created_at = t }

abbrev burst : List Submission
burst = sent_at (text "1") (pos 0) ∷ sent_at (text "2") (pos 10) ∷ sent_at (text "3") (pos 400) ∷ []

abbrev incumbent : DedupeIncumbent
incumbent = record { id = text "1"; anchor_created_at = pos 0; is_open = true }

ab-Plain : Plain (text "ab")
ab-Plain = (λ e. absurd (omega arith), (λ e. absurd (omega arith), tt))

collapse_duplicates-perm_example : Perm (dealt (collapse_duplicates burst (pos 300))) burst
collapse_duplicates-perm_example = collapse_duplicates-perm burst (pos 300)

burst-Ascending : Ascending (pos 0) burst
burst-Ascending = (omega arith, (omega arith, (omega arith, tt)))
