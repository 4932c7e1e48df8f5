-- ===== src/Tickets/Intake/Draft.antt =====
-- What `validateDraft` lets through.
use ledgerdesk.Prelude.{
  trim_idempotent, some, ℕ, ◌≡◌, refl, sym, none, ◌↔◌, ◌<◌, ◌≤◌, Option, Text, length, arith,
}
use ledgerdesk.Tickets.{Result, ok, fail, unique_violation, ◌>>=◌}
use ledgerdesk.Tickets.Intake.{
  TicketDraft, check_field, validate_draft, trimmed, subject_max, body_max,
}

abbrev pub Fits : Text → ℕ → Type 0
Fits field max = (0 < length field) × (length field ≤ max)

check_field-ok : (field : Text) (max : ℕ) → Fits field max → check_field field max ≡ ok tt
unfolding check_field
check_field-ok field max h = ground arith

check_field-Fits :
    (field : Text) (max : ℕ) {u : Unit {0}} → check_field field max ≡ ok u → Fits field max
unfolding check_field
check_field-Fits field max h = ground arith

both-ok :
    (a b : Result (Unit {0})) (x d : TicketDraft)
    → (a >>= λ _. b >>= λ _. ok x) ≡ ok d
    → (a ≡ ok tt) × (b ≡ ok tt) × (d ≡ x)
both-ok (ok u) (ok v) x d h = (refl, refl, ground arith)
both-ok (ok u) (fail e) x d h = cc
both-ok (ok u) unique_violation x d h = cc
both-ok (fail e) b x d h = cc
both-ok unique_violation b x d h = cc

-- A draft is let through exactly when it consists of the two trimmed fields, neither is empty, the
-- subject has at most 200 code units, and the body at most 8000.
pub validate_draft_iff :
    (subject body : Option Text) (draft : TicketDraft)
    → (validate_draft subject body ≡ ok draft) ↔ (
        (draft ≡ record { subject = trimmed subject; body = trimmed body })
        × Fits draft.subject 200
        × Fits draft.body 8000)
unfolding validate_draft
validate_draft_iff subject body draft = (
  λ h.
      let (s, b, same) =
        both-ok (check_field (trimmed subject) subject_max) (check_field (trimmed body) body_max) _
          draft h in
      (same, rw same (check_field-Fits _ _ s), rw same (check_field-Fits _ _ b)),
  λ (same, s, b).
      let fits_s : Fits (trimmed subject) 200 = rw same at s in
      let fits_b : Fits (trimmed body) 8000 = rw same at b in
      rw (check_field-ok _ _ fits_s, check_field-ok _ _ fits_b, same) refl,
)

-- Of a trimmed field nothing more is trimmed.
trim_fixed : (field : Option Text) → trimmed (some (trimmed field)) ≡ trimmed field
trim_fixed none = refl
trim_fixed (some s) = trim_idempotent s

-- A draft that was let through is let through again, as it stands.
pub validate_draft-again :
    (subject body : Option Text) (draft : TicketDraft)
    → validate_draft subject body ≡ ok draft
    → validate_draft (some draft.subject) (some draft.body) ≡ ok draft
validate_draft-again subject body draft h =
    let (same, s, b) = (validate_draft_iff subject body draft).0 h in
    let again_subject : draft.subject ≡ trimmed (some draft.subject) =
      rw same (sym (trim_fixed subject)) in
    let again_body : draft.body ≡ trimmed (some draft.body) = rw same (sym (trim_fixed body)) in
    (validate_draft_iff (some draft.subject) (some draft.body) draft).1
      (rw (← again_subject, ← again_body) refl, s, b)
