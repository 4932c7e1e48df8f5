-- ===== src/Escalation/Precedence.antt =====
-- Which clause of those that fire `evaluateEscalation` stores.
use mathlib.Core.List.{Memᴰ}
use mathlib.Core.Path.{subst}
use ledgerdesk.Prelude.{
  ℕ, ◌≡◌, refl, sym, ap, ◌∙◌, ◌≤◌, Bool, true, false, ◌&&◌, leb, all, List, [], ◌∷◌, map, Option,
  none, some, ℤ, finite, Text, arith, Bool-cases, inl, inr, get, text_eq, leb→le,
}
use ledgerdesk.Priority.{Checked, ok}
use ledgerdesk.Escalation.{
  EscalationFeatures, EscalationThresholds, EscalationVerdict, EscalationClause, ClauseOutcome,
  outcome_of, evaluate_escalation, evaluate_escalation_clauses, first_that_fires,
  escalation_clauses, Stage, record_stage, triage_stage, draft_stage, clause_stage,
  policy_flag_raised, retry_budget_exhausted, language_out_of_scope, sla_breached,
  confidence_below_threshold, sentiment_at_or_below_threshold, premium_high_severity,
  draft_not_grounded,
}

-- The stages in their order: 0 for the record, 1 for triage, 2 for the draft.
abbrev pub rank : Option Stage → ℕ
rank (some record_stage) = 0
rank (some triage_stage) = 1
rank (some draft_stage) = 2
rank none = 3

abbrev pub stage_rank : Text → ℕ
unfolding clause_stage
stage_rank name = rank (get name clause_stage)

-- Every clause of a list is of a stage or of a later one.
abbrev from_stage : ℕ → List EscalationClause → Bool
from_stage r cs = all (λ d. leb r (stage_rank d.name)) cs

-- Every later clause is of the same stage or a later one.
abbrev in_stages : List EscalationClause → Bool
in_stages [] = true
in_stages (c ∷ cs) = from_stage (stage_rank c.name) cs && in_stages cs

escalation_clauses-in_stages : in_stages escalation_clauses ≡ true
unfolding stage_rank escalation_clauses clause_stage get text_eq policy_flag_raised
    retry_budget_exhausted language_out_of_scope sla_breached confidence_below_threshold
    sentiment_at_or_below_threshold premium_high_severity draft_not_grounded
escalation_clauses-in_stages = refl

both : (a b : Bool) → (a && b) ≡ true → (a ≡ true) × (b ≡ true)
both a b h = ground arith

clash : true ≡ false → ⊥
clash h = cc

same_text : {a b : Text} → some a ≡ some b → a ≡ b
same_text h = ground arith

same_ok : {A : Type 0} {a b : A} → Path (Checked A) (ok a) (ok b) → a ≡ b
same_ok h = ground arith

module _ (f : EscalationFeatures) (now : ℤ) (t : EscalationThresholds) where
  later-stages :
      (r : ℕ) (cs : List EscalationClause) {o : ClauseOutcome}
      → from_stage r cs ≡ true
      → Memᴰ o (map (outcome_of f now t) cs)
      → r ≤ stage_rank o.clause
  later-stages r [] h m = elim m [ ]
  later-stages r (c ∷ cs) {o} h (Memᴰ.head e) =
      let first : leb r (stage_rank c.name) ≡ true = (both _ (from_stage r cs) h).0 in
      let same : o.clause ≡ c.name = ap (λ (x : ClauseOutcome). x.clause) e in
      rw same (leb→le r (stage_rank c.name) first)
  later-stages r (c ∷ cs) h (Memᴰ.tail m) =
      later-stages r cs (both (leb r (stage_rank c.name)) (from_stage r cs) h).1 m

  -- A list whose first clause fires, and one whose first clause does not.
  earliest-here :
      (c : EscalationClause) (cs : List EscalationClause) {o : ClauseOutcome}
      → from_stage (stage_rank c.name) cs ≡ true
      → Memᴰ o (map (outcome_of f now t) (c ∷ cs))
      → stage_rank c.name ≤ stage_rank o.clause
  earliest-here c cs h (Memᴰ.head e) = rw (ap (λ (x : ClauseOutcome). x.clause) e) (omega arith)
  earliest-here c cs h (Memᴰ.tail m) = later-stages (stage_rank c.name) cs h m

  fired-later :
      (c : EscalationClause) (cs : List EscalationClause) {o : ClauseOutcome}
      → c.fires f now t ≡ false
      → Memᴰ o (map (outcome_of f now t) (c ∷ cs))
      → o.fired ≡ true
      → Memᴰ o (map (outcome_of f now t) cs)
  fired-later c cs off (Memᴰ.head e) fired =
      absurd (clash (sym fired ∙ ap (λ (x : ClauseOutcome). x.fired) e ∙ off))
  fired-later c cs off (Memᴰ.tail m) fired = m

  earliest :
      (cs : List EscalationClause) (name : Text) {o : ClauseOutcome}
      → in_stages cs ≡ true
      → (first_that_fires f now t cs).clause ≡ some name
      → Memᴰ o (map (outcome_of f now t) cs)
      → o.fired ≡ true
      → stage_rank name ≤ stage_rank o.clause
  unfolding first_that_fires
  earliest [] name staged stored m fired = elim m [ ]
  earliest (c ∷ cs) name staged stored m fired =
      let split = both (from_stage (stage_rank c.name) cs) (in_stages cs) staged in
      elim (Bool-cases (c.fires f now t)) [
        | inl on ↦ rw (← same_text (rw on at stored)) (earliest-here c cs split.0 m)
        | inr off ↦ earliest cs name split.1 (rw off at stored) (fired-later c cs off m fired) fired
      ]

-- The clause that is stored beside an escalated ticket is of the earliest stage: every clause that
-- fired on the same ticket is of its stage or of a later one.
pub evaluate_escalation-earliest :
    (f : EscalationFeatures) (now : ℤ) (t : EscalationThresholds) {v : EscalationVerdict}
    {name : Text} {outcomes : List ClauseOutcome} {o : ClauseOutcome}
    → evaluate_escalation f (finite now) t ≡ ok v
    → v.clause ≡ some name
    → evaluate_escalation_clauses f (finite now) t ≡ ok outcomes
    → Memᴰ o outcomes
    → o.fired ≡ true
    → stage_rank name ≤ stage_rank o.clause
unfolding evaluate_escalation evaluate_escalation_clauses
evaluate_escalation-earliest f now t {v} {name} {outcomes} {o} verdict stored every m fired =
    earliest f now t escalation_clauses name escalation_clauses-in_stages
      (ap (λ (x : EscalationVerdict). x.clause) (same_ok verdict) ∙ stored)
      (subst (Memᴰ o) (sym (same_ok every)) m) fired
