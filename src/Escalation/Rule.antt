-- ===== src/Escalation/Rule.antt =====
-- `evaluateEscalation` against the rule as it is written, and against the list of all clauses.
use ledgerdesk.Prelude.{
  ◌≡◌, refl, sym, ap, ◌∙◌, ◌↔◌, ◌<◌, Bool, true, false, All, any, length, List, [], ◌∷◌, map,
  Option, none, some, ℤ, Number, finite, at_most, below, arith, if◌then◌else◌, Bool-cases, inl, inr,
}
use ledgerdesk.Priority.{ok, ◌>>=◌, is_breached, assert_instant}
use ledgerdesk.Escalation.{
  EscalationFeatures, EscalationThresholds, EscalationVerdict, EscalationClause, ClauseOutcome,
  outcome_of, evaluate_escalation, evaluate_escalation_clauses, first_that_fires,
  escalation_clauses, effective_confidence, effective_grounded, is_supported_language,
  is_premium_high_severity, above, present, is_false, policy_flag_raised, retry_budget_exhausted,
  language_out_of_scope, sla_breached, confidence_below_threshold, sentiment_at_or_below_threshold,
  premium_high_severity, draft_not_grounded,
}

-- The eight disjuncts of the rule, as it is written above the code.
pub data Escalates (f : EscalationFeatures) (now : ℤ) (t : EscalationThresholds) : Type 0 where
  unsure :
      {c : Number}
      → effective_confidence f t ≡ some c
      → below c t.confidence ≡ true
      → Escalates f now t
  unhappy :
      {s : Number} → f.queue.sentiment ≡ some s → at_most s t.sentiment ≡ true → Escalates f now t
  important :
      is_premium_high_severity f.queue.tier f.queue.severity t.premium_severity ≡ true
      → Escalates f now t
  retried : above f.retries t.max_retries ≡ true → Escalates f now t
  overdue : is_breached f.queue now ≡ true → Escalates f now t
  ungrounded : effective_grounded f ≡ some false → Escalates f now t
  flagged : 0 < length f.policy_flags → Escalates f now t
  unsupported : is_supported_language f.language t.supported_languages ≡ false → Escalates f now t

first_that_fires-any :
    (f : EscalationFeatures) (now : ℤ) (t : EscalationThresholds) (cs : List EscalationClause)
    → (first_that_fires f now t cs).escalate ≡ any (λ c. c.fires f now t) cs
unfolding first_that_fires
first_that_fires-any f now t [] = refl
first_that_fires-any f now t (c ∷ cs) = elim (Bool-cases (c.fires f now t)) [
  | inl e ↦ rw e refl
  | inr e ↦ rw e (first_that_fires-any f now t cs)
]

any-All :
    {A : Type 0} {P : Type 0} (p : A → Bool) (xs : List A)
    → All (λ (x : A). p x ≡ true → P) xs
    → any p xs ≡ true
    → P
any-All p [] all h = cc
any-All p (x ∷ xs) (now, rest) h = elim (Bool-cases (p x)) [
  | inl e ↦ now e
  | inr e ↦ any-All p xs rest (rw e at h)
]

present-true :
    (test : Number → Bool) (o : Option Number)
    → present test o ≡ true
    → (n : Number) × (o ≡ some n) × (test n ≡ true)
present-true test none h = cc
present-true test (some n) h = (n, refl, h)

is_false-true : (o : Option Bool) → is_false o ≡ true → o ≡ some false
is_false-true o h = ground arith

module _ (f : EscalationFeatures) (now : ℤ) (t : EscalationThresholds) where
  clauses-Escalates :
      All (λ (c : EscalationClause). c.fires f now t ≡ true → Escalates f now t) escalation_clauses
  unfolding escalation_clauses policy_flag_raised retry_budget_exhausted language_out_of_scope
      sla_breached confidence_below_threshold sentiment_at_or_below_threshold premium_high_severity
      draft_not_grounded
  clauses-Escalates = (
    λ e. flagged (ground arith),
    (
      retried,
      (
        λ e. unsupported (ground arith),
        (
          overdue,
          (
            λ e. let (c, is, low) = present-true _ _ e in unsure is low,
            (
              λ e. let (s, is, low) = present-true _ _ e in unhappy is low,
              (important, (λ e. ungrounded (is_false-true _ e), tt)),
            ),
          ),
        ),
      ),
    ),
  )

  Escalates-fires :
      Escalates f now t → any (λ (c : EscalationClause). c.fires f now t) escalation_clauses ≡ true
  unfolding escalation_clauses policy_flag_raised retry_budget_exhausted language_out_of_scope
      sla_breached confidence_below_threshold sentiment_at_or_below_threshold premium_high_severity
      draft_not_grounded
  Escalates-fires (unsure is low) = ground arith
  Escalates-fires (unhappy is low) = ground arith
  Escalates-fires (important e) = ground arith
  Escalates-fires (retried e) = ground arith
  Escalates-fires (overdue e) = ground arith
  Escalates-fires (ungrounded e) = ground arith
  Escalates-fires (flagged e) = ground arith
  Escalates-fires (unsupported e) = ground arith

-- On a finite instant the rule gives a verdict, and it escalates exactly when one of the eight
-- disjuncts holds: the confidence below its threshold, the sentiment at most its own, a premium
-- account with a high severity, too many retries, the deadline passed, a draft that is not
-- grounded, a policy flag, or a language that is not supported.
pub evaluate_escalation_iff :
    (f : EscalationFeatures) (now : ℤ) (t : EscalationThresholds)
    → (v : EscalationVerdict) × (evaluate_escalation f (finite now) t ≡ ok v)
      × ((v.escalate ≡ true) ↔ Escalates f now t)
unfolding evaluate_escalation
evaluate_escalation_iff f now t =
    let same = first_that_fires-any f now t escalation_clauses in
    (
      first_that_fires f now t escalation_clauses,
      refl,
      (
        λ h.
            any-All (λ (c : EscalationClause). c.fires f now t) escalation_clauses
              (clauses-Escalates f now t) (sym same ∙ h),
        λ e. same ∙ Escalates-fires f now t e,
      ),
    )

-- The verdict that an auditor reads off the list of all clauses: the first that fired.
abbrev pub first_fired : List ClauseOutcome → EscalationVerdict
first_fired [] = record { escalate = false; reason = none; clause = none }
first_fired (o ∷ os) =
    if o.fired
    then record { escalate = true; reason = some o.reason; clause = some o.clause }
    else first_fired os

first_that_fires-outcomes :
    (f : EscalationFeatures) (now : ℤ) (t : EscalationThresholds) (cs : List EscalationClause)
    → first_that_fires f now t cs ≡ first_fired (map (outcome_of f now t) cs)
unfolding first_that_fires
first_that_fires-outcomes f now t [] = refl
first_that_fires-outcomes f now t (c ∷ cs) = elim (Bool-cases (c.fires f now t)) [
  | inl e ↦ rw e refl
  | inr e ↦ rw e (first_that_fires-outcomes f now t cs)
]

-- The verdict is the first clause that fired in the list of all clauses, on an instant that is no
-- finite number an error of both.
pub evaluate_escalation-clauses :
    (f : EscalationFeatures) (now : Number) (t : EscalationThresholds)
    → evaluate_escalation f now t
      ≡ (evaluate_escalation_clauses f now t >>= λ outcomes. ok (first_fired outcomes))
unfolding evaluate_escalation evaluate_escalation_clauses assert_instant
evaluate_escalation-clauses f (finite now) t =
    ap ok (first_that_fires-outcomes f now t escalation_clauses)
evaluate_escalation-clauses f _ t = refl
