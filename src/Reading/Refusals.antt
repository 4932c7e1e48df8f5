-- ===== src/Reading/Refusals.antt =====
-- The grant in a decision of `evaluatePolicy`.
use ledgerdesk.Prelude.{
  ◌≡◌, ap, Bool, true, false, if◌then◌else◌, ◌==◌, Option, none, some, List, [], ◌∷◌, select, arith,
  ℤ, Number, finite, ltb_ℤ,
}
use ledgerdesk.Reading.{
  level, ReadingContext, ReadingAction, Grant, Evaluation, grants, denies, indeterminate, PolicyRow,
  PolicyHierarchy, PolicyDecision, PolicyCause, denied, undetermined, refused, expired,
  not_yet_valid, matches, bad_end, is_over, within_window, evaluate_grant, evaluate_row,
  by_evaluation, evaluate_tier, evaluate_tiers, tiers_of, evaluate_policy,
}
use ledgerdesk.Reading.Policy.{permits}

abbrev Carries : PolicyDecision → Type 0
Carries d = (g : Grant) → d.grant ≡ some g → d ≡ permits g

refused-Carries : (cause : PolicyCause) → Carries (refused cause)
refused-Carries cause g h = cc

either-Carries :
    (b : Bool) (x y : PolicyDecision) → Carries x → Carries y → Carries (if b then x else y)
either-Carries true x y p q = p
either-Carries false x y p q = q

permits-Carries : (g : Grant) → Carries (permits g)
permits-Carries g h e = ap permits (ground arith)

within_window-Carries : (g : Grant) (now : ℤ) (start : Number) → Carries (within_window g now start)
unfolding within_window
within_window-Carries g now (finite start) =
    either-Carries (bad_end start g.valid_until) _ _ (refused-Carries undetermined) (
      either-Carries (ltb_ℤ now start) _ _ (refused-Carries not_yet_valid) (
        either-Carries (is_over now g.valid_until) _ _ (refused-Carries expired)
          (either-Carries (level g.maximum == 0) _ _ (refused-Carries denied) (permits-Carries g))))
within_window-Carries g now _ = refused-Carries undetermined

module _ (context : ReadingContext) (action : ReadingAction) (now : ℤ) where
  evaluate_grant-Carries : (o : Option Grant) → Carries (evaluate_grant o context action now)
  unfolding evaluate_grant
  evaluate_grant-Carries none = refused-Carries undetermined
  evaluate_grant-Carries (some g) =
      either-Carries (matches g.binding context action) _ _
        (within_window-Carries g now g.valid_from) (refused-Carries undetermined)

  by_evaluation-Carries :
      (e : Evaluation) (d : PolicyDecision) → Carries d → Carries (by_evaluation e d)
  by_evaluation-Carries grants d h = h
  by_evaluation-Carries denies d h = refused-Carries denied
  by_evaluation-Carries indeterminate d h = refused-Carries undetermined

  evaluate_tier-Carries :
      (rows : List PolicyRow) (inherited : PolicyDecision)
      → Carries inherited
      → Carries (evaluate_tier rows context action now inherited)
  unfolding evaluate_tier evaluate_row
  evaluate_tier-Carries [] inherited h = h
  evaluate_tier-Carries (row ∷ []) inherited h =
      by_evaluation-Carries row.evaluation _ (evaluate_grant-Carries row.grant)
  evaluate_tier-Carries (row ∷ next ∷ rows) inherited h = refused-Carries undetermined

  evaluate_tiers-Carries :
      (tiers : List (List PolicyRow)) → Carries (evaluate_tiers tiers context action now)
  unfolding evaluate_tiers
  evaluate_tiers-Carries [] = refused-Carries undetermined
  evaluate_tiers-Carries (tier ∷ tiers) =
      evaluate_tier-Carries (select (λ (row : PolicyRow). matches row.binding context action) tier)
        _ (evaluate_tiers-Carries tiers)

-- A decision that carries a grant is the permission of that grant: a refusal, on whatever instant,
-- carries none.
pub evaluate_policy-grant :
    (hierarchy : PolicyHierarchy) (context : ReadingContext) (action : ReadingAction) (now : Number)
    (g : Grant)
    → (evaluate_policy hierarchy context action now).grant ≡ some g
    → evaluate_policy hierarchy context action now ≡ permits g
unfolding evaluate_policy
evaluate_policy-grant hierarchy context action (finite t) g h =
    evaluate_tiers-Carries context action t (tiers_of hierarchy) g h
evaluate_policy-grant hierarchy context action _ g h = refused-Carries undetermined g h
