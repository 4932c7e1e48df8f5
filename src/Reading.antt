-- ===== src/Reading.antt =====
-- The reading policy (`evaluatePolicy` in src/server/reading/policy.ts): who may read how much of a
-- material. Records are well shaped here, so the tests of a value's type are gone.
pub mod Policy
pub mod Refusals
pub mod Material
mod Examples
use ledgerdesk.Prelude.{
  ℕ, Bool, true, false, ◌&&◌, ◌||◌, not, leb, ltb, ◌==◌, if◌then◌else◌, Option, none, some, List,
  [], ◌∷◌, map, select, any, all, length, ℤ, Number, finite, nan, infinity, minus_infinity, ltb_ℤ,
  leb_ℤ, Text, text_eq,
}

pub data Disclosure : Type 0 where
  nothing existence reference excerpt content : Disclosure

-- `LEVELS.indexOf`
abbrev pub level : Disclosure → ℕ
level nothing = 0
level existence = 1
level reference = 2
level excerpt = 3
level content = 4

pub data MetadataKey : Type 0 where
  title locator editorial_state classification reading_conditions : MetadataKey

abbrev pub key_eq : MetadataKey → MetadataKey → Bool
key_eq title title = true
key_eq locator locator = true
key_eq editorial_state editorial_state = true
key_eq classification classification = true
key_eq reading_conditions reading_conditions = true
key_eq _ _ = false

pub record ReadingContext : Type 0 where
  pub deployment_id : Text
  pub scope_id : Text
  pub subject_id : Text
  pub surface : Text
  pub purpose : Text
  pub generation : Text

pub data ReadingAction : Type 0 where
  list_action exact_action : ReadingAction

abbrev pub action_eq : ReadingAction → ReadingAction → Bool
action_eq list_action list_action = true
action_eq exact_action exact_action = true
action_eq _ _ = false

pub record PolicyBinding : Type 0 where
  pub context : ReadingContext
  pub action : ReadingAction

pub record Grant : Type 0 where
  pub binding : PolicyBinding
  pub maximum : Disclosure
  pub metadata : List MetadataKey
  pub fragment_ids : List Text
  pub fragment_locator_ids : List Text
  pub valid_from : Number
  pub valid_until : Option Number

pub data Evaluation : Type 0 where
  grants denies indeterminate : Evaluation

pub record PolicyRow : Type 0 where
  pub binding : PolicyBinding
  pub evaluation : Evaluation
  pub grant : Option Grant

pub record PolicyHierarchy : Type 0 where
  pub unit : List PolicyRow
  pub inherited : List PolicyRow
  pub general : List PolicyRow

pub data PolicyCause : Type 0 where
  allowed denied undetermined expired not_yet_valid context_unavailable profile_invalid :
      PolicyCause

pub record PolicyDecision : Type 0 where
  pub cause : PolicyCause
  pub grant : Option Grant

abbrev pub refused : PolicyCause → PolicyDecision
refused cause = record { cause = cause; grant = none }

abbrev pub context_eq : ReadingContext → ReadingContext → Bool
context_eq a b =
    text_eq a.deployment_id b.deployment_id
    && (text_eq a.scope_id b.scope_id
        && (text_eq a.subject_id b.subject_id
            && (text_eq a.surface b.surface
                && (text_eq a.purpose b.purpose && text_eq a.generation b.generation))))

unfoldable pub matches : PolicyBinding → ReadingContext → ReadingAction → Bool
matches binding context action =
    action_eq binding.action action && context_eq binding.context context

-- `grant.validUntil !== null && (!Number.isFinite(grant.validUntil) || grant.validUntil <= from)`
abbrev pub bad_end : ℤ → Option Number → Bool
bad_end start none = false
bad_end start (some (finite end)) = leb_ℤ end start
bad_end start (some _) = true

abbrev pub is_over : ℤ → Option Number → Bool
is_over now (some (finite end)) = leb_ℤ end now
is_over now _ = false

-- The window, and the maximum, of a grant that is bound to this reading.
unfoldable pub within_window : Grant → ℤ → Number → PolicyDecision
within_window g now (finite start) =
    if bad_end start g.valid_until
    then refused undetermined
    else if ltb_ℤ now start
    then refused not_yet_valid
    else if is_over now g.valid_until
    then refused expired
    else if level g.maximum == 0
    then refused denied
    else record { cause = allowed; grant = some g }
within_window g now _ = refused undetermined

unfoldable pub evaluate_grant : Option Grant → ReadingContext → ReadingAction → ℤ → PolicyDecision
unfolding matches within_window
evaluate_grant none context action now = refused undetermined
evaluate_grant (some g) context action now =
    if matches g.binding context action
    then within_window g now g.valid_from
    else refused undetermined

abbrev pub by_evaluation : Evaluation → PolicyDecision → PolicyDecision
by_evaluation denies decision = refused denied
by_evaluation indeterminate decision = refused undetermined
by_evaluation grants decision = decision

unfoldable pub evaluate_row : PolicyRow → ReadingContext → ReadingAction → ℤ → PolicyDecision
unfolding evaluate_grant
evaluate_row row context action now =
    by_evaluation row.evaluation (evaluate_grant row.grant context action now)

-- A tier's rows that match: none inherits, one decides, and more are not resolved.
unfoldable pub evaluate_tier :
    List PolicyRow → ReadingContext → ReadingAction → ℤ → PolicyDecision → PolicyDecision
unfolding evaluate_row
evaluate_tier [] context action now inherited = inherited
evaluate_tier (row ∷ []) context action now inherited = evaluate_row row context action now
evaluate_tier (row ∷ next ∷ rows) context action now inherited = refused undetermined

unfoldable pub evaluate_tiers :
    List (List PolicyRow) → ReadingContext → ReadingAction → ℤ → PolicyDecision
unfolding evaluate_tier
evaluate_tiers [] context action now = refused undetermined
evaluate_tiers (tier ∷ tiers) context action now =
    evaluate_tier (select (λ row. matches row.binding context action) tier) context action now
      (evaluate_tiers tiers context action now)

abbrev pub tiers_of : PolicyHierarchy → List (List PolicyRow)
tiers_of h = h.unit ∷ h.inherited ∷ h.general ∷ []

unfoldable pub evaluate_policy :
    PolicyHierarchy → ReadingContext → ReadingAction → Number → PolicyDecision
unfolding evaluate_tiers
evaluate_policy hierarchy context action (finite now) =
    evaluate_tiers (tiers_of hierarchy) context action now
evaluate_policy hierarchy context action _ = refused undetermined
