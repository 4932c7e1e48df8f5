-- ===== src/Reading/Examples.antt =====
-- A unit whose general tier lets a subject read excerpts, and whose own tier denies it.
use ledgerdesk.Prelude.{
  ◌≡◌, ◌≢◌, refl, ◌↔◌, some, none, [], ◌∷◌, true, false, pos, finite, text, text_eq,
}
use ledgerdesk.Reading.{
  excerpt, title, editorial_state, reading_conditions, ReadingContext, exact_action, PolicyBinding,
  Grant, grants, denies, PolicyRow, PolicyHierarchy, refused, denied, matches, within_window,
  evaluate_grant, evaluate_row, evaluate_tier, evaluate_tiers, tiers_of, evaluate_policy,
}
use ledgerdesk.Reading.Policy.{Applies, Grants, permits, evaluate_policy_iff}
use ledgerdesk.Reading.Material.{
  withdrawn, published, Metadata, has_own, permitted_metadata, prerequisites, meets,
}

abbrev reader : ReadingContext
reader = record {
  deployment_id = text "d";
  scope_id = text "s";
  subject_id = text "u";
  surface = text "m";
  purpose = text "p";
  generation = text "g";
}

abbrev reading : PolicyBinding
reading = record { context = reader; action = exact_action }

abbrev grant_100 : Grant
grant_100 = record {
  binding = reading;
  maximum = excerpt;
  metadata = editorial_state ∷ reading_conditions ∷ [];
  fragment_ids = text "f" ∷ [];
  fragment_locator_ids = [];
  valid_from = finite (pos 0);
  valid_until = some (finite (pos 100));
}

abbrev granting : PolicyRow
granting = record { binding = reading; evaluation = grants; grant = some grant_100 }

abbrev denying : PolicyRow
denying = record { binding = reading; evaluation = denies; grant = none }

abbrev open_unit : PolicyHierarchy
open_unit = record { unit = []; inherited = []; general = granting ∷ [] }

abbrev closed_unit : PolicyHierarchy
closed_unit = record { unit = denying ∷ []; inherited = []; general = granting ∷ [] }

denied_first : evaluate_policy closed_unit reader exact_action (finite (pos 50)) ≡ refused denied
unfolding evaluate_policy evaluate_tiers evaluate_tier evaluate_row matches text_eq
denied_first = refl

allowed_in_general :
    (evaluate_policy open_unit reader exact_action (finite (pos 50))).grant ≡ some grant_100
unfolding evaluate_policy evaluate_tiers evaluate_tier evaluate_row evaluate_grant within_window
    matches text_eq
allowed_in_general = refl

evaluate_policy_iff_example :
    (evaluate_policy open_unit reader exact_action (finite (pos 50)) ≡ permits grant_100) ↔ (
      (row : PolicyRow) × Applies reader exact_action (pos 50) (tiers_of open_unit) (row ∷ [])
      × Grants reader exact_action (pos 50) row grant_100)
evaluate_policy_iff_example = evaluate_policy_iff open_unit reader exact_action (pos 50) grant_100

abbrev old_text : Metadata
old_text = record {
  title = some (text "t");
  locator = none;
  editorial_state = some withdrawn;
  classification = none;
  reading_conditions = some (text "historical" ∷ []);
}

hidden_title : has_own (permitted_metadata old_text grant_100) title ≡ false
unfolding permitted_metadata
hidden_title = refl

met :
    prerequisites
      (some withdrawn)
      (some (record { metadata = editorial_state ∷ []; fragment_ids = none }))
      excerpt
      old_text
      []
    ≡ true
unfolding prerequisites meets
met = refl

not_public : withdrawn ≢ published
not_public e = cc
