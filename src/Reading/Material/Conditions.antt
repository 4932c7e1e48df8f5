-- ===== src/Reading/Material/Conditions.antt =====
-- What `permittedMetadata` and `prerequisites` show.
use ledgerdesk.Prelude.{
  ◌≡◌, refl, ap, ◌<◌, Bool, true, false, ◌&&◌, not, if◌then◌else◌, Option, none, some, List, all,
  length, arith, Text, ◌≢◌,
}
use ledgerdesk.Reading.{
  MetadataKey, title, locator, editorial_state, classification, reading_conditions, Grant,
  Disclosure,
}
use ledgerdesk.Reading.Material.{
  EditorialState, published, Metadata, Fragment, ProjectionRequirements, includes, keep_if,
  permitted_metadata, has_own, has_conditions, same_status, status_shown, fragments_present,
  is_some, is_excerpt, meets, prerequisites, editorial_eq,
}

-- The real state is shown, with at least one condition of reading.
pub record Warned (real : EditorialState) (shown : Metadata) : Type 0 where
  pub state : shown.editorial_state ≡ some real
  pub conditions : List Text
  pub stated : shown.reading_conditions ≡ some conditions
  pub some_condition : 0 < length conditions

editorial_eq_sound : (a b : EditorialState) → editorial_eq a b ≡ true → a ≡ b
editorial_eq_sound a b h = ground arith

-- The tests in their order.
four :
    (a b c d : Bool)
    → (if a then false else if b then false else if c then false else if d then false else true)
      ≡ true
    → (a ≡ false) × (b ≡ false) × (c ≡ false) × (d ≡ false)
four false false false false h = (refl, refl, refl, refl)
four true b c d h = cc
four false true c d h = cc
four false false true d h = cc
four false false false true h = cc

not-false : (b : Bool) → not b ≡ false → b ≡ true
not-false true h = refl
not-false false h = cc

meets-status_shown :
    (real : Option EditorialState) (kind : Disclosure) (shown : Metadata)
    (fragments : List Fragment) (required : ProjectionRequirements)
    → meets real kind shown fragments required ≡ true
    → status_shown real shown ≡ true
unfolding meets
meets-status_shown real kind shown fragments required h =
    let (keys, conditions, status, pieces) =
      four (not (all (has_own shown) required.metadata))
        (includes required.metadata reading_conditions
          && not (has_conditions shown.reading_conditions))
        (not (status_shown real shown))
        (is_excerpt kind && not (fragments_present required.fragment_ids fragments)) h in
    not-false (status_shown real shown) status

has_conditions-some :
    (o : Option (List Text))
    → has_conditions o ≡ true
    → (cs : List Text) × (o ≡ some cs) × (0 < length cs)
has_conditions-some none h = cc
has_conditions-some (some cs) h = (cs, refl, ground arith)

same_status-some :
    (o : Option EditorialState) (real : EditorialState) → same_status o real ≡ true → o ≡ some real
same_status-some none real h = cc
same_status-some (some shown) real h = ap some (editorial_eq_sound shown real h)

both : (a b : Bool) → (a && b) ≡ true → (a ≡ true) × (b ≡ true)
both true true h = (refl, refl)
both a b h = ground arith

status_shown-both :
    (real : EditorialState) (shown : Metadata)
    → real ≢ published
    → status_shown (some real) shown ≡ true
    → (same_status shown.editorial_state real ≡ true)
      × (has_conditions shown.reading_conditions ≡ true)
status_shown-both published shown n h = absurd (n refl)
status_shown-both real shown n h =
    both (same_status shown.editorial_state real) (has_conditions shown.reading_conditions) h

-- A projection whose prerequisites are met shows, of material that is not published, its real state
-- and at least one condition of reading.
pub prerequisites-Warned :
    (real : EditorialState) (required : Option ProjectionRequirements) (kind : Disclosure)
    (shown : Metadata) (fragments : List Fragment)
    → prerequisites (some real) required kind shown fragments ≡ true
    → real ≢ published
    → Warned real shown
unfolding prerequisites
prerequisites-Warned real none kind shown fragments h n = cc
prerequisites-Warned real (some required) kind shown fragments h n =
    let (state, conditions) =
      status_shown-both real shown n
        (meets-status_shown (some real) kind shown fragments required h) in
    let (cs, stated, some_condition) = has_conditions-some shown.reading_conditions conditions in
    record {
      state = same_status-some shown.editorial_state real state;
      conditions = cs;
      stated = stated;
      some_condition = some_condition;
    }

kept {ℓ} : {A : Type ℓ} (b : Bool) (o : Option A) → is_some (keep_if b o) ≡ (b && is_some o)
kept true o = refl
kept false o = refl

-- Of a material's metadata exactly the keys are let through that it has and that the grant names.
pub permitted_metadata-has_own :
    (m : Metadata) (grant : Grant) (key : MetadataKey)
    → has_own (permitted_metadata m grant) key ≡ (includes grant.metadata key && has_own m key)
unfolding permitted_metadata
permitted_metadata-has_own m grant title = kept (includes grant.metadata title) m.title
permitted_metadata-has_own m grant locator = kept (includes grant.metadata locator) m.locator
permitted_metadata-has_own m grant editorial_state =
    kept (includes grant.metadata editorial_state) m.editorial_state
permitted_metadata-has_own m grant classification =
    kept (includes grant.metadata classification) m.classification
permitted_metadata-has_own m grant reading_conditions =
    kept (includes grant.metadata reading_conditions) m.reading_conditions
