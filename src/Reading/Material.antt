-- ===== src/Reading/Material.antt =====
-- What a grant lets through of a material's metadata, and what a projection has to show
-- (`permittedMetadata` and `prerequisites` in src/server/reading/policy.ts). A classification is
-- the text that stands for it.
pub mod Conditions
use ledgerdesk.Prelude.{
  ℕ, Bool, true, false, ◌&&◌, ◌||◌, not, ◌==◌, if◌then◌else◌, Option, none, some, List, [], ◌∷◌,
  any, all, length, Text, text_eq,
}
use ledgerdesk.Reading.{
  MetadataKey, title, locator, editorial_state, classification, reading_conditions, key_eq, Grant,
  Disclosure, excerpt,
}

pub data EditorialState : Type 0 where
  candidate rejected approved_unpublished published suspended superseded withdrawn : EditorialState

abbrev pub editorial_eq : EditorialState → EditorialState → Bool
editorial_eq candidate candidate = true
editorial_eq rejected rejected = true
editorial_eq approved_unpublished approved_unpublished = true
editorial_eq published published = true
editorial_eq suspended suspended = true
editorial_eq superseded superseded = true
editorial_eq withdrawn withdrawn = true
editorial_eq _ _ = false

-- A field is `none` where the object has no such key.
pub record Metadata : Type 0 where
  pub title : Option Text
  pub locator : Option Text
  pub editorial_state : Option EditorialState
  pub classification : Option Text
  pub reading_conditions : Option (List Text)

pub record Fragment : Type 0 where
  pub fragment_id : Text
  pub body : Text
  pub locator : Option Text

pub record ProjectionRequirements : Type 0 where
  pub metadata : List MetadataKey
  pub fragment_ids : Option (List Text)

-- `grant.metadata.includes(key)`
abbrev pub includes : List MetadataKey → MetadataKey → Bool
includes keys key = any (λ k. key_eq k key) keys

abbrev pub keep_if {ℓ} : {A : Type ℓ} → Bool → Option A → Option A
keep_if true field = field
keep_if false field = none

unfoldable pub permitted_metadata : Metadata → Grant → Metadata
permitted_metadata m grant = record {
  title = keep_if (includes grant.metadata title) m.title;
  locator = keep_if (includes grant.metadata locator) m.locator;
  editorial_state = keep_if (includes grant.metadata editorial_state) m.editorial_state;
  classification = keep_if (includes grant.metadata classification) m.classification;
  reading_conditions = keep_if (includes grant.metadata reading_conditions) m.reading_conditions;
}

abbrev pub is_some {ℓ} : {A : Type ℓ} → Option A → Bool
is_some none = false
is_some (some _) = true

-- `Object.hasOwn(metadata, key)`
abbrev pub has_own : Metadata → MetadataKey → Bool
has_own m title = is_some m.title
has_own m locator = is_some m.locator
has_own m editorial_state = is_some m.editorial_state
has_own m classification = is_some m.classification
has_own m reading_conditions = is_some m.reading_conditions

-- `metadata.reading_conditions?.length`
abbrev pub has_conditions : Option (List Text) → Bool
has_conditions none = false
has_conditions (some conditions) = not (length conditions == 0)

-- The status of material that is not public: the real one, and shown.
abbrev pub same_status : Option EditorialState → EditorialState → Bool
same_status none real = false
same_status (some shown) real = editorial_eq shown real

abbrev is_published : EditorialState → Bool
is_published published = true
is_published _ = false

abbrev pub status_shown : Option EditorialState → Metadata → Bool
status_shown none shown = false
status_shown (some real) shown =
    is_published real
    || (same_status shown.editorial_state real && has_conditions shown.reading_conditions)

abbrev pub is_excerpt : Disclosure → Bool
is_excerpt excerpt = true
is_excerpt _ = false

abbrev listed : Option (List Text) → List Text
listed none = []
listed (some ids) = ids

abbrev pub fragments_present : Option (List Text) → List Fragment → Bool
fragments_present ids fragments =
    all (λ id. any (λ f. text_eq f.fragment_id id) fragments) (listed ids)

-- The checks on the requirements of a projection, in their order; `real` is the material's own
-- editorial state.
unfoldable pub meets :
    Option EditorialState → Disclosure → Metadata → List Fragment → ProjectionRequirements → Bool
meets real kind shown fragments required =
    if not (all (has_own shown) required.metadata)
    then false
    else if includes required.metadata reading_conditions
        && not (has_conditions shown.reading_conditions)
    then false
    else if not (status_shown real shown)
    then false
    else if is_excerpt kind && not (fragments_present required.fragment_ids fragments)
    then false
    else true

unfoldable pub prerequisites :
    Option EditorialState
    → Option ProjectionRequirements
    → Disclosure
    → Metadata
    → List Fragment
    → Bool
unfolding meets
prerequisites real none kind shown fragments = false
prerequisites real (some required) kind shown fragments = meets real kind shown fragments required
