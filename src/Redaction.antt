-- ===== src/Redaction.antt =====
-- The values that are removed from what leaves, and the canaries that show it (src/agents/redaction.ts
-- and src/agents/canary.ts). `toLowerCase` is a parameter. The dictionary of regular expressions
-- is not here.
use ledgerdesk.Prelude.{
  ℕ, zero, suc, ◌-◌, Bool, true, false, ◌&&◌, ◌||◌, List, [], ◌∷◌, ◌++◌, map, Option, none, some,
  select, length, ltb, ◌==◌, if◌then◌else◌, Text, text, trim, ℤ,
}

pub data RedactionKind : Type 0 where
  literal email card account phone id : RedactionKind

-- One value that was removed.
pub record Removal : Type 0 where
  pub kind : RedactionKind
  pub value : Text

abbrev pub Counts : Type 0
Counts = RedactionKind → ℤ

pub record RedactionResult : Type 0 where
  pub text : Text
  pub removed : List Removal
  pub counts : Counts

abbrev pub kind_name : RedactionKind → Text
kind_name literal = text "literal"
kind_name email = text "email"
kind_name card = text "card"
kind_name account = text "account"
kind_name phone = text "phone"
kind_name id = text "id"

unfoldable pub marker : RedactionKind → Text
marker kind = text "[REDACTED:" ++ (kind_name kind ++ 93 ∷ [])

abbrev pub redaction_kinds : List RedactionKind
redaction_kinds = literal ∷ email ∷ card ∷ account ∷ phone ∷ id ∷ []

abbrev pub min_literal_length : ℕ
min_literal_length = 8

-- `s.startsWith(t)`
unfoldable pub starts_with : Text → Text → Bool
starts_with s [] = true
starts_with [] (d ∷ t) = false
starts_with (c ∷ s) (d ∷ t) = (c == d) && starts_with s t

-- `s.includes(t)`
unfoldable pub holds_text : Text → Text → Bool
unfolding starts_with
holds_text [] t = starts_with [] t
holds_text (c ∷ s) t = starts_with (c ∷ s) t || holds_text s t

abbrev pub join_with : Text → List Text → Text
join_with glue [] = []
join_with glue (s ∷ []) = s
join_with glue (s ∷ t ∷ r) = s ++ (glue ++ join_with glue (t ∷ r))

-- Whether a removal is searched for: a literal below the least length is not.
abbrev pub is_searched : RedactionKind → Text → Bool
is_searched literal value =
    if length value == 0
    then false
    else if ltb (length value) min_literal_length
    then false
    else true
is_searched kind value = if length value == 0 then false else true

module _ (to_lower_case : Text → Text) where
  abbrev pub leaks : Text → Removal → Bool
  leaks folded removal =
      is_searched removal.kind (trim removal.value)
      && holds_text folded (to_lower_case (trim removal.value))

  abbrev pub first_leak : Text → List Removal → Option Removal
  first_leak folded [] = none
  first_leak folded (removal ∷ removed) =
      if leaks folded removal then some removal else first_leak folded removed

  unfoldable pub find_leak : Text → List Removal → Option Removal
  unfolding first_leak
  find_leak haystack removed = first_leak (to_lower_case haystack) removed

-- The length of the marker that a text starts with, or 0.
abbrev pub marker_at : List RedactionKind → Text → ℕ
marker_at [] s = 0
marker_at (kind ∷ kinds) s =
    if starts_with s (marker kind) then length (marker kind) else marker_at kinds s

-- `skip` code units belong to a marker that was replaced.
unfoldable pub without_from : ℕ → Text → Text
unfolding marker_at
without_from skip [] = []
without_from (suc skip) (c ∷ s) = without_from skip s
without_from zero (c ∷ s) =
    let n = marker_at redaction_kinds (c ∷ s) in (if n == 0 then c else 32) ∷ without_from (n - 1) s

-- Each marker becomes a space.
unfoldable pub without_markers : Text → Text
unfolding without_from
without_markers s = without_from 0 s

pub record CanarySpec : Type 0 where
  pub kind : RedactionKind
  pub value : Text → Text
  pub lead : Text

abbrev pub canaries : List CanarySpec
canaries =
    record {
      kind = email;
      value = (λ token. text "ld-canary-" ++ (token ++ text "@canary.invalid"));
      lead = [];
    }
    ∷ record { kind = account; value = (λ token. text "DE89 3704 0044 0532 0130 00"); lead = [] }
    ∷ record { kind = card; value = (λ token. text "4111 1111 1111 1111"); lead = [] }
    ∷ record { kind = phone; value = (λ token. text "0400 000 000"); lead = [] }
    ∷ record { kind = id; value = (λ token. text "123 456 782"); lead = text "TFN " }
    ∷ []

-- `CANARY_CONTRIBUTION[kind] ?? 0`
abbrev pub canary_contribution : RedactionKind → ℕ
canary_contribution literal = 0
canary_contribution email = 1
canary_contribution account = 1
canary_contribution card = 1
canary_contribution phone = 1
canary_contribution id = 1

abbrev pub canary_mark : Text
canary_mark = 10 ∷ text "<<ledgerdesk-canary>> "

pub record PlantedCanaries : Type 0 where
  pub block : Text
  pub expected_tail : Text
  pub values : List Text

unfoldable pub plant : Text → PlantedCanaries
unfolding marker
plant token = record {
  block =
      canary_mark
      ++ join_with (text " ") (map (λ c. CanarySpec.lead c ++ CanarySpec.value c token) canaries);
  expected_tail =
      canary_mark
      ++ join_with (text " ") (map (λ c. CanarySpec.lead c ++ marker (CanarySpec.kind c)) canaries);
  values = map (λ c. CanarySpec.value c token) canaries;
}

unfoldable pub surviving_kinds : Text → Text → List RedactionKind
unfolding holds_text
surviving_kinds redacted token =
    map (λ c. CanarySpec.kind c)
      (select (λ c. holds_text redacted (CanarySpec.value c token)) canaries)
