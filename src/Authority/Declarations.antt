-- ===== src/Authority/Declarations.antt =====
-- Declarations of an investiture: which are in force, and which of several count
-- (src/server/access/authority_rules.ts, and `applicableInvestitures` of
-- src/server/access/invitation_authority.ts, `scalarOrder` of
-- src/contracts/access_canonical.ts). An instant is a number of milliseconds.
use ledgerdesk.Prelude.{
  ℕ, ◌+◌, ◌-◌, ◌*◌, Bool, true, false, ◌&&◌, ◌||◌, List, [], ◌∷◌, ◌++◌, map, Option, none, some,
  select, any, all, length, leb, ◌==◌, if◌then◌else◌, Text, text, text_eq, text_lt, ℤ, pos, ltb_ℤ,
  leb_ℤ, eq_ℤ,
}
use ledgerdesk.Canonical.{quote}
use ledgerdesk.Authority.{Scope, contains}

-- A field that is no number of the safe integers, or no string, is `none`.
pub data Termination : Type 0 where
  expires : Option ℤ → Termination
  revalidate : Option Text → Termination
  endless : Termination

pub data Acceptance : Type 0 where
  null_acceptance missing_acceptance : Acceptance
  acceptance : Text → Acceptance

pub record DeclaredScope : Type 0 where
  pub matters : Option (List (Option Text))
  pub partitions : Option (List (Option Text))
  pub risks : Option (List (Option Text))
  pub population_ref : Option Text

-- A declaration that is missing has no fields.
pub record Declaration : Type 0 where
  pub holder_person_ref : Option Text
  pub revision : Option ℤ
  pub starts_at : Option ℤ
  pub termination : Termination
  pub issuer_person_ref : Option Text
  pub issuer_capacity_ref : Option Text
  pub function_ref : Option Text
  pub purpose_ref : Option Text
  pub maximum_grade_ref : Option Text
  pub independence_declaration_ref : Option Text
  pub replacement_or_challenge_procedure_ref : Option Text
  pub continuous_obligation_acceptance_ref : Acceptance
  pub scope : DeclaredScope

pub record Investiture : Type 0 where
  pub id : Text
  pub person_ref : Text
  pub permission_id : Text
  pub scope_ref : Text
  pub active : Bool
  pub revision : ℤ
  pub expires_at : ℤ
  pub declaration : Declaration

pub record RevalidationEvent : Type 0 where
  pub id : Text
  pub satisfied : Bool
  pub current_until : Option ℤ

pub record Resolution : Type 0 where
  pub active : Bool
  pub scope_ref : Text
  pub permission_id : Text
  pub selected_id : Text

abbrev pub only_one : List RevalidationEvent → Option ℤ
only_one (e ∷ []) = e.current_until
only_one _ = none

abbrev pub termination_deadline : List RevalidationEvent → Termination → Option ℤ
termination_deadline events (expires at_time) = at_time
termination_deadline events (revalidate none) = none
termination_deadline events (revalidate (some event_ref)) =
    only_one (select (λ e. text_eq (RevalidationEvent.id e) event_ref && e.satisfied) events)
termination_deadline events endless = none

unfoldable pub declaration_deadline : Declaration → List RevalidationEvent → Option ℤ
declaration_deadline d events = termination_deadline events d.termination

-- `null` counts as 0 in a comparison and in `Math.min`.
abbrev pub or_zero : Option ℤ → ℤ
or_zero none = pos 0
or_zero (some n) = n

-- `/^[A-Za-z0-9][A-Za-z0-9._:-]{0,127}$/`
abbrev pub is_ref_start : ℕ → Bool
is_ref_start c = (leb 65 c && leb c 90) || ((leb 97 c && leb c 122) || (leb 48 c && leb c 57))

abbrev pub is_ref_unit : ℕ → Bool
is_ref_unit c = is_ref_start c || (c == 46 || (c == 95 || (c == 58 || c == 45)))

unfoldable pub ref : Option Text → Bool
ref none = false
ref (some []) = false
ref (some (c ∷ s)) = is_ref_start c && (all is_ref_unit s && leb (length s) 127)

abbrev pub refs : Option (List (Option Text)) → Bool
refs none = false
refs (some values) = all ref values

abbrev pub is_accepted : Acceptance → Bool
is_accepted null_acceptance = true
is_accepted missing_acceptance = false
is_accepted (acceptance s) = ref (some s)

-- The conditions of the filter that the declaration alone decides.
unfoldable pub is_complete : Declaration → Bool
unfolding ref
is_complete d =
    all ref (
      d.issuer_person_ref ∷ d.issuer_capacity_ref ∷ d.function_ref ∷ d.purpose_ref
      ∷ d.maximum_grade_ref ∷ d.independence_declaration_ref
      ∷ d.replacement_or_challenge_procedure_ref ∷ [])
    && (is_accepted d.continuous_obligation_acceptance_ref
        && (refs d.scope.matters
            && (refs d.scope.partitions && (refs d.scope.risks && ref d.scope.population_ref))))

abbrev pub text_is : Text → Option Text → Bool
text_is s none = false
text_is s (some t) = text_eq t s

abbrev pub number_is : ℤ → Option ℤ → Bool
number_is n none = false
number_is n (some m) = eq_ℤ m n

abbrev pub has_started : ℤ → Option ℤ → Bool
has_started now none = false
has_started now (some n) = leb_ℤ n now

-- A high and a low surrogate are one code point.
abbrev pub onto_point : ℕ → List ℕ → List ℕ
onto_point c [] = c ∷ []
onto_point c (p ∷ points) =
    if leb 55296 c && (leb c 56319 && (leb 56320 p && leb p 57343))
    then (65536 + (c - 55296) * 1024 + (p - 56320)) ∷ points
    else c ∷ p ∷ points

-- `[...s]`
unfoldable pub code_points : Text → List ℕ
code_points [] = []
code_points (c ∷ s) = onto_point c (code_points s)

-- `scalarOrder(a, b) < 0`
unfoldable pub scalar_lt : Text → Text → Bool
unfolding code_points text_lt
scalar_lt a b = text_lt (code_points a) (code_points b)

abbrev pub insert_investiture : Investiture → List Investiture → List Investiture
insert_investiture i [] = i ∷ []
insert_investiture i (j ∷ js) =
    if scalar_lt (Investiture.id j) i.id then j ∷ insert_investiture i js else i ∷ j ∷ js

unfoldable pub sort_investitures : List Investiture → List Investiture
unfolding scalar_lt
sort_investitures [] = []
sort_investitures (i ∷ is) = insert_investiture i (sort_investitures is)

-- `new Set(xs).size === 1`
abbrev pub is_single : List Text → Bool
is_single [] = false
is_single (x ∷ xs) = all (text_eq x) xs

abbrev pub quoted : Option Text → Text
quoted none = text "null"
quoted (some s) = quote s

-- `JSON.stringify([purposeRef, maximumGradeRef])`
unfoldable pub signature : Investiture → Text
unfolding quote
signature i =
    91 ∷ quoted i.declaration.purpose_ref ++ 44 ∷ quoted i.declaration.maximum_grade_ref ++ 93 ∷ []

abbrev pub resolves : List Investiture → Text → Text → Resolution → Bool
resolves current permission scope r =
    r.active
    && (text_eq r.scope_ref scope
        && (text_eq r.permission_id permission
            && any (λ i. text_eq (Investiture.id i) r.selected_id) current))

abbrev pub selected_ids : List Investiture → List Resolution → Text → Text → List Text
selected_ids current resolutions permission scope =
    map (λ r. r.selected_id) (select (resolves current permission scope) resolutions)

abbrev pub is_chosen : List Text → Investiture → Bool
is_chosen selected i = any (λ s. text_eq s (Investiture.id i)) selected

abbrev pub chosen : List Investiture → List Text → List Investiture
chosen current selected = if is_single selected then select (is_chosen selected) current else []

-- Nothing of an empty list is in the last branch, as in the first.
unfoldable pub resolve_declarations :
    List Investiture → List Resolution → Text → Text → List Investiture
unfolding signature
resolve_declarations current resolutions permission scope =
    if is_single (map signature current)
    then current
    else chosen current (selected_ids current resolutions permission scope)

module _ (scopes : List Scope) (events : List RevalidationEvent)
    (person permission scope : Text) where
  unfoldable pub is_applicable : ℤ → Investiture → Bool
  unfolding declaration_deadline is_complete
  is_applicable now i =
      i.active
      && (text_eq i.person_ref person
          && (text_eq i.permission_id permission
              && (ltb_ℤ now i.expires_at
                  && (contains scopes i.scope_ref scope
                      && (text_is person i.declaration.holder_person_ref
                          && (number_is i.revision i.declaration.revision
                              && (has_started now i.declaration.starts_at
                                  && (ltb_ℤ now
                                        (or_zero (declaration_deadline i.declaration events))
                                      && is_complete i.declaration))))))))

  unfoldable pub applicable_investitures : ℤ → List Investiture → List Investiture
  unfolding is_applicable sort_investitures
  applicable_investitures now investitures =
      sort_investitures (select (is_applicable now) investitures)
