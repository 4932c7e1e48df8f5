-- ===== src/Authority/Examples.antt =====
-- A unit in a department, two scopes that name each other as parents, and an account with one grant.
use mathlib.Core.List.{Memᴰ}
use ledgerdesk.Prelude.{
  map, All, ℕ, ◌≡◌, refl, ap, false, ℤ, pos, ltb_ℤ, text_lt, ◌↔◌, ◌≤◌, Option, some, none, List, [],
  ◌∷◌, true, false, Text, text, text_eq,
}
use ledgerdesk.Authority.{Scope, active_scope, contains, contains_from}
use ledgerdesk.Canonical.{quote, long}
use ledgerdesk.Authority.Declarations.{
  Declaration, Investiture, expires, null_acceptance, has_started, declaration_deadline,
  resolve_declarations, applicable_investitures, is_applicable, is_complete, ref, sort_investitures,
  scalar_lt, code_points, signature,
}
use ledgerdesk.Authority.Grants.{
  AccessAccount, Snapshot, domain, delegated, GrantRecord, Standing, investiture_allows,
  support_alive, grant_alive, allows,
}
use ledgerdesk.Authority.Compiling.{
  GrantSelector, InvitationTerm, Compiled, compiled, selector_key, is_unicode, authorized, term_of,
  compile_from, compile,
}
use ledgerdesk.Authority.Backing.{IsBacked, compile-IsBacked}
use ledgerdesk.Authority.Lasting.{allows-lasts}
use ledgerdesk.Authority.Containment.{Below, contains_iff}

abbrev scope : Text → Option Text → Scope
scope id parent = record {
  id = id;
  parent_id = parent;
  active = true;
  label = id;
  purpose_ref = text "w";
  revision = 1;
}

abbrev department : List Scope
department = scope (text "d") none ∷ scope (text "u") (some (text "d")) ∷ []

abbrev loop : List Scope
loop = scope (text "x") (some (text "y")) ∷ scope (text "y") (some (text "x")) ∷ []

unit_in_department : contains department (text "d") (text "u") ≡ true
unfolding contains contains_from active_scope text_eq
unit_in_department = refl

nothing_in_loop : contains loop (text "d") (text "x") ≡ false
unfolding contains contains_from active_scope text_eq
nothing_in_loop = refl

contains_iff_example :
    (contains department (text "d") (text "u") ≡ true)
    ↔ ((k : ℕ) × (k ≤ 32) × Below department (text "d") k (text "u"))
contains_iff_example = contains_iff department (text "d") (text "u")

declared : Text → ℤ → Declaration
declared purpose start = record {
  holder_person_ref = some (text "p");
  revision = some (pos 1);
  starts_at = some start;
  termination = expires (some (pos 70));
  issuer_person_ref = some (text "r");
  issuer_capacity_ref = some (text "r");
  function_ref = some (text "r");
  purpose_ref = some purpose;
  maximum_grade_ref = some (text "CONTENT");
  independence_declaration_ref = some (text "r");
  replacement_or_challenge_procedure_ref = some (text "r");
  continuous_obligation_acceptance_ref = null_acceptance;
  scope = record {
    matters = some [];
    partitions = some [];
    risks = some [];
    population_ref = some (text "r");
  };
}

invested : Text → Text → ℤ → Investiture
invested id purpose start = record {
  id = id;
  person_ref = text "p";
  permission_id = text "q";
  scope_ref = text "d";
  active = true;
  revision = pos 1;
  expires_at = pos 80;
  declaration = declared purpose start;
}

abbrev reader : AccessAccount
reader = record { id = text "a"; person_ref = text "p"; restricted = false }

given : List Investiture → Snapshot
given investitures = record {
  accounts = reader ∷ [];
  permissions =
      record {
        id = text "q";
        active = true;
        requires_investiture = true;
        family = text "application";
        label = text "q";
        revision = 1;
      }
      ∷ [];
  scopes = department;
  supports =
      record {
        id = text "o";
        active = true;
        kind = domain;
        expires_at = pos 100;
        label = text "o";
        revision = 1;
      }
      ∷ [];
  grants =
      record {
        id = text "g";
        account_id = text "a";
        permission_id = text "q";
        faculty = text "exercise";
        scope_ref = text "d";
        support_ref = text "o";
        withdrawn = false;
        expires_at = pos 90;
      }
      ∷ [];
  investitures = investitures;
  revalidation_events = [];
  resolutions = [];
}

abbrev one_declaration : Snapshot
one_declaration = given (invested (text "i") (text "w") (pos 0) ∷ [])

abbrev asked : Snapshot → ℤ → Standing
asked s now = allows s reader (text "q") (text "exercise") (text "u") now (pos 1000)

allowed_until : asked one_declaration (pos 10) ≡ (true, pos 70)
unfolding allows grant_alive support_alive investiture_allows declaration_deadline
    resolve_declarations applicable_investitures is_applicable is_complete ref sort_investitures
    scalar_lt code_points signature quote contains contains_from active_scope text_eq text_lt
    invested declared given
allowed_until = refl

already_started :
    (i : Investiture)
    → Memᴰ i one_declaration.investitures
    → has_started (pos 50) i.declaration.starts_at ≡ true
    → has_started (pos 10) i.declaration.starts_at ≡ true
unfolding given invested declared
already_started i (Memᴰ.head e) h = rw e refl
already_started i (Memᴰ.tail m) h = elim m [ ]

allows-lasts_example : (asked one_declaration (pos 50)).0 ≡ true
allows-lasts_example =
    allows-lasts one_declaration (pos 10) (pos 50) refl already_started reader (text "q")
      (text "exercise") (text "u") (pos 1000) (pos 1000) (ap (λ (a : Standing). a.0) allowed_until)
      (ap (λ (a : Standing). ltb_ℤ (pos 50) a.1) allowed_until)

-- A declaration of another purpose starts before the deadline, and what was allowed is no longer.
abbrev two_declarations : Snapshot
two_declarations =
    given (invested (text "i") (text "w") (pos 0) ∷ invested (text "j") (text "v") (pos 30) ∷ [])

allowed_before : asked two_declarations (pos 10) ≡ (true, pos 70)
unfolding allows grant_alive support_alive investiture_allows declaration_deadline
    resolve_declarations applicable_investitures is_applicable is_complete ref sort_investitures
    scalar_lt code_points signature quote contains contains_from active_scope text_eq text_lt
    invested declared given
allowed_before = refl

not_allowed_then : (asked two_declarations (pos 50)).0 ≡ false
unfolding allows grant_alive support_alive investiture_allows declaration_deadline
    resolve_declarations applicable_investitures is_applicable is_complete ref sort_investitures
    scalar_lt code_points signature quote contains contains_from active_scope text_eq text_lt
    invested declared given long
not_allowed_then = refl

-- An account that may invite, with a grant to pass on, and a support that stands on that grant.
issuing : Snapshot
issuing = record {
  accounts = reader ∷ [];
  permissions =
      record {
        id = text "invite";
        active = true;
        requires_investiture = false;
        family = text "x";
        label = text "l";
        revision = 1;
      }
      ∷ record {
        id = text "q";
        active = true;
        requires_investiture = false;
        family = text "x";
        label = text "m";
        revision = 1;
      }
      ∷ [];
  scopes = department;
  supports =
      record {
        id = text "o";
        active = true;
        kind = domain;
        expires_at = pos 100;
        label = text "n";
        revision = 1;
      }
      ∷ record {
        id = text "e";
        active = true;
        kind = delegated (text "h");
        expires_at = pos 60;
        label = text "n";
        revision = 1;
      }
      ∷ [];
  grants =
      granted (text "g") (text "invite") (text "exercise")
      ∷ granted (text "h") (text "q") (text "grant")
      ∷ [];
  investitures = [];
  revalidation_events = [];
  resolutions = [];
}
  where
    granted : Text → Text → Text → GrantRecord
    granted id permission faculty = record {
      id = id;
      account_id = text "a";
      permission_id = permission;
      faculty = faculty;
      scope_ref = text "d";
      support_ref = text "o";
      withdrawn = false;
      expires_at = pos 90;
    }

abbrev wanted : List GrantSelector
wanted =
    record {
      permission_id = text "q";
      exercise_or_grant = text "exercise";
      scope_ref = text "u";
      support_ref = text "e";
    }
    ∷ []

abbrev issued : List InvitationTerm
issued =
    record {
      selector = record {
        permission_id = text "q";
        exercise_or_grant = text "exercise";
        scope_ref = text "u";
        support_ref = text "e";
      };
      permission_label = text "m";
      scope_label = text "u";
      purpose_ref = text "w";
      support_label = text "n";
      continuity = delegated (text "h");
      permission_revision = 1;
      scope_revision = 1;
      support_revision = 1;
      expires_at = pos 60;
      authority_declarations = [];
    }
    ∷ []

terms_issued :
    compile issuing reader (text "x") (pos 10) wanted (pos 1000) ≡ (compiled issued, pos 60)
unfolding compile compile_from term_of authorized selector_key is_unicode allows grant_alive
    support_alive investiture_allows code_points quote contains contains_from active_scope text_eq
    issuing
terms_issued = refl

compile-IsBacked_example :
    (map (λ t. t.selector) issued ≡ wanted)
    × All (IsBacked issuing reader (text "x") (pos 10)) wanted
compile-IsBacked_example =
    compile-IsBacked issuing reader (text "x") (pos 10) wanted (pos 1000) issued
      (ap (λ (r : Compiled × ℤ). r.0) terms_issued)

-- Two halves of pairs around a pair join to another one once it is removed.
ill_formed_passes : is_unicode (55296 ∷ 55296 ∷ 56320 ∷ 56320 ∷ []) ≡ true
unfolding is_unicode code_points
ill_formed_passes = refl
