-- ===== src/Authority/Compiling.antt =====
-- The terms that an account may put into an invitation (`compile` of
-- src/server/access/invitation_authority.ts, and `canonicalValue` of
-- src/contracts/access_canonical.ts on a list of strings).
use ledgerdesk.Prelude.{
  ℕ, Bool, true, false, ◌&&◌, not, List, [], ◌∷◌, ◌++◌, map, Option, none, some, find, select, any,
  ltb, leb, if◌then◌else◌, Text, text, text_eq, ℤ,
}
use ledgerdesk.Canonical.{quote}
use ledgerdesk.Authority.{Scope, contains, has}
use ledgerdesk.Authority.Declarations.{code_points, applicable_investitures}
use ledgerdesk.Authority.Grants.{
  AccessAccount, Permission, SupportKind, domain, delegated, Support, GrantRecord, Snapshot,
  Standing, and_then, support_alive, allows,
}

pub record GrantSelector : Type 0 where
  pub permission_id : Text
  pub exercise_or_grant : Text
  pub scope_ref : Text
  pub support_ref : Text

-- `accreditation` is always the same.
pub record DeclarationRef : Type 0 where
  pub declaration_ref : Text
  pub revision : ℤ

pub record InvitationTerm : Type 0 where
  pub selector : GrantSelector
  pub permission_label : Text
  pub scope_label : Text
  pub purpose_ref : Text
  pub support_label : Text
  pub continuity : SupportKind
  pub permission_revision : ℕ
  pub scope_revision : ℕ
  pub support_revision : ℕ
  pub expires_at : ℤ
  pub authority_declarations : List DeclarationRef

-- The terms, `null`, or the exception of `canonicalValue`.
pub data Compiled : Type 0 where
  compiled : List InvitationTerm → Compiled
  no_terms canonical_unicode : Compiled

abbrev pub is_surrogate : ℕ → Bool
is_surrogate p = leb 55296 p && leb p 57343

-- What stays once the pairs are removed is read anew, and holds no surrogate of its own.
unfoldable pub is_unicode : Text → Bool
unfolding code_points
is_unicode s = not (any is_surrogate (code_points (select (λ p. ltb p 65536) (code_points s))))

-- `canonicalValue([permission_id, exercise_or_grant, scope_ref])`
unfoldable pub selector_key : GrantSelector → Option Text
unfolding is_unicode quote
selector_key g =
    if is_unicode g.permission_id && (is_unicode g.exercise_or_grant && is_unicode g.scope_ref)
    then some (
        91 ∷ quote g.permission_id
        ++ 44 ∷ quote g.exercise_or_grant
        ++ 44 ∷ quote g.scope_ref
        ++ 93 ∷ [])
    else none

abbrev pub onto_terms : InvitationTerm → Compiled × ℤ → Compiled × ℤ
onto_terms term (compiled terms, d) = (compiled (term ∷ terms), d)
onto_terms term (no_terms, d) = (no_terms, d)
onto_terms term (canonical_unicode, d) = (canonical_unicode, d)

abbrev pub with_term : Option InvitationTerm × ℤ → (ℤ → Compiled × ℤ) → Compiled × ℤ
with_term (none, d) rest = (no_terms, d)
with_term (some term, d) rest = onto_terms term (rest d)

-- A key that was seen ends the loop.
abbrev pub with_key : Option Text → List Text → (Text → ℤ → Compiled × ℤ) → ℤ → Compiled × ℤ
with_key none seen rest d = (canonical_unicode, d)
with_key (some key) seen rest d = if has seen key then (no_terms, d) else rest key d

module _ (s : Snapshot) (account : AccessAccount) (family : Text) (now : ℤ) where
  abbrev pub holds_parent : GrantSelector → Option GrantRecord → Bool
  holds_parent g none = false
  holds_parent g (some parent) =
      text_eq parent.account_id account.id
      && (text_eq parent.permission_id g.permission_id
          && (text_eq parent.faculty (text "grant")
              && contains s.scopes parent.scope_ref g.scope_ref))

  abbrev pub may_pass_on : GrantSelector → SupportKind → Bool
  may_pass_on g domain = true
  may_pass_on g (delegated authority_id) =
      holds_parent g (find (λ x. text_eq (GrantRecord.id x) authority_id) s.grants)

  abbrev pub declarations_for : Text → Text → Option Permission → List DeclarationRef
  declarations_for scope id none = []
  declarations_for scope id (some p) =
      if p.requires_investiture
      then map (λ i. record { declaration_ref = i.id; revision = i.revision })
          (applicable_investitures s.scopes s.revalidation_events account.person_ref id scope now
            s.investitures)
      else []

  abbrev pub find_permission : Text → Option Permission
  find_permission id = find (λ p. text_eq (Permission.id p) id) s.permissions

  abbrev pub term_from : GrantSelector → Permission → Scope → Support → InvitationTerm
  term_from g p scope support = record {
    selector = g;
    permission_label = p.label;
    scope_label = scope.label;
    purpose_ref = scope.purpose_ref;
    support_label = support.label;
    continuity = support.kind;
    permission_revision = p.revision;
    scope_revision = scope.revision;
    support_revision = support.revision;
    expires_at = support.expires_at;
    authority_declarations =
        declarations_for g.scope_ref (text "invite") (find_permission (text "invite"))
        ++ declarations_for g.scope_ref g.permission_id (find_permission g.permission_id);
  }

  -- The three questions of the guard that lower the deadline.
  unfoldable pub authorized : GrantSelector → Support → ℤ → Standing
  unfolding support_alive allows
  authorized g support d = and_then (support_alive s 32 [] support.id now d) (λ d.
      and_then (allows s account (text "invite") (text "exercise") g.scope_ref now d)
        (allows s account g.permission_id (text "grant") g.scope_ref now))

  abbrev pub term_if :
      GrantSelector → Permission → Scope → Support → Standing → Option InvitationTerm × ℤ
  term_if g p scope support (false, d) = (none, d)
  term_if g p scope support (true, d) =
      if may_pass_on g support.kind then (some (term_from g p scope support), d) else (none, d)

  abbrev pub term_of_found :
      GrantSelector
      → Option Permission
      → Option Scope
      → Option Support
      → ℤ
      → Option InvitationTerm × ℤ
  term_of_found g (some p) (some scope) (some support) d =
      term_if g p scope support (authorized g support d)
  term_of_found g (some p) (some scope) none d = (none, d)
  term_of_found g (some p) none support d = (none, d)
  term_of_found g none scope support d = (none, d)

  unfoldable pub term_of : GrantSelector → ℤ → Option InvitationTerm × ℤ
  unfolding authorized
  term_of g =
      term_of_found g
        (find
          (λ p. text_eq (Permission.id p) g.permission_id && (p.active && text_eq p.family family))
          s.permissions)
        (find (λ x. text_eq (Scope.id x) g.scope_ref && x.active) s.scopes)
        (find (λ x. text_eq (Support.id x) g.support_ref) s.supports)

  unfoldable pub compile_from : List Text → List GrantSelector → ℤ → Compiled × ℤ
  unfolding selector_key term_of
  compile_from seen [] d = (compiled [], d)
  compile_from seen (g ∷ selectors) d =
      with_key (selector_key g) seen
        (λ key d. with_term (term_of g d) (compile_from (key ∷ seen) selectors)) d

  unfoldable pub compile : List GrantSelector → ℤ → Compiled × ℤ
  unfolding compile_from
  compile = compile_from []
