-- ===== src/Authority/Backing.antt =====
-- What backs the terms of an invitation (`compile` of src/server/access/invitation_authority.ts).
use ledgerdesk.Prelude.{
  ◌≡◌, refl, sym, ap, Bool, true, false, ◌&&◌, List, [], ◌∷◌, map, Option, none, some, find, All,
  Text, text, text_eq, text_eq_iff, Bool-cases, inl, inr, arith, ℤ,
}
use ledgerdesk.Authority.{Scope, contains, has}
use ledgerdesk.Authority.Grants.{
  AccessAccount, Permission, SupportKind, domain, delegated, Support, GrantRecord, Snapshot,
  Standing, and_then, support_alive, allows,
}
use ledgerdesk.Authority.Compiling.{
  GrantSelector, InvitationTerm, Compiled, compiled, no_terms, canonical_unicode, selector_key,
  onto_terms, with_term, with_key, holds_parent, may_pass_on, term_from, authorized, term_if,
  term_of_found, term_of, compile_from, compile,
}

and_then-true :
    (a : Standing) (rest : ℤ → Standing)
    → (and_then a rest).0 ≡ true
    → (a.0 ≡ true) × ((rest a.1).0 ≡ true)
and_then-true (true, d) rest h = (refl, h)
and_then-true (false, d) rest h = cc

onto_terms-compiled :
    (term : InvitationTerm) (x : Compiled × ℤ) (terms : List InvitationTerm)
    → (onto_terms term x).0 ≡ compiled terms
    → (more : List InvitationTerm) × (x.0 ≡ compiled more) × (terms ≡ term ∷ more)
onto_terms-compiled term (compiled more, d) terms h = (more, refl, cc)
onto_terms-compiled term (no_terms, d) terms h = cc
onto_terms-compiled term (canonical_unicode, d) terms h = cc

with_term-compiled :
    (x : Option InvitationTerm × ℤ) (rest : ℤ → Compiled × ℤ) (terms : List InvitationTerm)
    → (with_term x rest).0 ≡ compiled terms
    → (term : InvitationTerm) × (x.0 ≡ some term)
      × (more : List InvitationTerm) × ((rest x.1).0 ≡ compiled more)
      × (terms ≡ term ∷ more)
with_term-compiled (none, d) rest terms h = cc
with_term-compiled (some term, d) rest terms h =
    let (more, e, q) = onto_terms-compiled term (rest d) terms h in (term, refl, more, e, q)

with_key-compiled :
    (o : Option Text) (seen : List Text) (rest : Text → ℤ → Compiled × ℤ) (d : ℤ)
    (terms : List InvitationTerm)
    → (with_key o seen rest d).0 ≡ compiled terms
    → (key : Text) × ((rest key d).0 ≡ compiled terms)
with_key-compiled none seen rest d terms h = cc
with_key-compiled (some key) seen rest d terms h = elim (Bool-cases (has seen key)) [
  | inl on ↦ absurd (cc (rw on at h))
  | inr off ↦ (key, rw off at h)
]

three :
    (a b c d : Bool)
    → (a && (b && (c && d))) ≡ true
    → (a ≡ true) × (b ≡ true) × (c ≡ true) × (d ≡ true)
three a b c d h = ground arith

module _ (s : Snapshot) (account : AccessAccount) (family : Text) (now : ℤ) where
  -- A grant of the account's own, with the faculty to grant, whose scope covers the selector's.
  abbrev pub IsParent : GrantSelector → GrantRecord → Type 0
  IsParent g parent =
      (parent.account_id ≡ account.id)
      × (parent.permission_id ≡ g.permission_id)
      × (parent.faculty ≡ text "grant")
      × (contains s.scopes parent.scope_ref g.scope_ref ≡ true)

  abbrev pub IsPassedOn : GrantSelector → SupportKind → Type 0
  IsPassedOn g domain = Unit {0}
  IsPassedOn g (delegated authority_id) =
      (parent : GrantRecord) × (find (λ x. text_eq (GrantRecord.id x) authority_id) s.grants
        ≡ some parent)
      × IsParent g parent

  -- The support of a selector is alive, the account may invite and may grant the permission in the
  -- scope, each asked of some deadline, and a delegated support stands on a grant of its own.
  abbrev pub IsBacked : GrantSelector → Type 0
  IsBacked g =
      (support : Support) × (find (λ x. text_eq (Support.id x) g.support_ref) s.supports
        ≡ some support)
      × (d : ℤ) × ((support_alive s 32 [] support.id now d).0 ≡ true)
      × (e : ℤ) × ((allows s account (text "invite") (text "exercise") g.scope_ref now e).0 ≡ true)
      × (f : ℤ) × ((allows s account g.permission_id (text "grant") g.scope_ref now f).0 ≡ true)
      × IsPassedOn g support.kind

  may_pass_on-IsPassedOn :
      (g : GrantSelector) (kind : SupportKind)
      → may_pass_on s account family now g kind ≡ true
      → IsPassedOn g kind
  may_pass_on-IsPassedOn g domain h = tt
  may_pass_on-IsPassedOn g (delegated a) h =
      parent_of (find (λ x. text_eq (GrantRecord.id x) a) s.grants) h
    where
      parent_of :
          (o : Option GrantRecord)
          → holds_parent s account family now g o ≡ true
          → (parent : GrantRecord) × (o ≡ some parent) × IsParent g parent
      parent_of none h = cc
      parent_of (some parent) h =
          let (own, permission, faculty, covers) = three _ _ _ _ h in
          (
            parent,
            refl,
            (
              (text_eq_iff parent.account_id account.id).0 own,
              (text_eq_iff parent.permission_id g.permission_id).0 permission,
              (text_eq_iff parent.faculty (text "grant")).0 faculty,
              covers,
            ),
          )

  term_if-some :
      (g : GrantSelector) (p : Permission) (scope : Scope) (support : Support) (a : Standing)
      (term : InvitationTerm)
      → (term_if s account family now g p scope support a).0 ≡ some term
      → (a.0 ≡ true)
        × (may_pass_on s account family now g support.kind ≡ true)
        × (term.selector ≡ g)
  term_if-some g p scope support (false, d) term h = cc
  term_if-some g p scope support (true, d) term h =
      elim (Bool-cases (may_pass_on s account family now g support.kind)) [
        | inl on ↦
            let same : term_from s account family now g p scope support ≡ term = cc (rw on at h) in
            (refl, on, sym (ap (λ (t : InvitationTerm). t.selector) same))
        | inr off ↦ absurd (cc (rw off at h))
      ]

  term_of_found-IsBacked :
      (g : GrantSelector) (p : Option Permission) (scope : Option Scope) (support : Option Support)
      (d : ℤ) (term : InvitationTerm)
      → find (λ x. text_eq (Support.id x) g.support_ref) s.supports ≡ support
      → (term_of_found s account family now g p scope support d).0 ≡ some term
      → (term.selector ≡ g) × IsBacked g
  unfolding authorized
  term_of_found-IsBacked g none scope support d term f h = cc
  term_of_found-IsBacked g (some p) none support d term f h = cc
  term_of_found-IsBacked g (some p) (some scope) none d term f h = cc
  term_of_found-IsBacked g (some p) (some scope) (some support) d term f h =
      let (holds, passed, same) =
        term_if-some g p scope support (authorized s account family now g support d) term h in
      let (alive, both) =
        and_then-true (support_alive s 32 [] support.id now d)
          (λ d.
            and_then (allows s account (text "invite") (text "exercise") g.scope_ref now d)
              (allows s account g.permission_id (text "grant") g.scope_ref now))
          holds in
      let e = (support_alive s 32 [] support.id now d).1 in
      let (invites, grants) =
        and_then-true (allows s account (text "invite") (text "exercise") g.scope_ref now e)
          (allows s account g.permission_id (text "grant") g.scope_ref now) both in
      (
        same,
        (
          support,
          f,
          d,
          alive,
          e,
          invites,
          (allows s account (text "invite") (text "exercise") g.scope_ref now e).1,
          grants,
          may_pass_on-IsPassedOn g support.kind passed,
        ),
      )

  compile_from-IsBacked :
      (seen : List Text) (selectors : List GrantSelector) (d : ℤ) (terms : List InvitationTerm)
      → (compile_from s account family now seen selectors d).0 ≡ compiled terms
      → (map (λ t. t.selector) terms ≡ selectors) × All IsBacked selectors
  unfolding compile_from term_of
  compile_from-IsBacked seen [] d terms h =
      let none_made : [] ≡ terms = cc in (rw (← none_made) refl, tt)
  compile_from-IsBacked seen (g ∷ selectors) d terms h =
      let (key, k) = with_key-compiled (selector_key g) seen _ d terms h in
      let (term, made, more, rest, q) =
        with_term-compiled (term_of s account family now g d)
          (compile_from s account family now (key ∷ seen) selectors) terms k in
      let (own, backed) = term_of_found-IsBacked g _ _ _ d term refl made in
      let (same, others) = compile_from-IsBacked (key ∷ seen) selectors _ more rest in
      (rw (q, own, same) refl, (backed, others))

  -- Where terms are compiled they are of the given selectors, one for each and in their order. The
  -- support of each is alive, and the account may invite in its scope and grant its permission
  -- there; a delegated support stands on a grant of that account, of that permission, with the
  -- faculty to grant, whose scope covers the selector's.
  pub compile-IsBacked :
      (selectors : List GrantSelector) (d : ℤ) (terms : List InvitationTerm)
      → (compile s account family now selectors d).0 ≡ compiled terms
      → (map (λ t. t.selector) terms ≡ selectors) × All IsBacked selectors
  unfolding compile
  compile-IsBacked selectors d terms h = compile_from-IsBacked [] selectors d terms h
