-- ===== src/Authority/Grants.antt =====
-- Whether a support, a grant and an account's faculty hold at an instant, and until when
-- (`supportAlive`, `grantAlive`, `investitureAllows` and `allows` of
-- src/server/access/invitation_authority.ts). An answer carries the field `deadline`, which it lowers.
use ledgerdesk.Prelude.{
  ℕ, zero, suc, Bool, true, false, ◌&&◌, not, List, [], ◌∷◌, ◌++◌, Option, none, some, find,
  if◌then◌else◌, Text, text, text_eq, ℤ, ltb_ℤ, leb_ℤ,
}
use ledgerdesk.Authority.{Scope, contains, has}
use ledgerdesk.Authority.Declarations.{
  Investiture, RevalidationEvent, Resolution, declaration_deadline, or_zero, resolve_declarations,
  applicable_investitures,
}

pub record AccessAccount : Type 0 where
  pub id : Text
  pub person_ref : Text
  pub restricted : Bool

pub record Permission : Type 0 where
  pub id : Text
  pub active : Bool
  pub requires_investiture : Bool
  pub family : Text
  pub label : Text
  pub revision : ℕ

pub data SupportKind : Type 0 where
  domain : SupportKind
  delegated : Text → SupportKind

pub record Support : Type 0 where
  pub id : Text
  pub active : Bool
  pub kind : SupportKind
  pub expires_at : ℤ
  pub label : Text
  pub revision : ℕ

pub record GrantRecord : Type 0 where
  pub id : Text
  pub account_id : Text
  pub permission_id : Text
  pub faculty : Text
  pub scope_ref : Text
  pub support_ref : Text
  pub withdrawn : Bool
  pub expires_at : ℤ

pub record Snapshot : Type 0 where
  pub accounts : List AccessAccount
  pub permissions : List Permission
  pub scopes : List Scope
  pub supports : List Support
  pub grants : List GrantRecord
  pub investitures : List Investiture
  pub revalidation_events : List RevalidationEvent
  pub resolutions : List Resolution

-- The answer, and the deadline after it.
abbrev pub Standing : Type 0
Standing = Bool × ℤ

abbrev pub min_ℤ : ℤ → ℤ → ℤ
min_ℤ a b = if leb_ℤ a b then a else b

-- `a && b`, where `b` may lower the deadline.
abbrev pub and_then : Standing → (ℤ → Standing) → Standing
and_then (false, d) rest = (false, d)
and_then (true, d) rest = rest d

abbrev pub else_ask : Standing → (ℤ → Standing) → Standing
else_ask (true, d) rest = (true, d)
else_ask (false, d) rest = rest d

-- An early return of `false`; then the deadline is lowered to the expiry.
abbrev pub until : Bool → ℤ → ℤ → (ℤ → Standing) → ℤ → Standing
until fit now expiry rest d = if fit && ltb_ℤ now expiry then rest (min_ℤ d expiry) else (false, d)

abbrev pub for_some {ℓ} : {A : Type ℓ} → Option A → (A → ℤ → Standing) → ℤ → Standing
for_some none rest d = (false, d)
for_some (some a) rest d = rest a d

abbrev pub lowered : List RevalidationEvent → List Investiture → ℤ → ℤ
lowered events [] d = d
lowered events (i ∷ current) d = lowered events current (
    min_ℤ (min_ℤ d (Investiture.expires_at i))
      (or_zero (declaration_deadline i.declaration events)))

abbrev pub is_there {ℓ} : {A : Type ℓ} → List A → Bool
is_there [] = false
is_there (x ∷ xs) = true

module _ (s : Snapshot) where
  abbrev pub current_declarations : ℤ → Text → Text → Text → List Investiture
  current_declarations now person permission scope =
      resolve_declarations
        (applicable_investitures s.scopes s.revalidation_events person permission scope now
          s.investitures)
        s.resolutions permission scope

  abbrev pub by_declarations : Bool → List Investiture → ℤ → Standing
  by_declarations false current d = (true, d)
  by_declarations true current d = (is_there current, lowered s.revalidation_events current d)

  unfoldable pub investiture_allows : ℤ → Text → Text → Text → ℤ → Standing
  unfolding declaration_deadline resolve_declarations applicable_investitures
  investiture_allows now person permission scope =
      for_some (find (λ p. text_eq (Permission.id p) permission) s.permissions) (λ p.
        by_declarations p.requires_investiture (current_declarations now person permission scope))

  -- The part of `grantAlive` after the deadline is lowered.
  abbrev pub grant_holds :
      ℤ → GrantRecord → (ℤ → Standing) → AccessAccount → Permission → ℤ → Standing
  grant_holds now g rest a p d =
      if not a.restricted && (p.active && contains s.scopes g.scope_ref g.scope_ref)
      then and_then (investiture_allows now a.person_ref g.permission_id g.scope_ref d) rest
      else (false, d)

  abbrev pub grant_checked : ℤ → GrantRecord → (ℤ → Standing) → ℤ → Standing
  grant_checked now g rest =
      for_some (find (λ a. text_eq (AccessAccount.id a) g.account_id) s.accounts) (λ a.
        for_some (find (λ p. text_eq (Permission.id p) g.permission_id) s.permissions)
          (grant_holds now g rest a))

  abbrev pub by_kind : SupportKind → (Text → ℤ → Standing) → ℤ → Standing
  by_kind domain rest d = (true, d)
  by_kind (delegated authority_id) rest d = rest authority_id d

  -- `left` is 32 less the size of `visited`.
  unfoldable mutual
    unfolding investiture_allows

    pub support_alive : ℕ → List Text → Text → ℤ → ℤ → Standing
    support_alive zero visited id now d = (false, d)
    support_alive (suc left) visited id now d =
        for_some (find (λ x. text_eq (Support.id x) id) s.supports)
          (λ x. until (x.active && not (has visited (text "s:" ++ id))) now x.expires_at (
            by_kind x.kind (λ authority_id.
              grant_alive left ((text "s:" ++ id) ∷ visited)
                (find (λ g. text_eq (GrantRecord.id g) authority_id) s.grants) now)))
          d

    pub grant_alive : ℕ → List Text → Option GrantRecord → ℤ → ℤ → Standing
    grant_alive zero visited g now d = (false, d)
    grant_alive (suc left) visited none now d = (false, d)
    grant_alive (suc left) visited (some g) now d =
        until (not g.withdrawn && not (has visited (text "g:" ++ g.id))) now g.expires_at
          (grant_checked now g
            (support_alive left ((text "g:" ++ g.id) ∷ visited) g.support_ref now))
          d

  abbrev pub is_fitting : AccessAccount → Text → Text → Text → GrantRecord → Bool
  is_fitting a permission faculty scope g =
      text_eq g.account_id a.id
      && (text_eq g.permission_id permission
          && (text_eq g.faculty faculty && contains s.scopes g.scope_ref scope))

  abbrev pub some_grant : ℤ → (GrantRecord → Bool) → List GrantRecord → ℤ → Standing
  some_grant now fits [] d = (false, d)
  some_grant now fits (g ∷ grants) d =
      if fits g
      then else_ask (grant_alive 32 [] (some g) now d) (some_grant now fits grants)
      else some_grant now fits grants d

  -- `allows` of an account that is there.
  unfoldable pub allows : AccessAccount → Text → Text → Text → ℤ → ℤ → Standing
  unfolding investiture_allows grant_alive
  allows a permission faculty scope now d =
      if a.restricted
      then (false, d)
      else and_then (investiture_allows now a.person_ref permission scope d)
          (some_grant now (is_fitting a permission faculty scope) s.grants)
