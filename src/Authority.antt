-- ===== src/Authority.antt =====
-- The hierarchy of scopes that an invitation's authority is checked in (`contains` in
-- src/server/access/invitation_authority.ts).
pub mod Containment
pub mod Declarations
pub mod Grants
pub mod Listed
pub mod Current
pub mod Deadline
pub mod Lasting
pub mod Compiling
pub mod Backing
mod Examples
use ledgerdesk.Prelude.{
  ℕ, zero, suc, Bool, true, false, ◌&&◌, ◌==◌, if◌then◌else◌, Option, none, some, List, [], ◌∷◌,
  find, any, length, Text, text_eq,
}

pub record Scope : Type 0 where
  pub id : Text
  pub parent_id : Option Text
  pub active : Bool
  pub label : Text
  pub purpose_ref : Text
  pub revision : ℕ

-- `this.scopes.find((s) => s.id === n && s.active)`
unfoldable pub active_scope : List Scope → Text → Option Scope
active_scope scopes n = find (λ s. text_eq s.id n && s.active) scopes

-- `visited.has(n)`
abbrev pub has : List Text → Text → Bool
has visited n = any (λ v. text_eq v n) visited

-- A round of the loop, once the scope is looked up; `further` is what the next round gives.
abbrev pub round : Text → Text → Option Scope → (Option Text → Bool) → Bool
round parent n none further = false
round parent n (some s) further = if text_eq n parent then true else further s.parent_id

-- `left` is 32 less the size of `visited`. An empty identifier ends the loop, as `null` does.
unfoldable pub contains_from : List Scope → Text → ℕ → List Text → Option Text → Bool
contains_from scopes parent zero visited n = false
contains_from scopes parent (suc left) visited none = false
contains_from scopes parent (suc left) visited (some n) =
    if length n == 0
    then false
    else if has visited n
    then false
    else round parent n (active_scope scopes n) (contains_from scopes parent left (n ∷ visited))

unfoldable pub contains : List Scope → Text → Text → Bool
unfolding contains_from
contains scopes parent child = contains_from scopes parent 32 [] (some child)
