-- ===== src/Chain.antt =====
-- What the ledger's and the audit's chains share: a row that carries the digest of its predecessor
-- and its own (src/agents/ledger/row.ts and src/agents/audit.ts). The digest is a parameter.
pub mod Evidence
use ledgerdesk.Prelude.{
  ◌≡◌, refl, ℕ, Bool, true, false, List, [], ◌∷◌, ◌++◌, Option, none, some, if◌then◌else◌, Text,
  text, text_eq,
}
use ledgerdesk.Prelude.Checked.{Checked, ok, throws, ◌>>=◌}
use ledgerdesk.Canonical.{is_hex64}

-- `GENESIS` and `AUDIT_GENESIS`
abbrev pub genesis : Text
genesis = text "GENESIS"

-- A row with its place in the chain worked out.
pub record Chained (C : Type 0) : Type 0 where
  pub content : C
  pub prev_hash : Text
  pub row_hash : Text

-- `head ? head.row_hash : GENESIS`
abbrev pub head_hash : Option Text → Text
head_hash none = genesis
head_hash (some h) = h

-- The digest of the last row of a chain whose newest row stands first.
abbrev pub last_hash : {C : Type 0} → List (Chained C) → Option Text
last_hash [] = none
last_hash (c ∷ chain) = some c.row_hash

module _ {C : Type 0} (canonical : C → Checked Text) (sha256_hex : Text → Text) where
  -- `sha256Hex(prevHash + canonical(row))`
  unfoldable pub digest : Text → C → Checked Text
  digest prev row = do covered ← canonical row; ok (sha256_hex (prev ++ covered))

  unfoldable pub verify_after : Bool → Chained C → Checked Bool
  unfolding digest
  verify_after false c = ok false
  verify_after true c = do again ← digest c.prev_hash c.content; ok (text_eq again c.row_hash)

  -- `isHex64(row.row_hash) && hash(row.prev_hash, row) === row.row_hash`
  unfoldable pub verify : Chained C → Checked Bool
  unfolding is_hex64 verify_after
  verify c = verify_after (is_hex64 c.row_hash) c

  -- Every row verifies, and carries the digest of the row before it.
  abbrev pub IsChain : List (Chained C) → Type 0
  IsChain [] = Unit
  IsChain (c ∷ chain) =
      (verify c ≡ ok true) × (c.prev_hash ≡ head_hash (last_hash chain)) × IsChain chain
