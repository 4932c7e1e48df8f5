-- ===== src/Ledger/Linking.antt =====
-- Rows that `linkRow` attaches (src/agents/ledger/row.ts), and chains of them.
use ledgerdesk.Prelude.{
  ◌≡◌, refl, ap, ◌≢◌, ◌⊎◌, true, false, List, ◌++◌, Option, Text, text_eq, text_eq_iff, Bool-cases,
  not-eq-true, inl, inr,
}
use ledgerdesk.Prelude.Checked.{ok, >>=-ok}
use ledgerdesk.Canonical.{is_hex64}
use ledgerdesk.Chain.{genesis, head_hash, last_hash, digest, IsChain}
use ledgerdesk.Chain.Evidence.{AreAlike, Collision, same_head, digest-verify}
use ledgerdesk.Ledger.{
  LedgerRowContent, ChainedRow, canonical_row, row_hash, unless_looped, link_row, verify_row_hash,
}

-- What `linkRow` returns.
pub record Attached (sha256_hex : Text → Text) (row : LedgerRowContent) (head : Option Text)
    (c : ChainedRow) : Type 0 where
  pub content : c.content ≡ row
  pub prev_hash : c.prev_hash ≡ head_hash head
  pub verifies : verify_row_hash sha256_hex c ≡ ok true
  pub unlike : c.row_hash ≢ c.prev_hash

unless_looped-ok :
    (c d : ChainedRow) → unless_looped c ≡ ok d → (c ≡ d) × (c.row_hash ≢ c.prev_hash)
unfolding unless_looped
unless_looped-ok c d h = elim (Bool-cases (text_eq c.row_hash c.prev_hash)) [
  | inl same ↦ cc
  | inr other ↦ (cc, λ e. absurd (cc ((text_eq_iff c.row_hash c.prev_hash).1 e)))
]

pub hex-ne-genesis : (s : Text) → is_hex64 s ≡ true → s ≢ genesis
unfolding is_hex64
hex-ne-genesis s h e = absurd (cc (ap is_hex64 e))

-- A row that serialises is linked unless it digests to its predecessor.
pub link_row_lem :
    (sha256_hex : Text → Text) (row : LedgerRowContent) (head : Option Text) (t : Text)
    → canonical_row row ≡ ok t
    → sha256_hex (head_hash head ++ t) ≢ head_hash head
    → link_row sha256_hex row head
      ≡ ok (record {
        content = row;
        prev_hash = head_hash head;
        row_hash = sha256_hex (head_hash head ++ t);
      })
unfolding link_row row_hash digest unless_looped
link_row_lem sha256_hex row head t e n =
    let apart : text_eq (sha256_hex (head_hash head ++ t)) (head_hash head) ≡ false =
      not-eq-true _
        (λ s. absurd (n ((text_eq_iff (sha256_hex (head_hash head ++ t)) (head_hash head)).0 s))) in
    rw (e, apart) refl

-- A row that `linkRow` returns holds what it was given and the digest of the head, or `GENESIS`
-- without one; it differs from its predecessor's digest and the auditor's check accepts it. The
-- digest function returns sixty-four hexadecimal digits.
pub link_row-Attached :
    (sha256_hex : Text → Text) (row : LedgerRowContent) (head : Option Text) (c : ChainedRow)
    → ((t : Text) → is_hex64 (sha256_hex t) ≡ true)
    → link_row sha256_hex row head ≡ ok c
    → Attached sha256_hex row head c
unfolding link_row row_hash verify_row_hash
link_row-Attached sha256_hex row head c hex h =
    let (own, d, q) =
      >>=-ok (row_hash sha256_hex (head_hash head) row)
        (λ own.
          unless_looped (record { content = row; prev_hash = head_hash head; row_hash = own }))
        h in
    let (same, apart) =
      unless_looped-ok (record { content = row; prev_hash = head_hash head; row_hash = own }) c q in
    rw (← same) (record {
      content = refl;
      prev_hash = refl;
      verifies =
          digest-verify canonical_row sha256_hex
            (record { content = row; prev_hash = head_hash head; row_hash = own }) hex d;
      unlike = apart;
    })

-- Two runs of the ledger that verify and end in the same digest have equally many rows, which
-- serialise the same place by place and carry the same digests, or else they show two texts with
-- one digest.
pub verify_row_hash-same_head :
    (sha256_hex : Text → Text) (x y : List ChainedRow)
    → IsChain canonical_row sha256_hex x
    → IsChain canonical_row sha256_hex y
    → last_hash x ≡ last_hash y
    → AreAlike canonical_row sha256_hex x y ⊎ Collision canonical_row sha256_hex
verify_row_hash-same_head sha256_hex x y h k e = same_head canonical_row sha256_hex x y h k e
