-- ===== src/Dedupe.antt =====
-- Folding repeated submissions (src/alg/priority.ts, from `dedupeKey` on). Instants are
-- milliseconds.
pub mod Decision
pub mod Keys
pub mod Collapse
pub mod Window
pub mod Spacing
mod Examples
use ledgerdesk.Prelude.{
  suc, Bool, true, false, ◌||◌, not, Option, none, some, List, [], ◌∷◌, ◌++◌, if◌then◌else◌, ℤ, pos,
  negsuc, ◌-ℤ◌, ltb_ℤ, leb_ℤ, Text, decimal, Map, get, put,
}

abbrev pub default_dedupe_window_ms : ℤ
default_dedupe_window_ms = pos 300_000

-- `String(n)` on an integer.
unfoldable pub int_text : ℤ → Text
int_text (pos n) = decimal n
int_text (negsuc n) = 45 ∷ decimal (suc n)

-- `${orgId}:${bodySha256}`
unfoldable pub content_key : Text → Text → Text
content_key org sha = org ++ (58 ∷ sha)

-- `${orgId}:${bodySha256}:${anchorCreatedAt}`
unfoldable pub dedupe_key : Text → Text → ℤ → Text
unfolding content_key int_text
dedupe_key org sha anchor = content_key org sha ++ (58 ∷ int_text anchor)

pub record Submission : Type 0 where
  pub id : Text
  pub org_id : Text
  pub body_sha256 : Text
  pub created_at : ℤ

-- `is_open` is the source's `open`.
pub record DedupeIncumbent : Type 0 where
  pub id : Text
  pub anchor_created_at : ℤ
  pub is_open : Bool

pub record DedupeDecision : Type 0 where
  pub key : Text
  pub collapse : Bool
  pub collapsed_into : Option Text
  pub anchor_created_at : ℤ

unfoldable pub fresh : Submission → DedupeDecision
fresh s = record {
  key = dedupe_key s.org_id s.body_sha256 s.created_at;
  collapse = false;
  collapsed_into = none;
  anchor_created_at = s.created_at;
}

-- The window is half open: a gap of the whole window opens a new group.
unfoldable pub dedupe_decision : Submission → Option DedupeIncumbent → ℤ → DedupeDecision
unfolding fresh ◌-ℤ◌
dedupe_decision s none window = fresh s
dedupe_decision s (some i) window =
    let gap = s.created_at -ℤ i.anchor_created_at in
    if not i.is_open
    then fresh s
    else if ltb_ℤ gap (pos 0) || leb_ℤ window gap
    then fresh s
    else record {
      key = dedupe_key s.org_id s.body_sha256 i.anchor_created_at;
      collapse = true;
      collapsed_into = some i.id;
      anchor_created_at = i.anchor_created_at;
    }

pub record Admitted : Type 0 where
  pub submission : Submission
  pub key : Text

pub record Collapsed : Type 0 where
  pub submission : Submission
  pub into : Text

-- The three variables of the loop.
pub record CollapseState : Type 0 where
  pub open_groups : Map DedupeIncumbent
  pub admitted : List Admitted
  pub collapsed : List Collapsed

abbrev pub content_of : Submission → Text
content_of s = content_key s.org_id s.body_sha256

-- What one round does with its decision.
unfoldable pub settle : Submission → DedupeDecision → Option Text → CollapseState → CollapseState
settle s d none st = record {
  open_groups =
      put (content_of s)
        (record { id = s.id; anchor_created_at = d.anchor_created_at; is_open = true })
        st.open_groups;
  admitted = st.admitted ++ (record { submission = s; key = d.key } ∷ []);
  collapsed = st.collapsed;
}
settle s d (some into) st = record st {
  collapsed = st.collapsed ++ (record { submission = s; into = into } ∷ []);
}

-- `decision.collapse && decision.collapsedInto !== null`
abbrev folded : DedupeDecision → Option Text
folded d = if d.collapse then d.collapsed_into else none

unfoldable pub collapse_round : ℤ → CollapseState → Submission → CollapseState
unfolding settle
collapse_round window st s =
    let d = dedupe_decision s (get (content_of s) st.open_groups) window in settle s d (folded d) st

unfoldable pub collapse_from : ℤ → CollapseState → List Submission → CollapseState
collapse_from window st [] = st
collapse_from window st (s ∷ ss) = collapse_from window (collapse_round window st s) ss

unfoldable pub collapse_duplicates : List Submission → ℤ → CollapseState
unfolding collapse_from
collapse_duplicates submissions window =
    collapse_from window (record { open_groups = []; admitted = []; collapsed = [] }) submissions
