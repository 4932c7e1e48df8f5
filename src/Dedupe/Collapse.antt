-- ===== src/Dedupe/Collapse.antt =====
-- What `collapseDuplicates` does with each submission.
use mathlib.Core.List.{Perm, perm_middle, append_assoc, map-append, append-nil}
use mathlib.Core.List.Perm
use ledgerdesk.Prelude.{Option, none, some, List, [], ◌∷◌, ◌++◌, map, ℤ, Text, get}
use ledgerdesk.Dedupe.{
  Submission, DedupeDecision, CollapseState, dedupe_decision, settle, folded, collapse_round,
  collapse_from, collapse_duplicates, content_of,
}

-- The submissions that a state has dealt with.
abbrev pub dealt : CollapseState → List Submission
dealt st = map (λ a. a.submission) st.admitted ++ map (λ c. c.submission) st.collapsed

perm_end {ℓ} : {A : Type ℓ} (xs : List A) (x : A) → Perm (xs ++ x ∷ []) (x ∷ xs)
perm_end xs x = rw (append-nil xs) at (perm_middle {a = x} xs [])

settle-dealt :
    (s : Submission) (d : DedupeDecision) (o : Option Text) (st : CollapseState)
    → Perm (dealt (settle s d o st)) (s ∷ dealt st)
unfolding settle
settle-dealt s d none st = rw (map-append, append_assoc) (perm_middle _ _)
settle-dealt s d (some into) st = rw (map-append, ← append_assoc) (perm_end _ s)

collapse_from-dealt :
    (window : ℤ) (st : CollapseState) (ss : List Submission)
    → Perm (dealt (collapse_from window st ss)) (dealt st ++ ss)
unfolding collapse_from collapse_round
collapse_from-dealt window st [] = rw append-nil Perm.rfl
collapse_from-dealt window st (s ∷ ss) =
    let d = dedupe_decision s (get (content_of s) st.open_groups) window in
    Perm.trans (collapse_from-dealt window (settle s d (folded d) st) ss) (
      Perm.trans (Perm.append_right ss (settle-dealt s d (folded d) st))
        (Perm.symm (perm_middle (dealt st) ss)))

-- Every submission ends up in one of the two lists, and once.
pub collapse_duplicates-perm :
    (ss : List Submission) (window : ℤ) → Perm (dealt (collapse_duplicates ss window)) ss
unfolding collapse_duplicates
collapse_duplicates-perm ss window = collapse_from-dealt window _ ss
