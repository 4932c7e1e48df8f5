-- ===== src/Dedupe/Spacing.antt =====
-- `collapseDuplicates`: two entries of one content, where submissions come in order.
use ledgerdesk.Prelude.{
  ◌≡◌, refl, inl, inr, true, arith, none, some, List, [], ◌∷◌, ◌++◌, All, All-append, Option-cases,
  Bool-cases, ℤ, ◌-ℤ◌, leb_ℤ, ◌≤ℤ◌, Text, Map, get, put, get-put, text_eq, text_eq_refl,
}
use ledgerdesk.Dedupe.Window.{anchor_of}
use ledgerdesk.Dedupe.{
  Submission, DedupeIncumbent, DedupeDecision, Admitted, CollapseState, dedupe_decision, settle,
  folded, collapse_round, collapse_from, collapse_duplicates, content_of,
}

-- Every submission comes at the instant of the one before it or later.
abbrev pub Ascending : ℤ → List Submission → Type 0
Ascending t [] = Unit
Ascending t (s ∷ ss) = (t ≤ℤ s.created_at) × Ascending s.created_at ss

module _ (window : ℤ) where
  -- An entry of the same content comes a whole window later.
  abbrev pub Apart : Submission → Submission → Type 0
  Apart a b = content_of a ≡ content_of b → leb_ℤ window (b.created_at -ℤ a.created_at) ≡ true

  abbrev pub Spaced : List Admitted → Type 0
  Spaced [] = Unit
  Spaced (a ∷ l) = All (λ b. Apart a.submission b.submission) l × Spaced l

  Spaced-end :
      (l : List Admitted) (b : Admitted)
      → Spaced l
      → All (λ a. Apart a.submission b.submission) l
      → Spaced (l ++ b ∷ [])
  Spaced-end [] b h k = (tt, tt)
  Spaced-end (a ∷ l) b (p, h) (q, k) =
      (All-append (λ b. Apart a.submission b.submission) l _ p (q, tt), Spaced-end l b h k)

  -- The open group of an entry's content is anchored at the entry's instant or later, but not
  -- later than `t`.
  abbrev Current : ℤ → Map DedupeIncumbent → Admitted → Type 0
  Current t groups a =
      (i : DedupeIncumbent) × (get (content_of a.submission) groups ≡ some i)
      × (i.is_open ≡ true)
      × (a.submission.created_at ≤ℤ i.anchor_created_at)
      × (i.anchor_created_at ≤ℤ t)

  record Tracks (t : ℤ) (st : CollapseState) : Type 0 where
    current : All (Current t st.open_groups) st.admitted
    spaced : Spaced st.admitted

  Current-later :
      (t u : ℤ) (groups : Map DedupeIncumbent) (l : List Admitted)
      → t ≤ℤ u
      → All (Current t groups) l
      → All (Current u groups) l
  Current-later t u groups [] le h = tt
  Current-later t u groups (a ∷ l) le ((i, e, o, p, q), h) =
      ((i, e, o, p, omega arith), Current-later t u groups l le h)

  Current-put :
      (s : Submission) (i : DedupeIncumbent) (groups : Map DedupeIncumbent) (l : List Admitted)
      (t : ℤ)
      → i.is_open ≡ true
      → i.anchor_created_at ≡ s.created_at
      → t ≤ℤ s.created_at
      → All (Current t groups) l
      → All (Current s.created_at (put (content_of s) i groups)) l
  Current-put s i groups [] t o e le h = tt
  Current-put s i groups (a ∷ l) t o e le ((j, f, oj, p, q), h) = (
    elim (Bool-cases (text_eq (content_of s) (content_of a.submission))) [
      | inl same ↦ (i, rw (get-put, same), o, rw e (omega arith), rw e (omega arith))
      | inr other ↦ (j, rw (get-put, other) f, oj, p, omega arith)
    ],
    Current-put s i groups l t o e le h,
  )

  -- A submission that opens a group is a whole window from every entry of its content.
  opens-apart :
      (s : Submission) (i : DedupeIncumbent) (t : ℤ)
      → folded (dedupe_decision s (some i) window) ≡ none
      → i.is_open ≡ true
      → i.anchor_created_at ≤ℤ s.created_at
      → leb_ℤ window (s.created_at -ℤ i.anchor_created_at) ≡ true
  unfolding dedupe_decision ◌-ℤ◌
  opens-apart s i t h o le = ground arith

  leb-shift : (a b c : ℤ) → a ≤ℤ b → leb_ℤ window (c -ℤ b) ≡ true → leb_ℤ window (c -ℤ a) ≡ true
  unfolding ◌-ℤ◌
  leb-shift a b c le h = ground arith

  entries-Apart :
      (s : Submission) (t : ℤ) (groups : Map DedupeIncumbent) (l : List Admitted)
      → folded (dedupe_decision s (get (content_of s) groups) window) ≡ none
      → t ≤ℤ s.created_at
      → All (Current t groups) l
      → All (λ a. Apart a.submission s) l
  entries-Apart s t groups [] h le k = tt
  entries-Apart s t groups (a ∷ l) h le ((i, e, o, p, q), k) = (
    λ same.
        let found : get (content_of s) groups ≡ some i = rw (← same) e in
        leb-shift a.submission.created_at i.anchor_created_at s.created_at p
          (opens-apart s i t (rw found at h) o (omega arith)),
    entries-Apart s t groups l h le k,
  )

  settle_new-Tracks :
      (s : Submission) (d : DedupeDecision) (t : ℤ) (st : CollapseState)
      → d.anchor_created_at ≡ s.created_at
      → t ≤ℤ s.created_at
      → All (λ a. Apart a.submission s) st.admitted
      → Tracks t st
      → Tracks s.created_at (settle s d none st)
  unfolding settle
  settle_new-Tracks s d t st e le apart v =
      let i : DedupeIncumbent = record {
        id = s.id;
        anchor_created_at = d.anchor_created_at;
        is_open = true;
      } in
      let old = Current-put s i st.open_groups st.admitted t refl e le v.current in
      record {
        current =
            All-append (Current s.created_at (put (content_of s) i st.open_groups)) st.admitted _
              old
              ((i, rw (get-put, text_eq_refl), refl, rw e (omega arith), rw e (omega arith)), tt);
        spaced = Spaced-end st.admitted (record { submission = s; key = d.key }) v.spaced apart;
      }

  settle_folded-Tracks :
      (s : Submission) (d : DedupeDecision) (into : Text) (t : ℤ) (st : CollapseState)
      → t ≤ℤ s.created_at
      → Tracks t st
      → Tracks s.created_at (settle s d (some into) st)
  unfolding settle
  settle_folded-Tracks s d into t st le v = record {
    current = Current-later t s.created_at st.open_groups st.admitted le v.current;
    spaced = v.spaced;
  }

  round-Tracks :
      (t : ℤ) (st : CollapseState) (s : Submission)
      → t ≤ℤ s.created_at
      → Tracks t st
      → Tracks s.created_at (collapse_round window st s)
  unfolding collapse_round
  round-Tracks t st s le v =
      let o = get (content_of s) st.open_groups in
      let d = dedupe_decision s o window in
      elim (Option-cases (folded d)) [
        | inl alone ↦ rw alone (
            settle_new-Tracks s d t st (anchor_of window s o alone) le
              (entries-Apart s t st.open_groups st.admitted alone le v.current) v)
        | inr (into, e) ↦ rw e (settle_folded-Tracks s d into t st le v)
      ]

  collapse_from-Spaced :
      (t : ℤ) (st : CollapseState) (ss : List Submission)
      → Ascending t ss
      → Tracks t st
      → Spaced (collapse_from window st ss).admitted
  unfolding collapse_from
  collapse_from-Spaced t st [] h v = v.spaced
  collapse_from-Spaced t st (s ∷ ss) (le, h) v =
      collapse_from-Spaced s.created_at (collapse_round window st s) ss h (round-Tracks t st s le v)

-- Of submissions that come in the order of their instants, two that are admitted with the same
-- content are a whole window apart.
pub collapse_duplicates-Spaced :
    (t : ℤ) (ss : List Submission) (window : ℤ)
    → Ascending t ss
    → Spaced window (collapse_duplicates ss window).admitted
unfolding collapse_duplicates
collapse_duplicates-Spaced t ss window h =
    collapse_from-Spaced window t _ ss h (record { current = tt; spaced = tt })
