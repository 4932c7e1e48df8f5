-- ===== src/Dedupe/Window.antt =====
-- `collapseDuplicates`: which entry absorbs a folded submission.
use mathlib.Core.List.{Memᴰ}
use mathlib.Core.List.Memᴰ
use ledgerdesk.Prelude.{
  ◌≡◌, refl, sym, ap, ◌∙◌, inl, inr, true, false, arith, Option, none, some, List, [], ◌∷◌, ◌++◌,
  All, All-append, Option-cases, Bool-cases, ℤ, ◌-ℤ◌, leb_ℤ, ◌≤ℤ◌, Text, get, get-put, text_eq,
  text_eq_iff,
}
use ledgerdesk.Dedupe.{
  Submission, DedupeIncumbent, DedupeDecision, Admitted, Collapsed, CollapseState, dedupe_decision,
  settle, folded, collapse_round, collapse_from, collapse_duplicates, content_of,
}

module _ (window : ℤ) where
  -- `s` repeats the submission of `a`: one content, and inside the window that `a` opened.
  pub record Absorbs (a : Admitted) (s : Submission) : Type 0 where
    pub same_content : content_of a.submission ≡ content_of s
    pub not_earlier : a.submission.created_at ≤ℤ s.created_at
    pub inside : leb_ℤ window (s.created_at -ℤ a.submission.created_at) ≡ false

  -- An entry of the list that absorbs a folded submission under its own identifier.
  abbrev pub Absorbed : List Admitted → Collapsed → Type 0
  Absorbed xs c = (a : Admitted) × Memᴰ a xs × (a.submission.id ≡ c.into) × Absorbs a c.submission

  -- An open group was opened by an entry, and carries its instant.
  abbrev Opened : List Admitted → Text → DedupeIncumbent → Type 0
  Opened xs c i =
      (a : Admitted) × Memᴰ a xs
      × (content_of a.submission ≡ c)
      × (a.submission.id ≡ i.id)
      × (a.submission.created_at ≡ i.anchor_created_at)

  record Sound (st : CollapseState) : Type 0 where
    groups :
        (c : Text) (i : DedupeIncumbent) → get c st.open_groups ≡ some i → Opened st.admitted c i
    absorbed : All (Absorbed st.admitted) st.collapsed

  Absorbed-more :
      (xs bs : List Admitted) (cs : List Collapsed)
      → All (Absorbed xs) cs
      → All (Absorbed (xs ++ bs)) cs
  Absorbed-more xs bs [] h = tt
  Absorbed-more xs bs (c ∷ cs) ((a, m, e, p), h) =
      ((a, Memᴰ.append_left bs m, e, p), Absorbed-more xs bs cs h)

  -- What a decision to fold says of the incumbent.
  folded-inside :
      (s : Submission) (i : DedupeIncumbent) (into : Text)
      → folded (dedupe_decision s (some i) window) ≡ some into
      → (i.id ≡ into)
        × (i.anchor_created_at ≤ℤ s.created_at)
        × (leb_ℤ window (s.created_at -ℤ i.anchor_created_at) ≡ false)
  unfolding dedupe_decision ◌-ℤ◌
  folded-inside s i into h = ground arith

  folded-none :
      (s : Submission) {into : Text} → folded (dedupe_decision s none window) ≡ some into → ⊥
  unfolding dedupe_decision
  folded-none s h = cc

  pub anchor_of :
      (s : Submission) (o : Option DedupeIncumbent)
      → folded (dedupe_decision s o window) ≡ none
      → (dedupe_decision s o window).anchor_created_at ≡ s.created_at
  unfolding dedupe_decision
  anchor_of s none h = refl
  anchor_of s (some i) h = ground arith

  settle_new-Sound :
      (s : Submission) (d : DedupeDecision) (st : CollapseState)
      → d.anchor_created_at ≡ s.created_at
      → Sound st
      → Sound (settle s d none st)
  unfolding settle
  settle_new-Sound s d st e v = record {
    groups = λ c i h. elim (Bool-cases (text_eq (content_of s) c)) [
      | inl same ↦
          let p : c ≡ content_of s = sym ((text_eq_iff (content_of s) c).0 same) in
          let q : record { id = s.id; anchor_created_at = d.anchor_created_at; is_open = true }
              ≡ i =
            ground (
              arith,
              get-put (content_of s) c
                  (record { id = s.id; anchor_created_at = d.anchor_created_at; is_open = true })
                  st.open_groups,
            ) in
          (
            record { submission = s; key = d.key },
            Memᴰ.append_right st.admitted (Memᴰ.head refl),
            sym p,
            ap (λ (j : DedupeIncumbent). j.id) q,
            sym e ∙ ap (λ (j : DedupeIncumbent). j.anchor_created_at) q,
          )
      | inr other ↦
          let q : get c st.open_groups ≡ some i = ground (
            arith,
            get-put (content_of s) c
                (record { id = s.id; anchor_created_at = d.anchor_created_at; is_open = true })
                st.open_groups,
          ) in
          let (a, m, x, y, z) = v.groups c i q in (a, Memᴰ.append_left _ m, x, y, z)
    ];
    absorbed = Absorbed-more st.admitted _ st.collapsed v.absorbed;
  }

  settle_folded-Sound :
      (s : Submission) (d : DedupeDecision) (into : Text) (st : CollapseState)
      → Absorbed st.admitted (record { submission = s; into = into })
      → Sound st
      → Sound (settle s d (some into) st)
  unfolding settle
  settle_folded-Sound s d into st p v = record {
    groups = v.groups;
    absorbed = All-append (Absorbed st.admitted) st.collapsed _ v.absorbed (p, tt);
  }

  -- The entry that opened the incumbent's group absorbs the submission.
  folded-Absorbed :
      (s : Submission) (into : Text) (st : CollapseState) (o : Option DedupeIncumbent)
      → get (content_of s) st.open_groups ≡ o
      → folded (dedupe_decision s o window) ≡ some into
      → Sound st
      → Absorbed st.admitted (record { submission = s; into = into })
  folded-Absorbed s into st none e h v = absurd (folded-none s h)
  folded-Absorbed s into st (some i) e h v =
      let (a, m, same, id, at) = v.groups (content_of s) i e in
      let (named, later, inside) = folded-inside s i into h in
      (
        a,
        m,
        id ∙ named,
        record { same_content = same; not_earlier = rw at later; inside = rw at inside },
      )

  round-Sound :
      (st : CollapseState) (s : Submission) → Sound st → Sound (collapse_round window st s)
  unfolding collapse_round
  round-Sound st s v =
      let o = get (content_of s) st.open_groups in
      let d = dedupe_decision s o window in
      elim (Option-cases (folded d)) [
        | inl alone ↦ rw alone (settle_new-Sound s d st (anchor_of s o alone) v)
        | inr (into, e) ↦
            rw e (settle_folded-Sound s d into st (folded-Absorbed s into st o refl e v) v)
      ]

  collapse_from-Sound :
      (st : CollapseState) (ss : List Submission) → Sound st → Sound (collapse_from window st ss)
  unfolding collapse_from
  collapse_from-Sound st [] v = v
  collapse_from-Sound st (s ∷ ss) v =
      collapse_from-Sound (collapse_round window st s) ss (round-Sound st s v)

-- Each folded submission names an entry of the same content that it repeats within the window.
pub collapse_duplicates-Absorbed :
    (ss : List Submission) (window : ℤ)
    → let r = collapse_duplicates ss window in All (Absorbed window r.admitted) r.collapsed
unfolding collapse_duplicates get
collapse_duplicates-Absorbed ss window =
    (collapse_from-Sound window _ ss (record { groups = λ c i h. cc; absorbed = tt })).absorbed
