-- ===== src/Grounding/Verdicts.antt =====
-- When a draft is grounded (`evaluateGrounding` in src/agents/grounding.ts).
use mathlib.Core.Path.{subst}
use ledgerdesk.Prelude.{
  ◌≡◌, ◌≢◌, refl, sym, ap, ◌∙◌, ◌↔◌, Bool, true, false, ◌&&◌, not, List, [], ◌∷◌, Option, none,
  some, select, all, All, length, ◌==◌, if◌then◌else◌, Text, text_eq, text_eq_iff, Map, get, put,
  get-put, Bool-cases, inl, inr, arith,
}
use ledgerdesk.Grounding.{
  DraftSource, unique, offered_from, is_offered, overlaps_excerpt, is_unsupported, unsupported,
  conjuncts_of, evaluate_grounding,
}

abbrev pub or_else : Option Text → Option Text → Option Text
or_else (some s) other = some s
or_else none other = other

-- The excerpt of the last source with an identifier.
abbrev pub last_excerpt : Text → List DraftSource → Option Text
last_excerpt k [] = none
last_excerpt k (source ∷ sources) =
    or_else (last_excerpt k sources)
      (if text_eq (DraftSource.kb_id source) k then some (DraftSource.excerpt source) else none)

or_else-if :
    (o p : Option Text) (b : Bool) (e : Text)
    → or_else o (if b then some e else p) ≡ or_else (or_else o (if b then some e else none)) p
or_else-if (some s) p b e = refl
or_else-if none p true e = refl
or_else-if none p false e = refl

get-offered_from :
    (k : Text) (m : Map Text) (sources : List DraftSource)
    → get k (offered_from m sources) ≡ or_else (last_excerpt k sources) (get k m)
get-offered_from k m [] = refl
get-offered_from k m (source ∷ sources) =
    get-offered_from k (put source.kb_id source.excerpt m) sources
    ∙ ap (or_else (last_excerpt k sources)) (get-put source.kb_id k source.excerpt m)
    ∙ or_else-if (last_excerpt k sources) (get k m) (text_eq source.kb_id k) source.excerpt

or_else-none : (o : Option Text) → or_else o none ≡ o
or_else-none none = refl
or_else-none (some s) = refl

get-offered :
    (k : Text) (sources : List DraftSource)
    → get k (offered_from [] sources) ≡ last_excerpt k sources
unfolding get
get-offered k sources = get-offered_from k [] sources ∙ or_else-none (last_excerpt k sources)

module _ (P : Text → Type 0) where
  All-select_out :
      (x : Text) (ys : List Text) → P x → All P (select (λ y. not (text_eq x y)) ys) → All P ys
  All-select_out x [] p h = tt
  All-select_out x (y ∷ ys) p h = elim (Bool-cases (text_eq x y)) [
    | inl same ↦ (subst P ((text_eq_iff x y).0 same) p, All-select_out x ys p (rw same at (h)))
    | inr other ↦
        let (q, k) : P y × All P (select (λ y. not (text_eq x y)) ys) = rw other at (h) in
        (q, All-select_out x ys p k)
  ]

  All-select_in :
      (x : Text) (ys : List Text) → All P ys → All P (select (λ y. not (text_eq x y)) ys)
  All-select_in x [] h = tt
  All-select_in x (y ∷ ys) (p, h) = elim (Bool-cases (text_eq x y)) [
    | inl same ↦ rw same (All-select_in x ys h)
    | inr other ↦ rw other (p, All-select_in x ys h)
  ]

  unique-All : (xs : List Text) → All P (unique xs) ↔ All P xs
  unique-All [] = (λ h. h, λ h. h)
  unique-All (x ∷ xs) = (
    λ h. (h.0, (unique-All xs).0 (All-select_out x (unique xs) h.0 h.1)),
    λ h. (h.0, All-select_in x (unique xs) ((unique-All xs).1 h.1)),
  )

all-All : (f : Text → Bool) (xs : List Text) → (all f xs ≡ true) ↔ All (λ x. f x ≡ true) xs
all-All f [] = (λ h. tt, λ h. refl)
all-All f (x ∷ xs) = elim (Bool-cases (f x)) [
  | inl yes_x ↦
      (λ h. (yes_x, (all-All f xs).0 (rw yes_x at (h))), λ h. rw yes_x ((all-All f xs).1 h.1))
  | inr no_x ↦ (λ h. cc, λ h. cc)
]

select-none :
    (f : Text → Bool) (xs : List Text)
    → ((length (select f xs) == 0) ≡ true) ↔ All (λ x. f x ≡ false) xs
select-none f [] = (λ h. tt, λ h. refl)
select-none f (x ∷ xs) = elim (Bool-cases (f x)) [
  | inl hit ↦ (λ h. absurd (ground arith), λ h. absurd (cc (hit, h.0)))
  | inr miss ↦
      (λ h. (miss, (select-none f xs).0 (rw miss at (h))), λ h. rw miss ((select-none f xs).1 h.1))
]

five_hold :
    (a z c d m : Bool)
    → ((a && (not z && ((not z && c) && (((not z && c) && d) && m)))) ≡ true)
      ↔ ((a ≡ true) × (z ≡ false) × (c ≡ true) × (d ≡ true) × (m ≡ true))
five_hold a z c d m = ground arith

listed {ℓ} : {A : Type ℓ} (xs : List A) → (not (length xs == 0) ≡ true) ↔ (xs ≢ [])
listed [] = (λ h. cc, λ n. absurd (n refl))
listed (x ∷ xs) = (λ h e. cc, λ n. ground arith)

cited_listed : (xs : List Text) → ((length (unique xs) == 0) ≡ false) ↔ (xs ≢ [])
cited_listed [] = (λ h. cc, λ n. absurd (n refl))
cited_listed (x ∷ xs) = (λ h e. cc, λ n. ground arith)

module _ (to_lower_case : Text → Text) (sources : List DraftSource) (draft : Text) where
  -- A citation of a source, whose last excerpt shares wording with the draft.
  abbrev pub IsSupported : Text → Type 0
  IsSupported k =
      (excerpt : Text) × (last_excerpt k sources ≡ some excerpt)
      × (overlaps_excerpt to_lower_case draft excerpt ≡ true)

  abbrev OfferedAndUsed : Option Text → Type 0
  OfferedAndUsed o = (is_offered o ≡ true) × (is_unsupported to_lower_case draft o ≡ false)

  used :
      {e : Text} (x : Text)
      → ◌≡◌ {A = Option Text} (some e) (some x)
      → overlaps_excerpt to_lower_case draft x ≡ true
      → not (overlaps_excerpt to_lower_case draft e) ≡ false
  used {e} x s h = let same : e ≡ x = cc in rw (same, h) refl

  used-excerpt :
      (o : Option Text)
      → OfferedAndUsed o ↔ (
          (excerpt : Text) × (o ≡ some excerpt)
          × (overlaps_excerpt to_lower_case draft excerpt ≡ true))
  used-excerpt none = (λ h. cc, λ h. cc)
  used-excerpt (some e) = (λ h. (e, refl, ground (arith, h.1)), λ h. (refl, used h.0 h.1 h.2))

  cited-IsSupported :
      (xs : List Text)
      → (All (λ k. is_offered (get k (offered_from [] sources)) ≡ true) xs
          × All
              (λ k. is_unsupported to_lower_case draft (get k (offered_from [] sources)) ≡ false)
              xs)
        ↔ All IsSupported xs
  cited-IsSupported [] = (λ h. tt, λ h. (tt, tt))
  cited-IsSupported (k ∷ xs) =
      let found = get-offered k sources in
      let here = used-excerpt (get k (offered_from [] sources)) in
      let rest = cited-IsSupported xs in
      (
        λ h.
            (let (e, o, u) = here.0 (h.0.0, h.1.0) in (e, sym found ∙ o, u), rest.0 (h.0.1, h.1.1)),
        λ h.
            let (e, o, u) = h.0 in
            let (is, un) = here.1 (e, found ∙ o, u) in
            let (all_is, all_un) = rest.1 h.1 in ((is, all_is), (un, all_un)),
      )

  -- A draft is grounded exactly if there are sources, it cites something, each of its citations is
  -- the identifier of a source whose last excerpt shares wording with it, and the validator agrees.
  pub evaluate_grounding_iff :
      (citations : List Text) (says_grounded : Bool)
      → ((evaluate_grounding to_lower_case sources citations draft says_grounded).grounded ≡ true)
        ↔ ((sources ≢ []) × (citations ≢ []) × All IsSupported citations × (says_grounded ≡ true))
  unfolding evaluate_grounding conjuncts_of
  evaluate_grounding_iff citations says_grounded =
      let offered = offered_from [] sources in
      let cited = unique citations in
      let five =
        five_hold (not (length sources == 0)) (length cited == 0)
          (all (λ k. is_offered (get k offered)) cited)
          (length (unsupported to_lower_case draft offered cited) == 0) says_grounded in
      let is = all-All (λ k. is_offered (get k offered)) cited in
      let un = select-none (λ k. is_unsupported to_lower_case draft (get k offered)) cited in
      let supported = unique-All IsSupported citations in
      (
        λ h.
            let (a, z, c, d, m) = five.0 h in
            (
              (listed sources).0 a,
              (cited_listed citations).0 z,
              supported.0 ((cited-IsSupported cited).0 (is.0 c, un.0 d)),
              m,
            ),
        λ h.
            let (a, z, s, m) = h in
            let (c, d) = (cited-IsSupported cited).1 (supported.1 s) in
            five.1 ((listed sources).1 a, (cited_listed citations).1 z, is.1 c, un.1 d, m),
      )
