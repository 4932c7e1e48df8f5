-- ===== src/Grounding/Overlap.antt =====
-- What counts as shared wording (`overlapsExcerpt` in src/agents/grounding.ts).
use ledgerdesk.Prelude.{
  ◌≡◌, ◌≢◌, refl, ap, ◌∙◌, ℕ, Bool, true, false, [], ◌∷◌, ◌++◌, All, All-append, length,
  length-append, Text, trim, trim_solid, is_space, arith,
}
use ledgerdesk.Redaction.{holds_text, starts_with}
use ledgerdesk.Grounding.{
  collapse, normalise_run, is_word_unit, onto_word, word_runs, words, windows, overlaps_excerpt,
}

-- Nothing but lower-case letters and digits.
abbrev pub IsWord : Text → Type 0
IsWord = All (λ c. is_word_unit c ≡ true)

unit-solid : (c : ℕ) → is_word_unit c ≡ true → is_space c ≡ false
unfolding is_space
unit-solid c h = ground arith

word-solid : (s : Text) → IsWord s → All (λ c. is_space c ≡ false) s
word-solid [] h = tt
word-solid (c ∷ s) (u, h) = (unit-solid c u, word-solid s h)

collapse-word : (b : Bool) (s : Text) → IsWord s → collapse b s ≡ s
unfolding collapse
collapse-word b [] h = refl
collapse-word b (c ∷ s) (u, h) = rw (unit-solid c u) (ap (λ t. c ∷ t) (collapse-word false s h))

normalise_run-word : (s : Text) → IsWord s → normalise_run s ≡ s
unfolding normalise_run
normalise_run-word s h = ap trim (collapse-word false s h) ∙ trim_solid s (word-solid s h)

word_runs-word : (c : ℕ) (s : Text) → IsWord (c ∷ s) → word_runs (c ∷ s) ≡ (c ∷ s) ∷ []
unfolding word_runs
word_runs-word c [] (u, h) = rw u refl
word_runs-word c (d ∷ s) (u, (v, h)) =
    rw u (ap (onto_word (is_word_unit d) c) (word_runs-word d s (v, h)) ∙ rw v refl)

starts_with_self : (s : Text) → starts_with s s ≡ true
unfolding starts_with
starts_with_self [] = refl
starts_with_self (c ∷ s) = ground (arith, starts_with_self s)

holds_text-end : (p w : Text) → w ≢ [] → holds_text (p ++ w) w ≡ true
unfolding holds_text
holds_text-end [] [] n = absurd (n refl)
holds_text-end [] (c ∷ w) n = rw (starts_with_self (c ∷ w)) refl
holds_text-end (c ∷ p) w n = ground (arith, holds_text-end p w n)

longer : (a : ℕ) (p s : Text) → a ∷ p ++ s ≢ s
longer a p s e = absurd (omega (arith, length-append (a ∷ p) s, ap length e))

module _ (to_lower_case : Text → Text) (lower : (s : Text) → IsWord s → to_lower_case s ≡ s) where
  pub words-word : (c : ℕ) (s : Text) → IsWord (c ∷ s) → words to_lower_case (c ∷ s) ≡ (c ∷ s) ∷ []
  unfolding words
  words-word c s h =
      ap (λ t. word_runs (to_lower_case t)) (normalise_run-word (c ∷ s) h)
      ∙ ap word_runs (lower (c ∷ s) h)
      ∙ word_runs-word c s h

  overlaps-words :
      (draft w : Text)
      → words to_lower_case draft ≡ draft ∷ []
      → words to_lower_case w ≡ w ∷ []
      → draft ≢ []
      → w ≢ []
      → holds_text draft w ≡ true
      → overlaps_excerpt to_lower_case draft w ≡ true
  unfolding overlaps_excerpt windows
  overlaps-words [] w d e n m h = absurd (n refl)
  overlaps-words (a ∷ draft) [] d e n m h = absurd (m refl)
  overlaps-words (a ∷ draft) (c ∷ w) d e n m h = rw (d, e) (ground (arith, h))

  -- A draft of one word overlaps with an excerpt of another one that it ends in: the excerpt's word
  -- need not be a word of the draft. Lower case leaves lower-case letters and digits as they are.
  pub overlaps_excerpt-end :
      (a c : ℕ) (p w : Text)
      → IsWord (a ∷ p)
      → IsWord (c ∷ w)
      → (words to_lower_case (a ∷ p ++ c ∷ w) ≡ (a ∷ p ++ c ∷ w) ∷ [])
        × (words to_lower_case (c ∷ w) ≡ (c ∷ w) ∷ [])
        × (overlaps_excerpt to_lower_case (a ∷ p ++ c ∷ w) (c ∷ w) ≡ true)
        × (a ∷ p ++ c ∷ w ≢ c ∷ w)
  overlaps_excerpt-end a c p w h k =
      let whole = All-append (λ c. is_word_unit c ≡ true) (a ∷ p) (c ∷ w) h k in
      let d = words-word a (p ++ c ∷ w) whole in
      let e = words-word c w k in
      (
        d,
        e,
        overlaps-words (a ∷ p ++ c ∷ w) (c ∷ w) d e (λ q. cc) (λ q. cc)
            (holds_text-end (a ∷ p) (c ∷ w) (λ q. cc)),
        longer a p (c ∷ w),
      )
