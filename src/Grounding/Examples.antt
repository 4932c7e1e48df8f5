-- ===== src/Grounding/Examples.antt =====
-- Two sources, a draft that uses one of them, and a word inside another.
use ledgerdesk.Prelude.{
  ◌≡◌, ◌≢◌, refl, ◌↔◌, true, [], ◌∷◌, ◌++◌, List, All, Text, text, text_eq, is_space, get, put,
}
use ledgerdesk.Grounding.{
  DraftSource, conflicting_keys, words, windows, overlaps_excerpt, evaluate_grounding,
}
use ledgerdesk.Grounding.Verdicts.{IsSupported, evaluate_grounding_iff}
use ledgerdesk.Grounding.Overlap.{overlaps_excerpt-end}

abbrev refunds : List DraftSource
refunds =
    record { kb_id = text "refunds:1"; excerpt = text "Refunds take five days." }
    ∷ record { kb_id = text "refunds:2"; excerpt = text "Refunds take two days." }
    ∷ []

same_text : Text → Text
same_text s = s

evaluate_grounding_iff_example :
    ((evaluate_grounding same_text refunds
        (text "refunds:1" ∷ [])
        (text "your refunds take five days. bye")
        true).grounded
      ≡ true)
    ↔ ((refunds ≢ [])
        × (text "refunds:1" ∷ [] ≢ [])
        × All
            (IsSupported same_text refunds (text "your refunds take five days. bye"))
            (text "refunds:1" ∷ [])
        × (true ≡ true))
evaluate_grounding_iff_example =
    evaluate_grounding_iff same_text refunds (text "your refunds take five days. bye")
      (text "refunds:1" ∷ []) true

-- The capital is no letter for the comparison of words without a lower case.
efunds_found :
    overlaps_excerpt same_text
      (text "your refunds take five days. bye")
      (text "Refunds take five days.")
    ≡ true
unfolding overlaps_excerpt words windows same_text is_space
efunds_found = refl

refunds_conflict : conflicting_keys refunds ≡ text "refunds" ∷ []
unfolding conflicting_keys is_space text_eq get put
refunds_conflict = refl

overlaps_excerpt-end_example :
    (words same_text (text "gri" ++ text "p") ≡ (text "gri" ++ text "p") ∷ [])
    × (words same_text (text "p") ≡ text "p" ∷ [])
    × (overlaps_excerpt same_text (text "gri" ++ text "p") (text "p") ≡ true)
    × (text "gri" ++ text "p" ≢ text "p")
unfolding same_text
overlaps_excerpt-end_example =
    overlaps_excerpt-end same_text (λ s h. refl) 103 112 (text "ri") [] (refl, (refl, (refl, tt)))
      (refl, tt)
