-- ===== src/Runs/Examples.antt =====
-- Two organisations and one run.
use ledgerdesk.Prelude.{◌≡◌, refl, some, none, [], ◌∷◌, All, text, text_eq, get, arith}
use ledgerdesk.Runs.{
  RunClaims, claim_run, holder_of, claim, release, perform_all, create_run_claims,
}
use ledgerdesk.Runs.Holding.{perform_all-holds, Others}

abbrev held : RunClaims
held = (text "r", text "a") ∷ create_run_claims

refused_claim : claim_run held (text "r") (text "b") ≡ none
unfolding claim_run get text_eq
refused_claim = refl

held_by_a : holder_of held (text "r") ≡ some (text "a")
unfolding holder_of get text_eq
held_by_a = refl

calls-Others :
    All
      (Others (text "r") (text "a"))
      (claim (text "r") (text "b") ∷ release (text "r") (text "b") ∷ [])
calls-Others = (tt, (λ same e. absurd (ground arith), tt))

perform_all-holds_example :
    holder_of
      (perform_all held (claim (text "r") (text "b") ∷ release (text "r") (text "b") ∷ []))
      (text "r")
    ≡ some (text "a")
perform_all-holds_example =
    perform_all-holds held (text "r") (text "a")
      (claim (text "r") (text "b") ∷ release (text "r") (text "b") ∷ []) held_by_a calls-Others
