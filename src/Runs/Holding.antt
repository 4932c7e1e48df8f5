-- ===== src/Runs/Holding.antt =====
-- Who holds a run, over calls of `claimRun` and `releaseRun` in any order.
use ledgerdesk.Prelude.{
  ◌≡◌, ◌≢◌, refl, sym, ap, ◌∙◌, ◌↔◌, Bool, true, false, if◌then◌else◌, Option, none, some, List, [],
  ◌∷◌, All, arith, Text, text_eq, text_eq_iff, text_eq_refl, get, put, remove, get-put, get-remove,
  Bool-cases, inl, inr,
}
use ledgerdesk.Runs.{
  RunClaims, holder_of, is_free, is_own, claim_run, release_run, Call, claim, release, perform,
  perform_all,
}

same_text : {a b : Text} → some a ≡ some b → a ≡ b
same_text h = ground arith

is_free_iff :
    (o : Option Text) (org : Text)
    → (is_free o org ≡ true) ↔ ((holder : Text) → o ≡ some holder → holder ≡ org)
is_free_iff none org = (λ h holder e. cc, λ f. refl)
is_free_iff (some holder) org = (
  λ h other e. sym (same_text e) ∙ (text_eq_iff holder org).0 h,
  λ f. (text_eq_iff holder org).1 (f holder refl),
)

is_own-true : (o : Option Text) (org : Text) → is_own o org ≡ true → o ≡ some org
is_own-true none org h = cc
is_own-true (some holder) org h = ap some ((text_eq_iff holder org).0 h)

given : {A : Type 0} (b : Bool) (x : A) {y : A} → (if b then some x else none) ≡ some y → b ≡ true
given true x h = refl
given false x h = cc

-- A claim stands exactly where nobody else holds the run.
pub claim_run_iff :
    (claims : RunClaims) (run org : Text)
    → ((next : RunClaims) × (claim_run claims run org ≡ some next))
      ↔ ((holder : Text) → holder_of claims run ≡ some holder → holder ≡ org)
unfolding claim_run holder_of
claim_run_iff claims run org =
    let rule = is_free_iff (get run claims) org in
    (
      λ (next, h). rule.0 (given (is_free (get run claims) org) (put run org claims) h),
      λ f. (put run org claims, rw (rule.1 f) refl),
    )

-- Everybody else's calls: a claim of any run by anybody, and a release of this run only by others.
abbrev pub Others : Text → Text → Call → Type 0
Others run org (claim r o) = Unit
Others run org (release r o) = r ≡ run → o ≢ org

put-holds :
    (claims : RunClaims) (run org r o : Text)
    → get run claims ≡ some org
    → is_free (get r claims) o ≡ true
    → get run (put r o claims) ≡ some org
put-holds claims run org r o h free = get-put r run o claims ∙ elim (Bool-cases (text_eq r run)) [
  | inr e ↦ rw e h
  | inl e ↦
      let same : r ≡ run = (text_eq_iff r run).0 e in
      let mine : get r claims ≡ some org = ap (λ (k : Text). get k claims) same ∙ h in
      rw e (ap some (sym ((is_free_iff (get r claims) o).0 free org mine)))
]

remove-holds :
    (claims : RunClaims) (run org r o : Text)
    → get run claims ≡ some org
    → (r ≡ run → o ≢ org)
    → is_own (get r claims) o ≡ true
    → get run (remove r claims) ≡ some org
remove-holds claims run org r o h others own =
    get-remove r run claims ∙ elim (Bool-cases (text_eq r run)) [
      | inr e ↦ rw e h
      | inl e ↦
          let same : r ≡ run = (text_eq_iff r run).0 e in
          let mine : get r claims ≡ some org = ap (λ (k : Text). get k claims) same ∙ h in
          absurd (others same (same_text (sym (is_own-true (get r claims) o own) ∙ mine)))
    ]

perform-holds :
    (claims : RunClaims) (run org : Text) (c : Call)
    → holder_of claims run ≡ some org
    → Others run org c
    → holder_of (perform claims c) run ≡ some org
unfolding perform claim_run release_run holder_of
perform-holds claims run org (claim r o) h u = elim (Bool-cases (is_free (get r claims) o)) [
  | inl e ↦ rw e (put-holds claims run org r o h e)
  | inr e ↦ rw e h
]
perform-holds claims run org (release r o) h u = elim (Bool-cases (is_own (get r claims) o)) [
  | inl e ↦ rw e (remove-holds claims run org r o h u e)
  | inr e ↦ rw e h
]

-- A run that an organisation holds is still held by it after any sequence of claims, by anybody and
-- of any run, and of releases of other runs and by others.
pub perform_all-holds :
    (claims : RunClaims) (run org : Text) (cs : List Call)
    → holder_of claims run ≡ some org
    → All (Others run org) cs
    → holder_of (perform_all claims cs) run ≡ some org
unfolding perform_all
perform_all-holds claims run org [] h u = h
perform_all-holds claims run org (c ∷ cs) h (u, us) =
    perform_all-holds (perform claims c) run org cs (perform-holds claims run org c h u) us

claim-unheld :
    (claims : RunClaims) (run org : Text)
    → get run claims ≡ none
    → (next : RunClaims) × (claim_run claims run org ≡ some next) × (get run next ≡ some org)
unfolding claim_run
claim-unheld claims run org h =
    (put run org claims, rw h refl, get-put run run org claims ∙ rw (text_eq_refl run) refl)

-- An organisation that gives up its run leaves it to any that claims it next.
pub release_run-free :
    (claims : RunClaims) (run org other : Text)
    → holder_of claims run ≡ some org
    → (next : RunClaims) × (claim_run (release_run claims run org) run other ≡ some next)
      × (holder_of next run ≡ some other)
unfolding release_run holder_of
release_run-free claims run org other h =
    claim-unheld (release_run claims run org) run other
      (rw (h, text_eq_refl org) (get-remove run run claims ∙ rw (text_eq_refl run) refl))
