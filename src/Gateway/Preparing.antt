-- ===== src/Gateway/Preparing.antt =====
-- The checks on a call and the redaction of its material, before anything is looked up
-- (src/agents/gateway.ts, steps 1 to 3 of `run`).
use ledgerdesk.Prelude.{
  ℕ, zero, suc, ◌-◌, Bool, true, false, ◌&&◌, List, [], ◌∷◌, ◌++◌, map, Option, none, some, length,
  ltb, ◌==◌, if◌then◌else◌, Text, text, text_eq, trim, get, pos, ◌-ℤ◌,
}
use ledgerdesk.Redaction.{
  Counts, RedactionResult, min_literal_length, starts_with, join_with, plant, without_markers,
  canary_contribution,
}
use ledgerdesk.Gateway.Types.{
  GatewayErrorCode, e_config_invalid, e_input_path_missing, e_model_price_unknown,
  e_canary_not_redacted, e_empty_after_redaction, Attempt, fine, gateway_error, ◌>>=◌, ModelPrice,
  KbExcerpt, GatewayCall, Gateway, Prepared,
}

abbrev pub demand : Bool → GatewayErrorCode → Attempt (Unit {0})
demand true e = fine tt
demand false e = gateway_error e

infixl 6 ◌>>◌
abbrev pub ◌>>◌ {ℓ} : Attempt (Unit {0}) → {B : Type ℓ} → Attempt B → Attempt B
step >> rest = step >>= λ _. rest

abbrev pub negate : Bool → Bool
negate true = false
negate false = true

abbrev pub is_empty : Text → Bool
is_empty s = length s == 0

abbrev pub drop : ℕ → Text → Text
drop zero s = s
drop (suc n) [] = []
drop (suc n) (c ∷ s) = drop n s

abbrev pub first_units : ℕ → Text → Text
first_units zero s = []
first_units (suc n) [] = []
first_units (suc n) (c ∷ s) = c ∷ first_units n s

-- `text.endsWith(tail)`
unfoldable pub ends_with : Text → Text → Bool
ends_with s tail =
    if ltb (length s) (length tail) then false else text_eq (drop (length s - length tail) s) tail

-- `text.slice(0, text.length - tail.length)`
abbrev pub without_tail : Text → Text → Text
without_tail s tail = first_units (length s - length tail) s

abbrev pub excerpt_separator : Text
excerpt_separator = 10 ∷ text "<<ledgerdesk-source>>" ++ 10 ∷ []

abbrev pub onto_first : ℕ → List Text → List Text
onto_first c [] = (c ∷ []) ∷ []
onto_first c (piece ∷ pieces) = (c ∷ piece) ∷ pieces

-- `body.split(separator)`; `skip` code units belong to a separator that was met.
unfoldable pub split_from : Text → ℕ → Text → List Text
unfolding starts_with
split_from separator skip [] = [] ∷ []
split_from separator (suc skip) (c ∷ s) = split_from separator skip s
split_from separator zero (c ∷ s) =
    let met = [] ∷ split_from separator (length separator - 1) s in
    let unmet = onto_first c (split_from separator zero s) in
    if starts_with (c ∷ s) separator then met else unmet

abbrev pub empty_counts : Counts
empty_counts kind = pos 0

unfoldable pub without_canary_contribution : Counts → Counts
unfolding ◌-ℤ◌
without_canary_contribution counts kind = counts kind -ℤ pos (canary_contribution kind)

abbrev pub long_enough : List Text → Bool
long_enough [] = true
long_enough (literal ∷ literals) =
    negate (ltb (length (trim literal)) min_literal_length) && long_enough literals

abbrev pub price_of : Option ModelPrice → Attempt ModelPrice
price_of none = gateway_error e_model_price_unknown
price_of (some price) = fine price

-- Each excerpt with the piece that stands in its place.
abbrev pub replaced : List KbExcerpt → List Text → List KbExcerpt
replaced (entry ∷ given) (piece ∷ pieces) =
    record { kb_id = KbExcerpt.kb_id entry; excerpt = piece } ∷ replaced given pieces
replaced _ _ = []

abbrev pub count {ℓ} : {A : Type ℓ} → List A → ℕ
count [] = 0
count (x ∷ xs) = suc (count xs)

module _ {S : Type 0} (g : Gateway S) (token : Text) where
  -- One pass of the redactor over a text with the canaries behind it; `e_canary_not_redacted`
  -- unless it ends as it must.
  unfoldable pub cleared : Text → List Text → Attempt RedactionResult
  unfolding plant ends_with
  cleared material literals = do
    let pass = g.redact (material ++ (plant token).block) literals
    demand (ends_with pass.text (plant token).expected_tail) e_canary_not_redacted
    fine pass

  abbrev pub body_of : RedactionResult → Text
  body_of pass = without_tail pass.text (plant token).expected_tail

  -- The excerpts of the knowledge base, with what was removed from them.
  unfoldable pub redact_excerpts :
      List KbExcerpt → List Text → Attempt (List KbExcerpt × RedactionResult)
  unfolding cleared split_from body_of
  redact_excerpts [] literals = fine ([], record { text = []; removed = []; counts = empty_counts })
  redact_excerpts (entry ∷ given) literals = do
    pass ←
        cleared (join_with excerpt_separator (map (λ e. KbExcerpt.excerpt e) (entry ∷ given)))
          literals
    let pieces = split_from excerpt_separator 0 (body_of pass)
    demand (count pieces == count (entry ∷ given)) e_config_invalid
    fine (
      replaced (entry ∷ given) pieces,
      record pass { counts = without_canary_contribution pass.counts },
    )

  unfoldable pub prepare : GatewayCall → Attempt Prepared
  unfolding cleared redact_excerpts without_markers get body_of
  prepare request = do
    demand (long_enough request.literals) e_config_invalid
    demand (negate (is_empty (trim request.input_path))) e_input_path_missing
    price ← price_of (get request.model_requested g.pricing)
    pass ← cleared request.body request.literals
    demand (negate (is_empty (trim (without_markers (body_of pass))))) e_empty_after_redaction
    excerpts ← redact_excerpts request.kb_context request.literals
    fine (record {
      body_redacted = body_of pass;
      kb_context = excerpts.0;
      removals = pass.removed ++ excerpts.1.removed;
      counts = record { body = without_canary_contribution pass.counts; kb = excerpts.1.counts };
      price = price;
    })
