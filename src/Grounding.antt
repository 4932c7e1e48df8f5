-- ===== src/Grounding.antt =====
-- Whether a draft is grounded in the sources that it was given (src/agents/grounding.ts, and
-- `normaliseRun` of src/agents/draft/envelope.ts). `toLowerCase` is a parameter.
pub mod Verdicts
pub mod Overlap
mod Examples
use ledgerdesk.Prelude.{
  ◌≡◌, ℕ, zero, suc, Bool, true, false, ◌&&◌, ◌||◌, not, List, [], ◌∷◌, ◌++◌, map, Option, none,
  some, select, any, all, length, ltb, leb, ◌==◌, if◌then◌else◌, Text, text, text_eq, text_lt, trim,
  is_space, Map, get, put,
}
use ledgerdesk.Redaction.{holds_text, join_with}

pub record DraftSource : Type 0 where
  pub kb_id : Text
  pub excerpt : Text

-- `text.replace(/\s+/g, ' ')`; `in_space` says that the code unit before was white space.
unfoldable pub collapse : Bool → Text → Text
unfolding is_space
collapse in_space [] = []
collapse in_space (c ∷ s) =
    let rest = collapse (is_space c) s in
    if is_space c then (if in_space then rest else 32 ∷ rest) else c ∷ rest

unfoldable pub normalise_run : Text → Text
unfolding collapse
normalise_run s = trim (collapse false s)

abbrev pub overlap_words : ℕ
overlap_words = 6

-- `[a-z0-9]`
abbrev pub is_word_unit : ℕ → Bool
is_word_unit c = (leb 97 c && leb c 122) || (leb 48 c && leb c 57)

abbrev pub starts_word : Text → Bool
starts_word [] = false
starts_word (c ∷ s) = is_word_unit c

-- A code unit goes before the first word, or is a word of its own.
abbrev pub onto_word : Bool → ℕ → List Text → List Text
onto_word true c (w ∷ ws) = (c ∷ w) ∷ ws
onto_word true c [] = (c ∷ []) ∷ []
onto_word false c ws = (c ∷ []) ∷ ws

-- `text.match(/[a-z0-9]+/g) ?? []`
unfoldable pub word_runs : Text → List Text
word_runs [] = []
word_runs (c ∷ s) =
    let rest = word_runs s in if is_word_unit c then onto_word (starts_word s) c rest else rest

abbrev pub first_words : ℕ → List Text → List Text
first_words zero ws = []
first_words (suc n) [] = []
first_words (suc n) (w ∷ ws) = w ∷ first_words n ws

abbrev pub spaced : List Text → Text
spaced ws = join_with (text " ") ws

unfoldable pub windows_from : ℕ → List Text → List Text
windows_from count [] = []
windows_from count (w ∷ ws) =
    let rest = windows_from count ws in
    if ltb (length (w ∷ ws)) count then [] else spaced (first_words count (w ∷ ws)) ∷ rest

abbrev pub windows_of : ℕ → List Text → List Text
windows_of count tokens =
    if length tokens == 0
    then []
    else if ltb (length tokens) count
    then spaced tokens ∷ []
    else windows_from count tokens

-- `[...new Set(xs)]`
abbrev pub unique : List Text → List Text
unique [] = []
unique (x ∷ xs) = x ∷ select (λ y. not (text_eq x y)) (unique xs)

-- The part before the last colon.
abbrev pub before_colon : ℕ → Option Text → Option Text
before_colon c (some s) = some (c ∷ s)
before_colon c none = if c == 58 then some [] else none

unfoldable pub last_colon : Text → Option Text
last_colon [] = none
last_colon (c ∷ s) = before_colon c (last_colon s)

abbrev pub or_whole : Text → Option Text → Text
or_whole s none = s
or_whole s (some key) = key

unfoldable pub canonical_key_of : Text → Text
unfolding last_colon
canonical_key_of kb_id = or_whole kb_id (last_colon kb_id)

abbrev pub bodies_in : Option (List Text) → List Text
bodies_in none = []
bodies_in (some bodies) = bodies

-- `bodies.add(body)`
abbrev pub add_body : Text → List Text → List Text
add_body body bodies = if any (λ b. text_eq b body) bodies then bodies else bodies ++ body ∷ []

unfoldable pub by_key : List DraftSource → Map (List Text) → Map (List Text)
unfolding canonical_key_of normalise_run
by_key [] m = m
by_key (source ∷ sources) m =
    let key = canonical_key_of (DraftSource.kb_id source) in
    by_key sources
      (put key (add_body (normalise_run (DraftSource.excerpt source)) (bodies_in (get key m))) m)

abbrev pub insert_key : Text → List Text → List Text
insert_key k [] = k ∷ []
insert_key k (j ∷ js) = if text_lt j k then j ∷ insert_key k js else k ∷ j ∷ js

abbrev pub sort_keys : List Text → List Text
sort_keys [] = []
sort_keys (k ∷ ks) = insert_key k (sort_keys ks)

unfoldable pub conflicting_keys : List DraftSource → List Text
unfolding by_key
conflicting_keys sources =
    sort_keys
      (map (λ e. e.0) (select (λ (e : Text × List Text). ltb 1 (length e.1)) (by_key sources [])))

pub record GroundingConjuncts : Type 0 where
  pub sources_present : Bool
  pub citations_present : Bool
  pub citations_offered : Bool
  pub citations_overlap : Bool
  pub model_agrees : Bool

pub record GroundingVerdict : Type 0 where
  pub grounded : Bool
  pub conjuncts : GroundingConjuncts
  pub unsupported_citations : List Text
  pub conflicting_keys : List Text

-- `new Map(sources.map((source) => [source.kb_id, source.excerpt]))`
abbrev pub offered_from : Map Text → List DraftSource → Map Text
offered_from m [] = m
offered_from m (source ∷ sources) =
    offered_from (put (DraftSource.kb_id source) (DraftSource.excerpt source) m) sources

abbrev pub is_offered : Option Text → Bool
is_offered none = false
is_offered (some s) = true

module _ (to_lower_case : Text → Text) where
  unfoldable pub words : Text → List Text
  unfolding normalise_run word_runs
  words s = word_runs (to_lower_case (normalise_run s))

  unfoldable pub windows : Text → ℕ → List Text
  unfolding words windows_from
  windows s count = windows_of count (words s)

  -- `overlapsExcerpt`, of six words.
  unfoldable pub overlaps_excerpt : Text → Text → Bool
  unfolding words windows holds_text
  overlaps_excerpt draft excerpt =
      not (length (spaced (words draft)) == 0)
      && any (λ window. ltb 0 (length window) && holds_text (spaced (words draft)) window)
          (windows excerpt overlap_words)

  -- An excerpt that is there and does not overlap.
  abbrev pub is_unsupported : Text → Option Text → Bool
  is_unsupported draft none = false
  is_unsupported draft (some excerpt) = not (overlaps_excerpt draft excerpt)

  abbrev pub unsupported : Text → Map Text → List Text → List Text
  unsupported draft offered cited = select (λ kb_id. is_unsupported draft (get kb_id offered)) cited

  unfoldable pub conjuncts_of : List DraftSource → List Text → Text → Bool → GroundingConjuncts
  unfolding overlaps_excerpt get put
  conjuncts_of sources citations draft says_grounded =
      let offered = offered_from [] sources in
      let cited = unique citations in
      let present = not (length cited == 0) in
      let all_offered = present && all (λ kb_id. is_offered (get kb_id offered)) cited in
      record {
        sources_present = not (length sources == 0);
        citations_present = present;
        citations_offered = all_offered;
        citations_overlap = all_offered && length (unsupported draft offered cited) == 0;
        model_agrees = says_grounded;
      }

  abbrev pub conjunction : GroundingConjuncts → Bool
  conjunction c =
      c.sources_present
      && (c.citations_present && (c.citations_offered && (c.citations_overlap && c.model_agrees)))

  unfoldable pub evaluate_grounding : List DraftSource → List Text → Text → Bool → GroundingVerdict
  unfolding conjuncts_of conflicting_keys
  evaluate_grounding sources citations draft says_grounded = record {
    grounded = conjunction (conjuncts_of sources citations draft says_grounded);
    conjuncts = conjuncts_of sources citations draft says_grounded;
    unsupported_citations = unsupported draft (offered_from [] sources) (unique citations);
    conflicting_keys = conflicting_keys sources;
  }
