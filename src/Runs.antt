-- ===== src/Runs.antt =====
-- Which organisation holds which run (src/server/run_registry.ts). The map is passed along where the
-- source mutates it.
pub mod Holding
mod Examples
use ledgerdesk.Prelude.{
  Bool, true, false, if◌then◌else◌, Option, none, some, List, [], ◌∷◌, Text, text_eq, Map, get, put,
  remove,
}

-- `RunClaims`: a run's identifier and the organisation that holds it.
abbrev pub RunClaims : Type 0
RunClaims = Map Text

abbrev pub create_run_claims : RunClaims
create_run_claims = []

unfoldable pub holder_of : RunClaims → Text → Option Text
holder_of claims run = get run claims

-- Whether a claim stands, once the holder is known.
abbrev pub is_free : Option Text → Text → Bool
is_free none org = true
is_free (some holder) org = text_eq holder org

-- `none` is the error that the source throws.
unfoldable pub claim_run : RunClaims → Text → Text → Option RunClaims
claim_run claims run org = if is_free (get run claims) org then some (put run org claims) else none

abbrev pub is_own : Option Text → Text → Bool
is_own none org = false
is_own (some holder) org = text_eq holder org

unfoldable pub release_run : RunClaims → Text → Text → RunClaims
release_run claims run org = if is_own (get run claims) org then remove run claims else claims

-- What the organisations of one process do, one call after another.
pub data Call : Type 0 where
  claim : Text → Text → Call
  release : Text → Text → Call

abbrev kept : RunClaims → Option RunClaims → RunClaims
kept claims none = claims
kept claims (some next) = next

-- A claim that is refused leaves the map.
unfoldable pub perform : RunClaims → Call → RunClaims
unfolding claim_run release_run
perform claims (claim run org) = kept claims (claim_run claims run org)
perform claims (release run org) = release_run claims run org

unfoldable pub perform_all : RunClaims → List Call → RunClaims
unfolding perform
perform_all claims [] = claims
perform_all claims (c ∷ cs) = perform_all (perform claims c) cs
