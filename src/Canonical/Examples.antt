-- ===== src/Canonical/Examples.antt =====
-- Two orders of the members of one object.
use ledgerdesk.Prelude.{◌≡◌, ◌≢◌, refl, ◌↔◌, [], ◌∷◌, ◌++◌, some, Text, text, text_lt, arith}
use ledgerdesk.Prelude.Checked.{ok, throws, type_error}
use ledgerdesk.Canonical.{
  Json, null, undefined, string, numeral, array, object, nil, cons, end, member, canonical_json,
  quote, long, braces, brackets,
}
use ledgerdesk.Canonical.Reader.{read_value}
use ledgerdesk.Canonical.Normal.{sorted}
use ledgerdesk.Canonical.Parts.{IsLegible, size}
use ledgerdesk.Canonical.RoundTrip.{canonical_json-read, canonical_json_iff}
use ledgerdesk.Canonical.Reordering.{in_object, exchanged, canonical_json-Same}

abbrev late_first : Json
late_first = object (
    member (text "b") (array (cons (numeral (text "-2.5")) (cons null nil)))
      (member (text "a") (string (9 ∷ 55357 ∷ 56832 ∷ 34 ∷ [])) end))

abbrev early_first : Json
early_first = object (
    member (text "a") (string (9 ∷ 55357 ∷ 56832 ∷ 34 ∷ []))
      (member (text "b") (array (cons (numeral (text "-2.5")) (cons null nil))) end))

abbrev written : Text
written =
    123 ∷ 34 ∷ 97 ∷ 34 ∷ 58 ∷ 34 ∷ 92 ∷ 116 ∷ 55357 ∷ 56832 ∷ 92 ∷ 34 ∷ 34 ∷ 44 ∷ 34 ∷ 98 ∷ 34 ∷ 58
    ∷ 91 ∷ 45 ∷ 50 ∷ 46 ∷ 53 ∷ 44 ∷ 110 ∷ 117 ∷ 108 ∷ 108 ∷ 93 ∷ 125 ∷ []

late_first_written : canonical_json late_first ≡ ok written
unfolding canonical_json text_lt braces brackets long
late_first_written = refl

absent_member : canonical_json (object (member (text "a") undefined end)) ≡ throws type_error
unfolding canonical_json
absent_member = refl

lone_half : quote (55357 ∷ 120 ∷ []) ≡ 34 ∷ 92 ∷ 117 ∷ 100 ∷ 56 ∷ 51 ∷ 100 ∷ 120 ∷ 34 ∷ []
unfolding quote long
lone_half = refl

late_first-IsLegible : IsLegible late_first
unfolding IsLegible
late_first-IsLegible = (((refl, refl), (tt, tt)), (tt, tt))

early_first-IsLegible : IsLegible early_first
unfolding IsLegible
early_first-IsLegible = (tt, (((refl, refl), (tt, tt)), tt))

canonical_json-read_example :
    read_value (size (sorted late_first)) (written ++ text "]") ≡ some (sorted late_first, text "]")
canonical_json-read_example =
    canonical_json-read late_first written (text "]") late_first-IsLegible late_first_written refl

canonical_json_iff_example :
    (canonical_json early_first ≡ ok written) ↔ (sorted late_first ≡ sorted early_first)
canonical_json_iff_example =
    canonical_json_iff late_first early_first written late_first-IsLegible early_first-IsLegible
      late_first_written

b-ne-a : text "b" ≢ text "a"
b-ne-a e = ground arith

canonical_json-Same_example : canonical_json late_first ≡ canonical_json early_first
canonical_json-Same_example =
    canonical_json-Same late_first early_first (in_object (exchanged b-ne-a))
