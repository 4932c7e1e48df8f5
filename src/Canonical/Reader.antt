-- ===== src/Canonical/Reader.antt =====
-- A reader for what `canonicalJson` (src/agents/canonical.ts) writes, as a specification.
use ledgerdesk.Prelude.{
  ℕ, zero, suc, ◌+◌, ◌-◌, ◌*◌, Bool, true, false, ◌&&◌, ◌||◌, [], ◌∷◌, Option, none, some, ltb, leb,
  ◌==◌, if◌then◌else◌, Text,
}
use ledgerdesk.Canonical.{
  Json, null, string, numeral, boolean, array, object, Items, nil, cons, Members, end, member,
}

-- The next part of a quoted string: its closing quote or a code unit, with what follows.
pub data Token : Type 0 where
  closing : Text → Token
  character : ℕ → Text → Token
  unreadable : Token

abbrev pub hex_value : ℕ → ℕ
hex_value d = if ltb d 58 then d - 48 else d - 87

abbrev pub letter_unit : ℕ → ℕ
letter_unit letter =
    if letter == 98
    then 8
    else if letter == 116
    then 9
    else if letter == 110
    then 10
    else if letter == 102
    then 12
    else if letter == 114
    then 13
    else letter

abbrev pub read_hex : Text → Token
read_hex (a ∷ b ∷ c ∷ d ∷ r) =
    character (hex_value a * 4096 + hex_value b * 256 + hex_value c * 16 + hex_value d) r
read_hex _ = unreadable

abbrev pub read_escape : Text → Token
read_escape [] = unreadable
read_escape (letter ∷ r) = if letter == 117 then read_hex r else character (letter_unit letter) r

unfoldable pub read_unit : Text → Token
read_unit [] = unreadable
read_unit (c ∷ s) = if c == 34 then closing s else if c == 92 then read_escape s else character c s

abbrev pub prepend : ℕ → Option (Text × Text) → Option (Text × Text)
prepend c none = none
prepend c (some (s, r)) = some (c ∷ s, r)

abbrev pub extend : Token → (Text → Option (Text × Text)) → Option (Text × Text)
extend (closing r) rest = some ([], r)
extend (character c r) rest = prepend c (rest r)
extend unreadable rest = none

-- What stands up to the closing quote.
unfoldable pub read_text : ℕ → Text → Option (Text × Text)
read_text zero t = none
read_text (suc f) t = extend (read_unit t) (read_text f)

-- `0` to `9`, `+`, `-`, `.` and `e`.
abbrev pub is_numeric : ℕ → Bool
is_numeric c = (leb 48 c && leb c 57) || (c == 43 || c == 45 || c == 46 || c == 101)

abbrev pub numeric_start : Text → Bool
numeric_start [] = false
numeric_start (c ∷ s) = is_numeric c

abbrev pub keep : ℕ → Text × Text → Text × Text
keep c (s, r) = (c ∷ s, r)

unfoldable pub span_numeric : Text → Text × Text
span_numeric [] = ([], [])
span_numeric (c ∷ s) = if is_numeric c then keep c (span_numeric s) else ([], c ∷ s)

abbrev pub drop : ℕ → Text → Text
drop zero s = s
drop (suc n) [] = []
drop (suc n) (c ∷ s) = drop n s

-- What a value's first code unit says of it.
pub data Opening : Type 0 where
  opens_null opens_true opens_false opens_string opens_array opens_object opens_number : Opening

abbrev pub opening : ℕ → Opening
opening c =
    if c == 34
    then opens_string
    else if c == 91
    then opens_array
    else if c == 123
    then opens_object
    else if c == 110
    then opens_null
    else if c == 116
    then opens_true
    else if c == 102
    then opens_false
    else opens_number

abbrev pub map_first {ℓ κ ι} :
    {A : Type ℓ} {B : Type κ} {R : Type ι} → (A → B) → Option (A × R) → Option (B × R)
map_first g none = none
map_first g (some (a, r)) = some (g a, r)

abbrev pub chain {ℓ κ} :
    {A : Type ℓ} {B : Type κ}
    → Option (A × Text)
    → (A → Text → Option (B × Text))
    → Option (B × Text)
chain none next = none
chain (some (a, r)) next = next a r

-- The text after a code unit that must come next.
abbrev pub expect {ℓ} : {B : Type ℓ} → ℕ → Text → (Text → Option B) → Option B
expect c [] next = none
expect c (d ∷ s) next = if d == c then next s else none

-- After an element: the closing bracket, or a comma and the rest.
abbrev pub more {ℓ} :
    {B : Type ℓ} → ℕ → (B → B) → B → Text → (Text → Option (B × Text)) → Option (B × Text)
more close add last [] rest = none
more close add last (c ∷ s) rest =
    if c == close then some (add last, s) else if c == 44 then map_first add (rest s) else none

-- An empty list, or what `rest` reads.
abbrev pub unless_closed {ℓ} :
    {B : Type ℓ} → ℕ → B → Text → (Text → Option (B × Text)) → Option (B × Text)
unless_closed close empty [] rest = none
unless_closed close empty (c ∷ s) rest = if c == close then some (empty, s) else rest (c ∷ s)

unfoldable mutual
  unfolding read_text span_numeric

  pub read_value : ℕ → Text → Option (Json × Text)
  read_value zero t = none
  read_value (suc f) [] = none
  read_value (suc f) (c ∷ s) = elim (opening c) [
    | opens_null ↦ some (null, drop 3 s)
    | opens_true ↦ some (boolean true, drop 3 s)
    | opens_false ↦ some (boolean false, drop 4 s)
    | opens_string ↦ map_first string (read_text f s)
    | opens_array ↦ map_first array (unless_closed 93 nil s (read_items f))
    | opens_object ↦ map_first object (unless_closed 125 end s (read_members f))
    | opens_number ↦ map_first numeral (some (span_numeric (c ∷ s)))
  ]

  pub read_items : ℕ → Text → Option (Items × Text)
  read_items zero t = none
  read_items (suc f) t = chain (read_value f t) (λ x s. more 93 (cons x) nil s (read_items f))

  pub read_members : ℕ → Text → Option (Members × Text)
  read_members zero t = none
  read_members (suc f) t = expect 34 t (λ s. chain (read_text f s) (λ k r.
      expect 58 r
        (λ v. chain (read_value f v) (λ x q. more 125 (member k x) end q (read_members f)))))
