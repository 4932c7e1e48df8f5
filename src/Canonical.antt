-- ===== src/Canonical.antt =====
-- Canonical serialisation (src/agents/canonical.ts): `canonicalJson` and the fixed-scale decimals.
-- A finite number is held as the text that `String` gives it. `undefined` is among the values,
-- since the code tests for it.
pub mod Reader
mod Quoted
mod Examples
pub mod Normal
pub mod Parts
pub mod RoundTrip
pub mod Reordering
use ledgerdesk.Prelude.{
  ◌≡◌, refl, ℕ, ◌+◌, ◌-◌, ◌*◌, ◌/◌, ◌%◌, Bool, true, false, ◌&&◌, ◌||◌, not, List, [], ◌∷◌, ◌++◌,
  Option, none, some, ltb, leb, ◌==◌, if◌then◌else◌, all, length, Text, text, text_lt, ℤ, pos,
  negsuc, decimal, pad_start,
}
use ledgerdesk.Prelude.Checked.{Checked, ok, throws, ◌>>=◌, type_error}

-- `Json`; the members of an object stand in the order of insertion.
mutual
  pub data Json : Type 0 where
    null undefined non_finite : Json
    string : Text → Json
    numeral : Text → Json
    boolean : Bool → Json
    array : Items → Json
    object : Members → Json

  pub data Items : Type 0 where
    nil : Items
    cons : Json → Items → Items

  pub data Members : Type 0 where
    end : Members
    member : Text → Json → Members → Members

-- `0123456789abcdef`
unfoldable pub hex_digit : ℕ → ℕ
hex_digit n = if ltb n 10 then n + 48 else n + 87

-- The four digits after `\u`.
unfoldable pub hex_4 : ℕ → Text
unfolding hex_digit
hex_4 c =
    hex_digit (c / 4096 % 16)
    ∷ hex_digit (c / 256 % 16)
    ∷ hex_digit (c / 16 % 16)
    ∷ hex_digit (c % 16)
    ∷ []

abbrev pub is_high : ℕ → Bool
is_high c = leb 55296 c && leb c 56319

abbrev pub is_low : ℕ → Bool
is_low c = leb 56320 c && leb c 57343

-- A backslash and one letter.
abbrev pub short : ℕ → Option ℕ
short c =
    if c == 34
    then some 34
    else if c == 92
    then some 92
    else if c == 8
    then some 98
    else if c == 9
    then some 116
    else if c == 10
    then some 110
    else if c == 12
    then some 102
    else if c == 13
    then some 114
    else none

unfoldable pub long : ℕ → Text
unfolding hex_4
long c = if ltb c 32 || is_high c || is_low c then 92 ∷ 117 ∷ hex_4 c else c ∷ []

abbrev pub escape : ℕ → Option ℕ → Text
escape c (some letter) = 92 ∷ letter ∷ []
escape c none = long c

-- One code unit as `JSON.stringify` writes it; a half of a surrogate pair stands for itself.
abbrev pub quoted_unit : Bool → ℕ → Text
quoted_unit true c = c ∷ []
quoted_unit false c = escape c (short c)

abbrev pub starts_low : Text → Bool
starts_low [] = false
starts_low (c ∷ s) = is_low c

-- Whether a unit that is no second half is the first half of a pair.
abbrev pub leads : ℕ → Text → Bool
leads c s = is_high c && starts_low s

-- `second` says that the unit before was the first half of a pair.
unfoldable pub units : Bool → Text → Text
units second [] = []
units second (c ∷ s) = quoted_unit (second || leads c s) c ++ units (not second && leads c s) s

-- `JSON.stringify(s)`
unfoldable pub quote : Text → Text
unfolding units
quote s = 34 ∷ (units false s ++ 34 ∷ [])

-- `.join(',')`
unfoldable pub join : List Text → Text
join [] = []
join (s ∷ []) = s
join (s ∷ t ∷ r) = s ++ 44 ∷ join (t ∷ r)

-- A key, and what its member serialises to.
abbrev pub Written : Type 0
Written = Text × Checked Text

-- `Object.keys(value).sort()`, each key with its member.
unfoldable pub insert_written : Written → List Written → List Written
insert_written e [] = e ∷ []
insert_written e (d ∷ ds) = if text_lt d.0 e.0 then d ∷ insert_written e ds else e ∷ d ∷ ds

unfoldable pub sort_written : List Written → List Written
unfolding insert_written
sort_written [] = []
sort_written (e ∷ es) = insert_written e (sort_written es)

unfoldable pub write_members : List Written → Checked (List Text)
unfolding quote
write_members [] = ok []
write_members ((k, v) ∷ es) = do
  written ← v
  rest ← write_members es
  ok ((quote k ++ 58 ∷ written) ∷ rest)

unfoldable pub brackets : List Text → Text
unfolding join
brackets parts = 91 ∷ (join parts ++ 93 ∷ [])

unfoldable pub braces : List Text → Text
unfolding join
braces parts = 123 ∷ (join parts ++ 125 ∷ [])

unfoldable mutual
  unfolding quote sort_written write_members

  pub canonical_json : Json → Checked Text
  canonical_json null = ok (text "null")
  canonical_json undefined = throws type_error
  canonical_json non_finite = throws type_error
  canonical_json (string s) = ok (quote s)
  canonical_json (numeral t) = ok t
  canonical_json (boolean true) = ok (text "true")
  canonical_json (boolean false) = ok (text "false")
  canonical_json (array xs) = do parts ← canonical_items xs; ok (brackets parts)
  canonical_json (object m) = do
    parts ← write_members (sort_written (canonical_members m))
    ok (braces parts)

  pub canonical_items : Items → Checked (List Text)
  canonical_items nil = ok []
  canonical_items (cons x xs) = do
    part ← canonical_json x
    rest ← canonical_items xs
    ok (part ∷ rest)

  pub canonical_members : Members → List Written
  canonical_members end = []
  canonical_members (member k v m) = (k, canonical_json v) ∷ canonical_members m

-- `/^[a-f0-9]{64}$/`
unfoldable pub is_hex64 : Text → Bool
is_hex64 s = length s == 64 && all (λ c. (leb 97 c && leb c 102) || (leb 48 c && leb c 57)) s

-- `formatAud`: millionths of a dollar as a decimal with six places.
unfoldable pub aud_digits : ℕ → Text
unfolding decimal pad_start
aud_digits n = decimal (n / 1_000_000) ++ 46 ∷ pad_start 6 (decimal (n % 1_000_000))

unfoldable pub format_aud : ℤ → Text
unfolding aud_digits
format_aud (pos n) = aud_digits n
format_aud (negsuc n) = 45 ∷ aud_digits (n + 1)
