-- ===== src/Canonical/Parts.antt =====
-- The reader on the parts of a serialised value (src/agents/canonical.ts).
use mathlib.Core.List.{append_assoc}
use ledgerdesk.Prelude.{
  ◌≡◌, refl, ap, ℕ, suc, ◌+◌, ◌<◌, Bool, true, false, List, [], ◌∷◌, ◌++◌, Option, some, length,
  all, ◌==◌, arith, Text, text_lt, if-cases,
}
use ledgerdesk.Prelude.Checked.{ok, ◌>>=◌, >>=-ok}
use ledgerdesk.Canonical.{
  Json, null, undefined, non_finite, string, numeral, boolean, array, object, Items, nil, cons,
  Members, end, member, quote, units, brackets, braces, write_members,
}
use ledgerdesk.Canonical.Quoted.{read_text-quoted}
use ledgerdesk.Canonical.Normal.{
  sorted, sorted_items, sorted_members, insert_member, plain_json, plain_items, plain_members,
}
use ledgerdesk.Canonical.Reader.{
  is_numeric, numeric_start, span_numeric, keep, opening, opens_number, map_first, unless_closed,
  read_value, read_items, read_members,
}

-- Fuel for the reader.
unfoldable mutual
  pub size : Json → ℕ
  size (string s) = suc (suc (length s))
  size (array xs) = suc (size_items xs)
  size (object m) = suc (size_members m)
  size null = 1
  size undefined = 1
  size non_finite = 1
  size (numeral t) = 1
  size (boolean b) = 1

  pub size_items : Items → ℕ
  size_items nil = 1
  size_items (cons x xs) = suc (size x + size_items xs)

  pub size_members : Members → ℕ
  size_members end = 1
  size_members (member k v m) = suc (suc (length k + size v + size_members m))

-- The text of every number is one or more of the characters of a decimal.
unfoldable mutual
  pub IsLegible : Json → Type 0
  IsLegible (numeral t) = (numeric_start t ≡ true) × (all is_numeric t ≡ true)
  IsLegible (array xs) = AreLegible xs
  IsLegible (object m) = HasLegible m
  IsLegible null = Unit
  IsLegible undefined = Unit
  IsLegible non_finite = Unit
  IsLegible (string s) = Unit
  IsLegible (boolean b) = Unit

  pub AreLegible : Items → Type 0
  AreLegible nil = Unit
  AreLegible (cons x xs) = IsLegible x × AreLegible xs

  pub HasLegible : Members → Type 0
  HasLegible end = Unit
  HasLegible (member k v m) = IsLegible v × HasLegible m

span_numeric-append :
    (t r : Text)
    → all is_numeric t ≡ true
    → numeric_start r ≡ false
    → span_numeric (t ++ r) ≡ (t, r)
unfolding span_numeric
span_numeric-append [] [] h k = refl
span_numeric-append [] (c ∷ r) h k = rw k refl
span_numeric-append (c ∷ t) r h k =
    let (now, later) : (is_numeric c ≡ true) × (all is_numeric t ≡ true) = ground arith in
    rw now (ap (keep c) (span_numeric-append t r later k))

opening-numeric : (c : ℕ) → is_numeric c ≡ true → opening c ≡ opens_number
opening-numeric c h = ground arith

pub numeral-read :
    (f : ℕ) (t r : Text)
    → numeric_start t ≡ true
    → all is_numeric t ≡ true
    → numeric_start r ≡ false
    → read_value (suc f) (t ++ r) ≡ some (numeral t, r)
unfolding read_value
numeral-read f [] r h k e = cc
numeral-read f (c ∷ t) r h k e =
    rw (opening-numeric c h, read_value)
      (ap (λ p. map_first numeral (some p)) (span_numeric-append (c ∷ t) r k e))

insert_member-HasLegible :
    (k : Text) (v : Json) (m : Members)
    → IsLegible v
    → HasLegible m
    → HasLegible (insert_member k v m)
unfolding IsLegible insert_member
insert_member-HasLegible k v end l h = (l, h)
insert_member-HasLegible k v (member j w m) l (i, h) =
    if-cases HasLegible (text_lt j k) (λ _. (i, insert_member-HasLegible k v m l h))
      (λ _. (l, (i, h)))

mutual
  unfolding IsLegible sorted

  value-IsLegible : (v : Json) → IsLegible v → IsLegible (sorted v)
  value-IsLegible null l = l
  value-IsLegible undefined l = l
  value-IsLegible non_finite l = l
  value-IsLegible (string s) l = l
  value-IsLegible (numeral t) l = l
  value-IsLegible (boolean b) l = l
  value-IsLegible (array xs) l = items-AreLegible xs l
  value-IsLegible (object m) l = members-HasLegible m l

  items-AreLegible : (xs : Items) → AreLegible xs → AreLegible (sorted_items xs)
  items-AreLegible nil l = l
  items-AreLegible (cons x xs) (l, ls) = (value-IsLegible x l, items-AreLegible xs ls)

  members-HasLegible : (m : Members) → HasLegible m → HasLegible (sorted_members m)
  members-HasLegible end l = l
  members-HasLegible (member k v m) (l, ls) =
      insert_member-HasLegible k (sorted v) (sorted_members m) (value-IsLegible v l)
        (members-HasLegible m ls)

pub sorted-IsLegible : (v : Json) → IsLegible v → IsLegible (sorted v)
sorted-IsLegible v l = value-IsLegible v l

-- No value starts as an array ends.
abbrev pub closes_array : Text → Bool
closes_array [] = true
closes_array (c ∷ s) = c == 93

numeric-open : (t : Text) → numeric_start t ≡ true → closes_array t ≡ false
numeric-open [] h = cc
numeric-open (c ∷ t) h = ground arith

pub value-open : (v : Json) (t : Text) → IsLegible v → plain_json v ≡ ok t → closes_array t ≡ false
unfolding plain_json IsLegible quote brackets braces
value-open null t l e = ground arith
value-open undefined t l e = cc
value-open non_finite t l e = cc
value-open (string s) t l e = ground arith
value-open (numeral n) t (l, k) e = let same : n ≡ t = cc in rw (← same) (numeric-open n l)
value-open (boolean true) t l e = ground arith
value-open (boolean false) t l e = ground arith
value-open (array xs) t l e =
    let (parts, h, q) = >>=-ok (plain_items xs) (λ p. ok (brackets p)) e in ground arith
value-open (object m) t l e =
    let (parts, h, q) = >>=-ok (write_members (plain_members m)) (λ p. ok (braces p)) e in
    ground arith

pub unless_closed-open {ℓ} :
    {B : Type ℓ} (empty : B) (t r : Text) (rest : Text → Option (B × Text))
    → closes_array t ≡ false
    → unless_closed 93 empty (t ++ r) rest ≡ rest (t ++ r)
unless_closed-open empty [] r rest h = cc
unless_closed-open empty (c ∷ t) r rest h = rw h refl

pub parts-some :
    (x : Json) (xs : Items) (parts : List Text)
    → plain_items (cons x xs) ≡ ok parts
    → (t : Text) × (ts : List Text) × (plain_json x ≡ ok t)
      × (plain_items xs ≡ ok ts)
      × (parts ≡ t ∷ ts)
unfolding plain_json
parts-some x xs parts e =
    let (t, h, q) = >>=-ok (plain_json x) (λ t. plain_items xs >>= (λ ts. ok (t ∷ ts))) e in
    let (ts, k, p) = >>=-ok (plain_items xs) (λ ts. ok (t ∷ ts)) q in (t, ts, h, k, cc)

pub members-some :
    (k : Text) (v : Json) (m : Members) (parts : List Text)
    → write_members (plain_members (member k v m)) ≡ ok parts
    → (t : Text) × (ts : List Text) × (plain_json v ≡ ok t)
      × (write_members (plain_members m) ≡ ok ts)
      × (parts ≡ (quote k ++ 58 ∷ t) ∷ ts)
unfolding plain_json write_members
members-some k v m parts e =
    let (t, h, q) =
      >>=-ok (plain_json v)
        (λ t. write_members (plain_members m) >>= (λ ts. ok ((quote k ++ 58 ∷ t) ∷ ts))) e in
    let (ts, l, p) =
      >>=-ok (write_members (plain_members m)) (λ ts. ok ((quote k ++ 58 ∷ t) ∷ ts)) q in
    (t, ts, h, l, cc)

-- What the reader says of an element once the rest is known.
pub items-last :
    (f : ℕ) (x : Json) (t r : Text)
    → read_value f (t ++ 93 ∷ r) ≡ some (x, 93 ∷ r)
    → read_items (suc f) (t ++ 93 ∷ r) ≡ some (cons x nil, r)
unfolding read_value
items-last f x t r h = rw h refl

pub items-next :
    (f : ℕ) (x : Json) (xs : Items) (t u r : Text)
    → read_value f (t ++ 44 ∷ u) ≡ some (x, 44 ∷ u)
    → read_items f u ≡ some (xs, r)
    → read_items (suc f) (t ++ 44 ∷ u) ≡ some (cons x xs, r)
unfolding read_value
items-next f x xs t u r h k = rw h (rw k refl)

quoted-member :
    (k t r : Text) → (quote k ++ 58 ∷ t) ++ r ≡ 34 ∷ (units false k ++ 34 ∷ 58 ∷ (t ++ r))
unfolding quote
quoted-member k t r = simp append_assoc

pub members-last :
    (f : ℕ) (k : Text) (v : Json) (t r : Text)
    → length k < f
    → read_value f (t ++ 125 ∷ r) ≡ some (v, 125 ∷ r)
    → read_members (suc f) ((quote k ++ 58 ∷ t) ++ 125 ∷ r) ≡ some (member k v end, r)
unfolding read_value
members-last f k v t r l h =
    rw (quoted-member k t (125 ∷ r), read_text-quoted f k (58 ∷ (t ++ 125 ∷ r)) l) (rw h refl)

pub members-next :
    (f : ℕ) (k : Text) (v : Json) (m : Members) (t u r : Text)
    → length k < f
    → read_value f (t ++ 44 ∷ u) ≡ some (v, 44 ∷ u)
    → read_members f u ≡ some (m, r)
    → read_members (suc f) ((quote k ++ 58 ∷ t) ++ 44 ∷ u) ≡ some (member k v m, r)
unfolding read_value
members-next f k v m t u r l h e =
    rw (quoted-member k t (44 ∷ u), read_text-quoted f k (58 ∷ (t ++ 44 ∷ u)) l) (rw h (rw e refl))
