-- ===== src/Canonical/RoundTrip.antt =====
-- What the serialisation (src/agents/canonical.ts) writes can be read back.
use mathlib.Core.List.{append_assoc}
use ledgerdesk.Prelude.{
  ◌≡◌, refl, sym, ap, ◌∙◌, ◌↔◌, ℕ, zero, suc, ◌+◌, ◌≤◌, true, false, List, [], ◌∷◌, ◌++◌, Option,
  some, arith, Text,
}
use ledgerdesk.Prelude.Checked.{ok, >>=-ok}
use ledgerdesk.Canonical.{
  Json, null, undefined, non_finite, string, numeral, boolean, array, object, Items, nil, cons,
  Members, end, member, quote, units, join, brackets, braces, write_members, canonical_json,
}
use ledgerdesk.Canonical.Quoted.{read_text-quoted}
use ledgerdesk.Canonical.Normal.{
  sorted, plain_json, plain_items, plain_members, canonical_json-plain,
}
use ledgerdesk.Canonical.Reader.{
  numeric_start, map_first, unless_closed, read_text, read_value, read_items, read_members,
}
use ledgerdesk.Canonical.Parts.{
  size, size_items, size_members, IsLegible, AreLegible, HasLegible, sorted-IsLegible, numeral-read,
  closes_array, value-open, unless_closed-open, parts-some, members-some, items-last, items-next,
  members-last, members-next,
}

join-append :
    (t u : Text) (ts : List Text) (r : Text)
    → join (t ∷ u ∷ ts) ++ r ≡ t ++ 44 ∷ (join (u ∷ ts) ++ r)
unfolding join
join-append t u ts r = append_assoc t (44 ∷ join (u ∷ ts)) r

ok_injective : {s t : Text} → ok s ≡ ok t → s ≡ t
ok_injective e = cc

read_injective :
    {v w : Json} {r s : Text} → ◌≡◌ {A = Option (Json × Text)} (some (v, r)) (some (w, s)) → v ≡ w
read_injective e = cc

parts_injective : {s t : List Text} → ok s ≡ ok t → s ≡ t
parts_injective e = cc

array-open {ℓ} :
    {B : Type ℓ} (t : Text) (ts : List Text) (r : Text) (empty : B)
    (rest : Text → Option (B × Text))
    → closes_array t ≡ false
    → unless_closed 93 empty (join (t ∷ ts) ++ r) rest ≡ rest (join (t ∷ ts) ++ r)
unfolding join
array-open t [] r empty rest h = unless_closed-open empty t r rest h
array-open t (u ∷ us) r empty rest h =
    rw (join-append t u us r) (unless_closed-open empty t (44 ∷ (join (u ∷ us) ++ r)) rest h)

object-open {ℓ} :
    {B : Type ℓ} (k t : Text) (ts : List Text) (r : Text) (empty : B)
    (rest : Text → Option (B × Text))
    → unless_closed 125 empty (join ((quote k ++ 58 ∷ t) ∷ ts) ++ r) rest
      ≡ rest (join ((quote k ++ 58 ∷ t) ∷ ts) ++ r)
unfolding join quote
object-open k t [] r empty rest = refl
object-open k t (u ∷ us) r empty rest = refl

-- What is read of a list that is not empty.
abbrev ItemsRead : ℕ → List Text → Text → Items → Type 0
ItemsRead f parts r nil = Unit
ItemsRead f parts r (cons x xs) = read_items f (join parts ++ 93 ∷ r) ≡ some (cons x xs, r)

abbrev MembersRead : ℕ → List Text → Text → Members → Type 0
MembersRead f parts r end = Unit
MembersRead f parts r (member k v m) =
    read_members f (join parts ++ 125 ∷ r) ≡ some (member k v m, r)

array-read :
    (f : ℕ) (xs : Items) (parts : List Text) (r : Text)
    → AreLegible xs
    → plain_items xs ≡ ok parts
    → ItemsRead f parts r xs
    → unless_closed 93 nil (join parts ++ 93 ∷ r) (read_items f) ≡ some (xs, r)
unfolding IsLegible plain_json join
array-read f nil parts r l e h = rw (← parts_injective e) refl
array-read f (cons x xs) parts r (l, ls) e h =
    let (t, ts, i, k, p) = parts-some x xs parts e in
    rw p (array-open t ts (93 ∷ r) nil (read_items f) (value-open x t l i) ∙ rw (← p) h)

object-read :
    (f : ℕ) (m : Members) (parts : List Text) (r : Text)
    → write_members (plain_members m) ≡ ok parts
    → MembersRead f parts r m
    → unless_closed 125 end (join parts ++ 125 ∷ r) (read_members f) ≡ some (m, r)
unfolding plain_json write_members join
object-read f end parts r e h = rw (← parts_injective e) refl
object-read f (member k v m) parts r e h =
    let (t, ts, i, j, p) = members-some k v m parts e in
    rw p (object-open k t ts (125 ∷ r) end (read_members f) ∙ rw (← p) h)

mutual
  unfolding size IsLegible plain_json read_value quote join brackets braces

  value-read :
      (f : ℕ) (v : Json) (t r : Text)
      → size v ≤ f
      → IsLegible v
      → plain_json v ≡ ok t
      → numeric_start r ≡ false
      → read_value f (t ++ r) ≡ some (v, r)
  value-read (suc f) null t r n l e k = rw (← ok_injective e) refl
  value-read (suc f) undefined t r n l e k = cc
  value-read (suc f) non_finite t r n l e k = cc
  value-read (suc f) (boolean true) t r n l e k = rw (← ok_injective e) refl
  value-read (suc f) (boolean false) t r n l e k = rw (← ok_injective e) refl
  value-read (suc f) (numeral u) t r n (l, h) e k = rw (← ok_injective e) (numeral-read f u r l h k)
  value-read (suc f) (string s) t r n l e k = rw (← ok_injective e) (
      ap (map_first string) (
        ap (read_text f) (append_assoc (units false s) (34 ∷ []) r)
        ∙ read_text-quoted f s r (omega arith)))
  value-read (suc f) (array xs) t r n l e k =
      let (parts, h, q) = >>=-ok (plain_items xs) (λ p. ok (brackets p)) e in
      rw (← ok_injective q) (
        ap (map_first array) (
          ap (λ u. unless_closed 93 nil u (read_items f)) (append_assoc (join parts) (93 ∷ []) r)
          ∙ array-read f xs parts r l h (items-read f xs parts r (omega arith) l h)))
  value-read (suc f) (object m) t r n l e k =
      let (parts, h, q) = >>=-ok (write_members (plain_members m)) (λ p. ok (braces p)) e in
      rw (← ok_injective q) (
        ap (map_first object) (
          ap (λ u. unless_closed 125 end u (read_members f))
            (append_assoc (join parts) (125 ∷ []) r)
          ∙ object-read f m parts r h (members-read f m parts r (omega arith) l h)))
  value-read zero null t r n l e k = absurd (omega arith)
  value-read zero undefined t r n l e k = absurd (omega arith)
  value-read zero non_finite t r n l e k = absurd (omega arith)
  value-read zero (boolean b) t r n l e k = absurd (omega arith)
  value-read zero (numeral u) t r n l e k = absurd (omega arith)
  value-read zero (string s) t r n l e k = absurd (omega arith)
  value-read zero (array xs) t r n l e k = absurd (omega arith)
  value-read zero (object m) t r n l e k = absurd (omega arith)

  items-read :
      (f : ℕ) (xs : Items) (parts : List Text) (r : Text)
      → size_items xs ≤ f
      → AreLegible xs
      → plain_items xs ≡ ok parts
      → ItemsRead f parts r xs
  items-read zero nil parts r n l e = tt
  items-read (suc f) nil parts r n l e = tt
  items-read zero (cons x xs) parts r n l e = absurd (omega arith)
  items-read (suc f) (cons x nil) parts r n (l, ls) e =
      let (t, ts, h, k, p) = parts-some x nil parts e in
      rw (p, ← parts_injective k)
        (items-last f x t r (value-read f x t (93 ∷ r) (omega arith) l h refl))
  items-read (suc f) (cons x (cons y ys)) parts r n (l, ls) e =
      let (t, ts, h, k, p) = parts-some x (cons y ys) parts e in
      let (u, us, i, j, q) = parts-some y ys ts k in
      rw (p, q, join-append t u us (93 ∷ r))
        (items-next f x (cons y ys) t (join (u ∷ us) ++ 93 ∷ r) r
          (value-read f x t (44 ∷ (join (u ∷ us) ++ 93 ∷ r)) (omega arith) l h refl)
          (rw (← q) (items-read f (cons y ys) ts r (omega arith) ls k)))

  members-read :
      (f : ℕ) (m : Members) (parts : List Text) (r : Text)
      → size_members m ≤ f
      → HasLegible m
      → write_members (plain_members m) ≡ ok parts
      → MembersRead f parts r m
  members-read zero end parts r n l e = tt
  members-read (suc f) end parts r n l e = tt
  members-read zero (member k v m) parts r n l e = absurd (omega arith)
  members-read (suc f) (member k v end) parts r n (l, ls) e =
      let (t, ts, h, i, p) = members-some k v end parts e in
      rw (p, ← parts_injective i)
        (members-last f k v t r (omega arith) (value-read f v t (125 ∷ r) (omega arith) l h refl))
  members-read (suc f) (member k v (member j w m)) parts r n (l, ls) e =
      let (t, ts, h, i, p) = members-some k v (member j w m) parts e in
      let (u, us, a, b, q) = members-some j w m ts i in
      let rest : Text = join ((quote j ++ 58 ∷ u) ∷ us) ++ 125 ∷ r in
      rw (p, q)
        (ap (read_members (suc f))
            (join-append (quote k ++ 58 ∷ t) (quote j ++ 58 ∷ u) us (125 ∷ r))
          ∙ members-next f k v (member j w m) t rest r (omega arith)
              (value-read f v t (44 ∷ rest) (omega arith) l h refl)
              (rw (← q) (members-read f (member j w m) ts r (omega arith) ls i)))

-- Whatever serialises is read back, with the members of every object in ascending order of their
-- keys, from its text and from any text that the serialisation goes on to.
pub canonical_json-read :
    (v : Json) (t r : Text)
    → IsLegible v
    → canonical_json v ≡ ok t
    → numeric_start r ≡ false
    → read_value (size (sorted v)) (t ++ r) ≡ some (sorted v, r)
canonical_json-read v t r l e k =
    value-read (size (sorted v)) (sorted v) t r (omega arith) (sorted-IsLegible v l)
      (sym (canonical_json-plain v) ∙ e) k

-- Two values have one serialisation exactly if they are the same once the members of every object
-- stand in ascending order of their keys, for values whose numbers are decimals.
pub canonical_json_iff :
    (v w : Json) (t : Text)
    → IsLegible v
    → IsLegible w
    → canonical_json v ≡ ok t
    → (canonical_json w ≡ ok t) ↔ (sorted v ≡ sorted w)
canonical_json_iff v w t l m e =
    (back, λ s. canonical_json-plain w ∙ ap plain_json (sym s) ∙ sym (canonical_json-plain v) ∙ e)
  where
    back : canonical_json w ≡ ok t → sorted v ≡ sorted w
    back d =
        let fuel : ℕ = size (sorted v) + size (sorted w) in
        let a =
          value-read fuel (sorted v) t [] (omega arith) (sorted-IsLegible v l)
            (sym (canonical_json-plain v) ∙ e) refl in
        let b =
          value-read fuel (sorted w) t [] (omega arith) (sorted-IsLegible w m)
            (sym (canonical_json-plain w) ∙ d) refl in
        read_injective (sym a ∙ b)
