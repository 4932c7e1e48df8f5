-- ===== src/Canonical/Normal.antt =====
-- A value with the members of every object in ascending order of their keys, and a serialisation
-- (src/agents/canonical.ts) that leaves them as they stand.
use ledgerdesk.Prelude.{
  ◌≡◌, refl, ap, ◌∙◌, true, false, List, [], ◌∷◌, if◌then◌else◌, Text, text, text_lt, Bool-cases,
  inl, inr,
}
use ledgerdesk.Prelude.Checked.{Checked, ok, throws, ◌>>=◌, type_error}
use ledgerdesk.Canonical.{
  Json, null, undefined, non_finite, string, numeral, boolean, array, object, Items, nil, cons,
  Members, end, member, Written, quote, brackets, braces, write_members, insert_written,
  sort_written, canonical_json, canonical_items, canonical_members,
}

unfoldable pub insert_member : Text → Json → Members → Members
insert_member k v end = member k v end
insert_member k v (member l w m) =
    if text_lt l k then member l w (insert_member k v m) else member k v (member l w m)

unfoldable mutual
  unfolding insert_member

  pub sorted : Json → Json
  sorted (array xs) = array (sorted_items xs)
  sorted (object m) = object (sorted_members m)
  sorted null = null
  sorted undefined = undefined
  sorted non_finite = non_finite
  sorted (string s) = string s
  sorted (numeral t) = numeral t
  sorted (boolean b) = boolean b

  pub sorted_items : Items → Items
  sorted_items nil = nil
  sorted_items (cons x xs) = cons (sorted x) (sorted_items xs)

  pub sorted_members : Members → Members
  sorted_members end = end
  sorted_members (member k v m) = insert_member k (sorted v) (sorted_members m)

unfoldable mutual
  unfolding quote write_members

  pub plain_json : Json → Checked Text
  plain_json null = ok (text "null")
  plain_json undefined = throws type_error
  plain_json non_finite = throws type_error
  plain_json (string s) = ok (quote s)
  plain_json (numeral t) = ok t
  plain_json (boolean true) = ok (text "true")
  plain_json (boolean false) = ok (text "false")
  plain_json (array xs) = do parts ← plain_items xs; ok (brackets parts)
  plain_json (object m) = do parts ← write_members (plain_members m); ok (braces parts)

  pub plain_items : Items → Checked (List Text)
  plain_items nil = ok []
  plain_items (cons x xs) = do part ← plain_json x; rest ← plain_items xs; ok (part ∷ rest)

  pub plain_members : Members → List Written
  plain_members end = []
  plain_members (member k v m) = (k, plain_json v) ∷ plain_members m

insert_written-plain :
    (k : Text) (v : Json) (m : Members)
    → insert_written (k, plain_json v) (plain_members m) ≡ plain_members (insert_member k v m)
unfolding plain_json insert_written insert_member
insert_written-plain k v end = refl
insert_written-plain k v (member l w m) = elim (Bool-cases (text_lt l k)) [
  | inl e ↦ rw e (ap (λ es. (l, plain_json w) ∷ es) (insert_written-plain k v m))
  | inr e ↦ rw e refl
]

mutual
  unfolding canonical_json plain_json sorted sort_written

  plain-sorted : (v : Json) → canonical_json v ≡ plain_json (sorted v)
  plain-sorted null = refl
  plain-sorted undefined = refl
  plain-sorted non_finite = refl
  plain-sorted (string s) = refl
  plain-sorted (numeral t) = refl
  plain-sorted (boolean true) = refl
  plain-sorted (boolean false) = refl
  plain-sorted (array xs) = ap (λ c. c >>= (λ parts. ok (brackets parts))) (items-sorted xs)
  plain-sorted (object m) =
      ap (λ es. write_members es >>= (λ parts. ok (braces parts))) (members-sorted m)

  items-sorted : (xs : Items) → canonical_items xs ≡ plain_items (sorted_items xs)
  items-sorted nil = refl
  items-sorted (cons x xs) = rw (plain-sorted x, items-sorted xs) refl

  members-sorted :
      (m : Members) → sort_written (canonical_members m) ≡ plain_members (sorted_members m)
  members-sorted end = refl
  members-sorted (member k v m) =
      ap (λ es. insert_written (k, canonical_json v) es) (members-sorted m)
      ∙ ap (λ t. insert_written (k, t) (plain_members (sorted_members m))) (plain-sorted v)
      ∙ insert_written-plain k (sorted v) (sorted_members m)

-- Sorting at every level and writing plainly is the canonical serialisation.
pub canonical_json-plain : (v : Json) → canonical_json v ≡ plain_json (sorted v)
canonical_json-plain v = plain-sorted v
