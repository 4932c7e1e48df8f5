-- ===== src/Canonical/Reordering.antt =====
-- The order in which members were added (src/agents/canonical.ts).
use ledgerdesk.Prelude.{
  ◌≡◌, refl, sym, ap, ◌∙◌, ◌≢◌, true, false, Text, text_lt, text_lt_trans, text_lt_total,
  text_lt_irrefl, Bool-cases, inl, inr,
}
use ledgerdesk.Canonical.{
  Json, array, object, Items, nil, cons, Members, end, member, canonical_json,
}
use ledgerdesk.Canonical.Normal.{
  insert_member, sorted, sorted_items, sorted_members, plain_json, canonical_json-plain,
}

-- Values that differ by exchanges of neighbouring members with different keys, at any depth.
mutual
  pub data Same : Json → Json → Type 0 where
    same : {v : Json} → Same v v
    then_same : {u v w : Json} → Same u v → Same v w → Same u w
    in_array : {xs ys : Items} → SameItems xs ys → Same (array xs) (array ys)
    in_object : {m n : Members} → SameMembers m n → Same (object m) (object n)

  pub data SameItems : Items → Items → Type 0 where
    none_left : SameItems nil nil
    element :
        {x y : Json} {xs ys : Items}
        → Same x y
        → SameItems xs ys
        → SameItems (cons x xs) (cons y ys)

  pub data SameMembers : Members → Members → Type 0 where
    unchanged : {m : Members} → SameMembers m m
    then_members : {l m n : Members} → SameMembers l m → SameMembers m n → SameMembers l n
    kept :
        {k : Text} {v w : Json} {m n : Members}
        → Same v w
        → SameMembers m n
        → SameMembers (member k v m) (member k w n)
    exchanged :
        {j k : Text} {v w : Json} {m : Members}
        → j ≢ k
        → SameMembers (member j v (member k w m)) (member k w (member j v m))

text_lt_asym : (s t : Text) → text_lt s t ≡ true → text_lt t s ≡ false
text_lt_asym s t h = elim (Bool-cases (text_lt t s)) [
  | inl k ↦ absurd (cc (text_lt_trans s t s h k, text_lt_irrefl s))
  | inr k ↦ k
]

module _ (j k : Text) (v w : Json) (h : text_lt j k ≡ true) where
  -- Where the earlier key goes before an element or the later one does, both insertions do.
  insert_member-insert :
      (m : Members)
      → insert_member j v (insert_member k w m) ≡ insert_member k w (insert_member j v m)
  unfolding insert_member
  insert_member-insert end = rw (text_lt_asym j k h, h) refl
  insert_member-insert (member l u r) = elim (Bool-cases (text_lt l j)) [
    | inl e ↦ rw (e, text_lt_trans l j k e h) (rw e (ap (member l u) (insert_member-insert r)))
    | inr e ↦ elim (Bool-cases (text_lt l k)) [
      | inl i ↦ rw (e, i) (rw (e, h) refl)
      | inr i ↦ rw (e, i) (rw (text_lt_asym j k h, h) refl)
    ]
  ]

insert_member_comm :
    (j k : Text) (v w : Json) (m : Members)
    → j ≢ k
    → insert_member j v (insert_member k w m) ≡ insert_member k w (insert_member j v m)
insert_member_comm j k v w m n = elim (text_lt_total j k) [
  | inl e ↦ absurd (n e)
  | inr (inl h) ↦ insert_member-insert j k v w h m
  | inr (inr h) ↦ sym (insert_member-insert k j w v h m)
]

mutual
  unfolding sorted

  sorted-Same : {v w : Json} → Same v w → sorted v ≡ sorted w
  sorted-Same same = refl
  sorted-Same (then_same p q) = sorted-Same p ∙ sorted-Same q
  sorted-Same (in_array p) = ap array (items-same p)
  sorted-Same (in_object p) = ap object (members-same p)

  items-same : {xs ys : Items} → SameItems xs ys → sorted_items xs ≡ sorted_items ys
  items-same none_left = refl
  items-same (element p q) = rw (sorted-Same p, items-same q) refl

  members-same : {m n : Members} → SameMembers m n → sorted_members m ≡ sorted_members n
  members-same unchanged = refl
  members-same (then_members p q) = members-same p ∙ members-same q
  members-same (kept p q) = rw (sorted-Same p, members-same q) refl
  members-same (exchanged {j} {k} {v} {w} {m} n) =
      insert_member_comm j k (sorted v) (sorted w) (sorted_members m) n

-- The order in which the members of objects were added does not change the serialisation, nor
-- whether there is one.
pub canonical_json-Same : (v w : Json) → Same v w → canonical_json v ≡ canonical_json w
canonical_json-Same v w s =
    canonical_json-plain v ∙ ap plain_json (sorted-Same s) ∙ sym (canonical_json-plain w)
