-- ===== src/Queue.antt =====
-- The queue's order (src/alg/priority.ts, lines 354 to 487): the key of a ticket, the comparator,
-- the sort, the stored collation of a key and a reopened ticket's clock.
pub mod Order
pub mod Keys
pub mod Sorting
pub mod Arrival
pub mod Collation
pub mod Reopen
mod Examples
use ledgerdesk.Prelude.{
  ℕ, ◌+◌, ◌-◌, ◌<◌, Bool, true, false, not, ◌||◌, ◌&&◌, List, [], ◌∷◌, ◌++◌, map, length, ltb, leb,
  ◌==◌, if◌then◌else◌, ℤ, pos, negsuc, pos_part, sub_ℕ, ◌+ℤ◌, ◌-ℤ◌, ltb_ℤ, leb_ℤ, eq_ℤ, Number,
  Text, text_eq, text_lt, decimal, pad_start,
}
use ledgerdesk.Priority.{
  QueueFeatures, PriorityWeights, PriorityBreakdown, Checked, ok, throws, ◌>>=◌, range_error,
  compute_priority,
}

-- `priority` counts millionths, as the stored score does.
pub record QueueKey : Type 0 where
  pub breached : Bool
  pub priority : ℕ
  pub created_at : ℤ
  pub id : Text

abbrev pub key_from : QueueFeatures → PriorityBreakdown → QueueKey
key_from f b = record {
  breached = b.breached;
  priority = b.stored_score;
  created_at = f.created_at;
  id = f.id;
}

unfoldable pub queue_key : QueueFeatures → Number → PriorityWeights → Checked QueueKey
queue_key f now weights = do b ← compute_priority f now weights; ok (key_from f b)

abbrev bool_ne : Bool → Bool → Bool
bool_ne true b = not b
bool_ne false b = b

-- Negative where `a` comes first, positive where `b` does.
unfoldable pub compare_queue_keys : QueueKey → QueueKey → ℤ
unfolding ◌-ℤ◌
compare_queue_keys a b =
    if bool_ne a.breached b.breached
    then (if a.breached then negsuc 0 else pos 1)
    else if not (a.priority == b.priority)
    then sub_ℕ b.priority a.priority
    else if not (eq_ℤ a.created_at b.created_at)
    then a.created_at -ℤ b.created_at
    else if text_eq a.id b.id
    then pos 0
    else if text_lt a.id b.id
    then negsuc 0
    else pos 1

pub record Entry : Type 0 where
  pub ticket : QueueFeatures
  pub key : QueueKey

unfoldable pub keyed : List QueueFeatures → Number → PriorityWeights → Checked (List Entry)
keyed [] now weights = ok []
keyed (t ∷ ts) now weights = do
  k ← queue_key t now weights
  rest ← keyed ts now weights
  ok (record { ticket = t; key = k } ∷ rest)

-- `Array.prototype.sort` is stable, so any stable sort by the comparator is it. An entry goes in
-- front of the first that the comparator does not put before it.
unfoldable pub insert_entry : Entry → List Entry → List Entry
insert_entry e [] = e ∷ []
insert_entry e (d ∷ ds) =
    if leb_ℤ (compare_queue_keys e.key d.key) (pos 0) then e ∷ d ∷ ds else d ∷ insert_entry e ds

unfoldable pub sort_entries : List Entry → List Entry
unfolding insert_entry
sort_entries [] = []
sort_entries (e ∷ es) = insert_entry e (sort_entries es)

unfoldable pub order_queue :
    List QueueFeatures → Number → PriorityWeights → Checked (List QueueFeatures)
unfolding keyed sort_entries
order_queue tickets now weights = do
  entries ← keyed tickets now weights
  ok (map (λ e. e.ticket) (sort_entries entries))

abbrev pub collation_time_width : ℕ
collation_time_width = 15

abbrev pub collation_priority_ceiling : ℕ
collation_priority_ceiling = 9_999_999

-- `${breached}|${descendingPriority}|${createdAt}|${key.id}`; 124 is the bar. A priority counts
-- millionths already, and is never negative. An instant is below 10²¹, as every `Date` is: from
-- there on `String` writes an exponent.
unfoldable pub stored_collation_key : QueueKey → Checked Text
stored_collation_key k =
    if ltb collation_priority_ceiling k.priority
    then throws range_error
    else if ltb_ℤ k.created_at (pos 0)
        || ltb collation_time_width (length (decimal (pos_part k.created_at)))
    then throws range_error
    else ok (
        (if k.breached then 48 else 49)
        ∷ 124
        ∷ (pad_start 7 (decimal (collation_priority_ceiling - k.priority))
            ++ (124
                ∷ (pad_start collation_time_width (decimal (pos_part k.created_at))
                    ++ (124 ∷ k.id)))))

unfoldable pub compare_stored_rows : QueueKey → QueueKey → Checked ℤ
compare_stored_rows a b = do
  left ← stored_collation_key a
  right ← stored_collation_key b
  ok (if text_eq left right then pos 0 else if text_lt left right then negsuc 0 else pos 1)

unfoldable pub apply_reopen : QueueFeatures → ℤ → ℤ → Checked QueueFeatures
unfolding ◌+ℤ◌
apply_reopen f reopened_at sla_window =
    if leb_ℤ sla_window (pos 0)
    then throws range_error
    else ok (record f { created_at = reopened_at; sla_due_at = reopened_at +ℤ sla_window })
