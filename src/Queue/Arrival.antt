-- ===== src/Queue/Arrival.antt =====
-- `orderQueue` on tickets that come in another order.
use mathlib.Core.HLevel.{hedberg}
use mathlib.Core.Logic.{∥∥₁_elim}
use mathlib.Core.List.{Perm, Permᴰ}
use mathlib.Core.List.Perm
use native.Mathlib.Decide.{ℕ_discrete}
use ledgerdesk.Prelude.{
  ◌≡◌, refl, sym, ap, ◌∙◌, false, arith, List, [], ◌∷◌, map, All, Number, if◌then◌else◌, pos,
}
use ledgerdesk.Priority.{QueueFeatures, PriorityWeights, Checked, ok, throws, >>=-ok}
use ledgerdesk.Queue.{QueueKey, Entry, queue_key, keyed, insert_entry, sort_entries, order_queue}
use ledgerdesk.Queue.Order.{at_most, at_most_total, at_most_trans, at_most_antisymm}
use ledgerdesk.Queue.Keys.{queue_key-ok}
use ledgerdesk.Queue.Sorting.{HasKey, keyed-HasKey, sort_entries-All}

insert_key : QueueKey → List QueueKey → List QueueKey
insert_key k [] = k ∷ []
insert_key k (l ∷ ls) = if at_most k l then k ∷ l ∷ ls else l ∷ insert_key k ls

sort_keys : List QueueKey → List QueueKey
sort_keys [] = []
sort_keys (k ∷ ks) = insert_key k (sort_keys ks)

insert_key_comm :
    (a b : QueueKey) (ks : List QueueKey)
    → insert_key a (insert_key b ks) ≡ insert_key b (insert_key a ks)
unfolding insert_key
insert_key_comm a b [] = ground (arith, at_most_total a b, at_most_antisymm a b)
insert_key_comm a b (k ∷ ks) = ground (
  arith,
  insert_key_comm a b ks,
  at_most_total a b,
  at_most_antisymm a b,
  at_most_trans a b k,
  at_most_trans b a k,
  at_most_total a k,
  at_most_total b k,
)

sort_keys-permᴰ : {ks ls : List QueueKey} → Permᴰ ks ls → sort_keys ks ≡ sort_keys ls
unfolding sort_keys
sort_keys-permᴰ Permᴰ.nil = refl
sort_keys-permᴰ (Permᴰ.cons e p) = cc (e, sort_keys-permᴰ p)
sort_keys-permᴰ (Permᴰ.swap {a} {b} {l} e f) = rw (← e, ← f) (insert_key_comm a b (sort_keys l))
sort_keys-permᴰ (Permᴰ.trans p q) = sort_keys-permᴰ p ∙ sort_keys-permᴰ q

QueueKey-discrete : Discrete QueueKey
QueueKey-discrete = hlevel ℕ_discrete

keys-discrete : Discrete (List QueueKey)
keys-discrete = hlevel QueueKey-discrete

sort_keys-perm : {ks ls : List QueueKey} → Perm ks ls → sort_keys ks ≡ sort_keys ls
sort_keys-perm p = ∥∥₁_elim p (hedberg keys-discrete _ _) (λ q. sort_keys-permᴰ q)

insert_entry-keys :
    (e : Entry) (es : List Entry)
    → map (λ d. d.key) (insert_entry e es) ≡ insert_key e.key (map (λ d. d.key) es)
unfolding insert_entry insert_key
insert_entry-keys e [] = refl
insert_entry-keys e (d ∷ ds) = ground (arith, insert_entry-keys e ds)

sort_entries-keys :
    (es : List Entry) → map (λ d. d.key) (sort_entries es) ≡ sort_keys (map (λ d. d.key) es)
unfolding sort_entries sort_keys
sort_entries-keys [] = refl
sort_entries-keys (e ∷ es) =
    insert_entry-keys e (sort_entries es) ∙ ap (insert_key e.key) (sort_entries-keys es)

-- The key that a computation gives, and any other where it throws.
key_or : QueueKey → Checked QueueKey → QueueKey
key_or d (ok k) = k
key_or d (throws t) = d

module _ (now : Number) (w : PriorityWeights) (d : QueueKey) where
  key_of : QueueFeatures → QueueKey
  unfolding key_or
  key_of t = key_or d (queue_key t now w)

  -- The keys of the entries are those of their tickets.
  keys-tickets :
      (es : List Entry)
      → All (HasKey now w) es
      → map (λ e. e.key) es ≡ map key_of (map (λ e. e.ticket) es)
  unfolding key_of
  keys-tickets [] h = refl
  keys-tickets (e ∷ es) (h, hs) = cc (keys-tickets es hs, ap (key_or d) h)

  -- A key carries its ticket's identifier.
  ids-keys :
      (es : List Entry)
      → All (HasKey now w) es
      → map (λ t. t.id) (map (λ e. e.ticket) es) ≡ map (λ k. k.id) (map (λ e. e.key) es)
  ids-keys [] h = refl
  ids-keys (e ∷ es) (h, hs) =
      let (b, hb, k) = queue_key-ok e.ticket now w h in
      let same : e.ticket.id ≡ e.key.id = ground arith in cc (same, ids-keys es hs)

  sorted_keys :
      (ts : List QueueFeatures) {out : List QueueFeatures}
      → order_queue ts now w ≡ ok out
      → map (λ t. t.id) out ≡ map (λ k. k.id) (sort_keys (map key_of ts))
  unfolding order_queue
  sorted_keys ts {out} h =
      let (es, he, last) = >>=-ok (keyed ts now w) _ h in
      let (have, tickets) = keyed-HasKey now w ts he in
      let e : out ≡ map (λ e. e.ticket) (sort_entries es) = ground arith in
      rw e (
        ids-keys (sort_entries es) (sort_entries-All (HasKey now w) es have)
        ∙ ap (map (λ (k : QueueKey). k.id))
            (sort_entries-keys es ∙ ap sort_keys (keys-tickets es have ∙ ap (map key_of) tickets)))

-- Two orderings of the same tickets, given in any two orders, list the same identifiers in the
-- same order.
pub order_queue-arrival :
    (ts us : List QueueFeatures) (now : Number) (w : PriorityWeights)
    {out out' : List QueueFeatures}
    → Perm ts us
    → order_queue ts now w ≡ ok out
    → order_queue us now w ≡ ok out'
    → map (λ t. t.id) out ≡ map (λ t. t.id) out'
order_queue-arrival ts us now w p h k =
    let d : QueueKey = record { breached = false; priority = 0; created_at = pos 0; id = [] } in
    sorted_keys now w d ts h
    ∙ ap (map (λ (k : QueueKey). k.id)) (sort_keys-perm (Perm.map (key_of now w d) p))
    ∙ sym (sorted_keys now w d us k)
