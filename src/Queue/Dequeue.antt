-- ===== src/Queue/Dequeue.antt =====
-- fairqueue.go: Dequeue. `poll` is one round of its loop, from taking the lock to a return or a
-- wait; `dequeue` is the loop over the rounds that the environment lets it make.
use selective_mirror.Base.{
  ℕ, Bool, not, ◌&&◌, ◌||◌, List, [], ◌∷◌, Option, none, some, Text, discard, discard_key, ltb,
  ◌==◌, if◌then◌else◌, is_empty,
}
use selective_mirror.Queue.{FairQueue, Task, is_delete, queue_key}

-- A mirror in backoff at `now`, with the end of its backoff.
unfoldable pub in_backoff : ℕ → FairQueue → Text → Option ℕ
in_backoff now q mirror = elim (q.circuits mirror) [
  | none ↦ none
  | some cs ↦ if ltb now cs.backoff_until then some cs.backoff_until else none
]

unfoldable pub in_cooldown : ℕ → FairQueue → Text → Option ℕ
in_cooldown now q key = elim (q.cooldowns key) [
  | none ↦ none
  | some expiry ↦ if ltb now expiry then some expiry else none
]

-- The tests of the scan on one item, in their order: `none` takes the item, and `some t` passes
-- over it because of a wait that ends at `t`.
unfoldable pub passed_over : ℕ → FairQueue → Task → Option ℕ
unfolding in_backoff in_cooldown
passed_over now q item =
    if is_delete item
    then none
    else if is_empty (queue_key item)
    then in_backoff now q item.project.name
    else elim (in_backoff now q item.project.name) [
      | none ↦ in_cooldown now q (queue_key item)
      | some until ↦ some until
    ]

-- The least expiry so far; 0 is Go's zero time, before the first.
abbrev pub earlier : ℕ → ℕ → ℕ
earlier earliest t = if earliest == 0 || ltb t earliest then t else earliest

pub data Scan : Type 0 where
  found : Task → List Task → Scan
  nothing : ℕ → Scan

-- A scan past one more item.
abbrev pub past : Task → Scan → Scan
past item (found t rest) = found t (item ∷ rest)
past item (nothing e) = nothing e

unfoldable pub scan : ℕ → FairQueue → ℕ → List Task → Scan
unfolding passed_over
scan now q earliest [] = nothing earliest
scan now q earliest (item ∷ items) = elim (passed_over now q item) [
  | none ↦ found item items
  | some t ↦ past item (scan now q (earlier earliest t) items)
]

-- The bookkeeping for an item that is taken.
unfoldable pub forget : Task → FairQueue → FairQueue
forget item q =
    let key = queue_key item in
    if is_empty key
    then q
    else if is_delete item
    then record q { pending = discard_key key q.pending }
    else record q { pending = discard_key key q.pending; cooldowns = discard key q.cooldowns }

-- How a round ends. `spin` is a round that neither returns nor waits.
pub data Round : Type 0 where
  taken : Task → FairQueue → Round
  stopped : Round
  wait_signal : Round
  wait_until : ℕ → Round
  spin : Round

unfoldable pub after_scan : FairQueue → Scan → Round
unfolding forget
after_scan q (found item rest) = taken item (forget item (record q { items = rest }))
after_scan q (nothing earliest) =
    if q.closed && is_empty q.items
    then stopped
    else if not (earliest == 0)
    then wait_until earliest
    else if is_empty q.items
    then wait_signal
    else spin

unfoldable pub poll : ℕ → Bool → FairQueue → Round
unfolding scan after_scan
poll now cancelled q =
    if is_empty q.items && not q.closed && not cancelled
    then wait_signal
    else if cancelled
    then stopped
    else after_scan q (scan now q 0 q.items)
