-- ===== src/Queue.antt =====
-- internal/sync/fairqueue.go: the task queue between the watcher and the sync workers.
-- A duration that is not positive is 0 here; maxSize is stored and never read. A time is the number of nanoseconds since Go's zero time, so `time.IsZero` is equality with 0;
-- time.Now() is an argument. The mutex makes each method one step. What a method sends to other
-- goroutines (the displaced Done, the overflow callback, the wake-up) is returned as a list.
pub mod Circuit
pub mod Cooldown
pub mod Dequeue
pub mod Run
pub mod First
pub mod Waits
pub mod Invariant
pub mod Dedup
pub mod History
mod Tests
pub mod Pacing
pub mod Backoff
use selective_mirror.Base.{
  ℕ, Bool, true, false, not, ◌&&◌, List, [], ◌∷◌, ◌++◌, Option, none, some, Text, TextMap, TextSet,
  codes, same, is_empty, put_key, discard_key, length, ltb, leb, if◌then◌else◌,
}
use selective_mirror.Config.{Project}

pub data TaskType : Type 0 where
  sync_file delete_file : TaskType

-- A completion callback is known by a number.
pub record Task : Type 0 where
  pub project : Project
  pub rel_path : Text
  pub kind : TaskType
  pub force_delete : Bool
  pub done : Option ℕ

pub record CircuitState : Type 0 where
  pub consecutive_failures : ℕ
  pub backoff_until : ℕ

pub record FairQueue : Type 0 where
  pub items : List Task
  pub pending : TextSet
  pub cooldowns : TextMap ℕ
  pub circuits : TextMap CircuitState
  pub cooldown_dur : ℕ
  pub closed : Bool
  pub max_size : ℕ
  pub event_history : TextMap (List ℕ)
  pub has_overflow_callback : Bool
  pub overflow_fired : Bool

-- What a method hands to another goroutine.
pub data Effect : Type 0 where
  call_done : ℕ → Effect
  call_overflow : Effect
  signal : Effect
  broadcast : Effect

abbrev pub is_delete : Task → Bool
is_delete t = elim t.kind [ sync_file ↦ false | delete_file ↦ true ]

unfoldable pub new_fair_queue : ℕ → ℕ → FairQueue
new_fair_queue max_size cooldown_dur = record {
  items = [];
  pending = λ k. false;
  cooldowns = λ k. none;
  circuits = λ k. none;
  cooldown_dur = cooldown_dur;
  closed = false;
  max_size = max_size;
  event_history = λ k. none;
  has_overflow_callback = false;
  overflow_fired = false;
}

unfoldable pub set_on_overflow : FairQueue → FairQueue
set_on_overflow q = record q { has_overflow_callback = true }

unfoldable pub queue_key : Task → Text
queue_key t = if is_empty t.rel_path then [] else t.project.name ++ (codes ":" ++ t.rel_path)

-- removeByKey: the first item with the key goes, and its completion callback is called.
unfoldable pub drop_first : Text → List Task → List Task
drop_first key [] = []
drop_first key (t ∷ ts) = if same (queue_key t) key then ts else t ∷ drop_first key ts

unfoldable pub first_with : Text → List Task → Option Task
first_with key [] = none
first_with key (t ∷ ts) = if same (queue_key t) key then some t else first_with key ts

abbrev pub done_effects : Option ℕ → List Effect
done_effects none = []
done_effects (some d) = call_done d ∷ []

unfoldable pub remove_by_key : Text → FairQueue → FairQueue × List Effect
unfolding drop_first first_with
remove_by_key key q = elim (first_with key q.items) [
  | none ↦ (q, [])
  | some displaced ↦ (
    record q { items = drop_first key q.items; pending = discard_key key q.pending },
    done_effects displaced.done,
  )
]

abbrev pub hard_cap : ℕ
hard_cap = 100000

abbrev pub overflow_threshold : ℕ
overflow_threshold = 50000

abbrev pub drain_threshold : ℕ
drain_threshold = 25000

-- The depth warning of Enqueue.
unfoldable pub note_depth : FairQueue → FairQueue × List Effect
note_depth q =
    let depth = length q.items in
    if leb overflow_threshold depth && not q.overflow_fired
    then (
      record q { overflow_fired = true },
      if q.has_overflow_callback then call_overflow ∷ [] else [],
    )
    else if ltb depth drain_threshold && q.overflow_fired
    then (record q { overflow_fired = false }, [])
    else (q, [])

-- The deduplication step of Enqueue.
unfoldable pub dedup : Task → FairQueue → FairQueue × List Effect
unfolding remove_by_key
dedup task q =
    let key = queue_key task in
    if not (is_empty key) && q.pending key then remove_by_key key q else (q, [])

unfoldable pub append_task : Task → FairQueue → FairQueue
append_task task q =
    let key = queue_key task in
    record q {
      items = q.items ++ task ∷ [];
      pending = if is_empty key then q.pending else put_key key q.pending;
    }

-- Enqueue after the deduplication: the hard cap, the append, the depth warning and the wake-up.
unfoldable pub admit : Task → FairQueue → FairQueue × List Effect
unfolding note_depth append_task
admit task q =
    if leb hard_cap (length q.items)
    then (q, [])
    else (let (noted, warned) = note_depth (append_task task q) in (noted, warned ++ signal ∷ []))

unfoldable pub enqueue : Task → FairQueue → FairQueue × List Effect
unfolding dedup admit
enqueue task q =
    if q.closed
    then (q, [])
    else (let (deduped, displaced) = dedup task q in
        let (admitted, effects) = admit task deduped in (admitted, displaced ++ effects))

unfoldable pub enqueue_priority : Task → FairQueue → FairQueue × List Effect
enqueue_priority task q =
    if q.closed then (q, []) else (record q { items = task ∷ q.items }, signal ∷ [])

unfoldable pub close : FairQueue → FairQueue × List Effect
close q = (record q { closed = true }, broadcast ∷ [])

unfoldable pub len : FairQueue → ℕ
len q = length q.items
