-- ===== src/Queue/Run.antt =====
-- fairqueue.go: histories of the queue, and the loop of Dequeue between the steps of other goroutines.
use selective_mirror.Base.{
  ℕ, Bool, false, List, [], ◌∷◌, Option, none, some, Text, ltb, if◌then◌else◌,
}
use selective_mirror.Queue.{FairQueue, Task, enqueue, enqueue_priority, close, set_on_overflow}
use selective_mirror.Queue.Circuit.{record_failure, record_success}
use selective_mirror.Queue.Cooldown.{set_cooldown, set_adaptive_cooldown}
use selective_mirror.Queue.Dequeue.{Round, taken, stopped, wait_signal, wait_until, spin, poll}

-- A call by another goroutine; a call that reads the clock carries its time.
pub data Op : Type 0 where
  enqueues : Task → Op
  enqueues_priority : Task → Op
  cools : ℕ → Text → Op
  cools_adaptive : ℕ → Text → ℕ → Op
  fails : ℕ → Text → Op
  succeeds : Text → Op
  watches_overflow : Op
  closes : Op
  -- A round of another worker's Dequeue, which keeps its queue unless it takes a task.
  dequeues : ℕ → Bool → Op

abbrev pub after_round : FairQueue → Round → FairQueue
after_round q (taken t r) = r
after_round q stopped = q
after_round q wait_signal = q
after_round q (wait_until e) = q
after_round q spin = q

unfoldable pub apply : Op → FairQueue → FairQueue
apply (enqueues t) q = (enqueue t q).0
apply (enqueues_priority t) q = (enqueue_priority t q).0
apply (cools now key) q = set_cooldown now key q
apply (cools_adaptive now key d) q = set_adaptive_cooldown now key d q
apply (fails now mirror) q = (record_failure now mirror q).0
apply (succeeds mirror) q = record_success mirror q
apply watches_overflow q = set_on_overflow q
apply closes q = (close q).0
apply (dequeues now cancelled) q = after_round q (poll now cancelled q)

unfoldable pub run : List Op → FairQueue → FairQueue
run [] q = q
run (op ∷ ops) q = run ops (apply op q)

-- The next time that a waiting Dequeue may run: what the others did before, the clock, the context.
pub record Turn : Type 0 where
  pub before : List Op
  pub now : ℕ
  pub cancelled : Bool

pub data Outcome : Type 0 where
  returned : Task → FairQueue → Outcome
  gave_up : FairQueue → Outcome
  waiting : FairQueue → Outcome

-- Asleep on the timer, which the condition variable does not interrupt.
abbrev pub asleep : Option ℕ → ℕ → Bool
asleep none now = false
asleep (some e) now = ltb now e

unfoldable pub dequeue : Option ℕ → List Turn → FairQueue → Outcome
unfolding run apply
dequeue timer [] q = waiting q
dequeue timer (turn ∷ turns) q =
    let q' = run turn.before q in
    let sleep_on = dequeue timer turns q' in
    let go_round : Outcome = elim (poll turn.now turn.cancelled q') [
      | taken t r ↦ returned t r
      | stopped ↦ gave_up q'
      | wait_signal ↦ dequeue none turns q'
      | wait_until e ↦ dequeue (some e) turns q'
      | spin ↦ dequeue none turns q'
    ] in
    if turn.cancelled then gave_up q' else if asleep timer turn.now then sleep_on else go_round
