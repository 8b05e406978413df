-- ===== src/Queue/Tests.antt =====
-- Runs of the queue, and its theorems at concrete inputs.
use selective_mirror.Base.{
  ℕ, zero, suc, ◌*◌, ◌≡◌, refl, false, none, some, List, [], ◌∷◌, ◌++◌, arith, any, keep, Text,
  codes, same, is_empty,
}
use selective_mirror.Base.Int.{int64}
use selective_mirror.Samples.{notes}
use selective_mirror.Config.{second}
use selective_mirror.Queue.{
  FairQueue, Task, sync_file, delete_file, new_fair_queue, enqueue, enqueue_priority, queue_key,
}
use selective_mirror.Queue.Circuit.{record_failure, record_success}
use selective_mirror.Queue.Dequeue.{poll, taken, wait_until, in_backoff}
use selective_mirror.Queue.Run.{
  Op, enqueues, enqueues_priority, dequeues, apply, run, Turn, waiting, dequeue,
}
use selective_mirror.Queue.First.{
  TakesFirst, poll-TakesFirst, HasEnded, backoff_end, poll-respects_waits,
}
use selective_mirror.Queue.Waits.{poll-takes_delete}
use selective_mirror.Queue.Backoff.{fail_each, breaker_opens_no_more}
use selective_mirror.Queue.Invariant.{Inv, run_new-Inv}
use selective_mirror.Queue.Dedup.{IsDeduped, others, enqueue-moves_to_back, enqueue_loses_delete}
use selective_mirror.Queue.History.{run_new-IsDeduped}

abbrev file_task : Text → Task
file_task path = record {
  project = notes;
  rel_path = path;
  kind = sync_file;
  force_delete = false;
  done = none;
}

abbrev delete_task : Text → Task
delete_task path = record {
  project = notes;
  rel_path = path;
  kind = delete_file;
  force_delete = false;
  done = some 7;
}

abbrev a : Task
a = file_task (codes "a")

abbrev b : Task
b = file_task (codes "b")

abbrev gone_a : Task
gone_a = delete_task (codes "a")

abbrev fresh : FairQueue
fresh = new_fair_queue 0 (30 * second)

abbrev two : FairQueue
two = run (enqueues a ∷ enqueues b ∷ []) fresh

-- Enqueue of a queued file moves it to the back.
moves_to_back : (enqueue a two).0.items ≡ b ∷ a ∷ []
unfolding run enqueue apply new_fair_queue queue_key same is_empty
moves_to_back = refl

-- A delete is taken before the file that stands behind it.
delete_first : (enqueue_priority gone_a two).0.items ≡ gone_a ∷ a ∷ b ∷ []
unfolding run enqueue apply new_fair_queue queue_key same is_empty enqueue_priority
delete_first = refl

-- The delete is lost, and its completion is called as if it had run.
loses_delete : (enqueue a (enqueue_priority gone_a two).0).0.items ≡ a ∷ b ∷ a ∷ []
unfolding run enqueue apply new_fair_queue queue_key same is_empty enqueue_priority
loses_delete = refl

abbrev at_nine : ℕ
at_nine = 9 * second

abbrev failed : FairQueue
failed = fail_each (codes "notes") (at_nine ∷ 8 ∷ 7 ∷ []) two

-- After the failures both files wait, and the delete is taken.
held_back : poll (10 * second) false failed ≡ wait_until (19 * second)
unfolding poll run enqueue apply new_fair_queue queue_key same is_empty record_failure
    record_success int64
held_back = refl

taken_from_two : FairQueue
unfolding poll run enqueue apply new_fair_queue queue_key same is_empty
taken_from_two = elim (poll 5 false two) [ taken t q ↦ q | _ ↦ two ]

poll-two : poll 5 false two ≡ taken a taken_from_two
unfolding taken_from_two
poll-two = refl

poll-TakesFirst_example : TakesFirst 5 two a taken_from_two
poll-TakesFirst_example = poll-TakesFirst 5 false two a taken_from_two poll-two

poll-respects_waits_example :
    HasEnded 5 (backoff_end two (codes "notes"))
    × (is_empty (queue_key a) ≡ false → HasEnded 5 (two.cooldowns (queue_key a)))
poll-respects_waits_example = poll-respects_waits 5 false two a taken_from_two poll-two refl

with_delete : FairQueue
unfolding run enqueue apply new_fair_queue queue_key same is_empty enqueue_priority record_failure
    record_success
with_delete = (enqueue_priority gone_a failed).0

poll-takes_delete_example :
    (t : Task) × (q' : FairQueue) × (poll (10 * second) false with_delete ≡ taken t q')
unfolding with_delete any
poll-takes_delete_example = poll-takes_delete (10 * second) with_delete refl

abbrev history : List Op
history = enqueues a ∷ enqueues_priority gone_a ∷ enqueues b ∷ dequeues 5 false ∷ []

run_new-Inv_example : Inv (run history (new_fair_queue 0 (30 * second)))
run_new-Inv_example = run_new-Inv 0 (30 * second) history (tt, (refl, (tt, (tt, tt))))

two-Inv : Inv two
two-Inv = run_new-Inv 0 (30 * second) (enqueues a ∷ enqueues b ∷ []) (tt, (tt, tt))

two-IsDeduped : IsDeduped two
two-IsDeduped = run_new-IsDeduped 0 (30 * second) (enqueues a ∷ enqueues b ∷ []) (tt, (tt, tt))

enqueue-moves_to_back_example : (enqueue a two).0.items ≡ others (queue_key a) two.items ++ a ∷ []
unfolding run enqueue apply new_fair_queue queue_key same is_empty keep
enqueue-moves_to_back_example =
    enqueue-moves_to_back a two two-Inv two-IsDeduped refl refl (omega arith)

run_new-IsDeduped_example : IsDeduped (run (enqueues a ∷ enqueues a ∷ []) (new_fair_queue 0 0))
run_new-IsDeduped_example = run_new-IsDeduped 0 0 (enqueues a ∷ enqueues a ∷ []) (tt, (tt, tt))

abbrev delete_before : FairQueue
delete_before = (enqueue_priority gone_a two).0

enqueue_loses_delete_example : (enqueue a delete_before).0.items ≡ a ∷ b ∷ a ∷ []
unfolding run enqueue apply new_fair_queue queue_key same is_empty enqueue_priority
enqueue_loses_delete_example =
    enqueue_loses_delete a gone_a (a ∷ b ∷ []) delete_before refl refl refl refl refl refl
      (omega arith)

abbrev many : ℕ → List ℕ
many zero = []
many (suc n) = n ∷ many n

breaker_opens_no_more_example :
    in_backoff 100 (fail_each (codes "notes") (99 ∷ many 60) two) (codes "notes") ≡ none
breaker_opens_no_more_example =
    breaker_opens_no_more (codes "notes") 99 (many 60) two 100 (omega arith) (omega arith)

abbrev sleepy : List Turn
sleepy =
    record { before = enqueues_priority gone_a ∷ []; now = 11 * second; cancelled = false } ∷ []

-- A Dequeue that sleeps on its timer does not see the delete that is put in front of the queue.
sleeps_on_delete :
    dequeue (some (19 * second)) sleepy failed
    ≡ waiting (run (enqueues_priority gone_a ∷ []) failed)
unfolding dequeue
sleeps_on_delete = refl
