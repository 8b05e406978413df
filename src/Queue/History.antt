-- ===== src/Queue/History.antt =====
-- Histories of the queue without deletes keep it deduplicated.
use selective_mirror.Base.{
  ℕ, suc, ◌≤◌, ◌≡◌, refl, ap, ◌∙◌, inl, inr, Bool, true, false, List, [], ◌∷◌, ◌++◌, arith,
  Bool-cases, any, keep, All, Text, same,
}
use selective_mirror.Queue.{FairQueue, Task, queue_key, new_fair_queue, set_on_overflow, close}
use selective_mirror.Queue.Dequeue.{
  poll, taken, stopped, wait_signal, wait_until, spin, forget, Round,
}
use selective_mirror.Queue.Run.{
  Op, enqueues, enqueues_priority, cools, cools_adaptive, fails, succeeds, watches_overflow, closes,
  dequeues, apply, run, after_round,
}
use selective_mirror.Queue.First.{poll-TakesFirst, poll-taken}
use selective_mirror.Queue.Invariant.{
  Inv, IsUsed, has_key, has_key-middle, keep-middle-le, apply-Inv, new_fair_queue-Inv, cools-Leaves,
  adaptive-Leaves, failure-Leaves, success-Leaves,
}
use selective_mirror.Queue.Dedup.{IsDeduped, count_key, enqueue-IsDeduped, Leaves-IsDeduped}

pending-forget_other :
    (t : Task) (q : FairQueue) (k : Text)
    → same (queue_key t) k ≡ false
    → (forget t q).pending k ≡ q.pending k
unfolding forget
pending-forget_other t q k h = ground arith

count-middle :
    (k : Text) (t : Task) (front back : List Task)
    → same (queue_key t) k ≡ true
    → count_key k (front ++ t ∷ back) ≡ suc (count_key k (front ++ back))
unfolding keep
count-middle k t [] back h = rw h
count-middle k t (x ∷ front) back h = ground (arith, count-middle k t front back)

count-has : (k : Text) (ts : List Task) → has_key k ts ≡ true → 1 ≤ count_key k ts
unfolding any keep
count-has k [] h = cc
count-has k (t ∷ ts) h = ground (arith, count-has k ts)

poll-IsDeduped :
    (now : ℕ) (c : Bool) (q : FairQueue) (r : Round)
    → poll now c q ≡ r
    → IsDeduped q
    → IsDeduped (after_round q r)
poll-IsDeduped now c q (taken t q') h u =
    let (front, back, items, rest, passed, free) = poll-TakesFirst now c q t q' h in
    let (left, found_it, e) = poll-taken now c q h in
    record {
      complete = λ k ne has. elim (Bool-cases (same (queue_key t) k)) [
        | inl hit ↦ absurd (
            omega (
              arith,
              u.unique k ne,
              ap (count_key k) items,
              count-middle k t front back hit,
              count-has k (front ++ back) (rw rest at has),
            ))
        | inr miss ↦
            let old : has_key k q.items ≡ true =
              ap (has_key k) items ∙ has_key-middle k t front back miss ∙ (rw rest at has) in
            rw e (pending-forget_other t (record q { items = left }) k miss ∙ u.complete k ne old)
      ];
      unique = λ k ne. rw rest (
          omega (
            arith,
            keep-middle-le (λ x. same (queue_key x) k) t front back,
            ap (count_key k) items,
            u.unique k ne,
          ));
    }
poll-IsDeduped now c q stopped h u = u
poll-IsDeduped now c q wait_signal h u = u
poll-IsDeduped now c q (wait_until e) h u = u
poll-IsDeduped now c q spin h u = u

-- No delete is put before the queue.
abbrev pub IsPlain : Op → Type 0
IsPlain (enqueues_priority t) = ⊥
IsPlain _ = Unit {0}

IsPlain-IsUsed : (op : Op) → IsPlain op → IsUsed op
IsPlain-IsUsed (enqueues_priority t) p = absurd p
IsPlain-IsUsed _ p = tt

apply-IsDeduped :
    (op : Op) (q : FairQueue) → IsPlain op → Inv q → IsDeduped q → IsDeduped (apply op q)
unfolding apply set_on_overflow close
apply-IsDeduped (enqueues t) q p v u = enqueue-IsDeduped t q v u
apply-IsDeduped (enqueues_priority t) q p v u = absurd p
apply-IsDeduped (cools now key) q p v u = Leaves-IsDeduped q _ (cools-Leaves now key q) u
apply-IsDeduped (cools_adaptive now key d) q p v u =
    Leaves-IsDeduped q _ (adaptive-Leaves now key d q) u
apply-IsDeduped (fails now mirror) q p v u = Leaves-IsDeduped q _ (failure-Leaves now mirror q) u
apply-IsDeduped (succeeds mirror) q p v u = Leaves-IsDeduped q _ (success-Leaves mirror q) u
apply-IsDeduped watches_overflow q p v u = record { complete = u.complete; unique = u.unique }
apply-IsDeduped closes q p v u = record { complete = u.complete; unique = u.unique }
apply-IsDeduped (dequeues now c) q p v u = poll-IsDeduped now c q (poll now c q) refl u

run-IsDeduped :
    (ops : List Op) (q : FairQueue) → All IsPlain ops → Inv q → IsDeduped q → IsDeduped (run ops q)
unfolding run
run-IsDeduped [] q p v u = u
run-IsDeduped (op ∷ ops) q (p, ps) v u =
    run-IsDeduped ops (apply op q) ps (apply-Inv op q (IsPlain-IsUsed op p) v)
      (apply-IsDeduped op q p v u)

-- In a history without EnqueuePriority every file is queued at most once, and a queued file is
-- pending, so that the next Enqueue of it finds its task.
pub run_new-IsDeduped :
    (size dur : ℕ) (ops : List Op) → All IsPlain ops → IsDeduped (run ops (new_fair_queue size dur))
unfolding new_fair_queue keep any
run_new-IsDeduped size dur ops p =
    run-IsDeduped ops (new_fair_queue size dur) p (new_fair_queue-Inv size dur)
      (record { complete = λ k ne has. cc; unique = λ k ne. omega arith })
