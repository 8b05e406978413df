-- ===== src/Queue/Invariant.antt =====
-- What every history of the queue keeps: a pending key is the key of a queued task, and tasks that
-- are no deletes stay within the hard cap.
use selective_mirror.Base.{
  ℕ, ◌≤◌, ◌<◌, ◌≡◌, refl, sym, ap, ◌∙◌, inl, inr, Bool, true, false, not, ◌&&◌, ◌||◌, List, [], ◌∷◌,
  ◌++◌, arith, leb, if_cases, Bool-cases, Option-cases, length, length-append, any, keep, All,
  any-append, keep-append, length-keep-le, Text, same, same_iff, is_empty,
}
use selective_mirror.Queue.{
  FairQueue, Task, Effect, is_delete, queue_key, enqueue, enqueue_priority, close, dedup, admit,
  note_depth, append_task, remove_by_key, drop_first, first_with, hard_cap, new_fair_queue,
  set_on_overflow,
}
use selective_mirror.Queue.Circuit.{record_failure, record_success}
use selective_mirror.Queue.Cooldown.{set_cooldown, set_adaptive_cooldown}
use selective_mirror.Queue.Dequeue.{
  poll, taken, stopped, wait_signal, wait_until, spin, forget, Round,
}
use selective_mirror.Queue.Run.{
  Op, enqueues, enqueues_priority, cools, cools_adaptive, fails, succeeds, watches_overflow, closes,
  dequeues, apply, run, after_round,
}
use selective_mirror.Queue.First.{poll-TakesFirst, poll-taken}

abbrev pub has_key : Text → List Task → Bool
has_key k = any (λ t. same (queue_key t) k)

abbrev pub is_upload : Task → Bool
is_upload t = not (is_delete t)

pub record Inv (q : FairQueue) : Type 0 where
  pub sound : (k : Text) → q.pending k ≡ true → (has_key k q.items ≡ true) × (is_empty k ≡ false)
  pub capped : length (keep is_upload q.items) ≤ hard_cap

-- An operation that leaves the items and the pending keys alone.
abbrev pub Leaves : FairQueue → FairQueue → Type 0
Leaves q q' = (q'.items ≡ q.items) × (q'.pending ≡ q.pending)

Leaves-Inv : (q q' : FairQueue) → Leaves q q' → Inv q → Inv q'
Leaves-Inv q q' (i, p) v = record {
  sound = λ k h. rw i (v.sound k (rw p at h));
  capped = rw i v.capped;
}

pub cools-Leaves : (now : ℕ) (key : Text) (q : FairQueue) → Leaves q (set_cooldown now key q)
unfolding set_cooldown
cools-Leaves now key q = ground arith

pub adaptive-Leaves :
    (now : ℕ) (key : Text) (d : ℕ) (q : FairQueue) → Leaves q (set_adaptive_cooldown now key d q)
unfolding set_adaptive_cooldown
adaptive-Leaves now key d q = ground arith

pub failure-Leaves :
    (now : ℕ) (mirror : Text) (q : FairQueue) → Leaves q (record_failure now mirror q).0
unfolding record_failure
failure-Leaves now mirror q = (refl, refl)

pub success-Leaves : (mirror : Text) (q : FairQueue) → Leaves q (record_success mirror q)
unfolding record_success
success-Leaves mirror q = ground arith

pub has_key-drop_first :
    (k key : Text) (ts : List Task)
    → same key k ≡ false
    → has_key k (drop_first key ts) ≡ has_key k ts
unfolding drop_first any
has_key-drop_first k key [] h = refl
has_key-drop_first k key (t ∷ ts) h = elim (Bool-cases (same (queue_key t) key)) [
  | inl hit ↦
      let other : same (queue_key t) k ≡ false =
        ap (λ u. same u k) ((same_iff (queue_key t) key).0 hit) ∙ h in
      rw (hit, drop_first) (rw other)
  | inr miss ↦ rw (miss, drop_first) (rw (has_key-drop_first k key ts h))
]

pub keep-drop_first-le :
    (p : Task → Bool) (key : Text) (ts : List Task)
    → length (keep p (drop_first key ts)) ≤ length (keep p ts)
unfolding drop_first keep
keep-drop_first-le p key [] = omega arith
keep-drop_first-le p key (t ∷ ts) = ground (arith, keep-drop_first-le p key ts)

remove_by_key-Inv : (key : Text) (q : FairQueue) → Inv q → Inv (remove_by_key key q).0
unfolding remove_by_key
remove_by_key-Inv key q v = elim (Option-cases (first_with key q.items)) [
  | inl e ↦ rw (e, remove_by_key) v
  | inr (t, e) ↦
      rw (e, remove_by_key)
        (record {
          sound = λ k h.
              let other : same key k ≡ false = ground arith in
              let pending : q.pending k ≡ true = ground arith in
              let (has, ne) = v.sound k pending in
              (has_key-drop_first k key q.items other ∙ has, ne);
          capped = omega (arith, keep-drop_first-le is_upload key q.items, v.capped);
        })
]

dedup-Inv : (t : Task) (q : FairQueue) → Inv q → Inv (dedup t q).0
unfolding dedup
dedup-Inv t q v = elim (Bool-cases (not (is_empty (queue_key t)) && q.pending (queue_key t))) [
  | inl e ↦ rw (e, dedup) (remove_by_key-Inv (queue_key t) q v)
  | inr e ↦ rw (e, dedup) v
]

or-left : (a b : Bool) → a ≡ true → (a || b) ≡ true
or-left a b h = ground arith

append_task_sound :
    (t : Task) (q : FairQueue) (k : Text)
    → Inv q
    → (append_task t q).pending k ≡ true
    → (has_key k (q.items ++ t ∷ []) ≡ true) × (is_empty k ≡ false)
unfolding append_task any
append_task_sound t q k v h =
    elim (Bool-cases (same (queue_key t) k && not (is_empty (queue_key t)))) [
      | inl new ↦
          let e : queue_key t ≡ k = (same_iff (queue_key t) k).0 (ground arith) in
          let nonempty : is_empty (queue_key t) ≡ false = ground arith in
          let hit : same (queue_key t) k ≡ true = ground arith in
          (
            any-append (λ x. same (queue_key x) k) q.items (t ∷ []) ∙ rw hit (ground arith),
            ap is_empty (sym e) ∙ nonempty,
          )
      | inr old ↦
          let pending : q.pending k ≡ true = ground arith in
          let (has, ne) = v.sound k pending in
          (any-append (λ x. same (queue_key x) k) q.items (t ∷ []) ∙ or-left _ _ has, ne)
    ]

append_task-Inv :
    (t : Task) (q : FairQueue) → length q.items < hard_cap → Inv q → Inv (append_task t q)
unfolding append_task keep
append_task-Inv t q lt v = record {
  sound = λ k h. append_task_sound t q k v h;
  capped =
      rw (keep-append is_upload q.items (t ∷ []), length-append (keep is_upload q.items))
        (ground (arith, length-keep-le is_upload q.items));
}

pub note_depth-Leaves : (q : FairQueue) → Leaves q (note_depth q).0
unfolding note_depth
note_depth-Leaves q = ground arith

admit-Inv : (t : Task) (q : FairQueue) → Inv q → Inv (admit t q).0
unfolding admit
admit-Inv t q v = elim (Bool-cases (leb hard_cap (length q.items))) [
  | inl full ↦ rw (full, admit) v
  | inr room ↦
      rw (room, admit)
        (Leaves-Inv (append_task t q) _ (note_depth-Leaves (append_task t q))
          (append_task-Inv t q (ground arith) v))
]

enqueue-Inv : (t : Task) (q : FairQueue) → Inv q → Inv (enqueue t q).0
unfolding enqueue
enqueue-Inv t q v =
    if_cases (λ (r : FairQueue × List Effect). Inv r.0) q.closed _ _ (λ _. v)
      (λ _. admit-Inv t (dedup t q).0 (dedup-Inv t q v))

enqueue_priority-Inv :
    (t : Task) (q : FairQueue) → is_delete t ≡ true → Inv q → Inv (enqueue_priority t q).0
unfolding enqueue_priority any keep
enqueue_priority-Inv t q d v =
    if_cases (λ (r : FairQueue × List Effect). Inv r.0) q.closed _ _ (λ _. v)
      (λ _. record {
        sound = λ k h. let (has, ne) = v.sound k h in (ground arith, ne);
        capped = rw d v.capped;
      })

pub has_key-middle :
    (k : Text) (t : Task) (front back : List Task)
    → same (queue_key t) k ≡ false
    → has_key k (front ++ t ∷ back) ≡ has_key k (front ++ back)
unfolding any
has_key-middle k t front back h =
    any-append (λ x. same (queue_key x) k) front (t ∷ back)
    ∙ rw h (sym (any-append (λ x. same (queue_key x) k) front back))

pub keep-middle-le :
    (p : Task → Bool) (t : Task) (front back : List Task)
    → length (keep p (front ++ back)) ≤ length (keep p (front ++ t ∷ back))
unfolding keep
keep-middle-le p t [] back = ground arith
keep-middle-le p t (x ∷ front) back = ground (arith, keep-middle-le p t front back)

pending-forget :
    (t : Task) (q : FairQueue) (k : Text)
    → is_empty k ≡ false
    → (forget t q).pending k ≡ true
    → (same (queue_key t) k ≡ false) × (q.pending k ≡ true)
unfolding forget
pending-forget t q k ne h = elim (Bool-cases (same (queue_key t) k)) [
  | inl hit ↦
      let e : is_empty (queue_key t) ≡ is_empty k =
        ap is_empty ((same_iff (queue_key t) k).0 hit) in
      absurd (ground arith)
  | inr miss ↦ (miss, ground arith)
]

pending-forget_le :
    (t : Task) (q : FairQueue) (k : Text) → (forget t q).pending k ≡ true → q.pending k ≡ true
unfolding forget
pending-forget_le t q k h = ground arith

poll-Inv :
    (now : ℕ) (c : Bool) (q : FairQueue) (r : Round)
    → poll now c q ≡ r
    → Inv q
    → Inv (after_round q r)
poll-Inv now c q (taken t q') h v =
    let (front, back, items, rest, passed, free) = poll-TakesFirst now c q t q' h in
    let (left, found_it, e) = poll-taken now c q h in
    record {
      sound = λ k p.
          let p' : (forget t (record q { items = left })).pending k ≡ true =
            ap (λ x. x.pending k) (sym e) ∙ p in
          let (has, ne) = v.sound k (pending-forget_le t (record q { items = left }) k p') in
          let (miss, old) = pending-forget t (record q { items = left }) k ne p' in
          (
            rw rest (sym (has_key-middle k t front back miss) ∙ ap (has_key k) (sym items) ∙ has),
            ne,
          );
      capped = rw rest (
          omega (
            arith,
            keep-middle-le is_upload t front back,
            ap (λ x. length (keep is_upload x)) items,
            v.capped,
          ));
    }
poll-Inv now c q stopped h v = v
poll-Inv now c q wait_signal h v = v
poll-Inv now c q (wait_until e) h v = v
poll-Inv now c q spin h v = v

-- Every caller gives EnqueuePriority a delete.
abbrev pub IsUsed : Op → Type 0
IsUsed (enqueues_priority t) = is_delete t ≡ true
IsUsed _ = Unit {0}

pub apply-Inv : (op : Op) (q : FairQueue) → IsUsed op → Inv q → Inv (apply op q)
unfolding apply set_on_overflow close
apply-Inv (enqueues t) q u v = enqueue-Inv t q v
apply-Inv (enqueues_priority t) q u v = enqueue_priority-Inv t q u v
apply-Inv (cools now key) q u v = Leaves-Inv q _ (cools-Leaves now key q) v
apply-Inv (cools_adaptive now key d) q u v = Leaves-Inv q _ (adaptive-Leaves now key d q) v
apply-Inv (fails now mirror) q u v = Leaves-Inv q _ (failure-Leaves now mirror q) v
apply-Inv (succeeds mirror) q u v = Leaves-Inv q _ (success-Leaves mirror q) v
apply-Inv watches_overflow q u v = record { sound = v.sound; capped = v.capped }
apply-Inv closes q u v = record { sound = v.sound; capped = v.capped }
apply-Inv (dequeues now c) q u v = poll-Inv now c q (poll now c q) refl v

run-Inv : (ops : List Op) (q : FairQueue) → All IsUsed ops → Inv q → Inv (run ops q)
unfolding run
run-Inv [] q u v = v
run-Inv (op ∷ ops) q (u, us) v = run-Inv ops (apply op q) us (apply-Inv op q u v)

pub new_fair_queue-Inv : (size dur : ℕ) → Inv (new_fair_queue size dur)
unfolding new_fair_queue keep
new_fair_queue-Inv size dur = record { sound = λ k h. cc; capped = omega arith }

-- Whatever calls are made in whatever order, as long as EnqueuePriority is given deletes only: a
-- pending key is the key of a task in the queue, and the tasks that are no deletes stay within the
-- hard cap.
pub run_new-Inv :
    (size dur : ℕ) (ops : List Op) → All IsUsed ops → Inv (run ops (new_fair_queue size dur))
run_new-Inv size dur ops u = run-Inv ops (new_fair_queue size dur) u (new_fair_queue-Inv size dur)
