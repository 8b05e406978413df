-- ===== src/Queue/Dedup.antt =====
-- Deduplication: what Enqueue does to a file that is queued already, without deletes and with them.
use selective_mirror.Base.{
  ℕ, ◌+◌, ◌≤◌, ◌<◌, ◌≡◌, refl, sym, ap, ◌∙◌, inl, inr, true, false, not, some, List, [], ◌∷◌, ◌++◌,
  arith, leb, if◌then◌else◌, if_cases, Bool-cases, Option-cases, length, length-append, any, keep,
  any-append, keep-append, Text, same, same_iff, is_empty,
}
use selective_mirror.Queue.{
  FairQueue, Task, Effect, is_delete, queue_key, enqueue, dedup, admit, append_task, remove_by_key,
  drop_first, first_with, hard_cap,
}
use selective_mirror.Queue.Invariant.{
  has_key, Inv, has_key-drop_first, keep-drop_first-le, Leaves, note_depth-Leaves,
}

-- How many queued tasks have the key.
abbrev pub count_key : Text → List Task → ℕ
count_key k ts = length (keep (λ t. same (queue_key t) k) ts)

-- The tasks with another key, in their order.
abbrev pub others : Text → List Task → List Task
others k = keep (λ t. not (same (queue_key t) k))

-- Without deletes in the queue, a queued file is pending and is there once.
pub record IsDeduped (q : FairQueue) : Type 0 where
  pub complete : (k : Text) → is_empty k ≡ false → has_key k q.items ≡ true → q.pending k ≡ true
  pub unique : (k : Text) → is_empty k ≡ false → count_key k q.items ≤ 1

others_none : (k : Text) (ts : List Task) → count_key k ts ≡ 0 → others k ts ≡ ts
unfolding keep
others_none k [] h = refl
others_none k (t ∷ ts) h = ground (arith, others_none k ts)

-- Where the key is there once, dropping its first task drops all of them.
drop_first-others : (k : Text) (ts : List Task) → count_key k ts ≤ 1 → drop_first k ts ≡ others k ts
unfolding drop_first keep
drop_first-others k [] h = refl
drop_first-others k (t ∷ ts) h = ground (arith, drop_first-others k ts, others_none k ts)

first_with-has :
    (k : Text) (ts : List Task) → has_key k ts ≡ true → (t : Task) × (first_with k ts ≡ some t)
unfolding first_with any
first_with-has k [] h = absurd (cc)
first_with-has k (t ∷ ts) h = elim (Bool-cases (same (queue_key t) k)) [
  | inl hit ↦ rw (hit, first_with) (t, refl)
  | inr miss ↦ rw (miss, first_with) (first_with-has k ts (ground arith))
]

count-none : (k : Text) (ts : List Task) → has_key k ts ≡ false → count_key k ts ≡ 0
unfolding any keep
count-none k [] h = refl
count-none k (t ∷ ts) h = ground (arith, count-none k ts)

not_pending-absent :
    (k : Text) (q : FairQueue)
    → IsDeduped q
    → is_empty k ≡ false
    → q.pending k ≡ false
    → has_key k q.items ≡ false
not_pending-absent k q u ne p = elim (Bool-cases (has_key k q.items)) [
  | inl has ↦ cc (u.complete k ne has)
  | inr none_ ↦ none_
]

-- The items that the deduplication leaves.
dedup-items :
    (t : Task) (q : FairQueue)
    → Inv q
    → IsDeduped q
    → is_empty (queue_key t) ≡ false
    → (dedup t q).0.items ≡ others (queue_key t) q.items
unfolding dedup remove_by_key
dedup-items t q v u ne = elim (Bool-cases (q.pending (queue_key t))) [
  | inl p ↦
      let (x, e) = first_with-has (queue_key t) q.items (v.sound (queue_key t) p).0 in
      rw (ne, p, e, remove_by_key)
        (drop_first-others (queue_key t) q.items (u.unique (queue_key t) ne))
  | inr p ↦
      rw (ne, p)
        (sym (
          others_none (queue_key t) q.items
            (count-none _ q.items (not_pending-absent (queue_key t) q u ne p))))
]

has_key-others : (k : Text) (ts : List Task) → has_key k (others k ts) ≡ false
unfolding any keep
has_key-others k [] = refl
has_key-others k (t ∷ ts) = ground (arith, has_key-others k ts)

remove_by_key-IsDeduped :
    (key : Text) (q : FairQueue)
    → is_empty key ≡ false
    → IsDeduped q
    → IsDeduped (remove_by_key key q).0
unfolding remove_by_key
remove_by_key-IsDeduped key q nk u = elim (Option-cases (first_with key q.items)) [
  | inl e ↦ rw (e, remove_by_key) u
  | inr (t, e) ↦
      rw (e, remove_by_key)
        (record {
          complete = λ k ne has. elim (Bool-cases (same key k)) [
            | inl hit ↦
                let gone : has_key key (drop_first key q.items) ≡ false =
                  ap (has_key key) (drop_first-others key q.items (u.unique key nk))
                  ∙ has_key-others key q.items in
                cc (gone, has, (same_iff key k).0 hit)
            | inr miss ↦
                rw miss (u.complete k ne (sym (has_key-drop_first k key q.items miss) ∙ has))
          ];
          unique = λ k ne.
              omega
                (arith, u.unique k ne, keep-drop_first-le (λ t. same (queue_key t) k) key q.items);
        })
]

dedup-IsDeduped : (t : Task) (q : FairQueue) → IsDeduped q → IsDeduped (dedup t q).0
unfolding dedup
dedup-IsDeduped t q u =
    if_cases (λ (r : FairQueue × List Effect). IsDeduped r.0) _ _ _
      (λ h. remove_by_key-IsDeduped (queue_key t) q (ground arith) u) (λ _. u)

append_task-IsDeduped :
    (t : Task) (q : FairQueue)
    → IsDeduped q
    → (is_empty (queue_key t) ≡ false → has_key (queue_key t) q.items ≡ false)
    → IsDeduped (append_task t q)
unfolding append_task any keep
append_task-IsDeduped t q u fresh = record {
  complete = λ k ne has. elim (Bool-cases (same (queue_key t) k)) [
    | inl hit ↦
        let nk : is_empty (queue_key t) ≡ false =
          ap is_empty ((same_iff (queue_key t) k).0 hit) ∙ ne in
        ground (arith, nk, hit)
    | inr miss ↦
        let split = any-append (λ x. same (queue_key x) k) q.items (t ∷ []) in
        let old : has_key k q.items ≡ true = ground (arith, split) in
        ground (arith, u.complete k ne old, miss)
  ];
  unique = λ k ne.
      rw
        (
          keep-append (λ x. same (queue_key x) k) q.items (t ∷ []),
          length-append (keep (λ x. same (queue_key x) k) q.items),
        )
        (count_after k ne);
}
  where
    count_after :
        (k : Text)
        → is_empty k ≡ false
        → count_key k q.items + length (if same (queue_key t) k then t ∷ [] else []) ≤ 1
    count_after k ne = elim (Bool-cases (same (queue_key t) k)) [
      | inl hit ↦
          let e = (same_iff (queue_key t) k).0 hit in
          let nk : is_empty (queue_key t) ≡ false = ap is_empty e ∙ ne in
          let absent : has_key k q.items ≡ false = ap (λ u. has_key u q.items) (sym e) ∙ fresh nk in
          rw hit (omega (arith, count-none k q.items absent))
      | inr miss ↦ rw miss (omega (arith, u.unique k ne))
    ]

dedup-fresh :
    (t : Task) (q : FairQueue)
    → Inv q
    → IsDeduped q
    → is_empty (queue_key t) ≡ false
    → has_key (queue_key t) (dedup t q).0.items ≡ false
dedup-fresh t q v u ne =
    ap (has_key (queue_key t)) (dedup-items t q v u ne) ∙ has_key-others (queue_key t) q.items

pub Leaves-IsDeduped : (q q' : FairQueue) → Leaves q q' → IsDeduped q → IsDeduped q'
Leaves-IsDeduped q q' (i, p) u = record {
  complete = λ k ne has. rw p (u.complete k ne (rw i at has));
  unique = λ k ne. rw i (u.unique k ne);
}

admit-IsDeduped :
    (t : Task) (q : FairQueue)
    → IsDeduped q
    → (is_empty (queue_key t) ≡ false → has_key (queue_key t) q.items ≡ false)
    → IsDeduped (admit t q).0
unfolding admit
admit-IsDeduped t q u fresh = elim (Bool-cases (leb hard_cap (length q.items))) [
  | inl full ↦ rw (full, admit) u
  | inr room ↦
      rw (room, admit)
        (Leaves-IsDeduped (append_task t q) _ (note_depth-Leaves (append_task t q))
          (append_task-IsDeduped t q u fresh))
]

pub enqueue-IsDeduped : (t : Task) (q : FairQueue) → Inv q → IsDeduped q → IsDeduped (enqueue t q).0
unfolding enqueue
enqueue-IsDeduped t q v u =
    if_cases (λ (r : FairQueue × List Effect). IsDeduped r.0) q.closed _ _ (λ _. u)
      (λ _. admit-IsDeduped t (dedup t q).0 (dedup-IsDeduped t q u) (dedup-fresh t q v u))

admit-items :
    (t : Task) (q : FairQueue) → length q.items < hard_cap → (admit t q).0.items ≡ q.items ++ t ∷ []
unfolding admit append_task
admit-items t q lt =
    let room : leb hard_cap (length q.items) ≡ false = ground arith in
    rw (room, admit) (note_depth-Leaves (append_task t q)).0

enqueue-open :
    (t : Task) (q : FairQueue) → q.closed ≡ false → (enqueue t q).0 ≡ (admit t (dedup t q).0).0
unfolding enqueue
enqueue-open t q h = rw h

dedup-closed : (t : Task) (q : FairQueue) → (dedup t q).0.closed ≡ q.closed
unfolding dedup remove_by_key
dedup-closed t q = ground arith

dedup-drops_head :
    (t d : Task) (ts : List Task) (q : FairQueue)
    → q.pending (queue_key t) ≡ true
    → is_empty (queue_key t) ≡ false
    → q.items ≡ d ∷ ts
    → queue_key d ≡ queue_key t
    → (dedup t q).0.items ≡ ts
unfolding dedup remove_by_key
dedup-drops_head t d ts q p ne items key =
    let hit : same (queue_key d) (queue_key t) ≡ true = (same_iff _ _).1 key in
    let head : first_with (queue_key t) q.items ≡ some d = rw (items, first_with) (rw hit) in
    rw (ne, p) (rw (head, remove_by_key) (rw (items, drop_first) (rw hit)))

-- Enqueue of a file on an open queue that no delete has entered: the file's earlier task, if there
-- is one, goes, the other tasks keep their order, and the new task stands at the back, as long as
-- the others are fewer than the hard cap.
pub enqueue-moves_to_back :
    (t : Task) (q : FairQueue)
    → Inv q
    → IsDeduped q
    → q.closed ≡ false
    → is_empty (queue_key t) ≡ false
    → length (others (queue_key t) q.items) < hard_cap
    → (enqueue t q).0.items ≡ others (queue_key t) q.items ++ t ∷ []
enqueue-moves_to_back t q v u open_ ne lt =
    let e = dedup-items t q v u ne in
    ap (λ x. x.items) (enqueue-open t q open_)
    ∙ admit-items t (dedup t q).0 (omega (arith, ap length e))
    ∙ ap (λ ts. ts ++ t ∷ []) e

-- The flaw that deletes bring: when a delete of the file has been put before its queued task,
-- Enqueue of the file removes the delete, which is never run, and keeps the older task.
pub enqueue_loses_delete :
    (t d : Task) (ts : List Task) (q : FairQueue)
    → q.closed ≡ false
    → q.pending (queue_key t) ≡ true
    → is_empty (queue_key t) ≡ false
    → q.items ≡ d ∷ ts
    → is_delete d ≡ true
    → queue_key d ≡ queue_key t
    → length ts < hard_cap
    → (enqueue t q).0.items ≡ ts ++ t ∷ []
enqueue_loses_delete t d ts q open_ p ne items del key lt =
    ap (λ x. x.items) (enqueue-open t q open_)
    ∙ admit-items t (dedup t q).0 (omega (arith, ap length gone))
    ∙ ap (λ xs. xs ++ t ∷ []) gone
  where
    gone : (dedup t q).0.items ≡ ts
    gone = dedup-drops_head t d ts q p ne items key
