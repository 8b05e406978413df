-- ===== src/Sync/Locks/Exclusion.antt =====
-- internal/sync/sync.go: while the lock table stays small, no two workers have a task with one key.
use selective_mirror.Base.{
  ℕ, ◌≡◌, refl, sym, ap, subst, ◌∙◌, true, false, Option, none, some, some_inj, if_cases, Text,
}
use selective_mirror.Base.Int.{is_zero, nat_lt}
use selective_mirror.Sync.Locks.{
  file_locks_high_water, update, Locks, Place, idle, loaded, counted, waiting, inside, releasing,
  unlocked, dropped, crowded, unused, evicted, load_or_store, find_entry, sub_one, step, System,
  Step, moves, key_held, Reach, here, next, IsSparse,
}
use selective_mirror.Sync.Locks.Invariant.{
  pointer, is_evicting, Inv, keep-Inv, lock-Inv, unlock-Inv, store-Inv,
}

abbrev SystemInv : System → Type 0
SystemInv s = Inv s.mem.file_locks s.mem.locked s.mem.allocated s.place

abbrev Keeps : (ℕ → Place) → ℕ → Option (Locks × Place) → Type 0
Keeps place i none = Unit {0}
Keeps place i (some (m, p)) = Inv m.file_locks m.locked m.allocated (update place i p)

-- A step from a state that is not crowded keeps the invariant.
module _ (m : Locks) (place : ℕ → Place) (i : ℕ) (key : Text)
    (inv : Inv m.file_locks m.locked m.allocated place)
    (sparse : nat_lt file_locks_high_water m.file_locks_n ≡ false) where
  keep-place :
      (p : Place)
      → ((k : Text) (e : ℕ) → pointer p ≡ some (k, e) → m.file_locks k ≡ some e)
      → ((k : Text) → key_held p ≡ some k → key_held (place i) ≡ some k)
      → is_evicting p ≡ false
      → Inv m.file_locks m.locked m.allocated (update place i p)
  keep-place = keep-Inv m.file_locks m.locked m.allocated place i inv

  to_idle : Inv m.file_locks m.locked m.allocated (update place i idle)
  to_idle = keep-place idle (λ k e h. absurd (cc h)) (λ k h. absurd (cc h)) refl

  load-Keeps : (o : Option ℕ) → m.file_locks key ≡ o → Keeps place i (some (load_or_store key o m))
  load-Keeps none h = store-Inv m.file_locks m.locked m.allocated place i inv key h
  load-Keeps (some e) h =
      keep-place (loaded key e false)
        (λ k' e' q.
          let is_k : key ≡ k' = cc q in
          let is_e : e ≡ e' = cc q in cc (h, is_e, ap m.file_locks is_k))
        (λ k' q. absurd (cc q)) refl

  find-Keeps :
      (k : Text) (o : Option ℕ)
      → place i ≡ inside k
      → m.file_locks k ≡ o
      → Keeps place i (some (m, find_entry k o))
  find-Keeps k none at_i h = to_idle
  find-Keeps k (some e) at_i h =
      keep-place (releasing k e)
        (λ k' e' q.
          let is_k : k ≡ k' = cc q in
          let is_e : e ≡ e' = cc q in cc (h, is_e, ap m.file_locks is_k))
        (λ k' q. ap key_held at_i ∙ q) refl

  not_evicting : (p : Place) → place i ≡ p → is_evicting p ≡ true → ⊥
  not_evicting p at_i h = cc (h, inv.calm i, ap is_evicting at_i)

  step-Keeps : (p : Place) → place i ≡ p → Keeps place i (step key p m)
  unfolding step
  step-Keeps idle at_i = load-Keeps (m.file_locks key) refl
  step-Keeps (loaded k e fresh) at_i =
      keep-place (counted k e fresh) (λ k' e' q. inv.points i k' e' (ap pointer at_i ∙ q))
        (λ k' q. absurd (cc q)) refl
  step-Keeps (counted k e fresh) at_i =
      keep-place (waiting k e) (λ k' e' q. inv.points i k' e' (ap pointer at_i ∙ q))
        (λ k' q. absurd (cc q)) refl
  step-Keeps (waiting k e) at_i =
      if_cases (Keeps place i) (m.locked e) none _ (λ _. tt)
        (λ free. lock-Inv m.file_locks m.locked m.allocated place i inv k e (ap pointer at_i) free)
  step-Keeps (inside k) at_i = find-Keeps k (m.file_locks k) at_i refl
  step-Keeps (releasing k e) at_i =
      if_cases (Keeps place i) (m.locked e) _ none
        (λ _.
          unlock-Inv m.file_locks m.locked m.allocated place i inv k e (ap pointer at_i)
            (ap key_held at_i))
        (λ _. tt)
  step-Keeps (unlocked k e) at_i =
      if_cases (λ p. Inv m.file_locks m.locked m.allocated (update place i p))
        (is_zero (sub_one (m.refcount e))) (dropped k e) idle
        (λ _. keep-place (dropped k e) (λ k' e' q. absurd (cc q)) (λ k' q. absurd (cc q)) refl)
        (λ _. to_idle)
  step-Keeps (dropped k e) at_i =
      if_cases (λ p. Inv m.file_locks m.locked m.allocated (update place i p))
        (nat_lt file_locks_high_water m.file_locks_n) (crowded k e) idle
        (λ full. absurd (cc (full, sparse))) (λ _. to_idle)
  step-Keeps (crowded k e) at_i = absurd (not_evicting (crowded k e) at_i refl)
  step-Keeps (unused k e) at_i = absurd (not_evicting (unused k e) at_i refl)
  step-Keeps evicted at_i = absurd (not_evicting evicted at_i refl)

Step-SystemInv :
    {s t : System}
    → SystemInv s
    → nat_lt file_locks_high_water s.mem.file_locks_n ≡ false
    → Step s t
    → SystemInv t
Step-SystemInv {s} inv sparse (moves i key {m} {p} e) =
    subst (Keeps s.place i) e (step-Keeps s.mem s.place i key inv sparse (s.place i) refl)

Reach-SystemInv : {s : System} (r : Reach s) → IsSparse r → SystemInv s
Reach-SystemInv here sparse = record {
  below = λ k e h. absurd (cc h);
  own = λ k k' e h. absurd (cc h);
  points = λ i k e h. absurd (cc h);
  holds = λ i k h. absurd (cc h);
  unique = λ i j k h. absurd (cc h);
  calm = λ i. refl;
}
Reach-SystemInv (next r st) (before, sparse) = Step-SystemInv (Reach-SystemInv r before) sparse st

-- Two workers that run tasks with one key are one worker, and a worker that is about to unlock finds
-- its mutex locked.
abbrev pub IsExclusive : System → Type 0
IsExclusive s =
    ((i j : ℕ) (k : Text) → s.place i ≡ inside k → s.place j ≡ inside k → i ≡ j)
    × ((i : ℕ) (k : Text) (e : ℕ) → s.place i ≡ releasing k e → s.mem.locked e ≡ true)

-- In a run of workers that take and release file locks in any interleaving, as long as the counter of
-- entries has not passed the high-water mark before the last state, two workers that run tasks with
-- one key are one worker, and a worker that is about to unlock finds its mutex locked.
pub mutual_exclusion : {s : System} (r : Reach s) → IsSparse r → IsExclusive s
mutual_exclusion {s} r sparse =
    let inv = Reach-SystemInv r sparse in
    (
      λ i j k at_i at_j. inv.unique i j k (ap key_held at_i) (ap key_held at_j),
      λ i k e at_i.
          let (e', found, taken) = inv.holds i k (ap key_held at_i) in
          let mine = inv.points i k e (ap pointer at_i) in
          cc (taken, ap s.mem.locked (some_inj (sym mine ∙ found))),
    )
