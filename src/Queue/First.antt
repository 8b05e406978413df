-- ===== src/Queue/First.antt =====
-- Which task Dequeue takes: the first that no test passes over, and how it waits for the others.
use selective_mirror.Base.{
  ℕ, ◌≤◌, ◌<◌, ◌≡◌, refl, ◌≢◌, inl, inr, Bool, false, Option, none, some, List, [], ◌∷◌, ◌++◌,
  arith, Option-cases, All, Text, is_empty,
}
use selective_mirror.Queue.{FairQueue, Task, is_delete, queue_key}
use selective_mirror.Queue.Dequeue.{
  taken, poll, scan, Scan, found, nothing, past, passed_over, earlier, after_scan, in_backoff,
  in_cooldown, forget,
}

-- The item is passed over, for a wait that has not ended.
abbrev pub IsPassed : ℕ → FairQueue → Task → Type 0
IsPassed now q item = (t : ℕ) × (passed_over now q item ≡ some t) × (now < t)

-- The item is passed over until `e` or later.
abbrev pub IsPassedUntil : ℕ → FairQueue → ℕ → Task → Type 0
IsPassedUntil now q e item = (t : ℕ) × (passed_over now q item ≡ some t) × (e ≤ t)

pub passed_over-lt :
    (now : ℕ) (q : FairQueue) (item : Task) (t : ℕ) → passed_over now q item ≡ some t → now < t
unfolding passed_over
passed_over-lt now q item t h = ground arith

-- What the scan says of the items that it was given.
abbrev pub Finds : ℕ → FairQueue → List Task → Scan → Type 0
Finds now q items (found t rest) =
    (front : List Task) × (back : List Task) × (items ≡ front ++ t ∷ back)
    × (rest ≡ front ++ back)
    × All (IsPassed now q) front
    × (passed_over now q t ≡ none)
Finds now q items (nothing e) = All (IsPassed now q) items

past-Finds :
    (now : ℕ) (q : FairQueue) (item : Task) (items : List Task) (s : Scan)
    → IsPassed now q item
    → Finds now q items s
    → Finds now q (item ∷ items) (past item s)
past-Finds now q item items (found t rest) p (front, back, e, r, all, free) =
    (item ∷ front, back, ap_cons e, ap_cons r, (p, all), free)
  where
    ap_cons : {xs ys : List Task} → xs ≡ ys → ◌≡◌ {A = List Task} (item ∷ xs) (item ∷ ys)
    ap_cons h = cc
past-Finds now q item items (nothing e) p all = (p, all)

pub scan-Finds :
    (now : ℕ) (q : FairQueue) (e : ℕ) (items : List Task) → Finds now q items (scan now q e items)
unfolding scan
scan-Finds now q e [] = tt
scan-Finds now q e (item ∷ items) = elim (Option-cases (passed_over now q item)) [
  | inl free ↦ rw (free, scan) ([], items, refl, refl, tt, free)
  | inr (t, h) ↦
      rw (h, scan)
        (past-Finds now q item items _ (t, h, passed_over-lt now q item t h)
          (scan-Finds now q (earlier e t) items))
]

-- The least expiry is at most every wait, lies ahead, and is 0 only where nothing was passed over.
abbrev pub Least : ℕ → FairQueue → ℕ → List Task → Scan → Type 0
Least now q e₀ items (found t rest) = Unit {0}
Least now q e₀ items (nothing e) =
    All (IsPassedUntil now q e) items
    × (e₀ ≢ 0 → (e ≤ e₀) × (e ≢ 0))
    × (e ≢ 0 → now < e)
    × (items ≢ [] → e ≢ 0)

earlier-ahead :
    (now e₀ t : ℕ) → (e₀ ≢ 0 → now < e₀) → now < t → (now < earlier e₀ t) × (earlier e₀ t ≤ t)
earlier-ahead now e₀ t ok lt = ground arith

past-Least :
    (now : ℕ) (q : FairQueue) (e₀ t : ℕ) (item : Task) (items : List Task) (s : Scan)
    → passed_over now q item ≡ some t
    → now < t
    → (e₀ ≢ 0 → now < e₀)
    → Least now q (earlier e₀ t) items s
    → Least now q e₀ (item ∷ items) (past item s)
past-Least now q e₀ t item items (found x rest) h lt ok l = tt
past-Least now q e₀ t item items (nothing e) h lt ok (all, below, above, some_item) =
    let ahead = earlier-ahead now e₀ t ok lt in
    let ne : earlier e₀ t ≢ 0 = omega (arith, ahead.0) in
    let (le, nz) = below ne in
    (((t, h, omega (arith, le, ahead.1)), all), ground (arith, le, nz), above, λ _. nz)

pub scan-Least :
    (now : ℕ) (q : FairQueue) (e₀ : ℕ) (items : List Task)
    → (e₀ ≢ 0 → now < e₀)
    → Least now q e₀ items (scan now q e₀ items)
unfolding scan
scan-Least now q e₀ [] ok = (tt, λ h. (omega arith, h), ok, λ h. absurd (h refl))
scan-Least now q e₀ (item ∷ items) ok = elim (Option-cases (passed_over now q item)) [
  | inl free ↦ rw (free, scan) tt
  | inr (t, h) ↦
      let lt = passed_over-lt now q item t h in
      rw (h, scan)
        (past-Least now q e₀ t item items _ h lt ok
          (scan-Least now q (earlier e₀ t) items (λ _. (earlier-ahead now e₀ t ok lt).0)))
]

-- A round that takes a task took it from the scan, on a live context.
pub poll-taken :
    (now : ℕ) (c : Bool) (q : FairQueue) {t : Task} {q' : FairQueue}
    → poll now c q ≡ taken t q'
    → (rest : List Task) × (scan now q 0 q.items ≡ found t rest)
      × (q' ≡ forget t (record q { items = rest }))
unfolding poll after_scan
poll-taken now c q {t} {q'} h = by_scan (scan now q 0 q.items) refl (ground arith)
  where
    by_scan :
        (s : Scan)
        → scan now q 0 q.items ≡ s
        → after_scan q s ≡ taken t q'
        → (rest : List Task) × (scan now q 0 q.items ≡ found t rest)
          × (q' ≡ forget t (record q { items = rest }))
    by_scan (found x rest) e r = (rest, ground arith, ground arith)
    by_scan (nothing e') e r = absurd (ground arith)

pub items-forget : (t : Task) (q : FairQueue) → (forget t q).items ≡ q.items
unfolding forget
items-forget t q = ground arith

-- The task is the first of the queue that no test passes over, and the rest keep their order.
abbrev pub TakesFirst : ℕ → FairQueue → Task → FairQueue → Type 0
TakesFirst now q t q' =
    (front : List Task) × (back : List Task) × (q.items ≡ front ++ t ∷ back)
    × (q'.items ≡ front ++ back)
    × All (IsPassed now q) front
    × (passed_over now q t ≡ none)

-- A round of Dequeue that takes a task takes the first task in queue order that its tests let
-- through at that time: the tasks before it are all passed over, and the rest stays in order.
pub poll-TakesFirst :
    (now : ℕ) (c : Bool) (q : FairQueue) (t : Task) (q' : FairQueue)
    → poll now c q ≡ taken t q'
    → TakesFirst now q t q'
poll-TakesFirst now c q t q' h =
    let (rest, found_it, e) = poll-taken now c q h in
    let finds : Finds now q q.items (found t rest) = rw found_it at (scan-Finds now q 0 q.items) in
    let (front, back, items, rest_is, all, free) = finds in
    (front, back, items, cc (e, items-forget t (record q { items = rest }), rest_is), all, free)

-- What the tests let through, in terms of the maps: a file's mirror is out of backoff and the file
-- is out of its cooldown; a full sync needs the first alone, and a delete needs nothing.
abbrev pub HasEnded : ℕ → Option ℕ → Type 0
HasEnded now none = Unit {0}
HasEnded now (some t) = t ≤ now

abbrev pub backoff_end : FairQueue → Text → Option ℕ
backoff_end q mirror = elim (q.circuits mirror) [ none ↦ none | some cs ↦ some cs.backoff_until ]

in_backoff-none :
    (now : ℕ) (q : FairQueue) (mirror : Text)
    → in_backoff now q mirror ≡ none
    → HasEnded now (backoff_end q mirror)
unfolding in_backoff
in_backoff-none now q mirror h = elim (Option-cases (q.circuits mirror)) [
  | inl e ↦ rw (e, HasEnded, backoff_end) tt
  | inr (cs, e) ↦ rw (e, HasEnded, backoff_end) (ground arith)
]

in_cooldown-none :
    (now : ℕ) (q : FairQueue) (key : Text)
    → in_cooldown now q key ≡ none
    → HasEnded now (q.cooldowns key)
unfolding in_cooldown
in_cooldown-none now q key h = elim (Option-cases (q.cooldowns key)) [
  | inl e ↦ rw (e, HasEnded, backoff_end) tt
  | inr (t, e) ↦ rw e (ground arith)
]

free-in_backoff :
    (now : ℕ) (q : FairQueue) (t : Task)
    → passed_over now q t ≡ none
    → is_delete t ≡ false
    → in_backoff now q t.project.name ≡ none
unfolding passed_over
free-in_backoff now q t h d = ground arith

free-in_cooldown :
    (now : ℕ) (q : FairQueue) (t : Task)
    → passed_over now q t ≡ none
    → is_delete t ≡ false
    → is_empty (queue_key t) ≡ false
    → in_cooldown now q (queue_key t) ≡ none
unfolding passed_over
free-in_cooldown now q t h d k = ground arith

-- A task that is no delete is taken only when its mirror's backoff has ended, and a single file
-- only when its cooldown has ended too.
pub poll-respects_waits :
    (now : ℕ) (c : Bool) (q : FairQueue) (t : Task) (q' : FairQueue)
    → poll now c q ≡ taken t q'
    → is_delete t ≡ false
    → HasEnded now (backoff_end q t.project.name)
      × (is_empty (queue_key t) ≡ false → HasEnded now (q.cooldowns (queue_key t)))
poll-respects_waits now c q t q' h d =
    let (front, back, items, rest, all, free) = poll-TakesFirst now c q t q' h in
    (
      in_backoff-none now q t.project.name (free-in_backoff now q t free d),
      λ k. in_cooldown-none now q (queue_key t) (free-in_cooldown now q t free d k),
    )
