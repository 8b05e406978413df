-- ===== src/Sync/Locks/Eviction.antt =====
-- internal/sync/sync.go: what the eviction of an entry does to a worker that has just loaded it.
use selective_mirror.Base.{
  ℕ, ◌≡◌, refl, ap, ◌∙◌, ◌≢◌, true, false, none, some, arith, ◌==◌, ==_iff, if_true, if_false, Text,
  same, same_refl, discard,
}
use selective_mirror.Base.Int.{pos, nat_lt}
use selective_mirror.Sync.Locks.{
  file_locks_high_water, update, Locks, Place, idle, loaded, counted, waiting, inside, unlocked,
  dropped, crowded, unused, evicted, load_or_store, add_one, step, System, Step, moves,
}

-- Some steps, one after the other.
pub data Leads (s : System) : System → Type 0 where
  stay : Leads s s
  go : {t u : System} → Leads s t → Step t u → Leads s u

-- A worker with a known place makes a step, and the table is as it is written down.
go_on :
    {s : System} (m : Locks) (place : ℕ → Place) (i : ℕ) (key : Text) (p : Place) (m' : Locks)
    (p' : Place)
    → place i ≡ p
    → step key p m ≡ some (m', p')
    → Leads s (record { mem = m; place = place })
    → Leads s (record { mem = m'; place = update place i p' })
go_on m place i key p m' p' at_i e r = go r (moves i key (ap (λ q. step key q m) at_i ∙ e))

module _ (m : Locks) (place : ℕ → Place) (k : Text) (e : ℕ) (found : m.file_locks k ≡ some e)
    (free : m.locked e ≡ false) (alone : m.refcount e ≡ pos 1)
    (full : nat_lt file_locks_high_water m.file_locks_n ≡ true) (leaving : place 0 ≡ unlocked k e)
    (first : place 1 ≡ idle) (second : place 2 ≡ idle) where
  -- Worker 1 loads the entry; worker 0 drops its count, finds none left and evicts the entry.
  abbrev after_evict : Locks
  after_evict = record m {
    refcount = update m.refcount e (pos 0);
    file_locks = discard k m.file_locks;
  }

  abbrev place_evict : ℕ → Place
  place_evict =
      update
        (update
          (update (update (update place 1 (loaded k e false)) 0 (dropped k e)) 0 (crowded k e)) 0
          (unused k e))
        0 evicted

  evicts :
      Leads (record { mem = m; place = place }) (record { mem = after_evict; place = place_evict })
  unfolding step
  evicts =
      let m₁ : Locks = record m { refcount = update m.refcount e (pos 0) } in
      go_on m₁ _ 0 k (unused k e) after_evict evicted refl (ground (arith, found)) (
        go_on m₁ _ 0 k (crowded k e) m₁ (unused k e) refl (ground arith) (
          go_on m₁ _ 0 k (dropped k e) m₁ (crowded k e) refl (ground (arith, full)) (
            go_on m _ 0 k (unlocked k e) m₁ (dropped k e) leaving (ground (arith, alone))
              (go_on m place 1 k idle m (loaded k e false) first (ground (arith, found)) stay))))

  -- Worker 1 counts and locks the entry that it loaded, which is no longer in the table.
  abbrev after_stale : Locks
  after_stale = record after_evict {
    refcount = update after_evict.refcount e (add_one (after_evict.refcount e));
    locked = update m.locked e true;
  }

  abbrev place_stale : ℕ → Place
  place_stale =
      update (update (update place_evict 1 (counted k e false)) 1 (waiting k e)) 1 (inside k)

  locks_stale :
      Leads (record { mem = m; place = place }) (record { mem = after_stale; place = place_stale })
  unfolding step
  locks_stale =
      let m₁ : Locks = record after_evict {
        refcount = update after_evict.refcount e (add_one (after_evict.refcount e));
      } in
      go_on m₁ _ 1 k (waiting k e) after_stale (inside k) refl (ground (arith, free)) (
        go_on m₁ _ 1 k (counted k e false) m₁ (waiting k e) refl refl (
          go_on after_evict place_evict 1 k (loaded k e false) m₁ (counted k e false) refl refl
            evicts))

  -- Worker 2 finds no entry and makes another one.
  abbrev stored : Locks
  stored = (load_or_store k none after_stale).0

  abbrev after_new : Locks
  after_new = record stored {
    refcount = update stored.refcount m.allocated (add_one (stored.refcount m.allocated));
    file_locks_n = add_one m.file_locks_n;
    locked = update stored.locked m.allocated true;
  }

  abbrev place_new : ℕ → Place
  place_new =
      update
        (update
          (update (update place_stale 2 (loaded k m.allocated true)) 2 (counted k m.allocated true))
          2 (waiting k m.allocated))
        2 (inside k)

  locks_new :
      Leads (record { mem = m; place = place }) (record { mem = after_new; place = place_new })
  unfolding step
  locks_new =
      let n = m.allocated in
      let m₁ : Locks = record stored {
        refcount = update stored.refcount n (add_one (stored.refcount n));
      } in
      let m₂ : Locks = record m₁ { file_locks_n = add_one m.file_locks_n } in
      let absent : discard k m.file_locks k ≡ none =
        if_true (same k k) none (m.file_locks k) (same_refl k) in
      let unlocked_n : update (update m.locked e true) n false n ≡ false =
        if_true (n == n) false (update m.locked e true n) ((==_iff n n).1 refl) in
      go_on m₂ _ 2 k (waiting k n) after_new (inside k) refl
        (if_false (update (update m.locked e true) n false n) none (some (after_new, inside k))
          unlocked_n)
        (go_on m₁ _ 2 k (counted k n true) m₂ (waiting k n) refl refl (
          go_on stored _ 2 k (loaded k n true) m₁ (counted k n true) refl refl (
            go_on after_stale place_stale 2 k idle stored (loaded k n true) second
              (ap (λ o. some (load_or_store k o after_stale)) absent) locks_stale)))

-- Two workers run tasks with the key.
abbrev pub Overlap : Text → System → Type 0
Overlap k s = (i : ℕ) × (j : ℕ) × (i ≢ j) × (s.place i ≡ inside k) × (s.place j ≡ inside k)

-- Once the counter of entries has passed the high-water mark, the lock does not keep two tasks with
-- one key apart: from every state in which worker 0 has unlocked the only use of the key's entry and
-- workers 1 and 2 are idle, some interleaving of the three leads to workers 1 and 2 both inside.
pub Overlap-after_evict :
    (m : Locks) (place : ℕ → Place) (k : Text) (e : ℕ)
    → m.file_locks k ≡ some e
    → m.locked e ≡ false
    → m.refcount e ≡ pos 1
    → nat_lt file_locks_high_water m.file_locks_n ≡ true
    → place 0 ≡ unlocked k e
    → place 1 ≡ idle
    → place 2 ≡ idle
    → (t : System) × (Leads (record { mem = m; place = place }) t × Overlap k t)
Overlap-after_evict m place k e found free alone full leaving first second = (
  _,
  (
    locks_new m place k e found free alone full leaving first second,
    (1, 2, (λ h. absurd (omega (arith, h))), refl, refl),
  ),
)
