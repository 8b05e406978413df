-- ===== src/Sync/Locks/Tests.antt =====
-- Runs of the file locks, and their theorems at concrete inputs.
use selective_mirror.Base.{ℕ, ◌≡◌, refl, none, ◌==◌, if◌then◌else◌, Text, codes, same, put}
use selective_mirror.Base.Int.{pos}
use selective_mirror.Sync.Locks.{
  Locks, Place, idle, waiting, inside, unlocked, step, System, moves, Reach, here, next, IsSparse,
  init, no_locks,
}
use selective_mirror.Sync.Locks.Exclusion.{IsExclusive, mutual_exclusion}
use selective_mirror.Sync.Locks.Eviction.{Leads, Overlap, Overlap-after_evict}

abbrev key : Text
key = codes "notes:a"

pub record Run : Type 0 where
  pub last : System
  pub reach : Reach last
  pub sparse : IsSparse reach

abbrev begun : Run
begun = record { last = init; reach = here; sparse = tt }

-- Worker 0 has the key, and worker 1 waits for it.
abbrev contended : Run
unfolding step same
contended = record {
  last = _;
  reach =
      next
        (next
          (next
            (next (next (next (next here (moves 0 key refl)) (moves 0 key refl)) (moves 1 key refl))
              (moves 0 key refl))
            (moves 1 key refl))
          (moves 1 key refl))
        (moves 0 key refl);
  sparse = (((((((tt, refl), refl), refl), refl), refl), refl), refl);
}

contended_places : (contended.last.place 0 ≡ inside key) × (contended.last.place 1 ≡ waiting key 0)
unfolding step same
contended_places = (refl, refl)

-- Worker 1 cannot go on.
held_back : step key (contended.last.place 1) contended.last.mem ≡ none
unfolding step same
held_back = refl

mutual_exclusion_example : IsExclusive contended.last
unfolding step same
mutual_exclusion_example = mutual_exclusion contended.reach contended.sparse

abbrev crowd : Locks
crowd = record no_locks {
  file_locks = put key 7 (λ k. none);
  refcount = λ e. pos 1;
  file_locks_n = pos 10001;
  allocated = 10001;
}

abbrev places : ℕ → Place
places i = if i == 0 then unlocked key 7 else idle

Overlap-after_evict_example :
    (t : System) × (Leads (record { mem = crowd; place = places }) t × Overlap key t)
unfolding same
Overlap-after_evict_example =
    Overlap-after_evict crowd places key 7 refl refl refl refl refl refl refl
