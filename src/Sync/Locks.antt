-- ===== src/Sync/Locks.antt =====
-- internal/sync/sync.go: the file locks of the sync engine, acquireFileLock and releaseFileLock, one
-- atomic access at a time, by any number of workers in any order. A *lockEntry is the number of its
-- allocation; the sync.Map is a function.
pub mod Invariant
pub mod Exclusion
pub mod Eviction
mod Tests
use selective_mirror.Base.{
  ℕ, zero, suc, ◌≡◌, Bool, true, false, Option, none, some, ◌==◌, if◌then◌else◌, Text, TextMap, put,
  discard,
}
use selective_mirror.Base.Int.{ℤ, pos, negsuc, is_zero, nat_lt}

-- Add(1) and Add(-1) of an atomic.Int64, which stays far from its bounds.
abbrev pub add_one : ℤ → ℤ
add_one (pos n) = pos (suc n)
add_one (negsuc zero) = pos 0
add_one (negsuc (suc n)) = negsuc n

abbrev pub sub_one : ℤ → ℤ
sub_one (pos zero) = negsuc 0
sub_one (pos (suc n)) = pos n
sub_one (negsuc n) = negsuc (suc n)

abbrev pub file_locks_high_water : ℕ
file_locks_high_water = 10000

-- A function changed at one number.
abbrev pub update {ℓ} : {A : Type ℓ} → (ℕ → A) → ℕ → A → ℕ → A
update f i a j = if i == j then a else f j

pub record Locks : Type 0 where
  pub file_locks : TextMap ℕ
  pub locked : ℕ → Bool
  pub refcount : ℕ → ℤ
  pub file_locks_n : ℤ
  pub allocated : ℕ

-- Where a worker stands, with the local variables that are live there.
pub data Place : Type 0 where
  idle : Place
  -- after LoadOrStore, after refcount.Add(1), and before mu.Lock
  loaded : (key : Text) (entry : ℕ) (fresh : Bool) → Place
  counted : (key : Text) (entry : ℕ) (fresh : Bool) → Place
  waiting : (key : Text) (entry : ℕ) → Place
  -- the task runs
  inside : (key : Text) → Place
  -- after Load, after mu.Unlock, after refcount.Add(-1) gave 0, after the test of fileLocksN, after
  -- the second look at refcount, and after CompareAndDelete
  releasing : (key : Text) (entry : ℕ) → Place
  unlocked : (key : Text) (entry : ℕ) → Place
  dropped : (key : Text) (entry : ℕ) → Place
  crowded : (key : Text) (entry : ℕ) → Place
  unused : (key : Text) (entry : ℕ) → Place
  evicted : Place

-- LoadOrStore(key, &lockEntry{})
abbrev pub load_or_store : Text → Option ℕ → Locks → Locks × Place
load_or_store key (some entry) m = (m, loaded key entry false)
load_or_store key none m = (
  record m {
    file_locks = put key m.allocated m.file_locks;
    locked = update m.locked m.allocated false;
    refcount = update m.refcount m.allocated (pos 0);
    allocated = suc m.allocated;
  },
  loaded key m.allocated true,
)

abbrev pub count_entry : Bool → ℤ → ℤ
count_entry fresh n = if fresh then add_one n else n

-- Load(key)
abbrev pub find_entry : Text → Option ℕ → Place
find_entry key (some entry) = releasing key entry
find_entry key none = idle

-- CompareAndDelete(key, entry)
abbrev pub compare_and_delete : Text → ℕ → Option ℕ → Locks → Locks × Place
compare_and_delete key entry none m = (m, idle)
compare_and_delete key entry (some e) m =
    if e == entry then (record m { file_locks = discard key m.file_locks }, evicted) else (m, idle)

-- One access of a worker; an idle one has taken a task with the lock key `key`. `none` where it has to
-- wait for the mutex, and where it unlocks a mutex that is not locked, which ends the program.
unfoldable pub step : Text → Place → Locks → Option (Locks × Place)
step key idle m = some (load_or_store key (m.file_locks key) m)
step key (loaded k e fresh) m =
    some (record m { refcount = update m.refcount e (add_one (m.refcount e)) }, counted k e fresh)
step key (counted k e fresh) m =
    some (record m { file_locks_n = count_entry fresh m.file_locks_n }, waiting k e)
step key (waiting k e) m =
    if m.locked e then none else some (record m { locked = update m.locked e true }, inside k)
step key (inside k) m = some (m, find_entry k (m.file_locks k))
step key (releasing k e) m =
    if m.locked e then some (record m { locked = update m.locked e false }, unlocked k e) else none
step key (unlocked k e) m = some (
  record m { refcount = update m.refcount e (sub_one (m.refcount e)) },
  if is_zero (sub_one (m.refcount e)) then dropped k e else idle,
)
step key (dropped k e) m =
    some (m, if nat_lt file_locks_high_water m.file_locks_n then crowded k e else idle)
step key (crowded k e) m = some (m, if is_zero (m.refcount e) then unused k e else idle)
step key (unused k e) m = some (compare_and_delete k e (m.file_locks k) m)
step key evicted m = some (record m { file_locks_n = sub_one m.file_locks_n }, idle)

pub record System : Type 0 where
  pub mem : Locks
  pub place : ℕ → Place

-- Worker i makes a step.
pub data Step (s : System) : System → Type 0 where
  moves :
      (i : ℕ) (key : Text) {m : Locks} {p : Place}
      → step key (s.place i) s.mem ≡ some (m, p)
      → Step s (record { mem = m; place = update s.place i p })

abbrev pub no_locks : Locks
no_locks = record {
  file_locks = λ key. none;
  locked = λ e. false;
  refcount = λ e. pos 0;
  file_locks_n = pos 0;
  allocated = 0;
}

abbrev pub init : System
init = record { mem = no_locks; place = λ i. idle }

-- The keys whose lock a worker has.
abbrev pub key_held : Place → Option Text
key_held (inside k) = some k
key_held (releasing k e) = some k
key_held idle = none
key_held (loaded k e fresh) = none
key_held (counted k e fresh) = none
key_held (waiting k e) = none
key_held (unlocked k e) = none
key_held (dropped k e) = none
key_held (crowded k e) = none
key_held (unused k e) = none
key_held evicted = none

pub data Reach : System → Type 0 where
  here : Reach init
  next : {s t : System} → Reach s → Step s t → Reach t

-- In no state of the run before the last has the counter of entries passed the mark.
abbrev pub IsSparse : {s : System} → Reach s → Type 0
IsSparse here = Unit {0}
IsSparse (next {s} r st) = IsSparse r × (nat_lt file_locks_high_water s.mem.file_locks_n ≡ false)
