-- ===== src/Sync/Full.antt =====
-- internal/sync/sync.go: syncFullProject with the failure counter that outlives the process, and
-- processTask, which hands a task to the code for it. The meta table is the counters as Atoi reads
-- them; the filter file that is written is its name, none where it cannot be written.
pub mod Backfill
pub mod Refusals
pub mod Breaker
mod Tests
use selective_mirror.Base.{
  ℕ, suc, ◌+◌, Option, none, some, List, [], ◌∷◌, ◌++◌, ◌==◌, if◌then◌else◌, Text, codes, TextMap,
  put,
}
use selective_mirror.Base.Int.{ℤ, pos, is_zero, is_pos, int_eq}
use selective_mirror.Config.{
  Global, Project, DeletePolicy, ignore, delete, quarantine, delete_policy, max_file_size,
}
use selective_mirror.Filter.Engine.{Libraries, Engine, has_bad_patterns}
use selective_mirror.Queue.Circuit.{record_failure, record_success, circuit_breaker_threshold}
use selective_mirror.Sync.{
  Env, World, sync_failure, circuit_breaker, record_anomaly, log_action, run_rclone,
}
use selective_mirror.Sync.Flags.{common_flags}
use selective_mirror.Sync.Locks.{add_one}
use selective_mirror.Sync.Walk.{Root, backfill_state_after_batch_sync}

pub record Meta : Type 0 where
  -- consecutive_full_sync_failures_ and last_full_sync_, by the name of the mirror
  pub failures : TextMap ℤ
  pub last_full_sync : TextMap ℕ

abbrev pub counted : Option ℤ → ℤ
counted none = pos 0
counted (some n) = n

-- IncrementMetaCounter: a transaction, which fails as a whole.
unfoldable pub increment_meta_counter : Env → Text → World × Meta → (World × Meta) × Option ℤ
increment_meta_counter env project (w, m) =
    let asked = record w { statements = suc w.statements } in
    let n = add_one (counted (m.failures project)) in
    if env.db_fails w.statements
    then ((asked, m), none)
    else ((asked, record m { failures = put project n m.failures }), some n)

-- recordPersistentFullSyncFailure answers 1 where the table cannot be written.
abbrev pub or_one : Option ℤ → ℤ
or_one none = pos 1
or_one (some n) = n

unfoldable pub record_persistent_full_sync_failure : Env → Text → World × Meta → (World × Meta) × ℤ
unfolding increment_meta_counter
record_persistent_full_sync_failure env project wm =
    let (wm', answer) = increment_meta_counter env project wm in (wm', or_one answer)

-- SetMeta, whose error nobody looks at.
unfoldable pub set_meta : Env → (Meta → Meta) → World × Meta → World × Meta
set_meta env f (w, m) =
    let asked = record w { statements = suc w.statements } in
    if env.db_fails w.statements then (asked, m) else (asked, f m)

unfoldable pub reset_persistent_full_sync_failures : Env → Text → World × Meta → World × Meta
unfolding set_meta
reset_persistent_full_sync_failures env project =
    set_meta env (λ m. record m { failures = put project (pos 0) m.failures })

pub data SyncError : Type 0 where
  no_filter_engine malformed_patterns filter_file_failed : SyncError
  rclone_exit : ℤ → SyncError

-- What happens to the filter while the sync is set up: its generation when it is looked at again, and
-- the name of the filter file.
pub record Setup : Type 0 where
  pub generation_after : ℕ
  pub filter_file : Option Text
  -- The text of the size limit, as Sprintf writes it.
  pub limit_text : Text

abbrev pub verb_of : DeletePolicy → Text
verb_of ignore = codes "copy"
verb_of delete = codes "sync"
verb_of quarantine = codes "copy"

unfoldable pub full_sync_args : Global → Project → Setup → Text → List Text
unfolding common_flags delete_policy max_file_size
full_sync_args g proj setup filter_file =
    verb_of (delete_policy proj g)
    ∷ proj.local_path
    ∷ proj.remote
    ∷ codes "--checksum"
    ∷ codes "--filter-from"
    ∷ filter_file
    ∷ ((if is_pos (max_file_size proj) then codes "--max-size" ∷ setup.limit_text ∷ [] else [])
        ++ common_flags g proj)

unfoldable pub full_sync_done :
    Env → Libraries → Engine → Project → Root → World × Meta → World × Meta
unfolding log_action set_meta reset_persistent_full_sync_failures record_success
    backfill_state_after_batch_sync
full_sync_done env libs filter proj tree (w, m) =
    let logged = log_action env [] (codes "full_sync") w in
    let dated =
      set_meta env
        (λ (m : Meta). record m { last_full_sync = put proj.name env.now m.last_full_sync })
        (logged, m) in
    let (cleared, m') = reset_persistent_full_sync_failures env proj.name dated in
    let closed = record cleared { queue = record_success proj.name cleared.queue } in
    ((backfill_state_after_batch_sync env libs filter proj tree closed).0, m')

unfoldable pub full_sync_failed : Env → Project → World × Meta → World × Meta
unfolding log_action record_persistent_full_sync_failure record_anomaly record_failure int_eq
full_sync_failed env proj (w, m) =
    let logged = log_action env [] (codes "full_sync_error") w in
    let ((counted_w, m'), n) = record_persistent_full_sync_failure env proj.name (logged, m) in
    let told = record_anomaly sync_failure [] counted_w in
    let tripped =
      if int_eq n (pos circuit_breaker_threshold)
      then record_anomaly circuit_breaker [] told
      else told in
    (record tripped { queue = (record_failure env.now proj.name tripped.queue).0 }, m')

unfoldable pub full_sync_run :
    Env
    → Libraries
    → Engine
    → Project
    → Root
    → Setup
    → Text
    → World × Meta
    → (World × Meta) × Option SyncError
unfolding run_rclone full_sync_args full_sync_done full_sync_failed
full_sync_run env libs filter proj tree setup filter_file (w, m) =
    let (called, exit) = run_rclone env (full_sync_args env.config proj setup filter_file) w in
    if is_zero exit
    then (full_sync_done env libs filter proj tree (called, m), none)
    else (full_sync_failed env proj (called, m), some (rclone_exit exit))

abbrev pub full_sync_file :
    Env
    → Libraries
    → Engine
    → Project
    → Root
    → Setup
    → Option Text
    → World × Meta
    → (World × Meta) × Option SyncError
full_sync_file env libs filter proj tree setup none wm = (wm, some filter_file_failed)
full_sync_file env libs filter proj tree setup (some name) wm =
    if setup.generation_after == filter.generation
    then full_sync_run env libs filter proj tree setup name wm
    else (wm, none)

unfoldable pub sync_full_project :
    Env
    → Libraries
    → Option Engine
    → Project
    → Root
    → Setup
    → World × Meta
    → (World × Meta) × Option SyncError
unfolding has_bad_patterns full_sync_run
sync_full_project env libs none proj tree setup wm = (wm, some no_filter_engine)
sync_full_project env libs (some filter) proj tree setup wm =
    if has_bad_patterns filter
    then (wm, some malformed_patterns)
    else full_sync_file env libs filter proj tree setup setup.filter_file wm
