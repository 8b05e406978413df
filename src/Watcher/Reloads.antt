-- ===== src/Watcher/Reloads.antt =====
-- internal/watcher/watcher.go: reloadFilter, and the goroutine that cleans the remote up after a change of
-- the rules. A reload, the Enqueue after it and its part with the mutex are one step, and OnFilterChange is
-- set, as cmd/smirror/main.go sets it for every manager.
pub mod Settles
use selective_mirror.Base.{ℕ, suc, Bool, true, false, List, [], ◌∷◌, if◌then◌else◌}
use selective_mirror.Config.{Project}
use selective_mirror.Queue.{FairQueue, enqueue}
use selective_mirror.Watcher.{sync_task}

-- What filter.Reload returns.
pub data Reloaded : Type 0 where
  reload_failed : Reloaded
  unchanged : Reloaded
  changed : Reloaded

-- The goroutine of OnFilterChange: there is none, it is about to call OnFilterChange, or it is in it.
pub data Cleaner : Type 0 where
  absent : Cleaner
  about_to_clean : Cleaner
  cleaning : Cleaner

-- The flag filterChangeRunning is up while there is a goroutine. The last two fields count, for the
-- statements: the changes of the rules, and those that the latest cleanup to begin could see.
pub record Reloads : Type 0 where
  pub queue : FairQueue
  pub cleaner : Cleaner
  pub filter_change_pending : Bool
  pub changes : ℕ
  pub seen : ℕ

abbrev pub filter_change_running : Cleaner → Bool
filter_change_running absent = false
filter_change_running about_to_clean = true
filter_change_running cleaning = true

abbrev pub full_sync : Project → Reloads → Reloads
full_sync proj r = record r { queue = (enqueue (sync_task proj []) r.queue).0 }

-- The part with the mutex: start the goroutine, or leave the change to the one that runs.
abbrev pub coalesce : Reloads → Reloads
coalesce r =
    if filter_change_running r.cleaner
    then record r { filter_change_pending = true }
    else record r { cleaner = about_to_clean }

unfoldable pub reload_filter : Project → Reloaded → Reloads → Reloads
unfolding enqueue
reload_filter proj reload_failed r = full_sync proj r
reload_filter proj unchanged r = r
reload_filter proj changed r = coalesce (full_sync proj (record r { changes = suc r.changes }))

-- The goroutine calls OnFilterChange, or comes back from it and looks for a change that was left to it.
abbrev pub goes_on : Cleaner → Reloads → Reloads
goes_on absent r = r
goes_on about_to_clean r = record r { cleaner = cleaning; seen = r.changes }
goes_on cleaning r =
    if r.filter_change_pending
    then record r { cleaner = about_to_clean; filter_change_pending = false }
    else record r { cleaner = absent }

unfoldable pub cleaner_goes_on : Reloads → Reloads
cleaner_goes_on r = goes_on r.cleaner r

pub data ReloadStep : Type 0 where
  reloads : Reloaded → ReloadStep
  goes_on_once : ReloadStep

unfoldable pub reload_step : Project → ReloadStep → Reloads → Reloads
unfolding reload_filter cleaner_goes_on
reload_step proj (reloads outcome) r = reload_filter proj outcome r
reload_step proj goes_on_once r = cleaner_goes_on r

unfoldable pub reload_steps : Project → List ReloadStep → Reloads → Reloads
unfolding reload_step
reload_steps proj [] r = r
reload_steps proj (step ∷ steps) r = reload_steps proj steps (reload_step proj step r)
