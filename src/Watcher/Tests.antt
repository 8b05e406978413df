-- ===== src/Watcher/Tests.antt =====
-- Runs of the watcher, and its theorems at concrete inputs.
use selective_mirror.Base.{
  ℕ, ◌*◌, ◌/◌, ◌^◌, ◌≤◌, ◌≡◌, refl, true, false, none, List, [], ◌∷◌, arith, length, Text, codes,
  same, is_empty,
}
use selective_mirror.Base.Int.{pos, int64}
use selective_mirror.Samples.{notes}
use selective_mirror.Config.{Project, delete, debounce_duration}
use selective_mirror.Filter.Engine.{Libraries}
use selective_mirror.Queue.{enqueue, new_fair_queue}
use selective_mirror.Watcher.{Watch, sync_task, dispatch}
use selective_mirror.Watcher.Removals.{track_delete_burst}
use selective_mirror.Watcher.Paths.{is_rel_sub_path, is_below, is_sub_path}
use selective_mirror.Watcher.Debounce.{
  changes, removes, fires, forgets, apply_all, fires_and_runs, Op,
}
use selective_mirror.Watcher.Debounce.Arrival.{dispatch-arrives}
use selective_mirror.Watcher.Burst.{track_all, burst-reconciles-once}
use selective_mirror.Watcher.Reloads.{
  Reloads, absent, changed, unchanged, reloads, goes_on_once, reload_steps, filter_change_running,
  ReloadStep,
}
use selective_mirror.Watcher.Reloads.Settles.{Settled, four, reload_steps-settle}

-- A mirror with a quiet window of two seconds.
abbrev office : Project
office = record notes { debounce_sec = pos 2 }

abbrev watch : Watch
watch = record {
  project = office;
  filter = none;
  queue = new_fair_queue 10 0;
  pending = λ p. none;
  lost = [];
  callbacks = [];
  unlocked = [];
  reload_at = none;
  delete_count = 0;
  delete_window_end = 0;
  reconcile_at = [];
}

abbrev libs : Libraries
libs = record {
  bad = λ bytes. [];
  match_path = λ bytes path is_dir. false;
  digest = λ bytes. bytes;
}

abbrev report : Text
report = codes "docs/report"

-- Other files go and change, the timer of the report goes off, its callback removes the entry of the
-- map, and the report changes again before that callback enqueues.
abbrev meanwhile : List Op
meanwhile =
    removes delete 3 (codes "docs/old")
    ∷ changes 4 (codes "docs/new")
    ∷ fires (5 * 10 ^ 9) report
    ∷ forgets report
    ∷ changes (6 * 10 ^ 9) report
    ∷ []

dispatch-arrives_example :
    let after = apply_all libs meanwhile (dispatch 0 report watch) in
    (due : ℕ) × ((t : ℕ)
      → due ≤ t
      → (fires_and_runs t report after).queue ≡ (enqueue (sync_task office report) after.queue).0)
unfolding debounce_duration int64 is_rel_sub_path is_below same is_empty
dispatch-arrives_example =
    dispatch-arrives libs 0 report watch meanwhile refl (refl, (tt, (tt, (tt, (tt, tt)))))

abbrev times : List ℕ
times = 101 ∷ 102 ∷ 103 ∷ 104 ∷ 105 ∷ 106 ∷ 107 ∷ 108 ∷ 109 ∷ 110 ∷ 111 ∷ []

burst-reconciles-once_example : length (track_all (100 ∷ times) watch).reconcile_at ≡ 1
burst-reconciles-once_example = burst-reconciles-once 100 times watch (omega arith) (
  omega arith,
  (
    omega arith,
    (
      omega arith,
      (
        omega arith,
        (
          omega arith,
          (
            omega arith,
            (omega arith, (omega arith, (omega arith, (omega arith, (omega arith, tt))))),
          ),
        ),
      ),
    ),
  ),
)

-- Nine deletes at the end of a window and nine at the start of the next, within a second and a half:
-- eighteen deletes, and no reconciliation.
abbrev straddling : List ℕ
straddling =
    let s = 10 ^ 9 in
    1
    ∷ 4 * s
    ∷ 4 * s
    ∷ 4 * s
    ∷ 4 * s
    ∷ 4 * s
    ∷ 4 * s
    ∷ 4 * s
    ∷ 4 * s
    ∷ 11 * s / 2
    ∷ 11 * s / 2
    ∷ 11 * s / 2
    ∷ 11 * s / 2
    ∷ 11 * s / 2
    ∷ 11 * s / 2
    ∷ 11 * s / 2
    ∷ 11 * s / 2
    ∷ 11 * s / 2
    ∷ []

window_does_not_roll : (track_all straddling watch).reconcile_at ≡ []
unfolding track_all track_delete_burst
window_does_not_roll = refl

abbrev quiet_rules : Reloads
quiet_rules = record {
  queue = new_fair_queue 10 0;
  cleaner = absent;
  filter_change_pending = false;
  changes = 0;
  seen = 0;
}

-- Two changes while the first one's cleanup runs.
abbrev edits : List ReloadStep
edits = reloads changed ∷ goes_on_once ∷ reloads changed ∷ reloads unchanged ∷ reloads changed ∷ []

reload_steps-settle_example :
    let after = reload_steps notes edits quiet_rules in
    (filter_change_running after.cleaner ≡ false → after.seen ≡ after.changes)
    × Settled after (reload_steps notes four after)
reload_steps-settle_example = reload_steps-settle notes edits quiet_rules refl refl refl

-- isRelSubPath asks for the slash, and isSubPath is case-insensitive.
sub_paths :
    (is_rel_sub_path (codes "docs/a") (codes "docs") ≡ true)
    × (is_rel_sub_path (codes "docs2/a") (codes "docs") ≡ false)
    × (is_sub_path (codes "C:\\Notes\\A") (codes "c:\\notes") ≡ true)
unfolding is_rel_sub_path is_sub_path
sub_paths = (refl, refl, refl)
