-- ===== src/Watcher/Removals.antt =====
-- internal/watcher/watcher.go: handleRemove, handleRename and trackDeleteBurst.
use selective_mirror.Base.{
  ℕ, suc, ◌+◌, ◌*◌, Bool, true, false, ◌||◌, none, ◌∷◌, ltb, ◌==◌, if◌then◌else◌, Text, same,
}
use selective_mirror.Config.{DeletePolicy, ignore, delete, quarantine, second}
use selective_mirror.Filter.Engine.{Libraries, is_excluded}
use selective_mirror.Watcher.Paths.{is_rel_sub_path}
use selective_mirror.Watcher.{Watch, queue_delete, excludes}

-- Stop and forget the timers of a path and of all below it.
unfoldable pub cancel_timers : Text → Watch → Watch
unfolding same is_rel_sub_path
cancel_timers path w = record w {
  pending = λ p. if same p path || is_rel_sub_path p path then none else w.pending p;
}

abbrev pub burst_delete_threshold : ℕ
burst_delete_threshold = 10

abbrev pub burst_delete_window : ℕ
burst_delete_window = 5 * second

abbrev pub burst_reconcile_delay : ℕ
burst_reconcile_delay = 30 * second

abbrev pub note_burst : ℕ → Watch → Watch
note_burst now w =
    if w.delete_count == burst_delete_threshold
    then record w { reconcile_at = (now + burst_reconcile_delay) ∷ w.reconcile_at }
    else w

unfoldable pub track_delete_burst : ℕ → Watch → Watch
track_delete_burst now w =
    if ltb w.delete_window_end now
    then note_burst now
        (record w { delete_count = 1; delete_window_end = now + burst_delete_window })
    else note_burst now (record w { delete_count = suc w.delete_count })

abbrev pub is_ignore : DeletePolicy → Bool
is_ignore ignore = true
is_ignore delete = false
is_ignore quarantine = false

-- handleRemove, with the delete policy of the manager.
unfoldable pub handle_remove : Libraries → DeletePolicy → ℕ → Text → Watch → Watch
unfolding cancel_timers is_excluded queue_delete track_delete_burst
handle_remove libs policy now path w =
    let quiet = cancel_timers path w in
    if is_ignore policy
    then track_delete_burst now quiet
    else if excludes libs w.filter path
    then quiet
    else track_delete_burst now (queue_delete path false quiet)

unfoldable pub handle_rename : Libraries → Text → Watch → Watch
unfolding cancel_timers is_excluded queue_delete
handle_rename libs path w =
    let quiet = cancel_timers path w in
    if excludes libs w.filter path then quiet else queue_delete path true quiet
