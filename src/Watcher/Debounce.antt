-- ===== src/Watcher/Debounce.antt =====
-- internal/watcher/watcher.go: what happens to the debounce timers of a mirror, as a list of operations.
pub mod Lost
pub mod Waits
pub mod Ends
pub mod Arrival
use selective_mirror.Base.{
  ℕ, ◌≡◌, ◌⊎◌, Bool, true, false, ◌&&◌, ◌||◌, some, List, [], ◌∷◌, ◌==◌, Text, same, member,
}
use selective_mirror.Config.{DeletePolicy}
use selective_mirror.Filter.Engine.{Libraries}
use selective_mirror.Watcher.{Watch, dispatch}
use selective_mirror.Watcher.Removals.{handle_remove, handle_rename}
use selective_mirror.Watcher.Timers.{
  timer_fires, lost_timer_fires, callback_forgets, callback_enqueues, stop_timers,
}
use selective_mirror.Watcher.Paths.{is_rel_sub_path}

-- What happens to a mirror's timers: a change that passes the tests, a file that goes, a timer that
-- goes off, a callback that gets the mutex and one that enqueues, the end of the watcher.
pub data Op : Type 0 where
  changes : ℕ → Text → Op
  removes : DeletePolicy → ℕ → Text → Op
  renames : Text → Op
  fires : ℕ → Text → Op
  fires_late : ℕ → Text → Op
  forgets : Text → Op
  enqueues : Text → Op
  stops : Op

unfoldable pub apply : Libraries → Op → Watch → Watch
unfolding dispatch handle_remove handle_rename timer_fires lost_timer_fires callback_forgets
    callback_enqueues stop_timers
apply libs (changes now path) w = dispatch now path w
apply libs (removes policy now path) w = handle_remove libs policy now path w
apply libs (renames path) w = handle_rename libs path w
apply libs (fires now path) w = timer_fires now path w
apply libs (fires_late now path) w = lost_timer_fires now path w
apply libs (forgets path) w = callback_forgets path w
apply libs (enqueues path) w = callback_enqueues path w
apply libs stops w = stop_timers w

unfoldable pub apply_all : Libraries → List Op → Watch → Watch
unfolding apply
apply_all libs [] w = w
apply_all libs (op ∷ ops) w = apply_all libs ops (apply libs op w)

-- The operation is not the end of the watcher, neither removes nor renames the path or a directory
-- above it, and is no enqueueing of the path by a callback.
abbrev pub Leaves : Text → Op → Type 0
Leaves p (changes now path) = Unit {0}
Leaves p (removes policy now path) = (same p path || is_rel_sub_path p path) ≡ false
Leaves p (renames path) = (same p path || is_rel_sub_path p path) ≡ false
Leaves p (fires now path) = Unit {0}
Leaves p (fires_late now path) = Unit {0}
Leaves p (forgets path) = Unit {0}
Leaves p (enqueues path) = same path p ≡ false
Leaves p stops = ⊥

-- A timer of this path and deadline is among the lost ones.
abbrev pub has_timer : Text → ℕ → List (Text × ℕ) → Bool
has_timer p d [] = false
has_timer p d ((q, e) ∷ timers) = (same q p && e == d) || has_timer p d timers

-- A callback for the path has started or is about to enqueue, or its timer runs, in the map or lost.
abbrev pub Waiting : Text → Watch → Type 0
Waiting p w =
    (member p w.callbacks ≡ true)
    ⊎ (((deadline : ℕ) × (w.pending p ≡ some (some deadline)))
        ⊎ (((deadline : ℕ) × (has_timer p deadline w.lost ≡ true)) ⊎ (member p w.unlocked ≡ true)))

-- The timer of the path goes off, be it in the map or lost, and its callback runs to the end.
abbrev pub fires_and_runs : ℕ → Text → Watch → Watch
fires_and_runs t p w =
    callback_enqueues p (callback_forgets p (lost_timer_fires t p (timer_fires t p w)))
