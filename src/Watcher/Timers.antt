-- ===== src/Watcher/Timers.antt =====
-- internal/watcher/watcher.go: debounce timers that go off, and their callbacks.
use selective_mirror.Base.{
  ℕ, ◌&&◌, Option, none, some, List, [], ◌∷◌, leb, if◌then◌else◌, Text, same, member, put, discard,
}
use selective_mirror.Watcher.{Watch, queue_sync}

-- A debounce timer goes off when its time has come; its entry in the map stays.
abbrev pub fires_at : ℕ → Text → Option (Option ℕ) → Watch → Watch
fires_at now path none w = w
fires_at now path (some none) w = w
fires_at now path (some (some deadline)) w =
    if leb deadline now
    then record w { pending = put path none w.pending; callbacks = path ∷ w.callbacks }
    else w

unfoldable pub timer_fires : ℕ → Text → Watch → Watch
timer_fires now path w = fires_at now path (w.pending path) w

abbrev pub with_timer : (Text × ℕ) → Option (List (Text × ℕ)) → Option (List (Text × ℕ))
with_timer timer none = none
with_timer timer (some rest) = some (timer ∷ rest)

-- The same of a timer that the map has lost.
abbrev pub take_due : ℕ → Text → List (Text × ℕ) → Option (List (Text × ℕ))
take_due now path [] = none
take_due now path ((p, deadline) ∷ rest) =
    let later = with_timer (p, deadline) (take_due now path rest) in
    if same p path && leb deadline now then some rest else later

abbrev pub starts_callback : Text → Option (List (Text × ℕ)) → Watch → Watch
starts_callback path none w = w
starts_callback path (some rest) w = record w { lost = rest; callbacks = path ∷ w.callbacks }

unfoldable pub lost_timer_fires : ℕ → Text → Watch → Watch
lost_timer_fires now path w = starts_callback path (take_due now path w.lost) w

abbrev pub remove_first : Text → List Text → List Text
remove_first path [] = []
remove_first path (p ∷ ps) = let rest = remove_first path ps in if same p path then ps else p ∷ rest

-- An entry that is forgotten without a Stop: its timer runs on.
abbrev pub forget : Text → Option (Option ℕ) → List (Text × ℕ) → List (Text × ℕ)
forget path none lost = lost
forget path (some none) lost = lost
forget path (some (some deadline)) lost = (path, deadline) ∷ lost

-- The callback has the mutex, and the entry goes.
unfoldable pub callback_forgets : Text → Watch → Watch
unfolding member same
callback_forgets path w =
    if member path w.callbacks
    then record w {
      callbacks = remove_first path w.callbacks;
      pending = discard path w.pending;
      lost = forget path (w.pending path) w.lost;
      unlocked = path ∷ w.unlocked;
    }
    else w

-- The callback has let go of the mutex, and enqueues the file.
unfoldable pub callback_enqueues : Text → Watch → Watch
unfolding member queue_sync same
callback_enqueues path w =
    if member path w.unlocked
    then queue_sync path (record w { unlocked = remove_first path w.unlocked })
    else w

-- timerCleanupLoop: the end of the watcher stops every timer of the map.
unfoldable pub stop_timers : Watch → Watch
stop_timers w = record w { pending = λ p. none }
