-- ===== src/Watcher/Debounce/Arrival.antt =====
-- internal/watcher/watcher.go: a change that waits for its quiet window is passed on.
use selective_mirror.Base.{
  ℕ, ◌+◌, ◌≤◌, ◌≡◌, refl, sym, ap, subst, ◌∙◌, inl, inr, true, false, Option, none, some, List, [],
  ◌∷◌, leb, if◌then◌else◌, if_cases, if_true, All, Text, same, same_refl, member, put, discard,
}
use selective_mirror.Base.Int.{is_pos, magnitude}
use selective_mirror.Config.{Project, debounce_duration}
use selective_mirror.Filter.Engine.{Libraries}
use selective_mirror.Queue.{enqueue}
use selective_mirror.Watcher.{Watch, sync_task, queue_sync, queue_delete, excludes, dispatch}
use selective_mirror.Watcher.Removals.{
  cancel_timers, track_delete_burst, is_ignore, handle_remove, handle_rename,
}
use selective_mirror.Watcher.Timers.{
  timer_fires, fires_at, lost_timer_fires, take_due, starts_callback, forget, remove_first,
  callback_forgets, callback_enqueues, stop_timers,
}
use selective_mirror.Watcher.Debounce.{
  Op, changes, removes, renames, fires, fires_late, forgets, enqueues, stops, apply, apply_all,
  Leaves, Waiting, fires_and_runs,
}
use selective_mirror.Watcher.Debounce.Waits.{track-SameTimers, apply-Waiting}
use selective_mirror.Watcher.Debounce.Ends.{Waiting-ends}

abbrev SameProject : Watch → Watch → Type 0
SameProject w w' = w'.project ≡ w.project

fires_at-SameProject :
    (now : ℕ) (path : Text) (entry : Option (Option ℕ)) (w : Watch)
    → SameProject w (fires_at now path entry w)
fires_at-SameProject now path none w = refl
fires_at-SameProject now path (some none) w = refl
fires_at-SameProject now path (some (some deadline)) w =
    if_cases (SameProject w) (leb deadline now)
      (record w { pending = put path none w.pending; callbacks = path ∷ w.callbacks }) w (λ _. refl)
      (λ _. refl)

starts_callback-SameProject :
    (path : Text) (rest : Option (List (Text × ℕ))) (w : Watch)
    → SameProject w (starts_callback path rest w)
starts_callback-SameProject path none w = refl
starts_callback-SameProject path (some rest) w = refl

dispatch-SameProject : (now : ℕ) (path : Text) (w : Watch) → SameProject w (dispatch now path w)
unfolding dispatch queue_sync
dispatch-SameProject now path w =
    if_cases (SameProject w) (is_pos (debounce_duration w.project))
      (record w {
        pending = put path (some (now + magnitude (debounce_duration w.project))) w.pending;
      })
      (queue_sync path w) (λ _. refl) (λ _. refl)

forgets-SameProject : (path : Text) (w : Watch) → SameProject w (callback_forgets path w)
unfolding callback_forgets
forgets-SameProject path w =
    if_cases (SameProject w) (member path w.callbacks)
      (record w {
        callbacks = remove_first path w.callbacks;
        pending = discard path w.pending;
        lost = forget path (w.pending path) w.lost;
        unlocked = path ∷ w.unlocked;
      })
      w (λ _. refl) (λ _. refl)

-- Each operation leaves the project as it is.
apply-SameProject : (libs : Libraries) (op : Op) (w : Watch) → SameProject w (apply libs op w)
unfolding apply dispatch queue_sync handle_remove queue_delete cancel_timers handle_rename
    callback_forgets callback_enqueues stop_timers timer_fires lost_timer_fires
apply-SameProject libs (changes now path) w = dispatch-SameProject now path w
apply-SameProject libs (removes policy now path) w =
    let quiet = cancel_timers path w in
    let deleting = queue_delete path false quiet in
    if_cases (SameProject w) (is_ignore policy) (track_delete_burst now quiet)
      (if excludes libs w.filter path then quiet else track_delete_burst now deleting)
      (λ _. (track-SameTimers now quiet).0)
      (λ _.
        if_cases (SameProject w) (excludes libs w.filter path) quiet
          (track_delete_burst now deleting) (λ _. refl) (λ _. (track-SameTimers now deleting).0))
apply-SameProject libs (renames path) w =
    let quiet = cancel_timers path w in
    if_cases (SameProject w) (excludes libs w.filter path) quiet (queue_delete path true quiet)
      (λ _. refl) (λ _. refl)
apply-SameProject libs (fires now path) w = fires_at-SameProject now path (w.pending path) w
apply-SameProject libs (fires_late now path) w =
    starts_callback-SameProject path (take_due now path w.lost) w
apply-SameProject libs (forgets path) w = forgets-SameProject path w
apply-SameProject libs (enqueues path) w =
    if_cases (SameProject w) (member path w.unlocked)
      (queue_sync path (record w { unlocked = remove_first path w.unlocked })) w (λ _. refl)
      (λ _. refl)
apply-SameProject libs stops w = refl

apply_all-Waiting :
    (libs : Libraries) (p : Text) (ops : List Op) (w : Watch)
    → All (Leaves p) ops
    → Waiting p w
    → Waiting p (apply_all libs ops w)
unfolding apply_all
apply_all-Waiting libs p [] w leaves h = h
apply_all-Waiting libs p (op ∷ ops) w leaves h =
    apply_all-Waiting libs p ops (apply libs op w) leaves.1 (apply-Waiting libs p op w leaves.0 h)

apply_all-SameProject :
    (libs : Libraries) (ops : List Op) (w : Watch) → SameProject w (apply_all libs ops w)
unfolding apply_all
apply_all-SameProject libs [] w = refl
apply_all-SameProject libs (op ∷ ops) w =
    apply_all-SameProject libs ops (apply libs op w) ∙ apply-SameProject libs op w

dispatch-arms :
    (now : ℕ) (p : Text) (w : Watch)
    → is_pos (debounce_duration w.project) ≡ true
    → Waiting p (dispatch now p w)
unfolding dispatch
dispatch-arms now p w debounces =
    let due = now + magnitude (debounce_duration w.project) in
    let armed = record w { pending = put p (some due) w.pending } in
    subst (Waiting p)
      (sym (if_true (is_pos (debounce_duration w.project)) armed (queue_sync p w) debounces))
      (inr (inl (due, if_true (same p p) (some (some due)) (w.pending p) (same_refl p))))

-- A change that passed the tests, of a mirror with a quiet window, is not lost: whatever changes,
-- timers and callbacks follow, those of earlier changes of the file included, as long as no callback
-- enqueues the file, neither the file nor a directory above it is removed or renamed, and the watcher
-- does not end, there is a time from which on the file's timer and the callback that it starts put
-- exactly a sync of that file into the queue.
pub dispatch-arrives :
    (libs : Libraries) (now : ℕ) (p : Text) (w : Watch) (ops : List Op)
    → is_pos (debounce_duration w.project) ≡ true
    → All (Leaves p) ops
    → let after = apply_all libs ops (dispatch now p w) in
      (due : ℕ) × ((t : ℕ)
        → due ≤ t
        → (fires_and_runs t p after).queue ≡ (enqueue (sync_task w.project p) after.queue).0)
dispatch-arrives libs now p w ops debounces leaves =
    let armed = dispatch now p w in
    let after = apply_all libs ops armed in
    let (due, ends) =
      Waiting-ends p after
        (apply_all-Waiting libs p ops armed leaves (dispatch-arms now p w debounces)) in
    let project = apply_all-SameProject libs ops armed ∙ dispatch-SameProject now p w in
    (
      due,
      λ t late.
          ends t late ∙ ap (λ (proj : Project). (enqueue (sync_task proj p) after.queue).0) project,
    )
