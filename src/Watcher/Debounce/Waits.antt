-- ===== src/Watcher/Debounce/Waits.antt =====
-- internal/watcher/watcher.go: each operation leaves the wait of another path as it is.
use selective_mirror.Base.{
  ℕ, suc, ◌+◌, ◌≡◌, refl, ap, ◌∙◌, inl, inr, true, false, ◌||◌, Option, none, some, List, ◌∷◌, ltb,
  leb, ◌==◌, if◌then◌else◌, if_cases, if_true, if_false, Bool-cases, Text, same, member, TextMap,
  put, discard,
}
use selective_mirror.Base.Int.{is_pos, magnitude}
use selective_mirror.Config.{DeletePolicy, debounce_duration}
use selective_mirror.Filter.Engine.{Libraries}
use selective_mirror.Watcher.{Watch, queue_sync, queue_delete, excludes, dispatch}
use selective_mirror.Watcher.Removals.{
  cancel_timers, note_burst, track_delete_burst, is_ignore, handle_remove, handle_rename,
  burst_delete_window, burst_reconcile_delay, burst_delete_threshold,
}
use selective_mirror.Watcher.Timers.{
  timer_fires, fires_at, lost_timer_fires, take_due, starts_callback, forget, remove_first,
  callback_forgets, callback_enqueues,
}
use selective_mirror.Watcher.Paths.{is_rel_sub_path}
use selective_mirror.Watcher.Debounce.{
  Op, changes, removes, renames, fires, fires_late, forgets, enqueues, stops, has_timer, apply,
  Leaves, Waiting,
}
use selective_mirror.Watcher.Debounce.Lost.{
  or-true, member_after_start, has_timer-take_due, member-remove_first, has_timer-forget,
}

-- The project and the timers of a watch.
abbrev SameTimers : Watch → Watch → Type 0
SameTimers w w' =
    (w'.project ≡ w.project)
    × (w'.callbacks ≡ w.callbacks)
    × (w'.pending ≡ w.pending)
    × (w'.lost ≡ w.lost)
    × (w'.unlocked ≡ w.unlocked)

note_burst-SameTimers : (now : ℕ) (w : Watch) → SameTimers w (note_burst now w)
note_burst-SameTimers now w =
    if_cases (SameTimers w) (w.delete_count == burst_delete_threshold)
      (record w { reconcile_at = (now + burst_reconcile_delay) ∷ w.reconcile_at }) w
      (λ _. (refl, refl, refl, refl, refl)) (λ _. (refl, refl, refl, refl, refl))

pub track-SameTimers : (now : ℕ) (w : Watch) → SameTimers w (track_delete_burst now w)
unfolding track_delete_burst
track-SameTimers now w =
    let fresh = record w { delete_count = 1; delete_window_end = now + burst_delete_window } in
    let more = record w { delete_count = suc w.delete_count } in
    if_cases (SameTimers w) (ltb w.delete_window_end now) (note_burst now fresh)
      (note_burst now more) (λ _. note_burst-SameTimers now fresh)
      (λ _. note_burst-SameTimers now more)

-- What is left of a wait where another path's timers are cancelled.
cancel-Waiting :
    (p path : Text) (w : Watch)
    → (same p path || is_rel_sub_path p path) ≡ false
    → Waiting p w
    → Waiting p (cancel_timers path w)
unfolding cancel_timers
cancel-Waiting p path w apart (inl started) = inl started
cancel-Waiting p path w apart (inr (inl (deadline, h))) =
    inr (
      inl (deadline, if_false (same p path || is_rel_sub_path p path) none (w.pending p) apart ∙ h))
cancel-Waiting p path w apart (inr (inr rest)) = inr (inr rest)

moved : (p : Text) (w w' : Watch) → SameTimers w w' → Waiting p w → Waiting p w'
moved p w w' (_, callbacks, _, _, _) (inl started) = inl (ap (member p) callbacks ∙ started)
moved p w w' (_, _, pending, _, _) (inr (inl (deadline, h))) =
    inr (inl (deadline, ap (λ (f : TextMap (Option ℕ)). f p) pending ∙ h))
moved p w w' (_, _, _, lost, _) (inr (inr (inl (deadline, h)))) =
    inr (inr (inl (deadline, ap (has_timer p deadline) lost ∙ h)))
moved p w w' (_, _, _, _, unlocked) (inr (inr (inr h))) =
    inr (inr (inr (ap (member p) unlocked ∙ h)))

remove-Waiting :
    (libs : Libraries) (policy : DeletePolicy) (now : ℕ) (p path : Text) (w : Watch)
    → (same p path || is_rel_sub_path p path) ≡ false
    → Waiting p w
    → Waiting p (handle_remove libs policy now path w)
unfolding handle_remove queue_delete
remove-Waiting libs policy now p path w apart h =
    let quiet = cancel_timers path w in
    let waits = cancel-Waiting p path w apart h in
    let deleting = queue_delete path false quiet in
    if_cases (Waiting p) (is_ignore policy) (track_delete_burst now quiet)
      (if excludes libs w.filter path then quiet else track_delete_burst now deleting)
      (λ _. moved p quiet (track_delete_burst now quiet) (track-SameTimers now quiet) waits)
      (λ _.
        if_cases (Waiting p) (excludes libs w.filter path) quiet (track_delete_burst now deleting)
          (λ _. waits)
          (λ _.
            moved p deleting (track_delete_burst now deleting) (track-SameTimers now deleting)
              (moved p quiet deleting (refl, refl, refl, refl, refl) waits)))

rename-Waiting :
    (libs : Libraries) (p path : Text) (w : Watch)
    → (same p path || is_rel_sub_path p path) ≡ false
    → Waiting p w
    → Waiting p (handle_rename libs path w)
unfolding handle_rename queue_delete
rename-Waiting libs p path w apart h =
    let quiet = cancel_timers path w in
    let waits = cancel-Waiting p path w apart h in
    if_cases (Waiting p) (excludes libs w.filter path) quiet (queue_delete path true quiet)
      (λ _. waits)
      (λ _. moved p quiet (queue_delete path true quiet) (refl, refl, refl, refl, refl) waits)

-- A change of any path arms its timer, and leaves the others alone.
dispatch-Waiting :
    (now : ℕ) (p path : Text) (w : Watch) → Waiting p w → Waiting p (dispatch now path w)
unfolding dispatch queue_sync
dispatch-Waiting now p path w h =
    if_cases (Waiting p) (is_pos (debounce_duration w.project))
      (record w {
        pending = put path (some (now + magnitude (debounce_duration w.project))) w.pending;
      })
      (queue_sync path w)
      (λ _. elim h [
        | inl started ↦ inl started
        | inr (inl (deadline, armed)) ↦ elim (Bool-cases (same path p)) [
          | inl it ↦
              inr
                (inl (now + magnitude (debounce_duration w.project), if_true (same path p) _ _ it))
          | inr other ↦ inr (inl (deadline, if_false (same path p) _ _ other ∙ armed))
        ]
        | inr (inr rest) ↦ inr (inr rest)
      ])
      (λ _. moved p w (queue_sync path w) (refl, refl, refl, refl, refl) h)

fires_at-Waiting :
    (now : ℕ) (p path : Text) (w : Watch) (entry : Option (Option ℕ))
    → w.pending path ≡ entry
    → Waiting p w
    → Waiting p (fires_at now path entry w)
unfolding member
fires_at-Waiting now p path w none eq h = h
fires_at-Waiting now p path w (some none) eq h = h
fires_at-Waiting now p path w (some (some deadline)) eq h =
    let fired = record w { pending = put path none w.pending; callbacks = path ∷ w.callbacks } in
    if_cases (Waiting p) (leb deadline now) fired w
      (λ _. elim h [
        | inl started ↦ inl (member_after_start p path w fired refl started)
        | inr (inl (due, armed)) ↦ elim (Bool-cases (same path p)) [
          | inl it ↦ inl (ap (λ b. b || member p w.callbacks) it)
          | inr other ↦
              inr (inl (due, if_false (same path p) (some none) (w.pending p) other ∙ armed))
        ]
        | inr (inr rest) ↦ inr (inr rest)
      ])
      (λ _. h)

starts_callback-Waiting :
    (now : ℕ) (p path : Text) (w : Watch) (rest : Option (List (Text × ℕ)))
    → take_due now path w.lost ≡ rest
    → Waiting p w
    → Waiting p (starts_callback path rest w)
unfolding member
starts_callback-Waiting now p path w none e h = h
starts_callback-Waiting now p path w (some rest) e (inl started) =
    inl (member_after_start p path w (starts_callback path (some rest) w) refl started)
starts_callback-Waiting now p path w (some rest) e (inr (inl armed)) = inr (inl armed)
starts_callback-Waiting now p path w (some rest) e (inr (inr (inl (d, h)))) =
    elim (Bool-cases (same path p)) [
      | inl it ↦ inl (ap (λ b. b || member p w.callbacks) it)
      | inr other ↦ inr (inr (inl (d, has_timer-take_due now p path d w.lost rest e other h)))
    ]
starts_callback-Waiting now p path w (some rest) e (inr (inr (inr h))) = inr (inr (inr h))

callback_forgets-Waiting :
    (p path : Text) (w : Watch) → Waiting p w → Waiting p (callback_forgets path w)
unfolding callback_forgets member
callback_forgets-Waiting p path w h =
    let forgot = record w {
      callbacks = remove_first path w.callbacks;
      pending = discard path w.pending;
      lost = forget path (w.pending path) w.lost;
      unlocked = path ∷ w.unlocked;
    } in
    if_cases (Waiting p) (member path w.callbacks) forgot w
      (λ _. elim (Bool-cases (same path p)) [
        | inl it ↦ inr (inr (inr (ap (λ b. b || member p w.unlocked) it)))
        | inr other ↦ elim h [
          | inl started ↦ inl (member-remove_first p path w.callbacks other started)
          | inr (inl (due, armed)) ↦
              inr (inl (due, if_false (same path p) none (w.pending p) other ∙ armed))
          | inr (inr (inl (d, running))) ↦
              inr (inr (inl (d, has_timer-forget p d path (w.pending path) w.lost running)))
          | inr (inr (inr free)) ↦
              inr (inr (inr (ap (λ b. same path p || b) free ∙ or-true (same path p))))
        ]
      ])
      (λ _. h)

callback_enqueues-Waiting :
    (p path : Text) (w : Watch)
    → same path p ≡ false
    → Waiting p w
    → Waiting p (callback_enqueues path w)
unfolding callback_enqueues queue_sync
callback_enqueues-Waiting p path w apart h =
    let passed = queue_sync path (record w { unlocked = remove_first path w.unlocked }) in
    if_cases (Waiting p) (member path w.unlocked) passed w
      (λ _. elim h [
        | inl started ↦ inl started
        | inr (inl armed) ↦ inr (inl armed)
        | inr (inr (inl running)) ↦ inr (inr (inl running))
        | inr (inr (inr free)) ↦ inr (inr (inr (member-remove_first p path w.unlocked apart free)))
      ])
      (λ _. h)

pub apply-Waiting :
    (libs : Libraries) (p : Text) (op : Op) (w : Watch)
    → Leaves p op
    → Waiting p w
    → Waiting p (apply libs op w)
unfolding apply timer_fires lost_timer_fires
apply-Waiting libs p (changes now path) w leaves h = dispatch-Waiting now p path w h
apply-Waiting libs p (removes policy now path) w leaves h =
    remove-Waiting libs policy now p path w leaves h
apply-Waiting libs p (renames path) w leaves h = rename-Waiting libs p path w leaves h
apply-Waiting libs p (fires now path) w leaves h =
    fires_at-Waiting now p path w (w.pending path) refl h
apply-Waiting libs p (fires_late now path) w leaves h =
    starts_callback-Waiting now p path w (take_due now path w.lost) refl h
apply-Waiting libs p (forgets path) w leaves h = callback_forgets-Waiting p path w h
apply-Waiting libs p (enqueues path) w leaves h = callback_enqueues-Waiting p path w leaves h
apply-Waiting libs p stops w leaves h = absurd leaves
