-- ===== src/Watcher/Debounce/Ends.antt =====
-- internal/watcher/watcher.go: the timer or the callback that is waited for ends with an enqueueing.
use selective_mirror.Base.{
  ℕ, ◌≤◌, ◌≡◌, refl, sym, ap, ap₂, subst, ◌∙◌, ◌⊎◌, inl, inr, Bool, true, false, ◌&&◌, ◌||◌, Option,
  none, some, List, [], ◌∷◌, arith, leb, ◌==◌, le→leb, if_cases, if_true, if_false, Bool-cases,
  Text, same, same_refl, member, put, discard,
}
use selective_mirror.Config.{Project}
use selective_mirror.Queue.{FairQueue, enqueue}
use selective_mirror.Watcher.{Watch, sync_task, queue_sync}
use selective_mirror.Watcher.Timers.{
  timer_fires, fires_at, lost_timer_fires, take_due, starts_callback, with_timer, forget,
  remove_first, callback_forgets, callback_enqueues,
}
use selective_mirror.Watcher.Debounce.{has_timer, Waiting, fires_and_runs}
use selective_mirror.Watcher.Debounce.Lost.{member_after_start}

-- A step to the end of a wait leaves the project and the queue.
abbrev Kept : Watch → Watch → Type 0
Kept w w' = (w'.project ≡ w.project) × (w'.queue ≡ w.queue)

Kept-trans : (w w' w'' : Watch) → Kept w w' → Kept w' w'' → Kept w w''
Kept-trans w w' w'' (a, b) (c, d) = (c ∙ a, d ∙ b)

fires_at-Kept :
    (now : ℕ) (p : Text) (w : Watch) (entry : Option (Option ℕ)) → Kept w (fires_at now p entry w)
fires_at-Kept now p w none = (refl, refl)
fires_at-Kept now p w (some none) = (refl, refl)
fires_at-Kept now p w (some (some deadline)) =
    if_cases (Kept w) (leb deadline now)
      (record w { pending = put p none w.pending; callbacks = p ∷ w.callbacks }) w
      (λ _. (refl, refl)) (λ _. (refl, refl))

starts_callback-Kept :
    (p : Text) (w : Watch) (rest : Option (List (Text × ℕ))) → Kept w (starts_callback p rest w)
starts_callback-Kept p w none = (refl, refl)
starts_callback-Kept p w (some rest) = (refl, refl)

callback_forgets-Kept : (p : Text) (w : Watch) → Kept w (callback_forgets p w)
unfolding callback_forgets
callback_forgets-Kept p w =
    if_cases (Kept w) (member p w.callbacks)
      (record w {
        callbacks = remove_first p w.callbacks;
        pending = discard p w.pending;
        lost = forget p (w.pending p) w.lost;
        unlocked = p ∷ w.unlocked;
      })
      w (λ _. (refl, refl)) (λ _. (refl, refl))

-- What is left to do: a callback to run, a lost timer that is due, or an enqueueing.
abbrev Soon : ℕ → Text → Watch → Type 0
Soon t p w =
    (member p w.callbacks ≡ true)
    ⊎ (((d : ℕ) × (d ≤ t) × (has_timer p d w.lost ≡ true)) ⊎ (member p w.unlocked ≡ true))

abbrev Now : Text → Watch → Type 0
Now p w = (member p w.callbacks ≡ true) ⊎ (member p w.unlocked ≡ true)

fires_at-Soon :
    (t : ℕ) (p : Text) (w : Watch) (entry : Option (Option ℕ))
    → Soon t p w
    → Soon t p (fires_at t p entry w)
fires_at-Soon t p w none h = h
fires_at-Soon t p w (some none) h = h
fires_at-Soon t p w (some (some deadline)) h =
    let fired = record w { pending = put p none w.pending; callbacks = p ∷ w.callbacks } in
    if_cases (Soon t p) (leb deadline t) fired w
      (λ _. elim h [
        | inl started ↦ inl (member_after_start p p w fired refl started)
        | inr rest ↦ inr rest
      ])
      (λ _. h)

fires_at-due :
    (t : ℕ) (p : Text) (w : Watch) (deadline : ℕ)
    → deadline ≤ t
    → Soon t p (fires_at t p (some (some deadline)) w)
unfolding member
fires_at-due t p w deadline due =
    let fired = record w { pending = put p none w.pending; callbacks = p ∷ w.callbacks } in
    subst (Soon t p) (sym (if_true (leb deadline t) fired w (le→leb deadline t due)))
      (inl (ap (λ b. b || member p w.callbacks) (same_refl p)))

-- From some time on, what a wait needs is at hand once the timer of the map has had its chance.
waits-Soon :
    (p : Text) (w : Watch)
    → Waiting p w
    → (due : ℕ) × ((t : ℕ) → due ≤ t → Soon t p (timer_fires t p w))
unfolding timer_fires
waits-Soon p w (inl started) = (0, λ t _. fires_at-Soon t p w (w.pending p) (inl started))
waits-Soon p w (inr (inl (deadline, armed))) = (
  deadline,
  λ t due.
      subst (λ (entry : Option (Option ℕ)). Soon t p (fires_at t p entry w)) (sym armed)
        (fires_at-due t p w deadline due),
)
waits-Soon p w (inr (inr (inl (d, running)))) =
    (d, λ t due. fires_at-Soon t p w (w.pending p) (inr (inl (d, due, running))))
waits-Soon p w (inr (inr (inr free))) =
    (0, λ t _. fires_at-Soon t p w (w.pending p) (inr (inr free)))

-- The timer that is asked for is not the one that is not due.
not_here :
    (ours : Bool) (e d t : ℕ) (later : Bool)
    → d ≤ t
    → (ours && leb e t) ≡ false
    → ((ours && e == d) || later) ≡ true
    → later ≡ true
not_here true e d t later due other h = ground (arith, due, other, h)
not_here false e d t later due other h = h

-- A lost timer that is due can go off.
take_due-some :
    (t : ℕ) (p : Text) (d : ℕ) (timers : List (Text × ℕ))
    → d ≤ t
    → has_timer p d timers ≡ true
    → (rest : List (Text × ℕ)) × (take_due t p timers ≡ some rest)
take_due-some t p d [] due h = absurd (cc)
take_due-some t p d ((q, e) ∷ timers) due h =
    let later = with_timer (q, e) (take_due t p timers) in
    elim (Bool-cases (same q p && leb e t)) [
      | inl it ↦ (timers, if_true (same q p && leb e t) (some timers) later it)
      | inr other ↦
          let (rest, found) =
            take_due-some t p d timers due
              (not_here (same q p) e d t (has_timer p d timers) due other h) in
          (
            (q, e) ∷ rest,
            if_false (same q p && leb e t) (some timers) later other ∙ ap (with_timer (q, e)) found,
          )
    ]

starts_callback-Now :
    (p : Text) (w : Watch) (rest : Option (List (Text × ℕ)))
    → Now p w
    → Now p (starts_callback p rest w)
starts_callback-Now p w none h = h
starts_callback-Now p w (some rest) (inl started) =
    inl (member_after_start p p w (starts_callback p (some rest) w) refl started)
starts_callback-Now p w (some rest) (inr free) = inr free

lost_timer_fires-Now : (t : ℕ) (p : Text) (w : Watch) → Soon t p w → Now p (lost_timer_fires t p w)
unfolding lost_timer_fires member
lost_timer_fires-Now t p w (inl started) =
    starts_callback-Now p w (take_due t p w.lost) (inl started)
lost_timer_fires-Now t p w (inr (inl (d, due, running))) =
    let (rest, found) = take_due-some t p d w.lost due running in
    subst (λ (o : Option (List (Text × ℕ))). Now p (starts_callback p o w)) (sym found)
      (inl (ap (λ b. b || member p w.callbacks) (same_refl p)))
lost_timer_fires-Now t p w (inr (inr free)) =
    starts_callback-Now p w (take_due t p w.lost) (inr free)

callback_forgets-free :
    (p : Text) (w : Watch) → Now p w → member p (callback_forgets p w).unlocked ≡ true
unfolding callback_forgets member
callback_forgets-free p w h =
    let forgot = record w {
      callbacks = remove_first p w.callbacks;
      pending = discard p w.pending;
      lost = forget p (w.pending p) w.lost;
      unlocked = p ∷ w.unlocked;
    } in
    if_cases (λ (v : Watch). member p v.unlocked ≡ true) (member p w.callbacks) forgot w
      (λ _. ap (λ b. b || member p w.unlocked) (same_refl p))
      (λ none_started. elim h [
        | inl started ↦ absurd (cc (none_started, started))
        | inr free ↦ free
      ])

-- The callback that is free to go enqueues the file.
callback_enqueues-queue :
    (p : Text) (w : Watch)
    → member p w.unlocked ≡ true
    → (callback_enqueues p w).queue ≡ (enqueue (sync_task w.project p) w.queue).0
unfolding callback_enqueues queue_sync
callback_enqueues-queue p w free =
    ap (λ (v : Watch). v.queue)
      (if_true (member p w.unlocked)
        (queue_sync p (record w { unlocked = remove_first p w.unlocked })) w free)

-- A wait ends with an enqueueing, from some time on.
pub Waiting-ends :
    (p : Text) (w : Watch)
    → Waiting p w
    → (due : ℕ) × ((t : ℕ)
        → due ≤ t
        → (fires_and_runs t p w).queue ≡ (enqueue (sync_task w.project p) w.queue).0)
unfolding timer_fires lost_timer_fires
Waiting-ends p w h =
    let (due, soon) = waits-Soon p w h in
    (
      due,
      λ t late.
          let fired = timer_fires t p w in
          let late_fired = lost_timer_fires t p fired in
          let forgot = callback_forgets p late_fired in
          let kept =
            Kept-trans w late_fired forgot
              (Kept-trans w fired late_fired (fires_at-Kept t p w (w.pending p))
                (starts_callback-Kept p fired (take_due t p fired.lost)))
              (callback_forgets-Kept p late_fired) in
          callback_enqueues-queue p forgot
            (callback_forgets-free p late_fired (lost_timer_fires-Now t p fired (soon t late)))
          ∙ ap₂ (λ (proj : Project) (q : FairQueue). (enqueue (sync_task proj p) q).0) kept.0
              kept.1,
    )
