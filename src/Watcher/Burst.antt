-- ===== src/Watcher/Burst.antt =====
-- internal/watcher/watcher.go: trackDeleteBurst over a run of deletes.
use selective_mirror.Base.{
  ℕ, suc, ◌+◌, ◌≤◌, ◌<◌, ◌≡◌, refl, sym, ap, subst, ◌∙◌, Bool, ◌&&◌, List, [], ◌∷◌, arith, ltb, leb,
  ◌==◌, if◌then◌else◌, lt→ltb, if_cases, if_true, if_false, length, All,
}
use selective_mirror.Watcher.{Watch}
use selective_mirror.Watcher.Removals.{
  track_delete_burst, note_burst, burst_delete_threshold, burst_delete_window,
  burst_reconcile_delay,
}

unfoldable pub track_all : List ℕ → Watch → Watch
unfolding track_delete_burst
track_all [] w = w
track_all (t ∷ ts) w = track_all ts (track_delete_burst t w)

abbrev one_if : Bool → ℕ
one_if b = if b then 1 else 0

-- The effect of a delete on the count, the window and the number of reconciliations.
abbrev Counts : Watch → ℕ → ℕ → Watch → Type 0
Counts w count window w' =
    (w'.delete_count ≡ count)
    × (w'.delete_window_end ≡ window)
    × (length w'.reconcile_at ≡ length w.reconcile_at + one_if (count == 10))

note_burst-Counts :
    (now : ℕ) (w : Watch) → Counts w w.delete_count w.delete_window_end (note_burst now w)
note_burst-Counts now w =
    let noted = record w { reconcile_at = (now + burst_reconcile_delay) ∷ w.reconcile_at } in
    let n = length w.reconcile_at in
    if_cases (Counts w w.delete_count w.delete_window_end) (w.delete_count == 10) noted w
      (λ it. (refl, refl, omega arith ∙ ap (λ b. n + one_if b) (sym it)))
      (λ other. (refl, refl, omega arith ∙ ap (λ b. n + one_if b) (sym other)))

-- A delete within the window, and one after it.
track-Counts :
    (now : ℕ) (w : Watch)
    → now ≤ w.delete_window_end
    → Counts w (suc w.delete_count) w.delete_window_end (track_delete_burst now w)
unfolding track_delete_burst
track-Counts now w within =
    let fresh = record w { delete_count = 1; delete_window_end = now + burst_delete_window } in
    let more = record w { delete_count = suc w.delete_count } in
    subst (Counts w (suc w.delete_count) w.delete_window_end)
      (sym (
        if_false (ltb w.delete_window_end now) (note_burst now fresh) (note_burst now more)
          (ground arith)))
      (note_burst-Counts now more)

track-Counts-fresh :
    (now : ℕ) (w : Watch)
    → w.delete_window_end < now
    → Counts w 1 (now + burst_delete_window) (track_delete_burst now w)
unfolding track_delete_burst
track-Counts-fresh now w past =
    let fresh = record w { delete_count = 1; delete_window_end = now + burst_delete_window } in
    let more = record w { delete_count = suc w.delete_count } in
    subst (Counts w 1 (now + burst_delete_window))
      (sym (
        if_true (ltb w.delete_window_end now) (note_burst now fresh) (note_burst now more)
          (lt→ltb w.delete_window_end now past)))
      (note_burst-Counts now fresh)

-- How many reconciliations the deletes schedule that follow the first `count` of a window.
abbrev scheduled : ℕ → ℕ → ℕ
scheduled count more = one_if (ltb count 10 && leb 10 (count + more))

scheduled-none : (count : ℕ) → scheduled count 0 ≡ 0
scheduled-none count = ground arith

-- Deletes that have been counted, and the ones that follow.
then-within :
    (w w' : Watch) (count window more : ℕ) (result : ℕ)
    → Counts w count window w'
    → result ≡ length w'.reconcile_at + scheduled w'.delete_count more
    → result ≡ length w.reconcile_at + (one_if (count == 10) + scheduled count more)
then-within w w' count window more result (c, _, n) h =
    let counted = ap (λ k. scheduled k more) c in omega arith

scheduled-suc :
    (count more : ℕ)
    → one_if (suc count == 10) + scheduled (suc count) more ≡ scheduled count (suc more)
scheduled-suc count more = ground arith

track_all-within :
    (ts : List ℕ) (w : Watch)
    → All (λ t. t ≤ w.delete_window_end) ts
    → length (track_all ts w).reconcile_at
      ≡ length w.reconcile_at + scheduled w.delete_count (length ts)
unfolding track_all
track_all-within [] w within = let nothing = scheduled-none w.delete_count in omega arith
track_all-within (t ∷ ts) w within =
    let w' = track_delete_burst t w in
    let counts = track-Counts t w within.0 in
    let later = subst (λ (window : ℕ). All (λ (u : ℕ). u ≤ window) ts) (sym counts.1) within.1 in
    then-within w w' (suc w.delete_count) w.delete_window_end (length ts)
      (length (track_all ts w').reconcile_at) counts (track_all-within ts w' later)
    ∙ ap (λ n. length w.reconcile_at + n) (scheduled-suc w.delete_count (length ts))

scheduled-first :
    (more : ℕ)
    → one_if (1 == 10) + scheduled 1 more ≡ one_if (leb burst_delete_threshold (suc more))
scheduled-first more = ground arith

-- The deletes of one window schedule one accelerated reconciliation where they are ten or more, and
-- none where they are fewer: for a delete after the end of the last window and others up to five
-- seconds later.
pub burst-reconciles-once :
    (t : ℕ) (ts : List ℕ) (w : Watch)
    → w.delete_window_end < t
    → All (λ u. u ≤ t + burst_delete_window) ts
    → length (track_all (t ∷ ts) w).reconcile_at
      ≡ length w.reconcile_at + (if leb burst_delete_threshold (length (t ∷ ts)) then 1 else 0)
unfolding track_all
burst-reconciles-once t ts w past within =
    let w' = track_delete_burst t w in
    let counts = track-Counts-fresh t w past in
    let later = subst (λ (window : ℕ). All (λ (u : ℕ). u ≤ window) ts) (sym counts.1) within in
    then-within w w' 1 (t + burst_delete_window) (length ts) (length (track_all ts w').reconcile_at)
      counts (track_all-within ts w' later)
    ∙ ap (λ n. length w.reconcile_at + n) (scheduled-first (length ts))
