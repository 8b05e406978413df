-- ===== src/Watcher/Reloads/Settles.antt =====
-- internal/watcher/watcher.go: the cleanups after changes of the rules.
use selective_mirror.Base.{
  ℕ, suc, ◌≡◌, refl, sym, subst, ◌⊎◌, inl, inr, Bool, true, false, List, [], ◌∷◌,
}
use selective_mirror.Config.{Project}
use selective_mirror.Queue.{FairQueue}
use selective_mirror.Watcher.Reloads.{
  reload_failed, unchanged, changed, Cleaner, absent, about_to_clean, cleaning, Reloads,
  filter_change_running, full_sync, coalesce, reload_filter, goes_on, cleaner_goes_on, ReloadStep,
  reloads, goes_on_once, reload_step, reload_steps,
}

-- A cleanup that goes on or has ended has seen every change, unless one was left to it.
abbrev Accounted : Cleaner → Bool → ℕ → ℕ → Type 0
Accounted absent pending changes seen = (pending ≡ false) × (seen ≡ changes)
Accounted about_to_clean pending changes seen = Unit {0}
Accounted cleaning pending changes seen = (pending ≡ true) ⊎ (seen ≡ changes)

abbrev IsAccounted : Reloads → Type 0
IsAccounted r = Accounted r.cleaner r.filter_change_pending r.changes r.seen

abbrev of_fields : FairQueue → Cleaner → Bool → ℕ → ℕ → Reloads
of_fields q c p n s = record {
  queue = q;
  cleaner = c;
  filter_change_pending = p;
  changes = n;
  seen = s;
}

coalesce-IsAccounted :
    (q : FairQueue) (c : Cleaner) (p : Bool) (n s : ℕ)
    → IsAccounted (coalesce (of_fields q c p n s))
coalesce-IsAccounted q absent p n s = tt
coalesce-IsAccounted q about_to_clean p n s = tt
coalesce-IsAccounted q cleaning p n s = inl refl

goes_on-IsAccounted :
    (q : FairQueue) (c : Cleaner) (p : Bool) (n s : ℕ)
    → Accounted c p n s
    → IsAccounted (goes_on c (of_fields q c p n s))
goes_on-IsAccounted q absent p n s h = h
goes_on-IsAccounted q about_to_clean p n s h = inr refl
goes_on-IsAccounted q cleaning true n s h = tt
goes_on-IsAccounted q cleaning false n s (inl h) = absurd (cc)
goes_on-IsAccounted q cleaning false n s (inr h) = (refl, h)

reload_step-IsAccounted :
    (proj : Project) (step : ReloadStep) (r : Reloads)
    → IsAccounted r
    → IsAccounted (reload_step proj step r)
unfolding reload_step reload_filter cleaner_goes_on
reload_step-IsAccounted proj (reloads reload_failed) r h = h
reload_step-IsAccounted proj (reloads unchanged) r h = h
reload_step-IsAccounted proj (reloads changed) r h =
    let synced = full_sync proj r in
    coalesce-IsAccounted synced.queue r.cleaner r.filter_change_pending (suc r.changes) r.seen
reload_step-IsAccounted proj goes_on_once r h =
    goes_on-IsAccounted r.queue r.cleaner r.filter_change_pending r.changes r.seen h

reload_steps-IsAccounted :
    (proj : Project) (steps : List ReloadStep) (r : Reloads)
    → IsAccounted r
    → IsAccounted (reload_steps proj steps r)
unfolding reload_steps
reload_steps-IsAccounted proj [] r h = h
reload_steps-IsAccounted proj (step ∷ steps) r h =
    reload_steps-IsAccounted proj steps (reload_step proj step r)
      (reload_step-IsAccounted proj step r h)

-- Four steps of the goroutine, with no further change.
abbrev pub four : List ReloadStep
four = goes_on_once ∷ goes_on_once ∷ goes_on_once ∷ goes_on_once ∷ []

-- What the steps reach.
abbrev pub Settled : Reloads → Reloads → Type 0
Settled r settled = (settled.cleaner ≡ absent) × (settled.seen ≡ r.changes)

four-Settled :
    (proj : Project) (q : FairQueue) (c : Cleaner) (p : Bool) (n s : ℕ)
    → Accounted c p n s
    → Settled (of_fields q c p n s) (reload_steps proj four (of_fields q c p n s))
unfolding reload_steps
four-Settled proj q absent p n s (_, h) = (refl, h)
four-Settled proj q about_to_clean true n s h = (refl, refl)
four-Settled proj q about_to_clean false n s h = (refl, refl)
four-Settled proj q cleaning true n s h = (refl, refl)
four-Settled proj q cleaning false n s (inl h) = absurd (cc)
four-Settled proj q cleaning false n s (inr h) = (refl, h)

absent-seen :
    (c : Cleaner) (p : Bool) (n s : ℕ) → Accounted c p n s → filter_change_running c ≡ false → s ≡ n
absent-seen absent p n s (_, h) idle = h
absent-seen about_to_clean p n s h idle = absurd (cc)
absent-seen cleaning p n s h idle = absurd (cc)

-- From no goroutine and no change on, through any reloads and any steps of the goroutine: when no
-- goroutine is left, the cleanup that began last has seen every change of the rules; and at any
-- moment four further steps of the goroutine, so at most two cleanups after the one that runs, end it.
pub reload_steps-settle :
    (proj : Project) (steps : List ReloadStep) (r : Reloads)
    → r.cleaner ≡ absent
    → r.filter_change_pending ≡ false
    → r.seen ≡ r.changes
    → let after = reload_steps proj steps r in
      (filter_change_running after.cleaner ≡ false → after.seen ≡ after.changes)
      × Settled after (reload_steps proj four after)
reload_steps-settle proj steps r idle none_left current =
    let start =
      subst (λ (c : Cleaner). Accounted c r.filter_change_pending r.changes r.seen) (sym idle)
        (none_left, current) in
    let after = reload_steps proj steps r in
    let accounted = reload_steps-IsAccounted proj steps r start in
    (
      absent-seen after.cleaner after.filter_change_pending after.changes after.seen accounted,
      four-Settled proj after.queue after.cleaner after.filter_change_pending after.changes
          after.seen accounted,
    )
