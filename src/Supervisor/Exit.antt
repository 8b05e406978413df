-- ===== src/Supervisor/Exit.antt =====
-- The exit codes of runWithSupervisor in internal/sync/liveness.go.
use selective_mirror.Base.{
  ℕ, suc, ◌*◌, ◌≡◌, refl, sym, ap, ◌∙◌, inl, inr, Bool, true, false, not, ◌&&◌, Option, some, List,
  [], ◌∷◌, ◌++◌, map, ltb, leb, if◌then◌else◌, if_cases, if_true, if_false, Bool-cases, Text, codes,
  same,
}
use selective_mirror.Base.Int.{ℤ, negsuc}
use selective_mirror.Supervisor.{
  Reading, Watch, KillReason, exit_natural, stalled, ctx_cancel, start, do_kill, advise, decide,
  tick, bucket_for, Event, ticked, finished, cancelled, await, supervise, run_with_supervisor,
  report, report_if, Report, classify_exit, natural_exit, exit_code_for, WaitResult, second,
  any_moved, carry,
}
use selective_mirror.Supervisor.Stalls.{watch, Stalls, killed_iff_Stalls}

supervise-ticks :
    (recording : Bool) (verb : Text) (rs : List Reading) (w : Watch) (events : List Event)
    → supervise recording verb w (map ticked rs ++ events)
      ≡ supervise recording verb (watch recording verb w rs) events
unfolding supervise watch
supervise-ticks recording verb [] w events = refl
supervise-ticks recording verb (r ∷ rs) w events =
    supervise-ticks recording verb rs (tick recording verb r w) events

-- The loop before anything but ticks has come: a kill is one kill, and for a stall.
abbrev IsTicking : Watch → Type 0
IsTicking w =
    (w.killed ≡ true → (w.kill_reason ≡ stalled) × (w.kills ≡ 1))
    × (w.killed ≡ false → (w.kill_reason ≡ exit_natural) × (w.kills ≡ 0))

do_kill-IsTicking : (w : Watch) → IsTicking w → IsTicking (do_kill stalled w)
unfolding do_kill
do_kill-IsTicking w h =
    if_cases IsTicking w.killed _ _ (λ _. h)
      (λ alive. (λ _. (refl, ap suc (h.1 alive).1), λ f. absurd (cc)))

decide-IsTicking : (k : ℕ) (r : Reading) (w : Watch) → IsTicking w → IsTicking (decide k r w)
unfolding decide
decide-IsTicking k r w h =
    let n = if any_moved w.prev r then 0 else suc w.stall_counter in
    let w' = record w { prev = carry w.prev r; stall_counter = n } in
    if_cases IsTicking (leb k n) (do_kill stalled w') w' (λ _. do_kill-IsTicking w' h) (λ _. h)

advise-IsTicking :
    (recording : Bool) (verb : Text) (r : Reading) (w : Watch)
    → IsTicking w
    → IsTicking (advise recording verb r w)
unfolding advise
advise-IsTicking recording verb r w h =
    if_cases IsTicking
      (not w.ls_json_slow_emitted && (same verb (codes "lsjson") && ltb (60 * second) r.elapsed)) _
      _ (λ _. h) (λ _. h)

watch-IsTicking :
    (recording : Bool) (verb : Text) (rs : List Reading) (w : Watch)
    → IsTicking w
    → IsTicking (watch recording verb w rs)
unfolding watch tick
watch-IsTicking recording verb [] w h = h
watch-IsTicking recording verb (r ∷ rs) w h =
    watch-IsTicking recording verb rs (tick recording verb r w) (
      decide-IsTicking (bucket_for verb).k r (advise recording verb r w)
        (advise-IsTicking recording verb r w h))

do_kill-kind :
    (why : KillReason) (w : Watch)
    → ((do_kill why w).kill_reason ≡ (if w.killed then w.kill_reason else why))
      × ((do_kill why w).kills ≡ (if w.killed then w.kills else suc w.kills))
unfolding do_kill
do_kill-kind why w =
    if_cases
      (λ (v : Watch).
        (v.kill_reason ≡ (if w.killed then w.kill_reason else why))
        × (v.kills ≡ (if w.killed then w.kills else suc w.kills)))
      w.killed _ _
      (λ dead. (
        sym (if_true w.killed w.kill_reason why dead),
        sym (if_true w.killed w.kills (suc w.kills) dead),
      ))
      (λ live. (
        sym (if_false w.killed w.kill_reason why live),
        sym (if_false w.killed w.kills (suc w.kills) live),
      ))

-- How a run ends: by what decides it, with an exit code and a number of kills.
abbrev pub Reports : Option Report → ℤ → ℕ → Type 0
Reports o code kills =
    (rep : Report) × ((o ≡ some rep) × ((rep.exit_code ≡ code) × (rep.kills ≡ kills)))

module _ (recording : Bool) (verb : Text) (now : ℕ) (rs : List Reading) where
  abbrev Stalled : Type 0
  Stalled = Stalls (bucket_for verb).k (start now).prev rs

  abbrev at_end : Watch
  at_end = watch recording verb (start now) rs

  ticking : IsTicking at_end
  unfolding start
  ticking = watch-IsTicking recording verb rs (start now) (λ f. absurd (cc), λ _. (refl, refl))

  alive : (Stalled → ⊥) → at_end.killed ≡ false
  alive lively = elim (Bool-cases at_end.killed) [
    | inl dead ↦ absurd (lively ((killed_iff_Stalls recording verb now rs).0 dead))
    | inr alive_still ↦ alive_still
  ]

  -- A supervised process that comes to its end after the ticks `rs` was killed once and is reported
  -- as -2 if K consecutive ticks were still; else it was not killed and its own exit code is reported.
  pub run_with_supervisor-finished :
      (ended : WaitResult) (events : List Event)
      → let o =
          run_with_supervisor true recording verb now
            (map ticked rs ++ (finished ended ∷ events)) in
        (Stalled → Reports o (negsuc 1) 1) × ((Stalled → ⊥) → Reports o (natural_exit ended) 0)
  unfolding run_with_supervisor supervise report classify_exit
  run_with_supervisor-finished ended events =
      let ran = supervise-ticks recording verb rs (start now) (finished ended ∷ events) in
      let by = λ (why : KillReason). exit_code_for why ended in
      (
        λ stall.
            let (why, once) = ticking.0 ((killed_iff_Stalls recording verb now rs).1 stall) in
            (report recording at_end ended, (ran, (ap by why, once))),
        λ lively.
            let (why, never) = ticking.1 (alive lively) in
            (report recording at_end ended, (ran, (ap by why, never))),
      )

  -- A run that is cancelled after the ticks `rs` and then ends is killed once in all: it is reported
  -- as -2 if the stall came first, else as -3.
  pub run_with_supervisor-cancelled :
      (events : List Event) (ended : WaitResult)
      → await events ≡ some ended
      → let o =
          run_with_supervisor true recording verb now (map ticked rs ++ (cancelled ∷ events)) in
        (Stalled → Reports o (negsuc 1) 1) × ((Stalled → ⊥) → Reports o (negsuc 2) 1)
  unfolding run_with_supervisor supervise report classify_exit
  run_with_supervisor-cancelled events ended h =
      let w = do_kill ctx_cancel at_end in
      let ran =
        supervise-ticks recording verb rs (start now) (cancelled ∷ events)
        ∙ ap (λ o. report_if recording w o) h in
      let by = λ (why : KillReason). exit_code_for why ended in
      let (why_eq, kills_eq) = do_kill-kind ctx_cancel at_end in
      (
        λ stall.
            let dead = (killed_iff_Stalls recording verb now rs).1 stall in
            let (why, once) = ticking.0 dead in
            (
              report recording w ended,
              (
                ran,
                (
                  ap by (why_eq ∙ if_true at_end.killed at_end.kill_reason ctx_cancel dead ∙ why),
                  kills_eq ∙ if_true at_end.killed at_end.kills (suc at_end.kills) dead ∙ once,
                ),
              ),
            ),
        λ lively.
            let live = alive lively in
            let (why, never) = ticking.1 live in
            (
              report recording w ended,
              (
                ran,
                (
                  ap by (why_eq ∙ if_false at_end.killed at_end.kill_reason ctx_cancel live),
                  kills_eq
                      ∙ if_false at_end.killed at_end.kills (suc at_end.kills) live
                      ∙ ap suc never,
                ),
              ),
            ),
      )
