-- ===== src/Sync/Full/Refusals.antt =====
-- internal/sync/sync.go: what each answer of syncFullProject says of what it did.
use selective_mirror.Base.{
  ◌≡◌, refl, ◌∙◌, ◌⊎◌, inl, inr, true, false, Option, none, some, List, [], ◌∷◌, ◌==◌, ==_iff,
  if_cases, length, Text, codes, put,
}
use selective_mirror.Base.Int.{ℤ, pos, is_zero, int_eq}
use selective_mirror.Config.{Project}
use selective_mirror.Filter.Engine.{Libraries, Engine, has_bad_patterns}
use selective_mirror.Queue.Circuit.{record_failure, record_success, circuit_breaker_threshold}
use selective_mirror.Sync.{
  Env, World, sync_failure, circuit_breaker, record_anomaly, log_action, run_rclone,
}
use selective_mirror.Sync.Steps.{Same, log_action-Same}
use selective_mirror.Sync.Walk.{Root}
use selective_mirror.Sync.Full.Backfill.{backfill-calls}
use selective_mirror.Sync.Full.{
  Meta, SyncError, no_filter_engine, malformed_patterns, filter_file_failed, rclone_exit, Setup,
  set_meta, reset_persistent_full_sync_failures, or_one, increment_meta_counter,
  record_persistent_full_sync_failure, full_sync_args, full_sync_done, full_sync_failed,
  full_sync_run, full_sync_file, sync_full_project,
}

-- The one call, with a filter file of rules that are well-formed and still the current ones.
abbrev pub IsCall : Env → Project → Setup → Option Engine → List Text → Type 0
IsCall env proj setup filter args =
    (engine : Engine) × (name : Text) × (filter ≡ some engine)
    × (has_bad_patterns engine ≡ false)
    × (setup.generation_after ≡ engine.generation)
    × (setup.filter_file ≡ some name)
    × (args ≡ full_sync_args env.config proj setup name)

-- Whether the answer is an error that rclone gave.
abbrev pub Honest :
    Env
    → Project
    → Setup
    → Option Engine
    → World × Meta
    → (World × Meta) × Option SyncError
    → Type 0
Honest env proj setup filter (w, m) (wm', none) =
    (wm' ≡ (w, m))
    ⊎ ((is_zero (env.exit_of (length w.calls)) ≡ true)
        × ((args : List Text) × ((wm'.0.calls ≡ args ∷ w.calls)
              × IsCall env proj setup filter args)))
Honest env proj setup filter (w, m) (wm', some (rclone_exit exit)) =
    (env.exit_of (length w.calls) ≡ exit)
    × ((is_zero exit ≡ false)
        × ((wm'.0.rows ≡ w.rows)
            × ((args : List Text) × ((wm'.0.calls ≡ args ∷ w.calls)
                  × IsCall env proj setup filter args))))
Honest env proj setup filter (w, m) (wm', some no_filter_engine) = wm' ≡ (w, m)
Honest env proj setup filter (w, m) (wm', some malformed_patterns) = wm' ≡ (w, m)
Honest env proj setup filter (w, m) (wm', some filter_file_failed) = wm' ≡ (w, m)

set_meta-Same :
    (env : Env) (f : Meta → Meta) (w : World) (m : Meta) → Same w (set_meta env f (w, m)).0
unfolding set_meta
set_meta-Same env f w m =
    if_cases (λ (r : World × Meta). Same w r.0) (env.db_fails w.statements) _ _ (λ _. (refl, refl))
      (λ _. (refl, refl))

full_sync_done-calls :
    (env : Env) (libs : Libraries) (filter : Engine) (proj : Project) (tree : Root) (w : World)
    (m : Meta)
    → (full_sync_done env libs filter proj tree (w, m)).0.calls ≡ w.calls
unfolding full_sync_done reset_persistent_full_sync_failures
full_sync_done-calls env libs filter proj tree w m =
    let logged = log_action env [] (codes "full_sync") w in
    let date = λ (m : Meta). record m { last_full_sync = put proj.name env.now m.last_full_sync } in
    let zero_it = λ (m : Meta). record m { failures = put proj.name (pos 0) m.failures } in
    let dated = set_meta env date (logged, m) in
    let cleared = set_meta env zero_it dated in
    let closed : World = record cleared.0 { queue = record_success proj.name cleared.0.queue } in
    backfill-calls env libs filter proj tree closed
    ∙ (set_meta-Same env zero_it dated.0 dated.1).0
    ∙ (set_meta-Same env date logged m).0
    ∙ (log_action-Same env [] (codes "full_sync") w).0

increment-Same :
    (env : Env) (project : Text) (w : World) (m : Meta)
    → Same w (increment_meta_counter env project (w, m)).0.0
unfolding increment_meta_counter
increment-Same env project w m =
    if_cases (λ (r : (World × Meta) × Option ℤ). Same w r.0.0) (env.db_fails w.statements) _ _
      (λ _. (refl, refl)) (λ _. (refl, refl))

full_sync_failed-Same :
    (env : Env) (proj : Project) (w : World) (m : Meta)
    → Same w (full_sync_failed env proj (w, m)).0
unfolding full_sync_failed record_persistent_full_sync_failure record_anomaly
full_sync_failed-Same env proj w m =
    let logged = log_action env [] (codes "full_sync_error") w in
    let r = increment_meta_counter env proj.name (logged, m) in
    let told = record_anomaly sync_failure [] r.0.0 in
    let was = log_action-Same env [] (codes "full_sync_error") w in
    let now = increment-Same env proj.name logged m in
    let same_told : Same w told = (now.0 ∙ was.0, now.1 ∙ was.1) in
    if_cases (λ v. Same w (record v { queue = (record_failure env.now proj.name v.queue).0 }))
      (int_eq (or_one r.1) (pos circuit_breaker_threshold)) (record_anomaly circuit_breaker [] told)
      told (λ _. same_told) (λ _. same_told)

module _ (env : Env) (libs : Libraries) (proj : Project) (tree : Root) (setup : Setup) where
  run-Honest :
      (filter : Engine) (name : Text) (w : World) (m : Meta)
      → has_bad_patterns filter ≡ false
      → setup.generation_after ≡ filter.generation
      → setup.filter_file ≡ some name
      → Honest env proj setup
          (some filter)
          (w, m)
          (full_sync_run env libs filter proj tree setup name (w, m))
  unfolding full_sync_run run_rclone
  run-Honest filter name w m good current written =
      let args = full_sync_args env.config proj setup name in
      let called = (run_rclone env args w).0 in
      let exit = env.exit_of (length w.calls) in
      let is_call : IsCall env proj setup (some filter) args =
        (filter, name, refl, good, current, written, refl) in
      if_cases (Honest env proj setup (some filter) (w, m)) (is_zero exit)
        (full_sync_done env libs filter proj tree (called, m), none)
        (full_sync_failed env proj (called, m), some (rclone_exit exit))
        (λ ok. inr (ok, (args, (full_sync_done-calls env libs filter proj tree called m, is_call))))
        (λ bad.
          let unchanged = full_sync_failed-Same env proj called m in
          (refl, (bad, (unchanged.1, (args, (unchanged.0, is_call))))))

  file-Honest :
      (filter : Engine) (file : Option Text) (w : World) (m : Meta)
      → has_bad_patterns filter ≡ false
      → setup.filter_file ≡ file
      → Honest env proj setup
          (some filter)
          (w, m)
          (full_sync_file env libs filter proj tree setup file (w, m))
  file-Honest filter none w m good written = refl
  file-Honest filter (some name) w m good written =
      if_cases (Honest env proj setup (some filter) (w, m))
        (setup.generation_after == filter.generation)
        (full_sync_run env libs filter proj tree setup name (w, m)) ((w, m), none)
        (λ current.
          run-Honest filter name w m good
            ((==_iff setup.generation_after filter.generation).0 current) written)
        (λ _. inl refl)

  -- What syncFullProject answers is what it did, on every branch. No error: the sync was skipped and
  -- nothing changed, or rclone was called once and returned 0. An rclone error: rclone was called once
  -- and returned that exit code, not 0, and the rows are as they were. Any other error: nothing
  -- changed. The one call is made only with a filter file that could be written, of a filter with no
  -- malformed pattern whose generation has not changed meanwhile.
  pub sync_full_project-Honest :
      (filter : Option Engine) (w : World) (m : Meta)
      → Honest env proj setup filter
          (w, m)
          (sync_full_project env libs filter proj tree setup (w, m))
  unfolding sync_full_project
  sync_full_project-Honest none w m = refl
  sync_full_project-Honest (some filter) w m =
      if_cases (Honest env proj setup (some filter) (w, m)) (has_bad_patterns filter)
        ((w, m), some malformed_patterns)
        (full_sync_file env libs filter proj tree setup setup.filter_file (w, m)) (λ _. refl)
        (λ good. file-Honest filter setup.filter_file w m good refl)
