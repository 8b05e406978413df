-- ===== src/Sync/Full/Breaker.antt =====
-- internal/sync/sync.go: full syncs that fail one after the other, each perhaps in its own process.
use selective_mirror.Base.{
  ℕ, suc, ◌+◌, ◌≡◌, refl, sym, ap, subst, ◌∙◌, Bool, true, false, ◌&&◌, Option, none, some, List,
  [], ◌∷◌, arith, ltb, leb, ◌==◌, if◌then◌else◌, ==_iff, if_cases, if_true, if_false, length, Text,
  codes, same, same_refl,
}
use selective_mirror.Base.Int.{ℤ, pos, is_zero, int_eq}
use selective_mirror.Config.{Project}
use selective_mirror.Filter.Engine.{Libraries, Engine, has_bad_patterns}
use selective_mirror.Queue.{FairQueue}
use selective_mirror.Queue.Circuit.{record_failure, circuit_breaker_threshold}
use selective_mirror.Sync.{
  Env, World, AnomalyKind, sync_failure, circuit_breaker, state_error, sync_timeout, ghost_leak,
  ghost_orphan, ghost_stale, record_anomaly, log_action, run_rclone,
}
use selective_mirror.Sync.Locks.{add_one}
use selective_mirror.Sync.Walk.{Root}
use selective_mirror.Sync.Full.{
  Meta, counted, or_one, Setup, increment_meta_counter, record_persistent_full_sync_failure,
  full_sync_args, full_sync_done, full_sync_failed, full_sync_run, sync_full_project, rclone_exit,
  SyncError, malformed_patterns, full_sync_file,
}

abbrev pub is_breaker : AnomalyKind → Bool
is_breaker circuit_breaker = true
is_breaker state_error = false
is_breaker sync_failure = false
is_breaker sync_timeout = false
is_breaker ghost_leak = false
is_breaker ghost_orphan = false
is_breaker ghost_stale = false

-- How often the circuit breaker has been reported.
unfoldable pub trips : List (AnomalyKind × Text) → ℕ
trips [] = 0
trips ((kind, path) ∷ rest) = (if is_breaker kind then 1 else 0) + trips rest

-- One sync of the mirror for each queue: a process begins with its own.
unfoldable pub sync_each :
    Env → Libraries → Engine → Project → Root → Setup → List FairQueue → World × Meta → World × Meta
unfolding sync_full_project
sync_each env libs filter proj tree setup [] wm = wm
sync_each env libs filter proj tree setup (q ∷ qs) (w, m) =
    sync_each env libs filter proj tree setup qs
      (sync_full_project env libs (some filter) proj tree setup (record w { queue = q }, m)).0

-- Whether the count passes three between the two.
abbrev pub crossing : ℕ → ℕ → ℕ
crossing before after = if ltb before 3 && leb 3 after then 1 else 0

crossing-none : (c d : ℕ) → d ≡ c → crossing c d ≡ 0
crossing-none c d h = ground (arith, h)

crossing-add :
    (c k : ℕ) → crossing (suc c) (suc c + k) + crossing c (suc c) ≡ crossing c (c + suc k)
crossing-add c k = ground arith

-- After k failures from a count of c: the count is c + k, and the breaker is reported once if the
-- count has reached three in between.
abbrev pub Trips : Env → Project → ℕ → ℕ → World → World × Meta → Type 0
Trips env proj c k w (w', m') =
    (trips w'.anomalies ≡ crossing c (c + k) + trips w.anomalies)
    × (counted (m'.failures proj.name) ≡ pos (c + k))

module _ (env : Env) (proj : Project) (db_works : (n : ℕ) → env.db_fails n ≡ false) where
  log_action-anomalies :
      (name : Text) (w : World) → (log_action env [] name w).anomalies ≡ w.anomalies
  unfolding log_action record_anomaly
  log_action-anomalies name w =
      if_cases (λ (v : World). v.anomalies ≡ w.anomalies) (env.db_fails w.statements) _ _
        (λ bad. absurd (cc (bad, db_works w.statements))) (λ _. refl)

  abbrev Counted : ℕ → World → (World × Meta) × Option ℤ → Type 0
  Counted c w ((w', m'), answer) =
      (w'.anomalies ≡ w.anomalies)
      × (m'.failures proj.name ≡ some (pos (suc c)))
      × (answer ≡ some (pos (suc c)))

  increment-Counted :
      (c : ℕ) (w : World) (m : Meta)
      → counted (m.failures proj.name) ≡ pos c
      → Counted c w (increment_meta_counter env proj.name (w, m))
  unfolding increment_meta_counter
  increment-Counted c w m h =
      if_cases (Counted c w) (env.db_fails w.statements) _ _
        (λ bad. absurd (cc (bad, db_works w.statements)))
        (λ _. (
          refl,
          if_true (same proj.name proj.name) _ _ (same_refl proj.name)
              ∙ ap (λ n. some (add_one n)) h,
          ap (λ n. some (add_one n)) h,
        ))

  crossing-three :
      (c : ℕ) (n : ℤ)
      → n ≡ pos (suc c)
      → int_eq n (pos circuit_breaker_threshold) ≡ true
      → crossing c (suc c) ≡ 1
  unfolding int_eq
  crossing-three c n e h =
      let is_three : (suc c == 3) ≡ true = sym (ap (λ k. int_eq k (pos 3)) e) ∙ h in
      ground (arith, is_three)

  crossing-other :
      (c : ℕ) (n : ℤ)
      → n ≡ pos (suc c)
      → int_eq n (pos circuit_breaker_threshold) ≡ false
      → crossing c (suc c) ≡ 0
  unfolding int_eq
  crossing-other c n e h =
      let not_three : (suc c == 3) ≡ false = sym (ap (λ k. int_eq k (pos 3)) e) ∙ h in
      ground (arith, not_three)

  abbrev Failed : ℕ → World → World × Meta → Type 0
  Failed c w (w', m') =
      (trips w'.anomalies ≡ crossing c (suc c) + trips w.anomalies)
      × (m'.failures proj.name ≡ some (pos (suc c)))

  Failed-Failed :
      (c : ℕ) (w : World) (m : Meta)
      → counted (m.failures proj.name) ≡ pos c
      → Failed c w (full_sync_failed env proj (w, m))
  unfolding full_sync_failed record_persistent_full_sync_failure record_anomaly trips
  Failed-Failed c w m h =
      let logged = log_action env [] (codes "full_sync_error") w in
      let r = increment_meta_counter env proj.name (logged, m) in
      let (quiet, count, answer) = increment-Counted c logged m h in
      let told = record_anomaly sync_failure [] r.0.0 in
      let same_anomalies = quiet ∙ log_action-anomalies (codes "full_sync_error") w in
      let is_n : or_one r.1 ≡ pos (suc c) = ap or_one answer in
      if_cases
        (λ v. Failed c w (record v { queue = (record_failure env.now proj.name v.queue).0 }, r.0.1))
        (int_eq (or_one r.1) (pos circuit_breaker_threshold))
        (record_anomaly circuit_breaker [] told) told
        (λ third.
          (omega (arith, crossing-three c (or_one r.1) is_n third, ap trips same_anomalies), count))
        (λ other.
          (omega (arith, crossing-other c (or_one r.1) is_n other, ap trips same_anomalies), count))

  module _ (libs : Libraries) (filter : Engine) (tree : Root) (setup : Setup) (name : Text)
      (good : has_bad_patterns filter ≡ false)
      (current : setup.generation_after ≡ filter.generation)
      (written : setup.filter_file ≡ some name)
      (fails : (n : ℕ) → is_zero (env.exit_of n) ≡ false) where
    -- With nothing in its way, the sync calls rclone and fails.
    sync-fails :
        (w : World) (m : Meta)
        → (sync_full_project env libs (some filter) proj tree setup (w, m)).0
          ≡ full_sync_failed env proj
              ((run_rclone env (full_sync_args env.config proj setup name) w).0, m)
    unfolding sync_full_project full_sync_run run_rclone
    sync-fails w m =
        let called = (run_rclone env (full_sync_args env.config proj setup name) w).0 in
        let failed = full_sync_failed env proj (called, m) in
        let done = full_sync_done env libs filter proj tree (called, m) in
        let exit = env.exit_of (length w.calls) in
        ap (λ (r : (World × Meta) × Option SyncError). r.0)
          (if_false (has_bad_patterns filter) ((w, m), some malformed_patterns)
              (full_sync_file env libs filter proj tree setup setup.filter_file (w, m)) good
            ∙ ap (λ o. full_sync_file env libs filter proj tree setup o (w, m)) written
            ∙ if_true (setup.generation_after == filter.generation)
                (full_sync_run env libs filter proj tree setup name (w, m)) ((w, m), none)
                ((==_iff setup.generation_after filter.generation).1 current)
            ∙ if_false (is_zero exit) (done, none) (failed, some (rclone_exit exit))
                (fails (length w.calls)))

    each-Trips :
        (qs : List FairQueue) (c : ℕ) (w : World) (m : Meta)
        → counted (m.failures proj.name) ≡ pos c
        → Trips env proj c (length qs) w (sync_each env libs filter proj tree setup qs (w, m))
    unfolding sync_each run_rclone
    each-Trips [] c w m h =
        (omega (arith, crossing-none c (c + 0) (omega arith)), h ∙ ap pos (omega arith))
    each-Trips (q ∷ qs) c w m h =
        let started : World = record w { queue = q } in
        let args = full_sync_args env.config proj setup name in
        let called = (run_rclone env args started).0 in
        let wm' = full_sync_failed env proj (called, m) in
        let (told, count) = Failed-Failed c called m h in
        let (rest, total) = each-Trips qs (suc c) wm'.0 wm'.1 (ap counted count) in
        subst
          (λ (r : World × Meta).
            Trips env proj c (suc (length qs)) w (sync_each env libs filter proj tree setup qs r))
          (sym (sync-fails started m))
          (omega (arith, told, rest, crossing-add c (length qs)), total ∙ ap pos (omega arith))

-- The persistent counter trips the breaker over processes: with a database that works and a sound
-- filter that does not change, k full syncs of a mirror in a row that rclone fails, each with any
-- queue of its own, take the counter from c to c + k, and report the circuit breaker once if it
-- reaches three on the way, and not at all otherwise.
pub sync_each-Trips :
    (env : Env) (libs : Libraries) (filter : Engine) (proj : Project) (tree : Root) (setup : Setup)
    (name : Text) (qs : List FairQueue) (c : ℕ) (w : World) (m : Meta)
    → ((n : ℕ) → env.db_fails n ≡ false)
    → ((n : ℕ) → is_zero (env.exit_of n) ≡ false)
    → has_bad_patterns filter ≡ false
    → setup.generation_after ≡ filter.generation
    → setup.filter_file ≡ some name
    → counted (m.failures proj.name) ≡ pos c
    → Trips env proj c (length qs) w (sync_each env libs filter proj tree setup qs (w, m))
sync_each-Trips env libs filter proj tree setup name qs c w m db_works fails good current written =
    each-Trips env proj db_works libs filter tree setup name good current written fails qs c w m
