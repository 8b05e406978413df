-- ===== src/Sync/Ghosts/Policy.antt =====
-- What CleanupGhosts does behind the remote under each delete policy (internal/sync/sync.go).
use selective_mirror.Base.{
  ℕ, ◌≡◌, refl, sym, ap, ◌∙◌, ◌⊎◌, inl, inr, Bool, true, false, ◌||◌, List, [], ◌∷◌, ◌++◌,
  append_assoc, if◌then◌else◌, if_cases, length, any, All, All-append, Text, codes, same, is_empty,
}
use selective_mirror.Base.Int.{pos, is_zero, int_eq}
use selective_mirror.Config.{Project, DeletePolicy, ignore, delete, quarantine, delete_policy}
use selective_mirror.Filter.Engine.{Libraries, Engine, is_excluded}
use selective_mirror.Paths.{dir}
use selective_mirror.Sync.{Env, World, AnomalyKind, record_anomaly, run_rclone, log_action}
use selective_mirror.Sync.Flags.{delete_flags}
use selective_mirror.Sync.Steps.{log_action-Same}
use selective_mirror.Sync.Ghosts.{
  GhostKind, GhostFile, RemoteFile, is_leak, find_ghosts, behind, deletefile, cleaned,
  delete_parent, mirror_ghost, quarantine_ghost, ghost_policy, clean_by, cleanup_each, note_kind,
  record_ghost_anomalies, cleanup_ghosts,
}
use selective_mirror.Sync.Ghosts.Leaks.{Listed, IsGhost, cleaned-calls, find_ghosts-Found}

note_kind-calls :
    (is_kind : GhostKind → Bool) (anomaly : AnomalyKind) (ghosts : List GhostFile) (w : World)
    → (note_kind is_kind anomaly ghosts w).calls ≡ w.calls
unfolding record_anomaly
note_kind-calls is_kind anomaly ghosts w =
    if_cases (λ (v : World). v.calls ≡ w.calls) (any (λ (g : GhostFile). is_kind g.kind) ghosts)
      (record_anomaly anomaly [] w) w (λ _. refl) (λ _. refl)

pub record_ghost_anomalies-calls :
    (ghosts : List GhostFile) (w : World) → (record_ghost_anomalies ghosts w).calls ≡ w.calls
unfolding record_ghost_anomalies
record_ghost_anomalies-calls ghosts w =
    note_kind-calls _ _ ghosts _ ∙ note_kind-calls _ _ ghosts _ ∙ note_kind-calls _ _ ghosts w

module _ (env : Env) (libs : Libraries) (filter : Engine) (proj : Project)
    (locals : List Text) where
  -- The file goes for good: the filter excludes it, or the policy is delete.
  abbrev pub IsDeletable : Text → Type 0
  IsDeletable path =
      (is_excluded libs filter path ≡ true) ⊎ (delete_policy proj env.config ≡ delete)

  abbrev pub no_parent : Text → Bool
  no_parent path = same (dir path) (codes ".") || is_empty (dir path)

  -- Rclone answers a call with exit code 4.
  abbrev pub AnswersFour : Type 0
  AnswersFour = (n : ℕ) × (int_eq (env.exit_of n) (pos 4) ≡ true)

  -- The file alone, or the directory that it stands in, where rclone has answered a call with 4.
  abbrev pub Deletes : Text → List Text → Type 0
  Deletes path args =
      (args ≡ codes "deletefile" ∷ behind proj path ∷ delete_flags env.config proj)
      ⊎ ((no_parent path ≡ false)
          × AnswersFour
          × (args
              ≡ codes "delete"
                ∷ behind proj (dir path)
                ∷ codes "--rmdirs"
                ∷ delete_flags env.config proj))

  abbrev pub Quarantines : Text → List Text → Type 0
  Quarantines path args =
      (stamp : Text) × (args
        ≡ codes "moveto"
          ∷ behind proj path
          ∷ ((behind proj (codes ".quarantine/" ++ path) ++ codes ".") ++ stamp)
          ∷ delete_flags env.config proj)

  abbrev pub Permitted : List RemoteFile → List Text → Type 0
  Permitted listing args =
      (path : Text) × (Listed env libs filter proj locals listing path
        × ((IsDeletable path × Deletes path args)
            ⊎ ((delete_policy proj env.config ≡ quarantine) × Quarantines path args)))

  abbrev pub Within : List RemoteFile → World → World → Type 0
  Within listing w w' =
      (new : List (List Text)) × ((w'.calls ≡ new ++ w.calls) × All (Permitted listing) new)

  one_call :
      (listing : List RemoteFile) (args : List Text) (w w' : World)
      → w'.calls ≡ args ∷ w.calls
      → Permitted listing args
      → Within listing w w'
  one_call listing args w w' e h = (args ∷ [], (e, (h, tt)))

  no_call : (listing : List RemoteFile) (w w' : World) → w'.calls ≡ w.calls → Within listing w w'
  no_call listing w w' e = ([], (e, tt))

  Within-trans :
      (listing : List RemoteFile) (w w' w'' : World)
      → Within listing w w'
      → Within listing w' w''
      → Within listing w w''
  Within-trans listing w w' w'' (new, (e, all)) (more, (e', all')) = (
    more ++ new,
    (
      e' ∙ ap (λ cs. more ++ cs) e ∙ sym (append_assoc more new w.calls),
      All-append (Permitted listing) more new all' all,
    ),
  )

  module _ (listing : List RemoteFile) (g : GhostFile)
      (listed : Listed env libs filter proj locals listing g.path) where
    delete_parent-Within :
        IsDeletable g.path
        → AnswersFour
        → (w : World) → Within listing w (delete_parent env proj g w).0
    unfolding delete_parent run_rclone
    delete_parent-Within deletable four w =
        let args =
          codes "delete"
          ∷ behind proj (dir g.path)
          ∷ codes "--rmdirs"
          ∷ delete_flags env.config proj in
        let r = run_rclone env args w in
        let done = cleaned env proj (codes "ghost_cleanup") g r.0 in
        let Ok = λ (v : World × ℕ). Within listing w v.0 in
        if_cases Ok (no_parent g.path) (w, 0) (if is_zero r.1 then done else (r.0, 0))
          (λ _. no_call listing w w refl)
          (λ inside.
            let permitted : Permitted listing args =
              (g.path, (listed, inl (deletable, inr (inside, four, refl)))) in
            if_cases Ok (is_zero r.1) done (r.0, 0)
              (λ _.
                one_call listing args w done.0
                  (cleaned-calls env libs filter proj locals (codes "ghost_cleanup") g r.0)
                  permitted)
              (λ _. one_call listing args w r.0 refl permitted))

    mirror_ghost-Within :
        IsDeletable g.path → (w : World) → Within listing w (mirror_ghost env proj g w).0
    unfolding mirror_ghost deletefile run_rclone
    mirror_ghost-Within deletable w =
        let args = codes "deletefile" ∷ behind proj g.path ∷ delete_flags env.config proj in
        let r = run_rclone env args w in
        let done = cleaned env proj (codes "ghost_cleanup") g r.0 in
        let parent = delete_parent env proj g r.0 in
        let Ok = λ (v : World × ℕ). Within listing w v.0 in
        let permitted : Permitted listing args = (g.path, (listed, inl (deletable, inl refl))) in
        let called = one_call listing args w r.0 refl permitted in
        if_cases Ok (is_zero r.1) done (if int_eq r.1 (pos 4) then parent else (r.0, 0))
          (λ _.
            one_call listing args w done.0
              (cleaned-calls env libs filter proj locals (codes "ghost_cleanup") g r.0) permitted)
          (λ _.
            if_cases Ok (int_eq r.1 (pos 4)) parent (r.0, 0)
              (λ four.
                Within-trans listing w r.0 parent.0 called
                  (delete_parent-Within deletable (length w.calls, four) r.0))
              (λ _. called))

    quarantine_ghost-Within :
        delete_policy proj env.config ≡ quarantine
        → (w : World) → Within listing w (quarantine_ghost env proj g w).0
    unfolding quarantine_ghost run_rclone
    quarantine_ghost-Within policy w =
        let stamp = env.stamp (length w.calls) in
        let args =
          codes "moveto"
          ∷ behind proj g.path
          ∷ ((behind proj (codes ".quarantine/" ++ g.path) ++ codes ".") ++ stamp)
          ∷ delete_flags env.config proj in
        let r = run_rclone env args w in
        let done = cleaned env proj (codes "ghost_quarantined") g r.0 in
        let permitted : Permitted listing args = (g.path, (listed, inr (policy, (stamp, refl)))) in
        if_cases (λ (v : World × ℕ). Within listing w v.0) (is_zero r.1) done (r.0, 0)
          (λ _.
            one_call listing args w done.0
              (cleaned-calls env libs filter proj locals (codes "ghost_quarantined") g r.0)
              permitted)
          (λ _. one_call listing args w r.0 refl permitted)

    clean_by-Within :
        (is_leak g.kind ≡ true → is_excluded libs filter g.path ≡ true)
        → (p : DeletePolicy) → ghost_policy (delete_policy proj env.config) g.kind ≡ p
        → (w : World) → Within listing w (clean_by env proj p g w).0
    clean_by-Within excluded ignore e w =
        no_call listing w (log_action env g.path (codes "ghost_retained") w)
          (log_action-Same env g.path (codes "ghost_retained") w).0
    clean_by-Within excluded quarantine e w =
        quarantine_ghost-Within
          (if_cases (λ q. q ≡ quarantine → delete_policy proj env.config ≡ quarantine)
            (is_leak g.kind) delete (delete_policy proj env.config) (λ _ e'. absurd (cc e'))
            (λ _ e'. e') e)
          w
    clean_by-Within excluded delete e w =
        mirror_ghost-Within
          (if_cases (λ q. q ≡ delete → IsDeletable g.path) (is_leak g.kind) delete
            (delete_policy proj env.config) (λ is_one _. inl (excluded is_one)) (λ _ e'. inr e') e)
          w

  cleanup_each-Within :
      (listing : List RemoteFile) (gs : List GhostFile) (w : World)
      → All (IsGhost env libs filter proj locals listing) gs
      → Within listing w (cleanup_each env proj gs w).0
  unfolding cleanup_each
  cleanup_each-Within listing [] w h = no_call listing w w refl
  cleanup_each-Within listing (g ∷ gs) w ((listed, excluded), hs) =
      let p = ghost_policy (delete_policy proj env.config) g.kind in
      let w' = (clean_by env proj p g w).0 in
      Within-trans listing w w' (cleanup_each env proj gs w').0
        (clean_by-Within listing g listed excluded p refl w) (cleanup_each-Within listing gs w' hs)

  -- Every call of CleanupGhosts, whatever rclone and the database answer, is for a path that the
  -- listing of the remote has outside .quarantine and that has no local counterpart. Either the call
  -- deletes that file, or with --rmdirs the directory it stands in but never the top of the project
  -- and only where rclone has an answer with exit code 4, and the filter excludes the path or the delete policy is delete; or the call moves the file into
  -- .quarantine, and the policy is quarantine.
  pub cleanup_ghosts-Within :
      (listing : List RemoteFile) (w : World)
      → Within listing w (cleanup_ghosts env libs filter proj locals listing w).0
  unfolding cleanup_ghosts
  cleanup_ghosts-Within listing w =
      let r = find_ghosts env libs filter proj locals listing w in
      let (same_calls, ghosts) = find_ghosts-Found env libs filter proj locals listing w in
      let w' = record_ghost_anomalies r.1 r.0 in
      Within-trans listing w w' (cleanup_each env proj r.1 w').0
        (no_call listing w w' (record_ghost_anomalies-calls r.1 r.0 ∙ same_calls))
        (cleanup_each-Within listing r.1 w' ghosts)
