-- ===== src/Sync/Upload/Calls.antt =====
-- The rclone calls of syncSingleFile (internal/sync/sync.go).
use selective_mirror.Base.{
  ℕ, suc, ◌≡◌, refl, ◌∙◌, ◌⊎◌, inl, inr, true, false, Option, none, some, List, ◌∷◌, arith, ◌==◌,
  if◌then◌else◌, if_cases, length, Text, codes,
}
use selective_mirror.Base.Int.{ℤ, pos, is_zero}
use selective_mirror.Config.{Project, max_file_size}
use selective_mirror.Filter.Engine.{Libraries, Engine}
use selective_mirror.Queue.Circuit.{record_failure}
use selective_mirror.Store.{
  FileState, get_file_state, update_file_state, update_mtime_only, update_remote_verification,
  mark_remote_verification_stale,
}
use selective_mirror.Sync.{
  Env, World, sync_failure, sync_timeout, record_anomaly, execute, query, log_action, run_rclone,
}
use selective_mirror.Sync.Names.{remote_path}
use selective_mirror.Sync.Flags.{common_flags}
use selective_mirror.Sync.Steps.{log_action-Same, execute-Executed}
use selective_mirror.Sync.Upload.{
  Disk, Quiesced, stable, still_changing, gone_or_locked, is_filtered, escapes, exceeds, sync_mtime,
  verify_optimistically, is_timeout, record_upload_failure, record_upload, is_cancelled,
  is_transient, upload, is_swapped, is_unchanged, has_remote_content, sync_unchanged, skip_upload,
  upload_unless_swapped, row_of, decide_upload, sync_hashed, sync_quiesced, sync_single_file,
}

not_cancelled :
    (env : Env) (w : World) (exit : ℤ)
    → is_cancelled env (w, exit) ≡ false
    → env.cancelled (length w.calls) ≡ false
unfolding is_cancelled
not_cancelled env w exit h = ground arith

module _ (env : Env) (proj : Project) (path : Text) (disk : Disk) where
  abbrev pub touch : List Text
  touch =
      codes "touch"
      ∷ codes "--timestamp"
      ∷ disk.timestamp
      ∷ codes "--no-create"
      ∷ remote_path proj.remote path
      ∷ common_flags env.config proj

  abbrev pub copyto : List Text
  copyto =
      codes "copyto" ∷ disk.local_path ∷ remote_path proj.remote path ∷ common_flags env.config proj

  -- The calls of one sync: none, a touch, an upload, or an upload and its one retry, which follows
  -- an exit code 1 or 5 without a cancellation.
  abbrev pub Calls : World → World → Type 0
  Calls w w' =
      (w'.calls ≡ w.calls)
      ⊎ ((w'.calls ≡ touch ∷ w.calls)
          ⊎ ((w'.calls ≡ copyto ∷ w.calls)
              ⊎ ((w'.calls ≡ copyto ∷ copyto ∷ w.calls)
                  × ((is_transient (env.exit_of (length w.calls)) ≡ true)
                      × (env.cancelled (suc (length w.calls)) ≡ false)))))

  Keeps : World → World → Type 0
  Keeps w w' = w'.calls ≡ w.calls

  verify-Keeps :
      (hash : Text) (size : ℕ) (w : World)
      → Keeps w (verify_optimistically env proj path hash size w)
  unfolding Keeps verify_optimistically record_anomaly
  verify-Keeps hash size w =
      let set = update_remote_verification env.now proj.name path hash size in
      let clear = mark_remote_verification_stale proj.name path in
      let v = execute env set w in
      let c = execute env clear v.0 in
      let v_same = (execute-Executed env set w).0 in
      let c_same = (execute-Executed env clear v.0).0 ∙ v_same in
      if_cases (Keeps w) v.1 _ _ (λ _. v_same)
        (λ _. if_cases (Keeps w) c.1 _ _ (λ _. c_same) (λ _. c_same))

  failure-Keeps : (exit : ℤ) (w : World) → Keeps w (record_upload_failure env proj path exit w)
  unfolding Keeps record_upload_failure record_anomaly
  failure-Keeps exit w =
      let told =
        record_anomaly (if is_timeout exit then sync_timeout else sync_failure) path
          (log_action env path (codes "error") w) in
      let r = record_failure env.now proj.name told.queue in
      if_cases (Keeps w) r.1 _ _ (λ _. (log_action-Same env path (codes "error") w).0)
        (λ _. (log_action-Same env path (codes "error") w).0)

  record_upload-Keeps :
      (hash : Text) (size mtime : ℕ) (r : World × ℤ)
      → Keeps r.0 (record_upload env proj path disk hash size mtime r)
  unfolding Keeps record_upload
  record_upload-Keeps hash size mtime (w, exit) =
      let set = update_file_state env.now proj.name path hash size mtime exit in
      let written = (execute env set w).0 in
      let logged = log_action env path (codes "copy") written in
      let same = (execute-Executed env set w).0 in
      if_cases (Keeps w) (is_zero exit) _ _
        (λ _.
          verify-Keeps hash size logged
          ∙ (log_action-Same env path (codes "copy") written).0
          ∙ same)
        (λ _. failure-Keeps exit written ∙ same)

  upload-Calls :
      (hash : Text) (size mtime : ℕ) (w : World)
      → Calls w (upload env proj path disk hash size mtime w)
  unfolding upload run_rclone Keeps
  upload-Calls hash size mtime w =
      let first = run_rclone env copyto w in
      let retry = run_rclone env copyto first.0 in
      if_cases (Calls w) (is_cancelled env first) _ _ (λ _. inr (inr (inl refl)))
        (λ going.
          if_cases (Calls w) (is_transient first.1) _ _
            (λ transient.
              let live = not_cancelled env first.0 first.1 going in
              let again : (v : World) → v.calls ≡ retry.0.calls → Calls w v =
                λ v e. inr (inr (inr (e, (transient, live)))) in
              if_cases (Calls w) (is_cancelled env retry) _ _ (λ _. again retry.0 refl)
                (λ _.
                  again (record_upload env proj path disk hash size mtime retry)
                    (record_upload-Keeps hash size mtime retry)))
            (λ _. inr (inr (inl (record_upload-Keeps hash size mtime first)))))

  unswapped-Calls :
      (hash : Text) (size mtime : ℕ) (w : World)
      → Calls w (upload_unless_swapped env proj path disk hash size mtime w)
  unfolding upload_unless_swapped
  unswapped-Calls hash size mtime w =
      if_cases (Calls w) (is_swapped disk.is_regular) _ _
        (λ _. inl (log_action-Same env path (codes "toctou_aborted") w).0)
        (λ _. upload-Calls hash size mtime w)

  mtime-Calls :
      (hash : Text) (size mtime : ℕ) (w : World)
      → Calls w (sync_mtime env proj path disk hash size mtime w)
  unfolding sync_mtime run_rclone record_anomaly
  mtime-Calls hash size mtime w =
      let called = (run_rclone env touch w).0 in
      let set = update_file_state env.now proj.name path hash size mtime (pos 0) in
      let written = (execute env set called).0 in
      let same = (execute-Executed env set called).0 in
      if_cases (Calls w) (is_zero (env.exit_of (length w.calls))) _ _
        (λ _. inr (inl ((log_action-Same env path (codes "mtime_sync") written).0 ∙ same)))
        (λ _. inr (inl ((log_action-Same env path (codes "mtime_sync_error") written).0 ∙ same)))

  unchanged-Calls :
      (hash : Text) (size mtime : ℕ) (row : FileState) (w : World)
      → Calls w (sync_unchanged env proj path disk hash size mtime row w)
  unfolding sync_unchanged
  unchanged-Calls hash size mtime row w =
      if_cases (Calls w) (row.mtime_ns == 0) _ _
        (λ _. inl (execute-Executed env (update_mtime_only proj.name path mtime) w).0)
        (λ _.
          if_cases (Calls w) (row.mtime_ns == mtime) _ _ (λ _. inl refl)
            (λ _. mtime-Calls hash size mtime w))

  decide-Calls :
      (hash : Text) (size mtime : ℕ) (row : Option FileState) (w : World)
      → Calls w (decide_upload env proj path disk hash size mtime row w)
  unfolding decide_upload skip_upload
  decide-Calls hash size mtime none w = unswapped-Calls hash size mtime w
  decide-Calls hash size mtime (some row) w =
      let set = update_file_state env.now proj.name path hash size mtime (pos 0) in
      let written = (execute env set w).0 in
      if_cases (Calls w) (is_unchanged hash row) _ _ (λ _. unchanged-Calls hash size mtime row w)
        (λ _.
          if_cases (Calls w) (has_remote_content hash row) _ _
            (λ _. inl (
              (log_action-Same env path (codes "skip_hash_match") written).0
              ∙ (execute-Executed env set w).0))
            (λ _. unswapped-Calls hash size mtime w))

  hashed-Calls :
      (mtime : ℕ) (hashed : Option (Text × ℕ)) (w : World)
      → Calls w (sync_hashed env proj path disk mtime hashed w)
  unfolding sync_hashed query
  hashed-Calls mtime none w = inl (log_action-Same env path (codes "error") w).0
  hashed-Calls mtime (some (hash, size)) w =
      let asked = record w { statements = suc w.statements } in
      if_cases
        (λ (r : World × Option (Option FileState)).
          Calls w (decide_upload env proj path disk hash size mtime (row_of r.1) r.0))
        (env.db_fails w.statements) _ _ (λ _. decide-Calls hash size mtime none asked)
        (λ _. decide-Calls hash size mtime (get_file_state proj.name path w.rows) asked)

  quiesced-Calls :
      (quiesced : Quiesced) (w : World) → Calls w (sync_quiesced env proj path disk quiesced w)
  unfolding sync_quiesced
  quiesced-Calls still_changing w = inl refl
  quiesced-Calls gone_or_locked w = inl (log_action-Same env path (codes "skip_gone") w).0
  quiesced-Calls (stable size mtime) w =
      if_cases (Calls w) (exceeds size (max_file_size proj)) _ _
        (λ _. inl (log_action-Same env path (codes "skip_size") w).0)
        (λ _. hashed-Calls mtime disk.hashed w)

  -- Whatever the disk, the filter, the database and rclone answer, the sync of one file makes no
  -- rclone call, or one touch, or one upload, or two uploads with the same arguments: the second is
  -- the only retry, and comes only after an exit code of 1 or 5 and no cancellation.
  pub sync_single_file-Calls :
      (libs : Libraries) (filter : Option Engine) (w : World)
      → Calls w (sync_single_file env libs filter proj path disk w)
  unfolding sync_single_file record_anomaly
  sync_single_file-Calls libs filter w =
      if_cases (Calls w) (is_filtered libs filter path) _ _ (λ _. inl refl)
        (λ _.
          if_cases (Calls w) (escapes disk.abs_local disk.abs_project) _ _ (λ _. inl refl)
            (λ _. quiesced-Calls disk.quiesced w))
