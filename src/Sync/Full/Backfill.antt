-- ===== src/Sync/Full/Backfill.antt =====
-- internal/sync/sync.go: the backfill after a batch sync calls no rclone.
use selective_mirror.Base.{
  ℕ, ◌≡◌, refl, ◌∙◌, not, Option, none, some, if◌then◌else◌, if_cases, Text,
}
use selective_mirror.Base.Int.{pos}
use selective_mirror.Config.{Project, max_file_size}
use selective_mirror.Filter.Engine.{Libraries, Engine, is_excluded}
use selective_mirror.Paths.{to_slash}
use selective_mirror.Store.{FileState, get_file_state, update_file_state, clear_stale_exit_codes}
use selective_mirror.Sync.{Env, World, query}
use selective_mirror.Sync.Steps.{query-Same, execute-Executed}
use selective_mirror.Sync.Upload.{row_of, exceeds}
use selective_mirror.Sync.Walk.{
  FileFacts, Node, Nodes, Root, file, directory, failed, no_nodes, node, root, no_root,
  is_skipped_dir, Tally, hash_file, add_row, unless_tracked, backfill_file, backfill_at,
  backfill_in, backfill_state_after_batch_sync,
}

module _ (env : Env) (libs : Libraries) (filter : Engine) (proj : Project) where
  abbrev NoCall : World × Tally → World × Tally → Type 0
  NoCall (w, t) (w', t') = w'.calls ≡ w.calls

  hash_file-NoCall :
      (path : Text) (size mtime : ℕ) (hash : Option Text) (wt : World × Tally)
      → NoCall wt (hash_file env proj path size mtime hash wt)
  hash_file-NoCall path size mtime none (w, t) = refl
  hash_file-NoCall path size mtime (some hash) (w, t) =
      (execute-Executed env (update_file_state env.now proj.name path hash size mtime (pos 0)) w).0

  add_row-NoCall :
      (path : Text) (facts : FileFacts) (info : Option (ℕ × ℕ)) (wt : World × Tally)
      → NoCall wt (add_row env proj path facts info wt)
  add_row-NoCall path facts none (w, t) = refl
  add_row-NoCall path facts (some (size, mtime)) (w, t) =
      if_cases (NoCall (w, t)) (exceeds size (max_file_size proj)) (w, t)
        (hash_file env proj path size mtime facts.hashed (w, t)) (λ _. refl)
        (λ _. hash_file-NoCall path size mtime facts.hashed (w, t))

  unless_tracked-NoCall :
      (path : Text) (facts : FileFacts) (row : Option FileState) (wt : World × Tally)
      → NoCall wt (unless_tracked env proj path facts row wt)
  unless_tracked-NoCall path facts (some row) (w, t) = refl
  unless_tracked-NoCall path facts none wt = add_row-NoCall path facts facts.info wt

  backfill_file-NoCall :
      (path : Text) (facts : FileFacts) (wt : World × Tally)
      → NoCall wt (backfill_file env libs filter proj path facts wt)
  unfolding backfill_file
  backfill_file-NoCall path facts (w, t) =
      let asked = query env (get_file_state proj.name path) w in
      let tracked = unless_tracked env proj path facts (row_of asked.1) (asked.0, t) in
      if_cases (NoCall (w, t)) (not facts.is_regular) (w, t)
        (if is_excluded libs filter path then (w, t) else tracked) (λ _. refl)
        (λ _.
          if_cases (NoCall (w, t)) (is_excluded libs filter path) (w, t) tracked (λ _. refl)
            (λ _.
              unless_tracked-NoCall path facts (row_of asked.1) (asked.0, t)
              ∙ (query-Same env (get_file_state proj.name path) w).0))

  mutual
    unfolding backfill_at backfill_in

    at-NoCall : (n : Node) (wt : World × Tally) → NoCall wt (backfill_at env libs filter proj n wt)
    at-NoCall (file path facts) wt = backfill_file-NoCall (to_slash path) facts wt
    at-NoCall (directory path is_reparse nodes) (w, t) =
        if_cases (NoCall (w, t)) (is_skipped_dir libs filter (to_slash path) is_reparse) (w, t)
          (backfill_in env libs filter proj nodes (w, t)) (λ _. refl) (λ _. in-NoCall nodes (w, t))
    at-NoCall failed (w, t) = refl

    in-NoCall :
        (ns : Nodes) (wt : World × Tally) → NoCall wt (backfill_in env libs filter proj ns wt)
    in-NoCall no_nodes (w, t) = refl
    in-NoCall (node n ns) (w, t) =
        in-NoCall ns (backfill_at env libs filter proj n (w, t)) ∙ at-NoCall n (w, t)

  pub backfill-calls :
      (tree : Root) (w : World)
      → (backfill_state_after_batch_sync env libs filter proj tree w).0.calls ≡ w.calls
  unfolding backfill_state_after_batch_sync
  backfill-calls (root nodes) w =
      let t : Tally = record { files = 0; bytes = 0 } in
      let w' = (backfill_in env libs filter proj nodes (w, t)).0 in
      (execute-Executed env (clear_stale_exit_codes proj.name) w').0 ∙ in-NoCall nodes (w, t)
  backfill-calls no_root w = (execute-Executed env (clear_stale_exit_codes proj.name) w).0
