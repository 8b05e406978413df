-- ===== src/Sync/Delete.antt =====
-- internal/sync/sync.go: deleteRemoteFile and deleteRemoteDir. The two call each other, on fuel:
-- `none` is a call too deep.
pub mod Preserve
pub mod Present
pub mod Total
pub mod Reach
pub mod Removal
mod Tests
use selective_mirror.Base.{
  ℕ, zero, suc, ◌+◌, ◌/◌, Bool, true, false, Option, none, some, List, [], ◌∷◌, ◌++◌, if◌then◌else◌,
  length, Text, codes,
}
use selective_mirror.Base.Int.{ℤ, is_zero}
use selective_mirror.Config.{Project, DeletePolicy, ignore, delete, quarantine, delete_policy}
use selective_mirror.Store.{FileState, get_file_state, get_files_under_dir}
use selective_mirror.Sync.{
  Env, World, sync_failure, record_anomaly, query, log_action, forget_file_state, run_rclone,
}
use selective_mirror.Sync.Names.{is_unsafe_rel_path, remote_path}
use selective_mirror.Sync.Flags.{delete_flags}

-- The policy of a delete: the forced one is always a mirror delete.
unfoldable pub policy_of : Env → Project → Bool → DeletePolicy
unfolding delete_policy
policy_of env proj force = if force then delete else delete_policy proj env.config

-- What follows an rclone call on one path: the row goes where the exit code is 0.
unfoldable pub settle : Env → Project → Text → Text → Text → World × ℤ → World
unfolding log_action forget_file_state
settle env proj path done failed (w, exit) =
    if is_zero exit
    then forget_file_state env proj.name path (log_action env path done w)
    else log_action env path failed w

unfoldable pub delete_on_remote : Env → Project → Text → World → World
unfolding run_rclone settle delete_flags
delete_on_remote env proj path w = settle env proj path (codes "delete") (codes "delete_error") (
    run_rclone env
      (codes "deletefile" ∷ remote_path proj.remote path ∷ delete_flags env.config proj) w)

unfoldable pub quarantine_path : Project → Text → Text → Text
quarantine_path proj path stamp =
    (remote_path (proj.remote ++ codes "/.quarantine") path ++ codes ".") ++ stamp

unfoldable pub quarantine_on_remote : Env → Project → Text → World → World
unfolding run_rclone settle delete_flags quarantine_path
quarantine_on_remote env proj path w =
    settle env proj path (codes "quarantine") (codes "quarantine_error") (
      run_rclone env
        (codes "moveto"
          ∷ remote_path proj.remote path
          ∷ quarantine_path proj path (env.stamp (length w.calls))
          ∷ delete_flags env.config proj)
        w)

-- What is done for a path that has a row.
unfoldable pub delete_tracked : Env → Project → Text → DeletePolicy → World → World
unfolding delete_on_remote quarantine_on_remote log_action
delete_tracked env proj path ignore w = log_action env path (codes "delete_ignored") w
delete_tracked env proj path delete w = delete_on_remote env proj path w
delete_tracked env proj path quarantine w = quarantine_on_remote env proj path w

unfoldable pub forget_all : Env → Text → List Text → World → World
unfolding forget_file_state
forget_all env project [] w = w
forget_all env project (f ∷ fs) w = forget_all env project fs (forget_file_state env project f w)

-- rclone purge of a directory, with its exit code.
unfoldable pub purge : Env → Project → Text → World → World × ℤ
unfolding run_rclone delete_flags
purge env proj dir w =
    run_rclone env (codes "purge" ∷ remote_path proj.remote dir ∷ delete_flags env.config proj) w

-- The loop over the files of a directory.
unfoldable pub each_file : (Text → World → Option World) → List Text → World → Option World
each_file step [] w = some w
each_file step (f ∷ fs) w = elim (step f w) [ none ↦ none | some w' ↦ each_file step fs w' ]

-- The purge of a directory that has files, or their deletion one by one where it fails.
unfoldable pub purge_dir :
    (Text → World → Option World) → Env → Project → Text → List Text → World → Option World
unfolding purge forget_all log_action each_file
purge_dir step env proj dir files w =
    let (w', exit) = purge env proj dir w in
    let fallback = each_file step files w' in
    if is_zero exit
    then some (log_action env dir (codes "dir_purge") (forget_all env proj.name files w'))
    else fallback

-- What deleteRemoteDir does with the answer to its query.
abbrev pub clean_dir :
    (Text → World → Option World)
    → Env
    → Project
    → Text
    → DeletePolicy
    → Option (List Text)
    → World
    → Option World
clean_dir step env proj dir policy none w = some w
clean_dir step env proj dir policy (some []) w = some w
clean_dir step env proj dir delete (some (f ∷ fs)) w = purge_dir step env proj dir (f ∷ fs) w
clean_dir step env proj dir quarantine (some (f ∷ fs)) w = each_file step (f ∷ fs) w
clean_dir step env proj dir ignore (some (f ∷ fs)) w = some w

abbrev pub is_ignore : DeletePolicy → Bool
is_ignore ignore = true
is_ignore delete = false
is_ignore quarantine = false

-- deleteRemoteDir, over the deleteRemoteFile that it calls.
unfoldable pub delete_remote_dir_by :
    (Text → World → Option World) → Env → Project → Text → Bool → World → Option World
unfolding is_unsafe_rel_path policy_of query get_files_under_dir purge_dir each_file record_anomaly
delete_remote_dir_by step env proj dir force w =
    if is_unsafe_rel_path dir
    then some (record_anomaly sync_failure dir w)
    else if is_ignore (policy_of env proj force)
    then some w
    else let (w', files) = query env (get_files_under_dir env.like proj.name dir) w in
      clean_dir step env proj dir (policy_of env proj force) files w'

-- Where the path has no row: the directory of the files below it, if there are any.
abbrev pub descend_if : (World → Option World) → Option (List Text) → World → Option World
descend_if descend none w = some w
descend_if descend (some []) w = some w
descend_if descend (some (f ∷ fs)) w = descend w

-- What deleteRemoteFile does with the answer to its first query.
unfoldable pub delete_found :
    (World → Option World)
    → Env
    → Project
    → Text
    → Bool
    → Option (Option FileState)
    → World
    → Option World
unfolding policy_of query get_files_under_dir delete_tracked
delete_found descend env proj path force none w = some w
delete_found descend env proj path force (some (some row)) w =
    some (delete_tracked env proj path (policy_of env proj force) w)
delete_found descend env proj path force (some none) w =
    let (w', files) = query env (get_files_under_dir env.like proj.name path) w in
    descend_if descend files w'

-- deleteRemoteFile, over the deleteRemoteDir that it calls.
unfoldable pub delete_remote_file_by :
    (World → Option World) → Env → Project → Text → Bool → World → Option World
unfolding is_unsafe_rel_path query get_file_state delete_found record_anomaly
delete_remote_file_by descend env proj path force w =
    if is_unsafe_rel_path path
    then some (record_anomaly sync_failure path w)
    else let (w', found) = query env (get_file_state proj.name path) w in
      delete_found descend env proj path force found w'

unfoldable pub delete_remote_file : ℕ → Env → Project → Bool → Text → World → Option World
unfolding delete_remote_file_by delete_remote_dir_by
delete_remote_file zero env proj force path w = none
delete_remote_file (suc fuel) env proj force path w =
    delete_remote_file_by
      (delete_remote_dir_by (delete_remote_file fuel env proj force) env proj path force) env proj
      path force w
