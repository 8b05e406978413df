-- ===== src/Sync/Upload.antt =====
-- internal/sync/sync.go: syncSingleFile and syncMtime. What the disk answers about the file is an
-- argument, with the answer of quiesceFile as a whole; sleeping before the retry is left out.
pub mod Calls
pub mod Trust
mod Tests
use selective_mirror.Base.{
  ℕ, ◌+◌, Bool, true, false, not, ◌&&◌, ◌||◌, Option, none, some, [], ◌∷◌, ◌++◌, ltb, ◌==◌,
  if◌then◌else◌, length, Text, codes, same, is_empty, has_prefix,
}
use selective_mirror.Base.Int.{ℤ, pos, negsuc, is_zero, int_eq}
use selective_mirror.Config.{Project, max_file_size}
use selective_mirror.Paths.{backslash, colon}
use selective_mirror.Filter.Engine.{Libraries, Engine, is_excluded}
use selective_mirror.Queue.Circuit.{record_failure, record_success}
use selective_mirror.Queue.Cooldown.{set_adaptive_cooldown}
use selective_mirror.Store.{
  FileState, get_file_state, update_file_state, update_mtime_only, update_remote_verification,
  mark_remote_verification_stale,
}
use selective_mirror.Sync.{
  Env, World, sync_failure, sync_timeout, circuit_breaker, state_error, record_anomaly, execute,
  query, log_action, run_rclone,
}
use selective_mirror.Sync.Names.{remote_path}
use selective_mirror.Sync.Flags.{common_flags}

-- What quiesceFile answers: the size and the time in nanoseconds of a stable file, or why not.
pub data Quiesced : Type 0 where
  stable : ℕ → ℕ → Quiesced
  still_changing gone_or_locked : Quiesced

pub record Disk : Type 0 where
  -- filepath.Abs of the file and of the mirror, where it works.
  pub abs_local : Option Text
  pub abs_project : Option Text
  pub local_path : Text
  pub quiesced : Quiesced
  -- HashFile: the hash and the number of bytes read.
  pub hashed : Option (Text × ℕ)
  -- The last os.Lstat: whether it is a regular file and no link.
  pub is_regular : Option Bool
  -- The modification time as rclone touch reads it.
  pub timestamp : Text
  pub elapsed : ℕ

abbrev pub is_filtered : Libraries → Option Engine → Text → Bool
is_filtered libs none path = false
is_filtered libs (some engine) path = is_excluded libs engine path

unfoldable pub escapes : Option Text → Option Text → Bool
unfolding has_prefix same
escapes none project = false
escapes (some file) none = false
escapes (some file) (some project) =
    not (has_prefix (project ++ (backslash ∷ [])) (file ++ (backslash ∷ [])))
    && not (same file project)

abbrev pub exceeds : ℕ → ℤ → Bool
exceeds size (pos limit) = ltb limit size
exceeds size (negsuc limit) = true

unfoldable pub sync_mtime : Env → Project → Text → Disk → Text → ℕ → ℕ → World → World
unfolding run_rclone execute update_file_state log_action record_anomaly common_flags
sync_mtime env proj path disk hash size mtime w =
    let args =
      codes "touch"
      ∷ codes "--timestamp"
      ∷ disk.timestamp
      ∷ codes "--no-create"
      ∷ remote_path proj.remote path
      ∷ common_flags env.config proj in
    let (called, exit) = run_rclone env args w in
    let (written, _) =
      execute env (update_file_state env.now proj.name path hash size mtime (pos 0)) called in
    if is_zero exit
    then log_action env path (codes "mtime_sync") written
    else record_anomaly sync_failure path (log_action env path (codes "mtime_sync_error") written)

-- The state after an upload that worked: the remote is taken to have the content, and where that
-- cannot be written its earlier verification is withdrawn.
unfoldable pub verify_optimistically : Env → Project → Text → Text → ℕ → World → World
unfolding execute update_remote_verification mark_remote_verification_stale record_anomaly
verify_optimistically env proj path hash size w =
    let (verified, ok) =
      execute env (update_remote_verification env.now proj.name path hash size) w in
    let (cleared, cleared_ok) =
      execute env (mark_remote_verification_stale proj.name path) verified in
    if ok then verified else if cleared_ok then cleared else record_anomaly state_error path cleared

abbrev pub is_timeout : ℤ → Bool
is_timeout exit = int_eq exit (negsuc 1)

unfoldable pub record_upload_failure : Env → Project → Text → ℤ → World → World
unfolding log_action record_anomaly record_failure int_eq
record_upload_failure env proj path exit w =
    let logged = log_action env path (codes "error") w in
    let told =
      record_anomaly (if is_timeout exit then sync_timeout else sync_failure) path logged in
    let (queue, tripped) = record_failure env.now proj.name told.queue in
    let counted = record told { queue = queue } in
    if tripped then record_anomaly circuit_breaker path counted else counted

unfoldable pub record_upload : Env → Project → Text → Disk → Text → ℕ → ℕ → World × ℤ → World
unfolding execute update_file_state log_action verify_optimistically record_upload_failure
    record_success set_adaptive_cooldown
record_upload env proj path disk hash size mtime (w, exit) =
    let (written, _) =
      execute env (update_file_state env.now proj.name path hash size mtime exit) w in
    let logged = log_action env path (codes "copy") written in
    let verified = verify_optimistically env proj path hash size logged in
    let cooled =
      set_adaptive_cooldown env.now (proj.name ++ (colon ∷ path)) disk.elapsed verified.queue in
    if is_zero exit
    then record verified { queue = record_success proj.name cooled }
    else record_upload_failure env proj path exit written

-- Exit code -3, or a context that is cancelled after the call.
unfoldable pub is_cancelled : Env → World × ℤ → Bool
unfolding int_eq
is_cancelled env (w, exit) = int_eq exit (negsuc 2) || env.cancelled (length w.calls)

abbrev pub is_transient : ℤ → Bool
is_transient exit = int_eq exit (pos 1) || int_eq exit (pos 5)

unfoldable pub upload : Env → Project → Text → Disk → Text → ℕ → ℕ → World → World
unfolding run_rclone record_upload is_cancelled common_flags int_eq
upload env proj path disk hash size mtime w =
    let args =
      codes "copyto"
      ∷ disk.local_path
      ∷ remote_path proj.remote path
      ∷ common_flags env.config proj in
    let first = run_rclone env args w in
    let retry = run_rclone env args first.0 in
    if is_cancelled env first
    then first.0
    else if is_transient first.1
    then (if is_cancelled env retry
        then retry.0
        else record_upload env proj path disk hash size mtime retry)
    else record_upload env proj path disk hash size mtime first

-- The last look at the file before rclone reads it.
abbrev pub is_swapped : Option Bool → Bool
is_swapped none = false
is_swapped (some regular) = not regular

unfoldable pub is_unchanged : Text → FileState → Bool
unfolding same
is_unchanged hash row = same row.local_hash hash && is_zero row.rclone_exit

unfoldable pub has_remote_content : Text → FileState → Bool
unfolding same is_empty
has_remote_content hash row =
    not (is_empty row.remote_hash)
    && (same row.remote_hash hash && not (row.remote_verified_at == 0))

-- What is done with a file whose content the table knows as synced.
unfoldable pub sync_unchanged :
    Env → Project → Text → Disk → Text → ℕ → ℕ → FileState → World → World
unfolding sync_mtime execute update_mtime_only
sync_unchanged env proj path disk hash size mtime row w =
    if row.mtime_ns == 0
    then (execute env (update_mtime_only proj.name path mtime) w).0
    else if row.mtime_ns == mtime
    then w
    else sync_mtime env proj path disk hash size mtime w

unfoldable pub skip_upload : Env → Project → Text → Text → ℕ → ℕ → World → World
unfolding execute update_file_state log_action
skip_upload env proj path hash size mtime w =
    let (written, _) =
      execute env (update_file_state env.now proj.name path hash size mtime (pos 0)) w in
    log_action env path (codes "skip_hash_match") written

unfoldable pub upload_unless_swapped : Env → Project → Text → Disk → Text → ℕ → ℕ → World → World
unfolding upload log_action
upload_unless_swapped env proj path disk hash size mtime w =
    if is_swapped disk.is_regular
    then log_action env path (codes "toctou_aborted") w
    else upload env proj path disk hash size mtime w

-- A query that fails leaves no row.
abbrev pub row_of : Option (Option FileState) → Option FileState
row_of none = none
row_of (some row) = row

unfoldable pub decide_upload :
    Env → Project → Text → Disk → Text → ℕ → ℕ → Option FileState → World → World
unfolding is_unchanged has_remote_content sync_unchanged skip_upload upload_unless_swapped
decide_upload env proj path disk hash size mtime none w =
    upload_unless_swapped env proj path disk hash size mtime w
decide_upload env proj path disk hash size mtime (some row) w =
    if is_unchanged hash row
    then sync_unchanged env proj path disk hash size mtime row w
    else if has_remote_content hash row
    then skip_upload env proj path hash size mtime w
    else upload_unless_swapped env proj path disk hash size mtime w

unfoldable pub sync_hashed : Env → Project → Text → Disk → ℕ → Option (Text × ℕ) → World → World
unfolding query get_file_state decide_upload log_action
sync_hashed env proj path disk mtime none w = log_action env path (codes "error") w
sync_hashed env proj path disk mtime (some (hash, size)) w =
    let (w', answer) = query env (get_file_state proj.name path) w in
    decide_upload env proj path disk hash size mtime (row_of answer) w'

unfoldable pub sync_quiesced : Env → Project → Text → Disk → Quiesced → World → World
unfolding max_file_size sync_hashed log_action
sync_quiesced env proj path disk still_changing w = w
sync_quiesced env proj path disk gone_or_locked w = log_action env path (codes "skip_gone") w
sync_quiesced env proj path disk (stable size mtime) w =
    if exceeds size (max_file_size proj)
    then log_action env path (codes "skip_size") w
    else sync_hashed env proj path disk mtime disk.hashed w

unfoldable pub sync_single_file :
    Env → Libraries → Option Engine → Project → Text → Disk → World → World
unfolding is_excluded escapes record_anomaly sync_quiesced
sync_single_file env libs filter proj path disk w =
    if is_filtered libs filter path
    then w
    else if escapes disk.abs_local disk.abs_project
    then record_anomaly sync_failure path w
    else sync_quiesced env proj path disk disk.quiesced w
