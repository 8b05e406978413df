-- ===== src/Sync/Ghosts.antt =====
-- internal/sync/sync.go: files on the remote that have no local counterpart, and their cleanup. The
-- listing of the remote and the local files that the filter lets through are arguments; where one of
-- them fails, the program returns before it does anything.
pub mod Leaks
pub mod Parent
pub mod Listing
pub mod Newest
pub mod Policy
mod Tests
use selective_mirror.Base.{
  ℕ, ◌+◌, ◌/◌, Bool, true, false, ◌||◌, Option, none, some, List, [], ◌∷◌, ◌++◌, if◌then◌else◌,
  length, any, Text, codes, same, is_empty, has_prefix, member,
}
use selective_mirror.Base.Int.{ℤ, pos, is_zero, int_eq}
use selective_mirror.Config.{Project, DeletePolicy, ignore, delete, quarantine, delete_policy}
use selective_mirror.Filter.Engine.{Libraries, Engine, is_excluded}
use selective_mirror.Paths.{to_slash, dir}
use selective_mirror.Store.{FileState, get_file_state}
use selective_mirror.Sync.{
  Env, World, AnomalyKind, ghost_leak, ghost_orphan, ghost_stale, record_anomaly, query, log_action,
  forget_file_state, run_rclone,
}
use selective_mirror.Sync.Flags.{delete_flags}
use selective_mirror.Sync.Delete.{is_ignore}
use selective_mirror.Sync.Upload.{row_of}

pub data GhostKind : Type 0 where
  leak retained stale orphan : GhostKind

pub record GhostFile : Type 0 where
  pub path : Text
  pub size : ℕ
  pub kind : GhostKind

pub record RemoteFile : Type 0 where
  pub path : Text
  pub size : ℕ
  pub is_dir : Bool
  pub mod_time : Text

abbrev pub is_leak : GhostKind → Bool
is_leak leak = true
is_leak retained = false
is_leak stale = false
is_leak orphan = false

-- What the state table says of a ghost that the filter lets through.
abbrev pub kind_of : DeletePolicy → Option FileState → GhostKind
kind_of policy none = orphan
kind_of policy (some row) = if is_ignore policy then retained else stale

unfoldable pub classify_ghost :
    Env → Libraries → Engine → Project → Text → World → World × GhostKind
unfolding is_excluded query get_file_state delete_policy
classify_ghost env libs filter proj path w =
    let (asked, answer) = query env (get_file_state proj.name path) w in
    if is_excluded libs filter path
    then (w, leak)
    else (asked, kind_of (delete_policy proj env.config) (row_of answer))

-- A directory, a file in quarantine, and a file that is there locally are no ghosts.
unfoldable pub is_present : List Text → RemoteFile → Bool
unfolding to_slash has_prefix member
is_present locals file =
    file.is_dir
    || (has_prefix (codes ".quarantine/") (to_slash file.path)
        || member (to_slash file.path) locals)

unfoldable pub find_ghosts :
    Env
    → Libraries
    → Engine
    → Project
    → List Text
    → List RemoteFile
    → World
    → World × List GhostFile
unfolding is_present classify_ghost
find_ghosts env libs filter proj locals [] w = (w, [])
find_ghosts env libs filter proj locals (file ∷ files) w =
    let skipping = find_ghosts env libs filter proj locals files w in
    let path = to_slash file.path in
    let (asked, kind) = classify_ghost env libs filter proj path w in
    let (w', ghosts) = find_ghosts env libs filter proj locals files asked in
    if is_present locals file
    then skipping
    else (w', record { path = path; size = file.size; kind = kind } ∷ ghosts)

-- A place behind the remote, taken as it stands.
abbrev pub behind : Project → Text → Text
behind proj path = (proj.remote ++ codes "/") ++ path

unfoldable pub deletefile : Env → Project → GhostFile → World → World × ℤ
unfolding run_rclone delete_flags
deletefile env proj g w =
    run_rclone env (codes "deletefile" ∷ behind proj g.path ∷ delete_flags env.config proj) w

-- The bookkeeping for a ghost that is gone, and the count.
unfoldable pub cleaned : Env → Project → Text → GhostFile → World → World × ℕ
unfolding log_action forget_file_state
cleaned env proj action g w =
    (forget_file_state env proj.name g.path (log_action env g.path action w), 1)

-- The way out where rclone does not find the file: the parent directory is deleted.
unfoldable pub delete_parent : Env → Project → GhostFile → World → World × ℕ
unfolding dir same is_empty run_rclone cleaned
delete_parent env proj g w =
    let parent = dir g.path in
    let (w', exit) =
      run_rclone env
        (codes "delete" ∷ behind proj parent ∷ codes "--rmdirs" ∷ delete_flags env.config proj) w in
    if same parent (codes ".") || is_empty parent
    then (w, 0)
    else if is_zero exit
    then cleaned env proj (codes "ghost_cleanup") g w'
    else (w', 0)

unfoldable pub mirror_ghost : Env → Project → GhostFile → World → World × ℕ
unfolding deletefile cleaned delete_parent int_eq
mirror_ghost env proj g w =
    let (w', exit) = deletefile env proj g w in
    if is_zero exit
    then cleaned env proj (codes "ghost_cleanup") g w'
    else if int_eq exit (pos 4)
    then delete_parent env proj g w'
    else (w', 0)

unfoldable pub quarantine_ghost : Env → Project → GhostFile → World → World × ℕ
unfolding run_rclone cleaned delete_flags
quarantine_ghost env proj g w =
    let target =
      (behind proj (codes ".quarantine/" ++ g.path) ++ codes ".") ++ env.stamp (length w.calls) in
    let (w', exit) =
      run_rclone env (codes "moveto" ∷ behind proj g.path ∷ target ∷ delete_flags env.config proj)
        w in
    if is_zero exit then cleaned env proj (codes "ghost_quarantined") g w' else (w', 0)

-- A leak is deleted whatever the policy.
abbrev pub ghost_policy : DeletePolicy → GhostKind → DeletePolicy
ghost_policy policy kind = if is_leak kind then delete else policy

abbrev pub clean_by : Env → Project → DeletePolicy → GhostFile → World → World × ℕ
clean_by env proj ignore g w = (log_action env g.path (codes "ghost_retained") w, 0)
clean_by env proj quarantine g w = quarantine_ghost env proj g w
clean_by env proj delete g w = mirror_ghost env proj g w

unfoldable pub cleanup_each : Env → Project → List GhostFile → World → World × ℕ
unfolding quarantine_ghost mirror_ghost log_action
cleanup_each env proj [] w = (w, 0)
cleanup_each env proj (g ∷ gs) w =
    let (w', n) = clean_by env proj (ghost_policy (delete_policy proj env.config) g.kind) g w in
    let (w'', m) = cleanup_each env proj gs w' in (w'', n + m)

abbrev pub is_orphan : GhostKind → Bool
is_orphan orphan = true
is_orphan leak = false
is_orphan retained = false
is_orphan stale = false

abbrev pub is_stale : GhostKind → Bool
is_stale stale = true
is_stale leak = false
is_stale retained = false
is_stale orphan = false

abbrev pub note_kind : (GhostKind → Bool) → AnomalyKind → List GhostFile → World → World
note_kind is_kind anomaly ghosts w =
    if any (λ (g : GhostFile). is_kind g.kind) ghosts then record_anomaly anomaly [] w else w

-- One anomaly for each kind that was found; Go's map gives them in any order.
unfoldable pub record_ghost_anomalies : List GhostFile → World → World
unfolding any record_anomaly
record_ghost_anomalies ghosts w =
    note_kind is_stale ghost_stale ghosts
      (note_kind is_orphan ghost_orphan ghosts (note_kind is_leak ghost_leak ghosts w))

unfoldable pub cleanup_ghosts :
    Env → Libraries → Engine → Project → List Text → List RemoteFile → World → World × ℕ
unfolding find_ghosts cleanup_each record_ghost_anomalies
cleanup_ghosts env libs filter proj locals listing w =
    let (w', ghosts) = find_ghosts env libs filter proj locals listing w in
    cleanup_each env proj ghosts (record_ghost_anomalies ghosts w')

unfoldable pub cleanup_leak : Env → Project → GhostFile → World → World × ℕ
unfolding deletefile cleaned
cleanup_leak env proj g w =
    let (w', exit) = deletefile env proj g w in
    if is_zero exit then cleaned env proj (codes "leak_cleanup") g w' else (w', 0)

unfoldable pub leaks_each : Env → Project → List GhostFile → World → World × ℕ
unfolding cleanup_leak
leaks_each env proj [] w = (w, 0)
leaks_each env proj (g ∷ gs) w =
    let skipping = leaks_each env proj gs w in
    let (w', n) = cleanup_leak env proj g w in
    let (w'', m) = leaks_each env proj gs w' in if is_leak g.kind then (w'', n + m) else skipping

unfoldable pub cleanup_leaks :
    Env → Libraries → Engine → Project → List Text → List RemoteFile → World → World × ℕ
unfolding find_ghosts leaks_each
cleanup_leaks env libs filter proj locals listing w =
    let (w', ghosts) = find_ghosts env libs filter proj locals listing w in
    leaks_each env proj ghosts w'
