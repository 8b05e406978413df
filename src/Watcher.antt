-- ===== src/Watcher.antt =====
-- internal/watcher/watcher.go and helpers.go: what the watcher does with the events of one mirror. The
-- watches that it holds are left out, and so are logs; the paths are relative to the mirror, with
-- slashes. What the disk answers about a path is an argument. A debounce timer is its deadline; a
-- timer that has gone off has started a callback, which waits for the mutex and then, without it,
-- enqueues.
pub mod Paths
pub mod Removals
pub mod Timers
pub mod Debounce
pub mod Burst
pub mod Reloads
mod Tests
use selective_mirror.Base.{
  ℕ, ◌+◌, ◌*◌, ◌^◌, Bool, true, false, not, ◌&&◌, ◌||◌, Option, none, some, List, [], ◌∷◌, ◌++◌,
  if◌then◌else◌, Text, codes, same, TextMap, put,
}
use selective_mirror.Base.Int.{is_pos, magnitude}
use selective_mirror.Config.{Project, debounce_duration, max_file_size}
use selective_mirror.Filter.Engine.{Libraries, Engine, is_excluded}
use selective_mirror.Paths.{slash}
use selective_mirror.Queue.{Task, sync_file, delete_file, FairQueue, enqueue, enqueue_priority}
use selective_mirror.Sync.Upload.{exceeds}
use selective_mirror.Sync.Walk.{FileFacts, Node, Nodes, file, directory, failed, no_nodes, node}

-- A projectWatcher. The callbacks of debounce timers that have gone off are a list of paths.
pub record Watch : Type 0 where
  pub project : Project
  pub filter : Option Engine
  pub queue : FairQueue
  pub pending : TextMap (Option ℕ)
  -- The timers that run while the map has lost them.
  pub lost : List (Text × ℕ)
  pub callbacks : List Text
  -- The callbacks that have let go of the mutex and are about to enqueue.
  pub unlocked : List Text
  pub reload_at : Option ℕ
  pub delete_count : ℕ
  pub delete_window_end : ℕ
  -- The reconciliations that a burst of deletes has scheduled, by their time.
  pub reconcile_at : List ℕ

-- What os.Lstat, IsReparsePoint and, for a link, os.Stat tell of a path.
pub record Stat : Type 0 where
  pub is_dir : Bool
  pub is_regular : Bool
  pub size : ℕ

pub data Seen : Type 0 where
  gone : Seen
  link : Option Stat → Seen
  plain : Bool → Stat → Seen

abbrev pub sync_task : Project → Text → Task
sync_task proj path = record {
  project = proj;
  rel_path = path;
  kind = sync_file;
  force_delete = false;
  done = none;
}

abbrev pub delete_task : Project → Text → Bool → Task
delete_task proj path force = record {
  project = proj;
  rel_path = path;
  kind = delete_file;
  force_delete = force;
  done = none;
}

unfoldable pub queue_sync : Text → Watch → Watch
unfolding enqueue
queue_sync path w = record w { queue = (enqueue (sync_task w.project path) w.queue).0 }

unfoldable pub queue_delete : Text → Bool → Watch → Watch
unfolding enqueue_priority
queue_delete path force w = record w {
  queue = (enqueue_priority (delete_task w.project path force) w.queue).0;
}

abbrev pub excludes : Libraries → Option Engine → Text → Bool
excludes libs none path = false
excludes libs (some engine) path = is_excluded libs engine path

-- queueFilesInDir: every file of a new directory that is to be synced.
unfoldable pub queue_file : Libraries → Text → FileFacts → Watch → Watch
unfolding is_excluded queue_sync max_file_size
queue_file libs path facts w = elim facts.info [
  | none ↦ w
  | some (size, mtime) ↦
      if not facts.is_regular || excludes libs w.filter path
      then w
      else if exceeds size (max_file_size w.project)
      then w
      else queue_sync path w
]

unfoldable mutual
  unfolding queue_file is_excluded same

  pub queue_node : Libraries → Node → Watch → Watch
  queue_node libs (file path facts) w = queue_file libs path facts w
  queue_node libs (directory path is_reparse nodes) w =
      if not (same path (codes ".")) && excludes libs w.filter (path ++ (slash ∷ []))
      then w
      else queue_nodes libs nodes w
  queue_node libs failed w = w

  pub queue_nodes : Libraries → Nodes → Watch → Watch
  queue_nodes libs no_nodes w = w
  queue_nodes libs (node n ns) w = queue_nodes libs ns (queue_node libs n w)

abbrev pub queue_files_in_dir : Libraries → Node → Watch → Watch
queue_files_in_dir libs tree w = queue_node libs tree w

-- The two ways to pass a file on: at once, or after a quiet window, which a new event begins anew.
unfoldable pub dispatch : ℕ → Text → Watch → Watch
unfolding debounce_duration queue_sync
dispatch now path w =
    let window = debounce_duration w.project in
    if is_pos window
    then record w { pending = put path (some (now + magnitude window)) w.pending }
    else queue_sync path w

-- The tests of the object itself, the target for a link.
abbrev pub is_candidate : Project → Seen → Bool
is_candidate proj gone = true
is_candidate proj (link none) = false
is_candidate proj (link (some target)) =
    target.is_regular && not (exceeds target.size (max_file_size proj))
is_candidate proj (plain is_reparse stat) =
    not is_reparse && (stat.is_regular && not (exceeds stat.size (max_file_size proj)))

unfoldable pub offer : Libraries → ℕ → Text → Seen → Watch → Watch
unfolding is_excluded dispatch max_file_size
offer libs now path seen w =
    if excludes libs w.filter path
    then w
    else if is_candidate w.project seen
    then dispatch now path w
    else w

-- A path that has been created: a link to a directory goes, a new directory is walked.
unfoldable pub created : Libraries → ℕ → Text → Seen → Node → Watch → Watch
unfolding offer queue_nodes queue_node
created libs now path gone tree w = offer libs now path gone w
created libs now path (link none) tree w = w
created libs now path (link (some target)) tree w =
    if target.is_dir then w else offer libs now path (link (some target)) w
created libs now path (plain is_reparse stat) tree w =
    if stat.is_dir
    then queue_files_in_dir libs tree w
    else offer libs now path (plain is_reparse stat) w

-- 200 ms in nanoseconds
abbrev pub reload_delay : ℕ
reload_delay = 200 * 10 ^ 6

unfoldable pub schedule_filter_reload : ℕ → Watch → Watch
schedule_filter_reload now w = record w { reload_at = some (now + reload_delay) }

-- handleEvent for a create or a write in this mirror; `is_sync_ignore` is isSyncIgnoreFile's answer.
unfoldable pub handle_event : Libraries → ℕ → Bool → Bool → Text → Seen → Node → Watch → Watch
unfolding schedule_filter_reload created offer
handle_event libs now is_create is_sync_ignore path seen tree w =
    if is_sync_ignore
    then schedule_filter_reload now w
    else if is_create
    then created libs now path seen tree w
    else offer libs now path seen w
