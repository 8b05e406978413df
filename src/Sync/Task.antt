-- ===== src/Sync/Task.antt =====
-- internal/sync/sync.go: processTask and quiesceFile. The body of processTask runs under the file lock
-- (Sync/Locks); what it does besides the world is a list of events, the last one first. A panic, which
-- the code recovers from, is left out, and so are the durations.
pub mod Stable
mod Tests
use selective_mirror.Base.{
  ℕ, Bool, not, ◌||◌, Option, none, some, List, ◌∷◌, ◌==◌, if◌then◌else◌, Text, is_empty,
}
use selective_mirror.Config.{effective_pre_sync_hook, effective_post_sync_hook}
use selective_mirror.Filter.Engine.{Libraries, Engine}
use selective_mirror.Queue.{Task, TaskType, sync_file, delete_file}
use selective_mirror.Sync.{Env, World}
use selective_mirror.Sync.Delete.{delete_remote_file}
use selective_mirror.Sync.Upload.{
  Quiesced, stable, still_changing, gone_or_locked, Disk, sync_single_file,
}
use selective_mirror.Sync.Walk.{Root}
use selective_mirror.Sync.Full.{Meta, Setup, sync_full_project}

-- What os.Lstat tells.
pub record FileInfo : Type 0 where
  pub is_link : Bool
  pub is_dir : Bool
  pub is_regular : Bool
  pub size : ℕ
  pub mtime : ℕ

-- What the disk answers to one quiesceFile, none where a call fails.
pub record Looks : Type 0 where
  pub first : Option FileInfo
  -- EvalSymlinks and the Lstat of the target
  pub target : Option FileInfo
  -- the second look, 200 ms later
  pub second : Option FileInfo
  -- whether the n-th attempt to open the file works
  pub opens : ℕ → Bool

-- The file that is looked at: the target of a link, where links are not rejected.
unfoldable pub followed : Bool → Option FileInfo → Option FileInfo → Option FileInfo
followed reject none target = none
followed reject (some info) none = if info.is_link then none else some info
followed reject (some info) (some t) =
    if info.is_link then (if reject then none else if t.is_dir then none else some t) else some info

unfoldable pub opens_in_three : (ℕ → Bool) → Bool
opens_in_three opens = opens 0 || opens 1 || opens 2

unfoldable pub settled : FileInfo → Option FileInfo → (ℕ → Bool) → Quiesced
unfolding opens_in_three
settled info none opens = gone_or_locked
settled info (some later) opens =
    if not (info.size == later.size) || not (info.mtime == later.mtime)
    then still_changing
    else if opens_in_three opens
    then stable later.size later.mtime
    else gone_or_locked

abbrev pub settle_followed : Option FileInfo → Looks → Quiesced
settle_followed none looks = gone_or_locked
settle_followed (some info) looks =
    if info.is_regular then settled info looks.second looks.opens else gone_or_locked

unfoldable pub quiesce_file : Bool → Looks → Quiesced
unfolding followed settled
quiesce_file reject looks = settle_followed (followed reject looks.first looks.target) looks

pub data Event : Type 0 where
  pre_sync : Text → Event
  -- The work itself: deleteRemoteFile, syncSingleFile or syncFullProject.
  deletes : Text → Event
  syncs : Text → Event
  syncs_project : Event
  post_sync : Text → Event
  completed : ℕ → Event

-- What a task meets outside: the filters by the name of their mirror, the file and the local tree.
pub record Outside : Type 0 where
  pub libs : Libraries
  pub filters : Text → Option Engine
  pub disk : Disk
  pub tree : Root
  pub setup : Setup

abbrev pub finished : Option ℕ → List Event → List Event
finished none events = events
finished (some n) events = completed n ∷ events

abbrev pub State : Type 0
State = World × Meta × List Event

abbrev pub after_delete : Task → List Event → Meta → Option World → Option State
after_delete task events m none = none
after_delete task events m (some w) =
    some (w, m, finished task.done (deletes task.rel_path ∷ events))

-- The task itself, between the hooks.
unfoldable pub run_file : Env → Outside → Task → World → World
unfolding sync_single_file
run_file env out task w =
    sync_single_file env out.libs (out.filters task.project.name) task.project task.rel_path
      out.disk w

unfoldable pub run_project : Env → Outside → Task → World × Meta → World × Meta
unfolding sync_full_project
run_project env out task wm =
    (sync_full_project env out.libs (out.filters task.project.name) task.project out.tree out.setup
      wm).0

abbrev pub process_sync : Env → Outside → Task → State → State
process_sync env out task (w, m, events) =
    let before = pre_sync (effective_pre_sync_hook task.project env.config) ∷ events in
    let synced = syncs task.rel_path ∷ before in
    let after = post_sync (effective_post_sync_hook task.project env.config) ∷ synced in
    let (w', m') = run_project env out task (w, m) in
    if is_empty task.rel_path
    then (w', m', finished task.done (syncs_project ∷ events))
    else (run_file env out task w, m, finished task.done after)

abbrev pub process_kind : TaskType → Env → Outside → Task → State → Option State
process_kind delete_file env out task (w, m, events) =
    after_delete task events m
      (delete_remote_file 2 env task.project task.force_delete task.rel_path w)
process_kind sync_file env out task s = some (process_sync env out task s)

-- `none` is a delete that runs out of fuel.
unfoldable pub process_task : Env → Outside → Task → State → Option State
unfolding run_file run_project effective_pre_sync_hook effective_post_sync_hook delete_remote_file
    is_empty
process_task env out task s = process_kind task.kind env out task s
