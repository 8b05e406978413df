-- ===== src/Sync/Walk.antt =====
-- internal/sync/sync.go: the walk over the mirror's local tree, as findGhosts and
-- backfillStateAfterBatchSync make it. The tree is what filepath.WalkDir meets, with the paths that
-- filepath.Rel gives; a context that is cancelled during the walk is left out.
pub mod Lives
pub mod Hidden
mod Tests
use selective_mirror.Base.{
  ℕ, suc, ◌+◌, Bool, not, ◌||◌, Option, none, some, List, [], ◌∷◌, ◌++◌, if◌then◌else◌, Text,
}
use selective_mirror.Base.Int.{pos}
use selective_mirror.Config.{Project, max_file_size}
use selective_mirror.Filter.Engine.{Libraries, Engine, is_excluded}
use selective_mirror.Paths.{to_slash, slash}
use selective_mirror.Store.{FileState, get_file_state, update_file_state, clear_stale_exit_codes}
use selective_mirror.Sync.{Env, World, query, execute}
use selective_mirror.Sync.Upload.{row_of, exceeds}
use selective_mirror.Sync.Ghosts.{RemoteFile, cleanup_ghosts}

-- What is known of a file: its size and time, and the hash of its content, where they can be read.
pub record FileFacts : Type 0 where
  pub is_regular : Bool
  pub info : Option (ℕ × ℕ)
  pub hashed : Option Text

mutual
  pub data Node : Type 0 where
    file : Text → FileFacts → Node
    -- A directory, and whether it is a reparse point.
    directory : Text → Bool → Nodes → Node
    -- An entry at which the walk reports an error.
    failed : Node

  pub data Nodes : Type 0 where
    no_nodes : Nodes
    node : Node → Nodes → Nodes

-- The tree under the mirror's own path, or a root that cannot be read.
pub data Root : Type 0 where
  root : Nodes → Root
  no_root : Root

abbrev pub is_skipped_dir : Libraries → Engine → Text → Bool → Bool
is_skipped_dir libs filter path is_reparse =
    is_reparse || is_excluded libs filter (path ++ (slash ∷ []))

-- The local files that the filter lets through, as findGhosts collects them.
unfoldable mutual
  unfolding is_excluded to_slash

  pub files_at : Libraries → Engine → Node → List Text
  files_at libs filter (file path facts) =
      if is_excluded libs filter (to_slash path) then [] else to_slash path ∷ []
  files_at libs filter (directory path is_reparse nodes) =
      if is_skipped_dir libs filter path is_reparse then [] else files_in libs filter nodes
  files_at libs filter failed = []

  pub files_in : Libraries → Engine → Nodes → List Text
  files_in libs filter no_nodes = []
  files_in libs filter (node n ns) = files_at libs filter n ++ files_in libs filter ns

unfoldable pub local_files : Libraries → Engine → Root → List Text
unfolding files_in
local_files libs filter (root nodes) = files_in libs filter nodes
local_files libs filter no_root = []

-- CleanupGhosts with the walk in it.
unfoldable pub cleanup_tree :
    Env → Libraries → Engine → Project → Root → List RemoteFile → World → World × ℕ
unfolding local_files cleanup_ghosts
cleanup_tree env libs filter proj tree listing w =
    cleanup_ghosts env libs filter proj (local_files libs filter tree) listing w

-- The count and the bytes of the rows that the backfill adds.
pub record Tally : Type 0 where
  pub files : ℕ
  pub bytes : ℕ

abbrev pub add_to : Tally → ℕ → Tally
add_to t size = record { files = suc t.files; bytes = t.bytes + size }

abbrev pub hash_file : Env → Project → Text → ℕ → ℕ → Option Text → World × Tally → World × Tally
hash_file env proj path size mtime none (w, t) = (w, t)
hash_file env proj path size mtime (some hash) (w, t) = (
  (execute env (update_file_state env.now proj.name path hash size mtime (pos 0)) w).0,
  add_to t size,
)

-- A file that has no row.
abbrev pub add_row :
    Env → Project → Text → FileFacts → Option (ℕ × ℕ) → World × Tally → World × Tally
add_row env proj path facts none wt = wt
add_row env proj path facts (some (size, mtime)) wt =
    if exceeds size (max_file_size proj)
    then wt
    else hash_file env proj path size mtime facts.hashed wt

abbrev pub unless_tracked :
    Env → Project → Text → FileFacts → Option FileState → World × Tally → World × Tally
unless_tracked env proj path facts (some row) wt = wt
unless_tracked env proj path facts none wt = add_row env proj path facts facts.info wt

unfoldable pub backfill_file :
    Env → Libraries → Engine → Project → Text → FileFacts → World × Tally → World × Tally
unfolding is_excluded query get_file_state execute update_file_state max_file_size
backfill_file env libs filter proj path facts (w, t) =
    let (asked, answer) = query env (get_file_state proj.name path) w in
    if not facts.is_regular
    then (w, t)
    else if is_excluded libs filter path
    then (w, t)
    else unless_tracked env proj path facts (row_of answer) (asked, t)

unfoldable mutual
  unfolding backfill_file to_slash

  pub backfill_at : Env → Libraries → Engine → Project → Node → World × Tally → World × Tally
  backfill_at env libs filter proj (file path facts) wt =
      backfill_file env libs filter proj (to_slash path) facts wt
  backfill_at env libs filter proj (directory path is_reparse nodes) wt =
      if is_skipped_dir libs filter (to_slash path) is_reparse
      then wt
      else backfill_in env libs filter proj nodes wt
  backfill_at env libs filter proj failed wt = wt

  pub backfill_in : Env → Libraries → Engine → Project → Nodes → World × Tally → World × Tally
  backfill_in env libs filter proj no_nodes wt = wt
  backfill_in env libs filter proj (node n ns) wt =
      backfill_in env libs filter proj ns (backfill_at env libs filter proj n wt)

abbrev pub backfill_root : Env → Libraries → Engine → Project → Root → World × Tally → World × Tally
backfill_root env libs filter proj (root nodes) wt = backfill_in env libs filter proj nodes wt
backfill_root env libs filter proj no_root wt = wt

-- backfillStateAfterBatchSync of a mirror that has a filter.
unfoldable pub backfill_state_after_batch_sync :
    Env → Libraries → Engine → Project → Root → World → World × Tally
unfolding backfill_in execute clear_stale_exit_codes
backfill_state_after_batch_sync env libs filter proj tree w =
    let (w', t) = backfill_root env libs filter proj tree (w, record { files = 0; bytes = 0 }) in
    ((execute env (clear_stale_exit_codes proj.name) w').0, t)
