-- ===== src/Sync/Walk/Tests.antt =====
-- Runs of the walk, and its theorems at concrete inputs.
use selective_mirror.Base.{
  ◌≡◌, refl, true, false, not, ◌&&◌, some, List, [], ◌∷◌, ◌++◌, map, keep, Text, codes, same,
  is_empty, has_prefix, take,
}
use mathlib.Core.List.{reverse}
use selective_mirror.Base.Int.{pos, int64, int_eq}
use selective_mirror.Samples.{notes, defaults}
use selective_mirror.Config.{Project, parse_delete_policy, delete_policy}
use selective_mirror.Filter.Engine.{Libraries, Engine}
use selective_mirror.Paths.{to_slash, contains_byte}
use selective_mirror.Queue.{new_fair_queue}
use selective_mirror.Store.{FileState}
use selective_mirror.Sync.{Env, World}
use selective_mirror.Sync.Ghosts.{RemoteFile}
use selective_mirror.Sync.Walk.{
  FileFacts, Root, file, directory, failed, no_nodes, node, root, no_root, local_files,
  cleanup_tree, backfill_state_after_batch_sync,
}
use selective_mirror.Sync.Walk.Lives.{OnlySpares, cleanup_tree-OnlySpares}
use selective_mirror.Sync.Walk.Hidden.{delete_call, cleanup_unreadable}

abbrev env : Env
env = record {
  config = defaults;
  exit_of = λ n. pos 0;
  cancelled = λ n. false;
  db_fails = λ n. false;
  now = 8;
  stamp = λ n. [];
  like = λ pattern s. false;
}

abbrev world : World
world = record {
  rows = [];
  statements = 0;
  calls = [];
  actions = [];
  anomalies = [];
  queue = new_fair_queue 10 0;
}

-- The filter excludes the directory d and takes the file d/keep back in.
abbrev libs : Libraries
libs = record {
  bad = λ bytes. [];
  match_path = λ bytes path is_dir. has_prefix bytes path && not (same path (codes "d/keep"));
  digest = λ bytes. bytes;
}

abbrev filter : Engine
filter = record {
  merged = some (codes "d/");
  global_rules = [];
  project_rules = codes "d/" ∷ [];
  sync_ignore_path = codes ".syncignore";
  generation = 0;
  bad_patterns = [];
  committed_content_hash = [];
}

abbrev facts : FileFacts
facts = record { is_regular = true; info = some (3, 9); hashed = some (codes "h") }

abbrev tree : Root
tree = root (
    node (file (codes "a") facts) (
      node (directory (codes "d") false (node (file (codes "d/keep") facts) no_nodes))
        (node failed no_nodes)))

abbrev remote_file : Text → RemoteFile
remote_file path = record { path = path; size = 3; is_dir = false; mod_time = [] }

abbrev listing : List RemoteFile
listing = remote_file (codes "a") ∷ remote_file (codes "d/keep") ∷ []

abbrev mirroring : Project
mirroring = record notes { delete_policy_str = codes "delete" }

walks : local_files libs filter tree ≡ codes "a" ∷ []
unfolding local_files contains_byte has_prefix same
walks = refl

-- The file is on the disk and the filter lets it through, but not its directory.
taken_for_ghost :
    map (λ args. take 2 args) (cleanup_tree env libs filter mirroring tree listing world).0.calls
    ≡ (codes "deletefile" ∷ codes "gdrive:notes/d/keep" ∷ []) ∷ []
unfolding cleanup_tree contains_byte has_prefix take parse_delete_policy
taken_for_ghost = refl

backfills :
    map
      (λ (row : FileState). row.rel_path)
      (backfill_state_after_batch_sync env libs filter mirroring tree world).0.rows
    ≡ codes "a" ∷ []
unfolding backfill_state_after_batch_sync contains_byte has_prefix same int64
backfills = refl

cleanup_tree-OnlySpares_example :
    OnlySpares env libs filter mirroring tree listing world
      (cleanup_tree env libs filter mirroring tree listing world).0
unfolding int_eq
cleanup_tree-OnlySpares_example =
    cleanup_tree-OnlySpares env libs filter mirroring tree (λ n. refl) listing world

-- The listing has a directory and a file in quarantine too.
abbrev whole_listing : List RemoteFile
whole_listing =
    record (remote_file (codes "d")) { is_dir = true }
    ∷ remote_file (codes ".quarantine/b")
    ∷ listing

cleanup_unreadable_example :
    (cleanup_tree env libs filter mirroring no_root whole_listing world).0.calls
    ≡ reverse (map (delete_call env libs filter mirroring) (codes "a" ∷ codes "d/keep" ∷ [])) ++ []
unfolding parse_delete_policy has_prefix to_slash delete_policy is_empty same keep
cleanup_unreadable_example =
    cleanup_unreadable env libs filter mirroring whole_listing world (λ n. refl) refl
