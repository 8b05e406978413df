-- ===== src/Sync/Ghosts/Tests.antt =====
-- Runs of the ghost cleanup, and its theorems at concrete inputs.
use selective_mirror.Base.{
  ℕ, ◌≡◌, refl, false, Option, none, some, List, [], ◌∷◌, map, ◌==◌, if◌then◌else◌, length, All,
  Text, codes, same, is_empty, take,
}
use selective_mirror.Base.Int.{pos}
use selective_mirror.Samples.{notes, defaults}
use selective_mirror.Config.{parse_delete_policy}
use selective_mirror.Filter.Engine.{Libraries, Engine}
use selective_mirror.Paths.{dir, contains_byte}
use selective_mirror.Queue.{new_fair_queue}
use selective_mirror.Sync.{Env, World}
use selective_mirror.Sync.Flags.{delete_flags}
use selective_mirror.Sync.Ghosts.{
  leak, GhostFile, RemoteFile, behind, mirror_ghost, cleanup_leaks, cleanup_ghosts,
}
use selective_mirror.Sync.Ghosts.Listing.{deduplicate_remote_files}
use selective_mirror.Sync.Ghosts.Newest.{IsUnique, Covers, deduplicate_remote_files-Covers}
use selective_mirror.Sync.Ghosts.Parent.{OnlyGhost, mirror_ghost-deletes_parent}
use selective_mirror.Sync.Ghosts.Policy.{Within, cleanup_ghosts-Within}

-- rclone does not find the first file that it is to delete.
abbrev env : Env
env = record {
  config = defaults;
  exit_of = λ n. if n == 0 then pos 4 else pos 0;
  cancelled = λ n. false;
  db_fails = λ n. false;
  now = 8;
  stamp = λ n. codes "t";
  like = λ pattern s. false;
}

abbrev world : World
world = record {
  rows = [];
  statements = 0;
  calls = [];
  actions = [];
  anomalies = [];
  queue = new_fair_queue 10 0;
}

-- The filter excludes the paths that it lists.
abbrev libs : Libraries
libs = record {
  bad = λ bytes. [];
  match_path = λ bytes path is_dir. same bytes path;
  digest = λ bytes. bytes;
}

abbrev filter : Engine
filter = record {
  merged = some (codes "d/secret");
  global_rules = [];
  project_rules = codes "d/secret" ∷ [];
  sync_ignore_path = codes ".syncignore";
  generation = 0;
  bad_patterns = [];
  committed_content_hash = [];
}

abbrev file : Text → RemoteFile
file path = record { path = path; size = 3; is_dir = false; mod_time = [] }

abbrev listing : List RemoteFile
listing =
    file (codes "d/keep")
    ∷ file (codes "d/secret")
    ∷ file (codes "d/odd")
    ∷ file (codes ".quarantine/x")
    ∷ []

abbrev locals : List Text
locals = codes "d/keep" ∷ []

abbrev targets : List (List Text) → List (List Text)
targets calls = map (λ args. take 2 args) calls

leaks_only :
    targets (cleanup_leaks env libs filter notes locals listing world).0.calls
    ≡ (codes "deletefile" ∷ codes "gdrive:notes/d/secret" ∷ []) ∷ []
unfolding cleanup_leaks take contains_byte same
leaks_only = refl

-- The file d/keep goes with its directory.
whole_directory :
    targets
      (cleanup_ghosts env libs filter
        (record notes { delete_policy_str = codes "ignore" })
        locals
        listing
        world).0.calls
    ≡ (codes "delete" ∷ codes "gdrive:notes/d" ∷ [])
      ∷ (codes "deletefile" ∷ codes "gdrive:notes/d/secret" ∷ [])
      ∷ []
unfolding cleanup_ghosts take contains_byte parse_delete_policy
whole_directory = refl

abbrev ghost : GhostFile
ghost = record { path = codes "d/secret"; size = 3; kind = leak }

mirror_ghost-deletes_parent_example :
    OnlyGhost notes
      (codes "d/secret")
      ((codes "delete"
          ∷ behind notes (dir (codes "d/secret"))
          ∷ codes "--rmdirs"
          ∷ delete_flags defaults notes)
        ∷ (codes "deletefile" ∷ behind notes (codes "d/secret") ∷ delete_flags defaults notes)
        ∷ [])
      world
      (mirror_ghost env notes ghost world)
unfolding dir same
mirror_ghost-deletes_parent_example =
    mirror_ghost-deletes_parent env notes ghost world refl refl refl

-- A leak is deleted, with its directory, and an orphan goes to quarantine.
by_policy :
    targets
      (cleanup_ghosts env libs filter
        (record notes { delete_policy_str = codes "quarantine" })
        locals
        listing
        world).0.calls
    ≡ (codes "moveto" ∷ codes "gdrive:notes/d/odd" ∷ [])
      ∷ (codes "delete" ∷ codes "gdrive:notes/d" ∷ [])
      ∷ (codes "deletefile" ∷ codes "gdrive:notes/d/secret" ∷ [])
      ∷ []
unfolding cleanup_ghosts take contains_byte parse_delete_policy
by_policy = refl

cleanup_ghosts-Within_example :
    Within env libs filter notes locals listing world
      (cleanup_ghosts env libs filter notes locals listing world).0
cleanup_ghosts-Within_example = cleanup_ghosts-Within env libs filter notes locals listing world

-- The time is the length of its text, and an empty text is malformed.
abbrev time_of : Text → Option ℕ
time_of s = if is_empty s then none else some (length s)

abbrev twice : List RemoteFile
twice =
    file (codes "a")
    ∷ file (codes "b")
    ∷ record { path = codes "a"; size = 1; is_dir = false; mod_time = codes "2" }
    ∷ []

keeps_newest :
    map (λ (f : RemoteFile). f.size) (deduplicate_remote_files time_of twice) ≡ 1 ∷ 3 ∷ []
unfolding deduplicate_remote_files is_empty
keeps_newest = refl

deduplicate_remote_files-Covers_example :
    IsUnique time_of (deduplicate_remote_files time_of twice)
    × (All (Covers time_of (deduplicate_remote_files time_of twice)) twice
        × ((P : RemoteFile → Type 0)
            → All P twice
            → All P (deduplicate_remote_files time_of twice)))
deduplicate_remote_files-Covers_example = deduplicate_remote_files-Covers time_of twice
