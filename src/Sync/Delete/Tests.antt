-- ===== src/Sync/Delete/Tests.antt =====
-- Runs of deleteRemoteFile, and its theorems at concrete inputs.
use selective_mirror.Base.{
  ◌≡◌, refl, true, false, Option, none, some, List, [], ◌∷◌, map, ◌==◌, if◌then◌else◌, Text, codes,
  same, is_empty, has_prefix, take,
}
use selective_mirror.Base.Int.{pos}
use selective_mirror.Samples.{notes, defaults}
use selective_mirror.Queue.{new_fair_queue}
use selective_mirror.Store.{FileState, get_file_state}
use selective_mirror.Sync.{Env, World}
use selective_mirror.Sync.Names.{is_unsafe_rel_path}
use selective_mirror.Sync.Names.Inside.{IsInside, is_unsafe_rel_path-IsInside}
use selective_mirror.Sync.Delete.{delete_remote_file, policy_of}
use selective_mirror.Sync.Delete.Present.{IsKeyed}
use selective_mirror.Sync.Delete.Total.{Returns, delete_remote_file-Returns}
use selective_mirror.Sync.Delete.Reach.{Added, delete_remote_file-Allowed}
use selective_mirror.Sync.Delete.Removal.{Guarded, delete_remote_file-Guarded}

abbrev row : Text → FileState
row path = record {
  project = codes "notes";
  rel_path = path;
  local_hash = codes "h";
  file_size = 3;
  mtime_ns = 9;
  synced_at = 5;
  rclone_exit = pos 0;
  remote_verified_at = 5;
  remote_hash = codes "h";
  remote_size = 3;
}

-- A purge that fails, and then single deletes that work; LIKE as a test for the prefix d/.
abbrev env : Env
env = record {
  config = defaults;
  exit_of = λ n. if n == 0 then pos 7 else pos 0;
  cancelled = λ n. false;
  db_fails = λ n. false;
  now = 8;
  stamp = λ n. codes "20260101T000000Z.000000001";
  like = λ pattern s. has_prefix (codes "d/") s;
}

abbrev world : World
world = record {
  rows = row (codes "d/a") ∷ row (codes "e") ∷ row (codes "d/b") ∷ [];
  statements = 0;
  calls = [];
  actions = [];
  anomalies = [];
  queue = new_fair_queue 10 0;
}

abbrev verbs : Option World → List (List Text)
verbs none = []
verbs (some w) = map (λ args. take 2 args) w.calls

purge_then_single :
    verbs (delete_remote_file 2 env notes true (codes "d") world)
    ≡ (codes "deletefile" ∷ codes "gdrive:notes/d/b" ∷ [])
      ∷ (codes "deletefile" ∷ codes "gdrive:notes/d/a" ∷ [])
      ∷ (codes "purge" ∷ codes "gdrive:notes/d" ∷ [])
      ∷ []
unfolding delete_remote_file same has_prefix take is_empty
purge_then_single = refl

one_by_one : IsKeyed world.rows
unfolding get_file_state same
one_by_one = (refl, (refl, (refl, tt)))

delete_remote_file-Returns_example :
    Returns (delete_remote_file 2 env notes false (codes "d") world)
delete_remote_file-Returns_example =
    delete_remote_file-Returns env notes false (codes "d") world one_by_one

delete_remote_file-Allowed_example :
    (w : World) × ((delete_remote_file 2 env notes true (codes "d") world ≡ some w)
      × Added notes (policy_of env notes true) world.calls w)
delete_remote_file-Allowed_example =
    delete_remote_file-Allowed env notes true (codes "d") world one_by_one

delete_remote_file-Guarded_example :
    (w : World) × ((delete_remote_file 2 env notes true (codes "d") world ≡ some w)
      × Guarded env notes world w)
delete_remote_file-Guarded_example =
    delete_remote_file-Guarded env notes true (codes "d") world one_by_one

unsafe_paths :
    map is_unsafe_rel_path
      (codes "a/../b" ∷ codes "./." ∷ codes "/etc" ∷ codes "c:x" ∷ codes "a/./b" ∷ [])
    ≡ true ∷ true ∷ true ∷ true ∷ false ∷ []
unfolding is_unsafe_rel_path
unsafe_paths = refl

is_unsafe_rel_path-IsInside_example : IsInside (codes "a/./b")
unfolding is_unsafe_rel_path
is_unsafe_rel_path-IsInside_example = is_unsafe_rel_path-IsInside (codes "a/./b") refl refl
