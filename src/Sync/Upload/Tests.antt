-- ===== src/Sync/Upload/Tests.antt =====
-- Runs of syncSingleFile, and its theorems at concrete inputs.
use selective_mirror.Base.{
  ◌≡◌, refl, ◌⊎◌, true, false, none, some, List, [], ◌∷◌, map, ◌==◌, if◌then◌else◌, Text, codes,
  same, take,
}
use selective_mirror.Base.Int.{pos, int64}
use selective_mirror.Samples.{notes, defaults}
use selective_mirror.Filter.Engine.{Libraries}
use selective_mirror.Queue.{new_fair_queue}
use selective_mirror.Sync.{Env, World, AnomalyKind, state_error}
use selective_mirror.Sync.Upload.{Disk, stable, sync_single_file, record_upload, sync_hashed}
use selective_mirror.Sync.Upload.Calls.{Calls, sync_single_file-Calls}
use selective_mirror.Sync.Upload.Trust.{GoesOn, record_upload-next_not_skipped}

-- rclone fails once with a transient error; the fourth statement to the database fails.
abbrev env : Env
env = record {
  config = defaults;
  exit_of = λ n. if n == 0 then pos 5 else pos 0;
  cancelled = λ n. false;
  db_fails = λ n. n == 3;
  now = 8;
  stamp = λ n. [];
  like = λ pattern s. false;
}

abbrev world : World
world = record {
  rows = [];
  statements = 0;
  calls = [];
  actions = [];
  anomalies = [];
  queue = new_fair_queue 10 0;
}

abbrev disk : Disk
disk = record {
  abs_local = some (codes "C:\\notes\\a");
  abs_project = some (codes "C:\\notes");
  local_path = codes "C:\\notes\\a";
  quiesced = stable 3 9;
  hashed = some (codes "hash", 3);
  is_regular = some true;
  timestamp = codes "2026-01-01T00:00:00Z";
  elapsed = 4;
}

abbrev libs : Libraries
libs = record {
  bad = λ bytes. [];
  match_path = λ bytes path is_dir. false;
  digest = λ bytes. bytes;
}

uploads_twice :
    map (λ args. take 3 args) (sync_single_file env libs none notes (codes "a") disk world).calls
    ≡ (codes "copyto" ∷ codes "C:\\notes\\a" ∷ codes "gdrive:notes/a" ∷ [])
      ∷ (codes "copyto" ∷ codes "C:\\notes\\a" ∷ codes "gdrive:notes/a" ∷ [])
      ∷ []
unfolding sync_single_file take int64
uploads_twice = refl

sync_single_file-Calls_example :
    Calls env notes
      (codes "a")
      disk
      world
      (sync_single_file env libs none notes (codes "a") disk world)
sync_single_file-Calls_example = sync_single_file-Calls env notes (codes "a") disk libs none world

record_upload-next_not_skipped_example :
    let w' = record_upload env notes (codes "a") disk (codes "x") 3 9 (world, pos 0) in
    GoesOn env notes (codes "a") disk (codes "y") 4 10 w'
    ⊎ ((rest : List (AnomalyKind × Text)) × (w'.anomalies ≡ (state_error, codes "a") ∷ rest))
unfolding same
record_upload-next_not_skipped_example =
    record_upload-next_not_skipped env notes (codes "a") disk (codes "x") (codes "y") 3 9 world
      (pos 0) env disk 4 10 refl refl refl

-- The table says that the file was synced with the content x.
abbrev synced_x : World
synced_x = record world {
  rows =
      record {
        project = codes "notes";
        rel_path = codes "a";
        local_hash = codes "x";
        file_size = 3;
        mtime_ns = 9;
        synced_at = 1;
        rclone_exit = pos 0;
        remote_verified_at = 1;
        remote_hash = codes "x";
        remote_size = 3;
      }
      ∷ [];
}

-- The first statement fails.
abbrev losing : Env
losing = record env { db_fails = λ n. n == 0 }

abbrev lost : World
lost =
    sync_hashed losing notes (codes "a") disk 9 (some (codes "x", 3))
      (record_upload losing notes (codes "a") disk (codes "y") 3 9 (synced_x, pos 0))

-- Where UpdateFileState fails after an upload of y, the row still has x: a file that goes back to x is
-- taken for unchanged, with no call and no anomaly, although the remote has y.
lost_update : (lost.calls ≡ []) × (lost.anomalies ≡ [])
unfolding record_upload sync_hashed same
lost_update = (refl, refl)
