-- ===== src/Sync/Task/Tests.antt =====
-- Runs of a task and of quiesceFile, and their theorems at concrete inputs.
use selective_mirror.Base.{
  ◌≡◌, refl, true, false, none, some, [], ◌∷◌, ◌==◌, codes, List, Option, is_empty,
}
use selective_mirror.Base.Int.{pos}
use selective_mirror.Samples.{notes, defaults}
use selective_mirror.Queue.{Task, sync_file, new_fair_queue}
use selective_mirror.Sync.{Env, World}
use selective_mirror.Sync.Upload.{stable, gone_or_locked}
use selective_mirror.Sync.Walk.{no_nodes, root}
use selective_mirror.Sync.Full.{Meta}
use selective_mirror.Sync.Task.{
  FileInfo, Looks, quiesce_file, Outside, process_task, State, Event, pre_sync, post_sync, syncs,
  completed,
}
use selective_mirror.Config.{effective_pre_sync_hook, effective_post_sync_hook}
use selective_mirror.Sync.Task.Stable.{IsQuiet, quiesce_file-IsQuiet}

abbrev env : Env
env = record {
  config = defaults;
  exit_of = λ n. pos 0;
  cancelled = λ n. false;
  db_fails = λ n. false;
  now = 8;
  stamp = λ n. [];
  like = λ pattern s. false;
}

abbrev world : World
world = record {
  rows = [];
  statements = 0;
  calls = [];
  actions = [];
  anomalies = [];
  queue = new_fair_queue 10 0;
}

abbrev meta : Meta
meta = record { failures = λ name. none; last_full_sync = λ name. none }

abbrev outside : Outside
outside = record {
  libs = record {
    bad = λ bytes. [];
    match_path = λ bytes path is_dir. false;
    digest = λ bytes. bytes;
  };
  filters = λ name. none;
  disk = record {
    abs_local = some (codes "C:\\notes\\a");
    abs_project = some (codes "C:\\notes");
    local_path = codes "C:\\notes\\a";
    quiesced = stable 3 9;
    hashed = some (codes "hash", 3);
    is_regular = some true;
    timestamp = codes "2026-01-01T00:00:00Z";
    elapsed = 4;
  };
  tree = root no_nodes;
  setup = record { generation_after = 0; filter_file = none; limit_text = [] };
}

abbrev task : Task
task = record {
  project = record notes { pre_sync_hook = codes "lint" };
  rel_path = codes "a";
  kind = sync_file;
  force_delete = false;
  done = some 7;
}

abbrev process_events : Option State → List Event
process_events none = []
process_events (some (w, m, events)) = events

-- The hook runs before the file is synced, and the callback is the last.
hooks_and_sync :
    process_events (process_task env outside task (world, meta, []))
    ≡ completed 7 ∷ post_sync [] ∷ syncs (codes "a") ∷ pre_sync (codes "lint") ∷ []
unfolding process_task is_empty effective_pre_sync_hook effective_post_sync_hook
hooks_and_sync = refl

abbrev plain : FileInfo
plain = record { is_link = false; is_dir = false; is_regular = true; size = 3; mtime = 9 }

-- The file at the path is a link to a plain file, which opens at the second attempt.
abbrev linked : Looks
linked = record {
  first = some (record plain { is_link = true; is_regular = false });
  target = some plain;
  second = some plain;
  opens = λ n. n == 1;
}

followed_link : quiesce_file false linked ≡ stable 3 9
unfolding quiesce_file
followed_link = refl

rejected_link : quiesce_file true linked ≡ gone_or_locked
unfolding quiesce_file
rejected_link = refl

quiesce_file-IsQuiet_example : IsQuiet false linked (quiesce_file false linked)
quiesce_file-IsQuiet_example = quiesce_file-IsQuiet false linked
