-- ===== src/Sync/Full/Tests.antt =====
-- Runs of the full sync and of a task, and their theorems at concrete inputs.
use selective_mirror.Base.{◌≡◌, refl, false, none, some, List, [], ◌∷◌, codes, same, is_empty}
use selective_mirror.Base.Int.{pos, int_eq}
use selective_mirror.Samples.{notes, defaults}
use selective_mirror.Filter.Engine.{Libraries, Engine, has_bad_patterns}
use selective_mirror.Queue.{FairQueue, new_fair_queue}
use selective_mirror.Sync.{Env, World}
use selective_mirror.Sync.Walk.{Root, no_nodes, root}
use selective_mirror.Sync.Full.{Meta, malformed_patterns, Setup, sync_full_project}
use selective_mirror.Sync.Full.Refusals.{Honest, sync_full_project-Honest}
use selective_mirror.Sync.Full.Breaker.{trips, sync_each, Trips, sync_each-Trips}

-- Every call of rclone fails.
abbrev env : Env
env = record {
  config = defaults;
  exit_of = λ n. pos 3;
  cancelled = λ n. false;
  db_fails = λ n. false;
  now = 8;
  stamp = λ n. [];
  like = λ pattern s. false;
}

abbrev world : World
world = record {
  rows = [];
  statements = 0;
  calls = [];
  actions = [];
  anomalies = [];
  queue = new_fair_queue 10 0;
}

abbrev meta : Meta
meta = record { failures = λ name. none; last_full_sync = λ name. none }

abbrev libs : Libraries
libs = record {
  bad = λ bytes. [];
  match_path = λ bytes path is_dir. false;
  digest = λ bytes. bytes;
}

abbrev filter : Engine
filter = record {
  merged = none;
  global_rules = [];
  project_rules = [];
  sync_ignore_path = [];
  generation = 4;
  bad_patterns = [];
  committed_content_hash = [];
}

abbrev setup : Setup
setup = record {
  generation_after = 4;
  filter_file = some (codes "/tmp/filter");
  limit_text = codes "1048576b";
}

abbrev tree : Root
tree = root no_nodes

abbrev processes : List FairQueue
processes =
    new_fair_queue 10 0 ∷ new_fair_queue 10 0 ∷ new_fair_queue 10 0 ∷ new_fair_queue 10 0 ∷ []

trips_once :
    trips (sync_each env libs filter notes tree setup processes (world, meta)).0.anomalies ≡ 1
unfolding trips sync_each same int_eq
trips_once = refl

refused :
    (sync_full_project env libs
      (some (record filter { bad_patterns = codes "[" ∷ [] }))
      notes
      tree
      setup
      (world, meta)).1
    ≡ some malformed_patterns
unfolding sync_full_project
refused = refl

skipped :
    (sync_full_project env libs
      (some (record filter { generation = 3 }))
      notes
      tree
      setup
      (world, meta)).0.0.calls
    ≡ []
unfolding sync_full_project
skipped = refl

sync_full_project-Honest_example :
    Honest env notes setup
      (some filter)
      (world, meta)
      (sync_full_project env libs (some filter) notes tree setup (world, meta))
sync_full_project-Honest_example =
    sync_full_project-Honest env libs notes tree setup (some filter) world meta

sync_each-Trips_example :
    Trips env notes 0 4 world (sync_each env libs filter notes tree setup processes (world, meta))
unfolding has_bad_patterns is_empty
sync_each-Trips_example =
    sync_each-Trips env libs filter notes tree setup (codes "/tmp/filter") processes 0 world meta
      (λ n. refl) (λ n. refl) refl refl refl refl
