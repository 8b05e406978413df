-- ===== src/Samples.antt =====
-- A mirror and a configuration for the tests.
use selective_mirror.Base.{[], codes}
use selective_mirror.Base.Int.{pos}
use selective_mirror.Config.{Project, Global}

abbrev pub notes : Project
notes = record {
  name = codes "notes";
  local_path = codes "/home/notes";
  remote = codes "gdrive:notes";
  debounce_sec = pos 0;
  max_file_size_mb = pos 1;
  sync_ignore_path = [];
  rclone_extra_flags = [];
  delete_policy_str = codes "quarantine";
  quarantine_days = pos 0;
  pre_sync_hook = [];
  post_sync_hook = [];
}

abbrev pub defaults : Global
defaults = record {
  delete_policy_str = [];
  quarantine_days = pos 0;
  rclone_path = [];
  rclone_config = [];
  rclone_extra_flags = [];
  bandwidth_limit = [];
  heartbeat_interval_s = pos 0;
  reconcile_interval_s = pos 0;
  verify_interval_s = pos 0;
  sync_workers = pos 0;
  pre_sync_hook = [];
  post_sync_hook = [];
}
