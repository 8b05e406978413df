-- ===== src/Config.antt =====
-- internal/config/config.go: a mirror's settings with the global defaults that they fall back to.
-- Sizes and intervals are int64 values; a configured number may be negative.
pub mod Flags
pub mod LocalPaths
pub mod Validate
mod Tests
use selective_mirror.Base.{
  ℕ, ◌*◌, ◌^◌, Bool, not, ◌||◌, List, [], ◌∷◌, Text, codes, same, any, is_empty, ltb, not,
  if◌then◌else◌,
}
use selective_mirror.Base.Int.{ℤ, pos, is_pos, is_neg, magnitude, int64}

pub record Project : Type 0 where
  pub name : Text
  pub local_path : Text
  pub remote : Text
  pub debounce_sec : ℤ
  pub max_file_size_mb : ℤ
  pub sync_ignore_path : Text
  pub rclone_extra_flags : List Text
  pub delete_policy_str : Text
  pub quarantine_days : ℤ
  pub pre_sync_hook : Text
  pub post_sync_hook : Text

pub record Global : Type 0 where
  pub delete_policy_str : Text
  pub quarantine_days : ℤ
  pub rclone_path : Text
  pub rclone_config : Text
  pub rclone_extra_flags : List Text
  pub bandwidth_limit : Text
  pub heartbeat_interval_s : ℤ
  pub reconcile_interval_s : ℤ
  pub verify_interval_s : ℤ
  pub sync_workers : ℤ
  pub pre_sync_hook : Text
  pub post_sync_hook : Text

pub data DeletePolicy : Type 0 where
  ignore delete quarantine : DeletePolicy

abbrev pub second : ℕ
second = 10 ^ 9

abbrev pub minute : ℕ
minute = 60 * second

-- seconds as a time.Duration
abbrev duration_of : ℤ → ℤ
duration_of s = int64 (magnitude s * second)

unfoldable pub effective_pre_sync_hook : Project → Global → Text
effective_pre_sync_hook p g = if is_empty p.pre_sync_hook then g.pre_sync_hook else p.pre_sync_hook

unfoldable pub effective_post_sync_hook : Project → Global → Text
effective_post_sync_hook p g =
    if is_empty p.post_sync_hook then g.post_sync_hook else p.post_sync_hook

unfoldable pub debounce_duration : Project → ℤ
debounce_duration p = if is_pos p.debounce_sec then duration_of p.debounce_sec else pos 0

unfoldable pub max_file_size : Project → ℤ
max_file_size p =
    if is_pos p.max_file_size_mb
    then int64 (magnitude p.max_file_size_mb * 1024 * 1024)
    else pos (100 * 1024 * 1024)

unfoldable pub rclone_args : Global → List Text
rclone_args g = if is_empty g.rclone_config then [] else codes "--config" ∷ g.rclone_config ∷ []

unfoldable pub heartbeat_interval : Global → ℤ
heartbeat_interval g =
    if is_pos g.heartbeat_interval_s then duration_of g.heartbeat_interval_s else pos (5 * minute)

unfoldable pub reconcile_interval : Global → ℤ
reconcile_interval g =
    if is_pos g.reconcile_interval_s then duration_of g.reconcile_interval_s else pos (5 * minute)

unfoldable pub workers : Global → ℕ
workers g =
    if is_pos g.sync_workers
    then (if ltb 16 (magnitude g.sync_workers) then 16 else magnitude g.sync_workers)
    else 4

-- Anything that is not one of the four words is the safe default.
unfoldable pub parse_delete_policy : Text → DeletePolicy
parse_delete_policy s =
    if same s (codes "ignore")
    then ignore
    else if same s (codes "delete")
    then delete
    else if same s (codes "mirror")
    then delete
    else quarantine

unfoldable pub global_delete_policy : Global → DeletePolicy
global_delete_policy g = parse_delete_policy g.delete_policy_str

unfoldable pub delete_policy : Project → Global → DeletePolicy
delete_policy p g =
    if is_empty p.delete_policy_str
    then global_delete_policy g
    else parse_delete_policy p.delete_policy_str

unfoldable pub global_quarantine_retention : Global → ℕ
global_quarantine_retention g = if is_pos g.quarantine_days then magnitude g.quarantine_days else 30

unfoldable pub quarantine_retention : Project → Global → ℕ
quarantine_retention p g =
    if is_pos p.quarantine_days then magnitude p.quarantine_days else global_quarantine_retention g

unfoldable pub verify_interval : Global → ℤ
verify_interval g =
    if is_neg g.verify_interval_s
    then pos 0
    else if is_pos g.verify_interval_s
    then duration_of g.verify_interval_s
    else pos (360 * minute)

-- HasHooks, over the mirrors of the configuration.
unfoldable pub has_hooks : Global → List Project → Bool
has_hooks g ps =
    not (is_empty g.pre_sync_hook)
    || not (is_empty g.post_sync_hook)
    || any (λ p. not (is_empty p.pre_sync_hook) || not (is_empty p.post_sync_hook)) ps
