-- ===== src/Config/Tests.antt =====
-- Configurations and what Validate says of them, and its theorems at concrete inputs.
use selective_mirror.Base.{
  ◌≡◌, refl, none, some, List, [], ◌∷◌, if◌then◌else◌, any, All, Text, codes, same, is_empty,
  has_prefix, member,
}
use selective_mirror.Samples.{notes, defaults}
use selective_mirror.Config.{Project}
use selective_mirror.Config.Flags.{
  check_flag, flag_name, until_equals, check_long, validate_rclone_extra_flags, short_not_allowed,
}
use selective_mirror.Config.Flags.Denied.{IsSafeFlag, validate_rclone_extra_flags-IsSafeFlag}
use selective_mirror.Config.LocalPaths.{
  System, is_unsafe_local_path, is_unsafe_remote, overlaps_with, overlaps_each, resolved,
  after_colon, strip_extended, system_reason, system_directory, below_system_directory,
  validate_no_local_path_overlap, unc_path, traversal_segment,
}
use selective_mirror.Config.Validate.{
  Machine, Settings, a_directory, validate, check_mirrors, check_fields, check_paths, check_rest,
  case_collision, is_valid_delete_policy_string, check_each_flags, check_each_policy,
  check_rclone_config, check_rclone_path, check_webhook, check_severity,
}
use selective_mirror.Config.Validate.Sound.{IsSound, validate-IsSound}
use selective_mirror.Paths.{to_lower, split_on, contains_byte}

abbrev system : System
system = record {
  abs = λ p. some p;
  clean = λ p. p;
  getenv = λ name. if same name (codes "windir") then codes "C:\\Windows" else [];
}

abbrev machine : Machine
machine = record {
  system = system;
  stat = λ p. a_directory;
  parse_url = λ u. none;
  parse_ip = λ host. none;
}

abbrev at_path : Text → Text → Project
at_path name path = record notes { name = name; local_path = path }

abbrev with_mirrors : List Project → Settings
with_mirrors ps = record {
  global = defaults;
  projects = ps;
  alert_webhook_url = [];
  alert_min_severity = [];
}

abbrev two_mirrors : Settings
two_mirrors =
    with_mirrors
      (at_path (codes "docs") (codes "C:\\docs") ∷ at_path (codes "work") (codes "C:\\work") ∷ [])

validate-IsSound_example : IsSound machine (validate machine two_mirrors).0
unfolding validate check_mirrors check_fields check_paths check_rest member same is_empty to_lower
    is_unsafe_local_path is_unsafe_remote strip_extended system_reason has_prefix after_colon
    split_on any validate_no_local_path_overlap overlaps_with overlaps_each resolved
    validate_rclone_extra_flags check_rclone_config check_each_flags check_rclone_path check_webhook
    check_severity is_valid_delete_policy_string check_each_policy contains_byte
validate-IsSound_example = validate-IsSound machine two_mirrors refl

-- Names that differ in case only.
case_only :
    (validate machine (
      with_mirrors
        (at_path (codes "docs") (codes "C:\\a") ∷ at_path (codes "Docs") (codes "C:\\b") ∷ []))).1
    ≡ some case_collision
unfolding validate
case_only = refl

abbrev flags : List Text
flags = codes "--transfers=8" ∷ codes "-v" ∷ codes "--fast-list" ∷ []

validate_rclone_extra_flags-IsSafeFlag_example : All IsSafeFlag flags
unfolding validate_rclone_extra_flags check_flag check_long flag_name until_equals any member
    has_prefix same
validate_rclone_extra_flags-IsSafeFlag_example = validate_rclone_extra_flags-IsSafeFlag flags refl

-- Short flags are tested whole, so that a group of them passes.
grouped_short_flags :
    (check_flag (codes "-L") ≡ some short_not_allowed) × (check_flag (codes "-vL") ≡ none)
unfolding check_flag same
grouped_short_flags = (refl, refl)

-- A segment between a slash and a backslash is looked at by neither split.
mixed_separators :
    (is_unsafe_remote (codes "local:a/../b") ≡ some traversal_segment)
    × (is_unsafe_remote (codes "local:a/..\\b") ≡ none)
unfolding is_unsafe_remote
mixed_separators = (refl, refl)

system_directories :
    (is_unsafe_local_path system (codes "c:\\windows") ≡ some (system_directory (codes "windir")))
    × (is_unsafe_local_path system (codes "\\\\?\\C:\\Windows\\Logs")
        ≡ some (below_system_directory (codes "windir")))
    × (is_unsafe_local_path system (codes "C:\\WindowsApps") ≡ none)
    × (is_unsafe_local_path system (codes "\\\\server\\share") ≡ some unc_path)
unfolding is_unsafe_local_path
system_directories = (refl, refl, refl, refl)
