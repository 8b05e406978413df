-- ===== src/Config/Validate.antt =====
-- internal/config/config.go: Validate and validateWebhookURL, with what the machine answers.
pub mod Sound
use selective_mirror.Base.{
  Bool, true, false, not, ◌&&◌, ◌||◌, Option, none, some, List, [], ◌∷◌, if◌then◌else◌, Text, codes,
  same, is_empty, member, TextMap, put,
}
use selective_mirror.Base.Int.{pos, is_pos}
use selective_mirror.Config.{Project, Global}
use selective_mirror.Config.Flags.{FlagError, or_else, validate_rclone_extra_flags}
use selective_mirror.Config.LocalPaths.{
  System, Reason, OverlapError, is_unsafe_local_path, is_unsafe_remote,
  validate_no_local_path_overlap,
}
use selective_mirror.Paths.{backslash, contains_byte, is_abs, to_lower}

pub data FileKind : Type 0 where
  missing a_directory a_regular_file something_else : FileKind

pub record Url : Type 0 where
  pub scheme : Text
  pub host : Text
  pub hostname : Text

-- The answers of the methods of net.IP.
pub record Ip : Type 0 where
  pub is_loopback : Bool
  pub is_private : Bool
  pub is_link_local_unicast : Bool
  pub is_link_local_multicast : Bool
  pub is_multicast : Bool
  pub is_unspecified : Bool
  pub is_interface_local_multicast : Bool

-- os.Stat, url.Parse and net.ParseIP, and what paths need.
pub record Machine : Type 0 where
  pub system : System
  pub stat : Text → FileKind
  pub parse_url : Text → Option Url
  pub parse_ip : Text → Option Ip

-- The configuration: the settings of Global, its mirrors and its alerts.
pub record Settings : Type 0 where
  pub global : Global
  pub projects : List Project
  pub alert_webhook_url : Text
  pub alert_min_severity : Text

pub data WebhookError : Type 0 where
  invalid_url scheme_not_allowed host_is_empty address_blocked : WebhookError

pub data ConfigError : Type 0 where
  no_mirrors name_required duplicate_name case_collision : ConfigError
  local_path_required remote_required path_missing not_a_directory invalid_policy : ConfigError
  unsafe_path : Reason → ConfigError
  unsafe_remote : Reason → ConfigError
  overlap : OverlapError → ConfigError
  config_missing config_not_regular : ConfigError
  bad_flag : FlagError → ConfigError
  rclone_missing rclone_is_directory : ConfigError
  bad_webhook : WebhookError → ConfigError
  unknown_severity unknown_policy : ConfigError

abbrev pub fails_if {ℓ} : {E : Type ℓ} → Bool → E → Option E
fails_if bad e = if bad then some e else none

abbrev pub as_error {ℓ κ} : {E : Type ℓ} → {F : Type κ} → (E → F) → Option E → Option F
as_error f none = none
as_error f (some e) = some (f e)

abbrev pub is_missing : FileKind → Bool
is_missing missing = true
is_missing a_directory = false
is_missing a_regular_file = false
is_missing something_else = false

abbrev pub is_directory : FileKind → Bool
is_directory missing = false
is_directory a_directory = true
is_directory a_regular_file = false
is_directory something_else = false

abbrev pub is_regular_file : FileKind → Bool
is_regular_file missing = false
is_regular_file a_directory = false
is_regular_file a_regular_file = true
is_regular_file something_else = false

abbrev pub delete_policies : List Text
delete_policies = codes "ignore" ∷ codes "delete" ∷ codes "mirror" ∷ codes "quarantine" ∷ []

unfoldable pub is_valid_delete_policy_string : Text → Bool
unfolding member
is_valid_delete_policy_string s = member s ([] ∷ delete_policies)

abbrev pub is_blocked_ip : Ip → Bool
is_blocked_ip ip =
    ip.is_loopback || ip.is_private || ip.is_link_local_unicast || ip.is_link_local_multicast
    || ip.is_multicast || ip.is_unspecified || ip.is_interface_local_multicast

abbrev pub blocks : Option Ip → Bool
blocks none = false
blocks (some ip) = is_blocked_ip ip

abbrev pub check_url : Machine → Option Url → Option WebhookError
check_url m none = some invalid_url
check_url m (some u) = or_else (fails_if (not (same u.scheme (codes "https"))) scheme_not_allowed) (
    or_else (fails_if (is_empty u.host) host_is_empty)
      (fails_if (blocks (m.parse_ip u.hostname)) address_blocked))

unfoldable pub validate_webhook_url : Machine → Text → Option WebhookError
unfolding same is_empty
validate_webhook_url m raw = check_url m (m.parse_url raw)

-- The names met so far, each under its lower-case form.
abbrev pub check_name : Option Text → Text → Option ConfigError
check_name none name = none
check_name (some existing) name =
    if same existing name then some duplicate_name else some case_collision

-- The tests of a mirror up to the default for its size limit, and those after.
unfoldable pub check_fields : Machine → TextMap Text → Project → Option ConfigError
unfolding is_empty member same to_lower
check_fields m names p = or_else (fails_if (is_empty p.name) name_required) (
    or_else (check_name (names (to_lower p.name)) p.name) (
      or_else (fails_if (is_empty p.local_path) local_path_required) (
        or_else (fails_if (is_empty p.remote) remote_required) (
          or_else (fails_if (is_missing (m.stat p.local_path)) path_missing) (
            or_else (fails_if (not (is_directory (m.stat p.local_path))) not_a_directory) (
              fails_if
                (not (is_empty p.delete_policy_str)
                  && not (member p.delete_policy_str delete_policies))
                invalid_policy))))))

unfoldable pub check_paths : Machine → Project → Option ConfigError
unfolding is_unsafe_local_path is_unsafe_remote
check_paths m p =
    or_else (as_error unsafe_path (is_unsafe_local_path m.system p.local_path))
      (as_error unsafe_remote (is_unsafe_remote p.remote))

abbrev pub with_default_size : Project → Project
with_default_size p =
    if is_pos p.max_file_size_mb then p else record p { max_file_size_mb = pos 100 }

-- The loop stops at the first error; the mirrors before it have their defaults.
abbrev pub after_mirror :
    Project
    → List Project
    → Option ConfigError
    → Option ConfigError
    → List Project × Option ConfigError
    → List Project × Option ConfigError
after_mirror p ps (some e) later rest = (p ∷ ps, some e)
after_mirror p ps none (some e) rest = (with_default_size p ∷ ps, some e)
after_mirror p ps none none (ps', e) = (with_default_size p ∷ ps', e)

unfoldable pub check_mirrors :
    Machine → TextMap Text → List Project → List Project × Option ConfigError
unfolding check_fields check_paths to_lower
check_mirrors m names [] = ([], none)
check_mirrors m names (p ∷ ps) =
    after_mirror p ps (check_fields m names p) (check_paths m p)
      (check_mirrors m (put (to_lower p.name) p.name names) ps)

unfoldable pub check_rclone_config : Machine → Text → Option ConfigError
unfolding is_empty
check_rclone_config m path =
    if is_empty path
    then none
    else or_else (fails_if (is_missing (m.stat path)) config_missing)
        (fails_if (not (is_regular_file (m.stat path))) config_not_regular)

unfoldable pub check_each_flags : List Project → Option ConfigError
unfolding validate_rclone_extra_flags
check_each_flags [] = none
check_each_flags (p ∷ ps) =
    or_else (as_error bad_flag (validate_rclone_extra_flags p.rclone_extra_flags))
      (check_each_flags ps)

-- A bare command name is looked for at run time, and not tested.
unfoldable pub check_rclone_path : Machine → Text → Option ConfigError
unfolding is_empty contains_byte
check_rclone_path m path =
    if not (is_empty path) && (is_abs path || contains_byte backslash path)
    then or_else (fails_if (is_missing (m.stat path)) rclone_missing)
        (fails_if (is_directory (m.stat path)) rclone_is_directory)
    else none

unfoldable pub check_webhook : Machine → Text → Option ConfigError
unfolding is_empty validate_webhook_url
check_webhook m raw =
    if is_empty raw then none else as_error bad_webhook (validate_webhook_url m raw)

abbrev pub severities : List Text
severities = codes "info" ∷ codes "warning" ∷ codes "error" ∷ codes "critical" ∷ []

unfoldable pub check_severity : Text → Option ConfigError
unfolding is_empty member
check_severity s = fails_if (not (is_empty s) && not (member s severities)) unknown_severity

unfoldable pub check_each_policy : List Project → Option ConfigError
unfolding is_valid_delete_policy_string
check_each_policy [] = none
check_each_policy (p ∷ ps) =
    or_else (fails_if (not (is_valid_delete_policy_string p.delete_policy_str)) unknown_policy)
      (check_each_policy ps)

-- The tests after the loop over the mirrors.
unfoldable pub check_rest : Machine → Settings → Option ConfigError
unfolding validate_no_local_path_overlap check_rclone_config validate_rclone_extra_flags
    check_each_flags check_rclone_path check_webhook check_severity is_valid_delete_policy_string
    check_each_policy
check_rest m s = or_else (as_error overlap (validate_no_local_path_overlap m.system s.projects)) (
    or_else (check_rclone_config m s.global.rclone_config) (
      or_else (as_error bad_flag (validate_rclone_extra_flags s.global.rclone_extra_flags)) (
        or_else (check_each_flags s.projects) (
          or_else (check_rclone_path m s.global.rclone_path) (
            or_else (check_webhook m s.alert_webhook_url) (
              or_else (check_severity s.alert_min_severity) (
                or_else
                  (fails_if (not (is_valid_delete_policy_string s.global.delete_policy_str))
                    unknown_policy)
                  (check_each_policy s.projects))))))))

-- The configuration as Validate leaves it, with its error.
unfoldable pub validate : Machine → Settings → Settings × Option ConfigError
unfolding check_mirrors check_rest is_empty
validate m s =
    let (ps, failed) = check_mirrors m (λ name. none) s.projects in
    let s' = record s { projects = ps } in
    if is_empty s.projects then (s, some no_mirrors) else (s', or_else failed (check_rest m s'))
