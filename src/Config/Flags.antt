-- ===== src/Config/Flags.antt =====
-- internal/config/config.go: validateRcloneExtraFlags and its denylist.
pub mod Denied
use selective_mirror.Base.{
  ℕ, ◌-◌, Bool, Option, none, some, List, [], ◌∷◌, ltb, ◌==◌, if◌then◌else◌, any, Text, codes,
  has_prefix, member,
}

-- The flags of the denylist with two hyphens, and the short ones.
abbrev pub denied_exact : List Text
denied_exact =
    codes "--log-file"
    ∷ codes "--log-format"
    ∷ codes "--config"
    ∷ codes "--password-command"
    ∷ codes "--ask-password"
    ∷ codes "--copy-links"
    ∷ codes "--links"
    ∷ []

abbrev pub denied_short : List Text
denied_short = codes "-L" ∷ codes "-l" ∷ []

abbrev pub denied_prefix : Text
denied_prefix = codes "--rc"

pub data FlagError : Type 0 where
  short_not_allowed not_ascii not_allowed control_plane : FlagError

unfoldable pub until_equals : Text → Text
until_equals [] = []
until_equals (c ∷ cs) = let rest = until_equals cs in if c == b'=' then [] else c ∷ rest

-- The flag without its value; an equals sign in front does not count.
unfoldable pub flag_name : Text → Text
unfolding until_equals
flag_name [] = []
flag_name (c ∷ cs) = if c == b'=' then c ∷ cs else c ∷ until_equals cs

abbrev pub is_not_ascii : ℕ → Bool
is_not_ascii c = ltb 127 c

unfoldable pub check_long : Text → Option FlagError
unfolding any member has_prefix
check_long name =
    if any is_not_ascii name
    then some not_ascii
    else if member name denied_exact
    then some not_allowed
    else if has_prefix denied_prefix name
    then some control_plane
    else none

unfoldable pub check_flag : Text → Option FlagError
unfolding flag_name check_long member has_prefix
check_flag raw =
    if has_prefix (codes "--") raw
    then check_long (flag_name raw)
    else if has_prefix (codes "-") raw
    then (if member (flag_name raw) denied_short then some short_not_allowed else none)
    else none

abbrev pub or_else {ℓ} : {E : Type ℓ} → Option E → Option E → Option E
or_else (some e) later = some e
or_else none later = later

unfoldable pub validate_rclone_extra_flags : List Text → Option FlagError
unfolding check_flag
validate_rclone_extra_flags [] = none
validate_rclone_extra_flags (raw ∷ flags) =
    or_else (check_flag raw) (validate_rclone_extra_flags flags)
