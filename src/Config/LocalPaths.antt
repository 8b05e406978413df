-- ===== src/Config/LocalPaths.antt =====
-- internal/config/config.go: isUnsafeLocalPath, isUnsafeRemote and validateNoLocalPathOverlap.
pub mod Apart
use selective_mirror.Base.{
  ℕ, suc, ◌+◌, ◌/◌, Bool, false, ◌&&◌, ◌||◌, Option, none, some, List, [], ◌∷◌, ◌++◌, ◌==◌,
  if◌then◌else◌, any, Text, codes, same, is_empty, has_prefix,
}
use selective_mirror.Config.{Project}
use selective_mirror.Config.Flags.{or_else}
use selective_mirror.Paths.{backslash, colon, slash, dot_dot, is_letter, split_on, to_lower}

-- What the system answers: filepath.Abs, which ends in Clean; Clean of a whole path; os.Getenv.
pub record System : Type 0 where
  pub abs : Text → Option Text
  pub clean : Text → Text
  pub getenv : Text → Text

pub data Reason : Type 0 where
  unc_path drive_root filesystem_root : Reason
  system_directory : Text → Reason
  below_system_directory : Text → Reason
  traversal_segment : Reason

abbrev pub unc_extended : Text
unc_extended = backslash ∷ backslash ∷ b'?' ∷ backslash ∷ codes "UNC" ++ (backslash ∷ [])

abbrev pub extended : Text
extended = backslash ∷ backslash ∷ b'?' ∷ backslash ∷ []

abbrev pub unc : Text
unc = backslash ∷ backslash ∷ []

-- s[len(prefix):]
abbrev pub without_prefix : Text → Text → Text
without_prefix [] s = s
without_prefix (p ∷ ps) [] = []
without_prefix (p ∷ ps) (x ∷ xs) = without_prefix ps xs

unfoldable pub strip_extended : Text → Text
unfolding has_prefix
strip_extended p =
    if has_prefix unc_extended p
    then unc ++ without_prefix unc_extended p
    else if has_prefix extended p
    then without_prefix extended p
    else p

-- A volume name and one backslash.
abbrev pub is_drive_root : Text → Bool
is_drive_root (d ∷ c ∷ x ∷ []) = is_letter d && (c == colon && x == backslash)
is_drive_root p = false

abbrev pub env_vars : List Text
env_vars =
    codes "SystemRoot"
    ∷ codes "ProgramFiles"
    ∷ codes "ProgramFiles(x86)"
    ∷ codes "ProgramData"
    ∷ codes "windir"
    ∷ []

unfoldable pub system_reason : System → Text → List Text → Option Reason
unfolding has_prefix same to_lower is_empty
system_reason sys lowered [] = none
system_reason sys lowered (ev ∷ evs) =
    let later = system_reason sys lowered evs in
    let dir = to_lower (sys.clean (sys.getenv ev)) in
    if is_empty (sys.getenv ev)
    then later
    else if same lowered dir
    then some (system_directory ev)
    else if has_prefix (dir ++ (backslash ∷ [])) lowered
    then some (below_system_directory ev)
    else later

abbrev pub cleaned_reason : System → Text → Option Reason
cleaned_reason sys cleaned =
    if is_drive_root cleaned
    then some drive_root
    else if same cleaned (codes "/")
    then some filesystem_root
    else system_reason sys (to_lower cleaned) env_vars

abbrev pub abs_reason : System → Option Text → Option Reason
abs_reason sys none = none
abs_reason sys (some cleaned) = cleaned_reason sys cleaned

unfoldable pub is_unsafe_local_path : System → Text → Option Reason
unfolding has_prefix system_reason strip_extended is_empty same to_lower
is_unsafe_local_path sys p =
    if is_empty p
    then none
    else if has_prefix unc (strip_extended p)
    then some unc_path
    else abs_reason sys (sys.abs (strip_extended p))

-- What follows the first colon.
unfoldable pub after_colon : Text → Option Text
after_colon [] = none
after_colon (c ∷ cs) = let rest = after_colon cs in if c == colon then some cs else rest

abbrev pub has_dot_dot : ℕ → Text → Bool
has_dot_dot sep tail = any (λ seg. same seg dot_dot) (split_on sep tail)

abbrev pub tail_reason : Option Text → Option Reason
tail_reason none = none
tail_reason (some tail) =
    if is_empty tail
    then none
    else if has_dot_dot slash tail || has_dot_dot backslash tail
    then some traversal_segment
    else none

unfoldable pub is_unsafe_remote : Text → Option Reason
unfolding after_colon any same split_on is_empty
is_unsafe_remote r = tail_reason (after_colon r)

-- A mirror's name and its resolved path.
pub record Entry : Type 0 where
  pub name : Text
  pub abs : Text

pub data OverlapError : Type 0 where
  same_path : Entry → Entry → OverlapError
  parent_path : Entry → Entry → OverlapError

unfoldable pub overlaps_with : ℕ → Entry → ℕ → List Entry → Option OverlapError
unfolding has_prefix same to_lower
overlaps_with i a j [] = none
overlaps_with i a j (b ∷ bs) =
    let later = overlaps_with i a (suc j) bs in
    if i == j
    then later
    else if same (to_lower a.abs) (to_lower b.abs)
    then some (same_path a b)
    else if has_prefix (to_lower a.abs ++ (backslash ∷ [])) (to_lower b.abs)
    then some (parent_path a b)
    else later

unfoldable pub overlaps_each : ℕ → List Entry → List Entry → Option OverlapError
unfolding overlaps_with
overlaps_each i [] all = none
overlaps_each i (a ∷ es) all = or_else (overlaps_with i a 0 all) (overlaps_each (suc i) es all)

abbrev pub entry_of : Project → Option Text → List Entry → List Entry
entry_of p none es = es
entry_of p (some abs) es = record { name = p.name; abs = abs } ∷ es

unfoldable pub resolved : System → List Project → List Entry
resolved sys [] = []
resolved sys (p ∷ ps) = entry_of p (sys.abs p.local_path) (resolved sys ps)

unfoldable pub validate_no_local_path_overlap : System → List Project → Option OverlapError
unfolding overlaps_each resolved
validate_no_local_path_overlap sys ps = overlaps_each 0 (resolved sys ps) (resolved sys ps)
