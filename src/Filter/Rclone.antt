-- ===== src/Filter/Rclone.antt =====
-- filter.go: GenerateRcloneFilterFile. The temporary file is the list of its lines.
use selective_mirror.Base.{
  ℕ, Bool, true, false, not, ◌&&◌, List, [], ◌∷◌, ◌++◌, map, ◌==◌, if◌then◌else◌, keep, Text, codes,
  same, is_empty, ends_with, member,
}
use selective_mirror.Paths.{base, slash, backslash}
use selective_mirror.Filter.Rules.{trim_trailing_unescaped, space}
use selective_mirror.Filter.Engine.{Engine}
use mathlib.Core.List.{reverse}

abbrev pub bang : ℕ
bang = b'!'

-- strings.ReplaceAll of a backslash and a space by a space.
unfoldable pub unescape_spaces : Text → Text
unescape_spaces [] = []
unescape_spaces (c ∷ []) = c ∷ []
unescape_spaces (c ∷ d ∷ s) = elim (c == backslash && d == space) [
  | true ↦ space ∷ unescape_spaces s
  | false ↦ c ∷ unescape_spaces (d ∷ s)
]

unfoldable pub starts_with_bang : Text → Bool
starts_with_bang [] = false
starts_with_bang (c ∷ s) = c == bang

abbrev pub behind_first : Text → Text
behind_first [] = []
behind_first (c ∷ s) = s

unfoldable pub to_rclone_filter : Text → Text
unfolding unescape_spaces starts_with_bang ends_with trim_trailing_unescaped
to_rclone_filter pattern =
    let body = unescape_spaces (trim_trailing_unescaped pattern) in
    if starts_with_bang body
    then codes "+ " ++ behind_first body
    else if ends_with slash body
    then codes "- " ++ (body ++ codes "**")
    else codes "- " ++ body

-- A global rule for a directory, which no project rule may override.
abbrev pub is_global_dir : Text → Bool
is_global_dir r = ends_with slash r && not (starts_with_bang r)

abbrev pub control_lines : Engine → List Text
control_lines e =
    let name = if is_empty e.sync_ignore_path then [] else base e.sync_ignore_path in
    codes "- .syncignore"
    ∷ (if not (is_empty name) && not (same name (codes ".syncignore"))
        then (codes "- " ++ name) ∷ []
        else [])

abbrev pub good_lines : Engine → List Text → List Text
good_lines e rules = map to_rclone_filter (keep (λ r. not (member r e.bad_patterns)) rules)

abbrev pub combined_rules : Engine → List Text
combined_rules e = keep (λ r. not (is_global_dir r)) e.global_rules ++ e.project_rules

unfoldable pub rclone_filter_lines : Engine → List Text
unfolding to_rclone_filter base
rclone_filter_lines e =
    control_lines e
    ++ (good_lines e (keep is_global_dir e.global_rules)
        ++ (good_lines e (reverse (combined_rules e)) ++ codes "+ **" ∷ []))
