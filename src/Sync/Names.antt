-- ===== src/Sync/Names.antt =====
-- internal/sync/sync.go: paths that may be put behind a remote's name, and the lock of a task.
pub mod Inside
use selective_mirror.Base.{
  Bool, true, false, ◌||◌, [], ◌∷◌, ◌++◌, ◌==◌, if◌then◌else◌, any, Text, codes, same, is_empty,
}
use selective_mirror.Paths.{
  slash, backslash, colon, is_abs, to_slash, split_on, clean_segments, dot_dot,
}
use selective_mirror.Queue.{Task}

abbrev pub starts_rooted : Text → Bool
starts_rooted [] = false
starts_rooted (x ∷ xs) = x == slash || x == backslash

abbrev pub has_colon_second : Text → Bool
has_colon_second (x ∷ y ∷ ys) = y == colon
has_colon_second s = false

unfoldable pub is_unsafe_rel_path : Text → Bool
unfolding is_empty is_abs clean_segments split_on to_slash any same
is_unsafe_rel_path path =
    if is_empty path
    then false
    else if is_abs path
    then true
    else if starts_rooted path
    then true
    else if has_colon_second path
    then true
    else if is_empty (clean_segments [] (split_on slash (to_slash path)))
    then true
    else any (λ seg. same seg dot_dot) (split_on slash (to_slash path))

unfoldable pub lock_key : Task → Text
unfolding is_empty
lock_key task =
    if is_empty task.rel_path
    then task.project.name
    else task.project.name ++ (colon ∷ task.rel_path)

-- The place on the remote that a path of the mirror stands for.
abbrev pub remote_path : Text → Text → Text
remote_path remote path = (remote ++ codes "/") ++ to_slash path
