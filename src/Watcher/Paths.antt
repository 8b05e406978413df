-- ===== src/Watcher/Paths.antt =====
-- internal/watcher/watcher.go: isRelSubPath and isSubPath.
use selective_mirror.Base.{
  Bool, true, false, ◌&&◌, ◌||◌, [], ◌∷◌, ◌==◌, if◌then◌else◌, Text, codes, same, is_empty,
}
use selective_mirror.Paths.{slash, backslash, to_lower}

-- `child` has `parent` in front, and a slash behind it.
unfoldable pub is_below : Text → Text → Bool
is_below [] [] = false
is_below (c ∷ cs) [] = c == slash
is_below [] (p ∷ ps) = false
is_below (c ∷ cs) (p ∷ ps) = c == p && is_below cs ps

unfoldable pub is_rel_sub_path : Text → Text → Bool
unfolding is_below same is_empty
is_rel_sub_path child parent =
    if same parent (codes ".") || is_empty parent then true else is_below child parent

unfoldable pub is_at_or_below : Text → Text → Bool
is_at_or_below [] [] = true
is_at_or_below (c ∷ cs) [] = c == backslash
is_at_or_below [] (p ∷ ps) = false
is_at_or_below (c ∷ cs) (p ∷ ps) = c == p && is_at_or_below cs ps

-- isSubPath on Windows, of clean absolute paths.
unfoldable pub is_sub_path : Text → Text → Bool
unfolding is_at_or_below to_lower
is_sub_path child parent = is_at_or_below (to_lower child) (to_lower parent)
