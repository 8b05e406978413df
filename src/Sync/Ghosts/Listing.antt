-- ===== src/Sync/Ghosts/Listing.antt =====
-- internal/sync/sync.go: the remote listing without its duplicates. The map from paths to entries is
-- a list in the order of insertion, which is the order of its indices. The argument `time_of` is
-- time.Parse for RFC 3339, as a number of nanoseconds.
use selective_mirror.Base.{
  ℕ, Bool, true, false, Option, none, some, List, [], ◌∷◌, ltb, leb, ◌==◌, if◌then◌else◌, length,
  any, Text, same,
}
use selective_mirror.Paths.{to_slash}
use selective_mirror.Sync.Ghosts.{RemoteFile}

abbrev pub newer_times : Option ℕ → Option ℕ → ℕ → ℕ → Bool
newer_times none none a b = leb b a
newer_times none (some t) a b = false
newer_times (some t) none a b = true
newer_times (some t) (some u) a b = if t == u then leb b a else ltb u t

unfoldable pub remote_file_newer : (Text → Option ℕ) → RemoteFile → RemoteFile → Bool
remote_file_newer time_of a b = newer_times (time_of a.mod_time) (time_of b.mod_time) a.size b.size

abbrev pub path_of : RemoteFile → Text
path_of file = to_slash file.path

abbrev pub has_path : Text → List RemoteFile → Bool
has_path path best = any (λ (e : RemoteFile). same (path_of e) path) best

-- The winner of an entry and a file with its path; a tie keeps the entry.
abbrev pub winner : (Text → Option ℕ) → RemoteFile → RemoteFile → RemoteFile
winner time_of entry file = if remote_file_newer time_of entry file then entry else file

unfoldable pub merge_file : (Text → Option ℕ) → RemoteFile → List RemoteFile → List RemoteFile
unfolding remote_file_newer to_slash same
merge_file time_of file [] = file ∷ []
merge_file time_of file (entry ∷ best) =
    let rest = merge_file time_of file best in
    if same (path_of entry) (path_of file) then winner time_of entry file ∷ best else entry ∷ rest

unfoldable pub merge_files : (Text → Option ℕ) → List RemoteFile → List RemoteFile → List RemoteFile
unfolding merge_file
merge_files time_of [] best = best
merge_files time_of (file ∷ files) best = merge_files time_of files (merge_file time_of file best)

-- Without a duplicate the listing is returned as it came.
unfoldable pub deduplicate_remote_files : (Text → Option ℕ) → List RemoteFile → List RemoteFile
unfolding merge_files
deduplicate_remote_files time_of files =
    let best = merge_files time_of files [] in if length best == length files then files else best
