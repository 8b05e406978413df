-- ===== src/Store.antt =====
-- internal/state/state.go: the table sync_state. The rows of all projects are one list, with
-- (project, rel_path) as its key; a time is the number of seconds, 0 where the column is empty.
-- Each function is the SQL statement that its method sends. SQLite's LIKE is the argument `like`.
pub mod Statements
mod Tests
use selective_mirror.Base.{
  ℕ, Bool, true, false, not, ◌&&◌, ◌||◌, Option, none, some, List, [], ◌∷◌, ◌++◌, map, ◌==◌,
  if◌then◌else◌, keep, Text, codes, same,
}
use selective_mirror.Base.Int.{ℤ, pos, is_zero}

pub record FileState : Type 0 where
  pub project : Text
  pub rel_path : Text
  pub local_hash : Text
  pub file_size : ℕ
  pub mtime_ns : ℕ
  pub synced_at : ℕ
  pub rclone_exit : ℤ
  pub remote_verified_at : ℕ
  pub remote_hash : Text
  pub remote_size : ℕ

abbrev pub Rows : Type 0
Rows = List FileState

unfoldable pub is_key : Text → Text → FileState → Bool
is_key project rel_path row = same project row.project && same rel_path row.rel_path

unfoldable pub get_file_state : Text → Text → Rows → Option FileState
unfolding is_key
get_file_state project rel_path [] = none
get_file_state project rel_path (row ∷ rows) =
    if is_key project rel_path row then some row else get_file_state project rel_path rows

-- The rows of a key, changed.
unfoldable pub update_rows : Text → Text → (FileState → FileState) → Rows → Rows
unfolding is_key
update_rows project rel_path f [] = []
update_rows project rel_path f (row ∷ rows) =
    let rest = update_rows project rel_path f rows in
    (if is_key project rel_path row then f row else row) ∷ rest

unfoldable pub update_remote_verification : ℕ → Text → Text → Text → ℕ → Rows → Rows
unfolding update_rows
update_remote_verification now project rel_path hash size =
    update_rows project rel_path
      (λ row. record row { remote_verified_at = now; remote_hash = hash; remote_size = size })

unfoldable pub mark_remote_verification_stale : Text → Text → Rows → Rows
unfolding update_rows
mark_remote_verification_stale project rel_path =
    update_rows project rel_path (λ row. record row { remote_verified_at = 0 })

unfoldable pub update_mtime_only : Text → Text → ℕ → Rows → Rows
unfolding update_rows
update_mtime_only project rel_path mtime =
    update_rows project rel_path (λ row. record row { mtime_ns = mtime })

abbrev pub is_some {ℓ} : {A : Type ℓ} → Option A → Bool
is_some none = false
is_some (some a) = true

-- An insert that updates the row of the key where there is one.
unfoldable pub update_file_state : ℕ → Text → Text → Text → ℕ → ℕ → ℤ → Rows → Rows
unfolding update_rows get_file_state
update_file_state now project rel_path hash size mtime exit rows =
    if is_some (get_file_state project rel_path rows)
    then update_rows project rel_path
        (λ row. record row {
          local_hash = hash;
          file_size = size;
          mtime_ns = mtime;
          synced_at = now;
          rclone_exit = exit;
        })
        rows
    else rows
      ++ (record {
        project = project;
        rel_path = rel_path;
        local_hash = hash;
        file_size = size;
        mtime_ns = mtime;
        synced_at = now;
        rclone_exit = exit;
        remote_verified_at = 0;
        remote_hash = [];
        remote_size = 0;
      }
          ∷ [])

unfoldable pub delete_file_state : Text → Text → Rows → Rows
unfolding is_key keep
delete_file_state project rel_path = keep (λ row. not (is_key project rel_path row))

-- strings.ReplaceAll of a byte by itself behind a backslash.
unfoldable pub escape_byte : ℕ → Text → Text
escape_byte c [] = []
escape_byte c (x ∷ xs) = let rest = escape_byte c xs in if x == c then 92 ∷ x ∷ rest else x ∷ rest

unfoldable pub escape_like : Text → Text
unfolding escape_byte
escape_like s = escape_byte b'_' (escape_byte b'%' (escape_byte 92 s))

unfoldable pub get_files_under_dir : (Text → Text → Bool) → Text → Text → Rows → List Text
unfolding escape_like keep
get_files_under_dir like project dir rows =
    map (λ row. row.rel_path)
      (keep
        (λ (row : FileState).
          same project row.project
          && (same dir row.rel_path
              || like ((escape_like dir ++ codes "/") ++ codes "%") row.rel_path))
        rows)

unfoldable pub get_pending_files : Text → Rows → List Text
unfolding keep
get_pending_files project rows =
    map (λ row. row.rel_path)
      (keep (λ (row : FileState). same project row.project && not (is_zero row.rclone_exit)) rows)

unfoldable pub clear_stale_exit_codes : Text → Rows → Rows
clear_stale_exit_codes project [] = []
clear_stale_exit_codes project (row ∷ rows) =
    let rest = clear_stale_exit_codes project rows in
    (if same project row.project && not (is_zero row.rclone_exit)
      then record row { rclone_exit = pos 0 }
      else row)
    ∷ rest
