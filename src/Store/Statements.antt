-- ===== src/Store/Statements.antt =====
-- internal/state/state.go: the statements that drop or clear rows of whole mirrors, and a statement of
-- the package as a value. A run of statements goes from rows to rows.
pub mod Table
mod Lookup
mod Changes
pub mod Refines
use selective_mirror.Base.{
  ℕ, not, List, [], ◌∷◌, if◌then◌else◌, length, keep, Text, same, is_empty, member,
}
use selective_mirror.Base.Int.{ℤ}
use selective_mirror.Store.{
  FileState, Rows, update_remote_verification, mark_remote_verification_stale, update_mtime_only,
  update_file_state, delete_file_state, clear_stale_exit_codes,
}

-- DeleteProject, on this table.
unfoldable pub delete_project : Text → Rows → Rows
unfolding keep same
delete_project project = keep (λ (row : FileState). not (same project row.project))

unfoldable pub prune_orphaned_projects : List Text → Rows → Rows
unfolding keep member is_empty
prune_orphaned_projects active_projects rows =
    if is_empty active_projects
    then rows
    else keep (λ (row : FileState). member row.project active_projects) rows

unfoldable pub count_files : Text → Rows → ℕ
unfolding keep same
count_files project rows = length (keep (λ (row : FileState). same project row.project) rows)

pub data Statement : Type 0 where
  update_state : ℕ → Text → Text → Text → ℕ → ℕ → ℤ → Statement
  update_verification : ℕ → Text → Text → Text → ℕ → Statement
  mark_stale : Text → Text → Statement
  update_mtime : Text → Text → ℕ → Statement
  delete_state : Text → Text → Statement
  clear_exits : Text → Statement
  delete_mirror : Text → Statement
  prune_mirrors : List Text → Statement

unfoldable pub exec : Statement → Rows → Rows
unfolding update_file_state update_remote_verification mark_remote_verification_stale
    update_mtime_only delete_file_state clear_stale_exit_codes delete_project
    prune_orphaned_projects
exec (update_state now project rel_path hash size mtime exit) rows =
    update_file_state now project rel_path hash size mtime exit rows
exec (update_verification now project rel_path hash size) rows =
    update_remote_verification now project rel_path hash size rows
exec (mark_stale project rel_path) rows = mark_remote_verification_stale project rel_path rows
exec (update_mtime project rel_path mtime) rows = update_mtime_only project rel_path mtime rows
exec (delete_state project rel_path) rows = delete_file_state project rel_path rows
exec (clear_exits project) rows = clear_stale_exit_codes project rows
exec (delete_mirror project) rows = delete_project project rows
exec (prune_mirrors active_projects) rows = prune_orphaned_projects active_projects rows

unfoldable pub exec_all : List Statement → Rows → Rows
unfolding exec
exec_all [] rows = rows
exec_all (st ∷ sts) rows = exec_all sts (exec st rows)
