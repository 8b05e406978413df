-- ===== src/Store/Tests.antt =====
-- Runs of statements, and the theorem of the table at concrete inputs.
use selective_mirror.Base.{◌≡◌, refl, List, [], ◌∷◌, keep, codes, same, is_empty, member}
use selective_mirror.Base.Int.{pos}
use selective_mirror.Store.{
  get_file_state, update_file_state, update_rows, is_key, delete_file_state, clear_stale_exit_codes,
}
use selective_mirror.Store.Statements.{
  Statement, update_state, clear_exits, delete_state, prune_mirrors, exec, exec_all, count_files,
  prune_orphaned_projects,
}
use selective_mirror.Store.Statements.Table.{table_of, spec_all}
use selective_mirror.Store.Statements.Refines.{exec_all-spec_all}

abbrev a_day : List Statement
a_day =
    update_state 5 (codes "notes") (codes "a") (codes "h1") 3 7 (pos 1)
    ∷ update_state 6 (codes "notes") (codes "b") (codes "h2") 4 8 (pos 0)
    ∷ update_state 7 (codes "old") (codes "c") (codes "h3") 5 9 (pos 0)
    ∷ clear_exits (codes "notes")
    ∷ delete_state (codes "notes") (codes "b")
    ∷ prune_mirrors (codes "notes" ∷ [])
    ∷ []

exec_all-spec_all_example : table_of (exec_all a_day []) ≡ spec_all a_day (table_of [])
exec_all-spec_all_example = exec_all-spec_all a_day []

-- One row is left, and its exit code is cleared.
what_is_left :
    (count_files (codes "notes") (exec_all a_day []) ≡ 1)
    × (count_files (codes "old") (exec_all a_day []) ≡ 0)
unfolding exec_all exec update_file_state get_file_state update_rows is_key delete_file_state
    clear_stale_exit_codes prune_orphaned_projects keep member same is_empty count_files
what_is_left = (refl, refl)
