-- ===== src/Store/Statements/Table.antt =====
-- internal/state/state.go: the table as a map from mirror and path to what is known of the file, and what
-- each statement does to it.
use selective_mirror.Base.{
  ℕ, Bool, ◌&&◌, ◌||◌, Option, none, some, List, [], ◌∷◌, if◌then◌else◌, Text, same, is_empty,
  member,
}
use selective_mirror.Base.Int.{ℤ, pos}
use selective_mirror.Store.{FileState, Rows, get_file_state}
use selective_mirror.Store.Statements.{
  Statement, update_state, update_verification, mark_stale, update_mtime, delete_state, clear_exits,
  delete_mirror, prune_mirrors,
}

-- What the package promises: at most one state for each mirror and path.
abbrev pub Table : Type 0
Table = Text → Text → Option FileState

-- The table that the rows stand for.
abbrev pub table_of : Rows → Table
table_of rows project rel_path = get_file_state project rel_path rows

abbrev pub changed {ℓ} : {A : Type ℓ} → (A → A) → Option A → Option A
changed f none = none
changed f (some a) = some (f a)

abbrev pub is_at : Text → Text → Text → Text → Bool
is_at project rel_path p q = same project p && same rel_path q

abbrev pub change_at : Text → Text → (FileState → FileState) → Table → Table
change_at project rel_path f t p q = if is_at project rel_path p q then changed f (t p q) else t p q

-- The state after an update, from the one before it.
abbrev pub synced : ℕ → Text → Text → Text → ℕ → ℕ → ℤ → Option FileState → FileState
synced now project rel_path hash size mtime exit none = record {
  project = project;
  rel_path = rel_path;
  local_hash = hash;
  file_size = size;
  mtime_ns = mtime;
  synced_at = now;
  rclone_exit = exit;
  remote_verified_at = 0;
  remote_hash = [];
  remote_size = 0;
}
synced now project rel_path hash size mtime exit (some row) = record row {
  local_hash = hash;
  file_size = size;
  mtime_ns = mtime;
  synced_at = now;
  rclone_exit = exit;
}

-- Each statement on the map.
abbrev pub spec : Statement → Table → Table
spec (update_state now project rel_path hash size mtime exit) t p q =
    if is_at project rel_path p q
    then some (synced now project rel_path hash size mtime exit (t p q))
    else t p q
spec (update_verification now project rel_path hash size) t p q =
    change_at project rel_path
      (λ row. record row { remote_verified_at = now; remote_hash = hash; remote_size = size }) t p q
spec (mark_stale project rel_path) t p q =
    change_at project rel_path (λ row. record row { remote_verified_at = 0 }) t p q
spec (update_mtime project rel_path mtime) t p q =
    change_at project rel_path (λ row. record row { mtime_ns = mtime }) t p q
spec (delete_state project rel_path) t p q = if is_at project rel_path p q then none else t p q
spec (clear_exits project) t p q =
    if same project p then changed (λ row. record row { rclone_exit = pos 0 }) (t p q) else t p q
spec (delete_mirror project) t p q = if same project p then none else t p q
spec (prune_mirrors active_projects) t p q =
    if is_empty active_projects || member p active_projects then t p q else none

abbrev pub spec_all : List Statement → Table → Table
spec_all [] t = t
spec_all (st ∷ sts) t = spec_all sts (spec st t)
