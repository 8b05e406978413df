-- ===== src/Sync.antt =====
-- internal/sync/sync.go: what the sync engine does with a task. A method is a function of the world:
-- the state table, the rclone calls and the audit entries so far (the last one first), the anomalies
-- and the task queue. What rclone, the database, the clock and SQLite's LIKE answer comes from an
-- environment, by the number of the call; logs and metrics are left out.
pub mod Steps
pub mod Locks
pub mod Names
pub mod Flags
pub mod Delete
pub mod Upload
pub mod Ghosts
pub mod Quarantine
pub mod Walk
pub mod Full
pub mod Task
use selective_mirror.Base.{
  ℕ, suc, Bool, true, false, Option, none, some, List, ◌∷◌, if◌then◌else◌, length, Text,
}
use selective_mirror.Base.Int.{ℤ}
use selective_mirror.Config.{Global}
use selective_mirror.Queue.{FairQueue}
use selective_mirror.Store.{Rows, delete_file_state}

pub record Env : Type 0 where
  pub config : Global
  -- The exit code of the n-th rclone call, and whether the context is cancelled after it.
  pub exit_of : ℕ → ℤ
  pub cancelled : ℕ → Bool
  -- Whether the n-th statement sent to the database fails.
  pub db_fails : ℕ → Bool
  pub now : ℕ
  -- The text of the time in nanoseconds at the n-th rclone call.
  pub stamp : ℕ → Text
  pub like : Text → Text → Bool

pub data AnomalyKind : Type 0 where
  state_error sync_failure sync_timeout circuit_breaker ghost_leak ghost_orphan ghost_stale :
      AnomalyKind

pub record Action : Type 0 where
  pub rel_path : Text
  pub name : Text

pub record World : Type 0 where
  pub rows : Rows
  pub statements : ℕ
  pub calls : List (List Text)
  pub actions : List Action
  pub anomalies : List (AnomalyKind × Text)
  pub queue : FairQueue

unfoldable pub record_anomaly : AnomalyKind → Text → World → World
record_anomaly kind rel_path w = record w { anomalies = (kind, rel_path) ∷ w.anomalies }

-- A statement that changes the table: the new table, or no change where it fails.
unfoldable pub execute : Env → (Rows → Rows) → World → World × Bool
execute env f w =
    if env.db_fails w.statements
    then (record w { statements = suc w.statements }, false)
    else (record w { statements = suc w.statements; rows = f w.rows }, true)

-- A query: `none` where it fails.
unfoldable pub query {ℓ} : {A : Type ℓ} → Env → (Rows → A) → World → World × Option A
query env f w =
    let asked = record w { statements = suc w.statements } in
    if env.db_fails w.statements then (asked, none) else (asked, some (f w.rows))

-- An entry of sync_log, or an anomaly where the log cannot be written.
unfoldable pub log_action : Env → Text → Text → World → World
unfolding record_anomaly
log_action env rel_path name w =
    let asked = record w { statements = suc w.statements } in
    if env.db_fails w.statements
    then record_anomaly state_error rel_path asked
    else record asked { actions = record { rel_path = rel_path; name = name } ∷ asked.actions }

-- The row goes, or an anomaly tells that it could not.
unfoldable pub forget_file_state : Env → Text → Text → World → World
unfolding execute record_anomaly delete_file_state
forget_file_state env project rel_path w =
    let (w', ok) = execute env (delete_file_state project rel_path) w in
    if ok then w' else record_anomaly state_error rel_path w'

unfoldable pub run_rclone : Env → List Text → World → World × ℤ
run_rclone env args w = (record w { calls = args ∷ w.calls }, env.exit_of (length w.calls))
