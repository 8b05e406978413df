-- ===== src/Sync/Steps.antt =====
-- What the small steps of internal/sync/sync.go change of the rclone calls and of the state table.
use selective_mirror.Base.{◌≡◌, refl, ◌⊎◌, inl, inr, Bool, Option, if_cases, Text}
use selective_mirror.Store.{Rows, delete_file_state}
use selective_mirror.Sync.{
  Env, World, record_anomaly, execute, query, log_action, forget_file_state, state_error,
}

abbrev pub Same : World → World → Type 0
Same w w' = (w'.calls ≡ w.calls) × (w'.rows ≡ w.rows)

pub log_action-Same :
    (env : Env) (path name : Text) (w : World) → Same w (log_action env path name w)
unfolding log_action record_anomaly
log_action-Same env path name w =
    if_cases (Same w) (env.db_fails w.statements) _ _ (λ _. (refl, refl)) (λ _. (refl, refl))

pub query-Same {ℓ} : {A : Type ℓ} (env : Env) (f : Rows → A) (w : World) → Same w (query env f w).0
unfolding query
query-Same {A = A} env f w =
    if_cases (λ (r : World × Option A). Same w r.0) (env.db_fails w.statements) _ _
      (λ _. (refl, refl)) (λ _. (refl, refl))

-- A statement either fails and changes nothing, or does its work.
abbrev pub Executed : (Rows → Rows) → World → World → Type 0
Executed f w w' = (w'.calls ≡ w.calls) × ((w'.rows ≡ w.rows) ⊎ (w'.rows ≡ f w.rows))

pub execute-Executed : (env : Env) (f : Rows → Rows) (w : World) → Executed f w (execute env f w).0
unfolding execute
execute-Executed env f w =
    if_cases (λ (r : World × Bool). Executed f w r.0) (env.db_fails w.statements) _ _
      (λ _. (refl, inl refl)) (λ _. (refl, inr refl))

pub forget_file_state-Executed :
    (env : Env) (project path : Text) (w : World)
    → Executed (delete_file_state project path) w (forget_file_state env project path w)
unfolding forget_file_state record_anomaly
forget_file_state-Executed env project path w =
    let r = execute env (delete_file_state project path) w in
    if_cases (Executed (delete_file_state project path) w) r.1 r.0
      (record_anomaly state_error path r.0)
      (λ _. execute-Executed env (delete_file_state project path) w)
      (λ _. execute-Executed env (delete_file_state project path) w)
