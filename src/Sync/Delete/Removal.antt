-- ===== src/Sync/Delete/Removal.antt =====
-- When deleteRemoteFile takes rows out of the state table (internal/sync/sync.go).
use selective_mirror.Base.{
  ℕ, ◌≤◌, ◌<◌, ◌≡◌, refl, sym, ap, subst, ◌∙◌, ◌⊎◌, inl, inr, Bool, true, not, some, List, [], ◌∷◌,
  arith, if_cases, length, keep, Text, codes, same,
}
use selective_mirror.Base.Int.{is_zero}
use selective_mirror.Config.{Project, DeletePolicy, ignore, delete, quarantine}
use selective_mirror.Sync.{Env, World, log_action, forget_file_state, run_rclone}
use selective_mirror.Store.{FileState, Rows, delete_file_state, is_key}
use selective_mirror.Sync.Names.{remote_path}
use selective_mirror.Sync.Flags.{delete_flags}
use selective_mirror.Sync.Steps.{log_action-Same, Executed, forget_file_state-Executed}
use selective_mirror.Sync.Delete.{
  policy_of, delete_tracked, delete_on_remote, quarantine_on_remote, quarantine_path, settle,
  forget_all, purge, delete_remote_file,
}
use selective_mirror.Sync.Delete.Present.{IsKeyed}
use selective_mirror.Sync.Delete.Total.{delete_remote_file-Returns}
use selective_mirror.Sync.Delete.Preserve.{Ends→holds, delete_remote_file-keeps}

-- Some call from the n-th on has worked.
abbrev pub Worked : Env → ℕ → World → Type 0
Worked env n w = (m : ℕ) × ((n ≤ m) × ((m < length w.calls) × (is_zero (env.exit_of m) ≡ true)))

-- The rows of the other projects, which stay.
abbrev pub others : Text → Rows → Rows
others project = keep (λ (row : FileState). not (same project row.project))

-- Against a world `w₀`: no row of another project is touched, and the table is as it was unless a
-- call since then has worked.
abbrev pub Guarded : Env → Project → World → World → Type 0
Guarded env proj w₀ w =
    (others proj.name w.rows ≡ others proj.name w₀.rows)
    × ((length w₀.calls ≤ length w.calls) × ((w.rows ≡ w₀.rows) ⊎ Worked env (length w₀.calls) w))

others-delete_file_state :
    (project path : Text) (rows : Rows)
    → others project (delete_file_state project path rows) ≡ others project rows
unfolding delete_file_state keep is_key
others-delete_file_state project path [] = refl
others-delete_file_state project path (row ∷ rows) =
    ground (arith, others-delete_file_state project path rows)

-- A row goes after a call that worked.
Executed-after :
    (env : Env) (proj : Project) (w₀ w w' : World) (path : Text)
    → Executed (delete_file_state proj.name path) w w'
    → Worked env (length w₀.calls) w
    → Guarded env proj w₀ w
    → Guarded env proj w₀ w'
Executed-after env proj w₀ w w' path (same_calls, change) worked (kept, (more, _)) = (
  elim change [
    | inl same_rows ↦ ap (others proj.name) same_rows ∙ kept
    | inr fewer ↦
        ap (others proj.name) fewer ∙ others-delete_file_state proj.name path w.rows ∙ kept
  ],
  (
    omega (arith, more, ap length same_calls),
    inr (
        subst
          (λ cs.
            (m : ℕ) × ((length w₀.calls ≤ m)
              × ((m < length cs) × (is_zero (env.exit_of m) ≡ true))))
          (sym same_calls) worked),
  ),
)

-- More calls and the same table.
module _ (env : Env) (proj : Project) (w₀ : World) where
  grown :
      (w w' : World)
      → length w.calls ≤ length w'.calls
      → w'.rows ≡ w.rows
      → Guarded env proj w₀ w
      → Guarded env proj w₀ w'
  grown w w' more same_rows (kept, (longer, change)) = (
    ap (others proj.name) same_rows ∙ kept,
    (
      omega (arith, more, longer),
      elim change [
        | inl unchanged ↦ inl (same_rows ∙ unchanged)
        | inr (m, (late, (made, zero_exit))) ↦
            inr (m, (late, (omega (arith, made, more), zero_exit)))
      ],
    ),
  )

  quiet :
      (w w' : World)
      → w'.calls ≡ w.calls
      → w'.rows ≡ w.rows
      → Guarded env proj w₀ w
      → Guarded env proj w₀ w'
  quiet w w' same_calls same_rows h = grown w w' (omega (arith, ap length same_calls)) same_rows h

  last-Worked :
      (args : List Text) (w w' : World)
      → w'.calls ≡ args ∷ w.calls
      → is_zero (env.exit_of (length w.calls)) ≡ true
      → Guarded env proj w₀ w
      → Worked env (length w₀.calls) w'
  last-Worked args w w' e ok (_, (longer, _)) =
      (length w.calls, (longer, (omega (arith, ap length e), ok)))

  settle-Guarded :
      (path done failed : Text) (args : List Text) (w : World)
      → Guarded env proj w₀ w
      → Guarded env proj w₀ (settle env proj path done failed (run_rclone env args w))
  unfolding settle run_rclone
  settle-Guarded path done failed args w h =
      let w₁ = (run_rclone env args w).0 in
      let h₁ = grown w w₁ (omega arith) refl h in
      let logged = log_action env path done w₁ in
      if_cases (Guarded env proj w₀) (is_zero (env.exit_of (length w.calls)))
        (forget_file_state env proj.name path logged) (log_action env path failed w₁)
        (λ ok.
          Executed-after env proj w₀ logged (forget_file_state env proj.name path logged) path
            (forget_file_state-Executed env proj.name path logged)
            (last-Worked args w logged (log_action-Same env path done w₁).0 ok h)
            (quiet w₁ logged (log_action-Same env path done w₁).0
              (log_action-Same env path done w₁).1 h₁))
        (λ _.
          quiet w₁ (log_action env path failed w₁) (log_action-Same env path failed w₁).0
            (log_action-Same env path failed w₁).1 h₁)

  delete_tracked-Guarded :
      (policy : DeletePolicy) (path : Text) (w : World)
      → Guarded env proj w₀ w
      → Guarded env proj w₀ (delete_tracked env proj path policy w)
  unfolding delete_tracked delete_on_remote quarantine_on_remote
  delete_tracked-Guarded ignore path w h =
      let same = log_action-Same env path (codes "delete_ignored") w in
      quiet w (log_action env path (codes "delete_ignored") w) same.0 same.1 h
  delete_tracked-Guarded delete path w h =
      settle-Guarded path (codes "delete") (codes "delete_error")
        (codes "deletefile" ∷ remote_path proj.remote path ∷ delete_flags env.config proj) w h
  delete_tracked-Guarded quarantine path w h =
      settle-Guarded path (codes "quarantine") (codes "quarantine_error")
        (codes "moveto"
          ∷ remote_path proj.remote path
          ∷ quarantine_path proj path (env.stamp (length w.calls))
          ∷ delete_flags env.config proj)
        w h

  forget_all-Guarded :
      (files : List Text) (w : World)
      → Worked env (length w₀.calls) w
      → Guarded env proj w₀ w
      → Guarded env proj w₀ (forget_all env proj.name files w)
  unfolding forget_all
  forget_all-Guarded [] w worked h = h
  forget_all-Guarded (f ∷ fs) w worked h =
      let w' = forget_file_state env proj.name f w in
      let done = forget_file_state-Executed env proj.name f w in
      let (m, (late, (made, ok))) = worked in
      forget_all-Guarded fs w' (m, (late, (omega (arith, made, ap length done.0), ok)))
        (Executed-after env proj w₀ w w' f done worked h)

-- Where no two rows have the same key, a delete returns and touches no row of another project, and
-- the state table is the one before it unless some rclone call that it made has returned 0.
pub delete_remote_file-Guarded :
    (env : Env) (proj : Project) (force : Bool) (path : Text) (w : World)
    → IsKeyed w.rows
    → (w' : World) × ((delete_remote_file 2 env proj force path w ≡ some w')
        × Guarded env proj w w')
unfolding purge run_rclone
delete_remote_file-Guarded env proj force path w keyed =
    let (w', e) = delete_remote_file-Returns env proj force path w keyed in
    let P = Guarded env proj w in
    (
      w',
      (
        e,
        Ends→holds P (delete_remote_file 2 env proj force path w) w' e (
            delete_remote_file-keeps env proj force P
              (λ v v' same_calls same_rows h. quiet env proj w v v' same_calls same_rows h)
              (λ p v safe h. delete_tracked-Guarded env proj w (policy_of env proj force) p v h)
              (λ dir v safe mirror h.
                grown env proj w v (purge env proj dir v).0 (omega arith) refl h)
              (λ dir files v mirror ok before h.
                let args =
                  codes "purge" ∷ remote_path proj.remote dir ∷ delete_flags env.config proj in
                let v' = (purge env proj dir v).0 in
                forget_all-Guarded env proj w files v'
                  (last-Worked env proj w args v v' refl ok before) h)
              2 path w (refl, (omega arith, inl refl))),
      ),
    )
