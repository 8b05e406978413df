-- ===== src/Sync/Ghosts/Parent.antt =====
-- The fallback of CleanupGhosts to the parent directory (internal/sync/sync.go).
use selective_mirror.Base.{
  ℕ, ◌≡◌, refl, ap, ◌∙◌, inl, inr, false, ◌||◌, List, ◌∷◌, arith, if_cases, length, Text, codes,
  same, is_empty,
}
use selective_mirror.Base.Int.{pos, is_zero, int_eq}
use selective_mirror.Config.{Project}
use selective_mirror.Paths.{dir}
use selective_mirror.Store.{get_file_state, delete_file_state}
use selective_mirror.Sync.{Env, World, run_rclone, log_action}
use selective_mirror.Sync.Flags.{delete_flags}
use selective_mirror.Sync.Steps.{log_action-Same, forget_file_state-Executed}
use selective_mirror.Sync.Delete.Present.{get-delete_other}
use selective_mirror.Sync.Ghosts.{
  GhostFile, behind, deletefile, cleaned, delete_parent, mirror_ghost,
}

-- The calls end with these, and of all rows of the mirror at most the ghost's has changed.
abbrev pub OnlyGhost : Project → Text → List (List Text) → World → World × ℕ → Type 0
OnlyGhost proj path calls w (w', n) =
    (w'.calls ≡ calls)
    × ((other : Text)
        → same path other ≡ false
        → get_file_state proj.name other w'.rows ≡ get_file_state proj.name other w.rows)

cleaned-OnlyGhost :
    (env : Env) (proj : Project) (action : Text) (g : GhostFile) (w : World)
    → OnlyGhost proj g.path w.calls w (cleaned env proj action g w)
unfolding cleaned
cleaned-OnlyGhost env proj action g w =
    let logged = log_action env g.path action w in
    let (l_calls, l_rows) = log_action-Same env g.path action w in
    let (f_calls, change) = forget_file_state-Executed env proj.name g.path logged in
    (
      f_calls ∙ l_calls,
      λ other apart. elim change [
        | inl kept ↦ ap (get_file_state proj.name other) (kept ∙ l_rows)
        | inr gone ↦
            ap (get_file_state proj.name other)
              (gone ∙ ap (delete_file_state proj.name g.path) l_rows)
            ∙ get-delete_other proj.name g.path other w.rows apart
      ],
    )

-- When rclone answers the deletion of a ghost in a directory with exit code 4, the next call deletes
-- the whole directory on the remote, whatever else is in it, and the state table keeps the rows of
-- the other files as they were: they still count as synced.
pub mirror_ghost-deletes_parent :
    (env : Env) (proj : Project) (g : GhostFile) (w : World)
    → env.exit_of (length w.calls) ≡ pos 4
    → same (dir g.path) (codes ".") ≡ false
    → is_empty (dir g.path) ≡ false
    → OnlyGhost proj g.path
        ((codes "delete"
            ∷ behind proj (dir g.path)
            ∷ codes "--rmdirs"
            ∷ delete_flags env.config proj)
          ∷ (codes "deletefile" ∷ behind proj g.path ∷ delete_flags env.config proj)
          ∷ w.calls)
        w
        (mirror_ghost env proj g w)
unfolding mirror_ghost deletefile run_rclone delete_parent int_eq
mirror_ghost-deletes_parent env proj g w four inside named =
    let args = codes "deletefile" ∷ behind proj g.path ∷ delete_flags env.config proj in
    let parent =
      codes "delete" ∷ behind proj (dir g.path) ∷ codes "--rmdirs" ∷ delete_flags env.config proj in
    let w₁ = (run_rclone env args w).0 in
    let w₂ = (run_rclone env parent w₁).0 in
    let Good = OnlyGhost proj g.path (parent ∷ args ∷ w.calls) w in
    if_cases Good (is_zero (env.exit_of (length w.calls)))
      (cleaned env proj (codes "ghost_cleanup") g w₁) _
      (λ worked. absurd (cc (ap is_zero four, worked)))
      (λ _.
        if_cases Good (int_eq (env.exit_of (length w.calls)) (pos 4)) (delete_parent env proj g w₁)
          (w₁, 0)
          (λ _.
            if_cases Good (same (dir g.path) (codes ".") || is_empty (dir g.path)) (w₁, 0) _
              (λ none_there. absurd (ground (arith, inside, named, none_there)))
              (λ _.
                if_cases Good (is_zero (env.exit_of (length w₁.calls)))
                  (cleaned env proj (codes "ghost_cleanup") g w₂) (w₂, 0)
                  (λ _. cleaned-OnlyGhost env proj (codes "ghost_cleanup") g w₂)
                  (λ _. (refl, λ other apart. refl))))
          (λ differs. absurd (cc (ap (λ e. int_eq e (pos 4)) four, differs))))
