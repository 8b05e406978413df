-- ===== src/Sync/Delete/Reach.antt =====
-- Which rclone calls deleteRemoteFile makes (internal/sync/sync.go).
use selective_mirror.Base.{
  ◌≡◌, refl, sym, ap, subst, ◌∙◌, ◌⊎◌, inl, inr, Bool, false, some, List, [], ◌∷◌, ◌++◌, if_cases,
  length, All, Text, codes,
}
use selective_mirror.Base.Int.{ℤ, is_zero}
use selective_mirror.Config.{Project, DeletePolicy, ignore, delete, quarantine}
use selective_mirror.Sync.{Env, World, log_action, forget_file_state, run_rclone}
use selective_mirror.Sync.Names.{is_unsafe_rel_path, remote_path}
use selective_mirror.Sync.Flags.{delete_flags}
use selective_mirror.Sync.Steps.{log_action-Same, forget_file_state-Executed}
use selective_mirror.Sync.Delete.{
  policy_of, delete_tracked, delete_on_remote, quarantine_on_remote, quarantine_path, settle,
  forget_all, purge, delete_remote_file,
}
use selective_mirror.Sync.Delete.Present.{IsKeyed}
use selective_mirror.Sync.Delete.Total.{delete_remote_file-Returns}
use selective_mirror.Sync.Delete.Preserve.{Ends→holds, delete_remote_file-keeps}

-- The arguments of a call that a policy allows: a safe path of the mirror, and under quarantine a
-- move into .quarantine.
abbrev pub Allowed : Project → DeletePolicy → List Text → Type 0
Allowed proj ignore args = ⊥
Allowed proj delete args =
    (path : Text) × ((flags : List Text) × ((is_unsafe_rel_path path ≡ false)
        × ((args ≡ codes "deletefile" ∷ remote_path proj.remote path ∷ flags)
            ⊎ (args ≡ codes "purge" ∷ remote_path proj.remote path ∷ flags))))
Allowed proj quarantine args =
    (path : Text) × ((stamp : Text) × ((flags : List Text) × ((is_unsafe_rel_path path ≡ false)
          × (args
              ≡ codes "moveto"
                ∷ remote_path proj.remote path
                ∷ quarantine_path proj path stamp
                ∷ flags))))

-- The calls since `base` are all allowed.
abbrev pub Added : Project → DeletePolicy → List (List Text) → World → Type 0
Added proj policy base w =
    (new : List (List Text)) × ((w.calls ≡ new ++ base) × All (Allowed proj policy) new)

forget_all-calls :
    (env : Env) (project : Text) (files : List Text) (w : World)
    → (forget_all env project files w).calls ≡ w.calls
unfolding forget_all
forget_all-calls env project [] w = refl
forget_all-calls env project (f ∷ fs) w =
    forget_all-calls env project fs (forget_file_state env project f w)
    ∙ (forget_file_state-Executed env project f w).0

pub settle-calls :
    (env : Env) (proj : Project) (path done failed : Text) (r : World × ℤ)
    → (settle env proj path done failed r).calls ≡ r.0.calls
unfolding settle
settle-calls env proj path done failed (w, exit) =
    if_cases (λ (v : World). v.calls ≡ w.calls) (is_zero exit) _ _
      (λ _.
        (forget_file_state-Executed env proj.name path (log_action env path done w)).0
        ∙ (log_action-Same env path done w).0)
      (λ _. (log_action-Same env path failed w).0)

module _ (env : Env) (proj : Project) (force : Bool) (base : List (List Text)) where
  -- One more allowed call.
  one_more :
      (policy : DeletePolicy) (args : List Text) (w w' : World)
      → w'.calls ≡ args ∷ w.calls
      → Allowed proj policy args
      → Added proj policy base w
      → Added proj policy base w'
  one_more policy args w w' e ok (new, (is_new, all)) =
      (args ∷ new, (e ∙ ap (λ cs. args ∷ cs) is_new, (ok, all)))

  delete_tracked-Added :
      (policy : DeletePolicy) (path : Text) (w : World)
      → is_unsafe_rel_path path ≡ false
      → Added proj policy base w
      → Added proj policy base (delete_tracked env proj path policy w)
  unfolding delete_tracked delete_on_remote quarantine_on_remote run_rclone
  delete_tracked-Added ignore path w safe (new, (is_new, all)) =
      (new, ((log_action-Same env path (codes "delete_ignored") w).0 ∙ is_new, all))
  delete_tracked-Added delete path w safe h =
      let args = codes "deletefile" ∷ remote_path proj.remote path ∷ delete_flags env.config proj in
      one_more delete args w (delete_tracked env proj path delete w)
        (settle-calls env proj path (codes "delete") (codes "delete_error") (run_rclone env args w))
        (path, (delete_flags env.config proj, (safe, inl refl))) h
  delete_tracked-Added quarantine path w safe h =
      let stamp = env.stamp (length w.calls) in
      let flags = delete_flags env.config proj in
      let args =
        codes "moveto" ∷ remote_path proj.remote path ∷ quarantine_path proj path stamp ∷ flags in
      one_more quarantine args w (delete_tracked env proj path quarantine w)
        (settle-calls env proj path (codes "quarantine") (codes "quarantine_error")
          (run_rclone env args w))
        (path, (stamp, (flags, (safe, refl)))) h

  purge-Added :
      (dir : Text) (w : World)
      → is_unsafe_rel_path dir ≡ false
      → Added proj delete base w
      → Added proj delete base (purge env proj dir w).0
  unfolding purge run_rclone
  purge-Added dir w safe h =
      one_more delete (codes "purge" ∷ remote_path proj.remote dir ∷ delete_flags env.config proj) w
        (purge env proj dir w).0 refl (dir, (delete_flags env.config proj, (safe, inr refl))) h

-- Where no two rows have the same key, a delete returns, and whatever rclone and the database
-- answer, each rclone call that it makes fits the policy: none under ignore, a deletefile or purge
-- under delete, a moveto into .quarantine under quarantine, and always of a path behind the
-- mirror's remote that is not unsafe.
pub delete_remote_file-Allowed :
    (env : Env) (proj : Project) (force : Bool) (path : Text) (w : World)
    → IsKeyed w.rows
    → (w' : World) × ((delete_remote_file 2 env proj force path w ≡ some w')
        × Added proj (policy_of env proj force) w.calls w')
delete_remote_file-Allowed env proj force path w keyed =
    let (w', e) = delete_remote_file-Returns env proj force path w keyed in
    let policy = policy_of env proj force in
    let P = Added proj policy w.calls in
    (
      w',
      (
        e,
        Ends→holds P (delete_remote_file 2 env proj force path w) w' e (
            delete_remote_file-keeps env proj force P
              (λ v v' same_calls _ (new, (is_new, all)). (new, (same_calls ∙ is_new, all)))
              (λ p v. delete_tracked-Added env proj force w.calls policy p v)
              (λ dir v safe mirror h.
                subst (λ pol. Added proj pol w.calls (purge env proj dir v).0) (sym mirror)
                  (purge-Added env proj force w.calls dir v safe
                    (subst (λ pol. Added proj pol w.calls v) mirror h)))
              (λ dir files v mirror ok _ (new, (is_new, all)). (
                new,
                (forget_all-calls env proj.name files (purge env proj dir v).0 ∙ is_new, all),
              ))
              2 path w ([], (refl, tt))),
      ),
    )
