-- ===== src/Sync/Delete/Preserve.antt =====
-- What every step of a delete keeps, the whole of deleteRemoteFile keeps (internal/sync/sync.go).
use selective_mirror.Base.{
  ℕ, zero, suc, ◌≡◌, refl, subst, Bool, true, false, Option, none, some, List, [], ◌∷◌, if_cases,
  Text, codes,
}
use selective_mirror.Base.Int.{is_zero}
use selective_mirror.Config.{Project, DeletePolicy, ignore, delete, quarantine}
use selective_mirror.Store.{FileState, Rows, get_file_state, get_files_under_dir}
use selective_mirror.Sync.{Env, World, sync_failure, record_anomaly, query, log_action}
use selective_mirror.Sync.Names.{is_unsafe_rel_path}
use selective_mirror.Sync.Delete.{
  policy_of, delete_tracked, forget_all, purge, each_file, purge_dir, clean_dir, is_ignore,
  delete_remote_dir_by, descend_if, delete_found, delete_remote_file_by, delete_remote_file,
}

-- A result, where there is one, has the property.
abbrev pub Ends : (World → Type 0) → Option World → Type 0
Ends P none = Unit
Ends P (some w) = P w

pub Ends→holds : (P : World → Type 0) (o : Option World) (w : World) → o ≡ some w → Ends P o → P w
Ends→holds P o w e h = subst (λ r. Ends P r) e h

-- P is kept by what touches neither the calls nor the table, by the deletion of one safe path, by a
-- purge, and by the removal of rows that follows a purge that worked.
module _ (env : Env) (proj : Project) (force : Bool) (P : World → Type 0)
    (quiet : (w w' : World) → w'.calls ≡ w.calls → w'.rows ≡ w.rows → P w → P w')
    (tracked : (path : Text) (w : World)
      → is_unsafe_rel_path path ≡ false
      → P w
      → P (delete_tracked env proj path (policy_of env proj force) w))
    (purged : (dir : Text) (w : World)
      → is_unsafe_rel_path dir ≡ false
      → policy_of env proj force ≡ delete
      → P w
      → P (purge env proj dir w).0)
    (removed : (dir : Text) (files : List Text) (w : World)
      → policy_of env proj force ≡ delete
      → is_zero (purge env proj dir w).1 ≡ true
      → P w
      → P (purge env proj dir w).0
      → P (forget_all env proj.name files (purge env proj dir w).0)) where
  query-keeps : {A : Type 0} (f : Rows → A) (w : World) → P w → P (query env f w).0
  unfolding query
  query-keeps {A = A} f w h =
      let asked = record w { statements = suc w.statements } in
      if_cases (λ (r : World × Option A). P r.0) (env.db_fails w.statements) _ _
        (λ _. quiet w asked refl refl h) (λ _. quiet w asked refl refl h)

  log_action-keeps : (path name : Text) (w : World) → P w → P (log_action env path name w)
  unfolding log_action record_anomaly
  log_action-keeps path name w h =
      if_cases P (env.db_fails w.statements) _ _ (λ _. quiet w _ refl refl h)
        (λ _. quiet w _ refl refl h)

  refuse-keeps : (path : Text) (w : World) → P w → P (record_anomaly sync_failure path w)
  unfolding record_anomaly
  refuse-keeps path w h = quiet w _ refl refl h

  abbrev Steps : (Text → World → Option World) → Type 0
  Steps step = (f : Text) (w : World) → P w → Ends P (step f w)

  bind-keeps :
      (next : World → Option World)
      → ((w : World) → P w → Ends P (next w))
      → (o : Option World) → Ends P o
      → Ends P (elim o [ none ↦ none | some v ↦ next v ])
  bind-keeps next hn none k = tt
  bind-keeps next hn (some v) k = hn v k

  each_file-keeps :
      (step : Text → World → Option World)
      → Steps step
      → (files : List Text) (w : World) → P w
      → Ends P (each_file step files w)
  unfolding each_file
  each_file-keeps step hs [] w h = h
  each_file-keeps step hs (f ∷ fs) w h =
      bind-keeps (λ v. each_file step fs v) (λ v k. each_file-keeps step hs fs v k) (step f w)
        (hs f w h)

  purge_dir-keeps :
      (step : Text → World → Option World)
      → Steps step
      → (dir : Text) (files : List Text) (w : World) → is_unsafe_rel_path dir ≡ false
      → policy_of env proj force ≡ delete
      → P w
      → Ends P (purge_dir step env proj dir files w)
  unfolding purge_dir
  purge_dir-keeps step hs dir files w safe mirror h =
      let w' = (purge env proj dir w).0 in
      let k = purged dir w safe mirror h in
      if_cases (Ends P) (is_zero (purge env proj dir w).1) _ _
        (λ ok.
          log_action-keeps dir (codes "dir_purge") (forget_all env proj.name files w')
            (removed dir files w mirror ok h k))
        (λ _. each_file-keeps step hs files w' k)

  clean_dir-keeps :
      (step : Text → World → Option World)
      → Steps step
      → (dir : Text) (policy : DeletePolicy) (files : Option (List Text)) (w : World)
      → is_unsafe_rel_path dir ≡ false
      → policy_of env proj force ≡ policy
      → P w
      → Ends P (clean_dir step env proj dir policy files w)
  clean_dir-keeps step hs dir policy none w safe e h = h
  clean_dir-keeps step hs dir policy (some []) w safe e h = h
  clean_dir-keeps step hs dir delete (some (f ∷ fs)) w safe e h =
      purge_dir-keeps step hs dir (f ∷ fs) w safe e h
  clean_dir-keeps step hs dir quarantine (some (f ∷ fs)) w safe e h =
      each_file-keeps step hs (f ∷ fs) w h
  clean_dir-keeps step hs dir ignore (some (f ∷ fs)) w safe e h = h

  delete_remote_dir_by-keeps :
      (step : Text → World → Option World)
      → Steps step
      → (dir : Text) (w : World) → P w
      → Ends P (delete_remote_dir_by step env proj dir force w)
  unfolding delete_remote_dir_by
  delete_remote_dir_by-keeps step hs dir w h =
      if_cases (Ends P) (is_unsafe_rel_path dir) _ _ (λ _. refuse-keeps dir w h)
        (λ safe.
          if_cases (Ends P) (is_ignore (policy_of env proj force)) _ _ (λ _. h)
            (λ _.
              let asked = query env (get_files_under_dir env.like proj.name dir) w in
              clean_dir-keeps step hs dir (policy_of env proj force) asked.1 asked.0 safe refl
                (query-keeps (get_files_under_dir env.like proj.name dir) w h)))

  descend_if-keeps :
      (descend : World → Option World)
      → ((w : World) → P w → Ends P (descend w))
      → (files : Option (List Text)) (w : World) → P w
      → Ends P (descend_if descend files w)
  descend_if-keeps descend hd none w h = h
  descend_if-keeps descend hd (some []) w h = h
  descend_if-keeps descend hd (some (f ∷ fs)) w h = hd w h

  delete_found-keeps :
      (descend : World → Option World)
      → ((w : World) → P w → Ends P (descend w))
      → (path : Text) (found : Option (Option FileState)) (w : World)
      → is_unsafe_rel_path path ≡ false
      → P w
      → Ends P (delete_found descend env proj path force found w)
  unfolding delete_found
  delete_found-keeps descend hd path none w safe h = h
  delete_found-keeps descend hd path (some (some row)) w safe h = tracked path w safe h
  delete_found-keeps descend hd path (some none) w safe h =
      let asked = query env (get_files_under_dir env.like proj.name path) w in
      descend_if-keeps descend hd asked.1 asked.0
        (query-keeps (get_files_under_dir env.like proj.name path) w h)

  pub delete_remote_file-keeps :
      (fuel : ℕ) (path : Text) (w : World)
      → P w
      → Ends P (delete_remote_file fuel env proj force path w)
  unfolding delete_remote_file delete_remote_file_by
  delete_remote_file-keeps zero path w h = tt
  delete_remote_file-keeps (suc fuel) path w h =
      let step = delete_remote_file fuel env proj force in
      let descend = delete_remote_dir_by step env proj path force in
      let asked = query env (get_file_state proj.name path) w in
      if_cases (Ends P) (is_unsafe_rel_path path) (some (record_anomaly sync_failure path w))
        (delete_found descend env proj path force asked.1 asked.0) (λ _. refuse-keeps path w h)
        (λ safe.
          delete_found-keeps descend
            (delete_remote_dir_by-keeps step (delete_remote_file-keeps fuel) path) path asked.1
            asked.0 safe (query-keeps (get_file_state proj.name path) w h))
