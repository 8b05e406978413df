-- ===== src/Sync/Delete/Total.antt =====
-- deleteRemoteFile and deleteRemoteDir call each other two deep at most (internal/sync/sync.go).
use selective_mirror.Base.{
  ℕ, suc, ◌≡◌, refl, sym, ap, subst, ◌∙◌, ◌⊎◌, inl, inr, Bool, true, false, ◌&&◌, ◌||◌, Option,
  none, some, List, [], ◌∷◌, ◌++◌, arith, if_cases, length, Text, codes, same,
}
use selective_mirror.Base.Int.{ℤ, is_zero}
use selective_mirror.Config.{Project, DeletePolicy, ignore, delete, quarantine}
use selective_mirror.Sync.{Env, World, query, run_rclone, log_action, record_anomaly, sync_failure}
use selective_mirror.Sync.Names.{is_unsafe_rel_path, remote_path}
use selective_mirror.Sync.Flags.{delete_flags}
use selective_mirror.Sync.Steps.{log_action-Same, forget_file_state-Executed}
use selective_mirror.Sync.Delete.{
  policy_of, delete_tracked, delete_on_remote, quarantine_on_remote, quarantine_path, settle,
  forget_all, purge, purge_dir, each_file, clean_dir, is_ignore, delete_remote_dir_by, descend_if,
  delete_found, delete_remote_file_by, delete_remote_file,
}
use selective_mirror.Store.{
  FileState, Rows, delete_file_state, get_file_state, get_files_under_dir, is_some, escape_like,
}
use selective_mirror.Sync.Delete.Present.{IsKeyed, Present, Present-delete, picked-Present}

abbrev pub Returns : Option World → Type 0
Returns o = (w : World) × (o ≡ some w)

-- The table of a world keeps the rows that the remaining files need.
abbrev Needs : Text → List Text → World → Type 0
Needs project fs w = Present project fs w.rows

query-rows : {A : Type 0} (env : Env) (f : Rows → A) (w : World) → (query env f w).0.rows ≡ w.rows
unfolding query
query-rows {A = A} env f w =
    if_cases (λ (r : World × Option A). r.0.rows ≡ w.rows) (env.db_fails w.statements) _ _
      (λ _. refl) (λ _. refl)

-- The answer of a query, where there is one.
query-answer :
    {A : Type 0} (env : Env) (f : Rows → A) (w : World)
    → ((query env f w).1 ≡ none) ⊎ ((query env f w).1 ≡ some (f w.rows))
unfolding query
query-answer {A = A} env f w =
    if_cases (λ (r : World × Option A). (r.1 ≡ none) ⊎ (r.1 ≡ some (f w.rows)))
      (env.db_fails w.statements) _ _ (λ _. inl refl) (λ _. inr refl)

-- A delete of one tracked file changes no row but its own.
abbrev OnlyRow : Text → Text → World → World → Type 0
OnlyRow project f w w' = (w'.rows ≡ w.rows) ⊎ (w'.rows ≡ delete_file_state project f w.rows)

settle-OnlyRow :
    (env : Env) (proj : Project) (path done failed : Text) (r : World × ℤ)
    → OnlyRow proj.name path r.0 (settle env proj path done failed r)
unfolding settle
settle-OnlyRow env proj path done failed (w, exit) =
    let logged = log_action env path done w in
    let same = (log_action-Same env path done w).1 in
    if_cases (OnlyRow proj.name path w) (is_zero exit) _ _
      (λ _. elim ((forget_file_state-Executed env proj.name path logged).1) [
        | inl unchanged ↦ inl (unchanged ∙ same)
        | inr gone ↦ inr (gone ∙ ap (delete_file_state proj.name path) same)
      ])
      (λ _. inl ((log_action-Same env path failed w).1))

delete_tracked-OnlyRow :
    (env : Env) (proj : Project) (path : Text) (policy : DeletePolicy) (w : World)
    → OnlyRow proj.name path w (delete_tracked env proj path policy w)
unfolding delete_tracked delete_on_remote quarantine_on_remote run_rclone
delete_tracked-OnlyRow env proj path ignore w =
    inl ((log_action-Same env path (codes "delete_ignored") w).1)
delete_tracked-OnlyRow env proj path delete w =
    settle-OnlyRow env proj path (codes "delete") (codes "delete_error") (
      run_rclone env
        (codes "deletefile" ∷ remote_path proj.remote path ∷ delete_flags env.config proj) w)
delete_tracked-OnlyRow env proj path quarantine w =
    settle-OnlyRow env proj path (codes "quarantine") (codes "quarantine_error") (
      run_rclone env
        (codes "moveto"
          ∷ remote_path proj.remote path
          ∷ quarantine_path proj path (env.stamp (length w.calls))
          ∷ delete_flags env.config proj)
        w)

module _ (env : Env) (proj : Project) (force : Bool) where
  -- A file that has a row, whatever is given for the descent into a directory.
  abbrev Handles : (Text → World → Option World) → Type 0
  Handles step =
      (f : Text) (w : World)
      → is_some (get_file_state proj.name f w.rows) ≡ true
      → (w' : World) × ((step f w ≡ some w') × OnlyRow proj.name f w w')

  found-Handles :
      (descend : World → Option World) (f : Text) (found : Option (Option FileState)) (w₀ w : World)
      → (found ≡ none) ⊎ (found ≡ some (get_file_state proj.name f w₀.rows))
      → is_some (get_file_state proj.name f w₀.rows) ≡ true
      → (w' : World) × ((delete_found descend env proj f force found w ≡ some w')
          × OnlyRow proj.name f w w')
  unfolding delete_found
  found-Handles descend f none w₀ w e has = (w, (refl, inl refl))
  found-Handles descend f (some (some row)) w₀ w e has = (
    delete_tracked env proj f (policy_of env proj force) w,
    (refl, delete_tracked-OnlyRow env proj f (policy_of env proj force) w),
  )
  found-Handles descend f (some none) w₀ w e has = absurd (elim e [
    | inl impossible ↦ cc
    | inr same_row ↦ cc (ap (λ o. elim o [ none ↦ false | some r ↦ is_some r ]) same_row, has)
  ])

  file-Handles : (n : ℕ) → Handles (delete_remote_file (suc n) env proj force)
  unfolding delete_remote_file delete_remote_file_by record_anomaly
  file-Handles n f w has =
      let step = delete_remote_file n env proj force in
      let descend = delete_remote_dir_by step env proj f force in
      let q = query env (get_file_state proj.name f) w in
      if_cases (λ o. (w' : World) × ((o ≡ some w') × OnlyRow proj.name f w w'))
        (is_unsafe_rel_path f) (some (record_anomaly sync_failure f w))
        (delete_found descend env proj f force q.1 q.0)
        (λ _. (record_anomaly sync_failure f w, (refl, inl refl)))
        (λ _.
          let (w', (e, only)) =
            found-Handles descend f q.1 w q.0 (query-answer env (get_file_state proj.name f) w)
              has in
          (
            w',
            (
              e,
              subst (λ r. (w'.rows ≡ r) ⊎ (w'.rows ≡ delete_file_state proj.name f r))
                  (query-rows env (get_file_state proj.name f) w) only,
            ),
          ))

  each_file-Returns :
      (step : Text → World → Option World)
      → Handles step
      → (fs : List Text) (w : World) → Present proj.name fs w.rows
      → Returns (each_file step fs w)
  unfolding each_file
  each_file-Returns step hs [] w h = (w, refl)
  each_file-Returns step hs (f ∷ fs) w (here, (apart, later)) =
      let (w', (e, only)) = hs f w here in
      let still : Present proj.name fs w'.rows = elim only [
        | inl unchanged ↦ subst (λ r. Present proj.name fs r) (sym unchanged) later
        | inr fewer ↦
            subst (λ r. Present proj.name fs r) (sym fewer)
              (Present-delete proj.name f fs w.rows apart later)
      ] in
      let (w'', done) = each_file-Returns step hs fs w' still in
      (w'', ap (λ o. elim o [ none ↦ none | some v ↦ each_file step fs v ]) e ∙ done)

  purge_dir-Returns :
      (step : Text → World → Option World)
      → Handles step
      → (dir : Text) (fs : List Text) (w : World) → Present proj.name fs w.rows
      → Returns (purge_dir step env proj dir fs w)
  unfolding purge_dir purge run_rclone
  purge_dir-Returns step hs dir fs w h =
      let w' = (purge env proj dir w).0 in
      if_cases Returns (is_zero (purge env proj dir w).1)
        (some (log_action env dir (codes "dir_purge") (forget_all env proj.name fs w')))
        (each_file step fs w')
        (λ _. (log_action env dir (codes "dir_purge") (forget_all env proj.name fs w'), refl))
        (λ _. each_file-Returns step hs fs w' h)

  found_files :
      (files : List Text) (w : World) (rows : Rows)
      → (some files ≡ none)
        ⊎ ((fs : List Text) × ((some files ≡ some fs) × Present proj.name fs rows))
      → w.rows ≡ rows
      → Present proj.name files w.rows
  found_files files w rows h e = elim h [
    | inl impossible ↦ absurd (cc)
    | inr (fs, (same_files, present)) ↦
        let files_eq : fs ≡ files = cc in
        subst (λ r. Present proj.name files r) (sym e)
          (subst (λ gs. Present proj.name gs rows) files_eq present)
  ]

  clean_dir-Returns :
      (step : Text → World → Option World)
      → Handles step
      → (dir : Text) (policy : DeletePolicy) (files : Option (List Text)) (w : World) (rows : Rows)
      → (files ≡ none) ⊎ ((fs : List Text) × ((files ≡ some fs) × Present proj.name fs rows))
      → w.rows ≡ rows
      → Returns (clean_dir step env proj dir policy files w)
  clean_dir-Returns step hs dir policy none w rows h e = (w, refl)
  clean_dir-Returns step hs dir policy (some []) w rows h e = (w, refl)
  clean_dir-Returns step hs dir ignore (some (f ∷ fs)) w rows h e = (w, refl)
  clean_dir-Returns step hs dir delete (some (f ∷ fs)) w rows h e =
      purge_dir-Returns step hs dir (f ∷ fs) w (found_files (f ∷ fs) w rows h e)
  clean_dir-Returns step hs dir quarantine (some (f ∷ fs)) w rows h e =
      each_file-Returns step hs (f ∷ fs) w (found_files (f ∷ fs) w rows h e)

  -- The files that the query for a directory answers have their rows.
  files-Present :
      (dir : Text) (w : World)
      → IsKeyed w.rows
      → let q = query env (get_files_under_dir env.like proj.name dir) w in
        (q.1 ≡ none) ⊎ ((fs : List Text) × ((q.1 ≡ some fs) × Present proj.name fs w.rows))
  unfolding get_files_under_dir
  files-Present dir w keyed =
      let find = get_files_under_dir env.like proj.name dir in
      elim (query-answer env find w) [
        | inl failed ↦ inl failed
        | inr answered ↦ inr (
          find w.rows,
          (
            answered,
            picked-Present proj.name
                (λ row.
                  same proj.name row.project
                  && (same dir row.rel_path
                      || env.like ((escape_like dir ++ codes "/") ++ codes "%") row.rel_path))
                w.rows (λ row h. ground arith) keyed,
          ),
        )
      ]

  dir-Returns :
      (step : Text → World → Option World)
      → Handles step
      → (dir : Text) (w : World) → IsKeyed w.rows
      → Returns (delete_remote_dir_by step env proj dir force w)
  unfolding delete_remote_dir_by
  dir-Returns step hs dir w keyed =
      let find = get_files_under_dir env.like proj.name dir in
      let q = query env find w in
      if_cases Returns (is_unsafe_rel_path dir) (some (record_anomaly sync_failure dir w)) _
        (λ _. (record_anomaly sync_failure dir w, refl))
        (λ _.
          if_cases Returns (is_ignore (policy_of env proj force)) (some w)
            (clean_dir step env proj dir (policy_of env proj force) q.1 q.0) (λ _. (w, refl))
            (λ _.
              clean_dir-Returns step hs dir (policy_of env proj force) q.1 q.0 w.rows
                (files-Present dir w keyed) (query-rows env find w)))

  descend_if-Returns :
      (descend : World → Option World) (files : Option (List Text)) (w : World)
      → Returns (descend w)
      → Returns (descend_if descend files w)
  descend_if-Returns descend none w h = (w, refl)
  descend_if-Returns descend (some []) w h = (w, refl)
  descend_if-Returns descend (some (f ∷ fs)) w h = h

  found-Returns :
      (step : Text → World → Option World)
      → Handles step
      → (path : Text) (found : Option (Option FileState)) (w : World) → IsKeyed w.rows
      → Returns
          (delete_found (delete_remote_dir_by step env proj path force) env proj path force found w)
  unfolding delete_found
  found-Returns step hs path none w keyed = (w, refl)
  found-Returns step hs path (some (some row)) w keyed =
      (delete_tracked env proj path (policy_of env proj force) w, refl)
  found-Returns step hs path (some none) w keyed =
      let find = get_files_under_dir env.like proj.name path in
      let q = query env find w in
      descend_if-Returns (delete_remote_dir_by step env proj path force) q.1 q.0
        (dir-Returns step hs path q.0 (subst IsKeyed (sym (query-rows env find w)) keyed))

  -- Fuel 2 is enough: where no two rows have the same key, a delete returns, whatever rclone, the
  -- database and LIKE answer; deleteRemoteFile and deleteRemoteDir call each other two deep at most.
  pub delete_remote_file-Returns :
      (path : Text) (w : World)
      → IsKeyed w.rows
      → Returns (delete_remote_file 2 env proj force path w)
  unfolding delete_remote_file delete_remote_file_by
  delete_remote_file-Returns path w keyed =
      let step = delete_remote_file 1 env proj force in
      let q = query env (get_file_state proj.name path) w in
      if_cases Returns (is_unsafe_rel_path path) (some (record_anomaly sync_failure path w))
        (delete_found (delete_remote_dir_by step env proj path force) env proj path force q.1 q.0)
        (λ _. (record_anomaly sync_failure path w, refl))
        (λ _.
          found-Returns step (file-Handles 0) path q.1 q.0
            (subst IsKeyed (sym (query-rows env (get_file_state proj.name path) w)) keyed))
