-- ===== src/Sync/Ghosts/Leaks.antt =====
-- What CleanupLeaks deletes (internal/sync/sync.go).
use selective_mirror.Base.{
  ◌≡◌, refl, ◌∙◌, true, false, not, ◌&&◌, Option, none, some, List, [], ◌∷◌, ◌++◌, arith, if_cases,
  any, All, Text, codes, same, same_refl,
}
use selective_mirror.Config.{Project, DeletePolicy, delete_policy}
use selective_mirror.Filter.Engine.{Libraries, Engine, is_excluded}
use selective_mirror.Paths.{to_slash}
use selective_mirror.Store.{FileState, Rows, get_file_state}
use selective_mirror.Sync.{Env, World, query, log_action}
use selective_mirror.Sync.Flags.{delete_flags}
use selective_mirror.Sync.Steps.{log_action-Same, forget_file_state-Executed}
use selective_mirror.Sync.Delete.{is_ignore}
use selective_mirror.Sync.Upload.{row_of}
use selective_mirror.Sync.Ghosts.{
  GhostKind, leak, retained, stale, GhostFile, RemoteFile, is_leak, kind_of, classify_ghost,
  is_present, find_ghosts, behind, cleaned,
}

module _ (env : Env) (libs : Libraries) (filter : Engine) (proj : Project)
    (locals : List Text) where
  -- The listing has a file under this path that is not there locally.
  abbrev pub Listed : List RemoteFile → Text → Type 0
  Listed listing path =
      any (λ (f : RemoteFile). not (is_present locals f) && same (to_slash f.path) path) listing
      ≡ true

  abbrev pub IsGhost : List RemoteFile → GhostFile → Type 0
  IsGhost listing g =
      Listed listing g.path × (is_leak g.kind ≡ true → is_excluded libs filter g.path ≡ true)

  kind_of-leak :
      (policy : DeletePolicy) (row : Option FileState) → is_leak (kind_of policy row) ≡ false
  kind_of-leak policy none = refl
  kind_of-leak policy (some row) =
      if_cases (λ (k : GhostKind). is_leak k ≡ false) (is_ignore policy) retained stale (λ _. refl)
        (λ _. refl)

  query-calls : {A : Type 0} (f : Rows → A) (w : World) → (query env f w).0.calls ≡ w.calls
  unfolding query
  query-calls {A = A} f w =
      if_cases (λ (r : World × Option A). r.0.calls ≡ w.calls) (env.db_fails w.statements) _ _
        (λ _. refl) (λ _. refl)

  -- A classification makes no call, and calls a leak only what the filter excludes.
  abbrev Classified : Text → World → World × GhostKind → Type 0
  Classified path w (w', kind) =
      (w'.calls ≡ w.calls) × (is_leak kind ≡ true → is_excluded libs filter path ≡ true)

  classify-Classified :
      (path : Text) (w : World) → Classified path w (classify_ghost env libs filter proj path w)
  unfolding classify_ghost
  classify-Classified path w =
      let asked = query env (get_file_state proj.name path) w in
      let policy = delete_policy proj env.config in
      if_cases (Classified path w) (is_excluded libs filter path) (w, leak)
        (asked.0, kind_of policy (row_of asked.1)) (λ excluded. (refl, λ _. excluded))
        (λ _. (
          query-calls (get_file_state proj.name path) w,
          λ is_one. absurd (cc (kind_of-leak policy (row_of asked.1), is_one)),
        ))

  All-IsGhost-more :
      (file : RemoteFile) (files : List RemoteFile) (gs : List GhostFile)
      → All (IsGhost files) gs
      → All (IsGhost (file ∷ files)) gs
  unfolding any
  All-IsGhost-more file files [] h = tt
  All-IsGhost-more file files (g ∷ gs) ((listed, excluded), hs) =
      ((ground (arith, listed), excluded), All-IsGhost-more file files gs hs)

  abbrev pub Found : List RemoteFile → World → World × List GhostFile → Type 0
  Found listing w (w', ghosts) = (w'.calls ≡ w.calls) × All (IsGhost listing) ghosts

  pub find_ghosts-Found :
      (listing : List RemoteFile) (w : World)
      → Found listing w (find_ghosts env libs filter proj locals listing w)
  unfolding find_ghosts any
  find_ghosts-Found [] w = (refl, tt)
  find_ghosts-Found (file ∷ files) w =
      let path = to_slash file.path in
      let r = classify_ghost env libs filter proj path w in
      let rest = find_ghosts env libs filter proj locals files r.0 in
      let g : GhostFile = record { path = path; size = file.size; kind = r.1 } in
      let (same_calls, excluded) = classify-Classified path w in
      let (skip_calls, skipped) = find_ghosts-Found files w in
      let (more_calls, found) = find_ghosts-Found files r.0 in
      if_cases (Found (file ∷ files) w) (is_present locals file)
        (find_ghosts env libs filter proj locals files w) (rest.0, g ∷ rest.1)
        (λ _. (skip_calls, All-IsGhost-more file files _ skipped))
        (λ absent. (
          more_calls ∙ same_calls,
          (
            (ground (arith, absent, same_refl path), excluded),
            All-IsGhost-more file files rest.1 found,
          ),
        ))

  -- A call that deletes one file which the listing has, the disk has not, and the filter excludes.
  abbrev pub DeletesLeak : List RemoteFile → List Text → Type 0
  DeletesLeak listing args =
      (path : Text) × (Listed listing path
        × ((is_excluded libs filter path ≡ true)
            × (args ≡ codes "deletefile" ∷ behind proj path ∷ delete_flags env.config proj)))

  abbrev pub Added : List RemoteFile → World → World → Type 0
  Added listing w w' =
      (new : List (List Text)) × ((w'.calls ≡ new ++ w.calls) × All (DeletesLeak listing) new)

  pub cleaned-calls :
      (action : Text) (g : GhostFile) (w : World) → (cleaned env proj action g w).0.calls ≡ w.calls
  unfolding cleaned
  cleaned-calls action g w =
      (forget_file_state-Executed env proj.name g.path (log_action env g.path action w)).0
      ∙ (log_action-Same env g.path action w).0
