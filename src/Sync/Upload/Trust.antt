-- ===== src/Sync/Upload/Trust.antt =====
-- When the state table may be trusted about the content on the remote (internal/sync/sync.go,
-- internal/state/state.go).
use selective_mirror.Base.{
  ℕ, suc, ◌≡◌, refl, sym, ap, ap₂, subst, ◌∙◌, ◌⊎◌, inl, inr, Bool, true, false, ◌&&◌, Option, none,
  some, List, [], ◌∷◌, arith, if◌then◌else◌, some_inj, if_cases, if_true, if_false, Bool-cases,
  Option-cases, Text, codes, same, same_refl,
}
use selective_mirror.Base.Int.{ℤ, is_zero}
use selective_mirror.Config.{Project}
use selective_mirror.Store.{
  FileState, Rows, is_key, get_file_state, update_rows, update_file_state,
  update_remote_verification, mark_remote_verification_stale,
}
use selective_mirror.Sync.{
  Env, World, AnomalyKind, state_error, record_anomaly, execute, query, log_action,
}
use selective_mirror.Store.Statements.Table.{is_at, synced}
use selective_mirror.Store.Statements.Refines.{update_file_state-Wanted}
use selective_mirror.Sync.Steps.{execute-Executed, log_action-Same}
use selective_mirror.Sync.Upload.{
  Disk, verify_optimistically, record_upload, has_remote_content, is_unchanged, sync_unchanged,
  skip_upload, upload_unless_swapped, row_of, decide_upload, sync_hashed,
}

abbrev map_row : (FileState → FileState) → Option FileState → Option FileState
map_row f none = none
map_row f (some row) = some (f row)

-- The row of a key after an update that keeps keys.
get-update_rows :
    (project path : Text) (f : FileState → FileState) (rows : Rows)
    → ((row : FileState) → is_key project path (f row) ≡ is_key project path row)
    → get_file_state project path (update_rows project path f rows)
      ≡ map_row f (get_file_state project path rows)
unfolding get_file_state update_rows
get-update_rows project path f [] keeps = refl
get-update_rows project path f (row ∷ rows) keeps =
    let ih = get-update_rows project path f rows keeps in
    elim (Bool-cases (is_key project path row)) [
      | inl hit ↦ rw hit (
          if_true (is_key project path (f row)) (some (f row))
            (get_file_state project path (update_rows project path f rows)) (keeps row ∙ hit))
      | inr miss ↦ rw miss (
          if_false (is_key project path row) (some row)
            (get_file_state project path (update_rows project path f rows)) miss
          ∙ ih)
    ]

-- A row that does not vouch for other content on the remote.
abbrev pub Trusted : Text → FileState → Type 0
Trusted hash row = (row.remote_hash ≡ hash) ⊎ (row.remote_verified_at ≡ 0)

abbrev AllTrusted : Text → Text → Text → Rows → Type 0
AllTrusted project path hash rows =
    (row : FileState) → get_file_state project path rows ≡ some row → Trusted hash row

updated-AllTrusted :
    (project path hash : Text) (f : FileState → FileState) (rows : Rows)
    → ((row : FileState) → is_key project path (f row) ≡ is_key project path row)
    → ((row : FileState) → Trusted hash (f row))
    → AllTrusted project path hash (update_rows project path f rows)
updated-AllTrusted project path hash f rows keeps good row e =
    elim (Option-cases (get_file_state project path rows)) [
      | inl missing ↦
          absurd (cc (get-update_rows project path f rows keeps, ap (map_row f) missing, e))
      | inr (old, found) ↦
          let same_row : f old ≡ row =
            cc (get-update_rows project path f rows keeps, ap (map_row f) found, e) in
          subst (Trusted hash) same_row (good old)
    ]

-- What an upload leaves: the row of the file is trusted, or the last anomaly tells that it may not be.
abbrev pub Accounted : Text → Text → Text → World → Type 0
Accounted project path hash w =
    AllTrusted project path hash w.rows
    ⊎ ((rest : List (AnomalyKind × Text)) × (w.anomalies ≡ (state_error, path) ∷ rest))

-- What a statement leaves where it works.
execute-did :
    (env : Env) (f : Rows → Rows) (w : World)
    → (execute env f w).1 ≡ true
    → (execute env f w).0.rows ≡ f w.rows
unfolding execute
execute-did env f w =
    if_cases (λ (r : World × Bool). r.1 ≡ true → r.0.rows ≡ f w.rows) (env.db_fails w.statements) _
      _ (λ _. λ h. absurd (cc)) (λ _. λ _. refl)

verify-Accounted :
    (env : Env) (proj : Project) (path hash : Text) (size : ℕ) (w : World)
    → Accounted proj.name path hash (verify_optimistically env proj path hash size w)
unfolding verify_optimistically update_remote_verification mark_remote_verification_stale
    record_anomaly is_key
verify-Accounted env proj path hash size w =
    let Good = Accounted proj.name path hash in
    let set = λ (row : FileState). record row {
      remote_verified_at = env.now;
      remote_hash = hash;
      remote_size = size;
    } in
    let clear = λ (row : FileState). record row { remote_verified_at = 0 } in
    let v = execute env (update_rows proj.name path set) w in
    let c = execute env (update_rows proj.name path clear) v.0 in
    if_cases Good v.1 _ _
      (λ ok. inl (
        subst (AllTrusted proj.name path hash)
          (sym (execute-did env (update_rows proj.name path set) w ok))
          (updated-AllTrusted proj.name path hash set w.rows (λ row. refl) (λ row. inl refl))))
      (λ _.
        if_cases Good c.1 _ _
          (λ ok. inl (
            subst (AllTrusted proj.name path hash)
              (sym (execute-did env (update_rows proj.name path clear) v.0 ok))
              (updated-AllTrusted proj.name path hash clear v.0.rows (λ row. refl)
                (λ row. inr refl))))
          (λ _. inr (c.0.anomalies, refl)))

-- A row that vouches for one content vouches for no other.
Trusted→no_remote_content :
    (hash other : Text) (row : FileState)
    → Trusted hash row
    → same hash other ≡ false
    → has_remote_content other row ≡ false
unfolding has_remote_content
Trusted→no_remote_content hash other row (inl is_hash) differs =
    ground (arith, ap (λ h. same h other) is_hash)
Trusted→no_remote_content hash other row (inr unverified) differs = ground arith

-- The row of a file, where there is one, has this content as the local one.
abbrev AllKnown : Text → Text → Text → Rows → Type 0
AllKnown project path hash rows =
    (row : FileState) → get_file_state project path rows ≡ some row → row.local_hash ≡ hash

written-AllKnown :
    (now : ℕ) (project path hash : Text) (size mtime : ℕ) (exit : ℤ) (rows : Rows)
    → AllKnown project path hash (update_file_state now project path hash size mtime exit rows)
written-AllKnown now project path hash size mtime exit rows row e =
    let before = get_file_state project path rows in
    let found =
      update_file_state-Wanted now project path hash size mtime exit rows project path
      ∙ if_true (is_at project path project path)
          (some (synced now project path hash size mtime exit before)) before
          (ap₂ (λ (a b : Bool). a && b) (same_refl project) (same_refl path)) in
    let is_row = some_inj (sym found ∙ e) in
    ap (λ (r : FileState). r.local_hash) (sym is_row) ∙ synced-hash before
  where
    synced-hash :
        (o : Option FileState) → (synced now project path hash size mtime exit o).local_hash ≡ hash
    synced-hash none = refl
    synced-hash (some row) = refl

updated-AllKnown :
    (project path hash : Text) (f : FileState → FileState) (rows : Rows)
    → ((row : FileState) → is_key project path (f row) ≡ is_key project path row)
    → ((row : FileState) → (f row).local_hash ≡ row.local_hash)
    → AllKnown project path hash rows
    → AllKnown project path hash (update_rows project path f rows)
updated-AllKnown project path hash f rows keeps same_hash known row e =
    elim (Option-cases (get_file_state project path rows)) [
      | inl missing ↦
          absurd (cc (get-update_rows project path f rows keeps, ap (map_row f) missing, e))
      | inr (old, found) ↦
          let same_row : f old ≡ row =
            cc (get-update_rows project path f rows keeps, ap (map_row f) found, e) in
          ap (λ (r : FileState). r.local_hash) (sym same_row) ∙ same_hash old ∙ known old found
    ]

execute-AllKnown :
    (env : Env) (project path hash : Text) (f : FileState → FileState) (w : World)
    → ((row : FileState) → is_key project path (f row) ≡ is_key project path row)
    → ((row : FileState) → (f row).local_hash ≡ row.local_hash)
    → AllKnown project path hash w.rows
    → AllKnown project path hash (execute env (update_rows project path f) w).0.rows
execute-AllKnown env project path hash f w keeps same_hash known =
    let Good = AllKnown project path hash in
    let (_, change) = execute-Executed env (update_rows project path f) w in
    elim change [
      | inl kept ↦ subst Good (sym kept) known
      | inr changed ↦
          subst Good (sym changed)
            (updated-AllKnown project path hash f w.rows keeps same_hash known)
    ]

verify-AllKnown :
    (env : Env) (proj : Project) (path hash new : Text) (size : ℕ) (w : World)
    → AllKnown proj.name path hash w.rows
    → AllKnown proj.name path hash (verify_optimistically env proj path new size w).rows
unfolding verify_optimistically update_remote_verification mark_remote_verification_stale
    record_anomaly is_key
verify-AllKnown env proj path hash new size w known =
    let Good = λ (v : World). AllKnown proj.name path hash v.rows in
    let set = λ (row : FileState). record row {
      remote_verified_at = env.now;
      remote_hash = new;
      remote_size = size;
    } in
    let clear = λ (row : FileState). record row { remote_verified_at = 0 } in
    let v = execute env (update_rows proj.name path set) w in
    let c = execute env (update_rows proj.name path clear) v.0 in
    let set_known =
      execute-AllKnown env proj.name path hash set w (λ row. refl) (λ row. refl) known in
    let clear_known =
      execute-AllKnown env proj.name path hash clear v.0 (λ row. refl) (λ row. refl) set_known in
    if_cases Good v.1 v.0 (if c.1 then c.0 else record_anomaly state_error path c.0)
      (λ _. set_known)
      (λ _.
        if_cases Good c.1 c.0 (record_anomaly state_error path c.0) (λ _. clear_known)
          (λ _. clear_known))

-- Neither test of syncSingleFile finds a reason to skip another content.
abbrev NotSkipped : Text → Option FileState → Type 0
NotSkipped other none = Unit {0}
NotSkipped other (some row) =
    (is_unchanged other row ≡ false) × (has_remote_content other row ≡ false)

known→changed :
    (hash other : Text) (row : FileState)
    → row.local_hash ≡ hash
    → same hash other ≡ false
    → is_unchanged other row ≡ false
unfolding is_unchanged
known→changed hash other row known differs =
    ap (λ b. b && is_zero row.rclone_exit) (ap (λ h. same h other) known ∙ differs)

NotSkipped-found :
    (project path hash other : Text) (rows : Rows)
    → AllKnown project path hash rows
    → AllTrusted project path hash rows
    → same hash other ≡ false
    → (o : Option FileState) → get_file_state project path rows ≡ o
    → NotSkipped other o
NotSkipped-found project path hash other rows known trusted differs none e = tt
NotSkipped-found project path hash other rows known trusted differs (some row) e = (
  known→changed hash other row (known row e) differs,
  Trusted→no_remote_content hash other row (trusted row e) differs,
)

decide_upload-NotSkipped :
    (env : Env) (proj : Project) (path : Text) (disk : Disk) (other : Text) (size mtime : ℕ)
    (o : Option FileState) (w : World)
    → NotSkipped other o
    → decide_upload env proj path disk other size mtime o w
      ≡ upload_unless_swapped env proj path disk other size mtime w
unfolding decide_upload
decide_upload-NotSkipped env proj path disk other size mtime none w h = refl
decide_upload-NotSkipped env proj path disk other size mtime (some row) w (changed, elsewhere) =
    let unchanged = sync_unchanged env proj path disk other size mtime row w in
    let skipped = skip_upload env proj path other size mtime w in
    let uploaded = upload_unless_swapped env proj path disk other size mtime w in
    let unless_there = if has_remote_content other row then skipped else uploaded in
    if_false (is_unchanged other row) unchanged unless_there changed
    ∙ if_false (has_remote_content other row) skipped uploaded elsewhere

-- What a query of the row finds, or nothing where it fails.
row_of-cases :
    (env : Env) (project path : Text) (w : World) (other : Text)
    → NotSkipped other (get_file_state project path w.rows)
    → NotSkipped other (row_of (query env (get_file_state project path) w).1)
unfolding query
row_of-cases env project path w other h =
    let asked = record w { statements = suc w.statements } in
    let found = get_file_state project path w.rows in
    if_cases (λ (r : World × Option (Option FileState)). NotSkipped other (row_of r.1))
      (env.db_fails w.statements) (asked, none) (asked, some found) (λ _. tt) (λ _. h)

-- The next sync of another content in this world goes on to the upload.
abbrev pub GoesOn : Env → Project → Text → Disk → Text → ℕ → ℕ → World → Type 0
GoesOn env proj path disk other size mtime w =
    sync_hashed env proj path disk mtime (some (other, size)) w
    ≡ upload_unless_swapped env proj path disk other size mtime
        (query env (get_file_state proj.name path) w).0

GoesOn-known :
    (env : Env) (proj : Project) (path : Text) (disk : Disk) (hash other : Text) (size mtime : ℕ)
    (w : World)
    → AllKnown proj.name path hash w.rows
    → AllTrusted proj.name path hash w.rows
    → same hash other ≡ false
    → GoesOn env proj path disk other size mtime w
unfolding sync_hashed
GoesOn-known env proj path disk hash other size mtime w known trusted differs =
    let asked = query env (get_file_state proj.name path) w in
    let found =
      NotSkipped-found proj.name path hash other w.rows known trusted differs
        (get_file_state proj.name path w.rows) refl in
    decide_upload-NotSkipped env proj path disk other size mtime (row_of asked.1) asked.0
      (row_of-cases env proj.name path w other found)

execute-works :
    (env : Env) (f : Rows → Rows) (w : World)
    → env.db_fails w.statements ≡ false
    → (execute env f w).0.rows ≡ f w.rows
unfolding execute
execute-works env f w works =
    ap (λ (r : World × Bool). r.0.rows)
      (if_false (env.db_fails w.statements) (record w { statements = suc w.statements }, false)
        (record w { statements = suc w.statements; rows = f w.rows }, true) works)

-- After an upload that rclone answered with 0 and whose UpdateFileState was written, whichever
-- statements after it then fail: a sync of the file with another content, in the world that the
-- upload leaves and with whatever then answers, is skipped by neither the test for an unchanged file
-- nor the test for content that the remote has, and goes on to the upload; or the last anomaly that
-- was recorded is a state error for the file.
pub record_upload-next_not_skipped :
    (env : Env) (proj : Project) (path : Text) (disk : Disk) (hash other : Text) (size mtime : ℕ)
    (w : World) (exit : ℤ) (env' : Env) (disk' : Disk) (size' mtime' : ℕ)
    → is_zero exit ≡ true
    → env.db_fails w.statements ≡ false
    → same hash other ≡ false
    → let w' = record_upload env proj path disk hash size mtime (w, exit) in
      GoesOn env' proj path disk' other size' mtime' w'
      ⊎ ((rest : List (AnomalyKind × Text)) × (w'.anomalies ≡ (state_error, path) ∷ rest))
unfolding record_upload
record_upload-next_not_skipped env proj path disk hash other size mtime w exit env' disk' size'
      mtime' ok works differs =
    let update = update_file_state env.now proj.name path hash size mtime exit in
    let written = (execute env update w).0 in
    let logged = log_action env path (codes "copy") written in
    let verified = verify_optimistically env proj path hash size logged in
    let known =
      subst (AllKnown proj.name path hash)
        (sym
          ((log_action-Same env path (codes "copy") written).1 ∙ execute-works env update w works))
        (written-AllKnown env.now proj.name path hash size mtime exit w.rows) in
    let Good = λ (v : World).
      GoesOn env' proj path disk' other size' mtime' v
      ⊎ ((rest : List (AnomalyKind × Text)) × (v.anomalies ≡ (state_error, path) ∷ rest)) in
    if_cases Good (is_zero exit) _ _
      (λ _. elim (verify-Accounted env proj path hash size logged) [
        | inl trusted ↦ inl (
            GoesOn-known env' proj path disk' hash other size' mtime' _
              (verify-AllKnown env proj path hash hash size logged known) trusted differs)
        | inr told ↦ inr told
      ])
      (λ failed. absurd (cc))
