-- ===== src/Sync/Quarantine/Purge.antt =====
-- internal/sync/sync.go: what PurgeExpiredQuarantine deletes of what the delete path has quarantined.
use selective_mirror.Base.{
  ℕ, ◌<◌, ◌≡◌, refl, sym, ap, subst, ◌∙◌, Bool, true, some, List, [], ◌∷◌, ◌++◌, map, append_assoc,
  arith, keep, All, Text, codes,
}
use mathlib.Core.List.{reverse, reverse-cons}
use selective_mirror.Config.{Project, quarantine, delete_policy}
use selective_mirror.Sync.{Env, World, run_rclone}
use selective_mirror.Sync.Flags.{delete_flags}
use selective_mirror.Sync.Quarantine.{
  Civil, is_date, stamp_of, Cutoff, before, QuarantineEntry, parse_expired_quarantine_entries,
  purge_each, purge_by, purge_expired_quarantine,
}
use selective_mirror.Sync.Quarantine.Stamp.{file, is_expired-stamp_of}

-- A file that was put into quarantine at a time: its path there, its own name and its size.
pub record Quarantined : Type 0 where
  pub path : Text
  pub name : Text
  pub size : ℕ
  pub time : Civil
  pub nanos : ℕ

abbrev pub entry_of : Quarantined → QuarantineEntry
entry_of q = file q.path (q.name ++ (b'.' ∷ stamp_of q.time q.nanos)) q.size

abbrev pub IsDated : Quarantined → Type 0
IsDated q = (q.time.year < 10000) × (is_date q.time ≡ true)

abbrev pub past : Cutoff → Quarantined → Bool
past cutoff q = before q.time cutoff

parse_expired-past :
    (cutoff : Cutoff) (qs : List Quarantined)
    → All IsDated qs
    → parse_expired_quarantine_entries cutoff (map entry_of qs)
      ≡ map (λ (q : Quarantined). q.path) (keep (past cutoff) qs)
unfolding parse_expired_quarantine_entries keep
parse_expired-past cutoff [] h = refl
parse_expired-past cutoff (q ∷ qs) ((small, valid), hs) =
    let e = (is_expired-stamp_of cutoff q.path q.name q.size q.time q.nanos small valid).0 in
    ground (arith, e, parse_expired-past cutoff qs hs)

abbrev pub purge_call : Env → Project → Text → List Text
purge_call env proj path =
    codes "deletefile"
    ∷ ((proj.remote ++ codes "/.quarantine/") ++ path)
    ∷ delete_flags env.config proj

purge_each-calls :
    (env : Env) (proj : Project) (paths : List Text) (w : World)
    → ((purge_each env proj paths w).0.calls ≡ reverse (map (purge_call env proj) paths) ++ w.calls)
      × ((purge_each env proj paths w).0.rows ≡ w.rows)
unfolding purge_each run_rclone
purge_each-calls env proj [] w = (refl, refl)
purge_each-calls env proj (path ∷ paths) w =
    let w' = (run_rclone env (purge_call env proj path) w).0 in
    let (calls, rows) = purge_each-calls env proj paths w' in
    let more = map (purge_call env proj) paths in
    let one = purge_call env proj path in
    (
      calls
          ∙ sym (
              ap (λ r. r ++ w.calls) (reverse-cons one more)
              ∙ append_assoc (reverse more) (one ∷ []) w.calls),
      rows,
    )

-- PurgeExpiredQuarantine undoes no more than its retention says: under the policy quarantine, from a
-- listing of files that the quarantine has named at valid dates before the year 10000, it deletes
-- exactly those whose time is before the cutoff, one call each and in the order of the listing, and
-- leaves the state table alone.
pub purge-past :
    (env : Env) (proj : Project) (cutoff : Cutoff) (qs : List Quarantined) (w : World)
    → delete_policy proj env.config ≡ quarantine
    → All IsDated qs
    → ((purge_expired_quarantine env proj cutoff (some (map entry_of qs)) w).0.calls
        ≡ reverse
            (map (purge_call env proj) (map (λ (q : Quarantined). q.path) (keep (past cutoff) qs)))
          ++ w.calls)
      × ((purge_expired_quarantine env proj cutoff (some (map entry_of qs)) w).0.rows ≡ w.rows)
unfolding purge_expired_quarantine
purge-past env proj cutoff qs w policy dated =
    subst
      (λ p.
        ((purge_by env proj p cutoff (some (map entry_of qs)) w).0.calls
          ≡ reverse (
              map (purge_call env proj) (map (λ (q : Quarantined). q.path) (keep (past cutoff) qs)))
            ++ w.calls)
        × ((purge_by env proj p cutoff (some (map entry_of qs)) w).0.rows ≡ w.rows))
      (sym policy)
      (subst
        (λ paths.
          ((purge_each env proj (parse_expired_quarantine_entries cutoff (map entry_of qs))
              w).0.calls
            ≡ reverse (map (purge_call env proj) paths) ++ w.calls)
          × ((purge_each env proj (parse_expired_quarantine_entries cutoff (map entry_of qs))
                w).0.rows
              ≡ w.rows))
        (parse_expired-past cutoff qs dated)
        (purge_each-calls env proj (parse_expired_quarantine_entries cutoff (map entry_of qs)) w))
