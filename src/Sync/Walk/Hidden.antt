-- ===== src/Sync/Walk/Hidden.antt =====
-- internal/sync/sync.go: CleanupGhosts where the walk sees none of the files that are on the remote.
use selective_mirror.Base.{
  ℕ, ◌≡◌, refl, sym, ap, subst, ◌∙◌, inl, inr, Bool, true, false, not, ◌||◌, List, [], ◌∷◌, ◌++◌,
  map, append_assoc, if◌then◌else◌, if_cases, if_true, if_false, Bool-cases, length, keep, Text,
  codes, has_prefix, member,
}
use mathlib.Core.List.{reverse, reverse-cons}
use selective_mirror.Base.Int.{pos, is_zero, int_eq}
use selective_mirror.Config.{Project, delete, delete_policy}
use selective_mirror.Filter.Engine.{Libraries, Engine}
use selective_mirror.Paths.{to_slash}
use selective_mirror.Sync.{Env, World, run_rclone}
use selective_mirror.Sync.Flags.{delete_flags}
use selective_mirror.Sync.Ghosts.{
  GhostFile, RemoteFile, is_leak, is_present, classify_ghost, find_ghosts, behind, deletefile,
  cleaned, delete_parent, mirror_ghost, ghost_policy, clean_by, cleanup_each,
  record_ghost_anomalies, cleanup_ghosts,
}
use selective_mirror.Sync.Ghosts.Leaks.{cleaned-calls, find_ghosts-Found}
use selective_mirror.Sync.Ghosts.Policy.{record_ghost_anomalies-calls}
use selective_mirror.Sync.Walk.{no_root, cleanup_tree, local_files}

-- A file outside .quarantine.
abbrev pub is_plain : RemoteFile → Bool
is_plain f = not (f.is_dir || has_prefix (codes ".quarantine/") (to_slash f.path))

-- The paths of such files, in the order of the listing.
abbrev pub plain_paths : List RemoteFile → List Text
plain_paths listing = map (λ (f : RemoteFile). to_slash f.path) (keep is_plain listing)

not-or : (d q : Bool) → not (d || q) ≡ not (d || (q || false))
not-or true q = refl
not-or false true = refl
not-or false false = refl

plain-present : (f : RemoteFile) → is_plain f ≡ not (is_present [] f)
unfolding is_present member
plain-present f = not-or f.is_dir (has_prefix (codes ".quarantine/") (to_slash f.path))

module _ (env : Env) (libs : Libraries) (filter : Engine) (proj : Project) where
  abbrev pub delete_call : Text → List Text
  delete_call path = codes "deletefile" ∷ behind proj path ∷ delete_flags env.config proj

  ghosts-paths :
      (listing : List RemoteFile) (w : World)
      → map (λ (g : GhostFile). g.path) (find_ghosts env libs filter proj [] listing w).1
        ≡ plain_paths listing
  unfolding find_ghosts keep
  ghosts-paths [] w = refl
  ghosts-paths (f ∷ fs) w =
      let there = is_present [] f in
      let path = to_slash f.path in
      let r = classify_ghost env libs filter proj path w in
      let skipping = find_ghosts env libs filter proj [] fs w in
      let later = find_ghosts env libs filter proj [] fs r.0 in
      let ghost : GhostFile = record { path = path; size = f.size; kind = r.1 } in
      let found : World × List GhostFile = (later.0, ghost ∷ later.1) in
      let kept = keep is_plain fs in
      let paths = λ (gs : World × List GhostFile). map (λ (g : GhostFile). g.path) gs.1 in
      let listed = λ (files : List RemoteFile). map (λ (x : RemoteFile). to_slash x.path) files in
      elim (Bool-cases there) [
        | inl it ↦
            ap paths (if_true there skipping found it)
            ∙ ghosts-paths fs w
            ∙ sym (ap listed (if_false (is_plain f) (f ∷ kept) kept (plain-present f ∙ ap not it)))
        | inr gone ↦
            ap paths (if_false there skipping found gone)
            ∙ ap (λ ps. path ∷ ps) (ghosts-paths fs r.0)
            ∙ sym (ap listed (if_true (is_plain f) (f ∷ kept) kept (plain-present f ∙ ap not gone)))
      ]

  module _ (works : (n : ℕ) → env.exit_of n ≡ pos 0)
      (mirrors : delete_policy proj env.config ≡ delete) where
    mirror_ghost-calls :
        (g : GhostFile) (w : World)
        → (mirror_ghost env proj g w).0.calls ≡ delete_call g.path ∷ w.calls
    unfolding mirror_ghost deletefile run_rclone
    mirror_ghost-calls g w =
        let args = delete_call g.path in
        let r = run_rclone env args w in
        let done = cleaned env proj (codes "ghost_cleanup") g r.0 in
        if_cases (λ (v : World × ℕ). v.0.calls ≡ args ∷ w.calls)
          (is_zero (env.exit_of (length w.calls))) done
          (if int_eq (env.exit_of (length w.calls)) (pos 4)
            then delete_parent env proj g r.0
            else (r.0, 0))
          (λ _. cleaned-calls env libs filter proj [] (codes "ghost_cleanup") g r.0)
          (λ bad. absurd (cc (bad, ap is_zero (works (length w.calls)))))

    clean_by-calls :
        (g : GhostFile) (w : World)
        → (clean_by env proj (ghost_policy (delete_policy proj env.config) g.kind) g w).0.calls
          ≡ delete_call g.path ∷ w.calls
    clean_by-calls g w =
        subst (λ p. (clean_by env proj p g w).0.calls ≡ delete_call g.path ∷ w.calls)
          (sym (
            if_cases (λ p. p ≡ delete) (is_leak g.kind) delete (delete_policy proj env.config)
              (λ _. refl) (λ _. mirrors)))
          (mirror_ghost-calls g w)

    cleanup_each-calls :
        (gs : List GhostFile) (w : World)
        → (cleanup_each env proj gs w).0.calls
          ≡ reverse (map delete_call (map (λ (g : GhostFile). g.path) gs)) ++ w.calls
    unfolding cleanup_each
    cleanup_each-calls [] w = refl
    cleanup_each-calls (g ∷ gs) w =
        let p = ghost_policy (delete_policy proj env.config) g.kind in
        let more = map delete_call (map (λ (g : GhostFile). g.path) gs) in
        cleanup_each-calls gs (clean_by env proj p g w).0
        ∙ ap (λ cs. reverse more ++ cs) (clean_by-calls g w)
        ∙ sym (
            ap (λ r. r ++ w.calls) (reverse-cons (delete_call g.path) more)
            ∙ append_assoc (reverse more) (delete_call g.path ∷ []) w.calls)

-- Where the mirror's own directory cannot be read, the walk ends without an error and without a file,
-- and CleanupGhosts takes every file for a ghost: under the policy delete, with an rclone that answers
-- each call with 0, it deletes every file of the listing outside .quarantine, in the order of the
-- listing, and makes no other call. The directories that the listing has are passed over.
pub cleanup_unreadable :
    (env : Env) (libs : Libraries) (filter : Engine) (proj : Project) (listing : List RemoteFile)
    (w : World)
    → ((n : ℕ) → env.exit_of n ≡ pos 0)
    → delete_policy proj env.config ≡ delete
    → (cleanup_tree env libs filter proj no_root listing w).0.calls
      ≡ reverse (map (delete_call env libs filter proj) (plain_paths listing)) ++ w.calls
unfolding cleanup_tree local_files cleanup_ghosts
cleanup_unreadable env libs filter proj listing w works mirrors =
    let r = find_ghosts env libs filter proj [] listing w in
    let w' = record_ghost_anomalies r.1 r.0 in
    let found = find_ghosts-Found env libs filter proj [] listing w in
    cleanup_each-calls env libs filter proj works mirrors r.1 w'
    ∙ ap (λ paths. reverse (map (delete_call env libs filter proj) paths) ++ w'.calls)
        (ghosts-paths env libs filter proj listing w)
    ∙ ap (λ cs. reverse (map (delete_call env libs filter proj) (plain_paths listing)) ++ cs)
        (record_ghost_anomalies-calls r.1 r.0 ∙ found.0)
