-- ===== src/Filter/Reload.antt =====
-- filter.go: Reload. The file is looked at once, and once more when its rules have shrunk.
use selective_mirror.Base.{
  suc, Bool, true, false, not, ◌&&◌, Option, none, some, List, [], ◌∷◌, ◌++◌, if◌then◌else◌, Text,
  same, is_empty,
}
use selective_mirror.Filter.Rules.{is_strict_subset}
use selective_mirror.Filter.Engine.{Libraries, Engine, SyncIgnoreFile, read_project_rules, merge}

-- The loop over both lists of rules.
unfoldable pub same_rules : List Text → List Text → Bool
same_rules [] [] = true
same_rules [] (y ∷ ys) = false
same_rules (x ∷ xs) [] = false
same_rules (x ∷ xs) (y ∷ ys) = same x y && same_rules xs ys

module _ (libs : Libraries) where
  open libs use {bad}

  -- The bytes and the malformed patterns of the trial matcher.
  abbrev pub trial_merged : List Text → Option Text
  trial_merged all = if is_empty all then none else some (merge libs all)

  abbrev pub trial_bad : List Text → List Text
  trial_bad all = if is_empty all then [] else bad (merge libs all)

  unfoldable pub commit : Engine → List Text → Text → Engine × Bool
  commit e new_rules new_hash =
      let changed = not (same_rules e.project_rules new_rules) in
      (
        record e {
          project_rules = new_rules;
          merged = trial_merged (e.global_rules ++ new_rules);
          bad_patterns = [];
          committed_content_hash = new_hash;
          generation = if changed then suc e.generation else e.generation;
        },
        changed,
      )

  -- The second look agrees with the hash of the first.
  unfoldable pub is_stable : Engine → Text → SyncIgnoreFile → Bool
  is_stable e new_hash file = elim (read_project_rules libs e.sync_ignore_path file) [
    | none ↦ false
    | some (rules, hash) ↦ same hash new_hash
  ]

  unfoldable pub reload_rules : Engine → List Text → Text → SyncIgnoreFile → Engine × Bool
  reload_rules e new_rules new_hash second_look =
      if same new_hash e.committed_content_hash
      then (e, false)
      else if not (is_empty (trial_bad (e.global_rules ++ new_rules)))
      then (e, false)
      else if is_strict_subset new_rules e.project_rules && not (is_stable e new_hash second_look)
      then (e, false)
      else commit e new_rules new_hash

  unfoldable pub reload : Engine → SyncIgnoreFile → SyncIgnoreFile → Engine × Bool
  unfolding reload_rules commit is_stable
  reload e first_look second_look = elim (read_project_rules libs e.sync_ignore_path first_look) [
    | none ↦ (e, false)
    | some (rules, hash) ↦ reload_rules e rules hash second_look
  ]
