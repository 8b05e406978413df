-- ===== src/Filter/Engine.antt =====
-- filter.go: the filter engine of a mirror, from its construction on. The gitignore matcher and
-- SHA-256 are parameters; the mutex makes the readers one step each.
use selective_mirror.Base.{
  ℕ, Bool, true, false, not, ◌&&◌, Option, none, some, List, [], ◌∷◌, ◌++◌, if◌then◌else◌, any,
  keep, Text, codes, same, is_empty, ends_with, member,
}
use selective_mirror.Paths.{join_with, to_slash, base, contains_byte, slash}
use selective_mirror.Filter.Rules.{newline, parse_rules}

-- github.com/git-pkgs/gitignore over the bytes given to AddPatterns, and crypto/sha256.
pub record Libraries : Type 0 where
  -- The patterns that Errors reports.
  pub bad : Text → List Text
  -- MatchPath of a path that is a directory or not.
  pub match_path : Text → Text → Bool → Bool
  pub digest : Text → Text

pub record Engine : Type 0 where
  -- The bytes behind the merged matcher; `none` is the nil matcher.
  pub merged : Option Text
  pub global_rules : List Text
  pub project_rules : List Text
  pub sync_ignore_path : Text
  pub generation : ℕ
  pub bad_patterns : List Text
  pub committed_content_hash : Text

-- The file at the engine's path, when it is looked at.
pub data SyncIgnoreFile : Type 0 where
  missing : SyncIgnoreFile
  unreadable : SyncIgnoreFile
  content : Text → SyncIgnoreFile

module _ (libs : Libraries) where
  open libs use {bad, match_path, digest}

  -- The rules with the hash of the bytes; `none` is the read error.
  unfoldable pub read_project_rules : Text → SyncIgnoreFile → Option (List Text × Text)
  unfolding parse_rules
  read_project_rules path file = if is_empty path then some ([], digest []) else elim file [
    | missing ↦ some ([], digest [])
    | unreadable ↦ none
    | content bytes ↦ some (parse_rules bytes, digest bytes)
  ]

  abbrev pub merge : List Text → Text
  merge rules = join_with newline rules

  unfoldable pub rebuild_merged : Engine → Engine
  rebuild_merged e =
      let all = e.global_rules ++ e.project_rules in
      if is_empty all
      then record e { merged = none }
      else record e { merged = some (merge all); bad_patterns = bad (merge all) }

  -- The malformed project rules go when the engine starts.
  unfoldable pub strip_bad : Engine → Engine
  unfolding rebuild_merged keep
  strip_bad e =
      if is_empty e.bad_patterns
      then e
      else rebuild_merged
          (record e { project_rules = keep (λ r. not (member r e.bad_patterns)) e.project_rules })

  abbrev pub start_engine : List Text → Text → List Text → Text → Engine
  start_engine global_excludes path rules hash = record {
    merged = none;
    global_rules = global_excludes;
    project_rules = rules;
    sync_ignore_path = path;
    generation = 0;
    bad_patterns = [];
    committed_content_hash = hash;
  }

  unfoldable pub new_engine : List Text → Text → SyncIgnoreFile → Option Engine
  unfolding read_project_rules strip_bad
  new_engine global_excludes path file = elim (read_project_rules path file) [
    | none ↦ none
    | some (rules, hash) ↦
        some (strip_bad (rebuild_merged (start_engine global_excludes path rules hash)))
  ]

  unfoldable pub is_excluded : Engine → Text → Bool
  unfolding to_slash base contains_byte ends_with
  is_excluded e path =
      let rel = to_slash path in
      let name = base rel in
      if same name (codes ".syncignore")
      then true
      else if not (is_empty e.sync_ignore_path)
          && (same name (base e.sync_ignore_path) && not (contains_byte slash rel))
      then true
      else elim e.merged [ none ↦ false | some rules ↦ match_path rules rel (ends_with slash rel) ]

unfoldable pub has_bad_patterns : Engine → Bool
has_bad_patterns e = not (is_empty e.bad_patterns)

pub data Source : Type 0 where
  no_source both_sources global_excludes_source sync_ignore_source : Source

-- BadPatternSource: where the malformed patterns come from.
unfoldable pub bad_pattern_source : Engine → Source
bad_pattern_source e =
    let in_global = any (λ bp. member bp e.global_rules) e.bad_patterns in
    let in_project = any (λ bp. member bp e.project_rules) e.bad_patterns in
    if is_empty e.bad_patterns
    then no_source
    else if in_global && in_project
    then both_sources
    else if in_global
    then global_excludes_source
    else sync_ignore_source

-- EffectiveRules: the rules as they are shown.
unfoldable pub effective_rules : Engine → List Text
effective_rules e =
    (if is_empty e.global_rules then [] else codes "# Global excludes" ∷ e.global_rules)
    ++ (if is_empty e.project_rules then [] else codes "# Project .syncignore" ∷ e.project_rules)
