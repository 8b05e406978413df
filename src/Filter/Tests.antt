-- ===== src/Filter/Tests.antt =====
-- Runs of the filter engine, and its theorems at concrete inputs.
use selective_mirror.Base.{
  has_prefix, ◌≡◌, refl, Bool, true, false, some, [], ◌∷◌, map, arith, if◌then◌else◌, keep, All,
  Text, codes, same, is_empty, ends_with, member,
}
use selective_mirror.Paths.{contains_byte, join_with, split_on}
use selective_mirror.Filter.Rules.{newline, parse_rules, is_strict_subset}
use selective_mirror.Filter.Engine.{Libraries, Engine, content, new_engine, read_project_rules}
use selective_mirror.Filter.Reload.{reload}
use selective_mirror.Filter.Rclone.{
  rclone_filter_lines, to_rclone_filter, control_lines, combined_rules,
}
use selective_mirror.Filter.Order.{
  first_match, last_match, any_hits, dir_lines, good, first_match-rclone_filter_lines,
}
use selective_mirror.Filter.Commit.{IsCoherent, Ends, new_engine-IsCoherent, reload-Ends}
use selective_mirror.Filter.RoundTrip.{IsPlainRule, parse_rules-join_with}

-- A matcher that knows whole paths only and finds nothing malformed; the hash of a text is itself.
abbrev whole_paths : Libraries
whole_paths = record {
  bad = λ bytes. [];
  match_path = λ bytes path is_dir. member path (split_on newline bytes);
  digest = λ bytes. bytes;
}

abbrev path : Text
path = codes "C:/notes/.syncignore"

abbrev two_rules : Text
two_rules = codes "*.tmp\nbuild/\n"

parsed :
    parse_rules (codes "# comment\n *.tmp \t\r\n\nkeep\\ \n") ≡ codes "*.tmp" ∷ codes "keep\\ " ∷ []
unfolding parse_rules
parsed = refl

converted :
    map to_rclone_filter (codes "!a" ∷ codes "b/" ∷ codes "c\\ " ∷ [])
    ≡ codes "+ a" ∷ codes "- b/**" ∷ codes "- c " ∷ []
unfolding to_rclone_filter
converted = refl

abbrev engine : Engine
engine = record {
  merged = some (codes ".git/\n*.log\n*.tmp\nbuild/");
  global_rules = codes ".git/" ∷ codes "*.log" ∷ [];
  project_rules = codes "*.tmp" ∷ codes "build/" ∷ [];
  sync_ignore_path = path;
  generation = 0;
  bad_patterns = [];
  committed_content_hash = two_rules;
}

started :
    new_engine whole_paths (codes ".git/" ∷ codes "*.log" ∷ []) path (content two_rules)
    ≡ some engine
unfolding new_engine join_with is_empty
started = refl

lines :
    rclone_filter_lines engine
    ≡ codes "- .syncignore"
      ∷ codes "- .git/**"
      ∷ codes "- build/**"
      ∷ codes "- *.tmp"
      ∷ codes "- *.log"
      ∷ codes "+ **"
      ∷ []
unfolding rclone_filter_lines keep member same ends_with
lines = refl

-- A file that is cut short is not trusted until it has been read twice alike.
cut_short :
    reload whole_paths engine (content (codes "*.tmp\n")) (content two_rules) ≡ (engine, false)
unfolding reload same is_strict_subset join_with read_project_rules is_empty
cut_short = refl

abbrev hits : Text → Text → Bool
hits = same

first_match-rclone_filter_lines_example :
    first_match hits (codes "*.tmp") (rclone_filter_lines engine) ≡ (
      if any_hits hits (codes "*.tmp") (control_lines engine)
      then false
      else if any_hits hits (codes "*.tmp") (dir_lines engine)
      then false
      else last_match hits (codes "*.tmp") true (good engine (combined_rules engine)))
first_match-rclone_filter_lines_example =
    first_match-rclone_filter_lines hits (codes "*.tmp") engine

new_engine-IsCoherent_example : IsCoherent whole_paths engine
new_engine-IsCoherent_example =
    new_engine-IsCoherent whole_paths (codes ".git/" ∷ codes "*.log" ∷ []) path (content two_rules)
      engine started

reload-Ends_example :
    Ends whole_paths engine
      (content (codes "*.tmp\n"))
      (content two_rules)
      (reload whole_paths engine (content (codes "*.tmp\n")) (content two_rules))
reload-Ends_example = reload-Ends whole_paths engine (content (codes "*.tmp\n")) (content two_rules)

plain_rules : All IsPlainRule (codes "*.tmp" ∷ codes "!keep" ∷ [])
unfolding contains_byte
plain_rules = (
  record {
    first = b'*';
    after_first = codes ".tmp";
    begins = refl;
    first_says = (λ h. omega arith, λ h. omega arith, λ h. omega arith);
    last = b'p';
    before_last = codes "*.tm";
    ends = refl;
    last_says = (λ h. omega arith, λ h. omega arith, λ h. omega arith);
    one_line = refl;
  },
  (
    record {
      first = b'!';
      after_first = codes "keep";
      begins = refl;
      first_says = (λ h. omega arith, λ h. omega arith, λ h. omega arith);
      last = b'p';
      before_last = codes "!kee";
      ends = refl;
      last_says = (λ h. omega arith, λ h. omega arith, λ h. omega arith);
      one_line = refl;
    },
    tt,
  ),
)

parse_rules-join_with_example :
    parse_rules (join_with newline (codes "*.tmp" ∷ codes "!keep" ∷ []))
    ≡ codes "*.tmp" ∷ codes "!keep" ∷ []
unfolding has_prefix join_with
parse_rules-join_with_example =
    parse_rules-join_with (codes "*.tmp" ∷ codes "!keep" ∷ []) plain_rules refl
