-- ===== src/Filter/Rules.antt =====
-- filter.go: reading rules from the bytes of a .syncignore file, and comparing two lists of rules.
use selective_mirror.Base.{
  ℕ, suc, ◌-◌, Bool, true, false, ◌&&◌, ◌||◌, List, [], ◌∷◌, leb, ◌==◌, if◌then◌else◌, length, Text,
  same,
}
use selective_mirror.Paths.{split_on, trim_left, trim_right, backslash}
use mathlib.Core.List.{reverse}

abbrev pub newline : ℕ
newline = 10

abbrev pub carriage_return : ℕ
carriage_return = 13

abbrev pub space : ℕ
space = 32

abbrev pub tab : ℕ
tab = 9

abbrev pub is_blank : ℕ → Bool
is_blank c = c == space || c == tab

abbrev pub hash : ℕ
hash = b'#'

abbrev starts_with_backslash : Text → Bool
starts_with_backslash [] = false
starts_with_backslash (c ∷ s) = c == backslash

-- The loop of trimTrailingUnescaped, on the text from its end: it stops at a space behind a
-- backslash.
unfoldable pub strip_blanks : Text → Text
strip_blanks [] = []
strip_blanks (c ∷ s) =
    let rest = strip_blanks s in
    if is_blank c then (if starts_with_backslash s && c == space then c ∷ s else rest) else c ∷ s

unfoldable pub trim_trailing_unescaped : Text → Text
unfolding strip_blanks
trim_trailing_unescaped s = reverse (strip_blanks (reverse s))

-- The bytes EF BB BF.
abbrev pub bom : Text
bom = 0xef ∷ 0xbb ∷ 0xbf ∷ []

unfoldable pub drop_bom : Text → Text
drop_bom (a ∷ b ∷ c ∷ s) = if a == 0xef && (b == 0xbb && c == 0xbf) then s else a ∷ b ∷ c ∷ s
drop_bom s = s

unfoldable pub clean_line : Text → Text
unfolding trim_right trim_trailing_unescaped trim_left
clean_line line =
    trim_left is_blank (trim_trailing_unescaped (trim_right (λ c. c == carriage_return) line))

-- A line that is empty or starts with a hash is no rule.
abbrev pub is_skipped : Text → Bool
is_skipped [] = true
is_skipped (c ∷ s) = c == hash

unfoldable pub collect : List Text → List Text
unfolding clean_line
collect [] = []
collect (line ∷ lines) =
    let rest = collect lines in
    let rule = clean_line line in if is_skipped rule then rest else rule ∷ rest

-- The rules of the file's bytes.
unfoldable pub parse_rules : Text → List Text
unfolding collect split_on drop_bom
parse_rules content = collect (split_on newline (drop_bom content))

-- old[r]++ over the rules.
unfoldable pub count_rule : Text → List Text → ℕ
count_rule r [] = 0
count_rule r (x ∷ xs) = if same x r then suc (count_rule r xs) else count_rule r xs

abbrev pub Tally : Type 0
Tally = Text → ℕ

abbrev pub take_one : Text → Tally → Tally
take_one r old j = if same r j then old j - 1 else old j

-- The second loop of isStrictSubset: each new rule uses up an old one.
unfoldable pub use_up : List Text → Tally → Bool
use_up [] old = true
use_up (r ∷ rs) old = if old r == 0 then false else use_up rs (take_one r old)

unfoldable pub is_strict_subset : List Text → List Text → Bool
unfolding use_up count_rule
is_strict_subset new_rules old_rules =
    if leb (length old_rules) (length new_rules)
    then false
    else use_up new_rules (λ r. count_rule r old_rules)
