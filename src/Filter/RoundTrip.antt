-- ===== src/Filter/RoundTrip.antt =====
-- Reading rules: what every rule that is read looks like, and that rules written a line each are
-- read back.
use selective_mirror.Base.{
  ℕ, ◌≡◌, refl, sym, ap, ◌∙◌, ◌≢◌, Bool, false, List, [], ◌∷◌, ◌++◌, arith, ◌==◌, if_cases,
  if_false, All, Text, has_prefix, ◌&&◌,
}
use selective_mirror.Paths.{split_on, join_with, contains_byte, trim_left, trim_right}
use selective_mirror.Paths.Split.{
  split_on-join_with, split_on-lacks, trim_left-lacks, trim_right-lacks, contains_byte-reverse,
}
use selective_mirror.Filter.Rules.{
  newline, carriage_return, is_blank, is_skipped, strip_blanks, trim_trailing_unescaped, clean_line,
  collect, bom, drop_bom, parse_rules,
}
use mathlib.Core.List.{reverse, reverse-append, reverse-reverse}

abbrev pub starts_blank : Text → Bool
starts_blank [] = false
starts_blank (c ∷ s) = is_blank c

-- A rule as the engine keeps it.
pub record IsRule (r : Text) : Type 0 where
  pub says_something : is_skipped r ≡ false
  pub one_line : contains_byte newline r ≡ false
  pub flush : starts_blank r ≡ false

trim_left-flush : (s : Text) → starts_blank (trim_left is_blank s) ≡ false
unfolding trim_left
trim_left-flush [] = refl
trim_left-flush (c ∷ s) = ground (arith, trim_left-flush s)

strip_blanks-lacks :
    (c : ℕ) (s : Text) → contains_byte c s ≡ false → contains_byte c (strip_blanks s) ≡ false
unfolding strip_blanks contains_byte
strip_blanks-lacks c [] h = refl
strip_blanks-lacks c (x ∷ s) h = ground (arith, strip_blanks-lacks c s)

trim_trailing-lacks :
    (c : ℕ) (s : Text)
    → contains_byte c s ≡ false
    → contains_byte c (trim_trailing_unescaped s) ≡ false
unfolding trim_trailing_unescaped
trim_trailing-lacks c s h =
    contains_byte-reverse c (strip_blanks (reverse s))
    ∙ strip_blanks-lacks c (reverse s) (contains_byte-reverse c s ∙ h)

clean_line-lacks :
    (line : Text)
    → contains_byte newline line ≡ false
    → contains_byte newline (clean_line line) ≡ false
unfolding clean_line
clean_line-lacks line h =
    let cut : Text = trim_right (λ c. c == carriage_return) line in
    trim_left-lacks is_blank newline (trim_trailing_unescaped cut) (
      trim_trailing-lacks newline cut (trim_right-lacks (λ c. c == carriage_return) newline line h))

clean_line-flush : (line : Text) → starts_blank (clean_line line) ≡ false
unfolding clean_line
clean_line-flush line =
    trim_left-flush (trim_trailing_unescaped (trim_right (λ c. c == carriage_return) line))

collect-IsRule :
    (lines : List Text)
    → All (λ l. contains_byte newline l ≡ false) lines
    → All IsRule (collect lines)
unfolding collect
collect-IsRule [] h = tt
collect-IsRule (line ∷ lines) (h, hs) =
    if_cases (All IsRule) (is_skipped (clean_line line)) _ _ (λ _. collect-IsRule lines hs)
      (λ kept. (
        record {
          says_something = kept;
          one_line = clean_line-lacks line h;
          flush = clean_line-flush line;
        },
        collect-IsRule lines hs,
      ))

-- Every rule that is read from a file is one line, not empty, no comment, and starts flush left.
pub parse_rules-IsRule : (bytes : Text) → All IsRule (parse_rules bytes)
unfolding parse_rules
parse_rules-IsRule bytes =
    collect-IsRule (split_on newline (drop_bom bytes)) (split_on-lacks newline (drop_bom bytes))

-- A line of text that begins with neither a blank nor a hash, and ends with neither a blank nor a
-- carriage return: what an author writes as a rule without a comment or an escape.
pub record IsPlainRule (r : Text) : Type 0 where
  pub first : ℕ
  pub after_first : Text
  pub begins : r ≡ first ∷ after_first
  pub first_says : (first ≢ b' ') × (first ≢ 9) × (first ≢ b'#')
  pub last : ℕ
  pub before_last : Text
  pub ends : r ≡ before_last ++ last ∷ []
  pub last_says : (last ≢ b' ') × (last ≢ 9) × (last ≢ 13)
  pub one_line : contains_byte newline r ≡ false

trim_left-kept : (p : ℕ → Bool) (c : ℕ) (s : Text) → p c ≡ false → trim_left p (c ∷ s) ≡ c ∷ s
unfolding trim_left
trim_left-kept p c s h = if_false (p c) (trim_left p s) (c ∷ s) h

strip_blanks-kept : (c : ℕ) (s : Text) → is_blank c ≡ false → strip_blanks (c ∷ s) ≡ c ∷ s
unfolding strip_blanks
strip_blanks-kept c s h = ground (arith, h)

-- A trim from the right of a text whose last byte stays.
trimmed_back :
    (trim : Text → Text) (t : Text) (d : ℕ)
    → ((s : Text) → trim (d ∷ s) ≡ d ∷ s)
    → reverse (trim (reverse (t ++ d ∷ []))) ≡ t ++ d ∷ []
trimmed_back trim t d kept =
    let turned = reverse-append t (d ∷ []) in
    ap (λ s. reverse (trim s)) turned
    ∙ ap reverse (kept (reverse t))
    ∙ ap reverse (sym turned)
    ∙ reverse-reverse (t ++ d ∷ [])

is_blank-not : (c : ℕ) → c ≢ b' ' → c ≢ 9 → is_blank c ≡ false
is_blank-not c no_space no_tab = ground (arith, no_space, no_tab)

not_equal : (c d : ℕ) → c ≢ d → (c == d) ≡ false
not_equal c d h = ground (arith, h)

clean_line-plain : (r : Text) → IsPlainRule r → clean_line r ≡ r
unfolding clean_line trim_right trim_trailing_unescaped
clean_line-plain r plain =
    let (no_space, no_tab, no_return) = plain.last_says in
    let (no_space', no_tab', _) = plain.first_says in
    let is_return = λ (c : ℕ). c == carriage_return in
    let whole = plain.before_last ++ plain.last ∷ [] in
    let cut : trim_right is_return r ≡ r =
      ap (trim_right is_return) plain.ends
      ∙ trimmed_back (trim_left is_return) plain.before_last plain.last
          (λ s. trim_left-kept is_return plain.last s (not_equal plain.last 13 no_return))
      ∙ sym plain.ends in
    let trimmed : trim_trailing_unescaped r ≡ r =
      ap trim_trailing_unescaped plain.ends
      ∙ trimmed_back strip_blanks plain.before_last plain.last
          (λ s. strip_blanks-kept plain.last s (is_blank-not plain.last no_space no_tab))
      ∙ sym plain.ends in
    ap (λ s. trim_left is_blank (trim_trailing_unescaped s)) cut
    ∙ ap (trim_left is_blank) trimmed
    ∙ ap (trim_left is_blank) plain.begins
    ∙ trim_left-kept is_blank plain.first plain.after_first
        (is_blank-not plain.first no_space' no_tab')
    ∙ sym plain.begins

is_skipped-plain : (r : Text) → IsPlainRule r → is_skipped r ≡ false
is_skipped-plain r plain =
    ap is_skipped plain.begins ∙ not_equal plain.first b'#' plain.first_says.2

plain-lines :
    (rules : List Text) → All IsPlainRule rules → All (λ l. contains_byte newline l ≡ false) rules
plain-lines [] h = tt
plain-lines (r ∷ rules) (plain, hs) = (plain.one_line, plain-lines rules hs)

collect-plain : (rules : List Text) → All IsPlainRule rules → collect rules ≡ rules
unfolding collect
collect-plain [] h = refl
collect-plain (r ∷ rules) (plain, hs) =
    rw (clean_line-plain r plain, is_skipped-plain r plain, collect-plain rules hs)

drop_bom-absent : (s : Text) → has_prefix bom s ≡ false → drop_bom s ≡ s
unfolding drop_bom has_prefix
drop_bom-absent [] h = refl
drop_bom-absent (a ∷ []) h = refl
drop_bom-absent (a ∷ b ∷ []) h = refl
drop_bom-absent (a ∷ b ∷ c ∷ s) h =
    if_false (a == 0xef && (b == 0xbb && c == 0xbf)) s (a ∷ b ∷ c ∷ s) (ground (arith, h))

nothing_written : parse_rules (join_with newline []) ≡ []
unfolding parse_rules join_with
nothing_written = refl

-- Rules that begin with neither a space, a tab nor a hash and end with neither a space, a tab nor a
-- carriage return, a negation with its `!` included, written a line each into a file that does not
-- start with the bytes of a byte order mark, are read back as they are: none is dropped, cut or
-- moved.
pub parse_rules-join_with :
    (rules : List Text)
    → All IsPlainRule rules
    → has_prefix bom (join_with newline rules) ≡ false
    → parse_rules (join_with newline rules) ≡ rules
unfolding parse_rules
parse_rules-join_with [] h starts = nothing_written
parse_rules-join_with (r ∷ rules) h starts =
    rw (drop_bom-absent (join_with newline (r ∷ rules)) starts) (
      ap collect (split_on-join_with newline r rules (plain-lines (r ∷ rules) h))
      ∙ collect-plain (r ∷ rules) h)
