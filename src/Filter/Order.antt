-- ===== src/Filter/Order.antt =====
-- The order of the generated lines: rclone takes the first line that matches a path, gitignore the
-- last rule.
use selective_mirror.Base.{
  ℕ, ◌≡◌, refl, sym, ap, ◌∙◌, inl, inr, Bool, true, false, not, ◌||◌, List, [], ◌∷◌, ◌++◌, map,
  append-nil, arith, ◌==◌, if◌then◌else◌, if_cases, Bool-cases, keep, All, keep-append, Text, codes,
  is_empty, ends_with, member,
}
use selective_mirror.Paths.{slash, base}
use selective_mirror.Filter.Rules.{trim_trailing_unescaped, strip_blanks}
use selective_mirror.Filter.Engine.{Engine}
use selective_mirror.Filter.Rclone.{
  to_rclone_filter, starts_with_bang, unescape_spaces, behind_first, is_global_dir, control_lines,
  good_lines, combined_rules, rclone_filter_lines,
}
use mathlib.Core.List.{
  reverse, reverse-append, reverse-reverse, reverse-cons, map-append, append_assoc as app_assoc,
}

-- A line includes if it starts with a plus; behind the sign and a space stands its pattern.
abbrev pub includes : Text → Bool
includes [] = false
includes (c ∷ s) = c == b'+'

abbrev pub pattern_of : Text → Text
pattern_of line = behind_first (behind_first line)

-- rclone's own matching of one pattern with a path is a parameter.
module _ (hits : Text → Text → Bool) (path : Text) where
  -- rclone: the first line with a matching pattern decides, and a path that none matches is included.
  abbrev pub first_match : List Text → Bool
  first_match [] = true
  first_match (l ∷ ls) = if hits (pattern_of l) path then includes l else first_match ls

  -- gitignore: each rule that matches overrides the verdict so far.
  abbrev pub last_match : Bool → List Text → Bool
  last_match verdict [] = verdict
  last_match verdict (r ∷ rs) =
      last_match
        (if hits (pattern_of (to_rclone_filter r)) path
          then includes (to_rclone_filter r)
          else verdict)
        rs

  abbrev pub any_hits : List Text → Bool
  any_hits [] = false
  any_hits (l ∷ ls) = hits (pattern_of l) path || any_hits ls

  first_match-append :
      (xs ys : List Text)
      → All (λ l. includes l ≡ false) xs
      → first_match (xs ++ ys) ≡ (if any_hits xs then false else first_match ys)
  first_match-append [] ys h = refl
  first_match-append (x ∷ xs) ys (h, hs) = ground (arith, first_match-append xs ys hs)

  first_match-reverse :
      (rs tail : List Text)
      → first_match (map to_rclone_filter (reverse rs) ++ tail) ≡ last_match (first_match tail) rs
  first_match-reverse [] tail = refl
  first_match-reverse (r ∷ rs) tail =
      rw
        (
          reverse-cons r rs,
          map-append to_rclone_filter (reverse rs) (r ∷ []),
          app_assoc (map to_rclone_filter (reverse rs)),
        )
        (first_match-reverse rs (to_rclone_filter r ∷ tail))

ends_with→append :
    (c : ℕ) (s : Text) → ends_with c s ≡ true → (front : Text) × (s ≡ front ++ c ∷ [])
unfolding ends_with
ends_with→append c [] h = absurd (cc)
ends_with→append c (x ∷ []) h = ([], ground arith)
ends_with→append c (x ∷ y ∷ s) h =
    let (front, e) = ends_with→append c (y ∷ s) h in (x ∷ front, ap (λ t. x ∷ t) e)

-- A rule that ends in a slash has no blanks to strip.
trim-dir : (r : Text) → ends_with slash r ≡ true → trim_trailing_unescaped r ≡ r
unfolding trim_trailing_unescaped
trim-dir r h =
    let (front, e) = ends_with→append slash r h in
    let back : reverse r ≡ slash ∷ reverse front =
      ap reverse e ∙ reverse-append front (slash ∷ []) in
    rw (back, strip_blanks) (ap reverse (sym back) ∙ reverse-reverse r)

bang-unescape_spaces : (s : Text) → starts_with_bang (unescape_spaces s) ≡ starts_with_bang s
unfolding unescape_spaces starts_with_bang
bang-unescape_spaces [] = refl
bang-unescape_spaces (c ∷ []) = refl
bang-unescape_spaces (c ∷ d ∷ s) = ground arith

includes-dir : (r : Text) → is_global_dir r ≡ true → includes (to_rclone_filter r) ≡ false
unfolding to_rclone_filter
includes-dir r h =
    let dir : ends_with slash r ≡ true = ground arith in
    let body : starts_with_bang (unescape_spaces (trim_trailing_unescaped r)) ≡ false =
      bang-unescape_spaces (trim_trailing_unescaped r)
      ∙ ap starts_with_bang (trim-dir r dir)
      ∙ ground arith in
    rw body (ground arith)

excluding_dirs :
    (bad : List Text) (rs : List Text)
    → All
        (λ l. includes l ≡ false)
        (map to_rclone_filter (keep (λ r. not (member r bad)) (keep is_global_dir rs)))
unfolding keep
excluding_dirs bad [] = tt
excluding_dirs bad (r ∷ rs) = elim (Bool-cases (is_global_dir r)) [
  | inl dir ↦
      rw (dir, keep)
        (if_cases (λ (x : List Text). All (λ l. includes l ≡ false) (map to_rclone_filter x))
          (not (member r bad)) _ _ (λ _. (includes-dir r dir, excluding_dirs bad rs))
          (λ _. excluding_dirs bad rs))
  | inr file ↦ rw (file, keep) (excluding_dirs bad rs)
]

keep-reverse : (p : Text → Bool) (rs : List Text) → keep p (reverse rs) ≡ reverse (keep p rs)
unfolding keep
keep-reverse p [] = refl
keep-reverse p (r ∷ rs) =
    rw (reverse-cons r rs, keep-append p (reverse rs) (r ∷ []), keep-reverse p rs)
      (elim (Bool-cases (p r)) [
        | inl yes_ ↦ rw yes_ (sym (reverse-cons r (keep p rs)))
        | inr no_ ↦ rw no_ (append-nil (reverse (keep p rs)))
      ])

optional_exclude :
    (b : Bool) (name : Text)
    → All (λ l. includes l ≡ false) (if b then (codes "- " ++ name) ∷ [] else [])
optional_exclude true name = (refl, tt)
optional_exclude false name = tt

control_lines-exclude : (e : Engine) → All (λ l. includes l ≡ false) (control_lines e)
control_lines-exclude e =
    (refl, optional_exclude _ (if is_empty e.sync_ignore_path then [] else base e.sync_ignore_path))

-- The good rules of a list.
abbrev pub good : Engine → List Text → List Text
good e = keep (λ r. not (member r e.bad_patterns))

abbrev pub dir_lines : Engine → List Text
dir_lines e = good_lines e (keep is_global_dir e.global_rules)

-- The verdict of rclone on the generated lines: the control files are excluded, then whatever a
-- global directory rule matches, and all else goes by the last of the other rules, global before
-- project, that matches; malformed rules have no say.
pub first_match-rclone_filter_lines :
    (hits : Text → Text → Bool) (path : Text) (e : Engine)
    → first_match hits path (rclone_filter_lines e) ≡ (
        if any_hits hits path (control_lines e)
        then false
        else if any_hits hits path (dir_lines e)
        then false
        else last_match hits path true (good e (combined_rules e)))
unfolding rclone_filter_lines
first_match-rclone_filter_lines hits path e =
    first_match-append hits path (control_lines e) _ (control_lines-exclude e)
    ∙ ap (λ v. if any_hits hits path (control_lines e) then false else v)
        (first_match-append hits path (dir_lines e) _ (excluding_dirs e.bad_patterns e.global_rules)
          ∙ ap (λ v. if any_hits hits path (dir_lines e) then false else v) others)
  where
    tail_included : first_match hits path (codes "+ **" ∷ []) ≡ true
    tail_included = ground arith

    others :
        first_match hits path (good_lines e (reverse (combined_rules e)) ++ codes "+ **" ∷ [])
        ≡ last_match hits path true (good e (combined_rules e))
    others = rw (keep-reverse (λ r. not (member r e.bad_patterns)) (combined_rules e)) (
        first_match-reverse hits path (good e (combined_rules e)) (codes "+ **" ∷ [])
        ∙ ap (λ v. last_match hits path v (good e (combined_rules e))) tail_included)
