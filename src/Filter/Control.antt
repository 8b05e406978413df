-- ===== src/Filter/Control.antt =====
-- IsExcluded keeps the control file out of the mirror in every directory.
use selective_mirror.Base.{
  ◌≡◌, refl, sym, ap, ◌∙◌, true, false, ◌&&◌, [], ◌∷◌, ◌++◌, arith, ◌==◌, if◌then◌else◌, if_cases,
  Text, codes, same, is_empty,
}
use selective_mirror.Paths.{
  base, base_of, to_slash, slash, backslash, colon, drop_volume, trim_right, trim_left,
  last_element, any_separator, is_separator, is_letter,
}
use selective_mirror.Filter.Engine.{Libraries, Engine, is_excluded}
use mathlib.Core.List.{reverse, reverse-append, reverse-reverse}

abbrev pub control_name : Text
control_name = codes ".syncignore"

abbrev pub behind_slash : Text → Text
behind_slash dir = dir ++ (slash ∷ control_name)

to_slash-append : (s t : Text) → to_slash (s ++ t) ≡ to_slash s ++ to_slash t
unfolding to_slash
to_slash-append [] t = refl
to_slash-append (x ∷ s) t =
    ap (λ u. (if x == backslash then slash else x) ∷ u) (to_slash-append s t)

trim-behind : (dir : Text) → trim_right is_separator (behind_slash dir) ≡ behind_slash dir
unfolding trim_right
trim-behind dir =
    let back : reverse (behind_slash dir) ≡ reverse (slash ∷ control_name) ++ reverse dir =
      reverse-append dir (slash ∷ control_name) in
    rw (back, trim_left) (ap reverse (sym back) ∙ reverse-reverse (behind_slash dir))

drop_volume-behind :
    (dir : Text) → (dir' : Text) × (drop_volume (behind_slash dir) ≡ behind_slash dir')
unfolding drop_volume
drop_volume-behind [] = ([], refl)
drop_volume-behind (x ∷ []) = (x ∷ [], ground arith)
drop_volume-behind (x ∷ y ∷ dir) =
    if_cases (λ (s : Text). (dir' : Text) × (s ≡ behind_slash dir')) (is_letter x && y == colon) _ _
      (λ _. (dir, refl)) (λ _. (x ∷ y ∷ dir, refl))

any_separator-behind : (dir : Text) → any_separator (behind_slash dir) ≡ true
unfolding any_separator
any_separator-behind [] = refl
any_separator-behind (x ∷ dir) = ground (arith, any_separator-behind dir)

last_element-behind : (dir : Text) → last_element (behind_slash dir) ≡ control_name
unfolding last_element any_separator
last_element-behind [] = refl
last_element-behind (x ∷ dir) = rw (any_separator-behind dir) (last_element-behind dir)

base_of-behind : (dir : Text) → base_of (behind_slash dir) ≡ control_name
base_of-behind [] = last_element-behind []
base_of-behind (x ∷ dir) = last_element-behind (x ∷ dir)

is_empty-behind : (dir : Text) → is_empty (behind_slash dir) ≡ false
unfolding is_empty
is_empty-behind [] = refl
is_empty-behind (x ∷ dir) = refl

base-behind : (dir : Text) → base (behind_slash dir) ≡ control_name
unfolding base
base-behind dir =
    let (dir', dropped) = drop_volume-behind dir in
    rw (is_empty-behind dir, trim-behind dir, dropped) (base_of-behind dir')

-- Whatever the rules say, a file named .syncignore is excluded, at the root of the mirror and in
-- every directory below it.
pub is_excluded-control_file :
    (libs : Libraries) (e : Engine) (dir : Text)
    → (is_excluded libs e control_name ≡ true) × (is_excluded libs e (behind_slash dir) ≡ true)
unfolding is_excluded same
is_excluded-control_file libs e dir =
    (refl, rw (to_slash-append dir (slash ∷ control_name), base-behind (to_slash dir)))
