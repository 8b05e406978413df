-- ===== src/Sync/Names/Inside.antt =====
-- Where the paths lead that isUnsafeRelPath lets through (internal/sync/sync.go).
use selective_mirror.Base.{
  ℕ, zero, suc, ◌≡◌, refl, ap, ◌∙◌, false, ◌||◌, Option, none, some, List, [], ◌∷◌, arith,
  if◌then◌else◌, length, any, Text, codes, same, is_empty,
}
use selective_mirror.Paths.{slash, to_slash, split_on, clean_segments, dot_dot}
use selective_mirror.Sync.Names.{starts_rooted, has_colon_second, is_unsafe_rel_path}

-- The depth that the segments of a path lead to, one after the other; none where a `..` leaves the
-- directory that the walk began in.
unfoldable pub descend : ℕ → List Text → Option ℕ
unfolding same is_empty
descend depth [] = some depth
descend zero (s ∷ ss) =
    let here = descend zero ss in
    let below = descend 1 ss in
    if is_empty s || same s (codes ".") then here else if same s dot_dot then none else below
descend (suc depth) (s ∷ ss) =
    let here = descend (suc depth) ss in
    let above = descend depth ss in
    let below = descend (suc (suc depth)) ss in
    if is_empty s || same s (codes ".") then here else if same s dot_dot then above else below

abbrev pub segments : Text → List Text
segments path = split_on slash (to_slash path)

-- Where no segment is `..`, Clean keeps as many segments as the walk is deep.
descend-clean_segments :
    (ss kept : List Text)
    → any (λ s. same s dot_dot) ss ≡ false
    → descend (length kept) ss ≡ some (length (clean_segments kept ss))
unfolding descend clean_segments any
descend-clean_segments [] kept h = refl
descend-clean_segments (s ∷ ss) [] h =
    let none_up : same s dot_dot ≡ false = ground (arith, h) in
    let rest : any (λ t. same t dot_dot) ss ≡ false = ground (arith, h) in
    ground
      (arith, none_up, descend-clean_segments ss [] rest, descend-clean_segments ss (s ∷ []) rest)
descend-clean_segments (s ∷ ss) (k ∷ kept) h =
    let none_up : same s dot_dot ≡ false = ground (arith, h) in
    let rest : any (λ t. same t dot_dot) ss ≡ false = ground (arith, h) in
    ground (
      arith,
      none_up,
      descend-clean_segments ss (k ∷ kept) rest,
      descend-clean_segments ss (s ∷ k ∷ kept) rest,
    )

not_empty : (ss : List Text) → is_empty ss ≡ false → (n : ℕ) × (length ss ≡ suc n)
unfolding is_empty
not_empty [] h = absurd (cc h)
not_empty (s ∷ ss) h = (length ss, refl)

-- The path has no root and no drive, and its segments lead strictly below where they start, never
-- above it on the way.
abbrev pub IsInside : Text → Type 0
IsInside path =
    (starts_rooted path ≡ false)
    × ((has_colon_second path ≡ false) × ((n : ℕ) × (descend 0 (segments path) ≡ some (suc n))))

-- A path which is not empty and which isUnsafeRelPath accepts starts with no separator and no drive,
-- and a walk along its segments stays in the directory it starts in at every step and ends below it.
pub is_unsafe_rel_path-IsInside :
    (path : Text) → is_empty path ≡ false → is_unsafe_rel_path path ≡ false → IsInside path
unfolding is_unsafe_rel_path
is_unsafe_rel_path-IsInside path some_path h =
    let no_root : starts_rooted path ≡ false = ground (arith, h, some_path) in
    let no_drive : has_colon_second path ≡ false = ground (arith, h, some_path) in
    let kept : is_empty (clean_segments [] (segments path)) ≡ false =
      ground (arith, h, some_path) in
    let none_up : any (λ s. same s dot_dot) (segments path) ≡ false =
      ground (arith, h, some_path) in
    let (n, deep) = not_empty (clean_segments [] (segments path)) kept in
    (no_root, (no_drive, (n, descend-clean_segments (segments path) [] none_up ∙ ap some deep)))
