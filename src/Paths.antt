-- ===== src/Paths.antt =====
-- What the program uses of Go's strings and path/filepath, on Windows: either slash separates.
-- A path has no network share in front; a drive letter with its colon is a volume name.
pub mod Split
use selective_mirror.Base.{
  ℕ, ◌+◌, ◌/◌, Bool, true, false, ◌&&◌, ◌||◌, List, [], ◌∷◌, ◌++◌, leb, ◌==◌, if◌then◌else◌, Text,
  codes, same, is_empty,
}
use mathlib.Core.List.{reverse}

abbrev pub slash : ℕ
slash = b'/'

abbrev pub backslash : ℕ
backslash = 92

abbrev pub colon : ℕ
colon = b':'

-- A byte joins the first piece, or starts a new one where it is the separator.
abbrev pub piece : Bool → ℕ → List Text → List Text
piece true x ps = [] ∷ ps
piece false x [] = (x ∷ []) ∷ []
piece false x (p ∷ ps) = (x ∷ p) ∷ ps

-- strings.Split, for a separator of one byte.
unfoldable pub split_on : ℕ → Text → List Text
split_on c [] = [] ∷ []
split_on c (x ∷ xs) = piece (x == c) x (split_on c xs)

-- strings.Join, for a separator of one byte.
unfoldable pub join_with : ℕ → List Text → Text
join_with c [] = []
join_with c (p ∷ []) = p
join_with c (p ∷ q ∷ ps) = p ++ (c ∷ join_with c (q ∷ ps))

unfoldable pub contains_byte : ℕ → Text → Bool
contains_byte c [] = false
contains_byte c (x ∷ xs) = x == c || contains_byte c xs

-- Drop the leading bytes that pass a test: strings.TrimLeft for the bytes of a set.
unfoldable pub trim_left : (ℕ → Bool) → Text → Text
trim_left p [] = []
trim_left p (x ∷ xs) = if p x then trim_left p xs else x ∷ xs

unfoldable pub trim_right : (ℕ → Bool) → Text → Text
unfolding trim_left
trim_right p s = reverse (trim_left p (reverse s))

unfoldable pub to_slash : Text → Text
to_slash [] = []
to_slash (x ∷ xs) = (if x == backslash then slash else x) ∷ to_slash xs

abbrev pub is_separator : ℕ → Bool
is_separator c = c == slash || c == backslash

abbrev pub is_letter : ℕ → Bool
is_letter c = (leb b'a' c && leb c b'z') || (leb b'A' c && leb c b'Z')

unfoldable pub drop_volume : Text → Text
drop_volume (d ∷ c ∷ rest) = if is_letter d && c == colon then rest else d ∷ c ∷ rest
drop_volume s = s

unfoldable pub any_separator : Text → Bool
any_separator [] = false
any_separator (x ∷ xs) = is_separator x || any_separator xs

-- What follows the last separator.
unfoldable pub last_element : Text → Text
last_element [] = []
last_element (x ∷ xs) =
    let rest = last_element xs in
    if any_separator xs then rest else if is_separator x then xs else x ∷ xs

abbrev pub base_of : Text → Text
base_of [] = backslash ∷ []
base_of (x ∷ xs) = last_element (x ∷ xs)

-- filepath.Base
unfoldable pub base : Text → Text
unfolding trim_right drop_volume last_element any_separator is_empty
base s = if is_empty s then codes "." else base_of (drop_volume (trim_right is_separator s))

-- filepath.IsAbs: a drive and a rooted path.
unfoldable pub is_abs : Text → Bool
is_abs (d ∷ c ∷ x ∷ rest) = is_letter d && (c == colon && is_separator x)
is_abs s = false

abbrev pub dot_dot : Text
dot_dot = codes ".."

-- What a `..` does: it takes a segment back, or stays where there is none to take.
unfoldable pub step_up : List Text → List Text
unfolding same
step_up [] = dot_dot ∷ []
step_up (s ∷ ss) = if same s dot_dot then dot_dot ∷ s ∷ ss else ss

-- filepath.Clean of a path without root and volume, as the segments that remain, the last first.
unfoldable pub clean_segments : List Text → List Text → List Text
unfolding same is_empty step_up
clean_segments kept [] = kept
clean_segments kept (s ∷ ss) =
    if is_empty s || same s (codes ".")
    then clean_segments kept ss
    else if same s dot_dot
    then clean_segments (step_up kept) ss
    else clean_segments (s ∷ kept) ss

-- The segments before the last.
abbrev pub all_but_last : List Text → List Text
all_but_last [] = []
all_but_last (s ∷ []) = []
all_but_last (s ∷ t ∷ ss) = s ∷ all_but_last (t ∷ ss)

-- filepath.Dir of a path without root and volume: cleaned, with backslashes.
unfoldable pub dir : Text → Text
unfolding clean_segments split_on to_slash join_with is_empty
dir path =
    let kept = clean_segments [] (all_but_last (split_on slash (to_slash path))) in
    if is_empty kept then codes "." else join_with backslash (reverse kept)

-- strings.ToLower, on ASCII.
unfoldable pub to_lower : Text → Text
to_lower [] = []
to_lower (c ∷ cs) = (if leb b'A' c && leb c b'Z' then c + 32 else c) ∷ to_lower cs
