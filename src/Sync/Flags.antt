-- ===== src/Sync/Flags.antt =====
-- internal/sync/sync.go: the flags of an rclone call.
pub mod Present
mod Tests
use selective_mirror.Base.{
  ℕ, ◌+◌, Bool, not, ◌&&◌, ◌||◌, List, [], ◌∷◌, ◌++◌, ◌==◌, if◌then◌else◌, any, Text, codes, same,
  is_empty, has_prefix, member,
}
use selective_mirror.Config.{Global, Project, rclone_args}

abbrev pub equals_sign : ℕ
equals_sign = b'='

-- An empty value is a flag that takes none.
pub record FlagInjection : Type 0 where
  pub flag : Text
  pub value : Text

-- What stands before the first `=`.
unfoldable pub before_equals : Text → Text
before_equals [] = []
before_equals (c ∷ cs) = let rest = before_equals cs in if c == equals_sign then [] else c ∷ rest

-- The name of a flag, with its dashes: an argument that starts with two of them, cut at `=`. The
-- index of the sign is never 0, since a dash stands there.
unfoldable pub names_of : List Text → List Text
unfolding has_prefix before_equals
names_of [] = []
names_of (arg ∷ args) =
    let rest = names_of args in
    if has_prefix (codes "--") arg then before_equals arg ∷ rest else rest

abbrev pub flag_words : FlagInjection → List Text
flag_words c = if is_empty c.value then c.flag ∷ [] else c.flag ∷ c.value ∷ []

-- The candidates that the user has not given, behind `base`.
unfoldable pub inject_flags_avoiding_collision :
    List Text → List FlagInjection → List (List Text) → List Text
unfolding names_of member is_empty
inject_flags_avoiding_collision base [] user_extras = base
inject_flags_avoiding_collision base (c ∷ cs) user_extras =
    let go_on = inject_flags_avoiding_collision (base ++ flag_words c) cs user_extras in
    let skip = inject_flags_avoiding_collision base cs user_extras in
    if any (λ extras. member c.flag (names_of extras)) user_extras then skip else go_on

abbrev flag : Text → Text → FlagInjection
flag name value = record { flag = name; value = value }

abbrev pub common_candidates : List FlagInjection
common_candidates =
    flag (codes "--retries") (codes "3")
    ∷ flag (codes "--retries-sleep") (codes "10s")
    ∷ flag (codes "--low-level-retries") (codes "3")
    ∷ flag (codes "--timeout") (codes "60s")
    ∷ flag (codes "--contimeout") (codes "30s")
    ∷ flag (codes "--stats") (codes "0")
    ∷ flag (codes "--log-level") (codes "NOTICE")
    ∷ flag (codes "--skip-links") []
    ∷ []

abbrev pub delete_candidates : List FlagInjection
delete_candidates =
    flag (codes "--retries") (codes "1")
    ∷ flag (codes "--timeout") (codes "60s")
    ∷ flag (codes "--contimeout") (codes "30s")
    ∷ flag (codes "--stats") (codes "0")
    ∷ flag (codes "--log-level") (codes "NOTICE")
    ∷ flag (codes "--skip-links") []
    ∷ []

-- The injected flags, the bandwidth limit, the user's own flags.
unfoldable pub flags_with : List FlagInjection → Global → Project → List Text
unfolding inject_flags_avoiding_collision is_empty
flags_with candidates g p =
    let flags =
      inject_flags_avoiding_collision [] candidates
        (g.rclone_extra_flags ∷ p.rclone_extra_flags ∷ []) in
    let limited =
      if is_empty g.bandwidth_limit
      then flags
      else flags ++ (codes "--bwlimit" ∷ g.bandwidth_limit ∷ []) in
    (limited ++ g.rclone_extra_flags) ++ p.rclone_extra_flags

unfoldable pub common_flags : Global → Project → List Text
unfolding flags_with
common_flags = flags_with common_candidates

unfoldable pub delete_flags : Global → Project → List Text
unfolding flags_with
delete_flags = flags_with delete_candidates

unfoldable pub is_transfer_verb : Text → Bool
unfolding member
is_transfer_verb verb =
    member verb (codes "copyto" ∷ codes "copy" ∷ codes "sync" ∷ codes "moveto" ∷ [])

unfoldable pub flag_present : Text → List Text → Bool
unfolding any same has_prefix
flag_present name args = any (λ a. same a name || has_prefix (name ++ (equals_sign ∷ [])) a) args

abbrev pub args_head : List Text → Text
args_head [] = []
args_head (a ∷ args) = a

-- The command line that the supervised rclone gets for the arguments of a call.
unfoldable pub supervised_args : Global → List Text → List Text
unfolding rclone_args is_transfer_verb flag_present
supervised_args g args =
    let full = rclone_args g ++ args in
    if is_transfer_verb (args_head args) && not (flag_present (codes "--stats") full)
    then full ++ (codes "--stats" ∷ codes "15s" ∷ codes "--stats-one-line" ∷ [])
    else full
