-- ===== src/Sync/Quarantine.antt =====
-- internal/sync/sync.go: quarantined files, the time in their names, and the purge of those that are
-- past their retention. A time is its civil fields in UTC; rclone's listing is an argument.
pub mod Digits
pub mod Stamp
pub mod Purge
mod Tests
use selective_mirror.Base.{
  ℕ, zero, suc, ◌+◌, ◌-◌, ◌*◌, ◌/◌, ◌%◌, Bool, true, false, not, ◌&&◌, ◌||◌, Option, none, some,
  List, [], ◌∷◌, ◌++◌, map, ltb, leb, ◌==◌, if◌then◌else◌, keep, Text, codes, take,
}
use selective_mirror.Base.Int.{is_zero}
use selective_mirror.Config.{Project, DeletePolicy, ignore, delete, quarantine, delete_policy}
use selective_mirror.Sync.{Env, World, run_rclone}
use selective_mirror.Sync.Flags.{delete_flags}

pub record Civil : Type 0 where
  pub year : ℕ
  pub month : ℕ
  pub day : ℕ
  pub hour : ℕ
  pub minute : ℕ
  pub second : ℕ

-- The last digits of a number, as many as `width`, with zeros in front.
unfoldable pub digits : ℕ → ℕ → Text
digits zero n = []
digits (suc width) n = digits width (n / 10) ++ ((b'0' + n % 10) ∷ [])

-- Format("20060102T150405Z") of a year below 10000.
unfoldable pub format_stamp : Civil → Text
unfolding digits
format_stamp c =
    digits 4 c.year
    ++ (digits 2 c.month
        ++ (digits 2 c.day
            ++ (b'T'
                ∷ (digits 2 c.hour ++ (digits 2 c.minute ++ (digits 2 c.second ++ (b'Z' ∷ [])))))))

-- ts, with the nanoseconds behind it.
unfoldable pub stamp_of : Civil → ℕ → Text
unfolding format_stamp digits
stamp_of c nanos = format_stamp c ++ (b'.' ∷ digits 9 nanos)

abbrev pub is_digit : ℕ → Bool
is_digit c = leb b'0' c && leb c b'9'

unfoldable pub all_digits : Text → Bool
all_digits [] = true
all_digits (c ∷ cs) = is_digit c && all_digits cs

-- The text after one byte for each test.
unfoldable pub after : List (ℕ → Bool) → Text → Option Text
after [] s = some s
after (t ∷ ts) [] = none
after (t ∷ ts) (c ∷ cs) = if t c then after ts cs else none

abbrev pub times : ℕ → (ℕ → Bool) → List (ℕ → Bool) → List (ℕ → Bool)
times zero t ts = ts
times (suc n) t ts = t ∷ times n t ts

-- \.(\d{8}T\d{6}Z)
abbrev pub stamp_tests : List (ℕ → Bool)
stamp_tests =
    (λ c. c == b'.')
    ∷ times 8 is_digit ((λ c. c == b'T') ∷ times 6 is_digit ((λ c. c == b'Z') ∷ []))

-- (?:\.\d+)?$
unfoldable pub is_fraction : Text → Bool
unfolding all_digits
is_fraction [] = true
is_fraction (c ∷ []) = false
is_fraction (c ∷ d ∷ ds) = c == b'.' && (is_digit d && all_digits ds)

abbrev pub ends_so : Option Text → Bool
ends_so none = false
ends_so (some rest) = is_fraction rest

-- quarantineTSRegex.FindStringSubmatch: the group of the leftmost match.
unfoldable pub find_stamp : Text → Option Text
unfolding after is_fraction take
find_stamp [] = none
find_stamp (c ∷ cs) =
    if ends_so (after stamp_tests (c ∷ cs)) then some (take 16 cs) else find_stamp cs

unfoldable pub drop : ℕ → Text → Text
drop zero s = s
drop (suc n) [] = []
drop (suc n) (c ∷ cs) = drop n cs

abbrev pub number_from : ℕ → Text → ℕ
number_from acc [] = acc
number_from acc (c ∷ cs) = number_from (acc * 10 + (c - b'0')) cs

unfoldable pub field : ℕ → ℕ → Text → ℕ
unfolding take drop
field from width s = number_from 0 (take width (drop from s))

abbrev pub is_leap : ℕ → Bool
is_leap y = (y % 4 == 0) && (not (y % 100 == 0) || (y % 400 == 0))

abbrev pub days_in : ℕ → ℕ → ℕ
days_in month year =
    if month == 2
    then (if is_leap year then 29 else 28)
    else if (month == 4 || month == 6) || (month == 9 || month == 11)
    then 30
    else 31

unfoldable pub is_date : Civil → Bool
is_date c =
    (leb 1 c.month && leb c.month 12)
    && ((leb 1 c.day && leb c.day (days_in c.month c.year))
        && (ltb c.hour 24 && (ltb c.minute 60 && ltb c.second 60)))

-- time.Parse("20060102T150405Z", s) of a text that the regular expression has matched.
unfoldable pub parse_stamp : Text → Option Civil
unfolding field is_date
parse_stamp s =
    let c : Civil = record {
      year = field 0 4 s;
      month = field 4 2 s;
      day = field 6 2 s;
      hour = field 9 2 s;
      minute = field 11 2 s;
      second = field 13 2 s;
    } in
    if is_date c then some c else none

-- The digits of a time in a row, which order times as they follow one another.
unfoldable pub rank : Civil → ℕ
rank c =
    ((((c.year * 100 + c.month) * 100 + c.day) * 100 + c.hour) * 100 + c.minute) * 100 + c.second

-- A cutoff has nanoseconds, which a parsed time has not.
pub record Cutoff : Type 0 where
  pub time : Civil
  pub nanos : ℕ

unfoldable pub before : Civil → Cutoff → Bool
unfolding rank
before c cutoff =
    ltb (rank c) (rank cutoff.time) || (rank c == rank cutoff.time && ltb 0 cutoff.nanos)

pub record QuarantineEntry : Type 0 where
  pub path : Text
  pub name : Text
  pub is_dir : Bool
  pub size : ℕ

abbrev pub is_old : Cutoff → Option Civil → Bool
is_old cutoff none = false
is_old cutoff (some c) = before c cutoff

abbrev pub parsed : Option Text → Option Civil
parsed none = none
parsed (some s) = parse_stamp s

unfoldable pub is_expired : Cutoff → QuarantineEntry → Bool
unfolding find_stamp parse_stamp before
is_expired cutoff entry =
    if entry.is_dir then false else is_old cutoff (parsed (find_stamp entry.name))

unfoldable pub parse_expired_quarantine_entries : Cutoff → List QuarantineEntry → List Text
unfolding is_expired keep
parse_expired_quarantine_entries cutoff entries =
    map (λ (entry : QuarantineEntry). entry.path) (keep (is_expired cutoff) entries)

unfoldable pub purge_each : Env → Project → List Text → World → World × ℕ
unfolding run_rclone delete_flags
purge_each env proj [] w = (w, 0)
purge_each env proj (path ∷ paths) w =
    let (w', exit) =
      run_rclone env
        (codes "deletefile"
          ∷ ((proj.remote ++ codes "/.quarantine/") ++ path)
          ∷ delete_flags env.config proj)
        w in
    let (w'', n) = purge_each env proj paths w' in (w'', if is_zero exit then suc n else n)

abbrev pub purge_listed : Env → Project → Cutoff → Option (List QuarantineEntry) → World → World × ℕ
purge_listed env proj cutoff none w = (w, 0)
purge_listed env proj cutoff (some entries) w =
    purge_each env proj (parse_expired_quarantine_entries cutoff entries) w

abbrev pub purge_by :
    Env → Project → DeletePolicy → Cutoff → Option (List QuarantineEntry) → World → World × ℕ
purge_by env proj ignore cutoff listing w = (w, 0)
purge_by env proj delete cutoff listing w = (w, 0)
purge_by env proj quarantine cutoff listing w = purge_listed env proj cutoff listing w

-- PurgeExpiredQuarantine; the listing is none where rclone or the JSON fails.
unfoldable pub purge_expired_quarantine :
    Env → Project → Cutoff → Option (List QuarantineEntry) → World → World × ℕ
unfolding purge_each parse_expired_quarantine_entries
purge_expired_quarantine env proj cutoff listing w =
    purge_by env proj (delete_policy proj env.config) cutoff listing w
