-- ===== src/Sync/Quarantine/Digits.antt =====
-- internal/sync/sync.go: a quarantine stamp read back, field by field.
use selective_mirror.Base.{
  ℕ, zero, suc, ◌+◌, ◌/◌, ◌%◌, ◌≤◌, ◌<◌, ◌≡◌, refl, ap, ◌∙◌, Bool, true, false, ◌&&◌, none, some,
  List, [], ◌∷◌, ◌++◌, arith, leb, ◌==◌, if◌then◌else◌, if_cases, if_true, length, Text,
}
use selective_mirror.Sync.Quarantine.{
  Civil, digits, format_stamp, is_digit, all_digits, after, times, stamp_tests, number_from,
  days_in, is_date, parse_stamp,
}

digit-IsDigit : (n : ℕ) → is_digit (b'0' + n % 10) ≡ true
digit-IsDigit n = ground arith

pub all_digits-append :
    (s t : Text) → all_digits s ≡ true → all_digits t ≡ true → all_digits (s ++ t) ≡ true
unfolding all_digits
all_digits-append [] t h k = k
all_digits-append (c ∷ cs) t h k = ground (arith, all_digits-append cs t (ground (arith, h)) k)

pub all_digits-digits : (width n : ℕ) → all_digits (digits width n) ≡ true
unfolding all_digits digits
all_digits-digits zero n = refl
all_digits-digits (suc width) n =
    all_digits-append (digits width (n / 10)) ((b'0' + n % 10) ∷ [])
      (all_digits-digits width (n / 10)) (ground (arith, digit-IsDigit n))

-- A run of digits passes as many tests.
after-times :
    (s rest : Text) (ts : List (ℕ → Bool))
    → all_digits s ≡ true
    → after (times (length s) is_digit ts) (s ++ rest) ≡ after ts rest
unfolding after all_digits
after-times [] rest ts h = refl
after-times (c ∷ cs) rest ts h =
    if_cases (λ o. o ≡ after ts rest) (is_digit c) _ _
      (λ _. after-times cs rest ts (ground (arith, h))) (λ bad. absurd (ground (arith, bad, h)))

pub after-stamp :
    (c : Civil) (rest : Text) → after stamp_tests (b'.' ∷ (format_stamp c ++ rest)) ≡ some rest
unfolding after format_stamp digits
after-stamp c rest =
    let day8 = digits 4 c.year ++ (digits 2 c.month ++ digits 2 c.day) in
    let time6 = digits 2 c.hour ++ (digits 2 c.minute ++ digits 2 c.second) in
    let day8_digits =
      all_digits-append (digits 4 c.year) (digits 2 c.month ++ digits 2 c.day)
        (all_digits-digits 4 c.year)
        (all_digits-append (digits 2 c.month) (digits 2 c.day) (all_digits-digits 2 c.month)
          (all_digits-digits 2 c.day)) in
    let time6_digits =
      all_digits-append (digits 2 c.hour) (digits 2 c.minute ++ digits 2 c.second)
        (all_digits-digits 2 c.hour)
        (all_digits-append (digits 2 c.minute) (digits 2 c.second) (all_digits-digits 2 c.minute)
          (all_digits-digits 2 c.second)) in
    after-times day8 (b'T' ∷ (time6 ++ (b'Z' ∷ rest)))
      ((λ c. c == b'T') ∷ times 6 is_digit ((λ c. c == b'Z') ∷ [])) day8_digits
    ∙ after-times time6 (b'Z' ∷ rest) ((λ c. c == b'Z') ∷ []) time6_digits

two_digits : (n : ℕ) → n < 100 → number_from 0 (digits 2 n) ≡ n
unfolding digits
two_digits n h = omega arith

four_digits : (n : ℕ) → n < 10000 → number_from 0 (digits 4 n) ≡ n
unfolding digits
four_digits n h = omega arith

gate : (a b : Civil) → a ≡ b → is_date b ≡ true → (if is_date a then some a else none) ≡ some b
gate a b e h = if_true (is_date a) (some a) none (ap is_date e ∙ h) ∙ ap (λ c. some c) e

days_in-le : (month year : ℕ) → days_in month year ≤ 31
days_in-le month year = ground arith

and_left : (a b : Bool) → (a && b) ≡ true → a ≡ true
and_left true b h = refl
and_left false b h = cc h

and_right : (a b : Bool) → (a && b) ≡ true → b ≡ true
and_right true b h = h
and_right false b h = absurd (cc h)

abbrev IsSmall : Civil → Type 0
IsSmall c = (c.month < 100) × (c.day < 100) × (c.hour < 100) × (c.minute < 100) × (c.second < 100)

-- What is_date tests, one by one.
abbrev in_days : ℕ → ℕ → Bool
in_days day limit = leb 1 day && leb day limit

in_days-lt : (day limit : ℕ) → limit ≤ 31 → in_days day limit ≡ true → day < 100
in_days-lt day limit h e = ground (arith, h, e)

is_date-IsSmall : (c : Civil) → is_date c ≡ true → IsSmall c
unfolding is_date
is_date-IsSmall c valid =
    let days : in_days c.day (days_in c.month c.year) ≡ true =
      and_left _ _ (and_right (leb 1 c.month && leb c.month 12) _ valid) in
    (
      ground (arith, valid),
      in_days-lt c.day (days_in c.month c.year) (days_in-le c.month c.year) days,
      ground (arith, valid),
      ground (arith, valid),
      ground (arith, valid),
    )

-- time.Parse gives back the time that Format has written.
pub parse_stamp-format_stamp :
    (c : Civil) → c.year < 10000 → is_date c ≡ true → parse_stamp (format_stamp c) ≡ some c
unfolding parse_stamp format_stamp digits
parse_stamp-format_stamp c small valid =
    let bounds = is_date-IsSmall c valid in
    gate _ c
      (λ i. record {
        year = four_digits c.year small i;
        month = two_digits c.month bounds.0 i;
        day = two_digits c.day bounds.1 i;
        hour = two_digits c.hour bounds.2 i;
        minute = two_digits c.minute bounds.3 i;
        second = two_digits c.second bounds.4 i;
      })
      valid
