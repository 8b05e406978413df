-- ===== src/Sync/Quarantine/Stamp.antt =====
-- internal/sync/sync.go: the time that the purge reads in the name of a quarantined file.
use selective_mirror.Base.{
  ℕ, suc, ◌≤◌, ◌<◌, ◌≡◌, refl, sym, ap, subst, ◌∙◌, Bool, true, false, Option, none, some, List, [],
  ◌∷◌, ◌++◌, append_assoc, append-nil, arith, if_true, if_false, length, length-append, Text, take,
}
use selective_mirror.Sync.Quarantine.{
  Civil, digits, format_stamp, stamp_of, all_digits, after, stamp_tests, is_fraction, ends_so,
  find_stamp, is_date, Cutoff, before, QuarantineEntry, parsed, is_old, is_expired,
}
use selective_mirror.Sync.Quarantine.Digits.{
  all_digits-digits, after-stamp, parse_stamp-format_stamp,
}

-- What is left after the tests is the end of the text.
after-append :
    (ts : List (ℕ → Bool)) (s rest : Text)
    → after ts s ≡ some rest
    → (front : Text) × ((s ≡ front ++ rest) × (length front ≡ length ts))
unfolding after
after-append [] s rest h = ([], (cc h, refl))
after-append (t ∷ ts) [] rest h = absurd (cc h)
after-append (t ∷ ts) (c ∷ cs) rest h =
    let tail : after ts cs ≡ some rest = ground (arith, h) in
    let (front, (e, n)) = after-append ts cs rest tail in (c ∷ front, (ap (λ r. c ∷ r) e, ap suc n))

-- Of two ways to cut a text, the longer front keeps the rest of the shorter one.
cut :
    (front rest long tail : Text)
    → front ++ rest ≡ long ++ tail
    → length front ≤ length long
    → (middle : Text) × (rest ≡ middle ++ tail)
cut [] rest long tail e h = (long, e)
cut (c ∷ front) rest [] tail e h = absurd (omega (arith, h))
cut (c ∷ front) rest (d ∷ long) tail e h = cut front rest long tail (cc e) (omega (arith, h))

not_all_digits : (s t : Text) → all_digits (s ++ (b'Z' ∷ t)) ≡ false
unfolding all_digits
not_all_digits [] t = refl
not_all_digits (c ∷ cs) t = ground (arith, not_all_digits cs t)

-- The end of a stamp's match has no Z in it.
not_fraction : (s t : Text) → is_fraction (s ++ (b'Z' ∷ t)) ≡ false
unfolding is_fraction all_digits
not_fraction [] [] = refl
not_fraction [] (c ∷ cs) = refl
not_fraction (c ∷ []) t = ground arith
not_fraction (c ∷ d ∷ ds) t = ground (arith, not_all_digits ds t)

-- No match begins so early that the Z of the stamp comes after its own seventeen bytes.
no_earlier :
    (s t : Text)
    → 17 ≤ length s
    → (o : Option Text) → after stamp_tests (s ++ (b'Z' ∷ t)) ≡ o
    → ends_so o ≡ false
no_earlier s t h none e = refl
no_earlier s t h (some rest) e =
    let (front, (cut_here, n)) = after-append stamp_tests (s ++ (b'Z' ∷ t)) rest e in
    let (middle, is_rest) = cut front rest s (b'Z' ∷ t) (sym cut_here) (omega (arith, n, h)) in
    ap is_fraction is_rest ∙ not_fraction middle t

find_stamp-first :
    (c : Civil) (rest : Text)
    → is_fraction rest ≡ true
    → find_stamp (b'.' ∷ (format_stamp c ++ rest)) ≡ some (format_stamp c)
unfolding find_stamp format_stamp digits
find_stamp-first c rest h =
    if_true (ends_so (after stamp_tests (b'.' ∷ (format_stamp c ++ rest)))) (some (format_stamp c))
      (find_stamp (format_stamp c ++ rest)) (ap ends_so (after-stamp c rest) ∙ h)

-- The stamp but its Z.
abbrev stamp_front : Civil → Text
unfolding digits
stamp_front c =
    digits 4 c.year
    ++ (digits 2 c.month
        ++ (digits 2 c.day
            ++ (b'T' ∷ (digits 2 c.hour ++ (digits 2 c.minute ++ digits 2 c.second)))))

skip_one :
    (x : ℕ) (name : Text) (c : Civil) (rest : Text)
    → ends_so (after stamp_tests (x ∷ (name ++ (b'.' ∷ (format_stamp c ++ rest))))) ≡ false
unfolding format_stamp digits
skip_one x name c rest =
    let front = b'.' ∷ stamp_front c in
    let e = append_assoc name front (b'Z' ∷ rest) in
    subst (λ s. ends_so (after stamp_tests (x ∷ s)) ≡ false) e
      (no_earlier (x ∷ (name ++ front)) rest (omega (arith, length-append name front))
        (after stamp_tests (x ∷ ((name ++ front) ++ (b'Z' ∷ rest)))) refl)

-- The stamp is found behind whatever name it was put, even one that looks like another stamp.
find_stamp-named :
    (name : Text) (c : Civil) (rest : Text)
    → is_fraction rest ≡ true
    → find_stamp (name ++ (b'.' ∷ (format_stamp c ++ rest))) ≡ some (format_stamp c)
unfolding find_stamp
find_stamp-named [] c rest h = find_stamp-first c rest h
find_stamp-named (x ∷ name) c rest h =
    if_false (ends_so (after stamp_tests (x ∷ (name ++ (b'.' ∷ (format_stamp c ++ rest))))))
      (some (take 16 (name ++ (b'.' ∷ (format_stamp c ++ rest)))))
      (find_stamp (name ++ (b'.' ∷ (format_stamp c ++ rest)))) (skip_one x name c rest)
    ∙ find_stamp-named name c rest h

nanos-IsFraction : (nanos : ℕ) → is_fraction (b'.' ∷ digits 9 nanos) ≡ true
unfolding is_fraction digits all_digits
nanos-IsFraction nanos = all_digits-digits 9 nanos

abbrev pub file : Text → Text → ℕ → QuarantineEntry
file path name size = record { path = path; name = name; is_dir = false; size = size }

is_expired-rest :
    (cutoff : Cutoff) (path name : Text) (size : ℕ) (c : Civil) (rest : Text)
    → c.year < 10000
    → is_date c ≡ true
    → is_fraction rest ≡ true
    → is_expired cutoff (file path (name ++ (b'.' ∷ (format_stamp c ++ rest))) size)
      ≡ before c cutoff
unfolding is_expired
is_expired-rest cutoff path name size c rest small valid h =
    ap (λ o. is_old cutoff (parsed o)) (find_stamp-named name c rest h)
    ∙ ap (is_old cutoff) (parse_stamp-format_stamp c small valid)

-- The name that the quarantine gives a file is read back as the time at which it was given, whatever
-- the file's own name is: for a valid date of a year below 10000, an entry with that name is expired
-- exactly if the time is before the cutoff; and so for the older names without nanoseconds.
pub is_expired-stamp_of :
    (cutoff : Cutoff) (path name : Text) (size : ℕ) (c : Civil) (nanos : ℕ)
    → c.year < 10000
    → is_date c ≡ true
    → (is_expired cutoff (file path (name ++ (b'.' ∷ stamp_of c nanos)) size) ≡ before c cutoff)
      × (is_expired cutoff (file path (name ++ (b'.' ∷ format_stamp c)) size) ≡ before c cutoff)
unfolding stamp_of is_fraction
is_expired-stamp_of cutoff path name size c nanos small valid = (
  is_expired-rest cutoff path name size c (b'.' ∷ digits 9 nanos) small valid
      (nanos-IsFraction nanos),
  subst (λ s. is_expired cutoff (file path (name ++ (b'.' ∷ s)) size) ≡ before c cutoff)
      (append-nil (format_stamp c)) (is_expired-rest cutoff path name size c [] small valid refl),
)
