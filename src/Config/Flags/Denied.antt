-- ===== src/Config/Flags/Denied.antt =====
-- internal/config/config.go: no flag of the denylist passes, alone or with a value.
use selective_mirror.Base.{
  ◌≡◌, refl, sym, ap, subst, ◌∙◌, ◌≢◌, inl, inr, true, ◌||◌, Option, none, some, List, [], ◌∷◌,
  ◌++◌, if◌then◌else◌, if_cases, Bool-cases, any, All, Text, same, same_iff, has_prefix, member,
}
use selective_mirror.Config.Flags.{
  denied_exact, denied_short, denied_prefix, FlagError, until_equals, flag_name, is_not_ascii,
  check_long, check_flag, or_else, validate_rclone_extra_flags, not_ascii, not_allowed,
  control_plane, short_not_allowed,
}

abbrev IsRefused : Text → Type 0
IsRefused raw = check_flag raw ≢ none

All-member : (P : Text → Type 0) (ts : List Text) (t : Text) → All P ts → member t ts ≡ true → P t
unfolding member
All-member P [] t ps h = absurd (cc)
All-member P (x ∷ xs) t (p, ps) h = elim (Bool-cases (same x t)) [
  | inl it ↦ subst P ((same_iff x t).0 it) p
  | inr other ↦ All-member P xs t ps (sym (ap (λ b. b || member t xs) other) ∙ h)
]

-- A flag of the denylist is refused, alone and with any value.
abbrev IsDenied : Text → Type 0
IsDenied d = IsRefused d × ((v : Text) → IsRefused (d ++ (b'=' ∷ v)))

refused : (e : FlagError) → (some e ≢ none) × ((v : Text) → some e ≢ none)
refused e = (λ h. absurd (cc), λ v h. absurd (cc))

listed-IsDenied : All IsDenied (denied_exact ++ denied_short)
unfolding check_flag check_long any member has_prefix flag_name until_equals same
listed-IsDenied = (
  refused not_allowed,
  (
    refused not_allowed,
    (
      refused not_allowed,
      (
        refused not_allowed,
        (
          refused not_allowed,
          (
            refused not_allowed,
            (refused not_allowed, (refused short_not_allowed, (refused short_not_allowed, tt))),
          ),
        ),
      ),
    ),
  ),
)

-- So is every flag that begins with --rc, whatever follows.
rc-IsRefused : (rest : Text) → IsRefused (denied_prefix ++ rest)
unfolding check_flag check_long member has_prefix flag_name until_equals same
rc-IsRefused rest =
    let name = denied_prefix ++ until_equals rest in
    let is_error = λ (r : Option FlagError). r ≢ none in
    let long = if member name denied_exact then some not_allowed else some control_plane in
    if_cases is_error (any is_not_ascii name) (some not_ascii) long (λ _. (refused not_ascii).0)
      (λ _.
        if_cases is_error (member name denied_exact) (some not_allowed) (some control_plane)
          (λ _. (refused not_allowed).0) (λ _. (refused control_plane).0))

-- Neither a flag of the denylist, alone or with a value, nor one of the remote control.
abbrev pub IsSafeFlag : Text → Type 0
IsSafeFlag f =
    ((d : Text)
      → member d (denied_exact ++ denied_short) ≡ true
      → (f ≢ d) × ((v : Text) → f ≢ d ++ (b'=' ∷ v)))
    × ((rest : Text) → f ≢ denied_prefix ++ rest)

check_flag-IsSafeFlag : (f : Text) → check_flag f ≡ none → IsSafeFlag f
check_flag-IsSafeFlag f passes = (
  λ d denied.
      let (alone, valued) =
        All-member IsDenied (denied_exact ++ denied_short) d listed-IsDenied denied in
      (
        λ e. alone (sym (ap check_flag e) ∙ passes),
        λ v e. valued v (sym (ap check_flag e) ∙ passes),
      ),
  λ rest e. rc-IsRefused rest (sym (ap check_flag e) ∙ passes),
)

pub or_else-none {ℓ} : {E : Type ℓ} (a b : Option E) → or_else a b ≡ none → (a ≡ none) × (b ≡ none)
or_else-none none b h = (refl, h)
or_else-none (some e) b h = absurd (cc)

-- A list of flags that validateRcloneExtraFlags lets pass holds no flag of the denylist, neither
-- alone nor with a value behind an equals sign, and no flag that begins with --rc.
pub validate_rclone_extra_flags-IsSafeFlag :
    (flags : List Text) → validate_rclone_extra_flags flags ≡ none → All IsSafeFlag flags
unfolding validate_rclone_extra_flags
validate_rclone_extra_flags-IsSafeFlag [] h = tt
validate_rclone_extra_flags-IsSafeFlag (f ∷ flags) h =
    let (first, rest) = or_else-none (check_flag f) (validate_rclone_extra_flags flags) h in
    (check_flag-IsSafeFlag f first, validate_rclone_extra_flags-IsSafeFlag flags rest)
