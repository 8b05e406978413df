-- ===== src/Config/Validate/Sound.antt =====
-- internal/config/config.go: what a configuration that Validate accepts is.
use selective_mirror.Base.{
  ℕ, ◌≡◌, refl, sym, ap, subst, ◌∙◌, ◌≢◌, inl, inr, Bool, true, false, not, Option, none, some,
  List, [], ◌∷◌, All-map, if_cases, if_true, if_false, Bool-cases, All, Text, same, is_empty,
  TextMap, put,
}
use selective_mirror.Base.Int.{pos, is_pos}
use selective_mirror.Config.{Project}
use selective_mirror.Config.Flags.{or_else}
use selective_mirror.Config.Flags.Denied.{
  IsSafeFlag, or_else-none, validate_rclone_extra_flags-IsSafeFlag,
}
use selective_mirror.Config.LocalPaths.{Entry, resolved}
use selective_mirror.Config.LocalPaths.Apart.{
  LiesApart, get_elem?, not_same→differs, validate_no_local_path_overlap-LiesApart,
}
use selective_mirror.Config.Validate.{
  Machine, Settings, ConfigError, fails_if, as_error, check_name, check_fields, check_paths,
  with_default_size, after_mirror, check_mirrors, check_each_flags, check_rclone_path,
  check_webhook, check_severity, is_valid_delete_policy_string, check_each_policy, check_rest,
  validate, overlap, bad_flag, unknown_policy, no_mirrors, duplicate_name, case_collision,
}
use selective_mirror.Paths.{to_lower}

-- No two names are the same but for the letters' case.
abbrev pub Distinct : List Project → Type 0
Distinct [] = Unit {0}
Distinct (p ∷ ps) = All (λ (q : Project). to_lower p.name ≢ to_lower q.name) ps × Distinct ps

abbrev pub DirsApart : Machine → List Project → Type 0
DirsApart m ps =
    (i j : ℕ) (a b : Entry)
    → get_elem? (resolved m.system ps) i ≡ some a
    → get_elem? (resolved m.system ps) j ≡ some b
    → i ≢ j
    → LiesApart a b

-- What a mirror's own settings are.
abbrev pub IsSoundMirror : Project → Type 0
IsSoundMirror p =
    All IsSafeFlag p.rclone_extra_flags × (is_valid_delete_policy_string p.delete_policy_str ≡ true)

abbrev pub HasSize : Project → Type 0
HasSize p = is_pos p.max_file_size_mb ≡ true

abbrev pub IsSound : Machine → Settings → Type 0
IsSound m s =
    Distinct s.projects
    × DirsApart m s.projects
    × All HasSize s.projects
    × All IsSoundMirror s.projects
    × All IsSafeFlag s.global.rclone_extra_flags
    × (is_valid_delete_policy_string s.global.delete_policy_str ≡ true)

fails_if-none {ℓ} : {E : Type ℓ} (b : Bool) (e : E) → fails_if (not b) e ≡ none → b ≡ true
fails_if-none true e h = refl
fails_if-none false e h = absurd (cc)

as_error-none {ℓ κ} :
    {E : Type ℓ} {F : Type κ} (f : E → F) (o : Option E) → as_error f o ≡ none → o ≡ none
as_error-none f none h = refl
as_error-none f (some e) h = absurd (cc)

check_name-none : (met : Option Text) (name : Text) → check_name met name ≡ none → met ≡ none
check_name-none none name h = refl
check_name-none (some existing) name h =
    if_cases (λ (r : Option ConfigError). r ≡ none → some existing ≡ none) (same existing name)
      (some duplicate_name) (some case_collision) (λ _ e. absurd (cc)) (λ _ e. absurd (cc)) h

-- A mirror that passes has a new name.
check_fields-new :
    (m : Machine) (names : TextMap Text) (p : Project)
    → check_fields m names p ≡ none
    → names (to_lower p.name) ≡ none
unfolding check_fields
check_fields-new m names p h =
    check_name-none (names (to_lower p.name)) p.name (or_else-none _ _ (or_else-none _ _ h).1).0

with_default_size-HasSize : (p : Project) → HasSize (with_default_size p)
with_default_size-HasSize p =
    if_cases HasSize (is_pos p.max_file_size_mb) p (record p { max_file_size_mb = pos 100 })
      (λ it. it) (λ _. refl)

with_default_size-name : (p : Project) → (with_default_size p).name ≡ p.name
with_default_size-name p =
    if_cases (λ (q : Project). q.name ≡ p.name) (is_pos p.max_file_size_mb) p
      (record p { max_file_size_mb = pos 100 }) (λ _. refl) (λ _. refl)

-- What the loop leaves when it lets the mirrors pass, from the names that it has met.
abbrev Passed : TextMap Text → List Project → Type 0
Passed names ps =
    All (λ (p : Project). names (to_lower p.name) ≡ none) ps × Distinct ps × All HasSize ps

put-none :
    (k v : Text) (names : TextMap Text) (j : Text)
    → put k v names j ≡ none
    → (names j ≡ none) × (k ≢ j)
put-none k v names j h = elim (Bool-cases (same k j)) [
  | inl it ↦ let found = sym (if_true (same k j) (some v) (names j) it) ∙ h in absurd (cc)
  | inr other ↦ (sym (if_false (same k j) (some v) (names j) other) ∙ h, not_same→differs k j other)
]

-- A mirror in front of those that the loop passes.
cons-Passed :
    (names : TextMap Text) (p q : Project) (ps : List Project)
    → q.name ≡ p.name
    → HasSize q
    → names (to_lower p.name) ≡ none
    → Passed (put (to_lower p.name) p.name names) ps
    → Passed names (q ∷ ps)
cons-Passed names p q ps named sized new (unmet, distinct, sizes) =
    let key = to_lower p.name in
    let met = λ (r : Project) (h : put key p.name names (to_lower r.name) ≡ none).
      put-none key p.name names (to_lower r.name) h in
    let apart : All (λ (r : Project). key ≢ to_lower r.name) ps =
      All-map (λ r. put key p.name names (to_lower r.name) ≡ none) (λ r. key ≢ to_lower r.name) ps
        (λ r h. (met r h).1) unmet in
    let others : All (λ (r : Project). names (to_lower r.name) ≡ none) ps =
      All-map (λ r. put key p.name names (to_lower r.name) ≡ none)
        (λ r. names (to_lower r.name) ≡ none) ps (λ r h. (met r h).0) unmet in
    let renamed = ap to_lower (sym named) in
    (
      (sym (ap names renamed) ∙ new, others),
      (subst (λ (k : Text). All (λ (r : Project). k ≢ to_lower r.name) ps) renamed apart, distinct),
      (sized, sizes),
    )

after_mirror-Passed :
    (names : TextMap Text) (p : Project) (ps : List Project) (fields paths : Option ConfigError)
    → (rest : List Project × Option ConfigError) → (fields ≡ none → names (to_lower p.name) ≡ none)
    → (rest.1 ≡ none → Passed (put (to_lower p.name) p.name names) rest.0)
    → (after_mirror p ps fields paths rest).1 ≡ none
    → Passed names (after_mirror p ps fields paths rest).0
after_mirror-Passed names p ps (some e) paths rest new passed h = absurd (cc)
after_mirror-Passed names p ps none (some e) rest new passed h = absurd (cc)
after_mirror-Passed names p ps none none (ps', e) new passed h =
    cons-Passed names p (with_default_size p) ps' (with_default_size-name p)
      (with_default_size-HasSize p) (new refl) (passed h)

check_mirrors-Passed :
    (m : Machine) (names : TextMap Text) (ps : List Project)
    → (check_mirrors m names ps).1 ≡ none
    → Passed names (check_mirrors m names ps).0
unfolding check_mirrors
check_mirrors-Passed m names [] h = (tt, tt, tt)
check_mirrors-Passed m names (p ∷ ps) h =
    let names' = put (to_lower p.name) p.name names in
    after_mirror-Passed names p ps (check_fields m names p) (check_paths m p)
      (check_mirrors m names' ps) (check_fields-new m names p) (check_mirrors-Passed m names' ps) h

flags-and-policies :
    (ps : List Project)
    → check_each_flags ps ≡ none
    → check_each_policy ps ≡ none
    → All IsSoundMirror ps
unfolding check_each_flags check_each_policy
flags-and-policies [] h k = tt
flags-and-policies (p ∷ ps) h k =
    let (flags, later_flags) = or_else-none _ _ h in
    let (policy, later_policies) = or_else-none _ _ k in
    (
      (
        validate_rclone_extra_flags-IsSafeFlag p.rclone_extra_flags
            (as_error-none bad_flag _ flags),
        fails_if-none (is_valid_delete_policy_string p.delete_policy_str) unknown_policy policy,
      ),
      flags-and-policies ps later_flags later_policies,
    )

check_rest-IsSound :
    (m : Machine) (s : Settings)
    → Distinct s.projects
    → All HasSize s.projects
    → check_rest m s ≡ none
    → IsSound m s
unfolding check_rest
check_rest-IsSound m s distinct sizes h =
    let (overlapping, h₁) = or_else-none _ _ h in
    let (_, h₂) = or_else-none _ _ h₁ in
    let (flags, h₃) = or_else-none _ _ h₂ in
    let (mirror_flags, h₄) = or_else-none _ _ h₃ in
    let (_, h₅) = or_else-none (check_rclone_path m s.global.rclone_path) _ h₄ in
    let (_, h₆) = or_else-none (check_webhook m s.alert_webhook_url) _ h₅ in
    let (_, h₇) = or_else-none (check_severity s.alert_min_severity) _ h₆ in
    let (policy, policies) = or_else-none _ _ h₇ in
    (
      distinct,
      validate_no_local_path_overlap-LiesApart m.system s.projects
          (as_error-none overlap _ overlapping),
      sizes,
      flags-and-policies s.projects mirror_flags policies,
      validate_rclone_extra_flags-IsSafeFlag s.global.rclone_extra_flags
          (as_error-none bad_flag _ flags),
      fails_if-none (is_valid_delete_policy_string s.global.delete_policy_str) unknown_policy
          policy,
    )

-- A configuration that Validate accepts, as Validate leaves it: no two mirrors have names that are
-- the same but for case, nor paths of which one is at or below the other; every size limit is
-- positive; no list of extra flags holds a denied flag; and every delete policy, the global one
-- included, is one of the four words or empty.
pub validate-IsSound :
    (m : Machine) (s : Settings) → (validate m s).1 ≡ none → IsSound m (validate m s).0
unfolding validate
validate-IsSound m s h =
    let checked = check_mirrors m (λ name. none) s.projects in
    let s' = record s { projects = checked.0 } in
    if_cases (λ (r : Settings × Option ConfigError). r.1 ≡ none → IsSound m r.0)
      (is_empty s.projects) (s, some no_mirrors) (s', or_else checked.1 (check_rest m s'))
      (λ _ e. absurd (cc))
      (λ _ e.
        let (mirrors, rest) = or_else-none checked.1 (check_rest m s') e in
        let (_, distinct, sizes) = check_mirrors-Passed m (λ name. none) s.projects mirrors in
        check_rest-IsSound m s' distinct sizes rest)
      h
