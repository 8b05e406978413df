-- ===== src/Config/LocalPaths/Apart.antt =====
-- internal/config/config.go: the paths of a configuration that passes lie apart.
use selective_mirror.Base.{
  ℕ, zero, suc, ◌+◌, ◌≡◌, sym, subst, ◌∙◌, ◌≢◌, inl, inr, true, false, Option, none, some, List, [],
  ◌∷◌, ◌++◌, append_assoc, arith, ◌==◌, if◌then◌else◌, some_inj, ==_iff, if_true, if_false,
  Bool-cases, Text, same, same_iff, has_prefix, has_prefix-append,
}
use selective_mirror.Config.{Project}
use selective_mirror.Config.Flags.Denied.{or_else-none}
use selective_mirror.Config.LocalPaths.{
  System, Entry, overlaps_with, overlaps_each, OverlapError, same_path, parent_path, resolved,
  validate_no_local_path_overlap,
}
use selective_mirror.Paths.{backslash, to_lower}

-- Neither the same directory nor one above the other, whatever the letters' case.
abbrev pub LiesApart : Entry → Entry → Type 0
LiesApart a b =
    (to_lower a.abs ≢ to_lower b.abs)
    × ((rest : Text) → to_lower b.abs ≢ to_lower a.abs ++ (backslash ∷ rest))

-- The entry at a place.
abbrev pub get_elem? {ℓ} : {A : Type ℓ} → List A → ℕ → Option A
get_elem? [] n = none
get_elem? (x ∷ xs) zero = some x
get_elem? (x ∷ xs) (suc n) = get_elem? xs n

pub not_same→differs : (s t : Text) → same s t ≡ false → s ≢ t
not_same→differs s t h e = let hit = (same_iff s t).1 e in cc

no_prefix→differs :
    (p s : Text)
    → has_prefix (p ++ (backslash ∷ [])) s ≡ false
    → (rest : Text) → s ≢ p ++ (backslash ∷ rest)
no_prefix→differs p s h rest e =
    let asked = p ++ (backslash ∷ []) in
    let hit =
      subst (λ (u : Text). has_prefix asked u ≡ true) (append_assoc p (backslash ∷ []) rest ∙ sym e)
        (has_prefix-append asked rest) in
    cc

tests-LiesApart :
    (a b : Entry) (later : Option OverlapError)
    → (if same (to_lower a.abs) (to_lower b.abs)
        then some (same_path a b)
        else if has_prefix (to_lower a.abs ++ (backslash ∷ [])) (to_lower b.abs)
        then some (parent_path a b)
        else later)
      ≡ none
    → LiesApart a b × (later ≡ none)
tests-LiesApart a b later h =
    let equal = same (to_lower a.abs) (to_lower b.abs) in
    let below = has_prefix (to_lower a.abs ++ (backslash ∷ [])) (to_lower b.abs) in
    let unless_below = if below then some (parent_path a b) else later in
    elim (Bool-cases equal) [
      | inl it ↦
          let found = sym (if_true equal (some (same_path a b)) unless_below it) ∙ h in absurd (cc)
      | inr differs ↦
          let h' = sym (if_false equal (some (same_path a b)) unless_below differs) ∙ h in
          elim (Bool-cases below) [
            | inl it ↦
                let found = sym (if_true below (some (parent_path a b)) later it) ∙ h' in
                absurd (cc)
            | inr apart ↦ (
              (
                not_same→differs (to_lower a.abs) (to_lower b.abs) differs,
                no_prefix→differs (to_lower a.abs) (to_lower b.abs) apart,
              ),
              sym (if_false below (some (parent_path a b)) later apart) ∙ h',
            )
          ]
    ]

overlaps_with-LiesApart :
    (i : ℕ) (a : Entry) (j : ℕ) (es : List Entry)
    → overlaps_with i a j es ≡ none
    → (n : ℕ) (b : Entry) → get_elem? es n ≡ some b
    → i ≢ j + n
    → LiesApart a b
unfolding overlaps_with
overlaps_with-LiesApart i a j [] h n b at apart = absurd (cc)
overlaps_with-LiesApart i a j (e ∷ es) h zero b at apart =
    let later = overlaps_with i a (suc j) es in
    let tests =
      if same (to_lower a.abs) (to_lower e.abs)
      then some (same_path a e)
      else if has_prefix (to_lower a.abs ++ (backslash ∷ [])) (to_lower e.abs)
      then some (parent_path a e)
      else later in
    elim (Bool-cases (i == j)) [
      | inl it ↦ absurd (apart ((==_iff i j).0 it ∙ omega arith))
      | inr other ↦
          subst (LiesApart a) (some_inj at)
            (tests-LiesApart a e later (sym (if_false (i == j) later tests other) ∙ h)).0
    ]
overlaps_with-LiesApart i a j (e ∷ es) h (suc n) b at apart =
    let later = overlaps_with i a (suc j) es in
    let tests =
      if same (to_lower a.abs) (to_lower e.abs)
      then some (same_path a e)
      else if has_prefix (to_lower a.abs ++ (backslash ∷ [])) (to_lower e.abs)
      then some (parent_path a e)
      else later in
    let rest : later ≡ none = elim (Bool-cases (i == j)) [
      | inl it ↦ sym (if_true (i == j) later tests it) ∙ h
      | inr other ↦ (tests-LiesApart a e later (sym (if_false (i == j) later tests other) ∙ h)).1
    ] in
    overlaps_with-LiesApart i a (suc j) es rest n b at (λ at_same. apart (omega arith))

overlaps_each-LiesApart :
    (i : ℕ) (es all : List Entry)
    → overlaps_each i es all ≡ none
    → (m n : ℕ) (a b : Entry) → get_elem? es m ≡ some a
    → get_elem? all n ≡ some b
    → i + m ≢ n
    → LiesApart a b
unfolding overlaps_each
overlaps_each-LiesApart i [] all h m n a b at_m at_n apart = absurd (cc)
overlaps_each-LiesApart i (e ∷ es) all h zero n a b at_m at_n apart =
    let (first, _) = or_else-none (overlaps_with i e 0 all) (overlaps_each (suc i) es all) h in
    subst (λ (c : Entry). LiesApart c b) (some_inj at_m)
      (overlaps_with-LiesApart i e 0 all first n b at_n (λ at_same. apart (omega arith)))
overlaps_each-LiesApart i (e ∷ es) all h (suc m) n a b at_m at_n apart =
    let (_, rest) = or_else-none (overlaps_with i e 0 all) (overlaps_each (suc i) es all) h in
    overlaps_each-LiesApart (suc i) es all rest m n a b at_m at_n (λ at_same. apart (omega arith))

-- Where validateNoLocalPathOverlap lets the mirrors pass, any two of those whose path could be
-- resolved have neither the same directory nor one above the other, whatever the letters' case.
pub validate_no_local_path_overlap-LiesApart :
    (sys : System) (ps : List Project)
    → validate_no_local_path_overlap sys ps ≡ none
    → (m n : ℕ) (a b : Entry) → get_elem? (resolved sys ps) m ≡ some a
    → get_elem? (resolved sys ps) n ≡ some b
    → m ≢ n
    → LiesApart a b
unfolding validate_no_local_path_overlap
validate_no_local_path_overlap-LiesApart sys ps h m n a b at_m at_n apart =
    overlaps_each-LiesApart 0 (resolved sys ps) (resolved sys ps) h m n a b at_m at_n
      (λ at_same. apart (omega arith))
