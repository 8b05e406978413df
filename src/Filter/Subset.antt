-- ===== src/Filter/Subset.antt =====
-- isStrictSubset decides strict inclusion of multisets.
use selective_mirror.Base.{
  ◌≤◌, ◌<◌, ◌≡◌, refl, ◌↔◌, inl, inr, true, false, List, [], ◌∷◌, arith, leb, ◌==◌, Bool-cases,
  length, Text, same_refl, same_iff,
}
use selective_mirror.Filter.Rules.{count_rule, use_up, take_one, Tally, is_strict_subset}

use_up_sound :
    (rs : List Text) (old : Tally) → use_up rs old ≡ true → (j : Text) → count_rule j rs ≤ old j
unfolding use_up count_rule
use_up_sound [] old h j = omega arith
use_up_sound (r ∷ rs) old h j = elim (Bool-cases (old r == 0)) [
  | inl none_left ↦ absurd (ground arith)
  | inr left ↦
      let rest : use_up rs (take_one r old) ≡ true = ground arith in
      ground (arith, use_up_sound rs (take_one r old) rest j, same_iff r j)
]

use_up_complete :
    (rs : List Text) (old : Tally) → ((j : Text) → count_rule j rs ≤ old j) → use_up rs old ≡ true
unfolding use_up count_rule
use_up_complete [] old h = refl
use_up_complete (r ∷ rs) old h = elim (Bool-cases (old r == 0)) [
  | inl none_left ↦ absurd (ground (arith, h r, same_refl r))
  | inr left ↦
      rw left (use_up_complete rs (take_one r old) (λ j. ground (arith, h j, same_iff r j)))
]

-- The test is true exactly if the new list is shorter and has no rule more often than the old one.
pub is_strict_subset_iff :
    (new_rules old_rules : List Text)
    → (is_strict_subset new_rules old_rules ≡ true) ↔ (
        (length new_rules < length old_rules)
        × ((r : Text) → count_rule r new_rules ≤ count_rule r old_rules))
unfolding is_strict_subset
is_strict_subset_iff new_rules old_rules = (
  λ h. (ground arith, use_up_sound new_rules (λ r. count_rule r old_rules) (ground arith)),
  λ h.
      let shorter = h.0 in
      let test : leb (length old_rules) (length new_rules) ≡ false = ground arith in
      rw test (use_up_complete new_rules (λ r. count_rule r old_rules) h.1),
)
