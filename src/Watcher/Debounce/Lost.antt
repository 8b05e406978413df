-- ===== src/Watcher/Debounce/Lost.antt =====
-- internal/watcher/watcher.go: the lists of the lost timers and of the callbacks, for another path.
use selective_mirror.Base.{
  ℕ, ◌≡◌, refl, sym, ap, subst, ◌∙◌, ◌⊎◌, inl, inr, Bool, true, false, ◌&&◌, ◌||◌, Option, none,
  some, List, [], ◌∷◌, arith, leb, ◌==◌, some_inj, if_true, if_false, Bool-cases, Text, same,
  same_iff, member,
}
use selective_mirror.Watcher.{Watch}
use selective_mirror.Watcher.Timers.{take_due, with_timer, forget, remove_first}
use selective_mirror.Watcher.Debounce.{has_timer}

pub or-true : (b : Bool) → (b || true) ≡ true
or-true true = refl
or-true false = refl

-- Callbacks that start add to those that wait for the mutex.
pub member_after_start :
    (p path : Text) (w w' : Watch)
    → w'.callbacks ≡ path ∷ w.callbacks
    → member p w.callbacks ≡ true
    → member p w'.callbacks ≡ true
unfolding member
member_after_start p path w w' callbacks h =
    ap (member p) callbacks ∙ ap (λ b. same path p || b) h ∙ or-true (same path p)

-- A lost timer of this path stays when one of another path is taken out.
pub has_timer-take_due :
    (now : ℕ) (p path : Text) (d : ℕ) (timers rest : List (Text × ℕ))
    → take_due now path timers ≡ some rest
    → same path p ≡ false
    → has_timer p d timers ≡ true
    → has_timer p d rest ≡ true
has_timer-take_due now p path d [] rest e apart h = absurd (cc)
has_timer-take_due now p path d ((q, due) ∷ timers) rest e apart h =
    by_test (λ ts e₀ later. has_timer-take_due now p path d timers ts e₀ apart later)
      (Bool-cases (same q path && leb due now))
  where
    Kept : Type 0
    Kept =
        (ts : List (Text × ℕ))
        → take_due now path timers ≡ some ts
        → has_timer p d timers ≡ true
        → has_timer p d ts ≡ true

    past :
        Kept
        → (o : Option (List (Text × ℕ))) → take_due now path timers ≡ o
        → with_timer (q, due) o ≡ some rest
        → has_timer p d rest ≡ true
    past kept none e₀ e₁ = absurd (cc)
    past kept (some ts) e₀ e₁ =
        let is_rest = some_inj e₁ in
        let ours = same q p && due == d in
        subst (λ (r : List (Text × ℕ)). has_timer p d r ≡ true) is_rest
          (elim (Bool-cases ours) [
            | inl here ↦ ap (λ b. b || has_timer p d ts) here
            | inr there ↦
                ap (λ b. b || has_timer p d ts) there
                ∙ kept ts e₀ (sym (ap (λ b. b || has_timer p d timers) there) ∙ h)
          ])

    by_test :
        Kept
        → ((same q path && leb due now) ≡ true) ⊎ ((same q path && leb due now) ≡ false)
        → has_timer p d rest ≡ true
    by_test kept (inl it) =
        let is_path = (same_iff q path).0 (ground (arith, it)) in
        let not_ours = ap (λ (x : Text). same x p) is_path ∙ apart in
        let later = with_timer (q, due) (take_due now path timers) in
        let is_rest =
          some_inj (sym (if_true (same q path && leb due now) (some timers) later it) ∙ e) in
        subst (λ (r : List (Text × ℕ)). has_timer p d r ≡ true) is_rest
          (sym (ap (λ b. (b && due == d) || has_timer p d timers) not_ours) ∙ h)
    by_test kept (inr other) =
        let later = with_timer (q, due) (take_due now path timers) in
        past kept (take_due now path timers) refl
          (sym (if_false (same q path && leb due now) (some timers) later other) ∙ e)

-- To take another path's callback away leaves those of this path.
pub member-remove_first :
    (p path : Text) (ps : List Text)
    → same path p ≡ false
    → member p ps ≡ true
    → member p (remove_first path ps) ≡ true
unfolding member same
member-remove_first p path [] apart h = h
member-remove_first p path (x ∷ xs) apart h =
    let has = λ (ys : List Text). member p ys ≡ true in
    elim (Bool-cases (same x path)) [
      | inl it ↦
          let differs = ap (λ y. same y p) ((same_iff x path).0 it) ∙ apart in
          subst has (sym (if_true (same x path) xs (x ∷ remove_first path xs) it))
            (sym (ap (λ b. b || member p xs) differs) ∙ h)
      | inr other ↦
          subst has (sym (if_false (same x path) xs (x ∷ remove_first path xs) other))
            (elim (Bool-cases (same x p)) [
              | inl here ↦ ap (λ b. b || member p (remove_first path xs)) here
              | inr there ↦
                  let later = sym (ap (λ b. b || member p xs) there) ∙ h in
                  ap (λ b. b || member p (remove_first path xs)) there
                  ∙ member-remove_first p path xs apart later
            ])
    ]

-- An entry that is forgotten adds to the lost timers.
pub has_timer-forget :
    (p : Text) (d : ℕ) (path : Text) (entry : Option (Option ℕ)) (lost : List (Text × ℕ))
    → has_timer p d lost ≡ true
    → has_timer p d (forget path entry lost) ≡ true
has_timer-forget p d path none lost h = h
has_timer-forget p d path (some none) lost h = h
has_timer-forget p d path (some (some due)) lost h =
    ap (λ b. (same path p && due == d) || b) h ∙ or-true (same path p && due == d)
