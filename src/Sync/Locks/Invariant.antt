-- ===== src/Sync/Locks/Invariant.antt =====
-- internal/sync/sync.go: what the file locks keep as long as no entry is evicted, access by access.
use selective_mirror.Base.{
  ℕ, suc, ◌<◌, ◌≡◌, refl, sym, ap, subst, ◌∙◌, ◌≢◌, ◌⊎◌, inl, inr, Bool, true, false, Option, none,
  some, arith, ◌==◌, some_inj, ==_iff, if_cases, if_true, Text, same, same_refl, same_iff, TextMap,
  put,
}
use selective_mirror.Sync.Locks.{
  update, Place, idle, loaded, counted, waiting, inside, releasing, unlocked, dropped, crowded,
  unused, evicted, key_held,
}

-- The entry that a worker holds for a key, where it still matters.
abbrev pub pointer : Place → Option (Text × ℕ)
pointer (loaded k e fresh) = some (k, e)
pointer (counted k e fresh) = some (k, e)
pointer (waiting k e) = some (k, e)
pointer (releasing k e) = some (k, e)
pointer idle = none
pointer (inside k) = none
pointer (unlocked k e) = none
pointer (dropped k e) = none
pointer (crowded k e) = none
pointer (unused k e) = none
pointer evicted = none

abbrev pub is_evicting : Place → Bool
is_evicting (crowded k e) = true
is_evicting (unused k e) = true
is_evicting evicted = true
is_evicting idle = false
is_evicting (loaded k e fresh) = false
is_evicting (counted k e fresh) = false
is_evicting (waiting k e) = false
is_evicting (inside k) = false
is_evicting (releasing k e) = false
is_evicting (unlocked k e) = false
is_evicting (dropped k e) = false

-- Each key has an entry of its own, the pointers are to the entries of the table, and a key that is
-- held has a locked entry and one holder.
pub record Inv (table : TextMap ℕ) (locked : ℕ → Bool) (allocated : ℕ) (place : ℕ → Place)
    : Type 0 where
  pub below : (k : Text) (e : ℕ) → table k ≡ some e → e < allocated
  pub own : (k k' : Text) (e : ℕ) → table k ≡ some e → table k' ≡ some e → k ≡ k'
  pub points : (i : ℕ) (k : Text) (e : ℕ) → pointer (place i) ≡ some (k, e) → table k ≡ some e
  pub holds :
      (i : ℕ) (k : Text)
      → key_held (place i) ≡ some k
      → (e : ℕ) × (table k ≡ some e) × (locked e ≡ true)
  pub unique :
      (i j : ℕ) (k : Text) → key_held (place i) ≡ some k → key_held (place j) ≡ some k → i ≡ j
  pub calm : (i : ℕ) → is_evicting (place i) ≡ false

-- What holds of the new place of worker i and of the places of the others holds of all.
update_cases :
    (P : ℕ → Place → Type 0) (place : ℕ → Place) (i : ℕ) (p : Place)
    → P i p
    → ((j : ℕ) → (j ≢ i) → P j (place j))
    → (j : ℕ) → P j (update place i p j)
update_cases P place i p at_i others j =
    if_cases (P j) (i == j) p (place j) (λ e. subst (λ n. P n p) ((==_iff i j).0 e) at_i)
      (λ e. others j (λ q. cc (e, (==_iff i j).1 (sym q))))

-- A worker that holds a key after a step is the one that moved, or held it before.
update_held :
    (place : ℕ → Place) (i : ℕ) (p : Place) (j : ℕ) (k : Text)
    → key_held (update place i p j) ≡ some k
    → ((j ≡ i) × (key_held p ≡ some k)) ⊎ ((j ≢ i) × (key_held (place j) ≡ some k))
update_held place i p j k =
    update_cases
      (λ n q.
        key_held q ≡ some k
        → ((n ≡ i) × (key_held p ≡ some k)) ⊎ ((n ≢ i) × (key_held (place n) ≡ some k)))
      place i p (λ h. inl (refl, h)) (λ n other h. inr (other, h)) j

update-true : (f : ℕ → Bool) (e e' : ℕ) → f e' ≡ true → update f e true e' ≡ true
update-true f e e' h = if_cases (λ b. b ≡ true) (e == e') true (f e') (λ _. refl) (λ _. h)

update_self {ℓ} : {A : Type ℓ} (f : ℕ → A) (e : ℕ) (a : A) → update f e a e ≡ a
update_self f e a = if_true (e == e) a (f e) ((==_iff e e).1 refl)

update_other {ℓ} : {A : Type ℓ} (f : ℕ → A) (e e' : ℕ) (a : A) → e ≢ e' → update f e a e' ≡ f e'
update_other f e e' a other =
    if_cases (λ b. b ≡ f e') (e == e') a (f e') (λ h. absurd (other ((==_iff e e').0 h)))
      (λ _. refl)

put_self : (k : Text) (e : ℕ) (table : TextMap ℕ) → put k e table k ≡ some e
put_self k e table = if_true (same k k) (some e) (table k) (same_refl k)

-- A new key leaves the others as they were.
put_other :
    (k k' : Text) (e e' : ℕ) (table : TextMap ℕ)
    → table k ≡ none
    → table k' ≡ some e'
    → put k e table k' ≡ some e'
put_other k k' e e' table absent h =
    if_cases (λ o. o ≡ some e') (same k k') (some e) (table k')
      (λ eq. absurd (cc (absent, h, ap table ((same_iff k k').0 eq)))) (λ _. h)

put_cases :
    (k k' : Text) (e e' : ℕ) (table : TextMap ℕ)
    → put k e table k' ≡ some e'
    → ((k ≡ k') × (e ≡ e')) ⊎ (table k' ≡ some e')
put_cases k k' e e' table =
    if_cases (λ o. o ≡ some e' → ((k ≡ k') × (e ≡ e')) ⊎ (table k' ≡ some e')) (same k k') (some e)
      (table k') (λ eq h. inl ((same_iff k k').0 eq, cc h)) (λ _ h. inr h)

module _ (table : TextMap ℕ) (locked : ℕ → Bool) (allocated : ℕ) (place : ℕ → Place) (i : ℕ)
    (inv : Inv table locked allocated place) where
  -- A step that changes no entry: what the new place holds is held before it.
  pub keep-Inv :
      (p : Place)
      → ((k : Text) (e : ℕ) → pointer p ≡ some (k, e) → table k ≡ some e)
      → ((k : Text) → key_held p ≡ some k → key_held (place i) ≡ some k)
      → is_evicting p ≡ false
      → Inv table locked allocated (update place i p)
  keep-Inv p pointed held quiet =
      let before : (j : ℕ) (k : Text)
          → key_held (update place i p j) ≡ some k
          → key_held (place j) ≡ some k =
        λ j k.
          update_cases (λ n q. key_held q ≡ some k → key_held (place n) ≡ some k) place i p (held k)
            (λ n _ h. h) j in
      record {
        below = inv.below;
        own = inv.own;
        points = λ j k e.
            update_cases (λ n q. pointer q ≡ some (k, e) → table k ≡ some e) place i p (pointed k e)
              (λ n _. inv.points n k e) j;
        holds = λ j k h. inv.holds j k (before j k h);
        unique = λ j n k h h'. inv.unique j n k (before j k h) (before n k h');
        calm = update_cases (λ n q. is_evicting q ≡ false) place i p quiet (λ n _. inv.calm n);
      }

  -- Two holders of a key after worker i has taken the lock of k, which had none.
  both :
      (k : Text) {j n : ℕ} (k' : Text)
      → ((j ≡ i) × (some k ≡ some k')) ⊎ ((j ≢ i) × (key_held (place j) ≡ some k'))
      → ((n ≡ i) × (some k ≡ some k')) ⊎ ((n ≢ i) × (key_held (place n) ≡ some k'))
      → ((m : ℕ) → key_held (place m) ≡ some k → ⊥)
      → j ≡ n
  both k k' (inl (a, _)) (inl (b, _)) alone = a ∙ sym b
  both k {n = n} k' (inl (_, now)) (inr (_, old)) alone = absurd (alone n (old ∙ sym now))
  both k {j = j} k' (inr (_, old)) (inl (_, now)) alone = absurd (alone j (old ∙ sym now))
  both k {j} {n} k' (inr (_, old)) (inr (_, old')) alone = inv.unique j n k' old old'

  -- mu.Lock on an entry that is free.
  pub lock-Inv :
      (k : Text) (e : ℕ)
      → pointer (place i) ≡ some (k, e)
      → locked e ≡ false
      → Inv table (update locked e true) allocated (update place i (inside k))
  lock-Inv k e at_e free =
      let p = inside k in
      let mine = inv.points i k e at_e in
      let alone : (j : ℕ) → key_held (place j) ≡ some k → ⊥ = λ j h.
        let (e', found, taken) = inv.holds j k h in
        cc (taken, free, ap locked (some_inj (sym found ∙ mine))) in
      record {
        below = inv.below;
        own = inv.own;
        points = λ j k' e'.
            update_cases (λ n q. pointer q ≡ some (k', e') → table k' ≡ some e') place i p
              (λ h. absurd (cc h)) (λ n _. inv.points n k' e') j;
        holds = λ j k' h. elim (update_held place i p j k' h) [
          | inl (_, now) ↦
              (e, subst (λ q. table q ≡ some e) (some_inj now) mine, update_self locked e true)
          | inr (_, old) ↦
              let (e', found, taken) = inv.holds j k' old in
              (e', found, update-true locked e e' taken)
        ];
        unique = λ j n k' h h'.
            both k k' (update_held place i p j k' h) (update_held place i p n k' h') alone;
        calm = update_cases (λ n q. is_evicting q ≡ false) place i p refl (λ n _. inv.calm n);
      }

  -- mu.Unlock by the holder of the key.
  pub unlock-Inv :
      (k : Text) (e : ℕ)
      → pointer (place i) ≡ some (k, e)
      → key_held (place i) ≡ some k
      → Inv table (update locked e false) allocated (update place i (unlocked k e))
  unlock-Inv k e at_e mine =
      let p = unlocked k e in
      let here_k = inv.points i k e at_e in
      let old : (j : ℕ) (k' : Text)
          → key_held (update place i p j) ≡ some k'
          → (j ≢ i) × (key_held (place j) ≡ some k') =
        λ j k' h. elim (update_held place i p j k' h) [
          | inl (_, now) ↦ absurd (cc now)
          | inr other ↦ other
        ] in
      record {
        below = inv.below;
        own = inv.own;
        points = λ j k' e'.
            update_cases (λ n q. pointer q ≡ some (k', e') → table k' ≡ some e') place i p
              (λ h. absurd (cc h)) (λ n _. inv.points n k' e') j;
        holds = λ j k' h.
            let (other, was) = old j k' h in
            let (e', found, taken) = inv.holds j k' was in
            (
              e',
              found,
              update_other locked e e' false (λ eq.
                    let same_key = inv.own k k' e here_k (found ∙ ap (λ n. some n) (sym eq)) in
                    other (inv.unique j i k' was (mine ∙ ap (λ q. some q) same_key)))
                  ∙ taken,
            );
        unique = λ j n k' h h'. inv.unique j n k' (old j k' h).1 (old n k' h').1;
        calm = update_cases (λ n q. is_evicting q ≡ false) place i p refl (λ n _. inv.calm n);
      }

  -- LoadOrStore of a key that has no entry.
  pub store-Inv :
      (k : Text)
      → table k ≡ none
      → Inv
          (put k allocated table)
          (update locked allocated false)
          (suc allocated)
          (update place i (loaded k allocated true))
  store-Inv k absent =
      let p = loaded k allocated true in
      let old : (j : ℕ) (k' : Text)
          → key_held (update place i p j) ≡ some k'
          → key_held (place j) ≡ some k' =
        λ j k' h. elim (update_held place i p j k' h) [
          | inl (_, now) ↦ absurd (cc now)
          | inr (_, was) ↦ was
        ] in
      record {
        below = λ k' e h. elim (put_cases k k' allocated e table h) [
          | inl (_, new) ↦ omega (arith, new)
          | inr was ↦ omega (arith, inv.below k' e was)
        ];
        own = λ k' k'' e h h'. elim (put_cases k k' allocated e table h) [
          | inl (is_k, new) ↦ elim (put_cases k k'' allocated e table h') [
            | inl (is_k', _) ↦ sym is_k ∙ is_k'
            | inr was ↦ absurd (omega (arith, new, inv.below k'' e was))
          ]
          | inr was ↦ elim (put_cases k k'' allocated e table h') [
            | inl (_, new) ↦ absurd (omega (arith, new, inv.below k' e was))
            | inr was' ↦ inv.own k' k'' e was was'
          ]
        ];
        points = λ j k' e'.
            update_cases (λ n q. pointer q ≡ some (k', e') → put k allocated table k' ≡ some e')
              place i p
              (λ h.
                let is_k : k ≡ k' = cc h in
                let is_e : allocated ≡ e' = cc h in
                subst (λ q. put k allocated table q ≡ some e') is_k
                  (put_self k allocated table ∙ ap (λ n. some n) is_e))
              (λ n _ h. put_other k k' allocated e' table absent (inv.points n k' e' h)) j;
        holds = λ j k' h.
            let (e', found, taken) = inv.holds j k' (old j k' h) in
            (
              e',
              put_other k k' allocated e' table absent found,
              update_other locked allocated e' false
                    (λ eq. absurd (omega (arith, eq, inv.below k' e' found)))
                  ∙ taken,
            );
        unique = λ j n k' h h'. inv.unique j n k' (old j k' h) (old n k' h');
        calm = update_cases (λ n q. is_evicting q ≡ false) place i p refl (λ n _. inv.calm n);
      }
