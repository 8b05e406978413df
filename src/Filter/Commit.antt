-- ===== src/Filter/Commit.antt =====
-- What Reload promises: the matcher always stands for the rules, a refused file changes nothing,
-- the generation counts the changes, and rules are lost only to a file that was read twice alike.
use selective_mirror.Base.{
  suc, ◌≡◌, refl, sym, ap, ap₂, subst, ◌∙◌, ◌⊎◌, inl, inr, Bool, true, false, not, ◌&&◌, some, List,
  [], ◌∷◌, ◌++◌, arith, if◌then◌else◌, if_cases, Option-cases, keep, Text, same, same_refl,
  same_iff, is_empty, member,
}
use selective_mirror.Filter.Rules.{is_strict_subset}
use selective_mirror.Filter.Engine.{
  read_project_rules, Libraries, Engine, SyncIgnoreFile, read_project_rules, rebuild_merged,
  strip_bad, start_engine, new_engine,
}
use selective_mirror.Filter.Reload.{
  same_rules, trial_merged, trial_bad, commit, is_stable, reload_rules, reload,
}

same_rules→eq : (xs ys : List Text) → same_rules xs ys ≡ true → xs ≡ ys
unfolding same_rules
same_rules→eq [] [] h = refl
same_rules→eq [] (y ∷ ys) h = cc
same_rules→eq (x ∷ xs) [] h = cc
same_rules→eq (x ∷ xs) (y ∷ ys) h =
    let head : same x y ≡ true = ground arith in
    let rest : same_rules xs ys ≡ true = ground arith in
    ap₂ ◌∷◌ ((same_iff x y).0 head) (same_rules→eq xs ys rest)

same_rules_refl : (xs : List Text) → same_rules xs xs ≡ true
unfolding same_rules
same_rules_refl [] = refl
same_rules_refl (x ∷ xs) = ground (arith, same_refl x, same_rules_refl xs)

not_empty {ℓ} : {A : Type ℓ} (xs : List A) → not (is_empty xs) ≡ false → xs ≡ []
unfolding is_empty
not_empty [] h = refl
not_empty (x ∷ xs) h = cc

module _ (libs : Libraries) where
  -- The matcher is the one compiled from the global and then the project rules.
  abbrev pub IsCoherent : Engine → Type 0
  IsCoherent e = e.merged ≡ trial_merged libs (e.global_rules ++ e.project_rules)

  rebuild_merged-IsCoherent : (e : Engine) → IsCoherent (rebuild_merged libs e)
  unfolding rebuild_merged
  rebuild_merged-IsCoherent e = ground arith

  abbrev without_bad : Engine → Engine
  without_bad e = record e {
    project_rules = keep (λ r. not (member r e.bad_patterns)) e.project_rules;
  }

  strip_bad-IsCoherent : (e : Engine) → IsCoherent e → IsCoherent (strip_bad libs e)
  unfolding strip_bad
  strip_bad-IsCoherent e h =
      if_cases IsCoherent (is_empty e.bad_patterns) _ _ (λ _. h)
        (λ _. rebuild_merged-IsCoherent (without_bad e))

  -- A new engine's matcher is the one of its rules.
  pub new_engine-IsCoherent :
      (globals : List Text) (path : Text) (file : SyncIgnoreFile) (e : Engine)
      → new_engine libs globals path file ≡ some e
      → IsCoherent e
  unfolding new_engine
  new_engine-IsCoherent globals path file e h =
      elim (Option-cases (read_project_rules libs path file)) [
        | inl failed ↦ absurd (ground (arith, failed))
        | inr ((rules, hash), e₀) ↦
            let started = rebuild_merged libs (start_engine libs globals path rules hash) in
            let is_it : some (strip_bad libs started) ≡ some e = rw (e₀, new_engine) at h in
            subst IsCoherent {x = strip_bad libs started} {y = e} (cc is_it) (
              strip_bad-IsCoherent started
                (rebuild_merged-IsCoherent (start_engine libs globals path rules hash)))
      ]

  -- A look at the file gives these rules and this hash.
  abbrev pub Reads : Engine → SyncIgnoreFile → List Text → Text → Type 0
  Reads e file rules hash = read_project_rules libs e.sync_ignore_path file ≡ some (rules, hash)

  -- The test for a stable file is a look that gives the same hash.
  is_stable-Reads :
      (e : Engine) (hash : Text) (file : SyncIgnoreFile)
      → is_stable libs e hash file ≡ true
      → (rules : List Text) × Reads e file rules hash
  unfolding is_stable
  is_stable-Reads e hash file h =
      elim (Option-cases (read_project_rules libs e.sync_ignore_path file)) [
        | inl failed ↦ absurd (ground (arith, failed))
        | inr ((rules, found), e₀) ↦
            let agrees : same found hash ≡ true = rw (e₀, is_stable) at h in
            (rules, e₀ ∙ ap (λ k. some (rules, k)) ((same_iff found hash).0 agrees))
      ]

  -- How one Reload ends: the engine is as it was, or new rules are in, none of them malformed.
  abbrev pub Ends : Engine → SyncIgnoreFile → SyncIgnoreFile → Engine × Bool → Type 0
  Ends e first_look second_look (e', changed) =
      ((e' ≡ e) × (changed ≡ false))
      ⊎ ((e'.global_rules ≡ e.global_rules)
          × Reads e first_look e'.project_rules e'.committed_content_hash
          × IsCoherent e'
          × (e'.bad_patterns ≡ [])
          × (trial_bad libs (e'.global_rules ++ e'.project_rules) ≡ [])
          × (is_strict_subset e'.project_rules e.project_rules ≡ true
              → (rules : List Text) × Reads e second_look rules e'.committed_content_hash)
          × (changed ≡ not (same_rules e.project_rules e'.project_rules))
          × (e'.generation ≡ (if changed then suc e.generation else e.generation)))

  module _ (e : Engine) (rules : List Text) (hash : Text) (first_look second_look : SyncIgnoreFile)
      (looked : Reads e first_look rules hash) where
    commit-Ends :
        trial_bad libs (e.global_rules ++ rules) ≡ []
        → (is_strict_subset rules e.project_rules ≡ true → is_stable libs e hash second_look ≡ true)
        → Ends e first_look second_look (commit libs e rules hash)
    unfolding commit
    commit-Ends valid stable = inr (
      refl,
      looked,
      refl,
      refl,
      valid,
      (λ h. is_stable-Reads e hash second_look (stable h)),
      refl,
      refl,
    )

    reload_rules-Ends : Ends e first_look second_look (reload_rules libs e rules hash second_look)
    unfolding reload_rules
    reload_rules-Ends =
        let Good = Ends e first_look second_look in
        if_cases Good _ _ _ (λ _. inl (refl, refl))
          (λ _.
            if_cases Good (not (is_empty (trial_bad libs (e.global_rules ++ rules)))) _ _
              (λ _. inl (refl, refl))
              (λ valid.
                if_cases Good
                  (is_strict_subset rules e.project_rules
                    && not (is_stable libs e hash second_look))
                  _ _ (λ _. inl (refl, refl))
                  (λ stable.
                    commit-Ends (not_empty (trial_bad libs (e.global_rules ++ rules)) valid)
                      (λ h. ground arith))))

  reload-found :
      (e : Engine) (rules : List Text) (hash : Text) (first_look second_look : SyncIgnoreFile)
      → Reads e first_look rules hash
      → reload libs e first_look second_look ≡ reload_rules libs e rules hash second_look
  unfolding reload
  reload-found e rules hash first_look second_look found = rw (found, reload) refl

  -- Reload leaves the engine as it was, and reports no change, or it puts in the rules and the hash
  -- that the first look at the file gave: then the matcher is the one of the rules, no pattern is
  -- malformed, the global rules are as before, the report says whether the rules differ, the
  -- generation grows by one exactly if they do, and where the rules are a strict part of the old
  -- ones a second look at the file gave the same hash again.
  pub reload-Ends :
      (e : Engine) (first_look second_look : SyncIgnoreFile)
      → Ends e first_look second_look (reload libs e first_look second_look)
  unfolding reload
  reload-Ends e first_look second_look =
      elim (Option-cases (read_project_rules libs e.sync_ignore_path first_look)) [
        | inl failed ↦ rw (failed, reload) (inl (refl, refl))
        | inr ((rules, hash), found) ↦
            subst (Ends e first_look second_look)
              (sym (reload-found e rules hash first_look second_look found))
              (reload_rules-Ends e rules hash first_look second_look found)
      ]
