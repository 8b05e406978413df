-- ===== src/Supervisor/Stalls.antt =====
-- When the loop of internal/sync/liveness.go kills a process for a stall, and when it does not.
use selective_mirror.Base.{
  ℕ, suc, ◌+◌, ◌≤◌, ◌<◌, ◌≡◌, refl, sym, ap, subst, ◌∙◌, ◌↔◌, ◌⊎◌, inl, inr, Bool, true, false, not,
  List, [], ◌∷◌, ◌++◌, arith, ltb, leb, ltb→lt, leb→le, not_leb→lt, not_ltb→le, if_cases, if_true,
  if_false, Bool-cases, length, Text, codes, member,
}
use selective_mirror.Supervisor.{
  Sample, Reading, Watch, start, any_moved, carry, tick, Bucket, bucket_for, transfer_bucket,
  metadata_bucket,
}
use selective_mirror.Supervisor.Ticks.{NotAbove, any_moved-answers, count, tick-Decided}

abbrev pub Still : Sample → List Reading → Type 0
Still prev [] = Unit
Still prev (r ∷ rs) =
    (r.output_ns ≤ prev.output_ns) × (NotAbove r.probe prev × Still (carry prev r) rs)

-- The sample that the readings leave.
unfoldable pub carry_all : Sample → List Reading → Sample
unfolding carry
carry_all prev [] = prev
carry_all prev (r ∷ rs) = carry_all (carry prev r) rs

unfoldable pub watch : Bool → Text → Watch → List Reading → Watch
unfolding tick
watch recording verb w [] = w
watch recording verb w (r ∷ rs) = watch recording verb (tick recording verb r w) rs

-- Some K readings in a row, within the history that began with the sample `prev`, are still.
pub record Stalls (k : ℕ) (prev : Sample) (rs : List Reading) : Type 0 where
  pub before : List Reading
  pub window : List Reading
  pub rest : List Reading
  pub splits : rs ≡ before ++ (window ++ rest)
  pub enough : length window ≡ k
  pub still : Still (carry_all prev before) window

Stalls-later :
    {k : ℕ} (prev : Sample) (r : Reading) (rs : List Reading)
    → Stalls k (carry prev r) rs
    → Stalls k prev (r ∷ rs)
unfolding carry_all
Stalls-later prev r rs s = record {
  before = r ∷ s.before;
  window = s.window;
  rest = s.rest;
  splits = ap (λ t. r ∷ t) s.splits;
  enough = s.enough;
  still = s.still;
}

-- The readings begin with a still run that fills up a count of `n`.
abbrev pub Fills : ℕ → ℕ → Sample → List Reading → Type 0
Fills k n prev rs =
    (window : List Reading) × ((rest : List Reading) × ((rs ≡ window ++ rest)
        × ((n + length window ≡ k) × Still prev window)))

Still-first :
    (prev : Sample) (r : Reading) (rs : List Reading)
    → any_moved prev r ≡ false
    → Still (carry prev r) rs
    → Still prev (r ∷ rs)
Still-first prev r rs quiet later =
    let (low, calm) = (any_moved-answers prev r).0 (ap not quiet) in (low, (calm, later))

-- After a tick that moved, a still run that fills the count up from 0 is a stall.
Fills-Stalls :
    {k : ℕ} (prev : Sample) (r : Reading) (rs : List Reading)
    → Fills k 0 (carry prev r) rs
    → Stalls k prev (r ∷ rs)
unfolding carry_all
Fills-Stalls prev r rs (window, (rest, (splits, (enough, still)))) = record {
  before = r ∷ [];
  window = window;
  rest = rest;
  splits = ap (λ t. r ∷ t) splits;
  enough = omega (arith, enough);
  still = still;
}

-- After a still tick, the run that follows is longer by one.
Fills-first :
    {k : ℕ} (n : ℕ) (prev : Sample) (r : Reading) (rs : List Reading)
    → any_moved prev r ≡ false
    → Fills k (suc n) (carry prev r) rs
    → Fills k n prev (r ∷ rs)
Fills-first n prev r rs quiet (window, (rest, (splits, (enough, still)))) = (
  r ∷ window,
  (rest, (ap (λ t. r ∷ t) splits, (omega (arith, enough), Still-first prev r window quiet still))),
)

module _ (recording : Bool) (verb : Text) where
  abbrev k : ℕ
  k = (bucket_for verb).k

  survives :
      (r : Reading) (w : Watch)
      → count r w < k
      → w.killed ≡ false
      → (tick recording verb r w).killed ≡ false
  survives r w low alive =
      let (_, (_, (killed_eq, _))) = tick-Decided recording verb r w in
      elim (Bool-cases (leb k (count r w))) [
        | inl reached ↦ absurd (omega (arith, low, leb→le k (count r w) reached))
        | inr below ↦ killed_eq ∙ if_false (leb k (count r w)) true w.killed below ∙ alive
      ]

  killed→still :
      (rs : List Reading) (w : Watch)
      → w.killed ≡ false
      → w.stall_counter < k
      → (watch recording verb w rs).killed ≡ true
      → Fills k w.stall_counter w.prev rs ⊎ Stalls k w.prev rs
  unfolding watch
  killed→still [] w alive low h = absurd (cc)
  killed→still (r ∷ rs) w alive low h =
      let (prev_eq, (count_eq, _)) = tick-Decided recording verb r w in
      let w' = tick recording verb r w in
      let later : (n : ℕ)
          → count r w ≡ n
          → n < k
          → Fills k n (carry w.prev r) rs ⊎ Stalls k (carry w.prev r) rs =
        λ n e small.
          subst (λ p. Fills k n p rs ⊎ Stalls k p rs) prev_eq
            (subst (λ m. Fills k m w'.prev rs ⊎ Stalls k w'.prev rs) (count_eq ∙ e)
              (killed→still rs w' (survives r w (omega (arith, e, small)) alive)
                (omega (arith, count_eq, e, small)) h)) in
      elim (Bool-cases (any_moved w.prev r)) [
        | inl moved ↦
            elim (later 0 (if_true (any_moved w.prev r) 0 (suc w.stall_counter) moved)
              (omega (arith, low))) [
                | inl fills ↦ inr (Fills-Stalls w.prev r rs fills)
                | inr stall ↦ inr (Stalls-later w.prev r rs stall)
              ]
        | inr quiet ↦
            let e = if_false (any_moved w.prev r) 0 (suc w.stall_counter) quiet in
            elim (Bool-cases (ltb (suc w.stall_counter) k)) [
              | inl below ↦
                  elim (later (suc w.stall_counter) e (ltb→lt (suc w.stall_counter) k below)) [
                    | inl fills ↦ inl (Fills-first w.stall_counter w.prev r rs quiet fills)
                    | inr stall ↦ inr (Stalls-later w.prev r rs stall)
                  ]
              | inr reached ↦ inl (
                r ∷ [],
                (
                  rs,
                  (
                    refl,
                    (
                      omega (arith, low, not_ltb→le (suc w.stall_counter) k reached),
                      Still-first w.prev r [] quiet tt,
                    ),
                  ),
                ),
              )
            ]
      ]

  watch-stays_killed :
      (rs : List Reading) (w : Watch) → w.killed ≡ true → (watch recording verb w rs).killed ≡ true
  unfolding watch
  watch-stays_killed [] w dead = dead
  watch-stays_killed (r ∷ rs) w dead =
      let (_, (_, (killed_eq, _))) = tick-Decided recording verb r w in
      watch-stays_killed rs (tick recording verb r w) (ground (arith, killed_eq))

  -- While the process lives the count is under K.
  abbrev IsPatient : Watch → Type 0
  IsPatient w = w.killed ≡ false → w.stall_counter < k

  tick-IsPatient : (r : Reading) (w : Watch) → IsPatient (tick recording verb r w)
  tick-IsPatient r w alive =
      let (_, (count_eq, (killed_eq, _))) = tick-Decided recording verb r w in
      elim (Bool-cases (leb k (count r w))) [
        | inl reached ↦ absurd (ground (arith, killed_eq))
        | inr below ↦ omega (arith, count_eq, not_leb→lt k (count r w) below)
      ]

  watch-IsPatient :
      (rs : List Reading) (w : Watch) → IsPatient w → IsPatient (watch recording verb w rs)
  unfolding watch
  watch-IsPatient [] w h = h
  watch-IsPatient (r ∷ rs) w h = watch-IsPatient rs (tick recording verb r w) (tick-IsPatient r w)

  still→killed :
      (window rest : List Reading) (w : Watch)
      → IsPatient w
      → k ≤ w.stall_counter + length window
      → Still w.prev window
      → (watch recording verb w (window ++ rest)).killed ≡ true
  unfolding watch
  still→killed [] rest w patient enough still = elim (Bool-cases w.killed) [
    | inl dead ↦ watch-stays_killed rest w dead
    | inr alive ↦ absurd (omega (arith, patient alive, enough))
  ]
  still→killed (r ∷ window) rest w patient enough (low, (calm, still)) =
      let (prev_eq, (count_eq, _)) = tick-Decided recording verb r w in
      let counted =
        if_false (any_moved w.prev r) 0 (suc w.stall_counter)
          (ground (arith, (any_moved-answers w.prev r).1 (low, calm))) in
      still→killed window rest (tick recording verb r w) (tick-IsPatient r w)
        (omega (arith, count_eq, counted, enough)) (subst (λ p. Still p window) (sym prev_eq) still)

  watch-append :
      (rs ts : List Reading) (w : Watch)
      → watch recording verb w (rs ++ ts) ≡ watch recording verb (watch recording verb w rs) ts
  unfolding watch
  watch-append [] ts w = refl
  watch-append (r ∷ rs) ts w = watch-append rs ts (tick recording verb r w)

  watch-prev :
      (rs : List Reading) (w : Watch) → (watch recording verb w rs).prev ≡ carry_all w.prev rs
  unfolding watch carry_all
  watch-prev [] w = refl
  watch-prev (r ∷ rs) w =
      watch-prev rs (tick recording verb r w)
      ∙ ap (λ p. carry_all p rs) (tick-Decided recording verb r w).0

  Stalls→killed :
      (rs : List Reading) (w : Watch)
      → IsPatient w
      → Stalls k w.prev rs
      → (watch recording verb w rs).killed ≡ true
  Stalls→killed rs w patient s =
      let w' = watch recording verb w s.before in
      ap (λ ts. (watch recording verb w ts).killed) s.splits
      ∙ ap (λ v. v.killed) (watch-append s.before (s.window ++ s.rest) w)
      ∙ still→killed s.window s.rest w' (watch-IsPatient s.before w patient)
          (omega (arith, s.enough))
          (subst (λ p. Still p s.window) (sym (watch-prev s.before w)) s.still)

  k_positive : 0 < k
  unfolding bucket_for
  k_positive =
      if_cases (λ (b : Bucket). 0 < b.k)
        (member verb
          (codes "copyto" ∷ codes "copy" ∷ codes "sync" ∷ codes "moveto" ∷ codes "touch" ∷ []))
        transfer_bucket metadata_bucket (λ _. omega arith) (λ _. omega arith)

  -- The supervisor kills for a stall exactly when, in some K consecutive ticks, the output, the CPU
  -- time and the I/O count of the process did not move, K being that of the verb's bucket.
  pub killed_iff_Stalls :
      (now : ℕ) (rs : List Reading)
      → ((watch recording verb (start now) rs).killed ≡ true)
        ↔ Stalls (bucket_for verb).k (start now).prev rs
  unfolding start carry_all
  killed_iff_Stalls now rs = (
    λ h. elim (killed→still rs (start now) refl k_positive h) [
      | inl (window, (rest, (splits, (enough, still)))) ↦ record {
        before = [];
        window = window;
        rest = rest;
        splits = splits;
        enough = omega (arith, enough);
        still = still;
      }
      | inr stall ↦ stall
    ],
    λ s. Stalls→killed rs (start now) (λ _. k_positive) s,
  )
