-- ===== src/Supervisor/Ticks.antt =====
-- What one tick does to the variables of the loop of internal/sync/liveness.go.
use selective_mirror.Base.{
  ℕ, suc, ◌*◌, ◌≤◌, ◌≡◌, refl, sym, ◌∙◌, inl, inr, Bool, true, not, ◌&&◌, Option, none, some, arith,
  ltb, leb, if◌then◌else◌, if_cases, if_true, if_false, Bool-cases, Answers, Text, codes, same,
}
use selective_mirror.Supervisor.{
  Signals, Sample, Reading, Watch, KillReason, stalled, do_kill, advise, signals_moved, any_moved,
  carry, decide, tick, bucket_for, second,
}

-- A run of readings in which nothing moves: each compares with the sample before it.
abbrev pub NotAbove : Option Signals → Sample → Type 0
NotAbove none prev = Unit
NotAbove (some s) prev =
    prev.probed_ok ≡ true → (s.cpu_time_ns ≤ prev.cpu_ns) × (s.io_bytes ≤ prev.io_bytes)

signals_moved-answers :
    (prev : Sample) (p : Option Signals) → Answers (not (signals_moved prev p)) (NotAbove p prev)
signals_moved-answers prev none = (λ _. tt, λ _. refl)
signals_moved-answers prev (some s) = (
  λ h. λ ok. ground arith,
  λ h. elim (Bool-cases prev.probed_ok) [
    | inl probed ↦ let below = h probed in ground arith
    | inr unprobed ↦ ground arith
  ],
)

pub any_moved-answers :
    (prev : Sample) (r : Reading)
    → Answers (not (any_moved prev r)) ((r.output_ns ≤ prev.output_ns) × NotAbove r.probe prev)
unfolding any_moved
any_moved-answers prev r =
    let (to, from) = signals_moved-answers prev r.probe in
    (λ h. (ground arith, to (ground arith)), λ (low, quiet). let q = from quiet in ground arith)

abbrev pub count : Reading → Watch → ℕ
count r w = if any_moved w.prev r then 0 else suc w.stall_counter

-- What a tick does to the loop's variables, whichever advice it gives.
abbrev pub Decided : ℕ → Reading → Watch → Watch → Type 0
Decided k r w w' =
    (w'.prev ≡ carry w.prev r)
    × ((w'.stall_counter ≡ count r w)
        × ((w'.killed ≡ (if leb k (count r w) then true else w.killed))
            × (w'.kill_reason ≡ (
                if leb k (count r w)
                then if w.killed then w.kill_reason else stalled
                else w.kill_reason))))

do_kill-keeps :
    (why : KillReason) (w : Watch)
    → let w' = do_kill why w in
      (w'.prev ≡ w.prev)
      × ((w'.stall_counter ≡ w.stall_counter)
          × ((w'.killed ≡ true) × (w'.kill_reason ≡ (if w.killed then w.kill_reason else why))))
unfolding do_kill
do_kill-keeps why w =
    let Kept = λ (w' : Watch).
      (w'.prev ≡ w.prev)
      × ((w'.stall_counter ≡ w.stall_counter)
          × ((w'.killed ≡ true) × (w'.kill_reason ≡ (if w.killed then w.kill_reason else why)))) in
    if_cases Kept w.killed _ _ (λ before. (refl, (refl, (before, ground arith))))
      (λ first. (refl, (refl, (refl, ground arith))))

decide-Decided : (k : ℕ) (r : Reading) (w : Watch) → Decided k r w (decide k r w)
unfolding decide
decide-Decided k r w =
    let w' = record w { prev = carry w.prev r; stall_counter = count r w } in
    if_cases (Decided k r w) (leb k (count r w)) _ _
      (λ kill.
        let (a, (b, (c, d))) = do_kill-keeps stalled w' in
        (
          a,
          (
            b,
            (
              c ∙ sym (if_true (leb k (count r w)) true w.killed kill),
              d
                  ∙ sym (
                      if_true (leb k (count r w)) (if w.killed then w.kill_reason else stalled)
                        w.kill_reason kill),
            ),
          ),
        ))
      (λ go_on. (
        refl,
        (
          refl,
          (
            sym (if_false (leb k (count r w)) true w.killed go_on),
            sym (
                if_false (leb k (count r w)) (if w.killed then w.kill_reason else stalled)
                  w.kill_reason go_on),
          ),
        ),
      ))

advise-Decided :
    (recording : Bool) (verb : Text) (k : ℕ) (r : Reading) (w u : Watch)
    → Decided k r (advise recording verb r w) u
    → Decided k r w u
unfolding advise
advise-Decided recording verb k r w u =
    if_cases (λ v. Decided k r v u → Decided k r w u)
      (not w.ls_json_slow_emitted && (same verb (codes "lsjson") && ltb (60 * second) r.elapsed)) _
      _ (λ _. λ h. h) (λ _. λ h. h)

pub tick-Decided :
    (recording : Bool) (verb : Text) (r : Reading) (w : Watch)
    → Decided (bucket_for verb).k r w (tick recording verb r w)
unfolding tick
tick-Decided recording verb r w =
    advise-Decided recording verb (bucket_for verb).k r w (tick recording verb r w)
      (decide-Decided (bucket_for verb).k r (advise recording verb r w))
