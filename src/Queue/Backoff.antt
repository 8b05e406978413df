-- ===== src/Queue/Backoff.antt =====
-- What the circuit breaker promises, and where the doubling leaves the range of an int64.
use Prim.Native.Nat.{min}
use selective_mirror.Base.{
  ℕ, zero, suc, ◌+◌, ◌-◌, ◌*◌, ◌%◌, ◌^◌, ◌≤◌, ◌<◌, ◌≡◌, refl, ap, ◌∙◌, true, none, some, List, [],
  ◌∷◌, arith, ltb, leb, if◌then◌else◌, length, Text, same_refl,
}
use selective_mirror.Base.Int.{pos, int64, int_eq, int_eq→eq}
use selective_mirror.Base.Table.{all_below, all_below_sound}
use selective_mirror.Queue.{FairQueue, CircuitState}
use selective_mirror.Queue.Circuit.{
  raw_backoff, backoff_after, circuit_breaker_threshold, circuit_breaker_base_backoff,
  circuit_breaker_max_backoff, add_time, count_failure, record_failure, record_success, circuit_of,
  fresh_circuit,
}
use selective_mirror.Queue.Dequeue.{in_backoff}

abbrev pub capped_doubling : ℕ → ℕ
capped_doubling k = min (circuit_breaker_base_backoff * 2 ^ k) circuit_breaker_max_backoff

doubling_table : all_below 30 (λ k. int_eq (backoff_after (3 + k)) (pos (capped_doubling k))) ≡ true
unfolding all_below backoff_after int_eq int64
doubling_table = refl

backoff_after-doubles : (k : ℕ) → k < 30 → backoff_after (3 + k) ≡ pos (capped_doubling k)
backoff_after-doubles k h = int_eq→eq _ _ (all_below_sound 30 _ k doubling_table h)

pow_split : (j : ℕ) → 2 ^ (54 + j) ≡ 2 ^ 54 * 2 ^ j
pow_split zero = refl
pow_split (suc j) =
    let e : 54 + suc j ≡ suc (54 + j) = omega arith in rw e (omega (arith, pow_split j))

-- From 2 ^ 54 on the doubling of 10 * 10 ^ 9, a multiple of 2 ^ 10, leaves nothing in 64 bits.
product_vanishes : (p : ℕ) → (circuit_breaker_base_backoff * ((2 ^ 54 * p) % 2 ^ 64)) % 2 ^ 64 ≡ 0
product_vanishes p = omega arith

int64_multiple : (n : ℕ) → n % 2 ^ 64 ≡ 0 → int64 n ≡ pos 0
unfolding int64
int64_multiple n h = rw h

backoff_after-vanishes : (j : ℕ) → backoff_after (57 + j) ≡ pos 0
unfolding backoff_after raw_backoff
backoff_after-vanishes j =
    let e : 57 + j - circuit_breaker_threshold ≡ 54 + j = omega arith in
    let raw : raw_backoff (57 + j) ≡ pos 0 =
      rw (e, raw_backoff)
        (rw (pow_split j, raw_backoff) (int64_multiple _ (product_vanishes (2 ^ j)))) in
    rw raw

-- RecordFailure at each time of a list, its newest first, after a success.
abbrev pub fail_each : Text → List ℕ → FairQueue → FairQueue
fail_each mirror [] q = record_success mirror q
fail_each mirror (t ∷ ts) q = (record_failure t mirror (fail_each mirror ts q)).0

circuit-record_success :
    (mirror : Text) (q : FairQueue) → circuit_of mirror (record_success mirror q) ≡ fresh_circuit
unfolding record_success
circuit-record_success mirror q = ground (arith, same_refl mirror)

circuit-record_failure :
    (now : ℕ) (mirror : Text) (q : FairQueue)
    → circuit_of mirror (record_failure now mirror q).0
      ≡ (count_failure now (circuit_of mirror q)).0
unfolding record_failure
circuit-record_failure now mirror q = rw (same_refl mirror, circuit_of)

count-count_failure :
    (now : ℕ) (cs : CircuitState)
    → (count_failure now cs).0.consecutive_failures ≡ suc cs.consecutive_failures
unfolding count_failure
count-count_failure now cs = ground arith

failures-fail_each :
    (mirror : Text) (ts : List ℕ) (q : FairQueue)
    → (circuit_of mirror (fail_each mirror ts q)).consecutive_failures ≡ length ts
failures-fail_each mirror [] q = rw (circuit-record_success mirror q)
failures-fail_each mirror (t ∷ ts) q =
    rw (circuit-record_failure t mirror (fail_each mirror ts q)) (
      omega (
        arith,
        count-count_failure t (circuit_of mirror (fail_each mirror ts q)),
        failures-fail_each mirror ts q,
      ))

until-count_failure :
    (now : ℕ) (cs : CircuitState) (k : ℕ)
    → cs.consecutive_failures ≡ 2 + k
    → (count_failure now cs).0.backoff_until ≡ add_time now (backoff_after (3 + k))
unfolding count_failure
until-count_failure now cs k h =
    let e : suc cs.consecutive_failures ≡ 3 + k = omega arith in
    let test : leb 3 (suc cs.consecutive_failures) ≡ true = ground arith in
    rw (test, count_failure) (ap (λ n. add_time now (backoff_after n)) e)

in_backoff-circuit :
    (now : ℕ) (q : FairQueue) (mirror : Text)
    → in_backoff now q mirror ≡ (
        if ltb now (circuit_of mirror q).backoff_until
        then some (circuit_of mirror q).backoff_until
        else none)
unfolding in_backoff
in_backoff-circuit now q mirror = ground arith

-- The end of the backoff after three or more failures in a row.
until-fail_each :
    (mirror : Text) (t : ℕ) (ts : List ℕ) (q : FairQueue) (k : ℕ)
    → length ts ≡ 2 + k
    → (circuit_of mirror (fail_each mirror (t ∷ ts) q)).backoff_until
      ≡ add_time t (backoff_after (3 + k))
until-fail_each mirror t ts q k h = rw (circuit-record_failure t mirror (fail_each mirror ts q)) (
    until-count_failure t (circuit_of mirror (fail_each mirror ts q)) k
      (failures-fail_each mirror ts q ∙ h))

-- After three to 32 failures in a row, the mirror is in backoff exactly for the capped doubling
-- of ten seconds from the last failure on.
pub in_backoff-fail_each :
    (mirror : Text) (t : ℕ) (ts : List ℕ) (q : FairQueue) (k now : ℕ)
    → length ts ≡ 2 + k
    → k < 30
    → in_backoff now (fail_each mirror (t ∷ ts) q) mirror
      ≡ (if ltb now (t + capped_doubling k) then some (t + capped_doubling k) else none)
unfolding add_time
in_backoff-fail_each mirror t ts q k now h lt =
    rw
      (
        in_backoff-circuit now (fail_each mirror (t ∷ ts) q) mirror,
        until-fail_each mirror t ts q k h,
        backoff_after-doubles k lt,
      )
      refl

-- From 57 failures in a row on, the doubling has left the int64, and the mirror is not in backoff
-- at any time from the last failure on.
pub breaker_opens_no_more :
    (mirror : Text) (t : ℕ) (ts : List ℕ) (q : FairQueue) (now : ℕ)
    → 56 ≤ length ts
    → t ≤ now
    → in_backoff now (fail_each mirror (t ∷ ts) q) mirror ≡ none
unfolding add_time
breaker_opens_no_more mirror t ts q now h le =
    let k = length ts - 2 in
    let e : 3 + k ≡ 57 + (length ts - 56) = omega arith in
    rw
      (
        in_backoff-circuit now (fail_each mirror (t ∷ ts) q) mirror,
        until-fail_each mirror t ts q k (omega arith),
        e,
        backoff_after-vanishes (length ts - 56),
      )
      (ground arith)
