-- ===== src/Queue/Circuit.antt =====
-- fairqueue.go: RecordFailure and RecordSuccess, the circuit breaker of a mirror.
-- `1 << k` and the product are int64 values, so they wrap; Time.Add takes a negative duration.
use selective_mirror.Base.{
  ℕ, suc, ◌+◌, ◌-◌, ◌*◌, ◌%◌, ◌^◌, Bool, false, none, some, Text, put, leb, ◌==◌, if◌then◌else◌,
}
use selective_mirror.Base.Int.{ℤ, pos, negsuc, int64, nat_lt}
use selective_mirror.Config.{second, minute}
use selective_mirror.Queue.{FairQueue, CircuitState}

abbrev pub circuit_breaker_threshold : ℕ
circuit_breaker_threshold = 3

abbrev pub circuit_breaker_max_backoff : ℕ
circuit_breaker_max_backoff = 5 * minute

abbrev pub circuit_breaker_base_backoff : ℕ
circuit_breaker_base_backoff = 10 * second

-- The backoff before the cap, for a count of failures that has reached the threshold.
unfoldable pub raw_backoff : ℕ → ℤ
raw_backoff failures =
    let multiplier = 2 ^ (failures - circuit_breaker_threshold) % 2 ^ 64 in
    int64 (circuit_breaker_base_backoff * multiplier)

unfoldable pub backoff_after : ℕ → ℤ
unfolding raw_backoff
backoff_after failures =
    let backoff = raw_backoff failures in
    if nat_lt circuit_breaker_max_backoff backoff then pos circuit_breaker_max_backoff else backoff

-- t.Add(d)
unfoldable pub add_time : ℕ → ℤ → ℕ
add_time t (pos d) = t + d
add_time t (negsuc d) = t - (d + 1)

abbrev pub fresh_circuit : CircuitState
fresh_circuit = record { consecutive_failures = 0; backoff_until = 0 }

abbrev pub circuit_of : Text → FairQueue → CircuitState
circuit_of mirror q = elim (q.circuits mirror) [ none ↦ fresh_circuit | some cs ↦ cs ]

unfoldable pub count_failure : ℕ → CircuitState → CircuitState × Bool
unfolding backoff_after add_time
count_failure now cs =
    let failures = suc cs.consecutive_failures in
    if leb circuit_breaker_threshold failures
    then (
      record {
        consecutive_failures = failures;
        backoff_until = add_time now (backoff_after failures);
      },
      failures == circuit_breaker_threshold,
    )
    else (record cs { consecutive_failures = failures }, false)

unfoldable pub record_failure : ℕ → Text → FairQueue → FairQueue × Bool
unfolding count_failure
record_failure now mirror q =
    let (cs, tripped) = count_failure now (circuit_of mirror q) in
    (record q { circuits = put mirror cs q.circuits }, tripped)

unfoldable pub record_success : Text → FairQueue → FairQueue
record_success mirror q = elim (q.circuits mirror) [
  | none ↦ q
  | some cs ↦ record q { circuits = put mirror fresh_circuit q.circuits }
]
