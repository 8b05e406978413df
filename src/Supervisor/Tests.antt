-- ===== src/Supervisor/Tests.antt =====
-- Runs of the supervisor, and its theorems at concrete inputs.
use selective_mirror.Base.{
  ℕ, ◌≡◌, refl, ◌↔◌, true, false, some, List, [], ◌∷◌, ◌++◌, map, Text, codes, same, member,
}
use selective_mirror.Base.Int.{pos, negsuc}
use selective_mirror.Supervisor.{
  Reading, start, bucket_for, ticked, finished, exit_error, run_with_supervisor,
}
use selective_mirror.Supervisor.Stalls.{watch, Stalls, killed_iff_Stalls}
use selective_mirror.Supervisor.Exit.{Reports, run_with_supervisor-finished}

abbrev verb : Text
verb = codes "copyto"

-- A reading whose last output is that old, and whose CPU time has reached so much.
abbrev read : ℕ → ℕ → Reading
read output cpu = record {
  output_ns = output;
  probe = some (record { cpu_time_ns = cpu; io_bytes = 7 });
  elapsed = 10;
}

-- The first still sample counts although nothing compares with its counters.
abbrev flat : List Reading
flat = read 5 1 ∷ read 5 1 ∷ read 5 1 ∷ read 5 1 ∷ read 5 1 ∷ read 5 1 ∷ []

flat_is_killed : (watch true verb (start 5) flat).killed ≡ true
unfolding watch member same start
flat_is_killed = refl

-- One tick of CPU time in between saves the process.
abbrev busy : List Reading
busy = read 5 1 ∷ read 5 1 ∷ read 5 1 ∷ read 5 2 ∷ read 5 2 ∷ read 5 2 ∷ []

busy_lives : (watch true verb (start 5) busy).killed ≡ false
unfolding watch member same start
busy_lives = refl

killed_iff_Stalls_example :
    ((watch true verb (start 5) flat).killed ≡ true)
    ↔ Stalls (bucket_for verb).k (start 5).prev flat
killed_iff_Stalls_example = killed_iff_Stalls true verb 5 flat

run_with_supervisor-finished_example :
    let o =
      run_with_supervisor true true verb 5
        (map ticked busy ++ (finished (exit_error (pos 3)) ∷ [])) in
    (Stalls (bucket_for verb).k (start 5).prev busy → Reports o (negsuc 1) 1)
    × ((Stalls (bucket_for verb).k (start 5).prev busy → ⊥) → Reports o (pos 3) 0)
run_with_supervisor-finished_example =
    run_with_supervisor-finished true verb 5 busy (exit_error (pos 3)) []
