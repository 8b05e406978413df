-- ===== src/Supervisor.antt =====
-- internal/sync/liveness.go: the supervisor that watches an rclone process and kills it when it
-- stalls. Time and the counters that the system reports are natural numbers. The loop's select
-- becomes the sequence of what it received; the process and its handle are what they report. A
-- kill that works is followed by the end of the process, which the sequence then holds.
pub mod Stderr
pub mod Ticks
pub mod Stalls
pub mod Exit
mod Tests
use selective_mirror.Base.{
  ℕ, suc, ◌*◌, Bool, true, false, not, ◌&&◌, ◌||◌, Option, none, some, List, [], ◌∷◌, ltb, leb,
  if◌then◌else◌, Text, codes, same, member,
}
use selective_mirror.Base.Int.{ℤ, pos, negsuc}

pub record Bucket : Type 0 where
  pub name : Text
  pub interval : ℕ
  pub k : ℕ

abbrev pub second : ℕ
second = 1000000000

abbrev pub transfer_bucket : Bucket
transfer_bucket = record { name = codes "transfer"; interval = 10 * second; k = 6 }

abbrev pub metadata_bucket : Bucket
metadata_bucket = record { name = codes "metadata"; interval = 30 * second; k = 8 }

unfoldable pub bucket_for : Text → Bucket
bucket_for verb =
    if member verb
      (codes "copyto" ∷ codes "copy" ∷ codes "sync" ∷ codes "moveto" ∷ codes "touch" ∷ [])
    then transfer_bucket
    else metadata_bucket

pub record Signals : Type 0 where
  pub cpu_time_ns : ℕ
  pub io_bytes : ℕ

pub record Sample : Type 0 where
  pub output_ns : ℕ
  pub cpu_ns : ℕ
  pub io_bytes : ℕ
  pub probed_ok : Bool

-- What a tick finds: the time of the last output, the probe's answer where there is a handle and
-- no error, and the time since the start.
pub record Reading : Type 0 where
  pub output_ns : ℕ
  pub probe : Option Signals
  pub elapsed : ℕ

pub data KillReason : Type 0 where
  exit_natural ctx_cancel stalled : KillReason

pub data Anomaly : Type 0 where
  sync_stalled ls_json_slow : Anomaly

-- The variables of the loop; `killed` is the state of killOnce, `kills` counts Process.Kill.
pub record Watch : Type 0 where
  pub prev : Sample
  pub stall_counter : ℕ
  pub killed : Bool
  pub kill_reason : KillReason
  pub kills : ℕ
  pub ls_json_slow_emitted : Bool
  pub anomalies : List Anomaly

unfoldable pub start : ℕ → Watch
start now = record {
  prev = record { output_ns = now; cpu_ns = 0; io_bytes = 0; probed_ok = false };
  stall_counter = 0;
  killed = false;
  kill_reason = exit_natural;
  kills = 0;
  ls_json_slow_emitted = false;
  anomalies = [];
}

unfoldable pub do_kill : KillReason → Watch → Watch
do_kill why w =
    if w.killed then w else record w { killed = true; kill_reason = why; kills = suc w.kills }

-- The advice that an lsjson takes long. `recording` says that there is a recorder.
unfoldable pub advise : Bool → Text → Reading → Watch → Watch
advise recording verb r w =
    if not w.ls_json_slow_emitted && (same verb (codes "lsjson") && ltb (60 * second) r.elapsed)
    then record w {
      ls_json_slow_emitted = true;
      anomalies = if recording then ls_json_slow ∷ w.anomalies else w.anomalies;
    }
    else w

abbrev pub signals_moved : Sample → Option Signals → Bool
signals_moved prev none = false
signals_moved prev (some s) =
    prev.probed_ok && (ltb prev.cpu_ns s.cpu_time_ns || ltb prev.io_bytes s.io_bytes)

unfoldable pub any_moved : Sample → Reading → Bool
any_moved prev r = ltb prev.output_ns r.output_ns || signals_moved prev r.probe

abbrev pub carry_signals : Sample → Option Signals → Sample
carry_signals prev none = prev
carry_signals prev (some s) = record prev {
  cpu_ns = s.cpu_time_ns;
  io_bytes = s.io_bytes;
  probed_ok = true;
}

-- prev for the next tick.
unfoldable pub carry : Sample → Reading → Sample
carry prev r = carry_signals (record prev { output_ns = r.output_ns }) r.probe

-- Count the tick and kill where the count has reached the bucket's K.
unfoldable pub decide : ℕ → Reading → Watch → Watch
unfolding any_moved carry do_kill
decide k r w =
    let count = if any_moved w.prev r then 0 else suc w.stall_counter in
    let w' = record w { prev = carry w.prev r; stall_counter = count } in
    if leb k count then do_kill stalled w' else w'

unfoldable pub tick : Bool → Text → Reading → Watch → Watch
unfolding advise decide bucket_for
tick recording verb r w = decide (bucket_for verb).k r (advise recording verb r w)

-- How cmd.Wait ends.
pub data WaitResult : Type 0 where
  success other_error : WaitResult
  exit_error : ℤ → WaitResult

abbrev pub natural_exit : WaitResult → ℤ
natural_exit success = pos 0
natural_exit (exit_error code) = code
natural_exit other_error = negsuc 0

abbrev pub exit_code_for : KillReason → WaitResult → ℤ
exit_code_for stalled ended = negsuc 1
exit_code_for ctx_cancel ended = negsuc 2
exit_code_for exit_natural ended = natural_exit ended

abbrev pub note_kill : Bool → KillReason → List Anomaly → List Anomaly
note_kill true stalled noted = sync_stalled ∷ noted
note_kill false stalled noted = noted
note_kill recording ctx_cancel noted = noted
note_kill recording exit_natural noted = noted

unfoldable pub classify_exit : Bool → WaitResult → Watch → ℤ × List Anomaly
classify_exit recording ended w =
    (exit_code_for w.kill_reason ended, note_kill recording w.kill_reason w.anomalies)

-- What the select received: the end of the process, the context's cancellation, a tick.
pub data Event : Type 0 where
  finished : WaitResult → Event
  cancelled : Event
  ticked : Reading → Event

-- The receive from done after a cancellation, which passes over all else.
unfoldable pub await : List Event → Option WaitResult
await [] = none
await (finished ended ∷ events) = some ended
await (cancelled ∷ events) = await events
await (ticked r ∷ events) = await events

pub record Report : Type 0 where
  pub exit_code : ℤ
  pub anomalies : List Anomaly
  pub kills : ℕ

unfoldable pub report : Bool → Watch → WaitResult → Report
unfolding classify_exit
report recording w ended =
    let (code, noted) = classify_exit recording ended w in
    record { exit_code = code; anomalies = noted; kills = w.kills }

abbrev pub report_if : Bool → Watch → Option WaitResult → Option Report
report_if recording w none = none
report_if recording w (some ended) = some (report recording w ended)

-- The loop. `none`: it still waits for the process.
unfoldable pub supervise : Bool → Text → Watch → List Event → Option Report
unfolding report tick await do_kill
supervise recording verb w [] = none
supervise recording verb w (finished ended ∷ events) = some (report recording w ended)
supervise recording verb w (cancelled ∷ events) =
    report_if recording (do_kill ctx_cancel w) (await events)
supervise recording verb w (ticked r ∷ events) =
    supervise recording verb (tick recording verb r w) events

-- The whole call. `started` is the outcome of cmd.Start, `now` the time it was made.
unfoldable pub run_with_supervisor : Bool → Bool → Text → ℕ → List Event → Option Report
unfolding start supervise
run_with_supervisor started recording verb now events =
    if started
    then supervise recording verb (start now) events
    else some (record { exit_code = negsuc 0; anomalies = []; kills = 0 })
