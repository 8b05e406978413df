-- ===== src/Queue/Pacing.antt =====
-- How long a file rests after a sync: the bounds of the adaptive cooldown, and that Dequeue honours it.
use Prim.Native.Nat.{min, max}
use selective_mirror.Base.{
  ℕ, ◌+◌, ◌-◌, ◌*◌, ◌/◌, ◌≤◌, ◌<◌, ◌≡◌, false, none, some, List, [], ◌∷◌, arith, ltb, if◌then◌else◌,
  length, length-append, keep, Text, same, same_refl, is_empty,
}
use selective_mirror.Config.{second}
use selective_mirror.Queue.{FairQueue}
use selective_mirror.Queue.Cooldown.{
  adaptive_cooldown, adaptive_base_cooldown, adaptive_max_cooldown, adaptive_freq_window,
  adaptive_max_freq_factor, set_adaptive_cooldown, trim_history, history_of,
}
use selective_mirror.Queue.Dequeue.{in_cooldown}

-- With at least one event in the window, the cooldown is the greater of five seconds for each
-- event, up to ten of them, and one and a half times the sync, cut to two minutes.
pub adaptive_cooldown-min-max :
    (events d : ℕ)
    → adaptive_cooldown events d
      ≡ min adaptive_max_cooldown
          (max (adaptive_base_cooldown * min events adaptive_max_freq_factor) (d * 3 / 2))
unfolding adaptive_cooldown
adaptive_cooldown-min-max events d = ground arith

length-trim_history : (now : ℕ) (ts : List ℕ) → 0 < length (trim_history now ts)
unfolding trim_history
length-trim_history now ts =
    omega (arith, length-append (keep (λ t. ltb (now - adaptive_freq_window) t) ts) (now ∷ []))

-- The events that count: those of the last minute and the one at hand.
abbrev pub recent : ℕ → Text → FairQueue → ℕ
recent now key q = length (keep (λ t. ltb (now - adaptive_freq_window) t) (history_of key q)) + 1

-- After the adaptive cooldown of a file is set, Dequeue passes over the file up to the end of the
-- cooldown and no longer; the cooldown is five seconds to two minutes long, and counts the events
-- of the last minute; other files keep their cooldowns.
pub in_cooldown-set_adaptive :
    (now later : ℕ) (key other : Text) (d : ℕ) (q : FairQueue)
    → is_empty key ≡ false
    → same key other ≡ false
    → let end = now + adaptive_cooldown (recent now key q) d in
      let after = set_adaptive_cooldown now key d q in
      (in_cooldown later after key ≡ (if ltb later end then some end else none))
      × (now + 5 * second ≤ end)
      × (end ≤ now + 120 * second)
      × (in_cooldown later after other ≡ in_cooldown later q other)
unfolding set_adaptive_cooldown in_cooldown
in_cooldown-set_adaptive now later key other d q k o =
    (ground (arith, same_refl key, counted), ground arith, ground arith, rw k (rw (o, in_cooldown)))
  where
    counted : length (trim_history now (history_of key q)) ≡ recent now key q
    counted =
        length-append (keep (λ t. ltb (now - adaptive_freq_window) t) (history_of key q)) (now ∷ [])
