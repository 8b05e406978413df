-- ===== src/Queue/Cooldown.antt =====
-- fairqueue.go: SetCooldown and SetAdaptiveCooldown. The factor 1.5 is exact in float64 for a
-- duration below 2 ^ 51 nanoseconds, 26 days, so it is read as `* 3 / 2` on whole nanoseconds.
use selective_mirror.Base.{
  ℕ, ◌+◌, ◌-◌, ◌*◌, ◌/◌, ◌||◌, List, [], ◌∷◌, ◌++◌, none, some, Text, put, ltb, ◌==◌, if◌then◌else◌,
  keep, length, is_empty,
}
use selective_mirror.Config.{second}
use selective_mirror.Queue.{FairQueue}

abbrev pub adaptive_base_cooldown : ℕ
adaptive_base_cooldown = 5 * second

abbrev pub adaptive_max_cooldown : ℕ
adaptive_max_cooldown = 120 * second

abbrev pub adaptive_freq_window : ℕ
adaptive_freq_window = 60 * second

abbrev pub adaptive_max_freq_factor : ℕ
adaptive_max_freq_factor = 10

unfoldable pub set_cooldown : ℕ → Text → FairQueue → FairQueue
set_cooldown now key q =
    if is_empty key || q.cooldown_dur == 0
    then q
    else record q { cooldowns = put key (now + q.cooldown_dur) q.cooldowns }

-- eventHistory[key], which is nil for a missing key
abbrev pub history_of : Text → FairQueue → List ℕ
history_of key q = elim (q.event_history key) [ none ↦ [] | some ts ↦ ts ]

-- The events of the window, with the current one.
unfoldable pub trim_history : ℕ → List ℕ → List ℕ
unfolding keep
trim_history now history = keep (λ t. ltb (now - adaptive_freq_window) t) history ++ now ∷ []

unfoldable pub adaptive_cooldown : ℕ → ℕ → ℕ
adaptive_cooldown events sync_duration =
    let freq_factor =
      if ltb adaptive_max_freq_factor events then adaptive_max_freq_factor else events in
    let freq_cooldown = adaptive_base_cooldown * freq_factor in
    let duration_cooldown = sync_duration * 3 / 2 in
    let cooldown =
      if ltb freq_cooldown duration_cooldown then duration_cooldown else freq_cooldown in
    if ltb adaptive_max_cooldown cooldown then adaptive_max_cooldown else cooldown

unfoldable pub set_adaptive_cooldown : ℕ → Text → ℕ → FairQueue → FairQueue
unfolding trim_history adaptive_cooldown
set_adaptive_cooldown now key sync_duration q =
    let trimmed = trim_history now (history_of key q) in
    if is_empty key then q else record q {
      event_history = put key trimmed q.event_history;
      cooldowns = put key (now + adaptive_cooldown (length trimmed) sync_duration) q.cooldowns;
    }
