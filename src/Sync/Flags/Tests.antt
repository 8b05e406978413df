-- ===== src/Sync/Flags/Tests.antt =====
-- Command lines of rclone, and the theorems about their flags at concrete inputs.
use selective_mirror.Base.{◌≡◌, refl, [], ◌∷◌, any, codes, same}
use selective_mirror.Samples.{notes, defaults}
use selective_mirror.Sync.Flags.{delete_flags}

deletes_plainly :
    delete_flags (record defaults { rclone_extra_flags = codes "--timeout=5s" ∷ [] }) notes
    ≡ codes "--retries"
      ∷ codes "1"
      ∷ codes "--contimeout"
      ∷ codes "30s"
      ∷ codes "--stats"
      ∷ codes "0"
      ∷ codes "--log-level"
      ∷ codes "NOTICE"
      ∷ codes "--skip-links"
      ∷ codes "--timeout=5s"
      ∷ []
unfolding delete_flags any same
deletes_plainly = refl
