-- ===== src/Supervisor/Stderr.antt =====
-- internal/sync/liveness.go: the bounded capture of rclone's stderr.
use selective_mirror.Base.{
  ℕ, ◌-◌, ◌*◌, ◌≤◌, ◌<◌, ◌≡◌, refl, sym, ap, ap₂, ◌∙◌, Bool, true, false, List, [], ◌∷◌, ◌++◌,
  append_assoc, append-nil, arith, ltb, leb, ◌==◌, if◌then◌else◌, leb→le, not_leb→lt, not_ltb→le,
  ==_iff, if_cases, length, Text, take, take_all, length-take-le, take-append, length-take_short,
  length-take-le_whole, take_nothing, same-take,
}

pub record BoundedStderr : Type 0 where
  pub buf : Text
  pub cap : ℕ
  pub truncated : Bool

abbrev pub stderr_buf_cap : ℕ
stderr_buf_cap = 64 * 1024

unfoldable pub new_bounded_stderr : BoundedStderr
new_bounded_stderr = record { buf = []; cap = stderr_buf_cap; truncated = false }

-- The buffer after a write, and the count that it returns.
unfoldable pub write : Text → BoundedStderr → BoundedStderr × ℕ
unfolding take
write p b =
    if b.cap == 0
    then (record b { buf = b.buf ++ p }, length p)
    else if leb b.cap (length b.buf)
    then (record b { truncated = true }, length p)
    else let remaining = b.cap - length b.buf in
      if ltb remaining (length p)
      then (record b { buf = b.buf ++ take remaining p; truncated = true }, length p)
      else (record b { buf = b.buf ++ p }, length p)

-- The writes of a run, in order.
unfoldable pub write_all : List Text → BoundedStderr → BoundedStderr
unfolding write
write_all [] b = b
write_all (p ∷ ps) b = write_all ps (write p b).0

abbrev pub concat : List Text → Text
concat [] = []
concat (p ∷ ps) = p ++ concat ps

-- The buffer holds the start of what was written so far, and all of it unless it says otherwise.
abbrev pub Holds : BoundedStderr → Text → Type 0
Holds b written =
    (b.cap ≡ stderr_buf_cap)
    × ((b.buf ≡ take stderr_buf_cap written) × (b.truncated ≡ false → b.buf ≡ written))

-- What a write does to a buffer that holds `written`: one that is full, one that has room.
module _ (p : Text) (b : BoundedStderr) (written : Text) (holds : Holds b written) where
  len-buf : length b.buf ≡ length (take stderr_buf_cap written)
  len-buf = ap length holds.1.0

  full : stderr_buf_cap ≤ length b.buf → b.buf ≡ take stderr_buf_cap (written ++ p)
  full h =
      let none_left =
        take_nothing (stderr_buf_cap - length written) p
          (omega (arith, len-buf, length-take-le_whole stderr_buf_cap written)) in
      holds.1.0
      ∙ sym (append-nil (take stderr_buf_cap written))
      ∙ ap (λ r. take stderr_buf_cap written ++ r) (sym none_left)
      ∙ sym (take-append stderr_buf_cap written p)

  roomy :
      length b.buf < stderr_buf_cap
      → b.buf ++ take (stderr_buf_cap - length b.buf) p ≡ take stderr_buf_cap (written ++ p)
  roomy h =
      let whole = length-take_short stderr_buf_cap written (omega (arith, len-buf)) in
      ap₂ (λ r s. r ++ s) holds.1.0
        (same-take (stderr_buf_cap - length b.buf) (stderr_buf_cap - length written) p
          (omega (arith, len-buf, whole)))
      ∙ sym (take-append stderr_buf_cap written p)

  write-Holds : Holds (write p b).0 (written ++ p)
  unfolding write
  write-Holds =
      let Good = λ (r : BoundedStderr × ℕ). Holds r.0 (written ++ p) in
      if_cases Good (b.cap == 0) _ _
        (λ zero_cap. absurd (omega (arith, holds.0, (==_iff b.cap 0).0 zero_cap)))
        (λ _.
          if_cases Good (leb b.cap (length b.buf)) _ _
            (λ no_room. (
              holds.0,
              (
                full (omega (arith, holds.0, leb→le b.cap (length b.buf) no_room)),
                λ h. absurd (cc),
              ),
            ))
            (λ room.
              if_cases Good (ltb (b.cap - length b.buf) (length p)) _ _
                (λ over. (
                  holds.0,
                  (
                    ap (λ n. b.buf ++ take (n - length b.buf) p) holds.0
                        ∙ roomy (omega (arith, holds.0, not_leb→lt b.cap (length b.buf) room)),
                    λ h. absurd (cc),
                  ),
                ))
                (λ fits. (
                  holds.0,
                  (
                    ap (λ r. b.buf ++ r)
                          (sym (
                            take_all (stderr_buf_cap - length b.buf) p (
                              omega (
                                arith,
                                holds.0,
                                not_ltb→le (b.cap - length b.buf) (length p) fits,
                              ))))
                        ∙ roomy (omega (arith, holds.0, not_leb→lt b.cap (length b.buf) room)),
                    λ h. ap (λ r. r ++ p) (holds.1.1 h),
                  ),
                ))))

pub write_all-Holds :
    (ps : List Text) (b : BoundedStderr) (written : Text)
    → Holds b written
    → Holds (write_all ps b) (written ++ concat ps)
unfolding write_all
write_all-Holds [] b written h = rw (append-nil written) h
write_all-Holds (p ∷ ps) b written h =
    rw (← append_assoc written p (concat ps))
      (write_all-Holds ps (write p b).0 (written ++ p) (write-Holds p b written h))

-- However rclone's stderr is cut into writes, the capture keeps its first 64 KB, never more, and
-- loses nothing unless it is marked as truncated.
pub write_all-keeps_start :
    (ps : List Text)
    → let b = write_all ps new_bounded_stderr in
      (b.buf ≡ take stderr_buf_cap (concat ps))
      × ((length b.buf ≤ stderr_buf_cap) × (b.truncated ≡ false → b.buf ≡ concat ps))
unfolding new_bounded_stderr
write_all-keeps_start ps =
    let (h, (is_start, is_all)) =
      write_all-Holds ps new_bounded_stderr []
        (refl, (sym (take_all stderr_buf_cap [] (omega arith)), λ _. refl)) in
    (
      is_start,
      (omega (arith, ap length is_start, length-take-le stderr_buf_cap (concat ps)), is_all),
    )
