-- ===== src/Queue/Waits.antt =====
-- How a round of Dequeue that takes no task ends: by stopping, by a wait for a signal, or by a
-- timer, and never by going round at once.
use selective_mirror.Base.{
  ℕ, ◌<◌, ◌≡◌, refl, ◌≢◌, ◌⊎◌, inl, inr, Bool, true, false, not, ◌&&◌, none, List, [], ◌∷◌, arith,
  ◌==◌, Bool-cases, any, All, is_empty,
}
use selective_mirror.Queue.{FairQueue, Task, is_delete}
use selective_mirror.Queue.Dequeue.{
  Round, taken, stopped, wait_signal, wait_until, spin, poll, scan, Scan, found, nothing,
  after_scan, passed_over,
}
use selective_mirror.Queue.First.{IsPassedUntil, scan-Least, Least}

-- The round on the scan, where the first test of `poll` has let it through.
poll-after_scan :
    (now : ℕ) (q : FairQueue)
    → (is_empty q.items && not q.closed) ≡ false
    → poll now false q ≡ after_scan q (scan now q 0 q.items)
unfolding poll
poll-after_scan now q h = ground arith

least : (now : ℕ) (q : FairQueue) → Least now q 0 q.items (scan now q 0 q.items)
least now q = scan-Least now q 0 q.items (λ h. absurd (h refl))

is_empty-false {ℓ} : {A : Type ℓ} (xs : List A) → is_empty xs ≡ false → xs ≢ []
unfolding is_empty
is_empty-false [] h = cc
is_empty-false (x ∷ xs) h = λ e. cc

is_empty-true {ℓ} : {A : Type ℓ} (xs : List A) → is_empty xs ≡ true → xs ≡ []
unfolding is_empty
is_empty-true [] h = refl
is_empty-true (x ∷ xs) h = cc

-- What a round reports is right about the queue that it leaves as it was.
abbrev pub Reports : ℕ → Bool → FairQueue → Round → Type 0
Reports now c q (taken t q') = c ≡ false
Reports now c q stopped = (c ≡ true) ⊎ ((q.closed ≡ true) × (q.items ≡ []))
Reports now c q wait_signal = (c ≡ false) × (q.closed ≡ false) × (q.items ≡ [])
Reports now c q (wait_until e) =
    (c ≡ false) × (q.items ≢ []) × (now < e) × All (IsPassedUntil now q e) q.items
Reports now c q spin = ⊥

after_scan-Reports :
    (now : ℕ) (q : FairQueue) (s : Scan)
    → (is_empty q.items && not q.closed) ≡ false
    → Least now q 0 q.items s
    → Reports now false q (after_scan q s)
unfolding after_scan
after_scan-Reports now q (found t rest) h l = refl
after_scan-Reports now q (nothing e) h (all, below, ahead, some_item) =
    elim (Bool-cases (is_empty q.items)) [
      | inl empty ↦
          let closed : q.closed ≡ true = ground arith in
          let over : (q.closed && is_empty q.items) ≡ true = ground arith in
          rw over (inr (closed, is_empty-true q.items empty))
      | inr full ↦
          let nz = some_item (is_empty-false q.items full) in
          let test : (e == 0) ≡ false = ground (arith, nz) in
          let busy : (q.closed && is_empty q.items) ≡ false = ground arith in
          rw (busy, test) (refl, is_empty-false q.items full, ahead nz, all)
    ]

poll-cancelled : (now : ℕ) (q : FairQueue) → poll now true q ≡ stopped
unfolding poll
poll-cancelled now q = ground arith

poll-idle :
    (now : ℕ) (q : FairQueue)
    → (is_empty q.items && not q.closed) ≡ true
    → poll now false q ≡ wait_signal
unfolding poll
poll-idle now q h = ground arith

nonempty : (items : List Task) → any is_delete items ≡ true → items ≢ []
unfolding any
nonempty [] h = λ _. cc
nonempty (t ∷ items) h = λ e. cc

stopped_empty :
    (q : FairQueue) → (false ≡ true) ⊎ ((q.closed ≡ true) × (q.items ≡ [])) → q.items ≡ []
stopped_empty q (inl e) = cc
stopped_empty q (inr h) = h.1

delete-free : (now : ℕ) (q : FairQueue) (t : Task) → is_delete t ≡ true → passed_over now q t ≡ none
unfolding passed_over
delete-free now q t h = ground arith

delete_free :
    (now e : ℕ) (q : FairQueue) (items : List Task)
    → any is_delete items ≡ true
    → All (IsPassedUntil now q e) items
    → ⊥
unfolding any
delete_free now e q [] h all = cc
delete_free now e q (t ∷ items) h ((u, p, le), all) = elim (Bool-cases (is_delete t)) [
  | inl d ↦ cc (delete-free now q t d)
  | inr n ↦ delete_free now e q items (ground arith) all
]

-- Every round of Dequeue on a queue, live or cancelled, ends in a return or a wait, and reports
-- rightly: it stops only when cancelled, or when the queue is closed and drained; it waits for a
-- signal only while the queue is open and empty; it sets its timer to a moment ahead, before which
-- no queued task passes the tests.
pub poll-Reports : (now : ℕ) (c : Bool) (q : FairQueue) → Reports now c q (poll now c q)
poll-Reports now true q = rw (poll-cancelled now q) (inl refl)
poll-Reports now false q = elim (Bool-cases (is_empty q.items && not q.closed)) [
  | inl idle ↦
      let empty : is_empty q.items ≡ true = ground arith in
      let open_ : q.closed ≡ false = ground arith in
      rw (poll-idle now q idle) (refl, open_, is_empty-true q.items empty)
  | inr busy ↦
      rw (poll-after_scan now q busy)
        (after_scan-Reports now q (scan now q 0 q.items) busy (least now q))
]

-- A delete in the queue lets no round of a live context wait: some task is taken at once, whatever
-- the backoffs and the cooldowns.
pub poll-takes_delete :
    (now : ℕ) (q : FairQueue)
    → any is_delete q.items ≡ true
    → (t : Task) × (q' : FairQueue) × (poll now false q ≡ taken t q')
poll-takes_delete now q h = by_round (poll now false q) refl (poll-Reports now false q)
  where
    by_round :
        (r : Round)
        → poll now false q ≡ r
        → Reports now false q r
        → (t : Task) × (q' : FairQueue) × (poll now false q ≡ taken t q')
    by_round (taken t q') e rep = (t, q', e)
    by_round stopped e rep = absurd (nonempty q.items h (stopped_empty q rep))
    by_round wait_signal e rep = absurd (nonempty q.items h rep.2)
    by_round (wait_until e') e rep = absurd (delete_free now e' q q.items h rep.3)
    by_round spin e rep = absurd rep
