-- ===== src/Sync/Ghosts/Newest.antt =====
-- What the deduplication of the remote listing keeps (internal/sync/sync.go).
use selective_mirror.Base.{
  ℕ, suc, ◌+◌, ◌<◌, ◌≡◌, refl, sym, ap, subst, ◌∙◌, ◌⊎◌, inl, inr, Bool, true, false, Option, none,
  some, List, [], ◌∷◌, ◌++◌, append_assoc, append-nil, arith, ◌==◌, ==_iff, if_cases, length,
  length-append, All, Text, same, same_iff,
}
use selective_mirror.Sync.Ghosts.{RemoteFile}
use selective_mirror.Sync.Ghosts.Listing.{
  newer_times, remote_file_newer, path_of, winner, merge_file, merge_files,
  deduplicate_remote_files,
}

newer_times_trans :
    (t u v : Option ℕ) (a b c : ℕ)
    → newer_times t u a b ≡ true
    → newer_times u v b c ≡ true
    → newer_times t v a c ≡ true
newer_times_trans none none none a b c h k = ground arith
newer_times_trans none none (some z) a b c h k = absurd (cc)
newer_times_trans none (some y) v a b c h k = absurd (cc)
newer_times_trans (some x) none none a b c h k = refl
newer_times_trans (some x) none (some z) a b c h k = absurd (cc)
newer_times_trans (some x) (some y) none a b c h k = refl
newer_times_trans (some x) (some y) (some z) a b c h k = ground arith

newer_times-total :
    (t u : Option ℕ) (a b : ℕ) → newer_times t u a b ≡ false → newer_times u t b a ≡ true
newer_times-total none none a b h = ground arith
newer_times-total none (some y) a b h = refl
newer_times-total (some x) none a b h = absurd (cc)
newer_times-total (some x) (some y) a b h = ground arith

newer_times_refl : (t : Option ℕ) (a : ℕ) → newer_times t t a a ≡ true
newer_times_refl none a = ground arith
newer_times_refl (some x) a = ground arith

module _ (time_of : Text → Option ℕ) where
  abbrev newer : RemoteFile → RemoteFile → Bool
  newer = remote_file_newer time_of

  -- The entry has the file's path and is at least as new.
  abbrev Beats : RemoteFile → RemoteFile → Type 0
  Beats e file = (path_of e ≡ path_of file) × (newer e file ≡ true)

  -- Some entry beats the file.
  abbrev pub Covers : List RemoteFile → RemoteFile → Type 0
  Covers [] file = ⊥
  Covers (e ∷ best) file =
      ((path_of e ≡ path_of file) × (remote_file_newer time_of e file ≡ true)) ⊎ Covers best file

  -- No two entries have the same path.
  abbrev pub IsUnique : List RemoteFile → Type 0
  IsUnique [] = Unit
  IsUnique (e ∷ best) =
      All (λ (f : RemoteFile). same (path_of e) (path_of f) ≡ false) best × IsUnique best

  Beats-refl : (file : RemoteFile) → Beats file file
  unfolding remote_file_newer
  Beats-refl file = (refl, newer_times_refl (time_of file.mod_time) file.size)

  Beats-trans : (d e f : RemoteFile) → Beats d e → Beats e f → Beats d f
  unfolding remote_file_newer
  Beats-trans d e f (de, dn) (ef, en) = (
    de ∙ ef,
    newer_times_trans (time_of d.mod_time) (time_of e.mod_time) (time_of f.mod_time) d.size e.size
        f.size dn en,
  )

  -- The winner beats both.
  winner-Beats :
      (entry file : RemoteFile)
      → path_of entry ≡ path_of file
      → Beats (winner time_of entry file) entry × Beats (winner time_of entry file) file
  unfolding remote_file_newer
  winner-Beats entry file e =
      if_cases (λ (w : RemoteFile). Beats w entry × Beats w file) (newer entry file) entry file
        (λ older. (Beats-refl entry, (e, older)))
        (λ younger. (
          (
            sym e,
            newer_times-total (time_of entry.mod_time) (time_of file.mod_time) entry.size file.size
                younger,
          ),
          Beats-refl file,
        ))

  -- A file that is merged is covered, and so is what was covered before.
  merge_file-Covers :
      (file : RemoteFile) (best : List RemoteFile) → Covers (merge_file time_of file best) file
  unfolding merge_file
  merge_file-Covers file [] = inl (Beats-refl file)
  merge_file-Covers file (entry ∷ best) =
      if_cases (λ r. Covers r file) (same (path_of entry) (path_of file)) _ _
        (λ hit. inl ((winner-Beats entry file ((same_iff (path_of entry) (path_of file)).0 hit)).1))
        (λ _. inr (merge_file-Covers file best))

  merge_file-still_Covers :
      (file : RemoteFile) (best : List RemoteFile) (g : RemoteFile)
      → Covers best g
      → Covers (merge_file time_of file best) g
  unfolding merge_file
  merge_file-still_Covers file [] g h = elim h [ ]
  merge_file-still_Covers file (entry ∷ best) g h =
      if_cases (λ r. Covers r g) (same (path_of entry) (path_of file)) _ _
        (λ hit. elim h [
          | inl beats ↦ inl (
              Beats-trans (winner time_of entry file) entry g
                (winner-Beats entry file ((same_iff (path_of entry) (path_of file)).0 hit)).0 beats)
          | inr later ↦ inr later
        ])
        (λ _. elim h [
          | inl beats ↦ inl beats
          | inr later ↦ inr (merge_file-still_Covers file best g later)
        ])

  -- A path that differs from those of the entries and of the file differs from all after the merge.
  merge_file-apart :
      (p : Text) (file : RemoteFile) (best : List RemoteFile)
      → same p (path_of file) ≡ false
      → All (λ (f : RemoteFile). same p (path_of f) ≡ false) best
      → All (λ (f : RemoteFile). same p (path_of f) ≡ false) (merge_file time_of file best)
  unfolding merge_file
  merge_file-apart p file [] h hs = (h, tt)
  merge_file-apart p file (entry ∷ best) h (here, hs) =
      let P = λ (f : RemoteFile). same p (path_of f) ≡ false in
      if_cases (All P) (same (path_of entry) (path_of file)) _ _
        (λ _. (if_cases P (newer entry file) entry file (λ _. here) (λ _. h), hs))
        (λ _. (here, merge_file-apart p file best h hs))

  merge_file-IsUnique :
      (file : RemoteFile) (best : List RemoteFile)
      → IsUnique best
      → IsUnique (merge_file time_of file best)
  unfolding merge_file
  merge_file-IsUnique file [] h = (tt, tt)
  merge_file-IsUnique file (entry ∷ best) (apart, rest) =
      if_cases IsUnique (same (path_of entry) (path_of file)) _ _
        (λ hit.
          let e = (winner-Beats entry file ((same_iff (path_of entry) (path_of file)).0 hit)).0.0 in
          (
            subst (λ p. All (λ (f : RemoteFile). same p (path_of f) ≡ false) best) (sym e) apart,
            rest,
          ))
        (λ miss. (
          merge_file-apart (path_of entry) file best miss apart,
          merge_file-IsUnique file best rest,
        ))

  -- Either the file is new and goes to the end, or the list keeps its length.
  merge_file-grows :
      (file : RemoteFile) (best : List RemoteFile)
      → (merge_file time_of file best ≡ best ++ file ∷ [])
        ⊎ (length (merge_file time_of file best) ≡ length best)
  unfolding merge_file
  merge_file-grows file [] = inl refl
  merge_file-grows file (entry ∷ best) =
      if_cases (λ r. (r ≡ (entry ∷ best) ++ file ∷ []) ⊎ (length r ≡ length (entry ∷ best)))
        (same (path_of entry) (path_of file)) _ _ (λ _. inr refl)
        (λ _. elim (merge_file-grows file best) [
          | inl grown ↦ inl (ap (λ r. entry ∷ r) grown)
          | inr kept ↦ inr (ap suc kept)
        ])

  -- The merge of a list is as long as its parts only if it appends it.
  merge_files-grows :
      (files best : List RemoteFile)
      → (merge_files time_of files best ≡ best ++ files)
        ⊎ (length (merge_files time_of files best) < length best + length files)
  unfolding merge_files
  merge_files-grows [] best = inl (sym (append-nil best))
  merge_files-grows (file ∷ files) best =
      let best' = merge_file time_of file best in
      elim (merge_file-grows file best) [
        | inl grown ↦ elim (merge_files-grows files best') [
          | inl appended ↦
              inl (appended ∙ ap (λ r. r ++ files) grown ∙ append_assoc best (file ∷ []) files)
          | inr fewer ↦ inr (omega (arith, fewer, ap length grown, length-append best (file ∷ [])))
        ]
        | inr kept ↦ elim (merge_files-grows files best') [
          | inl appended ↦ inr (omega (arith, ap length appended, length-append best' files, kept))
          | inr fewer ↦ inr (omega (arith, fewer, kept))
        ]
      ]

  -- The early return gives what the merge gives.
  deduplicate-merge :
      (files : List RemoteFile)
      → deduplicate_remote_files time_of files ≡ merge_files time_of files []
  unfolding deduplicate_remote_files
  deduplicate-merge files =
      let best = merge_files time_of files [] in
      if_cases (λ r. r ≡ best) (length best == length files) files best
        (λ as_long. elim (merge_files-grows files []) [
          | inl appended ↦ sym appended
          | inr fewer ↦
              absurd (omega (arith, fewer, (==_iff (length best) (length files)).0 as_long))
        ])
        (λ _. refl)

  -- What the merge of a list keeps of the entries before it, and makes of the list.
  merge_files-keeps :
      (files best : List RemoteFile)
      → IsUnique best
      → IsUnique (merge_files time_of files best)
        × (((g : RemoteFile) → Covers best g → Covers (merge_files time_of files best) g)
            × All (Covers (merge_files time_of files best)) files)
  unfolding merge_files
  merge_files-keeps [] best h = (h, (λ g k. k, tt))
  merge_files-keeps (file ∷ files) best h =
      let best' = merge_file time_of file best in
      let (unique, (before, all)) =
        merge_files-keeps files best' (merge_file-IsUnique file best h) in
      (
        unique,
        (
          λ g k. before g (merge_file-still_Covers file best g k),
          (before file (merge_file-Covers file best), all),
        ),
      )

  -- Every entry comes from the list.
  merge_file-All :
      (P : RemoteFile → Type 0) (file : RemoteFile) (best : List RemoteFile)
      → P file
      → All P best
      → All P (merge_file time_of file best)
  unfolding merge_file
  merge_file-All P file [] p h = (p, tt)
  merge_file-All P file (entry ∷ best) p (q, h) =
      if_cases (All P) (same (path_of entry) (path_of file)) _ _
        (λ _. (if_cases P (newer entry file) entry file (λ _. q) (λ _. p), h))
        (λ _. (q, merge_file-All P file best p h))

  merge_files-All :
      (P : RemoteFile → Type 0) (files best : List RemoteFile)
      → All P files
      → All P best
      → All P (merge_files time_of files best)
  unfolding merge_files
  merge_files-All P [] best h k = k
  merge_files-All P (file ∷ files) best (p, h) k =
      merge_files-All P files (merge_file time_of file best) h (merge_file-All P file best p k)

  -- The listing without duplicates has each path once, and for each file of the listing an entry with
  -- its path that is at least as new: a later time, or the same time and no smaller size. Whatever
  -- holds of all files of the listing holds of all its entries.
  pub deduplicate_remote_files-Covers :
      (files : List RemoteFile)
      → let kept = deduplicate_remote_files time_of files in
        IsUnique kept
        × (All (Covers kept) files × ((P : RemoteFile → Type 0) → All P files → All P kept))
  deduplicate_remote_files-Covers files =
      let (unique, (_, all)) = merge_files-keeps files [] tt in
      subst
        (λ kept.
          IsUnique kept
          × (All (Covers kept) files × ((P : RemoteFile → Type 0) → All P files → All P kept)))
        (sym (deduplicate-merge files)) (unique, (all, λ P h. merge_files-All P files [] h tt))
