-- ===== src/Sync/Task/Stable.antt =====
-- internal/sync/sync.go: which files quiesceFile calls stable.
use selective_mirror.Base.{
  ℕ, ◌<◌, ◌≡◌, refl, sym, ap, ◌∙◌, ◌⊎◌, inl, inr, Bool, true, false, not, ◌||◌, Option, none, some,
  arith, ◌==◌, if◌then◌else◌, if_cases, Bool-cases,
}
use selective_mirror.Sync.Upload.{Quiesced, stable, still_changing, gone_or_locked}
use selective_mirror.Sync.Task.{
  FileInfo, Looks, followed, opens_in_three, settled, settle_followed, quiesce_file,
}

-- The first look and the second one, which is there, show this size and time, and the file could be
-- opened.
abbrev IsSettled : Looks → FileInfo → ℕ → ℕ → Type 0
IsSettled looks info size mtime =
    (info.is_regular ≡ true)
    × (info.size ≡ size)
    × (info.mtime ≡ mtime)
    × ((later : FileInfo) × (looks.second ≡ some later)
        × (later.size ≡ size)
        × (later.mtime ≡ mtime))
    × ((attempt : ℕ) × (attempt < 3) × (looks.opens attempt ≡ true))

-- Where the file that was looked at comes from.
abbrev IsDirect : Bool → Looks → FileInfo → Type 0
IsDirect reject looks info =
    ((looks.first ≡ some info) × (info.is_link ≡ false))
    ⊎ ((reject ≡ false) × (looks.target ≡ some info) × (info.is_dir ≡ false))

abbrev pub IsQuiet : Bool → Looks → Quiesced → Type 0
IsQuiet reject looks (stable size mtime) =
    (info : FileInfo) × IsDirect reject looks info × IsSettled looks info size mtime
IsQuiet reject looks still_changing = Unit {0}
IsQuiet reject looks gone_or_locked = Unit {0}

attempt_of :
    (opens : ℕ → Bool)
    → opens_in_three opens ≡ true
    → (attempt : ℕ) × (attempt < 3) × (opens attempt ≡ true)
unfolding opens_in_three
attempt_of opens h = elim (Bool-cases (opens 0)) [
  | inl zeroth ↦ (0, omega arith, zeroth)
  | inr no_zeroth ↦ elim (Bool-cases (opens 1)) [
    | inl first ↦ (1, omega arith, first)
    | inr no_first ↦ (2, omega arith, ground (arith, h, no_zeroth, no_first))
  ]
]

settled-IsQuiet :
    (reject : Bool) (looks : Looks) (info : FileInfo) (second : Option FileInfo)
    → looks.second ≡ second
    → IsDirect reject looks info
    → info.is_regular ≡ true
    → IsQuiet reject looks (settled info second looks.opens)
unfolding settled
settled-IsQuiet reject looks info none seen direct regular = tt
settled-IsQuiet reject looks info (some later) seen direct regular =
    if_cases (IsQuiet reject looks)
      (not (info.size == later.size) || not (info.mtime == later.mtime)) still_changing
      (if opens_in_three looks.opens then stable later.size later.mtime else gone_or_locked)
      (λ _. tt)
      (λ unchanged.
        if_cases (IsQuiet reject looks) (opens_in_three looks.opens) (stable later.size later.mtime)
          gone_or_locked
          (λ opened. (
            info,
            direct,
            (
              regular,
              ground (arith, unchanged),
              ground (arith, unchanged),
              (later, seen, refl, refl),
              attempt_of looks.opens opened,
            ),
          ))
          (λ _. tt))

settle-IsQuiet :
    (reject : Bool) (looks : Looks) (o : Option FileInfo)
    → ((info : FileInfo) → o ≡ some info → IsDirect reject looks info)
    → IsQuiet reject looks (settle_followed o looks)
settle-IsQuiet reject looks none direct = tt
settle-IsQuiet reject looks (some info) direct =
    if_cases (IsQuiet reject looks) info.is_regular (settled info looks.second looks.opens)
      gone_or_locked
      (λ regular. settled-IsQuiet reject looks info looks.second refl (direct info refl) regular)
      (λ _. tt)

followed-IsDirect :
    (reject : Bool) (looks : Looks) (first target : Option FileInfo)
    → looks.first ≡ first
    → looks.target ≡ target
    → (info : FileInfo) → followed reject first target ≡ some info
    → IsDirect reject looks info
unfolding followed
followed-IsDirect reject looks none target e t info h = absurd (cc h)
followed-IsDirect reject looks (some i) none e t info h = elim (Bool-cases i.is_link) [
  | inl link ↦ absurd (ground (arith, h, link))
  | inr plain ↦
      let is_info : i ≡ info = ground (arith, h, plain) in
      inl (e ∙ ap (λ x. some x) is_info, sym (ap (λ (x : FileInfo). x.is_link) is_info) ∙ plain)
]
followed-IsDirect reject looks (some i) (some g) e t info h = elim (Bool-cases i.is_link) [
  | inl link ↦
      let is_info : g ≡ info = ground (arith, h, link) in
      inr (
        ground (arith, h, link),
        t ∙ ap (λ x. some x) is_info,
        sym (ap (λ (x : FileInfo). x.is_dir) is_info) ∙ ground (arith, h, link),
      )
  | inr plain ↦
      let is_info : i ≡ info = ground (arith, h, plain) in
      inl (e ∙ ap (λ x. some x) is_info, sym (ap (λ (x : FileInfo). x.is_link) is_info) ∙ plain)
]

-- Where quiesceFile calls a file stable, with a size and a time, it has looked at a regular file that
-- had this size and time at both looks, and opened it at one of three attempts; the file is the one at
-- the path, no link, or the target of a link there, no directory, and then links are not rejected.
pub quiesce_file-IsQuiet :
    (reject : Bool) (looks : Looks) → IsQuiet reject looks (quiesce_file reject looks)
unfolding quiesce_file
quiesce_file-IsQuiet reject looks =
    settle-IsQuiet reject looks (followed reject looks.first looks.target)
      (followed-IsDirect reject looks looks.first looks.target refl refl)
