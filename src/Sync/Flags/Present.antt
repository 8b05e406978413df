-- ===== src/Sync/Flags/Present.antt =====
-- Which flags stand on an rclone command line (internal/sync/sync.go).
use selective_mirror.Base.{
  ◌≡◌, refl, sym, ap, subst, ◌∙◌, ◌⊎◌, inl, inr, Bool, true, not, ◌&&◌, ◌||◌, List, [], ◌∷◌, ◌++◌,
  append_assoc, append-nil, arith, ◌==◌, if◌then◌else◌, ==_iff, if_cases, if_true, if_false,
  Bool-cases, any, any-append, Text, codes, same, same_refl, same_iff, is_empty, has_prefix,
  has_prefix-append, member,
}
use selective_mirror.Config.{Global, Project, rclone_args}
use selective_mirror.Sync.Flags.{
  equals_sign, FlagInjection, before_equals, names_of, flag_words, inject_flags_avoiding_collision,
  common_candidates, flags_with, common_flags, is_transfer_verb, flag_present, args_head,
  supervised_args,
}

before_equals-splits :
    (arg : Text)
    → (arg ≡ before_equals arg)
      ⊎ ((rest : Text) × (arg ≡ before_equals arg ++ (equals_sign ∷ rest)))
unfolding before_equals
before_equals-splits [] = inl refl
before_equals-splits (c ∷ cs) =
    if_cases (λ (r : Text). (c ∷ cs ≡ r) ⊎ ((rest : Text) × (c ∷ cs ≡ r ++ (equals_sign ∷ rest))))
      (c == equals_sign) [] (c ∷ before_equals cs)
      (λ hit. inr (cs, ap (λ d. d ∷ cs) ((==_iff c equals_sign).0 hit)))
      (λ _. elim (before_equals-splits cs) [
        | inl e ↦ inl (ap (λ r. c ∷ r) e)
        | inr (rest, e) ↦ inr (rest, ap (λ r. c ∷ r) e)
      ])

-- An argument whose name is `name` is it, or begins with it and `=`.
named-present :
    (name arg : Text)
    → before_equals arg ≡ name
    → (same arg name || has_prefix (name ++ (equals_sign ∷ [])) arg) ≡ true
named-present name arg e = elim (before_equals-splits arg) [
  | inl whole ↦ ground (arith, (same_iff arg name).1 (whole ∙ e))
  | inr (rest, cut) ↦
      let sign = name ++ (equals_sign ∷ []) in
      let split =
        cut
        ∙ ap (λ n. n ++ (equals_sign ∷ rest)) e
        ∙ sym (append_assoc name (equals_sign ∷ []) rest) in
      let prefixed : has_prefix sign arg ≡ true =
        ap (has_prefix sign) split ∙ has_prefix-append sign rest in
      ground arith
]

names_of-present :
    (name : Text) (args : List Text)
    → member name (names_of args) ≡ true
    → flag_present name args ≡ true
unfolding names_of member flag_present any
names_of-present name [] h = cc
names_of-present name (arg ∷ args) h =
    let ih = names_of-present name args in
    if_cases (λ (r : List Text). member name r ≡ true → flag_present name (arg ∷ args) ≡ true)
      (has_prefix (codes "--") arg) (before_equals arg ∷ names_of args) (names_of args)
      (λ _. λ k. elim (Bool-cases (same (before_equals arg) name)) [
        | inl hit ↦
            ground (arith, named-present name arg ((same_iff (before_equals arg) name).0 hit))
        | inr miss ↦ ground (arith, ih (ground (arith, k)))
      ])
      (λ _. λ k. ground (arith, ih k)) h

flag_present-append :
    (name : Text) (xs ys : List Text)
    → flag_present name (xs ++ ys) ≡ (flag_present name xs || flag_present name ys)
unfolding flag_present
flag_present-append name xs ys =
    any-append (λ a. same a name || has_prefix (name ++ (equals_sign ∷ [])) a) xs ys

words-present : (c : FlagInjection) → flag_present c.flag (flag_words c) ≡ true
unfolding flag_present any
words-present c =
    if_cases (λ (ws : List Text). flag_present c.flag ws ≡ true) (is_empty c.value) _ _
      (λ _. ground (arith, same_refl c.flag)) (λ _. ground (arith, same_refl c.flag))

-- The user's lists give a flag.
abbrev pub given : Text → List (List Text) → Bool
given name = any (λ extras. member name (names_of extras))

-- The injector adds the words of exactly those candidates that the user has not given, in order.
abbrev pub offered : List FlagInjection → List (List Text) → List Text
offered [] extras = []
offered (c ∷ cs) extras =
    if given c.flag extras then offered cs extras else flag_words c ++ offered cs extras

inject-offered :
    (base : List Text) (cs : List FlagInjection) (extras : List (List Text))
    → inject_flags_avoiding_collision base cs extras ≡ base ++ offered cs extras
unfolding inject_flags_avoiding_collision
inject-offered base [] extras = sym (append-nil base)
inject-offered base (c ∷ cs) extras =
    if_cases (λ (r : List Text). inject_flags_avoiding_collision base (c ∷ cs) extras ≡ base ++ r)
      (given c.flag extras) (offered cs extras) (flag_words c ++ offered cs extras)
      (λ hit. if_true (given c.flag extras) _ _ hit ∙ inject-offered base cs extras)
      (λ miss.
        if_false (given c.flag extras) _ _ miss
        ∙ inject-offered (base ++ flag_words c) cs extras
        ∙ append_assoc base (flag_words c) (offered cs extras))

-- A candidate that is named is on the command line: offered, or given by the user.
offered-present :
    (name : Text) (cs : List FlagInjection) (extras : List (List Text))
    → any (λ (c : FlagInjection). same c.flag name) cs ≡ true
    → (flag_present name (offered cs extras) || given name extras) ≡ true
unfolding any
offered-present name [] extras h = absurd (cc)
offered-present name (c ∷ cs) extras h =
    let P = λ (r : List Text). (flag_present name r || given name extras) ≡ true in
    let later = offered cs extras in
    let joined = flag_present-append name (flag_words c) later in
    elim (Bool-cases (same c.flag name)) [
      | inl hit ↦
          let e = (same_iff c.flag name).0 hit in
          let own : flag_present name (flag_words c) ≡ true =
            subst (λ n. flag_present n (flag_words c) ≡ true) e (words-present c) in
          if_cases P (given c.flag extras) later (flag_words c ++ later)
            (λ has. ground (arith, subst (λ n. given n extras ≡ true) e has))
            (λ _. ground (arith, own, joined))
      | inr miss ↦
          let ih = offered-present name cs extras (ground (arith, h)) in
          if_cases P (given c.flag extras) later (flag_words c ++ later) (λ _. ih)
            (λ _. ground (arith, ih, joined))
    ]

flags_with-present :
    (name : Text) (cs : List FlagInjection) (g : Global) (p : Project)
    → any (λ (c : FlagInjection). same c.flag name) cs ≡ true
    → flag_present name (flags_with cs g p) ≡ true
unfolding flags_with any
flags_with-present name cs g p h =
    let extras = g.rclone_extra_flags ∷ p.rclone_extra_flags ∷ [] in
    let flags = inject_flags_avoiding_collision [] cs extras in
    let more = flags ++ (codes "--bwlimit" ∷ g.bandwidth_limit ∷ []) in
    let limited = if is_empty g.bandwidth_limit then flags else more in
    let offers = offered-present name cs extras h in
    let in_flags : flag_present name flags ≡ flag_present name (offered cs extras) =
      ap (λ r. flag_present name r) (inject-offered [] cs extras) in
    let in_limited : flag_present name flags ≡ true → flag_present name limited ≡ true = λ k.
      if_cases (λ r. flag_present name r ≡ true) (is_empty g.bandwidth_limit) flags more (λ _. k)
        (λ _. ground (
          arith,
          k,
          flag_present-append name flags (codes "--bwlimit" ∷ g.bandwidth_limit ∷ []),
        )) in
    let a = flag_present-append name (limited ++ g.rclone_extra_flags) p.rclone_extra_flags in
    let b = flag_present-append name limited g.rclone_extra_flags in
    elim (Bool-cases (flag_present name (offered cs extras))) [
      | inl offer ↦ ground (arith, a, b, in_limited (in_flags ∙ offer))
      | inr miss ↦ elim (Bool-cases (member name (names_of g.rclone_extra_flags))) [
        | inl global ↦ ground (arith, a, b, names_of-present name g.rclone_extra_flags global)
        | inr none_global ↦ ground (
          arith,
          a,
          b,
          names_of-present name p.rclone_extra_flags (ground (arith, offers, miss, none_global)),
        )
      ]
    ]

-- Each of the eight flags that the program wants on a transfer is on its command line, whatever the
-- user's extra flags are: the program's own, or the user's in its place.
pub common_flags-present :
    (name : Text) (g : Global) (p : Project)
    → any (λ (c : FlagInjection). same c.flag name) common_candidates ≡ true
    → flag_present name (common_flags g p) ≡ true
unfolding common_flags
common_flags-present name g p h = flags_with-present name common_candidates g p h

flag_present-behind :
    (name : Text) (xs ys : List Text)
    → flag_present name ys ≡ true
    → flag_present name (xs ++ ys) ≡ true
flag_present-behind name xs ys h = ground (arith, h, flag_present-append name xs ys)

never_both : (a b : Bool) → b ≡ true → (a && not b) ≡ true → ⊥
never_both a b h k = ground arith

-- The supervised command line of a call with the common flags never gets the --stats=15s that is
-- meant to keep the output signal alive: `--stats 0` is among the common flags already.
pub supervised_args-unchanged :
    (g : Global) (p : Project) (args : List Text)
    → supervised_args g (args ++ common_flags g p) ≡ rclone_args g ++ (args ++ common_flags g p)
unfolding supervised_args any same
supervised_args-unchanged g p args =
    let stats = codes "--stats" in
    let all = args ++ common_flags g p in
    let there =
      flag_present-behind stats (rclone_args g) all
        (flag_present-behind stats args (common_flags g p) (common_flags-present stats g p refl)) in
    if_cases (λ (r : List Text). r ≡ rclone_args g ++ all)
      (is_transfer_verb (args_head all) && not (flag_present stats (rclone_args g ++ all))) _ _
      (λ adds. absurd (
        never_both (is_transfer_verb (args_head all)) (flag_present stats (rclone_args g ++ all))
          there adds))
      (λ _. refl)
