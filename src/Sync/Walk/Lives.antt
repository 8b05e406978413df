-- ===== src/Sync/Walk/Lives.antt =====
-- internal/sync/sync.go: the cleanup of ghosts leaves alone what lives on the disk.
use selective_mirror.Base.{
  ℕ, ◌≡◌, refl, ap, subst, ◌∙◌, ◌⊎◌, inl, inr, Bool, true, false, not, ◌&&◌, ◌||◌, List, [], ◌∷◌,
  ◌++◌, arith, if_cases, Bool-cases, any, All, Text, codes, same, same_iff, member,
}
use selective_mirror.Config.{Project}
use selective_mirror.Filter.Engine.{Libraries, Engine, is_excluded}
use selective_mirror.Paths.{to_slash, slash}
use selective_mirror.Sync.{Env, World}
use selective_mirror.Base.Int.{pos, int_eq}
use selective_mirror.Sync.Flags.{delete_flags}
use selective_mirror.Sync.Ghosts.{RemoteFile, is_present, behind}
use selective_mirror.Sync.Ghosts.Leaks.{Listed}
use selective_mirror.Sync.Ghosts.Policy.{Quarantines, Permitted, cleanup_ghosts-Within}
use selective_mirror.Sync.Walk.{
  Node, Nodes, Root, file, directory, failed, no_nodes, node, root, no_root, is_skipped_dir,
  files_at, files_in, local_files, cleanup_tree,
}

-- A file that the filter lets through, below directories that can be read, are no reparse points and
-- are let through too.
unfoldable mutual
  pub LivesAt : Libraries → Engine → Text → Node → Type 0
  LivesAt libs filter p (file path facts) =
      (to_slash path ≡ p) × (is_excluded libs filter p ≡ false)
  LivesAt libs filter p (directory path is_reparse nodes) =
      (is_reparse ≡ false)
      × (is_excluded libs filter (path ++ (slash ∷ [])) ≡ false)
      × LivesIn libs filter p nodes
  LivesAt libs filter p failed = ⊥

  pub LivesIn : Libraries → Engine → Text → Nodes → Type 0
  LivesIn libs filter p no_nodes = ⊥
  LivesIn libs filter p (node n ns) = LivesAt libs filter p n ⊎ LivesIn libs filter p ns

abbrev pub Lives : Libraries → Engine → Text → Root → Type 0
Lives libs filter p (root nodes) = LivesIn libs filter p nodes
Lives libs filter p no_root = ⊥

member-append : (t : Text) (xs ys : List Text) → member t (xs ++ ys) ≡ (member t xs || member t ys)
unfolding member
member-append t [] ys = refl
member-append t (x ∷ xs) ys = ground (arith, member-append t xs ys)

or_left : (a b : Bool) → a ≡ true → (a || b) ≡ true
or_left a b h = ground (arith, h)

or_right : (a b : Bool) → b ≡ true → (a || b) ≡ true
or_right a b h = ground (arith, h)

module _ (libs : Libraries) (filter : Engine) (p : Text) where
  mutual
    unfolding LivesAt LivesIn files_at files_in member

    at-member : (n : Node) → LivesAt libs filter p n → member p (files_at libs filter n) ≡ true
    at-member (file path facts) (is_p, let_through) =
        if_cases (λ fs. member p fs ≡ true) (is_excluded libs filter (to_slash path)) []
          (to_slash path ∷ [])
          (λ bad. absurd (cc (bad, let_through, ap (is_excluded libs filter) is_p)))
          (λ _. or_left (same (to_slash path) p) false ((same_iff (to_slash path) p).1 is_p))
    at-member (directory path is_reparse nodes) (plain, let_through, inside) =
        if_cases (λ fs. member p fs ≡ true) (is_skipped_dir libs filter path is_reparse) []
          (files_in libs filter nodes) (λ bad. absurd (ground (arith, bad, plain, let_through)))
          (λ _. in-member nodes inside)
    at-member failed h = absurd h

    in-member : (ns : Nodes) → LivesIn libs filter p ns → member p (files_in libs filter ns) ≡ true
    in-member no_nodes h = absurd h
    in-member (node n ns) (inl h) =
        member-append p (files_at libs filter n) (files_in libs filter ns)
        ∙ or_left _ (member p (files_in libs filter ns)) (at-member n h)
    in-member (node n ns) (inr h) =
        member-append p (files_at libs filter n) (files_in libs filter ns)
        ∙ or_right (member p (files_at libs filter n)) _ (in-member ns h)

  Lives-member :
      (tree : Root) → Lives libs filter p tree → member p (local_files libs filter tree) ≡ true
  unfolding local_files
  Lives-member (root nodes) h = in-member nodes h
  Lives-member no_root h = absurd h

absent-missing :
    (locals : List Text) (f : RemoteFile) (path : Text)
    → (not (is_present locals f) && same (to_slash f.path) path) ≡ true
    → member path locals ≡ false
unfolding is_present
absent-missing locals f path h =
    let is_path : to_slash f.path ≡ path =
      (same_iff (to_slash f.path) path).0 (ground (arith, h)) in
    subst (λ q. member q locals ≡ false) is_path (ground (arith, h))

module _ (env : Env) (libs : Libraries) (filter : Engine) (proj : Project)
    (locals : List Text) where
  Listed-missing :
      (listing : List RemoteFile) (path : Text)
      → Listed env libs filter proj locals listing path
      → member path locals ≡ false
  unfolding any
  Listed-missing [] path h = absurd (cc h)
  Listed-missing (f ∷ fs) path h =
      elim (Bool-cases (not (is_present locals f) && same (to_slash f.path) path)) [
        | inl this ↦ absent-missing locals f path this
        | inr other ↦ Listed-missing fs path (ground (arith, h, other))
      ]

module _ (env : Env) (libs : Libraries) (filter : Engine) (proj : Project) (tree : Root) where
  -- The call deletes this file or moves it into quarantine, and names nothing else on the remote.
  abbrev pub NamesFile : Text → List Text → Type 0
  NamesFile path args =
      (args ≡ codes "deletefile" ∷ behind proj path ∷ delete_flags env.config proj)
      ⊎ Quarantines env libs filter proj (local_files libs filter tree) path args

  -- The call is for one file of the listing, and no such file lives on the disk.
  abbrev pub Spares : List RemoteFile → List Text → Type 0
  Spares listing args =
      (path : Text) × NamesFile path args
      × Listed env libs filter proj (local_files libs filter tree) listing path
      × (Lives libs filter path tree → ⊥)

  -- Rclone answers no call with exit code 4, for which CleanupGhosts would turn to the directory.
  abbrev pub NeverFour : Type 0
  NeverFour = (n : ℕ) → int_eq (env.exit_of n) (pos 4) ≡ false

  Permitted-Spares :
      NeverFour
      → (listing : List RemoteFile) (args : List Text)
      → Permitted env libs filter proj (local_files libs filter tree) listing args
      → Spares listing args
  Permitted-Spares never listing args (path, (listed, how)) = (
    path,
    elim how [
      | inl (_, inl alone) ↦ inl alone
      | inl (_, inr (_, (n, four), _)) ↦ absurd (cc (four, never n))
      | inr (_, moves) ↦ inr moves
    ],
    listed,
    λ lives. cc (
      Lives-member libs filter path tree lives,
      Listed-missing env libs filter proj (local_files libs filter tree) listing path listed,
    ),
  )

  All-Spares :
      NeverFour
      → (listing : List RemoteFile) (calls : List (List Text))
      → All (Permitted env libs filter proj (local_files libs filter tree) listing) calls
      → All (Spares listing) calls
  All-Spares never listing [] h = tt
  All-Spares never listing (args ∷ calls) (h, hs) =
      (Permitted-Spares never listing args h, All-Spares never listing calls hs)

  abbrev pub OnlySpares : List RemoteFile → World → World → Type 0
  OnlySpares listing w w' =
      (new : List (List Text)) × ((w'.calls ≡ new ++ w.calls) × All (Spares listing) new)

  -- Where rclone answers no call with exit code 4, every call of CleanupGhosts over the walk of the
  -- local tree, whatever else rclone, the database and the listing say, deletes one file of the
  -- listing, named by its path, or moves it into quarantine, and no file lives on the disk under that
  -- path: a file that the filter lets through, in directories that the walk can read, that are no
  -- reparse points and that the filter lets through as well.
  pub cleanup_tree-OnlySpares :
      NeverFour
      → (listing : List RemoteFile) (w : World)
      → OnlySpares listing w (cleanup_tree env libs filter proj tree listing w).0
  unfolding cleanup_tree
  cleanup_tree-OnlySpares never listing w =
      let (new, (is_new, all)) =
        cleanup_ghosts-Within env libs filter proj (local_files libs filter tree) listing w in
      (new, (is_new, All-Spares never listing new all))
