-- ===== src/Store/Statements/Changes.antt =====
-- internal/state/state.go: the statements that change rows, as changes of what is found in them.
use selective_mirror.Base.{
  ◌≡◌, refl, sym, ap, ap₂, ◌∙◌, ◌⊎◌, inl, inr, Bool, true, false, not, ◌&&◌, Option, none, some, [],
  ◌∷◌, ◌++◌, map, if◌then◌else◌, ==_iff, if_true, if_false, Bool-cases, Text, same, same_refl,
  same_iff,
}
use selective_mirror.Base.Int.{ℤ, pos, negsuc, is_zero}
use selective_mirror.Store.{
  FileState, Rows, is_key, get_file_state, update_rows, clear_stale_exit_codes,
}
use selective_mirror.Store.Statements.Table.{table_of, is_at, change_at}
use selective_mirror.Store.Statements.Lookup.{KeepsKey, where_holds, and-true, get-where_holds}

-- Changes of rows, as maps over them.
pub update_rows-map :
    (project rel_path : Text) (f : FileState → FileState) (rows : Rows)
    → update_rows project rel_path f rows
      ≡ map (where_holds (λ row. is_at project rel_path row.project row.rel_path) f) rows
unfolding update_rows is_key
update_rows-map project rel_path f [] = refl
update_rows-map project rel_path f (row ∷ rows) =
    ap (λ (rest : Rows). (if is_key project rel_path row then f row else row) ∷ rest)
      (update_rows-map project rel_path f rows)

pub update_rows-change_at :
    (project rel_path : Text) (f : FileState → FileState)
    → KeepsKey f
    → (rows : Rows) (p q : Text)
    → table_of (update_rows project rel_path f rows) p q
      ≡ change_at project rel_path f (table_of rows) p q
update_rows-change_at project rel_path f keeps rows p q =
    ap (get_file_state p q) (update_rows-map project rel_path f rows)
    ∙ get-where_holds (is_at project rel_path) f keeps p q rows

abbrev pub cleared : FileState → FileState
cleared row = record row { rclone_exit = pos 0 }

pub is_zero→pos : (z : ℤ) → is_zero z ≡ true → pos 0 ≡ z
is_zero→pos (pos n) h = ap pos (sym ((==_iff n 0).0 h))
is_zero→pos (negsuc n) h = absurd (cc)

-- To clear an exit code that is 0 already changes nothing.
pub cleared-row :
    (b z : Bool) (row : FileState)
    → (z ≡ true → cleared row ≡ row)
    → (if b && not z then cleared row else row) ≡ (if b then cleared row else row)
cleared-row true true row same_row = sym (same_row refl)
cleared-row true false row same_row = refl
cleared-row false z row same_row = refl

pub clear-map :
    (project : Text) (rows : Rows)
    → clear_stale_exit_codes project rows
      ≡ map (where_holds (λ row. same project row.project) cleared) rows
unfolding clear_stale_exit_codes
clear-map project [] = refl
clear-map project (row ∷ rows) =
    ap₂ (λ (r : FileState) (rest : Rows). r ∷ rest)
      (cleared-row (same project row.project) (is_zero row.rclone_exit) row
        (λ zero. ap (λ (z : ℤ). record row { rclone_exit = z }) (is_zero→pos row.rclone_exit zero)))
      (clear-map project rows)

abbrev pub or_found : Option FileState → Option FileState → Option FileState
or_found none later = later
or_found (some row) later = some row

pub or_found-none : (o : Option FileState) → or_found o none ≡ o
or_found-none none = refl
or_found-none (some row) = refl

-- A row that is put behind the others is found where no other is.
pub get-append :
    (p q : Text) (rows : Rows) (new : FileState)
    → get_file_state p q (rows ++ (new ∷ []))
      ≡ or_found (get_file_state p q rows) (if is_key p q new then some new else none)
unfolding get_file_state
get-append p q [] new = refl
get-append p q (row ∷ rows) new =
    let last = if is_key p q new then some new else none in
    let here = is_key p q row in
    let with_new = get_file_state p q (rows ++ (new ∷ [])) in
    let without = get_file_state p q rows in
    elim (Bool-cases here) [
      | inl it ↦
          if_true here (some row) with_new it
          ∙ sym
              (ap (λ (o : Option FileState). or_found o last) (if_true here (some row) without it))
      | inr other ↦
          if_false here (some row) with_new other
          ∙ get-append p q rows new
          ∙ sym (
              ap (λ (o : Option FileState). or_found o last)
                (if_false here (some row) without other))
    ]

pub is_at_refl : (project rel_path : Text) → is_at project rel_path project rel_path ≡ true
is_at_refl project rel_path = ap₂ (λ (a b : Bool). a && b) (same_refl project) (same_refl rel_path)

-- The key of the statement, or another one.
pub is_at-cases :
    (project rel_path p q : Text)
    → ((is_at project rel_path p q ≡ true) × (project ≡ p) × (rel_path ≡ q))
      ⊎ ((is_at project rel_path p q ≡ false) × (is_at p q project rel_path ≡ false))
is_at-cases project rel_path p q = elim (Bool-cases (is_at project rel_path p q)) [
  | inl it ↦
      let (first, second) = and-true (same project p) (same rel_path q) it in
      inl (it, (same_iff project p).0 first, (same_iff rel_path q).0 second)
  | inr other ↦ elim (Bool-cases (is_at p q project rel_path)) [
    | inl it ↦
        let (first, second) = and-true (same p project) (same q rel_path) it in
        let back =
          ap₂ (λ (a b : Text). is_at project rel_path a b) ((same_iff p project).0 first)
            ((same_iff q rel_path).0 second)
          ∙ is_at_refl project rel_path in
        absurd (cc)
    | inr differs ↦ inr (other, differs)
  ]
]

pub not-if {ℓ} : {A : Type ℓ} (b : Bool) (x y : A) → (if not b then x else y) ≡ (if b then y else x)
not-if true x y = refl
not-if false x y = refl
