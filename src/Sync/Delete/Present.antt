-- ===== src/Sync/Delete/Present.antt =====
-- The rows of internal/state/state.go that the files found below a directory have.
use selective_mirror.Base.{
  ◌≡◌, refl, sym, ap, subst, ◌∙◌, inl, inr, Bool, true, false, not, Option, none, some, List, [],
  ◌∷◌, map, arith, if◌then◌else◌, if_cases, if_false, Bool-cases, keep, All, Text, same, same_refl,
  same_iff,
}
use selective_mirror.Store.{FileState, Rows, delete_file_state, is_key, get_file_state, is_some}

-- (project, rel_path) is the key of the table.
abbrev pub IsKeyed : Rows → Type 0
IsKeyed [] = Unit
IsKeyed (row ∷ rows) = (get_file_state row.project row.rel_path rows ≡ none) × IsKeyed rows

-- All the files have a row, and no two are the same.
abbrev pub Present : Text → List Text → Rows → Type 0
Present project [] rows = Unit
Present project (f ∷ fs) rows =
    (is_some (get_file_state project f rows) ≡ true)
    × (All (λ g. same f g ≡ false) fs × Present project fs rows)

-- A row has one path.
is_key-apart :
    (project f g : Text) (row : FileState)
    → same f g ≡ false
    → not (is_key project f row) ≡ false
    → is_key project g row ≡ false
unfolding is_key
is_key-apart project f g row h gone = elim (Bool-cases (same g row.rel_path)) [
  | inl hit ↦
      let f_eq = (same_iff f row.rel_path).0 (ground arith) in
      let g_eq = (same_iff g row.rel_path).0 hit in
      absurd (cc ((same_iff f g).1 (f_eq ∙ sym g_eq), h))
  | inr miss ↦ ground arith
]

pub get-delete_other :
    (project f g : Text) (rows : Rows)
    → same f g ≡ false
    → get_file_state project g (delete_file_state project f rows) ≡ get_file_state project g rows
unfolding get_file_state delete_file_state is_key keep
get-delete_other project f g [] h = refl
get-delete_other project f g (row ∷ rows) h =
    let ih = get-delete_other project f g rows h in
    let fewer = delete_file_state project f rows in
    if_cases (λ r. get_file_state project g r ≡ get_file_state project g (row ∷ rows))
      (not (is_key project f row)) (row ∷ fewer) fewer
      (λ _. ap (λ o. if is_key project g row then some row else o) ih)
      (λ gone.
        ih
        ∙ sym (
            if_false (is_key project g row) (some row) (get_file_state project g rows)
              (is_key-apart project f g row h gone)))

pub Present-delete :
    (project f : Text) (fs : List Text) (rows : Rows)
    → All (λ g. same f g ≡ false) fs
    → Present project fs rows
    → Present project fs (delete_file_state project f rows)
Present-delete project f [] rows apart h = tt
Present-delete project f (g ∷ fs) rows (fg, apart) (here, (g_apart, later)) = (
  ap is_some (get-delete_other project f g rows fg) ∙ here,
  (g_apart, Present-delete project f fs rows apart later),
)

-- What the query for a directory finds.
abbrev pub Picks : Text → (FileState → Bool) → Type 0
Picks project p = (row : FileState) → p row ≡ true → same project row.project ≡ true

abbrev pub picked : (FileState → Bool) → Rows → List Text
picked p rows = map (λ row. row.rel_path) (keep p rows)

picked-apart :
    (project f : Text) (p : FileState → Bool) (rows : Rows)
    → Picks project p
    → get_file_state project f rows ≡ none
    → All (λ g. same f g ≡ false) (picked p rows)
unfolding get_file_state is_key keep
picked-apart project f p [] ok h = tt
picked-apart project f p (row ∷ rows) ok h =
    if_cases (λ r. All (λ g. same f g ≡ false) (map (λ (v : FileState). v.rel_path) r)) (p row) _ _
      (λ in_dir.
        let mine = ok row in_dir in
        ((ground arith), picked-apart project f p rows ok (ground (arith, h))))
      (λ _. picked-apart project f p rows ok (ground (arith, h)))

Present-more :
    (project : Text) (row : FileState) (fs : List Text) (rows : Rows)
    → Present project fs rows
    → Present project fs (row ∷ rows)
unfolding get_file_state
Present-more project row [] rows h = tt
Present-more project row (f ∷ fs) rows (here, (apart, later)) = (
  if_cases (λ (o : Option FileState). is_some o ≡ true) (is_key project f row) _ _ (λ _. refl)
      (λ _. here),
  (apart, Present-more project row fs rows later),
)

pub picked-Present :
    (project : Text) (p : FileState → Bool) (rows : Rows)
    → Picks project p
    → IsKeyed rows
    → Present project (picked p rows) rows
unfolding keep get_file_state is_key
picked-Present project p [] ok keyed = tt
picked-Present project p (row ∷ rows) ok (fresh, keyed) =
    let rest =
      Present-more project row (picked p rows) rows (picked-Present project p rows ok keyed) in
    if_cases (λ r. Present project (map (λ (v : FileState). v.rel_path) r) (row ∷ rows)) (p row) _ _
      (λ in_dir.
        let mine = ok row in_dir in
        (
          ground (arith, mine, same_refl row.rel_path),
          (
            picked-apart project row.rel_path p rows ok (
                subst (λ q. get_file_state q row.rel_path rows ≡ none)
                  (sym ((same_iff project row.project).0 mine)) fresh),
            rest,
          ),
        ))
      (λ _. rest)
