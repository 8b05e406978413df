-- ===== src/Store/Statements/Lookup.antt =====
-- internal/state/state.go: what is found in rows that a statement has changed.
use selective_mirror.Base.{
  ◌≡◌, refl, sym, ap, ap₂, subst, ◌∙◌, inl, inr, Bool, true, false, ◌&&◌, Option, none, some, [],
  ◌∷◌, map, if◌then◌else◌, some_inj, if_cases, if_true, if_false, Bool-cases, keep, Text, same,
  same_iff,
}
use selective_mirror.Store.{FileState, Rows, is_key, get_file_state}
use selective_mirror.Store.Statements.Table.{changed}

-- A change of rows that leaves their keys.
abbrev pub KeepsKey : (FileState → FileState) → Type 0
KeepsKey f = (row : FileState) → ((f row).project ≡ row.project) × ((f row).rel_path ≡ row.rel_path)

-- The change that a statement makes where its condition holds.
abbrev pub where_holds : (FileState → Bool) → (FileState → FileState) → FileState → FileState
where_holds test f row = if test row then f row else row

pub where_holds-KeepsKey :
    (test : FileState → Bool) (f : FileState → FileState)
    → KeepsKey f
    → KeepsKey (where_holds test f)
where_holds-KeepsKey test f keeps row =
    if_cases (λ (r : FileState). (r.project ≡ row.project) × (r.rel_path ≡ row.rel_path)) (test row)
      (f row) row (λ _. keeps row) (λ _. (refl, refl))

pub get-map :
    (g : FileState → FileState)
    → KeepsKey g
    → (p q : Text) (rows : Rows)
    → get_file_state p q (map g rows) ≡ changed g (get_file_state p q rows)
unfolding get_file_state is_key
get-map g keeps p q [] = refl
get-map g keeps p q (row ∷ rows) =
    let (project, rel_path) = keeps row in
    let e = ap₂ (λ (a b : Text). same p a && same q b) project rel_path in
    elim (Bool-cases (is_key p q row)) [
      | inl it ↦
          if_true (is_key p q (g row)) (some (g row)) (get_file_state p q (map g rows)) (e ∙ it)
          ∙ sym (ap (changed g) (if_true (is_key p q row) (some row) (get_file_state p q rows) it))
      | inr other ↦
          if_false (is_key p q (g row)) (some (g row)) (get_file_state p q (map g rows)) (e ∙ other)
          ∙ get-map g keeps p q rows
          ∙ sym (
              ap (changed g) (if_false (is_key p q row) (some row) (get_file_state p q rows) other))
    ]

pub and-true : (a b : Bool) → (a && b) ≡ true → (a ≡ true) × (b ≡ true)
and-true true b h = (refl, h)
and-true false b h = absurd (cc)

pub if_same {ℓ} : {A : Type ℓ} (b : Bool) (x : A) → (if b then x else x) ≡ x
if_same true x = refl
if_same false x = refl

pub key-of :
    (p q : Text) (row : FileState) → is_key p q row ≡ true → (p ≡ row.project) × (q ≡ row.rel_path)
unfolding is_key
key-of p q row h =
    let (project, rel_path) = and-true (same p row.project) (same q row.rel_path) h in
    ((same_iff p row.project).0 project, (same_iff q row.rel_path).0 rel_path)

-- The row that is found has the key.
pub get-key :
    (p q : Text) (rows : Rows) (row : FileState)
    → get_file_state p q rows ≡ some row
    → (p ≡ row.project) × (q ≡ row.rel_path)
unfolding get_file_state
get-key p q [] row h = absurd (cc)
get-key p q (r ∷ rows) row h = elim (Bool-cases (is_key p q r)) [
  | inl it ↦
      let found = sym (if_true (is_key p q r) (some r) (get_file_state p q rows) it) ∙ h in
      subst (λ (x : FileState). (p ≡ x.project) × (q ≡ x.rel_path)) (some_inj found)
        (key-of p q r it)
  | inr other ↦
      get-key p q rows row
        (sym (if_false (is_key p q r) (some r) (get_file_state p q rows) other) ∙ h)
]

pub some-if {ℓ} :
    {A : Type ℓ} (b : Bool) (x y : A) → some (if b then x else y) ≡ (if b then some x else some y)
some-if true x y = refl
some-if false x y = refl

-- A statement whose condition is one on the key.
pub get-where_holds :
    (by_key : Text → Text → Bool) (f : FileState → FileState)
    → KeepsKey f
    → (p q : Text) (rows : Rows)
    → get_file_state p q (map (where_holds (λ row. by_key row.project row.rel_path) f) rows)
      ≡ (if by_key p q then changed f (get_file_state p q rows) else get_file_state p q rows)
get-where_holds by_key f keeps p q rows =
    let test = λ (row : FileState). by_key row.project row.rel_path in
    get-map (where_holds test f) (where_holds-KeepsKey test f keeps) p q rows
    ∙ found (get_file_state p q rows) (λ row h. get-key p q rows row h)
  where
    found :
        (o : Option FileState)
        → ((row : FileState) → o ≡ some row → (p ≡ row.project) × (q ≡ row.rel_path))
        → changed (where_holds (λ row. by_key row.project row.rel_path) f) o
          ≡ (if by_key p q then changed f o else o)
    found none key = sym (if_same (by_key p q) none)
    found (some row) key =
        let (project, rel_path) = key row refl in
        some-if (by_key row.project row.rel_path) (f row) row
        ∙ ap₂ (λ (a b : Text). if by_key a b then some (f row) else some row) (sym project)
            (sym rel_path)

pub get-keep :
    (by_key : Text → Text → Bool) (p q : Text) (rows : Rows)
    → get_file_state p q (keep (λ row. by_key row.project row.rel_path) rows)
      ≡ (if by_key p q then get_file_state p q rows else none)
unfolding get_file_state keep
get-keep by_key p q [] = sym (if_same (by_key p q) none)
get-keep by_key p q (row ∷ rows) =
    let kept = keep (λ (r : FileState). by_key r.project r.rel_path) rows in
    let here = by_key row.project row.rel_path in
    let shown = λ (b : Bool). get_file_state p q (if b then row ∷ kept else kept) in
    let later = get_file_state p q rows in
    elim (Bool-cases (is_key p q row)) [
      | inl it ↦
          let (project, rel_path) = key-of p q row it in
          let agrees : here ≡ by_key p q = ap₂ by_key (sym project) (sym rel_path) in
          elim (Bool-cases (by_key p q)) [
            | inl taken ↦
                ap shown (agrees ∙ taken)
                ∙ if_true (is_key p q row) (some row) (get_file_state p q kept) it
                ∙ sym (if_true (is_key p q row) (some row) later it)
                ∙ sym (if_true (by_key p q) (get_file_state p q (row ∷ rows)) none taken)
            | inr left_out ↦
                ap shown (agrees ∙ left_out)
                ∙ get-keep by_key p q rows
                ∙ if_false (by_key p q) later none left_out
                ∙ sym (if_false (by_key p q) (get_file_state p q (row ∷ rows)) none left_out)
          ]
      | inr other ↦
          let skipped = if_false (is_key p q row) (some row) (get_file_state p q kept) other in
          let ends =
            get-keep by_key p q rows
            ∙ ap (λ (o : Option FileState). if by_key p q then o else none)
                (sym (if_false (is_key p q row) (some row) later other)) in
          elim (Bool-cases here) [
            | inl taken ↦ ap shown taken ∙ skipped ∙ ends
            | inr left_out ↦ ap shown left_out ∙ ends
          ]
    ]
