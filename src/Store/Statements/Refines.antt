-- ===== src/Store/Statements/Refines.antt =====
-- internal/state/state.go: the rows implement the map.
use selective_mirror.Base.{
  ℕ, ◌≡◌, refl, sym, ap, ap₂, subst, ◌∙◌, inl, inr, not, Option, none, some, List, [], ◌∷◌, ◌++◌,
  if◌then◌else◌, if_true, if_false, Option-cases, Text, same, member,
}
use std.Path.{fun_ext}
use selective_mirror.Base.Int.{ℤ}
use selective_mirror.Store.{
  FileState, Rows, is_key, get_file_state, update_rows, update_remote_verification,
  mark_remote_verification_stale, update_mtime_only, update_file_state, delete_file_state, is_some,
}
use selective_mirror.Store.Statements.{
  Statement, update_state, update_verification, mark_stale, update_mtime, delete_state, clear_exits,
  delete_mirror, prune_mirrors, exec, exec_all, delete_project, prune_orphaned_projects,
}
use selective_mirror.Store.Statements.Table.{table_of, changed, is_at, synced, spec, spec_all}
use selective_mirror.Store.Statements.Lookup.{get-where_holds, get-keep}
use selective_mirror.Store.Statements.Changes.{
  update_rows-change_at, cleared, clear-map, or_found, or_found-none, get-append, is_at_refl,
  is_at-cases, not-if,
}

-- The update of a row that is there, and the insert of one that is not.
module _ (now : ℕ) (project rel_path hash : Text) (size mtime : ℕ) (exit : ℤ) (rows : Rows)
    (p q : Text) where
  abbrev pub after : Option FileState → FileState
  after o = synced now project rel_path hash size mtime exit o

  abbrev pub Wanted : Rows → Type 0
  Wanted r = get_file_state p q r ≡ (
      if is_at project rel_path p q
      then some (after (get_file_state p q rows))
      else get_file_state p q rows)

  update-there :
      (row : FileState)
      → get_file_state project rel_path rows ≡ some row
      → Wanted (update_rows project rel_path (λ r. after (some r)) rows)
  update-there row h =
      let f = λ (r : FileState). after (some r) in
      let here = is_at project rel_path p q in
      let found = get_file_state p q rows in
      update_rows-change_at project rel_path f (λ r. (refl, refl)) rows p q
      ∙ (elim (is_at-cases project rel_path p q) [
        | inl (it, ep, eq) ↦
            let e = sym (ap₂ (λ (a b : Text). get_file_state a b rows) ep eq) ∙ h in
            if_true here (changed f found) found it
            ∙ ap (changed f) e
            ∙ sym (ap (λ (o : Option FileState). some (after o)) e)
            ∙ sym (if_true here (some (after found)) found it)
        | inr (other, _) ↦
            if_false here (changed f found) found other
            ∙ sym (if_false here (some (after found)) found other)
      ])

  insert-new : get_file_state project rel_path rows ≡ none → Wanted (rows ++ (after none ∷ []))
  unfolding is_key
  insert-new h =
      let new = after none in
      let here = is_at project rel_path p q in
      let found = get_file_state p q rows in
      let last = if is_key p q new then some new else none in
      get-append p q rows new ∙ (elim (is_at-cases project rel_path p q) [
        | inl (it, ep, eq) ↦
            let e = sym (ap₂ (λ (a b : Text). get_file_state a b rows) ep eq) ∙ h in
            let key =
              ap₂ (λ (a b : Text). is_at a b project rel_path) (sym ep) (sym eq)
              ∙ is_at_refl project rel_path in
            ap (λ (o : Option FileState). or_found o last) e
            ∙ if_true (is_key p q new) (some new) none key
            ∙ sym (ap (λ (o : Option FileState). some (after o)) e)
            ∙ sym (if_true here (some (after found)) found it)
        | inr (other, differs) ↦
            ap (or_found found) (if_false (is_key p q new) (some new) none differs)
            ∙ or_found-none found
            ∙ sym (if_false here (some (after found)) found other)
      ])

  pub update_file_state-Wanted :
      Wanted (update_file_state now project rel_path hash size mtime exit rows)
  unfolding update_file_state
  update_file_state-Wanted =
      let met = get_file_state project rel_path rows in
      let up = update_rows project rel_path (λ row. after (some row)) rows in
      let more = rows ++ (after none ∷ []) in
      elim (Option-cases met) [
        | inl h ↦ subst Wanted (sym (if_false (is_some met) up more (ap is_some h))) (insert-new h)
        | inr (row, h) ↦
            subst Wanted (sym (if_true (is_some met) up more (ap is_some h))) (update-there row h)
      ]

-- Each statement does to the rows what it does to the map.
exec-spec :
    (st : Statement) (rows : Rows) (p q : Text)
    → table_of (exec st rows) p q ≡ spec st (table_of rows) p q
unfolding exec update_remote_verification mark_remote_verification_stale update_mtime_only
    delete_file_state delete_project prune_orphaned_projects is_key
exec-spec (update_state now project rel_path hash size mtime exit) rows p q =
    update_file_state-Wanted now project rel_path hash size mtime exit rows p q
exec-spec (update_verification now project rel_path hash size) rows p q =
    update_rows-change_at project rel_path
      (λ row. record row { remote_verified_at = now; remote_hash = hash; remote_size = size })
      (λ row. (refl, refl)) rows p q
exec-spec (mark_stale project rel_path) rows p q =
    update_rows-change_at project rel_path (λ row. record row { remote_verified_at = 0 })
      (λ row. (refl, refl)) rows p q
exec-spec (update_mtime project rel_path mtime) rows p q =
    update_rows-change_at project rel_path (λ row. record row { mtime_ns = mtime })
      (λ row. (refl, refl)) rows p q
exec-spec (delete_state project rel_path) rows p q =
    get-keep (λ a b. not (is_at project rel_path a b)) p q rows
    ∙ not-if (is_at project rel_path p q) (table_of rows p q) none
exec-spec (clear_exits project) rows p q =
    ap (get_file_state p q) (clear-map project rows)
    ∙ get-where_holds (λ a b. same project a) cleared (λ row. (refl, refl)) p q rows
exec-spec (delete_mirror project) rows p q =
    get-keep (λ a b. not (same project a)) p q rows
    ∙ not-if (same project p) (table_of rows p q) none
exec-spec (prune_mirrors []) rows p q = refl
exec-spec (prune_mirrors (a ∷ ps)) rows p q = get-keep (λ x y. member x (a ∷ ps)) p q rows

-- The rows implement the map: after any run of statements, from any rows, what the rows hold for each
-- mirror and path is what the same run makes of the map that the rows stood for before.
pub exec_all-spec_all :
    (sts : List Statement) (rows : Rows)
    → table_of (exec_all sts rows) ≡ spec_all sts (table_of rows)
unfolding exec_all
exec_all-spec_all [] rows = refl
exec_all-spec_all (st ∷ sts) rows =
    exec_all-spec_all sts (exec st rows)
    ∙ ap (spec_all sts) (fun_ext (λ p. fun_ext (λ q. exec-spec st rows p q)))
