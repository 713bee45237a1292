-- ===== src/Lint/Files/Visits.antt =====
-- The files that scripts/ci/no-nested-if.go inspects, listed without inspecting them, and when the
-- lint is silent.
use geul_asset_optimizer.Base.{
  String, Bool, true, false, none, some, List, [], ◌∷◌, ◌++◌, ◌≡◌, refl, sym, ap, ◌∙◌,
}
use geul_asset_optimizer.Base.FilePath.{join_path}
use geul_asset_optimizer.Errors.{Error, Result, ok, err}
use geul_asset_optimizer.Lint.{Violation}
use geul_asset_optimizer.Lint.Files.{
  Entry, Entries, file_entry, dir_entry, nil, cons, Env, Outcome, returned, failed, panicked,
  and_then, entry_name, should_skip_directory, is_go_file, inspect_file, walk_dir, walk_entries,
  walk_root, inspect_root, inspect_roots,
}

pub data Visit : Type 0 where
  source_file : String → String → Visit
  unreadable : Error → Visit

-- The visits below an entry, in order: the Go files outside the ignored directories, and the
-- directories that cannot be read.
unfoldable mutual
  pub visits : String → String → Entry → List Visit
  visits root path (file_entry name) = elim (is_go_file path) [
    | true ↦ source_file root path ∷ []
    | false ↦ []
  ]
  visits root path (dir_entry name (some e) children) =
      elim (should_skip_directory root path name) [ true ↦ [] | false ↦ unreadable e ∷ [] ]
  visits root path (dir_entry name none children) = elim (should_skip_directory root path name) [
    | true ↦ []
    | false ↦ visits_entries root path children
  ]

  pub visits_entries : String → String → Entries → List Visit
  visits_entries root path nil = []
  visits_entries root path (cons entry rest) =
      visits root (join_path path (entry_name entry)) entry ++ visits_entries root path rest

abbrev visits_root : String → Result Entry → List Visit
visits_root root (err e) = unreadable e ∷ []
visits_root root (ok entry) = visits root root entry

pub and_then_same :
    (o : Outcome) (f g : List Violation → Outcome)
    → ((found : List Violation) → f found ≡ g found)
    → and_then o f ≡ and_then o g
unfolding and_then
and_then_same (returned vs) f g h = h vs
and_then_same (failed e) f g h = refl
and_then_same panicked f g h = refl

and_then_assoc :
    (o : Outcome) (f g : List Violation → Outcome)
    → and_then (and_then o f) g ≡ and_then o (λ found. and_then (f found) g)
unfolding and_then
and_then_assoc (returned vs) f g = refl
and_then_assoc (failed e) f g = refl
and_then_assoc panicked f g = refl

module _ (env : Env) where
  unfoldable pub all_visits : List String → List Visit
  unfolding visits
  all_visits [] = []
  all_visits (root ∷ roots) = visits_root root (env.stat_root root) ++ all_visits roots

  unfoldable pub visit : Visit → List Violation → Outcome
  visit (source_file root path) vs = inspect_file env root path vs
  visit (unreadable e) vs = failed e

  unfoldable pub run_visits : List Visit → List Violation → Outcome
  unfolding visit
  run_visits [] vs = returned vs
  run_visits (v ∷ rest) vs = and_then (visit v vs) (run_visits rest)

  run_visits-append :
      (xs ys : List Visit) (vs : List Violation)
      → run_visits (xs ++ ys) vs ≡ and_then (run_visits xs vs) (run_visits ys)
  unfolding run_visits and_then
  run_visits-append [] ys vs = refl
  run_visits-append (v ∷ xs) ys vs =
      and_then_same (visit v vs) _ _ (run_visits-append xs ys)
      ∙ sym (and_then_assoc (visit v vs) (run_visits xs) (run_visits ys))

  ended : (o : Outcome) → o ≡ and_then o (run_visits [])
  unfolding and_then run_visits
  ended (returned found) = refl
  ended (failed e) = refl
  ended panicked = refl

  run_one : (v : Visit) (vs : List Violation) → visit v vs ≡ run_visits (v ∷ []) vs
  unfolding run_visits
  run_one v vs = ended (visit v vs)

  listed_if_go :
      (b : Bool) (root path : String) (vs : List Violation)
      → elim b [ true ↦ inspect_file env root path vs | false ↦ returned vs ]
        ≡ run_visits (elim b [ true ↦ source_file root path ∷ [] | false ↦ [] ]) vs
  unfolding run_visits visit
  listed_if_go true root path vs = run_one (source_file root path) vs
  listed_if_go false root path vs = refl

  listed_unless_skipped :
      (b : Bool) (o : Outcome) (l : List Visit) (vs : List Violation)
      → o ≡ run_visits l vs
      → elim b [ true ↦ returned vs | false ↦ o ] ≡ run_visits (elim b [ true ↦ [] | false ↦ l ]) vs
  unfolding run_visits
  listed_unless_skipped true o l vs h = refl
  listed_unless_skipped false o l vs h = h

  none_listed : (vs : List Violation) → returned vs ≡ run_visits [] vs
  unfolding run_visits
  none_listed vs = refl

  run_failed :
      (e : Error) (rest : List Visit) (vs : List Violation)
      → failed e ≡ run_visits (unreadable e ∷ rest) vs
  unfolding run_visits visit and_then
  run_failed e rest vs = refl

  mutual
    unfolding walk_dir visits

    walk_dir_lists :
        (root path : String) (entry : Entry) (vs : List Violation)
        → walk_dir env root path entry vs ≡ run_visits (visits root path entry) vs
    walk_dir_lists root path (file_entry name) vs = listed_if_go (is_go_file path) root path vs
    walk_dir_lists root path (dir_entry name (some e) children) vs =
        listed_unless_skipped (should_skip_directory root path name) _ _ vs (run_failed e [] vs)
    walk_dir_lists root path (dir_entry name none children) vs =
        listed_unless_skipped (should_skip_directory root path name) _ _ vs
          (walk_entries_lists root path children vs)

    walk_entries_lists :
        (root path : String) (entries : Entries) (vs : List Violation)
        → walk_entries env root path entries vs ≡ run_visits (visits_entries root path entries) vs
    walk_entries_lists root path nil vs = none_listed vs
    walk_entries_lists root path (cons entry rest) vs =
        let inner = join_path path (entry_name entry) in
        ap (λ o. and_then o (walk_entries env root path rest)) (walk_dir_lists root inner entry vs)
        ∙ and_then_same (run_visits (visits root inner entry) vs) _ _
            (walk_entries_lists root path rest)
        ∙ sym (run_visits-append (visits root inner entry) (visits_entries root path rest) vs)

  walk_root_lists :
      (root : String) (stat : Result Entry) (vs : List Violation)
      → walk_root env root stat vs ≡ run_visits (visits_root root stat) vs
  walk_root_lists root (err e) vs = run_failed e [] vs
  walk_root_lists root (ok entry) vs = walk_dir_lists root root entry vs

  pub inspect_roots_lists :
      (roots : List String) (vs : List Violation)
      → inspect_roots env roots vs ≡ run_visits (all_visits roots) vs
  unfolding inspect_roots inspect_root all_visits
  inspect_roots_lists [] vs = none_listed vs
  inspect_roots_lists (root ∷ roots) vs =
      let stat = env.stat_root root in
      ap (λ o. and_then o (inspect_roots env roots)) (walk_root_lists root stat vs)
      ∙ and_then_same (run_visits (visits_root root stat) vs) _ _ (inspect_roots_lists roots)
      ∙ sym (run_visits-append (visits_root root stat) (all_visits roots) vs)
