-- ===== src/Lint/Files/Clean.antt =====
-- When scripts/ci/no-nested-if.go exits with 0.
use mathlib.Core.List.{append-nil, append_assoc}
use geul_asset_optimizer.Base.{
  String, Bool, true, false, not, ◌&&◌, ◌||◌, List, [], ◌∷◌, ◌++◌, ◌≡◌, ◌↔◌, refl, sym, ap, ◌∙◌,
  arith, if◌then◌else◌,
}
use geul_asset_optimizer.Errors.{Result, ok, err}
use geul_asset_optimizer.Lint.{Node, Position, Violation, walk}
use geul_asset_optimizer.Lint.Nested.{lacks_body, nested, expected, walk_agrees}
use geul_asset_optimizer.Lint.Files.{
  ParsedFile, Env, Outcome, returned, failed, panicked, and_then, of_found, inspect_parsed,
  inspect_file, inspect_roots, finish, main, display,
}
use geul_asset_optimizer.Lint.Files.Visits.{
  and_then_same, Visit, source_file, unreadable, all_visits, visit, run_visits, inspect_roots_lists,
}

-- An outcome reached from nothing, after the violations so far.
abbrev after : List Violation → Outcome → Outcome
after vs o = and_then o (λ ws. returned (vs ++ ws))

abbrev is_silent : Outcome → Bool
is_silent (returned []) = true
is_silent (returned (v ∷ vs)) = false
is_silent (failed e) = false
is_silent panicked = false

expected_after :
    (path : String) (b : Bool) (ps : List Position) (vs : List Violation)
    → of_found (expected path b ps vs) ≡ after vs (of_found (expected path b ps []))
unfolding expected of_found and_then
expected_after path true ps vs = refl
expected_after path false ps vs = refl

abbrev inspected : String → Bool → Node → List Violation → Outcome
inspected shown generated file vs =
    if generated then returned vs else of_found (walk shown 0 file vs)

inspected_after :
    (shown : String) (generated : Bool) (file : Node) (vs : List Violation)
    → inspected shown generated file vs ≡ after vs (inspected shown generated file [])
unfolding and_then
inspected_after shown true file vs = ap returned (sym (append-nil vs))
inspected_after shown false file vs =
    ap of_found (walk_agrees shown file 0 vs)
    ∙ expected_after shown (lacks_body file) (nested false file) vs
    ∙ ap (λ o. after vs (of_found o)) (sym (walk_agrees shown file 0 []))

parsed_after :
    (env : Env) (root path : String) (r : Result ParsedFile) (vs : List Violation)
    → inspect_parsed env root path r vs ≡ after vs (inspect_parsed env root path r [])
unfolding inspect_parsed and_then
parsed_after env root path (err e) vs = refl
parsed_after env root path (ok parsed) vs =
    inspected_after (display env path (env.rel root path)) parsed.is_generated parsed.file vs

abbrev pub is_nil {ℓ} : {A : Type ℓ} → List A → Bool
is_nil [] = true
is_nil (x ∷ xs) = false

is_silent-expected :
    (path : String) (b : Bool) (ps : List Position)
    → is_silent (of_found (expected path b ps [])) ≡ (not b && is_nil ps)
unfolding expected of_found
is_silent-expected path true ps = refl
is_silent-expected path false [] = refl
is_silent-expected path false (p ∷ ps) = refl

-- A file is clean if it is parsed, and is generated or has neither a nested if statement nor a
-- function without a body.
abbrev pub is_clean_file : Result ParsedFile → Bool
is_clean_file (err e) = false
is_clean_file (ok parsed) =
    parsed.is_generated || not (lacks_body parsed.file) && is_nil (nested false parsed.file)

is_silent-inspected :
    (shown : String) (generated : Bool) (file : Node)
    → is_silent (inspected shown generated file [])
      ≡ (generated || not (lacks_body file) && is_nil (nested false file))
is_silent-inspected shown true file = refl
is_silent-inspected shown false file =
    ap (λ o. is_silent (of_found o)) (walk_agrees shown file 0 [])
    ∙ is_silent-expected shown (lacks_body file) (nested false file)

is_silent-parsed :
    (env : Env) (root path : String) (r : Result ParsedFile)
    → is_silent (inspect_parsed env root path r []) ≡ is_clean_file r
unfolding inspect_parsed
is_silent-parsed env root path (err e) = refl
is_silent-parsed env root path (ok parsed) =
    is_silent-inspected (display env path (env.rel root path)) parsed.is_generated parsed.file

is_silent-both :
    (a b : Outcome) → is_silent (and_then a (λ vs. after vs b)) ≡ (is_silent a && is_silent b)
unfolding and_then
is_silent-both (returned []) (returned []) = refl
is_silent-both (returned []) (returned (w ∷ ws)) = refl
is_silent-both (returned []) (failed e) = refl
is_silent-both (returned []) panicked = refl
is_silent-both (returned (v ∷ vs)) (returned ws) = refl
is_silent-both (returned (v ∷ vs)) (failed e) = refl
is_silent-both (returned (v ∷ vs)) panicked = refl
is_silent-both (failed e) b = refl
is_silent-both panicked b = refl

after_after :
    (vs : List Violation) (o : Outcome) (f : List Violation → Outcome)
    → ((ws : List Violation) → f ws ≡ after ws (f []))
    → and_then (after vs o) f ≡ after vs (and_then o f)
unfolding and_then
after_after vs (returned ws) f h = h (vs ++ ws) ∙ appended (f []) ∙ ap (after vs) (sym (h ws))
  where
    appended : (o : Outcome) → after (vs ++ ws) o ≡ after vs (after ws o)
    appended (returned us) = ap returned (append_assoc vs ws us)
    appended (failed e) = refl
    appended panicked = refl
after_after vs (failed e) f h = refl
after_after vs panicked f h = refl

module _ (env : Env) where
  abbrev pub is_clean : Visit → Bool
  is_clean (source_file root path) = is_clean_file (env.parse_file path)
  is_clean (unreadable e) = false

  abbrev pub all_clean : List Visit → Bool
  all_clean [] = true
  all_clean (v ∷ rest) = is_clean v && all_clean rest

  visit_after : (v : Visit) (vs : List Violation) → visit env v vs ≡ after vs (visit env v [])
  unfolding visit inspect_file and_then
  visit_after (source_file root path) vs = parsed_after env root path (env.parse_file path) vs
  visit_after (unreadable e) vs = refl

  run_visits_after :
      (l : List Visit) (vs : List Violation) → run_visits env l vs ≡ after vs (run_visits env l [])
  unfolding run_visits and_then
  run_visits_after [] vs = ap returned (sym (append-nil vs))
  run_visits_after (v ∷ rest) vs =
      ap (λ o. and_then o (run_visits env rest)) (visit_after v vs)
      ∙ after_after vs (visit env v []) (run_visits env rest) (run_visits_after rest)

  is_silent-visit : (v : Visit) → is_silent (visit env v []) ≡ is_clean v
  unfolding visit inspect_file
  is_silent-visit (source_file root path) = is_silent-parsed env root path (env.parse_file path)
  is_silent-visit (unreadable e) = refl

  is_silent-run_visits : (l : List Visit) → is_silent (run_visits env l []) ≡ all_clean l
  unfolding run_visits
  is_silent-run_visits [] = refl
  is_silent-run_visits (v ∷ rest) =
      ap is_silent (and_then_same (visit env v []) _ _ (run_visits_after rest))
      ∙ is_silent-both (visit env v []) (run_visits env rest [])
      ∙ ap (λ b. b && is_silent (run_visits env rest [])) (is_silent-visit v)
      ∙ ap (λ b. is_clean v && b) (is_silent-run_visits rest)

  finish_zero : (o : Outcome) → ((finish env o).0 ≡ 0) ↔ (is_silent o ≡ true)
  unfolding finish
  finish_zero (returned []) = (λ h. refl, λ h. refl)
  finish_zero (returned (v ∷ vs)) = ground arith
  finish_zero (failed e) = ground arith
  finish_zero panicked = ground arith

  -- The roots of a command line, the working directory if it names none.
  abbrev pub roots_of : List String → List String
  roots_of [] = "." ∷ []
  roots_of (root ∷ roots) = root ∷ roots

  inspected_zero :
      (roots : List String)
      → ((finish env (inspect_roots env roots [])).0 ≡ 0)
        ↔ (all_clean (all_visits env roots) ≡ true)
  inspected_zero roots =
      rw (inspect_roots_lists env roots [], sym (is_silent-run_visits (all_visits env roots)))
        (finish_zero _)

  -- The lint exits with 0 exactly when each file and directory that it visits below its roots is
  -- clean: no directory that cannot be read, and each Go file outside the ignored directories parsed,
  -- and generated or without a nested if statement and without a function that has no body.
  pub main-clean :
      (roots : List String)
      → ((main env roots).0 ≡ 0) ↔ (all_clean (all_visits env (roots_of roots)) ≡ true)
  unfolding main
  main-clean [] = inspected_zero ("." ∷ [])
  main-clean (root ∷ roots) = inspected_zero (root ∷ roots)
