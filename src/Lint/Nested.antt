-- ===== src/Lint/Nested.antt =====
-- What the visitor of scripts/ci/no-nested-if.go reports, without a depth and without an accumulator.
use mathlib.Core.List.{append-nil, append_assoc, map-append}
use geul_asset_optimizer.Base.{
  zero, suc, ◌∙◌, sym, ap, ℕ, String, Bool, true, false, ◌||◌, none, some, List, [], ◌∷◌, ◌++◌, map,
  if◌then◌else◌, ◌≡◌, refl,
}
use geul_asset_optimizer.Lint.{
  walk_nodes, walk_slot, Position, Violation, Node, Slot, Nodes, func_decl, func_lit, if_stmt,
  other, absent, present, nil, cons, ◌>>=◌, is_if, report, else_depth, walk, Found,
}

-- Whether a function without a body is declared in the tree.
unfoldable mutual
  pub lacks_body : Node → Bool
  lacks_body (func_decl absent) = true
  lacks_body (func_decl (present body)) = lacks_body body
  lacks_body (func_lit body) = lacks_body body
  lacks_body (if_stmt position init cond body else_) =
      lacks_body_slot init || (lacks_body cond || (lacks_body body || lacks_body_slot else_))
  lacks_body (other children) = lacks_body_nodes children

  pub lacks_body_slot : Slot → Bool
  lacks_body_slot absent = false
  lacks_body_slot (present node) = lacks_body node

  pub lacks_body_nodes : Nodes → Bool
  lacks_body_nodes nil = false
  lacks_body_nodes (cons node rest) = lacks_body node || lacks_body_nodes rest

abbrev pub is_else_if : Slot → Bool
is_else_if absent = false
is_else_if (present node) = is_if node

abbrev pub reported_if : Bool → Position → List Position
reported_if true position = position ∷ []
reported_if false position = []

-- The if statements that lie in another one of their function, `inside` saying whether the node does.
-- An `else if` lies where its if statement lies.
unfoldable mutual
  pub nested : Bool → Node → List Position
  nested inside (func_decl absent) = []
  nested inside (func_decl (present body)) = nested false body
  nested inside (func_lit body) = nested false body
  nested inside (if_stmt position init cond body else_) =
      let from_else = nested_slot (if is_else_if else_ then inside else true) else_ in
      let from_body = nested true body ++ from_else in
      let from_cond = nested true cond ++ from_body in
      reported_if inside position ++ (nested_slot true init ++ from_cond)
  nested inside (other children) = nested_nodes inside children

  pub nested_slot : Bool → Slot → List Position
  nested_slot inside absent = []
  nested_slot inside (present node) = nested inside node

  pub nested_nodes : Bool → Nodes → List Position
  nested_nodes inside nil = []
  nested_nodes inside (cons node rest) = nested inside node ++ nested_nodes inside rest

abbrev pub inside_at : ℕ → Bool
inside_at zero = false
inside_at (suc depth) = true

abbrev pub violation_at : String → Position → Violation
violation_at path position = record { path = path; position = position }

-- A panic, or the violations at the positions after those so far.
unfoldable pub expected : String → Bool → List Position → List Violation → Found
expected path true positions vs = none
expected path false positions vs = some (vs ++ map (violation_at path) positions)

module _ (path : String) where
  pub expected_nothing : (vs : List Violation) → some vs ≡ expected path false [] vs
  unfolding expected
  expected_nothing vs = ap some (sym (append-nil vs))

  nothing_expected : (vs : List Violation) → none ≡ expected path true [] vs
  unfolding expected
  nothing_expected vs = refl

  expected_both :
      (k l : Bool) (ps qs : List Position) (vs : List Violation)
      → (expected path k ps vs >>= expected path l qs) ≡ expected path (k || l) (ps ++ qs) vs
  unfolding expected ◌>>=◌
  expected_both true l ps qs vs = refl
  expected_both false true ps qs vs = refl
  expected_both false false ps qs vs = ap some (
      append_assoc vs (map (violation_at path) ps) (map (violation_at path) qs)
      ∙ ap (λ ws. vs ++ ws) (sym (map-append (violation_at path) ps qs)))

  bind_same :
      (m : Found) (f g : List Violation → Found)
      → ((found : List Violation) → f found ≡ g found)
      → (m >>= f) ≡ (m >>= g)
  unfolding ◌>>=◌
  bind_same none f g h = refl
  bind_same (some found) f g h = h found

  expected-bind :
      (k l : Bool) (ps qs : List Position) (vs : List Violation) {m : Found}
      {f : List Violation → Found}
      → m ≡ expected path k ps vs
      → ((found : List Violation) → f found ≡ expected path l qs found)
      → (m >>= f) ≡ expected path (k || l) (ps ++ qs) vs
  expected-bind k l ps qs vs {m} {f} hm hf =
      ap (λ o. o >>= f) hm ∙ bind_same _ f (expected path l qs) hf ∙ expected_both k l ps qs vs

  expected-report :
      (depth : ℕ) (position : Position) (l : Bool) (ps : List Position) (vs : List Violation)
      → expected path l ps (report path depth position vs)
        ≡ expected path l (reported_if (inside_at depth) position ++ ps) vs
  unfolding expected report
  expected-report depth position true ps vs = refl
  expected-report zero position false ps vs = refl
  expected-report (suc depth) position false ps vs = ap some (append_assoc vs _ _)

  else_inside :
      (else_ : Slot) (depth : ℕ)
      → inside_at (else_depth else_ depth) ≡ (if is_else_if else_ then inside_at depth else true)
  unfolding else_depth
  else_inside absent depth = refl
  else_inside (present (if_stmt position init cond body else_)) depth = refl
  else_inside (present (func_decl body)) depth = refl
  else_inside (present (func_lit body)) depth = refl
  else_inside (present (other children)) depth = refl

  else_expected :
      (else_ : Slot) (depth : ℕ) (vs : List Violation)
      → expected path
          (lacks_body_slot else_)
          (nested_slot (inside_at (else_depth else_ depth)) else_)
          vs
        ≡ expected path
            (lacks_body_slot else_)
            (nested_slot (if is_else_if else_ then inside_at depth else true) else_)
            vs
  else_expected else_ depth vs =
      ap (λ inside. expected path (lacks_body_slot else_) (nested_slot inside else_) vs)
        (else_inside else_ depth)

  mutual
    unfolding walk lacks_body nested

    pub walk_agrees :
        (node : Node) (depth : ℕ) (vs : List Violation)
        → walk path depth node vs
          ≡ expected path (lacks_body node) (nested (inside_at depth) node) vs
    walk_agrees (func_decl absent) depth vs = nothing_expected vs
    walk_agrees (func_decl (present body)) depth vs = walk_agrees body 0 vs
    walk_agrees (func_lit body) depth vs = walk_agrees body 0 vs
    walk_agrees (if_stmt position init cond body else_) depth vs =
        expected-bind _ _ _ _ _ (slot_agrees init (suc depth) (report path depth position vs)) (λ a.
          expected-bind _ _ _ _ _ (walk_agrees cond (suc depth) a) (λ b.
            expected-bind _ _ _ _ _ (walk_agrees body (suc depth) b)
              (λ c. slot_agrees else_ (else_depth else_ depth) c ∙ else_expected else_ depth c)))
        ∙ expected-report depth position _ _ vs
    walk_agrees (other children) depth vs = nodes_agree children depth vs

    slot_agrees :
        (slot : Slot) (depth : ℕ) (vs : List Violation)
        → walk_slot path depth slot vs
          ≡ expected path (lacks_body_slot slot) (nested_slot (inside_at depth) slot) vs
    slot_agrees absent depth vs = expected_nothing vs
    slot_agrees (present node) depth vs = walk_agrees node depth vs

    nodes_agree :
        (nodes : Nodes) (depth : ℕ) (vs : List Violation)
        → walk_nodes path depth nodes vs
          ≡ expected path (lacks_body_nodes nodes) (nested_nodes (inside_at depth) nodes) vs
    nodes_agree nil depth vs = expected_nothing vs
    nodes_agree (cons node rest) depth vs =
        expected-bind _ _ _ _ _ (walk_agrees node depth vs) (λ found. nodes_agree rest depth found)

expected_first :
    (path : String) (b : Bool) (positions : List Position)
    → expected path b positions [] ≡ (if b then none else some (map (violation_at path) positions))
unfolding expected
expected_first path true positions = refl
expected_first path false positions = refl

-- The visitor reports exactly the if statements of a file that lie in another one of their function,
-- in the order of the file, and it panics exactly when the file declares a function without a body.
pub walk_reports_nested :
    (path : String) (file : Node)
    → walk path 0 file []
      ≡ (if lacks_body file then none else some (map (violation_at path) (nested false file)))
walk_reports_nested path file = walk_agrees path file 0 [] ∙ expected_first path _ _
