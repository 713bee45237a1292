-- ===== src/Lint.antt =====
-- scripts/ci/no-nested-if.go: the visitor. The syntax tree is that of go/ast, by what the visitor
-- distinguishes; the children of other nodes stand in the order of `ast.Walk`.
pub mod Nested
pub mod Files
use geul_asset_optimizer.Base.{
  ℕ, zero, suc, String, Bool, true, false, Option, none, some, List, [], ◌∷◌, ◌++◌,
}

pub record Position : Type 0 where
  pub offset : ℕ
  pub line : ℕ
  pub column : ℕ

pub record Violation : Type 0 where
  pub path : String
  pub position : Position

-- An absent node is a nil pointer or interface; a function declared without a body has none.
mutual
  pub data Node : Type 0 where
    func_decl : Slot → Node
    func_lit : Node → Node
    if_stmt : Position → Slot → Node → Node → Slot → Node
    other : Nodes → Node

  pub data Slot : Type 0 where
    absent : Slot
    present : Node → Slot

  pub data Nodes : Type 0 where
    nil : Nodes
    cons : Node → Nodes → Nodes

-- The violations so far, or a panic.
abbrev pub Found : Type 0
Found = Option (List Violation)

infixl 5 ◌>>=◌
unfoldable pub ◌>>=◌ : Found → (List Violation → Found) → Found
none >>= next = none
some vs >>= next = next vs

abbrev pub is_if : Node → Bool
is_if (if_stmt position init cond body else_) = true
is_if _ = false

-- The report of an if statement at a depth.
unfoldable pub report : String → ℕ → Position → List Violation → List Violation
report path zero position vs = vs
report path (suc depth) position vs = vs ++ record { path = path; position = position } ∷ []

-- An `else if` stays at the depth of its if statement.
unfoldable pub else_depth : Slot → ℕ → ℕ
else_depth absent depth = suc depth
else_depth (present node) depth = elim (is_if node) [ true ↦ depth | false ↦ suc depth ]

-- `ast.Walk` with the visitor at a depth. Walking the nil body of a function panics.
unfoldable mutual
  unfolding ◌>>=◌ report else_depth

  pub walk : String → ℕ → Node → List Violation → Found
  walk path depth (func_decl absent) vs = none
  walk path depth (func_decl (present body)) vs = walk path 0 body vs
  walk path depth (func_lit body) vs = walk path 0 body vs
  walk path depth (if_stmt position init cond body else_) vs = do
    init_found ← walk_slot path (suc depth) init (report path depth position vs)
    cond_found ← walk path (suc depth) cond init_found
    body_found ← walk path (suc depth) body cond_found
    walk_slot path (else_depth else_ depth) else_ body_found
  walk path depth (other children) vs = walk_nodes path depth children vs

  pub walk_slot : String → ℕ → Slot → List Violation → Found
  walk_slot path depth absent vs = some vs
  walk_slot path depth (present node) vs = walk path depth node vs

  pub walk_nodes : String → ℕ → Nodes → List Violation → Found
  walk_nodes path depth nil vs = some vs
  walk_nodes path depth (cons node rest) vs = do
    found ← walk path depth node vs
    walk_nodes path depth rest found
