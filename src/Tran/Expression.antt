-- ===== src/Tran/Expression.antt =====
-- Expressions, the tokens that they are written with, and the code that the translator makes of
-- them: levels 0 to 5 are the methods logic_expr, logic_term, comparison_expr, comparison_term,
-- math_expr and math_term, whose operators bind the tighter the higher the level, and level 6 is
-- math_primary.
use Prim.Native.String.{String}
use sql_relational_database.Common.{
  ℕ, zero, suc, ◌<◌, ◌≤◌, ◌≡◌, true, false, ◌||◌, ◌==◌, arith, List, [], ◌∷◌, ◌++◌, none, some,
  length, length-append, if◌then◌else◌, ◌⊎◌, inr,
}
use sql_relational_database.Vm.Item.{Text}
use sql_relational_database.Tran.Symbol.{
  codes, tok_dot, tok_float, tok_int, tok_l_paren, tok_minus, tok_name, tok_null_sym, tok_plus,
  tok_r_paren, tok_varchar, tok_and, tok_or, tok_eq, tok_ne, tok_ge, tok_gt, tok_le, tok_lt,
  tok_asterisk, tok_backslash,
}
use sql_relational_database.Tran.Lexer.{Token}
use sql_relational_database.Tran.Parser.{call, pusho, Code, empty}
use sql_relational_database.Tran.Operands.{Holds, Holds-append}
use sql_relational_database.Tran.Grammar.{
  Operators, logic_operators, term_operators, equality_operators, order_operators, sum_operators,
  product_operators,
}

pub data Expr : Type 0 where
  value : Text → Expr
  column : Text → Text → Expr
  negate : Expr → Expr
  binary : String → Expr → Expr → Expr

abbrev pub operators_at : ℕ → Operators
operators_at zero = logic_operators
operators_at (suc zero) = term_operators
operators_at (suc (suc zero)) = equality_operators
operators_at (suc (suc (suc zero))) = order_operators
operators_at (suc (suc (suc (suc zero)))) = sum_operators
operators_at (suc (suc (suc (suc (suc n))))) = product_operators

-- Operators of a level are left associative.
pub data Derives : ℕ → Expr → List Token → Type 0 where
  up : (n : ℕ) (e : Expr) (ts : List Token) → n < 6 → Derives (suc n) e ts → Derives n e ts
  operate :
      (n : ℕ) (routine : String) (l r : Expr) (t : Token) (ts us : List Token)
      → n < 6
      → operators_at n t.type ≡ some routine
      → Derives n l ts
      → Derives (suc n) r us
      → Derives n (binary routine l r) (ts ++ (t ∷ us))
  literal :
      (n : ℕ) (t : Token)
      → n ≡ 6
      → (t.type == tok_float || t.type == tok_int) ≡ true
      → Derives n (value t.text) (t ∷ [])
  quote : (n : ℕ) (t : Token) → n ≡ 6 → t.type ≡ tok_varchar → Derives n (value t.text) (t ∷ [])
  null :
      (n : ℕ) (t : Token)
      → n ≡ 6
      → t.type ≡ tok_null_sym
      → Derives n (value (codes "null")) (t ∷ [])
  plain : (n : ℕ) (t : Token) → n ≡ 6 → t.type ≡ tok_name → Derives n (column empty t.text) (t ∷ [])
  qualified :
      (n : ℕ) (t dot u : Token)
      → n ≡ 6
      → t.type ≡ tok_name
      → dot.type ≡ tok_dot
      → u.type ≡ tok_name
      → Derives n (column t.text u.text) (t ∷ dot ∷ u ∷ [])
  parenthesise :
      (n : ℕ) (e : Expr) (open_paren close_paren : Token) (ts : List Token)
      → n ≡ 6
      → open_paren.type ≡ tok_l_paren
      → close_paren.type ≡ tok_r_paren
      → Derives 0 e ts
      → Derives n e (open_paren ∷ ts ++ (close_paren ∷ []))
  minus :
      (n : ℕ) (e : Expr) (t : Token) (ts : List Token)
      → n ≡ 6
      → t.type ≡ tok_minus
      → Derives n e ts
      → Derives n (negate e) (t ∷ ts)
  plus :
      (n : ℕ) (e : Expr) (t : Token) (ts : List Token)
      → n ≡ 6
      → t.type ≡ tok_plus
      → Derives n e ts
      → Derives n e (t ∷ ts)

-- The code of an expression in prefix form, on the operands that hold its texts.
abbrev pub Emits : List Token → Expr → Code → Type 0
Emits ops (value text) code =
    (i : ℕ) × (code ≡ call "MKEXPR" ∷ pusho (some i) ∷ []) × Holds ops i text
Emits ops (column table name) code =
    (h i j : ℕ) × (code ≡ call "MKCLMNEXPR" ∷ pusho (some h) ∷ pusho (some i) ∷ pusho (some j) ∷ [])
    × Holds ops h empty
    × Holds ops i table
    × Holds ops j name
Emits ops (negate e) code = (c : Code) × (code ≡ call "NEGATE" ∷ c) × Emits ops e c
Emits ops (binary routine l r) code =
    (c d : Code) × (code ≡ call routine ∷ c ++ d) × Emits ops l c × Emits ops r d

pub Emits-append :
    (ops more : List Token) (e : Expr) (code : Code) → Emits ops e code → Emits (ops ++ more) e code
Emits-append ops more (value text) code (i, e, h) = (i, e, Holds-append ops more i text h)
Emits-append ops more (column table name) code (h, i, j, e, a, b, c) = (
  h,
  i,
  j,
  e,
  Holds-append ops more h empty a,
  Holds-append ops more i table b,
  Holds-append ops more j name c,
)
Emits-append ops more (negate e) code (c, q, h) = (c, q, Emits-append ops more e c h)
Emits-append ops more (binary routine l r) code (c, d, q, h, k) =
    (c, d, q, Emits-append ops more l c h, Emits-append ops more r d k)

pub Derives-length : (n : ℕ) (e : Expr) (ts : List Token) → Derives n e ts → 0 < length ts
Derives-length _ _ _ (up n e ts h d) = Derives-length (suc n) e ts d
Derives-length _ _ _ (operate n routine l r t ts us h o d f) =
    omega (arith, length-append ts (t ∷ us))
Derives-length _ _ _ (literal n t h o) = omega arith
Derives-length _ _ _ (quote n t h o) = omega arith
Derives-length _ _ _ (null n t h o) = omega arith
Derives-length _ _ _ (plain n t h o) = omega arith
Derives-length _ _ _ (qualified n t dot u h o p q) = omega arith
Derives-length _ _ _ (parenthesise n e a b ts h o p d) = omega arith
Derives-length _ _ _ (minus n e t ts h o d) = omega arith
Derives-length _ _ _ (plus n e t ts h o d) = omega arith

-- A token that cannot continue an expression of the level, nor a name.
abbrev pub Stops : ℕ → Token → Type 0
Stops n u = ((u.type == tok_dot) ≡ false) × ((m : ℕ) → n ≤ m → m < 6 → operators_at m u.type ≡ none)

pub Stops-suc : (n : ℕ) (u : Token) → Stops n u → Stops (suc n) u
Stops-suc n u (d, h) = (d, λ m le lt. h m (omega arith) lt)

-- The operators of a level are those of no other.
operators_dot : (n t : ℕ) (r : String) → operators_at n t ≡ some r → (t == tok_dot) ≡ false
operators_dot zero t r h = ground arith
operators_dot (suc zero) t r h = ground arith
operators_dot (suc (suc zero)) t r h = ground arith
operators_dot (suc (suc (suc zero))) t r h = ground arith
operators_dot (suc (suc (suc (suc zero)))) t r h = ground arith
operators_dot (suc (suc (suc (suc (suc n))))) t r h = ground arith

-- The level of an operator's token.
abbrev level_of : ℕ → ℕ
level_of t =
    if t == tok_and
    then 0
    else if t == tok_or
    then 1
    else if t == tok_eq || t == tok_ne
    then 2
    else if t == tok_ge || t == tok_gt || t == tok_le || t == tok_lt
    then 3
    else if t == tok_minus || t == tok_plus
    then 4
    else if t == tok_asterisk || t == tok_backslash
    then 5
    else 6

level_of_operator : (n t : ℕ) (r : String) → n < 6 → operators_at n t ≡ some r → level_of t ≡ n
level_of_operator zero t r lt h = ground arith
level_of_operator (suc zero) t r lt h = ground arith
level_of_operator (suc (suc zero)) t r lt h = ground arith
level_of_operator (suc (suc (suc zero))) t r lt h = ground arith
level_of_operator (suc (suc (suc (suc zero)))) t r lt h = ground arith
level_of_operator (suc (suc (suc (suc (suc zero))))) t r lt h = ground arith
level_of_operator (suc (suc (suc (suc (suc (suc n)))))) t r lt h = absurd (omega arith)

other_level : (m t : ℕ) → m < level_of t ⊎ level_of t < m → m < 6 → operators_at m t ≡ none
other_level zero t h lt = ground arith
other_level (suc zero) t h lt = ground arith
other_level (suc (suc zero)) t h lt = ground arith
other_level (suc (suc (suc zero))) t h lt = ground arith
other_level (suc (suc (suc (suc zero)))) t h lt = ground arith
other_level (suc (suc (suc (suc (suc zero))))) t h lt = ground arith
other_level (suc (suc (suc (suc (suc (suc n)))))) t h lt = absurd (omega arith)

-- An operator ends the operands that bind tighter.
pub operator-Stops :
    (n : ℕ) (t : Token) (r : String) → n < 6 → operators_at n t.type ≡ some r → Stops (suc n) t
operator-Stops n t r lt h = (
  operators_dot n t.type r h,
  λ m le less. other_level m t.type (inr (omega (arith, level_of_operator n t.type r lt h))) less,
)
