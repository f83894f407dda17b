-- ===== src/Tran/Translate.antt =====
-- The translation of expressions, from their tokens and from their text.
use sql_relational_database.Common.{
  ℕ, suc, ◌+◌, ◌*◌, ◌<◌, ◌≤◌, ◌≡◌, sym, subst, arith, List, [], ◌∷◌, ◌++◌, length, true,
}
use sql_relational_database.Tran.Symbol.{codes}
use sql_relational_database.Tran.Lexer.{Token}
use sql_relational_database.Tran.Parser.{Parser, Code, empty}
use sql_relational_database.Tran.Grammar.{logic_expr}
use sql_relational_database.Tran.Ahead.{Stands}
use sql_relational_database.Tran.Operands.{Yields}
use sql_relational_database.Tran.Expression.{
  Expr, value, column, negate, Derives, Derives-length, Emits, Stops, up, operate, literal, quote,
  null, plain, qualified, parenthesise, minus, plus,
}
use sql_relational_database.Tran.Levels.{Parses, Chains, HasEmpty, chain_first, chain_next, finish}
use sql_relational_database.Tran.Primaries.{
  literal-Parses, quote-Parses, null-Parses, minus-Parses, plus-Parses,
}
use sql_relational_database.Tran.Names.{plain-Parses, qualified-Parses, parenthesise-Parses}

-- At level six.
at_six : (n : ℕ) (e : Expr) (ts : List Token) → n ≡ 6 → Parses 6 e ts → Parses n e ts
at_six n e ts h p = subst (λ k. Parses k e ts) (sym h) p

from_six : (n : ℕ) (e : Expr) (ts : List Token) → n ≡ 6 → Parses n e ts → Parses 6 e ts
from_six n e ts h p = subst (λ k. Parses k e ts) h p

mutual
  pub Derives-Parses : (n : ℕ) (e : Expr) (ts : List Token) → Derives n e ts → Parses n e ts
  Derives-Parses _ _ _ (up n e ts h d) =
      finish n e ts h
        (chain_first n e ts h (Derives-length (suc n) e ts d) (Derives-Parses (suc n) e ts d))
  Derives-Parses _ _ _ (operate n routine l r t ts us h o d f) = finish n _ _ h (
      chain_next n l r t ts us routine h o (Derives-length (suc n) r us f)
        (Derives-Chains n l ts d h) (Derives-Parses (suc n) r us f))
  Derives-Parses _ _ _ (literal n t h o) = at_six n (value t.text) _ h (literal-Parses t o)
  Derives-Parses _ _ _ (quote n t h o) = at_six n (value t.text) _ h (quote-Parses t o)
  Derives-Parses _ _ _ (null n t h o) = at_six n (value (codes "null")) _ h (null-Parses t o)
  Derives-Parses _ _ _ (plain n t h o) = at_six n (column empty t.text) _ h (plain-Parses t o)
  Derives-Parses _ _ _ (qualified n t dot u h o p q) =
      at_six n (column t.text u.text) _ h (qualified-Parses t dot u o p q)
  Derives-Parses _ _ _ (parenthesise n e a z ts h o p d) =
      at_six n e _ h (parenthesise-Parses e a z ts o p (Derives-Parses 0 e ts d))
  Derives-Parses _ _ _ (minus n e t ts h o d) = at_six n (negate e) _ h (
      minus-Parses e t ts o (Derives-length n e ts d) (from_six n e ts h (Derives-Parses n e ts d)))
  Derives-Parses _ _ _ (plus n e t ts h o d) =
      at_six n e _ h (
        plus-Parses e t ts o (Derives-length n e ts d)
          (from_six n e ts h (Derives-Parses n e ts d)))

  Derives-Chains : (n : ℕ) (e : Expr) (ts : List Token) → Derives n e ts → n < 6 → Chains n e ts
  Derives-Chains _ _ _ (up n e ts h d) lt =
      chain_first n e ts h (Derives-length (suc n) e ts d) (Derives-Parses (suc n) e ts d)
  Derives-Chains _ _ _ (operate n routine l r t ts us h o d f) lt =
      chain_next n l r t ts us routine h o (Derives-length (suc n) r us f)
        (Derives-Chains n l ts d h) (Derives-Parses (suc n) r us f)
  Derives-Chains _ _ _ (literal n t h o) lt = absurd (omega arith)
  Derives-Chains _ _ _ (quote n t h o) lt = absurd (omega arith)
  Derives-Chains _ _ _ (null n t h o) lt = absurd (omega arith)
  Derives-Chains _ _ _ (plain n t h o) lt = absurd (omega arith)
  Derives-Chains _ _ _ (qualified n t dot u h o p q) lt = absurd (omega arith)
  Derives-Chains _ _ _ (parenthesise n e a z ts h o p d) lt = absurd (omega arith)
  Derives-Chains _ _ _ (minus n e t ts h o d) lt = absurd (omega arith)
  Derives-Chains _ _ _ (plus n e t ts h o d) lt = absurd (omega arith)

-- Take the tokens of an expression in which OR binds tighter than AND, comparison than OR, and
-- arithmetic than comparison, and operators of one level are left associative. Where they come next,
-- and then a token that cannot go on with the expression and five more, logic_expr returns, with
-- eight units of fuel for each token and eight more, the code of that expression in prefix form,
-- whose operands hold the texts, keeps the operands that there were and stops behind the
-- expression.
pub logic_expr-Derives :
    (fuel : ℕ) (e : Expr) (ts : List Token) (p : Parser) (u : Token) (us : List Token)
    → Derives 0 e ts
    → 8 * length ts + 7 < fuel
    → Stops 0 u
    → 5 ≤ length us
    → HasEmpty p
    → Stands p (ts ++ (u ∷ us))
    → (code : Code) × (after : Parser) × Yields (logic_expr fuel []) p code after (u ∷ us)
      × Emits after.operands e code
logic_expr-Derives fuel e ts p u us d enough stops long first s =
    Derives-Parses 0 e ts d fuel true p u us (omega arith)
      (record { stops = stops; enough = long; has_empty = first; stands = s })
