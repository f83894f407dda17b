-- ===== src/Tran/Grammar.antt =====
-- The expressions of class parser (tran/tran.cpp: name, logic_expr to math_term). The methods call
-- one another, so each call costs a unit of fuel; a loop has what is left of it.
use sql_relational_database.Common.{
  ℕ, zero, suc, ◌+◌, ◌*◌, length, Bool, true, false, ◌||◌, ◌==◌, if◌then◌else◌, List, [], ◌∷◌, ◌++◌,
  Option, none, some,
}
use sql_relational_database.Common.Exec.{Exec, throw, gets, pure, ◌>>=◌, ◌>>◌, token_error, endless}
use Prim.Native.String.{String}
use sql_relational_database.Tran.Symbol.{
  codes, tok_and, tok_asterisk, tok_backslash, tok_dot, tok_eq, tok_float, tok_ge, tok_gt, tok_int,
  tok_l_paren, tok_le, tok_lt, tok_minus, tok_name, tok_ne, tok_null_sym, tok_or, tok_plus,
  tok_r_paren, tok_varchar,
}
use sql_relational_database.Tran.Parser.{
  Parser, call, pusho, Code, get_lookahead_type, consume, match_type, find_data, data_of, data_text,
  speculate_list, load_lookahead, empty,
}

abbrev pub name_dot_name_list : List ℕ
name_dot_name_list = tok_name ∷ tok_dot ∷ tok_name ∷ []

abbrev pub name_dot_name_dot_name_list : List ℕ
name_dot_name_dot_name_list = tok_name ∷ tok_dot ∷ name_dot_name_list

abbrev pub name_dot_asterisk_list : List ℕ
name_dot_asterisk_list = tok_name ∷ tok_dot ∷ tok_asterisk ∷ []

abbrev pub name_dot_name_dot_asterisk_list : List ℕ
name_dot_name_dot_asterisk_list = tok_name ∷ tok_dot ∷ name_dot_asterisk_list

-- name where the name has three parts and the last is an asterisk
unfoldable pub schema_asterisk : Exec Parser Code
unfolding data_of match_type ◌>>=◌
schema_asterisk = do
  schema ← data_of tok_name
  match_type tok_dot
  table ← data_of tok_name
  match_type tok_dot
  match_type tok_asterisk
  pure (call "MKASTEXPR" ∷ pusho schema ∷ pusho table ∷ [])

-- two parts, the last an asterisk
unfoldable pub table_asterisk : Exec Parser Code
unfolding data_of match_type find_data ◌>>=◌
table_asterisk = do
  schema ← gets (find_data empty)
  table ← data_of tok_name
  match_type tok_dot
  match_type tok_asterisk
  pure (call "MKASTEXPR" ∷ pusho schema ∷ pusho table ∷ [])

-- three parts
unfoldable pub schema_column : Exec Parser Code
unfolding data_of match_type find_data ◌>>=◌
schema_column = do
  schema ← gets (find_data empty)
  match_type tok_dot
  table ← data_of tok_name
  match_type tok_dot
  column ← data_of tok_name
  pure (call "MKCLMNEXPR" ∷ pusho schema ∷ pusho table ∷ pusho column ∷ [])

-- two parts
unfoldable pub table_column : Exec Parser Code
unfolding data_of match_type find_data ◌>>=◌
table_column = do
  schema ← gets (find_data empty)
  table ← data_of tok_name
  match_type tok_dot
  column ← data_of tok_name
  pure (call "MKCLMNEXPR" ∷ pusho schema ∷ pusho table ∷ pusho column ∷ [])

unfoldable pub plain_column : Exec Parser Code
unfolding data_of find_data ◌>>=◌
plain_column = do
  schema ← gets (find_data empty)
  table ← gets (find_data empty)
  column ← data_of tok_name
  pure (call "MKCLMNEXPR" ∷ pusho schema ∷ pusho table ∷ pusho column ∷ [])

-- if (speculate_list(types)) ... else ...
abbrev pub if_ahead : List ℕ → Exec Parser Code → Exec Parser Code → Exec Parser Code
if_ahead types ahead other = speculate_list types >>= λ b. if b then ahead else other

unfoldable pub name : Exec Parser Code
unfolding speculate_list schema_asterisk table_asterisk schema_column table_column plain_column
    ◌>>=◌
name = if_ahead name_dot_name_dot_asterisk_list schema_asterisk (
    if_ahead name_dot_asterisk_list table_asterisk (
      if_ahead name_dot_name_dot_name_list schema_column
        (if_ahead name_dot_name_list table_column plain_column)))

-- The operators of one level, by the type of their token, with the routine that they call.
abbrev pub Operators : Type 0
Operators = ℕ → Option String

abbrev pub logic_operators : Operators
logic_operators t = if t == tok_and then some "AND" else none

abbrev pub term_operators : Operators
term_operators t = if t == tok_or then some "OR" else none

abbrev pub equality_operators : Operators
equality_operators t =
    if t == tok_eq then some "CMPEQ" else if t == tok_ne then some "CMPNE" else none

abbrev pub order_operators : Operators
order_operators t =
    if t == tok_ge
    then some "CMPGE"
    else if t == tok_gt
    then some "CMPGT"
    else if t == tok_le
    then some "CMPLE"
    else if t == tok_lt
    then some "CMPLT"
    else none

abbrev pub sum_operators : Operators
sum_operators t = if t == tok_minus then some "SUB" else if t == tok_plus then some "ADD" else none

abbrev pub product_operators : Operators
product_operators t =
    if t == tok_asterisk then some "MUL" else if t == tok_backslash then some "DIV" else none

-- One round of the loop below; `again` is the loop itself on its new code and a term that has been
-- cleared.
unfoldable pub operation :
    Option String → Exec Parser Code → (Code → Exec Parser Code) → Code → Code → Exec Parser Code
unfolding consume ◌>>=◌
operation none operand again code term = pure (code ++ term)
operation (some routine) operand again code term = do
  consume
  next ← operand
  again ((call routine ∷ code) ++ (term ++ next))

-- The loop that each of the six methods runs. `code` and `term` are its code and its term_code (or
-- primary_code), `operand` the method that it calls for an operand, use_asterisk being false.
unfoldable pub operator_loop : ℕ → Operators → Exec Parser Code → Code → Code → Exec Parser Code
unfolding get_lookahead_type operation ◌>>=◌
operator_loop zero operators operand code term = throw endless
operator_loop (suc fuel) operators operand code term = do
  type ← get_lookahead_type 0
  operation (operators type) operand (λ code. operator_loop fuel operators operand code []) code
      term

-- What the switch of math_primary does at a token.
pub data Primary : Type 0 where
  asterisk literal parenthesis negation column null_symbol sign varchar refused : Primary

abbrev pub primary : ℕ → Primary
primary t =
    if t == tok_asterisk
    then asterisk
    else if t == tok_float || t == tok_int
    then literal
    else if t == tok_l_paren
    then parenthesis
    else if t == tok_minus
    then negation
    else if t == tok_name
    then column
    else if t == tok_null_sym
    then null_symbol
    else if t == tok_plus
    then sign
    else if t == tok_varchar
    then varchar
    else refused

unfoldable pub all_columns : Bool → Exec Parser Code
unfolding consume get_lookahead_type find_data ◌>>=◌
all_columns false = throw token_error
all_columns true = do
  consume
  type ← get_lookahead_type 0
  schema ← gets (find_data empty)
  table ← gets (find_data empty)
  if type == tok_asterisk
      then throw token_error
      else pure (call "MKASTEXPR" ∷ pusho schema ∷ pusho table ∷ [])

unfoldable pub value_of : ℕ → Exec Parser Code
unfolding data_of ◌>>=◌
value_of type = do i ← data_of type; pure (call "MKEXPR" ∷ pusho i ∷ [])

unfoldable pub null_operand : Exec Parser Code
unfolding consume data_text ◌>>=◌
null_operand = do consume; i ← data_text (codes "null"); pure (call "MKEXPR" ∷ pusho i ∷ [])

-- The switch; `inner` is logic_expr on no code, `operand` is math_primary without use_asterisk.
unfoldable pub primary_at :
    Exec Parser Code → Exec Parser Code → Bool → ℕ → Primary → Exec Parser Code
unfolding all_columns value_of null_operand name consume match_type ◌>>=◌
primary_at inner operand use_asterisk type asterisk = all_columns use_asterisk
primary_at inner operand use_asterisk type literal = value_of type
primary_at inner operand use_asterisk type parenthesis = do
  consume
  code ← inner
  match_type tok_r_paren
  pure code
primary_at inner operand use_asterisk type negation = do
  consume
  code ← operand
  pure (call "NEGATE" ∷ code)
primary_at inner operand use_asterisk type column = name
primary_at inner operand use_asterisk type null_symbol = null_operand
primary_at inner operand use_asterisk type sign = consume >> operand
primary_at inner operand use_asterisk type varchar = value_of tok_varchar
primary_at inner operand use_asterisk type refused = throw token_error

-- Every method but logic_expr clears its code first.
unfoldable mutual
  unfolding operator_loop primary_at load_lookahead get_lookahead_type ◌>>=◌

  pub logic_expr : ℕ → Code → Exec Parser Code
  logic_expr zero code = throw endless
  logic_expr (suc fuel) code = do
    term ← logic_term fuel true
    operator_loop fuel logic_operators (logic_term fuel false) code term

  pub logic_term : ℕ → Bool → Exec Parser Code
  logic_term zero use_asterisk = throw endless
  logic_term (suc fuel) use_asterisk = do
    term ← comparison_expr fuel use_asterisk
    operator_loop fuel term_operators (comparison_expr fuel false) [] term

  pub comparison_expr : ℕ → Bool → Exec Parser Code
  comparison_expr zero use_asterisk = throw endless
  comparison_expr (suc fuel) use_asterisk = do
    term ← comparison_term fuel use_asterisk
    operator_loop fuel equality_operators (comparison_term fuel false) [] term

  pub comparison_term : ℕ → Bool → Exec Parser Code
  comparison_term zero use_asterisk = throw endless
  comparison_term (suc fuel) use_asterisk = do
    term ← math_expr fuel use_asterisk
    operator_loop fuel order_operators (math_expr fuel false) [] term

  pub math_expr : ℕ → Bool → Exec Parser Code
  math_expr zero use_asterisk = throw endless
  math_expr (suc fuel) use_asterisk = do
    term ← math_term fuel use_asterisk
    operator_loop fuel sum_operators (math_term fuel false) [] term

  pub math_term : ℕ → Bool → Exec Parser Code
  math_term zero use_asterisk = throw endless
  math_term (suc fuel) use_asterisk = do
    term ← math_primary fuel use_asterisk
    operator_loop fuel product_operators (math_primary fuel false) [] term

  pub math_primary : ℕ → Bool → Exec Parser Code
  math_primary zero use_asterisk = throw endless
  math_primary (suc fuel) use_asterisk = do
    load_lookahead 6
    type ← get_lookahead_type 0
    primary_at (logic_expr fuel []) (math_primary fuel false) use_asterisk type (primary type)

-- expr. No token is shorter than a character, so that this is more fuel than any input uses.
unfoldable pub expr : Code → Exec Parser Code
unfolding logic_expr
expr code p = logic_expr (8 * (length p.lexer.input + 1)) code p
