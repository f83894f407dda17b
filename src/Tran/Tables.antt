-- ===== src/Tran/Tables.antt =====
-- Lines of code in m_code, the references to tables and the clauses of statements (tran/tran.cpp:
-- table_reference_list to opt_into_outfile, column_list, value_set and their callers). A method
-- that adds to the code of its caller returns what it adds; m_code is not read after a throw.
use sql_relational_database.Common.{
  ℕ, zero, suc, ◌+◌, ◌&&◌, ◌==◌, if◌then◌else◌, [], ◌∷◌, ◌++◌, length, set,
}
use sql_relational_database.Common.Exec.{Exec, throw, gets, pure, ◌>>=◌, ◌>>◌, endless}
use sql_relational_database.Tran.Symbol.{
  tok_as, tok_comma, tok_dot, tok_l_paren, tok_name, tok_r_paren,
}
use sql_relational_database.Tran.Parser.{
  Parser, Line, blank, push, call, pusho, Code, modify, get_lookahead_type, consume, match_type,
  find_data, data_of, load_lookahead, empty,
}
use sql_relational_database.Tran.Grammar.{expr}

-- m_code.push_back(line)
unfoldable pub emit : Line → Exec Parser (Unit {0})
emit line = modify λ p. record p { code = p.code ++ line ∷ [] }

-- for (auto c : code) m_code.push_back(c);
unfoldable pub emit_all : Code → Exec Parser (Unit {0})
emit_all code = modify λ p. record p { code = p.code ++ code }

-- m_code[mrk] = line
unfoldable pub fill_line : ℕ → Line → Exec Parser (Unit {0})
fill_line mrk line = modify λ p. record p { code = set p.code mrk line }

abbrev pub code_size : Parser → ℕ
code_size p = length p.code

-- m_code.push_back("PUSHO " + data(type))
unfoldable pub emit_data : ℕ → Exec Parser (Unit {0})
unfolding data_of emit ◌>>=◌
emit_data type = do i ← data_of type; emit (pusho i)

-- m_code.push_back("PUSHO " + find_data(empty))
unfoldable pub emit_empty : Exec Parser (Unit {0})
unfolding find_data emit ◌>>=◌
emit_empty = do i ← gets (find_data empty); emit (pusho i)

-- A loop that reads a token in each round cannot go round more often than there are characters.
abbrev pub in_rounds : {A : Type 0} → (ℕ → Exec Parser A) → Exec Parser A
in_rounds loop p = loop (length p.lexer.input + 1) p

-- The loop over names and commas of column_list and of the lists of key columns.
unfoldable pub column_list : ℕ → ℕ → Exec Parser ℕ
unfolding emit_data get_lookahead_type consume ◌>>=◌
column_list zero count = throw endless
column_list (suc fuel) count = do
  emit_data tok_name
  type ← get_lookahead_type 0
  let more = consume >> column_list fuel (count + 1)
  if type == tok_comma then more else pure (count + 1)

unfoldable pub opt_column_list : Exec Parser (Unit {0})
unfolding column_list emit fill_line match_type ◌>>=◌
opt_column_list = do
  mrk ← gets code_size
  emit blank
  type ← get_lookahead_type 0
  count ← (if type == tok_l_paren then listed else pure 0)
  fill_line mrk (push count)
  where
    listed : Exec Parser ℕ
    listed = do
      consume
      count ← in_rounds (λ fuel. column_list fuel 0)
      match_type tok_r_paren
      pure count

-- index_key, and the same steps in foreign_key, primary_key and unique_key.
unfoldable pub index_key : Exec Parser (Unit {0})
unfolding column_list emit fill_line match_type ◌>>=◌
index_key = do
  match_type tok_l_paren
  mrk ← gets code_size
  emit blank
  count ← in_rounds (λ fuel. column_list fuel 0)
  fill_line mrk (push count)
  match_type tok_r_paren

unfoldable pub value_expr : Exec Parser (Unit {0})
unfolding expr emit_all ◌>>=◌
value_expr = do code ← expr []; emit_all code

unfoldable pub values_loop : ℕ → ℕ → Exec Parser ℕ
unfolding value_expr get_lookahead_type consume ◌>>=◌
values_loop zero count = throw endless
values_loop (suc fuel) count = do
  value_expr
  type ← get_lookahead_type 0
  let more = consume >> values_loop fuel (count + 1)
  if type == tok_comma then more else pure (count + 1)

unfoldable pub value_set : Exec Parser (Unit {0})
unfolding values_loop emit fill_line ◌>>=◌
value_set = do
  mrk ← gets code_size
  emit blank
  count ← in_rounds (λ fuel. values_loop fuel 0)
  fill_line mrk (push count)

unfoldable pub value_sets_loop : ℕ → ℕ → Exec Parser ℕ
unfolding value_set match_type get_lookahead_type consume ◌>>=◌
value_sets_loop zero count = throw endless
value_sets_loop (suc fuel) count = do
  match_type tok_l_paren
  value_set
  match_type tok_r_paren
  type ← get_lookahead_type 0
  let more = consume >> value_sets_loop fuel (count + 1)
  if type == tok_comma then more else pure (count + 1)

unfoldable pub value_set_list : Exec Parser (Unit {0})
unfolding value_sets_loop emit fill_line ◌>>=◌
value_set_list = do
  mrk ← gets code_size
  emit blank
  count ← in_rounds (λ fuel. value_sets_loop fuel 0)
  fill_line mrk (push count)

unfoldable pub opt_as_alias : Exec Parser Code
unfolding get_lookahead_type match_type data_of find_data ◌>>=◌
opt_as_alias = do
  type ← get_lookahead_type 0
  if type == tok_as then aliased else (if type == tok_name then named else unnamed)
  where
    named : Exec Parser Code
    named = do i ← data_of tok_name; pure (pusho i ∷ [])

    aliased : Exec Parser Code
    aliased = match_type tok_as >> named

    unnamed : Exec Parser Code
    unnamed = do i ← gets (find_data empty); pure (pusho i ∷ [])

-- A table, with its schema or the empty text before it.
unfoldable pub table_name : Exec Parser Code
unfolding load_lookahead get_lookahead_type match_type data_of find_data ◌>>=◌
table_name = do
  load_lookahead 2
  type ← get_lookahead_type 0
  next ← get_lookahead_type 1
  if type == tok_name && next == tok_dot then in_schema else alone
  where
    in_schema : Exec Parser Code
    in_schema = do
      schema ← data_of tok_name
      match_type tok_dot
      table ← data_of tok_name
      pure (pusho schema ∷ pusho table ∷ [])

    alone : Exec Parser Code
    alone = do
      schema ← gets (find_data empty)
      table ← data_of tok_name
      pure (pusho schema ∷ pusho table ∷ [])

unfoldable pub table_reference : Exec Parser Code
unfolding table_name opt_as_alias ◌>>=◌
table_reference = do table ← table_name; alias ← opt_as_alias; pure (call "OPNTBL" ∷ table ++ alias)
