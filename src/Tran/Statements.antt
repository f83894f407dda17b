-- ===== src/Tran/Statements.antt =====
-- The statements on rows and the statements that show things (tran/tran.cpp: select_stmt,
-- insert_stmt, update_stmt, delete_stmt, describe_stmt, load_stmt, show_stmt, use_stmt).
use sql_relational_database.Common.{ℕ, zero, suc, ◌==◌, if◌then◌else◌, [], ◌∷◌, ◌++◌}
use sql_relational_database.Common.Exec.{Exec, throw, pure, ◌>>=◌, ◌>>◌, token_error, endless}
use sql_relational_database.Tran.Symbol.{
  tok_comma, tok_data, tok_databases, tok_from, tok_ignore, tok_infile, tok_into, tok_name,
  tok_replace, tok_set, tok_table, tok_tables, tok_values, tok_varchar,
}
use sql_relational_database.Tran.Parser.{
  Parser, push, call, pusho, Code, get_lookahead_type, consume, match_type, data_text,
}
use sql_relational_database.Tran.Grammar.{expr}
use sql_relational_database.Tran.Header.{next_header}
use sql_relational_database.Tran.Tables.{
  emit, emit_all, emit_data, in_rounds, table_reference, opt_column_list, value_set_list,
}
use sql_relational_database.Tran.Clauses.{
  table_reference_list, opt_where, opt_order_by, opt_into_outfile, assignment_list,
}

-- An expression is translated into the code of the whole list.
unfoldable pub select_expr : Code → Exec Parser Code
unfolding expr next_header data_text ◌>>=◌
select_expr code = do
  longer ← expr code
  header ← next_header
  i ← data_text header
  pure (longer ++ (call "MKEXPRHDR" ∷ pusho i ∷ []))

unfoldable pub select_loop : ℕ → Code → Exec Parser Code
unfolding select_expr get_lookahead_type consume ◌>>=◌
select_loop zero code = throw endless
select_loop (suc fuel) code = do
  longer ← select_expr code
  type ← get_lookahead_type 0
  let more = consume >> select_loop fuel longer
  if type == tok_comma then more else pure longer

unfoldable pub select_expr_list : Exec Parser Code
unfolding select_loop
select_expr_list = in_rounds (λ fuel. select_loop fuel (call "MKEXPRLST" ∷ []))

unfoldable pub select_stmt : Exec Parser (Unit {0})
unfolding emit emit_all select_expr_list match_type table_reference_list opt_where opt_order_by
    opt_into_outfile ◌>>=◌
select_stmt = do
  emit (call "SELECT")
  code ← select_expr_list
  match_type tok_from
  tables ← table_reference_list
  opt_where
  opt_order_by
  emit_all (code ++ tables)
  opt_into_outfile

unfoldable pub insert_stmt : Exec Parser (Unit {0})
unfolding emit emit_all match_type table_reference opt_column_list value_set_list ◌>>=◌
insert_stmt = do
  emit (call "INSERT")
  match_type tok_into
  table ← table_reference
  opt_column_list
  match_type tok_values
  value_set_list
  emit_all (call "ULCKTBL" ∷ table)

unfoldable pub update_stmt : Exec Parser (Unit {0})
unfolding emit emit_all match_type table_reference assignment_list opt_where ◌>>=◌
update_stmt = do
  emit (call "UPDATE")
  table ← table_reference
  match_type tok_set
  in_rounds assignment_list
  opt_where
  emit_all (call "ULCKTBL" ∷ table)

unfoldable pub delete_stmt : Exec Parser (Unit {0})
unfolding emit emit_all match_type table_reference opt_where ◌>>=◌
delete_stmt = do
  emit (call "DELETE")
  match_type tok_from
  table ← table_reference
  opt_where
  emit_all (call "ULCKTBL" ∷ table)

unfoldable pub describe_stmt : Exec Parser (Unit {0})
unfolding emit emit_all table_reference ◌>>=◌
describe_stmt = do
  emit (call "DESCRIBE")
  emit (call "SLCKTBL")
  table ← table_reference
  emit_all table

-- The switch looks at IGNORE and REPLACE and does not consume them.
unfoldable pub load_stmt : Exec Parser (Unit {0})
unfolding emit emit_all emit_data match_type get_lookahead_type table_reference ◌>>=◌
load_stmt = do
  emit (call "LOADDATA")
  match_type tok_data
  match_type tok_infile
  emit_data tok_varchar
  type ← get_lookahead_type 0
  emit (push (if type == tok_ignore then 1 else if type == tok_replace then 2 else 0))
  match_type tok_into
  match_type tok_table
  emit (call "ULCKTBL")
  table ← table_reference
  emit_all table

unfoldable pub show_stmt : Exec Parser (Unit {0})
unfolding emit consume get_lookahead_type ◌>>=◌
show_stmt = do
  type ← get_lookahead_type 0
  let tables = if type == tok_tables then (consume >> emit (call "SHOWTBLS")) else throw token_error
  if type == tok_databases then (consume >> emit (call "SHOWDBS")) else tables

unfoldable pub use_stmt : Exec Parser (Unit {0})
unfolding emit emit_data ◌>>=◌
use_stmt = do emit (call "USE"); emit_data tok_name
