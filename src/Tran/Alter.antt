-- ===== src/Tran/Alter.antt =====
-- The ALTER statements (tran/tran.cpp: alter_stmt to drop_index). `mrk` is the index in m_code of the
-- line that says what is altered.
use sql_relational_database.Common.{ℕ, ◌==◌, if◌then◌else◌, ◌∷◌, ◌++◌}
use sql_relational_database.Common.Exec.{Exec, throw, gets, pure, ◌>>=◌, ◌>>◌, token_error}
use sql_relational_database.Tran.Symbol.{
  tok_add, tok_after, tok_by, tok_column, tok_drop, tok_first, tok_foreign, tok_identified,
  tok_index, tok_key, tok_l_paren, tok_name, tok_r_paren, tok_references, tok_replace, tok_unique,
  tok_user, tok_varchar,
}
use sql_relational_database.Tran.Parser.{
  Parser, push, call, Code, get_lookahead_type, consume, match_type, load_lookahead,
}
use sql_relational_database.Tran.Tables.{
  emit, emit_all, fill_line, code_size, emit_data, emit_empty, index_key, table_reference,
}
use sql_relational_database.Tran.Definitions.{data_type, constraint, on_object, user_at_host}

unfoldable pub alter_database : Exec Parser (Unit {0})
unfolding emit emit_data ◌>>=◌
alter_database = emit (call "ALTDB") >> emit_data tok_name

unfoldable pub add_column : ℕ → Exec Parser (Unit {0})
unfolding fill_line emit emit_all emit_data data_type constraint get_lookahead_type consume ◌>>=◌
add_column mrk = do
  fill_line mrk (call "ADDCLMN")
  emit_data tok_name
  type_code ← data_type
  emit_all type_code
  flags ← constraint
  emit_all flags
  type ← get_lookahead_type 0
  let first = consume >> emit (push 1) >> emit_data tok_name
  let after = consume >> emit (push 2) >> emit_data tok_name
  if type == tok_after then after else (if type == tok_first then first else emit (push 0))

-- Returns the code of the tables, to which it adds the table referred to.
unfoldable pub add_foreign_key : ℕ → Code → Exec Parser Code
unfolding fill_line index_key match_type table_reference ◌>>=◌
add_foreign_key mrk tables = do
  match_type tok_key
  fill_line mrk (call "ADDFGNKEY")
  index_key
  match_type tok_references
  table ← table_reference
  index_key
  pure (tables ++ (call "ULCKTBL" ∷ table))

unfoldable pub add_index : ℕ → Exec Parser (Unit {0})
unfolding fill_line index_key ◌>>=◌
add_index mrk = fill_line mrk (call "ADDNDX") >> index_key

unfoldable pub add_unique_index : ℕ → Exec Parser (Unit {0})
unfolding fill_line index_key match_type ◌>>=◌
add_unique_index mrk = do match_type tok_index; fill_line mrk (call "ADDUNINDX"); index_key

unfoldable pub alter_add : ℕ → Code → Exec Parser Code
unfolding get_lookahead_type consume add_column add_foreign_key add_index add_unique_index ◌>>=◌
alter_add mrk tables = do type ← get_lookahead_type 0; at type
  where
    at : ℕ → Exec Parser Code
    at type =
        if type == tok_column
        then consume >> add_column mrk >> pure tables
        else if type == tok_foreign
        then consume >> add_foreign_key mrk tables
        else if type == tok_index
        then consume >> add_index mrk >> pure tables
        else if type == tok_unique
        then consume >> add_unique_index mrk >> pure tables
        else throw token_error

unfoldable pub drop_column : ℕ → Exec Parser (Unit {0})
unfolding fill_line emit_data ◌>>=◌
drop_column mrk = fill_line mrk (call "DROPCLMN") >> emit_data tok_name

unfoldable pub drop_foreign_key : ℕ → Exec Parser (Unit {0})
unfolding fill_line emit_data match_type ◌>>=◌
drop_foreign_key mrk = match_type tok_key >> fill_line mrk (call "DROPFGNKEY") >> emit_data tok_name

unfoldable pub drop_index : ℕ → Exec Parser (Unit {0})
unfolding fill_line emit_data ◌>>=◌
drop_index mrk = fill_line mrk (call "DROPNDX") >> emit_data tok_name

unfoldable pub alter_drop : ℕ → Exec Parser (Unit {0})
unfolding get_lookahead_type consume drop_column drop_foreign_key drop_index ◌>>=◌
alter_drop mrk = do type ← get_lookahead_type 0; at type
  where
    at : ℕ → Exec Parser (Unit {0})
    at type =
        if type == tok_column
        then consume >> drop_column mrk
        else if type == tok_foreign
        then consume >> drop_foreign_key mrk
        else if type == tok_index
        then consume >> drop_index mrk
        else throw token_error

unfoldable pub alter_table : Exec Parser (Unit {0})
unfolding emit emit_all load_lookahead table_reference get_lookahead_type consume alter_add
    alter_drop ◌>>=◌
alter_table = do
  mrk ← gets code_size
  emit (call "ALT")
  load_lookahead 2
  table ← table_reference
  type ← get_lookahead_type 0
  let tables = call "ULCKTBL" ∷ table
  let dropped = consume >> alter_drop mrk >> pure tables
  all ←
      (if type == tok_add
        then (consume >> alter_add mrk tables)
        else if type == tok_drop
        then dropped
        else throw token_error)
  emit_all all
  emit (call "MKWRKSCH")

unfoldable pub alter_user : Exec Parser (Unit {0})
unfolding emit emit_data emit_empty match_type user_at_host get_lookahead_type consume ◌>>=◌
alter_user = do
  emit (call "ALTUSR")
  type ← get_lookahead_type 0
  let self = consume >> match_type tok_l_paren >> match_type tok_r_paren >> emit (call "MKUSR")
  if type == tok_user then self else user_at_host
  match_type tok_identified
  match_type tok_by
  emit_data tok_varchar
  next ← get_lookahead_type 0
  if next == tok_replace then (consume >> emit_data tok_varchar) else emit_empty

unfoldable pub alter_stmt : Exec Parser (Unit {0})
unfolding get_lookahead_type consume alter_database alter_table alter_user ◌>>=◌
alter_stmt = on_object alter_database alter_table alter_user
