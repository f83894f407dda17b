-- ===== src/Tran/Privileges.antt =====
-- GRANT and REVOKE, and the loop over statements (tran/tran.cpp: grant_stmt, revoke_stmt, stmt,
-- parse).
use sql_relational_database.Common.{
  ℕ, zero, suc, ◌+◌, Bool, ◌&&◌, ◌||◌, leb, ◌==◌, if◌then◌else◌, ◌++◌, map,
}
use sql_relational_database.Common.Exec.{Exec, throw, gets, pure, ◌>>=◌, ◌>>◌, token_error, endless}
use sql_relational_database.Vm.Item.{Text}
use sql_relational_database.Tran.Symbol.{
  codes, tok_all, tok_alter, tok_asterisk, tok_by, tok_comma, tok_create, tok_database, tok_delete,
  tok_describe, tok_dot, tok_drop, tok_eoi, tok_file, tok_from, tok_grant, tok_identified,
  tok_index, tok_insert, tok_load, tok_name, tok_on, tok_reload, tok_revoke, tok_select,
  tok_semicolon, tok_show, tok_shutdown, tok_to, tok_update, tok_use, tok_user, tok_varchar,
}
use sql_relational_database.Tran.Parser.{
  Parser, Line, ret, blank, push, pusho, call, get_lookahead_type, get_lookahead_token,
  load_lookahead, consume, match_type, data_text,
}
use sql_relational_database.Tran.Tables.{
  emit, fill_line, code_size, emit_data, emit_empty, in_rounds,
}
use sql_relational_database.Tran.Definitions.{create_stmt, drop_stmt, user_at_host}
use sql_relational_database.Tran.Alter.{alter_stmt}
use sql_relational_database.Tran.Statements.{
  select_stmt, insert_stmt, update_stmt, delete_stmt, describe_stmt, load_stmt, show_stmt, use_stmt,
}

-- std::tolower in the C locale.
abbrev to_lower : ℕ → ℕ
to_lower c = if leb b'A' c && leb c b'Z' then c + 32 else c

-- The privileges that are named after their token.
abbrev is_privilege : ℕ → Bool
is_privilege t =
    t == tok_all
    || t == tok_alter
    || t == tok_delete
    || t == tok_drop
    || t == tok_file
    || t == tok_grant
    || t == tok_index
    || t == tok_insert
    || t == tok_reload
    || t == tok_select
    || t == tok_shutdown
    || t == tok_update

unfoldable pub emit_text : Text → Exec Parser (Unit {0})
unfolding data_text emit ◌>>=◌
emit_text text = do i ← data_text text; emit (pusho i)

-- One privilege other than a comma; the test for USER is on the token after the next one.
unfoldable pub privilege : ℕ → Exec Parser (Unit {0})
unfolding get_lookahead_token get_lookahead_type load_lookahead match_type consume emit_text ◌>>=◌
privilege type =
    if is_privilege type
    then named
    else if type == tok_create
    then created
    else if type == tok_show
    then shown
    else throw token_error
  where
    named : Exec Parser (Unit {0})
    named = do
      t ← get_lookahead_token 0
      emit_text (map to_lower (t.text ++ codes "_priv"))
      consume

    created : Exec Parser (Unit {0})
    created = do
      consume
      load_lookahead 2
      next ← get_lookahead_type 1
      if next == tok_user
          then (consume >> emit_text (codes "create_user_priv"))
          else emit_text (codes "create_priv")

    shown : Exec Parser (Unit {0})
    shown = do consume; match_type tok_database; emit_text (codes "show_db_priv")

unfoldable pub privilege_loop : ℕ → ℕ → Exec Parser ℕ
unfolding privilege get_lookahead_type consume ◌>>=◌
privilege_loop zero count = throw endless
privilege_loop (suc fuel) count = do
  type ← get_lookahead_type 0
  let comma = consume >> privilege_loop fuel count
  let more = privilege type >> privilege_loop fuel (count + 1)
  if type == tok_comma then comma else (if type == tok_on then pure count else more)

-- What privileges are on: a table, all tables of a schema, or all.
unfoldable pub privilege_level : Exec Parser (Unit {0})
unfolding get_lookahead_type load_lookahead match_type emit_data emit_empty ◌>>=◌
privilege_level = do
  type ← get_lookahead_type 0
  if type == tok_asterisk
      then everything
      else (if type == tok_name then named else throw token_error)
  where
    pair : ℕ → ℕ → Exec Parser (Unit {0})
    pair schema table = do emit_data schema; match_type tok_dot; emit_data table

    everything : Exec Parser (Unit {0})
    everything = do
      load_lookahead 2
      next ← get_lookahead_type 1
      if next == tok_dot
          then pair tok_asterisk tok_asterisk
          else (emit_empty >> emit_data tok_asterisk)

    dotted : Exec Parser (Unit {0})
    dotted = do
      third ← get_lookahead_type 2
      if third == tok_asterisk
          then pair tok_name tok_asterisk
          else (if third == tok_name then pair tok_name tok_name else pure tt)

    named : Exec Parser (Unit {0})
    named = do
      load_lookahead 3
      next ← get_lookahead_type 1
      if next == tok_dot then dotted else (emit_empty >> emit_data tok_name)

-- grant_stmt and revoke_stmt differ in the routine and in TO or FROM.
unfoldable pub privileges_stmt : Line → ℕ → Exec Parser (Unit {0})
unfolding emit fill_line privilege_loop privilege_level match_type user_at_host get_lookahead_type
    consume emit_data ◌>>=◌
privileges_stmt routine preposition = do
  emit routine
  mrk ← gets code_size
  emit blank
  count ← in_rounds (λ fuel. privilege_loop fuel 0)
  fill_line mrk (push count)
  match_type tok_on
  privilege_level
  match_type preposition
  user_at_host
  type ← get_lookahead_type 0
  let identified = consume >> match_type tok_by >> emit (push 1) >> emit_data tok_varchar
  if type == tok_identified then identified else emit (push 0)

unfoldable pub grant_stmt : Exec Parser (Unit {0})
unfolding privileges_stmt
grant_stmt = privileges_stmt (call "GRANT") tok_to

unfoldable pub revoke_stmt : Exec Parser (Unit {0})
unfolding privileges_stmt
revoke_stmt = privileges_stmt (call "REVOKE") tok_from

-- The switch of stmt.
unfoldable pub one_stmt : ℕ → Exec Parser (Unit {0})
unfolding alter_stmt create_stmt delete_stmt describe_stmt drop_stmt grant_stmt insert_stmt
    load_stmt revoke_stmt select_stmt show_stmt update_stmt use_stmt consume ◌>>=◌
one_stmt type =
    if type == tok_alter
    then consume >> alter_stmt
    else if type == tok_create
    then consume >> create_stmt
    else if type == tok_delete
    then consume >> delete_stmt
    else if type == tok_describe
    then consume >> describe_stmt
    else if type == tok_drop
    then consume >> drop_stmt
    else if type == tok_grant
    then consume >> grant_stmt
    else if type == tok_insert
    then consume >> insert_stmt
    else if type == tok_load
    then consume >> load_stmt
    else if type == tok_revoke
    then consume >> revoke_stmt
    else if type == tok_select
    then consume >> select_stmt
    else if type == tok_show
    then consume >> show_stmt
    else if type == tok_semicolon
    then consume
    else if type == tok_update
    then consume >> update_stmt
    else if type == tok_use
    then consume >> use_stmt
    else throw token_error

unfoldable pub stmt_loop : ℕ → Exec Parser (Unit {0})
unfolding get_lookahead_type one_stmt ◌>>=◌
stmt_loop zero = throw endless
stmt_loop (suc fuel) = do
  type ← get_lookahead_type 0
  let more = one_stmt type >> stmt_loop fuel
  if type == tok_eoi then pure tt else more

-- stmt, and parse, which calls it.
unfoldable pub stmt : Exec Parser (Unit {0})
unfolding emit stmt_loop ◌>>=◌
stmt = emit ret >> in_rounds stmt_loop
