-- ===== src/Tran/Definitions.antt =====
-- The statements that define tables and databases (tran/tran.cpp: create_stmt to create_user,
-- alter_stmt to drop_index, drop_stmt to drop_user).
use sql_relational_database.Common.{
  ℕ, zero, suc, ◌+◌, ◌||◌, ◌==◌, if◌then◌else◌, [], ◌∷◌, ◌++◌, bit_or,
}
use sql_relational_database.Common.Exec.{Exec, throw, pure, ◌>>=◌, ◌>>◌, token_error, endless}
use sql_relational_database.Tran.Symbol.{
  tok_atsign, tok_auto_inc, tok_by, tok_char, tok_comma, tok_database, tok_date, tok_datetime,
  tok_enum, tok_float, tok_foreign, tok_identified, tok_int, tok_key, tok_l_paren, tok_name,
  tok_primary, tok_r_paren, tok_references, tok_table, tok_timestamp, tok_unique, tok_unsigned,
  tok_user, tok_varchar, tok_zerofill,
}
use sql_relational_database.Tran.Parser.{
  Parser, nop, push, push_text, call, pusho, Code, get_lookahead_type, get_lookahead_token, consume,
  match_type, data_of,
}
use sql_relational_database.Tran.Tables.{
  emit, emit_all, emit_data, in_rounds, index_key, table_name,
}

-- code.push_back("PUSH " + get_lookahead_token(0).text()); match(INT);
unfoldable pub width : Exec Parser Code
unfolding get_lookahead_token match_type ◌>>=◌
width = do t ← get_lookahead_token 0; match_type tok_int; pure (push_text t.text ∷ [])

unfoldable pub enum_loop : ℕ → ℕ → Code → Exec Parser (Code × ℕ)
unfolding data_of get_lookahead_type match_type ◌>>=◌
enum_loop zero count code = throw endless
enum_loop (suc fuel) count code = do
  i ← data_of tok_varchar
  type ← get_lookahead_type 0
  let more = match_type tok_comma >> enum_loop fuel (count + 1) (code ++ (pusho i ∷ []))
  if type == tok_r_paren then pure (code ++ (pusho i ∷ []), count + 1) else more

-- The type's number, and a width in parentheses.
abbrev sized : ℕ → Exec Parser Code
sized type = do
  consume
  match_type tok_l_paren
  size ← width
  match_type tok_r_paren
  pure (push type ∷ size)

unfoldable pub data_type : Exec Parser Code
unfolding get_lookahead_type match_type consume width enum_loop ◌>>=◌
data_type = do type ← get_lookahead_type 0; at type
  where
    enumerated : Exec Parser Code
    enumerated = do
      match_type tok_enum
      match_type tok_l_paren
      (code, count) ← in_rounds (λ fuel. enum_loop fuel 0 [])
      match_type tok_r_paren
      pure (push 6 ∷ push count ∷ code)

    float : Exec Parser Code
    float = do
      match_type tok_float
      match_type tok_l_paren
      whole ← width
      match_type tok_comma
      places ← width
      match_type tok_r_paren
      pure (push 7 ∷ whole ++ places)

    at : ℕ → Exec Parser Code
    at type =
        if type == tok_char
        then sized 2
        else if type == tok_date
        then consume >> pure (push 4 ∷ push 10 ∷ [])
        else if type == tok_datetime
        then consume >> pure (push 5 ∷ push 19 ∷ [])
        else if type == tok_enum
        then enumerated
        else if type == tok_float
        then float
        else if type == tok_int
        then match_type tok_int >> pure (push 9 ∷ push 10 ∷ [])
        else if type == tok_timestamp
        then consume >> pure (push 11 ∷ push 19 ∷ [])
        else if type == tok_varchar
        then sized 13
        else throw token_error

-- schema::FLAG_AUTO_INC, FLAG_UNSIGNED and FLAG_ZEROFILL; 0 for a token that is no constraint.
abbrev pub flag_of : ℕ → ℕ
flag_of type =
    if type == tok_auto_inc
    then 0x1
    else if type == tok_unsigned
    then 0x20
    else if type == tok_zerofill
    then 0x40
    else 0

unfoldable pub constraint_loop : ℕ → ℕ → Exec Parser ℕ
unfolding get_lookahead_type consume ◌>>=◌
constraint_loop zero flag = throw endless
constraint_loop (suc fuel) flag = do
  type ← get_lookahead_type 0
  let more = consume >> constraint_loop fuel (bit_or flag (flag_of type))
  if flag_of type == 0 then pure flag else more

unfoldable pub constraint : Exec Parser Code
unfolding constraint_loop ◌>>=◌
constraint = do flag ← in_rounds (λ fuel. constraint_loop fuel 0); pure (push flag ∷ [])

-- foreign_key: the local columns, the table and its columns.
unfoldable pub foreign_key : Exec Parser (Unit {0})
unfolding emit emit_all index_key match_type table_name ◌>>=◌
foreign_key = do
  emit (call "MKFGNKEY")
  index_key
  match_type tok_references
  table ← table_name
  emit_all table
  index_key

unfoldable pub primary_key : Exec Parser (Unit {0})
unfolding emit index_key ◌>>=◌
primary_key = emit (call "MKPRIKEY") >> index_key

unfoldable pub unique_key : Exec Parser (Unit {0})
unfolding emit index_key ◌>>=◌
unique_key = emit (call "MKUNIKEY") >> index_key

unfoldable pub key_definition : Exec Parser (Unit {0})
unfolding get_lookahead_type consume match_type foreign_key primary_key unique_key ◌>>=◌
key_definition = do type ← get_lookahead_type 0; at type
  where
    at : ℕ → Exec Parser (Unit {0})
    at type =
        if type == tok_foreign
        then consume >> match_type tok_key >> foreign_key
        else if type == tok_primary
        then consume >> match_type tok_key >> primary_key
        else if type == tok_unique
        then consume >> unique_key
        else pure tt

-- A key goes to m_code at once, before the columns.
unfoldable pub column_definition : Exec Parser Code
unfolding get_lookahead_type data_of data_type constraint key_definition ◌>>=◌
column_definition = do type ← get_lookahead_type 0; at type
  where
    named : Exec Parser Code
    named = do
      name ← data_of tok_name
      type_code ← data_type
      flags ← constraint
      pure (nop ∷ call "MKCLMNDEF" ∷ pusho name ∷ type_code ++ flags)

    at : ℕ → Exec Parser Code
    at type =
        if type == tok_name
        then named
        else if type == tok_foreign || type == tok_primary
        then key_definition >> pure []
        else throw token_error

-- The code of the columns, the last one first.
unfoldable pub column_definition_list : ℕ → Code → Exec Parser Code
unfolding column_definition get_lookahead_type consume ◌>>=◌
column_definition_list zero code = throw endless
column_definition_list (suc fuel) code = do
  column ← column_definition
  type ← get_lookahead_type 0
  let more = consume >> column_definition_list fuel (column ++ code)
  if type == tok_comma then more else pure (column ++ code)

unfoldable pub create_table : Exec Parser (Unit {0})
unfolding emit emit_all table_name match_type column_definition_list ◌>>=◌
create_table = do
  emit (call "CRTTBL")
  table ← table_name
  emit_all table
  match_type tok_l_paren
  code ← in_rounds (λ fuel. column_definition_list fuel [])
  emit_all code
  match_type tok_r_paren
  emit (call "MKWRKSCH")

unfoldable pub create_database : Exec Parser (Unit {0})
unfolding emit emit_data ◌>>=◌
create_database = emit (call "CRTDB") >> emit_data tok_name

-- A user's name and host, as in create_user, drop_user, grant_stmt and others.
unfoldable pub user_at_host : Exec Parser (Unit {0})
unfolding emit_data match_type ◌>>=◌
user_at_host = do emit_data tok_varchar; match_type tok_atsign; emit_data tok_varchar

unfoldable pub create_user : Exec Parser (Unit {0})
unfolding emit user_at_host match_type emit_data ◌>>=◌
create_user = do
  emit (call "CRTUSR")
  user_at_host
  match_type tok_identified
  match_type tok_by
  emit_data tok_varchar

-- The switch of create_stmt, alter_stmt and drop_stmt on what is created, altered or dropped.
abbrev pub on_object :
    Exec Parser (Unit {0})
    → Exec Parser (Unit {0})
    → Exec Parser (Unit {0})
    → Exec Parser (Unit {0})
on_object database table user = get_lookahead_type 0 >>= λ type.
    if type == tok_database
    then consume >> database
    else if type == tok_table
    then consume >> table
    else if type == tok_user
    then consume >> user
    else throw token_error

unfoldable pub create_stmt : Exec Parser (Unit {0})
unfolding get_lookahead_type consume create_database create_table create_user ◌>>=◌
create_stmt = on_object create_database create_table create_user

unfoldable pub drop_database : Exec Parser (Unit {0})
unfolding emit emit_data ◌>>=◌
drop_database = emit (call "DROPDB") >> emit_data tok_name

unfoldable pub drop_table : Exec Parser (Unit {0})
unfolding emit emit_all table_name ◌>>=◌
drop_table = do emit (call "DROPTBL"); table ← table_name; emit_all table

unfoldable pub drop_user : Exec Parser (Unit {0})
unfolding emit user_at_host ◌>>=◌
drop_user = emit (call "DROPUSR") >> user_at_host

unfoldable pub drop_stmt : Exec Parser (Unit {0})
unfolding get_lookahead_type consume drop_database drop_table drop_user ◌>>=◌
drop_stmt = on_object drop_database drop_table drop_user
