-- ===== src/Tran/Clauses.antt =====
-- The clauses of statements: joins, ON and USING, WHERE, ORDER BY, INTO OUTFILE and SET
-- (tran/tran.cpp: table_reference_list, join to opt_into_outfile, assignment_list, assignment).
use Prim.Native.String.{String}
use sql_relational_database.Common.{
  ℕ, zero, suc, ◌+◌, ◌&&◌, ltb, ◌==◌, if◌then◌else◌, [], ◌∷◌, ◌++◌, length, set,
}
use sql_relational_database.Common.Exec.{Exec, throw, gets, pure, ◌>>=◌, ◌>>◌, token_error, endless}
use sql_relational_database.Tran.Symbol.{
  tok_by, tok_comma, tok_cross, tok_dot, tok_inner, tok_into, tok_join, tok_l_paren, tok_left,
  tok_name, tok_on, tok_order, tok_outer, tok_outfile, tok_r_paren, tok_right, tok_using,
  tok_varchar, tok_where,
}
use sql_relational_database.Tran.Parser.{
  Parser, blank, nop, push, call, Code, get_lookahead_type, consume, match_type, speculate_list,
  speculate_list_to, load_lookahead,
}
use sql_relational_database.Tran.Grammar.{expr, name_dot_name_list, name_dot_name_dot_name_list}
use sql_relational_database.Tran.Tables.{
  emit, fill_line, code_size, emit_data, emit_empty, in_rounds, table_reference, value_expr,
}

-- match(JOIN), and the call of a join.
unfoldable pub joined : String → Exec Parser Code
unfolding match_type ◌>>=◌
joined routine = match_type tok_join >> pure (call routine ∷ [])

-- if (get_lookahead_type(0) == OUTER) match(OUTER);
unfoldable pub opt_outer : Exec Parser (Unit {0})
unfolding get_lookahead_type match_type ◌>>=◌
opt_outer = do
  type ← get_lookahead_type 0
  if type == tok_outer then match_type tok_outer else pure tt

-- join on no code. CROSS falls through to JOIN.
unfoldable pub join : Exec Parser Code
unfolding get_lookahead_type match_type joined opt_outer ◌>>=◌
join = do type ← get_lookahead_type 0; at type
  where
    at : ℕ → Exec Parser Code
    at type =
        if type == tok_cross
        then match_type tok_cross >> joined "CRJOIN"
        else if type == tok_join
        then joined "CRJOIN"
        else if type == tok_inner
        then match_type tok_inner >> joined "INJOIN"
        else if type == tok_left
        then match_type tok_left >> opt_outer >> joined "LTJOIN"
        else if type == tok_right
        then match_type tok_right >> opt_outer >> joined "RTJOIN"
        else pure []

-- The loop of USING over its columns, on all of the code of the join: the first line of each
-- expression but the first becomes "NOP".
unfoldable pub using_loop : ℕ → ℕ → Code → Exec Parser (Code × ℕ)
unfolding expr get_lookahead_type match_type ◌>>=◌
using_loop zero count code = throw endless
using_loop (suc fuel) count code = do
  longer ← expr code
  let filled = if ltb 0 count then set longer (length code) nop else longer
  type ← get_lookahead_type 0
  let more = match_type tok_comma >> using_loop fuel (count + 1) filled
  if type == tok_comma then more else pure (filled, count + 1)

unfoldable pub on_using : Code → Exec Parser Code
unfolding get_lookahead_type match_type expr using_loop ◌>>=◌
on_using code = do
  type ← get_lookahead_type 0
  if type == tok_on then on_clause else (if type == tok_using then using_clause else pure code)
  where
    on_clause : Exec Parser Code
    on_clause = match_type tok_on >> expr (code ++ (call "ON" ∷ []))

    using_clause : Exec Parser Code
    using_clause = do
      match_type tok_using
      match_type tok_l_paren
      (longer, count) ← in_rounds (λ fuel. using_loop fuel 0 (code ++ (push 0 ∷ [])))
      match_type tok_r_paren
      pure (set (set longer (length code + 1) (push count)) (length code) (call "USING"))

-- The loop of table_reference_list: the code of the tables, and the code of the joins so far, the
-- last join first.
unfoldable pub joins_loop : ℕ → Code → Code → Exec Parser Code
unfolding speculate_list_to join table_reference on_using ◌>>=◌
joins_loop zero tables joins = throw endless
joins_loop (suc fuel) tables joins = do
  ahead ← speculate_list_to (tok_cross ∷ tok_inner ∷ tok_join ∷ tok_left ∷ tok_right ∷ [])
  let next = do
    join_code ← join
    table ← table_reference
    whole ← on_using join_code
    joins_loop fuel (tables ++ (call "SLCKTBL" ∷ table)) (whole ++ joins)
  if ahead then next else pure (joins ++ tables)

unfoldable pub table_reference_list : Exec Parser Code
unfolding table_reference joins_loop ◌>>=◌
table_reference_list = do
  table ← table_reference
  in_rounds (λ fuel. joins_loop fuel (call "SLCKTBL" ∷ table) [])

unfoldable pub opt_where : Exec Parser (Unit {0})
unfolding get_lookahead_type match_type emit value_expr ◌>>=◌
opt_where = do type ← get_lookahead_type 0; if type == tok_where then clause else pure tt
  where
    clause : Exec Parser (Unit {0})
    clause = do emit (call "WHERE"); match_type tok_where; value_expr

-- The column of ORDER BY, which name has too.
unfoldable pub order_column : Exec Parser (Unit {0})
unfolding emit emit_empty emit_data match_type speculate_list ◌>>=◌
order_column = do
  emit (call "MKCLMNEXPR")
  three ← speculate_list name_dot_name_dot_name_list
  if three then in_schema else two_or_one
  where
    in_schema : Exec Parser (Unit {0})
    in_schema = do
      emit_empty
      match_type tok_dot
      emit_data tok_name
      match_type tok_dot
      emit_data tok_name

    in_table : Exec Parser (Unit {0})
    in_table = do emit_empty; emit_data tok_name; match_type tok_dot; emit_data tok_name

    two_or_one : Exec Parser (Unit {0})
    two_or_one = do
      two ← speculate_list name_dot_name_list
      if two then in_table else (emit_empty >> emit_empty >> emit_data tok_name)

unfoldable pub order_loop : ℕ → ℕ → Exec Parser ℕ
unfolding order_column get_lookahead_type consume ◌>>=◌
order_loop zero count = throw endless
order_loop (suc fuel) count = do
  order_column
  type ← get_lookahead_type 0
  let more = consume >> order_loop fuel (count + 1)
  if type == tok_comma then more else pure (count + 1)

unfoldable pub opt_order_by : Exec Parser (Unit {0})
unfolding load_lookahead get_lookahead_type match_type consume emit fill_line order_loop ◌>>=◌
opt_order_by = do
  load_lookahead 6
  type ← get_lookahead_type 0
  next ← get_lookahead_type 1
  if type == tok_order && next == tok_by then clause else pure tt
  where
    close : Exec Parser (Unit {0})
    close = do
      type ← get_lookahead_type 0
      if type == tok_r_paren then consume else throw token_error

    clause : Exec Parser (Unit {0})
    clause = do
      emit (call "ORDERBY")
      match_type tok_order
      match_type tok_by
      mrk ← gets code_size
      emit blank
      type ← get_lookahead_type 0
      let opened = type == tok_l_paren
      if opened then consume else pure tt
      count ← in_rounds (λ fuel. order_loop fuel 0)
      fill_line mrk (push count)
      if opened then close else pure tt

unfoldable pub opt_into_outfile : Exec Parser (Unit {0})
unfolding get_lookahead_type match_type consume emit emit_data ◌>>=◌
opt_into_outfile = do type ← get_lookahead_type 0; if type == tok_into then clause else pure tt
  where
    clause : Exec Parser (Unit {0})
    clause = do consume; match_type tok_outfile; emit (call "SETOUTF"); emit_data tok_varchar

-- The first line of the expression, whatever it is, becomes the call of the assignment.
unfoldable pub assignment : Exec Parser (Unit {0})
unfolding value_expr fill_line ◌>>=◌
assignment = do mrk ← gets code_size; value_expr; fill_line mrk (call "MKASSIGN")

unfoldable pub assignment_list : ℕ → Exec Parser (Unit {0})
unfolding assignment get_lookahead_type consume ◌>>=◌
assignment_list zero = throw endless
assignment_list (suc fuel) = do
  assignment
  type ← get_lookahead_type 0
  let more = consume >> assignment_list fuel
  if type == tok_comma then more else pure tt
