-- ===== src/Sql/Tests.antt =====
-- Runs of compile_stmt.
use Prim.Native.String.{String}
use sql_relational_database.Common.{ℕ, zero, suc, ◌+◌, ◌≡◌, refl, subst, arith, List, [], ◌∷◌}
use sql_relational_database.Common.Exec.{Result, ok, err, token_error}
use sql_relational_database.Buffer.{Buffer}
use sql_relational_database.Tran.Symbol.{codes}
use sql_relational_database.Common.Int.{pos}
use sql_relational_database.Vm.Item.{Text}
use sql_relational_database.Tran.Lexer.{Token, token}
use sql_relational_database.Comp.Symbol.{
  tok_call, tok_int, tok_nop, tok_push, tok_pusho, tok_ret, tok_use, tok_varchar,
}
use sql_relational_database.Comp.Opcode.{routines}
use sql_relational_database.Comp.Lexer.{CompLexer, new_lexer, next_token}
use sql_relational_database.Comp.Assembler.{stoi, find_routine}
use sql_relational_database.Comp.Ahead.{Reads, nothing, reads}
use sql_relational_database.Comp.Program.{
  Item, Instruction, skip, routine, number, operand, Lists, no_items, item, Spells, returns, skips,
  calls, pushes, operands,
}
use sql_relational_database.Comp.Segments.{dot_token, percent_token, data_token, text_token}
use sql_relational_database.Sql.{compile_stmt, assemble}
use sql_relational_database.Sql.Bytes.{filled, assemble_lem}

bytes_from : ℕ → ℕ → (ℕ → ℕ) → List ℕ
bytes_from zero i cells = []
bytes_from (suc n) i cells = cells i ∷ bytes_from n (i + 1) cells

contents : Buffer → List ℕ
unfolding bytes_from
contents b = bytes_from b.bound 0 b.cells

-- The bytes of the data and of the code of a statement.
bytes_of : String → Result (List ℕ × List ℕ)
unfolding compile_stmt contents
bytes_of text = both (compile_stmt (λ i. 0) (λ i. 0) (codes text))
  where
    both : Result (Buffer × Buffer) → Result (List ℕ × List ℕ)
    both (ok (data_bytes, code)) = ok (contents data_bytes, contents code)
    both (err e) = err e

-- USE a: the empty text and the name as data; PUSHO 3, CALL USE, RET as code.
use_bytes :
    bytes_of "use a;"
    ≡ ok (13 ∷ 0 ∷ 0 ∷ 16 ∷ 0 ∷ 1 ∷ 97 ∷ [], 53 ∷ 0 ∷ 0 ∷ 0 ∷ 3 ∷ 8 ∷ 65 ∷ 54 ∷ [])
unfolding bytes_of
use_bytes = refl

-- The routine that ALTER DATABASE calls is no symbol of the second program.
alter_database_refused : bytes_of "alter database a;" ≡ err token_error
unfolding bytes_of
alter_database_refused = refl

-- The next n tokens of a text; fewer where one of them is refused.
abbrev onto :
    (CompLexer → List Token × CompLexer)
    → CompLexer
    → Result Token × CompLexer
    → List Token × CompLexer
onto more lx (err e, after) = ([], lx)
onto more lx (ok t, after) = let (ts, last) = more after in (t ∷ ts, last)

abbrev read : ℕ → CompLexer → List Token × CompLexer
unfolding next_token
read zero lx = ([], lx)
read (suc n) lx = onto (read n) lx (next_token lx)

onto-Reads :
    (more : CompLexer → List Token × CompLexer) (lx : CompLexer) (o : Result Token × CompLexer)
    → next_token lx ≡ o
    → ((after : CompLexer) → Reads after (more after).0 (more after).1)
    → Reads lx (onto more lx o).0 (onto more lx o).1
onto-Reads more lx (err e, after) h k = nothing lx
onto-Reads more lx (ok t, after) h k = reads lx after (more after).1 t (more after).0 h (k after)

read-Reads : (n : ℕ) (lx : CompLexer) → Reads lx (read n lx).0 (read n lx).1
unfolding next_token
read-Reads zero lx = nothing lx
read-Reads (suc n) lx = onto-Reads (read n) lx (next_token lx) refl (read-Reads n)

abbrev program_text : Text
program_text = codes ".DATA\n  16 a\n%%\n.TEXT\n  PUSHO 0\n  CALL USE\n  PUSH 5\n  NOP\n  RET\n%%\n"

abbrev name_item : List Item
name_item = (pos 16, codes "a") ∷ []

abbrev instructions : List Instruction
instructions = operand 0 ∷ routine 65 ∷ number 5 ∷ skip ∷ []

abbrev end_token : Token
end_token = token 4294967295 (codes "<EOI>")

abbrev instruction_tokens : List Token
instruction_tokens =
    token tok_pusho (codes "PUSHO")
    ∷ token tok_int (codes "0")
    ∷ token tok_call (codes "CALL")
    ∷ token tok_use (codes "USE")
    ∷ token tok_push (codes "PUSH")
    ∷ token tok_int (codes "5")
    ∷ token tok_nop (codes "NOP")
    ∷ token tok_ret (codes "RET")
    ∷ percent_token
    ∷ percent_token
    ∷ end_token
    ∷ []

abbrev item_tokens : List Token
item_tokens =
    token tok_int (codes "16")
    ∷ token tok_varchar (codes "a")
    ∷ percent_token
    ∷ percent_token
    ∷ dot_token
    ∷ text_token
    ∷ instruction_tokens

program_read : (read 19 (new_lexer program_text)).0 ≡ dot_token ∷ data_token ∷ item_tokens
unfolding next_token new_lexer
program_read = refl

program-Spells :
    Spells name_item
      (percent_token ∷ percent_token ∷ end_token ∷ [])
      instruction_tokens
      instructions
unfolding stoi find_routine routines
program-Spells = operands _ _ _ _ 0 refl refl refl (omega arith) (
    calls _ _ _ _ 65 refl refl
      (pushes _ _ _ _ 5 refl refl refl (skips _ _ _ refl (returns _ refl))))

program-Lists :
    Lists
      (percent_token ∷ percent_token ∷ dot_token ∷ text_token ∷ instruction_tokens)
      item_tokens
      name_item
unfolding stoi
program-Lists = item _ _ _ (pos 16) [] refl (ground arith) no_items

assemble_lem_example :
    assemble (λ i. 0) (λ i. 0) program_text
    ≡ ok (
      filled (λ i. 0) (16 ∷ 0 ∷ 1 ∷ 97 ∷ []),
      filled (λ i. 0) (53 ∷ 0 ∷ 0 ∷ 0 ∷ 0 ∷ 8 ∷ 65 ∷ 52 ∷ 0 ∷ 0 ∷ 0 ∷ 5 ∷ 54 ∷ []),
    )
unfolding new_lexer
assemble_lem_example =
    assemble_lem (λ i. 0) (λ i. 0) program_text name_item instructions item_tokens
      instruction_tokens end_token (read 19 (new_lexer program_text)).1
      (subst (λ ts. Reads (new_lexer program_text) ts (read 19 (new_lexer program_text)).1)
        program_read (read-Reads 19 (new_lexer program_text)))
      program-Lists program-Spells (omega arith) (omega arith) (omega arith) (omega arith)

-- A minus sign gives a number without digits, and the lexer stays where it is.
minus_sign : (read 2 (new_lexer (codes "-1"))).0 ≡ token tok_int [] ∷ token tok_int [] ∷ []
unfolding next_token new_lexer
minus_sign = refl
