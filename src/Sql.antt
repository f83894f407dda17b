-- ===== src/Sql.antt =====
-- Class sql of sql/sql.h and sql/sql.cpp: a statement from its text to bytes. What the storage of
-- the two buffers holds at first is an argument.
mod Bytes
mod Tests
use sql_relational_database.Common.{ℕ, List, [], none}
use sql_relational_database.Common.Exec.{Exec, Result, ok, err, ◌>>=◌, ◌>>◌}
use sql_relational_database.Buffer.{Buffer, make}
use sql_relational_database.Vm.Item.{Text}
use sql_relational_database.Tran.Lexer.{new_lexer}
use sql_relational_database.Tran.Parser.{Parser, new_parser}
use sql_relational_database.Tran.Privileges.{stmt}
use sql_relational_database.Tran.Dump
use sql_relational_database.Comp.Lexer
use sql_relational_database.Comp.Assembler.{Assembler, new_assembler, compile, dump}

-- An object before its constructor runs.
abbrev no_parser : Parser
no_parser = record {
  lexer = new_lexer [];
  lookahead = [];
  code = [];
  operands = [];
  index = 0;
  mark = none;
}

abbrev pub no_assembler : Assembler
no_assembler = record {
  lexer = Lexer.new_lexer [];
  lookahead = [];
  code = make 0 (λ i. 0);
  segment = make 0 (λ i. 0);
  index = 0;
}

abbrev pub answer : {A B : Type 0} → Result A × B → Result A
answer (r, b) = r

-- tran_parser.parse(); tran_parser.dump()
unfoldable pub translate : Text → Result Text
unfolding new_lexer new_parser stmt Dump.dump ◌>>=◌
translate text =
    answer ((new_parser (new_lexer text) >> stmt >> λ p. (ok (Dump.dump p), p)) no_parser)

-- comp_parser.parse(); comp_parser.dump(): the data and the code.
unfoldable pub assemble : (ℕ → ℕ) → (ℕ → ℕ) → Text → Result (Buffer × Buffer)
unfolding Lexer.new_lexer make new_assembler compile dump ◌>>=◌
assemble code_storage data_storage text = answer (
    (new_assembler (Lexer.new_lexer text) code_storage data_storage >> compile >> dump)
      no_assembler)

abbrev assembled : (ℕ → ℕ) → (ℕ → ℕ) → Result Text → Result (Buffer × Buffer)
assembled code_storage data_storage (ok text) = assemble code_storage data_storage text
assembled code_storage data_storage (err e) = err e

unfoldable pub compile_stmt : (ℕ → ℕ) → (ℕ → ℕ) → Text → Result (Buffer × Buffer)
unfolding translate assemble
compile_stmt code_storage data_storage m_stmt =
    assembled code_storage data_storage (translate m_stmt)
