-- ===== src/Tran/Dump.antt =====
-- The text of the translator's result (tran/tran.cpp: to_schema_type, parser::dump): the operands
-- with their types, then the lines of code from the last to the first.
use sql_relational_database.Common.{
  ℕ, zero, suc, ◌+◌, ◌/◌, ◌%◌, ◌==◌, ltb, if◌then◌else◌, List, [], ◌∷◌, ◌++◌, none, some,
}
use sql_relational_database.Vm.Item.{Text}
use sql_relational_database.Tran.Symbol.{codes, tok_eoi, tok_float, tok_int, tok_name, tok_varchar}
use sql_relational_database.Tran.Lexer.{Token}
use sql_relational_database.Tran.Parser.{
  Parser, Line, Code, ret, nop, blank, push_text, call, push, pusho,
}

abbrev pub to_schema_type : ℕ → ℕ
to_schema_type type =
    if type == tok_float
    then 7
    else if type == tok_int
    then 9
    else if type == tok_name
    then 16
    else if type == tok_varchar
    then 13
    else type

abbrev pub digits_onto : ℕ → ℕ → Text → Text
digits_onto zero n text = text
digits_onto (suc fuel) n text =
    let here : Text = (b'0' + n % 10) ∷ text in
    let rest = digits_onto fuel (n / 10) here in if ltb n 10 then here else rest

-- std::to_string of a value that is not negative; n + 1 digits are more than it has.
unfoldable pub to_string : ℕ → Text
to_string n = digits_onto (n + 1) n []

-- std::to_string of an int32_t by its bit pattern.
abbrev pub int_to_string : ℕ → Text
int_to_string type = if type == tok_eoi then codes "-1" else to_string type

unfoldable pub line_text : Line → Text
unfolding to_string
line_text ret = codes "RET"
line_text nop = codes "NOP"
line_text blank = []
line_text (push_text text) = codes "PUSH " ++ text
line_text (call routine) = codes "CALL " ++ codes routine
line_text (push n) = codes "PUSH " ++ to_string n
line_text (pusho none) = codes "PUSHO "
line_text (pusho (some i)) = codes "PUSHO " ++ to_string i

unfoldable pub operands_text : List Token → Text
unfolding to_string
operands_text [] = []
operands_text (t ∷ ts) =
    codes "  " ++ int_to_string (to_schema_type t.type) ++ b' ' ∷ t.text ++ b'\n' ∷ operands_text ts

-- The loop from end() - 1 down to begin().
unfoldable pub code_text : Code → Text
unfolding line_text
code_text [] = []
code_text (line ∷ lines) = code_text lines ++ codes "  " ++ line_text line ++ b'\n' ∷ []

unfoldable pub dump : Parser → Text
unfolding operands_text code_text
dump p =
    codes ".DATA\n"
    ++ operands_text p.operands
    ++ codes "%%\n.TEXT\n"
    ++ code_text p.code
    ++ codes "%%\n"
