-- ===== src/Tran/Tests.antt =====
-- Runs of the translator, and its theorems at inputs that meet their hypotheses.
use Prim.Native.String.{String}
use sql_relational_database.Common.{
  ℕ, zero, suc, ◌≡◌, refl, sym, append-nil, ◌⊎◌, ◌++◌, List, [], ◌∷◌, none, some, All, arith,
}
use sql_relational_database.Common.Exec.{Result, ok, err, token_error, out_of_storage, ◌>>◌, ◌>>=◌}
use sql_relational_database.Tran.Symbol.{
  codes, symbol, get_symbol_type, tok_eoi, tok_and, tok_int, tok_name, tok_dot, tok_r_paren,
}
use sql_relational_database.Tran.Lexer.{Token, token, Lexer, new_lexer, next_token, word_type}
use sql_relational_database.Tran.Lexing.{IsToken, of_word, of_int}
use sql_relational_database.Tran.Stream.{Lexes, unknown, eois, eoi_token, new_lexer-spaced}
use sql_relational_database.Tran.Words.{IsEntry, get_symbol_type_lem}
use sql_relational_database.Tran.Parser.{
  Parser, Code, ret, call, pusho, empty, new_parser, speculate_list,
}
use sql_relational_database.Tran.Grammar.{logic_expr, expr, name_dot_name_list}
use sql_relational_database.Tran.Tables.{column_list}
use sql_relational_database.Tran.Privileges.{stmt}
use sql_relational_database.Tran.Ahead.{Stands}
use sql_relational_database.Tran.Speculate.{begins, speculate_list_lem}
use sql_relational_database.Tran.Operands.{Yields}
use sql_relational_database.Tran.Expression.{
  Expr, value, column, binary, Derives, up, operate, literal, plain, Emits, Stops, operators_at,
}
use sql_relational_database.Tran.Levels.{HasEmpty}
use sql_relational_database.Tran.FromText.{expr-spaced}
use sql_relational_database.Tran.OnCode.{logic_expr-with_and, logic_expr-without_and}
use sql_relational_database.Tran.Columns.{separated, Pushes, column_list-separated}

types : ℕ → Lexer → List ℕ
unfolding next_token
types zero lx = []
types (suc n) lx = let (r, lx') = next_token lx in go r (types n lx')
  where
    go : Result Token → List ℕ → List ℕ
    go (ok t) ts = t.type ∷ ts
    go (err e) ts = []

select_types :
    types 9 (new_lexer (codes "select a.b, 'x' # y\n <= 1.5"))
    ≡ 76 ∷ 57 ∷ 24 ∷ 57 ∷ 13 ∷ 92 ∷ 51 ∷ 31 ∷ 4294967295 ∷ []
unfolding types new_lexer
select_types = refl

-- Quotes of different kinds close each other, and the end of the text closes any.
quotes : types 3 (new_lexer (codes "\"it's")) ≡ 92 ∷ 57 ∷ 4294967295 ∷ []
unfolding types new_lexer
quotes = refl

abbrev no_parser : Parser
no_parser = record {
  lexer = record { input = []; mark = 0; index = 0; ch = 255; token_list = [] };
  lookahead = [];
  code = [];
  operands = [];
  index = 0;
  mark = none;
}

-- The code that a text is translated into.
translated : String → Result Code
unfolding new_parser new_lexer stmt ◌>>=◌
translated text = code_of ((new_parser (new_lexer (codes text)) >> stmt) no_parser)
  where
    code_of : Result (Unit {0}) × Parser → Result Code
    code_of (ok u, p) = ok p.code
    code_of (err e, p) = err e

use_code : translated "use a;" ≡ ok (ret ∷ call "USE" ∷ pusho (some 1) ∷ [])
unfolding translated
use_code = refl

-- OR binds tighter than AND.
or_before_and :
    translated "delete from t where 1 and 2 or 3"
    ≡ ok (
        ret
        ∷ call "DELETE"
        ∷ call "WHERE"
        ∷ call "AND"
        ∷ call "MKEXPR"
        ∷ pusho (some 2)
        ∷ call "OR"
        ∷ call "MKEXPR"
        ∷ pusho (some 3)
        ∷ call "MKEXPR"
        ∷ pusho (some 4)
        ∷ call "ULCKTBL"
        ∷ call "OPNTBL"
        ∷ pusho (some 0)
        ∷ pusho (some 1)
        ∷ pusho (some 0)
        ∷ [])
unfolding translated
or_before_and = refl

-- A column with its table and its schema is refused.
three_parts : translated "select s.t.a from t" ≡ err token_error
unfolding translated
three_parts = refl

-- The call of AND comes before that of the list.
and_in_list :
    translated "select 1 and 2 from t"
    ≡ ok (
        ret
        ∷ call "SELECT"
        ∷ call "AND"
        ∷ call "MKEXPRLST"
        ∷ call "MKEXPR"
        ∷ pusho (some 1)
        ∷ call "MKEXPR"
        ∷ pusho (some 2)
        ∷ call "MKEXPRHDR"
        ∷ pusho (some 3)
        ∷ call "SLCKTBL"
        ∷ call "OPNTBL"
        ∷ pusho (some 0)
        ∷ pusho (some 4)
        ∷ pusho (some 0)
        ∷ [])
unfolding translated
and_in_list = refl

-- SELECT with no blank behind it: the header of the asterisk is empty.
select_asterisk : translated "select* from t" ≡ err out_of_storage
unfolding translated
select_asterisk = refl

load_replace : translated "load data infile 'f' replace into table t" ≡ err token_error
unfolding translated
load_replace = refl

grant_create_user : translated "grant create user on * to 'u'@'h'" ≡ err token_error
unfolding translated
grant_create_user = refl

unique_refused : translated "create table t (a int, unique (a))" ≡ err token_error
unfolding translated
unique_refused = refl

-- A comparison is taken for an assignment.
assign_less :
    translated "update t set a < 5"
    ≡ ok (
        ret
        ∷ call "UPDATE"
        ∷ call "MKASSIGN"
        ∷ call "MKCLMNEXPR"
        ∷ pusho (some 0)
        ∷ pusho (some 0)
        ∷ pusho (some 2)
        ∷ call "MKEXPR"
        ∷ pusho (some 3)
        ∷ call "ULCKTBL"
        ∷ call "OPNTBL"
        ∷ pusho (some 0)
        ∷ pusho (some 1)
        ∷ pusho (some 0)
        ∷ [])
unfolding translated
assign_less = refl

-- 1 and a or 2
abbrev one : Token
one = token tok_int (codes "1")

abbrev two : Token
two = token tok_int (codes "2")

abbrev word_a : Token
word_a = token (word_type (codes "a")) (codes "a")

abbrev and_token : Token
and_token = token (word_type (codes "and")) (codes "and")

abbrev or_token : Token
or_token = token (word_type (codes "or")) (codes "or")

abbrev sample : List Token
sample = one ∷ and_token ∷ word_a ∷ or_token ∷ two ∷ []

abbrev sample_expr : Expr
sample_expr =
    binary "AND" (value one.text) (binary "OR" (column empty word_a.text) (value two.text))

sample_tokens : All IsToken sample
sample_tokens = (
  of_int b'1' [] refl tt,
  (
    of_word b'a' (codes "nd") refl (refl, (refl, tt)),
    (
      of_word b'a' [] refl tt,
      (of_word b'o' (codes "r") refl (refl, tt), (of_int b'2' [] refl tt, tt)),
    ),
  ),
)

new_lexer-spaced_example : Lexes (new_lexer (codes " 1 and a or 2 ")) (sample ++ eois 2)
new_lexer-spaced_example = new_lexer-spaced sample 2 sample_tokens

-- An operand at each level from two on.
at_two : (e : Expr) (ts : List Token) → Derives 6 e ts → Derives 2 e ts
at_two e ts d =
    up 2 e ts (omega arith)
      (up 3 e ts (omega arith) (up 4 e ts (omega arith) (up 5 e ts (omega arith) d)))

one-Derives : Derives 1 (value one.text) (one ∷ [])
one-Derives = up 1 _ _ (omega arith) (at_two (value one.text) (one ∷ []) (literal 6 one refl refl))

or-Derives :
    Derives 1
      (binary "OR" (column empty word_a.text) (value two.text))
      (word_a ∷ or_token ∷ two ∷ [])
unfolding word_type
or-Derives =
    operate 1 "OR" _ _ or_token (word_a ∷ []) (two ∷ []) (omega arith) refl
      (up 1 _ _ (omega arith)
        (at_two (column empty word_a.text) (word_a ∷ []) (plain 6 word_a refl refl)))
      (at_two (value two.text) (two ∷ []) (literal 6 two refl refl))

sample-Derives : Derives 0 sample_expr sample
unfolding word_type
sample-Derives =
    operate 0 "AND" _ _ and_token (one ∷ []) (word_a ∷ or_token ∷ two ∷ []) (omega arith) refl
      (up 0 _ _ (omega arith) one-Derives) or-Derives

expr-spaced_example :
    (code : Code) × (after : Parser) × ((new_parser (new_lexer (codes " 1 and a or 2 ")) >> expr [])
        no_parser
      ≡ (ok code, after))
    × Emits after.operands sample_expr code
    × (after.code ≡ [])
    × Stands after (eois 6)
expr-spaced_example = expr-spaced sample_expr sample no_parser sample-Derives sample_tokens

get_symbol_type_lem_example :
    IsEntry symbol (codes "SELECT") (get_symbol_type (codes "Select"))
    ⊎ ((get_symbol_type (codes "Select") ≡ tok_eoi)
        × ((type : ℕ) → ¬ (IsEntry symbol (codes "SELECT") type)))
get_symbol_type_lem_example = get_symbol_type_lem (codes "Select")

-- A parser with the tokens in its buffer.
abbrev holding : List Token → Parser
holding ts = record {
  lexer = record { input = []; mark = 0; index = 0; ch = 255; token_list = [] };
  lookahead = ts;
  code = [];
  operands = token 13 empty ∷ [];
  index = 0;
  mark = none;
}

holding-Stands : (t : Token) (ts : List Token) → Stands (holding (t ∷ ts)) (t ∷ ts)
holding-Stands t ts = record {
  window = record {
    passed = [];
    buffer = t ∷ ts;
    later = [];
    lookahead_eq = refl;
    from_eq = refl;
    index_eq = refl;
    tokens_eq = sym (append-nil (t ∷ ts));
    lexes = unknown _;
    inside = omega arith;
  };
  ready = omega arith;
  free = refl;
}

holding-HasEmpty : (ts : List Token) → HasEmpty (holding ts)
holding-HasEmpty ts = record { others = []; starts = refl }

abbrev dot : Token
dot = token tok_dot (codes ".")

speculate_list_lem_example :
    (after : Parser) × (speculate_list name_dot_name_list (holding (word_a ∷ dot ∷ one ∷ two ∷ []))
      ≡ (ok (begins name_dot_name_list (word_a ∷ dot ∷ one ∷ two ∷ [])), after))
    × Stands after (word_a ∷ dot ∷ one ∷ two ∷ [])
    × (after.operands ≡ token 13 empty ∷ [])
    × (after.code ≡ [])
speculate_list_lem_example =
    speculate_list_lem name_dot_name_list (holding (word_a ∷ dot ∷ one ∷ two ∷ []))
      (word_a ∷ dot ∷ one ∷ two ∷ []) (omega arith) (holding-Stands word_a (dot ∷ one ∷ two ∷ []))

eoi_operators : (m : ℕ) → operators_at m eoi_token.type ≡ none
eoi_operators zero = refl
eoi_operators (suc zero) = refl
eoi_operators (suc (suc zero)) = refl
eoi_operators (suc (suc (suc zero))) = refl
eoi_operators (suc (suc (suc (suc zero)))) = refl
eoi_operators (suc (suc (suc (suc (suc m))))) = refl

eoi-Stops : Stops 0 eoi_token
eoi-Stops = (refl, λ m le lt. eoi_operators m)

and_type : and_token.type ≡ tok_and
unfolding word_type
and_type = refl

logic_expr-without_and_example :
    (code : Code) × (after : Parser) × Yields
      (logic_expr 42 (call "MKEXPRLST" ∷ []))
      (holding (one ∷ eois 6))
      (call "MKEXPRLST" ∷ code)
      after
      (eois 6)
    × Emits after.operands (value one.text) code
logic_expr-without_and_example =
    logic_expr-without_and (call "MKEXPRLST" ∷ []) (holding (one ∷ eois 6)) eoi_token (eois 5)
      eoi-Stops (omega arith) (holding-HasEmpty (one ∷ eois 6)) 40 (value one.text) (one ∷ [])
      one-Derives (omega arith) (holding-Stands one (eois 6))

logic_expr-with_and_example :
    (c d : Code) × (after : Parser) × Yields
      (logic_expr 63 (call "MKEXPRLST" ∷ []))
      (holding (sample ++ eois 6))
      (call "AND" ∷ call "MKEXPRLST" ∷ c ++ d)
      after
      (eois 6)
    × Emits after.operands (value one.text) c
    × Emits after.operands (binary "OR" (column empty word_a.text) (value two.text)) d
logic_expr-with_and_example =
    logic_expr-with_and (call "MKEXPRLST" ∷ []) (holding (sample ++ eois 6)) eoi_token (eois 5)
      eoi-Stops (omega arith) (holding-HasEmpty (sample ++ eois 6)) 60 (value one.text)
      (binary "OR" (column empty word_a.text) (value two.text)) and_token (one ∷ [])
      (word_a ∷ or_token ∷ two ∷ []) one-Derives or-Derives and_type (omega arith)
      (holding-Stands one (and_token ∷ word_a ∷ or_token ∷ two ∷ eois 6))

abbrev paren : Token
paren = token tok_r_paren (codes ")")

abbrev word_b : Token
word_b = token tok_name (codes "b")

abbrev columns : List Token
columns = separated word_b (word_b ∷ []) ++ (paren ∷ eois 1)

column_list-separated_example :
    (lines : Code) × (after : Parser) × (more : List Token) × (column_list 5 0 (holding columns)
      ≡ (ok 2, after))
    × Stands after (paren ∷ eois 1)
    × (after.code ≡ [] ++ lines)
    × (after.operands ≡ (token 13 empty ∷ []) ++ more)
    × Pushes after.operands word_b (word_b ∷ []) lines
column_list-separated_example =
    column_list-separated 5 0 word_b (word_b ∷ []) paren (eois 1) (holding columns) (omega arith)
      (refl, refl) refl (holding-Stands word_b (token 13 (codes ",") ∷ word_b ∷ paren ∷ eois 1))
