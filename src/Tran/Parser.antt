-- ===== src/Tran/Parser.antt =====
-- Class parser of tran/tran.h and tran/tran.cpp: its state, the buffer of the tokens ahead, the
-- table of operands (m_data) and speculation. Every error of the parser is ERRNO_TOKEN_ERROR.
use Prim.Native.String.{String}
use sql_relational_database.Common.{
  ℕ, zero, suc, ◌+◌, ◌-◌, Bool, true, false, ◌&&◌, leb, ◌==◌, if◌then◌else◌, List, [], ◌∷◌, ◌++◌,
  Option, none, some, length, get_elem?,
}
use sql_relational_database.Common.Exec.{
  Exec, Result, ok, err, throw, gets, pure, ◌>>=◌, ◌>>◌, token_error, out_of_storage,
}
use sql_relational_database.Vm.Item.{Text}
use sql_relational_database.Tran.Symbol.{codes, tok_varchar}
use sql_relational_database.Tran.Lexer.{Token, token, Lexer, next_token}

-- The lines of code that the parser emits: "RET", "NOP", the empty line, which is filled in later,
-- "CALL x", "PUSH n" with a number or with the text of a token, and "PUSHO i", where i is the text of
-- an index of m_data, none for the empty text.
pub data Line : Type 0 where
  ret nop blank : Line
  push_text : Text → Line
  call : String → Line
  push : ℕ → Line
  pusho : Option ℕ → Line

abbrev pub Code : Type 0
Code = List Line

pub record Parser : Type 0 where
  pub lexer : Lexer
  pub lookahead : List Token
  pub code : Code
  pub operands : List Token
  pub index : ℕ
  pub mark : Option ℕ

abbrev pub modify : (Parser → Parser) → Exec Parser (Unit {0})
modify f p = (ok tt, f p)

abbrev pub fetched : Parser → Result Token × Lexer → Result (Unit {0}) × Parser
fetched p (ok t, lx) = (ok tt, record p { lexer = lx; lookahead = p.lookahead ++ t ∷ [] })
fetched p (err e, lx) = (err e, record p { lexer = lx })

-- m_lookahead.push_back(m_lexer.next_token())
unfoldable pub fetch : Exec Parser (Unit {0})
unfolding next_token
fetch p = fetched p (next_token p.lexer)

unfoldable pub load_tokens : ℕ → Exec Parser (Unit {0})
unfolding fetch ◌>>=◌
load_tokens zero = pure tt
load_tokens (suc n) = fetch >> load_tokens n

-- Each round of the loop adds a token.
unfoldable pub load_lookahead : ℕ → Exec Parser (Unit {0})
unfolding load_tokens
load_lookahead i p = load_tokens (p.index + i - length p.lookahead) p

abbrev pub at_token : Option Token → Exec Parser Token
at_token (some t) = pure t
at_token none = throw out_of_storage

unfoldable pub get_lookahead_token : ℕ → Exec Parser Token
unfolding load_lookahead ◌>>=◌
get_lookahead_token i = do
  load_lookahead i
  t ← gets (λ p. get_elem? p.lookahead (p.index + i))
  at_token t

unfoldable pub get_lookahead_type : ℕ → Exec Parser ℕ
unfolding get_lookahead_token
get_lookahead_type i = do t ← get_lookahead_token i; pure t.type

abbrev pub is_speculating : Option ℕ → Bool
is_speculating none = false
is_speculating (some m) = true

-- The new position; a buffer that is used up is emptied, unless the parser may go back.
unfoldable pub moved_on : Parser → Parser
moved_on p =
    if is_speculating p.mark
    then record p { index = p.index + 1 }
    else if leb (length p.lookahead) (p.index + 1)
    then record p { index = 0; lookahead = [] }
    else record p { index = p.index + 1 }

unfoldable pub consume : Exec Parser (Unit {0})
unfolding moved_on load_lookahead
consume p = load_lookahead 1 (moved_on p)

unfoldable pub match_type : ℕ → Exec Parser (Unit {0})
unfolding get_lookahead_type consume
match_type type = do t ← get_lookahead_type 0; if t == type then consume else throw token_error

-- match on a list: the first type that matches. An error of consume is caught too.
unfoldable pub match_any : List ℕ → Exec Parser (Unit {0})
unfolding match_type
match_any [] p = throw token_error p
match_any (type ∷ types) p = caught (match_type type p) (match_any types)
  where
    caught : Result (Unit {0}) × Parser → Exec Parser (Unit {0}) → Result (Unit {0}) × Parser
    caught (ok u, p') others = (ok u, p')
    caught (err e, p') others = others p'

unfoldable pub same_text : Text → Text → Bool
same_text [] [] = true
same_text [] (d ∷ t) = false
same_text (c ∷ s) [] = false
same_text (c ∷ s) (d ∷ t) = c == d && same_text s t

unfoldable pub find_from : ℕ → Text → List Token → Option ℕ
unfolding same_text
find_from i name [] = none
find_from i name (t ∷ ts) =
    let rest = find_from (suc i) name ts in if same_text name t.text then some i else rest

unfoldable pub find_data : Text → Parser → Option ℕ
unfolding find_from
find_data name p = find_from 0 name p.operands

-- if (index == "") { index = std::to_string(m_data.size()); m_data.push_back(t); }
abbrev pub kept_data : Token → Parser → Option ℕ → Result (Option ℕ) × Parser
kept_data t p (some i) = (ok (some i), p)
kept_data t p none = (ok (some (length p.operands)), record p { operands = p.operands ++ t ∷ [] })

unfoldable pub keep_data : Token → Exec Parser (Option ℕ)
unfolding find_data
keep_data t p = kept_data t p (find_data t.text p)

-- data(int32_t): the token ahead, which must have the type.
unfoldable pub data_of : ℕ → Exec Parser (Option ℕ)
unfolding get_lookahead_token keep_data match_type
data_of type = do t ← get_lookahead_token 0; i ← keep_data t; match_type type; pure i

-- data(std::string const&)
unfoldable pub data_text : Text → Exec Parser (Option ℕ)
unfolding keep_data
data_text text = keep_data (token tok_varchar text)

-- The default operand "", which is the first one.
abbrev pub empty : Text
empty = codes "\"\""

unfoldable pub mark_here : Parser → Parser
mark_here p = record p { mark = some p.index }

abbrev pub mark_or : Option ℕ → ℕ → ℕ
mark_or (some m) index = m
mark_or none index = index

unfoldable pub unmark : Parser → Parser
unmark p = record p { index = mark_or p.mark p.index; mark = none }

unfoldable pub match_all : List ℕ → Exec Parser (Unit {0})
unfolding match_type
match_all [] = pure tt
match_all (type ∷ types) = match_type type >> match_all types

abbrev pub gone_back : Result (Unit {0}) × Parser → Result Bool × Parser
gone_back (ok u, p) = (ok true, unmark p)
gone_back (err e, p) = (ok false, unmark p)

-- Tries to match the types, and goes back either way.
unfoldable pub speculate_list : List ℕ → Exec Parser Bool
unfolding mark_here unmark match_all
speculate_list types p = gone_back (match_all types (mark_here p))

unfoldable pub speculate_list_to : List ℕ → Exec Parser Bool
unfolding get_lookahead_type
speculate_list_to [] = pure false
speculate_list_to (type ∷ types) = do
  t ← get_lookahead_type 0
  if t == type then pure true else speculate_list_to types

-- parser::parser with parser::init; schema::TYPE_VARCHAR is 13.
unfoldable pub new_parser : Lexer → Exec Parser (Unit {0})
unfolding load_lookahead
new_parser lx p = load_lookahead 1 (record {
  lexer = lx;
  lookahead = [];
  code = [];
  operands = token 13 empty ∷ [];
  index = 0;
  mark = none;
})
