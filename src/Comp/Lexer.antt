-- ===== src/Comp/Lexer.antt =====
-- Class comp_lexer of comp/comp.h and comp/comp.cpp. Characters are bytes; 255 is comp_lexer::EOI.
-- The tests on characters are those of the lexer of the translator.
use sql_relational_database.Common.{
  ℕ, zero, suc, ◌+◌, Bool, true, false, ◌||◌, leb, ltb, ◌==◌, if◌then◌else◌, [], ◌∷◌, ◌++◌, Option,
  none, some, length, map,
}
use sql_relational_database.Common.Exec.{Exec, ok, err, token_error, endless}
use sql_relational_database.Vm.Item.{Text}
use sql_relational_database.Tran.Symbol.{codes, to_upper, find_symbol, tok_eoi}
use sql_relational_database.Tran.Lexer.{
  Token, token, eoi, char_at, is_digit, is_alpha, is_word, isspace,
}
use sql_relational_database.Comp.Symbol.{
  symbol, tok_asterisk, tok_comma, tok_dollar, tok_dot, tok_float, tok_hashtag, tok_int,
  tok_l_paren, tok_percent, tok_plus, tok_quotmark, tok_r_paren, tok_varchar,
}

pub record CompLexer : Type 0 where
  pub input : Text
  pub mark : ℕ
  pub index : ℕ
  pub ch : ℕ

-- comp_lexer::comp_lexer with comp_lexer::init
unfoldable pub new_lexer : Text → CompLexer
new_lexer [] = record { input = []; mark = 0; index = 0; ch = eoi }
new_lexer (c ∷ text) = record { input = c ∷ text; mark = 0; index = 0; ch = c }

unfoldable pub consume : CompLexer → CompLexer
consume lx =
    if ltb (lx.index + 1) (length lx.input)
    then record lx { index = lx.index + 1; ch = char_at lx.input (lx.index + 1) }
    else record lx { ch = eoi }

unfoldable pub peek : CompLexer → ℕ
peek lx = if leb (length lx.input) lx.index then eoi else char_at lx.input (lx.index + 1)

-- while (test(m_ch)) { text += m_ch; consume(); }
unfoldable pub take_while : ℕ → (ℕ → Bool) → CompLexer → Text × CompLexer
unfolding consume
take_while zero test lx = ([], lx)
take_while (suc fuel) test lx = elim (test lx.ch) [
  | true ↦ let (text, after) = take_while fuel test (consume lx) in (lx.ch ∷ text, after)
  | false ↦ ([], lx)
]

-- Each round but the last moves on in the input, and every test fails at its end.
abbrev pub rounds_of : CompLexer → ℕ
rounds_of lx = length lx.input + 1

unfoldable pub ws : CompLexer → CompLexer
unfolding take_while
ws lx = (take_while (rounds_of lx) isspace lx).1

-- The search runs on the same steps as that of the translator, on this table.
unfoldable pub get_symbol_type : Text → ℕ
unfolding find_symbol symbol
get_symbol_type text = find_symbol symbol (length symbol + 1) (map to_upper text) 0 (length symbol)

-- (type < 0 ? VARCHAR : type)
unfoldable pub word_type : Text → ℕ
unfolding get_symbol_type
word_type text = let type = get_symbol_type text in if type == tok_eoi then tok_varchar else type

abbrev pub named : Text × CompLexer → Token × CompLexer
named (text, after) = (token (word_type text) text, after)

unfoldable pub name : CompLexer → Token × CompLexer
unfolding take_while word_type
name lx = named (take_while (rounds_of lx) is_word lx)

unfoldable pub number : CompLexer → Token × CompLexer
unfolding take_while
number lx =
    let (whole, after) = take_while (rounds_of lx) is_digit lx in
    let (digits, last) = take_while (rounds_of lx) is_digit (consume after) in
    if after.ch == b'.'
    then (token tok_float (whole ++ after.ch ∷ digits), last)
    else (token tok_int whole, after)

abbrev pub prepend : Text → Text × CompLexer → Text × CompLexer
prepend front (text, lx) = (front ++ text, lx)

-- The loop of varchar: a backslash is kept, with whatever stands behind it.
unfoldable pub quoted_text : ℕ → CompLexer → Text × CompLexer
unfolding consume
quoted_text zero lx = ([], lx)
quoted_text (suc fuel) lx =
    let next = consume lx in
    let escaped : Text × CompLexer =
      prepend (lx.ch ∷ next.ch ∷ []) (quoted_text fuel (consume next)) in
    let plain : Text × CompLexer = prepend (lx.ch ∷ []) (quoted_text fuel next) in
    if lx.ch == eoi
    then ([], lx)
    else if lx.ch == b'\\'
    then escaped
    else if lx.ch == 34
    then ([], lx)
    else plain

unfoldable pub varchar : CompLexer → Token × CompLexer
unfolding quoted_text
varchar lx =
    let (text, after) = quoted_text (rounds_of lx) (consume lx) in
    (token tok_varchar text, consume after)

-- A point is a token of its own unless a digit follows.
unfoldable pub compound : CompLexer → Token × CompLexer
unfolding peek number
compound lx = if is_digit (peek lx) then number lx else (token tok_dot (b'.' ∷ []), consume lx)

abbrev pub single : ℕ → Option ℕ
single c =
    if c == b'#'
    then some tok_hashtag
    else if c == b'$'
    then some tok_dollar
    else if c == b'%'
    then some tok_percent
    else if c == 39
    then some tok_quotmark
    else if c == b'('
    then some tok_l_paren
    else if c == b')'
    then some tok_r_paren
    else if c == b'*'
    then some tok_asterisk
    else if c == b'+'
    then some tok_plus
    else if c == b','
    then some tok_comma
    else none

-- The cases of the switch.
pub data Action : Type 0 where
  finish skip_space quoted point word digits refuse : Action
  alone : ℕ → Action

unfoldable pub action : ℕ → Action
action c =
    if c == eoi
    then finish
    else if c == b' ' || c == b'\t' || c == b'\n'
    then skip_space
    else if c == 34 || c == b'\\'
    then quoted
    else if c == b'.'
    then point
    else elim (single c) [
      | some type ↦ alone type
      | none ↦
          if is_alpha c || c == b'_'
          then word
          else if is_digit c || c == b'-'
          then digits
          else refuse
    ]

unfoldable pub dispatch : Exec CompLexer Token → Action → Exec CompLexer Token
unfolding ws varchar compound name number consume
dispatch again finish lx = (ok (token tok_eoi (codes "<EOI>")), lx)
dispatch again skip_space lx = again (ws lx)
dispatch again quoted lx = let (t, after) = varchar lx in (ok t, after)
dispatch again point lx = let (t, after) = compound lx in (ok t, after)
dispatch again (alone type) lx = (ok (token type (lx.ch ∷ [])), consume lx)
dispatch again word lx = let (t, after) = name lx in (ok t, after)
dispatch again digits lx = let (t, after) = number lx in (ok t, after)
dispatch again refuse lx = (err token_error, lx)

-- The loop of next_token. Each round but the last skips white space.
unfoldable pub next_token_loop : ℕ → Exec CompLexer Token
unfolding action dispatch
next_token_loop zero lx = (err endless, lx)
next_token_loop (suc fuel) lx = dispatch (next_token_loop fuel) (action lx.ch) lx

unfoldable pub next_token : Exec CompLexer Token
unfolding next_token_loop
next_token lx = next_token_loop (rounds_of lx) (record lx { mark = lx.index })
