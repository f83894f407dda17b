-- ===== src/Tran/Lexer.antt =====
-- Class lexer of tran/tran.h and tran/tran.cpp. Characters are bytes; 255 is lexer::EOI, so such a
-- byte of the input reads as its end. The <cctype> tests are those of the C locale.
use sql_relational_database.Common.{
  ℕ, zero, suc, ◌+◌, Bool, true, false, ◌&&◌, ◌||◌, leb, ltb, ◌==◌, if◌then◌else◌, List, [], ◌∷◌,
  ◌++◌, Option, none, some, length, get_elem?, not,
}
use sql_relational_database.Common.Exec.{Exec, Result, ok, err, token_error, endless}
use sql_relational_database.Vm.Item.{Text}
use sql_relational_database.Tran.Symbol.{
  get_symbol_type, tok_eoi, tok_and, tok_asterisk, tok_atsign, tok_backslash, tok_comma,
  tok_comment, tok_dot, tok_eq, tok_float, tok_ge, tok_gt, tok_int, tok_l_paren, tok_le, tok_lt,
  tok_minus, tok_name, tok_ne, tok_or, tok_plus, tok_r_paren, tok_semicolon, tok_varchar,
  tok_whitespace, codes,
}

-- class token (token/token.h)
pub record Token : Type 0 where
  pub type : ℕ
  pub text : Text

abbrev pub token : ℕ → Text → Token
token type text = record { type = type; text = text }

abbrev pub eoi : ℕ
eoi = 255

pub record Lexer : Type 0 where
  pub input : Text
  pub mark : ℕ
  pub index : ℕ
  pub ch : ℕ
  pub token_list : List Token

-- m_input[i], which is the null character at the end of the text. No method reads beyond it.
abbrev pub char_at : Text → ℕ → ℕ
char_at input i = elim (get_elem? input i) [ none ↦ 0 | some c ↦ c ]

-- lexer::lexer with lexer::init
unfoldable pub new_lexer : Text → Lexer
new_lexer [] = record { input = []; mark = 0; index = 0; ch = eoi; token_list = [] }
new_lexer (c ∷ text) = record { input = c ∷ text; mark = 0; index = 0; ch = c; token_list = [] }

unfoldable pub consume : Lexer → Lexer
consume lx =
    if ltb (lx.index + 1) (length lx.input)
    then record lx { index = lx.index + 1; ch = char_at lx.input (lx.index + 1) }
    else record lx { ch = eoi }

unfoldable pub peek : Lexer → ℕ
peek lx = if leb (length lx.input) lx.index then eoi else char_at lx.input (lx.index + 1)

abbrev pub is_digit : ℕ → Bool
is_digit c = leb b'0' c && leb c b'9'

abbrev pub is_alpha : ℕ → Bool
is_alpha c = leb b'a' c && leb c b'z' || leb b'A' c && leb c b'Z'

-- std::isalnum(m_ch) || m_ch == '_'
abbrev pub is_word : ℕ → Bool
is_word c = is_alpha c || is_digit c || c == b'_'

abbrev pub isspace : ℕ → Bool
isspace c = c == b' ' || leb 9 c && leb c 13

-- m_ch != '\n' && m_ch != EOI
abbrev pub in_line : ℕ → Bool
in_line c = not (c == b'\n') && not (c == eoi)

-- m_ch != '\"' && m_ch != '\'' && m_ch != EOI
abbrev pub in_quotes : ℕ → Bool
in_quotes c = not (c == 34) && not (c == 39) && not (c == eoi)

-- while (test(m_ch)) { text += m_ch; consume(); }
unfoldable pub take_while : ℕ → (ℕ → Bool) → Lexer → Text × Lexer
unfolding consume
take_while zero test lx = ([], lx)
take_while (suc fuel) test lx = elim (test lx.ch) [
  | true ↦ let (text, after) = take_while fuel test (consume lx) in (lx.ch ∷ text, after)
  | false ↦ ([], lx)
]

-- Each round but the last moves on in the input, and every test fails at its end.
abbrev pub rounds_of : Lexer → ℕ
rounds_of lx = length lx.input + 1

abbrev pub push_token : Token → Lexer → Lexer
push_token t lx = record lx { token_list = lx.token_list ++ t ∷ [] }

unfoldable pub comment : Lexer → Lexer
unfolding take_while
comment lx =
    let (text, after) = take_while (rounds_of lx) in_line (consume lx) in
    push_token (token tok_comment (lx.ch ∷ text)) (consume after)

unfoldable pub ws : Lexer → Lexer
unfolding take_while
ws lx =
    let (text, after) = take_while (rounds_of lx) isspace lx in
    push_token (token tok_whitespace text) after

-- int32_t type = get_symbol_type(text); (type < 0 ? NAME : type)
unfoldable pub word_type : Text → ℕ
unfolding get_symbol_type
word_type text = let type = get_symbol_type text in if type == tok_eoi then tok_name else type

abbrev pub named : Text × Lexer → Token × Lexer
named (text, after) = (token (word_type text) text, after)

unfoldable pub name : Lexer → Token × Lexer
unfolding take_while word_type
name lx = named (take_while (rounds_of lx) is_word lx)

unfoldable pub number : Lexer → Token × Lexer
unfolding take_while
number lx =
    let (whole, after) = take_while (rounds_of lx) is_digit lx in
    let (digits, last) = take_while (rounds_of lx) is_digit (consume after) in
    if after.ch == b'.'
    then (token tok_float (whole ++ after.ch ∷ digits), last)
    else (token tok_int whole, after)

unfoldable pub varchar : Lexer → Token × Lexer
unfolding take_while
varchar lx =
    let (text, after) = take_while (rounds_of lx) in_quotes (consume lx) in
    (token tok_varchar (34 ∷ text ++ 34 ∷ []), consume after)

abbrev pub returned : Token × Lexer → Result Token × Lexer
returned (t, lx) = (ok t, lx)

-- A character that a second one may follow.
abbrev pub pair_or : ℕ → Token → Result Token → Lexer → Result Token × Lexer
pair_or second pair alone lx = if lx.ch == second then (ok pair, consume lx) else (alone, lx)

-- The switch of compound, on the character in m_ch.
unfoldable pub compound_at : ℕ → Lexer → Result Token × Lexer
unfolding consume peek number
compound_at ch lx =
    if ch == b'&'
    then pair_or b'&' (token tok_and (codes "&&")) (err token_error) (consume lx)
    else if ch == b'.'
    then (if is_digit (peek lx)
        then returned (number lx)
        else (ok (token tok_dot (codes ".")), consume lx))
    else if ch == b'<'
    then pair_or b'=' (token tok_le (codes "<=")) (ok (token tok_lt (codes "<"))) (consume lx)
    else if ch == b'>'
    then pair_or b'=' (token tok_ge (codes ">=")) (ok (token tok_gt (codes ">"))) (consume lx)
    else if ch == b'!'
    then pair_or b'=' (token tok_ne (codes "!=")) (err token_error) (consume lx)
    else if ch == b'|'
    then pair_or b'|' (token tok_or (codes "||")) (err token_error) (consume lx)
    else (err token_error, lx)

unfoldable pub compound : Lexer → Result Token × Lexer
unfolding compound_at
compound lx = compound_at lx.ch lx

-- The characters that are a token by themselves.
abbrev pub single : ℕ → Option ℕ
single c =
    if c == b'('
    then some tok_l_paren
    else if c == b')'
    then some tok_r_paren
    else if c == b'*'
    then some tok_asterisk
    else if c == b'+'
    then some tok_plus
    else if c == b','
    then some tok_comma
    else if c == b'-'
    then some tok_minus
    else if c == b'/'
    then some tok_backslash
    else if c == b';'
    then some tok_semicolon
    else if c == b'='
    then some tok_eq
    else if c == b'@'
    then some tok_atsign
    else none

abbrev pub is_compound : ℕ → Bool
is_compound c = c == b'&' || c == b'.' || c == b'!' || c == b'<' || c == b'>' || c == b'|'

-- What the switch of next_token does at a character.
pub data Action : Type 0 where
  finish skip_space skip_comment quoted pair word digits refuse : Action
  alone : ℕ → Action

unfoldable pub action : ℕ → Action
action c =
    if c == eoi
    then finish
    else if c == b' ' || c == b'\t' || c == b'\n'
    then skip_space
    else if c == 34 || c == 39
    then quoted
    else if c == b'#'
    then skip_comment
    else if is_compound c
    then pair
    else elim (single c) [
      | some type ↦ alone type
      | none ↦ if is_alpha c then word else if is_digit c then digits else refuse
    ]

-- m_token_list.push_back(t); return m_token_list.back();
unfoldable pub listed : Result Token × Lexer → Result Token × Lexer
listed (ok t, lx) = (ok t, push_token t lx)
listed (err e, lx) = (err e, lx)

-- The switch; blanks and comments start the loop again.
unfoldable pub dispatch : Exec Lexer Token → Action → Exec Lexer Token
unfolding listed ws comment varchar compound name number
dispatch again finish lx = (ok (token tok_eoi (codes "<EOI>")), lx)
dispatch again skip_space lx = again (ws lx)
dispatch again skip_comment lx = again (comment lx)
dispatch again quoted lx = listed (returned (varchar lx))
dispatch again pair lx = listed (compound lx)
dispatch again (alone type) lx = listed (ok (token type (lx.ch ∷ [])), consume lx)
dispatch again word lx = listed (returned (name lx))
dispatch again digits lx = listed (returned (number lx))
dispatch again refuse lx = (err token_error, lx)

-- The loop of next_token. Each round but the last moves on in the input.
unfoldable pub next_token_loop : ℕ → Exec Lexer Token
unfolding action dispatch
next_token_loop zero lx = (err endless, lx)
next_token_loop (suc fuel) lx = dispatch (next_token_loop fuel) (action lx.ch) lx

unfoldable pub next_token : Exec Lexer Token
unfolding next_token_loop
next_token lx = next_token_loop (rounds_of lx) (record lx { mark = lx.index })

-- lexer::remaining
abbrev pub remaining : Lexer → Text
remaining lx = from lx.input lx.mark
  where
    from : Text → ℕ → Text
    from text zero = text
    from [] (suc i) = []
    from (c ∷ text) (suc i) = from text i
