-- ===== src/Comp/Assembler.antt =====
-- Class comp_parser of comp/comp.h and comp/comp.cpp: the segments of data and of code as bytes in
-- two buffers of 8192 bytes. What new uint8_t[] holds at first is an argument. m_lexer is lexer,
-- m_code and m_data are code and segment, and
-- comp_parser::data is data_items.
use sql_relational_database.Common.{
  ℕ, zero, suc, ◌+◌, ◌-◌, ◌*◌, ◌%◌, ◌^◌, Bool, true, false, leb, ltb, ◌==◌, if◌then◌else◌, List, [],
  ◌∷◌, ◌++◌, Option, none, some, length, get_elem?,
}
use sql_relational_database.Common.Int.{ℤ, pos, negsuc, to_unsigned, to_signed}
use sql_relational_database.Common.Exec.{
  Exec, Result, ok, err, pure, throw, gets, ◌>>=◌, ◌>>◌, token_error, endless, invalid_number,
  out_of_storage,
}
use sql_relational_database.Buffer.{Buffer, make, put, put_varchar, trip}
use sql_relational_database.Buffer.Words.{half16, put_int16, put_int32}
use sql_relational_database.Vm.Item.{Text}
use sql_relational_database.Tran.Lexer.{Token, is_digit, isspace}
use sql_relational_database.Comp.Symbol.{
  tok_call, tok_data, tok_dot, tok_int, tok_nop, tok_percent, tok_push, tok_pusho, tok_ret,
  tok_text,
}
use sql_relational_database.Comp.Opcode.{op_call, op_push, op_pusho, op_ret, routines}
use sql_relational_database.Comp.Lexer.{CompLexer, next_token}

pub record Assembler : Type 0 where
  pub lexer : CompLexer
  pub lookahead : List Token
  pub code : Buffer
  pub segment : Buffer
  pub index : ℕ

abbrev pub fetched : Assembler → Result Token × CompLexer → Result (Unit {0}) × Assembler
fetched p (ok t, lx) = (ok tt, record p { lexer = lx; lookahead = p.lookahead ++ t ∷ [] })
fetched p (err e, lx) = (err e, record p { lexer = lx })

-- m_lookahead.push_back(m_lexer.next_token())
unfoldable pub fetch : Exec Assembler (Unit {0})
unfolding next_token
fetch p = fetched p (next_token p.lexer)

unfoldable pub load_tokens : ℕ → Exec Assembler (Unit {0})
unfolding fetch ◌>>=◌
load_tokens zero = pure tt
load_tokens (suc n) = fetch >> load_tokens n

-- Each round of the loop adds a token.
unfoldable pub load_lookahead : ℕ → Exec Assembler (Unit {0})
unfolding load_tokens
load_lookahead i p = load_tokens (p.index + i - length p.lookahead) p

abbrev pub at_token : Option Token → Exec Assembler Token
at_token (some t) = pure t
at_token none = throw out_of_storage

unfoldable pub get_lookahead_token : ℕ → Exec Assembler Token
unfolding load_lookahead ◌>>=◌
get_lookahead_token i = do
  load_lookahead i
  t ← gets (λ p. get_elem? p.lookahead (p.index + i))
  at_token t

unfoldable pub get_lookahead_type : ℕ → Exec Assembler ℕ
unfolding get_lookahead_token
get_lookahead_type i = do t ← get_lookahead_token i; pure t.type

unfoldable pub moved_on : Assembler → Assembler
moved_on p =
    if leb (length p.lookahead) (p.index + 1)
    then record p { index = 0; lookahead = [] }
    else record p { index = p.index + 1 }

unfoldable pub consume : Exec Assembler (Unit {0})
unfolding moved_on load_lookahead
consume p = load_lookahead 1 (moved_on p)

unfoldable pub match_type : ℕ → Exec Assembler (Unit {0})
unfolding get_lookahead_type consume
match_type type = do t ← get_lookahead_type 0; if t == type then consume else throw token_error

abbrev pub coded : Assembler → Result (Unit {0}) × Buffer → Result (Unit {0}) × Assembler
coded p (r, b) = (r, record p { code = b })

-- A call on m_code.
unfoldable pub on_code : Exec Buffer (Unit {0}) → Exec Assembler (Unit {0})
on_code action p = coded p (action p.code)

abbrev pub stored : Assembler → Result (Unit {0}) × Buffer → Result (Unit {0}) × Assembler
stored p (r, b) = (r, record p { segment = b })

-- A call on m_data.
unfoldable pub on_data : Exec Buffer (Unit {0}) → Exec Assembler (Unit {0})
on_data action p = stored p (action p.segment)

-- std::stoi: white space, a sign and the digits at the front; at least one digit, and a value that
-- an int32_t holds.
abbrev pub magnitude : ℕ → Text → ℕ
magnitude n [] = n
magnitude n (c ∷ text) =
    let rest = magnitude (10 * n + (c - b'0')) text in if is_digit c then rest else n

abbrev pub after_sign : Bool → Text → Result ℤ
after_sign minus [] = err invalid_number
after_sign minus (c ∷ text) =
    let n = magnitude 0 (c ∷ text) in
    if is_digit c
    then (if minus
        then (if leb n (2 ^ 31)
            then ok (if n == 0 then pos 0 else negsuc (n - 1))
            else err invalid_number)
        else (if ltb n (2 ^ 31) then ok (pos n) else err invalid_number))
    else err invalid_number

unfoldable pub stoi : Text → Result ℤ
stoi [] = err invalid_number
stoi (c ∷ text) =
    let rest = stoi text in
    if isspace c
    then rest
    else if c == b'-'
    then after_sign true text
    else if c == b'+'
    then after_sign false text
    else after_sign false (c ∷ text)

abbrev pub value_or_throw : Result ℤ → Exec Assembler ℤ
value_or_throw (ok v) = pure v
value_or_throw (err e) = throw e

-- std::stoi(get_lookahead_token(0).text())
unfoldable pub token_value : Exec Assembler ℤ
unfolding get_lookahead_token stoi ◌>>=◌
token_value = do t ← get_lookahead_token 0; value_or_throw (stoi t.text)

unfoldable pub find_routine : List (ℕ × ℕ) → ℕ → Option ℕ
find_routine [] type = none
find_routine ((t, opcode) ∷ table) type =
    let rest = find_routine table type in if type == t then some opcode else rest

abbrev pub put_routine : Option ℕ → Exec Assembler (Unit {0})
put_routine none = throw token_error
put_routine (some opcode) = consume >> on_code (put opcode)

unfoldable pub call : Exec Assembler (Unit {0})
unfolding get_lookahead_type find_routine routines consume on_code put ◌>>=◌
call = do
  on_code (put op_call)
  type ← get_lookahead_type 0
  put_routine (find_routine routines type)

unfoldable pub push : Exec Assembler (Unit {0})
unfolding token_value match_type on_code put put_int32 ◌>>=◌
push = do on_code (put op_push); value ← token_value; match_type tok_int; on_code (put_int32 value)

-- offset [index]
abbrev pub offset_at : List ℕ → ℤ → Option ℕ
offset_at offset (negsuc n) = none
offset_at offset (pos n) = get_elem? offset n

abbrev pub put_offset : Option ℕ → Exec Assembler (Unit {0})
put_offset none = throw out_of_storage
put_offset (some o) = on_code (put_int32 (pos o))

unfoldable pub pusho : List ℕ → Exec Assembler (Unit {0})
unfolding token_value match_type on_code put put_int32 ◌>>=◌
pusho offset = do
  on_code (put op_pusho)
  index ← token_value
  match_type tok_int
  put_offset (offset_at offset index)

-- One case of the switch of text other than RET.
unfoldable pub text_at : ℕ → List ℕ → Exec Assembler (Unit {0})
unfolding consume call push pusho ◌>>=◌
text_at type offset =
    if type == tok_call
    then consume >> call
    else if type == tok_nop
    then consume
    else if type == tok_push
    then consume >> push
    else if type == tok_pusho
    then consume >> pusho offset
    else throw token_error

-- The recursion on the tokens: each round consumes at least one.
unfoldable pub text : ℕ → List ℕ → Exec Assembler (Unit {0})
unfolding get_lookahead_type text_at consume on_code put ◌>>=◌
text zero offset = throw endless
text (suc fuel) offset = do
  type ← get_lookahead_type 0
  let more = text_at type offset >> text fuel offset
  if type == tok_ret then consume >> on_code (put op_ret) else more

-- A type, the length of a text and its characters.
unfoldable pub data_item : Exec Assembler (Unit {0})
unfolding token_value get_lookahead_token consume on_data put put_int16 put_varchar ◌>>=◌
data_item = do
  type ← token_value
  on_data (put (to_unsigned (2 ^ 7) type))
  consume
  t ← get_lookahead_token 0
  on_data (put_int16 (to_signed half16 (length t.text % 2 ^ 16)))
  on_data (put_varchar t.text)
  consume

-- The recursion on the tokens: each round consumes two. The offsets are returned.
unfoldable pub data_items : ℕ → List ℕ → Exec Assembler (List ℕ)
unfolding get_lookahead_type data_item ◌>>=◌
data_items zero offset = throw endless
data_items (suc fuel) offset = do
  type ← get_lookahead_type 0
  o ← gets (λ p. p.segment.index)
  let more = data_item >> data_items fuel (offset ++ o ∷ [])
  if type == tok_percent then pure offset else more

-- Every round takes a character of the input at least, or fails at a minus sign, which number reads
-- as a token without characters; one token was taken before.
abbrev pub in_rounds : {A : Type 0} → (ℕ → Exec Assembler A) → Exec Assembler A
in_rounds loop p = loop (length p.lexer.input + 2) p

unfoldable pub data_segment : Exec Assembler (List ℕ)
unfolding match_type data_items ◌>>=◌
data_segment = do
  match_type tok_dot
  match_type tok_data
  offset ← in_rounds (λ fuel. data_items fuel [])
  match_type tok_percent
  match_type tok_percent
  pure offset

unfoldable pub text_segment : List ℕ → Exec Assembler (Unit {0})
unfolding match_type text ◌>>=◌
text_segment offset = do
  match_type tok_dot
  match_type tok_text
  in_rounds (λ fuel. text fuel offset)
  match_type tok_percent
  match_type tok_percent

-- comp_parser::compile, which is all that parse does.
unfoldable pub compile : Exec Assembler (Unit {0})
unfolding data_segment text_segment ◌>>=◌
compile = do offset ← data_segment; text_segment offset

-- comp_parser::comp_parser with comp_parser::init, in an object that is not yet set.
unfoldable pub new_assembler : CompLexer → (ℕ → ℕ) → (ℕ → ℕ) → Exec Assembler (Unit {0})
unfolding load_lookahead make
new_assembler lx code_storage data_storage p = load_lookahead 1 (record {
  lexer = lx;
  lookahead = [];
  code = make 8192 code_storage;
  segment = make 8192 data_storage;
  index = 0;
})

unfoldable pub dump : Exec Assembler (Buffer × Buffer)
unfolding on_code on_data trip ◌>>=◌
dump = do on_data trip; on_code trip; gets (λ p. (p.segment, p.code))
