-- ===== src/Tran/Header.antt =====
-- The header of a column of a result (tran/tran.cpp: next_header): the text of its tokens.
use sql_relational_database.Common.{
  ℕ, ◌||◌, ◌==◌, if◌then◌else◌, List, [], ◌∷◌, ◌++◌, map, reverse, Option, none, some,
}
use sql_relational_database.Common.Exec.{Exec, Result, ok, err, out_of_storage}
use sql_relational_database.Vm.Item.{Text}
use sql_relational_database.Tran.Symbol.{tok_comma, tok_from, tok_select}
use sql_relational_database.Tran.Lexer.{Token, isspace}
use sql_relational_database.Tran.Parser.{Parser}

-- if the first token is SELECT, it and the next one are skipped; none where there are not so many.
unfoldable pub skip_select : List Token → Option (List Token)
skip_select [] = none
skip_select (t ∷ []) = if t.type == tok_select then none else some (t ∷ [])
skip_select (t ∷ u ∷ ts) = if t.type == tok_select then some ts else some (t ∷ u ∷ ts)

-- The texts up to a comma or FROM, and the tokens behind that one.
unfoldable pub header_tokens : List Token → Text × List Token
header_tokens [] = ([], [])
header_tokens (t ∷ ts) =
    let (text, rest) = header_tokens ts in
    if t.type == tok_comma || t.type == tok_from then ([], ts) else (t.text ++ text, rest)

unfoldable pub trim_front : Text → Text
trim_front [] = []
trim_front (c ∷ text) = let rest = trim_front text in if isspace c then rest else c ∷ text

abbrev pub tab_to_space : ℕ → ℕ
tab_to_space c = if c == b'\t' then b' ' else c

unfoldable pub escape : Text → Text
escape [] = []
escape (c ∷ text) = let rest = escape text in if c == 34 then 92 ∷ c ∷ rest else c ∷ rest

-- The header in quotes. std::string::back of the empty text is undefined.
unfoldable pub quote_header : Text → Result Text
unfolding escape
quote_header [] = err out_of_storage
quote_header (c ∷ text) = ok (34 ∷ escape (map tab_to_space (trim_back (c ∷ text))) ++ 34 ∷ [])
  where
    trim_back : Text → Text
    trim_back header = reverse (trim_front (reverse header))

unfoldable pub next_header : Exec Parser Text
unfolding skip_select header_tokens trim_front quote_header
next_header p = skipped (skip_select p.lexer.token_list)
  where
    skipped : Option (List Token) → Result Text × Parser
    skipped none = (err out_of_storage, p)
    skipped (some ts) =
        let (header, rest) = header_tokens ts in
        (
          quote_header (trim_front header),
          record p { lexer = record p.lexer { token_list = rest } },
        )
