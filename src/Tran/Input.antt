-- ===== src/Tran/Input.antt =====
-- The lexer and the parser never change the text that is read.
use sql_relational_database.Common.{
  ℕ, zero, suc, ◌≡◌, refl, ◌∙◌, Bool, true, false, ◌==◌, arith, [], ◌∷◌, if◌then◌else◌,
}
use sql_relational_database.Common.Exec.{Result, ok, err, Exec, continue, ◌>>=◌}
use sql_relational_database.Vm.Item.{Text}
use sql_relational_database.Tran.Parser.{Parser, fetched, fetch, load_tokens}
use sql_relational_database.Tran.Lexer.{
  Token, Lexer, consume, take_while, rounds_of, in_line, in_quotes, isspace, is_word, is_digit,
  comment, ws, name, number, varchar, compound, compound_at, pair_or, returned, peek, listed,
  dispatch, Action, finish, skip_space, skip_comment, quoted, pair, word, digits, refuse, alone,
  next_token_loop, next_token, action,
}

consume-input : (lx : Lexer) → (consume lx).input ≡ lx.input
unfolding consume
consume-input lx = ground arith

take_while-input :
    (fuel : ℕ) (test : ℕ → Bool) (lx : Lexer) → (take_while fuel test lx).1.input ≡ lx.input
unfolding take_while
take_while-input zero test lx = refl
take_while-input (suc fuel) test lx =
    go (test lx.ch) (take_while-input fuel test (consume lx) ∙ consume-input lx)
  where
    go :
        (b : Bool)
        → (take_while fuel test (consume lx)).1.input ≡ lx.input
        → (elim b as (λ _. Text × Lexer) [
          | true ↦
              (lx.ch ∷ (take_while fuel test (consume lx)).0, (take_while fuel test (consume lx)).1)
          | false ↦ ([], lx)
        ]).1.input
          ≡ lx.input
    go true h = h
    go false h = refl

ws-input : (lx : Lexer) → (ws lx).input ≡ lx.input
unfolding ws
ws-input lx = take_while-input (rounds_of lx) isspace lx

comment-input : (lx : Lexer) → (comment lx).input ≡ lx.input
unfolding comment
comment-input lx =
    consume-input (take_while (rounds_of lx) in_line (consume lx)).1
    ∙ take_while-input (rounds_of lx) in_line (consume lx)
    ∙ consume-input lx

varchar-input : (lx : Lexer) → (varchar lx).1.input ≡ lx.input
unfolding varchar
varchar-input lx =
    consume-input (take_while (rounds_of lx) in_quotes (consume lx)).1
    ∙ take_while-input (rounds_of lx) in_quotes (consume lx)
    ∙ consume-input lx

name-input : (lx : Lexer) → (name lx).1.input ≡ lx.input
unfolding name
name-input lx = take_while-input (rounds_of lx) is_word lx

either :
    {A : Type 0} (b : Bool) (x y : A × Lexer) (input : Text)
    → x.1.input ≡ input
    → y.1.input ≡ input
    → (if b then x else y).1.input ≡ input
either true x y input h k = h
either false x y input h k = k

number-input : (lx : Lexer) → (number lx).1.input ≡ lx.input
unfolding number
number-input lx =
    let after = (take_while (rounds_of lx) is_digit lx).1 in
    either (after.ch == b'.') _ _ lx.input
      (take_while-input (rounds_of lx) is_digit (consume after)
        ∙ consume-input after
        ∙ take_while-input (rounds_of lx) is_digit lx)
      (take_while-input (rounds_of lx) is_digit lx)

pair_or-input :
    (second : ℕ) (longer : Token) (shorter : Result Token) (lx : Lexer)
    → (pair_or second longer shorter (consume lx)).1.input ≡ lx.input
pair_or-input second longer shorter lx =
    either ((consume lx).ch == second) _ _ lx.input (consume-input (consume lx) ∙ consume-input lx)
      (consume-input lx)

compound-input : (lx : Lexer) → (compound lx).1.input ≡ lx.input
unfolding compound compound_at
compound-input lx = either (lx.ch == b'&') _ _ lx.input (pair_or-input b'&' _ _ lx) (
    either (lx.ch == b'.') _ _ lx.input
      (either (is_digit (peek lx)) _ _ lx.input (number-input lx) (consume-input lx))
      (either (lx.ch == b'<') _ _ lx.input (pair_or-input b'=' _ _ lx) (
        either (lx.ch == b'>') _ _ lx.input (pair_or-input b'=' _ _ lx) (
          either (lx.ch == b'!') _ _ lx.input (pair_or-input b'=' _ _ lx)
            (either (lx.ch == b'|') _ _ lx.input (pair_or-input b'|' _ _ lx) refl)))))

listed-input : (r : Result Token × Lexer) → (listed r).1.input ≡ r.1.input
unfolding listed
listed-input (ok t, lx) = refl
listed-input (err e, lx) = refl

dispatch-input :
    (again : Exec Lexer Token) (a : Action) (lx : Lexer)
    → ((lx' : Lexer) → (again lx').1.input ≡ lx'.input)
    → (dispatch again a lx).1.input ≡ lx.input
unfolding dispatch
dispatch-input again finish lx h = refl
dispatch-input again skip_space lx h = h (ws lx) ∙ ws-input lx
dispatch-input again skip_comment lx h = h (comment lx) ∙ comment-input lx
dispatch-input again quoted lx h = listed-input (returned (varchar lx)) ∙ varchar-input lx
dispatch-input again pair lx h = listed-input (compound lx) ∙ compound-input lx
dispatch-input again (alone type) lx h = consume-input lx
dispatch-input again word lx h = listed-input (returned (name lx)) ∙ name-input lx
dispatch-input again digits lx h = listed-input (returned (number lx)) ∙ number-input lx
dispatch-input again refuse lx h = refl

loop-input : (fuel : ℕ) (lx : Lexer) → (next_token_loop fuel lx).1.input ≡ lx.input
unfolding next_token_loop
loop-input zero lx = refl
loop-input (suc fuel) lx = dispatch-input (next_token_loop fuel) (action lx.ch) lx (loop-input fuel)

pub next_token-input : (lx : Lexer) → (next_token lx).1.input ≡ lx.input
unfolding next_token
next_token-input lx = loop-input (rounds_of lx) (record lx { mark = lx.index })

fetched-input : (p : Parser) (r : Result Token × Lexer) → (fetched p r).1.lexer.input ≡ r.1.input
fetched-input p (ok t, lx) = refl
fetched-input p (err e, lx) = refl

fetch-input : (p : Parser) → (fetch p).1.lexer.input ≡ p.lexer.input
unfolding fetch
fetch-input p = fetched-input p (next_token p.lexer) ∙ next_token-input p.lexer

continue-input :
    (r : Result (Unit {0}) × Parser) (n : ℕ) (input : Text)
    → r.1.lexer.input ≡ input
    → ((q : Parser) → (load_tokens n q).1.lexer.input ≡ q.lexer.input)
    → (continue r.0 (λ _. load_tokens n) r.1).1.lexer.input ≡ input
continue-input (ok u, q) n input e h = h q ∙ e
continue-input (err x, q) n input e h = e

pub load_tokens-input : (n : ℕ) (p : Parser) → (load_tokens n p).1.lexer.input ≡ p.lexer.input
unfolding load_tokens ◌>>=◌
load_tokens-input zero p = refl
load_tokens-input (suc n) p =
    continue-input (fetch p) n p.lexer.input (fetch-input p) (load_tokens-input n)
