-- ===== src/Tran/FromText.antt =====
-- The translation of an expression from its text: the lexer and the parser together.
use sql_relational_database.Common.{
  ℕ, zero, suc, ◌+◌, ◌*◌, ◌<◌, ◌≤◌, ◌≡◌, refl, sym, ap, ◌∙◌, arith, List, [], ◌∷◌, ◌++◌, length,
  length-append, none, All,
}
use sql_relational_database.Common.Exec.{ok, ◌>>◌, bind_ok}
use sql_relational_database.Tran.Lexer.{Token, token, Lexer, new_lexer}
use sql_relational_database.Tran.Input.{load_tokens-input}
use sql_relational_database.Tran.Lexing.{IsToken}
use sql_relational_database.Tran.Stream.{Lexes, spaced, eois, eoi_token, new_lexer-spaced}
use sql_relational_database.Tran.Parser.{Parser, Code, empty, new_parser, load_lookahead}
use sql_relational_database.Tran.Window.{Window, load_lookahead-Window}
use sql_relational_database.Tran.Grammar.{expr}
use sql_relational_database.Tran.Ahead.{Stands}
use sql_relational_database.Tran.Expression.{Expr, Derives, Emits, operators_at}
use sql_relational_database.Tran.Levels.{HasEmpty}
use sql_relational_database.Tran.Translate.{logic_expr-Derives}

-- The parser of a new lexer stands before its tokens.
new_parser-Stands :
    (lx : Lexer) (p : Parser) (ts : List Token)
    → 0 < length ts
    → Lexes lx ts
    → (after : Parser) × (new_parser lx p ≡ (ok tt, after))
      × Stands after ts
      × HasEmpty after
      × (after.code ≡ [])
      × (after.lexer.input ≡ lx.input)
unfolding new_parser load_lookahead
new_parser-Stands lx p ts nonempty l =
    let (after, e, w, frame, same, more, grown) =
      load_lookahead-Window _ 0 0 ts start 1 (omega arith) in
    (
      after,
      e,
      record {
        window = record {
          passed = w.passed;
          buffer = w.buffer;
          later = w.later;
          lookahead_eq = w.lookahead_eq;
          from_eq = w.from_eq ∙ sym same;
          index_eq = omega arith;
          tokens_eq = w.tokens_eq;
          lexes = w.lexes;
          inside = omega arith;
        };
        ready = omega arith;
        free = frame.mark_eq;
      },
      record { others = []; starts = frame.operands_eq },
      frame.code_eq,
      ap (λ r. r.1.lexer.input) (sym e) ∙ load_tokens-input 1 fresh,
    )
  where
    fresh : Parser
    fresh = record {
      lexer = lx;
      lookahead = [];
      code = [];
      operands = token 13 empty ∷ [];
      index = 0;
      mark = none;
    }

    start : Window fresh 0 0 ts
    start = record {
      passed = [];
      buffer = [];
      later = ts;
      lookahead_eq = refl;
      from_eq = refl;
      index_eq = refl;
      tokens_eq = refl;
      lexes = l;
      inside = omega arith;
    }

length-spaced : (ts : List Token) → length ts ≤ length (spaced ts)
length-spaced [] = omega arith
length-spaced (t ∷ ts) = omega (arith, length-spaced ts, length-append t.text (spaced ts))

new_lexer-input : (ts : List Token) → (new_lexer (spaced ts)).input ≡ spaced ts
unfolding new_lexer
new_lexer-input [] = refl
new_lexer-input (t ∷ ts) = refl

eoi-operators : (m : ℕ) → operators_at m eoi_token.type ≡ none
eoi-operators zero = refl
eoi-operators (suc zero) = refl
eoi-operators (suc (suc zero)) = refl
eoi-operators (suc (suc (suc zero))) = refl
eoi-operators (suc (suc (suc (suc zero)))) = refl
eoi-operators (suc (suc (suc (suc (suc m))))) = refl

-- Take the tokens of an expression, each a word, a number, a quoted text or a sign. Of the text in
-- which a blank stands before each of them and at the end, the lexer and the parser together make
-- the code of the expression in prefix form, whose operands hold the texts; no other code is
-- emitted, and the parser stops at the end of the text.
pub expr-spaced :
    (e : Expr) (ts : List Token) (p : Parser)
    → Derives 0 e ts
    → All IsToken ts
    → (code : Code) × (after : Parser) × ((new_parser (new_lexer (spaced ts)) >> expr []) p
        ≡ (ok code, after))
      × Emits after.operands e code
      × (after.code ≡ [])
      × Stands after (eois 6)
unfolding expr
expr-spaced e ts p d tokens =
    let (q, f, s, first, code_eq, input) =
      new_parser-Stands (new_lexer (spaced ts)) p (ts ++ eois 6)
        (omega (arith, length-append ts (eois 6))) (new_lexer-spaced ts 6 tokens) in
    let fuel : 8 * length ts + 7 < 8 * (length q.lexer.input + 1) =
      omega (arith, length-spaced ts, ap length (input ∙ new_lexer-input ts)) in
    let (code, after, (g, s', grows), emits) =
      logic_expr-Derives _ e ts q eoi_token (eois 5) d fuel (refl, λ m le lt. eoi-operators m)
        (omega arith) first s in
    (
      code,
      after,
      bind_ok (new_parser (new_lexer (spaced ts))) _ p f g,
      emits,
      grows.code_eq ∙ code_eq,
      s',
    )
