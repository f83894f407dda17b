-- ===== src/Comp/Ahead.antt =====
-- Reading and consuming the tokens ahead, and writing to the two segments.
use sql_relational_database.Common.{ℕ, ◌≡◌, refl, ap, ◌∙◌, List, [], ◌∷◌, if◌then◌else◌, ==_iff}
use sql_relational_database.Common.Int.{ℤ}
use sql_relational_database.Common.Exec.{Exec, ok, continue, pure, throw, bind_ok, token_error}
use sql_relational_database.Buffer.{Buffer}
use sql_relational_database.Buffer.Text.{written}
use sql_relational_database.Tran.Lexer.{Token}
use sql_relational_database.Comp.Lexer.{CompLexer, next_token}
use sql_relational_database.Comp.Assembler.{
  Assembler, fetched, consume, get_lookahead_token, get_lookahead_type, match_type, token_value,
  stoi, value_or_throw, on_code, coded, on_data, stored,
}

-- The tokens that the lexer returns next, and the lexer behind them.
pub data Reads : CompLexer → List Token → CompLexer → Type 0 where
  nothing : (lx : CompLexer) → Reads lx [] lx
  reads :
      (lx middle after : CompLexer) (t : Token) (ts : List Token)
      → next_token lx ≡ (ok t, middle)
      → Reads middle ts after
      → Reads lx (t ∷ ts) after

-- One token has been read ahead.
abbrev pub standing : CompLexer → Token → Buffer → Buffer → Assembler
standing lx t c d = record { lexer = lx; lookahead = t ∷ []; code = c; segment = d; index = 0 }

-- The parser stands before the tokens, with its two segments.
pub data Ahead (last : CompLexer) (c d : Buffer) : Assembler → List Token → Type 0 where
  ahead :
      (lx : CompLexer) (t : Token) (ts : List Token)
      → Reads lx ts last
      → Ahead last c d (standing lx t c d) (t ∷ ts)

-- The action returns the value and leaves the parser before other tokens, with other segments.
abbrev pub Moves :
    {A : Type 0}
    → CompLexer
    → Exec Assembler A
    → Assembler
    → A
    → Buffer
    → Buffer
    → List Token
    → Type 0
Moves last action p value c d ts =
    (q : Assembler) × (action p ≡ (ok value, q)) × Ahead last c d q ts

module _ (last : CompLexer) (c d : Buffer) where
  pub get_lookahead_token-Ahead :
      (p : Assembler) (t : Token) (ts : List Token)
      → Ahead last c d p (t ∷ ts)
      → get_lookahead_token 0 p ≡ (ok t, p)
  unfolding get_lookahead_token
  get_lookahead_token-Ahead _ t ts (ahead lx _ _ r) = refl

  pub get_lookahead_type-Ahead :
      (p : Assembler) (t : Token) (ts : List Token)
      → Ahead last c d p (t ∷ ts)
      → get_lookahead_type 0 p ≡ (ok t.type, p)
  unfolding get_lookahead_type
  get_lookahead_type-Ahead _ t ts (ahead lx _ _ r) = refl

  pub token_value-Ahead :
      (p : Assembler) (t : Token) (ts : List Token) (v : ℤ)
      → stoi t.text ≡ ok v
      → Ahead last c d p (t ∷ ts)
      → token_value p ≡ (ok v, p)
  unfolding token_value
  token_value-Ahead p t ts v e a =
      bind_ok (get_lookahead_token 0) _ p (get_lookahead_token-Ahead p t ts a)
        (ap (λ r. value_or_throw r p) e)

  pub consume-Ahead :
      (p : Assembler) (t u : Token) (ts : List Token)
      → Ahead last c d p (t ∷ u ∷ ts)
      → Moves last consume p tt c d (u ∷ ts)
  unfolding consume
  consume-Ahead _ t u ts (ahead lx _ _ (reads _ middle _ _ _ e r)) = (
    standing middle u c d,
    ap
        (λ o.
          let (outcome, after) =
            fetched (record { lexer = lx; lookahead = []; code = c; segment = d; index = 0 }) o in
          continue outcome (λ _. pure tt) after)
        e,
    ahead middle u ts r,
  )

  pub match_type-Ahead :
      (p : Assembler) (t u : Token) (ts : List Token) (type : ℕ)
      → t.type ≡ type
      → Ahead last c d p (t ∷ u ∷ ts)
      → Moves last (match_type type) p tt c d (u ∷ ts)
  unfolding match_type
  match_type-Ahead p t u ts type e a =
      let (q, f, b) = consume-Ahead p t u ts a in
      (
        q,
        bind_ok (get_lookahead_type 0) _ p (get_lookahead_type-Ahead p t (u ∷ ts) a)
            (ap (λ b. (if b then consume else throw token_error) p) ((==_iff t.type type).1 e) ∙ f),
        b,
      )

  pub on_code-Ahead :
      (p : Assembler) (ts : List Token) (bs : List ℕ) (action : Exec Buffer (Unit {0}))
      → action c ≡ (ok tt, written c bs)
      → Ahead last c d p ts
      → Moves last (on_code action) p tt (written c bs) d ts
  unfolding on_code
  on_code-Ahead _ _ bs action e (ahead lx t ts r) =
      (standing lx t (written c bs) d, ap (coded (standing lx t c d)) e, ahead lx t ts r)

  pub on_data-Ahead :
      (p : Assembler) (ts : List Token) (bs : List ℕ) (action : Exec Buffer (Unit {0}))
      → action d ≡ (ok tt, written d bs)
      → Ahead last c d p ts
      → Moves last (on_data action) p tt c (written d bs) ts
  unfolding on_data
  on_data-Ahead _ _ bs action e (ahead lx t ts r) =
      (standing lx t c (written d bs), ap (stored (standing lx t c d)) e, ahead lx t ts r)
