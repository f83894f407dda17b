-- ===== src/Tran/Primaries.antt =====
-- The method math_primary on the operands of expressions.
use sql_relational_database.Common.{
  ℕ, zero, suc, ◌+◌, ◌*◌, ◌<◌, ◌≤◌, ◌≡◌, refl, ap, ◌∙◌, subst, Bool, true, false, ◌||◌, ◌==◌, arith,
  List, [], ◌∷◌, ◌++◌, some, length, length-append,
}
use sql_relational_database.Common.Exec.{bind_ok}
use sql_relational_database.Tran.Symbol.{
  codes, tok_float, tok_int, tok_minus, tok_null_sym, tok_plus, tok_varchar,
}
use sql_relational_database.Tran.Lexer.{Token, token}
use sql_relational_database.Tran.Parser.{
  Parser, call, pusho, Code, consume, get_lookahead_type, load_lookahead, data_of, data_text,
}
use sql_relational_database.Tran.Window.{Frame}
use sql_relational_database.Tran.Ahead.{
  Stands, Frame-trans, get_lookahead_type-Moves, consume-to, load_lookahead-Moves,
}
use sql_relational_database.Tran.Operands.{
  Grows-trans, Frame-Grows, Yields, data_of-Yields, keep_data-Yields,
}
use sql_relational_database.Tran.Grammar.{
  Primary, literal, negation, null_symbol, sign, varchar, primary, primary_at, math_primary,
  logic_expr, value_of, null_operand,
}
use sql_relational_database.Tran.Expression.{Expr, value, negate, Emits}
use sql_relational_database.Tran.Levels.{Before, Parses, Grows-HasEmpty}

-- math_primary comes to its switch.
pub primary_step :
    (fuel : ℕ) (b : Bool) (p : Parser) (t : Token) (ts : List Token) (k : Primary)
    → 5 ≤ length ts
    → primary t.type ≡ k
    → Stands p (t ∷ ts)
    → (q : Parser) × (math_primary (suc fuel) b p
        ≡ primary_at (logic_expr fuel []) (math_primary fuel false) b t.type k q)
      × Stands q (t ∷ ts)
      × Frame p q
unfolding math_primary
primary_step fuel b p t ts k h e s =
    let (q, f, s', frame) = load_lookahead-Moves 6 p (t ∷ ts) (omega arith) s in
    let (r, g, s'', frame') = get_lookahead_type-Moves q t ts s' in
    (
      r,
      bind_ok (load_lookahead 6) _ p f (
          bind_ok (get_lookahead_type 0) _ q g
            (ap (λ k. primary_at (logic_expr fuel []) (math_primary fuel false) b t.type k r) e)),
      s'',
      Frame-trans frame frame',
    )

-- What a primary yields from its switch, it yields from the method.
abbrev pub Switches : Primary → Expr → Token → List Token → Type 0
Switches k e t ts =
    (fuel : ℕ) (b : Bool) (p : Parser) (u : Token) (us : List Token)
    → 8 * suc (length ts) + 7 < suc fuel + 6
    → Before 6 p (t ∷ ts) u us
    → (code : Code) × (after : Parser) × Yields
        (primary_at (logic_expr fuel []) (math_primary fuel false) b t.type k) p code after (u ∷ us)
      × Emits after.operands e code

pub by_switch :
    (k : Primary) (e : Expr) (t : Token) (ts : List Token)
    → primary t.type ≡ k
    → Switches k e t ts
    → Parses 6 e (t ∷ ts)
by_switch k e t ts h switches zero b p u us enough before = absurd (omega arith)
by_switch k e t ts h switches (suc fuel) b p u us enough before =
    let (q, f, s, frame) =
      primary_step fuel b p t (ts ++ (u ∷ us)) k
        (omega (arith, length-append ts (u ∷ us), before.enough)) h before.stands in
    let (code, after, (g, s', grows), emits) = switches fuel b q u us (omega arith) (record {
      stops = before.stops;
      enough = before.enough;
      has_empty = Grows-HasEmpty (Frame-Grows p q frame) before.has_empty;
      stands = s;
    }) in
    (code, after, (f ∙ g, s', Grows-trans (Frame-Grows p q frame) grows), emits)

value_of-Yields :
    (p : Parser) (t u : Token) (us : List Token)
    → Stands p (t ∷ u ∷ us)
    → (code : Code) × (after : Parser) × Yields (value_of t.type) p code after (u ∷ us)
      × Emits after.operands (value t.text) code
unfolding value_of
value_of-Yields p t u us s =
    let (i, after, (e, s', grows), held) = data_of-Yields p t u us s in
    (
      call "MKEXPR" ∷ pusho (some i) ∷ [],
      after,
      (bind_ok (data_of t.type) _ p e refl, s', grows),
      (i, refl, held),
    )

pub literal-Parses :
    (t : Token)
    → (t.type == tok_float || t.type == tok_int) ≡ true
    → Parses 6 (value t.text) (t ∷ [])
unfolding primary_at
literal-Parses t h =
    by_switch literal (value t.text) t [] (ground arith)
      (λ fuel b p u us enough before. value_of-Yields p t u us before.stands)

pub quote-Parses : (t : Token) → t.type ≡ tok_varchar → Parses 6 (value t.text) (t ∷ [])
unfolding primary_at
quote-Parses t h =
    by_switch varchar (value t.text) t [] (ground arith) (λ fuel b p u us enough before.
      subst
        (λ k.
          (code : Code) × (after : Parser) × Yields (value_of k) p code after (u ∷ us)
          × Emits after.operands (value t.text) code)
        h (value_of-Yields p t u us before.stands))

pub null-Parses : (t : Token) → t.type ≡ tok_null_sym → Parses 6 (value (codes "null")) (t ∷ [])
unfolding primary_at null_operand data_text
null-Parses t h =
    by_switch null_symbol (value (codes "null")) t [] (ground arith) (λ fuel b p u us enough before.
      let (q, e, s, frame) = consume-to p t (u ∷ us) (omega arith) before.stands in
      let (i, after, (f, s', grows), held) =
        keep_data-Yields (token tok_varchar (codes "null")) q (u ∷ us) s in
      (
        call "MKEXPR" ∷ pusho (some i) ∷ [],
        after,
        (
          bind_ok consume _ p e (bind_ok (data_text (codes "null")) _ q f refl),
          s',
          Grows-trans (Frame-Grows p q frame) grows,
        ),
        (i, refl, held),
      ))

pub minus-Parses :
    (e : Expr) (t : Token) (ts : List Token)
    → t.type ≡ tok_minus
    → 0 < length ts
    → Parses 6 e ts
    → Parses 6 (negate e) (t ∷ ts)
unfolding primary_at
minus-Parses e t ts h nonempty parses =
    by_switch negation (negate e) t ts (ground arith) (λ fuel b p u us enough before.
      let (q, f, s, frame) =
        consume-to p t (ts ++ (u ∷ us)) (omega (arith, length-append ts (u ∷ us))) before.stands in
      let (code, after, (g, s', grows), emits) = parses fuel false q u us (omega arith) (record {
        stops = before.stops;
        enough = before.enough;
        has_empty = Grows-HasEmpty (Frame-Grows p q frame) before.has_empty;
        stands = s;
      }) in
      (
        call "NEGATE" ∷ code,
        after,
        (
          bind_ok consume _ p f (bind_ok (math_primary fuel false) _ q g refl),
          s',
          Grows-trans (Frame-Grows p q frame) grows,
        ),
        (code, refl, emits),
      ))

pub plus-Parses :
    (e : Expr) (t : Token) (ts : List Token)
    → t.type ≡ tok_plus
    → 0 < length ts
    → Parses 6 e ts
    → Parses 6 e (t ∷ ts)
unfolding primary_at
plus-Parses e t ts h nonempty parses =
    by_switch sign e t ts (ground arith) (λ fuel b p u us enough before.
      let (q, f, s, frame) =
        consume-to p t (ts ++ (u ∷ us)) (omega (arith, length-append ts (u ∷ us))) before.stands in
      let (code, after, (g, s', grows), emits) = parses fuel false q u us (omega arith) (record {
        stops = before.stops;
        enough = before.enough;
        has_empty = Grows-HasEmpty (Frame-Grows p q frame) before.has_empty;
        stands = s;
      }) in
      (
        code,
        after,
        (bind_ok consume _ p f g, s', Grows-trans (Frame-Grows p q frame) grows),
        emits,
      ))
