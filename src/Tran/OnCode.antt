-- ===== src/Tran/OnCode.antt =====
-- What logic_expr does on code that is there already, as select_expr and on_using call it.
use sql_relational_database.Common.{
  ℕ, suc, ◌+◌, ◌*◌, ◌<◌, ◌≤◌, ◌≡◌, ap, ◌∙◌, arith, List, [], ◌∷◌, ◌++◌, length, length-append,
  append-nil, some, true, false,
}
use sql_relational_database.Common.Exec.{ok, bind_ok}
use sql_relational_database.Tran.Symbol.{tok_and}
use sql_relational_database.Tran.Lexer.{Token}
use sql_relational_database.Tran.Parser.{Parser, Code, call}
use sql_relational_database.Tran.Grammar.{logic_expr, logic_term}
use sql_relational_database.Tran.Ahead.{Stands, get_lookahead_type-Moves, consume-to}
use sql_relational_database.Tran.Operands.{Grows-trans, Frame-Grows, Yields}
use sql_relational_database.Tran.Expression.{
  Expr, Derives, Emits, Stops, Stops-suc, operator-Stops, operators_at,
}
use sql_relational_database.Tran.Levels.{
  HasEmpty, Grows-HasEmpty, Grows-Emits, loop_operator, loop_ends,
}
use sql_relational_database.Tran.Translate.{Derives-Parses}

and_operator : (t : ℕ) → t ≡ tok_and → operators_at 0 t ≡ some "AND"
and_operator t h = ground arith

module _ (before : Code) (p : Parser) (u : Token) (us : List Token) (stops : Stops 0 u)
    (long : 5 ≤ length us) (first : HasEmpty p) where
  -- On code that is there already, logic_expr adds the code of an expression that has no AND at
  -- its top behind it.
  pub logic_expr-without_and :
      (loops : ℕ) (e : Expr) (ts : List Token)
      → Derives 1 e ts
      → 8 * length ts + 7 < suc loops
      → Stands p (ts ++ (u ∷ us))
      → (code : Code) × (after : Parser) × Yields
          (logic_expr (suc (suc loops)) before)
          p
          (before ++ code)
          after
          (u ∷ us)
        × Emits after.operands e code
  unfolding logic_expr
  logic_expr-without_and loops e ts d enough s =
      let (code, q, (f, s', g), emits) =
        Derives-Parses 1 e ts d (suc loops) true p u us (omega arith)
          (record { stops = Stops-suc 0 u stops; enough = long; has_empty = first; stands = s }) in
      let (after, h, s'', frame) = get_lookahead_type-Moves q u us s' in
      let grown = Frame-Grows q after frame in
      (
        code,
        after,
        (
          bind_ok (logic_term (suc loops) true) _ p f (
              loop_ends 0 loops (suc loops) before code q u after
                (stops.1 0 (omega arith) (omega arith)) h),
          s'',
          Grows-trans g grown,
        ),
        Grows-Emits e code grown emits,
      )

  -- For l AND r it adds the code of l and that of r, and puts the call of AND in front of all that
  -- was there.
  pub logic_expr-with_and :
      (loops : ℕ) (l r : Expr) (t : Token) (ts vs : List Token)
      → Derives 1 l ts
      → Derives 1 r vs
      → t.type ≡ tok_and
      → 8 * length (ts ++ (t ∷ vs)) + 7 < suc (suc loops)
      → Stands p (ts ++ (t ∷ vs ++ (u ∷ us)))
      → (c d : Code) × (after : Parser) × Yields
          (logic_expr (suc (suc (suc loops))) before)
          p
          (call "AND" ∷ before ++ (c ++ d))
          after
          (u ∷ us)
        × Emits after.operands l c
        × Emits after.operands r d
  unfolding logic_expr
  logic_expr-with_and loops l r t ts vs d e is_and enough s =
      let count = length-append ts (t ∷ vs) in
      let o = and_operator t.type is_and in
      let (c, q, (f, s', g), emits) =
        Derives-Parses 1 l ts d (suc (suc loops)) true p t (vs ++ (u ∷ us)) (omega (arith, count))
          (record {
            stops = operator-Stops 0 t "AND" (omega arith) o;
            enough = omega (arith, length-append vs (u ∷ us));
            has_empty = first;
            stands = s;
          }) in
      let (m, h, s'', frame) = get_lookahead_type-Moves q t (vs ++ (u ∷ us)) s' in
      let (n, k, s3, frame') =
        consume-to m t (vs ++ (u ∷ us)) (omega (arith, length-append vs (u ∷ us))) s'' in
      let moved = Grows-trans (Frame-Grows q m frame) (Frame-Grows m n frame') in
      let (c', after, (h', s4, g'), emits') =
        Derives-Parses 1 r vs e (suc (suc loops)) false n u us (omega (arith, count)) (record {
          stops = Stops-suc 0 u stops;
          enough = long;
          has_empty = Grows-HasEmpty (Grows-trans g moved) first;
          stands = s3;
        }) in
      let (last, h2, s5, frame2) = get_lookahead_type-Moves after u us s4 in
      let grown = Frame-Grows after last frame2 in
      (
        c,
        c',
        last,
        (
          bind_ok (logic_term (suc (suc loops)) true) _ p f (
              loop_operator 0 (suc loops) (suc (suc loops)) before c q t us "AND" c' m after o h n k
                h'
              ∙ loop_ends 0 loops (suc (suc loops)) ((call "AND" ∷ before) ++ (c ++ c')) [] after u
                  last (stops.1 0 (omega arith) (omega arith)) h2
              ∙ ap (λ code. (ok code, last)) (append-nil ((call "AND" ∷ before) ++ (c ++ c')))),
          s5,
          Grows-trans g (Grows-trans moved (Grows-trans g' grown)),
        ),
        Grows-Emits l c (Grows-trans moved (Grows-trans g' grown)) emits,
        Grows-Emits r c' grown emits',
      )
