-- ===== src/Tran/Levels.antt =====
-- The six methods for operators: what a level makes of an expression of its operands.
use Prim.Native.String.{String}
use sql_relational_database.Common.{
  ℕ, zero, suc, ◌+◌, ◌*◌, ◌<◌, ◌≤◌, ◌≡◌, refl, sym, ap, ◌∙◌, subst, Bool, true, false, arith, List,
  [], ◌∷◌, ◌++◌, append_assoc, append-nil, none, some, length, length-append,
}
use sql_relational_database.Common.Exec.{ok, Exec, ◌>>=◌, bind_ok}
use sql_relational_database.Tran.Lexer.{Token, token}
use sql_relational_database.Tran.Parser.{Parser, call, Code, consume, get_lookahead_type, empty}
use sql_relational_database.Tran.Ahead.{Stands, get_lookahead_type-Moves, consume-to}
use sql_relational_database.Tran.Operands.{Grows, Grows-trans, Frame-Grows, Yields}
use sql_relational_database.Tran.Grammar.{
  operation, operator_loop, logic_expr, logic_term, comparison_expr, comparison_term, math_expr,
  math_term, math_primary,
}
use sql_relational_database.Tran.Expression.{
  Expr, binary, Emits, Emits-append, Stops, Stops-suc, operators_at, operator-Stops,
}

-- The method of a level, logic_expr on no code.
abbrev pub at_level : ℕ → ℕ → Bool → Exec Parser Code
at_level zero fuel b = logic_expr fuel []
at_level (suc zero) fuel b = logic_term fuel b
at_level (suc (suc zero)) fuel b = comparison_expr fuel b
at_level (suc (suc (suc zero))) fuel b = comparison_term fuel b
at_level (suc (suc (suc (suc zero)))) fuel b = math_expr fuel b
at_level (suc (suc (suc (suc (suc zero))))) fuel b = math_term fuel b
at_level (suc (suc (suc (suc (suc (suc n)))))) fuel b = math_primary fuel b

-- Whether the first operand may be an asterisk.
abbrev asterisk_at : ℕ → Bool → Bool
asterisk_at zero b = true
asterisk_at (suc n) b = b

-- A method of the six reads an operand and runs the loop.
abbrev pub loop_at : ℕ → ℕ → ℕ → Code → Code → Exec Parser Code
loop_at n loops fuel code term =
    operator_loop loops (operators_at n) (at_level (suc n) fuel false) code term

at_level_step :
    (n fuel : ℕ) (b : Bool)
    → n < 6
    → at_level n (suc fuel) b ≡ (at_level (suc n) fuel (asterisk_at n b) >>= loop_at n fuel fuel [])
unfolding logic_expr logic_term comparison_expr comparison_term math_expr math_term
at_level_step zero fuel b h = refl
at_level_step (suc zero) fuel b h = refl
at_level_step (suc (suc zero)) fuel b h = refl
at_level_step (suc (suc (suc zero))) fuel b h = refl
at_level_step (suc (suc (suc (suc zero)))) fuel b h = refl
at_level_step (suc (suc (suc (suc (suc zero))))) fuel b h = refl
at_level_step (suc (suc (suc (suc (suc (suc n)))))) fuel b h = absurd (omega arith)

-- The first operand is the empty text.
pub record HasEmpty (p : Parser) : Type 0 where
  pub others : List Token
  pub starts : p.operands ≡ token 13 empty ∷ others

pub Grows-HasEmpty : {p q : Parser} → Grows p q → HasEmpty p → HasEmpty q
Grows-HasEmpty g h = record {
  others = h.others ++ g.more;
  starts = g.operands_eq ∙ ap (λ ts. ts ++ g.more) h.starts;
}

pub Grows-Emits :
    {p q : Parser} (e : Expr) (code : Code)
    → Grows p q
    → Emits p.operands e code
    → Emits q.operands e code
Grows-Emits {p} {q} e code g h =
    subst (λ ops. Emits ops e code) (sym g.operands_eq) (Emits-append p.operands g.more e code h)

-- The tokens of an expression, a token that ends it and at least five more.
pub record Before (n : ℕ) (p : Parser) (ts : List Token) (u : Token) (us : List Token)
    : Type 0 where
  pub stops : Stops n u
  pub enough : 5 ≤ length us
  pub has_empty : HasEmpty p
  pub stands : Stands p (ts ++ (u ∷ us))

-- The method of the level returns the code of the expression.
abbrev pub Parses : ℕ → Expr → List Token → Type 0
Parses n e ts =
    (fuel : ℕ) (b : Bool) (p : Parser) (u : Token) (us : List Token)
    → 8 * length ts + 7 < fuel + n
    → Before n p ts u us
    → (code : Code) × (after : Parser) × Yields (at_level n fuel b) p code after (u ∷ us)
      × Emits after.operands e code

-- The method of the level comes to its loop with the code of the expression in two parts.
pub record Looping (n fuel : ℕ) (b : Bool) (p : Parser) (e : Expr) (count : ℕ) (ts : List Token)
    : Type 0 where
  pub code : Code
  pub term : Code
  pub loops : ℕ
  pub after : Parser
  pub runs : at_level n (suc fuel) b p ≡ loop_at n loops fuel code term after
  pub stands : Stands after ts
  pub grows : Grows p after
  pub emits : Emits after.operands e (code ++ term)
  pub left : fuel < loops + count

abbrev pub Chains : ℕ → Expr → List Token → Type 0
Chains n e ts =
    (fuel : ℕ) (b : Bool) (p : Parser) (u : Token) (us : List Token)
    → 8 * length ts + 7 < suc fuel + n
    → Before (suc n) p ts u us
    → Looping n fuel b p e (length ts) (u ∷ us)

pub chain_first :
    (n : ℕ) (e : Expr) (ts : List Token)
    → n < 6
    → 0 < length ts
    → Parses (suc n) e ts
    → Chains n e ts
chain_first n e ts lt nonempty parses fuel b p u us enough before =
    let (code, after, (f, s, g), emits) =
      parses fuel (asterisk_at n b) p u us (omega arith) before in
    record {
      code = [];
      term = code;
      loops = fuel;
      after = after;
      runs =
          ap (λ (action : Exec Parser Code). action p) (at_level_step n fuel b lt)
          ∙ bind_ok (at_level (suc n) fuel (asterisk_at n b)) _ p f refl;
      stands = s;
      grows = g;
      emits = emits;
      left = omega arith;
    }

regroup :
    (routine : String) (code term next : Code)
    → ((call routine ∷ code) ++ (term ++ next)) ++ [] ≡ call routine ∷ (code ++ term) ++ next
regroup routine code term next =
    append-nil ((call routine ∷ code) ++ (term ++ next))
    ∙ ap (λ c. call routine ∷ c) (sym (append_assoc code term next))

-- One round of the loop, at an operator.
pub loop_operator :
    (n loops fuel : ℕ) (code term : Code) (p : Parser) (t : Token) (rest : List Token)
    (routine : String) (next : Code) (middle after : Parser)
    → operators_at n t.type ≡ some routine
    → get_lookahead_type 0 p ≡ (ok t.type, middle)
    → (consumed : Parser) → consume middle ≡ (ok tt, consumed)
    → at_level (suc n) fuel false consumed ≡ (ok next, after)
    → operator_loop (suc loops) (operators_at n) (at_level (suc n) fuel false) code term p
      ≡ loop_at n loops fuel ((call routine ∷ code) ++ (term ++ next)) [] after
unfolding operator_loop operation
loop_operator n loops fuel code term p t rest routine next middle after o e consumed f g =
    bind_ok (get_lookahead_type 0) _ p e (
      ap
        (λ o.
          operation o (at_level (suc n) fuel false)
            (λ code. operator_loop loops (operators_at n) (at_level (suc n) fuel false) code [])
            code term middle)
        o
      ∙ bind_ok consume _ middle f (bind_ok (at_level (suc n) fuel false) _ consumed g refl))

pub chain_next :
    (n : ℕ) (l r : Expr) (t : Token) (ts us : List Token) (routine : String)
    → n < 6
    → operators_at n t.type ≡ some routine
    → 0 < length us
    → Chains n l ts
    → Parses (suc n) r us
    → Chains n (binary routine l r) (ts ++ (t ∷ us))
chain_next n l r t ts us routine lt o nonempty chains parses fuel b p u rest enough before =
    go first first.loops refl
  where
    count : length (ts ++ (t ∷ us)) ≡ length ts + suc (length us)
    count = length-append ts (t ∷ us)

    first : Looping n fuel b p l (length ts) (t ∷ us ++ (u ∷ rest))
    first = chains fuel b p t (us ++ (u ∷ rest)) (omega (arith, count)) (record {
      stops = operator-Stops n t routine lt o;
      enough = omega (arith, length-append us (u ∷ rest), before.enough);
      has_empty = before.has_empty;
      stands = subst (λ vs. Stands p vs) (append_assoc ts (t ∷ us) (u ∷ rest)) before.stands;
    })

    go :
        (lp : Looping n fuel b p l (length ts) (t ∷ us ++ (u ∷ rest))) (loops : ℕ)
        → lp.loops ≡ loops
        → Looping n fuel b p (binary routine l r) (length (ts ++ (t ∷ us))) (u ∷ rest)
    go lp zero e = absurd (omega (arith, lp.left, count))
    go lp (suc loops) e =
        let (q, f, s, frame) = get_lookahead_type-Moves lp.after t (us ++ (u ∷ rest)) lp.stands in
        let (c, g, s', frame') =
          consume-to q t (us ++ (u ∷ rest)) (omega (arith, length-append us (u ∷ rest))) s in
        let grown =
          Grows-trans lp.grows
            (Grows-trans (Frame-Grows lp.after q frame) (Frame-Grows q c frame')) in
        let (next, after, (h, s'', grows), emits) =
          parses fuel false c u rest (omega (arith, count)) (record {
            stops = before.stops;
            enough = before.enough;
            has_empty = Grows-HasEmpty grown before.has_empty;
            stands = s';
          }) in
        let later =
          Grows-trans (Grows-trans (Frame-Grows lp.after q frame) (Frame-Grows q c frame')) grows in
        record {
          code = (call routine ∷ lp.code) ++ (lp.term ++ next);
          term = [];
          loops = loops;
          after = after;
          runs =
              lp.runs
              ∙ ap (λ k. loop_at n k fuel lp.code lp.term lp.after) e
              ∙ loop_operator n loops fuel lp.code lp.term lp.after t rest routine next q after o f
                  c g h;
          stands = s'';
          grows = Grows-trans grown grows;
          emits = (
            lp.code ++ lp.term,
            next,
            regroup routine lp.code lp.term next,
            Grows-Emits l (lp.code ++ lp.term) later lp.emits,
            emits,
          );
          left = omega (arith, lp.left, count);
        }

-- The loop ends at a token that is no operator of the level.
pub loop_ends :
    (n loops fuel : ℕ) (code term : Code) (p : Parser) (t : Token) (after : Parser)
    → operators_at n t.type ≡ none
    → get_lookahead_type 0 p ≡ (ok t.type, after)
    → operator_loop (suc loops) (operators_at n) (at_level (suc n) fuel false) code term p
      ≡ (ok (code ++ term), after)
unfolding operator_loop operation ◌>>=◌
loop_ends n loops fuel code term p t after o e = bind_ok (get_lookahead_type 0) _ p e (
    ap
      (λ o.
        operation o (at_level (suc n) fuel false)
          (λ code. operator_loop loops (operators_at n) (at_level (suc n) fuel false) code []) code
          term after)
      o)

pub finish : (n : ℕ) (e : Expr) (ts : List Token) → n < 6 → Chains n e ts → Parses n e ts
finish n e ts lt chains zero b p u us enough before = absurd (omega arith)
finish n e ts lt chains (suc fuel) b p u us enough before = go first first.loops refl
  where
    first : Looping n fuel b p e (length ts) (u ∷ us)
    first = chains fuel b p u us enough (record {
      stops = Stops-suc n u before.stops;
      enough = before.enough;
      has_empty = before.has_empty;
      stands = before.stands;
    })

    go :
        (lp : Looping n fuel b p e (length ts) (u ∷ us)) (loops : ℕ)
        → lp.loops ≡ loops
        → (code : Code) × (after : Parser) × Yields (at_level n (suc fuel) b) p code after (u ∷ us)
          × Emits after.operands e code
    go lp zero q = absurd (omega (arith, lp.left))
    go lp (suc loops) q =
        let (after, f, s, frame) = get_lookahead_type-Moves lp.after u us lp.stands in
        let grows = Frame-Grows lp.after after frame in
        (
          lp.code ++ lp.term,
          after,
          (
            lp.runs
                ∙ ap (λ k. loop_at n k fuel lp.code lp.term lp.after) q
                ∙ loop_ends n loops fuel lp.code lp.term lp.after u after
                    (before.stops.1 n (omega arith) lt) f,
            s,
            Grows-trans lp.grows grows,
          ),
          Grows-Emits e (lp.code ++ lp.term) grows lp.emits,
        )
