-- ===== src/Tran/Names.antt =====
-- The method name on the names of columns, and parentheses in math_primary.
use sql_relational_database.Common.{
  ℕ, zero, suc, ◌<◌, ◌≤◌, ◌≡◌, refl, sym, ap, ◌∙◌, subst, Bool, true, false, ◌==◌, arith, List, [],
  ◌∷◌, ◌++◌, append_assoc, append-nil, none, some, length, length-append, if◌then◌else◌,
}
use sql_relational_database.Common.Exec.{Exec, ◌>>=◌, bind_ok, pure}
use sql_relational_database.Tran.Symbol.{tok_dot, tok_l_paren, tok_name, tok_r_paren}
use sql_relational_database.Tran.Lexer.{Token, token}
use sql_relational_database.Tran.Parser.{
  Parser, call, pusho, Code, consume, match_type, empty, find_data, find_from, data_of,
  speculate_list,
}
use sql_relational_database.Tran.Ahead.{Stands, consume-to, match_to}
use sql_relational_database.Tran.Speculate.{begins, speculate_list_lem}
use sql_relational_database.Tran.Operands.{
  Holds, Grows, Grows-trans, Frame-Grows, Grows-Holds, Yields, data_of-Yields,
}
use sql_relational_database.Tran.Grammar.{
  primary_at, logic_expr, name, plain_column, table_column, if_ahead, parenthesis, column,
  name_dot_asterisk_list, name_dot_name_dot_asterisk_list, name_dot_name_dot_name_list,
  name_dot_name_list,
}
use sql_relational_database.Tran.Expression.{Expr, Emits, Stops, operators_at}
use sql_relational_database.Tran.Expression
use sql_relational_database.Tran.Levels.{Parses, HasEmpty, Grows-HasEmpty, Grows-Emits}
use sql_relational_database.Tran.Primaries.{by_switch}

-- The operand "" is found first.
find_data-empty : (p : Parser) → HasEmpty p → find_data empty p ≡ some 0
unfolding find_data
find_data-empty p h = ap (find_from 0 empty) h.starts

HasEmpty-Holds : (p : Parser) → HasEmpty p → Holds p.operands 0 empty
HasEmpty-Holds p h = subst (λ ts. Holds ts 0 empty) (sym h.starts) (token 13 empty, refl, refl)

if_ahead_lem :
    (types : List ℕ) (ahead other : Exec Parser Code) (p : Parser) (ts : List Token) (b : Bool)
    → begins types ts ≡ b
    → length types < length ts
    → Stands p ts
    → (q : Parser) × (if_ahead types ahead other p ≡ (if b then ahead else other) q)
      × Stands q ts
      × Grows p q
if_ahead_lem types ahead other p ts b h long s =
    let (q, e, s', same, code) = speculate_list_lem types p ts long s in
    (
      q,
      bind_ok (speculate_list types) _ p e (ap (λ b. (if b then ahead else other) q) h),
      s',
      record { more = []; operands_eq = same ∙ sym (append-nil p.operands); code_eq = code },
    )

-- A name that no dot follows.
module _ (t u : Token) (us : List Token) (is_name : t.type ≡ tok_name)
    (stop : (u.type == tok_dot) ≡ false) where
  no_list : (types : List ℕ) → begins (tok_name ∷ tok_dot ∷ types) (t ∷ u ∷ us) ≡ false
  unfolding begins
  no_list types = ground arith

  name_plain :
      (p : Parser)
      → 4 ≤ length us
      → Stands p (t ∷ u ∷ us)
      → (q : Parser) × (name p ≡ plain_column q) × Stands q (t ∷ u ∷ us) × Grows p q
  unfolding name
  name_plain p long s =
      let ts = t ∷ u ∷ us in
      let enough : 5 < length ts = omega arith in
      let nearly : 3 < length ts = omega arith in
      let (q, e, s', g) =
        if_ahead_lem name_dot_name_dot_asterisk_list _ _ p ts false (no_list _) enough s in
      let (q', e', s'', g') =
        if_ahead_lem name_dot_asterisk_list _ _ q ts false (no_list _) nearly s' in
      let (q2, e2, s2, g2) =
        if_ahead_lem name_dot_name_dot_name_list _ _ q' ts false (no_list _) enough s'' in
      let (q3, e3, s3, g3) =
        if_ahead_lem name_dot_name_list _ _ q2 ts false (no_list _) nearly s2 in
      (q3, e ∙ e' ∙ e2 ∙ e3, s3, Grows-trans g (Grows-trans g' (Grows-trans g2 g3)))

-- data on a token that is a name.
data_of_name :
    (p : Parser) (t u : Token) (ts : List Token)
    → t.type ≡ tok_name
    → Stands p (t ∷ u ∷ ts)
    → (i : ℕ) × (after : Parser) × Yields (data_of tok_name) p (some i) after (u ∷ ts)
      × Holds after.operands i t.text
data_of_name p t u ts h s =
    subst
      (λ k.
        (i : ℕ) × (after : Parser) × Yields (data_of k) p (some i) after (u ∷ ts)
        × Holds after.operands i t.text)
      h (data_of-Yields p t u ts s)

plain_column-Yields :
    (p : Parser) (t u : Token) (us : List Token)
    → t.type ≡ tok_name
    → HasEmpty p
    → Stands p (t ∷ u ∷ us)
    → (code : Code) × (after : Parser) × Yields plain_column p code after (u ∷ us)
      × Emits after.operands (Expression.column empty t.text) code
unfolding plain_column ◌>>=◌
plain_column-Yields p t u us h first s =
    let (i, after, (e, s', grows), held) = data_of_name p t u us h s in
    let held_empty = Grows-Holds 0 empty grows (HasEmpty-Holds p first) in
    (
      call "MKCLMNEXPR" ∷ pusho (some 0) ∷ pusho (some 0) ∷ pusho (some i) ∷ [],
      after,
      (
        ap
              (λ o.
                (data_of tok_name >>= λ j.
                pure (call "MKCLMNEXPR" ∷ pusho o ∷ pusho o ∷ pusho j ∷ []))
                  p)
              (find_data-empty p first)
            ∙ bind_ok (data_of tok_name) _ p e refl,
        s',
        grows,
      ),
      (0, 0, i, refl, held_empty, held_empty, held),
    )

pub plain-Parses :
    (t : Token) → t.type ≡ tok_name → Parses 6 (Expression.column empty t.text) (t ∷ [])
unfolding primary_at
plain-Parses t h =
    by_switch column (Expression.column empty t.text) t [] (ground arith)
      (λ fuel b p u us enough before.
        let (q, e, s, g) =
          name_plain t u us h before.stops.0 p (omega (arith, before.enough)) before.stands in
        let (code, after, (f, s', g'), emits) =
          plain_column-Yields q t u us h (Grows-HasEmpty g before.has_empty) s in
        (code, after, (e ∙ f, s', Grows-trans g g'), emits))

-- A name, a dot and a name.
module _ (t dot v u : Token) (us : List Token) (is_table : t.type ≡ tok_name)
    (is_dot : dot.type ≡ tok_dot) (is_name : v.type ≡ tok_name)
    (stop : (u.type == tok_dot) ≡ false) where
  third : begins name_dot_name_dot_asterisk_list (t ∷ dot ∷ v ∷ u ∷ us) ≡ false
  unfolding begins
  third = ground arith

  asterisk_list : begins name_dot_asterisk_list (t ∷ dot ∷ v ∷ u ∷ us) ≡ false
  unfolding begins
  asterisk_list = ground arith

  fourth : begins name_dot_name_dot_name_list (t ∷ dot ∷ v ∷ u ∷ us) ≡ false
  unfolding begins
  fourth = ground arith

  two_parts : begins name_dot_name_list (t ∷ dot ∷ v ∷ u ∷ us) ≡ true
  unfolding begins
  two_parts = ground arith

  name_qualified :
      (p : Parser)
      → 4 ≤ length us
      → Stands p (t ∷ dot ∷ v ∷ u ∷ us)
      → (q : Parser) × (name p ≡ table_column q) × Stands q (t ∷ dot ∷ v ∷ u ∷ us) × Grows p q
  unfolding name
  name_qualified p long s =
      let ts = t ∷ dot ∷ v ∷ u ∷ us in
      let enough : 5 < length ts = omega arith in
      let nearly : 3 < length ts = omega arith in
      let (q, e, s', g) =
        if_ahead_lem name_dot_name_dot_asterisk_list _ _ p ts false third enough s in
      let (q', e', s'', g') =
        if_ahead_lem name_dot_asterisk_list _ _ q ts false asterisk_list nearly s' in
      let (q2, e2, s2, g2) =
        if_ahead_lem name_dot_name_dot_name_list _ _ q' ts false fourth enough s'' in
      let (q3, e3, s3, g3) = if_ahead_lem name_dot_name_list _ _ q2 ts true two_parts nearly s2 in
      (q3, e ∙ e' ∙ e2 ∙ e3, s3, Grows-trans g (Grows-trans g' (Grows-trans g2 g3)))

  table_column-Yields :
      (p : Parser)
      → HasEmpty p
      → Stands p (t ∷ dot ∷ v ∷ u ∷ us)
      → (code : Code) × (after : Parser) × Yields table_column p code after (u ∷ us)
        × Emits after.operands (Expression.column t.text v.text) code
  unfolding table_column ◌>>=◌
  table_column-Yields p first s =
      let (i, q, (e, s', g), held) = data_of_name p t dot (v ∷ u ∷ us) is_table s in
      let (r, f, s'', frame) = match_to q dot (v ∷ u ∷ us) (omega arith) s' in
      let (j, after, (k, s3, g'), held') = data_of_name r v u us is_name s'' in
      let later = Grows-trans (Frame-Grows q r frame) g' in
      (
        call "MKCLMNEXPR" ∷ pusho (some 0) ∷ pusho (some i) ∷ pusho (some j) ∷ [],
        after,
        (
          ap
                (λ o.
                  (data_of tok_name >>= λ i. match_type tok_dot >>= λ _. data_of tok_name >>= λ j.
                  pure (call "MKCLMNEXPR" ∷ pusho o ∷ pusho i ∷ pusho j ∷ []))
                    p)
                (find_data-empty p first)
              ∙ bind_ok (data_of tok_name) _ p e (
                  bind_ok (match_type tok_dot) _ q
                    (ap (λ (type : ℕ). match_type type q) (sym is_dot) ∙ f)
                    (bind_ok (data_of tok_name) _ r k refl)),
          s3,
          Grows-trans g later,
        ),
        (
          0,
          i,
          j,
          refl,
          Grows-Holds 0 empty (Grows-trans g later) (HasEmpty-Holds p first),
          Grows-Holds i t.text later held,
          held',
        ),
      )

pub qualified-Parses :
    (t dot v : Token)
    → t.type ≡ tok_name
    → dot.type ≡ tok_dot
    → v.type ≡ tok_name
    → Parses 6 (Expression.column t.text v.text) (t ∷ dot ∷ v ∷ [])
unfolding primary_at
qualified-Parses t dot v h i j =
    by_switch column (Expression.column t.text v.text) t (dot ∷ v ∷ []) (ground arith)
      (λ fuel b p u us enough before.
        let stop = before.stops.0 in
        let (q, e, s, g) =
          name_qualified t dot v u us h i j stop p (omega (arith, before.enough)) before.stands in
        let (code, after, (f, s', g'), emits) =
          table_column-Yields t dot v u us h i j stop q (Grows-HasEmpty g before.has_empty) s in
        (code, after, (e ∙ f, s', Grows-trans g g'), emits))

paren_dot : (t : ℕ) → t ≡ tok_r_paren → (t == tok_dot) ≡ false
paren_dot t h = ground arith

paren_operator : (m t : ℕ) → t ≡ tok_r_paren → operators_at m t ≡ none
paren_operator zero t h = ground arith
paren_operator (suc zero) t h = ground arith
paren_operator (suc (suc zero)) t h = ground arith
paren_operator (suc (suc (suc zero))) t h = ground arith
paren_operator (suc (suc (suc (suc zero)))) t h = ground arith
paren_operator (suc (suc (suc (suc (suc m))))) t h = ground arith

pub parenthesise-Parses :
    (e : Expr) (open_paren close_paren : Token) (ts : List Token)
    → open_paren.type ≡ tok_l_paren
    → close_paren.type ≡ tok_r_paren
    → Parses 0 e ts
    → Parses 6 e (open_paren ∷ ts ++ (close_paren ∷ []))
unfolding primary_at
parenthesise-Parses e a z ts h k parses =
    by_switch parenthesis e a (ts ++ (z ∷ [])) (ground arith) (λ fuel b p u us enough before.
      let count = length-append ts (z ∷ []) in
      let stands : Stands p (a ∷ ts ++ (z ∷ u ∷ us)) =
        subst (λ vs. Stands p (a ∷ vs)) (append_assoc ts (z ∷ []) (u ∷ us)) before.stands in
      let (q, f, s, frame) =
        consume-to p a (ts ++ (z ∷ u ∷ us)) (omega (arith, length-append ts (z ∷ u ∷ us))) stands in
      let (code, r, (g, s', grows), emits) =
        parses fuel true q z (u ∷ us) (omega (arith, count)) (record {
          stops = (paren_dot z.type k, λ m le lt. paren_operator m z.type k);
          enough = omega (arith, before.enough);
          has_empty = Grows-HasEmpty (Frame-Grows p q frame) before.has_empty;
          stands = s;
        }) in
      let (after, l, s'', frame') = match_to r z (u ∷ us) (omega arith) s' in
      (
        code,
        after,
        (
          bind_ok consume _ p f (
              bind_ok (logic_expr fuel []) _ q g (
                bind_ok (match_type tok_r_paren) _ r
                  (ap (λ (type : ℕ). match_type type r) (sym k) ∙ l) refl)),
          s'',
          Grows-trans (Frame-Grows p q frame) (Grows-trans grows (Frame-Grows r after frame')),
        ),
        Grows-Emits e code (Frame-Grows r after frame') emits,
      ))
