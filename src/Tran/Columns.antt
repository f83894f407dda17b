-- ===== src/Tran/Columns.antt =====
-- The lists of column names: the code counts them and names each of them in order.
use sql_relational_database.Common.{
  ℕ, zero, suc, ◌+◌, ◌<◌, ◌≡◌, refl, sym, ap, ◌∙◌, subst, ◌==◌, if◌then◌else◌, arith, List, [], ◌∷◌,
  ◌++◌, length, length-append, append_assoc, some, false,
}
use sql_relational_database.Common.Exec.{ok, ◌>>=◌, ◌>>◌, bind_ok, pure}
use sql_relational_database.Tran.Symbol.{tok_comma, tok_name}
use sql_relational_database.Tran.Lexer.{Token, token}
use sql_relational_database.Tran.Parser.{
  Parser, Code, Line, pusho, consume, get_lookahead_type, data_of,
}
use sql_relational_database.Tran.Ahead.{Stands, get_lookahead_type-Moves, consume-to}
use sql_relational_database.Tran.Operands.{Holds, Holds-append, data_of-Yields}
use sql_relational_database.Tran.Tables.{emit, emit_data, column_list}

-- Names with commas between them.
abbrev pub separated : Token → List Token → List Token
separated name [] = name ∷ []
separated name (next ∷ names) = name ∷ token tok_comma (b',' ∷ []) ∷ separated next names

abbrev pub AreNames : Token → List Token → Type 0
AreNames name [] = name.type ≡ tok_name
AreNames name (next ∷ names) = (name.type ≡ tok_name) × AreNames next names

-- Each line pushes the operand that holds the name.
abbrev pub Pushes : List Token → Token → List Token → Code → Type 0
Pushes ops name [] code = (i : ℕ) × (code ≡ pusho (some i) ∷ []) × Holds ops i name.text
Pushes ops name (next ∷ names) code =
    (i : ℕ) × (rest : Code) × (code ≡ pusho (some i) ∷ rest)
    × Holds ops i name.text
    × Pushes ops next names rest

emit-Stands :
    (p : Parser) (line : Line) (ts : List Token)
    → Stands p ts
    → (q : Parser) × (emit line p ≡ (ok tt, q))
      × Stands q ts
      × (q.operands ≡ p.operands)
      × (q.code ≡ p.code ++ (line ∷ []))
unfolding emit
emit-Stands p line ts s =
    let w = s.window in
    (
      record p { code = p.code ++ (line ∷ []) },
      refl,
      record {
        window = record {
          passed = w.passed;
          buffer = w.buffer;
          later = w.later;
          lookahead_eq = w.lookahead_eq;
          from_eq = w.from_eq;
          index_eq = w.index_eq;
          tokens_eq = w.tokens_eq;
          lexes = w.lexes;
          inside = w.inside;
        };
        ready = s.ready;
        free = s.free;
      },
      refl,
      refl,
    )

-- emit_data on a name.
emit_data-name :
    (p : Parser) (t : Token) (ts : List Token)
    → 0 < length ts
    → t.type ≡ tok_name
    → Stands p (t ∷ ts)
    → (i : ℕ) × (q : Parser) × (more : List Token) × (emit_data tok_name p ≡ (ok tt, q))
      × Stands q ts
      × (q.operands ≡ p.operands ++ more)
      × (q.code ≡ p.code ++ (pusho (some i) ∷ []))
      × Holds q.operands i t.text
unfolding emit_data
emit_data-name p t [] h n s = absurd (omega arith)
emit_data-name p t (u ∷ ts) h n s =
    let (i, m, (e, s', g), held) = data_of-Yields p t u ts s in
    let (q, f, s'', ops, code) = emit-Stands m (pusho (some i)) (u ∷ ts) s' in
    (
      i,
      q,
      g.more,
      bind_ok (data_of tok_name) _ p (ap (λ (k : ℕ). data_of k p) (sym n) ∙ e) f,
      s'',
      ops ∙ g.operands_eq,
      code ∙ ap (λ c. c ++ (pusho (some i) ∷ [])) g.code_eq,
      subst (λ o. Holds o i t.text) (sym ops) held,
    )

-- One round of the loop.
column_list_round :
    (fuel count : ℕ) (p q r : Parser) (type : ℕ)
    → emit_data tok_name p ≡ (ok tt, q)
    → get_lookahead_type 0 q ≡ (ok type, r)
    → column_list (suc fuel) count p
      ≡ (if type == tok_comma then (consume >> column_list fuel (count + 1)) else pure (count + 1))
          r
unfolding column_list
column_list_round fuel count p q r type e f =
    bind_ok (emit_data tok_name) _ p e (bind_ok (get_lookahead_type 0) _ q f refl)

-- Names with commas between them, and a token behind them that is no comma: with a round for each,
-- the loop returns how many there are, adds one line for each name in order that pushes an operand
-- with its text, keeps the operands that there were, and stops behind the names.
pub column_list-separated :
    (fuel count : ℕ) (name : Token) (names : List Token) (u : Token) (us : List Token) (p : Parser)
    → length names < fuel
    → AreNames name names
    → (u.type == tok_comma) ≡ false
    → Stands p (separated name names ++ (u ∷ us))
    → (lines : Code) × (after : Parser) × (more : List Token) × (column_list fuel count p
        ≡ (ok (count + suc (length names)), after))
      × Stands after (u ∷ us)
      × (after.code ≡ p.code ++ lines)
      × (after.operands ≡ p.operands ++ more)
      × Pushes after.operands name names lines
unfolding ◌>>=◌
column_list-separated zero count name names u us p h n stop s = absurd (omega arith)
column_list-separated (suc fuel) count name [] u us p h n stop s =
    let (i, q, more, e, s', ops, code, held) = emit_data-name p name (u ∷ us) (omega arith) n s in
    let (after, f, s'', frame) = get_lookahead_type-Moves q u us s' in
    (
      pusho (some i) ∷ [],
      after,
      more,
      column_list_round fuel count p q after u.type e f
          ∙ ap
              (λ b.
                (if b then (consume >> column_list fuel (count + 1)) else pure (count + 1)) after)
              stop
          ∙ ap (λ k. (ok k, after)) {y = count + suc (length {A = Token} [])} (omega arith),
      s'',
      frame.code_eq ∙ code,
      frame.operands_eq ∙ ops,
      (i, refl, subst (λ o. Holds o i name.text) (sym frame.operands_eq) held),
    )
column_list-separated (suc fuel) count name (next ∷ names) u us p h (n, ns) stop s =
    let comma = token tok_comma (b',' ∷ []) in
    let tail = separated next names ++ (u ∷ us) in
    let (i, q, more, e, s', ops, code, held) =
      emit_data-name p name (comma ∷ tail) (omega arith) n s in
    let (r, f, s'', frame) = get_lookahead_type-Moves q comma tail s' in
    let (m, g, s3, frame') =
      consume-to r comma tail (omega (arith, length-append (separated next names) (u ∷ us))) s'' in
    let (lines, after, more', k, s4, code', ops', pushes) =
      column_list-separated fuel (count + 1) next names u us m (omega arith) ns stop s3 in
    (
      pusho (some i) ∷ lines,
      after,
      more ++ more',
      column_list_round fuel count p q r tok_comma e f
          ∙ bind_ok consume _ r g k
          ∙ ap (λ j. (ok j, after)) {y = count + suc (suc (length names))} (omega arith),
      s4,
      code'
          ∙ ap (λ c. c ++ lines) (frame'.code_eq ∙ frame.code_eq ∙ code)
          ∙ append_assoc p.code (pusho (some i) ∷ []) lines,
      ops'
          ∙ ap (λ o. o ++ more') (frame'.operands_eq ∙ frame.operands_eq ∙ ops)
          ∙ append_assoc p.operands more more',
      (
        i,
        lines,
        refl,
        subst (λ o. Holds o i name.text)
            (sym (ops' ∙ ap (λ o. o ++ more') (frame'.operands_eq ∙ frame.operands_eq)))
            (Holds-append q.operands more' i name.text held),
        pushes,
      ),
    )
