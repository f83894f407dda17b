-- ===== src/Tran/Speculate.antt =====
-- Speculation: the parser looks at the types of the tokens ahead and goes back.
use sql_relational_database.Common.{
  ℕ, suc, ◌+◌, ◌<◌, ◌≡◌, refl, sym, ap, ◌∙◌, Bool, true, false, ◌&&◌, arith, List, [], ◌∷◌, ◌++◌,
  some, length, length-append, append_assoc, subst, get_elem?, if◌then◌else◌, Bool-cases, ◌==◌, inl,
  inr,
}
use sql_relational_database.Common.Exec.{
  Result, ok, err, ◌>>=◌, bind_ok, bind_err, throw, token_error,
}
use sql_relational_database.Tran.Lexer.{Token}
use sql_relational_database.Tran.Parser.{
  Parser, load_lookahead, get_lookahead_token, get_lookahead_type, consume, match_type, match_all,
  speculate_list, mark_here, unmark, mark_or, gone_back,
}
use sql_relational_database.Tran.Window.{
  Window, Frame, Frame-refl, load_lookahead-Window, get_elem?-append,
}
use sql_relational_database.Tran.Ahead.{
  Stands, Frame-trans, get_lookahead_token-Window, moved_on_speculating,
}

-- The types of the tokens ahead begin with those of the list.
unfoldable pub begins : List ℕ → List Token → Bool
begins [] ts = true
begins (type ∷ types) [] = false
begins (type ∷ types) (t ∷ ts) = t.type == type && begins types ts

-- What is kept while the parser speculates from a position.
record Speculates (p : Parser) (from k : ℕ) (ts : List Token) : Type 0 where
  window : Window p from k ts
  ready : k < length window.buffer
  marked : p.mark ≡ some from

-- The action ends where it was, with an error or none as the flag says.
abbrev Ends : {A : Type 0} → Bool → Result A → Type 0
Ends b (ok v) = b ≡ true
Ends b (err e) = b ≡ false

module _ (from : ℕ) (ts : List Token) where
  type_speculating :
      (p : Parser) (k : ℕ) (t : Token)
      → get_elem? ts k ≡ some t
      → Speculates p from k ts
      → (after : Parser) × (get_lookahead_type 0 p ≡ (ok t.type, after))
        × Speculates after from k ts
        × Frame p after
  unfolding get_lookahead_type
  type_speculating p k t e s =
      let (after, f, w, frame, same, ready) =
        get_lookahead_token-Window p from k 0 ts t s.window (omega (arith, s.ready))
          (ap (get_elem? ts) {x = k + 0} {y = k} (omega arith) ∙ e) in
      (
        after,
        bind_ok (get_lookahead_token 0) _ p f refl,
        record { window = w; ready = omega arith; marked = frame.mark_eq ∙ s.marked },
        frame,
      )

  consume_speculating :
      (p : Parser) (k : ℕ)
      → suc k < length ts
      → Speculates p from k ts
      → (after : Parser) × (consume p ≡ (ok tt, after))
        × Speculates after from (suc k) ts
        × Frame p after
  unfolding consume
  consume_speculating p k h s =
      let (q, e, w, frame) = moved_on_speculating p from from k ts s.marked s.window s.ready in
      let (after, f, w', frame', same, more, grown) =
        load_lookahead-Window q from (suc k) ts w 1 (omega arith) in
      let frame'' = Frame-trans frame frame' in
      (
        after,
        ap (load_lookahead 1) e ∙ f,
        record { window = w'; ready = omega arith; marked = frame''.mark_eq ∙ s.marked },
        frame'',
      )

  -- What match on one type does: it moves on, or throws where the parser stands.
  match_type_speculating :
      (p : Parser) (k type : ℕ) (t : Token)
      → get_elem? ts k ≡ some t
      → suc k < length ts
      → Speculates p from k ts
      → (b : Bool) → (t.type == type) ≡ b
      → (after : Parser) × (match_type type p ≡ (if b then ok tt else err token_error, after))
        × Speculates after from (if b then suc k else k) ts
        × Frame p after
  unfolding match_type ◌>>=◌
  match_type_speculating p k type t e h s true found =
      let (middle, f, s', frame) = type_speculating p k t e s in
      let (after, g, s'', frame') = consume_speculating middle k h s' in
      (
        after,
        bind_ok (get_lookahead_type 0) _ p f
            (ap (λ b. (if b then consume else throw token_error) middle) found ∙ g),
        s'',
        Frame-trans frame frame',
      )
  match_type_speculating p k type t e h s false found =
      let (middle, f, s', frame) = type_speculating p k t e s in
      (
        middle,
        bind_ok (get_lookahead_type 0) _ p f
            (ap (λ b. (if b then consume else throw token_error) middle) found),
        s',
        frame,
      )

  head_at :
      (passed : List Token) (t : Token) (us : List Token)
      → ts ≡ passed ++ (t ∷ us)
      → get_elem? ts (length passed) ≡ some t
  head_at passed t us split =
      ap (λ vs. get_elem? vs (length passed)) split
      ∙ ap (get_elem? (passed ++ (t ∷ us))) {x = length passed} {y = length passed + 0}
          (omega arith)
      ∙ get_elem?-append passed (t ∷ us) 0

  long :
      (passed : List Token) (t : Token) (us : List Token)
      → ts ≡ passed ++ (t ∷ us)
      → 0 < length us
      → suc (length passed) < length ts
  long passed t us split h = omega (arith, ap length split, length-append passed (t ∷ us))

  moved :
      (passed : List Token) (t : Token) (p : Parser)
      → Speculates p from (suc (length passed)) ts
      → Speculates p from (length (passed ++ (t ∷ []))) ts
  moved passed t p s =
      subst (λ k. Speculates p from k ts) (omega (arith, length-append passed (t ∷ []))) s

  match_all_speculating :
      (types : List ℕ) (p : Parser) (passed us : List Token)
      → ts ≡ passed ++ us
      → length types < length us
      → Speculates p from (length passed) ts
      → (outcome : Result (Unit {0})) × (after : Parser) × (k : ℕ) × (match_all types p
          ≡ (outcome, after))
        × Ends (begins types us) outcome
        × Speculates after from k ts
        × Frame p after
  unfolding match_all begins
  match_all_speculating [] p passed us split h s =
      (ok tt, p, length passed, refl, refl, s, Frame-refl p)
  match_all_speculating (type ∷ types) p passed [] split h s = absurd (omega arith)
  match_all_speculating (type ∷ types) p passed (t ∷ us) split h s =
      elim (Bool-cases (t.type == type)) [
        | inl found ↦
            let (middle, e, s', frame) =
              match_type_speculating p (length passed) type t (head_at passed t us split)
                (long passed t us split (omega arith)) s true found in
            let (outcome, after, k, f, ends, s'', frame') =
              match_all_speculating types middle (passed ++ (t ∷ [])) us
                (split ∙ sym (append_assoc passed (t ∷ []) us)) (omega arith)
                (moved passed t middle s') in
            (
              outcome,
              after,
              k,
              bind_ok (match_type type) _ p e f,
              rw found ends,
              s'',
              Frame-trans frame frame',
            )
        | inr other ↦
            let (after, e, s', frame) =
              match_type_speculating p (length passed) type t (head_at passed t us split)
                (long passed t us split (omega arith)) s false other in
            (
              err token_error,
              after,
              length passed,
              bind_err (match_type type) _ p e,
              rw other refl,
              s',
              frame,
            )
      ]

unmark-Stands :
    (p : Parser) (from k : ℕ) (ts : List Token) → Speculates p from k ts → Stands (unmark p) ts
unfolding unmark
unmark-Stands p from k ts s =
    let w = s.window in
    record {
      window = record {
        passed = w.passed;
        buffer = w.buffer;
        later = w.later;
        lookahead_eq = w.lookahead_eq;
        from_eq = w.from_eq ∙ sym (ap (λ m. mark_or m p.index) s.marked);
        index_eq = omega arith;
        tokens_eq = w.tokens_eq;
        lexes = w.lexes;
        inside = omega arith;
      };
      ready = omega (arith, s.ready);
      free = refl;
    }

gone_back-Ends :
    (b : Bool) (outcome : Result (Unit {0})) (p : Parser)
    → Ends b outcome
    → gone_back (outcome, p) ≡ (ok b, unmark p)
gone_back-Ends b (ok u) p e = ap (λ c. (ok c, unmark p)) (sym e)
gone_back-Ends b (err x) p e = ap (λ c. (ok c, unmark p)) (sym e)

mark_here-Speculates :
    (p : Parser) (ts : List Token) → Stands p ts → Speculates (mark_here p) p.index 0 ts
unfolding mark_here
mark_here-Speculates p ts s =
    let w = s.window in
    record {
      window = record {
        passed = w.passed;
        buffer = w.buffer;
        later = w.later;
        lookahead_eq = w.lookahead_eq;
        from_eq = w.from_eq;
        index_eq = w.index_eq;
        tokens_eq = w.tokens_eq;
        lexes = w.lexes;
        inside = w.inside;
      };
      ready = s.ready;
      marked = refl;
    }

-- Speculation tells whether the types of the tokens ahead begin with those of the list, for a list
-- that is shorter than what is known of the tokens, and leaves the parser before the same tokens,
-- with its operands and its code.
pub speculate_list_lem :
    (types : List ℕ) (p : Parser) (ts : List Token)
    → length types < length ts
    → Stands p ts
    → (after : Parser) × (speculate_list types p ≡ (ok (begins types ts), after))
      × Stands after ts
      × (after.operands ≡ p.operands)
      × (after.code ≡ p.code)
unfolding speculate_list mark_here unmark
speculate_list_lem types p ts h s =
    let (outcome, after, k, e, ends, s', frame) =
      match_all_speculating p.index ts types (mark_here p) [] ts refl h
        (mark_here-Speculates p ts s) in
    (
      unmark after,
      ap gone_back e ∙ gone_back-Ends (begins types ts) outcome after ends,
      unmark-Stands after p.index k ts s',
      frame.operands_eq,
      frame.code_eq,
    )
