-- ===== src/Tran/Ahead.antt =====
-- Reading and consuming the tokens ahead, whether the parser speculates or not.
use sql_relational_database.Common.{
  ℕ, suc, ◌+◌, ◌<◌, ◌≤◌, ◌≡◌, refl, sym, ap, ◌∙◌, true, false, arith, List, [], ◌∷◌, ◌++◌,
  append_assoc, Option, none, some, length, length-append, get_elem?, leb, if◌then◌else◌, ==_iff,
}
use sql_relational_database.Common.Exec.{ok, Exec, bind_ok, gets, throw, token_error}
use sql_relational_database.Tran.Lexer.{Token}
use sql_relational_database.Tran.Stream.{Lexes}
use sql_relational_database.Tran.Parser.{
  Parser, load_lookahead, get_lookahead_token, get_lookahead_type, at_token, moved_on, consume,
  match_type, is_speculating,
}
use sql_relational_database.Tran.Window.{
  Window, Frame, load_lookahead-Window, elem_ahead, length-tokens,
}

pub Frame-trans : {p q r : Parser} → Frame p q → Frame q r → Frame p r
Frame-trans f g = record {
  code_eq = g.code_eq ∙ f.code_eq;
  operands_eq = g.operands_eq ∙ f.operands_eq;
  mark_eq = g.mark_eq ∙ f.mark_eq;
}

le→leb : (a b : ℕ) → a ≤ b → leb a b ≡ true
le→leb a b h = ground arith

lt→leb : (a b : ℕ) → b < a → leb a b ≡ false
lt→leb a b h = ground arith

-- Looking at the token i ahead.
module _ (p : Parser) (from k i : ℕ) (ts : List Token) (t : Token) (w : Window p from k ts)
    (reaches : k + i < length w.buffer) (e : get_elem? ts (k + i) ≡ some t) where
  pub get_lookahead_token-Window :
      (after : Parser) × (get_lookahead_token i p ≡ (ok t, after))
      × (w' : Window after from k ts) × Frame p after
      × (after.index ≡ p.index)
      × (k + i < length w'.buffer)
  unfolding get_lookahead_token
  get_lookahead_token-Window =
      let (after, f, w', frame, same, more, grown) =
        load_lookahead-Window p from k ts w i (omega (arith, length-tokens p from k ts w)) in
      let reaches' : k + i < length w'.buffer = omega arith in
      (
        after,
        bind_ok (load_lookahead i) _ p f (
            bind_ok (gets (λ q. get_elem? q.lookahead (q.index + i))) at_token after refl
              (ap (λ o. at_token o after) (elem_ahead after from k ts w' i reaches' ∙ e))),
        w',
        frame,
        same,
        reaches',
      )

abbrev advanced : Parser → Parser
advanced p = record p { index = p.index + 1 }

abbrev emptied : Parser → Parser
emptied p = record p { index = 0; lookahead = [] }

moved_on-mark :
    (p : Parser) (m : Option ℕ)
    → p.mark ≡ m
    → moved_on p ≡ (
        if is_speculating m
        then advanced p
        else if leb (length p.lookahead) (p.index + 1)
        then emptied p
        else advanced p)
unfolding moved_on
moved_on-mark p m e =
    ap
      (λ m.
        if is_speculating m
        then advanced p
        else if leb (length p.lookahead) (p.index + 1)
        then emptied p
        else advanced p)
      e

-- A position further on in the window, where the parser may go back to its start.
pub moved_on_speculating :
    (p : Parser) (m from k : ℕ) (ts : List Token)
    → p.mark ≡ some m
    → (w : Window p from k ts) → k < length w.buffer
    → (after : Parser) × (moved_on p ≡ after) × Window after from (suc k) ts × Frame p after
moved_on_speculating p m from k ts e w h = (
  advanced p,
  moved_on-mark p (some m) e,
  record {
    passed = w.passed;
    buffer = w.buffer;
    later = w.later;
    lookahead_eq = w.lookahead_eq;
    from_eq = w.from_eq;
    index_eq = omega (arith, w.index_eq);
    tokens_eq = w.tokens_eq;
    lexes = w.lexes;
    inside = h;
  },
  record { code_eq = refl; operands_eq = refl; mark_eq = refl },
)

-- A window that starts where the parser stands moves with it.
moved_on_from :
    (p : Parser) (t : Token) (ts passed buffer later : List Token)
    → p.mark ≡ none
    → p.lookahead ≡ passed ++ buffer
    → length passed ≡ p.index
    → t ∷ ts ≡ buffer ++ later
    → Lexes p.lexer later
    → 0 < length buffer
    → (after : Parser) × (moved_on p ≡ after) × Window after after.index 0 ts × Frame p after
moved_on_from p t ts passed [] later e look at split l h = absurd (omega arith)
moved_on_from p t ts passed (b ∷ []) later e look at split l h = (
  emptied p,
  moved_on-mark p none e
      ∙ ap (λ b. if b then emptied p else advanced p)
          (le→leb (length p.lookahead) (p.index + 1)
            (omega (arith, ap length look, length-append passed (b ∷ [])))),
  record {
    passed = [];
    buffer = [];
    later = later;
    lookahead_eq = refl;
    from_eq = refl;
    index_eq = refl;
    tokens_eq = cc;
    lexes = l;
    inside = omega arith;
  },
  record { code_eq = refl; operands_eq = refl; mark_eq = refl },
)
moved_on_from p t ts passed (b ∷ c ∷ buffer) later e look at split l h = (
  advanced p,
  moved_on-mark p none e
      ∙ ap (λ b. if b then emptied p else advanced p)
          (lt→leb (length p.lookahead) (p.index + 1)
            (omega (arith, ap length look, length-append passed (b ∷ c ∷ buffer)))),
  record {
    passed = passed ++ (b ∷ []);
    buffer = c ∷ buffer;
    later = later;
    lookahead_eq = look ∙ sym (append_assoc passed (b ∷ []) (c ∷ buffer));
    from_eq = omega (arith, length-append passed (b ∷ []));
    index_eq = omega arith;
    tokens_eq = cc;
    lexes = l;
    inside = omega arith;
  },
  record { code_eq = refl; operands_eq = refl; mark_eq = refl },
)

-- The parser, not speculating, stands before the tokens ts.
pub record Stands (p : Parser) (ts : List Token) : Type 0 where
  pub window : Window p p.index 0 ts
  pub ready : 0 < length window.buffer
  pub free : p.mark ≡ none

-- An action that returns the value and leaves the parser before other tokens.
abbrev pub Moves : {A : Type 0} → Exec Parser A → Parser → A → List Token → Type 0
Moves action p value ts =
    (after : Parser) × (action p ≡ (ok value, after)) × Stands after ts × Frame p after

pub Stands-at :
    (p after : Parser) (ts : List Token)
    → p.mark ≡ none
    → (w : Window after p.index 0 ts) → Frame p after
    → after.index ≡ p.index
    → 0 < length w.buffer
    → Stands after ts
Stands-at p after ts free w frame same ready = record {
  window = record {
    passed = w.passed;
    buffer = w.buffer;
    later = w.later;
    lookahead_eq = w.lookahead_eq;
    from_eq = w.from_eq ∙ sym same;
    index_eq = omega arith;
    tokens_eq = w.tokens_eq;
    lexes = w.lexes;
    inside = omega arith;
  };
  ready = ready;
  free = frame.mark_eq ∙ free;
}

pub load_lookahead-Moves :
    (i : ℕ) (p : Parser) (ts : List Token)
    → i ≤ length ts
    → Stands p ts
    → Moves (load_lookahead i) p tt ts
load_lookahead-Moves i p ts h s =
    let (after, e, w, frame, same, more, grown) =
      load_lookahead-Window p p.index 0 ts s.window i (omega arith) in
    (after, e, Stands-at p after ts s.free w frame same (omega (arith, s.ready)), frame)

pub get_lookahead_token-Moves :
    (p : Parser) (t : Token) (ts : List Token)
    → Stands p (t ∷ ts)
    → Moves (get_lookahead_token 0) p t (t ∷ ts)
get_lookahead_token-Moves p t ts s =
    let (after, e, w, frame, same, more) =
      get_lookahead_token-Window p p.index 0 0 (t ∷ ts) t s.window s.ready refl in
    (after, e, Stands-at p after (t ∷ ts) s.free w frame same more, frame)

pub consume-Moves :
    (p : Parser) (t u : Token) (ts : List Token)
    → Stands p (t ∷ u ∷ ts)
    → Moves consume p tt (u ∷ ts)
unfolding consume
consume-Moves p t u ts s =
    let w = s.window in
    let (q, e, w', frame) =
      moved_on_from p t (u ∷ ts) w.passed w.buffer w.later s.free w.lookahead_eq w.from_eq
        w.tokens_eq w.lexes s.ready in
    let (after, f, w'', frame', same, more, grown) =
      load_lookahead-Window q q.index 0 (u ∷ ts) w' 1 (omega arith) in
    (
      after,
      ap (load_lookahead 1) e ∙ f,
      Stands-at q after (u ∷ ts) (frame.mark_eq ∙ s.free) w'' frame' same more,
      Frame-trans frame frame',
    )

pub get_lookahead_type-Moves :
    (p : Parser) (t : Token) (ts : List Token)
    → Stands p (t ∷ ts)
    → Moves (get_lookahead_type 0) p t.type (t ∷ ts)
unfolding get_lookahead_type
get_lookahead_type-Moves p t ts s =
    let (after, e, s', frame) = get_lookahead_token-Moves p t ts s in
    (after, bind_ok (get_lookahead_token 0) _ p e refl, s', frame)

pub match_type-Moves :
    (p : Parser) (t u : Token) (ts : List Token)
    → Stands p (t ∷ u ∷ ts)
    → Moves (match_type t.type) p tt (u ∷ ts)
unfolding match_type
match_type-Moves p t u ts s =
    let (middle, e, s', frame) = get_lookahead_type-Moves p t (u ∷ ts) s in
    let (after, f, s'', frame') = consume-Moves middle t u ts s' in
    (
      after,
      bind_ok (get_lookahead_type 0) _ p e (
          ap (λ b. (if b then consume else throw token_error) middle)
            ((==_iff t.type t.type).1 refl)
          ∙ f),
      s'',
      Frame-trans frame frame',
    )

-- The same where the tokens that follow are not written out.
pub consume-to :
    (p : Parser) (t : Token) (ts : List Token)
    → 0 < length ts
    → Stands p (t ∷ ts)
    → Moves consume p tt ts
consume-to p t [] h s = absurd (omega arith)
consume-to p t (u ∷ ts) h s = consume-Moves p t u ts s

pub match_to :
    (p : Parser) (t : Token) (ts : List Token)
    → 0 < length ts
    → Stands p (t ∷ ts)
    → Moves (match_type t.type) p tt ts
match_to p t [] h s = absurd (omega arith)
match_to p t (u ∷ ts) h s = match_type-Moves p t u ts s
