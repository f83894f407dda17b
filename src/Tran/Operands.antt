-- ===== src/Tran/Operands.antt =====
-- The operands that the parser collects: each text once, at the index that the code names.
use sql_relational_database.Common.{
  ℕ, zero, suc, ◌+◌, ◌≡◌, refl, sym, ap, ◌∙◌, subst, Bool, true, false, arith, List, [], ◌∷◌, ◌++◌,
  append_assoc, append-nil, Option, none, some, length, get_elem?, if◌then◌else◌,
}
use sql_relational_database.Common.Exec.{ok, Exec, bind_ok}
use sql_relational_database.Vm.Item.{Text}
use sql_relational_database.Tran.Lexer.{Token}
use sql_relational_database.Tran.Parser.{
  Parser, get_lookahead_token, match_type, same_text, find_from, find_data, keep_data, kept_data,
  data_of,
}
use sql_relational_database.Tran.Window.{Frame}
use sql_relational_database.Tran.Ahead.{Stands, get_lookahead_token-Moves, match_type-Moves}

-- The operand at i has the text.
abbrev pub Holds : List Token → ℕ → Text → Type 0
Holds ts i text = (t : Token) × (get_elem? ts i ≡ some t) × (t.text ≡ text)

same_text-eq : (s t : Text) → same_text s t ≡ true → s ≡ t
unfolding same_text
same_text-eq [] [] h = refl
same_text-eq [] (d ∷ t) h = cc
same_text-eq (c ∷ s) [] h = cc
same_text-eq (c ∷ s) (d ∷ t) h = ground (arith, same_text-eq s t)

find_from-Holds :
    (i j : ℕ) (name : Text) (ts : List Token)
    → find_from i name ts ≡ some j
    → (k : ℕ) × (j ≡ i + k) × Holds ts k name
unfolding find_from
find_from-Holds i j name [] h = cc
find_from-Holds i j name (t ∷ ts) h =
    go (same_text name t.text) refl h (find_from-Holds (suc i) j name ts)
  where
    go :
        (b : Bool)
        → same_text name t.text ≡ b
        → (if b then some i else find_from (suc i) name ts) ≡ some j
        → (find_from (suc i) name ts ≡ some j → (k : ℕ) × (j ≡ suc i + k) × Holds ts k name)
        → (k : ℕ) × (j ≡ i + k) × Holds (t ∷ ts) k name
    go true same h rest = (0, ground arith, (t, refl, sym (same_text-eq name t.text same)))
    go false other h rest = let (k, e, held) = rest h in (suc k, omega arith, held)

Holds-last : (ts : List Token) (t : Token) → Holds (ts ++ (t ∷ [])) (length ts) t.text
Holds-last [] t = (t, refl, refl)
Holds-last (u ∷ ts) t = Holds-last ts t

pub Holds-append :
    (ts more : List Token) (i : ℕ) (text : Text) → Holds ts i text → Holds (ts ++ more) i text
Holds-append [] more i text (t, e, h) = cc
Holds-append (u ∷ ts) more zero text h = h
Holds-append (u ∷ ts) more (suc i) text h = Holds-append ts more i text h

-- Operands are only added, and the code is as it was.
pub record Grows (before after : Parser) : Type 0 where
  pub more : List Token
  pub operands_eq : after.operands ≡ before.operands ++ more
  pub code_eq : after.code ≡ before.code

pub Frame-Grows : (p q : Parser) → Frame p q → Grows p q
Frame-Grows p q f = record {
  more = [];
  operands_eq = f.operands_eq ∙ sym (append-nil p.operands);
  code_eq = f.code_eq;
}

pub Grows-trans : {p q r : Parser} → Grows p q → Grows q r → Grows p r
Grows-trans {p} {q} {r} f g = record {
  more = f.more ++ g.more;
  operands_eq =
      g.operands_eq ∙ ap (λ ts. ts ++ g.more) f.operands_eq ∙ append_assoc p.operands f.more g.more;
  code_eq = g.code_eq ∙ f.code_eq;
}

pub Grows-Holds :
    {p q : Parser} (i : ℕ) (text : Text)
    → Grows p q
    → Holds p.operands i text
    → Holds q.operands i text
Grows-Holds {p} {q} i text g h =
    subst (λ ts. Holds ts i text) (sym g.operands_eq) (Holds-append p.operands g.more i text h)

-- An action that returns the value, may add operands, and leaves the parser before the tokens.
abbrev pub Yields : {A : Type 0} → Exec Parser A → Parser → A → Parser → List Token → Type 0
Yields action p value after ts = (action p ≡ (ok value, after)) × Stands after ts × Grows p after

with_operands-Stands :
    (p : Parser) (more ts : List Token)
    → Stands p ts
    → Stands (record p { operands = p.operands ++ more }) ts
with_operands-Stands p more ts s =
    let w = s.window in
    record {
      window = record {
        passed = w.passed;
        buffer = w.buffer;
        later = w.later;
        lookahead_eq = w.lookahead_eq;
        from_eq = w.from_eq;
        index_eq = w.index_eq;
        tokens_eq = w.tokens_eq;
        lexes = w.lexes;
        inside = w.inside;
      };
      ready = s.ready;
      free = s.free;
    }

pub keep_data-Yields :
    (t : Token) (p : Parser) (ts : List Token)
    → Stands p ts
    → (i : ℕ) × (after : Parser) × Yields (keep_data t) p (some i) after ts
      × Holds after.operands i t.text
unfolding keep_data find_data
keep_data-Yields t p ts s = go (find_data t.text p) refl
  where
    go :
        (o : Option ℕ)
        → find_data t.text p ≡ o
        → (i : ℕ) × (after : Parser) × Yields (keep_data t) p (some i) after ts
          × Holds after.operands i t.text
    go (some i) e =
        let (k, same, held) = find_from-Holds 0 i t.text p.operands e in
        (
          i,
          p,
          (
            ap (kept_data t p) e,
            s,
            record { more = []; operands_eq = sym (append-nil p.operands); code_eq = refl },
          ),
          subst (λ j. Holds p.operands j t.text) (omega arith) held,
        )
    go none e = (
      length p.operands,
      record p { operands = p.operands ++ (t ∷ []) },
      (
        ap (kept_data t p) e,
        with_operands-Stands p (t ∷ []) ts s,
        record { more = t ∷ []; operands_eq = refl; code_eq = refl },
      ),
      Holds-last p.operands t,
    )

pub data_of-Yields :
    (p : Parser) (t u : Token) (ts : List Token)
    → Stands p (t ∷ u ∷ ts)
    → (i : ℕ) × (after : Parser) × Yields (data_of t.type) p (some i) after (u ∷ ts)
      × Holds after.operands i t.text
unfolding data_of
data_of-Yields p t u ts s =
    let (q, e, s', frame) = get_lookahead_token-Moves p t (u ∷ ts) s in
    let (i, r, (f, s'', grows), held) = keep_data-Yields t q (t ∷ u ∷ ts) s' in
    let (after, g, s3, frame') = match_type-Moves r t u ts s'' in
    (
      i,
      after,
      (
        bind_ok (get_lookahead_token 0) _ p e
            (bind_ok (keep_data t) _ q f (bind_ok (match_type t.type) _ r g refl)),
        s3,
        Grows-trans (Frame-Grows p q frame) (Grows-trans grows (Frame-Grows r after frame')),
      ),
      Grows-Holds i t.text (Frame-Grows r after frame') held,
    )
