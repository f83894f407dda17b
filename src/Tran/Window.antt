-- ===== src/Tran/Window.antt =====
-- The buffer of the parser as a window on the tokens to come.
use sql_relational_database.Common.{
  ℕ, zero, suc, ◌+◌, ◌-◌, ◌<◌, ◌≤◌, ◌≡◌, refl, sym, ap, ◌∙◌, arith, List, [], ◌∷◌, ◌++◌,
  append_assoc, append-nil, length, length-append, get_elem?,
}
use sql_relational_database.Common.Exec.{ok, ◌>>=◌, bind_ok}
use sql_relational_database.Tran.Lexer.{Token, Lexer, next_token}
use sql_relational_database.Tran.Stream.{Lexes, unknown, reads}
use sql_relational_database.Tran.Parser.{Parser, fetched, fetch, load_tokens, load_lookahead}

-- What only the operands, the code and speculation read or write stays as it was.
pub record Frame (before after : Parser) : Type 0 where
  pub code_eq : after.code ≡ before.code
  pub operands_eq : after.operands ≡ before.operands
  pub mark_eq : after.mark ≡ before.mark

pub Frame-refl : (p : Parser) → Frame p p
Frame-refl p = record { code_eq = refl; operands_eq = refl; mark_eq = refl }

-- The tokens from `from` on are ts, and the parser is k tokens further.
pub record Window (p : Parser) (from k : ℕ) (ts : List Token) : Type 0 where
  pub passed : List Token
  pub buffer : List Token
  pub later : List Token
  pub lookahead_eq : p.lookahead ≡ passed ++ buffer
  pub from_eq : length passed ≡ from
  pub index_eq : p.index ≡ from + k
  pub tokens_eq : ts ≡ buffer ++ later
  pub lexes : Lexes p.lexer later
  pub inside : k ≤ length buffer

-- The parser after more tokens have been buffered.
abbrev pub refilled : Parser → Lexer → List Token → Parser
refilled p lx more = record p { lexer = lx; lookahead = p.lookahead ++ more }

fetch_reads :
    (p : Parser) (t : Token) (after : Lexer)
    → next_token p.lexer ≡ (ok t, after)
    → fetch p ≡ (ok tt, refilled p after (t ∷ []))
unfolding fetch
fetch_reads p t after e = ap (fetched p) e

pub load_tokens-Lexes :
    (n : ℕ) (p : Parser) (later : List Token)
    → Lexes p.lexer later
    → n ≤ length later
    → (more rest : List Token) × (lx : Lexer) × (later ≡ more ++ rest)
      × (length more ≡ n)
      × Lexes lx rest
      × (load_tokens n p ≡ (ok tt, refilled p lx more))
unfolding load_tokens ◌>>=◌
load_tokens-Lexes zero p later l h = (
  [],
  later,
  p.lexer,
  refl,
  refl,
  l,
  ap (λ ts. (ok tt, record p { lookahead = ts })) (sym (append-nil p.lookahead)),
)
load_tokens-Lexes (suc n) p _ (unknown _) h = absurd (omega arith)
load_tokens-Lexes (suc n) p _ (reads _ after t ts e l) h =
    let (more, rest, lx, split, count, l', f) =
      load_tokens-Lexes n (refilled p after (t ∷ [])) ts l (omega arith) in
    (
      t ∷ more,
      rest,
      lx,
      ap (λ us. t ∷ us) split,
      ap suc count,
      l',
      bind_ok fetch (λ _. load_tokens n) p (fetch_reads p t after e) f
          ∙ ap (λ us. (ok tt, record p { lexer = lx; lookahead = us }))
              (append_assoc p.lookahead (t ∷ []) more),
    )

pub get_elem?-append :
    (xs ys : List Token) (i : ℕ) → get_elem? (xs ++ ys) (length xs + i) ≡ get_elem? ys i
get_elem?-append [] ys i = ap (get_elem? ys) {x = 0 + i} {y = i} (omega arith)
get_elem?-append (x ∷ xs) ys i =
    ap (get_elem? (x ∷ xs ++ ys)) {x = suc (length xs) + i} {y = suc (length xs + i)} (omega arith)
    ∙ get_elem?-append xs ys i

get_elem?-inside :
    (xs ys : List Token) (i : ℕ) → i < length xs → get_elem? (xs ++ ys) i ≡ get_elem? xs i
get_elem?-inside [] ys i h = absurd (omega arith)
get_elem?-inside (x ∷ xs) ys zero h = refl
get_elem?-inside (x ∷ xs) ys (suc i) h = get_elem?-inside xs ys i (omega arith)

module _ (p : Parser) (from k : ℕ) (ts : List Token) (w : Window p from k ts) where
  pub length-tokens : length ts ≡ length w.buffer + length w.later
  length-tokens = ap length w.tokens_eq ∙ length-append w.buffer w.later

  pub length-lookahead : length p.lookahead ≡ from + length w.buffer
  length-lookahead =
      omega (arith, ap length w.lookahead_eq, length-append w.passed w.buffer, w.from_eq)

  -- What the window holds i tokens ahead, where it reaches that far.
  pub elem_ahead :
      (i : ℕ) → k + i < length w.buffer → get_elem? p.lookahead (p.index + i) ≡ get_elem? ts (k + i)
  elem_ahead i h =
      ap (λ us. get_elem? us (p.index + i)) w.lookahead_eq
      ∙ ap (get_elem? (w.passed ++ w.buffer)) {x = p.index + i} {y = length w.passed + (k + i)}
          (omega (arith, w.from_eq, w.index_eq))
      ∙ get_elem?-append w.passed w.buffer (k + i)
      ∙ sym (
          ap (λ us. get_elem? us (k + i)) w.tokens_eq ∙ get_elem?-inside w.buffer w.later (k + i) h)

  -- Loading i tokens ahead changes the buffer only.
  pub load_lookahead-Window :
      (i : ℕ)
      → k + i ≤ length ts
      → (after : Parser) × (load_lookahead i p ≡ (ok tt, after))
        × (w' : Window after from k ts) × Frame p after
        × (after.index ≡ p.index)
        × (k + i ≤ length w'.buffer)
        × (length w.buffer ≤ length w'.buffer)
  unfolding load_lookahead
  load_lookahead-Window i h =
      let (more, rest, lx, split, count, l, e) =
        load_tokens-Lexes (p.index + i - length p.lookahead) p w.later w.lexes
          (omega (arith, length-tokens, length-lookahead, w.index_eq, w.inside)) in
      (
        refilled p lx more,
        e,
        record {
          passed = w.passed;
          buffer = w.buffer ++ more;
          later = rest;
          lookahead_eq = ap (λ us. us ++ more) w.lookahead_eq ∙ append_assoc w.passed w.buffer more;
          from_eq = w.from_eq;
          index_eq = w.index_eq;
          tokens_eq =
              w.tokens_eq ∙ ap (λ us. w.buffer ++ us) split ∙ sym (append_assoc w.buffer more rest);
          lexes = l;
          inside = omega (arith, length-append w.buffer more, w.inside);
        },
        record { code_eq = refl; operands_eq = refl; mark_eq = refl },
        refl,
        omega (arith, length-append w.buffer more, count, length-lookahead, w.index_eq),
        omega (arith, length-append w.buffer more),
      )
