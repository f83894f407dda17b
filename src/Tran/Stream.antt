-- ===== src/Tran/Stream.antt =====
-- The tokens that come next from a lexer, and those of a text where blanks stand between tokens.
use sql_relational_database.Common.{
  ℕ, zero, suc, ◌-◌, ◌≡◌, refl, sym, ap, ◌∙◌, true, false, arith, some, List, [], ◌∷◌, ◌++◌, length,
  All, subst,
}
use sql_relational_database.Common.Exec.{ok}
use sql_relational_database.Vm.Item.{Text}
use sql_relational_database.Tran.Symbol.{codes, tok_eoi, tok_whitespace}
use sql_relational_database.Tran.Lexer.{
  Token, token, Lexer, new_lexer, eoi, is_alpha, isspace, single, action, finish, skip_space,
  take_while, rounds_of, next_token, consume, next_token_loop, dispatch, ws, push_token, is_digit,
}
use sql_relational_database.Tran.Scan.{
  Reads, rounds-append, rounds-Reads, ch-Reads, take_while-Reads, take_while-last, consume-Reads,
}
use sql_relational_database.Tran.Lexing.{
  IsToken, of_word, of_int, of_float, of_text, of_single, of_dot, of_lt, of_gt, of_le, of_ge, of_ne,
  loop-IsToken, loop_at,
}

-- The next tokens of the lexer are those of the list.
pub data Lexes : Lexer → List Token → Type 0 where
  unknown : (lx : Lexer) → Lexes lx []
  reads :
      (lx after : Lexer) (t : Token) (ts : List Token)
      → next_token lx ≡ (ok t, after)
      → Lexes after ts
      → Lexes lx (t ∷ ts)

abbrev pub eoi_token : Token
eoi_token = token tok_eoi (codes "<EOI>")

abbrev pub eois : ℕ → List Token
eois zero = []
eois (suc n) = eoi_token ∷ eois n

-- The tokens with a blank before each and one at the end.
abbrev pub spaced : List Token → Text
spaced [] = b' ' ∷ []
spaced (t ∷ ts) = b' ' ∷ t.text ++ spaced ts

alpha_lem : (c : ℕ) → is_alpha c ≡ true → isspace c ≡ false
alpha_lem c h = ground arith

digit_lem : (c : ℕ) → is_digit c ≡ true → isspace c ≡ false
digit_lem c h = ground arith

single_lem : (c type : ℕ) → single c ≡ some type → isspace c ≡ false
single_lem c type h = ground arith

IsToken-starts :
    (t : Token) → IsToken t → (c : ℕ) × (rest : Text) × (t.text ≡ c ∷ rest) × (isspace c ≡ false)
IsToken-starts _ (of_word c text h t) = (c, text, refl, alpha_lem c h)
IsToken-starts _ (of_int c text h t) = (c, text, refl, digit_lem c h)
IsToken-starts _ (of_float c whole fraction h t u) = (c, _, refl, digit_lem c h)
IsToken-starts _ (of_text text t) = (34, _, refl, refl)
IsToken-starts _ (of_single c type h) = (c, [], refl, single_lem c type h)
IsToken-starts _ of_dot = (b'.', _, refl, refl)
IsToken-starts _ of_lt = (b'<', _, refl, refl)
IsToken-starts _ of_gt = (b'>', _, refl, refl)
IsToken-starts _ of_le = (b'<', _, refl, refl)
IsToken-starts _ of_ge = (b'>', _, refl, refl)
IsToken-starts _ of_ne = (b'!', _, refl, refl)

action-blank : action b' ' ≡ skip_space
unfolding action
action-blank = refl

-- A blank is skipped.
skip_blank :
    (fuel : ℕ) (lx : Lexer) (c : ℕ) (cs : Text)
    → isspace c ≡ false
    → Reads lx (b' ' ∷ (c ∷ cs))
    → (after : Lexer) × (next_token_loop (suc fuel) lx ≡ next_token_loop fuel after)
      × Reads after (c ∷ cs)
unfolding dispatch ws
skip_blank fuel lx c cs h r =
    let (after, e, r') =
      take_while-Reads (rounds_of lx) isspace lx (b' ' ∷ []) c cs
        (rounds-append lx (b' ' ∷ []) c cs r) (refl, tt) h r in
    (
      push_token (token tok_whitespace (b' ' ∷ [])) after,
      loop_at fuel lx skip_space (ap action (ch-Reads lx b' ' (c ∷ cs) r) ∙ action-blank)
          ∙ ap (λ p. next_token_loop fuel (push_token (token tok_whitespace p.0) p.1)) e,
      r',
    )

abbrev marked : Lexer → Lexer
marked lx = record lx { mark = lx.index }

next_token-fuel :
    (lx : Lexer) (c d : ℕ) (cs : Text)
    → Reads lx (c ∷ (d ∷ cs))
    → (fuel : ℕ) × (next_token lx ≡ next_token_loop (suc (suc fuel)) (marked lx))
unfolding next_token
next_token-fuel lx c d cs r = (
  rounds_of lx - 2,
  ap (λ n. next_token_loop n (marked lx)) {y = suc (suc (rounds_of lx - 2))}
      (omega (arith, rounds-Reads lx (c ∷ (d ∷ cs)) r)),
)

-- Reading one token after a blank.
next_token-spaced :
    (lx : Lexer) (t : Token) (cs : Text)
    → IsToken t
    → Reads lx (b' ' ∷ t.text ++ (b' ' ∷ cs))
    → (after : Lexer) × (next_token lx ≡ (ok t, after)) × Reads after (b' ' ∷ cs)
next_token-spaced lx t cs h r =
    let (c, rest, e, n) = IsToken-starts t h in
    let r' = subst (λ text. Reads lx (b' ' ∷ text ++ (b' ' ∷ cs))) e r in
    let (fuel, f) = next_token-fuel lx b' ' c (rest ++ (b' ' ∷ cs)) r' in
    let (middle, g, q) = skip_blank (suc fuel) (marked lx) c (rest ++ (b' ' ∷ cs)) n r' in
    let (after, k, q') =
      loop-IsToken fuel middle cs t h
        (subst (λ text. Reads middle (text ++ (b' ' ∷ cs))) (sym e) q) in
    (after, f ∙ g ∙ k, q')

action-eoi : action eoi ≡ finish
unfolding action
action-eoi = refl

loop-end :
    (fuel : ℕ) (lx : Lexer) → Reads lx [] → next_token_loop (suc fuel) lx ≡ (ok eoi_token, lx)
unfolding dispatch
loop-end fuel lx r = loop_at fuel lx finish (ap action r.0 ∙ action-eoi)

-- At the end of the text every token is lexer::EOI.
Lexes-end : (n : ℕ) (lx : Lexer) → Reads lx [] → Lexes lx (eois n)
unfolding next_token
Lexes-end zero lx r = unknown lx
Lexes-end (suc n) lx r =
    reads lx (marked lx) eoi_token (eois n)
      (ap (λ k. next_token_loop k (marked lx)) {y = suc (length lx.input)} (omega arith)
        ∙ loop-end (length lx.input) (marked lx) r)
      (Lexes-end n (marked lx) r)

skip_last :
    (fuel : ℕ) (lx : Lexer)
    → Reads lx (b' ' ∷ [])
    → (after : Lexer) × (next_token_loop (suc (suc fuel)) lx ≡ (ok eoi_token, after))
      × Reads after []
unfolding dispatch ws
skip_last fuel lx r =
    let e : rounds_of lx ≡ suc (suc (rounds_of lx - 2)) =
      omega (arith, rounds-Reads lx (b' ' ∷ []) r) in
    let after = push_token (token tok_whitespace (b' ' ∷ [])) (consume lx) in
    (
      after,
      loop_at (suc fuel) lx skip_space (ap action (ch-Reads lx b' ' [] r) ∙ action-blank)
          ∙ ap (λ p. next_token_loop (suc fuel) (push_token (token tok_whitespace p.0) p.1))
              (ap (λ n. take_while n isspace lx) e
                ∙ take_while-last (rounds_of lx - 2) isspace lx b' ' refl refl r)
          ∙ loop-end fuel after (consume-Reads lx b' ' [] r),
      consume-Reads lx b' ' [] r,
    )

Lexes-blank : (n : ℕ) (lx : Lexer) → Reads lx (b' ' ∷ []) → Lexes lx (eois n)
unfolding next_token
Lexes-blank zero lx r = unknown lx
Lexes-blank (suc n) lx r =
    let (after, e, r') = skip_last (rounds_of lx - 2) (marked lx) r in
    reads lx after eoi_token (eois n)
      (ap (λ k. next_token_loop k (marked lx)) {y = suc (suc (rounds_of lx - 2))}
          (omega (arith, rounds-Reads lx (b' ' ∷ []) r))
        ∙ e)
      (Lexes-end n after r')

Lexes-spaced :
    (n : ℕ) (ts : List Token) (lx : Lexer)
    → All IsToken ts
    → Reads lx (spaced ts)
    → Lexes lx (ts ++ eois n)
Lexes-spaced n [] lx h r = Lexes-blank n lx r
Lexes-spaced n (t ∷ []) lx (h, hs) r =
    let (after, e, r') = next_token-spaced lx t [] h r in
    reads lx after t _ e (Lexes-spaced n [] after hs r')
Lexes-spaced n (t ∷ u ∷ ts) lx (h, hs) r =
    let (after, e, r') = next_token-spaced lx t (u.text ++ spaced ts) h r in
    reads lx after t _ e (Lexes-spaced n (u ∷ ts) after hs r')

new_lexer-Reads : (c : ℕ) (cs : Text) → Reads (new_lexer (c ∷ cs)) (c ∷ cs)
unfolding new_lexer
new_lexer-Reads c cs = ([], refl, refl, refl)

-- Write tokens with a blank before each and one at the end: words, numbers, quoted texts and signs,
-- where a word is its own type in the table of reserved words. The lexer reads them back, and after
-- them the end of the text as often as it is asked.
pub new_lexer-spaced :
    (ts : List Token) (n : ℕ) → All IsToken ts → Lexes (new_lexer (spaced ts)) (ts ++ eois n)
new_lexer-spaced [] n h = Lexes-spaced n [] _ h (new_lexer-Reads b' ' [])
new_lexer-spaced (t ∷ ts) n h =
    Lexes-spaced n (t ∷ ts) _ h (new_lexer-Reads b' ' (t.text ++ spaced ts))
