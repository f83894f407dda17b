-- ===== src/Tran/Lexing.antt =====
-- The tokens that the lexer reads from a text.
use sql_relational_database.Common.{
  ℕ, suc, ◌≡◌, refl, ap, ◌∙◌, true, ◌==◌, arith, if◌then◌else◌, [], ◌∷◌, ◌++◌, append_assoc, some,
  length-append, All, subst,
}
use sql_relational_database.Common.Exec.{Result, ok}
use sql_relational_database.Vm.Item.{Text}
use sql_relational_database.Tran.Symbol.{
  codes, tok_dot, tok_float, tok_ge, tok_gt, tok_int, tok_le, tok_lt, tok_ne, tok_varchar,
}
use sql_relational_database.Tran.Lexer.{
  Token, token, Lexer, is_alpha, is_word, is_digit, in_quotes, single, Action, action, quoted, pair,
  word, digits, alone, consume, rounds_of, next_token_loop, dispatch, name, number, varchar,
  compound, listed, push_token, word_type, named, compound_at, pair_or, is_compound, returned,
}
use sql_relational_database.Tran.Scan.{
  Reads, consume-Reads, peek-Reads, rounds-Reads, ch-Reads, take_while-Reads, rounds-append,
  rounds-next,
}

-- The tokens of an SQL text that the lexer reads back.
pub data IsToken : Token → Type 0 where
  of_word :
      (c : ℕ) (text : Text)
      → is_alpha c ≡ true
      → All (λ x. is_word x ≡ true) text
      → IsToken (token (word_type (c ∷ text)) (c ∷ text))
  of_int :
      (c : ℕ) (text : Text)
      → is_digit c ≡ true
      → All (λ x. is_digit x ≡ true) text
      → IsToken (token tok_int (c ∷ text))
  of_float :
      (c : ℕ) (whole fraction : Text)
      → is_digit c ≡ true
      → All (λ x. is_digit x ≡ true) whole
      → All (λ x. is_digit x ≡ true) fraction
      → IsToken (token tok_float (c ∷ whole ++ (b'.' ∷ fraction)))
  of_text :
      (text : Text)
      → All (λ x. in_quotes x ≡ true) text
      → IsToken (token tok_varchar (34 ∷ text ++ (34 ∷ [])))
  of_single : (c type : ℕ) → single c ≡ some type → IsToken (token type (c ∷ []))
  of_dot : IsToken (token tok_dot (codes "."))
  of_lt : IsToken (token tok_lt (codes "<"))
  of_gt : IsToken (token tok_gt (codes ">"))
  of_le : IsToken (token tok_le (codes "<="))
  of_ge : IsToken (token tok_ge (codes ">="))
  of_ne : IsToken (token tok_ne (codes "!="))

alpha-is_word : (c : ℕ) → is_alpha c ≡ true → is_word c ≡ true
alpha-is_word c h = ground arith

action_word : (c : ℕ) → is_alpha c ≡ true → action c ≡ word
unfolding action
action_word c h = ground arith

action-digits : (c : ℕ) → is_digit c ≡ true → action c ≡ digits
unfolding action
action-digits c h = ground arith

action_alone : (c type : ℕ) → single c ≡ some type → action c ≡ alone type
unfolding action
action_alone c type h = ground arith

module _ (fuel : ℕ) (lx : Lexer) where
  pub loop_at :
      (a : Action)
      → action lx.ch ≡ a
      → next_token_loop (suc fuel) lx ≡ dispatch (next_token_loop fuel) a lx
  unfolding next_token_loop
  loop_at a h = ap (λ a. dispatch (next_token_loop fuel) a lx) h

-- The token comes back, and the lexer stands before `cs`.
abbrev Lexed : Lexer → Token → Text → Result Token × Lexer → Type 0
Lexed lx t cs outcome = (after : Lexer) × (outcome ≡ (ok t, after)) × Reads after cs

module _ (again : Lexer → Result Token × Lexer) (lx : Lexer) (cs : Text) where
  dispatch_word :
      (c : ℕ) (text : Text)
      → is_alpha c ≡ true
      → All (λ x. is_word x ≡ true) text
      → Reads lx (c ∷ text ++ (b' ' ∷ cs))
      → Lexed lx (token (word_type (c ∷ text)) (c ∷ text)) (b' ' ∷ cs) (dispatch again word lx)
  unfolding dispatch name
  dispatch_word c text h t r =
      let (after, e, r') =
        take_while-Reads (rounds_of lx) is_word lx (c ∷ text) b' ' cs
          (rounds-append lx (c ∷ text) b' ' cs r) (alpha-is_word c h, t) refl r in
      (
        push_token (token (word_type (c ∷ text)) (c ∷ text)) after,
        ap (λ p. listed (returned (named p))) e,
        r',
      )

  dispatch_int :
      (c : ℕ) (text : Text)
      → is_digit c ≡ true
      → All (λ x. is_digit x ≡ true) text
      → Reads lx (c ∷ text ++ (b' ' ∷ cs))
      → Lexed lx (token tok_int (c ∷ text)) (b' ' ∷ cs) (dispatch again digits lx)
  unfolding dispatch number
  dispatch_int c text h t r =
      let (after, e, r') =
        take_while-Reads (rounds_of lx) is_digit lx (c ∷ text) b' ' cs
          (rounds-append lx (c ∷ text) b' ' cs r) (h, t) refl r in
      (
        push_token (token tok_int (c ∷ text)) after,
        rw (e, ap (λ k. k == b'.') (ch-Reads after b' ' cs r')) refl,
        r',
      )

  dispatch_float :
      (c : ℕ) (whole fraction : Text)
      → is_digit c ≡ true
      → All (λ x. is_digit x ≡ true) whole
      → All (λ x. is_digit x ≡ true) fraction
      → Reads lx (c ∷ whole ++ (b'.' ∷ fraction ++ (b' ' ∷ cs)))
      → Lexed lx
          (token tok_float (c ∷ whole ++ (b'.' ∷ fraction)))
          (b' ' ∷ cs)
          (dispatch again digits lx)
  unfolding dispatch number
  dispatch_float c whole fraction h t u r =
      let (middle, e, r') =
        take_while-Reads (rounds_of lx) is_digit lx (c ∷ whole) b'.' (fraction ++ (b' ' ∷ cs))
          (rounds-append lx (c ∷ whole) b'.' (fraction ++ (b' ' ∷ cs)) r) (h, t) refl r in
      let (after, e', r'') =
        take_while-Reads (rounds_of lx) is_digit (consume middle) fraction b' ' cs
          (omega (
            arith,
            rounds-Reads lx (c ∷ whole ++ (b'.' ∷ fraction ++ (b' ' ∷ cs))) r,
            length-append whole (b'.' ∷ fraction ++ (b' ' ∷ cs)),
            length-append fraction (b' ' ∷ cs),
          ))
          u refl (consume-Reads middle b'.' (fraction ++ (b' ' ∷ cs)) r') in
      (
        push_token (token tok_float (c ∷ whole ++ (b'.' ∷ fraction))) after,
        rw (e, e', ch-Reads middle b'.' (fraction ++ (b' ' ∷ cs)) r') refl,
        r'',
      )

  dispatch_text :
      (text : Text)
      → All (λ x. in_quotes x ≡ true) text
      → Reads lx (34 ∷ text ++ (34 ∷ (b' ' ∷ cs)))
      → Lexed lx (token tok_varchar (34 ∷ text ++ (34 ∷ []))) (b' ' ∷ cs) (dispatch again quoted lx)
  unfolding dispatch varchar
  dispatch_text text t r =
      let (after, e, r') =
        take_while-Reads (rounds_of lx) in_quotes (consume lx) text 34 (b' ' ∷ cs)
          (rounds-next lx 34 text 34 (b' ' ∷ cs) r) t refl
          (consume-Reads lx 34 (text ++ (34 ∷ (b' ' ∷ cs))) r) in
      (
        push_token (token tok_varchar (34 ∷ text ++ (34 ∷ []))) (consume after),
        rw e refl,
        consume-Reads after 34 (b' ' ∷ cs) r',
      )

  dispatch_alone :
      (c type : ℕ)
      → Reads lx (c ∷ (b' ' ∷ cs))
      → Lexed lx (token type (c ∷ [])) (b' ' ∷ cs) (dispatch again (alone type) lx)
  unfolding dispatch
  dispatch_alone c type r = (
    push_token (token type (c ∷ [])) (consume lx),
    ap (λ k. (ok (token type (k ∷ [])), push_token (token type (k ∷ [])) (consume lx)))
        (ch-Reads lx c (b' ' ∷ cs) r),
    consume-Reads lx c (b' ' ∷ cs) r,
  )

  dispatch_dot :
      Reads lx (b'.' ∷ (b' ' ∷ cs))
      → Lexed lx (token tok_dot (codes ".")) (b' ' ∷ cs) (dispatch again pair lx)
  unfolding dispatch compound
  dispatch_dot r = (
    push_token (token tok_dot (codes ".")) (consume lx),
    ap (λ k. listed (compound_at k lx)) (ch-Reads lx b'.' (b' ' ∷ cs) r)
        ∙ ap
            (λ k. listed (
              if is_digit k
              then returned (number lx)
              else (ok (token tok_dot (codes ".")), consume lx)))
            (peek-Reads lx b'.' (b' ' ∷ cs) r),
    consume-Reads lx b'.' (b' ' ∷ cs) r,
  )

  -- A character that is a token where no = follows it.
  dispatch_single :
      (c : ℕ) (longer shorter : Token)
      → compound_at c lx ≡ pair_or b'=' longer (ok shorter) (consume lx)
      → Reads lx (c ∷ (b' ' ∷ cs))
      → Lexed lx shorter (b' ' ∷ cs) (dispatch again pair lx)
  unfolding dispatch compound
  dispatch_single c longer shorter e r = (
    push_token shorter (consume lx),
    ap (λ k. listed (compound_at k lx)) (ch-Reads lx c (b' ' ∷ cs) r)
        ∙ ap listed e
        ∙ ap
            (λ k.
              listed
                (if k == b'=' then (ok longer, consume (consume lx)) else (ok shorter, consume lx)))
            (ch-Reads (consume lx) b' ' cs (consume-Reads lx c (b' ' ∷ cs) r)),
    consume-Reads lx c (b' ' ∷ cs) r,
  )

  dispatch_pair :
      (c : ℕ) (longer : Token) (shorter : Result Token)
      → compound_at c lx ≡ pair_or b'=' longer shorter (consume lx)
      → Reads lx (c ∷ (b'=' ∷ (b' ' ∷ cs)))
      → Lexed lx longer (b' ' ∷ cs) (dispatch again pair lx)
  unfolding dispatch compound
  dispatch_pair c longer shorter e r =
      let r' = consume-Reads lx c (b'=' ∷ (b' ' ∷ cs)) r in
      (
        push_token longer (consume (consume lx)),
        ap (λ k. listed (compound_at k lx)) (ch-Reads lx c (b'=' ∷ (b' ' ∷ cs)) r)
            ∙ ap listed e
            ∙ ap
                (λ k.
                  listed (
                    if k == b'=' then (ok longer, consume (consume lx)) else (shorter, consume lx)))
                (ch-Reads (consume lx) b'=' (b' ' ∷ cs) r'),
        consume-Reads (consume lx) b'=' (b' ' ∷ cs) r',
      )

action_pair : (c : ℕ) → is_compound c ≡ true → action c ≡ pair
unfolding action
action_pair c h = ground arith

-- One round of the loop reads a token that a blank follows.
module _ (fuel : ℕ) (lx : Lexer) (cs : Text) where
  by_action :
      (c : ℕ) (rest : Text) (a : Action) (t : Token)
      → action c ≡ a
      → Reads lx (c ∷ rest)
      → Lexed lx t (b' ' ∷ cs) (dispatch (next_token_loop fuel) a lx)
      → Lexed lx t (b' ' ∷ cs) (next_token_loop (suc fuel) lx)
  by_action c rest a t h r (after, e, r') =
      (after, loop_at fuel lx a (ap action (ch-Reads lx c rest r) ∙ h) ∙ e, r')

  pub loop-IsToken :
      (t : Token)
      → IsToken t
      → Reads lx (t.text ++ (b' ' ∷ cs))
      → Lexed lx t (b' ' ∷ cs) (next_token_loop (suc fuel) lx)
  unfolding compound_at action
  loop-IsToken _ (of_word c text h t) r =
      by_action c _ word _ (action_word c h) r (dispatch_word _ lx cs c text h t r)
  loop-IsToken _ (of_int c text h t) r =
      by_action c _ digits _ (action-digits c h) r (dispatch_int _ lx cs c text h t r)
  loop-IsToken _ (of_float c whole fraction h t u) r =
      let r' =
        subst (λ text. Reads lx (c ∷ text)) (append_assoc whole (b'.' ∷ fraction) (b' ' ∷ cs)) r in
      by_action c _ digits _ (action-digits c h) r
        (dispatch_float _ lx cs c whole fraction h t u r')
  loop-IsToken _ (of_text text t) r =
      let r' = subst (λ text. Reads lx (34 ∷ text)) (append_assoc text (34 ∷ []) (b' ' ∷ cs)) r in
      by_action 34 _ quoted _ refl r' (dispatch_text _ lx cs text t r')
  loop-IsToken _ (of_single c type h) r =
      by_action c _ (alone type) _ (action_alone c type h) r (dispatch_alone _ lx cs c type r)
  loop-IsToken _ of_dot r =
      by_action b'.' _ pair _ (action_pair b'.' refl) r (dispatch_dot _ lx cs r)
  loop-IsToken _ of_lt r =
      by_action b'<' _ pair _ (action_pair b'<' refl) r (dispatch_single _ lx cs b'<' _ _ refl r)
  loop-IsToken _ of_gt r =
      by_action b'>' _ pair _ (action_pair b'>' refl) r (dispatch_single _ lx cs b'>' _ _ refl r)
  loop-IsToken _ of_le r =
      by_action b'<' _ pair _ (action_pair b'<' refl) r (dispatch_pair _ lx cs b'<' _ _ refl r)
  loop-IsToken _ of_ge r =
      by_action b'>' _ pair _ (action_pair b'>' refl) r (dispatch_pair _ lx cs b'>' _ _ refl r)
  loop-IsToken _ of_ne r =
      by_action b'!' _ pair _ (action_pair b'!' refl) r (dispatch_pair _ lx cs b'!' _ _ refl r)
