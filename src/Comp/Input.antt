-- ===== src/Comp/Input.antt =====
-- The second lexer never changes the text that is read.
use sql_relational_database.Common.{
  ℕ, zero, suc, ◌≡◌, refl, sym, ap, ◌∙◌, Bool, true, false, ◌==◌, arith, List, [], ◌∷◌,
  if◌then◌else◌,
}
use sql_relational_database.Common.Exec.{Exec}
use sql_relational_database.Vm.Item.{Text}
use sql_relational_database.Tran.Lexer.{Token, eoi, is_digit, is_word, isspace}
use sql_relational_database.Comp.Lexer.{
  CompLexer, consume, take_while, rounds_of, ws, name, number, prepend, quoted_text, varchar, peek,
  compound, dispatch, Action, finish, skip_space, quoted, point, word, digits, refuse, alone,
  next_token_loop, next_token, action,
}
use sql_relational_database.Comp.Ahead.{Reads, nothing, reads, Ahead, ahead}
use sql_relational_database.Comp.Assembler.{Assembler}
use sql_relational_database.Buffer.{Buffer}

consume-input : (lx : CompLexer) → (consume lx).input ≡ lx.input
unfolding consume
consume-input lx = ground arith

take_while-input :
    (fuel : ℕ) (test : ℕ → Bool) (lx : CompLexer) → (take_while fuel test lx).1.input ≡ lx.input
unfolding take_while
take_while-input zero test lx = refl
take_while-input (suc fuel) test lx =
    either_way (test lx.ch) (take_while-input fuel test (consume lx) ∙ consume-input lx)
  where
    either_way :
        (b : Bool)
        → (take_while fuel test (consume lx)).1.input ≡ lx.input
        → (elim b as (λ _. Text × CompLexer) [
          | true ↦
              (lx.ch ∷ (take_while fuel test (consume lx)).0, (take_while fuel test (consume lx)).1)
          | false ↦ ([], lx)
        ]).1.input
          ≡ lx.input
    either_way true h = h
    either_way false h = refl

one_of :
    {A : Type 0} (b : Bool) (x y : A × CompLexer) (input : Text)
    → x.1.input ≡ input
    → y.1.input ≡ input
    → (if b then x else y).1.input ≡ input
one_of true x y input h k = h
one_of false x y input h k = k

prepend-input : (front : Text) (r : Text × CompLexer) → (prepend front r).1.input ≡ r.1.input
prepend-input front (text, lx) = refl

quoted_text-input : (fuel : ℕ) (lx : CompLexer) → (quoted_text fuel lx).1.input ≡ lx.input
unfolding quoted_text
quoted_text-input zero lx = refl
quoted_text-input (suc fuel) lx =
    let next = consume lx in
    let plain =
      prepend-input (lx.ch ∷ []) (quoted_text fuel next)
      ∙ quoted_text-input fuel next
      ∙ consume-input lx in
    let escaped =
      prepend-input (lx.ch ∷ next.ch ∷ []) (quoted_text fuel (consume next))
      ∙ quoted_text-input fuel (consume next)
      ∙ consume-input next
      ∙ consume-input lx in
    one_of (lx.ch == eoi) _ _ lx.input refl
      (one_of (lx.ch == b'\\') _ _ lx.input escaped (one_of (lx.ch == 34) _ _ lx.input refl plain))

varchar-input : (lx : CompLexer) → (varchar lx).1.input ≡ lx.input
unfolding varchar
varchar-input lx =
    consume-input (quoted_text (rounds_of lx) (consume lx)).1
    ∙ quoted_text-input (rounds_of lx) (consume lx)
    ∙ consume-input lx

number-input : (lx : CompLexer) → (number lx).1.input ≡ lx.input
unfolding number
number-input lx =
    let after = (take_while (rounds_of lx) is_digit lx).1 in
    one_of (after.ch == b'.') _ _ lx.input
      (take_while-input (rounds_of lx) is_digit (consume after)
        ∙ consume-input after
        ∙ take_while-input (rounds_of lx) is_digit lx)
      (take_while-input (rounds_of lx) is_digit lx)

compound-input : (lx : CompLexer) → (compound lx).1.input ≡ lx.input
unfolding compound
compound-input lx = one_of (is_digit (peek lx)) _ _ lx.input (number-input lx) (consume-input lx)

name-input : (lx : CompLexer) → (name lx).1.input ≡ lx.input
unfolding name
name-input lx = take_while-input (rounds_of lx) is_word lx

ws-input : (lx : CompLexer) → (ws lx).input ≡ lx.input
unfolding ws
ws-input lx = take_while-input (rounds_of lx) isspace lx

dispatch-input :
    (again : Exec CompLexer Token) (a : Action) (lx : CompLexer)
    → ((lx' : CompLexer) → (again lx').1.input ≡ lx'.input)
    → (dispatch again a lx).1.input ≡ lx.input
unfolding dispatch
dispatch-input again finish lx h = refl
dispatch-input again skip_space lx h = h (ws lx) ∙ ws-input lx
dispatch-input again quoted lx h = varchar-input lx
dispatch-input again point lx h = compound-input lx
dispatch-input again (alone type) lx h = consume-input lx
dispatch-input again word lx h = name-input lx
dispatch-input again digits lx h = number-input lx
dispatch-input again refuse lx h = refl

loop-input : (fuel : ℕ) (lx : CompLexer) → (next_token_loop fuel lx).1.input ≡ lx.input
unfolding next_token_loop
loop-input zero lx = refl
loop-input (suc fuel) lx = dispatch-input (next_token_loop fuel) (action lx.ch) lx (loop-input fuel)

next_token-input : (lx : CompLexer) → (next_token lx).1.input ≡ lx.input
unfolding next_token
next_token-input lx = loop-input (rounds_of lx) (record lx { mark = lx.index })

pub Reads-input :
    (lx after : CompLexer) (ts : List Token) → Reads lx ts after → after.input ≡ lx.input
Reads-input lx _ _ (nothing _) = refl
Reads-input lx after _ (reads _ middle _ t ts e r) =
    Reads-input middle after ts r ∙ sym (ap (λ o. o.1.input) e) ∙ next_token-input lx

pub Ahead-input :
    (last : CompLexer) (c d : Buffer) (p : Assembler) (ts : List Token)
    → Ahead last c d p ts
    → p.lexer.input ≡ last.input
Ahead-input last c d _ _ (ahead lx t ts r) = sym (Reads-input lx last ts r)
