-- ===== src/Comp/Program.antt =====
-- The bytes of a program against a description of its items and instructions.
use sql_relational_database.Common.{
  ℕ, zero, suc, ◌+◌, ◌<◌, ◌≡◌, ◌≢◌, refl, ap, ap₂, ◌∙◌, arith, ◌/◌, ◌%◌, ◌^◌, ◌==◌, false, subst,
  List, [], ◌∷◌, ◌++◌, length, some, get_elem?, if◌then◌else◌,
}
use sql_relational_database.Common.Int.{ℤ, pos, to_unsigned}
use sql_relational_database.Common.Exec.{ok, bind_ok, ◌>>◌}
use sql_relational_database.Buffer.{Buffer, put}
use sql_relational_database.Buffer.Bytes.{be_bytes}
use sql_relational_database.Buffer.Words.{half32}
use sql_relational_database.Buffer.Text.{written}
use sql_relational_database.Vm.Item.{Text}
use sql_relational_database.Tran.Lexer.{Token}
use sql_relational_database.Comp.Lexer.{CompLexer}
use sql_relational_database.Comp.Symbol.{
  tok_call, tok_int, tok_nop, tok_percent, tok_push, tok_pusho, tok_ret,
}
use sql_relational_database.Comp.Opcode.{op_call, op_push, op_pusho, op_ret, routines}
use sql_relational_database.Comp.Assembler.{
  Assembler, consume, get_lookahead_type, stoi, find_routine, call, push, pusho, text_at, text,
  on_code,
}
use sql_relational_database.Comp.Ahead.{
  Ahead, Moves, get_lookahead_type-Ahead, consume-Ahead, on_code-Ahead,
}
use sql_relational_database.Comp.Writes.{
  Room, Room-first, Room-rest, put-Room, and_then, as_code, call-Ahead, push-Ahead, pusho-Ahead,
  item_bytes,
}

-- An operand of the program: its type and its text.
abbrev pub Item : Type 0
Item = ℤ × Text

abbrev pub data_bytes : List Item → List ℕ
data_bytes [] = []
data_bytes ((type, text) ∷ items) = item_bytes type text ++ data_bytes items

-- The number of bytes before an item.
abbrev pub offset_of : List Item → ℕ → ℕ
offset_of items zero = 0
offset_of [] (suc i) = 0
offset_of ((type, text) ∷ items) (suc i) = length (item_bytes type text) + offset_of items i

pub data Instruction : Type 0 where
  skip : Instruction
  routine number operand : ℕ → Instruction

-- What the machine reads: a routine by its opcode, a number, an operand by its offset.
abbrev pub instruction_bytes : List Item → Instruction → List ℕ
instruction_bytes items skip = []
instruction_bytes items (routine opcode) = op_call ∷ opcode ∷ []
instruction_bytes items (number n) = op_push ∷ be_bytes 4 n
instruction_bytes items (operand i) = op_pusho ∷ be_bytes 4 (offset_of items i)

abbrev pub code_bytes : List Item → List Instruction → List ℕ
code_bytes items [] = op_ret ∷ []
code_bytes items (i ∷ is) = instruction_bytes items i ++ code_bytes items is

-- The tokens of items, before other tokens.
pub data Lists (rest : List Token) : List Token → List Item → Type 0 where
  no_items : Lists rest rest []
  item :
      (t s : Token) (ts : List Token) (type : ℤ) (items : List Item)
      → stoi t.text ≡ ok type
      → t.type ≢ tok_percent
      → Lists rest ts items
      → Lists rest (t ∷ s ∷ ts) ((type, s.text) ∷ items)

-- The tokens of instructions, the first of which are those of the first instruction, with RET at
-- their end, before other tokens.
pub data Spells (items : List Item) (rest : List Token)
    : List Token → List Instruction → Type 0 where
  returns : (t : Token) → t.type ≡ tok_ret → Spells items rest (t ∷ rest) []
  skips :
      (t : Token) (ts : List Token) (is : List Instruction)
      → t.type ≡ tok_nop
      → Spells items rest ts is
      → Spells items rest (t ∷ ts) (skip ∷ is)
  calls :
      (t r : Token) (ts : List Token) (is : List Instruction) (opcode : ℕ)
      → t.type ≡ tok_call
      → find_routine routines r.type ≡ some opcode
      → Spells items rest ts is
      → Spells items rest (t ∷ r ∷ ts) (routine opcode ∷ is)
  pushes :
      (t n : Token) (ts : List Token) (is : List Instruction) (v : ℕ)
      → t.type ≡ tok_push
      → n.type ≡ tok_int
      → stoi n.text ≡ ok (pos v)
      → Spells items rest ts is
      → Spells items rest (t ∷ n ∷ ts) (number v ∷ is)
  operands :
      (t n : Token) (ts : List Token) (is : List Instruction) (i : ℕ)
      → t.type ≡ tok_pusho
      → n.type ≡ tok_int
      → stoi n.text ≡ ok (pos i)
      → i < length items
      → Spells items rest ts is
      → Spells items rest (t ∷ n ∷ ts) (operand i ∷ is)

-- The offsets that are collected while items are written from the position n on.
abbrev pub offsets_from : ℕ → List Item → List ℕ
offsets_from n [] = []
offsets_from n ((type, text) ∷ items) = n ∷ offsets_from (n + length (item_bytes type text)) items

pub get_elem?-offsets_from :
    (n : ℕ) (items : List Item) (i : ℕ)
    → i < length items
    → get_elem? (offsets_from n items) i ≡ some (n + offset_of items i)
get_elem?-offsets_from n [] i h = absurd (omega arith)
get_elem?-offsets_from n (x ∷ items) zero h = ap some {y = n + 0} (omega arith)
get_elem?-offsets_from n ((type, text) ∷ items) (suc i) h =
    get_elem?-offsets_from (n + length (item_bytes type text)) items i (omega arith)
    ∙ ap some {y = n + offset_of ((type, text) ∷ items) (suc i)} (omega arith)

word_bytes : (n : ℕ) → be_bytes 4 (to_unsigned half32 (pos n)) ≡ be_bytes 4 n
word_bytes n =
    let u = n % 2 ^ 32 in
    let e3 : u / 2 ^ 24 % 256 ≡ n / 2 ^ 24 % 256 = omega arith in
    let e2 : u / 2 ^ 16 % 256 ≡ n / 2 ^ 16 % 256 = omega arith in
    let e1 : u / 2 ^ 8 % 256 ≡ n / 2 ^ 8 % 256 = omega arith in
    let e0 : u / 2 ^ 0 % 256 ≡ n / 2 ^ 0 % 256 = omega arith in
    ap₂ ◌∷◌ e3 (ap₂ ◌∷◌ e2 (ap₂ ◌∷◌ e1 (ap (λ x. x ∷ []) e0)))

pub Spells-length :
    (items : List Item) (rest ts : List Token) (is : List Instruction)
    → Spells items rest ts is
    → 0 < length ts
Spells-length items rest _ _ (returns t e) = omega arith
Spells-length items rest _ _ (skips t ts is e s) = omega arith
Spells-length items rest _ _ (calls t r ts is o e f s) = omega arith
Spells-length items rest _ _ (pushes t n ts is v e f g s) = omega arith
Spells-length items rest _ _ (operands t n ts is i e f g h s) = omega arith

pub written-none : (b : Buffer) → b ≡ written b []
written-none b = ap (λ i. record b { index = i }) {y = b.index + 0} (omega arith)

-- One round of the loop over instructions.
module _ (last : CompLexer) (c d : Buffer) (offset : List ℕ) (fuel : ℕ) where
  text_round :
      (p : Assembler) (t : Token) (ts us vs : List Token) (type : ℕ) (bytes more : List ℕ)
      → t.type ≡ type
      → (type == tok_ret) ≡ false
      → Ahead last c d p (t ∷ ts)
      → Moves last (text_at type offset) p tt (written c bytes) d us
      → ((q : Assembler)
          → Ahead last (written c bytes) d q us
          → Moves last (text fuel offset) q tt (written (written c bytes) more) d vs)
      → Moves last (text (suc fuel) offset) p tt (written c (bytes ++ more)) d vs
  unfolding text
  text_round p t ts us vs type bytes more e f a m k =
      as_code last c d (text (suc fuel) offset) p tt vs bytes more (
        let (q, g, b) =
          and_then last (text_at type offset) (λ o. text fuel offset) p tt tt (written c bytes) d
            (written (written c bytes) more) d us vs m k in
        (
          q,
          bind_ok (get_lookahead_type 0) _ p
              (get_lookahead_type-Ahead last c d p t ts a ∙ ap (λ k. (ok k, p)) e)
              (ap
                  (λ b.
                    (if b
                        then consume >> on_code (put op_ret)
                        else text_at type offset >> text fuel offset)
                      p)
                  f
                ∙ g),
          b,
        ))

-- The loop over instructions puts their bytes and stops behind RET.
module _ (last : CompLexer) (d : Buffer) (items : List Item) (offset : List ℕ) (u : Token)
    (us : List Token)
    (offsets : (i : ℕ) → i < length items → get_elem? offset i ≡ some (offset_of items i)) where
  pub text-Spells :
      (fuel : ℕ) (ts : List Token) (is : List Instruction) (p : Assembler) (c : Buffer)
      → Spells items (u ∷ us) ts is
      → length is < fuel
      → Room c (length (code_bytes items is))
      → Ahead last c d p ts
      → Moves last (text fuel offset) p tt (written c (code_bytes items is)) d (u ∷ us)
  unfolding text text_at
  text-Spells zero ts is p c s h room a = absurd (omega arith)
  text-Spells (suc fuel) _ _ p c (returns t e) h room a =
      let (q, f, b) = consume-Ahead last c d p t u us a in
      let (r, g, b') =
        on_code-Ahead last c d q (u ∷ us) (op_ret ∷ []) (put op_ret) (put-Room c op_ret room) b in
      (
        r,
        bind_ok (get_lookahead_type 0) _ p
            (get_lookahead_type-Ahead last c d p t (u ∷ us) a ∙ ap (λ k. (ok k, p)) e)
            (bind_ok consume _ p f g),
        b',
      )
  text-Spells (suc fuel) _ _ p c (skips t [] is e s) h room a =
      absurd (omega (arith, Spells-length items (u ∷ us) [] is s))
  text-Spells (suc fuel) _ _ p c (skips t (v ∷ ts) is e s) h room a =
      text_round last c d offset fuel p t (v ∷ ts) (v ∷ ts) (u ∷ us) tok_nop [] _ e refl a
        (subst (λ b. Moves last consume p tt b d (v ∷ ts)) (written-none c)
          (consume-Ahead last c d p t v ts a))
        λ q b.
          text-Spells fuel (v ∷ ts) is q (written c []) s (omega arith)
            (Room-rest c [] (code_bytes items is) room) b
  text-Spells (suc fuel) _ _ p c (calls t r [] is o e f s) h room a =
      absurd (omega (arith, Spells-length items (u ∷ us) [] is s))
  text-Spells (suc fuel) _ _ p c (calls t r (v ∷ ts) is o e f s) h room a =
      let bytes = op_call ∷ o ∷ [] in
      text_round last c d offset fuel p t (r ∷ v ∷ ts) (v ∷ ts) (u ∷ us) tok_call bytes _ e refl a
        (and_then last consume (λ o. call) p tt tt c d (written c bytes) d (r ∷ v ∷ ts) (v ∷ ts)
          (consume-Ahead last c d p t r (v ∷ ts) a)
          λ q b. call-Ahead last c d q r v ts o f (Room-first c bytes (code_bytes items is) room) b)
        λ q b.
          text-Spells fuel (v ∷ ts) is q (written c bytes) s (omega arith)
            (Room-rest c bytes (code_bytes items is) room) b
  text-Spells (suc fuel) _ _ p c (pushes t n [] is v e f g s) h room a =
      absurd (omega (arith, Spells-length items (u ∷ us) [] is s))
  text-Spells (suc fuel) _ _ p c (pushes t n (w ∷ ts) is v e f g s) h room a =
      let bytes = op_push ∷ be_bytes 4 v in
      text_round last c d offset fuel p t (n ∷ w ∷ ts) (w ∷ ts) (u ∷ us) tok_push bytes _ e refl a
        (and_then last consume (λ o. push) p tt tt c d (written c bytes) d (n ∷ w ∷ ts) (w ∷ ts)
          (consume-Ahead last c d p t n (w ∷ ts) a)
          λ q b.
            subst (λ xs. Moves last push q tt (written c (op_push ∷ xs)) d (w ∷ ts)) (word_bytes v)
              (push-Ahead last c d q n w ts (pos v) g f
                (Room-first c bytes (code_bytes items is) room) b))
        λ q b.
          text-Spells fuel (w ∷ ts) is q (written c bytes) s (omega arith)
            (Room-rest c bytes (code_bytes items is) room) b
  text-Spells (suc fuel) _ _ p c (operands t n [] is i e f g k s) h room a =
      absurd (omega (arith, Spells-length items (u ∷ us) [] is s))
  text-Spells (suc fuel) _ _ p c (operands t n (w ∷ ts) is i e f g k s) h room a =
      let bytes = op_pusho ∷ be_bytes 4 (offset_of items i) in
      text_round last c d offset fuel p t (n ∷ w ∷ ts) (w ∷ ts) (u ∷ us) tok_pusho bytes _ e refl a
        (and_then last consume (λ o. pusho offset) p tt tt c d (written c bytes) d (n ∷ w ∷ ts)
          (w ∷ ts) (consume-Ahead last c d p t n (w ∷ ts) a)
          λ q b.
            subst (λ xs. Moves last (pusho offset) q tt (written c (op_pusho ∷ xs)) d (w ∷ ts))
              (word_bytes (offset_of items i))
              (pusho-Ahead last c d offset q n w ts i (offset_of items i) g f (offsets i k)
                (Room-first c bytes (code_bytes items is) room) b))
        λ q b.
          text-Spells fuel (w ∷ ts) is q (written c bytes) s (omega arith)
            (Room-rest c bytes (code_bytes items is) room) b
