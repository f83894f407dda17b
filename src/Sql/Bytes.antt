-- ===== src/Sql/Bytes.antt =====
-- The bytes of a program's text, from the text to the two buffers.
use sql_relational_database.Common.{
  ℕ, ◌+◌, ◌≤◌, ◌≡◌, refl, ap, ap₂, ◌∙◌, arith, List, [], ◌∷◌, length,
}
use sql_relational_database.Common.Exec.{ok, continue, pure, bind_ok, ◌>>◌}
use sql_relational_database.Buffer.{Buffer, make}
use sql_relational_database.Buffer.Text.{overwrite, written}
use sql_relational_database.Vm.Item.{Text}
use sql_relational_database.Tran.Lexer.{Token}
use sql_relational_database.Comp.Lexer.{CompLexer, new_lexer}
use sql_relational_database.Comp.Assembler.{Assembler, fetched, new_assembler, compile, dump}
use sql_relational_database.Comp.Ahead.{Reads, reads, Ahead, ahead, Moves, standing}
use sql_relational_database.Comp.Writes.{Room}
use sql_relational_database.Comp.Input.{Reads-input}
use sql_relational_database.Comp.Program.{Item, Instruction, data_bytes, code_bytes, Lists, Spells}
use sql_relational_database.Comp.Segments.{
  dot_token, percent_token, data_token, text_token, compile-Ahead,
}
use sql_relational_database.Sql.{no_assembler, answer, assemble}

new_lexer-input : (text : Text) → (new_lexer text).input ≡ text
unfolding new_lexer
new_lexer-input [] = refl
new_lexer-input (c ∷ text) = refl

new_assembler-Ahead :
    (lx last : CompLexer) (code_storage data_storage : ℕ → ℕ) (p : Assembler) (t : Token)
    (ts : List Token)
    → Reads lx (t ∷ ts) last
    → Moves last
        (new_assembler lx code_storage data_storage)
        p
        tt
        (make 8192 code_storage)
        (make 8192 data_storage)
        (t ∷ ts)
unfolding new_assembler
new_assembler-Ahead lx last code_storage data_storage p t ts (reads _ middle _ _ _ e r) = (
  standing middle t (make 8192 code_storage) (make 8192 data_storage),
  ap
      (λ o.
        let (outcome, after) =
          fetched
            (record {
              lexer = lx;
              lookahead = [];
              code = make 8192 code_storage;
              segment = make 8192 data_storage;
              index = 0;
            })
            o in
        continue outcome (λ _. pure tt) after)
      e,
  ahead middle t ts r,
)

-- A buffer of 8192 bytes that holds the bytes from its start on, up to its bound.
abbrev pub filled : (ℕ → ℕ) → List ℕ → Buffer
filled storage bytes = record {
  size = 8192;
  bound = length bytes;
  index = 0;
  cells = overwrite storage 0 bytes;
}

make-Room : (storage : ℕ → ℕ) (n : ℕ) → n ≤ 8192 → Room (make 8192 storage) n
unfolding make
make-Room storage n h = record { below = omega arith; owned = omega arith }

filled_by :
    (storage : ℕ → ℕ) (bytes : List ℕ)
    → record (written (make 8192 storage) bytes) { bound = 0 + length bytes; index = 0 }
      ≡ filled storage bytes
unfolding make
filled_by storage bytes =
    ap (λ n. record { size = 8192; bound = n; index = 0; cells = overwrite storage 0 bytes })
      {y = length bytes} (omega arith)

dump-Ahead :
    (last : CompLexer) (code_storage data_storage : ℕ → ℕ) (code data_part : List ℕ) (p : Assembler)
    (ts : List Token)
    → Ahead last
        (written (make 8192 code_storage) code)
        (written (make 8192 data_storage) data_part)
        p
        ts
    → answer (dump p) ≡ ok (filled data_storage data_part, filled code_storage code)
unfolding dump make
dump-Ahead last code_storage data_storage code data_part _ ts (ahead lx t _ r) =
    ap₂ (λ x y. ok (x, y)) (filled_by data_storage data_part) (filled_by code_storage code)

-- Let the tokens of a text be those of a program: ".DATA", a type and a text for each item, "%%",
-- ".TEXT", the instructions with RET at their end, and "%%". If the text has a character for each
-- item and each instruction, and the bytes of either segment are at most 8192, then the program is
-- assembled: one buffer has the type, the length and the text of each item in turn, the other the
-- opcodes, where an operand stands by the position in the first buffer at which its item begins.
pub assemble_lem :
    (code_storage data_storage : ℕ → ℕ) (m_text : Text) (items : List Item) (is : List Instruction)
    (ts us : List Token) (e : Token) (last : CompLexer)
    → Reads (new_lexer m_text) (dot_token ∷ data_token ∷ ts) last
    → Lists (percent_token ∷ percent_token ∷ dot_token ∷ text_token ∷ us) ts items
    → Spells items (percent_token ∷ percent_token ∷ e ∷ []) us is
    → length items ≤ length m_text
    → length is ≤ length m_text
    → length (data_bytes items) ≤ 8192
    → length (code_bytes items is) ≤ 8192
    → assemble code_storage data_storage m_text
      ≡ ok (filled data_storage (data_bytes items), filled code_storage (code_bytes items is))
unfolding assemble make
assemble_lem code_storage data_storage m_text items is ts us e last r l s f g h k =
    let lx = new_lexer m_text in
    let c = make 8192 code_storage in
    let d = make 8192 data_storage in
    let same = Reads-input lx last _ r ∙ new_lexer-input m_text in
    let (p, x, a) =
      new_assembler-Ahead lx last code_storage data_storage no_assembler dot_token (data_token ∷ ts)
        r in
    let (q, y, b) =
      compile-Ahead last c d items is ts us e l s refl (omega (arith, ap length same, f))
        (omega (arith, ap length same, g)) (make-Room data_storage _ h) (make-Room code_storage _ k)
        p a in
    ap answer (
      bind_ok (new_assembler lx code_storage data_storage >> compile) (λ o. dump) no_assembler
        (bind_ok (new_assembler lx code_storage data_storage) (λ o. compile) no_assembler x y) refl)
    ∙ dump-Ahead last code_storage data_storage (code_bytes items is) (data_bytes items) q (e ∷ [])
        b
