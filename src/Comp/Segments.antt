-- ===== src/Comp/Segments.antt =====
-- The segment of data and the whole program against their description.
use sql_relational_database.Common.{
  ℕ, zero, suc, ◌+◌, ◌<◌, ◌≤◌, ◌≡◌, ◌≢◌, refl, sym, ap, ◌∙◌, subst, arith, List, [], ◌∷◌, ◌++◌,
  append_assoc, append-nil, length, ◌==◌, false, if◌then◌else◌, some,
}
use sql_relational_database.Common.Exec.{Exec, ok, pure, gets, bind_ok, ◌>>=◌, ◌>>◌}
use sql_relational_database.Buffer.{Buffer}
use sql_relational_database.Buffer.Text.{written}
use sql_relational_database.Tran.Symbol.{codes}
use sql_relational_database.Tran.Lexer.{Token, token}
use sql_relational_database.Comp.Lexer.{CompLexer}
use sql_relational_database.Comp.Symbol.{tok_data, tok_dot, tok_percent, tok_text}
use sql_relational_database.Comp.Assembler.{
  Assembler, get_lookahead_type, match_type, text, data_item, data_items, data_segment,
  text_segment, compile, in_rounds,
}
use sql_relational_database.Comp.Ahead.{
  Ahead, ahead, Moves, get_lookahead_type-Ahead, match_type-Ahead,
}
use sql_relational_database.Comp.Writes.{
  Room, Room-first, Room-rest, and_then, as_data, item_bytes, data_item-Ahead,
}
use sql_relational_database.Comp.Input.{Ahead-input}
use sql_relational_database.Comp.Program.{
  Item, data_bytes, code_bytes, offset_of, offsets_from, get_elem?-offsets_from, Instruction, Lists,
  no_items, item, Spells, Spells-length, text-Spells, written-none,
}

abbrev pub dot_token : Token
dot_token = token tok_dot (codes ".")

abbrev pub percent_token : Token
percent_token = token tok_percent (codes "%")

abbrev pub data_token : Token
data_token = token tok_data (codes "DATA")

abbrev pub text_token : Token
text_token = token tok_text (codes "TEXT")

-- What a round does, by the type ahead and the index.
abbrev round_at : ℕ → List ℕ → ℕ → ℕ → Exec Assembler (List ℕ)
round_at fuel offset type o =
    if type == tok_percent then pure offset else data_item >> data_items fuel (offset ++ o ∷ [])

no_percent : (n : ℕ) → n ≢ tok_percent → (n == tok_percent) ≡ false
no_percent n h = ground arith

Lists-length :
    (u : Token) (us ts : List Token) (items : List Item) → Lists (u ∷ us) ts items → 0 < length ts
Lists-length u us _ _ no_items = omega arith
Lists-length u us _ _ (item t s ts type items e f l) = omega arith

module _ (last : CompLexer) (c : Buffer) where
  index-Ahead :
      (d : Buffer) (p : Assembler) (ts : List Token)
      → Ahead last c d p ts
      → gets (λ p. p.segment.index) p ≡ (ok d.index, p)
  unfolding ◌>>=◌
  index-Ahead d _ _ (ahead lx t ts r) = refl

  -- The loop over items puts their bytes and keeps their offsets.
  data_items-Lists :
      (fuel : ℕ) (ts us : List Token) (items : List Item) (offset : List ℕ) (p : Assembler)
      (d : Buffer)
      → Lists (percent_token ∷ us) ts items
      → length items < fuel
      → Room d (length (data_bytes items))
      → Ahead last c d p ts
      → Moves last
          (data_items fuel offset)
          p
          (offset ++ offsets_from d.index items)
          c
          (written d (data_bytes items))
          (percent_token ∷ us)
  unfolding data_items
  data_items-Lists zero ts us items offset p d l h room a = absurd (omega arith)
  data_items-Lists (suc fuel) _ us _ offset p d no_items h room a = (
    p,
    bind_ok (get_lookahead_type 0) _ p (get_lookahead_type-Ahead last c d p percent_token us a) (
          bind_ok (gets (λ p. p.segment.index)) (round_at fuel offset tok_percent) p
            (index-Ahead d p (percent_token ∷ us) a) refl)
        ∙ ap (λ o. (ok o, p)) (sym (append-nil offset)),
    subst (λ b. Ahead last c b p (percent_token ∷ us)) (written-none d) a,
  )
  data_items-Lists (suc fuel) _ us _ offset p d (item t s [] type items e f l) h room a =
      absurd (omega (arith, Lists-length percent_token us [] items l))
  data_items-Lists (suc fuel) _ us _ offset p d (item t s (u ∷ ts) type items e f l) h room a =
      let bytes = item_bytes type s.text in
      let rest = data_bytes items in
      let (q, g, b) = data_item-Ahead last c d p t s u ts type e (Room-first d bytes rest room) a in
      let (r, k, b') =
        data_items-Lists fuel (u ∷ ts) us items (offset ++ d.index ∷ []) q (written d bytes) l
          (omega arith) (Room-rest d bytes rest room) b in
      as_data last c d (data_items (suc fuel) offset) p _ (percent_token ∷ us) bytes rest (
        r,
        bind_ok (get_lookahead_type 0) _ p (get_lookahead_type-Ahead last c d p t (s ∷ u ∷ ts) a) (
            bind_ok (gets (λ p. p.segment.index)) (round_at fuel offset t.type) p
              (index-Ahead d p (t ∷ s ∷ u ∷ ts) a)
              (ap
                  (λ b.
                    (if b
                        then pure offset
                        else data_item >> data_items fuel (offset ++ d.index ∷ []))
                      p)
                  (no_percent t.type f)
                ∙ bind_ok data_item _ p g k
                ∙ ap (λ o. (ok o, r)) (append_assoc offset (d.index ∷ []) _))),
        b',
      )

-- Two tokens that must stand there, and what follows.
match_two :
    {A : Type 0} (last : CompLexer) (c d c' d' : Buffer) (next : Exec Assembler A) (p : Assembler)
    (t u : Token) (ts us : List Token) (w : A)
    → 0 < length ts
    → Ahead last c d p (t ∷ u ∷ ts)
    → ((q : Assembler) → Ahead last c d q ts → Moves last next q w c' d' us)
    → Moves last (match_type t.type >> (match_type u.type >> next)) p w c' d' us
match_two last c d c' d' next p t u [] us w h a k = absurd (omega arith)
match_two last c d c' d' next p t u (v ∷ ts) us w h a k =
    and_then last (match_type t.type) (λ o. match_type u.type >> next) p tt w c d c' d' (u ∷ v ∷ ts)
      us (match_type-Ahead last c d p t u (v ∷ ts) t.type refl a)
      λ q b.
        and_then last (match_type u.type) (λ o. next) q tt w c d c' d' (v ∷ ts) us
          (match_type-Ahead last c d q u v ts u.type refl b) k

-- The percent signs behind a segment.
abbrev closed : List ℕ → Exec Assembler (List ℕ)
closed offset = match_type tok_percent >> (match_type tok_percent >> pure offset)

-- A program as the translator prints it, before its last token. In a text that has a character for
-- each item and each instruction, and with room for the bytes, the whole of it is put.
module _ (last : CompLexer) (c d : Buffer) (items : List Item) (is : List Instruction)
    (ts us : List Token) (e : Token)
    (lists : Lists (percent_token ∷ percent_token ∷ dot_token ∷ text_token ∷ us) ts items)
    (spells : Spells items (percent_token ∷ percent_token ∷ e ∷ []) us is)
    (data_first : d.index ≡ 0) (items_fit : length items ≤ length last.input)
    (code_fits : length is ≤ length last.input) (data_room : Room d (length (data_bytes items)))
    (code_room : Room c (length (code_bytes items is))) where
  abbrev after_data : Buffer
  after_data = written d (data_bytes items)

  data_loop :
      (p : Assembler)
      → Ahead last c d p ts
      → Moves last
          (in_rounds (λ fuel. data_items fuel []))
          p
          (offsets_from 0 items)
          c
          after_data
          (percent_token ∷ percent_token ∷ dot_token ∷ text_token ∷ us)
  data_loop p a =
      let (q, f, b) =
        data_items-Lists last c (length p.lexer.input + 2) ts
          (percent_token ∷ dot_token ∷ text_token ∷ us) items [] p d lists
          (omega (arith, ap length (Ahead-input last c d p ts a), items_fit)) data_room a in
      (q, f ∙ ap (λ n. (ok (offsets_from n items), q)) data_first, b)

  text_loop :
      (p : Assembler)
      → Ahead last c after_data p us
      → Moves last
          (in_rounds (λ fuel. text fuel (offsets_from 0 items)))
          p
          tt
          (written c (code_bytes items is))
          after_data
          (percent_token ∷ percent_token ∷ e ∷ [])
  text_loop p a =
      text-Spells last after_data items (offsets_from 0 items) percent_token
        (percent_token ∷ e ∷ [])
        (λ i h. get_elem?-offsets_from 0 items i h ∙ ap some {y = offset_of items i} (omega arith))
        (length p.lexer.input + 2) us is p c spells
        (omega (arith, ap length (Ahead-input last c after_data p us a), code_fits)) code_room a

  data_segment-Lists :
      (p : Assembler)
      → Ahead last c d p (dot_token ∷ data_token ∷ ts)
      → Moves last data_segment p (offsets_from 0 items) c after_data (dot_token ∷ text_token ∷ us)
  unfolding data_segment ◌>>=◌
  data_segment-Lists p a =
      match_two last c d c after_data (in_rounds (λ fuel. data_items fuel []) >>= closed) p
        dot_token data_token ts (dot_token ∷ text_token ∷ us) (offsets_from 0 items)
        (Lists-length percent_token _ ts items lists) a
        λ q b.
          and_then last (in_rounds (λ fuel. data_items fuel [])) closed q (offsets_from 0 items)
            (offsets_from 0 items) c after_data c after_data
            (percent_token ∷ percent_token ∷ dot_token ∷ text_token ∷ us)
            (dot_token ∷ text_token ∷ us) (data_loop q b)
            λ r b'.
              match_two last c after_data c after_data (pure (offsets_from 0 items)) r percent_token
                percent_token (dot_token ∷ text_token ∷ us) (dot_token ∷ text_token ∷ us)
                (offsets_from 0 items) (omega arith) b' λ o b''. (o, refl, b'')

  text_segment-Spells :
      (p : Assembler)
      → Ahead last c after_data p (dot_token ∷ text_token ∷ us)
      → Moves last
          (text_segment (offsets_from 0 items))
          p
          tt
          (written c (code_bytes items is))
          after_data
          (e ∷ [])
  unfolding text_segment
  text_segment-Spells p a =
      let after_code = written c (code_bytes items is) in
      let loop = in_rounds (λ fuel. text fuel (offsets_from 0 items)) in
      match_two last c after_data after_code after_data
        (loop >> (match_type tok_percent >> match_type tok_percent)) p dot_token text_token us
        (e ∷ []) tt (Spells-length items _ us is spells) a
        λ q b.
          and_then last loop (λ o. match_type tok_percent >> match_type tok_percent) q tt tt
            after_code after_data after_code after_data (percent_token ∷ percent_token ∷ e ∷ [])
            (e ∷ []) (text_loop q b)
            λ r b'.
              and_then last (match_type tok_percent) (λ o. match_type tok_percent) r tt tt
                after_code after_data after_code after_data (percent_token ∷ e ∷ []) (e ∷ [])
                (match_type-Ahead last after_code after_data r percent_token percent_token (e ∷ [])
                  tok_percent refl b')
                λ o b''.
                  match_type-Ahead last after_code after_data o percent_token e [] tok_percent refl
                    b''

  pub compile-Ahead :
      (p : Assembler)
      → Ahead last c d p (dot_token ∷ data_token ∷ ts)
      → Moves last compile p tt (written c (code_bytes items is)) after_data (e ∷ [])
  unfolding compile
  compile-Ahead p a =
      and_then last data_segment text_segment p (offsets_from 0 items) tt c after_data
        (written c (code_bytes items is)) after_data (dot_token ∷ text_token ∷ us) (e ∷ [])
        (data_segment-Lists p a) text_segment-Spells
