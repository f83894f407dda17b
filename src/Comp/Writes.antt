-- ===== src/Comp/Writes.antt =====
-- One instruction of the code and one item of the data: the tokens it takes and the bytes it puts.
use sql_relational_database.Common.{
  ℕ, ◌+◌, ◌%◌, ◌^◌, ◌≤◌, ◌<◌, ◌≡◌, refl, ap, ap₂, ◌∙◌, subst, arith, List, [], ◌∷◌, ◌++◌, length,
  length-append, some, get_elem?,
}
use sql_relational_database.Common.Int.{ℤ, pos, to_unsigned, to_signed}
use sql_relational_database.Common.Exec.{Exec, ok, bind_ok, ◌>>=◌, ◌>>◌}
use sql_relational_database.Buffer.{Buffer, put, put_varchar, update}
use sql_relational_database.Buffer.Access.{put_below}
use sql_relational_database.Buffer.Bytes.{be_bytes}
use sql_relational_database.Buffer.Text.{overwrite, written, put_varchar_within}
use sql_relational_database.Buffer.Words.{half16, half32, put_int16, put_int32}
use sql_relational_database.Buffer.WordAccess.{put_int16-be_bytes, put_int32-be_bytes}
use sql_relational_database.Vm.Item.{Text}
use sql_relational_database.Tran.Lexer.{Token}
use sql_relational_database.Comp.Lexer.{CompLexer}
use sql_relational_database.Comp.Symbol.{tok_int}
use sql_relational_database.Comp.Opcode.{op_call, op_push, op_pusho, routines}
use sql_relational_database.Comp.Assembler.{
  Assembler, consume, get_lookahead_token, get_lookahead_type, match_type, token_value, stoi,
  on_code, on_data, call, push, pusho, find_routine, put_routine, put_offset, data_item, offset_at,
}
use sql_relational_database.Comp.Ahead.{
  Ahead, Moves, get_lookahead_token-Ahead, get_lookahead_type-Ahead, token_value-Ahead,
  consume-Ahead, match_type-Ahead, on_code-Ahead, on_data-Ahead,
}

overwrite-append :
    (f : ℕ → ℕ) (i : ℕ) (xs ys : List ℕ)
    → overwrite (overwrite f i xs) (i + length xs) ys ≡ overwrite f i (xs ++ ys)
overwrite-append f i [] ys = ap (λ j. overwrite f j ys) (omega arith)
overwrite-append f i (x ∷ xs) ys =
    ap (λ j. overwrite (overwrite f i (x ∷ xs)) j ys) {y = i + 1 + length xs} (omega arith)
    ∙ overwrite-append (update f i x) (i + 1) xs ys

pub written-append :
    (b : Buffer) (xs ys : List ℕ) → written (written b xs) ys ≡ written b (xs ++ ys)
written-append b xs ys =
    ap₂ (λ f i. record b { cells = f; index = i }) (overwrite-append b.cells b.index xs ys)
      (omega (arith, length-append xs ys))

-- There is room for n bytes behind the index.
pub record Room (b : Buffer) (n : ℕ) : Type 0 where
  pub below : b.index + n ≤ b.bound
  pub owned : b.bound ≤ b.size

pub Room-first : (b : Buffer) (xs ys : List ℕ) → Room b (length (xs ++ ys)) → Room b (length xs)
Room-first b xs ys h = record {
  below = omega (arith, length-append xs ys, h.below);
  owned = h.owned;
}

pub Room-rest :
    (b : Buffer) (xs ys : List ℕ) → Room b (length (xs ++ ys)) → Room (written b xs) (length ys)
Room-rest b xs ys h = record {
  below = omega (arith, length-append xs ys, h.below);
  owned = h.owned;
}

pub put-Room : (b : Buffer) (x : ℕ) → Room b 1 → put x b ≡ (ok tt, written b (x ∷ []))
put-Room b x h = put_below b x (omega (arith, h.below)) h.owned

put_varchar-Room :
    (b : Buffer) (xs : List ℕ) → Room b (length xs) → put_varchar xs b ≡ (ok tt, written b xs)
put_varchar-Room b xs h = put_varchar_within xs b h.below h.owned

put_int32-Room :
    (b : Buffer) (v : ℤ)
    → Room b 4
    → put_int32 v b ≡ (ok tt, written b (be_bytes 4 (to_unsigned half32 v)))
put_int32-Room b v h = ap (λ f. f b) (put_int32-be_bytes v) ∙ put_varchar-Room b _ h

put_int16-Room :
    (b : Buffer) (v : ℤ)
    → Room b 2
    → put_int16 v b ≡ (ok tt, written b (be_bytes 2 (to_unsigned half16 v)))
put_int16-Room b v h = ap (λ f. f b) (put_int16-be_bytes v) ∙ put_varchar-Room b _ h

-- An action and what follows it.
pub and_then :
    {A B : Type 0} (last : CompLexer) (action : Exec Assembler A) (next : A → Exec Assembler B)
    (p : Assembler) (v : A) (w : B) (c d c' d' : Buffer) (ts us : List Token)
    → Moves last action p v c d ts
    → ((q : Assembler) → Ahead last c d q ts → Moves last (next v) q w c' d' us)
    → Moves last (action >>= next) p w c' d' us
and_then last action next p v w c d c' d' ts us (q, e, a) k =
    let (r, f, b) = k q a in (r, bind_ok action next p e f, b)

-- An item of the data: the lowest byte of its type, the length of its text in two bytes, the text.
abbrev pub item_bytes : ℤ → Text → List ℕ
item_bytes type text = to_unsigned (2 ^ 7) type ∷ be_bytes 2 (length text) ++ text

-- The value of the next token, which is a number, and what is done with it.
abbrev value_then : (ℤ → Exec Assembler (Unit {0})) → Exec Assembler (Unit {0})
value_then finish = do value ← token_value; match_type tok_int; finish value

pattern_bits : (u : ℕ) → u < 2 ^ 16 → to_unsigned half16 (to_signed half16 u) ≡ u
pattern_bits u h = ground arith

-- static_cast<int16_t> of a length, and its bits.
length_bits : (n : ℕ) → to_unsigned half16 (to_signed half16 (n % 2 ^ 16)) ≡ n % 2 ^ 16
length_bits n = pattern_bits (n % 2 ^ 16) (omega arith)

length_bytes : (n : ℕ) → be_bytes 2 (n % 2 ^ 16) ≡ be_bytes 2 n
length_bytes n = ap₂ (λ x y. x ∷ y ∷ []) (omega arith) (omega arith)

put_length-Room :
    (b : Buffer) (n : ℕ)
    → Room b 2
    → put_int16 (to_signed half16 (n % 2 ^ 16)) b ≡ (ok tt, written b (be_bytes 2 n))
put_length-Room b n h =
    put_int16-Room b _ h
    ∙ ap (λ bs. (ok tt, written b bs)) (ap (be_bytes 2) (length_bits n) ∙ length_bytes n)

module _ (last : CompLexer) (c d : Buffer) where
  -- The same bytes in another form.
  pub as_code :
      {A : Type 0} (action : Exec Assembler A) (p : Assembler) (v : A) (ts : List Token)
      (xs ys : List ℕ)
      → Moves last action p v (written (written c xs) ys) d ts
      → Moves last action p v (written c (xs ++ ys)) d ts
  as_code action p v ts xs ys m =
      subst (λ b. Moves last action p v b d ts) (written-append c xs ys) m

  pub as_data :
      {A : Type 0} (action : Exec Assembler A) (p : Assembler) (v : A) (ts : List Token)
      (xs ys : List ℕ)
      → Moves last action p v c (written (written d xs) ys) ts
      → Moves last action p v c (written d (xs ++ ys)) ts
  as_data action p v ts xs ys m =
      subst (λ b. Moves last action p v c b ts) (written-append d xs ys) m

  pub call-Ahead :
      (p : Assembler) (r u : Token) (ts : List Token) (opcode : ℕ)
      → find_routine routines r.type ≡ some opcode
      → Room c 2
      → Ahead last c d p (r ∷ u ∷ ts)
      → Moves last call p tt (written c (op_call ∷ opcode ∷ [])) d (u ∷ ts)
  unfolding call
  call-Ahead p r u ts opcode e h a =
      let one = op_call ∷ [] in
      as_code call p tt (u ∷ ts) one (opcode ∷ []) (
        and_then last (on_code (put op_call)) _ p tt tt (written c one) d _ d (r ∷ u ∷ ts) (u ∷ ts)
          (on_code-Ahead last c d p _ one (put op_call)
            (put-Room c op_call (Room-first c one (opcode ∷ []) h)) a)
          λ q b.
            (let (s, f, b') = consume-Ahead last (written c one) d q r u ts b in
              let (s', g, b'') =
                on_code-Ahead last (written c one) d s (u ∷ ts) (opcode ∷ []) (put opcode)
                  (put-Room (written c one) opcode (Room-rest c one (opcode ∷ []) h)) b' in
              (
                s',
                bind_ok (get_lookahead_type 0) _ q
                    (get_lookahead_type-Ahead last (written c one) d q r (u ∷ ts) b)
                    (ap (λ o. put_routine o q) e ∙ bind_ok consume _ q f g),
                b'',
              )))

  -- An opcode, then the value of the next token, then what is written for it.
  opcode-Ahead :
      (opcode : ℕ) (finish : ℤ → Exec Assembler (Unit {0})) (p : Assembler) (n u : Token)
      (ts : List Token) (v w : ℤ)
      → stoi n.text ≡ ok v
      → n.type ≡ tok_int
      → finish v ≡ on_code (put_int32 w)
      → Room c 5
      → Ahead last c d p (n ∷ u ∷ ts)
      → Moves last
          (on_code (put opcode) >> value_then finish)
          p
          tt
          (written c (opcode ∷ be_bytes 4 (to_unsigned half32 w)))
          d
          (u ∷ ts)
  opcode-Ahead opcode finish p n u ts v w e t f h a =
      let one = opcode ∷ [] in
      let bytes = be_bytes 4 (to_unsigned half32 w) in
      as_code (on_code (put opcode) >> value_then finish) p tt (u ∷ ts) one bytes (
        and_then last (on_code (put opcode)) (λ o. value_then finish) p tt tt (written c one) d
          (written (written c one) bytes) d (n ∷ u ∷ ts) (u ∷ ts)
          (on_code-Ahead last c d p (n ∷ u ∷ ts) one (put opcode)
            (put-Room c opcode (Room-first c one bytes h)) a)
          λ q b.
            (let (s, g, b') = match_type-Ahead last (written c one) d q n u ts tok_int t b in
              let (s', k, b'') =
                on_code-Ahead last (written c one) d s (u ∷ ts) bytes (put_int32 w)
                  (put_int32-Room (written c one) w (Room-rest c one bytes h)) b' in
              (
                s',
                bind_ok token_value (λ v. match_type tok_int >> finish v) q
                    (token_value-Ahead last (written c one) d q n (u ∷ ts) v e b)
                    (bind_ok (match_type tok_int) (λ o. finish v) q g (ap (λ m. m s) f ∙ k)),
                b'',
              )))

  pub push-Ahead :
      (p : Assembler) (n u : Token) (ts : List Token) (v : ℤ)
      → stoi n.text ≡ ok v
      → n.type ≡ tok_int
      → Room c 5
      → Ahead last c d p (n ∷ u ∷ ts)
      → Moves last push p tt (written c (op_push ∷ be_bytes 4 (to_unsigned half32 v))) d (u ∷ ts)
  unfolding push
  push-Ahead p n u ts v e t =
      opcode-Ahead op_push (λ v. on_code (put_int32 v)) p n u ts v v e t refl

  pub pusho-Ahead :
      (offset : List ℕ) (p : Assembler) (n u : Token) (ts : List Token) (i o : ℕ)
      → stoi n.text ≡ ok (pos i)
      → n.type ≡ tok_int
      → get_elem? offset i ≡ some o
      → Room c 5
      → Ahead last c d p (n ∷ u ∷ ts)
      → Moves last
          (pusho offset)
          p
          tt
          (written c (op_pusho ∷ be_bytes 4 (to_unsigned half32 (pos o))))
          d
          (u ∷ ts)
  unfolding pusho
  pusho-Ahead offset p n u ts i o e t f =
      opcode-Ahead op_pusho (λ v. put_offset (offset_at offset v)) p n u ts (pos i) (pos o) e t
        (ap put_offset f)

  -- The bytes of a token's text, behind their number.
  item_text-Ahead :
      (p : Assembler) (s u : Token) (ts : List Token)
      → Room d (length (be_bytes 2 (length s.text) ++ s.text))
      → Ahead last c d p (s ∷ u ∷ ts)
      → Moves last
          (on_data (put_int16 (to_signed half16 (length s.text % 2 ^ 16)))
            >> (on_data (put_varchar s.text) >> consume))
          p
          tt
          c
          (written d (be_bytes 2 (length s.text) ++ s.text))
          (u ∷ ts)
  item_text-Ahead p s u ts h a =
      let bytes = be_bytes 2 (length s.text) in
      let d' = written d bytes in
      let first = on_data (put_int16 (to_signed half16 (length s.text % 2 ^ 16))) in
      let second = on_data (put_varchar s.text) >> consume in
      as_data (first >> second) p tt (u ∷ ts) bytes s.text (
        and_then last first (λ o. second) p tt tt c d' c (written d' s.text) (s ∷ u ∷ ts) (u ∷ ts)
          (on_data-Ahead last c d p (s ∷ u ∷ ts) bytes _
            (put_length-Room d (length s.text) (Room-first d bytes s.text h)) a)
          λ q b.
            and_then last (on_data (put_varchar s.text)) (λ o. consume) q tt tt c
              (written d' s.text) c (written d' s.text) (s ∷ u ∷ ts) (u ∷ ts)
              (on_data-Ahead last c d' q (s ∷ u ∷ ts) s.text _
                (put_varchar-Room d' s.text (Room-rest d bytes s.text h)) b)
              λ r a'. consume-Ahead last c (written d' s.text) r s u ts a')

module _ (last : CompLexer) (c d : Buffer) where
  pub data_item-Ahead :
      (p : Assembler) (t s u : Token) (ts : List Token) (v : ℤ)
      → stoi t.text ≡ ok v
      → Room d (length (item_bytes v s.text))
      → Ahead last c d p (t ∷ s ∷ u ∷ ts)
      → Moves last data_item p tt c (written d (item_bytes v s.text)) (u ∷ ts)
  unfolding data_item
  data_item-Ahead p t s u ts v e h a =
      let one = to_unsigned (2 ^ 7) v ∷ [] in
      let rest = be_bytes 2 (length s.text) ++ s.text in
      let d' = written d one in
      let (q, f, b) =
        on_data-Ahead last c d p (t ∷ s ∷ u ∷ ts) one (put (to_unsigned (2 ^ 7) v))
          (put-Room d _ (Room-first d one rest h)) a in
      let (r, g, b') = consume-Ahead last c d' q t s (u ∷ ts) b in
      let (w, k, b'') = item_text-Ahead last c d' r s u ts (Room-rest d one rest h) b' in
      as_data last c d data_item p tt (u ∷ ts) one rest (
        w,
        bind_ok token_value _ p (token_value-Ahead last c d p t (s ∷ u ∷ ts) v e a) (
            bind_ok (on_data (put (to_unsigned (2 ^ 7) v))) _ p f (
              bind_ok consume _ q g (
                bind_ok (get_lookahead_token 0) _ r
                  (get_lookahead_token-Ahead last c d' r s (u ∷ ts) b') k))),
        b'',
      )
