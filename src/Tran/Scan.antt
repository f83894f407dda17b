-- ===== src/Tran/Scan.antt =====
-- What the lexer has still to read, as a list, and its loops over it.
use sql_relational_database.Common.{
  ℕ, zero, suc, ◌+◌, ◌<◌, ◌≤◌, ◌≡◌, refl, sym, ap, ◌∙◌, Bool, true, false, arith, [], ◌∷◌, ◌++◌,
  append_assoc, length, length-append, All, lt→ltb, le→ltb,
}
use sql_relational_database.Vm.Item.{Text}
use sql_relational_database.Tran.Lexer.{Lexer, eoi, char_at, consume, take_while, peek, rounds_of}

-- The lexer stands before the characters `cs`.
abbrev pub Reads : Lexer → Text → Type 0
Reads lx [] = (lx.ch ≡ eoi) × (length lx.input ≤ lx.index + 1)
Reads lx (c ∷ cs) =
    (passed : Text) × (lx.ch ≡ c) × (lx.input ≡ passed ++ (c ∷ cs)) × (length passed ≡ lx.index)

char_at-append :
    (passed : Text) (c : ℕ) (cs : Text) → char_at (passed ++ (c ∷ cs)) (length passed) ≡ c
char_at-append [] c cs = refl
char_at-append (d ∷ passed) c cs = char_at-append passed c cs

-- The character after the first.
abbrev pub second : Text → ℕ
second [] = 0
second (c ∷ cs) = c

char_at-next :
    (passed : Text) (c : ℕ) (cs : Text)
    → char_at (passed ++ (c ∷ cs)) (length passed + 1) ≡ second cs
char_at-next [] c [] = refl
char_at-next [] c (d ∷ cs) = refl
char_at-next (b ∷ passed) c cs =
    ap (char_at (b ∷ passed ++ (c ∷ cs))) {x = suc (length passed) + 1}
      {y = suc (length passed + 1)} (omega arith)
    ∙ char_at-next passed c cs

length-input :
    (lx : Lexer) (c : ℕ) (cs : Text)
    → Reads lx (c ∷ cs)
    → length lx.input ≡ lx.index + suc (length cs)
length-input lx c cs (passed, h, e, l) = omega (arith, ap length e, length-append passed (c ∷ cs))

char_at-input :
    (lx : Lexer) (c : ℕ) (cs : Text)
    → Reads lx (c ∷ cs)
    → char_at lx.input (lx.index + 1) ≡ second cs
char_at-input lx c cs (passed, h, e, l) = rw (e, ← l) (char_at-next passed c cs)

pub consume-Reads : (lx : Lexer) (c : ℕ) (cs : Text) → Reads lx (c ∷ cs) → Reads (consume lx) cs
unfolding consume
consume-Reads lx c [] r =
    rw (le→ltb (lx.index + 1) (length lx.input) (omega (arith, length-input lx c [] r)))
      (refl, omega (arith, length-input lx c [] r))
consume-Reads lx c (d ∷ cs) (passed, h, e, l) =
    rw
      (lt→ltb (lx.index + 1) (length lx.input)
        (omega (arith, length-input lx c (d ∷ cs) (passed, h, e, l))))
      (
        passed ++ (c ∷ []),
        char_at-input lx c (d ∷ cs) (passed, h, e, l),
        e ∙ sym (append_assoc passed (c ∷ []) (d ∷ cs)),
        omega (arith, length-append passed (c ∷ [])),
      )

pub peek-Reads : (lx : Lexer) (c : ℕ) (cs : Text) → Reads lx (c ∷ cs) → peek lx ≡ second cs
unfolding peek
peek-Reads lx c cs r = ground (arith, length-input lx c cs r, char_at-input lx c cs r)

pub rounds-Reads : (lx : Lexer) (cs : Text) → Reads lx cs → length cs < rounds_of lx
rounds-Reads lx [] r = omega arith
rounds-Reads lx (c ∷ cs) (passed, h, e, l) =
    omega (arith, ap length e, length-append passed (c ∷ cs))

-- The lexer at the end stays there.
pub consume-end : (lx : Lexer) → Reads lx [] → Reads (consume lx) []
unfolding consume
consume-end lx (h, e) = rw (le→ltb (lx.index + 1) (length lx.input) (omega arith)) (refl, e)

pub ch-Reads : (lx : Lexer) (c : ℕ) (cs : Text) → Reads lx (c ∷ cs) → lx.ch ≡ c
ch-Reads lx c cs (passed, h, e, l) = h

take_while-stop :
    (fuel : ℕ) (test : ℕ → Bool) (lx : Lexer)
    → test lx.ch ≡ false
    → take_while (suc fuel) test lx ≡ ([], lx)
unfolding take_while
take_while-stop fuel test lx e = rw (e, take_while) refl

take_while-step :
    (fuel : ℕ) (test : ℕ → Bool) (lx : Lexer) (xs : Text) (after : Lexer)
    → test lx.ch ≡ true
    → take_while fuel test (consume lx) ≡ (xs, after)
    → take_while (suc fuel) test lx ≡ (lx.ch ∷ xs, after)
unfolding take_while
take_while-step fuel test lx xs after e h = rw (e, take_while) (rw h refl)

-- A loop over characters stops at the first one that fails its test.
pub take_while-Reads :
    (fuel : ℕ) (test : ℕ → Bool) (lx : Lexer) (xs : Text) (c : ℕ) (cs : Text)
    → length xs < fuel
    → All (λ x. test x ≡ true) xs
    → test c ≡ false
    → Reads lx (xs ++ (c ∷ cs))
    → (after : Lexer) × (take_while fuel test lx ≡ (xs, after)) × Reads after (c ∷ cs)
take_while-Reads zero test lx xs c cs f t n r = absurd (omega arith)
take_while-Reads (suc fuel) test lx [] c cs f t n r =
    (lx, take_while-stop fuel test lx (ap test (ch-Reads lx c cs r) ∙ n), r)
take_while-Reads (suc fuel) test lx (x ∷ xs) c cs f (tx, t) n r =
    let h = ch-Reads lx x (xs ++ (c ∷ cs)) r in
    let (after, e, r') =
      take_while-Reads fuel test (consume lx) xs c cs (omega arith) t n
        (consume-Reads lx x (xs ++ (c ∷ cs)) r) in
    (
      after,
      take_while-step fuel test lx xs after (ap test h ∙ tx) e ∙ ap (λ k. (k ∷ xs, after)) h,
      r',
    )

pub rounds-append :
    (lx : Lexer) (xs : Text) (c : ℕ) (cs : Text)
    → Reads lx (xs ++ (c ∷ cs))
    → length xs < rounds_of lx
rounds-append lx xs c cs r =
    omega (arith, rounds-Reads lx (xs ++ (c ∷ cs)) r, length-append xs (c ∷ cs))

-- The same where one character has been consumed.
pub rounds-next :
    (lx : Lexer) (b : ℕ) (xs : Text) (c : ℕ) (cs : Text)
    → Reads lx (b ∷ xs ++ (c ∷ cs))
    → length xs < rounds_of lx
rounds-next lx b xs c cs r = omega (arith, rounds-append lx (b ∷ xs) c cs r)

-- One character that passes the test, at the end of the text.
pub take_while-last :
    (fuel : ℕ) (test : ℕ → Bool) (lx : Lexer) (x : ℕ)
    → test x ≡ true
    → test eoi ≡ false
    → Reads lx (x ∷ [])
    → take_while (suc (suc fuel)) test lx ≡ (x ∷ [], consume lx)
take_while-last fuel test lx x t n r =
    take_while-step (suc fuel) test lx [] (consume lx) (ap test (ch-Reads lx x [] r) ∙ t)
      (take_while-stop fuel test (consume lx) (ap test (consume-Reads lx x [] r).0 ∙ n))
    ∙ ap (λ k. (k ∷ [], consume lx)) (ch-Reads lx x [] r)
