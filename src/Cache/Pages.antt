-- ===== src/Cache/Pages.antt =====
-- The loops that move a block by pages.
use sql_relational_database.Common.{
  ℕ, zero, suc, ◌+◌, ◌-◌, ◌*◌, ◌≤◌, ◌<◌, ◌≡◌, refl, sym, ap, ◌∙◌, Option, some, arith, ltb, spliced,
  fun_ext,
}
use sql_relational_database.Cache.{true, false, Outcome, complete, pages}

module _ {A : Type 0} (to start : ℕ) (g f : ℕ → A) where
  spliced-none : spliced to start 0 g f ≡ f
  spliced-none = fun_ext λ j. ground arith

  spliced-more :
      (k rest : ℕ)
      → spliced (to + k) (start + k) rest g (spliced to start k g f)
        ≡ spliced to start (k + rest) g f
  spliced-more k rest = fun_ext λ j. ground arith

-- Where each call moves a page, and the block is so many pages, the loop ends after as many rounds,
-- and has moved the bytes of the block.
pages_lem :
    {A : Type 0} (io : ℕ → Option ℕ) (page size offset to start : ℕ) (g f : ℕ → A) (c fuel n : ℕ)
    → 0 < page
    → ((p : ℕ) → io p ≡ some page)
    → n + c * page ≡ size
    → c < fuel
    → pages io size offset (λ n k f. spliced (to + n) (start + n) k g f) fuel n f
      ≡ (complete, spliced (to + n) (start + n) (size - n) g f)
unfolding pages
pages_lem io page size offset to start g f c zero n pos whole e h = absurd (omega arith)
pages_lem io page size offset to start g f zero (suc fuel) n pos whole e h =
    let ended : ltb n size ≡ false = ground arith in
    let none_left : size - n ≡ 0 = omega arith in
    rw (ended, none_left) (ap (λ x. (complete, x)) (sym (spliced-none (to + n) (start + n) g f)))
pages_lem io page size offset to start g f (suc c) (suc fuel) n pos whole e h =
    let product : suc c * page ≡ c * page + page = omega arith in
    let more : ltb n size ≡ true = ground arith in
    rw (more, whole (offset + n))
      (pages_lem io page size offset to start g (spliced (to + n) (start + n) page g f) c fuel
          (n + page) pos whole (omega arith) (omega arith)
        ∙ ap (λ x. (complete, x))
            (joined (to + n) (start + n) (to + (n + page)) (start + (n + page)) (size - (n + page))
              (size - n) page (omega arith) (omega arith) (omega arith)))
  where
    joined :
        (a b a' b' rest all k : ℕ)
        → a' ≡ a + k
        → b' ≡ b + k
        → all ≡ k + rest
        → spliced a' b' rest g (spliced a b k g f) ≡ spliced a b all g f
    joined a b a' b' rest all k p q r = rw (p, q, r) (spliced-more a b g f k rest)

times_bound : (c page : ℕ) → 0 < page → c ≤ c * page
times_bound zero page pos = omega arith
times_bound (suc c) page pos =
    let product : suc c * page ≡ c * page + page = omega arith in
    omega (arith, times_bound c page pos)

module _ (io : ℕ → Option ℕ) (page count size offset : ℕ) (pos : 0 < page)
    (whole : (p : ℕ) → io p ≡ some page) (e : count * page ≡ size) where
  pub written_pages :
      (b d : ℕ → ℕ)
      → pages io size offset (λ n k d. spliced (offset + n) n k b d) (suc size) 0 d
        ≡ (complete, spliced offset 0 size b d)
  written_pages b d =
      ap (λ move. pages io size offset move (suc size) 0 d)
        (fun_ext λ n. fun_ext λ k. fun_ext λ d. ap (λ m. spliced (offset + n) m k b d) (the_sum n))
      ∙ pages_lem io page size offset offset 0 b d count (suc size) 0 pos whole (omega arith)
          (omega (arith, times_bound count page pos))
      ∙ ends (offset + 0) (0 + 0) (size - 0) (omega arith) (omega arith) (omega arith)
    where
      the_sum : (n : ℕ) → n ≡ 0 + n
      the_sum n = omega arith

      ends :
          (o z s : ℕ)
          → o ≡ offset
          → z ≡ 0
          → s ≡ size
          → ◌≡◌ {A = Outcome × (ℕ → ℕ)}
              (complete, spliced o z s b d)
              (complete, spliced offset 0 size b d)
      ends o z s p q r = rw (p, q, r) refl

  pub read_pages :
      (disk b : ℕ → ℕ)
      → pages io size offset (λ n k b. spliced n (offset + n) k disk b) (suc size) 0 b
        ≡ (complete, spliced 0 offset size disk b)
  read_pages disk b =
      ap (λ move. pages io size offset move (suc size) 0 b)
        (fun_ext
          λ n. fun_ext λ k. fun_ext λ b. ap (λ m. spliced m (offset + n) k disk b) (the_sum n))
      ∙ pages_lem io page size offset 0 offset disk b count (suc size) 0 pos whole (omega arith)
          (omega (arith, times_bound count page pos))
      ∙ ends (0 + 0) (offset + 0) (size - 0) (omega arith) (omega arith) (omega arith)
    where
      the_sum : (n : ℕ) → n ≡ 0 + n
      the_sum n = omega arith

      ends :
          (z o s : ℕ)
          → z ≡ 0
          → o ≡ offset
          → s ≡ size
          → ◌≡◌ {A = Outcome × (ℕ → ℕ)}
              (complete, spliced z o s disk b)
              (complete, spliced 0 offset size disk b)
      ends z o s p q r = rw (p, q, r) refl
