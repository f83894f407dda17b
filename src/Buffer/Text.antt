-- ===== src/Buffer/Text.antt =====
-- get_varchar and put_varchar against a description of the storage as a whole.
use native.Mathlib.Nat.{add-zero}
use sql_relational_database.Common.{
  ℕ, zero, suc, ◌+◌, ◌≤◌, ◌<◌, ◌≡◌, refl, sym, ap, ap₂, ◌∙◌, arith, List, [], ◌∷◌, ◌++◌, ◌⊎◌,
  length,
}
use sql_relational_database.Common.Exec.{ok, err, ◌>>=◌, remaining_error}
use sql_relational_database.Buffer.{Buffer, update, get_varchar, put_varchar}
use sql_relational_database.Buffer.Access.{get_below, put_below, put_at_bound}

-- The `n` bytes from position `i` on.
abbrev pub slice : (ℕ → ℕ) → ℕ → ℕ → List ℕ
slice f i zero = []
slice f i (suc n) = f i ∷ slice f (i + 1) n

-- The storage with `xs` written from position `i` on.
abbrev pub overwrite : (ℕ → ℕ) → ℕ → List ℕ → ℕ → ℕ
overwrite f i [] = f
overwrite f i (x ∷ xs) = overwrite (update f i x) (i + 1) xs

abbrev pub moved : Buffer → ℕ → Buffer
moved b n = record b { index = n }

abbrev pub written : Buffer → List ℕ → Buffer
written b xs = record b { cells = overwrite b.cells b.index xs; index = b.index + length xs }

pub overwrite_outside :
    (f : ℕ → ℕ) (i : ℕ) (xs : List ℕ) (j : ℕ)
    → (j < i) ⊎ (i + length xs ≤ j)
    → overwrite f i xs j ≡ f j
overwrite_outside f i [] j h = refl
overwrite_outside f i (x ∷ xs) j h =
    ground (arith, overwrite_outside (update f i x) (i + 1) xs j (omega arith))

pub slice-overwrite_self :
    (f : ℕ → ℕ) (i : ℕ) (xs : List ℕ) → slice (overwrite f i xs) i (length xs) ≡ xs
slice-overwrite_self f i [] = refl
slice-overwrite_self f i (x ∷ xs) =
    ap₂ ◌∷◌ (overwrite_outside (update f i x) (i + 1) xs i (omega arith) ∙ (ground arith))
      (slice-overwrite_self (update f i x) (i + 1) xs)

pub get_varchar_within :
    (n : ℕ) (b : Buffer)
    → b.index + n ≤ b.bound
    → b.bound ≤ b.size
    → get_varchar n b ≡ (ok (slice b.cells b.index n), moved b (b.index + n))
unfolding get_varchar ◌>>=◌
get_varchar_within zero b h s = ap (λ (i : ℕ). (ok [], moved b i)) (sym (add-zero b.index))
get_varchar_within (suc n) b h s =
    rw (get_below b (omega arith) s, get_varchar_within n (moved b (b.index + 1)) (omega arith) s)
      (ground arith)

pub put_varchar_within :
    (xs : List ℕ) (b : Buffer)
    → b.index + length xs ≤ b.bound
    → b.bound ≤ b.size
    → put_varchar xs b ≡ (ok tt, written b xs)
unfolding put_varchar ◌>>=◌
put_varchar_within [] b h s = (ground arith)
put_varchar_within (x ∷ xs) b h s =
    rw
      (
        put_below b x (omega arith) s,
        put_varchar_within xs (record b { cells = update b.cells b.index x; index = b.index + 1 })
            (omega arith) s,
      )
      (ground arith)

-- In a buffer whose bound lies within its size, putting a text that does not fit writes the bytes
-- up to the bound and then throws.
pub put_varchar_beyond :
    (xs ys : List ℕ) (y : ℕ) (b : Buffer)
    → b.index + length xs ≡ b.bound
    → b.bound ≤ b.size
    → put_varchar (xs ++ y ∷ ys) b ≡ (err remaining_error, written b xs)
unfolding put_varchar ◌>>=◌
put_varchar_beyond [] ys y b h s = rw (put_at_bound b y (omega arith)) (ground arith)
put_varchar_beyond (x ∷ xs) ys y b h s =
    rw
      (
        put_below b x (omega arith) s,
        put_varchar_beyond xs ys y
            (record b { cells = update b.cells b.index x; index = b.index + 1 }) (omega arith) s,
      )
      (ground arith)
