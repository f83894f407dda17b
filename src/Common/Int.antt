-- ===== src/Common/Int.antt =====
-- Signed integers over the native numbers, and the two's complement patterns of a given width.
use native.Mathlib.Nat.{mod-eq_of_lt}
use sql_relational_database.Common.{
  ℕ, ◌-◌, ◌*◌, ◌%◌, ◌<◌, ◌≡◌, arith, ltb, ◌==◌, ◌+◌, Bool, true, false, if◌then◌else◌,
}

-- `negsuc n` is -(n + 1).
pub data ℤ : Type 0 where
  pos : ℕ → ℤ
  negsuc : ℕ → ℤ

-- The conversion of a signed value to the unsigned type of `2 * half` values.
abbrev pub to_unsigned : ℕ → ℤ → ℕ
to_unsigned half (pos n) = n % (2 * half)
to_unsigned half (negsuc n) = 2 * half - 1 - n % (2 * half)

-- The signed value that a bit pattern below `2 * half` stands for.
abbrev pub to_signed : ℕ → ℕ → ℤ
to_signed half u = if ltb u half then pos u else negsuc (2 * half - 1 - u)

-- The values of the signed type: -half up to half - 1.
abbrev pub Fits : ℕ → ℤ → Type 0
Fits half (pos n) = n < half
Fits half (negsuc n) = n < half

-- A value that fits its type comes back from its bit pattern.
pub to_signed-to_unsigned :
    (half : ℕ) (v : ℤ) → Fits half v → to_signed half (to_unsigned half v) ≡ v
to_signed-to_unsigned half (pos n) h =
    ground (arith, mod-eq_of_lt {n = n} {m = 2 * half} (omega arith))
to_signed-to_unsigned half (negsuc n) h =
    ground (arith, mod-eq_of_lt {n = n} {m = 2 * half} (omega arith))

pub to_unsigned-lt : (half : ℕ) (v : ℤ) → 0 < half → to_unsigned half v < 2 * half
to_unsigned-lt half (pos n) h = omega arith
to_unsigned-lt half (negsuc n) h = omega arith

abbrev pub fits : ℕ → ℤ → Bool
fits half (pos n) = ltb n half
fits half (negsuc n) = ltb n half

-- a - b for natural a and b.
abbrev pub difference : ℕ → ℕ → ℤ
difference a b = if ltb a b then negsuc (b - a - 1) else pos (a - b)

infixl 60 ◌+ℤ◌ ◌-ℤ◌
infixl 70 ◌*ℤ◌
abbrev pub ◌+ℤ◌ : ℤ → ℤ → ℤ
pos a +ℤ pos b = pos (a + b)
pos a +ℤ negsuc b = difference a (b + 1)
negsuc a +ℤ pos b = difference b (a + 1)
negsuc a +ℤ negsuc b = negsuc (a + b + 1)

infixl 80 -ℤ◌
abbrev pub -ℤ◌ : ℤ → ℤ
-ℤ (pos n) = difference 0 n
-ℤ (negsuc n) = pos (n + 1)

abbrev pub ◌-ℤ◌ : ℤ → ℤ → ℤ
a -ℤ b = a +ℤ (-ℤ b)

abbrev pub ◌*ℤ◌ : ℤ → ℤ → ℤ
pos a *ℤ pos b = pos (a * b)
pos a *ℤ negsuc b = difference 0 (a * (b + 1))
negsuc a *ℤ pos b = difference 0 ((a + 1) * b)
negsuc a *ℤ negsuc b = pos ((a + 1) * (b + 1))

abbrev pub lt_int : ℤ → ℤ → Bool
lt_int (pos a) (pos b) = ltb a b
lt_int (pos a) (negsuc b) = false
lt_int (negsuc a) (pos b) = true
lt_int (negsuc a) (negsuc b) = ltb b a

abbrev pub eq_int : ℤ → ℤ → Bool
eq_int (pos a) (pos b) = a == b
eq_int (pos a) (negsuc b) = false
eq_int (negsuc a) (pos b) = false
eq_int (negsuc a) (negsuc b) = a == b
