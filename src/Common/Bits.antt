-- ===== src/Common/Bits.antt =====
-- The bit operations at variables: a byte cut out by a mask and a shift, and bytes joined by `|`.
use Prim.Native.Nat.{min, max, bit_and, bit_or, digits, bitwise, bit_and-bitwise, bit_or-bitwise}
use native.Mathlib.Nat.{le_refl, pow-suc, pow-succ', div-div-eq-div-mul}
use mathlib.Core.Path.{ap}
use sql_relational_database.Common.{
  ℕ, zero, suc, ◌+◌, ◌*◌, ◌/◌, ◌%◌, ◌^◌, ◌≤◌, ◌<◌, ◌≡◌, refl, arith,
}

-- The recursion on binary digits, with more fuel than digits, does not depend on the fuel.
module _ (z : ℕ → ℕ) (join : ℕ → ℕ → ℕ) where
  enough_digits :
      (fuel more x y : ℕ) → x ≤ fuel → x ≤ more → digits z join fuel x y ≡ digits z join more x y
  enough_digits zero zero x y p q = refl
  enough_digits zero (suc more) zero y p q = refl
  enough_digits zero (suc more) (suc x) y p q = absurd (omega arith)
  enough_digits (suc fuel) zero zero y p q = refl
  enough_digits (suc fuel) zero (suc x) y p q = absurd (omega arith)
  enough_digits (suc fuel) (suc more) zero y p q = refl
  enough_digits (suc fuel) (suc more) (suc x) y p q =
      rw (enough_digits fuel more (suc x / 2) (y / 2) (omega arith) (omega arith))

  lowest_digit :
      (x y : ℕ)
      → bitwise z join (suc x) y ≡ bitwise z join (suc x / 2) (y / 2) * 2 + join (suc x % 2) (y % 2)
  lowest_digit x y =
      let half = suc x / 2 in
      omega (arith, enough_digits x half half (y / 2) (omega arith) (le_refl half))

pub bit_or-halves : (x y : ℕ) → bit_or x y ≡ bit_or (x / 2) (y / 2) * 2 + max (x % 2) (y % 2)
bit_or-halves zero y = simp bit_or-bitwise (omega arith)
bit_or-halves (suc x) y = simp bit_or-bitwise (lowest_digit (λ z. z) max x y)

pub bit_and-halves : (x y : ℕ) → bit_and x y ≡ bit_and (x / 2) (y / 2) * 2 + min (x % 2) (y % 2)
bit_and-halves zero y = simp bit_and-bitwise (omega arith)
bit_and-halves (suc x) y = simp bit_and-bitwise (lowest_digit (λ z. 0) min x y)

-- Induction that halves the number, on a bound.
bit_or-zero_below : (n a : ℕ) → a ≤ n → bit_or a 0 ≡ a
bit_or-zero_below n zero h = refl
bit_or-zero_below zero (suc a) h = absurd (omega arith)
bit_or-zero_below (suc n) (suc a) h =
    omega (arith, bit_or-halves (suc a) 0, bit_or-zero_below n (suc a / 2) (omega arith))

pub bit_or-zero : (a : ℕ) → bit_or a 0 ≡ a
bit_or-zero a = bit_or-zero_below a a (le_refl a)

bit_and-zero_below : (n a : ℕ) → a ≤ n → bit_and a 0 ≡ 0
bit_and-zero_below n zero h = refl
bit_and-zero_below zero (suc a) h = absurd (omega arith)
bit_and-zero_below (suc n) (suc a) h =
    omega (arith, bit_and-halves (suc a) 0, bit_and-zero_below n (suc a / 2) (omega arith))

bit_and-zero : (a : ℕ) → bit_and a 0 ≡ 0
bit_and-zero a = bit_and-zero_below a a (le_refl a)

bit_and-one : (a : ℕ) → bit_and a 1 ≡ a % 2
bit_and-one a = omega (arith, bit_and-halves a 1, bit_and-zero (a / 2))

bit_and-seven : (a : ℕ) → bit_and a 7 ≡ a % 8
bit_and-seven a =
    omega (arith, bit_and-halves a 7, bit_and-halves (a / 2) 3, bit_and-one (a / 2 / 2))

bit_and-mask_of_six : (a : ℕ) → bit_and a 63 ≡ a % 64
bit_and-mask_of_six a = omega (
  arith,
  bit_and-halves a 63,
  bit_and-halves (a / 2) 31,
  bit_and-halves (a / 2 / 2) 15,
  bit_and-seven (a / 2 / 2 / 2),
)

-- `x & 0xFF` is the lowest byte.
pub bit_and-byte : (a : ℕ) → bit_and a 255 ≡ a % 256
bit_and-byte a =
    omega (arith, bit_and-halves a 255, bit_and-halves (a / 2) 127, bit_and-mask_of_six (a / 2 / 2))

-- Masking by an even number, then halving, masks the half.
bit_and-double : (a m : ℕ) → bit_and a (m * 2) / 2 ≡ bit_and (a / 2) m
bit_and-double a m =
    let e : m * 2 / 2 ≡ m = omega arith in
    omega (arith, bit_and-halves a (m * 2), ap (λ (t : ℕ). bit_and (a / 2) t) e)

double-pow : (q k : ℕ) → q * 2 ^ suc k ≡ q * 2 ^ k * 2
double-pow q k = omega (arith, ap (λ (t : ℕ). q * t) (pow-suc 2 k))

div-pow-suc : (a k : ℕ) → a / 2 ^ suc k ≡ a / 2 / 2 ^ k
div-pow-suc a k = rw (div-div-eq-div-mul, pow-succ')

-- Masking by a field that stands `k` bits up, then shifting it down, masks the shifted number.
pub bit_and-shifted : (k a m : ℕ) → bit_and a (m * 2 ^ k) / 2 ^ k ≡ bit_and (a / 2 ^ k) m
bit_and-shifted zero a m = ground arith
bit_and-shifted (suc k) a m =
    rw (double-pow m k, div-pow-suc, div-pow-suc, bit_and-double) (bit_and-shifted k (a / 2) m)

-- `(q << k) | r` is a sum when `r` fits `k` bits.
pub bit_or-joined : (k q r : ℕ) → r < 2 ^ k → bit_or (q * 2 ^ k) r ≡ q * 2 ^ k + r
bit_or-joined zero q r fits = ground (arith, bit_or-zero q)
bit_or-joined (suc k) q r fits = ground (
  arith,
  bit_or-halves (q * 2 ^ suc k) r,
  double-pow q k,
  pow-suc 2 k,
  bit_or-joined k q (r / 2) (omega (arith, pow-suc 2 k)),
)
