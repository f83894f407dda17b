-- ===== src/Buffer/Bytes.antt =====
-- The byte composition and decomposition of class bits, as base-256 digits.
use sql_relational_database.Common.{
  ℕ, zero, suc, ◌+◌, ◌*◌, ◌/◌, ◌%◌, ◌^◌, ◌<◌, ◌≡◌, arith, List, [], ◌∷◌,
}
use sql_relational_database.Common.Bits.{bit_and-byte, bit_and-shifted, bit_or-joined}
use sql_relational_database.Buffer.Words.{to_uint64, shift_right, shift_left, to_uint16, to_uint32}

-- The lowest `n` bytes of a number, the most significant first.
abbrev pub be_bytes : ℕ → ℕ → List ℕ
be_bytes zero u = []
be_bytes (suc n) u = u / 256 ^ n % 256 ∷ be_bytes n u

pub shift_right-byte : (s u : ℕ) → shift_right s u (255 * 2 ^ s) ≡ u / 2 ^ s % 256
shift_right-byte s u = rw (bit_and-shifted, bit_and-byte) (omega arith)

pub to_uint16-sum : (b0 b1 : ℕ) → b0 < 256 → b1 < 256 → to_uint16 b0 b1 ≡ b1 * 2 ^ 8 + b0
unfolding to_uint16
to_uint16-sum b0 b1 h0 h1 =
    let e1 : shift_left (2 ^ 16) 8 b1 ≡ b1 * 2 ^ 8 = omega arith in
    let e0 : shift_left (2 ^ 16) 0 b0 ≡ b0 = omega arith in rw (e1, e0) (bit_or-joined 8 b1 b0 h0)

pub to_uint32-sum :
    (b0 b1 b2 b3 : ℕ)
    → b0 < 256
    → b1 < 256
    → b2 < 256
    → b3 < 256
    → to_uint32 b0 b1 b2 b3 ≡ b3 * 2 ^ 24 + b2 * 2 ^ 16 + b1 * 2 ^ 8 + b0
unfolding to_uint32
to_uint32-sum b0 b1 b2 b3 h0 h1 h2 h3 =
    let e3 : shift_left (2 ^ 32) 24 b3 ≡ b3 * 2 ^ 24 = omega arith in
    let e2 : shift_left (2 ^ 32) 16 b2 ≡ b2 * 2 ^ 16 = omega arith in
    let e1 : shift_left (2 ^ 32) 8 b1 ≡ b1 * 2 ^ 8 = omega arith in
    let e0 : shift_left (2 ^ 32) 0 b0 ≡ b0 = omega arith in
    let j3 : b3 * 2 ^ 24 + b2 * 2 ^ 16 ≡ (b3 * 2 ^ 8 + b2) * 2 ^ 16 = omega arith in
    let j2 : (b3 * 2 ^ 8 + b2) * 2 ^ 16 + b1 * 2 ^ 8 ≡ ((b3 * 2 ^ 8 + b2) * 2 ^ 8 + b1) * 2 ^ 8 =
      omega arith in
    rw
      (
        e3,
        e2,
        e1,
        e0,
        bit_or-joined 24 b3 (b2 * 2 ^ 16) (omega arith),
        j3,
        bit_or-joined 16 (b3 * 2 ^ 8 + b2) (b1 * 2 ^ 8) (omega arith),
        j2,
        bit_or-joined 8 ((b3 * 2 ^ 8 + b2) * 2 ^ 8 + b1) b0 h0,
      )
      (omega arith)

pub to_uint32-be_bytes :
    (u : ℕ)
    → u < 2 ^ 32
    → to_uint32 (u % 256) (u / 2 ^ 8 % 256) (u / 2 ^ 16 % 256) (u / 2 ^ 24 % 256) ≡ u
to_uint32-be_bytes u h = omega (
  arith,
  to_uint32-sum (u % 256) (u / 2 ^ 8 % 256) (u / 2 ^ 16 % 256) (u / 2 ^ 24 % 256) (omega arith)
      (omega arith) (omega arith) (omega arith),
)

pub to_uint16-be_bytes : (u : ℕ) → u < 2 ^ 16 → to_uint16 (u % 256) (u / 2 ^ 8 % 256) ≡ u
to_uint16-be_bytes u h =
    omega (arith, to_uint16-sum (u % 256) (u / 2 ^ 8 % 256) (omega arith) (omega arith))

pub to_uint64-sum :
    (b0 b1 b2 b3 b4 b5 b6 b7 : ℕ)
    → b0 < 256
    → b1 < 256
    → b2 < 256
    → b3 < 256
    → b4 < 256
    → b5 < 256
    → b6 < 256
    → b7 < 256
    → to_uint64 b0 b1 b2 b3 b4 b5 b6 b7
      ≡ b7 * 2 ^ 56
        + b6 * 2 ^ 48
        + b5 * 2 ^ 40
        + b4 * 2 ^ 32
        + b3 * 2 ^ 24
        + b2 * 2 ^ 16
        + b1 * 2 ^ 8
        + b0
unfolding to_uint64
to_uint64-sum b0 b1 b2 b3 b4 b5 b6 b7 h0 h1 h2 h3 h4 h5 h6 h7 =
    let e7 : shift_left (2 ^ 64) 56 b7 ≡ b7 * 2 ^ 56 = omega arith in
    let e6 : shift_left (2 ^ 64) 48 b6 ≡ b6 * 2 ^ 48 = omega arith in
    let e5 : shift_left (2 ^ 64) 40 b5 ≡ b5 * 2 ^ 40 = omega arith in
    let e4 : shift_left (2 ^ 64) 32 b4 ≡ b4 * 2 ^ 32 = omega arith in
    let e3 : shift_left (2 ^ 64) 24 b3 ≡ b3 * 2 ^ 24 = omega arith in
    let e2 : shift_left (2 ^ 64) 16 b2 ≡ b2 * 2 ^ 16 = omega arith in
    let e1 : shift_left (2 ^ 64) 8 b1 ≡ b1 * 2 ^ 8 = omega arith in
    let e0 : shift_left (2 ^ 64) 0 b0 ≡ b0 = omega arith in
    let q7 : ℕ = b7 in
    let q6 : ℕ = q7 * 2 ^ 8 + b6 in
    let j6 : q7 * 2 ^ 56 + b6 * 2 ^ 48 ≡ q6 * 2 ^ 48 = omega arith in
    let q5 : ℕ = q6 * 2 ^ 8 + b5 in
    let j5 : q6 * 2 ^ 48 + b5 * 2 ^ 40 ≡ q5 * 2 ^ 40 = omega arith in
    let q4 : ℕ = q5 * 2 ^ 8 + b4 in
    let j4 : q5 * 2 ^ 40 + b4 * 2 ^ 32 ≡ q4 * 2 ^ 32 = omega arith in
    let q3 : ℕ = q4 * 2 ^ 8 + b3 in
    let j3 : q4 * 2 ^ 32 + b3 * 2 ^ 24 ≡ q3 * 2 ^ 24 = omega arith in
    let q2 : ℕ = q3 * 2 ^ 8 + b2 in
    let j2 : q3 * 2 ^ 24 + b2 * 2 ^ 16 ≡ q2 * 2 ^ 16 = omega arith in
    let q1 : ℕ = q2 * 2 ^ 8 + b1 in
    let j1 : q2 * 2 ^ 16 + b1 * 2 ^ 8 ≡ q1 * 2 ^ 8 = omega arith in
    rw
      (
        e7,
        e6,
        e5,
        e4,
        e3,
        e2,
        e1,
        e0,
        bit_or-joined 56 q7 (b6 * 2 ^ 48) (omega arith),
        j6,
        bit_or-joined 48 q6 (b5 * 2 ^ 40) (omega arith),
        j5,
        bit_or-joined 40 q5 (b4 * 2 ^ 32) (omega arith),
        j4,
        bit_or-joined 32 q4 (b3 * 2 ^ 24) (omega arith),
        j3,
        bit_or-joined 24 q3 (b2 * 2 ^ 16) (omega arith),
        j2,
        bit_or-joined 16 q2 (b1 * 2 ^ 8) (omega arith),
        j1,
        bit_or-joined 8 q1 (b0) (omega arith),
      )
      (omega arith)

pub to_uint64-be_bytes :
    (u : ℕ)
    → u < 2 ^ 64
    → to_uint64
        (u % 256)
        (u / 2 ^ 8 % 256)
        (u / 2 ^ 16 % 256)
        (u / 2 ^ 24 % 256)
        (u / 2 ^ 32 % 256)
        (u / 2 ^ 40 % 256)
        (u / 2 ^ 48 % 256)
        (u / 2 ^ 56 % 256)
      ≡ u
to_uint64-be_bytes u h = omega (
  arith,
  to_uint64-sum (u % 256) (u / 2 ^ 8 % 256) (u / 2 ^ 16 % 256) (u / 2 ^ 24 % 256) (u / 2 ^ 32 % 256)
      (u / 2 ^ 40 % 256) (u / 2 ^ 48 % 256) (u / 2 ^ 56 % 256) (omega arith) (omega arith)
      (omega arith) (omega arith) (omega arith) (omega arith) (omega arith) (omega arith),
)
