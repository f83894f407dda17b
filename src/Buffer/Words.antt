-- ===== src/Buffer/Words.antt =====
-- buffer/buffer.h, buffer/buffer.cpp: class bits and the multi-byte accesses of class buffer, as
-- they are compiled where BYTE_ORDER is LITTLE_ENDIAN. An unsigned word is a number below its
-- modulus, a signed one an integer; a float or double is its bit pattern, which is all that
-- `mutate` keeps of it. C++ leaves the order of the `get` calls in an argument list open: here
-- they run from left to right.
use sql_relational_database.Common.{ℕ, ◌+◌, ◌*◌, ◌/◌, ◌%◌, ◌^◌, bit_and, bit_or}
use sql_relational_database.Common.Int.{ℤ, pos, to_unsigned, to_signed}
use sql_relational_database.Common.Exec.{Exec, pure, gets, ◌>>=◌, ◌>>◌}
use sql_relational_database.Buffer.{Buffer, set_index, get_at, put}

-- byte((value & mask) >> SHIFT), where the mask is 0xFF moved up by the shift.
abbrev pub shift_right : ℕ → ℕ → ℕ → ℕ
shift_right shift value mask = bit_and value mask / 2 ^ shift % 256

-- T x = value; x <<= SHIFT, for a T of the given modulus.
abbrev pub shift_left : ℕ → ℕ → ℕ → ℕ
shift_left modulus shift value = value * 2 ^ shift % modulus

unfoldable pub to_uint16 : ℕ → ℕ → ℕ
to_uint16 b0 b1 = bit_or (shift_left (2 ^ 16) 8 b1) (shift_left (2 ^ 16) 0 b0)

unfoldable pub to_uint32 : ℕ → ℕ → ℕ → ℕ → ℕ
to_uint32 b0 b1 b2 b3 =
    bit_or
      (bit_or (bit_or (shift_left (2 ^ 32) 24 b3) (shift_left (2 ^ 32) 16 b2))
        (shift_left (2 ^ 32) 8 b1))
      (shift_left (2 ^ 32) 0 b0)

unfoldable pub to_uint64 : ℕ → ℕ → ℕ → ℕ → ℕ → ℕ → ℕ → ℕ → ℕ
to_uint64 b0 b1 b2 b3 b4 b5 b6 b7 =
    let x7 = shift_left (2 ^ 64) 56 b7 in
    let x6 = shift_left (2 ^ 64) 48 b6 in
    let x5 = shift_left (2 ^ 64) 40 b5 in
    let x4 = shift_left (2 ^ 64) 32 b4 in
    let x3 = shift_left (2 ^ 64) 24 b3 in
    let x2 = shift_left (2 ^ 64) 16 b2 in
    let x1 = shift_left (2 ^ 64) 8 b1 in
    let x0 = shift_left (2 ^ 64) 0 b0 in
    bit_or (bit_or (bit_or (bit_or (bit_or (bit_or (bit_or x7 x6) x5) x4) x3) x2) x1) x0

abbrev pub half16 : ℕ
half16 = 2 ^ 15

abbrev pub half32 : ℕ
half32 = 2 ^ 31

abbrev pub half64 : ℕ
half64 = 2 ^ 63

unfoldable pub to_int16 : ℕ → ℕ → ℤ
unfolding to_uint16
to_int16 b0 b1 = to_signed half16 (to_uint16 b0 b1)

unfoldable pub to_int32 : ℕ → ℕ → ℕ → ℕ → ℤ
unfolding to_uint32
to_int32 b0 b1 b2 b3 = to_signed half32 (to_uint32 b0 b1 b2 b3)

unfoldable pub to_int64 : ℕ → ℕ → ℕ → ℕ → ℕ → ℕ → ℕ → ℕ → ℤ
unfolding to_uint64
to_int64 b0 b1 b2 b3 b4 b5 b6 b7 = to_signed half64 (to_uint64 b0 b1 b2 b3 b4 b5 b6 b7)

abbrev index_of : Buffer → ℕ
index_of b = b.index

unfoldable pub get_int16 : Exec Buffer ℤ
unfolding get_at to_int16
get_int16 = do
  i ← gets index_of
  b0 ← get_at (pos (i + 1))
  b1 ← get_at (pos i)
  set_index (pos (i + 2))
  pure (to_int16 b0 b1)

unfoldable pub get_int32 : Exec Buffer ℤ
unfolding get_at to_int32
get_int32 = do
  i ← gets index_of
  b0 ← get_at (pos (i + 3))
  b1 ← get_at (pos (i + 2))
  b2 ← get_at (pos (i + 1))
  b3 ← get_at (pos i)
  set_index (pos (i + 4))
  pure (to_int32 b0 b1 b2 b3)

-- The bits of the float.
unfoldable pub get_float : Exec Buffer ℕ
unfolding get_at to_uint32
get_float = do
  i ← gets index_of
  b0 ← get_at (pos (i + 3))
  b1 ← get_at (pos (i + 2))
  b2 ← get_at (pos (i + 1))
  b3 ← get_at (pos i)
  set_index (pos (i + 4))
  pure (to_uint32 b0 b1 b2 b3)

unfoldable pub get_int64 : Exec Buffer ℤ
unfolding get_at to_int64
get_int64 = do
  i ← gets index_of
  b0 ← get_at (pos (i + 7))
  b1 ← get_at (pos (i + 6))
  b2 ← get_at (pos (i + 5))
  b3 ← get_at (pos (i + 4))
  b4 ← get_at (pos (i + 3))
  b5 ← get_at (pos (i + 2))
  b6 ← get_at (pos (i + 1))
  b7 ← get_at (pos i)
  set_index (pos (i + 8))
  pure (to_int64 b0 b1 b2 b3 b4 b5 b6 b7)

-- The bits of the double.
unfoldable pub get_double : Exec Buffer ℕ
unfolding get_at to_uint64
get_double = do
  i ← gets index_of
  b0 ← get_at (pos (i + 7))
  b1 ← get_at (pos (i + 6))
  b2 ← get_at (pos (i + 5))
  b3 ← get_at (pos (i + 4))
  b4 ← get_at (pos (i + 3))
  b5 ← get_at (pos (i + 2))
  b6 ← get_at (pos (i + 1))
  b7 ← get_at (pos i)
  set_index (pos (i + 8))
  pure (to_uint64 b0 b1 b2 b3 b4 b5 b6 b7)

unfoldable pub put_bits16 : ℕ → Exec Buffer (Unit {0})
unfolding put
put_bits16 ui16 = do put (shift_right 8 ui16 0xff00); put (shift_right 0 ui16 0x00ff)

unfoldable pub put_int16 : ℤ → Exec Buffer (Unit {0})
unfolding put_bits16
put_int16 value = put_bits16 (to_unsigned half16 value)

unfoldable pub put_bits32 : ℕ → Exec Buffer (Unit {0})
unfolding put
put_bits32 ui32 = do
  put (shift_right 24 ui32 0xff00_0000)
  put (shift_right 16 ui32 0x00ff_0000)
  put (shift_right 8 ui32 0x0000_ff00)
  put (shift_right 0 ui32 0x0000_00ff)

unfoldable pub put_int32 : ℤ → Exec Buffer (Unit {0})
unfolding put_bits32
put_int32 value = put_bits32 (to_unsigned half32 value)

unfoldable pub put_float : ℕ → Exec Buffer (Unit {0})
unfolding put_bits32
put_float pattern_bits = put_bits32 pattern_bits

unfoldable pub put_bits64 : ℕ → Exec Buffer (Unit {0})
unfolding put
put_bits64 ui64 = do
  put (shift_right 56 ui64 0xff00_0000_0000_0000)
  put (shift_right 48 ui64 0x00ff_0000_0000_0000)
  put (shift_right 40 ui64 0x0000_ff00_0000_0000)
  put (shift_right 32 ui64 0x0000_00ff_0000_0000)
  put (shift_right 24 ui64 0x0000_0000_ff00_0000)
  put (shift_right 16 ui64 0x0000_0000_00ff_0000)
  put (shift_right 8 ui64 0x0000_0000_0000_ff00)
  put (shift_right 0 ui64 0x0000_0000_0000_00ff)

unfoldable pub put_int64 : ℤ → Exec Buffer (Unit {0})
unfolding put_bits64
put_int64 value = put_bits64 (to_unsigned half64 value)

unfoldable pub put_double : ℕ → Exec Buffer (Unit {0})
unfolding put_bits64
put_double pattern_bits = put_bits64 pattern_bits

-- The overloads that take an index move to it first.
unfoldable pub at_index : {A : Type 0} → ℤ → Exec Buffer A → Exec Buffer A
unfolding set_index
at_index n access = do set_index n; access
