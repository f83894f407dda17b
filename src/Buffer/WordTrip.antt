-- ===== src/Buffer/WordTrip.antt =====
-- Writing and reading back the signed words.
use sql_relational_database.Common.{◌%◌, ◌^◌, ◌/◌, ℕ, ◌+◌, ◌≤◌, ◌≡◌, refl, arith}
use sql_relational_database.Common.Int.{
  to_signed-to_unsigned, to_unsigned-lt, to_unsigned, Fits, pos,
}
use sql_relational_database.Common.Exec.{ok, ◌>>=◌, ◌>>◌}
use sql_relational_database.Buffer.{ℤ, Buffer}
use sql_relational_database.Buffer.Words.{
  to_int64, get_int64, half32, half64, put_int64, put_int32, half16, put_int16, at_index, to_int16,
  to_int32, get_int16, get_int32,
}
use sql_relational_database.Buffer.Bytes.{
  to_uint64-be_bytes, to_uint16-be_bytes, to_uint32-be_bytes, be_bytes,
}
use sql_relational_database.Buffer.Text.{moved, written, put_varchar_within}
use sql_relational_database.Buffer.WordAccess.{
  at_index_within, put_int16-be_bytes, put_int32-be_bytes, put_int64-be_bytes, get_int16_within,
  get_int32_within, get_int64_within,
}

to_int16-bytes :
    (v : ℤ) (u x0 x1 : ℕ)
    → Fits half16 v
    → u ≡ to_unsigned half16 v
    → x0 ≡ u % 256
    → x1 ≡ u / 2 ^ 8 % 256
    → to_int16 x0 x1 ≡ v
unfolding to_int16
to_int16-bytes v u x0 x1 f e e0 e1 =
    rw (e0, e1, to_uint16-be_bytes u (omega (arith, e, to_unsigned-lt half16 v (omega arith))), e)
      (to_signed-to_unsigned half16 v f)

to_int32-bytes :
    (v : ℤ) (u x0 x1 x2 x3 : ℕ)
    → Fits half32 v
    → u ≡ to_unsigned half32 v
    → x0 ≡ u % 256
    → x1 ≡ u / 2 ^ 8 % 256
    → x2 ≡ u / 2 ^ 16 % 256
    → x3 ≡ u / 2 ^ 24 % 256
    → to_int32 x0 x1 x2 x3 ≡ v
unfolding to_int32
to_int32-bytes v u x0 x1 x2 x3 f e e0 e1 e2 e3 =
    rw
      (
        e0,
        e1,
        e2,
        e3,
        to_uint32-be_bytes u (omega (arith, e, to_unsigned-lt half32 v (omega arith))),
        e,
      )
      (to_signed-to_unsigned half32 v f)

to_int64-bytes :
    (v : ℤ) (u x0 x1 x2 x3 x4 x5 x6 x7 : ℕ)
    → Fits half64 v
    → u ≡ to_unsigned half64 v
    → x0 ≡ u % 256
    → x1 ≡ u / 2 ^ 8 % 256
    → x2 ≡ u / 2 ^ 16 % 256
    → x3 ≡ u / 2 ^ 24 % 256
    → x4 ≡ u / 2 ^ 32 % 256
    → x5 ≡ u / 2 ^ 40 % 256
    → x6 ≡ u / 2 ^ 48 % 256
    → x7 ≡ u / 2 ^ 56 % 256
    → to_int64 x0 x1 x2 x3 x4 x5 x6 x7 ≡ v
unfolding to_int64
to_int64-bytes v u x0 x1 x2 x3 x4 x5 x6 x7 f e e0 e1 e2 e3 e4 e5 e6 e7 =
    rw
      (
        e0,
        e1,
        e2,
        e3,
        e4,
        e5,
        e6,
        e7,
        to_uint64-be_bytes u (omega (arith, e, to_unsigned-lt half64 v (omega arith))),
        e,
      )
      (to_signed-to_unsigned half64 v f)

-- A signed value of 16 bits, put at an index where its 2 bytes fit, is stored there with the most
-- significant byte first, and reading it at the same index returns it.
pub get_int16-put_int16 :
    (n : ℕ) (v : ℤ) (b : Buffer)
    → Fits half16 v
    → n + 2 ≤ b.bound
    → b.bound ≤ b.size
    → (at_index (pos n) (put_int16 v) >> at_index (pos n) get_int16) b
      ≡ (ok v, written (moved b n) (be_bytes 2 (to_unsigned half16 v)))
unfolding ◌>>=◌
get_int16-put_int16 n v b f h s =
    let u = to_unsigned half16 v in
    let b' = written (moved b n) (be_bytes 2 u) in
    let value : to_int16 (b'.cells (n + 1)) (b'.cells n) ≡ v =
      to_int16-bytes v u (b'.cells (n + 1)) (b'.cells n) f refl (ground arith) (ground arith) in
    rw
      (
        at_index_within n (put_int16 v) b (omega arith),
        put_int16-be_bytes v,
        put_varchar_within (be_bytes 2 u) (moved b n) h s,
        at_index_within n get_int16 b' (omega arith),
        get_int16_within (moved b' n) h s,
        value,
      )
      refl

-- A signed value of 32 bits, put at an index where its 4 bytes fit, is stored there with the most
-- significant byte first, and reading it at the same index returns it.
pub get_int32-put_int32 :
    (n : ℕ) (v : ℤ) (b : Buffer)
    → Fits half32 v
    → n + 4 ≤ b.bound
    → b.bound ≤ b.size
    → (at_index (pos n) (put_int32 v) >> at_index (pos n) get_int32) b
      ≡ (ok v, written (moved b n) (be_bytes 4 (to_unsigned half32 v)))
unfolding ◌>>=◌
get_int32-put_int32 n v b f h s =
    let u = to_unsigned half32 v in
    let b' = written (moved b n) (be_bytes 4 u) in
    let value : to_int32 (b'.cells (n + 3)) (b'.cells (n + 2)) (b'.cells (n + 1)) (b'.cells n) ≡ v =
      to_int32-bytes v u (b'.cells (n + 3)) (b'.cells (n + 2)) (b'.cells (n + 1)) (b'.cells n) f
        refl (ground arith) (ground arith) (ground arith) (ground arith) in
    rw
      (
        at_index_within n (put_int32 v) b (omega arith),
        put_int32-be_bytes v,
        put_varchar_within (be_bytes 4 u) (moved b n) h s,
        at_index_within n get_int32 b' (omega arith),
        get_int32_within (moved b' n) h s,
        value,
      )
      refl

-- A signed value of 64 bits, put at an index where its 8 bytes fit, is stored there with the most
-- significant byte first, and reading it at the same index returns it.
pub get_int64-put_int64 :
    (n : ℕ) (v : ℤ) (b : Buffer)
    → Fits half64 v
    → n + 8 ≤ b.bound
    → b.bound ≤ b.size
    → (at_index (pos n) (put_int64 v) >> at_index (pos n) get_int64) b
      ≡ (ok v, written (moved b n) (be_bytes 8 (to_unsigned half64 v)))
unfolding ◌>>=◌
get_int64-put_int64 n v b f h s =
    let u = to_unsigned half64 v in
    let b' = written (moved b n) (be_bytes 8 u) in
    let value : to_int64 (b'.cells (n + 7)) (b'.cells (n + 6)) (b'.cells (n + 5)) (b'.cells (n + 4))
          (b'.cells (n + 3)) (b'.cells (n + 2)) (b'.cells (n + 1)) (b'.cells n)
        ≡ v =
      to_int64-bytes v u (b'.cells (n + 7)) (b'.cells (n + 6)) (b'.cells (n + 5)) (b'.cells (n + 4))
        (b'.cells (n + 3)) (b'.cells (n + 2)) (b'.cells (n + 1)) (b'.cells n) f refl (ground arith)
        (ground arith) (ground arith) (ground arith) (ground arith) (ground arith) (ground arith)
        (ground arith) in
    rw
      (
        at_index_within n (put_int64 v) b (omega arith),
        put_int64-be_bytes v,
        put_varchar_within (be_bytes 8 u) (moved b n) h s,
        at_index_within n get_int64 b' (omega arith),
        get_int64_within (moved b' n) h s,
        value,
      )
      refl
