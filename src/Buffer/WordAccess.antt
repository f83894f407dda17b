-- ===== src/Buffer/WordAccess.antt =====
-- A word is written as its bytes in network byte order, and read from the bytes at the index.
use sql_relational_database.Common.{◌%◌, ◌^◌, ◌/◌, ℕ, ◌+◌, ◌≤◌, ◌<◌, ◌≡◌, refl, fun_ext, arith}
use sql_relational_database.Common.Int.{to_unsigned, pos}
use sql_relational_database.Common.Exec.{Exec, Result, continue, pure, ok, err, ◌>>=◌}
use sql_relational_database.Buffer.{ℤ, put, Buffer, get_at, put_varchar}
use sql_relational_database.Buffer.Access.{get_below, set_index_within}
use sql_relational_database.Buffer.Words.{
  to_int64, get_int64, half32, half64, put_int64, put_int32, half16, put_int16, at_index, to_int16,
  to_int32, get_int16, get_int32,
}
use sql_relational_database.Buffer.Bytes.{be_bytes, shift_right-byte}
use sql_relational_database.Buffer.Text.{moved}

-- A last `put` returns nothing, as the empty rest of a text does.
bind-pure : (m : Exec Buffer (Unit {0})) → (m >>= λ _. pure tt) ≡ m
unfolding ◌>>=◌
bind-pure m = fun_ext λ before. let (outcome, after) = m before in ends outcome after
  where
    ends : (r : Result (Unit {0})) (s : Buffer) → continue r (λ _. pure tt) s ≡ (r, s)
    ends (ok a) s = refl
    ends (err e) s = refl

pub put_int16-be_bytes :
    (v : ℤ) → let u = to_unsigned half16 v in put_int16 v ≡ put_varchar (be_bytes 2 u)
unfolding put_int16 put_varchar
put_int16-be_bytes v =
    let u = to_unsigned half16 v in
    rw (shift_right-byte 8 u, shift_right-byte 0 u, bind-pure (put (u / 2 ^ 0 % 256))) refl

pub put_int32-be_bytes :
    (v : ℤ) → let u = to_unsigned half32 v in put_int32 v ≡ put_varchar (be_bytes 4 u)
unfolding put_int32 put_varchar
put_int32-be_bytes v =
    let u = to_unsigned half32 v in
    rw
      (
        shift_right-byte 24 u,
        shift_right-byte 16 u,
        shift_right-byte 8 u,
        shift_right-byte 0 u,
        bind-pure (put (u / 2 ^ 0 % 256)),
      )
      refl

pub put_int64-be_bytes :
    (v : ℤ) → let u = to_unsigned half64 v in put_int64 v ≡ put_varchar (be_bytes 8 u)
unfolding put_int64 put_varchar
put_int64-be_bytes v =
    let u = to_unsigned half64 v in
    rw
      (
        shift_right-byte 56 u,
        shift_right-byte 48 u,
        shift_right-byte 40 u,
        shift_right-byte 32 u,
        shift_right-byte 24 u,
        shift_right-byte 16 u,
        shift_right-byte 8 u,
        shift_right-byte 0 u,
        bind-pure (put (u / 2 ^ 0 % 256)),
      )
      refl

module _ (b : Buffer) (h : b.bound ≤ b.size) where
  get_at_below : (n : ℕ) → n < b.bound → get_at (pos n) b ≡ (ok (b.cells n), moved b (n + 1))
  unfolding get_at ◌>>=◌
  get_at_below n lt = rw (set_index_within b n (omega arith), get_below (moved b n) lt h) refl

pub get_int16_within :
    (b : Buffer)
    → b.index + 2 ≤ b.bound
    → b.bound ≤ b.size
    → let c = b.cells in
      let i = b.index in get_int16 b ≡ (ok (to_int16 (c (i + 1)) (c i)), moved b (i + 2))
unfolding get_int16 ◌>>=◌
get_int16_within b h s =
    let i = b.index in
    rw
      (
        get_at_below b s (i + 1) (omega arith),
        get_at_below (moved b (i + 1 + 1)) s i (omega arith),
        set_index_within (moved b (i + 1)) (i + 2) h,
      )
      refl

pub get_int32_within :
    (b : Buffer)
    → b.index + 4 ≤ b.bound
    → b.bound ≤ b.size
    → let c = b.cells in
      let i = b.index in
      get_int32 b ≡ (ok (to_int32 (c (i + 3)) (c (i + 2)) (c (i + 1)) (c i)), moved b (i + 4))
unfolding get_int32 ◌>>=◌
get_int32_within b h s =
    let i = b.index in
    rw
      (
        get_at_below b s (i + 3) (omega arith),
        get_at_below (moved b (i + 3 + 1)) s (i + 2) (omega arith),
        get_at_below (moved b (i + 2 + 1)) s (i + 1) (omega arith),
        get_at_below (moved b (i + 1 + 1)) s i (omega arith),
        set_index_within (moved b (i + 1)) (i + 4) h,
      )
      refl

pub at_index_within :
    {A : Type 0} (n : ℕ) (m : Exec Buffer A) (b : Buffer)
    → n ≤ b.bound
    → at_index (pos n) m b ≡ m (moved b n)
unfolding at_index ◌>>=◌
at_index_within n m b h = ground (arith, set_index_within b n h)

pub get_int64_within :
    (b : Buffer)
    → b.index + 8 ≤ b.bound
    → b.bound ≤ b.size
    → let c = b.cells in
      let i = b.index in
      get_int64 b ≡ (
        ok (
            to_int64
              (c (i + 7))
              (c (i + 6))
              (c (i + 5))
              (c (i + 4))
              (c (i + 3))
              (c (i + 2))
              (c (i + 1))
              (c i)),
        moved b (i + 8),
      )
unfolding get_int64 ◌>>=◌
get_int64_within b h s =
    let i = b.index in
    rw
      (
        get_at_below b s (i + 7) (omega arith),
        get_at_below (moved b (i + 7 + 1)) s (i + 6) (omega arith),
        get_at_below (moved b (i + 6 + 1)) s (i + 5) (omega arith),
        get_at_below (moved b (i + 5 + 1)) s (i + 4) (omega arith),
        get_at_below (moved b (i + 4 + 1)) s (i + 3) (omega arith),
        get_at_below (moved b (i + 3 + 1)) s (i + 2) (omega arith),
        get_at_below (moved b (i + 2 + 1)) s (i + 1) (omega arith),
        get_at_below (moved b (i + 1 + 1)) s i (omega arith),
        set_index_within (moved b (i + 1)) (i + 8) h,
      )
      refl
