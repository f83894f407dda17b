-- ===== src/Buffer/Copy/Moves.antt =====
-- What copying between buffers moves, where it fits and where it does not.
use sql_relational_database.Common.{
  if◌then◌else◌, ltb, ◌∙◌, lt→ltb, ◌-◌, ℕ, zero, suc, ◌+◌, ◌≤◌, ◌<◌, ◌≡◌, refl, arith,
}
use sql_relational_database.Common.Exec.{err, ok, ◌>>=◌}
use sql_relational_database.Buffer.Access.{set_index_within, put_at_bound, get_below, put_below}
use sql_relational_database.Buffer.Text.{slice, overwrite, moved}
use sql_relational_database.Buffer.Copy.{
  ℤ, remaining_error, pos, remaining, transfer_sized, get_buffer, put_buffer_sized, drain,
  put_buffer, Copy, move_byte, transfer,
}

-- Both buffers have their bound inside their storage.
pub record InStorage (c : Copy) : Type 0 where
  pub src_in : c.src.bound ≤ c.src.size
  pub dst_in : c.dst.bound ≤ c.dst.size

-- The pair after `n` bytes have gone over.
abbrev pub copied : Copy → ℕ → Copy
copied c n = record {
  src = moved c.src (c.src.index + n);
  dst = record c.dst {
    cells = overwrite c.dst.cells c.dst.index (slice c.src.cells c.src.index n);
    index = c.dst.index + n;
  };
}

pub move_byte_within :
    (c : Copy)
    → InStorage c
    → c.src.index < c.src.bound
    → c.dst.index < c.dst.bound
    → move_byte c ≡ (ok tt, copied c 1)
unfolding move_byte ◌>>=◌
move_byte_within c v h k =
    rw (get_below c.src h v.src_in, put_below c.dst (c.src.cells c.src.index) k v.dst_in) refl

pub transfer_within :
    (n : ℕ) (c : Copy)
    → InStorage c
    → c.src.index + n ≤ c.src.bound
    → c.dst.index + n ≤ c.dst.bound
    → transfer n c ≡ (ok tt, copied c n)
unfolding transfer ◌>>=◌
transfer_within zero c v h k = ground arith
transfer_within (suc n) c v h k =
    rw
      (
        move_byte_within c v (omega arith) (omega arith),
        transfer_within n (copied c 1) (omega arith) (omega arith) (omega arith),
      )
      (ground arith)

-- The loop ends by its test after exactly the bytes that remained.
drain_within :
    (fuel : ℕ) (c : Copy)
    → InStorage c
    → c.src.index + fuel ≡ c.src.bound
    → c.dst.index + fuel ≤ c.dst.bound
    → drain fuel c ≡ (ok tt, copied c fuel)
unfolding drain remaining ◌>>=◌
drain_within zero c v h k = ground arith
drain_within (suc n) c v h k =
    rw
      (
        lt→ltb 0 (c.src.bound - c.src.index) (omega arith),
        move_byte_within c v (omega arith) (omega arith),
        drain_within n (copied c 1) (omega arith) (omega arith) (omega arith),
      )
      (ground arith)

-- Between two buffers whose indexes lie within their bounds and whose bounds lie within their
-- sizes, copying a whole buffer either moves all the bytes that remain in the source, which leaves
-- the source at its bound, or throws and moves nothing.
pub put_buffer_lem :
    (c : Copy)
    → InStorage c
    → c.src.index ≤ c.src.bound
    → c.dst.index ≤ c.dst.bound
    → put_buffer c ≡ (
        if ltb (remaining c.dst) (remaining c.src)
        then (err remaining_error, c)
        else (ok tt, copied c (remaining c.src)))
unfolding put_buffer remaining ◌>>=◌
put_buffer_lem c v h k = ground (arith, drain_within (c.src.bound - c.src.index) c v)

-- The same of `get (buffer&)`, whose object is the source.
get_buffer_lem : (c : Copy) → get_buffer c ≡ put_buffer c
unfolding get_buffer put_buffer
get_buffer_lem c = refl

starts_at :
    (c : Copy) (i : ℕ) (size : ℤ)
    → i ≤ c.dst.bound
    → put_buffer_sized (pos i) size c ≡ transfer_sized size (record c { dst = moved c.dst i })
unfolding put_buffer_sized ◌>>=◌
starts_at c i size h = ground (arith, set_index_within c.dst i h)

transfer_sized_within :
    (c : Copy) (n : ℕ)
    → InStorage c
    → c.dst.index + n ≤ c.dst.bound
    → c.src.index + n ≤ c.src.bound
    → transfer_sized (pos n) c ≡ (ok tt, copied c n)
unfolding transfer_sized remaining ◌>>=◌
transfer_sized_within c n v h k = ground (arith, transfer_within n c v)

-- Between two buffers whose bounds lie within their sizes, copying n bytes to an index of the
-- destination moves exactly those, where both buffers have as many left.
pub put_buffer_sized_within :
    (c : Copy) (i n : ℕ)
    → InStorage c
    → i + n ≤ c.dst.bound
    → c.src.index + n ≤ c.src.bound
    → put_buffer_sized (pos i) (pos n) c ≡ (ok tt, copied (record c { dst = moved c.dst i }) n)
put_buffer_sized_within c i n v h k =
    starts_at c i (pos n) (omega arith)
    ∙ transfer_sized_within (record c { dst = moved c.dst i }) n (omega arith) h k

move_byte_overruns :
    (c : Copy)
    → InStorage c
    → c.src.index < c.src.bound
    → c.dst.index ≡ c.dst.bound
    → move_byte c ≡ (err remaining_error, record c { src = moved c.src (c.src.index + 1) })
unfolding move_byte ◌>>=◌
move_byte_overruns c v h k =
    rw (get_below c.src h v.src_in, put_at_bound c.dst (c.src.cells c.src.index) (omega arith)) refl

transfer_overruns :
    (m n : ℕ) (c : Copy)
    → InStorage c
    → c.dst.index + m ≡ c.dst.bound
    → m < n
    → c.src.index + n ≤ c.src.bound
    → transfer n c
      ≡ (err remaining_error, record (copied c m) { src = moved c.src (c.src.index + m + 1) })
unfolding transfer ◌>>=◌
transfer_overruns m zero c v h k l = absurd (omega arith)
transfer_overruns zero (suc n) c v h k l =
    rw (move_byte_overruns c v (omega arith) (omega arith)) (ground arith)
transfer_overruns (suc m) (suc n) c v h k l =
    rw
      (
        move_byte_within c v (omega arith) (omega arith),
        transfer_overruns m n (copied c 1) (omega arith) (omega arith) (omega arith) (omega arith),
      )
      (ground arith)

transfer_sized_overruns :
    (c : Copy) (n : ℕ)
    → InStorage c
    → c.dst.index ≤ c.dst.bound
    → c.dst.bound < c.dst.index + n
    → c.src.index + n ≤ c.src.bound
    → let m = c.dst.bound - c.dst.index in
      transfer_sized (pos n) c
      ≡ (err remaining_error, record (copied c m) { src = moved c.src (c.src.index + m + 1) })
unfolding transfer_sized remaining ◌>>=◌
transfer_sized_overruns c n v h k l =
    ground (arith, transfer_overruns (c.dst.bound - c.dst.index) n c v)

-- Between two buffers whose bounds lie within their sizes, copying n bytes that the source has, and
-- for which the destination has no room at the index, fills the destination up to its bound and
-- throws there, with one byte more read from the source.
pub put_buffer_sized_overruns :
    (c : Copy) (i n : ℕ)
    → InStorage c
    → i ≤ c.dst.bound
    → c.dst.bound < i + n
    → c.src.index + n ≤ c.src.bound
    → let m = c.dst.bound - i in
      let filled = copied (record c { dst = moved c.dst i }) m in
      put_buffer_sized (pos i) (pos n) c
      ≡ (err remaining_error, record filled { src = moved c.src (c.src.index + m + 1) })
put_buffer_sized_overruns c i n v h k l =
    starts_at c i (pos n) h
    ∙ transfer_sized_overruns (record c { dst = moved c.dst i }) n (omega arith) h k l
