-- ===== src/Buffer/Copy.antt =====
-- buffer/buffer.cpp: the overloads of buffer::get and buffer::put that copy between two buffers.
-- `src` is read and `dst` is written: in `get` the object itself is the source, in `put` the
-- destination. The two own different storage.
pub mod Moves
use sql_relational_database.Common.{ℕ, zero, suc, ◌&&◌, ltb, ◌==◌, if◌then◌else◌}
use sql_relational_database.Common.Int.{ℤ, pos, negsuc}
use sql_relational_database.Common.Exec.{Exec, pure, throw, gets, ◌>>=◌, ◌>>◌, remaining_error}
use sql_relational_database.Buffer.{Buffer, remaining, set_index, get, put}

pub record Copy : Type 0 where
  pub src : Buffer
  pub dst : Buffer

abbrev pub on_src : {A : Type 0} → Exec Buffer A → Exec Copy A
on_src m c = let (r, b) = m c.src in (r, record c { src = b })

abbrev pub on_dst : {A : Type 0} → Exec Buffer A → Exec Copy A
on_dst m c = let (r, b) = m c.dst in (r, record c { dst = b })

abbrev pub src_remaining : Copy → ℕ
src_remaining c = remaining c.src

abbrev pub dst_remaining : Copy → ℕ
dst_remaining c = remaining c.dst

-- b.put(get())
unfoldable pub move_byte : Exec Copy (Unit {0})
unfolding ◌>>=◌ get put
move_byte = do v ← on_src get; on_dst (put v)

-- while (size-- > 0) b.put(get())
unfoldable pub transfer : ℕ → Exec Copy (Unit {0})
unfolding move_byte
transfer zero = pure tt
transfer (suc n) = do move_byte; transfer n

-- while (remaining() > 0) b.put(get()), with fuel; each round moves the source's index on, so
-- the bytes that remain are fuel enough.
unfoldable pub drain : ℕ → Exec Copy (Unit {0})
unfolding move_byte remaining
drain zero = pure tt
drain (suc fuel) = do
  r ← gets src_remaining
  let round = move_byte >> drain fuel
  if ltb 0 r then round else pure tt

-- void buffer::get (buffer& b)
unfoldable pub get_buffer : Exec Copy (Unit {0})
unfolding drain
get_buffer = do
  r ← gets src_remaining
  s ← gets dst_remaining
  if ltb s r then throw remaining_error else drain r

-- void buffer::get (buffer& b, int32_t n)
unfoldable pub get_buffer_at : ℤ → Exec Copy (Unit {0})
unfolding get_buffer
get_buffer_at n = do on_src (set_index n); get_buffer

-- void buffer::put (buffer& b)
unfoldable pub put_buffer : Exec Copy (Unit {0})
unfolding drain
put_buffer = do
  r ← gets src_remaining
  s ← gets dst_remaining
  if ltb s r then throw remaining_error else drain r

-- void buffer::put (int32_t n, buffer& b)
unfoldable pub put_buffer_at : ℤ → Exec Copy (Unit {0})
unfolding put_buffer
put_buffer_at n = do on_dst (set_index n); put_buffer

-- The rounds of a loop `while (size-- > 0)`.
abbrev pub rounds : ℤ → ℕ
rounds (pos n) = n
rounds (negsuc n) = 0

-- if (size > remaining() && size > b.remaining()) throw; while (size-- > 0) …
unfoldable pub transfer_sized : ℤ → Exec Copy (Unit {0})
unfolding transfer remaining
transfer_sized size = do
  r ← gets src_remaining
  s ← gets dst_remaining
  let refused = ltb r (rounds size) && ltb s (rounds size)
  if refused then throw remaining_error else transfer (rounds size)

-- void buffer::get (buffer& b, int32_t n, int32_t size)
unfoldable pub get_buffer_sized : ℤ → ℤ → Exec Copy (Unit {0})
unfolding transfer_sized
get_buffer_sized n size = do on_src (set_index n); transfer_sized size

-- void buffer::put (int32_t n, int32_t size, buffer& b)
unfoldable pub put_buffer_sized : ℤ → ℤ → Exec Copy (Unit {0})
unfolding transfer_sized
put_buffer_sized n size = do on_dst (set_index n); transfer_sized size
