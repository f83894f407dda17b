-- ===== src/Buffer/Access.antt =====
-- One byte at a time: what `get` and `put` do below the bound, and at it.
use sql_relational_database.Common.{ltb, if◌then◌else◌, ℕ, ◌+◌, ◌≤◌, ◌<◌, ◌≡◌, arith}
use sql_relational_database.Common.Int.{pos}
use sql_relational_database.Common.Exec.{index_error, out_of_storage, ok, err, remaining_error}
use sql_relational_database.Buffer.{Buffer, set_index, get, put, update}

module _ (b : Buffer) where
  pub get_below :
      b.index < b.bound
      → b.bound ≤ b.size
      → get b ≡ (ok (b.cells b.index), record b { index = b.index + 1 })
  unfolding get
  get_below h s = ground arith

  pub put_below :
      (v : ℕ)
      → b.index < b.bound
      → b.bound ≤ b.size
      → put v b ≡ (ok tt, record b { cells = update b.cells b.index v; index = b.index + 1 })
  unfolding put
  put_below v h s = ground arith

  pub put_at_bound : (v : ℕ) → b.bound ≤ b.index → put v b ≡ (err remaining_error, b)
  unfolding put
  put_at_bound v h = ground arith

  pub set_index_within :
      (n : ℕ) → n ≤ b.bound → set_index (pos n) b ≡ (ok tt, record b { index = n })
  unfolding set_index
  set_index_within n h = ground arith

-- In a buffer whose index lies within its bound and its bound within its size, reading a byte below
-- the bound returns the byte at the index and moves on. At the bound it throws and changes nothing,
-- but where the bound is the size the byte after the storage is read.
pub get_lem :
    (b : Buffer)
    → b.index ≤ b.bound
    → b.bound ≤ b.size
    → get b ≡ (
        if ltb b.index b.bound
        then (ok (b.cells b.index), record b { index = b.index + 1 })
        else if ltb b.bound b.size
        then (err index_error, b)
        else (err out_of_storage, b))
unfolding get
get_lem b h s = ground arith
