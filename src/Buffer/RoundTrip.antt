-- ===== src/Buffer/RoundTrip.antt =====
-- Writing a text at an index and reading it back.
use sql_relational_database.Common.{ℕ, ◌+◌, ◌≤◌, ◌≡◌, refl, arith, List, length}
use sql_relational_database.Common.Int.{pos}
use sql_relational_database.Common.Exec.{ok, ◌>>=◌, ◌>>◌}
use sql_relational_database.Buffer.{Buffer, get_varchar_at, put_varchar_at}
use sql_relational_database.Buffer.Access.{set_index_within}
use sql_relational_database.Buffer.Text.{
  moved, written, get_varchar_within, put_varchar_within, slice-overwrite_self,
}

module _ (n : ℕ) (xs : List ℕ) (b : Buffer) where
  -- In a buffer whose bound lies within its size, a text put at an index where it fits below the
  -- bound is written there, and reading as many bytes at the same index returns it.
  pub get_varchar_at-put_varchar_at :
      n + length xs ≤ b.bound
      → b.bound ≤ b.size
      → (put_varchar_at (pos n) xs >> get_varchar_at (pos n) (length xs)) b
        ≡ (ok xs, written (moved b n) xs)
  unfolding put_varchar_at get_varchar_at ◌>>=◌
  get_varchar_at-put_varchar_at h s =
      rw
        (
          set_index_within b n (omega arith),
          put_varchar_within xs (moved b n) h s,
          set_index_within (written (moved b n) xs) n (omega arith),
          get_varchar_within (length xs) (moved (written (moved b n) xs) n) h s,
          slice-overwrite_self,
        )
        refl
