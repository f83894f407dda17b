-- ===== src/Buffer.antt =====
-- buffer/buffer.h, buffer/buffer.cpp: class bbuffer (size, bound and index) and the single-byte
-- accesses of class buffer. `m_size`, `m_bound` and `m_index` are never negative: each setter
-- rejects a negative argument, so the three are ℕ and an `int32_t` argument is an integer.
-- The storage behind the shared pointer is a function from positions; the object owns the
-- positions below `size`.
pub mod Words
pub mod Access
pub mod Bytes
pub mod Text
pub mod RoundTrip
pub mod WordAccess
pub mod WordTrip
mod Tests
pub mod Copy
pub mod Valid
use sql_relational_database.Common.{
  ℕ, zero, suc, ◌+◌, ◌-◌, ◌≡◌, Bool, List, [], ◌∷◌, ltb, ◌==◌, if◌then◌else◌,
}
use sql_relational_database.Common.Int.{ℤ, pos, negsuc}
use sql_relational_database.Common.Exec.{
  Exec, ok, err, pure, throw, gets, ◌>>=◌, ◌>>◌, bound_error, index_error, size_error,
  remaining_error, out_of_storage,
}

pub record Buffer : Type 0 where
  pub size : ℕ
  pub bound : ℕ
  pub index : ℕ
  pub cells : ℕ → ℕ

-- buffer (int32_t size, std::shared_ptr<uint8_t> buffer)
unfoldable pub make : ℕ → (ℕ → ℕ) → Buffer
make n storage = record { size = n; bound = n; index = 0; cells = storage }

unfoldable pub remaining : Buffer → ℕ
remaining b = b.bound - b.index

unfoldable pub has_more : Buffer → Bool
has_more b = ltb b.index b.bound

unfoldable pub set_bound : ℤ → Exec Buffer (Unit {0})
set_bound (negsuc n) b = (err bound_error, b)
set_bound (pos n) b =
    if ltb b.size n
    then (err bound_error, b)
    else (ok tt, record b { bound = n; index = if ltb n b.index then n else b.index })

unfoldable pub clear : Exec Buffer (Unit {0})
clear b = (ok tt, record b { bound = b.size; index = 0 })

unfoldable pub set_index : ℤ → Exec Buffer (Unit {0})
set_index (negsuc n) b = (err index_error, b)
set_index (pos n) b =
    if ltb b.bound n then (err index_error, b) else (ok tt, record b { index = n })

unfoldable pub reset : Exec Buffer (Unit {0})
reset b = (ok tt, record b { bound = b.size; index = 0 })

unfoldable pub rewind : Exec Buffer (Unit {0})
rewind b = (ok tt, record b { index = 0 })

unfoldable pub trip : Exec Buffer (Unit {0})
trip b = (ok tt, record b { bound = b.index; index = 0 })

-- buffer& buffer::operator=(buffer const&): only the storage is taken over, not bound and index.
unfoldable pub assign : Buffer → Exec Buffer (Unit {0})
assign o b = if b.size == o.size then (ok tt, record b { cells = o.cells }) else (err size_error, b)

abbrev pub update : (ℕ → ℕ) → ℕ → ℕ → ℕ → ℕ
update f i v j = if i == j then v else f j

-- m_buffer.get() [index()]
unfoldable pub load : Exec Buffer ℕ
load b = if ltb b.index b.size then (ok (b.cells b.index), b) else (err out_of_storage, b)

-- m_buffer.get()[index()] = value
unfoldable pub store : ℕ → Exec Buffer (Unit {0})
store v b =
    if ltb b.index b.size
    then (ok tt, record b { cells = update b.cells b.index v })
    else (err out_of_storage, b)

-- index(index() + 1)
unfoldable pub advance : Exec Buffer (Unit {0})
unfolding set_index
advance b = set_index (pos (b.index + 1)) b

-- The byte is read before `index` checks that it lies below the bound.
unfoldable pub get : Exec Buffer ℕ
unfolding ◌>>=◌ load advance
get = do v ← load; advance; pure v

unfoldable pub get_at : ℤ → Exec Buffer ℕ
unfolding get
get_at n = do set_index n; get

unfoldable pub put : ℕ → Exec Buffer (Unit {0})
unfolding ◌>>=◌ remaining store advance
put v = do r ← gets remaining; if r == 0 then throw remaining_error else do store v; advance

unfoldable pub put_at : ℤ → ℕ → Exec Buffer (Unit {0})
unfolding put
put_at n v = do set_index n; put v

-- std::string get_varchar (int32_t size): a negative size reads nothing, as size 0 does.
unfoldable pub get_varchar : ℕ → Exec Buffer (List ℕ)
unfolding get
get_varchar zero = pure []
get_varchar (suc n) = do c ← get; cs ← get_varchar n; pure (c ∷ cs)

unfoldable pub get_varchar_at : ℤ → ℕ → Exec Buffer (List ℕ)
unfolding get_varchar
get_varchar_at n size = do set_index n; get_varchar size

unfoldable pub put_varchar : List ℕ → Exec Buffer (Unit {0})
unfolding put
put_varchar [] = pure tt
put_varchar (c ∷ cs) = do put c; put_varchar cs

unfoldable pub put_varchar_at : ℤ → List ℕ → Exec Buffer (Unit {0})
unfolding put_varchar
put_varchar_at n cs = do set_index n; put_varchar cs
