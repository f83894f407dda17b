-- ===== src/Cache.antt =====
-- class block_cache (cache/cache.h, cache/cache.cpp): the blocks of one table in memory, and the
-- list of those that are to be written. A block is its bytes; whoever got a block from the cache
-- writes to it through the shared pointer, which is `change_block`. The file is a parameter,
-- Device: what pread and pwrite answer at a position, none for an error and else the number of
-- bytes, and whether memory is given. The loops that read and write a block by pages run on fuel of
-- one round more than the block has bytes, enough where each call moves a byte or more; where a
-- call moves none the loop is endless.
pub mod Pages
pub mod Flush
pub mod Tracked
pub mod Loads
pub mod Calls
pub mod Failures
pub mod Jobs
mod Tests
use sql_relational_database.Common.{
  ℕ, zero, suc, ◌+◌, ◌-◌, ◌%◌, ◌≡◌, Bool, true, false, not, ltb, leb, ◌==◌, if◌then◌else◌, List, [],
  ◌∷◌, ◌++◌, Option, none, some, spliced,
}
use sql_relational_database.Common.Int.{ℤ, pos, negsuc}
use sql_relational_database.Common.Exec.{Result, ok, err, endless, Exec, pure, ◌>>=◌, ◌>>◌}

abbrev pub Block : Type 0
Block = ℕ → ℕ

pub record Device : Type 0 where
  pub block_size : ℕ
  pub write_enabled : Bool
  pub allocates : Bool
  pub pread : ℕ → Option ℕ
  pub pwrite : ℕ → Option ℕ

pub record BlockCache : Type 0 where
  pub cache : ℕ → Option Block
  pub flush_list : List ℕ
  pub next_offset : ℕ
  pub disk : ℕ → ℕ

abbrev pub set_entry : (ℕ → Option Block) → ℕ → Option Block → ℕ → Option Block
set_entry f o v j = if o == j then v else f j

abbrev pub contains : ℕ → List ℕ → Bool
contains o [] = false
contains o (x ∷ xs) = if o == x then true else contains o xs

pub data Outcome : Type 0 where
  complete failed unfinished : Outcome

module _ {ℓ} {A : Type ℓ} where
  -- while (n < size) { k = io(offset + n); if (k < 0) return false; n += k; }, with what a call
  -- moves.
  unfoldable pub pages : (ℕ → Option ℕ) → ℕ → ℕ → (ℕ → ℕ → A → A) → ℕ → ℕ → A → Outcome × A
  pages io size offset move zero n a = (unfinished, a)
  pages io size offset move (suc fuel) n a =
      let round = elim (io (offset + n)) as (λ _. Outcome × A) [
        | none ↦ (failed, a)
        | some k ↦ pages io size offset move fuel (n + k) (move n k a)
      ] in
      if ltb n size then round else (complete, a)

-- What a loop of pages answers.
abbrev pub answer : {S : Type 0} → Outcome → S → Result Bool × S
answer complete s = (ok true, s)
answer failed s = (ok false, s)
answer unfinished s = (err endless, s)

abbrev pub block_answer : Outcome → Block → BlockCache → Result (Option Block) × BlockCache
block_answer complete b s = (ok (some b), s)
block_answer failed b s = (ok none, s)
block_answer unfinished b s = (err endless, s)

unfoldable pub drop_block : ℕ → Exec BlockCache (Unit {0})
drop_block o s = (ok tt, record s { cache = set_entry s.cache o none })

unfoldable pub flush_block : ℕ → Exec BlockCache (Unit {0})
flush_block o s =
    if contains o s.flush_list
    then (ok tt, s)
    else (ok tt, record s { flush_list = s.flush_list ++ (o ∷ []) })

-- A write through the shared pointer.
unfoldable pub change_block : ℕ → (Block → Block) → Exec BlockCache (Unit {0})
change_block o f s = change (s.cache o)
  where
    change : Option Block → Result (Unit {0}) × BlockCache
    change none = (ok tt, s)
    change (some b) = (ok tt, record s { cache = set_entry s.cache o (some (f b)) })

module _ (dev : Device) where
  unfoldable pub write_block : Block → ℕ → Exec BlockCache Bool
  unfolding pages
  write_block b o s =
      let (r, d) =
        pages dev.pwrite dev.block_size o (λ n k d. spliced (o + n) n k b d) (suc dev.block_size) 0
          s.disk in
      if dev.write_enabled then answer r (record s { disk = d }) else (ok true, s)

  -- The bytes read so far are kept by the caller alone; the block has been cleared before.
  unfoldable pub read_block : ℕ → Exec BlockCache (Option Block)
  unfolding pages
  read_block o s =
      let (r, b) =
        pages dev.pread dev.block_size o (λ n k b. spliced n (o + n) k s.disk b)
          (suc dev.block_size) 0 (λ _. 0) in
      block_answer r b s

  unfoldable pub write_found : ℕ → Option Block → Exec BlockCache (Unit {0})
  unfolding ◌>>=◌
  write_found o none = pure tt
  write_found o (some b) = write_block b o >> pure tt

  unfoldable pub flush_one : ℕ → Exec BlockCache (Unit {0})
  unfolding write_found
  flush_one o s = write_found o (s.cache o) s

  unfoldable pub flush_blocks : List ℕ → Exec BlockCache (Unit {0})
  unfolding ◌>>=◌
  flush_blocks [] = pure tt
  flush_blocks (o ∷ os) = flush_one o >> flush_blocks os

  abbrev pub clear_list : Exec BlockCache (Unit {0})
  clear_list s = (ok tt, record s { flush_list = [] })

  -- The answer of write_block is not looked at.
  unfoldable pub flush_cache : Exec BlockCache (Unit {0})
  unfolding ◌>>=◌
  flush_cache s = (flush_blocks s.flush_list >> clear_list) s

  abbrev insert : ℕ → Option Block → Exec BlockCache (Option Block)
  insert o none s = (ok none, s)
  insert o (some b) s = (ok (some b), record s { cache = set_entry s.cache o (some b) })

  unfoldable pub load_block : ℕ → Exec BlockCache (Option Block)
  unfolding ◌>>=◌
  load_block o s =
      let load = (read_block o >>= insert o) s in
      if leb s.next_offset o then (ok none, s) else if dev.allocates then load else (ok none, s)

  -- The block in the cache, or else the one on disk.
  unfoldable pub found_block : ℕ → Option Block → Exec BlockCache (Option Block)
  found_block o none = load_block o
  found_block o (some b) = pure (some b)

  -- BUFFER_SZ is 32768.
  unfoldable pub get_block : ℤ → Exec BlockCache (Option Block)
  get_block (negsuc n) s = (ok none, s)
  get_block (pos o) s =
      let found = found_block o (s.cache o) s in if o % 32768 == 0 then found else (ok none, s)

  unfoldable pub new_block : ℕ → Exec BlockCache (Option Block)
  unfolding ◌>>=◌
  new_block o s =
      let made = (write_block (λ _. 0) o >>= written) s in
      if dev.allocates then made else (ok none, s)
    where
      written : Bool → Exec BlockCache (Option Block)
      written true = insert o (some (λ _. 0))
      written false = pure none
