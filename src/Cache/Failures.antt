-- ===== src/Cache/Failures.antt =====
-- The block cache on a device that fails (cache/cache.cpp).
use sql_relational_database.Common.{
  ℕ, zero, suc, ◌+◌, ◌<◌, ◌≡◌, refl, true, false, List, [], ◌∷◌, Option, some, none, arith, ltb,
  spliced,
}
use sql_relational_database.Common.Exec.{ok}
use sql_relational_database.Cache.{
  Block, Device, BlockCache, failed, unfinished, pages, write_block, write_found, flush_one,
  flush_blocks, flush_cache,
}

failed_pages :
    {A : Type 0} (io : ℕ → Option ℕ) (size offset fuel : ℕ) (move : ℕ → ℕ → A → A) (a : A)
    → ((p : ℕ) → io p ≡ none)
    → 0 < size
    → pages io size offset move (suc fuel) 0 a ≡ (failed, a)
unfolding pages
failed_pages io size offset fuel move a fails pos =
    let more : ltb 0 size ≡ true = ground arith in rw (more, fails (offset + 0)) refl

module _ (dev : Device) (fails : (p : ℕ) → dev.pwrite p ≡ none) (pos : 0 < dev.block_size)
    (enabled : dev.write_enabled ≡ true) where
  write_block-fails : (b : Block) (o : ℕ) (s : BlockCache) → write_block dev b o s ≡ (ok false, s)
  unfolding write_block
  write_block-fails b o s =
      rw
        (
          enabled,
          failed_pages dev.pwrite dev.block_size o dev.block_size (λ n k d. spliced (o + n) n k b d)
              s.disk fails pos,
        )
        refl

  write_found-fails :
      (o : ℕ) (v : Option Block) (s : BlockCache) → write_found dev o v s ≡ (ok tt, s)
  unfolding write_found
  write_found-fails o none s = refl
  write_found-fails o (some b) s = rw (write_block-fails b o s) refl

  flush_blocks-fails : (os : List ℕ) (s : BlockCache) → flush_blocks dev os s ≡ (ok tt, s)
  unfolding flush_blocks
  flush_blocks-fails [] s = refl
  flush_blocks-fails (o ∷ os) s =
      let step : flush_one dev o s ≡ (ok tt, s) =
        unfold flush_one in write_found-fails o (s.cache o) s in
      rw step (flush_blocks-fails os s)

  -- On a device that has writing enabled, blocks that are not empty, and fails at every write,
  -- flushing the cache still returns without an error, writes nothing, and empties the list of what
  -- is to be written.
  pub flush_cache-fails :
      (s : BlockCache) → flush_cache dev s ≡ (ok tt, record s { flush_list = [] })
  unfolding flush_cache
  flush_cache-fails s = rw (flush_blocks-fails s.flush_list s) refl

-- A loop of pages that has bytes left to move and whose calls move none, as pread does at the end
-- of a file, does not end: no number of rounds is enough.
pub pages-unfinished :
    {A : Type 0} (io : ℕ → Option ℕ) (size offset : ℕ) (move : ℕ → ℕ → A → A) (fuel n : ℕ) (a : A)
    → ((p : ℕ) → io p ≡ some 0)
    → n < size
    → (pages io size offset move fuel n a).0 ≡ unfinished
unfolding pages
pages-unfinished io size offset move zero n a stuck h = refl
pages-unfinished io size offset move (suc fuel) n a stuck h =
    let more : ltb n size ≡ true = ground arith in
    rw (more, stuck (offset + n))
      (pages-unfinished io size offset move fuel (n + 0) (move n 0 a) stuck (omega arith))
