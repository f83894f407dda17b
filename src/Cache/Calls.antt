-- ===== src/Cache/Calls.antt =====
-- Any sequence of calls on the block cache (cache/cache.cpp).
use sql_relational_database.Common.Int.{ℤ, pos, negsuc}
use sql_relational_database.Common.{List, [], ◌∷◌, ℕ, ◌≡◌, inr, sym, ap, ◌∙◌, All}
use sql_relational_database.Cache.{
  flush_block, flush_cache, get_block, drop_block, Block, Device, BlockCache, load_block, new_block,
}
use sql_relational_database.Cache.Flush.{flush_cache-IsSynced, WritesPages, IsAligned}
use sql_relational_database.Cache.Tracked.{
  listed-IsConsistent, drop_block-IsConsistent, write_through, write_through-IsConsistent,
  ReadsPages, IsConsistent,
}
use sql_relational_database.Cache.Loads.{
  load_block-IsConsistent, new_block-IsConsistent, get_block-IsConsistent,
}

flush_block-IsConsistent :
    (size o : ℕ) (s : BlockCache) → IsConsistent size s → IsConsistent size (flush_block o s).1
flush_block-IsConsistent size o s c =
    listed-IsConsistent size o s c.aligned (λ x b n. c.tracked x b)

flush_cache-IsConsistent :
    (dev : Device) (s : BlockCache)
    → WritesPages dev
    → IsConsistent dev.block_size s
    → IsConsistent dev.block_size (flush_cache dev s).1
flush_cache-IsConsistent dev s w c =
    let (ends, (emptied, (kept, synced))) = flush_cache-IsSynced dev s w c.aligned c.tracked in
    record {
      aligned = λ x b e. c.aligned x b (ap (λ f. f x) (sym kept) ∙ e);
      tracked = λ x b e. inr (synced x b (ap (λ f. f x) (sym kept) ∙ e));
    }

-- The public calls: drop_block, get_block, load_block, new_block, flush_block and flush_cache, and
-- change_at for a holder of a block that writes to it and then calls flush_block. The offsets of
-- load_block, new_block and flush_block are not negative.
pub data Call : Type 0 where
  drop_at get_at_position : ℤ → Call
  load_at new_at flush_at : ℕ → Call
  flush_all : Call
  change_at : ℕ → (Block → Block) → Call

unfoldable pub run_call : Device → Call → BlockCache → BlockCache
run_call dev (drop_at (pos o)) s = (drop_block o s).1
run_call dev (drop_at (negsuc n)) s = s
run_call dev (get_at_position z) s = (get_block dev z s).1
run_call dev (load_at o) s = (load_block dev o s).1
run_call dev (new_at o) s = (new_block dev o s).1
run_call dev (flush_at o) s = (flush_block o s).1
run_call dev flush_all s = (flush_cache dev s).1
run_call dev (change_at o f) s = (write_through o f s).1

unfoldable pub run_calls : Device → List Call → BlockCache → BlockCache
unfolding run_call
run_calls dev [] s = s
run_calls dev (call ∷ calls) s = run_calls dev calls (run_call dev call s)

-- A block is loaded or made at a multiple of the block size.
abbrev pub IsPlaced : ℕ → Call → Type 0
IsPlaced size (drop_at z) = Unit
IsPlaced size (get_at_position z) = Unit
IsPlaced size (load_at o) = IsAligned size o
IsPlaced size (new_at o) = IsAligned size o
IsPlaced size (flush_at o) = Unit
IsPlaced size flush_all = Unit
IsPlaced size (change_at o f) = Unit

run_call-IsConsistent :
    (dev : Device) (call : Call) (s : BlockCache)
    → ReadsPages dev
    → WritesPages dev
    → dev.block_size ≡ 32768
    → IsPlaced dev.block_size call
    → IsConsistent dev.block_size s
    → IsConsistent dev.block_size (run_call dev call s)
unfolding run_call
run_call-IsConsistent dev (drop_at (pos o)) s r w e p c =
    drop_block-IsConsistent dev.block_size o s c
run_call-IsConsistent dev (drop_at (negsuc n)) s r w e p c = c
run_call-IsConsistent dev (get_at_position z) s r w e p c = get_block-IsConsistent dev z s r e c
run_call-IsConsistent dev (load_at o) s r w e p c = load_block-IsConsistent dev o s r p c
run_call-IsConsistent dev (new_at o) s r w e p c = new_block-IsConsistent dev o s w p c
run_call-IsConsistent dev (flush_at o) s r w e p c = flush_block-IsConsistent dev.block_size o s c
run_call-IsConsistent dev flush_all s r w e p c = flush_cache-IsConsistent dev s w c
run_call-IsConsistent dev (change_at o f) s r w e p c =
    write_through-IsConsistent dev.block_size o f s c

-- On a device that reads and writes whole pages, with writing enabled and blocks of 32768 bytes,
-- any sequence of calls of drop_block, get_block, load_block, new_block, flush_block and
-- flush_cache keeps a consistent cache consistent, provided that load_block and new_block are
-- called with multiples of the block size, that they and flush_block are not called with a negative
-- offset, and that a holder that changes a block calls flush_block before the next call. Consistent
-- means that the blocks in the cache lie at multiples of the block size, and that each of them is
-- on the list or in the file as it is.
pub run_calls-IsConsistent :
    (dev : Device) (calls : List Call) (s : BlockCache)
    → ReadsPages dev
    → WritesPages dev
    → dev.block_size ≡ 32768
    → All (IsPlaced dev.block_size) calls
    → IsConsistent dev.block_size s
    → IsConsistent dev.block_size (run_calls dev calls s)
unfolding run_calls
run_calls-IsConsistent dev [] s r w e placed c = c
run_calls-IsConsistent dev (call ∷ calls) s r w e (here, placed) c =
    run_calls-IsConsistent dev calls (run_call dev call s) r w e placed
      (run_call-IsConsistent dev call s r w e here c)
