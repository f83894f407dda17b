-- ===== src/Cache/Tests.antt =====
-- Runs of the block cache, and each of its theorems at an input.
use sql_relational_database.Common.{
  All, ◌++◌, if◌then◌else◌, ◌==◌, ℕ, ◌≡◌, refl, arith, true, [], ◌∷◌, some, none, inl, spliced,
}
use sql_relational_database.Tree.Key.{compare_key}
use sql_relational_database.Cache.Jobs.{
  type_flush, type_purge, Job, add_job, kill, Files, found, flushes_cache, saves_schema, Effect,
  Ending, returned, thrown, do_work, IsServed, IsLast, do_work_lem,
}
use sql_relational_database.Common.Int.{pos}
use sql_relational_database.Common.Exec.{ok}
use sql_relational_database.Cache.{
  List, false, Block, Device, BlockCache, flush_cache, pages, unfinished,
}
use sql_relational_database.Cache.Flush.{WritesPages, IsAligned, IsSynced, flush_cache-IsSynced}
use sql_relational_database.Cache.Tracked.{ReadsPages, IsConsistent}
use sql_relational_database.Cache.Calls.{
  Call, drop_at, load_at, flush_at, flush_all, IsPlaced, get_at_position, change_at, new_at,
  run_calls, run_calls-IsConsistent,
}
use sql_relational_database.Cache.Failures.{flush_cache-fails, pages-unfinished}

-- Blocks of eight pages.
abbrev device : Device
device = record {
  block_size = 32768;
  write_enabled = true;
  allocates = true;
  pread = λ p. some 4096;
  pwrite = λ p. some 4096;
}

abbrev full_device : Device
full_device = record device { pwrite = λ p. none }

device-ReadsPages : ReadsPages device
device-ReadsPages = record {
  page = 4096;
  count = 8;
  positive = omega arith;
  whole = λ p. refl;
  divides = refl;
}

device-WritesPages : WritesPages device
device-WritesPages = record {
  page = 4096;
  count = 8;
  positive = omega arith;
  whole = λ p. refl;
  divides = refl;
  enabled = refl;
}

abbrev ones : Block
ones i = 1

-- Nothing in memory, and a file of one block.
abbrev cold : BlockCache
cold = record { cache = λ o. none; flush_list = []; next_offset = 32768; disk = λ p. p }

cold-IsConsistent : IsConsistent 32768 cold
cold-IsConsistent = record { aligned = λ o b e. cc; tracked = λ o b e. cc }

abbrev all_calls : List Call
all_calls =
    get_at_position (pos 0)
    ∷ change_at 0 (λ b. ones)
    ∷ new_at 32768
    ∷ drop_at (pos 0)
    ∷ load_at 0
    ∷ flush_at 0
    ∷ flush_all
    ∷ []

at_zero : IsAligned 32768 0
at_zero = record { number = 0; at = refl }

all_calls-IsPlaced : All (IsPlaced 32768) all_calls
all_calls-IsPlaced = (tt, (tt, (record { number = 1; at = refl }, (tt, (at_zero, (tt, (tt, tt)))))))

run_calls-IsConsistent_example : IsConsistent 32768 (run_calls device all_calls cold)
run_calls-IsConsistent_example =
    run_calls-IsConsistent device all_calls cold device-ReadsPages device-WritesPages refl
      all_calls-IsPlaced cold-IsConsistent

abbrev warm : BlockCache
warm = record cold { cache = λ o. if o == 0 then some ones else none; flush_list = 0 ∷ [] }

only_zero : (o : ℕ) (b : Block) → warm.cache o ≡ some b → 0 ≡ o
only_zero o b e = ground arith

warm-IsConsistent : IsConsistent 32768 warm
warm-IsConsistent = record {
  aligned = λ o b e. record { number = 0; at = only_zero o b e };
  tracked = λ o b e. inl (let zero : 0 ≡ o = only_zero o b e in ground arith);
}

flush_cache-IsSynced_example :
    let (r, t) = flush_cache device warm in
    (r ≡ ok tt)
    × ((t.flush_list ≡ [])
        × ((t.cache ≡ warm.cache)
            × ((o : ℕ) (b : Block) → warm.cache o ≡ some b → IsSynced 32768 t.disk o b)))
flush_cache-IsSynced_example =
    flush_cache-IsSynced device warm device-WritesPages warm-IsConsistent.aligned
      warm-IsConsistent.tracked

flush_cache-fails_example : flush_cache full_device warm ≡ (ok tt, record warm { flush_list = [] })
flush_cache-fails_example = flush_cache-fails full_device (λ p. refl) (omega arith) refl warm

pages-unfinished_example :
    (pages (λ p. some 0) 32768 0 (λ n k d. spliced n n k ones d) 32769 0 ones).0 ≡ unfinished
pages-unfinished_example =
    pages-unfinished (λ p. some 0) 32768 0 (λ n k d. spliced n n k ones d) 32769 0 ones (λ p. refl)
      (omega arith)

abbrev all_files : Files
all_files = record { lookup = λ name. found; saves = λ name. true }

-- A flush of the table "a", and a purge of the table "b".
abbrev two_jobs : List Job
two_jobs =
    record { type = type_flush; name = 97 ∷ [] } ∷ record { type = type_purge; name = 98 ∷ [] } ∷ []

abbrev two_effects : List Effect
two_effects =
    flushes_cache (97 ∷ [])
    ∷ saves_schema (97 ∷ [])
    ∷ flushes_cache (98 ∷ [])
    ∷ saves_schema (98 ∷ [])
    ∷ []

two_jobs-IsServed : All (IsServed all_files) two_jobs
unfolding compare_key
two_jobs-IsServed = ((refl, (refl, refl)), ((refl, (refl, refl)), tt))

do_work_lem_example :
    (do_work all_files two_jobs ≡ (two_effects, ([], returned)))
    × ((job : Job) (rest : List Job) (ending : Ending) (last : List Effect)
        → IsLast all_files job ending last
        → do_work all_files (two_jobs ++ (job ∷ rest)) ≡ (two_effects ++ last, (rest, ending)))
do_work_lem_example = do_work_lem all_files two_jobs two_jobs-IsServed

-- A flush asked for before the kill is done, and one asked for after it stays in the queue.
late_flush :
    let queue = add_job type_flush (97 ∷ []) (record { running = true; jobs = [] }) in
    let killed = kill queue in
    let late : Job = record { type = type_flush; name = 98 ∷ [] } in
    do_work all_files (add_job type_flush (98 ∷ []) killed).jobs
    ≡ (flushes_cache (97 ∷ []) ∷ saves_schema (97 ∷ []) ∷ [], (late ∷ [], returned))
unfolding add_job kill do_work compare_key
late_flush = refl

-- The schema that cannot be saved ends the work by an exception, with the block cache flushed.
unsaved :
    do_work (record all_files { saves = λ name. false }) two_jobs
    ≡ (flushes_cache (97 ∷ []) ∷ [], (record { type = type_purge; name = 98 ∷ [] } ∷ [], thrown))
unfolding do_work compare_key
unsaved = refl
