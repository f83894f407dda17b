-- ===== src/Cache/Flush.antt =====
-- flush_cache on a device that moves whole pages (cache/cache.cpp).
use mathlib.Core.Option.{some-injective}
use sql_relational_database.Common.{
  subst, ℕ, zero, suc, ◌+◌, ◌-◌, ◌*◌, ◌≤◌, ◌<◌, ◌≡◌, ◌⊎◌, inl, inr, refl, sym, ap, ◌∙◌, true, List,
  [], ◌∷◌, Option, some, none, arith, ltb, leb, ◌&&◌, spliced, ℕ_discrete, dec_lt, ◌≢◌,
}
use sql_relational_database.Common.Exec.{ok}
use sql_relational_database.Cache.{
  Block, Device, BlockCache, contains, write_block, flush_one, write_found, flush_blocks,
  flush_cache,
}
use sql_relational_database.Cache.Pages.{written_pages}

-- Each call writes a page, a block is `pages` of them, and writing is enabled.
pub record WritesPages (dev : Device) : Type 0 where
  pub page : ℕ
  pub count : ℕ
  pub positive : 0 < page
  pub whole : (p : ℕ) → dev.pwrite p ≡ some page
  pub divides : count * page ≡ dev.block_size
  pub enabled : dev.write_enabled ≡ true

-- The blocks in the cache lie at multiples of the block size.
pub record IsAligned (size : ℕ) (o : ℕ) : Type 0 where
  pub number : ℕ
  pub at : number * size ≡ o

-- The file holds the bytes of the block at its offset.
abbrev pub IsSynced : ℕ → (ℕ → ℕ) → ℕ → Block → Type 0
IsSynced size disk o b = (j : ℕ) → j < size → disk (o + j) ≡ b j

-- Each block in the cache is on the list, or the file holds it.
abbrev pub IsTracked : ℕ → (ℕ → Option Block) → List ℕ → (ℕ → ℕ) → Type 0
IsTracked size cache os disk =
    (o : ℕ) (b : Block) → cache o ≡ some b → (contains o os ≡ true) ⊎ IsSynced size disk o b

abbrev pub overlay : ℕ → Option Block → ℕ → (ℕ → ℕ) → ℕ → ℕ
overlay size none o d = d
overlay size (some b) o d = spliced o 0 size b d

abbrev flushed : ℕ → (ℕ → Option Block) → List ℕ → (ℕ → ℕ) → ℕ → ℕ
flushed size cache [] d = d
flushed size cache (o ∷ os) d = flushed size cache os (overlay size (cache o) o d)

pub write_block_lem :
    (dev : Device) (b : Block) (o : ℕ) (s : BlockCache)
    → WritesPages dev
    → write_block dev b o s ≡ (ok true, record s { disk = spliced o 0 dev.block_size b s.disk })
unfolding write_block
write_block_lem dev b o s w =
    rw
      (
        w.enabled,
        written_pages dev.pwrite w.page w.count dev.block_size o w.positive w.whole w.divides b
            s.disk,
      )
      refl

write_found_lem :
    (dev : Device) (o : ℕ) (v : Option Block) (s : BlockCache)
    → WritesPages dev
    → write_found dev o v s ≡ (ok tt, record s { disk = overlay dev.block_size v o s.disk })
unfolding write_found
write_found_lem dev o none s w = refl
write_found_lem dev o (some b) s w = rw (write_block_lem dev b o s w) refl

flush_blocks_lem :
    (dev : Device) (os : List ℕ) (s : BlockCache)
    → WritesPages dev
    → flush_blocks dev os s ≡ (ok tt, record s { disk = flushed dev.block_size s.cache os s.disk })
unfolding flush_blocks
flush_blocks_lem dev [] s w = refl
flush_blocks_lem dev (o ∷ os) s w =
    let step : flush_one dev o s
        ≡ (ok tt, record s { disk = overlay dev.block_size (s.cache o) o s.disk }) =
      unfold flush_one in write_found_lem dev o (s.cache o) s w in
    rw step
      (flush_blocks_lem dev os (record s { disk = overlay dev.block_size (s.cache o) o s.disk }) w)

-- Blocks at different multiples of the size do not meet.
apart : (a b size : ℕ) → a < b → a * size + size ≤ b * size
apart a zero size h = absurd (omega arith)
apart a (suc b) size h =
    let product : suc b * size ≡ b * size + size = omega arith in
    elim (ℕ_discrete a b) [
      | yes e ↦ rw e (omega arith)
      | no n ↦ omega (arith, apart a b size (omega arith))
    ]

spliced-apart :
    (size a c : ℕ) (g f : ℕ → ℕ) (j : ℕ)
    → a ≢ c
    → j < size
    → spliced (a * size) 0 size g f (c * size + j) ≡ f (c * size + j)
spliced-apart size a c g f j n h = elim (dec_lt a c) [
  | yes p ↦ let gap = apart a c size p in ground arith
  | no p ↦ let gap = apart c a size (omega arith) in ground arith
]

pub spliced-here :
    (size o : ℕ) (g f : ℕ → ℕ) (j : ℕ) → j < size → spliced o 0 size g f (o + j) ≡ g j
spliced-here size o g f j h =
    let inside : (leb o (o + j) && ltb (o + j) (o + size)) ≡ true = ground arith in
    let back : 0 + (o + j - o) ≡ j = omega arith in rw (inside, back) refl

abbrev pub AreAligned : ℕ → (ℕ → Option Block) → Type 0
AreAligned size cache = (o : ℕ) (b : Block) → cache o ≡ some b → IsAligned size o

module _ (size : ℕ) (cache : ℕ → Option Block) (aligned : AreAligned size cache) where
  -- What is in the file stays, when another block or the same one is written.
  pub overlay-IsSynced :
      (x : ℕ) (v : Option Block) (d : ℕ → ℕ) (o : ℕ) (b : Block)
      → cache x ≡ v
      → cache o ≡ some b
      → IsSynced size d o b
      → IsSynced size (overlay size v x d) o b
  overlay-IsSynced x none d o b p q s j h = s j h
  overlay-IsSynced x (some c) d o b p q s j h = elim (ℕ_discrete x o) [
    | yes e ↦
        let same : c ≡ b = some-injective c b (sym p ∙ ap cache e ∙ q) in
        rw (e, same) (spliced-here size o b d j h)
    | no n ↦
        let ax = aligned x c p in
        let ao = aligned o b q in
        let kept =
          spliced-apart size ax.number ao.number c d j
            (λ e. n (sym ax.at ∙ ap (λ m. m * size) e ∙ ao.at)) h in
        elsewhere (ax.number * size) (ao.number * size) ax.at ao.at kept ∙ s j h
  ]
    where
      elsewhere :
          (x' o' : ℕ)
          → x' ≡ x
          → o' ≡ o
          → spliced x' 0 size c d (o' + j) ≡ d (o' + j)
          → spliced x 0 size c d (o + j) ≡ d (o + j)
      elsewhere x' o' p q k = rw (← p, ← q) k

  overlay-here :
      (v : Option Block) (d : ℕ → ℕ) (o : ℕ) (b : Block)
      → v ≡ some b
      → IsSynced size (overlay size v o d) o b
  overlay-here v d o b e j h = rw e (spliced-here size o b d j h)

  overlay-IsTracked :
      (x : ℕ) (os : List ℕ) (d : ℕ → ℕ)
      → IsTracked size cache (x ∷ os) d
      → IsTracked size cache os (overlay size (cache x) x d)
  overlay-IsTracked x os d tracked o b e = elim (tracked o b e) [
    | inl listed ↦ elim (ℕ_discrete o x) [
      | yes p ↦ inr (
          subst (λ y. IsSynced size (overlay size (cache y) y d) o b) p
            (overlay-here (cache o) d o b e))
      | no n ↦ inl (ground arith)
    ]
    | inr s ↦ inr (overlay-IsSynced x (cache x) d o b refl e s)
  ]

  flushed-IsSynced :
      (os : List ℕ) (d : ℕ → ℕ)
      → IsTracked size cache os d
      → (o : ℕ) (b : Block) → cache o ≡ some b
      → IsSynced size (flushed size cache os d) o b
  flushed-IsSynced [] d tracked o b e = elim (tracked o b e) [ inl listed ↦ cc | inr s ↦ s ]
  flushed-IsSynced (x ∷ os) d tracked o b e =
      flushed-IsSynced os (overlay size (cache x) x d) (overlay-IsTracked x os d tracked) o b e

-- On a device that writes whole pages, with writing enabled, flushing the cache ends without an
-- error, empties the list, leaves the blocks in the cache as they are, and every one of them is in
-- the file afterwards, provided that they lie at multiples of the block size and that each block
-- that differs from the file was on the list.
pub flush_cache-IsSynced :
    (dev : Device) (s : BlockCache)
    → WritesPages dev
    → AreAligned dev.block_size s.cache
    → IsTracked dev.block_size s.cache s.flush_list s.disk
    → let (r, t) = flush_cache dev s in
      (r ≡ ok tt)
      × ((t.flush_list ≡ [])
          × ((t.cache ≡ s.cache)
              × ((o : ℕ) (b : Block) → s.cache o ≡ some b → IsSynced dev.block_size t.disk o b)))
unfolding flush_cache
flush_cache-IsSynced dev s w aligned tracked = rw (flush_blocks_lem dev s.flush_list s w) (
  refl,
  (refl, (refl, flushed-IsSynced dev.block_size s.cache aligned s.flush_list s.disk tracked)),
)
