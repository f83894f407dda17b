-- ===== src/Cache/Loads.antt =====
-- Reading a block, making one and looking one up keep the cache consistent (cache/cache.cpp).
use mathlib.Core.Option.{some-injective}
use sql_relational_database.Common.Int.{ℤ, pos, negsuc}
use sql_relational_database.Common.Exec.{◌>>=◌, Result, ok}
use sql_relational_database.Common.{
  ◌==◌, ◌%◌, ◌/◌, ℕ, ◌+◌, ◌<◌, ◌≡◌, inl, inr, refl, sym, ap, ◌∙◌, Bool, true, false, Option, some,
  none, arith, leb, if◌then◌else◌, spliced, subst, ℕ_discrete,
}
use sql_relational_database.Cache.{
  get_block, found_block, Block, Device, BlockCache, set_entry, read_block, load_block, new_block,
}
use sql_relational_database.Cache.Pages.{read_pages}
use sql_relational_database.Cache.Flush.{
  WritesPages, IsAligned, IsSynced, write_block_lem, overlay-IsSynced, spliced-here,
}
use sql_relational_database.Cache.Tracked.{
  ReadsPages, IsConsistent, set_entry-IsConsistent, set_entry_here, set_entry-other,
}

spliced-here_from :
    (size o : ℕ) (g f : ℕ → ℕ) (j : ℕ) → j < size → spliced 0 o size g f j ≡ g (o + j)
spliced-here_from size o g f j h = ground arith

read_block_lem :
    (dev : Device) (o : ℕ) (s : BlockCache)
    → ReadsPages dev
    → read_block dev o s ≡ (ok (some (spliced 0 o dev.block_size s.disk (λ _. 0))), s)
unfolding read_block
read_block_lem dev o s r =
    rw
      (read_pages dev.pread r.page r.count dev.block_size o r.positive r.whole r.divides s.disk
        (λ _. 0))
      refl

pub load_block-IsConsistent :
    (dev : Device) (o : ℕ) (s : BlockCache)
    → ReadsPages dev
    → IsAligned dev.block_size o
    → IsConsistent dev.block_size s
    → IsConsistent dev.block_size (load_block dev o s).1
unfolding load_block
load_block-IsConsistent dev o s r a c =
    rw (read_block_lem dev o s r) (by_cases (leb s.next_offset o) dev.allocates)
  where
    loaded : Block
    loaded = spliced 0 o dev.block_size s.disk (λ _. 0)

    inserted : IsConsistent dev.block_size (record s { cache = set_entry s.cache o (some loaded) })
    inserted = set_entry-IsConsistent dev.block_size s o (some loaded) c (λ b e. (
      a,
      inr (λ j l.
          sym (spliced-here_from dev.block_size o s.disk (λ _. 0) j l)
          ∙ ap (λ f. f j) (some-injective loaded b e)),
    ))

    by_cases :
        (past allocates : Bool)
        → IsConsistent dev.block_size
            (let load : Result (Option Block) × BlockCache =
                (ok (some loaded), record s { cache = set_entry s.cache o (some loaded) }) in
              if past then (ok none, s) else if allocates then load else (ok none, s)).1
    by_cases true allocates = c
    by_cases false true = inserted
    by_cases false false = c

-- The file and the cache both have a block of zeros at an offset.
zeros-IsConsistent :
    (size o : ℕ) (s : BlockCache)
    → IsAligned size o
    → IsConsistent size s
    → IsConsistent size (record s {
      disk = spliced o 0 size (λ _. 0) s.disk;
      cache = set_entry s.cache o (some (λ _. 0));
    })
zeros-IsConsistent size o s a c = record {
  aligned = aligned;
  tracked = λ x b e. elim (ℕ_discrete o x) [
    | yes p ↦ inr (
        subst (λ y. IsSynced size (spliced o 0 size (λ _. 0) s.disk) y b) p
          (λ j l.
            spliced-here size o (λ _. 0) s.disk j l
            ∙ ap (λ f. f j) (some-injective (λ _. 0) b (sym here ∙ ap entries p ∙ e))))
    | no n ↦ elim (c.tracked x b (sym (set_entry-other s.cache o x _ n) ∙ e)) [
      | inl l ↦ inl l
      | inr y ↦ inr (overlay-IsSynced size entries aligned o (some (λ _. 0)) s.disk x b here e y)
    ]
  ];
}
  where
    entries : ℕ → Option Block
    entries = set_entry s.cache o (some (λ _. 0))

    here : entries o ≡ some (λ _. 0)
    here = set_entry_here s.cache o (some (λ _. 0))

    aligned : (x : ℕ) (b : Block) → entries x ≡ some b → IsAligned size x
    aligned x b e = elim (ℕ_discrete o x) [
      | yes p ↦ subst (IsAligned size) p a
      | no n ↦ c.aligned x b (sym (set_entry-other s.cache o x _ n) ∙ e)
    ]

pub new_block-IsConsistent :
    (dev : Device) (o : ℕ) (s : BlockCache)
    → WritesPages dev
    → IsAligned dev.block_size o
    → IsConsistent dev.block_size s
    → IsConsistent dev.block_size (new_block dev o s).1
unfolding new_block
new_block-IsConsistent dev o s w a c =
    rw (write_block_lem dev (λ _. 0) o s w) (by_cases dev.allocates)
  where
    by_cases :
        (allocates : Bool)
        → IsConsistent dev.block_size
            (let made : Result (Option Block) × BlockCache = (
              ok (some (λ _. 0)),
              record s {
                disk = spliced o 0 dev.block_size (λ _. 0) s.disk;
                cache = set_entry s.cache o (some (λ _. 0));
              },
            ) in
              if allocates then made else (ok none, s)).1
    by_cases true = zeros-IsConsistent dev.block_size o s a c
    by_cases false = c

found_block-IsConsistent :
    (dev : Device) (o : ℕ) (v : Option Block) (s : BlockCache)
    → ReadsPages dev
    → IsAligned dev.block_size o
    → IsConsistent dev.block_size s
    → IsConsistent dev.block_size (found_block dev o v s).1
unfolding found_block ◌>>=◌
found_block-IsConsistent dev o none s r a c = load_block-IsConsistent dev o s r a c
found_block-IsConsistent dev o (some b) s r a c = c

multiple : (size o : ℕ) → size ≡ 32768 → o % 32768 ≡ 0 → IsAligned size o
multiple size o e h = record { number = o / 32768; at = rw e (omega arith) }

pub get_block-IsConsistent :
    (dev : Device) (z : ℤ) (s : BlockCache)
    → ReadsPages dev
    → dev.block_size ≡ 32768
    → IsConsistent dev.block_size s
    → IsConsistent dev.block_size (get_block dev z s).1
unfolding get_block
get_block-IsConsistent dev (negsuc n) s r size c = c
get_block-IsConsistent dev (pos o) s r size c = elim (ℕ_discrete (o % 32768) 0) [
  | yes h ↦
      let test : (o % 32768 == 0) ≡ true = ground arith in
      rw test (found_block-IsConsistent dev o (s.cache o) s r (multiple dev.block_size o size h) c)
  | no h ↦ let test : (o % 32768 == 0) ≡ false = ground arith in rw test c
]
