-- ===== src/Cache/Tracked.antt =====
-- What every call on the block cache keeps (cache/cache.cpp).
use sql_relational_database.Common.{
  ◌∙◌, ap, sym, ℕ_discrete, ◌⊎◌, subst, ℕ, ◌*◌, ◌<◌, ◌≡◌, ◌≢◌, inl, inr, refl, true, List, [], ◌∷◌,
  ◌++◌, Option, some, arith, Bool-cases,
}
use sql_relational_database.Common.Exec.{Exec, ◌>>=◌, ◌>>◌}
use sql_relational_database.Cache.{
  ◌>>=◌, ◌>>◌, none, Exec, drop_block, change_block, Block, Device, BlockCache, contains, set_entry,
  flush_block,
}
use sql_relational_database.Cache.Flush.{IsSynced, IsAligned, AreAligned, IsTracked}

-- Each call reads a page, and the block is so many pages.
pub record ReadsPages (dev : Device) : Type 0 where
  pub page : ℕ
  pub count : ℕ
  pub positive : 0 < page
  pub whole : (p : ℕ) → dev.pread p ≡ some page
  pub divides : count * page ≡ dev.block_size

pub record IsConsistent (size : ℕ) (s : BlockCache) : Type 0 where
  pub aligned : AreAligned size s.cache
  pub tracked : IsTracked size s.cache s.flush_list s.disk

contains-append :
    (o x : ℕ) (xs : List ℕ) → contains o xs ≡ true → contains o (xs ++ (x ∷ [])) ≡ true
contains-append o x [] h = cc
contains-append o x (y ∷ xs) h = ground (arith, contains-append o x xs)

contains_last : (o : ℕ) (xs : List ℕ) → contains o (xs ++ (o ∷ [])) ≡ true
contains_last o [] = ground arith
contains_last o (y ∷ xs) = ground (arith, contains_last o xs)

-- After it the offset is on the list, and what was on it still is.
flush_block_lem :
    (o : ℕ) (s : BlockCache)
    → let (r, t) = flush_block o s in
      ((t.cache ≡ s.cache) × (t.disk ≡ s.disk))
      × ((contains o t.flush_list ≡ true)
          × ((x : ℕ) → contains x s.flush_list ≡ true → contains x t.flush_list ≡ true))
unfolding flush_block
flush_block_lem o s = elim (Bool-cases (contains o s.flush_list)) [
  | inl h ↦ rw h ((refl, refl), (h, (λ x k. k)))
  | inr h ↦
      rw h
        ((refl, refl), (contains_last o s.flush_list, (λ x k. contains-append x o s.flush_list k)))
]

pub set_entry-other :
    (f : ℕ → Option Block) (o x : ℕ) (v : Option Block) → o ≢ x → set_entry f o v x ≡ f x
set_entry-other f o x v n = ground arith

pub set_entry_here : (f : ℕ → Option Block) (o : ℕ) (v : Option Block) → set_entry f o v o ≡ v
set_entry_here f o v = ground arith

-- Another entry at an offset, whose block lies on the list or is in the file.
pub set_entry-IsConsistent :
    (size : ℕ) (s : BlockCache) (o : ℕ) (v : Option Block)
    → IsConsistent size s
    → ((b : Block)
        → v ≡ some b
        → IsAligned size o × ((contains o s.flush_list ≡ true) ⊎ IsSynced size s.disk o b))
    → IsConsistent size (record s { cache = set_entry s.cache o v })
set_entry-IsConsistent size s o v c good = record {
  aligned = λ x b e. elim (ℕ_discrete o x) [
    | yes p ↦ subst (IsAligned size) p (good b (here x b p e)).0
    | no n ↦ c.aligned x b (sym (set_entry-other s.cache o x v n) ∙ e)
  ];
  tracked = λ x b e. elim (ℕ_discrete o x) [
    | yes p ↦
        subst (λ y. (contains y s.flush_list ≡ true) ⊎ IsSynced size s.disk y b) p
          (good b (here x b p e)).1
    | no n ↦ c.tracked x b (sym (set_entry-other s.cache o x v n) ∙ e)
  ];
}
  where
    here : (x : ℕ) (b : Block) → o ≡ x → set_entry s.cache o v x ≡ some b → v ≡ some b
    here x b p e = sym (set_entry_here s.cache o v) ∙ ap (set_entry s.cache o v) p ∙ e

pub drop_block-IsConsistent :
    (size : ℕ) (o : ℕ) (s : BlockCache) → IsConsistent size s → IsConsistent size (drop_block o s).1
unfolding drop_block
drop_block-IsConsistent size o s c = set_entry-IsConsistent size s o none c (λ b e. cc)

-- A holder of a block writes to it and then puts it on the list, as class node does.
abbrev pub write_through : ℕ → (Block → Block) → Exec BlockCache (Unit {0})
write_through o f = change_block o f >> flush_block o

pub listed-IsConsistent :
    (size : ℕ) (o : ℕ) (s : BlockCache)
    → AreAligned size s.cache
    → ((x : ℕ) (b : Block)
        → o ≢ x
        → s.cache x ≡ some b
        → (contains x s.flush_list ≡ true) ⊎ IsSynced size s.disk x b)
    → IsConsistent size (flush_block o s).1
listed-IsConsistent size o s aligned tracked =
    let ((same_cache, same_disk), (on_list, still)) = flush_block_lem o s in
    record {
      aligned = λ x b e. aligned x b (ap (λ f. f x) (sym same_cache) ∙ e);
      tracked = λ x b e. elim (ℕ_discrete o x) [
        | yes p ↦ inl (subst (λ y. contains y (flush_block o s).1.flush_list ≡ true) p on_list)
        | no n ↦ elim (tracked x b n (ap (λ f. f x) (sym same_cache) ∙ e)) [
          | inl l ↦ inl (still x l)
          | inr k ↦ inr (rw same_disk k)
        ]
      ];
    }

changed-IsConsistent :
    (size : ℕ) (o : ℕ) (s : BlockCache) (b : Block)
    → IsConsistent size s
    → IsAligned size o
    → IsConsistent size (flush_block o (record s { cache = set_entry s.cache o (some b) })).1
changed-IsConsistent size o s b c a =
    listed-IsConsistent size o (record s { cache = set_entry s.cache o (some b) })
      (λ x b' e. elim (ℕ_discrete o x) [
        | yes p ↦ subst (IsAligned size) p a
        | no n ↦ c.aligned x b' (sym (set_entry-other s.cache o x (some b) n) ∙ e)
      ])
      (λ x b' n e. c.tracked x b' (sym (set_entry-other s.cache o x (some b) n) ∙ e))

pub write_through-IsConsistent :
    (size : ℕ) (o : ℕ) (f : Block → Block) (s : BlockCache)
    → IsConsistent size s
    → IsConsistent size (write_through o f s).1
unfolding change_block ◌>>=◌
write_through-IsConsistent size o f s c = go (s.cache o) refl
  where
    go : (v : Option Block) → s.cache o ≡ v → IsConsistent size (write_through o f s).1
    go none e = rw e (listed-IsConsistent size o s c.aligned (λ x b n. c.tracked x b))
    go (some b) e = rw e (changed-IsConsistent size o s (f b) c (c.aligned o b e))
