-- ===== src/Tree/Search.antt =====
-- The binary search of node::find_key on a sorted node, and what node::find makes of it.
use sql_relational_database.Common.{
  ℕ, zero, suc, ◌+◌, ◌-◌, ◌/◌, ◌≤◌, ◌<◌, ◌≡◌, ◌≢◌, ◌⊎◌, inl, inr, refl, arith, ltb, Bool-cases,
  ltb→lt, ltb-false→le,
}
use sql_relational_database.Tree.Key.{
  Key, Sign, less, same, greater, compare_key, less_trans, greater_trans,
}
use sql_relational_database.Tree.Node.{Node, search_loop, find_key}

-- The first n keys ascend, not necessarily strictly.
abbrev pub IsSorted : (ℕ → Key) → ℕ → Type 0
IsSorted keys n = (i j : ℕ) → i ≤ j → j < n → compare_key (keys i) (keys j) ≢ greater

-- Slot r holds the key, or r splits the first n keys: those before it are less than the key, and
-- those from it on are greater.
abbrev pub Splits : (ℕ → Key) → ℕ → Key → ℕ → Type 0
Splits keys n key r =
    (r ≤ n)
    × ((j : ℕ) → j < r → compare_key key (keys j) ≡ greater)
    × ((j : ℕ) → r ≤ j → j < n → compare_key key (keys j) ≡ less)

abbrev pub Located : (ℕ → Key) → ℕ → Key → ℕ → Type 0
Located keys n key r = ((r < n) × (compare_key key (keys r) ≡ same)) ⊎ Splits keys n key r

pub Sign-cases : (s : Sign) → (s ≡ less) ⊎ ((s ≡ same) ⊎ (s ≡ greater))
Sign-cases less = inl refl
Sign-cases same = inr (inl refl)
Sign-cases greater = inr (inr refl)

module _ (keys : ℕ → Key) (n : ℕ) (key : Key) (sorted : IsSorted keys n) where
  search_loop-Located :
      (fuel lo top : ℕ)
      → top - lo < fuel
      → lo ≤ top
      → top ≤ n
      → ((j : ℕ) → j < lo → compare_key key (keys j) ≡ greater)
      → ((j : ℕ) → top ≤ j → j < n → compare_key key (keys j) ≡ less)
      → Located keys n key (search_loop fuel keys key lo top top)
  unfolding search_loop
  search_loop-Located zero lo top f w t below above = absurd (omega arith)
  search_loop-Located (suc fuel) lo top f w t below above = elim (Bool-cases (ltb lo top)) [
    | inr done ↦
        rw done (inr (t, (λ j h. below j (omega (arith, ltb-false→le lo top done))), above))
    | inl more ↦
        let h : lo < top = ltb→lt lo top more in
        let mid : ℕ = (lo + (top - 1)) / 2 in
        elim (Sign-cases (compare_key key (keys mid))) [
          | inl e ↦
              rw (more, e)
                (search_loop-Located fuel lo mid (omega arith) (omega arith) (omega arith) below
                  (λ j p q. less_trans key (keys mid) (keys j) e (sorted mid j p q)))
          | inr (inl e) ↦ rw (more, e) (inl ((omega arith), e))
          | inr (inr e) ↦
              rw (more, e)
                (search_loop-Located fuel (mid + 1) top (omega arith) (omega arith) t
                  (λ j p.
                    greater_trans key (keys mid) (keys j) e
                      (sorted j mid (omega arith) (omega arith)))
                  above)
        ]
  ]

-- On a node whose keys ascend the binary search ends, within one round more than there are keys, at
-- a slot that holds the key, or else at a slot that splits the keys: those before it are less than
-- the key and those from it on greater.
pub find_key-Located :
    (key : Key) (nd : Node)
    → IsSorted nd.keys nd.num_key
    → Located nd.keys nd.num_key key (find_key key nd)
unfolding find_key
find_key-Located key nd sorted =
    search_loop-Located nd.keys nd.num_key key sorted (suc nd.num_key) 0 nd.num_key (omega arith)
      (omega arith) (omega arith) (λ j h. absurd (omega arith)) (λ j h k. absurd (omega arith))
