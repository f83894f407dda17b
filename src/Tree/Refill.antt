-- ===== src/Tree/Refill.antt =====
-- What fill chooses for a child that is short of keys (btree/btree.cpp).
use sql_relational_database.Common.{
  ℕ, ◌+◌, ◌≤◌, ◌<◌, ◌≡◌, ◌⊎◌, inl, inr, refl, not, ◌&&◌, arith, leb, ◌==◌, Bool-cases,
}
use sql_relational_database.Tree.Family.{Refill, borrow_prev, borrow_next, merge_at, fill}

-- A choice that keeps the nodes within their bounds: a neighbour that lends exists and has
-- min_degree keys or more, and two nodes that are merged are neighbours among the children, the one
-- that is not child n having less than min_degree keys.
abbrev pub IsSound : ℕ → ℕ → ℕ → ℕ → ℕ → Refill → Type 0
IsSound min_degree n num_key prev_keys next_keys borrow_prev = (0 < n) × (min_degree ≤ prev_keys)
IsSound min_degree n num_key prev_keys next_keys borrow_next =
    (n < num_key) × (min_degree ≤ next_keys)
IsSound min_degree n num_key prev_keys next_keys (merge_at i) =
    (i < num_key)
    × (((i ≡ n) × (next_keys < min_degree)) ⊎ ((i + 1 ≡ n) × (prev_keys < min_degree)))

-- For child n of a node that has a key or more, fill makes a choice that keeps the nodes within
-- their bounds: a neighbour that lends exists and has min_degree keys or more, and two nodes that
-- are merged are neighbours among the children, one of them child n and the other with less than
-- min_degree keys.
pub fill-IsSound :
    (min_degree n num_key prev_keys next_keys : ℕ)
    → n ≤ num_key
    → 0 < num_key
    → IsSound min_degree n num_key prev_keys next_keys
        (fill min_degree n num_key prev_keys next_keys)
unfolding fill
fill-IsSound min_degree n num_key prev_keys next_keys h pos =
    elim (Bool-cases (not (n == 0) && leb min_degree prev_keys)) [
      | inl p ↦ rw p ((ground arith), (ground arith))
      | inr p ↦ elim (Bool-cases (not (n == num_key) && leb min_degree next_keys)) [
        | inl q ↦ rw (p, q) ((ground arith), (ground arith))
        | inr q ↦ elim (Bool-cases (not (n == num_key))) [
          | inl r ↦ rw (p, q, r) ((ground arith), inl (refl, (ground arith)))
          | inr r ↦ rw (p, q, r) ((ground arith), inr ((ground arith), (ground arith)))
        ]
      ]
    ]
