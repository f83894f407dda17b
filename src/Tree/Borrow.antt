-- ===== src/Tree/Borrow.antt =====
-- borrow_from_prev and borrow_from_next (btree/btree.cpp): where the keys go.
use sql_relational_database.Common.{◌≢◌, ℕ, ◌+◌, ◌-◌, ◌<◌, ◌≡◌, refl, arith, Bool-cases, inl, inr}
use sql_relational_database.Tree.Node.{
  lower_elements, write, get_element, put_element, raise_elements, inc_num_key,
}
use sql_relational_database.Tree.Slots.{
  lowered, lower_elements_lem, lower_children_lem, raised, raise_elements_lem, raise_children_lem,
  key-get_element,
}
use sql_relational_database.Tree.Family.{borrow_from_next, Family, borrow_from_prev}

module _ (n : ℕ) (f : Family) where
  prev_child :
      ((borrow_from_prev n f).child.num_key ≡ f.child.num_key + 1)
      × ((borrow_from_prev n f).child.keys
          ≡ write (raised 0 f.child.num_key f.child.keys) 0 (f.parent.keys (n - 1)))
  unfolding borrow_from_prev
  prev_child =
      let k = f.child.num_key in
      let moved = raise_elements 0 k f.child in
      let taken = inc_num_key 1 (put_element 0 (get_element (n - 1) f.parent) moved) in
      rw
        (
          raise_children_lem 0 (taken.num_key + 1) taken,
          raise_elements_lem 0 k f.child,
          key-get_element (n - 1) f.parent,
        )
        (elim (Bool-cases f.child.leaf) [ inl h ↦ rw h (refl, refl) | inr h ↦ rw h (refl, refl) ])

  -- Borrowing from the neighbour before child n, which has a key: the key of the parent between the
  -- two comes first in the child, before the keys that it had, and the last key of the neighbour
  -- takes its place in the parent; the neighbour counts one key less and the other keys stay.
  pub borrow_from_prev_lem :
      0 < f.sibling.num_key
      → let g = borrow_from_prev n f in
        ((g.child.num_key ≡ f.child.num_key + 1) × (g.sibling.num_key + 1 ≡ f.sibling.num_key))
        × (((g.child.keys 0 ≡ f.parent.keys (n - 1))
              × ((j : ℕ) → j < f.child.num_key → g.child.keys (j + 1) ≡ f.child.keys j))
            × ((g.parent.keys (n - 1) ≡ f.sibling.keys (f.sibling.num_key - 1))
                × (((j : ℕ) → j ≢ n - 1 → g.parent.keys j ≡ f.parent.keys j)
                    × (g.sibling.keys ≡ f.sibling.keys))))
  unfolding borrow_from_prev
  borrow_from_prev_lem pos =
      let (count, keys) = prev_child in
      (
        (count, omega arith),
        (
          (rw keys (ground arith), (λ j l. rw keys (ground arith))),
          (
            rw (key-get_element (f.sibling.num_key - 1) f.sibling) (ground arith),
            ((λ j l. ground arith), refl),
          ),
        ),
      )

  next_child :
      ((borrow_from_next n f).child.num_key ≡ f.child.num_key + 1)
      × ((borrow_from_next n f).child.keys ≡ write f.child.keys f.child.num_key (f.parent.keys n))
  unfolding borrow_from_next
  next_child =
      rw (key-get_element n f.parent)
        (elim (Bool-cases f.child.leaf) [ inl h ↦ rw h (refl, refl) | inr h ↦ rw h (refl, refl) ])

  next_sibling :
      ((borrow_from_next n f).sibling.num_key ≡ f.sibling.num_key - 1)
      × ((borrow_from_next n f).sibling.keys ≡ lowered 1 (f.sibling.num_key - 1) f.sibling.keys)
  unfolding borrow_from_next
  next_sibling =
      let k = f.sibling.num_key in
      rw
        (
          lower_children_lem 1 k (lower_elements 1 (k - 1) f.sibling) (omega arith),
          lower_elements_lem 1 (k - 1) f.sibling (omega arith),
        )
        (elim (Bool-cases f.sibling.leaf) [ inl h ↦ rw h (refl, refl) | inr h ↦ rw h (refl, refl) ])

  next_parent : (borrow_from_next n f).parent.keys ≡ write f.parent.keys n (f.sibling.keys 0)
  unfolding borrow_from_next
  next_parent = rw (key-get_element 0 f.sibling) refl

  -- Borrowing from the neighbour after child n, which has a key: the key of the parent between the
  -- two comes last in the child, the first key of the neighbour takes its place in the parent, and
  -- the other keys of the neighbour move down by one.
  pub borrow_from_next_lem :
      0 < f.sibling.num_key
      → let g = borrow_from_next n f in
        ((g.child.num_key ≡ f.child.num_key + 1) × (g.sibling.num_key + 1 ≡ f.sibling.num_key))
        × (((g.child.keys f.child.num_key ≡ f.parent.keys n)
              × ((j : ℕ) → j < f.child.num_key → g.child.keys j ≡ f.child.keys j))
            × ((g.parent.keys n ≡ f.sibling.keys 0)
                × (((j : ℕ) → j ≢ n → g.parent.keys j ≡ f.parent.keys j)
                    × ((j : ℕ)
                        → j < g.sibling.num_key
                        → g.sibling.keys j ≡ f.sibling.keys (j + 1)))))
  borrow_from_next_lem pos =
      let (count, keys) = next_child in
      let (left, moved) = next_sibling in
      (
        (count, omega (arith, left)),
        (
          (rw keys (ground arith), (λ j l. rw keys (ground arith))),
          (
            rw next_parent (ground arith),
            ((λ j l. rw next_parent (ground arith)), (λ j l. rw moved (ground (arith, left)))),
          ),
        ),
      )
