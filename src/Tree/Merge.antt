-- ===== src/Tree/Merge.antt =====
-- merge (btree/btree.cpp): where the keys and the children of two neighbours and their parent go.
use sql_relational_database.Common.{
  spliced, sym, ◌∙◌, true, ℕ, ◌+◌, ◌-◌, ◌≤◌, ◌<◌, ◌≡◌, refl, false, arith, Bool-cases, inl, inr,
}
use sql_relational_database.Tree.Node.{
  write, get_element, put_element, lower_elements, copy_elements,
}
use sql_relational_database.Tree.Slots.{
  lowered, lower_elements_lem, lower_children_lem, key-get_element,
}
use sql_relational_database.Tree.Copies.{copy_elements_lem, copy_children_lem}
use sql_relational_database.Tree.Family.{Family, merge}

module _ (m n : ℕ) (f : Family) where
  merged_parent :
      f.parent.leaf ≡ false
      → (merge m n f).parent ≡ record f.parent {
        num_key = f.parent.num_key - 1;
        refs = lowered (n + 2) (f.parent.num_key - (n + 2)) f.parent.refs;
        keys = lowered (n + 1) (f.parent.num_key - (n + 1)) f.parent.keys;
      }
  unfolding merge
  merged_parent inner =
      let k = f.parent.num_key in
      rw
        (
          lower_children_lem (n + 2) (k - (n + 2)) (lower_elements (n + 1) (k - (n + 1)) f.parent)
              (omega arith),
          lower_elements_lem (n + 1) (k - (n + 1)) f.parent (omega arith),
          inner,
        )
        refl

  merged_child :
      f.sibling.leaf ≡ f.child.leaf
      → ((merge m n f).child.num_key ≡ f.child.num_key + (f.sibling.num_key + 1))
        × ((merge m n f).child.keys
            ≡ spliced m 0 f.sibling.num_key f.sibling.keys
                (write f.child.keys (m - 1) (f.parent.keys n)))
  unfolding merge
  merged_child same =
      let s = f.sibling.num_key in
      let child₁ = put_element (m - 1) (get_element n f.parent) f.child in
      rw
        (
          copy_children_lem m 0 (s + 1) f.sibling (copy_elements m 0 s f.sibling child₁),
          copy_elements_lem m 0 s f.sibling child₁ same,
          key-get_element n f.parent,
        )
        (elim (Bool-cases f.child.leaf) [ inl h ↦ rw h (refl, refl) | inr h ↦ rw h (refl, refl) ])

  -- Merging child n of an inner node with its next neighbour, both leaves or both not, at a
  -- min_degree m that is not 0 and for n below the number of keys: the child keeps its first m - 1
  -- keys, gets key n of the parent in slot m - 1 and the keys of the neighbour from slot m on, and
  -- counts one key more than the two nodes had; the parent loses key n and moves the keys after it
  -- down by one.
  pub merge_lem :
      f.parent.leaf ≡ false
      → f.sibling.leaf ≡ f.child.leaf
      → 0 < m
      → n < f.parent.num_key
      → let g = merge m n f in
        ((g.child.num_key ≡ f.child.num_key + (f.sibling.num_key + 1))
          × ((g.parent.num_key + 1 ≡ f.parent.num_key) × (g.child.keys (m - 1) ≡ f.parent.keys n)))
        × ((((j : ℕ) → j < m - 1 → g.child.keys j ≡ f.child.keys j)
              × ((j : ℕ) → j < f.sibling.num_key → g.child.keys (m + j) ≡ f.sibling.keys j))
            × (((j : ℕ) → j < n → g.parent.keys j ≡ f.parent.keys j)
                × ((j : ℕ)
                    → n ≤ j
                    → j < g.parent.num_key
                    → g.parent.keys j ≡ f.parent.keys (j + 1))))
  merge_lem inner same pos h =
      let (count, keys) = merged_child same in
      rw (count, keys, merged_parent inner)
        (
          (refl, (omega arith, ground arith)),
          (
            ((λ j l. ground arith), (λ j l. ground arith)),
            ((λ j l. ground arith), (λ j l k. ground arith)),
          ),
        )

  -- The children of an inner node after a merge of children n and n + 1 that leaves two or more
  -- keys after them: those up to n stay, the merged one goes, and those after it move down by one,
  -- but for the last child: the slot that should get it keeps the offset of the child before it,
  -- which stands in two slots now.
  pub merge-drops_last_child :
      f.parent.leaf ≡ false
      → n + 2 < f.parent.num_key
      → let g = merge m n f in
        (((j : ℕ) → j ≤ n → g.parent.refs j ≡ f.parent.refs j)
          × ((j : ℕ) → n < j → j + 1 < f.parent.num_key → g.parent.refs j ≡ f.parent.refs (j + 1)))
        × ((g.parent.refs g.parent.num_key ≡ f.parent.refs (f.parent.num_key - 1))
            × (g.parent.refs (g.parent.num_key - 1) ≡ f.parent.refs (f.parent.num_key - 1)))
  merge-drops_last_child inner h =
      rw (merged_parent inner)
        (((λ j l. ground arith), (λ j l k. ground arith)), (ground arith, ground arith))

  -- Merging two leaves of an inner node, at a min_degree m that is not 0, puts the parent's key
  -- into slot m - 1 with combined offset 0.
  pub merge-leaf_reference :
      f.parent.leaf ≡ false
      → f.child.leaf ≡ true
      → f.sibling.leaf ≡ true
      → 0 < m
      → ((merge m n f).child.keys (m - 1) ≡ f.parent.keys n)
        × ((merge m n f).child.refs (m - 1) ≡ 0)
  unfolding merge
  merge-leaf_reference inner leaf same pos =
      let s = f.sibling.num_key in
      let child₁ = put_element (m - 1) (get_element n f.parent) f.child in
      rw
        (
          copy_children_lem m 0 (s + 1) f.sibling (copy_elements m 0 s f.sibling child₁),
          copy_elements_lem m 0 s f.sibling child₁ (same ∙ sym leaf),
          leaf,
          inner,
        )
        (ground arith, ground arith)
