-- ===== src/Tree/Split.antt =====
-- split_child (btree/btree.cpp): where the keys of a full child go.
use sql_relational_database.Common.{
  spliced, ℕ, ◌/◌, ◌%◌, ◌+◌, ◌-◌, ◌≤◌, ◌<◌, ◌≡◌, refl, sym, ap, ap₂, ◌∙◌, false, arith,
  if◌then◌else◌, Bool-cases, inl, inr,
}
use sql_relational_database.Tree.Node.{
  write, raise_children, put_child_offset, copy_elements, set_num_key,
}
use sql_relational_database.Tree.Slots.{
  raised, raise_elements_lem, raise_children_lem, key-get_element,
}
use sql_relational_database.Tree.Copies.{copy_elements_lem, copy_children_lem}
use sql_relational_database.Tree.Family.{Family, split_child}

module _ (m n : ℕ) (f : Family) where
  keys-split_child-parent :
      (split_child m n f).parent.keys
      ≡ write (raised n (f.parent.num_key - n) f.parent.keys) n (f.child.keys (m - 1))
  unfolding split_child
  keys-split_child-parent =
      let c = f.parent.num_key - n in
      let p = put_child_offset (n + 1) f.sibling.offset (raise_children (n + 1) c f.parent) in
      let prev₁ = set_num_key (if f.child.leaf then m else m - 1) f.child in
      ap₂ (λ k e. write k n e)
        (ap (λ nd. nd.keys) (raise_elements_lem n c p)
          ∙ ap (λ nd. raised n c nd.keys) (raise_children_lem (n + 1) c f.parent))
        (key-get_element (m - 1) prev₁)

  refs-split_child-parent :
      f.parent.leaf ≡ false
      → (split_child m n f).parent.refs
        ≡ write (raised (n + 1) (f.parent.num_key - n) f.parent.refs) (n + 1) f.sibling.offset
  unfolding split_child
  refs-split_child-parent inner =
      let c = f.parent.num_key - n in
      let p = put_child_offset (n + 1) f.sibling.offset (raise_children (n + 1) c f.parent) in
      rw (raise_elements_lem n c p, raise_children_lem (n + 1) c f.parent, inner) refl

  keys-split_child-sibling :
      f.sibling.leaf ≡ f.child.leaf
      → (split_child m n f).sibling.keys ≡ spliced 0 m (m - 1) f.child.keys f.sibling.keys
  unfolding split_child
  keys-split_child-sibling same =
      let made = set_num_key (m - 1) f.sibling in
      rw
        (
          copy_children_lem 0 m m f.child (copy_elements 0 m (m - 1) f.child made),
          copy_elements_lem 0 m (m - 1) f.child made (sym same),
        )
        (elim (Bool-cases f.child.leaf) [ inl h ↦ rw h refl | inr h ↦ rw h refl ])

  num_key-split_child-sibling :
      f.sibling.leaf ≡ f.child.leaf → (split_child m n f).sibling.num_key ≡ m - 1
  unfolding split_child
  num_key-split_child-sibling same =
      let made = set_num_key (m - 1) f.sibling in
      rw
        (
          copy_children_lem 0 m m f.child (copy_elements 0 m (m - 1) f.child made),
          copy_elements_lem 0 m (m - 1) f.child made (sym same),
        )
        (elim (Bool-cases f.child.leaf) [ inl h ↦ rw h refl | inr h ↦ rw h refl ])

module _ (m n : ℕ) (f : Family) where
  child_part :
      ((split_child m n f).child.num_key ≡ (if f.child.leaf then m else m - 1))
      × ((split_child m n f).child.keys ≡ f.child.keys)
  unfolding split_child
  child_part = (refl, refl)

  num_key-split_child-parent : (split_child m n f).parent.num_key ≡ f.parent.num_key + 1
  unfolding split_child
  num_key-split_child-parent =
      let c = f.parent.num_key - n in
      let p = put_child_offset (n + 1) f.sibling.offset (raise_children (n + 1) c f.parent) in
      rw (raise_elements_lem n c p, raise_children_lem (n + 1) c f.parent) refl

-- Take a full child, which has one key less than the order of the index, an order of 2 or more, a
-- min_degree of half of it, and a new node that is a leaf just when the child is. Where the order
-- is even, the two nodes have together, and with the key that an inner node hands to the parent, as
-- many keys as the child had; where the order is odd they have one less.
pub num_key-split_child :
    (order n : ℕ) (f : Family)
    → 2 ≤ order
    → f.child.num_key + 1 ≡ order
    → f.sibling.leaf ≡ f.child.leaf
    → let g = split_child (order / 2) n f in
      let up : ℕ = if f.child.leaf then 0 else 1 in
      ((order % 2 ≡ 0) → g.child.num_key + g.sibling.num_key + up ≡ f.child.num_key)
      × ((order % 2 ≡ 1) → g.child.num_key + g.sibling.num_key + up + 1 ≡ f.child.num_key)
num_key-split_child order n f h full same =
    rw ((child_part (order / 2) n f).0, num_key-split_child-sibling (order / 2) n f same)
      ((λ even. ground arith), (λ odd. ground arith))

-- Splitting child n of an inner node at min_degree m, with a new node that is a leaf just when the
-- child is: the lower keys of the child stay, m of them in a leaf and m - 1 in an inner node; the
-- new node gets the m - 1 keys from slot m on; the parent has one key more, with key m - 1 of the
-- child in slot n, the keys before it as they were and those after it moved up; and the child
-- offset of the new node stands after that of the child, the others before and after it.
pub split_child_lem :
    (m n : ℕ) (f : Family)
    → n ≤ f.parent.num_key
    → f.parent.leaf ≡ false
    → f.sibling.leaf ≡ f.child.leaf
    → let g = split_child m n f in
      ((g.child.num_key ≡ (if f.child.leaf then m else m - 1)) × (g.child.keys ≡ f.child.keys))
      × (((g.sibling.num_key ≡ m - 1)
            × ((j : ℕ) → j < m - 1 → g.sibling.keys j ≡ f.child.keys (m + j)))
          × (((g.parent.num_key ≡ f.parent.num_key + 1) × (g.parent.keys n ≡ f.child.keys (m - 1)))
              × ((((j : ℕ) → j < n → g.parent.keys j ≡ f.parent.keys j)
                    × ((j : ℕ)
                        → n < j
                        → j ≤ f.parent.num_key
                        → g.parent.keys j ≡ f.parent.keys (j - 1)))
                  × ((((j : ℕ) → j ≤ n → g.parent.refs j ≡ f.parent.refs j)
                        × (g.parent.refs (n + 1) ≡ f.sibling.offset))
                      × ((j : ℕ)
                          → n + 1 < j
                          → j ≤ f.parent.num_key + 1
                          → g.parent.refs j ≡ f.parent.refs (j - 1))))))
split_child_lem m n f h inner same =
    let pk = keys-split_child-parent m n f in
    let pr = refs-split_child-parent m n f inner in
    (
      child_part m n f,
      (
        (
          num_key-split_child-sibling m n f same,
          (λ j l. rw (keys-split_child-sibling m n f same) (ground arith)),
        ),
        (
          (num_key-split_child-parent m n f, rw pk (ground arith)),
          (
            ((λ j l. rw pk (ground arith)), (λ j l k. rw pk (ground arith))),
            (
              ((λ j l. rw pr (ground arith)), rw pr (ground arith)),
              (λ j l k. rw pr (ground arith)),
            ),
          ),
        ),
      ),
    )
