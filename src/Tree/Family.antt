-- ===== src/Tree/Family.antt =====
-- The methods of class node that work on a node and two of its children: split_child,
-- borrow_from_prev, borrow_from_next and merge, and the choice among them in `fill`. A family holds
-- the node itself, child [ n ] and the sibling that takes part.
use sql_relational_database.Common.{
  ℕ, ◌+◌, ◌-◌, true, not, ◌&&◌, leb, ◌==◌, if◌then◌else◌, Option, none, some,
}
use sql_relational_database.Tree.Node.{
  Node, get_element, put_element, get_child_offset, put_child_offset, inc_num_key, dec_num_key,
  set_num_key, raise_elements, lower_elements, raise_children, lower_children, copy_elements,
  copy_children,
}

pub record Family : Type 0 where
  pub parent : Node
  pub child : Node
  pub sibling : Node

-- borrow_from_prev (n); the sibling is child [ n - 1 ]. The loop over the child offsets starts at
-- the number of keys that has been incremented.
unfoldable pub borrow_from_prev : ℕ → Family → Family
unfolding raise_elements put_element get_element inc_num_key dec_num_key raise_children
    put_child_offset get_child_offset
borrow_from_prev n f =
    let moved = raise_elements 0 f.child.num_key f.child in
    let taken = inc_num_key 1 (put_element 0 (get_element (n - 1) f.parent) moved) in
    let last = get_child_offset f.sibling.num_key f.sibling in
    record {
      child =
          if taken.leaf
          then taken
          else put_child_offset 0 last (raise_children 0 (taken.num_key + 1) taken);
      parent = put_element (n - 1) (get_element (f.sibling.num_key - 1) f.sibling) f.parent;
      sibling = dec_num_key 1 f.sibling;
    }

-- borrow_from_next (n); the sibling is child [ n + 1 ].
unfoldable pub borrow_from_next : ℕ → Family → Family
unfolding lower_elements put_element get_element inc_num_key dec_num_key lower_children
    put_child_offset get_child_offset
borrow_from_next n f =
    let k = f.child.num_key in
    let taken = put_element k (get_element n f.parent) f.child in
    let first = get_child_offset 0 f.sibling in
    let lowered = lower_elements 1 (f.sibling.num_key - 1) f.sibling in
    record {
      child = inc_num_key 1 (if f.child.leaf then taken else put_child_offset (k + 1) first taken);
      parent = put_element n (get_element 0 f.sibling) f.parent;
      sibling =
          dec_num_key 1
            (if lowered.leaf then lowered else lower_children 1 f.sibling.num_key lowered);
    }

-- merge (n); the sibling is child [ n + 1 ]. `min_degree` is half the order of the index.
unfoldable pub merge : ℕ → ℕ → Family → Family
unfolding lower_elements lower_children put_element get_element copy_elements copy_children
    inc_num_key dec_num_key
merge min_degree n f =
    let parent₁ = lower_elements (n + 1) (f.parent.num_key - (n + 1)) f.parent in
    let parent₂ = lower_children (n + 2) (f.parent.num_key - (n + 2)) parent₁ in
    let child₁ = put_element (min_degree - 1) (get_element n f.parent) f.child in
    let child₂ = copy_elements min_degree 0 f.sibling.num_key f.sibling child₁ in
    let child₃ =
      if child₂.leaf
      then child₂
      else copy_children min_degree 0 (f.sibling.num_key + 1) f.sibling child₂ in
    let child₄ = inc_num_key (f.sibling.num_key + 1) child₃ in
    record {
      parent = dec_num_key 1 parent₂;
      child = record child₄ { next = f.sibling.next };
      sibling = record f.sibling { dead = true };
    }

-- split_child (n, prev): `prev` is child [ n ], and the sibling is the new node, which the tree has
-- made empty at the next free offset with the leaf flag of `prev`. The last step, insert_sibling,
-- links the new node after `prev`; the node that followed `prev` is `after`.
unfoldable pub split_child : ℕ → ℕ → Family → Family
unfolding raise_elements raise_children put_element get_element put_child_offset copy_elements
    copy_children set_num_key inc_num_key
split_child min_degree n f =
    let new₁ = set_num_key (min_degree - 1) f.sibling in
    let new₂ = copy_elements 0 min_degree (min_degree - 1) f.child new₁ in
    let new₃ = if f.child.leaf then new₂ else copy_children 0 min_degree min_degree f.child new₂ in
    let prev₁ = set_num_key (if f.child.leaf then min_degree else min_degree - 1) f.child in
    let parent₁ = raise_children (n + 1) (f.parent.num_key - n) f.parent in
    let parent₂ = put_child_offset (n + 1) f.sibling.offset parent₁ in
    let parent₃ = raise_elements n (f.parent.num_key - n) parent₂ in
    let parent₄ = put_element n (get_element (min_degree - 1) prev₁) parent₃ in
    record {
      parent = inc_num_key 1 parent₄;
      child = record prev₁ { next = some f.sibling.offset };
      sibling = record new₃ { prev = some f.child.offset; next = f.child.next };
    }

-- set_prev_sibling_offset(next, new_node->m_offset) on the node that follows, where there is one.
unfoldable pub relink_next : ℕ → Option Node → Option Node
relink_next offset none = none
relink_next offset (some after) = some (record after { prev = some offset })

-- What `fill` does with child [ n ] of a node with `num_key` keys, given the number of keys of the
-- neighbours.
pub data Refill : Type 0 where
  borrow_prev borrow_next : Refill
  merge_at : ℕ → Refill

unfoldable pub fill : ℕ → ℕ → ℕ → ℕ → ℕ → Refill
fill min_degree n num_key prev_keys next_keys =
    if not (n == 0) && leb min_degree prev_keys
    then borrow_prev
    else if not (n == num_key) && leb min_degree next_keys
    then borrow_next
    else if not (n == num_key)
    then merge_at n
    else merge_at (n - 1)
