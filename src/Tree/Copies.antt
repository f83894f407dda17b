-- ===== src/Tree/Copies.antt =====
-- What the loops that copy slots from one node to another leave in each slot.
use sql_relational_database.Common.{
  spliced, ℕ, zero, suc, ◌+◌, ◌≡◌, sym, ap, ap₂, arith, if◌then◌else◌, Bool-cases, inl, inr,
  fun_ext, ◌∙◌,
}
use sql_relational_database.Tree.Node.{
  Node, write, get_element, put_element, copy_elements, copy_children, put_child_offset,
  get_child_offset,
}
use sql_relational_database.Tree.Slots.{with_slots, key-get_element, combined_offset}

module _ {A : Type 0} (to start : ℕ) (g f : ℕ → A) where
  spliced-zero : spliced to start 0 g f ≡ f
  spliced-zero = fun_ext λ j. ground arith

  spliced-write :
      (count : ℕ)
      → write (spliced to start count g f) (to + count) (g (start + count))
        ≡ spliced to start (suc count) g f
  spliced-write count = fun_ext λ j. ground arith

put_copied_element :
    (to n : ℕ) (from nd : Node)
    → from.leaf ≡ nd.leaf
    → put_element to (get_element n from) nd
      ≡ with_slots nd
          (if nd.leaf then write nd.refs to (from.refs n) else nd.refs)
          (write nd.keys to (from.keys n))
unfolding put_element
put_copied_element to n from nd e = elim (Bool-cases nd.leaf) [
  | inl h ↦ rw (key-get_element n from, combined_offset n from (e ∙ h))
  | inr h ↦ rw (key-get_element n from, h)
]

pub copy_elements_lem :
    (to start count : ℕ) (from nd : Node)
    → from.leaf ≡ nd.leaf
    → copy_elements to start count from nd
      ≡ with_slots nd
          (if nd.leaf then spliced to start count from.refs nd.refs else nd.refs)
          (spliced to start count from.keys nd.keys)
unfolding copy_elements
copy_elements_lem to start zero from nd e =
    ap₂ (with_slots nd) refs_path (sym (spliced-zero to start from.keys nd.keys))
  where
    refs_path : nd.refs ≡ (if nd.leaf then spliced to start 0 from.refs nd.refs else nd.refs)
    refs_path = elim (Bool-cases nd.leaf) [
      | inl h ↦ rw h (sym (spliced-zero to start from.refs nd.refs))
      | inr h ↦ rw h
    ]
copy_elements_lem to start (suc count) from nd e =
    rw
      (
        copy_elements_lem to start count from nd e,
        put_copied_element (to + count) (start + count) from
            (with_slots nd before (spliced to start count from.keys nd.keys)) e,
      )
      (ap₂ (with_slots nd) refs_path (spliced-write to start from.keys nd.keys count))
  where
    before : ℕ → ℕ
    before = if nd.leaf then spliced to start count from.refs nd.refs else nd.refs

    refs_path :
        (if nd.leaf then write before (to + count) (from.refs (start + count)) else before)
        ≡ (if nd.leaf then spliced to start (suc count) from.refs nd.refs else nd.refs)
    refs_path = elim (Bool-cases nd.leaf) [
      | inl h ↦ rw h (spliced-write to start from.refs nd.refs count)
      | inr h ↦ rw h
    ]

pub copy_children_lem :
    (to start count : ℕ) (from nd : Node)
    → copy_children to start count from nd
      ≡ record nd { refs = spliced to start count from.refs nd.refs }
unfolding copy_children put_child_offset get_child_offset
copy_children_lem to start zero from nd =
    ap (λ r. with_slots nd r nd.keys) (sym (spliced-zero to start from.refs nd.refs))
copy_children_lem to start (suc count) from nd =
    rw (copy_children_lem to start count from nd)
      (ap (λ r. with_slots nd r nd.keys) (spliced-write to start from.refs nd.refs count))
