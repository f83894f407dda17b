-- ===== src/Tree/Slots.antt =====
-- What the slot loops leave in each slot.
use sql_relational_database.Common.{
  ap, ap₂, sym, ℕ, zero, suc, ◌+◌, ◌-◌, ◌<◌, ◌≡◌, true, ◌&&◌, arith, ltb, leb, if◌then◌else◌,
  Bool-cases, inl, inr, fun_ext,
}
use sql_relational_database.Tree.Key.{Key}
use sql_relational_database.Tree.Node.{
  get_child_offset, put_child_offset, raise_children, lower_children, lower_elements, Node, write,
  get_element, put_element, raise_elements,
}

-- Moving an element within a leaf moves its reference too; in an inner node only its key.
abbrev pub move_slot : ℕ → ℕ → Node → Node
move_slot to from nd = record nd {
  refs = if nd.leaf then write nd.refs to (nd.refs from) else nd.refs;
  keys = write nd.keys to (nd.keys from);
}

-- f with the `count` values from `lo` on moved up by one.
abbrev pub raised {ℓ} : {A : Type ℓ} → ℕ → ℕ → (ℕ → A) → ℕ → A
raised lo count f j = if ltb lo j && leb j (lo + count) then f (j - 1) else f j

abbrev pub lowered {ℓ} : {A : Type ℓ} → ℕ → ℕ → (ℕ → A) → ℕ → A
lowered lo count f j = if leb lo (j + 1) && ltb (j + 1) (lo + count) then f (j + 1) else f j

pub key-get_element : (n : ℕ) (nd : Node) → (get_element n nd).key ≡ nd.keys n
unfolding get_element
key-get_element n nd = ground arith

-- What putting back an element of a leaf stores as its combined offset.
pub combined_offset :
    (n : ℕ) (nd : Node)
    → nd.leaf ≡ true
    → (get_element n nd).block_offset + (get_element n nd).row_position ≡ nd.refs n
unfolding get_element
combined_offset n nd h = rw h (omega arith)

pub put_element-get_element :
    (to from : ℕ) (nd : Node) → put_element to (get_element from nd) nd ≡ move_slot to from nd
unfolding put_element
put_element-get_element to from nd = elim (Bool-cases nd.leaf) [
  | inl h ↦ rw (key-get_element from nd, combined_offset from nd h)
  | inr h ↦ rw (key-get_element from nd, h)
]

-- The loops as one change of each vector.
abbrev pub raised_elements : ℕ → ℕ → Node → Node
raised_elements lo count nd = record nd {
  refs = if nd.leaf then raised lo count nd.refs else nd.refs;
  keys = raised lo count nd.keys;
}

module _ {A : Type 0} (lo count : ℕ) (f : ℕ → A) where
  pub raised-write :
      raised lo count (write f (lo + count + 1) (f (lo + count))) ≡ raised lo (suc count) f
  raised-write = fun_ext λ j. ground arith

  lowered-write :
      0 < lo → lowered (lo + 1) count (write f (lo - 1) (f lo)) ≡ lowered lo (suc count) f
  lowered-write h = fun_ext λ j. ground arith

module _ {A : Type 0} (lo : ℕ) (f : ℕ → A) where
  pub raised-zero : raised lo 0 f ≡ f
  raised-zero = fun_ext λ j. ground arith

  lowered-zero : lowered lo 0 f ≡ f
  lowered-zero = fun_ext λ j. ground arith

-- Two nodes that differ in the vectors alone.
abbrev pub with_slots : Node → (ℕ → ℕ) → (ℕ → Key) → Node
with_slots nd r k = record nd { refs = r; keys = k }

pub raise_elements_lem :
    (lo count : ℕ) (nd : Node) → raise_elements lo count nd ≡ raised_elements lo count nd
unfolding raise_elements
raise_elements_lem lo zero nd = ap₂ (with_slots nd) refs_path (sym (raised-zero lo nd.keys))
  where
    refs_path : nd.refs ≡ (if nd.leaf then raised lo 0 nd.refs else nd.refs)
    refs_path = elim (Bool-cases nd.leaf) [
      | inl h ↦ rw h (sym (raised-zero lo nd.refs))
      | inr h ↦ rw h
    ]
raise_elements_lem lo (suc count) nd =
    rw
      (
        put_element-get_element (lo + count + 1) (lo + count) nd,
        raise_elements_lem lo count (move_slot (lo + count + 1) (lo + count) nd),
      )
      (ap₂ (with_slots nd) refs_path (raised-write lo count nd.keys))
  where
    moved : ℕ → ℕ
    moved = if nd.leaf then write nd.refs (lo + count + 1) (nd.refs (lo + count)) else nd.refs

    refs_path :
        (if nd.leaf then raised lo count moved else moved)
        ≡ (if nd.leaf then raised lo (suc count) nd.refs else nd.refs)
    refs_path = elim (Bool-cases nd.leaf) [
      | inl h ↦ rw h (raised-write lo count nd.refs)
      | inr h ↦ rw h
    ]

abbrev pub lowered_elements : ℕ → ℕ → Node → Node
lowered_elements lo count nd = record nd {
  refs = if nd.leaf then lowered lo count nd.refs else nd.refs;
  keys = lowered lo count nd.keys;
}

pub lower_elements_lem :
    (lo count : ℕ) (nd : Node) → 0 < lo → lower_elements lo count nd ≡ lowered_elements lo count nd
unfolding lower_elements
lower_elements_lem lo zero nd h = ap₂ (with_slots nd) refs_path (sym (lowered-zero lo nd.keys))
  where
    refs_path : nd.refs ≡ (if nd.leaf then lowered lo 0 nd.refs else nd.refs)
    refs_path = elim (Bool-cases nd.leaf) [
      | inl l ↦ rw l (sym (lowered-zero lo nd.refs))
      | inr l ↦ rw l
    ]
lower_elements_lem lo (suc count) nd h =
    rw
      (
        put_element-get_element (lo - 1) lo nd,
        lower_elements_lem (lo + 1) count (move_slot (lo - 1) lo nd) (omega arith),
      )
      (ap₂ (with_slots nd) refs_path (lowered-write lo count nd.keys h))
  where
    moved : ℕ → ℕ
    moved = if nd.leaf then write nd.refs (lo - 1) (nd.refs lo) else nd.refs

    refs_path :
        (if nd.leaf then lowered (lo + 1) count moved else moved)
        ≡ (if nd.leaf then lowered lo (suc count) nd.refs else nd.refs)
    refs_path = elim (Bool-cases nd.leaf) [
      | inl l ↦ rw l (lowered-write lo count nd.refs h)
      | inr l ↦ rw l
    ]

pub raise_children_lem :
    (lo count : ℕ) (nd : Node)
    → raise_children lo count nd ≡ record nd { refs = raised lo count nd.refs }
unfolding raise_children put_child_offset get_child_offset
raise_children_lem lo zero nd = ap (λ r. with_slots nd r nd.keys) (sym (raised-zero lo nd.refs))
raise_children_lem lo (suc count) nd =
    rw
      (raise_children_lem lo count
        (record nd { refs = write nd.refs (lo + count + 1) (nd.refs (lo + count)) }))
      (ap (λ r. with_slots nd r nd.keys) (raised-write lo count nd.refs))

pub lower_children_lem :
    (lo count : ℕ) (nd : Node)
    → 0 < lo
    → lower_children lo count nd ≡ record nd { refs = lowered lo count nd.refs }
unfolding lower_children put_child_offset get_child_offset
lower_children_lem lo zero nd h = ap (λ r. with_slots nd r nd.keys) (sym (lowered-zero lo nd.refs))
lower_children_lem lo (suc count) nd h =
    rw
      (lower_children_lem (lo + 1) count (record nd { refs = write nd.refs (lo - 1) (nd.refs lo) })
        (omega arith))
      (ap (λ r. with_slots nd r nd.keys) (lowered-write lo count nd.refs h))
