-- ===== src/Tree/Room.antt =====
-- The loop that makes room for an element in a leaf (btree/btree.cpp: insert_non_full).
use sql_relational_database.Common.{
  ℕ, zero, suc, ◌+◌, ◌-◌, ◌≤◌, ◌<◌, ◌≡◌, ◌≢◌, inl, inr, refl, sym, ap, ap₂, ◌∙◌, arith, ℕ_discrete,
}
use sql_relational_database.Tree.Key.{Key, greater, compare_key}
use sql_relational_database.Tree.Node.{
  Node, Element, get_element, put_element, raise_elements, make_room, if_greater, write,
}
use sql_relational_database.Tree.Slots.{
  key-get_element, put_element-get_element, move_slot, raised_elements, raise_elements_lem,
}
use sql_relational_database.Tree.Search.{Sign-cases}

-- Where the loop that makes room stops: after the last of the first k keys that is not greater.
abbrev pub slot_for : (ℕ → Key) → Key → ℕ → ℕ
slot_for keys key zero = 0
slot_for keys key (suc i) = if_greater (compare_key (keys i) key) (slot_for keys key i) (suc i)

pub slot_for-le : (keys : ℕ → Key) (key : Key) (k : ℕ) → slot_for keys key k ≤ k
slot_for-le keys key zero = omega arith
slot_for-le keys key (suc i) = ground (arith, slot_for-le keys key i)

pub slot_for_above :
    (keys : ℕ → Key) (key : Key) (k j : ℕ)
    → slot_for keys key k ≤ j
    → j < k
    → compare_key (keys j) key ≡ greater
slot_for_above keys key zero j h l = absurd (omega arith)
slot_for_above keys key (suc i) j h l = elim (ℕ_discrete j i) [
  | yes e ↦ rw e (ground arith)
  | no n ↦ ground (arith, slot_for_above keys key i j)
]

pub slot_for_stop :
    (keys : ℕ → Key) (key : Key) (k : ℕ)
    → 0 < slot_for keys key k
    → compare_key (keys (slot_for keys key k - 1)) key ≢ greater
slot_for_stop keys key zero h = absurd (omega arith)
slot_for_stop keys key (suc i) h = ground (arith, slot_for_stop keys key i)

-- Only the keys below the bound matter.
slot_for_cong :
    (f g : ℕ → Key) (key : Key) (k : ℕ)
    → ((j : ℕ) → j < k → f j ≡ g j)
    → slot_for f key k ≡ slot_for g key k
slot_for_cong f g key zero h = refl
slot_for_cong f g key (suc i) h =
    ground (arith, h i, slot_for_cong f g key i (λ j l. h j (omega arith)))

raised_step :
    (s c i : ℕ) (nd : Node)
    → s + c ≡ i
    → raised_elements s c (move_slot (i + 1) i nd) ≡ raised_elements s (suc c) nd
unfolding raise_elements
raised_step s c i nd e = rw (← e) (
    sym (raise_elements_lem s c (move_slot (s + c + 1) (s + c) nd))
    ∙ ap (raise_elements s c) (sym (put_element-get_element (s + c + 1) (s + c) nd))
    ∙ raise_elements_lem s (suc c) nd)

make_room_step :
    (i : ℕ) (elem : Element) (nd : Node)
    → make_room (suc i) elem nd
      ≡ if_greater
          (compare_key (nd.keys i) elem.key)
          (make_room i elem (move_slot (i + 1) i nd))
          (i + 1, nd)
unfolding make_room
make_room_step i elem nd =
    ap
      (λ x.
        if_greater (compare_key x elem.key)
          (make_room i elem (put_element (i + 1) (get_element i nd) nd)) (i + 1, nd))
      (key-get_element i nd)
    ∙ ap (λ x. if_greater (compare_key (nd.keys i) elem.key) (make_room i elem x) (i + 1, nd))
        (put_element-get_element (i + 1) i nd)

raised_elements_none : (k : ℕ) (nd : Node) → raised_elements k 0 nd ≡ nd
unfolding raise_elements
raised_elements_none k nd = sym (raise_elements_lem k 0 nd)

make_room_none : (elem : Element) (nd : Node) → make_room 0 elem nd ≡ (0, raised_elements 0 0 nd)
unfolding make_room
make_room_none elem nd = ap (λ x. (0, x)) (sym (raised_elements_none 0 nd))

-- The loop stops at that slot, with the elements from it on moved up.
pub make_room_lem :
    (k : ℕ) (elem : Element) (nd : Node)
    → let i = slot_for nd.keys elem.key k in make_room k elem nd ≡ (i, raised_elements i (k - i) nd)
make_room_lem zero elem nd = make_room_none elem nd
make_room_lem (suc i) elem nd = elim (Sign-cases (compare_key (nd.keys i) elem.key)) [
  | inl e ↦ rw (make_room_step i elem nd, e) (stays (suc i) (omega arith))
  | inr (inl e) ↦ rw (make_room_step i elem nd, e) (stays (suc i) (omega arith))
  | inr (inr e) ↦
      rw (make_room_step i elem nd, e, make_room_lem i elem (move_slot (i + 1) i nd), same_slot)
        (let s = slot_for nd.keys elem.key i in
          let count : suc i - s ≡ suc (i - s) = omega (arith, slot_for-le nd.keys elem.key i) in
          rw count (
            ap (λ x. (s, x))
              (raised_step s (i - s) i nd (omega (arith, slot_for-le nd.keys elem.key i)))))
]
  where
    stays : (k : ℕ) → i + 1 ≡ k → ◌≡◌ {A = ℕ × Node} (i + 1, nd) (k, raised_elements k (k - k) nd)
    stays k e =
        let zero_count : k - k ≡ 0 = omega arith in
        ap₂ (λ a b. (a, b)) e (rw zero_count (sym (raised_elements_none k nd)))

    same_slot :
        slot_for (write nd.keys (i + 1) (nd.keys i)) elem.key i ≡ slot_for nd.keys elem.key i
    same_slot = slot_for_cong _ nd.keys elem.key i (λ j h. ground arith)
