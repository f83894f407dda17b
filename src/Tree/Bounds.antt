-- ===== src/Tree/Bounds.antt =====
-- The slots of a node lie in its block (bcalc/bcalc.cpp, btree/btree.cpp, btree/const.h).
use native.Mathlib.Nat.{div-mul-le_self, mul-le-mul_right}
use sql_relational_database.Common.{ℕ, ◌+◌, ◌*◌, ◌≤◌, ◌<◌, ◌≡◌, arith}
use sql_relational_database.Tree.Node.{order, min_degree, block_size}

-- ELEMENT_VECTOR_POS + n * VECTOR_ELEMENT_SZ, where get_element and put_element work.
unfoldable pub slot_position : ℕ → ℕ → ℕ
slot_position key_size n = 24 + n * (8 + key_size)

slots_fit : (key_size n : ℕ) → n ≤ order key_size → n * (8 + key_size) ≤ 32736
unfolding order
slots_fit key_size n h =
    let width = 8 + key_size in
    let below = mul-le-mul_right width h in let room = div-mul-le_self 32736 width in omega arith

half_order : (k : ℕ) → (2 * min_degree k ≤ order k) × (order k ≤ 2 * min_degree k + 1)
unfolding order min_degree
half_order k = ((omega arith), (omega arith))

-- In an index of any key size, the slots below the order end within the block, and the slot at the
-- order still has room for a child offset, so a node of order - 1 keys and order children fits. The
-- order is twice the min_degree or one more.
pub slot_position_lem :
    (key_size n : ℕ)
    → ((n < order key_size) → slot_position key_size n + (8 + key_size) ≤ block_size)
      × (((n ≤ order key_size) → slot_position key_size n + 8 ≤ block_size)
          × ((2 * min_degree key_size ≤ order key_size)
              × (order key_size ≤ 2 * min_degree key_size + 1)))
unfolding slot_position
slot_position_lem key_size n = (
  (λ h.
      let width = 8 + key_size in
      let next : (n + 1) * width ≡ n * width + width = omega arith in
      let fits = slots_fit key_size (n + 1) (omega arith) in omega arith),
  ((λ h. let fits = slots_fit key_size n h in omega arith), half_order key_size),
)
