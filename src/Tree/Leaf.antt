-- ===== src/Tree/Leaf.antt =====
-- Insertion into a leaf and removal from it.
use sql_relational_database.Common.{ℕ, true, ◌+◌, ◌-◌, ◌≤◌, ◌<◌, ◌≡◌, ◌≢◌, refl, arith}
use sql_relational_database.Tree.Key.{
  Key, greater, compare_key, compare_key_refl, less_of_greater, greater_of_less, less_trans,
}
use sql_relational_database.Tree.Node.{
  Node, Element, get_element, put_element, insert_into_leaf, remove_from_leaf, inc_num_key,
  dec_num_key, write,
}
use sql_relational_database.Tree.Slots.{raised, lower_elements_lem}
use sql_relational_database.Tree.Search.{IsSorted}
use sql_relational_database.Tree.Room.{
  slot_for, slot_for-le, slot_for_above, slot_for_stop, make_room_lem,
}

-- The keys after an insertion: those from the slot on moved up, and the new one in the slot.
pub keys-insert_into_leaf :
    (elem : Element) (nd : Node)
    → let i = slot_for nd.keys elem.key nd.num_key in
      (insert_into_leaf elem nd).keys ≡ write (raised i (nd.num_key - i) nd.keys) i elem.key
unfolding insert_into_leaf put_element inc_num_key
keys-insert_into_leaf elem nd = rw (make_room_lem nd.num_key elem nd)

pub num_key-insert_into_leaf :
    (elem : Element) (nd : Node) → (insert_into_leaf elem nd).num_key ≡ nd.num_key + 1
unfolding insert_into_leaf put_element inc_num_key
num_key-insert_into_leaf elem nd = rw (make_room_lem nd.num_key elem nd)

-- Below the slot no key is greater than the new one.
pub below_slot :
    (keys : ℕ → Key) (key : Key) (n j : ℕ)
    → IsSorted keys n
    → j < slot_for keys key n
    → compare_key (keys j) key ≢ greater
below_slot keys key n j sorted h g =
    let s = slot_for keys key n in
    let inside = slot_for-le keys key n in
    slot_for_stop keys key n (omega arith) (
      greater_of_less key (keys (s - 1)) (
        less_trans key (keys j) (keys (s - 1)) (less_of_greater (keys j) key g)
          (sorted j (s - 1) (omega arith) (omega arith))))

-- A slot that splits the keys as the loop does takes the new key in order.
write-raised-IsSorted :
    (keys : ℕ → Key) (key : Key) (n s : ℕ)
    → IsSorted keys n
    → s ≤ n
    → ((j : ℕ) → j < s → compare_key (keys j) key ≢ greater)
    → ((j : ℕ) → s ≤ j → j < n → compare_key (keys j) key ≡ greater)
    → IsSorted (write (raised s (n - s) keys) s key) (n + 1)
write-raised-IsSorted keys key n s sorted w below above i j h l = ground (
  arith,
  sorted i j,
  sorted i (j - 1),
  sorted (i - 1) (j - 1),
  below i,
  above (j - 1),
  compare_key_refl key,
  less_of_greater (keys (j - 1)) key,
)

refs-insert_into_leaf :
    (elem : Element) (nd : Node)
    → nd.leaf ≡ true
    → let i = slot_for nd.keys elem.key nd.num_key in
      (insert_into_leaf elem nd).refs
      ≡ write (raised i (nd.num_key - i) nd.refs) i (elem.block_offset + elem.row_position)
unfolding insert_into_leaf put_element inc_num_key
refs-insert_into_leaf elem nd h = rw (make_room_lem nd.num_key elem nd, h) refl

-- A vector with x put between its first n values.
abbrev pub HasInserted {ℓ} : {A : Type ℓ} → ℕ → ℕ → A → (ℕ → A) → (ℕ → A) → Type ℓ
HasInserted n slot x before after =
    (after slot ≡ x)
    × (((j : ℕ) → j < slot → after j ≡ before j)
        × ((j : ℕ) → slot ≤ j → j < n → after (j + 1) ≡ before j))

write-raised-HasInserted :
    {A : Type 0} (n slot : ℕ) (x : A) (f : ℕ → A)
    → HasInserted n slot x f (write (raised slot (n - slot) f) slot x)
write-raised-HasInserted n slot x f =
    (ground arith, ((λ j l. ground arith), (λ j l k. ground arith)))

-- One element more than before, in a slot among the others, which keep their order.
pub record IsInserted (elem : Element) (before after : Node) : Type 0 where
  pub slot : ℕ
  pub inside : slot ≤ before.num_key
  pub count : after.num_key ≡ before.num_key + 1
  pub keys : HasInserted before.num_key slot elem.key before.keys after.keys
  pub refs :
      HasInserted before.num_key slot (elem.block_offset + elem.row_position) before.refs after.refs

-- Inserting an element into a leaf whose keys ascend puts its key and its reference, the offset of
-- its block and its place there added up, into one slot not past the end: the slots before it keep
-- their keys and references, those from it on move up by one, and there is one key more. The keys
-- still ascend.
pub insert_into_leaf_lem :
    (elem : Element) (nd : Node)
    → nd.leaf ≡ true
    → IsSorted nd.keys nd.num_key
    → let after = insert_into_leaf elem nd in
      IsInserted elem nd after × IsSorted after.keys after.num_key
insert_into_leaf_lem elem nd leaf sorted =
    let n = nd.num_key in
    let s = slot_for nd.keys elem.key n in
    let inside = slot_for-le nd.keys elem.key n in
    (
      record {
        slot = s;
        inside = inside;
        count = num_key-insert_into_leaf elem nd;
        keys = rw (keys-insert_into_leaf elem nd) (write-raised-HasInserted n s elem.key nd.keys);
        refs = rw (refs-insert_into_leaf elem nd leaf) (write-raised-HasInserted n s _ nd.refs);
      },
      rw (keys-insert_into_leaf elem nd, num_key-insert_into_leaf elem nd)
          (write-raised-IsSorted nd.keys elem.key n s sorted inside
            (λ j. below_slot nd.keys elem.key n j sorted) (slot_for_above nd.keys elem.key n)),
    )

-- Removing slot n, below the number of keys, of a node whose keys ascend returns what the slot held
-- and leaves one key less: the keys before slot n stay and those after it move down by one, so the
-- keys ascend as before.
pub remove_from_leaf_lem :
    (n : ℕ) (nd : Node)
    → n < nd.num_key
    → IsSorted nd.keys nd.num_key
    → let (elem, rest) = remove_from_leaf n nd in
      (elem ≡ get_element n nd)
      × ((rest.num_key + 1 ≡ nd.num_key)
          × (((j : ℕ) → j < n → rest.keys j ≡ nd.keys j)
              × (((j : ℕ) → n ≤ j → j < rest.num_key → rest.keys j ≡ nd.keys (j + 1))
                  × IsSorted rest.keys rest.num_key)))
unfolding remove_from_leaf dec_num_key
remove_from_leaf_lem n nd h sorted =
    rw (lower_elements_lem (n + 1) (nd.num_key - (n + 1)) nd (omega arith)) (
      refl,
      (
        omega arith,
        (
          (λ j l. ground arith),
          (
            (λ j l k. ground arith),
            (λ i j l k. ground (
              arith,
              sorted i j (omega arith) (omega arith),
              sorted i (j + 1) (omega arith) (omega arith),
              sorted (i + 1) (j + 1) (omega arith) (omega arith),
            )),
          ),
        ),
      ),
    )
