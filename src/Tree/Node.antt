-- ===== src/Tree/Node.antt =====
-- class element, class node and class bcalc (btree/btree.h, btree/btree.cpp, btree/const.h,
-- bcalc/bcalc.cpp). A node is its slots: slot n of the element vector is the 8 bytes at
-- ELEMENT_VECTOR_POS + n * VECTOR_ELEMENT_SZ, which hold a child offset, or in a leaf the offset of
-- a row, and the key after them. Slots past `num_key` keep what was last written to them, as the
-- bytes of the block do. The methods that work on a node and its children take and return the nodes
-- involved, which lie in different blocks; the flush list is not part of the state.
use sql_relational_database.Common.{
  ℕ, zero, suc, ◌+◌, ◌-◌, ◌/◌, ◌%◌, Bool, ltb, leb, ◌==◌, if◌then◌else◌, Option,
}
use sql_relational_database.Tree.Key.{Key, Sign, less, same, greater, compare_key}

pub record Element : Type 0 where
  pub row_position : ℕ
  pub block_offset : ℕ
  pub key : Key

pub record Node : Type 0 where
  pub leaf : Bool
  pub dead : Bool
  pub num_key : ℕ
  pub offset : ℕ
  pub refs : ℕ → ℕ
  pub keys : ℕ → Key
  pub prev : Option ℕ
  pub next : Option ℕ

-- BUFFER_SZ, and the block size that the schema header records for every table.
abbrev pub block_size : ℕ
block_size = 32768

abbrev pub node_hdr_sz : ℕ
node_hdr_sz = 24

abbrev pub child_offset_sz : ℕ
child_offset_sz = 8

-- bcalc::order
unfoldable pub order : ℕ → ℕ
order key_size = (block_size - (node_hdr_sz + child_offset_sz)) / (child_offset_sz + key_size)

-- bcalc::min_degree
unfoldable pub min_degree : ℕ → ℕ
min_degree key_size =
    let order = (block_size - (node_hdr_sz + child_offset_sz)) / (child_offset_sz + key_size) in
    order / 2

abbrev pub write {ℓ} : {A : Type ℓ} → (ℕ → A) → ℕ → A → ℕ → A
write f i v j = if i == j then v else f j

unfoldable pub get_child_offset : ℕ → Node → ℕ
get_child_offset n nd = nd.refs n

unfoldable pub put_child_offset : ℕ → ℕ → Node → Node
put_child_offset n offset nd = record nd { refs = write nd.refs n offset }

-- In a leaf the combined offset is split at the block size.
unfoldable pub get_element : ℕ → Node → Element
get_element n nd =
    if nd.leaf
    then record {
      row_position = nd.refs n % block_size;
      block_offset = nd.refs n - nd.refs n % block_size;
      key = nd.keys n;
    }
    else record { row_position = 0; block_offset = 0; key = nd.keys n }

unfoldable pub put_element : ℕ → Element → Node → Node
put_element n e nd = record nd {
  refs = if nd.leaf then write nd.refs n (e.block_offset + e.row_position) else nd.refs;
  keys = write nd.keys n e.key;
}

unfoldable pub inc_num_key : ℕ → Node → Node
inc_num_key n nd = record nd { num_key = nd.num_key + n }

unfoldable pub dec_num_key : ℕ → Node → Node
dec_num_key n nd = record nd { num_key = nd.num_key - n }

unfoldable pub set_num_key : ℕ → Node → Node
set_num_key n nd = record nd { num_key = n }

-- `is_full` of a node of an index of the given order.
unfoldable pub is_full : ℕ → Node → Bool
is_full order nd = leb (order - 1) nd.num_key

-- The binary search of `find_key`; `top` is `hi + 1`, since `hi` ends at -1 where every key is
-- greater. `alt` is the index of the lowest key found so far that is greater than the target.
unfoldable pub search_loop : ℕ → (ℕ → Key) → Key → ℕ → ℕ → ℕ → ℕ
search_loop zero keys key lo top alt = alt
search_loop (suc fuel) keys key lo top alt =
    let mid = (lo + (top - 1)) / 2 in
    let left = search_loop fuel keys key lo mid mid in
    let right = search_loop fuel keys key (mid + 1) top alt in
    let step = elim (compare_key key (keys mid)) as (λ _. ℕ) [
      | less ↦ left
      | greater ↦ right
      | same ↦ mid
    ] in
    if ltb lo top then step else alt

-- The window halves: one round more than there are keys is enough.
unfoldable pub find_key : Key → Node → ℕ
unfolding search_loop
find_key key nd = search_loop (suc nd.num_key) nd.keys key 0 nd.num_key nd.num_key

-- What `node::find` decides at one node: an iterator to slot i, the end, or on to child i.
pub data Found : Type 0 where
  at_slot : ℕ → Found
  at_end : Found
  in_child : ℕ → Found

unfoldable pub find : Key → Node → Found
unfolding find_key get_element
find key nd =
    let i = find_key key nd in
    elim (compare_key (get_element i nd).key key) [
      | same ↦ at_slot i
      | _ ↦ if nd.leaf then at_end else in_child i
    ]

-- for (i = lo + count - 1; i >= lo; --i) put_element(i + 1, get_element(i))
unfoldable pub raise_elements : ℕ → ℕ → Node → Node
unfolding put_element get_element
raise_elements lo zero nd = nd
raise_elements lo (suc count) nd =
    raise_elements lo count (put_element (lo + count + 1) (get_element (lo + count) nd) nd)

-- for (i = lo; i < lo + count; ++i) put_element(i - 1, get_element(i))
unfoldable pub lower_elements : ℕ → ℕ → Node → Node
unfolding put_element get_element
lower_elements lo zero nd = nd
lower_elements lo (suc count) nd =
    lower_elements (lo + 1) count (put_element (lo - 1) (get_element lo nd) nd)

-- The same loops over the child offsets.
unfoldable pub raise_children : ℕ → ℕ → Node → Node
unfolding put_child_offset get_child_offset
raise_children lo zero nd = nd
raise_children lo (suc count) nd =
    raise_children lo count
      (put_child_offset (lo + count + 1) (get_child_offset (lo + count) nd) nd)

unfoldable pub lower_children : ℕ → ℕ → Node → Node
unfolding put_child_offset get_child_offset
lower_children lo zero nd = nd
lower_children lo (suc count) nd =
    lower_children (lo + 1) count (put_child_offset (lo - 1) (get_child_offset lo nd) nd)

-- for (i = 0; i < count; ++i) put_element(to + i, from->get_element(start + i))
unfoldable pub copy_elements : ℕ → ℕ → ℕ → Node → Node → Node
unfolding put_element get_element
copy_elements to start zero from nd = nd
copy_elements to start (suc count) from nd =
    put_element (to + count) (get_element (start + count) from)
      (copy_elements to start count from nd)

unfoldable pub copy_children : ℕ → ℕ → ℕ → Node → Node → Node
unfolding put_child_offset get_child_offset
copy_children to start zero from nd = nd
copy_children to start (suc count) from nd =
    put_child_offset (to + count) (get_child_offset (start + count) from)
      (copy_children to start count from nd)

-- remove_from_leaf: the removed element, and the node.
unfoldable pub remove_from_leaf : ℕ → Node → Element × Node
unfolding lower_elements dec_num_key
remove_from_leaf n nd =
    (get_element n nd, dec_num_key 1 (lower_elements (n + 1) (nd.num_key - (n + 1)) nd))

abbrev pub if_greater {ℓ} : {A : Type ℓ} → Sign → A → A → A
if_greater greater a b = a
if_greater same a b = b
if_greater less a b = b

-- The leaf branch of insert_non_full: for (; i >= 0 && get_element(i) > elem; --i) put_element(i +
-- 1, get_element(i)); the argument is i + 1. Then the element goes to slot i + 1.
unfoldable pub make_room : ℕ → Element → Node → ℕ × Node
unfolding put_element get_element
make_room zero elem nd = (0, nd)
make_room (suc i) elem nd =
    let shifted = make_room i elem (put_element (i + 1) (get_element i nd) nd) in
    if_greater (compare_key (get_element i nd).key elem.key) shifted (i + 1, nd)

unfoldable pub insert_into_leaf : Element → Node → Node
unfolding make_room inc_num_key
insert_into_leaf elem nd =
    let (i, nd') = make_room nd.num_key elem nd in inc_num_key 1 (put_element i elem nd')
