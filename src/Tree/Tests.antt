-- ===== src/Tree/Tests.antt =====
-- Runs of class node, and each of its theorems at an input.
use sql_relational_database.Common.{
  ◌*◌, ◌≢◌, ℕ, ◌+◌, ◌-◌, ◌/◌, ◌%◌, ◌≤◌, ◌<◌, ◌≡◌, refl, arith, true, false, [], ◌∷◌, none,
}
use sql_relational_database.Tree.Key.{Key, greater, compare_key}
use sql_relational_database.Tree.Node.{
  block_size, Node, Element, order, min_degree, find, find_key, at_slot, get_element,
  insert_into_leaf, remove_from_leaf,
}
use sql_relational_database.Tree.Search.{IsSorted, Located, find_key-Located}
use sql_relational_database.Tree.Find.{Answers, find-Answers, find_complete}
use sql_relational_database.Tree.Leaf.{IsInserted, insert_into_leaf_lem, remove_from_leaf_lem}
use sql_relational_database.Tree.Refill.{IsSound, fill-IsSound}
use sql_relational_database.Tree.Bounds.{slot_position, slot_position_lem}
use sql_relational_database.Tree.Borrow.{borrow_from_prev_lem, borrow_from_next_lem}
use sql_relational_database.Tree.Family.{
  fill, borrow_from_prev, borrow_from_next, Family, split_child, merge,
}
use sql_relational_database.Tree.Split.{split_child_lem, num_key-split_child}
use sql_relational_database.Tree.Merge.{merge_lem, merge-drops_last_child}

-- Keys of one byte, slot j holding 2 * j + 1.
abbrev odd_key : ℕ → Key
odd_key j = (j + j + 1) ∷ []

abbrev leaf_of : ℕ → Node
leaf_of n = record {
  leaf = true;
  dead = false;
  num_key = n;
  offset = 4096;
  refs = λ j. j + 100;
  keys = odd_key;
  prev = none;
  next = none;
}

abbrev inner_of : ℕ → Node
inner_of n = record (leaf_of n) { leaf = false; offset = 8192 }

abbrev four : Element
four = record { row_position = 7; block_offset = 32768; key = 4 ∷ [] }

odd_key-IsSorted : (n : ℕ) → IsSorted odd_key n
unfolding compare_key
odd_key-IsSorted n i j h l = ground arith

odd_key-below : (n j : ℕ) → j < n → compare_key (odd_key n) (odd_key j) ≡ greater
unfolding compare_key
odd_key-below n j h = ground arith

-- A key of nine bytes gives an odd order, and half of it as min_degree.
odd_order : (order 9 ≡ 1925) × (min_degree 9 ≡ 962)
unfolding order min_degree
odd_order = (refl, refl)

find_key-Located_example : Located odd_key 3 (4 ∷ []) (find_key (4 ∷ []) (leaf_of 3))
find_key-Located_example = find_key-Located (4 ∷ []) (leaf_of 3) (odd_key-IsSorted 3)

find-Answers_example : Answers (3 ∷ []) (leaf_of 3) (find (3 ∷ []) (leaf_of 3))
find-Answers_example = find-Answers (3 ∷ []) (leaf_of 3) (odd_key-IsSorted 3)

find_complete_example :
    (r : ℕ) × (find (3 ∷ []) (leaf_of 3) ≡ at_slot r) × (r < 3) × (odd_key r ≡ (3 ∷ []))
find_complete_example = find_complete (3 ∷ []) (leaf_of 3) 1 (odd_key-IsSorted 3) (omega arith) refl

insert_into_leaf_lem_example :
    let after = insert_into_leaf four (leaf_of 3) in
    IsInserted four (leaf_of 3) after × IsSorted after.keys after.num_key
insert_into_leaf_lem_example = insert_into_leaf_lem four (leaf_of 3) refl (odd_key-IsSorted 3)

remove_from_leaf_lem_example :
    let (elem, rest) = remove_from_leaf 1 (leaf_of 3) in
    (elem ≡ get_element 1 (leaf_of 3))
    × ((rest.num_key + 1 ≡ 3)
        × (((j : ℕ) → j < 1 → rest.keys j ≡ odd_key j)
            × (((j : ℕ) → 1 ≤ j → j < rest.num_key → rest.keys j ≡ odd_key (j + 1))
                × IsSorted rest.keys rest.num_key)))
remove_from_leaf_lem_example = remove_from_leaf_lem 1 (leaf_of 3) (omega arith) (odd_key-IsSorted 3)

-- A full leaf of an index of order 4, and one of an index of order 5.
abbrev splitting : ℕ → Family
splitting n = record { parent = inner_of 2; child = leaf_of n; sibling = leaf_of 0 }

num_key-split_child_example :
    let g = split_child (5 / 2) 1 (splitting 4) in
    ((5 % 2 ≡ 0) → g.child.num_key + g.sibling.num_key + 0 ≡ 4)
    × ((5 % 2 ≡ 1) → g.child.num_key + g.sibling.num_key + 0 + 1 ≡ 4)
num_key-split_child_example = num_key-split_child 5 1 (splitting 4) (omega arith) refl refl

abbrev merging : Family
merging = record { parent = inner_of 4; child = leaf_of 1; sibling = leaf_of 1 }

merge-drops_last_child_example :
    let g = merge 2 0 merging in
    (((j : ℕ) → j ≤ 0 → g.parent.refs j ≡ j + 100)
      × ((j : ℕ) → 0 < j → j + 1 < 4 → g.parent.refs j ≡ j + 1 + 100))
    × ((g.parent.refs g.parent.num_key ≡ 103) × (g.parent.refs (g.parent.num_key - 1) ≡ 103))
merge-drops_last_child_example = merge-drops_last_child 2 0 merging refl (omega arith)

merge_lem_example :
    let g = merge 2 0 merging in
    ((g.child.num_key ≡ 3) × ((g.parent.num_key + 1 ≡ 4) × (g.child.keys 1 ≡ odd_key 0)))
    × ((((j : ℕ) → j < 1 → g.child.keys j ≡ odd_key j)
          × ((j : ℕ) → j < 1 → g.child.keys (2 + j) ≡ odd_key j))
        × (((j : ℕ) → j < 0 → g.parent.keys j ≡ odd_key j)
            × ((j : ℕ) → 0 ≤ j → j < g.parent.num_key → g.parent.keys j ≡ odd_key (j + 1))))
merge_lem_example = merge_lem 2 0 merging refl refl (omega arith) (omega arith)

split_child_lem_example :
    let g = split_child 2 1 (splitting 3) in
    ((g.child.num_key ≡ 2) × (g.child.keys ≡ odd_key))
    × (((g.sibling.num_key ≡ 1) × ((j : ℕ) → j < 1 → g.sibling.keys j ≡ odd_key (2 + j)))
        × (((g.parent.num_key ≡ 3) × (g.parent.keys 1 ≡ odd_key 1))
            × ((((j : ℕ) → j < 1 → g.parent.keys j ≡ odd_key j)
                  × ((j : ℕ) → 1 < j → j ≤ 2 → g.parent.keys j ≡ odd_key (j - 1)))
                × ((((j : ℕ) → j ≤ 1 → g.parent.refs j ≡ j + 100) × (g.parent.refs 2 ≡ 4096))
                    × ((j : ℕ) → 2 < j → j ≤ 3 → g.parent.refs j ≡ j - 1 + 100)))))
split_child_lem_example = split_child_lem 2 1 (splitting 3) (omega arith) refl refl

abbrev borrowing : Family
borrowing = record { parent = inner_of 4; child = leaf_of 1; sibling = leaf_of 3 }

borrow_from_prev_lem_example :
    let g = borrow_from_prev 1 borrowing in
    ((g.child.num_key ≡ 2) × (g.sibling.num_key + 1 ≡ 3))
    × (((g.child.keys 0 ≡ odd_key 0) × ((j : ℕ) → j < 1 → g.child.keys (j + 1) ≡ odd_key j))
        × ((g.parent.keys 0 ≡ odd_key 2)
            × (((j : ℕ) → j ≢ 0 → g.parent.keys j ≡ odd_key j) × (g.sibling.keys ≡ odd_key))))
borrow_from_prev_lem_example = borrow_from_prev_lem 1 borrowing (omega arith)

borrow_from_next_lem_example :
    let g = borrow_from_next 1 borrowing in
    ((g.child.num_key ≡ 2) × (g.sibling.num_key + 1 ≡ 3))
    × (((g.child.keys 1 ≡ odd_key 1) × ((j : ℕ) → j < 1 → g.child.keys j ≡ odd_key j))
        × ((g.parent.keys 1 ≡ odd_key 0)
            × (((j : ℕ) → j ≢ 1 → g.parent.keys j ≡ odd_key j)
                × ((j : ℕ) → j < g.sibling.num_key → g.sibling.keys j ≡ odd_key (j + 1)))))
borrow_from_next_lem_example = borrow_from_next_lem 1 borrowing (omega arith)

-- The child before has two keys, the one after it three.
fill-IsSound_example : IsSound 3 1 2 2 3 (fill 3 1 2 2 3)
fill-IsSound_example = fill-IsSound 3 1 2 2 3 (omega arith) (omega arith)

slot_position_lem_example :
    ((7 < order 9) → slot_position 9 7 + 17 ≤ block_size)
    × (((7 ≤ order 9) → slot_position 9 7 + 8 ≤ block_size)
        × ((2 * min_degree 9 ≤ order 9) × (order 9 ≤ 2 * min_degree 9 + 1)))
slot_position_lem_example = slot_position_lem 9 7
