-- ===== src/Tree/Descend.antt =====
-- The inner branch of insert_non_full (btree/btree.cpp): the child that receives a new element.
use sql_relational_database.Common.{ℕ, zero, suc}
use sql_relational_database.Tree.Key.{compare_key}
use sql_relational_database.Tree.Node.{Node, Element, get_element, if_greater}

-- for (; i >= 0 && get_element(i) > elem; --i); ++i, where the argument is i + 1.
unfoldable pub find_child : ℕ → Element → Node → ℕ
unfolding get_element
find_child zero elem nd = 0
find_child (suc i) elem nd =
    if_greater (compare_key (get_element i nd).key elem.key) (find_child i elem nd) (suc i)
