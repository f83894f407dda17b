-- ===== src/Tree.antt =====
-- Modules on class element, class node and class bcalc (btree/btree.h, btree/btree.cpp, bcalc/bcalc.cpp).
pub mod Key
pub mod Node
pub mod Family
pub mod Slots
pub mod Copies
pub mod Search
pub mod Find
pub mod Room
pub mod Leaf
pub mod Split
pub mod Merge
pub mod Borrow
pub mod Refill
pub mod Bounds
pub mod Descend
mod Tests
