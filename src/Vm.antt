-- ===== src/Vm.antt =====
-- The virtual machine (vm/vm.cpp): its expressions, the stack that builds them, constant folding
-- and evaluation.
pub mod Item
pub mod Eval
pub mod Condition
pub mod Compact
pub mod Fold
pub mod Truth
pub mod Preserve
pub mod Operands
pub mod Agree
pub mod Stack
pub mod Build
pub mod Update
mod Tests
