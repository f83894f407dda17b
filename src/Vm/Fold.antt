-- ===== src/Vm/Fold.antt =====
-- compact_condition (vm/vm.cpp): the walk that folds constants from the leaves up.
use sql_relational_database.Common.Exec.{Result, ok, err, null_dereference}
use sql_relational_database.Vm.Item.{
  type_add, type_cmpeq, type_cmpge, type_cmpgt, type_cmple, type_cmplt, type_cmpne, type_div,
  type_and, type_not, type_or, type_mod, type_mul, type_on, type_sub, type_where, type_xor, Kind,
  Label, Item, nullptr, node, Numbers,
}
use sql_relational_database.Vm.Compact.{
  after_both, after_one, compact_add, compact_sub, compact_mul, compact_div, compact_mod,
  compact_cmpeq, compact_cmpge, compact_cmpgt, compact_cmple, compact_cmplt, compact_cmpne,
  compact_and, compact_or, compact_xor,
}

module _ (num : Numbers) (a : Label) (left right on_cond : Item) where
  -- The switch; l, r and on are what compact_condition makes of the three children.
  unfoldable pub compact_switch : Kind → Result Item → Result Item → Result Item → Result Item
  unfolding compact_add compact_sub compact_mul compact_div compact_mod compact_cmpeq compact_cmpge
      compact_cmpgt compact_cmple compact_cmplt compact_cmpne compact_and compact_or compact_xor
  compact_switch type_add l r on = after_both l r λ l r. compact_add num a l r on_cond
  compact_switch type_cmpeq l r on = after_both l r λ l r. compact_cmpeq num a l r on_cond
  compact_switch type_cmpge l r on = after_both l r λ l r. compact_cmpge num a l r on_cond
  compact_switch type_cmpgt l r on = after_both l r λ l r. compact_cmpgt num a l r on_cond
  compact_switch type_cmple l r on = after_both l r λ l r. compact_cmple num a l r on_cond
  compact_switch type_cmplt l r on = after_both l r λ l r. compact_cmplt num a l r on_cond
  compact_switch type_cmpne l r on = after_both l r λ l r. compact_cmpne num a l r on_cond
  compact_switch type_div l r on = after_both l r λ l r. compact_div num a l r on_cond
  compact_switch type_and l r on = after_both l r λ l r. compact_and a l r on_cond
  compact_switch type_not l r on = after_one r λ r. compact_and a left r on_cond
  compact_switch type_or l r on = after_both l r λ l r. compact_or a l r on_cond
  compact_switch type_mod l r on = after_both l r λ l r. compact_mod num a l r on_cond
  compact_switch type_mul l r on = after_both l r λ l r. compact_mul num a l r on_cond
  compact_switch type_on l r on = after_one on λ on. ok (node a left right on)
  compact_switch type_where l r on = after_one on λ on. ok (node a left right on)
  compact_switch type_sub l r on = after_both l r λ l r. compact_sub num a l r on_cond
  compact_switch type_xor l r on = after_both l r λ l r. compact_xor a l r on_cond
  compact_switch _ l r on = ok (node a left right on_cond)

unfoldable pub compact_condition : Numbers → Item → Result Item
unfolding compact_switch
compact_condition num nullptr = err null_dereference
compact_condition num (node a left right on_cond) =
    compact_switch num a left right on_cond a.kind (compact_condition num left)
      (compact_condition num right) (compact_condition num on_cond)
