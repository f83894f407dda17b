-- ===== src/Vm/Condition.antt =====
-- exec_condition, exec_assignment and exec_where (vm/vm.cpp).
use sql_relational_database.Common.{Bool, [], ◌∷◌}
use sql_relational_database.Common.Exec.{null_dereference, Result, ok, err, malformed_comparison}
use sql_relational_database.Tree.Key.{compare_key}
use sql_relational_database.Vm.Item.{
  type_null, type_add, type_assign, type_boolean, type_bw_and, type_bw_or, type_bw_xor, type_column,
  type_cmpeq, type_cmpge, type_cmpgt, type_cmple, type_cmplt, type_cmpne, type_div, type_float,
  type_int, type_and, type_not, type_or, type_mod, type_mul, type_on, type_sub, type_varchar,
  type_where, type_xor, type_offset, type_other, Text, Kind, Item, nullptr, node, Numbers, vm_true,
  null_value, read_word,
}
use sql_relational_database.Vm.Eval.{
  exec_xor, exec_or, exec_and, exec_cmpne, exec_cmplt, exec_cmple, exec_cmpgt, exec_cmpge,
  exec_cmpeq, exec_mod, exec_div, exec_mul, exec_sub, exec_add, eq_text,
}

module _ (num : Numbers) where
  -- The switch of exec_condition: l and r are what the operands give, on what m_on_cond gives.
  unfoldable pub condition_switch :
      Kind → Text → Text → Result Text → Result Text → Result Text → Result Text
  unfolding exec_add exec_sub exec_mul exec_div exec_mod exec_cmpeq exec_cmpge exec_cmpgt exec_cmple
      exec_cmplt exec_cmpne exec_and exec_or exec_xor read_word
  condition_switch type_null res value l r on = ok vm_true
  condition_switch type_add res value l r on = exec_add num l r
  condition_switch type_boolean res [] l r on = ok null_value
  condition_switch type_boolean res (c ∷ cs) l r on = ok (read_word res (c ∷ cs))
  condition_switch type_bw_and res value l r on = ok res
  condition_switch type_bw_or res value l r on = ok res
  condition_switch type_bw_xor res value l r on = ok res
  condition_switch type_column res value l r on = ok value
  condition_switch type_cmpeq res value l r on = exec_cmpeq num l r
  condition_switch type_cmpge res value l r on = exec_cmpge num l r
  condition_switch type_cmpgt res value l r on = exec_cmpgt num l r
  condition_switch type_cmple res value l r on = exec_cmple num l r
  condition_switch type_cmplt res value l r on = exec_cmplt num l r
  condition_switch type_cmpne res value l r on = exec_cmpne num l r
  condition_switch type_div res value l r on = exec_div num l r
  condition_switch type_float res value l r on = ok value
  condition_switch type_int res value l r on = ok value
  condition_switch type_and res value l r on = exec_and l r
  condition_switch type_not res value l r on = ok res
  condition_switch type_or res value l r on = exec_or l r
  condition_switch type_mod res value l r on = exec_mod num l r
  condition_switch type_mul res value l r on = exec_mul num l r
  condition_switch type_on res value l r on = on
  condition_switch type_where res value l r on = on
  condition_switch type_sub res value l r on = exec_sub num l r
  condition_switch type_varchar res value l r on = ok value
  condition_switch type_xor res value l r on = exec_xor l r
  condition_switch type_assign res value l r on = err malformed_comparison
  condition_switch type_offset res value l r on = err malformed_comparison
  condition_switch type_other res value l r on = err malformed_comparison

  unfoldable pub exec_condition : Text → Item → Result Text
  unfolding condition_switch
  exec_condition res nullptr = ok res
  exec_condition res (node a left right on_cond) =
      condition_switch a.kind res a.value (exec_condition null_value left)
        (exec_condition null_value right) (exec_condition res on_cond)

  -- The switch of exec_assignment; `assigned` is what exec_assignment gives for m_right.
  unfoldable pub assignment_switch :
      Kind → Text → Text → Result Text → Result Text → Result Text → Result Text
  unfolding exec_add exec_sub exec_mul exec_div exec_mod exec_cmpeq exec_cmpge exec_cmpgt exec_cmple
      exec_cmplt exec_cmpne exec_and exec_or exec_xor
  assignment_switch type_add res value l r assigned = exec_add num l r
  assignment_switch type_assign res value l r assigned = assigned
  assignment_switch type_cmpeq res value l r assigned = exec_cmpeq num l r
  assignment_switch type_cmpge res value l r assigned = exec_cmpge num l r
  assignment_switch type_cmpgt res value l r assigned = exec_cmpgt num l r
  assignment_switch type_cmple res value l r assigned = exec_cmple num l r
  assignment_switch type_cmplt res value l r assigned = exec_cmplt num l r
  assignment_switch type_cmpne res value l r assigned = exec_cmpne num l r
  assignment_switch type_div res value l r assigned = exec_div num l r
  assignment_switch type_float res value l r assigned = ok value
  assignment_switch type_int res value l r assigned = ok value
  assignment_switch type_and res value l r assigned = exec_and l r
  assignment_switch type_not res value l r assigned = exec_and l r
  assignment_switch type_or res value l r assigned = exec_or l r
  assignment_switch type_mod res value l r assigned = exec_mod num l r
  assignment_switch type_mul res value l r assigned = exec_mul num l r
  assignment_switch type_sub res value l r assigned = exec_sub num l r
  assignment_switch type_varchar res value l r assigned = ok value
  assignment_switch type_xor res value l r assigned = exec_xor l r
  assignment_switch _ res value l r assigned = ok res

  -- A null item is dereferenced.
  unfoldable pub exec_assignment : Text → Item → Result Text
  unfolding assignment_switch exec_condition
  exec_assignment res nullptr = err null_dereference
  exec_assignment res (node a left right on_cond) =
      assignment_switch a.kind res a.value (exec_condition null_value left)
        (exec_condition null_value right) (exec_assignment res right)

-- res == "true", where exec_condition returned.
unfoldable pub passes : Result Text → Result Bool
unfolding compare_key
passes (err e) = err e
passes (ok res) = ok (eq_text (compare_key res vm_true))

-- Whether exec_where goes on to the next item of the chain.
unfoldable pub exec_where : Numbers → Item → Result Bool
unfolding exec_condition passes
exec_where num on_cond = passes (exec_condition num vm_true on_cond)
