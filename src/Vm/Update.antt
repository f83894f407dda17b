-- ===== src/Vm/Update.antt =====
-- What an UPDATE assigns (vm/vm.cpp: update, make_assignment, exec_assignment).
use sql_relational_database.Common.{◌≡◌, refl, ◌∙◌}
use sql_relational_database.Common.Exec.{Result, ok}
use sql_relational_database.Vm.Item.{type_assign, Kind, Numbers, Text, Item, nullptr, node}
use sql_relational_database.Vm.Condition.{
  condition_switch, assignment_switch, exec_condition, exec_assignment,
}
use sql_relational_database.Vm.Fold.{compact_condition}
use sql_relational_database.Vm.Stack.{new_label}
use sql_relational_database.Vm.Truth.{
  IsComparison, cmpeq, cmpge, cmpgt, cmple, cmplt, cmpne, IsLogic, logic_and, logic_or, logic_xor,
  IsCondition, comparison, logic, truth, text_result, exec_condition-truth,
}

comparisons_agree :
    (num : Numbers) (k : Kind) (res value : Text) (l r on assigned : Result Text)
    → IsComparison k
    → assignment_switch num k res value l r assigned ≡ condition_switch num k res value l r on
unfolding assignment_switch condition_switch
comparisons_agree num _ res value l r on assigned cmpeq = refl
comparisons_agree num _ res value l r on assigned cmpge = refl
comparisons_agree num _ res value l r on assigned cmpgt = refl
comparisons_agree num _ res value l r on assigned cmple = refl
comparisons_agree num _ res value l r on assigned cmplt = refl
comparisons_agree num _ res value l r on assigned cmpne = refl

logic_agrees :
    (num : Numbers) (k : Kind) (res value : Text) (l r on assigned : Result Text)
    → IsLogic k
    → assignment_switch num k res value l r assigned ≡ condition_switch num k res value l r on
unfolding assignment_switch condition_switch
logic_agrees num _ res value l r on assigned logic_and = refl
logic_agrees num _ res value l r on assigned logic_or = refl
logic_agrees num _ res value l r on assigned logic_xor = refl

exec_assignment-exec_condition :
    (num : Numbers) (res : Text) (c : Item)
    → IsCondition c
    → exec_assignment num res c ≡ exec_condition num res c
unfolding exec_assignment exec_condition
exec_assignment-exec_condition num res _ (comparison a l r on k) =
    comparisons_agree num a.kind res a.value _ _ _ _ k
exec_assignment-exec_condition num res _ (logic a l r on k p q) =
    logic_agrees num a.kind res a.value _ _ _ _ k

-- Take the assignment of a condition to a column, the condition made of comparisons by AND, OR and
-- XOR. UPDATE folds before it looks at the rows, and the folding leaves the assignment as it is,
-- constants included; the value assigned, whatever the column held, is then the truth of the
-- condition in three-valued logic, as a text, or its error.
pub exec_assignment-truth :
    (num : Numbers) (res : Text) (col c : Item)
    → IsCondition c
    → let it = node (new_label type_assign) col c nullptr in
      (compact_condition num it ≡ ok it) × (exec_assignment num res it ≡ text_result (truth num c))
unfolding compact_condition exec_assignment assignment_switch
exec_assignment-truth num res col c h =
    (refl, exec_assignment-exec_condition num res c h ∙ exec_condition-truth num res c h)
