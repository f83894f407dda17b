-- ===== src/Vm/Tests.antt =====
-- Runs of the expression machine, with whole numbers of one digit for the numbers, and each of its
-- theorems at an input.
use sql_relational_database.Common.{
  ℕ, ◌+◌, ◌-◌, ◌*◌, ◌/◌, ◌%◌, ◌<◌, ◌≡◌, refl, arith, true, false, not, ◌&&◌, List, [], ◌∷◌, Option,
  none, some, if◌then◌else◌, ltb, leb, ◌==◌, inl,
}
use sql_relational_database.Common.Int.{pos, negsuc}
use sql_relational_database.Common.Exec.{ok, err, divide_by_zero, null_dereference}
use sql_relational_database.Vm.Item.{
  type_assign, type_boolean, type_column, type_cmpeq, type_cmplt, type_div, type_int, type_and,
  type_not, type_varchar, Text, Kind, other_column, Item, nullptr, node, Numbers, null_value,
  vm_true, is_number,
}
use sql_relational_database.Vm.Condition.{exec_condition, exec_where, exec_assignment}
use sql_relational_database.Vm.Fold.{compact_condition}
use sql_relational_database.Vm.Truth.{
  cmpeq, cmplt, logic_and, IsCondition, comparison, logic, truth, selects, exec_where-selects,
  text_result, exec_condition-truth,
}
use sql_relational_database.Vm.Operands.{texts, leaf_int, leaf_varchar, leaf_column, left_column}
use sql_relational_database.Vm.Agree.{
  IsFoldable, comparison_condition, logic_condition, IsPreserved, compact_condition-IsPreserved,
}
use sql_relational_database.Vm.Update.{exec_assignment-truth}
use sql_relational_database.Vm.Stack.{Opcode, op_and, operand, new_label, run_code}
use sql_relational_database.Vm.Build.{is_operand, is_binary, ands, run_code-IsExpression}

abbrev read_digit : Text → Option (ℕ × ℕ)
read_digit [] = none
read_digit (c ∷ cs) = if leb 48 c && leb c 57 then some (c - 48, 1) else none

abbrev print_digit : ℕ → Text
print_digit n = (48 + n) ∷ []

abbrev digits : Numbers
digits = record {
  Float = ℕ;
  stof = read_digit;
  print = print_digit;
  print_fixed = print_digit;
  to_string = print_digit;
  stoi = λ text. elim (read_digit text) [ none ↦ none | some (n, p) ↦ some (pos n) ];
  to_string_int = λ v. elim v [ pos n ↦ print_digit n | negsuc n ↦ 45 ∷ print_digit (n + 1) ];
  add = λ x y. x + y;
  sub = λ x y. x - y;
  mul = λ x y. x * y;
  div = λ x y. x / y;
  fmod = λ x y. x % y;
  negate = λ x. x;
  is_zero = λ x. x == 0;
  eq = λ x y. x == y;
  ge = λ x y. leb y x;
  gt = λ x y. ltb y x;
  le = λ x y. leb x y;
  lt = λ x y. ltb x y;
  ne = λ x y. not (x == y);
}

abbrev leaf_item : Kind → Text → Item
leaf_item k v =
    node (record { kind = k; negate = false; col_type = other_column; value = v }) nullptr nullptr
      nullptr

abbrev over : Kind → Item → Item → Item
over k l r = node (new_label k) l r nullptr

-- 'a' = 'b', and x < 3 for a column x that holds no value.
abbrev a_is_b : Item
a_is_b = over type_cmpeq (leaf_item type_varchar (97 ∷ [])) (leaf_item type_varchar (98 ∷ []))

abbrev x_below_3 : Item
x_below_3 = over type_cmplt (leaf_item type_column []) (leaf_item type_int (51 ∷ []))

abbrev both : Item
both = over type_and a_is_b x_below_3

both-IsCondition : IsCondition both
both-IsCondition =
    logic (new_label type_and) _ _ nullptr logic_and
      (comparison (new_label type_cmpeq) _ _ nullptr cmpeq)
      (comparison (new_label type_cmplt) _ _ nullptr cmplt)

not_a_number : (n : ℕ) → 57 < n → is_number digits (n ∷ []) ≡ none
unfolding is_number
not_a_number n h = ground arith

both-IsFoldable : IsFoldable digits both
both-IsFoldable =
    logic_condition (new_label type_and) _ _ nullptr logic_and
      (comparison_condition (new_label type_cmpeq) _ _ _ _ _ _ _ _ nullptr cmpeq leaf_varchar
        leaf_varchar
        (texts refl refl (record { first = 97; rest = []; splits = refl })
          (record { first = 98; rest = []; splits = refl }) (inl (not_a_number 97 (omega arith)))))
      (comparison_condition (new_label type_cmplt) _ _ _ _ _ _ _ _ nullptr cmplt leaf_column
        leaf_int (left_column refl))

exec_condition-truth_example : exec_condition digits [] both ≡ text_result (truth digits both)
exec_condition-truth_example = exec_condition-truth digits [] both both-IsCondition

exec_where-selects_example : exec_where digits both ≡ selects (truth digits both)
exec_where-selects_example = exec_where-selects digits both both-IsCondition

compact_condition-IsPreserved_example : IsPreserved digits both
compact_condition-IsPreserved_example = compact_condition-IsPreserved digits both both-IsFoldable

abbrev both_code : List Opcode
both_code = operand x_below_3 ∷ operand a_is_b ∷ op_and ∷ []

run_code-IsExpression_example : run_code both_code [] ≡ (ok tt, both ∷ [])
run_code-IsExpression_example =
    run_code-IsExpression both both_code
      (is_binary type_and op_and a_is_b x_below_3 (operand a_is_b ∷ []) (operand x_below_3 ∷ [])
        ands (is_operand a_is_b) (is_operand x_below_3))
      []

-- 6 / 0 is an error of evaluation, and folding does not look at the divisor.
division :
    (exec_condition digits []
        (over type_div (leaf_item type_int (54 ∷ [])) (leaf_item type_int (48 ∷ [])))
      ≡ err divide_by_zero)
unfolding exec_condition
division = refl

-- '' = '' is unknown when evaluated, and true once it is folded.
empty_texts :
    let it = over type_cmpeq (leaf_item type_varchar []) (leaf_item type_varchar []) in
    (exec_condition digits [] it ≡ ok null_value)
    × (compact_condition digits it
        ≡ ok (
            node
              (record (new_label type_boolean) { value = vm_true })
              (leaf_item type_varchar [])
              (leaf_item type_varchar [])
              nullptr))
unfolding exec_condition compact_condition
empty_texts = (refl, refl)

-- An assignment of NOT x takes the and of nothing and x.
assigned_not :
    exec_assignment digits [] (over type_not nullptr (leaf_item type_int (49 ∷ []))) ≡ ok null_value
unfolding exec_assignment
assigned_not = refl

-- A NOT that logic_not builds: the row passes, and its folding reads through the null left operand.
not_passes : exec_where digits (over type_not nullptr both) ≡ ok true
unfolding exec_where
not_passes = refl

not_folded :
    compact_condition digits (over type_not nullptr (leaf_item type_int (49 ∷ [])))
    ≡ err null_dereference
unfolding compact_condition
not_folded = refl

-- UPDATE folds first, and leaves an assignment as it is: x = (1 = 1) assigns the truth of 1 = 1.
abbrev one_is_one : Item
one_is_one = over type_cmpeq (leaf_item type_int (49 ∷ [])) (leaf_item type_int (49 ∷ []))

constant_assigned :
    let it = over type_assign (leaf_item type_column []) one_is_one in
    (compact_condition digits it ≡ ok it) × (exec_assignment digits (120 ∷ []) it ≡ ok vm_true)
unfolding compact_condition exec_assignment
constant_assigned = (refl, refl)

exec_assignment-truth_example :
    let it = over type_assign (leaf_item type_column []) both in
    (compact_condition digits it ≡ ok it)
    × (exec_assignment digits [] it ≡ text_result (truth digits both))
exec_assignment-truth_example =
    exec_assignment-truth digits [] (leaf_item type_column []) both both-IsCondition
