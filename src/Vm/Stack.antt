-- ===== src/Vm/Stack.antt =====
-- The stack of the virtual machine, and the methods that build the items of expressions on it
-- (vm/vm.cpp: add, sub, mul, div, cmpeq to cmpne, logic_and, logic_or, logic_not, negate, where,
-- call for the opcodes of these; item::value). Popping an empty std::stack is undefined.
use sql_relational_database.Common.{
  true, false, List, [], ◌∷◌, Option, none, some, if◌then◌else◌, ℕ, ◌^◌,
}
use sql_relational_database.Common.Int.{ℤ, -ℤ◌, fits}
use sql_relational_database.Common.Exec.{
  Result, ok, err, Exec, pure, throw, ◌>>=◌, ◌>>◌, null_dereference, invalid_number, overflow,
  malformed_expr, malformed_column_expr,
}
use sql_relational_database.Vm.Item.{
  type_add, type_column, type_cmpeq, type_cmpge, type_cmpgt, type_cmple, type_cmplt, type_cmpne,
  type_div, type_float, type_int, type_and, type_not, type_or, type_mul, type_sub, type_where, Text,
  Kind, Numbers, Label, Item, nullptr, node, null_value, ColumnType, float_column, int_column,
  other_column,
}

abbrev pub Stack : Type 0
Stack = List Item

unfoldable pub pop : Exec Stack Item
pop [] = (err null_dereference, [])
pop (it ∷ rest) = (ok it, rest)

unfoldable pub push : Item → Exec Stack (Unit {0})
push it stack = (ok tt, it ∷ stack)

-- A new item.
abbrev pub new_label : Kind → Label
new_label k = record { kind = k; negate = false; col_type = other_column; value = null_value }

-- The left operand is popped first.
unfoldable pub binary : Kind → Exec Stack (Unit {0})
unfolding pop push ◌>>=◌
binary k = do l ← pop; r ← pop; push (node (new_label k) l r nullptr)

unfoldable pub add : Exec Stack (Unit {0})
unfolding binary
add = binary type_add

unfoldable pub sub : Exec Stack (Unit {0})
unfolding binary
sub = binary type_sub

unfoldable pub mul : Exec Stack (Unit {0})
unfolding binary
mul = binary type_mul

unfoldable pub div : Exec Stack (Unit {0})
unfolding binary
div = binary type_div

unfoldable pub cmpeq : Exec Stack (Unit {0})
unfolding binary
cmpeq = binary type_cmpeq

unfoldable pub cmpge : Exec Stack (Unit {0})
unfolding binary
cmpge = binary type_cmpge

unfoldable pub cmpgt : Exec Stack (Unit {0})
unfolding binary
cmpgt = binary type_cmpgt

unfoldable pub cmple : Exec Stack (Unit {0})
unfolding binary
cmple = binary type_cmple

unfoldable pub cmplt : Exec Stack (Unit {0})
unfolding binary
cmplt = binary type_cmplt

unfoldable pub cmpne : Exec Stack (Unit {0})
unfolding binary
cmpne = binary type_cmpne

unfoldable pub logic_and : Exec Stack (Unit {0})
unfolding binary
logic_and = binary type_and

unfoldable pub logic_or : Exec Stack (Unit {0})
unfolding binary
logic_or = binary type_or

unfoldable pub logic_not : Exec Stack (Unit {0})
unfolding pop push ◌>>=◌
logic_not = do r ← pop; push (node (new_label type_not) nullptr r nullptr)

module _ (num : Numbers) where
  abbrev negate_float : Option (num.Float × ℕ) → Result Text
  negate_float none = err invalid_number
  negate_float (some (x, pos)) = ok (num.print_fixed (num.negate x))

  abbrev negate_int : Option ℤ → Result Text
  negate_int none = err invalid_number
  negate_int (some v) = if fits (2 ^ 31) (-ℤ v) then ok (num.to_string_int (-ℤ v)) else err overflow

  -- item::value: what m_value is after it, given the value.
  unfoldable pub set_value : Label → Text → Result Text
  set_value a value =
      let negated = by_kind a.kind a.col_type in if a.negate then negated else ok value
    where
      by_kind : Kind → ColumnType → Result Text
      by_kind type_column float_column = negate_float (num.stof value)
      by_kind type_column int_column = negate_int (num.stoi value)
      by_kind type_column other_column = ok a.value
      by_kind type_float c = negate_float (num.stof value)
      by_kind type_int c = negate_int (num.stoi value)
      by_kind _ c = ok a.value

  unfoldable pub negate : Exec Stack (Unit {0})
  unfolding pop push ◌>>=◌ set_value
  negate = pop >>= negate_item
    where
      push_valued : Label → Item → Item → Item → Result Text → Exec Stack (Unit {0})
      push_valued a l r on (ok v) = push (node (record a { value = v }) l r on)
      push_valued a l r on (err e) = throw e

      by_kind : Kind → ColumnType → Label → Item → Item → Item → Exec Stack (Unit {0})
      by_kind type_column float_column a l r on = push (node a l r on)
      by_kind type_column int_column a l r on = push (node a l r on)
      by_kind type_column other_column a l r on = throw malformed_column_expr
      by_kind type_float c a l r on = push_valued a l r on (set_value a a.value)
      by_kind type_int c a l r on = push_valued a l r on (set_value a a.value)
      by_kind _ c a l r on = throw malformed_expr

      negate_item : Item → Exec Stack (Unit {0})
      negate_item nullptr = throw null_dereference
      negate_item (node a l r on) = by_kind a.kind a.col_type (record a { negate = true }) l r on

-- vm::where: the m_where item.
unfoldable pub where_cond : Exec Stack Item
unfolding pop ◌>>=◌
where_cond = do on_cond ← pop; pure (node (new_label type_where) nullptr nullptr on_cond)

-- The opcodes of call that work on expressions, and an operand that the opcodes for columns and
-- constants have made.
pub data Opcode : Type 0 where
  op_add op_sub op_mul op_div op_cmpeq op_cmpge op_cmpgt op_cmple op_cmplt op_cmpne : Opcode
  op_and op_or op_not : Opcode
  operand : Item → Opcode

unfoldable pub call : Opcode → Exec Stack (Unit {0})
unfolding add sub mul div cmpeq cmpge cmpgt cmple cmplt cmpne logic_and logic_or logic_not push
call op_add = add
call op_sub = sub
call op_mul = mul
call op_div = div
call op_cmpeq = cmpeq
call op_cmpge = cmpge
call op_cmpgt = cmpgt
call op_cmple = cmple
call op_cmplt = cmplt
call op_cmpne = cmpne
call op_and = logic_and
call op_or = logic_or
call op_not = logic_not
call (operand it) = push it

-- The calls that vm::run makes, in their order; pushing the offset of an operand is part of
-- `operand`.
unfoldable pub run_code : List Opcode → Exec Stack (Unit {0})
unfolding call ◌>>=◌
run_code [] = pure tt
run_code (op ∷ code) = call op >> run_code code
