-- ===== src/Vm/Eval.antt =====
-- The evaluation of conditions and expressions (vm/vm.cpp: exec_add to exec_xor). A method that
-- evaluates the operands of an item takes what their evaluation gives, in their order: an operand
-- that the method does not come to has no effect. An out parameter `res` that a method may leave
-- alone is an argument with its value before.
use sql_relational_database.Common.{
  ℕ, Bool, true, false, ◌&&◌, ◌||◌, not, if◌then◌else◌, Option, none, some, [], ◌∷◌,
}
use sql_relational_database.Common.Exec.{
  Error, Result, ok, err, malformed_addition, malformed_subtract, malformed_multiply,
  malformed_division, divide_by_zero, invalid_number,
}
use sql_relational_database.Tree.Key.{Sign, less, same, greater, compare_key}
use sql_relational_database.Vm.Item.{
  Text, Numbers, vm_true, vm_false, null_value, boolalpha, read_bool, is_number,
}

-- exec_condition(v, operand); if (v == NULL_VALUE) { res = NULL_VALUE; return; } ...
abbrev pub unless_null : Result Text → (Text → Result Text) → Result Text
unless_null (err e) f = err e
unless_null (ok []) f = ok null_value
unless_null (ok (c ∷ cs)) f = f (c ∷ cs)

abbrev pub with_bool : Result Bool → (Bool → Result Text) → Result Text
with_bool (err e) f = err e
with_bool (ok b) f = f b

-- The two operands of an arithmetic operator: both must be numbers throughout, or the operator's
-- error is thrown.
abbrev pub with_numbers :
    (num : Numbers) → Error → Text → Text → (num.Float → num.Float → Result Text) → Result Text
with_numbers num e l r f = both (is_number num l) (is_number num r)
  where
    both : Option num.Float → Option num.Float → Result Text
    both none y = err e
    both (some x) none = err e
    both (some x) (some y) = f x y

-- A comparison: of numbers where both operands are, else of the texts.
unfoldable pub compare_values :
    (num : Numbers) → (num.Float → num.Float → Bool) → (Sign → Bool) → Text → Text → Bool
unfolding is_number compare_key
compare_values num test text_test l r = both (is_number num l) (is_number num r)
  where
    both : Option num.Float → Option num.Float → Bool
    both none y = text_test (compare_key l r)
    both (some x) none = text_test (compare_key l r)
    both (some x) (some y) = test x y

-- The operators of std::string, by the sign of compare.
abbrev pub eq_text : Sign → Bool
eq_text same = true
eq_text less = false
eq_text greater = false

abbrev pub lt_text : Sign → Bool
lt_text less = true
lt_text same = false
lt_text greater = false

abbrev pub gt_text : Sign → Bool
gt_text greater = true
gt_text same = false
gt_text less = false

module _ (num : Numbers) where
  unfoldable pub exec_add : Result Text → Result Text → Result Text
  unfolding is_number
  exec_add l r = unless_null l λ a.
      unless_null r λ b. with_numbers num malformed_addition a b λ x y. ok (num.print (num.add x y))

  unfoldable pub exec_sub : Result Text → Result Text → Result Text
  unfolding is_number
  exec_sub l r = unless_null l λ a.
      unless_null r λ b. with_numbers num malformed_subtract a b λ x y. ok (num.print (num.sub x y))

  unfoldable pub exec_mul : Result Text → Result Text → Result Text
  unfolding is_number
  exec_mul l r = unless_null l λ a.
      unless_null r λ b. with_numbers num malformed_multiply a b λ x y. ok (num.print (num.mul x y))

  unfoldable pub exec_div : Result Text → Result Text → Result Text
  unfolding is_number
  exec_div l r = unless_null l λ a. unless_null r λ b.
      with_numbers num malformed_division a b
        λ x y. if num.is_zero y then err divide_by_zero else ok (num.print (num.div x y))

  -- std::stof throws where is_number answers false, and ignores what follows the number.
  unfoldable pub exec_mod : Result Text → Result Text → Result Text
  exec_mod l r = unless_null l λ a. unless_null r λ b. both (num.stof a) (num.stof b)
    where
      both : Option (num.Float × ℕ) → Option (num.Float × ℕ) → Result Text
      both none y = err invalid_number
      both (some x) none = err invalid_number
      both (some (x, p)) (some (y, q)) = ok (num.print_fixed (num.fmod x y))

  unfoldable pub exec_cmpeq : Result Text → Result Text → Result Text
  unfolding compare_values
  exec_cmpeq l r =
      unless_null l λ a. unless_null r λ b. ok (boolalpha (compare_values num num.eq eq_text a b))

  unfoldable pub exec_cmpge : Result Text → Result Text → Result Text
  unfolding compare_values
  exec_cmpge l r =
      unless_null l λ a.
        unless_null r λ b. ok (boolalpha (compare_values num num.ge (λ s. not (lt_text s)) a b))

  unfoldable pub exec_cmpgt : Result Text → Result Text → Result Text
  unfolding compare_values
  exec_cmpgt l r =
      unless_null l λ a. unless_null r λ b. ok (boolalpha (compare_values num num.gt gt_text a b))

  unfoldable pub exec_cmple : Result Text → Result Text → Result Text
  unfolding compare_values
  exec_cmple l r =
      unless_null l λ a.
        unless_null r λ b. ok (boolalpha (compare_values num num.le (λ s. not (gt_text s)) a b))

  unfoldable pub exec_cmplt : Result Text → Result Text → Result Text
  unfolding compare_values
  exec_cmplt l r =
      unless_null l λ a. unless_null r λ b. ok (boolalpha (compare_values num num.lt lt_text a b))

  unfoldable pub exec_cmpne : Result Text → Result Text → Result Text
  unfolding compare_values
  exec_cmpne l r =
      unless_null l λ a.
        unless_null r λ b. ok (boolalpha (compare_values num num.ne (λ s. not (eq_text s)) a b))

unfoldable pub exec_and : Result Text → Result Text → Result Text
unfolding read_bool
exec_and l r = unless_null l λ a. with_bool (read_bool a) λ l_value.
    if not l_value
    then ok a
    else unless_null r
        λ b. with_bool (read_bool b) λ r_value. if not r_value then ok b else ok vm_true

unfoldable pub exec_or : Result Text → Result Text → Result Text
unfolding read_bool
exec_or l r = unless_null l λ a. with_bool (read_bool a) λ l_value.
    if l_value
    then ok a
    else unless_null r λ b. with_bool (read_bool b) λ r_value. if r_value then ok b else ok vm_false

unfoldable pub exec_xor : Result Text → Result Text → Result Text
unfolding read_bool
exec_xor l r = unless_null l λ a. unless_null r λ b. with_bool (read_bool a) λ l_value.
    with_bool (read_bool b)
      λ r_value. ok (boolalpha ((l_value || r_value) && not (l_value && r_value)))
