-- ===== src/Vm/Compact.antt =====
-- Constant folding (vm/vm.cpp: compact_add to compact_xor, compact_condition). A folded item keeps
-- its operands and gets another type and value. The methods work on the item in place: here they
-- take the fields of the item and return the item. What was folded before an exception is lost with
-- the statement, so it does not come back beside the error.
use sql_relational_database.Common.{
  Bool, true, false, ◌&&◌, ◌||◌, not, if◌then◌else◌, Option, none, some, ℕ, ◌^◌,
}
use sql_relational_database.Common.Int.{ℤ, ◌+ℤ◌, ◌-ℤ◌, ◌*ℤ◌, lt_int, eq_int, fits}
use sql_relational_database.Common.Exec.{
  Result, ok, err, invalid_number, overflow, null_dereference,
}
use sql_relational_database.Tree.Key.{Sign, compare_key}
use sql_relational_database.Vm.Item.{
  type_boolean, type_float, type_int, type_varchar, Text, Kind, Label, Item, nullptr, node, Numbers,
  boolalpha, read_bool,
}
use sql_relational_database.Vm.Eval.{eq_text, lt_text, gt_text}

abbrev pub is_float : Kind → Bool
is_float type_float = true
is_float _ = false

abbrev pub is_int : Kind → Bool
is_int type_int = true
is_int _ = false

abbrev pub is_varchar : Kind → Bool
is_varchar type_varchar = true
is_varchar _ = false

abbrev pub is_boolean : Kind → Bool
is_boolean type_boolean = true
is_boolean _ = false

-- The right operand is looked at only where the left one is of a type that can be folded.
abbrev pub with_labels :
    (Kind → Bool) → Item → Item → Result Item → (Label → Label → Result Item) → Result Item
with_labels folds nullptr r same f = err null_dereference
with_labels folds (node a al ar ao) r same f =
    let right = with_right a r in if folds a.kind then right else same
  where
    with_right : Label → Item → Result Item
    with_right a nullptr = err null_dereference
    with_right a (node b bl br bo) = f a b

abbrev pub with_floats :
    (num : Numbers) → Text → Text → (num.Float → num.Float → Result Item) → Result Item
with_floats num a b f = both (num.stof a) (num.stof b)
  where
    both : Option (num.Float × ℕ) → Option (num.Float × ℕ) → Result Item
    both none y = err invalid_number
    both (some x) none = err invalid_number
    both (some (x, p)) (some (y, q)) = f x y

abbrev pub with_ints : Numbers → Text → Text → (ℤ → ℤ → Result Item) → Result Item
with_ints num a b f = both (num.stoi a) (num.stoi b)
  where
    both : Option ℤ → Option ℤ → Result Item
    both none y = err invalid_number
    both (some x) none = err invalid_number
    both (some x) (some y) = f x y

abbrev pub with_bools : Text → Text → (Bool → Bool → Result Item) → Result Item
with_bools a b f = both (read_bool a) (read_bool b)
  where
    both : Result Bool → Result Bool → Result Item
    both (err e) y = err e
    both (ok x) (err e) = err e
    both (ok x) (ok y) = f x y

abbrev pub mixed_or_float : Kind → Kind → Bool
mixed_or_float a b =
    (is_float a && is_float b) || ((is_float a && is_int b) || (is_int a && is_float b))

abbrev pub folded : Label → Kind → Text → Item → Item → Item → Result Item
folded a kind value left right on_cond =
    ok (node (record a { kind = kind; value = value }) left right on_cond)

-- Signed overflow is undefined.
abbrev pub folded_int : Numbers → Label → ℤ → Item → Item → Item → Result Item
folded_int num a v left right on_cond =
    if fits (2 ^ 31) v
    then folded a type_int (num.to_string_int v) left right on_cond
    else err overflow

module _ (num : Numbers) (a : Label) (left right on_cond : Item) where
  abbrev pub fold_arithmetic : (num.Float → num.Float → num.Float) → (ℤ → ℤ → ℤ) → Result Item
  fold_arithmetic float_op int_op =
      with_labels (λ k. is_float k || is_int k) left right (ok (node a left right on_cond))
        λ l r.
          if mixed_or_float l.kind r.kind
          then with_floats num l.value r.value
              (λ x y. folded a type_float (num.to_string (float_op x y)) left right on_cond)
          else if is_int l.kind && is_int r.kind
          then with_ints num l.value r.value
              (λ x y. folded_int num a (int_op x y) left right on_cond)
          else ok (node a left right on_cond)

  abbrev pub fold_comparison :
      (num.Float → num.Float → Bool) → (ℤ → ℤ → Bool) → (Sign → Bool) → Result Item
  fold_comparison float_test int_test text_test =
      with_labels (λ k. is_float k || (is_int k || is_varchar k)) left right
        (ok (node a left right on_cond))
        λ l r.
          if mixed_or_float l.kind r.kind
          then with_floats num l.value r.value
              (λ x y. folded a type_boolean (boolalpha (float_test x y)) left right on_cond)
          else if is_int l.kind && is_int r.kind
          then with_ints num l.value r.value
              (λ x y. folded a type_boolean (boolalpha (int_test x y)) left right on_cond)
          else if is_varchar l.kind && is_varchar r.kind
          then folded a type_boolean (boolalpha (text_test (compare_key l.value r.value))) left
              right on_cond
          else ok (node a left right on_cond)

  unfoldable pub compact_add : Result Item
  unfolding read_bool compare_key
  compact_add = fold_arithmetic num.add ◌+ℤ◌

  unfoldable pub compact_sub : Result Item
  compact_sub = fold_arithmetic num.sub ◌-ℤ◌

  unfoldable pub compact_mul : Result Item
  compact_mul = fold_arithmetic num.mul ◌*ℤ◌

  -- Without a test for zero.
  unfoldable pub compact_div : Result Item
  compact_div =
      with_labels (λ k. is_float k || is_int k) left right (ok (node a left right on_cond))
        λ l r.
          if is_float r.kind || is_int r.kind
          then with_floats num l.value r.value
              (λ x y. folded a type_float (num.to_string (num.div x y)) left right on_cond)
          else ok (node a left right on_cond)

  unfoldable pub compact_mod : Result Item
  compact_mod = ok (node a left right on_cond)

  unfoldable pub compact_cmpeq : Result Item
  compact_cmpeq = fold_comparison num.eq eq_int eq_text

  unfoldable pub compact_cmpge : Result Item
  compact_cmpge = fold_comparison num.ge (λ x y. not (lt_int x y)) (λ s. not (lt_text s))

  unfoldable pub compact_cmpgt : Result Item
  compact_cmpgt = fold_comparison num.gt (λ x y. lt_int y x) gt_text

  unfoldable pub compact_cmple : Result Item
  compact_cmple = fold_comparison num.le (λ x y. not (lt_int y x)) (λ s. not (gt_text s))

  unfoldable pub compact_cmplt : Result Item
  compact_cmplt = fold_comparison num.lt lt_int lt_text

  unfoldable pub compact_cmpne : Result Item
  compact_cmpne = fold_comparison num.ne (λ x y. not (eq_int x y)) (λ s. not (eq_text s))

module _ (a : Label) (left right on_cond : Item) where
  abbrev pub fold_logic : (Bool → Bool → Bool) → Result Item
  fold_logic op = with_labels is_boolean left right (ok (node a left right on_cond)) λ l r.
      if is_boolean r.kind
      then with_bools l.value r.value
          (λ x y. folded a type_boolean (boolalpha (op x y)) left right on_cond)
      else ok (node a left right on_cond)

  unfoldable pub compact_and : Result Item
  compact_and = fold_logic (λ x y. x && y)

  unfoldable pub compact_or : Result Item
  compact_or = fold_logic (λ x y. x || y)

  unfoldable pub compact_xor : Result Item
  compact_xor = fold_logic (λ x y. (x || y) && not (x && y))

-- compact_condition(m_left); compact_condition(m_right); ...
abbrev pub after_both : Result Item → Result Item → (Item → Item → Result Item) → Result Item
after_both (err e) r f = err e
after_both (ok l) (err e) f = err e
after_both (ok l) (ok r) f = f l r

abbrev pub after_one : Result Item → (Item → Result Item) → Result Item
after_one (err e) f = err e
after_one (ok l) f = f l
