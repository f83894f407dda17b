-- ===== src/Vm/Preserve.antt =====
-- Logical operators, folded and evaluated (vm/vm.cpp).
use sql_relational_database.Common.{
  ap₂, not, sym, ◌∙◌, ◌&&◌, ◌||◌, Bool, true, false, ◌≡◌, ◌⊎◌, inl, inr, refl,
}
use sql_relational_database.Common.Exec.{Result, ok}
use sql_relational_database.Vm.Eval.{exec_and, exec_or, exec_xor}
use sql_relational_database.Vm.Condition.{condition_switch}
use sql_relational_database.Vm.Fold.{compact_switch}
use sql_relational_database.Vm.Truth.{IsLogic, logic_and, logic_or, logic_xor}
use sql_relational_database.Vm.Item.{
  Kind, type_boolean, Text, Numbers, Label, Item, node, null_value, boolalpha, read_bool,
}
use sql_relational_database.Vm.Condition.{exec_condition}
use sql_relational_database.Vm.Compact.{fold_logic, folded, is_boolean}

-- What folding leaves: a Boolean constant is the text of a truth value.
pub data Folded : Item → Type 0 where
  constant :
      (a : Label) (l r on : Item) (b : Bool)
      → a.kind ≡ type_boolean
      → a.value ≡ boolalpha b
      → Folded (node a l r on)
  other : (a : Label) (l r on : Item) → is_boolean a.kind ≡ false → Folded (node a l r on)

pub exec_constant :
    (num : Numbers) (res : Text) (a : Label) (l r on : Item) (b : Bool)
    → a.kind ≡ type_boolean
    → a.value ≡ boolalpha b
    → exec_condition num res (node a l r on) ≡ ok (boolalpha b)
unfolding exec_condition
exec_constant num res a l r on true k v = rw (k, v) refl
exec_constant num res a l r on false k v = rw (k, v) refl

record Constants (num : Numbers) (op : Bool → Bool → Bool) (a : Label) (l r on : Item)
    : Type 0 where
  left_bool : Bool
  right_bool : Bool
  folds :
      fold_logic a l r on op ≡ folded a type_boolean (boolalpha (op left_bool right_bool)) l r on
  left_value : exec_condition num null_value l ≡ ok (boolalpha left_bool)
  right_value : exec_condition num null_value r ≡ ok (boolalpha right_bool)

read_boolalpha : (b : Bool) → read_bool (boolalpha b) ≡ ok b
unfolding read_bool
read_boolalpha true = refl
read_boolalpha false = refl

-- A logical operator is left alone, or both its operands are constants.
fold_logic-cases :
    (num : Numbers) (op : Bool → Bool → Bool) (a : Label) (l r on : Item)
    → Folded l
    → Folded r
    → (fold_logic a l r on op ≡ ok (node a l r on)) ⊎ Constants num op a l r on
fold_logic-cases num op a _ _ on (other b l r o k) (constant c l' r' o' y k' v') = inl (rw k refl)
fold_logic-cases num op a _ _ on (other b l r o k) (other c l' r' o' k') = inl (rw k refl)
fold_logic-cases num op a _ _ on (constant b l r o x k v) (other c l' r' o' k') =
    inl (rw (k, k') refl)
fold_logic-cases num op a _ _ on (constant b l r o x k v) (constant c l' r' o' y k' v') =
    inr (record {
      left_bool = x;
      right_bool = y;
      folds = rw (k, k', v, v', read_boolalpha x, read_boolalpha y) refl;
      left_value = exec_constant num null_value b l r o x k v;
      right_value = exec_constant num null_value c l' r' o' y k' v';
    })

and_constants :
    (b c : Bool) → exec_and (ok (boolalpha b)) (ok (boolalpha c)) ≡ ok (boolalpha (b && c))
unfolding exec_and
and_constants true true = refl
and_constants true false = refl
and_constants false c = refl

or_constants :
    (b c : Bool) → exec_or (ok (boolalpha b)) (ok (boolalpha c)) ≡ ok (boolalpha (b || c))
unfolding exec_or
or_constants true c = refl
or_constants false true = refl
or_constants false false = refl

xor_constants :
    (b c : Bool)
    → exec_xor (ok (boolalpha b)) (ok (boolalpha c)) ≡ ok (boolalpha ((b || c) && not (b && c)))
unfolding exec_xor
xor_constants true true = refl
xor_constants true false = refl
xor_constants false true = refl
xor_constants false false = refl

-- The methods of the operators, with operands that are folded already.
pub record Switched (num : Numbers) (k : Kind) (a : Label) (l0 r0 l r on : Item)
    (on_run : Result Item) : Type 0 where
  pub item : Item
  pub runs : compact_switch num a l0 r0 on k (ok l) (ok r) on_run ≡ ok item
  pub same :
      (res : Text)
      → exec_condition num res item
        ≡ condition_switch num k res a.value
            (exec_condition num null_value l)
            (exec_condition num null_value r)
            (exec_condition num res on)
  pub shape : Folded item

module _ (num : Numbers) (a : Label) (l0 r0 l r on : Item) (on_run : Result Item) where
  logic-Switched :
      (k : Kind) (op : Bool → Bool → Bool)
      → is_boolean k ≡ false
      → a.kind ≡ k
      → compact_switch num a l0 r0 on k (ok l) (ok r) on_run ≡ fold_logic a l r on op
      → ((res : Text) (b c : Bool)
          → condition_switch num k res a.value
              (ok (boolalpha b))
              (ok (boolalpha c))
              (exec_condition num res on)
            ≡ ok (boolalpha (op b c)))
      → (fold_logic a l r on op ≡ ok (node a l r on)) ⊎ Constants num op a l r on
      → Switched num k a l0 r0 l r on on_run
  unfolding exec_condition
  logic-Switched k op nb e runs value (inl alone) = record {
    item = node a l r on;
    runs = runs ∙ alone;
    same = λ res. rw e refl;
    shape = other a l r on (rw e nb);
  }
  logic-Switched k op nb e runs value (inr both) = record {
    item =
        node
          (record a { kind = type_boolean; value = boolalpha (op both.left_bool both.right_bool) })
          l r on;
    runs = runs ∙ both.folds;
    same = λ res.
        exec_constant num res
          (record a { kind = type_boolean; value = boolalpha (op both.left_bool both.right_bool) })
          l r on (op both.left_bool both.right_bool) refl refl
        ∙ sym (value res both.left_bool both.right_bool)
        ∙ sym (
            ap₂ (λ x y. condition_switch num k res a.value x y (exec_condition num res on))
              both.left_value both.right_value);
    shape = constant _ l r on (op both.left_bool both.right_bool) refl refl;
  }

  pub logic_switch-same :
      (k : Kind)
      → IsLogic k
      → a.kind ≡ k
      → Folded l
      → Folded r
      → Switched num k a l0 r0 l r on on_run
  unfolding compact_switch condition_switch
  logic_switch-same k logic_and e fl fr =
      logic-Switched k (λ x y. x && y) refl e refl (λ res b c. and_constants b c)
        (fold_logic-cases num _ a l r on fl fr)
  logic_switch-same k logic_or e fl fr =
      logic-Switched k (λ x y. x || y) refl e refl (λ res b c. or_constants b c)
        (fold_logic-cases num _ a l r on fl fr)
  logic_switch-same k logic_xor e fl fr =
      logic-Switched k (λ x y. (x || y) && not (x && y)) refl e refl (λ res b c. xor_constants b c)
        (fold_logic-cases num _ a l r on fl fr)
