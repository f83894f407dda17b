-- ===== src/Vm/Agree.antt =====
-- compact_condition on a whole condition (vm/vm.cpp), against exec_condition before and after.
use sql_relational_database.Common.{Bool, false, not, ◌≡◌, inl, inr, refl, ap, ap₂, ◌∙◌, sym}
use sql_relational_database.Common.Int.{ℤ, eq_int}
use sql_relational_database.Common.Exec.{Result, ok}
use sql_relational_database.Tree.Key.{Sign}
use sql_relational_database.Vm.Item.{
  type_boolean, Text, Kind, Numbers, Label, Item, node, null_value, boolalpha,
}
use sql_relational_database.Vm.Eval.{compare_values, unless_null, eq_text, lt_text, gt_text}
use sql_relational_database.Vm.Condition.{condition_switch, exec_condition}
use sql_relational_database.Vm.Compact.{fold_comparison, is_boolean}
use sql_relational_database.Vm.Fold.{compact_switch, compact_condition}
use sql_relational_database.Vm.Truth.{
  IsComparison, cmpeq, cmpge, cmpgt, cmple, cmplt, cmpne, IsLogic,
}
use sql_relational_database.Vm.Preserve.{
  Folded, constant, other, exec_constant, Switched, logic_switch-same,
}
use sql_relational_database.Vm.Operands.{
  IsLeaf, leaf_float, leaf_int, leaf_varchar, leaf_column, AreOperands, IsNonempty,
  fold_comparison-cases, unless_null-IsNonempty,
}

compact_leaf :
    (num : Numbers) (k : Kind) (a : Label) (l r on : Item) (x y z : Result Item)
    → IsLeaf k
    → compact_switch num a l r on k x y z ≡ ok (node a l r on)
unfolding compact_switch
compact_leaf num k a l r on x y z leaf_float = refl
compact_leaf num k a l r on x y z leaf_int = refl
compact_leaf num k a l r on x y z leaf_varchar = refl
compact_leaf num k a l r on x y z leaf_column = refl

exec_leaf :
    (num : Numbers) (k : Kind) (res value : Text) (x y z : Result Text)
    → IsLeaf k
    → condition_switch num k res value x y z ≡ ok value
unfolding condition_switch
exec_leaf num k res value x y z leaf_float = refl
exec_leaf num k res value x y z leaf_int = refl
exec_leaf num k res value x y z leaf_varchar = refl
exec_leaf num k res value x y z leaf_column = refl

module _ (num : Numbers) (a b c : Label) (bl br bo cl cr co on : Item) (on_run : Result Item)
    (leaf_b : IsLeaf b.kind) (leaf_c : IsLeaf c.kind) (operands : AreOperands num b c) where
  abbrev left : Item
  left = node b bl br bo

  abbrev right : Item
  right = node c cl cr co

  exec_left : exec_condition num null_value left ≡ ok b.value
  unfolding exec_condition
  exec_left = exec_leaf num b.kind null_value b.value _ _ _ leaf_b

  exec_right : exec_condition num null_value right ≡ ok c.value
  unfolding exec_condition
  exec_right = exec_leaf num c.kind null_value c.value _ _ _ leaf_c

  compared :
      (ft : num.Float → num.Float → Bool) (tt : Sign → Bool)
      → IsNonempty b.value
      → IsNonempty c.value
      → unless_null (exec_condition num null_value left) (λ x.
        unless_null
          (exec_condition num null_value right)
          λ y. ok (boolalpha (compare_values num ft tt x y)))
        ≡ ok (boolalpha (compare_values num ft tt b.value c.value))
  compared ft tt mb mc =
      ap₂
        (λ l r.
          unless_null l (λ x. unless_null r λ y. ok (boolalpha (compare_values num ft tt x y))))
        exec_left exec_right
      ∙ unless_null-IsNonempty b.value _ mb
      ∙ unless_null-IsNonempty c.value _ mc

  comparison-Switched :
      (k : Kind) (ft : num.Float → num.Float → Bool) (it : ℤ → ℤ → Bool) (tt : Sign → Bool)
      → is_boolean k ≡ false
      → a.kind ≡ k
      → compact_switch num a left right on k (ok left) (ok right) on_run
        ≡ fold_comparison num a left right on ft it tt
      → ((res : Text) (l r : Result Text)
          → condition_switch num k res a.value l r (exec_condition num res on)
            ≡ unless_null l (λ x. unless_null r λ y. ok (boolalpha (compare_values num ft tt x y))))
      → Switched num k a left right left right on on_run
  unfolding exec_condition
  comparison-Switched k ft it tt nb e runs value =
      elim (fold_comparison-cases num a b c bl br bo cl cr co on ft it tt operands) [
        | inl alone ↦ record {
          item = node a left right on;
          runs = runs ∙ alone;
          same = λ res.
              ap
                (λ m.
                  condition_switch num m res a.value (exec_condition num null_value left)
                    (exec_condition num null_value right) (exec_condition num res on))
                e;
          shape = other a left right on (ap is_boolean e ∙ nb);
        }
        | inr ((mb, mc), folds) ↦
            let t = compare_values num ft tt b.value c.value in
            let a' : Label = record a { kind = type_boolean; value = boolalpha t } in
            record {
              item = node a' left right on;
              runs = runs ∙ folds;
              same = λ res.
                  exec_constant num res a' left right on t refl refl
                  ∙ sym (value res _ _ ∙ compared ft tt mb mc);
              shape = constant a' left right on t refl refl;
            }
      ]

  comparison_switch-same :
      (k : Kind) → IsComparison k → a.kind ≡ k → Switched num k a left right left right on on_run
  unfolding compact_switch condition_switch
  comparison_switch-same k cmpeq e =
      comparison-Switched k num.eq eq_int eq_text refl e refl (λ res l r. refl)
  comparison_switch-same k cmpge e =
      comparison-Switched k num.ge _ (λ s. not (lt_text s)) refl e refl (λ res l r. refl)
  comparison_switch-same k cmpgt e =
      comparison-Switched k num.gt _ gt_text refl e refl (λ res l r. refl)
  comparison_switch-same k cmple e =
      comparison-Switched k num.le _ (λ s. not (gt_text s)) refl e refl (λ res l r. refl)
  comparison_switch-same k cmplt e =
      comparison-Switched k num.lt _ lt_text refl e refl (λ res l r. refl)
  comparison_switch-same k cmpne e =
      comparison-Switched k num.ne _ (λ s. not (eq_text s)) refl e refl (λ res l r. refl)

-- The conditions that folding is shown to keep: Boolean constants, comparisons of constants and
-- columns as `AreOperands` has them, and the logical operators over such conditions.
pub data IsFoldable (num : Numbers) : Item → Type 0 where
  constant_condition :
      (a : Label) (l r on : Item) (b : Bool)
      → a.kind ≡ type_boolean
      → a.value ≡ boolalpha b
      → IsFoldable num (node a l r on)
  comparison_condition :
      (a b c : Label) (bl br bo cl cr co on : Item)
      → IsComparison a.kind
      → IsLeaf b.kind
      → IsLeaf c.kind
      → AreOperands num b c
      → IsFoldable num (node a (node b bl br bo) (node c cl cr co) on)
  logic_condition :
      (a : Label) (l r on : Item)
      → IsLogic a.kind
      → IsFoldable num l
      → IsFoldable num r
      → IsFoldable num (node a l r on)

-- Folding returns an item that evaluates as the one it was given.
pub record IsPreserved (num : Numbers) (it : Item) : Type 0 where
  pub item : Item
  pub compacts : compact_condition num it ≡ ok item
  pub same : (res : Text) → exec_condition num res item ≡ exec_condition num res it
  pub shape : Folded item

-- Take a condition built by AND, OR and XOR from Boolean constants and from comparisons of two
-- leaves: two numerals of which one is not an integer, two texts that are not empty and not both
-- numerals, or a pair with a column. Folding its constants ends without an error, and what it
-- returns evaluates to the same result as the condition itself, errors included, whatever the
-- result was before.
pub compact_condition-IsPreserved :
    (num : Numbers) (it : Item) → IsFoldable num it → IsPreserved num it
unfolding compact_condition exec_condition
compact_condition-IsPreserved num _ (constant_condition a l r on b k v) = record {
  item = node a l r on;
  compacts = rw k refl;
  same = λ res. refl;
  shape = constant a l r on b k v;
}
compact_condition-IsPreserved num _ (comparison_condition a b c bl br bo cl cr co on k kb kc o) =
    let on_run = compact_condition num on in
    let s = comparison_switch-same num a b c bl br bo cl cr co on on_run kb kc o a.kind k refl in
    record {
      item = s.item;
      compacts =
          ap₂ (λ x y. compact_switch num a (node b bl br bo) (node c cl cr co) on a.kind x y on_run)
            (compact_leaf num b.kind b bl br bo _ _ _ kb)
            (compact_leaf num c.kind c cl cr co _ _ _ kc)
          ∙ s.runs;
      same = s.same;
      shape = s.shape;
    }
compact_condition-IsPreserved num _ (logic_condition a l r on k fl fr) =
    let on_run = compact_condition num on in
    let pl = compact_condition-IsPreserved num l fl in
    let pr = compact_condition-IsPreserved num r fr in
    let s = logic_switch-same num a l r pl.item pr.item on on_run a.kind k refl pl.shape pr.shape in
    record {
      item = s.item;
      compacts =
          ap₂ (λ x y. compact_switch num a l r on a.kind x y on_run) pl.compacts pr.compacts
          ∙ s.runs;
      same = λ res.
          s.same res
          ∙ ap₂ (λ x y. condition_switch num a.kind res a.value x y (exec_condition num res on))
              (pl.same null_value) (pr.same null_value);
      shape = s.shape;
    }
