-- ===== src/Vm/Operands.antt =====
-- The operands of a comparison, and the comparison of them, folded and evaluated (vm/vm.cpp).
use sql_relational_database.Common.{
  ℕ, Bool, true, ◌∷◌, ◌≡◌, ◌⊎◌, inl, inr, refl, ap, ◌∙◌, sym, Option, none, some, length, ◌==◌,
  arith,
}
use sql_relational_database.Common.Int.{ℤ}
use sql_relational_database.Common.Exec.{Result, ok}
use sql_relational_database.Tree.Key.{Sign, compare_key}
use sql_relational_database.Vm.Item.{
  type_boolean, type_column, type_float, type_int, type_varchar, Text, Kind, Numbers, Label, Item,
  node, boolalpha, is_number,
}
use sql_relational_database.Vm.Eval.{compare_values, unless_null}
use sql_relational_database.Vm.Compact.{fold_comparison, folded}

pub record IsNonempty (v : Text) : Type 0 where
  pub first : ℕ
  pub rest : Text
  pub splits : v ≡ first ∷ rest

-- The text is a number from its first byte to its last.
pub record IsNumeral (num : Numbers) (v : Text) : Type 0 where
  pub number : num.Float
  pub reads : num.stof v ≡ some (number, length v)
  pub nonempty : IsNonempty v

pub data IsLeaf : Kind → Type 0 where
  leaf_float : IsLeaf type_float
  leaf_int : IsLeaf type_int
  leaf_varchar : IsLeaf type_varchar
  leaf_column : IsLeaf type_column

pub data IsMixed : Kind → Kind → Type 0 where
  float_float : IsMixed type_float type_float
  float_int : IsMixed type_float type_int
  int_float : IsMixed type_int type_float

-- Two numbers, one of them not an integer; two texts that are not both numbers, and not empty; or
-- a column among the two.
pub data AreOperands (num : Numbers) (b c : Label) : Type 0 where
  numbers :
      IsMixed b.kind c.kind → IsNumeral num b.value → IsNumeral num c.value → AreOperands num b c
  texts :
      b.kind ≡ type_varchar
      → c.kind ≡ type_varchar
      → IsNonempty b.value
      → IsNonempty c.value
      → (is_number num b.value ≡ none) ⊎ (is_number num c.value ≡ none)
      → AreOperands num b c
  left_column : b.kind ≡ type_column → AreOperands num b c
  right_column : IsLeaf b.kind → c.kind ≡ type_column → AreOperands num b c

pub is_number-IsNumeral :
    (num : Numbers) (v : Text) (n : IsNumeral num v) → is_number num v ≡ some n.number
unfolding is_number
is_number-IsNumeral num v n =
    let same : (length v == length v) ≡ true = ground arith in rw (n.reads, same) refl

compare_values-numbers :
    (num : Numbers) (ft : num.Float → num.Float → Bool) (tt : Sign → Bool) (u v : Text)
    (x y : num.Float)
    → is_number num u ≡ some x
    → is_number num v ≡ some y
    → compare_values num ft tt u v ≡ ft x y
unfolding compare_values
compare_values-numbers num ft tt u v x y p q = rw (p, q) refl

compare_values-texts :
    (num : Numbers) (ft : num.Float → num.Float → Bool) (tt : Sign → Bool) (u v : Text)
    → (is_number num u ≡ none) ⊎ (is_number num v ≡ none)
    → compare_values num ft tt u v ≡ tt (compare_key u v)
unfolding compare_values
compare_values-texts num ft tt u v (inl p) = rw p refl
compare_values-texts num ft tt u v (inr q) = go (is_number num u) refl
  where
    go :
        (o : Option num.Float)
        → is_number num u ≡ o
        → compare_values num ft tt u v ≡ tt (compare_key u v)
    go none e = rw e refl
    go (some x) e = rw (e, q) refl

pub unless_null-IsNonempty :
    (v : Text) (f : Text → Result Text) → IsNonempty v → unless_null (ok v) f ≡ f v
unless_null-IsNonempty v f h = rw (h.splits) refl

module _ (num : Numbers) (a b c : Label) (bl br bo cl cr co on : Item)
    (ft : num.Float → num.Float → Bool) (it : ℤ → ℤ → Bool) (tt : Sign → Bool) where
  fold_numbers :
      (k k' : Kind)
      → IsMixed k k'
      → b.kind ≡ k
      → c.kind ≡ k'
      → (m : IsNumeral num b.value) (n : IsNumeral num c.value)
      → fold_comparison num a (node b bl br bo) (node c cl cr co) on ft it tt
        ≡ folded a type_boolean
            (boolalpha (ft m.number n.number))
            (node b bl br bo)
            (node c cl cr co)
            on
  fold_numbers k k' float_float p q m n = rw (p, q, m.reads, n.reads) refl
  fold_numbers k k' float_int p q m n = rw (p, q, m.reads, n.reads) refl
  fold_numbers k k' int_float p q m n = rw (p, q, m.reads, n.reads) refl

  fold_column :
      (k : Kind)
      → IsLeaf k
      → b.kind ≡ k
      → c.kind ≡ type_column
      → fold_comparison num a (node b bl br bo) (node c cl cr co) on ft it tt
        ≡ ok (node a (node b bl br bo) (node c cl cr co) on)
  fold_column k leaf_float p q = rw (p, q) refl
  fold_column k leaf_int p q = rw (p, q) refl
  fold_column k leaf_varchar p q = rw (p, q) refl
  fold_column k leaf_column p q = rw (p, q) refl

  -- Left alone, or folded to what the comparison of the two values gives.
  pub fold_comparison-cases :
      AreOperands num b c
      → let l = node b bl br bo in
        let r = node c cl cr co in
        (fold_comparison num a l r on ft it tt ≡ ok (node a l r on))
        ⊎ ((IsNonempty b.value × IsNonempty c.value)
            × (fold_comparison num a l r on ft it tt
                ≡ folded a type_boolean
                    (boolalpha (compare_values num ft tt b.value c.value))
                    l
                    r
                    on))
  fold_comparison-cases (numbers k m n) = inr (
    (m.nonempty, n.nonempty),
    fold_numbers b.kind c.kind k refl refl m n
        ∙ ap (λ t. folded a type_boolean (boolalpha t) (node b bl br bo) (node c cl cr co) on)
            (sym (
              compare_values-numbers num ft tt b.value c.value m.number n.number
                (is_number-IsNumeral num b.value m) (is_number-IsNumeral num c.value n))),
  )
  fold_comparison-cases (texts p q m n h) =
      inr ((m, n), rw (p, q, compare_values-texts num ft tt b.value c.value h) refl)
  fold_comparison-cases (left_column p) = inl (rw p refl)
  fold_comparison-cases (right_column k q) = inl (fold_column b.kind k refl q)
