-- ===== src/Vm/Truth.antt =====
-- The three truth values of a condition, and what the logical operators make of them.
use sql_relational_database.Common.{
  [], ◌∷◌, ap, ◌∙◌, ◌∷◌, Bool, true, false, not, ◌&&◌, ◌||◌, ◌≡◌, refl,
}
use sql_relational_database.Common.Exec.{Result, ok, err}
use sql_relational_database.Vm.Item.{
  vm_true, type_cmpeq, type_cmpge, type_cmpgt, type_cmple, type_cmplt, type_cmpne, type_and,
  type_or, type_xor, Numbers, Kind, Label, Item, nullptr, node, Text, boolalpha, null_value,
}
use sql_relational_database.Vm.Condition.{passes, condition_switch, exec_condition, exec_where}
use sql_relational_database.Vm.Eval.{
  compare_values, unless_null, eq_text, lt_text, gt_text, exec_and, exec_or, exec_xor,
}

-- SQL's truth values.
pub data Truth : Type 0 where
  known : Bool → Truth
  unknown : Truth

abbrev pub text : Truth → Text
text (known b) = boolalpha b
text unknown = null_value

abbrev pub text_result : Result Truth → Result Text
text_result (ok t) = ok (text t)
text_result (err e) = err e

-- The connectives evaluate the left operand first and stop there when it decides; an unknown left
-- operand decides too.
abbrev pub truth_and : Result Truth → Result Truth → Result Truth
truth_and (err e) r = err e
truth_and (ok unknown) r = ok unknown
truth_and (ok (known false)) r = ok (known false)
truth_and (ok (known true)) r = r

abbrev pub truth_or : Result Truth → Result Truth → Result Truth
truth_or (err e) r = err e
truth_or (ok unknown) r = ok unknown
truth_or (ok (known true)) r = ok (known true)
truth_or (ok (known false)) r = r

abbrev pub truth_xor : Result Truth → Result Truth → Result Truth
truth_xor (err e) r = err e
truth_xor (ok unknown) r = ok unknown
truth_xor (ok (known a)) (err e) = err e
truth_xor (ok (known a)) (ok unknown) = ok unknown
truth_xor (ok (known a)) (ok (known b)) = ok (known ((a || b) && not (a && b)))

-- On truth values as texts, the three methods are the three connectives.
pub exec_and_lem :
    (l r : Result Truth) → exec_and (text_result l) (text_result r) ≡ text_result (truth_and l r)
unfolding exec_and
exec_and_lem (err e) r = refl
exec_and_lem (ok (known true)) (ok (known true)) = refl
exec_and_lem (ok (known true)) (ok (known false)) = refl
exec_and_lem (ok (known true)) (ok unknown) = refl
exec_and_lem (ok (known true)) (err e) = refl
exec_and_lem (ok (known false)) r = refl
exec_and_lem (ok unknown) r = refl

pub exec_or_lem :
    (l r : Result Truth) → exec_or (text_result l) (text_result r) ≡ text_result (truth_or l r)
unfolding exec_or
exec_or_lem (err e) r = refl
exec_or_lem (ok (known false)) (ok (known true)) = refl
exec_or_lem (ok (known false)) (ok (known false)) = refl
exec_or_lem (ok (known false)) (ok unknown) = refl
exec_or_lem (ok (known false)) (err e) = refl
exec_or_lem (ok (known true)) r = refl
exec_or_lem (ok unknown) r = refl

pub exec_xor_lem :
    (l r : Result Truth) → exec_xor (text_result l) (text_result r) ≡ text_result (truth_xor l r)
unfolding exec_xor
exec_xor_lem (err e) r = refl
exec_xor_lem (ok unknown) r = refl
exec_xor_lem (ok (known true)) (err e) = refl
exec_xor_lem (ok (known false)) (err e) = refl
exec_xor_lem (ok (known false)) (ok unknown) = refl
exec_xor_lem (ok (known true)) (ok unknown) = refl
exec_xor_lem (ok (known false)) (ok (known false)) = refl
exec_xor_lem (ok (known false)) (ok (known true)) = refl
exec_xor_lem (ok (known true)) (ok (known false)) = refl
exec_xor_lem (ok (known true)) (ok (known true)) = refl

-- The conditions: comparisons, of operands of any kind, and logical operators over conditions.
pub data IsComparison : Kind → Type 0 where
  cmpeq : IsComparison type_cmpeq
  cmpge : IsComparison type_cmpge
  cmpgt : IsComparison type_cmpgt
  cmple : IsComparison type_cmple
  cmplt : IsComparison type_cmplt
  cmpne : IsComparison type_cmpne

pub data IsLogic : Kind → Type 0 where
  logic_and : IsLogic type_and
  logic_or : IsLogic type_or
  logic_xor : IsLogic type_xor

pub data IsCondition : Item → Type 0 where
  comparison : (a : Label) (l r on : Item) → IsComparison a.kind → IsCondition (node a l r on)
  logic :
      (a : Label) (l r on : Item)
      → IsLogic a.kind
      → IsCondition l
      → IsCondition r
      → IsCondition (node a l r on)

-- What a comparison means: unknown where the left operand is null, or else the right one is.
abbrev pub compared : (Text → Text → Bool) → Result Text → Result Text → Result Truth
compared test (err e) r = err e
compared test (ok []) r = ok unknown
compared test (ok (c ∷ cs)) (err e) = err e
compared test (ok (c ∷ cs)) (ok []) = ok unknown
compared test (ok (c ∷ cs)) (ok (d ∷ ds)) = ok (known (test (c ∷ cs) (d ∷ ds)))

abbrev pub comparison_test : Numbers → Kind → Text → Text → Bool
comparison_test num type_cmpeq a b = compare_values num num.eq eq_text a b
comparison_test num type_cmpge a b = compare_values num num.ge (λ s. not (lt_text s)) a b
comparison_test num type_cmpgt a b = compare_values num num.gt gt_text a b
comparison_test num type_cmple a b = compare_values num num.le (λ s. not (gt_text s)) a b
comparison_test num type_cmplt a b = compare_values num num.lt lt_text a b
comparison_test num type_cmpne a b = compare_values num num.ne (λ s. not (eq_text s)) a b
comparison_test num _ a b = false

abbrev pub truth_switch :
    Numbers → Kind → Result Text → Result Text → Result Truth → Result Truth → Result Truth
truth_switch num type_and l r tl tr = truth_and tl tr
truth_switch num type_or l r tl tr = truth_or tl tr
truth_switch num type_xor l r tl tr = truth_xor tl tr
truth_switch num k l r tl tr = compared (comparison_test num k) l r

-- The truth value of a condition, its operands evaluated by exec_condition.
abbrev pub truth : Numbers → Item → Result Truth
truth num nullptr = ok unknown
truth num (node a l r on) =
    truth_switch num a.kind (exec_condition num null_value l) (exec_condition num null_value r)
      (truth num l) (truth num r)

-- The three results of `compared` by cases of the operands.
compared_lem :
    (test : Text → Text → Bool) (l r : Result Text)
    → unless_null l (λ a. unless_null r λ b. ok (boolalpha (test a b)))
      ≡ text_result (compared test l r)
compared_lem test (err e) r = refl
compared_lem test (ok []) r = refl
compared_lem test (ok (c ∷ cs)) (err e) = refl
compared_lem test (ok (c ∷ cs)) (ok []) = refl
compared_lem test (ok (c ∷ cs)) (ok (d ∷ ds)) = refl

comparison_lem :
    (num : Numbers) (k : Kind) (res value : Text) (l r on : Result Text) (tl tr : Result Truth)
    → IsComparison k
    → condition_switch num k res value l r on ≡ text_result (truth_switch num k l r tl tr)
unfolding condition_switch
comparison_lem num k res value l r on tl tr cmpeq = compared_lem (comparison_test num k) l r
comparison_lem num k res value l r on tl tr cmpge = compared_lem (comparison_test num k) l r
comparison_lem num k res value l r on tl tr cmpgt = compared_lem (comparison_test num k) l r
comparison_lem num k res value l r on tl tr cmple = compared_lem (comparison_test num k) l r
comparison_lem num k res value l r on tl tr cmplt = compared_lem (comparison_test num k) l r
comparison_lem num k res value l r on tl tr cmpne = compared_lem (comparison_test num k) l r

logic_lem :
    (num : Numbers) (k : Kind) (res value : Text) (l r on : Result Text) (tl tr : Result Truth)
    → IsLogic k
    → l ≡ text_result tl
    → r ≡ text_result tr
    → condition_switch num k res value l r on ≡ text_result (truth_switch num k l r tl tr)
unfolding condition_switch
logic_lem num k res value l r on tl tr logic_and p q = rw (p, q) (exec_and_lem tl tr)
logic_lem num k res value l r on tl tr logic_or p q = rw (p, q) (exec_or_lem tl tr)
logic_lem num k res value l r on tl tr logic_xor p q = rw (p, q) (exec_xor_lem tl tr)

-- exec_condition gives a condition's truth value as text, whatever the result was before.
pub exec_condition-truth :
    (num : Numbers) (res : Text) (it : Item)
    → IsCondition it
    → exec_condition num res it ≡ text_result (truth num it)
unfolding exec_condition
exec_condition-truth num res _ (comparison a l r on k) =
    comparison_lem num a.kind res a.value _ _ _ (truth num l) (truth num r) k
exec_condition-truth num res _ (logic a l r on k cl cr) =
    logic_lem num a.kind res a.value _ _ _ (truth num l) (truth num r) k
      (exec_condition-truth num null_value l cl) (exec_condition-truth num null_value r cr)

-- The rows that a condition selects.
abbrev pub selects : Result Truth → Result Bool
selects (err e) = err e
selects (ok (known b)) = ok b
selects (ok unknown) = ok false

passes-text_result : (t : Result Truth) → passes (text_result t) ≡ selects t
unfolding passes
passes-text_result (err e) = refl
passes-text_result (ok unknown) = refl
passes-text_result (ok (known true)) = refl
passes-text_result (ok (known false)) = refl

-- Take a condition built by AND, OR and XOR from comparisons of any operands. A WHERE clause passes
-- a row just when the condition is true in the logic of three values where the left operand is
-- evaluated first and decides where it is unknown, false under AND or true under OR; it does not
-- pass one where the condition is false or unknown. An error of an operand that is evaluated is the
-- error of the clause.
pub exec_where-selects :
    (num : Numbers) (it : Item) → IsCondition it → exec_where num it ≡ selects (truth num it)
unfolding exec_where
exec_where-selects num it c =
    ap passes (exec_condition-truth num vm_true it c) ∙ passes-text_result (truth num it)
