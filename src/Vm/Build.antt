-- ===== src/Vm/Build.antt =====
-- Expressions as the code that builds them: the right operand's code first, then the left one's,
-- then the operator, which is the order in which tran emits them once its code is turned around.
use sql_relational_database.Common.{sym, List, [], ◌∷◌, ◌++◌, ◌≡◌, refl, ap, ◌∙◌}
use sql_relational_database.Common.Exec.{Result, ok, err}
use sql_relational_database.Vm.Item.{
  type_add, type_cmpeq, type_cmpge, type_cmpgt, type_cmple, type_cmplt, type_cmpne, type_div,
  type_and, type_not, type_or, type_mul, type_sub, Kind, Item, nullptr, node,
}
use sql_relational_database.Vm.Stack.{
  Stack, Opcode, op_add, op_sub, op_mul, op_div, op_cmpeq, op_cmpge, op_cmpgt, op_cmple, op_cmplt,
  op_cmpne, op_and, op_or, op_not, operand, call, run_code, new_label,
}

-- The binary operators that have an opcode.
pub data IsOperator : Kind → Opcode → Type 0 where
  adds : IsOperator type_add op_add
  subtracts : IsOperator type_sub op_sub
  multiplies : IsOperator type_mul op_mul
  divides : IsOperator type_div op_div
  is_equal : IsOperator type_cmpeq op_cmpeq
  is_at_least : IsOperator type_cmpge op_cmpge
  is_greater : IsOperator type_cmpgt op_cmpgt
  is_at_most : IsOperator type_cmple op_cmple
  is_less : IsOperator type_cmplt op_cmplt
  differs : IsOperator type_cmpne op_cmpne
  ands : IsOperator type_and op_and
  ors : IsOperator type_or op_or

pub data IsExpression : Item → List Opcode → Type 0 where
  is_operand : (it : Item) → IsExpression it (operand it ∷ [])
  is_not :
      (r : Item) (code : List Opcode)
      → IsExpression r code
      → IsExpression (node (new_label type_not) nullptr r nullptr) (code ++ (op_not ∷ []))
  is_binary :
      (k : Kind) (op : Opcode) (l r : Item) (left_code right_code : List Opcode)
      → IsOperator k op
      → IsExpression l left_code
      → IsExpression r right_code
      → IsExpression (node (new_label k) l r nullptr) (right_code ++ (left_code ++ (op ∷ [])))

abbrev continue_run : List Opcode → Result (Unit {0}) × Stack → Result (Unit {0}) × Stack
continue_run code (ok u, s) = run_code code s
continue_run code (err e, s) = (err e, s)

run_code_step :
    (op : Opcode) (code : List Opcode) (s : Stack)
    → run_code (op ∷ code) s ≡ continue_run code (call op s)
unfolding run_code
run_code_step op code s = go (call op s) refl
  where
    go :
        (p : Result (Unit {0}) × Stack)
        → call op s ≡ p
        → run_code (op ∷ code) s ≡ continue_run code (call op s)
    go (ok u, s') e = rw e refl
    go (err x, s') e = rw e refl

run_code-nil : (s : Stack) → run_code [] s ≡ (ok tt, s)
unfolding run_code
run_code-nil s = refl

continue_run-append :
    (code more : List Opcode) (t : Stack) (p : Result (Unit {0}) × Stack)
    → ((s : Stack) → run_code code s ≡ (ok tt, t) → run_code (code ++ more) s ≡ run_code more t)
    → continue_run code p ≡ (ok tt, t)
    → continue_run (code ++ more) p ≡ run_code more t
continue_run-append code more t (ok u, s) rest h = rest s h
continue_run-append code more t (err x, s) rest h = cc

-- Code that runs to the end, and more code after it.
run_code-append :
    (code more : List Opcode) (s t : Stack)
    → run_code code s ≡ (ok tt, t)
    → run_code (code ++ more) s ≡ run_code more t
run_code-append [] more s t e = ap (λ p. run_code more p.1) (sym (run_code-nil s) ∙ e)
run_code-append (op ∷ code) more s t e =
    run_code_step op (code ++ more) s
    ∙ continue_run-append code more t (call op s) (λ s' h. run_code-append code more s' t h)
        (sym (run_code_step op code s) ∙ e)

call_operand : (it : Item) (s : Stack) → run_code (operand it ∷ []) s ≡ (ok tt, it ∷ s)
unfolding run_code
call_operand it s = refl

call_not :
    (r : Item) (s : Stack)
    → run_code (op_not ∷ []) (r ∷ s) ≡ (ok tt, node (new_label type_not) nullptr r nullptr ∷ s)
unfolding run_code
call_not r s = refl

call_operator :
    (k : Kind) (op : Opcode) (l r : Item) (s : Stack)
    → IsOperator k op
    → run_code (op ∷ []) (l ∷ r ∷ s) ≡ (ok tt, node (new_label k) l r nullptr ∷ s)
unfolding run_code
call_operator k op l r s adds = refl
call_operator k op l r s subtracts = refl
call_operator k op l r s multiplies = refl
call_operator k op l r s divides = refl
call_operator k op l r s is_equal = refl
call_operator k op l r s is_at_least = refl
call_operator k op l r s is_greater = refl
call_operator k op l r s is_at_most = refl
call_operator k op l r s is_less = refl
call_operator k op l r s differs = refl
call_operator k op l r s ands = refl
call_operator k op l r s ors = refl

-- Running the code of an expression, made of operands, NOT and the binary operators, on any stack
-- ends without an error and pushes that expression.
pub run_code-IsExpression :
    (it : Item) (code : List Opcode)
    → IsExpression it code
    → (s : Stack) → run_code code s ≡ (ok tt, it ∷ s)
run_code-IsExpression _ _ (is_operand it) s = call_operand it s
run_code-IsExpression _ _ (is_not r code e) s =
    run_code-append code _ s _ (run_code-IsExpression r code e s) ∙ call_not r s
run_code-IsExpression _ _ (is_binary k op l r cl cr o el er) s =
    run_code-append cr _ s _ (run_code-IsExpression r cr er s)
    ∙ run_code-append cl _ _ _ (run_code-IsExpression l cl el (r ∷ s))
    ∙ call_operator k op l r s o
