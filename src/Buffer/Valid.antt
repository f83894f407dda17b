-- ===== src/Buffer/Valid.antt =====
-- The invariant of class bbuffer, kept by every method of class buffer on one object.
use sql_relational_database.Common.{ℕ, zero, suc, ◌≤◌, arith, List, [], ◌∷◌}
use sql_relational_database.Common.Int.{ℤ, pos, negsuc, to_unsigned}
use sql_relational_database.Common.Exec.{
  Exec, Result, err, ok, Maintains, maintains_rules, Maintains-bind, Maintains-pure,
}
use sql_relational_database.Buffer.{
  Buffer, set_bound, clear, set_index, reset, rewind, trip, assign, load, store, advance, get,
  get_at, put, get_varchar, put_varchar,
}
use sql_relational_database.Buffer.Words.{
  half16, half32, half64, get_int16, get_int32, get_int64, get_float, get_double, put_int16,
  put_int32, put_int64, put_float, put_double, put_bits16, put_bits32, put_bits64,
}

pub record IsValid (b : Buffer) : Type 0 where
  pub bound_in : b.bound ≤ b.size
  pub index_in : b.index ≤ b.bound

-- The public calls on one buffer; those with an index argument are `at`.
pub data Call : Type 0 where
  set_bound_to set_index_to : ℤ → Call
  clear_it reset_it rewind_it trip_it : Call
  assign_from : Buffer → Call
  get_byte get_word16 get_word32 get_word64 get_float_bits get_double_bits : Call
  put_byte put_float_bits put_double_bits : ℕ → Call
  put_word16 put_word32 put_word64 : ℤ → Call
  get_text : ℕ → Call
  put_text : List ℕ → Call
  at : ℤ → Call → Call

abbrev pub after : {A : Type 0} → Exec Buffer A → Buffer → Buffer
after m b = (m b).1

-- The object after the call, whether it returned or threw.
unfoldable pub run : Call → Buffer → Buffer
run (set_bound_to n) b = after (set_bound n) b
run (set_index_to n) b = after (set_index n) b
run clear_it b = after clear b
run reset_it b = after reset b
run rewind_it b = after rewind b
run trip_it b = after trip b
run (assign_from o) b = after (assign o) b
run get_byte b = after get b
run get_word16 b = after get_int16 b
run get_word32 b = after get_int32 b
run get_word64 b = after get_int64 b
run get_float_bits b = after get_float b
run get_double_bits b = after get_double b
run (put_byte v) b = after (put v) b
run (put_float_bits v) b = after (put_float v) b
run (put_double_bits v) b = after (put_double v) b
run (put_word16 v) b = after (put_int16 v) b
run (put_word32 v) b = after (put_int32 v) b
run (put_word64 v) b = after (put_int64 v) b
run (get_text n) b = after (get_varchar n) b
run (put_text cs) b = after (put_varchar cs) b
run (at n call) b = let (r, b') = set_index n b in elim r [ ok _ ↦ run call b' | err e ↦ b' ]

set_bound-IsValid : (n : ℤ) → Maintains IsValid (set_bound n)
unfolding set_bound
set_bound-IsValid (pos n) = record { kept = λ b v. ground arith }
set_bound-IsValid (negsuc n) = record { kept = λ b v. v }

set_index-IsValid : (n : ℤ) → Maintains IsValid (set_index n)
unfolding set_index
set_index-IsValid (pos n) = record { kept = λ b v. ground arith }
set_index-IsValid (negsuc n) = record { kept = λ b v. v }

load-IsValid : Maintains IsValid load
unfolding load
load-IsValid = record { kept = λ b v. ground arith }

store-IsValid : (x : ℕ) → Maintains IsValid (store x)
unfolding store
store-IsValid x = record { kept = λ b v. ground arith }

advance-IsValid : Maintains IsValid advance
unfolding advance
advance-IsValid = record { kept = λ b v. ground arith }

get-IsValid : Maintains IsValid get
unfolding get
get-IsValid = record { kept = λ b v. ground arith }

put-IsValid : (x : ℕ) → Maintains IsValid (put x)
unfolding put
put-IsValid x = record { kept = λ b v. ground arith }

get_at-IsValid : (n : ℤ) → Maintains IsValid (get_at n)
unfolding get_at
get_at-IsValid n = search (maintains_rules, get-IsValid, set_index-IsValid)

ruleset access_rules =
    (maintains_rules, get-IsValid, put-IsValid, set_index-IsValid, get_at-IsValid)

get_varchar-IsValid : (n : ℕ) → Maintains IsValid (get_varchar n)
unfolding get_varchar
get_varchar-IsValid zero = search access_rules
get_varchar-IsValid (suc n) =
    Maintains-bind _
      (λ c.
        Maintains-bind _ (λ cs. Maintains-pure (c ∷ cs)) (get_varchar n) (get_varchar-IsValid n))
      get get-IsValid

put_varchar-IsValid : (cs : List ℕ) → Maintains IsValid (put_varchar cs)
unfolding put_varchar
put_varchar-IsValid [] = search access_rules
put_varchar-IsValid (c ∷ cs) =
    Maintains-bind (λ _. put_varchar cs) (λ _. put_varchar-IsValid cs) (put c) (put-IsValid c)

get_int16-IsValid : Maintains IsValid get_int16
unfolding get_int16
get_int16-IsValid = search access_rules depth 20

get_int32-IsValid : Maintains IsValid get_int32
unfolding get_int32
get_int32-IsValid = search access_rules depth 20

get_int64-IsValid : Maintains IsValid get_int64
unfolding get_int64
get_int64-IsValid = search access_rules depth 30

get_float-IsValid : Maintains IsValid get_float
unfolding get_float
get_float-IsValid = search access_rules depth 20

get_double-IsValid : Maintains IsValid get_double
unfolding get_double
get_double-IsValid = search access_rules depth 30

put_bits16-IsValid : (u : ℕ) → Maintains IsValid (put_bits16 u)
unfolding put_bits16
put_bits16-IsValid u = search access_rules depth 20

put_bits32-IsValid : (u : ℕ) → Maintains IsValid (put_bits32 u)
unfolding put_bits32
put_bits32-IsValid u = search access_rules depth 20

put_bits64-IsValid : (u : ℕ) → Maintains IsValid (put_bits64 u)
unfolding put_bits64
put_bits64-IsValid u = search access_rules depth 30

-- Every public call on one buffer keeps the bound within the size and the index within the bound,
-- whether the call returns or throws.
pub run-IsValid : (call : Call) (b : Buffer) → IsValid b → IsValid (run call b)
unfolding run put_int16 put_int32 put_int64 put_float put_double
run-IsValid (set_bound_to n) b v = (set_bound-IsValid n).kept b v
run-IsValid (set_index_to n) b v = (set_index-IsValid n).kept b v
run-IsValid clear_it b v = unfold clear in omega arith
run-IsValid reset_it b v = unfold reset in omega arith
run-IsValid rewind_it b v = unfold rewind in omega arith
run-IsValid trip_it b v = unfold trip in omega arith
run-IsValid (assign_from o) b v = unfold assign in ground arith
run-IsValid get_byte b v = get-IsValid.kept b v
run-IsValid get_word16 b v = get_int16-IsValid.kept b v
run-IsValid get_word32 b v = get_int32-IsValid.kept b v
run-IsValid get_word64 b v = get_int64-IsValid.kept b v
run-IsValid get_float_bits b v = get_float-IsValid.kept b v
run-IsValid get_double_bits b v = get_double-IsValid.kept b v
run-IsValid (put_byte x) b v = (put-IsValid x).kept b v
run-IsValid (put_float_bits x) b v = (put_bits32-IsValid x).kept b v
run-IsValid (put_double_bits x) b v = (put_bits64-IsValid x).kept b v
run-IsValid (put_word16 n) b v = (put_bits16-IsValid (to_unsigned half16 n)).kept b v
run-IsValid (put_word32 n) b v = (put_bits32-IsValid (to_unsigned half32 n)).kept b v
run-IsValid (put_word64 n) b v = (put_bits64-IsValid (to_unsigned half64 n)).kept b v
run-IsValid (get_text n) b v = (get_varchar-IsValid n).kept b v
run-IsValid (put_text cs) b v = (put_varchar-IsValid cs).kept b v
run-IsValid (at n call) b v =
    resume (set_index n b).0 (set_index n b).1 ((set_index-IsValid n).kept b v) (run-IsValid call)
  where
    resume :
        (r : Result (Unit {0})) (b' : Buffer)
        → IsValid b'
        → ((b : Buffer) → IsValid b → IsValid (run call b))
        → IsValid (elim r [ ok _ ↦ run call b' | err e ↦ b' ])
    resume (ok x) b' w rest = rest b' w
    resume (err e) b' w rest = w
