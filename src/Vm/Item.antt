-- ===== src/Vm/Item.antt =====
-- class item (vm/vm.h), the types of the values and operators of an expression (vm/vm.cpp), and the
-- numbers behind them. An item is owned by its parent, so the shared pointers form a tree, and the
-- null pointer is a tree of its own. Fields that only joins and output read are left out.
use sql_relational_database.Common.{
  ℕ, Bool, true, false, ◌&&◌, ◌||◌, leb, ◌==◌, if◌then◌else◌, List, [], ◌∷◌, Option, none, some,
  length,
}
use sql_relational_database.Common.Int.{ℤ}
use sql_relational_database.Common.Exec.{Result, ok, err, uninitialised}

abbrev pub Text : Type 0
Text = List ℕ

-- The TYPE_ constants that an expression, a condition or an assignment may carry, and `type_other`
-- for those of joins, tables and offsets.
pub data Kind : Type 0 where
  type_null type_add type_assign type_boolean type_bw_and type_bw_or type_bw_xor : Kind
  type_column type_cmpeq type_cmpge type_cmpgt type_cmple type_cmplt type_cmpne : Kind
  type_div type_float type_int type_and type_not type_or type_mod type_mul : Kind
  type_on type_sub type_varchar type_where type_xor type_offset type_other : Kind

-- What `col_type` finds in the schema of the table that a column item points to.
pub data ColumnType : Type 0 where
  float_column int_column other_column : ColumnType

pub record Label : Type 0 where
  pub kind : Kind
  pub negate : Bool
  pub col_type : ColumnType
  pub value : Text

pub data Item : Type 0 where
  nullptr : Item
  node : Label → Item → Item → Item → Item

-- Single-precision numbers and their text forms, as the C++ library and the processor give them:
-- `stof` returns the value and how many bytes it read, or none where std::stof throws; `print` is
-- `ostringstream << x`, `print_fixed` the same with std::fixed and two digits, `to_string` is
-- std::to_string; stoi and `to_string_int` likewise for int32_t.
pub record Numbers : Type 1 where
  pub Float : Type 0
  pub stof : Text → Option (Float × ℕ)
  pub print : Float → Text
  pub print_fixed : Float → Text
  pub to_string : Float → Text
  pub stoi : Text → Option ℤ
  pub to_string_int : ℤ → Text
  pub add : Float → Float → Float
  pub sub : Float → Float → Float
  pub mul : Float → Float → Float
  pub div : Float → Float → Float
  pub fmod : Float → Float → Float
  pub negate : Float → Float
  pub is_zero : Float → Bool
  pub eq : Float → Float → Bool
  pub ge : Float → Float → Bool
  pub gt : Float → Float → Bool
  pub le : Float → Float → Bool
  pub lt : Float → Float → Bool
  pub ne : Float → Float → Bool

-- VM_TRUE and VM_FALSE; NULL_VALUE is the empty string.
abbrev pub vm_true : Text
vm_true = 116 ∷ 114 ∷ 117 ∷ 101 ∷ []

abbrev pub vm_false : Text
vm_false = 102 ∷ 97 ∷ 108 ∷ 115 ∷ 101 ∷ []

abbrev pub null_value : Text
null_value = []

-- ostringstream << std::boolalpha << b
abbrev pub boolalpha : Bool → Text
boolalpha true = vm_true
boolalpha false = vm_false

abbrev pub is_space : ℕ → Bool
is_space c = (c == 32) || (leb 9 c && leb c 13)

unfoldable pub skip_spaces : Text → Text
skip_spaces [] = []
skip_spaces (c ∷ cs) = let rest = skip_spaces cs in if is_space c then rest else c ∷ cs

unfoldable pub starts_with : Text → Text → Bool
starts_with [] text = true
starts_with (c ∷ cs) [] = false
starts_with (c ∷ cs) (d ∷ ds) = let rest = starts_with cs ds in if c == d then rest else false

unfoldable pub take_word : Text → Text
take_word [] = []
take_word (c ∷ cs) = let rest = take_word cs in if is_space c then [] else c ∷ rest

-- std::istringstream(text) >> std::boolalpha >> b, with b declared and not set before: anything
-- that does not begin with "true" gives false, and no text at all leaves b as it is.
unfoldable pub read_bool : Text → Result Bool
unfolding skip_spaces starts_with
read_bool text = read (skip_spaces text)
  where
    read : Text → Result Bool
    read [] = err uninitialised
    read (c ∷ cs) = ok (starts_with vm_true (c ∷ cs))

-- std::istringstream(text) >> res, for a string
unfoldable pub read_word : Text → Text → Text
unfolding skip_spaces take_word
read_word res text = read (skip_spaces text)
  where
    read : Text → Text
    read [] = res
    read (c ∷ cs) = take_word (c ∷ cs)

-- vm::is_number
unfoldable pub is_number : (num : Numbers) → Text → Option num.Float
is_number num text = read (num.stof text)
  where
    read : Option (num.Float × ℕ) → Option num.Float
    read none = none
    read (some (x, pos)) = if pos == length text then some x else none
