-- ===== src/Tran/Symbol.antt =====
-- The token types and the table of reserved words of tran/tran.cpp, and its search
-- (lexer::get_symbol_type). An int32_t is its bit pattern, so that -1 is 2^32 - 1.
use Prim.Native.Char.{code}
use Prim.Native.String.{String}
use Prim.Native.Nat.{compare, Ordering}
use sql_relational_database.Common.{
  ℕ, zero, suc, ◌+◌, ◌-◌, ◌/◌, ◌^◌, ◌&&◌, leb, ltb, if◌then◌else◌, List, [], ◌∷◌, map, none, some,
  length, get_elem?,
}
use sql_relational_database.Vm.Item.{Text}

-- The bytes of a literal of the source.
abbrev pub codes : String → Text
codes String.[] = []
codes (String.◌∷◌ c s) = code c ∷ codes s

abbrev pub tok_add : ℕ
tok_add = 0

abbrev pub tok_after : ℕ
tok_after = 1

abbrev pub tok_all : ℕ
tok_all = 2

abbrev pub tok_alter : ℕ
tok_alter = 3

abbrev pub tok_and : ℕ
tok_and = 4

abbrev pub tok_as : ℕ
tok_as = 5

abbrev pub tok_asterisk : ℕ
tok_asterisk = 6

abbrev pub tok_atsign : ℕ
tok_atsign = 7

abbrev pub tok_auto_inc : ℕ
tok_auto_inc = 8

abbrev pub tok_backslash : ℕ
tok_backslash = 9

abbrev pub tok_by : ℕ
tok_by = 10

abbrev pub tok_char : ℕ
tok_char = 11

abbrev pub tok_column : ℕ
tok_column = 12

abbrev pub tok_comma : ℕ
tok_comma = 13

abbrev pub tok_comment : ℕ
tok_comment = 14

abbrev pub tok_create : ℕ
tok_create = 15

abbrev pub tok_cross : ℕ
tok_cross = 16

abbrev pub tok_data : ℕ
tok_data = 17

abbrev pub tok_database : ℕ
tok_database = 18

abbrev pub tok_databases : ℕ
tok_databases = 19

abbrev pub tok_date : ℕ
tok_date = 20

abbrev pub tok_datetime : ℕ
tok_datetime = 21

abbrev pub tok_delete : ℕ
tok_delete = 22

abbrev pub tok_describe : ℕ
tok_describe = 23

abbrev pub tok_dot : ℕ
tok_dot = 24

abbrev pub tok_drop : ℕ
tok_drop = 25

abbrev pub tok_enclosed : ℕ
tok_enclosed = 26

abbrev pub tok_enum : ℕ
tok_enum = 27

abbrev pub tok_eq : ℕ
tok_eq = 28

abbrev pub tok_file : ℕ
tok_file = 29

abbrev pub tok_first : ℕ
tok_first = 30

abbrev pub tok_float : ℕ
tok_float = 31

abbrev pub tok_for : ℕ
tok_for = 32

abbrev pub tok_foreign : ℕ
tok_foreign = 33

abbrev pub tok_from : ℕ
tok_from = 34

abbrev pub tok_grant : ℕ
tok_grant = 35

abbrev pub tok_ge : ℕ
tok_ge = 36

abbrev pub tok_gt : ℕ
tok_gt = 37

abbrev pub tok_hashtag : ℕ
tok_hashtag = 38

abbrev pub tok_identified : ℕ
tok_identified = 39

abbrev pub tok_ignore : ℕ
tok_ignore = 40

abbrev pub tok_index : ℕ
tok_index = 41

abbrev pub tok_infile : ℕ
tok_infile = 42

abbrev pub tok_inner : ℕ
tok_inner = 43

abbrev pub tok_insert : ℕ
tok_insert = 44

abbrev pub tok_int : ℕ
tok_int = 45

abbrev pub tok_into : ℕ
tok_into = 46

abbrev pub tok_join : ℕ
tok_join = 47

abbrev pub tok_key : ℕ
tok_key = 48

abbrev pub tok_left : ℕ
tok_left = 49

abbrev pub tok_l_paren : ℕ
tok_l_paren = 50

abbrev pub tok_le : ℕ
tok_le = 51

abbrev pub tok_limit : ℕ
tok_limit = 52

abbrev pub tok_lt : ℕ
tok_lt = 53

abbrev pub tok_load : ℕ
tok_load = 54

abbrev pub tok_minus : ℕ
tok_minus = 55

abbrev pub tok_mod : ℕ
tok_mod = 56

abbrev pub tok_name : ℕ
tok_name = 57

abbrev pub tok_ne : ℕ
tok_ne = 58

abbrev pub tok_not : ℕ
tok_not = 59

abbrev pub tok_null_sym : ℕ
tok_null_sym = 60

abbrev pub tok_on : ℕ
tok_on = 61

abbrev pub tok_or : ℕ
tok_or = 62

abbrev pub tok_order : ℕ
tok_order = 63

abbrev pub tok_outer : ℕ
tok_outer = 64

abbrev pub tok_outfile : ℕ
tok_outfile = 65

abbrev pub tok_password : ℕ
tok_password = 66

abbrev pub tok_plus : ℕ
tok_plus = 67

abbrev pub tok_primary : ℕ
tok_primary = 68

abbrev pub tok_references : ℕ
tok_references = 69

abbrev pub tok_reload : ℕ
tok_reload = 70

abbrev pub tok_rename : ℕ
tok_rename = 71

abbrev pub tok_replace : ℕ
tok_replace = 72

abbrev pub tok_revoke : ℕ
tok_revoke = 73

abbrev pub tok_right : ℕ
tok_right = 74

abbrev pub tok_r_paren : ℕ
tok_r_paren = 75

abbrev pub tok_select : ℕ
tok_select = 76

abbrev pub tok_semicolon : ℕ
tok_semicolon = 77

abbrev pub tok_set : ℕ
tok_set = 78

abbrev pub tok_show : ℕ
tok_show = 79

abbrev pub tok_shutdown : ℕ
tok_shutdown = 80

abbrev pub tok_table : ℕ
tok_table = 81

abbrev pub tok_tables : ℕ
tok_tables = 82

abbrev pub tok_timestamp : ℕ
tok_timestamp = 83

abbrev pub tok_to : ℕ
tok_to = 84

abbrev pub tok_unique : ℕ
tok_unique = 85

abbrev pub tok_unsigned : ℕ
tok_unsigned = 86

abbrev pub tok_update : ℕ
tok_update = 87

abbrev pub tok_use : ℕ
tok_use = 88

abbrev pub tok_user : ℕ
tok_user = 89

abbrev pub tok_using : ℕ
tok_using = 90

abbrev pub tok_values : ℕ
tok_values = 91

abbrev pub tok_varchar : ℕ
tok_varchar = 92

abbrev pub tok_where : ℕ
tok_where = 93

abbrev pub tok_whitespace : ℕ
tok_whitespace = 94

abbrev pub tok_zerofill : ℕ
tok_zerofill = 95

-- static_cast<char>(255) as an int32_t, and the -1 of an unknown word.
abbrev pub tok_eoi : ℕ
tok_eoi = 2 ^ 32 - 1

unfoldable pub symbol : List (Text × ℕ)
symbol =
    (codes "ADD", tok_add)
    ∷ (codes "AFTER", tok_after)
    ∷ (codes "ALL", tok_all)
    ∷ (codes "ALTER", tok_alter)
    ∷ (codes "AND", tok_and)
    ∷ (codes "AS", tok_as)
    ∷ (codes "AUTO_INCREMENT", tok_auto_inc)
    ∷ (codes "BY", tok_by)
    ∷ (codes "CHAR", tok_char)
    ∷ (codes "COLUMN", tok_column)
    ∷ (codes "CREATE", tok_create)
    ∷ (codes "CROSS", tok_cross)
    ∷ (codes "DATA", tok_data)
    ∷ (codes "DATABASE", tok_database)
    ∷ (codes "DATABASES", tok_databases)
    ∷ (codes "DATE", tok_date)
    ∷ (codes "DATETIME", tok_datetime)
    ∷ (codes "DELETE", tok_delete)
    ∷ (codes "DESCRIBE", tok_describe)
    ∷ (codes "DROP", tok_drop)
    ∷ (codes "ENUM", tok_enum)
    ∷ (codes "FILE", tok_file)
    ∷ (codes "FIRST", tok_first)
    ∷ (codes "FLOAT", tok_float)
    ∷ (codes "FOR", tok_for)
    ∷ (codes "FOREIGN", tok_foreign)
    ∷ (codes "FROM", tok_from)
    ∷ (codes "GRANT", tok_grant)
    ∷ (codes "IDENTIFIED", tok_identified)
    ∷ (codes "INDEX", tok_index)
    ∷ (codes "INFILE", tok_infile)
    ∷ (codes "INNER", tok_inner)
    ∷ (codes "INSERT", tok_insert)
    ∷ (codes "INT", tok_int)
    ∷ (codes "INTO", tok_into)
    ∷ (codes "JOIN", tok_join)
    ∷ (codes "KEY", tok_key)
    ∷ (codes "LEFT", tok_left)
    ∷ (codes "LIMIT", tok_limit)
    ∷ (codes "LOAD", tok_load)
    ∷ (codes "MOD", tok_mod)
    ∷ (codes "NOT", tok_not)
    ∷ (codes "NULL", tok_null_sym)
    ∷ (codes "ON", tok_on)
    ∷ (codes "OR", tok_or)
    ∷ (codes "ORDER", tok_order)
    ∷ (codes "OUTER", tok_outer)
    ∷ (codes "OUTFILE", tok_outfile)
    ∷ (codes "PASSWORD", tok_password)
    ∷ (codes "PRIMARY", tok_primary)
    ∷ (codes "REFERENCES", tok_references)
    ∷ (codes "RELOAD", tok_reload)
    ∷ (codes "RENAME", tok_rename)
    ∷ (codes "REPLACE", tok_replace)
    ∷ (codes "REVOKE", tok_revoke)
    ∷ (codes "RIGHT", tok_right)
    ∷ (codes "SELECT", tok_select)
    ∷ (codes "SET", tok_set)
    ∷ (codes "SHOW", tok_show)
    ∷ (codes "SHUTDOWN", tok_shutdown)
    ∷ (codes "TABLE", tok_table)
    ∷ (codes "TABLES", tok_tables)
    ∷ (codes "TIMESTAMP", tok_timestamp)
    ∷ (codes "TO", tok_to)
    ∷ (codes "UNIQUE", tok_unique)
    ∷ (codes "UNSIGNED", tok_unsigned)
    ∷ (codes "UPDATE", tok_update)
    ∷ (codes "USE", tok_use)
    ∷ (codes "USER", tok_user)
    ∷ (codes "USING", tok_using)
    ∷ (codes "VALUES", tok_values)
    ∷ (codes "VARCHAR", tok_varchar)
    ∷ (codes "WHERE", tok_where)
    ∷ []

-- std::toupper in the C locale.
abbrev pub to_upper : ℕ → ℕ
to_upper c = if leb b'a' c && leb c b'z' then c - 32 else c

-- std::string::compare, by its sign.
unfoldable pub compare_text : Text → Text → Ordering
compare_text [] [] = Ordering.eq
compare_text [] (c ∷ t) = Ordering.lt
compare_text (c ∷ s) [] = Ordering.gt
compare_text (c ∷ s) (d ∷ t) =
    let rest = compare_text s t in
    elim (compare c d) [
      | Ordering.lt ↦ Ordering.lt
      | Ordering.eq ↦ rest
      | Ordering.gt ↦ Ordering.gt
    ]

-- The loop of get_symbol_type over the window from `lo` up to, not including, `past`, which is
-- hi + 1. Each round shortens the window.
unfoldable pub find_symbol : List (Text × ℕ) → ℕ → Text → ℕ → ℕ → ℕ
unfolding compare_text
find_symbol table zero text lo past = tok_eoi
find_symbol table (suc fuel) text lo past =
    let mid = (lo + past - 1) / 2 in
    let round : ℕ = elim (get_elem? table mid) [
      | none ↦ tok_eoi
      | some (word, type) ↦ elim (compare_text text word) [
        | Ordering.lt ↦ find_symbol table fuel text lo mid
        | Ordering.gt ↦ find_symbol table fuel text (mid + 1) past
        | Ordering.eq ↦ type
      ]
    ] in
    if ltb lo past then round else tok_eoi

unfoldable pub get_symbol_type : Text → ℕ
unfolding find_symbol symbol
get_symbol_type text = find_symbol symbol (length symbol + 1) (map to_upper text) 0 (length symbol)
