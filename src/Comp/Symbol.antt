-- ===== src/Comp/Symbol.antt =====
-- The token types and the symbol table of comp/comp.cpp.
use sql_relational_database.Common.{ℕ, List, [], ◌∷◌}
use sql_relational_database.Vm.Item.{Text}
use sql_relational_database.Tran.Symbol.{codes}

abbrev pub tok_add : ℕ
tok_add = 0

abbrev pub tok_addclmn : ℕ
tok_addclmn = 1

abbrev pub tok_addfgnkey : ℕ
tok_addfgnkey = 2

abbrev pub tok_addndx : ℕ
tok_addndx = 3

abbrev pub tok_altdb : ℕ
tok_altdb = 4

abbrev pub tok_altusr : ℕ
tok_altusr = 5

abbrev pub tok_and : ℕ
tok_and = 6

abbrev pub tok_asterisk : ℕ
tok_asterisk = 7

abbrev pub tok_backslash : ℕ
tok_backslash = 8

abbrev pub tok_call : ℕ
tok_call = 9

abbrev pub tok_char : ℕ
tok_char = 10

abbrev pub tok_comma : ℕ
tok_comma = 11

abbrev pub tok_cmpeq : ℕ
tok_cmpeq = 12

abbrev pub tok_cmpge : ℕ
tok_cmpge = 13

abbrev pub tok_cmpgt : ℕ
tok_cmpgt = 14

abbrev pub tok_cmple : ℕ
tok_cmple = 15

abbrev pub tok_cmplt : ℕ
tok_cmplt = 16

abbrev pub tok_cmpne : ℕ
tok_cmpne = 17

abbrev pub tok_crjoin : ℕ
tok_crjoin = 18

abbrev pub tok_crtdb : ℕ
tok_crtdb = 19

abbrev pub tok_crttbl : ℕ
tok_crttbl = 20

abbrev pub tok_crtusr : ℕ
tok_crtusr = 21

abbrev pub tok_data : ℕ
tok_data = 22

abbrev pub tok_delete : ℕ
tok_delete = 23

abbrev pub tok_describe : ℕ
tok_describe = 24

abbrev pub tok_div : ℕ
tok_div = 25

abbrev pub tok_dollar : ℕ
tok_dollar = 26

abbrev pub tok_dot : ℕ
tok_dot = 27

abbrev pub tok_dquotmark : ℕ
tok_dquotmark = 28

abbrev pub tok_dropclmn : ℕ
tok_dropclmn = 29

abbrev pub tok_dropdb : ℕ
tok_dropdb = 30

abbrev pub tok_dropfgnkey : ℕ
tok_dropfgnkey = 31

abbrev pub tok_dropndx : ℕ
tok_dropndx = 32

abbrev pub tok_droptbl : ℕ
tok_droptbl = 33

abbrev pub tok_dropusr : ℕ
tok_dropusr = 34

abbrev pub tok_float : ℕ
tok_float = 35

abbrev pub tok_grant : ℕ
tok_grant = 36

abbrev pub tok_hashtag : ℕ
tok_hashtag = 37

abbrev pub tok_injoin : ℕ
tok_injoin = 38

abbrev pub tok_insert : ℕ
tok_insert = 39

abbrev pub tok_int : ℕ
tok_int = 40

abbrev pub tok_loaddata : ℕ
tok_loaddata = 41

abbrev pub tok_ltjoin : ℕ
tok_ltjoin = 42

abbrev pub tok_l_paren : ℕ
tok_l_paren = 43

abbrev pub tok_minus : ℕ
tok_minus = 44

abbrev pub tok_mkassign : ℕ
tok_mkassign = 45

abbrev pub tok_mkastexpr : ℕ
tok_mkastexpr = 46

abbrev pub tok_mkclmndef : ℕ
tok_mkclmndef = 47

abbrev pub tok_mkclmnexpr : ℕ
tok_mkclmnexpr = 48

abbrev pub tok_mkexpr : ℕ
tok_mkexpr = 49

abbrev pub tok_mkexprhdr : ℕ
tok_mkexprhdr = 50

abbrev pub tok_mkexprlst : ℕ
tok_mkexprlst = 51

abbrev pub tok_mkfgnkey : ℕ
tok_mkfgnkey = 52

abbrev pub tok_mkprikey : ℕ
tok_mkprikey = 53

abbrev pub tok_mkunikey : ℕ
tok_mkunikey = 54

abbrev pub tok_mkusr : ℕ
tok_mkusr = 55

abbrev pub tok_mkwrksch : ℕ
tok_mkwrksch = 56

abbrev pub tok_mul : ℕ
tok_mul = 57

abbrev pub tok_negate : ℕ
tok_negate = 58

abbrev pub tok_nop : ℕ
tok_nop = 59

abbrev pub tok_not : ℕ
tok_not = 60

abbrev pub tok_on : ℕ
tok_on = 61

abbrev pub tok_opntbl : ℕ
tok_opntbl = 62

abbrev pub tok_or : ℕ
tok_or = 63

abbrev pub tok_orderby : ℕ
tok_orderby = 64

abbrev pub tok_percent : ℕ
tok_percent = 65

abbrev pub tok_plus : ℕ
tok_plus = 66

abbrev pub tok_primary : ℕ
tok_primary = 67

abbrev pub tok_push : ℕ
tok_push = 68

abbrev pub tok_pusho : ℕ
tok_pusho = 69

abbrev pub tok_quotmark : ℕ
tok_quotmark = 70

abbrev pub tok_r_paren : ℕ
tok_r_paren = 71

abbrev pub tok_ret : ℕ
tok_ret = 72

abbrev pub tok_revoke : ℕ
tok_revoke = 73

abbrev pub tok_rtjoin : ℕ
tok_rtjoin = 74

abbrev pub tok_select : ℕ
tok_select = 75

abbrev pub tok_setoutf : ℕ
tok_setoutf = 76

abbrev pub tok_showdbs : ℕ
tok_showdbs = 77

abbrev pub tok_showtbls : ℕ
tok_showtbls = 78

abbrev pub tok_slcktbl : ℕ
tok_slcktbl = 79

abbrev pub tok_sub : ℕ
tok_sub = 80

abbrev pub tok_text : ℕ
tok_text = 81

abbrev pub tok_ulcktbl : ℕ
tok_ulcktbl = 82

abbrev pub tok_update : ℕ
tok_update = 83

abbrev pub tok_use : ℕ
tok_use = 84

abbrev pub tok_using : ℕ
tok_using = 85

abbrev pub tok_varchar : ℕ
tok_varchar = 86

abbrev pub tok_where : ℕ
tok_where = 87

unfoldable pub symbol : List (Text × ℕ)
symbol =
    (codes "ADD", tok_add)
    ∷ (codes "ADDCLMN", tok_addclmn)
    ∷ (codes "ADDFGNKEY", tok_addfgnkey)
    ∷ (codes "ADDNDX", tok_addndx)
    ∷ (codes "ALTUSR", tok_altusr)
    ∷ (codes "AND", tok_and)
    ∷ (codes "CALL", tok_call)
    ∷ (codes "CHAR", tok_char)
    ∷ (codes "CMPEQ", tok_cmpeq)
    ∷ (codes "CMPGE", tok_cmpge)
    ∷ (codes "CMPGT", tok_cmpgt)
    ∷ (codes "CMPLE", tok_cmple)
    ∷ (codes "CMPLT", tok_cmplt)
    ∷ (codes "CMPNE", tok_cmpne)
    ∷ (codes "CRJOIN", tok_crjoin)
    ∷ (codes "CRTDB", tok_crtdb)
    ∷ (codes "CRTTBL", tok_crttbl)
    ∷ (codes "CRTUSR", tok_crtusr)
    ∷ (codes "DATA", tok_data)
    ∷ (codes "DELETE", tok_delete)
    ∷ (codes "DESCRIBE", tok_describe)
    ∷ (codes "DIV", tok_div)
    ∷ (codes "DROPCLMN", tok_dropclmn)
    ∷ (codes "DROPDB", tok_dropdb)
    ∷ (codes "DROPFGNKEY", tok_dropfgnkey)
    ∷ (codes "DROPNDX", tok_dropndx)
    ∷ (codes "DROPTBL", tok_droptbl)
    ∷ (codes "DROPUSR", tok_dropusr)
    ∷ (codes "FLOAT", tok_float)
    ∷ (codes "GRANT", tok_grant)
    ∷ (codes "INJOIN", tok_injoin)
    ∷ (codes "INSERT", tok_insert)
    ∷ (codes "INT", tok_int)
    ∷ (codes "LOADDATA", tok_loaddata)
    ∷ (codes "LTJOIN", tok_ltjoin)
    ∷ (codes "MKASSIGN", tok_mkassign)
    ∷ (codes "MKASTEXPR", tok_mkastexpr)
    ∷ (codes "MKCLMNDEF", tok_mkclmndef)
    ∷ (codes "MKCLMNEXPR", tok_mkclmnexpr)
    ∷ (codes "MKEXPR", tok_mkexpr)
    ∷ (codes "MKEXPRHDR", tok_mkexprhdr)
    ∷ (codes "MKEXPRLST", tok_mkexprlst)
    ∷ (codes "MKFGNKEY", tok_mkfgnkey)
    ∷ (codes "MKPRIKEY", tok_mkprikey)
    ∷ (codes "MKUNIKEY", tok_mkunikey)
    ∷ (codes "MKUSR", tok_mkusr)
    ∷ (codes "MKWRKSCH", tok_mkwrksch)
    ∷ (codes "MUL", tok_mul)
    ∷ (codes "NEGATE", tok_negate)
    ∷ (codes "NOP", tok_nop)
    ∷ (codes "NOT", tok_not)
    ∷ (codes "ON", tok_on)
    ∷ (codes "OPNTBL", tok_opntbl)
    ∷ (codes "OR", tok_or)
    ∷ (codes "ORDERBY", tok_orderby)
    ∷ (codes "PRIMARY", tok_primary)
    ∷ (codes "PUSH", tok_push)
    ∷ (codes "PUSHO", tok_pusho)
    ∷ (codes "RET", tok_ret)
    ∷ (codes "REVOKE", tok_revoke)
    ∷ (codes "RTJOIN", tok_rtjoin)
    ∷ (codes "SELECT", tok_select)
    ∷ (codes "SETOUTF", tok_setoutf)
    ∷ (codes "SHOWDBS", tok_showdbs)
    ∷ (codes "SHOWTBLS", tok_showtbls)
    ∷ (codes "SLCKTBL", tok_slcktbl)
    ∷ (codes "SUB", tok_sub)
    ∷ (codes "TEXT", tok_text)
    ∷ (codes "ULCKTBL", tok_ulcktbl)
    ∷ (codes "UPDATE", tok_update)
    ∷ (codes "USE", tok_use)
    ∷ (codes "USING", tok_using)
    ∷ (codes "VARCHAR", tok_varchar)
    ∷ (codes "WHERE", tok_where)
    ∷ []
