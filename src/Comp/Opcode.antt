-- ===== src/Comp/Opcode.antt =====
-- The opcodes of inc/opcode.h that comp/comp.cpp puts, and the switch of comp_parser::call.
use sql_relational_database.Common.{ℕ, List, [], ◌∷◌}
use sql_relational_database.Comp.Symbol.{
  tok_add, tok_addclmn, tok_addfgnkey, tok_addndx, tok_altdb, tok_altusr, tok_and, tok_cmpeq,
  tok_cmpge, tok_cmpgt, tok_cmple, tok_cmplt, tok_cmpne, tok_crjoin, tok_crtdb, tok_crttbl,
  tok_crtusr, tok_delete, tok_describe, tok_div, tok_dropclmn, tok_dropdb, tok_dropfgnkey,
  tok_dropndx, tok_droptbl, tok_dropusr, tok_grant, tok_injoin, tok_insert, tok_loaddata,
  tok_ltjoin, tok_mkassign, tok_mkastexpr, tok_mkclmndef, tok_mkclmnexpr, tok_mkexpr, tok_mkexprhdr,
  tok_mkexprlst, tok_mkfgnkey, tok_mkprikey, tok_mkunikey, tok_mkusr, tok_mkwrksch, tok_mul,
  tok_negate, tok_not, tok_on, tok_opntbl, tok_or, tok_orderby, tok_revoke, tok_rtjoin, tok_select,
  tok_setoutf, tok_showdbs, tok_showtbls, tok_slcktbl, tok_sub, tok_ulcktbl, tok_update, tok_use,
  tok_using, tok_where,
}

abbrev pub op_nop : ℕ
op_nop = 0

abbrev pub op_add : ℕ
op_add = 1

abbrev pub op_addclmn : ℕ
op_addclmn = 2

abbrev pub op_addfgnkey : ℕ
op_addfgnkey = 3

abbrev pub op_addndx : ℕ
op_addndx = 4

abbrev pub op_altdb : ℕ
op_altdb = 5

abbrev pub op_altusr : ℕ
op_altusr = 6

abbrev pub op_and : ℕ
op_and = 7

abbrev pub op_call : ℕ
op_call = 8

abbrev pub op_cmpeq : ℕ
op_cmpeq = 9

abbrev pub op_cmpge : ℕ
op_cmpge = 10

abbrev pub op_cmpgt : ℕ
op_cmpgt = 11

abbrev pub op_cmple : ℕ
op_cmple = 12

abbrev pub op_cmplt : ℕ
op_cmplt = 13

abbrev pub op_cmpne : ℕ
op_cmpne = 14

abbrev pub op_crjoin : ℕ
op_crjoin = 15

abbrev pub op_crtdb : ℕ
op_crtdb = 16

abbrev pub op_crttbl : ℕ
op_crttbl = 17

abbrev pub op_crtusr : ℕ
op_crtusr = 18

abbrev pub op_delete : ℕ
op_delete = 19

abbrev pub op_describe : ℕ
op_describe = 20

abbrev pub op_div : ℕ
op_div = 21

abbrev pub op_dropclmn : ℕ
op_dropclmn = 22

abbrev pub op_dropdb : ℕ
op_dropdb = 23

abbrev pub op_dropfgnkey : ℕ
op_dropfgnkey = 24

abbrev pub op_dropndx : ℕ
op_dropndx = 25

abbrev pub op_droptbl : ℕ
op_droptbl = 26

abbrev pub op_dropusr : ℕ
op_dropusr = 27

abbrev pub op_grant : ℕ
op_grant = 28

abbrev pub op_injoin : ℕ
op_injoin = 29

abbrev pub op_insert : ℕ
op_insert = 30

abbrev pub op_loaddata : ℕ
op_loaddata = 31

abbrev pub op_ltjoin : ℕ
op_ltjoin = 32

abbrev pub op_mkassign : ℕ
op_mkassign = 33

abbrev pub op_mkastexpr : ℕ
op_mkastexpr = 34

abbrev pub op_mkclmndef : ℕ
op_mkclmndef = 35

abbrev pub op_mkclmnexpr : ℕ
op_mkclmnexpr = 36

abbrev pub op_mkexpr : ℕ
op_mkexpr = 37

abbrev pub op_mkexprhdr : ℕ
op_mkexprhdr = 38

abbrev pub op_mkexprlst : ℕ
op_mkexprlst = 39

abbrev pub op_mkfgnkey : ℕ
op_mkfgnkey = 40

abbrev pub op_mkprikey : ℕ
op_mkprikey = 41

abbrev pub op_mkunikey : ℕ
op_mkunikey = 42

abbrev pub op_mkusr : ℕ
op_mkusr = 43

abbrev pub op_mkwrksch : ℕ
op_mkwrksch = 44

abbrev pub op_mul : ℕ
op_mul = 45

abbrev pub op_negate : ℕ
op_negate = 46

abbrev pub op_not : ℕ
op_not = 47

abbrev pub op_on : ℕ
op_on = 48

abbrev pub op_opntbl : ℕ
op_opntbl = 49

abbrev pub op_or : ℕ
op_or = 50

abbrev pub op_orderby : ℕ
op_orderby = 51

abbrev pub op_push : ℕ
op_push = 52

abbrev pub op_pusho : ℕ
op_pusho = 53

abbrev pub op_ret : ℕ
op_ret = 54

abbrev pub op_revoke : ℕ
op_revoke = 55

abbrev pub op_rtjoin : ℕ
op_rtjoin = 56

abbrev pub op_select : ℕ
op_select = 57

abbrev pub op_setoutf : ℕ
op_setoutf = 58

abbrev pub op_showdbs : ℕ
op_showdbs = 59

abbrev pub op_showtbls : ℕ
op_showtbls = 60

abbrev pub op_slcktbl : ℕ
op_slcktbl = 61

abbrev pub op_sub : ℕ
op_sub = 62

abbrev pub op_ulcktbl : ℕ
op_ulcktbl = 63

abbrev pub op_update : ℕ
op_update = 64

abbrev pub op_use : ℕ
op_use = 65

abbrev pub op_using : ℕ
op_using = 66

abbrev pub op_where : ℕ
op_where = 67

-- The types of the routines that can be called, each with its opcode.
unfoldable pub routines : List (ℕ × ℕ)
routines =
    (tok_add, op_add)
    ∷ (tok_addclmn, op_addclmn)
    ∷ (tok_addfgnkey, op_addfgnkey)
    ∷ (tok_addndx, op_addndx)
    ∷ (tok_altdb, op_altdb)
    ∷ (tok_altusr, op_altusr)
    ∷ (tok_and, op_and)
    ∷ (tok_cmpeq, op_cmpeq)
    ∷ (tok_cmpge, op_cmpge)
    ∷ (tok_cmpgt, op_cmpgt)
    ∷ (tok_cmple, op_cmple)
    ∷ (tok_cmplt, op_cmplt)
    ∷ (tok_cmpne, op_cmpne)
    ∷ (tok_crjoin, op_crjoin)
    ∷ (tok_crtdb, op_crtdb)
    ∷ (tok_crttbl, op_crttbl)
    ∷ (tok_crtusr, op_crtusr)
    ∷ (tok_delete, op_delete)
    ∷ (tok_describe, op_describe)
    ∷ (tok_div, op_div)
    ∷ (tok_dropclmn, op_dropclmn)
    ∷ (tok_dropdb, op_dropdb)
    ∷ (tok_dropfgnkey, op_dropfgnkey)
    ∷ (tok_dropndx, op_dropndx)
    ∷ (tok_droptbl, op_droptbl)
    ∷ (tok_dropusr, op_dropusr)
    ∷ (tok_grant, op_grant)
    ∷ (tok_injoin, op_injoin)
    ∷ (tok_insert, op_insert)
    ∷ (tok_loaddata, op_loaddata)
    ∷ (tok_ltjoin, op_ltjoin)
    ∷ (tok_mkassign, op_mkassign)
    ∷ (tok_mkastexpr, op_mkastexpr)
    ∷ (tok_mkclmndef, op_mkclmndef)
    ∷ (tok_mkclmnexpr, op_mkclmnexpr)
    ∷ (tok_mkexpr, op_mkexpr)
    ∷ (tok_mkexprhdr, op_mkexprhdr)
    ∷ (tok_mkexprlst, op_mkexprlst)
    ∷ (tok_mkfgnkey, op_mkfgnkey)
    ∷ (tok_mkprikey, op_mkprikey)
    ∷ (tok_mkunikey, op_mkunikey)
    ∷ (tok_mkusr, op_mkusr)
    ∷ (tok_mkwrksch, op_mkwrksch)
    ∷ (tok_mul, op_mul)
    ∷ (tok_negate, op_negate)
    ∷ (tok_not, op_not)
    ∷ (tok_on, op_on)
    ∷ (tok_opntbl, op_opntbl)
    ∷ (tok_or, op_or)
    ∷ (tok_orderby, op_orderby)
    ∷ (tok_revoke, op_revoke)
    ∷ (tok_rtjoin, op_rtjoin)
    ∷ (tok_select, op_select)
    ∷ (tok_setoutf, op_setoutf)
    ∷ (tok_showdbs, op_showdbs)
    ∷ (tok_showtbls, op_showtbls)
    ∷ (tok_slcktbl, op_slcktbl)
    ∷ (tok_sub, op_sub)
    ∷ (tok_ulcktbl, op_ulcktbl)
    ∷ (tok_update, op_update)
    ∷ (tok_use, op_use)
    ∷ (tok_using, op_using)
    ∷ (tok_where, op_where)
    ∷ []
