-- ===== src/Lib.antt =====
-- A relational database server in C++: SQL text is split into tokens and translated to the text of
-- a program for a stack machine (tran), which is turned into bytes (comp) and run by that machine
-- (vm) on tables whose rows lie in B-tree indexes (btree, bcalc), whose nodes are blocks that are
-- read and written through byte buffers (buffer) and kept in a cache (cache). This development
-- models the translator, the assembler, the locks, the byte buffer, the nodes of the B-tree, the
-- block cache, and the part of the machine that builds, folds and evaluates expressions.
--
-- Common: what the parts share. Common.Tests has Boolean tests on the native numbers, Common.Lists
-- lists measured by them, Common.Bits lemmas on bits and bytes, Common.Int signed integers and
-- their two's complement patterns, Common.Exec the methods that change an object and may throw. A
-- throw keeps what was written before it. Undefined behaviour is an error of its own, never a
-- value.
--
-- Buffer: buffer/buffer.h and buffer/buffer.cpp. The record Buffer has the size, the bound, the
-- index and the storage. bound(n) is set_bound, index(n) is set_index, the overloads of get and put
-- are get, get_at, get_buffer, get_buffer_at, get_buffer_sized and likewise for put. Buffer.Words
-- has the words of two, four and eight bytes, for a little-endian processor; Buffer.Copy the copies
-- between two buffers that own different storage. Buffer.Access, Buffer.Bytes, Buffer.Text,
-- Buffer.WordAccess, Buffer.RoundTrip, Buffer.WordTrip, Buffer.Copy.Moves and Buffer.Valid are the
-- proofs. The loop that copies all that remains has the number of those bytes as its fuel, which is
-- enough because each round moves the index of the source on by one.
--
-- Tree: btree/btree.h, btree/btree.cpp, btree/const.h and bcalc/bcalc.cpp. Tree.Node has one node
-- as its slots: find_key and find, get_element and put_element, remove_from_leaf, the leaf branch
-- of insert_non_full as insert_into_leaf, and the loops over slots that the methods share.
-- Tree.Family has the methods on a node and two of its children: split_child, borrow_from_prev,
-- borrow_from_next, merge and fill. The nodes of a family lie in different blocks. Tree.Descend has
-- the choice of a child in the inner branch of insert_non_full, and Tree.Bounds the positions of
-- slots in a block, with their proofs. Tree.Key has the order of keys. Tree.Search, Tree.Find,
-- Tree.Slots, Tree.Copies, Tree.Room, Tree.Leaf, Tree.Split, Tree.Merge, Tree.Borrow and
-- Tree.Refill are the proofs. The binary search has one round more of fuel than there are keys, and
-- the window it searches shrinks in each.
--
-- Vm: vm/vm.h and vm/vm.cpp. Vm.Item has class item as a tree, the null pointer included, and the
-- record Numbers: single-precision arithmetic and the text forms of numbers, which the processor
-- and the C++ library give. Vm.Stack has add to logic_not, negate and where on the stack, Vm.Eval
-- exec_add to exec_xor, Vm.Condition exec_condition, exec_assignment and exec_where, Vm.Compact
-- compact_add to compact_xor, Vm.Fold compact_condition. Vm.Truth, Vm.Preserve, Vm.Operands,
-- Vm.Agree, Vm.Build and Vm.Update are the proofs.
--
-- Tran: tran/tran.h, tran/tran.cpp and token/token.h, one function for each method of the classes
-- lexer and parser, with its name. Tran.Symbol has the types of tokens and the table of reserved
-- words, Tran.Lexer the lexer, Tran.Parser the state of the parser, its tokens ahead, its operands
-- and the speculation, Tran.Grammar the expressions, Tran.Tables, Tran.Clauses, Tran.Header,
-- Tran.Statements, Tran.Definitions, Tran.Alter and Tran.Privileges the productions of the
-- statements, Tran.Dump the text that dump prints. match(int32_t) is match_type, data is data_of
-- and data_text, m_data is operands, and a line of code is a constructor of Line. Every loop of the
-- lexer has one round more of fuel than there are characters left, and every loop and recursion of
-- the parser a bound that grows with the characters of the input, since a round takes a token; an
-- expression of n tokens needs less than 8 n + 8. Tran.Input, Tran.Scan, Tran.Lexing, Tran.Stream
-- and Tran.Words are the proofs on the lexer; Tran.Window, Tran.Ahead, Tran.Speculate and
-- Tran.Operands those on the state of the parser; Tran.Expression, Tran.Levels, Tran.Primaries,
-- Tran.Names, Tran.Translate, Tran.FromText and Tran.OnCode those on expressions, with a grammar of
-- its own in Tran.Expression; Tran.Columns is on lists of columns.
--
-- Comp: comp/comp.h, comp/comp.cpp and inc/opcode.h. Comp.Symbol has the types of tokens and the
-- symbol table, Comp.Opcode the opcodes, Comp.Lexer the class comp_lexer, Comp.Assembler the class
-- comp_parser, with data as data_items. Every loop of the lexer has one round more of fuel than
-- there are characters, the recursions of data and text two more: each takes a token of at least
-- one character, or fails at a minus sign, which gives a token without characters. Comp.Ahead,
-- Comp.Input, Comp.Writes, Comp.Program and Comp.Segments are the proofs; Comp.Program describes
-- items and instructions. Sql: sql/sql.h and sql/sql.cpp, compile_stmt, which runs the translator
-- and the assembler one after the other; Sql.Bytes is a proof.
--
-- Cache: the classes block_cache and file_cache of cache/cache.h and cache/cache.cpp. Cache has
-- drop_block, flush_block, flush_cache, get_block, load_block, new_block, read_block and
-- write_block; Device stands for the file. The loops of read_block and write_block have one round
-- more of fuel than the block has bytes, enough where every call moves a byte. Cache.Pages,
-- Cache.Flush, Cache.Tracked, Cache.Loads, Cache.Calls and Cache.Failures are the proofs.
-- Cache.Jobs has the job queue of the file cache, add_job, kill and do_work, with their proofs;
-- Files stands for what the look-up of a block cache and the saving of a schema answer.
--
-- Lock: lock/lock.h and lock/lock.cpp. Guards of shared_lock and unique_lock with their
-- constructors, destructors and moves, and the record RwLock for the locks of pthread, with what
-- POSIX says of them. A call for a lock gives it, blocks, or is refused by an error code, which the
-- constructors ignore. Lock.Guards and Lock.Exclusive are the proofs.
--
-- Not modelled: the paths of nodes from the root to a leaf, iteration, the blocks of rows, the
-- statements and joins of the machine, the map of the file cache and schemas; files, sockets,
-- processes and cryptography, which are input and output; and the build.
pub mod Buffer
pub mod Cache
pub mod Common
pub mod Comp
pub mod Lock
pub mod Sql
pub mod Tran
pub mod Tree
pub mod Vm
