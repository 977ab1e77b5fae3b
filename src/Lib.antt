-- ===== src/Lib.antt =====
-- Verification of rediskrazy, a small Redis-like server in C with an SQL front end.
--
-- The server (src_c/backend/server.c) reads requests with the RESP parser (resp.c), keeps its keys in hash
-- tables (dict.c), its sorted sets in a hash table and an AVL tree (zset.c, avl.c), and the times at which
-- keys expire also in a heap (expheap.c); it has a memory pool (mempool.c) and a buffered writer of its log
-- (aofbuf.c). The query processor (src_c/query_processor) turns SQL text into tokens and a query, translates the
-- query to a command with the databases and tables of the schema manager, and sends the command to the server.
--
-- Which file models which part (the paths are below src_c/):
--   Base                shared names and lemmas: bytes, lists, numbers, calls that may fail
--   Double              the order of IEEE doubles, as the language defines it, on their 64 bits
--   Sds                 backend/sds.h, sds.c: strings as their bytes, sdscmp as an order, sdssplitargs; the
--                       header with length and room, and how the buffer grows (Sds/Header)
--   Avl                 backend/avl.h, avl.c: avl_insert, avl_delete, avl_traverse, avl_get_by_rank
--   Dict                backend/dict.h, dict.c: dict_put, dict_get, dict_delete, dict_set_expiry,
--                       dict_get_expiry, dict_clear, dict_active_expire, and the incremental rehashing of every call
--   Aofbuf              backend/aofbuf.h, aofbuf.c
--   Resp                backend/resp.h, resp.c: resp_parse_array
--   Mempool             backend/mempool.h, mempool.c
--   Expheap             backend/expheap.h, expheap.c
--   Tpool               backend/tpool.h, tpool.c, as steps of the threads in any order
--   Zset                backend/zset.h, zset.c, over Dict and Avl
--   Schema              query_processor/schema_manager.h, schema_manager.c
--   Lexer               query_processor/sql_lexer.h, sql_lexer.c: lexer_next
--   Parser              query_processor/sql_parser_internal.c: parse_query
--   Translator          query_processor/sql_translator.c: translate_query, and process_sql of sql_parser.c
--   QueryServer         query_processor/qp_server.c: the request for a command, the
--                       reply of the store, the answer in JSON
--   Server              backend/server.c: handle_command, readQueryFromClient, load_aof,
--                       rewrite_aof, serverCron (Server/Cron), and main with its files (Server/Main)
--   Rdb                 backend/rdb.h, rdb.c: rdb_save, rdb_load
-- Each function of the source is a definition of its name; a part of a large function that has a name of
-- its own here says which part it is. A theorem's file stands below its component's.
--
-- Conventions. An object of the source that a call changes is a value that the call takes and returns. A
-- call that can go wrong (a read through NULL or outside of an array, an overflow of int, a loop whose
-- fuel runs out) has a result of type Option, where none is that case; the type family Ends says that a
-- call does not end there. A size_t wraps modulo 2 ^ 64, and the clock is an argument, now.
--
-- Fuel. The loop of dict_expand doubles at most 64 times and the search for a bucket visits at most the
-- size of the table; the proofs of Dict/Growth and Dict/Rehash show both to be enough, for fewer than
-- 2 ^ 61 entries. A loop of the parser has two rounds more than there are bytes left, and every round
-- takes a token (Parser/Measure). load_aof and rdb_load have one round more than the file has bytes
-- (Server/Durable, Rdb/Strings). Sifting up has one round more than the index, and sifting down one more
-- than there are entries (Expheap/Order); the loop of serverCron has one more than the heap has entries
-- (Server/Expiring).
--
-- Not modelled: allocation failure, failure of a file operation, and freeing; how C reads and prints a
-- double, which is a parameter of the server's dispatch; what a task of BG_TASK does, which is to sleep and to print;
-- the event loop (a copy of the one of Redis: the requests that it reads are an argument, and one time stands for
-- a whole run of main), with the timer that main registers for serverCron; sockets; and the command line, which
-- repeats the query server's reading of replies.
pub mod Base
pub mod Double
pub mod Sds
pub mod Avl
pub mod Dict
pub mod Schema
pub mod Aofbuf
pub mod Resp
pub mod Lexer
pub mod Parser
pub mod Translator
pub mod QueryServer
pub mod Mempool
pub mod Zset
pub mod Expheap
pub mod Tpool
pub mod Server
pub mod Rdb
