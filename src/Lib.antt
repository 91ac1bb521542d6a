-- ===== src/Lib.antt =====
-- A verification library for NAPASTAK, a data platform in C.
--
-- The storage layer keeps tables as batches of columns. A batch is compressed column by column
-- before it is written (lib/storage/compress.c), and a client groups its writes in a transaction
-- that buffers copies of batches until it is committed (lib/storage/txn.c); an index finds the
-- offsets of the rows with a key (lib/index/btree.c). Files that a connector
-- reads are turned into UTF-8 first (lib/core/textenc.c). A request is let through by its client's
-- claims (lib/auth), which a JWT carries in base64url; the gateway (src/gateway/api.c) asks for the
-- condition on the rows that a client may see, and orders the steps of a pipeline before it runs
-- them. A step reads its source through a session that it takes from a pool
-- (lib/connector/conn_pool.c), and the values of a query's parameters are put in place before it is
-- read (lib/sql_template, lib/sql_parser). The nodes of a cluster exchange messages (lib/cluster/proto.c).
--
-- Base              what the parts share: tests on numbers, lists over the native numbers, equality
--                   as an interface.
-- Storage.Batch     the types of lib/storage/storage.h (ColType, ColDef, ColBatch), the null bitmap
--                   of lib/storage/compress.c and `colbatch_copy` of lib/storage/txn.c.
-- Storage.Compress  lib/storage/compress.c: Rle, Dict and Delta for the encodings, Sort for the
--                   insertion sort that two functions repeat, Choose for `compress_choose_encoding`,
--                   Column for `compress_col`, `decompress_col`, `compress_batch` and
--                   `decompress_batch`, Serial for the byte format.
-- Storage.Txn       lib/storage/txn.c: one function for each of the file's, on the pool of slots.
-- Auth.Rbac         lib/auth/rbac.c: `rbac_check` and `rbac_row_filter`.
-- Auth.Base64       the base64url codec of lib/auth/auth.c.
-- Gateway.Order     `pipeline_topo_order` of src/gateway/api.c.
-- Core.TextEnc      lib/core/textenc.c: detection, validation and conversion.
-- Core.Arena        lib/core/arena.c: blocks, allocation, marks.
-- Index.Btree       lib/index/btree.c: insertion with splits, lookup and range, a page as a value;
--                   Halves has the split of a leaf, Leaf the tree with one leaf.
-- Connector.Pool    lib/connector/conn_pool.c: the pool of sessions, with Connector.Slot for a slot; World
--                   has the threads as steps.
-- Sql               the lexer of lib/sql_parser/sql.c with its keywords, and the templates of
--                   lib/sql_template/sql_template.c.
-- Cluster.Proto     lib/cluster/proto.c: sending and receiving a message.
--
-- Representation. An `int64_t` or a `double` is its bit pattern, a natural number below 2 ^ 64; the
-- signed order and the sign extension of an `int32_t` are written out. A `char *` is an optional
-- text in Storage, and the list of its bytes in Auth, Core and Cluster. An array is a list; a read
-- past its end gives a default. What an arena or `malloc` allocates is a value, so allocation never
-- fails. `none` stands for what C leaves open: runs that are written past their arrays, a read past
-- the end of a buffer, a cursor that is moved by a product of `int`s that overflows.
--
-- Fuel. The binary search of the integer dictionary runs on the size of the dictionary, which its
-- interval never exceeds. The main loop of `pipeline_topo_order` runs as many rounds as there are
-- steps, as in the source. `lex_next` runs on the number of comments that it may pass over, and
-- `substitute_from` on the number of bytes and placeholders; the length of the text is enough for
-- both. The B-tree runs on the number of levels and of leaves to pass, and a descent that is
-- deeper gives no result. All else is recursion on a list.
--
-- Concurrency. Every function of lib/storage/txn.c holds the mutex throughout, but for
-- `txn_commit`, which is two critical sections: `commit_start` and `commit_finish`. A step is one
-- critical section; `commit` is the two with nothing between. In lib/connector/conn_pool.c a thread
-- releases the mutex while it opens or pings a session, so these are two steps each.
--
-- Arguments of the model. The callbacks of a commit change a state of any type. The clock's answer
-- is a time. SQLite's answer to the query of a role and `fnmatch` are functions. What a socket does
-- is a list of answers to `read` and `write`. `strlen` measures a text for the size of a batch;
-- for the byte format a text has its bytes, and the bytes give the text.
--
-- Not modelled: memory that is freed, logging, the text of error messages, and the other parts of the
-- program.
pub mod Auth
pub mod Base
pub mod Cluster
pub mod Connector
pub mod Core
pub mod Gateway
pub mod Index
pub mod Sql
pub mod Storage
