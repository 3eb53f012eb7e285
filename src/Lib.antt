-- ===== src/Lib.antt =====
-- Verification of the relational engine: the storage layer, the query planner and the operators.
--
-- A statement's text becomes tokens (Lexer) and these a syntax tree (Parser, Ast). It is checked
-- against the catalog's schemas (Schema, Catalog, Semantic), and a SELECT becomes a logical plan
-- (LogicalPlan), then a physical plan of operators (Planner), whose rows are pulled one by one
-- (Executor) and whose conditions are evaluated on each row (ExecRow, ExprEval). Rows are stored
-- as fixed-width blobs (RowCodec), the values of a B+tree (BTree) whose nodes are pages (Page) of
-- the data file (Disk), held in the frames of a pool (BufferPool). Every change of a page goes to
-- the write-ahead log first (Wal); at the start recovery replays the log onto the data file
-- (Recovery).
--
--   Lexer        include/token.h, src/lexer.cpp
--   Parser       include/parser.h, src/parser.cpp
--   Ast          include/ast.h
--   Schema       include/value.h, include/schema.h
--   RowCodec     include/row_codec.h, src/row_codec.cpp; Words has the little-endian integers
--   Page         include/page.h, include/checksum.h
--   Disk         include/disk_manager.h, src/disk_manager.cpp
--   Wal          include/wal.h, src/wal.cpp
--   Recovery     src/recovery.cpp
--   Catalog      include/catalog.h, src/catalog.cpp: the table list and the checks of CREATE TABLE
--   Semantic     src/semantic.cpp
--   ExecRow      include/exec_row.h, src/exec_row.cpp
--   ExprEval     include/expr_eval.h, src/expr_eval.cpp
--   LogicalPlan  include/logical_plan.h, src/logical_plan.cpp
--   Planner      src/physical_plan.cpp, BuildPhysicalPlan
--   Executor     src/physical_plan.cpp, the operators
--   Engine       include/engine.h, src/engine.cpp: the loop of ExecuteSelect that makes the result
--   BTree        include/btree.h, include/btree_node.h, src/btree.cpp
--   BufferPool   include/buffer_pool.h, src/buffer_pool.cpp
--   Errors       the exceptions of all of these, as values of Result
--   Prelude      the shared helpers on lists, numbers and byte strings
--
-- The files are bytes. What the operating system does is an argument: how many bytes a write got
-- out and whether fsync succeeded. A function that changes an object returns the new one. The
-- exceptions keep their kind, not their texts. A 32-bit or 64-bit number keeps its wrap-around;
-- the checksums are computed as the code does. The order in which a hash map is visited is a
-- parameter with the hypothesis that every entry is visited once. What the hash map of a join has
-- under a key is a function, `equal_range`. The row counts that the planner asks the catalog for
-- are a function of the table's name, which throws where the catalog has no such table.
--
-- Loops over lists are recursive on the list. The scan of the log is bounded by the number of
-- records that fit in the file. The lexer's loop takes one round more than the text has
-- characters. The parser's loops and its nesting are bounded by the number of tokens. A call of an
-- operator's Next takes a bound on its rounds, and so does a loop that reads an operator to its
-- end; the theorems say which bound is enough.
--
-- The pool keeps its frames, page table, free list and LRU list as lists; an exception is in a
-- call's answer, beside the pool that it leaves. The tree takes its pages from an abstract pool: a
-- map from page ids to nodes, with a bound on the pages that are pinned at once. A node page is
-- its cells, without their byte layout, but the bytes that they take are counted: no node outgrows
-- its page. The metadata page is one of these pages, with the root that it records; a tree that
-- the catalog manages keeps what its callback was told last. Page ids are of 32 bits and wrap; the
-- theorems on Insert ask that the ids below INVALID_PAGE_ID do not run out on the way. The
-- descents and the walk along the leaves are on fuel; the theorems say that more than the height,
-- and than the number of leaves, is enough.
--
-- Not modelled: src/database.cpp, the pages of src/catalog.cpp and the rest of src/engine.cpp: a
-- table's rows are given. The operators' Close and the destructors only release what they hold.
pub mod Prelude
pub mod Engine
pub mod Errors
pub mod Ast
pub mod Schema
pub mod Words
pub mod RowCodec
pub mod Page
pub mod Disk
pub mod Wal
pub mod Recovery
pub mod ExecRow
pub mod ExprEval
pub mod LogicalPlan
pub mod Planner
pub mod Executor
pub mod Lexer
pub mod Parser
pub mod BTree
pub mod BufferPool
pub mod Catalog
pub mod Semantic
mod Tests
