-- ===== src/Lib.antt =====
-- cs165db: a column store in C. A server accepts connections and puts their sockets into a queue
-- (server.c, threadpool.c), from which the threads of a pool take them (worker.c) and answer commands
-- on columns. A column is a file of `int`s behind a header (helper_file_open.c), unsorted, kept in
-- order, or with a B+ tree in a second file (bptree.c). Selects give bit vectors (bit_vector.c) or
-- lists of row numbers (list.c).
--
-- The files:
-- - Prelude, Word, Run: the shared lists and tests, `uint32_t` and `int` as natural numbers below
--   2 ^ 32 with the wrap-around written out, and the results of a computation: done, a fault (undefined
--   behaviour), an abort (`exit` or a failed `assert`), or spin (fuel used up).
-- - Bits: the binary digits of words, for the masks of bit_vector.c.
-- - Search: helper_math.c and helper_file_read.c. Spec says what the searches are for, and UpperArray,
--   UpperFile and LowerFile are about one search each.
-- - BitVector: bit_vector.c. View reads the words as bits; Mark, Count, All and Range are about the
--   operations.
-- - DynArray: list.c, with the allocation as a list of cells.
-- - ThreadPool: threadpool.c, and in Steps the turns of server.c and worker.c.
-- - Column: helper_insert.c, helper_updates.c and the files that helper_file_open.c makes. The rows of a
--   column are the first `size` values of its file; what a delete leaves behind them is modelled too.
-- - BpTree: bptree.c, with Find for the search, Insert for the insert and Bulk for bulk_load.
-- - Insert: insert_helper of helper_insert.c over the three storage types.
-- - Select: the selects of helper_variable.c and the fetches of helper_fetch_command.c. Unsorted and Sorted
--   are about the selects, Fetch and Ids about the fetches, and Positions about the rows of an update.
-- - Join: helper_join.c, on tables as arrays of values and places. Rows says which pairs a join is to
--   find; Loop and Sorted are about two joins, and Hash and Tree hold the other two.
-- - Values: helper_math_command.c and helper_aggregation.c.
-- - Text: strings as lists of character codes, with what is used of the string functions of C.
-- - Parser: match_regex of parser.c, over any `regexec`.
-- - Socket: helper_socket.c, over any `send` and `recv`; Send and Receive are about the two directions.
-- - Variables: the variables of a session, helper_variable.c. A pointer into their array is the place
--   and the capacity that the array had, and is not followed once the array has grown.
-- - Store: the columns on disk by name, helper_init.c and helper_load.c.
-- - Session: `db_worker` of worker.c. Query, Compute and JoinCommand hold the commands, Pending the data
--   that a command has announced, with tuple_helper of helper_fetch_command.c, and Turn the loop.
--   Invariant and Reach are about its locals, Frame about messages, Failures, Sums and Names about
--   what goes wrong.
-- - Client: client_helper.c and client.c. Command holds the load and the sending of names, Loop the
--   dispatch of a line and the answers; Lines is about get_int_line, Rows about what is printed of a tuple,
--   Answers about a reply of worker.c at the client, and Tuples about a whole tuple.
-- - Tests: the theorems at concrete inputs.
--
-- A theorem `Returns r P` says that the computation `r` ends normally with a result that satisfies `P`;
-- a fault, an abort or spent fuel does not.
--
-- Fuel: the loops of the searches halve an interval of `size` places and get `size + 1` turns. The way
-- down a B+ tree gets a number of turns above its height, and the scan one for each leaf. The count of
-- bits of hashjoin gets 33 turns, one more than a `uint32_t` has bits, and a bucket one turn more than
-- the table has rows.
--
-- The loops of helper_socket.c get a turn for each byte. A session takes bounds for the ways in a tree and
-- for the sorted join from outside, as it takes `regexec`, `send` and `recv`.
--
-- Not modelled: memory allocation, which succeeds, and the calls of the C library on files, which
-- succeed except where a read finds too little; the wrap-around of the sizes in bytes of list.c, whose
-- elements are counted; printing; regcomp, and regexec beyond its result; the call of connect, getline and fopen in the client,
-- whose results are given; what the bytes of a column read as the nodes of a tree,
-- or the other way round, where the names of two files collide; a join whose two results have one name; files that other workers change
-- while a command runs. `qsort` is an insertion sort with the comparison of the program, and leaves equal
-- rows in one of the orders that C allows. The build is the one of
-- the Makefile's `debug`, with DEBUG and KILLONERR: `dbg_assert` tests, and `log_err` ends the process.
pub mod BitVector
pub mod Bits
pub mod BpTree
pub mod Client
pub mod Column
pub mod DynArray
pub mod Insert
pub mod Join
pub mod Parser
pub mod Prelude
pub mod Run
pub mod Search
pub mod Select
pub mod Session
pub mod Socket
pub mod Store
pub mod Tests
pub mod Text
pub mod ThreadPool
pub mod Values
pub mod Variables
pub mod Word
