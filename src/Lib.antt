-- ===== src/Lib.antt =====
-- A model of simpledbm (sdbm_tree): a dbm whose keys form a binary tree inside one resource of
-- bytes, with values in chains of chunks and a list of free chunks.
--
-- The state is `Types.Td`, for struct td: the header, the count of locks, the callbacks that a user
-- may set, and the resource as a byte at each offset. An operation is a command of Machine: it takes
-- the state and gives a result, or a TDERR_* value with what was changed before it (as CHECK does),
-- or it has used up its fuel. An `unsigned` is a number below 2 ^ 32, with its wrap-around written
-- out. The resource is read and written by the callbacks of td_init_mem.c. A structure lies in it as
-- memcpy copies it: its fields in their order, an `unsigned` as four bytes, the lowest first.
--
-- The parts, from the bottom up:
--   Common     numbers, words, lists and Boolean tests
--   Types      td_types.h, and the constants of td.h and td_private.h
--   Machine    commands, CHECK and CHECK2
--   Memory     the two memcpy calls of td_init_mem.c
--   Io         td_read.c, td_write.c and td_{read,write}_{uint,header,chunkhead,keyhead}.c. Its
--              children: Bounds, Codec and Frame, and Stored on td_write_header and td_read_header
--   Compare    td_compare.c
--   Checksum   td_checksum_create.c, td_checksum_verify.c
--   Sort       td_qsort.c
--   Space      td_claim.c, td_extend.c, td_yield.c, td_yield_all.c, td_yield_set_zero.c, td_align. Its
--              children: Align; Chain on giving back; Free, Relink, Fit, Scan, Hold, Cut, Grant and
--              Return and Release on the list of free chunks, td_claim and td_yield
--   Tdt        tdt_t and td_read_keydata.c; its child Extra is on tdt_init.c, tdt_string.c and
--              tdt_extra.c, with Contents and Shifted on what the containers hold
--   Value      td_store_value.c, td_store_valuechunk.c, td_read_value.c, td_unlink_value.c.
--              Its children: Chunks, Read and Store on chains of chunks
--   Search     td_iterate.c, td_iterate_*.c, td_path_next.c, td_path_previous.c
--   Balance    td_rotate_left.c, td_rotate_right.c, td_rebalance_node.c, td_rebalance.c
--   Defrag     td_defrag.c
--   Update     td_put_new.c, td_put_replace.c, td_put_key.c, td_put_locked_key.c, td_put_keys.c,
--              td_del_pathhead.c, td_del.c. Its children: Room, New, Link, Settle, Insert, Put,
--              Refuse, Lookup, Revalue and Overwrite on td_put_key; Hang, Unlink, Give and Delete on
--              td_del_pathhead; Seek and Remove on td_del
--   Lock       td_lock.c, td_unlock.c and the bracket of the public functions
--   Db         td_get.c, td_put.c, td_put_vec.c, td_put_keys.c, td_del.c, td_rmw.c, td_pop.c,
--              td_push.c, td_wipe.c. Its child Increase is on td_increase_key
--   Cursor     tdc_init.c, tdc_first.c, tdc_last.c, tdc_get.c, tdc_get_locked.c, tdc_nxt.c, tdc_prv.c,
--              tdc_mov.c, tdc_del.c, tdc_rpl.c. Its children: Read and Walk on tdc_nxt
--   Verify     td_verify.c
--   Stream     td_store_value_stream.c, td_put_stream.c, td_put_stream_locked_key.c,
--              td_read_value_stream.c, td_get_stream.c, tdc_get_stream.c. Its children: Empty and
--              Written
--   Txn        tdx_put.c, tdx_del.c, tdx_get.c, tdx_commit.c
--   Init       td_init.c, td_init2.c, td_init_mem.c. Its child Fresh is on a new btree
--   Backend    td_init_fd.c, td_init_chunk.c, td_init_malloc.c, td_init_mmap.c. Its children: Patch,
--              Serve and Transfer on the transfers of td_init_fd.c
--   Tree       the abstract tree that a resource holds. Its children: Zip, Next and Previous on the
--              neighbours of a node; Order, Find and Search on td_iterate; Separate, Child and Keep
--              on writes to nodes; Turn, Rotate, Entries, Spares, Level, Rebalance and Whole on
--              balancing; Plug on trees with a hole
--   Tests      runs at concrete inputs
-- A definition has the name of the C function that it translates; the loops and the blocks of a
-- function that have a name of their own say in a comment what they are.
--
-- A struct path is its head and the elements below it, the nearest first. The descents of Search
-- have TD_MAXDEPTH as fuel, at which the source returns an error, so it is never used up. The loop
-- back over equal keys, the walks over chains of chunks and td_rebalance_node have the size of the
-- resource as fuel; a chain of nodes or chunks that do not overlap is shorter. The logarithm has a
-- round for each bit of a word, td_qsort the length of its list, and a transfer of a file the number
-- of its bytes.
--
-- The comparison, the lock, the extension and the allocation are callbacks of the user: fields of the
-- state that an operation applies. What read(2) gives on a stream is a list, write(2) a function; what Backend
-- calls on a file is a record of functions, with their documented behaviour as hypotheses. The
-- loop over a stream has a fuel of its own, since the source may never leave it; the replay of a
-- transaction has the size of its resource. Not modelled: the files of a transaction (tdx_init.c,
-- tdx_rollback.c), a cursor after an error that leaves its path in part, tdt_printf, td_init_fd,
-- td_init_chunk and td_open, which install the functions of a resource, the archiver (td_ar_*.c),
-- printing and profiling, and the command line (mains.c).
pub mod Common
pub mod Txn
pub mod Types
pub mod Machine
pub mod Memory
pub mod Io
pub mod Compare
pub mod Checksum
pub mod Sort
pub mod Space
pub mod Stream
pub mod Tdt
pub mod Value
pub mod Search
pub mod Backend
pub mod Balance
pub mod Defrag
pub mod Update
pub mod Lock
pub mod Db
pub mod Cursor
pub mod Verify
pub mod Init
pub mod Tree
pub mod Tests
