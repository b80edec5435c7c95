-- ===== src/Lib.antt =====
-- A Redis server in C: a RESP protocol parser (src/resp.c), a command dispatcher (src/cmd.c), a
-- key-value store (src/store.c), snapshots (src/persist.c) and two servers (src/server.c and
-- src/server_threaded.c). Bytes from a socket are parsed into commands, the dispatcher calls the
-- store and appends a reply to a buffer, and the store is written to and read from a file.
-- This library models all of them.
--
-- Prelude holds the shared names: tests and lists over the native numbers (Prelude/Tests,
-- Prelude/Lists), signed integers with the range of int64_t (Prelude/Int), masks (Prelude/Bits),
-- byte strings and memcmp (Prelude/ByteStrings).
--
-- Store is src/store.c. Store/Hash has fnv1a_hash and next_pow2; Store/Number has parse_strict_ll
-- and the "%lld" of snprintf; Store/Chain has store_entry_t and the work on one chain; Store/Table
-- has store_table_t, table_init and find_in_table; Store/State has struct store, find_slot_either,
-- locate_live, rehash_step and maybe_start_rehash; Store/Ops has the public store_* functions.
-- A pointer-to-pointer slot is the table, the bucket and the place in its chain, with the entry that
-- it points to. Each operation returns the new store beside its result. rehash_idx is an option,
-- none for -1. The counters `used` are size_t: their arithmetic is written modulo 2 ^ 64, and the
-- invariant (Store/State/Inv) bounds their sum by 2 ^ 62, far more entries than memory holds.
-- The clock is a parameter: an operation takes the value of each call of now_ms that it makes.
-- Store/Spec is the contract of include/store.h, on a map from keys to entries with the number of
-- keys; Store/Ops/Reads, Writes and Incr prove it of each function, Store/Session of any sequence of
-- calls. The loop of next_pow2 has 64 rounds, one for each bit of size_t; the theorem about it shows
-- that it ends by its own test for every size that the store asks for.
--
-- Resp is src/resp.c. Resp/Parse has resp_parse and its helpers with the result as a value: a command
-- and the bytes consumed, incomplete, or an error message; the loop over the arguments is recursion on
-- their number, the tokenizer has as many rounds as the line has bytes. Resp/Reply has the reply
-- buffer, the bytes in use and the capacity, and the resp_reply_* functions; the loop that doubles
-- the capacity has 64 rounds, and Resp/Buffer shows that it ends by its own test. Resp/Grows compares
-- the result on a buffer with the result when more bytes have arrived.
--
-- Cmd is src/cmd.c. Cmd/State has the store with the two global variables, and what the system
-- answers during a command: the clock's values in the order of the calls, the status of persist_save
-- (src/persist.c) and whether fork succeeds. Cmd/Keyspace, Many and Admin have one function per
-- handler, on the argument list and the reply buffer; Cmd/Dispatch has COMMAND_TABLE and
-- cmd_dispatch. The handlers call the functions of Store/Ops, and Store/Number has the
-- parse_strict_ll that both files contain.
--
-- Cmd/Effect, Effects and DispatchEffect say what a command does to the store and replies whatever
-- the buffer holds; the calls of the store that it makes are those of Store/Session. Cmd/Promise and
-- Promised are the commands on the map of Store/Spec, each with its reply as a value and the bytes of
-- it; Wording compares arg_eq_ci and the rounding of TTL with the words of
-- the promises. Cmd/Fulfils is what it is to keep such a promise, and Loops, Keeps, Listing, Housekeeping and
-- Contract hold each handler and cmd_dispatch against it. The order in which KEYS lists the keys is
-- left open. Room and Roomy bound the keys that a command adds by the number of its arguments.
--
-- Growth is the loop by which every buffer of the program doubles its capacity, at most 64 times for
-- a size_t. Input is the input buffer that both servers have.
--
-- Persist is src/persist.c. Persist/Codec has the little-endian words and the checksum, Image the
-- snapshot that persist_save builds in memory, Load the loop of persist_load on the bytes of a file,
-- and File both functions with the calls of <stdio.h> as the fields of a record on a file system of any
-- type. The hypotheses Writes and Reads of Persist/Atomic are what the C library documents of these
-- calls; Persist/Memory is a file system for which they hold. Persist/Format is the file format of
-- include/persist.h. Sums of positions are modulo 2 ^ 64, and a read outside the file's buffer is a
-- result of its own, fault. Image and file are bounded by 2 ^ 63 bytes, the range of ftell.
-- Persist/Crash has the file system after each step of persist_save, and inside a step that writes.
--
-- Epoll is src/server.c. Epoll/Conn has conn_t and its input buffer, Process conn_process_input,
-- Output conn_flush_output and conn_service_output, Client handle_client_readable, Table the table of
-- connections, and Loop handle_listen_readable and the event loop of main. The results of read(),
-- write(), accept4() and epoll_wait() are the inputs, lists of results in the order of the calls with
-- EAGAIN behind them; write() takes as many bytes as there is room for. What the commands work on is a
-- World, with the answers of the clock to the commands to come. A connection has the events of the last epoll_ctl()
-- call for it, whether or not that call succeeds. conn_process_input has as many rounds
-- as the buffer has bytes, since a command consumes one at least. A client is followed across events
-- by Epoll/Settled and LoopInv, the store by Epoll/Reached. Epoll/History has one order of the commands
-- of all clients, and Talk, Turns, Spoken, Advance, Stream and Order find it in the work of the event loop;
-- Epoll/Promised and OnMap hold such an order against the commands on the map. Epoll/Main
-- has the arguments of main, with atoi as a parameter, and its calls of persist_load and persist_save; the end of the list of events
-- stands for the shutdown signal. Epoll/Life has main from the arguments to the exit status, with the
-- results of the calls that set up the sockets and the file system behind the loop, in which SAVE and
-- BGSAVE may have written, as inputs, and LifeLaws what a process that ends with status 0 has
-- done.
--
-- Threads is src/server_threaded.c. Threads/Queue has work_queue_t with what wq_push, wq_pop and
-- wq_shutdown do in one turn with the mutex, which is to wait on a condition variable or to be done;
-- Threads/Pool has the turns of the main thread and of the workers as a step relation, in any order,
-- spurious wake-ups included; workers are counted by what they do, since the code does not tell them
-- apart. Threads/Handle has write_all and handle_conn of one worker, with what the others do to the
-- store between two of its commands, Threads/Args the arguments of main. Threads/Agree and Stream
-- compare it with the server of src/server.c. Threads/Took, Ran and Interleaved find the order of all
-- commands in one handling; Threads/Workers has any number of workers, each with its own connection,
-- in turns that each hold at most one command, since a command runs under g_store_mu, Turned and
-- Linear find the order there, OnMap holds it against the commands on the map, and Alone and
-- OneWorker compare the turns with handle_conn.
--
-- Not modelled: the signals that the two main functions set up and the sockets of
-- src/server_threaded.c, which are I/O and no logic; the messages that the servers print;
-- freeing memory; failing allocations; a thread that blocks for ever in read(); and timestamps outside
-- int64_t, which are undefined behaviour in C: the sums in SET and EXPIRE wrap around, and of a command
-- whose time is out of range nothing is promised.
pub mod Prelude
pub mod Growth
pub mod Input
pub mod Store
pub mod Resp
pub mod Cmd
pub mod Persist
pub mod Epoll
pub mod Threads
