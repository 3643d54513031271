-- ===== src/Lib.antt =====
-- EMI, the embedded message interface: a message broker (`emi_core`) and the client library.
-- Processes register for message numbers, and senders reach them through the broker, which keeps the
-- messages in a shared memory.
--
-- Prelude: shared names, Boolean tests on numbers, powers of two, the C `int` values (Prelude.Int).
-- Message: `struct emi_msg` of include/emi_msg.h, its flags and offsets, and its members as bytes,
--   the lowest first. Offsets are 64-bit numbers in two's complement.
-- Buddy: the buddy tree of src/emi_shbuf.c. `alloc_block` is `__alloc_emi_buf`, `free_block` is
--   `__free_emi_buf`; the other functions keep their names. The vector is a function from the index,
--   and a step above its root is a fault. Each loop recurs on the rounds that its test leaves.
--   Buddy.Index and Buddy.Shape say what the entries mean, Buddy.Update and Buddy.Tie what the update
--   makes of that, Buddy.Get, Blocks, Mark, Alloc, Release, Init and Region go on from there.
--   Orders do not overflow an `int`: one update adds at most 1 to an order.
-- Shbuf: the allocator over that tree, src/emi_shbuf.c. What `emi_alloc` and `emi_free` do under
--   their lock is one step. `order_loop` has 31 rounds, as many as an `int` has digits. Of the shared
--   memory the model has the word before each allocation.
-- Shared: the broker's messages in that memory, src/emi_shbuf.c: `alloc_shared_msg`,
--   `realloc_shared_msg` and `free_shared_msg`. `sizeof(struct emi_msg)` is an argument. The message,
--   the data bytes and the words before the blocks are kept apart, not as one array of bytes.
-- Shmem: where the regions of the shared memory lie, include/emi_shmem.h.
-- Hlist: the hash chains of include/emi_hash.h, pointer by pointer; `hlist_unlink` is `__hlist_del`.
-- Hash: the message table, src/emi_hash.c, by which the broker finds the receivers of a message. A
--   walk along a chain has fuel, and more fuel than the chain has entries is enough.
-- Sock: the loops of src/emi_sock.c over partial reads and writes. The socket is an argument, and
--   what it documents is a record of hypotheses; more fuel than bytes is enough.
--   Sock.Message is `emi_msg_write`.
--   Sock.Ret is `emi_msg_read_ret`, with the blocks of Retdata, in memory that `malloc` gives.
-- Sockr: `emi_msg_read` of src/emi_sockr.c, into a message of Shared, and `emi_msg_write_ret`.
-- Retdata: the links between the blocks of return data, src/emi_sock.c and include/emi_msg.h. A
--   round of the loop reads at least 16 bytes off, so more fuel than bytes is enough.
-- Ring: the circular lists of include/list.h, pointer by pointer.
-- Pool: the thread pool of src/emi_thread.c, to which the broker submits each connection, over the
--   lists of Ring. What the broker and the threads do is a step relation. Pool.Worker is one thread
--   against submissions and its end, at the reads and writes of its members and its condition
--   variable, which may wake it up spuriously; Pool.Order and Pool.Wakeup are about it. Pool.Create is
--   the making of a pool where parts may fail, and its destruction: which threads end once they are
--   told to is an argument, and the loop has more fuel than threads.
-- Handler: a receiving process, src/emi_ifr.c: its list of functions, over Ring, the call for a
--   message (`func_sterotype_thread` is `__func_sterotype`), and the return data of a handler, over
--   Shbuf. `func_sterotype` submits to Pool. Handler.Init is `emi_init`.
-- Core: the broker's `emi_receive_operation`, src/emi_core.c, on the message table. What the
--   receivers do meanwhile, and whether they fail, is a list of rounds. Core.Registry is its
--   specification, on lists of registrations without pointers and without 32-bit counts.
-- Broker: a whole connection, `emi_receive_operation` of src/emi_core.c from the allocation of its
--   message over Shared, its reading and its answer over Sockr and Core to its release. What the
--   receivers make of the message is an argument. Broker.Start is `__emi_core`, and Broker.Main the
--   command line of src/main.c.
-- Client: the sender's half, src/emi_if.c: a message with its address, and sending it over Sock; and
--   the registration `__emi_msg_register` of src/emi_ifr.c, into the list of Handler.
-- Sar: the command line tool of src/emi_sar.c: its arguments, and the sending over Client.
-- Config: the parsing of the configuration file's text, src/emi_config.c. A round reads at least one
--   character off, and a line is one round where it has no other settings in it. Config.File is the
--   search for the file and its mapping.
-- Segment: the shared memory's segment, src/emi_shmem.c, in its POSIX and its file variant, and
--   how the broker makes it, `int_global_shm_space` of src/emi_core.c.
--
-- Not modelled: sockets, threads, signals and files, which are the operating system's, and the
-- functions that only call it (`emi_open`, `emi_bind`, `emi_listen`, the System V variant of the
-- segment); the debug output and what the tools print; the bindings.
pub mod Prelude
pub mod Message
pub mod Buddy
pub mod Shbuf
pub mod Hlist
pub mod Hash
pub mod Sock
pub mod Sockr
pub mod Retdata
pub mod Core
pub mod Ring
pub mod Pool
pub mod Shmem
pub mod Shared
pub mod Handler
pub mod Config
pub mod Client
pub mod Sar
pub mod Segment
pub mod Broker
