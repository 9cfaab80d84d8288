-- ===== src/Lib.antt =====
-- libccll is a C library of small services: an authenticated toy cipher (cipher), ini files (cfg), text
-- and allocation helpers (comm), an intrusive list (queue), events (evt), and timers, thread pools and
-- calls of the system (sys). This library models the services below; each file opens with what it is about.
--
-- - Klciph: cipher/klciph.c. `cl_klciph_enc` scatters a text of at most 120 bytes, its keys and a time
--   stamp over 256 bytes by linked places; `cl_klciph_dec` follows them. Klciph.antt holds the tables and
--   the state, Klciph/Enc.antt and Klciph/Dec.antt the two directions, the other files their proofs. The
--   random device is the list of bytes that it delivers. Bounds: `_get_begin_idx` reads 201 times,
--   `_get_data_idx` 221 times, and `_get_free_pos` looks at 256 places, so these loops recurse on the
--   rounds left.
-- - Txt: comm/txt.c. Strings are the bytes before the terminator.
-- - Ini: cfg/ini.c, on top of Txt. A line of the search may be of any length; the code's has 255 bytes at
--   most. The two loops run on fuel, one round more than there are bytes, and each round consumes a byte at
--   least. Loop.antt holds the search, Entry.antt the handling of a line, and Buffers.antt the writes to
--   the two fixed buffers.
-- - Queue: queue/inc/list.h, on a heap of links. Drain.antt is the walk that takes out every node, and
--   Typed.antt the walks over the structures that hold the nodes (`container_of` of comm/inc/def.h).
--   The loops run on fuel, and a well-formed list of n nodes needs n + 1 rounds.
--   The other parts use sequences for their lists, which Queue justifies.
-- - Timer: sys/timer.c. A client writes requests of 20 bytes to a socket (Timer/Message.antt), and one thread
--   changes the list of timers: `handle` is one event of `_timer_thread`, and `timer_thread` runs a sequence
--   of them. The answers of the kernel are an argument of each event. Timer/Socket.antt puts the clients, the
--   socket and the thread together, in any order of their steps.
-- - Event: evt/event.c. `cl_evt_pub` queues, one thread runs `evt_round` for each count of the semaphore,
--   and what a callback answers is an argument. Event/System.antt takes the publishers and the thread apart
--   into the steps between their locks and semaphore calls, and runs them in any order.
-- - Alloc: comm/alloc.c. The addresses that `malloc` returns are arguments. Alloc/View.antt compares the list
--   with a map, Alloc/Stat.antt is the text of `cl_alloc_get_stat`.
-- - ThrdPool: sys/thrdpool.c. Create.antt is about `cl_trpo_create`, Start.antt about its wait for the threads,
--   Post.antt about `cl_trpo_post`, Worker.antt about the rounds of a worker, Destroy.antt about
--   `cl_trpo_destroy` and the exit of a worker, Reach.antt about all of them in any order, Running.antt
--   about the threads of one pool in the steps between their locks and semaphore calls. `_cre_pol_id` tries
--   10000 numbers, and recurses on the rounds left.
-- - Ip, Mac: comm/ip.c and comm/mac.c, the checks of IPv4 and MAC addresses.
-- - Times: comm/times.c. What `mktime`, `localtime` and `strftime` answer is an argument.
-- - Convt: comm/convt.c. `unit_loop` runs four rounds at most, as the unit is 3 at most.
-- - Io: sys/io.c, `cl_mkdir_p`. What `mkdir` answers is an argument.
-- - Sh: sys/sh.c, `cl_sh_exec`. `popen` is an argument; the loop that reads the rest runs 10000 times at
--   most, as in the code.
-- - Mem: sys/mem.c. Mem/Keyed.antt is the table of the keys. What `fopen` and `sscanf` give is an argument.
--   The loop runs on fuel, one round more than the file has bytes, and each round consumes a byte at least.
-- - Rsa: cipher/rsa.c. OpenSSL is not part of the repository: what its calls answer is an argument, and the
--   model follows the objects that each function acquires and releases, in both versions of OpenSSL.
-- - Log: log/log.c, the rule by which messages pass, the header and the colours of a line, and the set-up.
-- - Main: main.c, `cl_init` and `cl_deinit` over the inits of Log, of Event (Event/Setup.antt) and of Timer
--   (Timer/Setup.antt).
-- - Base: shared names, lists over the native numbers, bits, and in Base/Held.antt the objects that a
--   function holds, by which Rsa, Log, Main and the two Setup files model acquisition and release.
--
-- Not modelled: the locks, since each operation, or each part between two locks, is one step; a
-- subscription that changes while the event thread walks over the listeners, for which it takes no lock;
-- the number of expirations that `read` delivers for a timer; what a process does behind a second `free` of
-- a node; what the C library formats and prints; the names of the pools; and the macros and plain types of
-- the header files, but for the list and `container_of`.
-- test/main.c holds the tests.
-- In Ini a string is as long as it is; which bytes of its fixed buffers a search writes is told apart, in
-- Ini/Buffers.antt. The buffer `value` is the caller's.
pub mod Base
pub mod Klciph
pub mod Txt
pub mod Ini
pub mod Queue
pub mod Timer
pub mod Event
pub mod Alloc
pub mod ThrdPool
pub mod Ip
pub mod Rsa
pub mod Log
pub mod Main
pub mod Convt
pub mod Io
pub mod Times
pub mod Mac
pub mod Sh
pub mod Mem
