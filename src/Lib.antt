-- ===== src/Lib.antt =====
-- A model of rblpolicyd, a policy daemon for Postfix that combines DNS blacklists with weights.
--
-- Parts, and how they interact. `main` (rblpolicyd.c) reads the options, checks the file with the
-- process id (pidfile.c), reads the list of blacklists (cfgfile.c), binds a socket and calls `server`
-- (server.c). `server` accepts connections and creates a worker thread for each through the thread
-- manager (thrmgr.c). A worker (worker.c) reads a request, creates a solver thread for each blacklist,
-- adds up the weights of those that list the client, and answers. stats.c counts and times threads.
--
-- Files.
-- - Prelude: names and lemmas that all files share. CString: what the code uses of the C library
--   (isspace, strtol in base 0, strstr and the like, %d).
-- - CfgFile: cfgfile.c. `cfg_read` is a loop over the lines that `fgets` gives; `cfg_line` is its body.
--   CfgList: `cfg_free`, with the list as blocks on a heap. CfgFile.Dump: `cfg_dump`.
--   CfgFile.Debug: `dbg`, from its formatted text.
-- - Request: `read_request` and `parse_request` of worker.c, with the buffer's size and accesses. A
--   connection is the list of the events that `select` and `read` deliver.
-- - Address: `sscanf` and `sprintf` of the client's address, `inet_ntop`, the test for 127.
-- - Solver: `solver_th` of worker.c. Worker: `worker_th`, with the results of all solvers.
--   Protocol: how a worker creates its solvers and waits for them, with their count, its mutex and its
--   condition; one step is one access of one thread. Tally: how all workers add to the counters of the
--   blacklists, in the same way. Workers: several queries and the counters together, against calls of
--   `worker_th` one after another (Workers.InOrder), and whether all of them end (Workers.Ends).
-- - Serial: `process_request` of server.c, the query without threads; Serial.Copies: `read_request` and
--   `parse_request` of that file.
-- - Globals: `appstate` of globals.h. ThrMgr: the lists of threads in thrmgr.c, as nodes on a heap;
--   ThrMgr.Bag: a manager as a bag of threads, which ThrMgr.History compares with the list.
--   Threads: the creation of threads, their end, and `thr_waitcomplete`. Registry: the solver manager
--   as all callers of `rthread_create` and all solvers use it at once, from its allocation on.
--   ThrMgr.Walk: the loop of `thr_unregister` behind the mutex, with other threads in between.
-- - Server: the loop of `server`, with its signal handlers and the reload. Server.Crew: its turns and
--   the ends of the workers that they create, in any order, less the walk that is in ThrMgr.Walk.
-- - Stats: stats.c; Stats.Log: `stats_log`, with floating point numbers as a parameter; Stats.FirstUse:
--   `stats_worker_time` and `stats_solver_time` as several threads call them at once. PidFile:
--   pidfile.c. Startup: `main` of rblpolicyd.c, with its table of options; Startup.Printed: `usage`.
-- - Service: the daemon behind `main` as a whole: the accept loop as in Server.Crew, and the queries of
--   its workers as in Workers.
-- - Tests: runs, and the theorems at concrete inputs.
--
-- Loops and fuel. `cfg_loop` runs on one more than the bytes of the file, since each line takes one;
-- `read_loop` on `rounds`, one more than the events and bytes to come, since each round takes an event
-- or a byte away; `print` on one more than the number, which loses a digit in each round; the
-- loop of `thr_unregister` on one more than the count of the manager, which is the length of its list.
-- `lookup_loop`, which doubles a buffer until the resolver is content, has its fuel as a parameter.
-- The fuel of `cfg_free` is a parameter, too: one more than the items of the list is enough.
-- The waits of thrmgr.c have a fixed number of rounds. `server_loop` takes as many turns as are given.
-- Protocol, Tally, Workers, Registry, Server.Crew, Service, ThrMgr.Walk and Stats.FirstUse are relations
-- without fuel: they have every interleaving of the threads' steps, of any length.
--
-- Outside the code. What the system does is an argument: memory (which allocations succeed), the
-- events of a connection, the answers of the resolver, the results of `accept`, `bind`, `fork` and the
-- like, and what `getopt_long` returns. What other threads change while a function looks on is a
-- sequence of what it sees. An access outside a buffer or through NULL, and a number that C leaves
-- undefined, are results of their own.
--
-- Numbers. The score of `worker_th` and the size of the request's buffer are of type `int`: they wrap
-- round as on a machine with two's complement (`int_sum`, `int_realloc`, where a size that has turned
-- negative is more than `realloc` gives). The counters and counts of threads wrap round, too.
--
-- Memory. In `cfg_read` the copy of a domain by `strdup`, whose result the code does not test, is taken
-- to have memory where the `calloc` in front of it had. In Registry the manager itself has memory; the
-- registration of a solver can fail.
--
-- Not modelled: which messages are logged where, the frees in front of `exit`, and the copies of other
-- projects' code: getopt.c, getopt1.c, snprintf.c, xmalloc.c. Which calls of `xmalloc`, `xrealloc` and
-- `xstrdup` return, and which end the process, is an argument of the worker, as for `malloc`.
pub mod Prelude
pub mod CString
pub mod CfgFile
pub mod CfgList
pub mod Request
pub mod Address
pub mod Solver
pub mod Worker
pub mod Protocol
pub mod Registry
pub mod Tally
pub mod Workers
pub mod Serial
pub mod Globals
pub mod ThrMgr
pub mod Threads
pub mod Stats
pub mod PidFile
pub mod Server
pub mod Startup
pub mod Service
mod Tests
