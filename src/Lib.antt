-- ===== src/Lib.antt =====
-- LustreTools adds traffic control to the Lustre file system. Its parts, and the files that model them:
--   Lfz       source/build/lfz/lfz.c: `throttle_bandwidth` limits the bytes per second of an object
--             storage target; the bulk handlers of lfz/tgt_handler.c call it once for each transfer.
--   Qos       source/build/metric/metric.h, qos_rules.c, and the parts of osc_request.c, genops.c, obd.h
--             and lproc_osc.c about them: each client measures its requests (`qos_adjust`, called for
--             each reply), picks one of the rules that were written to a file under /proc
--             (`parse_qos_rules`), and so sets its number of requests in flight and the gap between
--             requests (`qos_throttle`, called before each request).
--   Nrs.Tbf   source/build/metric/nrs_tbf.c, lustre_nrs_tbf.h: the token bucket filter of the servers'
--             request scheduler. Bucket is the limit of one client, Rules the rules with their reference
--             counts, Table the commands on them and the lookup of a request's client, Command
--             the text of a command and its execution, and Compare the orders of the heap of clients.
--             Sched is the clients' queues: requests are added, handed out to a thread by the client with
--             the earliest deadline, or removed.
--             Jobid is the text of a rule's jobs, read and matched.
--   Nrs.Sscdt code/nrs_sscdt.c, lustre_nrs_sscdt.h: the policy that orders requests by time windows.
--   Service   source/build/metric/service.c: which request a thread of a service takes next, from the two
--             queues of the request scheduler (whose policies Nrs models), and how many are in work. Timed is
--             the requests that wait for their deadlines.
--   Grant     source/build/metric/osc_cache.c and osc_request.c: the dirty pages of a client and the space
--             (grant) that the server promised for them. Wait is a writer that sleeps until there is
--             space, Wake those who wait, Server the messages about grant, and Steps all of it in any order.
--   Extent    source/build/metric/osc_cache.c: which extents of the cache go into a write request, when an
--             object is ready for one (Ready), and the writes that are forced to be synchronous after
--             one has failed, which a writer in Grant.Wait then finds.
--   Message   source/build/metric/pack_generic.c: a message of the protocol as a header and buffers. Layout is
--             where the buffers lie, Store their packing, Unpack the checks of a received message (whose
--             results Checks, Accepted and Foreign are about), Body the version and byte order of its body,
--             Shrink the shortening of a buffer and Text a buffer as a string.
--   Wire      source/build/metric/pack_generic.c and lustre_idl.h: the bytes of a message's body (which
--             Message.Body turns) and of the data of a connection, from one byte order to the other.
--   Counter   source/build/metric/lprocfs_counters.c and parts of lprocfs_status.c: the counters per
--             processor that the servers keep of their requests, and the histograms.
--   Base      shared names: tests and conditionals, lists, signed integers, machine words, error codes.
-- State is passed explicitly: a function of the source takes the structure it changes and gives it back,
-- with its return code. `none` is a fault of the kernel: a division by zero, a failed assertion, a NULL
-- pointer or a read out of bounds. Words of 32 and 64 bits wrap where the source's do. Locks are not
-- modelled: a function runs as one step, and a list of calls is an order in which they take the lock.
-- The counter `obd_dirty_pages` is changed under other locks as well, which is a step of its own
-- (`other_clients`), and `nrs_tbf_rule_start` looks a rule up twice with the lock given up in between.
-- Parameters stand for the code outside of the repository: the clock, `cfs_timeval_sub`, `sscanf`,
-- `snprintf`, the allocator and the binary heap of libcfs, with the documented behaviour that a theorem
-- relies on as a record (`IsTimevalSub`, `IsLibcfs`, `IsPlatform`, `ReadsBack`, `IsBinheap`,
-- `IsClientHeap`). Where a function gives up its lock, what the other threads do meanwhile is a function
-- of the state (`Sleep`, `others`), and a list of sleeps is as long as the run that is looked at.
-- The loops of the source are recursions on lists, on the number of rules (`find_rule`, `fill_rules`), or
-- on fuel: `drain` takes a step for each request, and as many steps as requests are enough;
-- `take_urgent` takes an extent off its list in each step, and the length of the list is enough;
-- `scan_loop` visits a list in each turn, and the number of lists is enough.
-- Threads that interleave are steps: `Step` is one operation of any thread, `Reach` a sequence of them.
-- Not modelled: the tree of the cache's extents with its merges and truncations, the start and stop of
-- the service's threads with its buffers and replies, the hash tables of clients by job and address,
-- the other structures of the protocol and the accessors of their words, the output under /proc and
-- the scripts that deploy the system.
pub mod Base
pub mod Lfz
pub mod Qos
pub mod Wire
pub mod Message
pub mod Service
pub mod Nrs
pub mod Counter
pub mod Extent
pub mod Grant
