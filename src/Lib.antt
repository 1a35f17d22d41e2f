-- ===== src/Lib.antt =====
-- Models of the C programs of this repository, and proofs that they do what they are for.
--
-- The programs are the examples of the course 15-213 (CMU15-213) and of C Primer Plus
-- (C_Primer_Plus). They are independent of each other; inside a program the model calls what the
-- code calls.
--
-- Files and code:
--   Sort: CMU15-213/26-parallelism/pqsort/pqsort.c, the serial quicksort: pivot, swap,
--     partition_sweep, partition_serial, qsort_serial. Memory is the memory as an array of data_t.
--     Sort/Sweep, Sort/Partition and Sort/Serial prove these functions, in this order.
--   Parallel: the parallel part of pqsort.c: tasks that run one by one in an order that a schedule
--     picks (Parallel/Pool). Parallel holds dcopy_parallel, partition_thread and partition_parallel,
--     Parallel/Tqsort the sort: tqsort, tqsort_helper, sort_thread and the tuning of init_task.
--     Parallel/Choice, Blocks and Copying prove the copy, Splitting, Meeting and Partition the
--     partition, Unsorted, Replacing, Sorting and Threads the sort.
--   Taskq: CMU15-213/26-parallelism/pqsort/taskq.c and taskq.h: the linked queue (Taskq/Queue), and
--     join_tasks against threads that go on spawning tasks (Taskq/Joining), which is why a pool of
--     tasks stands for the queue in Parallel.
--   SortBench: CMU15-213/26-parallelism/pqsort/sortbench.c: gen_data, run_test and main, on the memory
--     and the tqsort of Parallel. SortBench/Filling is about the copies of the data, SortBench/Unique
--     and SortBench/Check about the comparison with the library, SortBench/Running about the program.
--   Sampler: CMU15-213/12-cache-memories/mountain/fcyc2.c: the sampler of the k smallest measurements
--     (Sampler/Bubble, Sampler/Smallest) and the functions that measure with it (Sampler/Loop).
--   MatMult: CMU15-213/12-cache-memories/matmult/mm.c and bmm.c: the six orders of the loops, the
--     two blocked products bijk and bikj, reset, init and checkresult. A double is of an abstract
--     type, so that its rounding is not assumed away. MatMult/Cells gives the history of a single
--     cell, MatMult/Permutations and MatMult/Blocked compare the versions by it, MatMult/Check is
--     about the test that main runs.
--   Control: CMU15-213/06-machine-control: loop.c in Control/Pcount, control.c and switch.c in
--     Control/Branches. A `long` is an integer, and an operation whose result does not fit is none.
--   Sbuf: CMU15-213/25-sync-advanced/sbuf.c and sbuf.h: sbuf_init, sbuf_insert and sbuf_remove as a
--     step relation over any number of threads, a step being one line of the code of one thread.
--     Sbuf/Counts has the counting invariant, Sbuf/Fifo the order of the items, Sbuf/Queue the queue
--     that the buffer is for its clients. Sbuf/Channel is the interface of a buffer, which Sbuf fills,
--     and Sbuf/Calls has whole calls, on a buffer that no other thread is using.
--   EchoServer: CMU15-213/25-sync-advanced/echoservert_pre.c and echo_cnt.c: main and its threads as a
--     step relation over a buffer of Sbuf/Channel. EchoServer/Counting is about the mutex and the
--     counter, EchoServer/Serving about the connections.
--   Shell: CMU15-213/15-ecf-signals/shellex.c: parseline, builtin_command and the decisions of eval.
--   Tiny: CMU15-213/22-netprog2/tiny/tiny.c: parse_uri (Tiny/Uri), get_filetype, read_requesthdrs
--     and doit (Tiny/Requests), what serve_static, serve_dynamic and clienterror write (Tiny/Sending),
--     and how a client reads that (Tiny/Framing, Tiny/Answers). Text is the strings of all programs,
--     Text/Decimal the conversions of numbers by `%d` and atoi.
--   Adder: CMU15-213/22-netprog2/tiny/cgi-bin/adder.c (Adder/Content), and its run by tiny, from the
--     request to the page (Adder/Serving).
--   Psum: CMU15-213/26-parallelism/psum-mutex.c (Psum/Mutex), psum-array.c and psum-local.c
--     (Psum/Array): a schedule is any list of threads, each entry one iteration of that thread's loop.
--   Counter: CMU15-213/24-sync-basic/goodcnt.c (Counter/Good, Counter/Progress) and badcnt.c
--     (Counter/Bad): a schedule is any list of turns, each entry one load, store, P or V of a thread.
--   ReadersWriters: CMU15-213/25-sync-advanced/rw1.c: reader and writer as a step relation over any
--     number of threads, a step being one line. ReadersWriters/Exclusion has the invariant,
--     ReadersWriters/Draining the way out of every state.
--   Races: CMU15-213/25-sync-advanced/norace.c: main and its threads as a step relation
--     (Races/Numbers), a step being one line.
--   Forks: CMU15-213/14-ecf-procs/forks.c: fork0 to fork11 and main as trees of system calls.
--     Forks/Processes has the processes that run them, a forest with a step relation. Forks/Counting
--     and Forks/Ending are about processes that do not wait, Forks/Options applies them, Forks/Waiting
--     and Forks/Completing are about fork9.
--   Signals: fork14 and fork15 of the same file, with their handlers, as a step relation: what has
--     ended when they return (Signals/Reaping), how fork15 comes to an end (Signals/Stopping), and
--     the runs in which the two wait for ever (Signals/Lost).
--   Jobs: CMU15-213/15-ecf-signals/procmask1.c and procmask2.c: main, the handler and the children as
--     one step relation for both: Jobs/Order is about procmask2.c, Jobs/Stale about procmask1.c.
--   Optimization: CMU15-213/10-optimization/lower.c (Optimization/Lower), sum_rows.c and subexpr.c
--     (Optimization/Rows).
--   Records: CMU15-213/08-machine-data/structure.c, its list of records (Records/Values).
--   FilmList: C_Primer_Plus/ADT/list.c and list.h: the linked list on an explicit heap.
--   FilmPrograms: C_Primer_Plus/ADT/films.c, which keeps what a user types in that list: how it reads
--     (FilmPrograms/Reading), the loop (FilmPrograms/Keeping) and the whole program
--     (FilmPrograms/Listed); and C_Primer_Plus/Data_Representation/films.c and films_malloc.c, which
--     keep it in an array (FilmPrograms/Arrayed).
--   Prelude: shared tests, results, integers, sums, and the loops `for (i = lo; i < hi; i++)`.
--   Tests: the code on concrete inputs, and the theorems of the list below at such inputs.
--
-- Bounds and fuel: loops without an evident bound run on fuel and return none without it.
-- qsort_serial and partition_sweep take one more than the number of elements; the loops of loop.c
-- take the 64 bits of the word (65 for those that test first); parseline takes one more than the
-- length of the line. The theorems show that this is enough. The loops over the film list take the
-- fuel as an argument, and the theorems need no more than one more than the number of nodes. none
-- also stands for undefined behaviour: an overflow of int or long, a write behind an array, an access
-- through a pointer to nothing. A pool of tasks has one step for each element of the array, which is
-- enough since there are never more blocks than elements, and every sorting task takes its pivot out
-- of what is left to sort; a task is one step because what it touches outside its critical section is
-- touched by no other task of the pool. Where the parallel sort has an int, a number that is too large
-- for one is none; a `size_t` is a number without bound there, but for the sum that the blocks are
-- counted by. The loop of the sampler takes one more than maxsamples, the digits of a number as many
-- as the number, and the client reads ten header lines, more than tiny sends.
--
-- Not code of this repository, and so parameters: malloc (an Allocator that may fail, in FilmPrograms
-- one for each call), stat, sscanf and strcasecmp (a Platform of Tiny), qsort (a Library of
-- Parallel/Tqsort, for which Tests/Insertion gives an insertion sort), calloc and random (of
-- SortBench, with what getopt, strtoul and atoi make of the command line), what is measured (of
-- Sampler), the files and CGI programs of a server (a Site of Tiny/Sending), and what clients send to the echo server. fork and the calls for threads do not
-- fail in the step relations, and signals, wait and pause follow their documentation: a signal that
-- comes again while it is pending is not counted. The number of children of Signals, N in the code, is
-- any number. The semaphores P and V and the functions of string.h follow their documentation.
--
-- Not modelled: race.c, which is wrong on purpose; the accept loop of tiny.c, and the printed report of
-- the echo server; the counters of fcyc2.c, which read clocks; fork12, fork13, fork16 and fork17 of
-- forks.c (with fork14 and fork15 a parameter of main there), whose processes loop until they are
-- killed; the short demonstrations of data layout, operating system calls, timing and linking;
-- films_linkedlist.c, a forerunner of films.c. csapp.c and csapp.h are copies of a textbook's library.
pub mod Prelude
pub mod Adder
pub mod Memory
pub mod Sort
pub mod Parallel
pub mod Taskq
pub mod Signals
pub mod SortBench
pub mod Jobs
pub mod MatMult
pub mod Sampler
pub mod Control
pub mod Sbuf
pub mod Text
pub mod Shell
pub mod Tiny
pub mod Optimization
pub mod Races
pub mod ReadersWriters
pub mod Records
pub mod Psum
pub mod Counter
pub mod EchoServer
pub mod FilmList
pub mod FilmPrograms
pub mod Forks
mod Tests
