-- ===== src/Lib.antt =====
-- TimescaleDB: the parts of the extension that keep state and decide, as definitions translated from
-- the C sources, and what holds of them.
--
-- A hypertable is cut into chunks by slices of its dimensions. Background workers serve it: one
-- launcher for the cluster counts workers and keeps one scheduler for each database, to which
-- backends send messages through a queue in shared memory; each scheduler starts the jobs of its
-- database and keeps statistics of their runs in a catalogue table, which say when a job starts
-- next. A compressed column of integers is a sequence of differences of differences, packed into words
-- whose selectors stand in an array of bits.
--
-- Files, and the code that they model:
--   Base       names of the libraries; integers, lists and bit operations on native numbers
--   Dimension  src/dimension_slice.c and the default ranges of src/dimension.c. An int64 is an
--              integer with bounds; Ranges and Partition are about the default ranges, Cut about
--              ts_dimension_slice_cut, Order about ts_dimension_slice_cmp
--   Loader/Counter       src/loader/bgw_counter.c
--   Loader/MessageQueue  src/loader/bgw_message_queue.c, the queue of 16 messages; Contents gives
--              the list it holds, Refine compares calls with a FIFO
--   Loader/Launcher      src/loader/bgw_launcher.c: the transitions of an entry, of the table and of
--              a message; Steps and Slots follow the count of workers, Reach the steps of the
--              launcher among other processes, Acks the acknowledgements
--   Vec        src/adts/vec.h, the growth of a vector and its errors, which Simple8b checks; Simple8b/Room
--              shows that there is room
--   BitArray   src/adts/bit_array_impl.h; Value reads an array as a number
--   Simple8b   tsl/src/compression/simple8b_rle.h: the blocks; Compressor and Iterator have the state
--              machines, Width the tables, Block what a block holds, Pack the choice of the next
--              block, Store and Flush what the compressor has stored, Slots, Read and RoundTrip the
--              way back, Reverse the reverse iterator, ReadBack and Backwards its way
--   Gorilla    tsl/src/compression/gorilla.c: the compressor and the forward iterator, on Simple8b and
--              BitArray. Positions searches the outer bits of a word, Zeros is about the zeros around
--              a xor, Append about what is stored of a value, Steps, Streams and Chain about what is
--              stored of all, Size about its form, Read, Forward and Flags about reading, RoundTrip joins
--              them
--   DeltaDelta tsl/src/compression/deltadelta.c, on the streams of Simple8b; Reverse is the reverse
--              iterator
--   TimeBucket src/time_bucket.c, the buckets of integers; Floor is about the start of a bucket
--   Bgw/JobStat          src/bgw/job_stat.c; Table has the operations on the catalogue table
--   Bgw/Scheduler        src/bgw/scheduler.c; Run has the loops on the list of jobs,
--              Wakeup the times at which the scheduler wakes up
-- The tests of a component stand in its module Tests.
--
-- Code outside the repository is a parameter: what PostgreSQL answers about worker processes and
-- locks is a record of answers (Loader.Launcher.Env, Bgw.Scheduler.Env), its clock, intervals and
-- floats are a record of functions (Bgw.JobStat.Postgres). An error or an exit of the process is
-- `none`. Steps that the code takes under a lock are one step. Counters of statistics are words of
-- 64 and 32 bits; the count of workers is bounded by its limit.
--
-- The loop of ts_update_scheduled_jobs_list runs on a number of rounds, one more than both lists
-- have jobs; each round takes a job from one of them. The loop that appends new elements to a
-- compressor takes as many rounds as there are elements, one of them at least in each; the loop that
-- raises a selector takes 14 steps, which lead to the selector that holds every value. Sequences of
-- words have fewer than 2 ^ 25 elements, for which the vectors grow and the forms are allocated without
-- an error, and rows of a column up to 2 ^ 25 - 2, or 2 ^ 24 - 1 for Gorilla. The growth of the arrays
-- of bits of Gorilla is not modelled; within these rows it has room. All other loops are by structure.
--
-- Not modelled: catalogue scans, DDL, the planner and executor nodes, memory contexts, log messages,
-- the acknowledgement over shm_mq, the main loops with their latches, and the wire forms.
pub mod Base
pub mod Dimension
pub mod Loader
pub mod Vec
pub mod BitArray
pub mod Bgw
pub mod TimeBucket
pub mod Simple8b
pub mod DeltaDelta
pub mod Gorilla
