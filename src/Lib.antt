-- ===== src/Lib.antt =====
-- Verification of the learn_framework repository: the concurrency tools of boostthreadcontrol, the
-- servers of learntorrent, the programs of producer_consumer_librdkafka, the key wrapper and the hexadecimal text
-- of learnopenssl, the reader of data of learneth, and the queries of learnclickhouse.
--
-- The program's parts, and the modules that model them:
--   * LockOrder: the lock-order detector of boostthreadcontrol/sync.cpp. `LockData`, with the map
--     `lockorders` and the set `invlockorders` as lists (LockOrder/Maps), is the
--     global `lockdata`; each thread's `lockstack` is an argument. `push_lock`, `pop_lock`,
--     `enter_critical`, `leave_critical`, `locks_held`, `assert_lock_held` and `delete_lock` are the
--     functions of those names. LockOrder/Threads lets any threads call them in any order.
--   * MutexLock: `CMutexLock` of boostthreadcontrol/sync.h, whose constructors and destructor call
--     `EnterCritical` and `LeaveCritical` of the detector. MutexLock/Scopes lets any threads open and
--     close scopes in any order and destroy critical sections; MutexLock/Nesting, MutexLock/Stacks and
--     MutexLock/Deadlock prove its theorems.
--   * Semaphore: `CSemaphore` and `CSemaphoreGrant` of boostthreadcontrol/sync.h, on a store of
--     semaphores and grants, so that grants may share a semaphore; Semaphore/Calls lists the calls
--     of both, Semaphore/Steps and Semaphore/Direct keep their accounts. There a wait that blocks is a stop. Semaphore/Threads has any number of threads at the critical
--     sections of `wait`, `try_wait` and `post` of one semaphore, with the notifications.
--   * CheckQueue: `CCheckQueue` of boostthreadcontrol/checkqueue.h. What a thread does under the mutex
--     is one function (`lock_section`, `wake_section`, `add`); CheckQueue/System interleaves any
--     number of workers and masters, with the notifications and with waits that end by themselves.
--   * QueueControl: `CCheckQueueControl` of the same file, as the calls it makes on its queue.
--     QueueControl/Masters has any number of threads with a control each over CheckQueue/System, one at
--     a time under `ControlMutex`; QueueControl/Alone and QueueControl/Answers prove its theorems.
--   * ThreadControl: boostthreadcontrol/main.cpp and task_check.cpp, which use both. Its calls are those
--     of a control's life with the starts of five threads among them, and a run of CheckQueue/System is
--     one of the program if the events that are not turns of threads come in the order of the calls.
--   * Torrent: `UdpTracker` (learntorrent/src/tracker.cpp), `DhtServer` (learntorrent/src/dht.cpp),
--     `PeerServer` (learntorrent/src/peer.cpp), and their base and clock in learntorrent/include/util.h.
--     Torrent/Tracker/Service is the tracker's thread with the handlers of its io_service, among them
--     the `stop` of the destructor. Torrent/Life is
--     the global pointer of the latter two with `Start` and `Stop`, Torrent/DhtLife and Torrent/PeerLife
--     use it.
--   * Kafka: consumer/main.c (Kafka/Consumer), consumer_cpp/cconsumer.cpp (Kafka/ConsumerCpp) with its
--     main.cpp (Kafka/ConsumerCpp/Main) and producer/main.c (Kafka/Producer) of
--     producer_consumer_librdkafka. Each has its `main` in a module Main, and
--     Kafka/Producer/Interrupt is the producer under SIGINT.
--   * Hex: `p_util_hexdigit`, `HexDigit`, `hex_convert_memory` and (Hex/ToBin) `hex_to_bin` of
--     learnopenssl/src/main.cpp. What `sscanf` stores is the record `Hex.ToBin.Scanner`.
--   * Datum: `PutDecodedDatumInto` and `RandomizedTransfer` of learneth/src/main.cpp. Datum takes an item
--     off the text, Datum/Transfer moves bytes to the target, Datum/Put is the loop over both, and Datum/Main is
--     `main`; Datum/Hash proves what it prints.
--   * Ecc: `OpenEcc` of learnopenssl/src/open_ecc.cpp (learneth has a copy), and in Ecc/Trial
--     `TestOpenEcc` of learnopenssl/src/main.cpp; Ecc/Exchange is the exchange of keys behind the
--     `return` of its `main`.
--   * ClickHouse: `StandardTest` of learnclickhouse/src/main.cpp; ClickHouse/Rows proves what it prints.
--   * Common: names, tests on numbers, lists, results and integers that all of them share.
--
-- Code outside the repository is an argument. The answers of librdkafka, of the sockets and of a
-- mutex's `try_lock` are values that the functions take; `bdecode` and a check's call operator are
-- functions; libtorrent's reading and writing of integers is the record `Torrent.Tracker.ByteIo`, with
-- the widths and the round trip of 32-bit values as laws; `itostr` is a function on line numbers.
-- Crypto++'s byte queue and random numbers are the record `Datum.Transfer.Buffers`, its decoder and the
-- words of a stream `Datum.Codec`, its hash and its verifying filter `Datum.Main.Hashing`, OpenSSL's keys and groups `Ecc.Library`, ClickHouse's
-- client and its blocks `ClickHouse.Client`, each with the laws used.
--
-- Bounds: `nTodo`, the tracker's and the servers' counters are kept modulo 2^32, as bit patterns. An
-- `int` that counts threads or a semaphore's places is unbounded, and so are 64-bit offsets, which are
-- only copied. The producer's loop runs on fuel, one more than the bytes of its input: each `fgets`
-- takes at least one byte, so there are no more rounds than that. `RandomizedTransfer` has
-- one round more than its source has bytes. The loop of `PutDecodedDatumInto`, which need not end, takes
-- the number of its rounds as an argument. All other loops are over the list
-- that they read, or over the events that come.
--
-- Not modelled: boost's mutexes and condition variables below the critical sections; the memory model
-- of the unlocked reads of `run` and `run_`; printing, but where the lines are the behaviour; a SIGINT
-- that comes while the producer reads a line, and its delivery callback; functions of the samples
-- that nothing calls (`HexToBin`, `StrToPrivKey` and `PubKeyToStr1` of learnopenssl, `BasicTest` of
-- learnclickhouse, `test` of the producer); and the samples on Boost.Test (boost_util_test).
pub mod Common
pub mod LockOrder
pub mod MutexLock
pub mod Semaphore
pub mod CheckQueue
pub mod QueueControl
pub mod ThreadControl
pub mod Torrent
pub mod Kafka
pub mod Hex
pub mod Datum
pub mod Ecc
pub mod ClickHouse
