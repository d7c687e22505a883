-- ===== src/Lib.antt =====
-- A model of message-center-cpp: topics, observers and posted messages in one process.
--
-- The parts, each a module here and a file of the repository there:
--   Mpmc        src/mpmc_queue.h: `MPMCQueue`, the bounded ring of the faster queues. `Ring` has its
--               members; `try_push` and `try_pop` are its two operations as one thread runs them.
--     Threads     `try_push` and `try_pop` of any number of threads, a step relation with a step for
--                 each load, store and compare-exchange.
--   EventQueue  src/eventqueue.h, src/eventqueue.cpp: the queue with mutexes.
--     Topics      the registry of names and IDs: `RegisterTopic`, `ResolveTopic`, `GetTopicByID`,
--                 `ClearTopics`.
--     Types, State, Observers, Messages   the members, `AddObserver`, `RemoveObserver`,
--                 `RemoveObserverById`, `Post`, `GetQueueMessage`, `dispose`.
--     Dispatch    `Dispatch`, over handlers that are a parameter; Handlers has clients that call
--                 the public functions from a handler.
--     Removal     `Dispatch` and the removals on several threads, as a step relation.
--     Faults      what the code gets wrong.
--   MessageCenter  src/messagecenter.h, src/messagecenter.cpp: `ThreadWorker` over the queue here,
--               `Start`, `Stop` and the end of the worker on several threads in Lifecycle. Office has
--               what the worker promises where others only post.
--   Pool        src/objectpool.h: `ObjectPool`, under its mutex.
--   PoolLockFree  src/objectpool_lockfree.h: `ObjectPoolLockFree`, a Treiber stack of nodes, as one
--               thread runs it, and `pushFree` and `popFree` of any number of threads in Threads.
--   Payload     src/payload_refcounted.h: `RefCountedPayload` and `PayloadGuard` in a store.
--   Mailbox     the members `m_queue` and `m_messagePool` of the faster queues: a message is written
--               to a node of a PoolLockFree, which goes through an Mpmc ring and back to the pool.
--   Message     the messages that src/eventqueue_fast.h, src/eventqueue_batch.h and the bulk queue of
--               src/eventqueue_emulator.h put there, with a Payload that the observers share. Letters
--               and Mail have what they stand for: a topic, bytes, and the observers to be called.
--   Fast        src/eventqueue_fast.h: `EventQueueBroadcastFast`, over Mailbox and Message.
--     Threads     `addObserver`, `post` and `dispatchOne` of any number of threads, a step relation with
--                 a step for each access to the stack of the pool and each call of the ring, of a
--                 callback or of a payload.
--   Emulator    src/eventqueue_emulator.h: `EventQueueEmulator`, two mailboxes for two priorities, and
--               the orders in which `dispatchPriority`, `dispatchAll` and `dispatchRatio` serve them.
--   Batch       src/eventqueue_batch.h: `EventQueueBroadcastFastBatch`, which adds the buffer of a
--               thread and a `dispatchBatch` of its own to what Fast has.
--   Broadcast   src/eventqueue_broadcast.h: `EventQueueBroadcast`, whose dispatch calls the observers
--               of that moment; AsFast reads its state as one of Fast.
--   CenterFast  src/messagecenter_fast.h: `MessageCenterFast`, its topics, `post`, and the loop
--               of its thread; `start` and `stop` on several threads in Lifecycle.
--   Registry    an interface of the three registries of names and IDs, and what each gives for it.
--   Instance    the static instance of a message centre, over an interface that
--               MessageCenter/Instance and CenterFast/Instance fill.
--   CollectionHelper  include/collectionhelper.h.
--   Common      names and lemmas that the models share.
--   Tests       runs on concrete inputs.
--
-- A pointer is a number that stands for the object, and a null pointer is `none`. `size_t` and
-- `uint64_t` wrap at 2 ^ 64; an `int` that only counts up from 0 is a natural number. An operation
-- under one mutex is one step. The memory orders of the atomics are not modelled: a step on
-- an atomic is sequentially consistent.
--
-- Bounds and fuel: the ring's loops take the number of spurious failures of the weak
-- compare-exchange; with nobody else on the ring they end in the round that does not fail, for
-- every such number. The registry has 1024 topics, as in the source.
--
-- The loops of the lock-free pool take the number of spurious failures as well. The worker takes
-- the list of its rounds, and as many rounds as there are messages dispatch all of them. What `new`
-- returns is an argument of an operation.
--
-- The loops of the dispatches take fuel, of which one more than the number of waiting messages is
-- enough; the outside decides anew in each of their calls how often a compare-exchange fails. The
-- positions of the ring in Threads are numbers below 2 ^ 62, far from where a word wraps.
--
-- In Fast/Threads nodes and payloads are numbered as `new` makes them, and no number is used again, so
-- that a use after free shows.
--
-- Fast/Threads leaves out the runs in which two threads are in `popFree` at once, such as those of two
-- producers: PoolLockFree/Threads shows what the stack does there. It has one step for a call of the
-- ring; how these interleave is said in Mpmc/Threads. `addObserver`, which the source says is
-- not thread-safe with `post`, is one step there, taken while no thread reads the topic.
--
-- Not modelled: debug dumps, text formatting, and the clients in tests, benchmarks and examples. What
-- is built on the ring and the lock-free pool runs on one thread here, but for Fast/Threads.
pub mod Common
pub mod Mpmc
pub mod EventQueue
pub mod MessageCenter
pub mod Pool
pub mod Payload
pub mod PoolLockFree
pub mod CollectionHelper
pub mod Instance
pub mod Registry
pub mod Mailbox
pub mod Message
pub mod Fast
pub mod Batch
pub mod Emulator
pub mod Broadcast
pub mod CenterFast
pub mod Tests
