-- ===== src/Batch.antt =====
-- src/eventqueue_batch.h: `EventQueueBroadcastFastBatch`. Its members, and the bodies of the functions
-- that src/eventqueue_fast.h has as well, are those of Fast, with the same bounds. It adds the buffer
-- `t_batch`, which is one for a thread and not one for a queue, and another `dispatchBatch`.
pub mod Flush
pub mod Prefetch
use message_center_cpp.Common.{
  ℕ, zero, suc, min, Bool, true, false, Option, none, some, ◌>>=◌, List, [], ◌∷◌, ◌++◌, length, leb,
  ◌==◌, if◌then◌else◌,
}
use message_center_cpp.PoolLockFree
use message_center_cpp.Payload.{Store}
use message_center_cpp.Mailbox.{Mailbox, Outside, reserve, write, enqueue, receive}
use message_center_cpp.Message.{FastObserver, FastCall, call_all, FastMessage, compose, send}
use message_center_cpp.Fast
use message_center_cpp.Fast.{FastQueue}

-- BATCH_MAX_TOPICS, BATCH_SIZE
abbrev pub batch_max_topics : ℕ
batch_max_topics = 4096

abbrev pub batch_size : ℕ
batch_size = 32

-- the first `count` entries of `t_batch.msgs`
abbrev pub BatchBuffer : Type 0
BatchBuffer = List ℕ

-- The loop of `flushBatch`; `none` where the loop around `try_push` goes on until a consumer has
-- made room.
unfoldable pub flush_loop : ℕ → Outside → BatchBuffer → FastQueue → Option FastQueue
flush_loop cap out [] q = some q
flush_loop cap out (node ∷ batch) q = do
  b ← enqueue cap q.mailbox node out
  flush_loop cap out batch (record q { mailbox = b })

-- `flushBatch`
unfoldable pub flush_batch :
    ℕ → Outside → BatchBuffer → FastQueue → Option (BatchBuffer × FastQueue)
flush_batch cap out batch q = do q' ← flush_loop cap out batch q; some ([], q')

-- `postBatched`
unfoldable pub post_batched :
    ℕ
    → FastQueue
    → BatchBuffer
    → ℕ
    → Option (List ℕ)
    → ℕ
    → Outside
    → Option (Bool × BatchBuffer × FastQueue)
post_batched cap q batch topic_id bytes size out =
    if leb batch_max_topics topic_id
    then some (false, batch, q)
    else if length (q.topics topic_id) == 0
    then some (true, batch, q)
    else do
      let (node, b) = reserve q.mailbox out
      (m, s) ←
          compose q.payloads (q.topics topic_id) topic_id bytes size out.payload (b.messages node)
      let batch' = batch ++ node ∷ []
      let q' : FastQueue = record q { mailbox = write b node m; payloads = s }
      if leb batch_size (length batch')
          then (do (flushed, q'') ← flush_batch cap out batch' q'; some (true, flushed, q''))
          else some (true, batch', q')

unfoldable pub register_topic : FastQueue → ℕ × FastQueue
register_topic q = Fast.register_topic q

unfoldable pub add_observer : FastQueue → ℕ → FastObserver → Bool × FastQueue
add_observer q topic_id o = Fast.add_observer q topic_id o

unfoldable pub post : ℕ → FastQueue → ℕ → Option (List ℕ) → ℕ → Outside → Option (Bool × FastQueue)
post cap q topic_id bytes size out = Fast.post cap q topic_id bytes size out

unfoldable pub dispatch_one : ℕ → FastQueue → Outside → Option (Bool × FastQueue)
dispatch_one cap q out = Fast.dispatch_one cap q out

unfoldable pub dispatch_all : ℕ → (ℕ → Outside) → ℕ → ℕ → FastQueue → Option (ℕ × FastQueue)
dispatch_all cap outs fuel count q = Fast.dispatch_all cap outs fuel count q

-- The loop of `dispatchBatch` that fills its local array with up to a number of messages. The
-- outside decides anew in each call.
unfoldable pub prefetch :
    ℕ → (ℕ → Outside) → ℕ → Mailbox FastMessage → Option (List ℕ × Mailbox FastMessage)
prefetch cap outs zero b = some ([], b)
prefetch cap outs (suc left) b = do
  (got, b') ← receive cap b (outs left)
  elim got [
    | none ↦ some ([], b')
    | some node ↦ do (batch, b'') ← prefetch cap outs left b'; some (node ∷ batch, b'')
  ]

-- the loop of `dispatchBatch` that calls the observers of the messages of its array
unfoldable pub call_batch : (ℕ → FastMessage) → List ℕ → Store → Option (List FastCall × Store)
call_batch messages [] s = some ([], s)
call_batch messages (node ∷ batch) s = do
  (calls, s') ← call_all (messages node) (messages node).observers s
  (more, s'') ← call_batch messages batch s'
  some (calls ++ more, s'')

-- the loop of `dispatchBatch` that gives the messages of its array back to the pool
unfoldable pub recycle_batch : ℕ → List ℕ → PoolLockFree.Pool → PoolLockFree.Pool
recycle_batch failures [] p = p
recycle_batch failures (node ∷ batch) p =
    recycle_batch failures batch (PoolLockFree.release failures p (some node))

-- `dispatchBatch`
unfoldable pub dispatch_batch : ℕ → (ℕ → Outside) → ℕ → ℕ → FastQueue → Option (ℕ × FastQueue)
dispatch_batch cap outs failures max_count q = do
  (batch, b) ← prefetch cap outs (min max_count batch_size) q.mailbox
  (calls, s) ← call_batch b.messages batch q.payloads
  some (
    length batch,
    record q {
      mailbox = record b { message_pool = recycle_batch failures batch b.message_pool };
      payloads = s;
      calls = q.calls ++ calls;
    },
  )
