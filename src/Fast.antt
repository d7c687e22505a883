-- ===== src/Fast.antt =====
-- src/eventqueue_fast.h: `EventQueueBroadcastFast`, which posts the messages of Message through a
-- Mailbox, as one thread runs it.
pub mod Delivery
pub mod Loops
pub mod Threads
use message_center_cpp.Common.{
  ℕ, zero, suc, ◌+◌, ◌-◌, ◌%◌, ◌^◌, Bool, true, false, Option, none, some, ◌>>=◌, List, [], ◌∷◌,
  ◌++◌, length, ltb, leb, ◌==◌, if◌then◌else◌,
}
use message_center_cpp.Mpmc
use message_center_cpp.Payload.{Store}
use message_center_cpp.Mailbox.{Mailbox, Outside, update}
use message_center_cpp.Message.{FastObserver, FastMessage, FastCall, send, deliver}

-- FAST_MAX_TOPICS, FAST_MAX_OBSERVERS
abbrev pub max_topics : ℕ
max_topics = 4096

abbrev pub max_observers : ℕ
max_observers = 16

-- The members of the queue, with what the nodes of the pool hold, the payloads, and a log of the
-- calls. `topics` has the first `count` entries of each topic's array.
pub record FastQueue : Type 0 where
  pub mailbox : Mailbox FastMessage
  pub payloads : Store
  pub topics : ℕ → List FastObserver
  pub topic_count : ℕ
  pub calls : List FastCall

-- `registerTopic`, on a `uint16_t` counter
unfoldable pub register_topic : FastQueue → ℕ × FastQueue
register_topic q = (
  if ltb q.topic_count max_topics then q.topic_count else 2 ^ 16 - 1,
  record q { topic_count = (q.topic_count + 1) % 2 ^ 16 },
)

-- `addObserver`
unfoldable pub add_observer : FastQueue → ℕ → FastObserver → Bool × FastQueue
add_observer q topic_id o =
    if leb max_topics topic_id
    then (false, q)
    else if leb max_observers (length (q.topics topic_id))
    then (false, q)
    else (true, record q { topics = update q.topics topic_id (q.topics topic_id ++ o ∷ []) })

-- `post`; `none` where the loop around `try_push` goes on until a consumer has made room.
unfoldable pub post : ℕ → FastQueue → ℕ → Option (List ℕ) → ℕ → Outside → Option (Bool × FastQueue)
post cap q topic_id bytes size out =
    if leb max_topics topic_id
    then some (false, q)
    else if length (q.topics topic_id) == 0
    then some (true, q)
    else do
      (b, s) ← send cap q.mailbox q.payloads (q.topics topic_id) topic_id bytes size out
      some (true, record q { mailbox = b; payloads = s })

-- `post` of a topic alone
unfoldable pub post_signal : ℕ → FastQueue → ℕ → Outside → Option (Bool × FastQueue)
post_signal cap q topic_id out = post cap q topic_id none 0 out

-- `dispatchOne`
unfoldable pub dispatch_one : ℕ → FastQueue → Outside → Option (Bool × FastQueue)
dispatch_one cap q out = do
  (called, b, s) ← deliver cap q.mailbox q.payloads out
  let q' : FastQueue = record q { mailbox = b; payloads = s }
  some (elim called [
    | none ↦ (false, q')
    | some calls ↦ (true, record q' { calls = q.calls ++ calls })
  ])

-- The loop of `dispatchBatch`, of which `dispatched` counts the rounds and `left` those that
-- `maxCount` still admits. The outside decides anew in each call.
unfoldable pub dispatch_batch : ℕ → (ℕ → Outside) → ℕ → ℕ → FastQueue → Option (ℕ × FastQueue)
dispatch_batch cap outs zero dispatched q = some (dispatched, q)
dispatch_batch cap outs (suc left) dispatched q = do
  (went, q') ← dispatch_one cap q (outs dispatched)
  let rest = dispatch_batch cap outs left (dispatched + 1) q'
  if went then rest else some (dispatched, q')

-- The loop of `dispatchAll`, on fuel.
unfoldable pub dispatch_all : ℕ → (ℕ → Outside) → ℕ → ℕ → FastQueue → Option (ℕ × FastQueue)
dispatch_all cap outs zero count q = none
dispatch_all cap outs (suc fuel) count q = do
  (went, q') ← dispatch_one cap q (outs count)
  let rest = dispatch_all cap outs fuel (count + 1) q'
  if went then rest else some (count, q')

unfoldable pub empty : FastQueue → Bool
empty q = Mpmc.empty q.mailbox.queue

unfoldable pub queue_size : FastQueue → ℕ
queue_size q = Mpmc.size_approx q.mailbox.queue
