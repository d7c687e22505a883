-- ===== src/Broadcast.antt =====
-- src/eventqueue_broadcast.h: `EventQueueBroadcast`, as one thread runs it. A callback is logged;
-- what client code does in it is not modelled.
pub mod Counts
pub mod AsFast
pub mod Delivery
use Prim.Native.String.{String}
use message_center_cpp.Common.{
  ℕ, zero, suc, ◌+◌, ◌-◌, ◌%◌, ◌^◌, min, Bool, true, false, Option, none, some, ◌>>=◌, List, [],
  ◌∷◌, ◌++◌, length, take, ltb, leb, ◌==◌, if◌then◌else◌,
}
use message_center_cpp.Common.Maps.{lookup, insert, string_eq}
use message_center_cpp.Mpmc
use message_center_cpp.Mpmc.{Ring}
use message_center_cpp.PoolLockFree
use message_center_cpp.Payload
use message_center_cpp.Payload.{Store}
use message_center_cpp.Mailbox.{Mailbox, Outside, update, reserve, write, enqueue, receive, recycle}
use message_center_cpp.Message.{make_payload, copy_inline}

-- BROADCAST_MAX_TOPICS, INLINE_PAYLOAD_MAX, UINT16_MAX
abbrev pub broadcast_max_topics : ℕ
broadcast_max_topics = 4096

abbrev pub inline_payload_max : ℕ
inline_payload_max = 48

abbrev pub uint16_max : ℕ
uint16_max = 2 ^ 16 - 1

-- The two members of the union stand apart, and `is_inline` says which one is in force.
pub record BroadcastMessage : Type 0 where
  pub topic_id : ℕ
  pub observer_count : ℕ
  pub is_inline : Bool
  pub payload_size : ℕ
  pub managed : Option ℕ
  pub inline_data : List ℕ

-- A call of client code, with the bytes that its pointer leads to.
pub record BroadcastCall : Type 0 where
  pub callback : ℕ
  pub topic_id : ℕ
  pub bytes : List ℕ
  pub size : ℕ

-- The members of the queue, with what the nodes of its pool hold, the payloads, and a log of the calls.
-- An entry of `observers` is a shared pointer to a list that is never changed.
pub record BroadcastQueue : Type 0 where
  pub mailbox : Mailbox BroadcastMessage
  pub payloads : Store
  pub topic_names : ℕ → String
  pub topic_map : List (String × ℕ)
  pub topic_count : ℕ
  pub observers : ℕ → Option (List ℕ)
  pub calls : List BroadcastCall

-- `registerTopic`: the counter is counted up, and down again where no topic is left.
unfoldable pub register_topic : BroadcastQueue → String → ℕ × BroadcastQueue
register_topic q name = elim (lookup name q.topic_map) [
  | some id ↦ (id, q)
  | none ↦
      let id = q.topic_count in
      let counted = (q.topic_count + 1) % 2 ^ 16 in
      if leb broadcast_max_topics id
      then (uint16_max, record q { topic_count = (counted + (2 ^ 16 - 1)) % 2 ^ 16 })
      else (
        id,
        record q {
          topic_count = counted;
          topic_names = update q.topic_names id name;
          topic_map = insert name id q.topic_map;
        },
      )
]

-- `resolveTopic`
unfoldable pub resolve_topic : BroadcastQueue → String → ℕ
resolve_topic q name = elim (lookup name q.topic_map) [ none ↦ uint16_max | some id ↦ id ]

abbrev pub or_no_one : Option (List ℕ) → List ℕ
or_no_one none = []
or_no_one (some os) = os

-- `addObserver(topicId, callback)`
unfoldable pub add_observer : BroadcastQueue → ℕ → ℕ → BroadcastQueue
add_observer q topic_id callback = if leb broadcast_max_topics topic_id then q else record q {
  observers =
      update q.observers topic_id (some (or_no_one (q.observers topic_id) ++ callback ∷ []));
}

-- `addObserver(topic, callback)`
unfoldable pub add_observer_named : BroadcastQueue → String → ℕ → BroadcastQueue
add_observer_named q topic callback =
    let (id, q') = register_topic q topic in
    if id == uint16_max then q' else add_observer q' id callback

-- `observerCount`
unfoldable pub observer_count : BroadcastQueue → ℕ → ℕ
observer_count q topic_id =
    if leb broadcast_max_topics topic_id then 0 else length (or_no_one (q.observers topic_id))

-- What `post` writes to the message that the pool gave, and what becomes of the payloads.
unfoldable pub prepare :
    Store
    → ℕ
    → ℕ
    → Option (List ℕ)
    → ℕ
    → Outside
    → BroadcastMessage
    → Option (BroadcastMessage × Store)
unfolding copy_inline
prepare payloads topic_id count bytes size out old =
    let m : BroadcastMessage = record old {
      topic_id = topic_id;
      observer_count = count;
      payload_size = size;
    } in
    if leb size inline_payload_max
    then some (
      record m { is_inline = true; inline_data = copy_inline bytes size old.inline_data },
      payloads,
    )
    else do
      s ← make_payload payloads out.payload count bytes size
      some (record m { is_inline = false; managed = some out.payload }, s)

-- `post(topicId, data, size)`; `none` where the loop around `try_push` goes on until a consumer has
-- made room.
unfoldable pub post :
    ℕ → BroadcastQueue → ℕ → Option (List ℕ) → ℕ → Outside → Option (Bool × BroadcastQueue)
post cap q topic_id bytes size out =
    let count = min (length (or_no_one (q.observers topic_id))) 255 in
    if leb broadcast_max_topics topic_id
    then some (false, q)
    else if count == 0
    then some (true, q)
    else do
      let (node, b) = reserve q.mailbox out
      (m, s) ← prepare q.payloads topic_id count bytes size out (b.messages node)
      b' ← enqueue cap (write b node m) node out
      some (true, record q { mailbox = b'; payloads = s })

-- `post(topic, data, size)`
unfoldable pub post_named :
    ℕ → BroadcastQueue → String → Option (List ℕ) → ℕ → Outside → Option (Bool × BroadcastQueue)
post_named cap q topic bytes size out =
    let id = resolve_topic q topic in
    if id == uint16_max then some (false, q) else post cap q id bytes size out

-- `post` of a topic alone
unfoldable pub post_signal : ℕ → BroadcastQueue → ℕ → Outside → Option (Bool × BroadcastQueue)
post_signal cap q topic_id out = post cap q topic_id none 0 out

-- the bytes that a callback gets; `none` is a payload that has been freed
unfoldable pub data_of : BroadcastMessage → Store → Option (List ℕ)
data_of m s =
    if m.is_inline
    then some (take m.payload_size m.inline_data)
    else elim m.managed [ none ↦ some [] | some p ↦ do payload ← s p; some payload.bytes ]

-- a number of releases of the payload of a message that is not inline
unfoldable pub release_refs : ℕ → BroadcastMessage → Store → Option Store
release_refs n m s =
    if m.is_inline
    then some s
    else elim m.managed [ none ↦ some s | some p ↦ Payload.releases n s p ]

-- the loop of `dispatchOne` over the observers
unfoldable pub call_all : BroadcastMessage → List ℕ → Store → Option (List BroadcastCall × Store)
call_all m [] s = some ([], s)
call_all m (o ∷ os) s = do
  bytes ← data_of m s
  s' ← release_refs 1 m s
  (calls, s'') ← call_all m os s'
  some (
    record { callback = o; topic_id = m.topic_id; bytes = bytes; size = m.payload_size } ∷ calls,
    s'',
  )

-- `dispatchOne` after the pop: the observers of now are called, and where the topic has no list
-- the references of the message are released at once.
unfoldable pub deliver :
    BroadcastMessage → Option (List ℕ) → Store → Option (List BroadcastCall × Store)
deliver m (some os) s = call_all m os s
deliver m none s = do s' ← release_refs m.observer_count m s; some ([], s')

-- `dispatchOne`
unfoldable pub dispatch_one : ℕ → BroadcastQueue → Outside → Option (Bool × BroadcastQueue)
dispatch_one cap q out = do
  (got, b) ← receive cap q.mailbox out
  elim got [
    | none ↦ some (false, record q { mailbox = b })
    | some node ↦ do
      let m = b.messages node
      (calls, s) ← deliver m (q.observers m.topic_id) q.payloads
      some (true, record q { mailbox = recycle b node out; payloads = s; calls = q.calls ++ calls })
  ]

-- The loop of `dispatchAll`, on fuel. The outside decides anew in each call.
unfoldable pub dispatch_all :
    ℕ → (ℕ → Outside) → ℕ → ℕ → BroadcastQueue → Option (ℕ × BroadcastQueue)
dispatch_all cap outs zero count q = none
dispatch_all cap outs (suc fuel) count q = do
  (went, q') ← dispatch_one cap q (outs count)
  let rest = dispatch_all cap outs fuel (count + 1) q'
  if went then rest else some (count, q')

unfoldable pub empty : BroadcastQueue → Bool
empty q = Mpmc.empty q.mailbox.queue

unfoldable pub queue_size : BroadcastQueue → ℕ
queue_size q = Mpmc.size_approx q.mailbox.queue
