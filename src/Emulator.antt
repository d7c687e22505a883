-- ===== src/Emulator.antt =====
-- src/eventqueue_emulator.h: `EventQueueEmulator`, two mailboxes for two priorities, as one thread
-- runs it. `EmuObserver` and `EmuBulkMessage` have the members of `FastObserver` and `FastMessage`.
pub mod Letters
pub mod Delivery
pub mod Drain
pub mod Ratio
use message_center_cpp.Common.{
  ℕ, zero, suc, ◌+◌, ◌-◌, ◌%◌, ◌^◌, Bool, true, false, Option, none, some, ◌>>=◌, List, [], ◌∷◌,
  ◌++◌, map, length, take, ltb, leb, ◌==◌, ◌&&◌, ◌||◌, if◌then◌else◌,
}
use message_center_cpp.Mpmc
use message_center_cpp.Payload.{Store}
use message_center_cpp.Mailbox.{Mailbox, Outside, update, reserve, write, enqueue, receive, recycle}
use message_center_cpp.Message.{FastObserver, FastMessage, FastCall, copy_inline, send, deliver}

-- EMU_MAX_TOPICS, EMU_INLINE_MAX, EMU_MAX_OBSERVERS
abbrev pub emu_max_topics : ℕ
emu_max_topics = 256

abbrev pub emu_inline_max : ℕ
emu_inline_max = 48

abbrev pub emu_max_observers : ℕ
emu_max_observers = 8

pub data TopicPriority : Type 0 where
  critical : TopicPriority
  normal : TopicPriority

-- `observers` has the first `observerCount` entries of the array, and `bytes` what was copied to the
-- array `data`.
pub record EmuFastMessage : Type 0 where
  pub topic_id : ℕ
  pub payload_size : ℕ
  pub observers : List FastObserver
  pub bytes : List ℕ

pub record TopicInfo : Type 0 where
  pub priority : TopicPriority
  pub observers : List FastObserver

-- The members, with what the nodes of the two pools hold, the payloads, and a log of the calls.
pub record Emulator : Type 0 where
  pub fast : Mailbox EmuFastMessage
  pub bulk : Mailbox FastMessage
  pub payloads : Store
  pub topics : ℕ → TopicInfo
  pub topic_count : ℕ
  pub calls : List FastCall

-- `registerTopic`, on a `uint16_t` counter that is taken back where no topic is left
unfoldable pub register_topic : Emulator → TopicPriority → ℕ × Emulator
register_topic e priority =
    let id = e.topic_count in
    let count = (id + 1) % 2 ^ 16 in
    if leb emu_max_topics id
    then (2 ^ 16 - 1, record e { topic_count = (count + (2 ^ 16 - 1)) % 2 ^ 16 })
    else (
      id,
      record e {
        topic_count = count;
        topics = update e.topics id (record (e.topics id) { priority = priority });
      },
    )

-- `addObserver`
unfoldable pub add_observer : Emulator → ℕ → FastObserver → Bool × Emulator
add_observer e topic_id o =
    let topic = e.topics topic_id in
    if leb emu_max_topics topic_id
    then (false, e)
    else if leb emu_max_observers (length topic.observers)
    then (false, e)
    else (
      true,
      record e {
        topics = update e.topics topic_id (record topic { observers = topic.observers ++ o ∷ [] });
      },
    )

-- what `postFast` writes to the message that the pool gave; the size becomes a `uint8_t`
unfoldable pub compose_fast :
    List FastObserver → ℕ → Option (List ℕ) → ℕ → EmuFastMessage → EmuFastMessage
compose_fast os topic_id bytes size old = record {
  topic_id = topic_id;
  payload_size = size % 2 ^ 8;
  observers = os;
  bytes = copy_inline bytes size old.bytes;
}

-- `postFast`; `none` where the loop around `try_push` goes on until a consumer has made room.
unfoldable pub post_fast :
    ℕ → Emulator → ℕ → Option (List ℕ) → ℕ → Outside → Option (Bool × Emulator)
post_fast cap e topic_id bytes size out =
    let os = (e.topics topic_id).observers in
    if leb emu_max_topics topic_id || ltb emu_inline_max size
    then some (false, e)
    else if length os == 0
    then some (true, e)
    else do
      let (node, b) = reserve e.fast out
      b' ←
          enqueue cap (write b node (compose_fast os topic_id bytes size (b.messages node))) node
            out
      some (true, record e { fast = b' })

-- `postFast` of a topic alone
unfoldable pub post_fast_signal : ℕ → Emulator → ℕ → Outside → Option (Bool × Emulator)
post_fast_signal cap e topic_id out = post_fast cap e topic_id none 0 out

-- `postBulk`
unfoldable pub post_bulk :
    ℕ → Emulator → ℕ → Option (List ℕ) → ℕ → Outside → Option (Bool × Emulator)
post_bulk cap e topic_id bytes size out =
    let os = (e.topics topic_id).observers in
    if leb emu_max_topics topic_id
    then some (false, e)
    else if length os == 0
    then some (true, e)
    else do
      (b, s) ← send cap e.bulk e.payloads os topic_id bytes size out
      some (true, record e { bulk = b; payloads = s })

-- `post`, on rings of `fcap` and `bcap` slots
unfoldable pub post :
    ℕ → ℕ → Emulator → ℕ → Option (List ℕ) → ℕ → Outside → Option (Bool × Emulator)
post fcap bcap e topic_id bytes size out =
    if leb emu_max_topics topic_id then some (false, e) else elim (e.topics topic_id).priority [
      | critical ↦
          if leb size emu_inline_max
          then post_fast fcap e topic_id bytes size out
          else some (false, e)
      | normal ↦ post_bulk bcap e topic_id bytes size out
    ]

-- the calls of `dispatchFast` for a message
unfoldable pub fast_calls : EmuFastMessage → List FastCall
fast_calls m =
    map
      (λ (o : FastObserver). record {
        callback = o.callback;
        topic_id = m.topic_id;
        bytes = take m.payload_size m.bytes;
        size = m.payload_size;
        user_data = o.user_data;
      })
      m.observers

-- `dispatchFast`
unfoldable pub dispatch_fast : ℕ → Emulator → Outside → Option (Bool × Emulator)
dispatch_fast cap e out = do
  (got, b) ← receive cap e.fast out
  some (elim got [
    | none ↦ (false, record e { fast = b })
    | some node ↦ (
      true,
      record e { fast = recycle b node out; calls = e.calls ++ fast_calls (b.messages node) },
    )
  ])

-- `dispatchBulk`
unfoldable pub dispatch_bulk : ℕ → Emulator → Outside → Option (Bool × Emulator)
dispatch_bulk cap e out = do
  (called, b, s) ← deliver cap e.bulk e.payloads out
  let e' : Emulator = record e { bulk = b; payloads = s }
  some (elim called [
    | none ↦ (false, e')
    | some calls ↦ (true, record e' { calls = e.calls ++ calls })
  ])

-- `while (f()) ++count;` on fuel. The outside decides anew in each call.
unfoldable pub drain :
    (Emulator → Outside → Option (Bool × Emulator))
    → (ℕ → Outside)
    → ℕ
    → ℕ
    → Emulator
    → Option (ℕ × Emulator)
drain f outs zero count e = none
drain f outs (suc fuel) count e = do
  (went, e') ← f e (outs count)
  elim went [ true ↦ drain f outs fuel (count + 1) e' | false ↦ some (count, e') ]

module _ (fcap bcap : ℕ) where
  -- `dispatchPriority`
  unfoldable pub dispatch_priority : (ℕ → Outside) → Outside → ℕ → Emulator → Option (ℕ × Emulator)
  dispatch_priority outs out fuel e = do
    (count, e') ← drain (dispatch_fast fcap) outs fuel 0 e
    (went, e'') ← dispatch_bulk bcap e' out
    some (if went then count + 1 else count, e'')

  -- `dispatchAll`
  unfoldable pub dispatch_all :
      (ℕ → Outside) → (ℕ → Outside) → ℕ → ℕ → Emulator → Option (ℕ × Emulator)
  dispatch_all outs bulk_outs fuel bulk_fuel e = do
    (count, e') ← drain (dispatch_fast fcap) outs fuel 0 e
    drain (dispatch_bulk bcap) bulk_outs bulk_fuel count e'

  -- The loop of `dispatchRatio`, on fuel; `outs` is what the outside decides in the three calls of
  -- a round.
  unfoldable pub dispatch_ratio :
      (ℕ → ℕ → Outside) → ℕ → ℕ → ℕ → ℕ → Emulator → Option (ℕ × Emulator)
  dispatch_ratio outs fast_per_bulk zero count fast_count e = none
  dispatch_ratio outs fast_per_bulk (suc fuel) count fast_count e = do
    (went, e1) ←
        (if ltb fast_count fast_per_bulk
          then dispatch_fast fcap e (outs count 0)
          else some (false, e))
    elim went [
      | true ↦ dispatch_ratio outs fast_per_bulk fuel (count + 1) (fast_count + 1) e1
      | false ↦ do
        (went_bulk, e2) ← dispatch_bulk bcap e1 (outs count 1)
        elim went_bulk [
          | true ↦ dispatch_ratio outs fast_per_bulk fuel (count + 1) 0 e2
          | false ↦ do
            (went_fast, e3) ← dispatch_fast fcap e2 (outs count 2)
            elim went_fast [
              | true ↦ dispatch_ratio outs fast_per_bulk fuel (count + 1) (fast_count + 1) e3
              | false ↦ some (count, e3)
            ]
        ]
    ]

unfoldable pub fast_empty : Emulator → Bool
fast_empty e = Mpmc.empty e.fast.queue

unfoldable pub bulk_empty : Emulator → Bool
bulk_empty e = Mpmc.empty e.bulk.queue

unfoldable pub empty : Emulator → Bool
empty e = fast_empty e && bulk_empty e

unfoldable pub fast_queue_size : Emulator → ℕ
fast_queue_size e = Mpmc.size_approx e.fast.queue

unfoldable pub bulk_queue_size : Emulator → ℕ
bulk_queue_size e = Mpmc.size_approx e.bulk.queue
