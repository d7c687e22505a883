-- ===== src/CenterFast.antt =====
-- src/messagecenter_fast.h: `MessageCenterFast`, as one thread runs it: topics, observers, `post`, and
-- a round of `dispatchLoop`. A callback is logged; what client code does in it is not modelled.
pub mod Delivery
pub mod Notices
pub mod Rounds
pub mod Worker
pub mod Lifecycle
pub mod Instance
use Prim.Native.String.{String}
use message_center_cpp.Common.{
  ℕ, zero, suc, ◌+◌, ◌-◌, ◌%◌, ◌^◌, Bool, true, false, Option, none, some, ◌>>=◌, List, [], ◌∷◌,
  ◌++◌, length, ltb, leb, ◌==◌, if◌then◌else◌,
}
use message_center_cpp.Common.Maps.{lookup, insert, string_eq}
use message_center_cpp.Mpmc
use message_center_cpp.Mpmc.{Ring}
use message_center_cpp.PoolLockFree
use message_center_cpp.Mailbox.{Outside, update}

-- MC_FAST_MAX_TOPICS, MC_FAST_INLINE_SIZE, UINT16_MAX
abbrev pub fast_max_topics : ℕ
fast_max_topics = 1024

abbrev pub fast_inline_size : ℕ
fast_inline_size = 64

abbrev pub no_topic : ℕ
no_topic = 2 ^ 16 - 1

-- `managed_data` is the block that `malloc` gave, with its bytes. `refCount` is not used by any
-- operation.
pub record MessageFast : Type 0 where
  pub topic_id : ℕ
  pub flags : ℕ
  pub size : ℕ
  pub inline_data : List ℕ
  pub managed_data : Option (List ℕ)

-- An entry's callback is `none` where the `std::function` is empty.
pub record ObserverEntryFast : Type 0 where
  pub callback : Option ℕ
  pub user_data : Option ℕ

-- A call of client code, with the bytes that its pointer leads to.
pub record CallFast : Type 0 where
  pub callback : ℕ
  pub topic_id : ℕ
  pub bytes : List ℕ
  pub size : ℕ

-- The members, what the nodes of the pool hold, the number of blocks that `malloc` gave and that are
-- not freed, and a log of the calls.
pub record CenterFast : Type 0 where
  pub queue : Ring (Option ℕ)
  pub message_pool : PoolLockFree.Pool
  pub messages : ℕ → MessageFast
  pub topic_names : ℕ → String
  pub topic_map : List (String × ℕ)
  pub next_topic_id : ℕ
  pub observers : ℕ → List ObserverEntryFast
  pub posted : ℕ
  pub dispatched : ℕ
  pub live_blocks : ℕ
  pub calls : List CallFast

-- `registerTopic`
unfoldable pub register_topic : CenterFast → String → ℕ × CenterFast
register_topic c name = elim (lookup name c.topic_map) [
  | some id ↦ (id, c)
  | none ↦
      let id = c.next_topic_id in
      let counted = (c.next_topic_id + 1) % 2 ^ 16 in
      if leb fast_max_topics id then (no_topic, record c { next_topic_id = counted }) else (
        id,
        record c {
          next_topic_id = counted;
          topic_names = update c.topic_names id name;
          topic_map = insert name id c.topic_map;
        },
      )
]

-- `resolveTopic`
unfoldable pub resolve_topic : CenterFast → String → ℕ
resolve_topic c name = elim (lookup name c.topic_map) [ none ↦ no_topic | some id ↦ id ]

-- `addObserver(topicId, callback, userData)`
unfoldable pub add_observer : CenterFast → ℕ → ObserverEntryFast → CenterFast
add_observer c topic_id entry =
    if leb fast_max_topics topic_id
    then c
    else record c { observers = update c.observers topic_id (c.observers topic_id ++ entry ∷ []) }

-- `addObserver(topic, callback, userData)`
unfoldable pub add_observer_named : CenterFast → String → ObserverEntryFast → CenterFast
add_observer_named c topic entry =
    let (id, c') = register_topic c topic in if id == no_topic then c' else add_observer c' id entry

-- the blocks that a message owns
abbrev pub owned : MessageFast → ℕ
owned m = elim m.managed_data [ none ↦ 0 | some bytes ↦ 1 ]

-- `MessageFast::reset`; the block is freed, which `owned` counts.
unfoldable pub reset : MessageFast → MessageFast
reset m = record m { topic_id = 0; flags = 0; size = 0; managed_data = none }

-- `MessageFast::data`, with the bytes that it leads to
unfoldable pub data_of : MessageFast → List ℕ
data_of m =
    if m.flags % 2 == 1
    then (elim m.managed_data [ none ↦ [] | some bytes ↦ bytes ])
    else m.inline_data

-- What `post` writes to the message that the pool gave; `bytes` is what `data` leads to, and `none` is
-- the null pointer; `block` is what `malloc` returns, with the bytes that it holds at first, and `none`
-- is its failure.
unfoldable pub write : ℕ → Option (List ℕ) → ℕ → Option (List ℕ) → MessageFast → MessageFast
write topic_id bytes size block old =
    if leb size fast_inline_size
    then record old {
      topic_id = topic_id;
      size = size % 2 ^ 32;
      flags = 0;
      inline_data = elim bytes [
        | none ↦ old.inline_data
        | some bs ↦ if ltb 0 size then bs else old.inline_data
      ];
    }
    else record old {
      topic_id = topic_id;
      size = size % 2 ^ 32;
      flags = 1;
      managed_data = elim block [
        | none ↦ none
        | some stale ↦ some (elim bytes [ none ↦ stale | some bs ↦ bs ])
      ];
    }

-- how many blocks `post` takes from `malloc`
taken : ℕ → Option (List ℕ) → ℕ
taken size none = 0
taken size (some stale) = if leb size fast_inline_size then 0 else 1

-- `post(topicId, data, size)`, where `data` is null or leads to `size` bytes
unfoldable pub post :
    ℕ
    → CenterFast
    → ℕ
    → Option (List ℕ)
    → ℕ
    → Option (List ℕ)
    → Outside
    → Option (Bool × CenterFast)
unfolding taken
post cap c topic_id bytes size block out =
    if leb fast_max_topics topic_id then some (false, c) else do
      let (node, pool) = PoolLockFree.acquire out.pool_failures c.message_pool out.node
      let m = write topic_id bytes size block (c.messages node)
      (pushed, ring) ← Mpmc.try_push cap out.ring_failures c.queue (some node)
      let live = c.live_blocks + taken size block
      if pushed
          then some (
            true,
            record c {
              queue = ring;
              message_pool = pool;
              messages = update c.messages node m;
              live_blocks = live;
              posted = (c.posted + 1) % 2 ^ 64;
            },
          )
          else some (
            false,
            record c {
              queue = ring;
              message_pool = PoolLockFree.release out.pool_failures pool (some node);
              messages = update c.messages node (reset m);
              live_blocks = live - owned m;
            },
          )

-- `post(topic, data, size)`
unfoldable pub post_named :
    ℕ
    → CenterFast
    → String
    → Option (List ℕ)
    → ℕ
    → Option (List ℕ)
    → Outside
    → Option (Bool × CenterFast)
post_named cap c topic bytes size block out =
    let id = resolve_topic c topic in
    let (new_id, c') = register_topic c topic in
    if id == no_topic
    then post cap c' new_id bytes size block out
    else post cap c id bytes size block out

-- the loop of `dispatch`
unfoldable pub call_all : MessageFast → List ObserverEntryFast → List CallFast
call_all m [] = []
call_all m (o ∷ os) =
    let rest = call_all m os in
    elim o.callback [
      | none ↦ rest
      | some f ↦
          record { callback = f; topic_id = m.topic_id; bytes = data_of m; size = m.size } ∷ rest
    ]

-- `dispatch`
unfoldable pub dispatch : CenterFast → MessageFast → List CallFast
dispatch c m = if leb fast_max_topics m.topic_id then [] else call_all m (c.observers m.topic_id)

-- A round of `dispatchLoop`, or of the loop that empties the ring after it: whether a message was
-- there. No operation pushes a null pointer.
unfoldable pub round : ℕ → CenterFast → Outside → Option (Bool × CenterFast)
round cap c out = do
  (popped, item, ring) ← Mpmc.try_pop cap out.ring_failures c.queue none
  if popped
      then (elim item [
        | none ↦ none
        | some node ↦
            let m = c.messages node in
            some (
              true,
              record c {
                queue = ring;
                message_pool = PoolLockFree.release out.pool_failures c.message_pool (some node);
                messages = update c.messages node (reset m);
                live_blocks = c.live_blocks - owned m;
                dispatched = (c.dispatched + 1) % 2 ^ 64;
                calls = c.calls ++ dispatch c m;
              },
            )
      ])
      else some (false, record c { queue = ring })

-- The loop of `dispatchLoop` that empties the ring, on fuel. The outside decides anew in each round.
unfoldable pub empty_ring : ℕ → (ℕ → Outside) → ℕ → CenterFast → Option CenterFast
empty_ring cap outs zero c = none
empty_ring cap outs (suc fuel) c = do
  (went, c') ← round cap c (outs fuel)
  elim went [ true ↦ empty_ring cap outs fuel c' | false ↦ some c' ]

-- `dispatchLoop`, with one entry for each round before `m_stopping` is read as true. Waiting is no
-- step.
unfoldable pub dispatch_loop : ℕ → List Outside → (ℕ → Outside) → ℕ → CenterFast → Option CenterFast
dispatch_loop cap [] outs fuel c = empty_ring cap outs fuel c
dispatch_loop cap (out ∷ rounds) outs fuel c = do
  (went, c') ← round cap c out
  dispatch_loop cap rounds outs fuel c'

-- `pending`, a difference of words
unfoldable pub pending : CenterFast → ℕ
pending c = (c.posted + (2 ^ 64 - c.dispatched)) % 2 ^ 64
