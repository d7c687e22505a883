-- ===== src/Message.antt =====
-- The messages of src/eventqueue_fast.h, which src/eventqueue_batch.h and the bulk queue of
-- src/eventqueue_emulator.h have under other names: what a post writes to a message, and what a
-- dispatch does with it. A callback is logged; what client code does in it is not modelled.
pub mod Letters
pub mod Compose
pub mod Mail
use message_center_cpp.Common.{
  ℕ, ◌-◌, Bool, true, false, Option, none, some, ◌>>=◌, List, [], ◌∷◌, length, take, ltb, leb,
  if◌then◌else◌,
}
use message_center_cpp.Payload
use message_center_cpp.Payload.{Store}
use message_center_cpp.Mailbox.{Mailbox, Outside, reserve, write, enqueue, receive, recycle}

-- FAST_INLINE_MAX
abbrev pub inline_max : ℕ
inline_max = 48

pub record FastObserver : Type 0 where
  pub callback : ℕ
  pub user_data : Option ℕ

-- `observers` has the first `observerCount` entries of the array. The two members of the union
-- stand apart, and `is_inline` says which one is in force.
pub record FastMessage : Type 0 where
  pub topic_id : ℕ
  pub is_inline : Bool
  pub payload_size : ℕ
  pub observers : List FastObserver
  pub managed : Option ℕ
  pub inline_data : List ℕ

-- A call of client code, with the bytes that its pointer leads to.
pub record FastCall : Type 0 where
  pub callback : ℕ
  pub topic_id : ℕ
  pub bytes : List ℕ
  pub size : ℕ
  pub user_data : Option ℕ

-- The payload of a message for `count` observers. `none` is a copy from a null pointer.
unfoldable pub make_payload : Store → ℕ → ℕ → Option (List ℕ) → ℕ → Option Store
make_payload s addr count none size = none
make_payload s addr count (some bytes) size =
    let s' = Payload.create s addr (take size bytes) in
    if ltb 1 count then Payload.add_refs s' addr (count - 1) else some s'

unfoldable pub copy_inline : Option (List ℕ) → ℕ → List ℕ → List ℕ
copy_inline none size old = old
copy_inline (some bytes) size old = if ltb 0 size then take size bytes else old

-- What `post` writes to the message that the pool gave, and what becomes of the payloads.
unfoldable pub compose :
    Store
    → List FastObserver
    → ℕ
    → Option (List ℕ)
    → ℕ
    → ℕ
    → FastMessage
    → Option (FastMessage × Store)
compose s os topic_id bytes size payload old =
    let m : FastMessage = record old { topic_id = topic_id; payload_size = size; observers = os } in
    if leb size inline_max
    then some
        (record m { is_inline = true; inline_data = copy_inline bytes size old.inline_data }, s)
    else do
      s' ← make_payload s payload (length os) bytes size
      some (record m { is_inline = false; managed = some payload }, s')

-- The bytes that the callbacks get; `none` is a payload that has been freed.
unfoldable pub data_of : FastMessage → Store → Option (List ℕ)
data_of m s =
    if m.is_inline
    then some (take m.payload_size m.inline_data)
    else elim m.managed [ none ↦ some [] | some p ↦ do payload ← s p; some payload.bytes ]

-- the release after each callback
unfoldable pub release_one : FastMessage → Store → Option Store
release_one m s =
    if m.is_inline then some s else elim m.managed [ none ↦ some s | some p ↦ Payload.release s p ]

-- the loop of `dispatchOne` over the observers: the calls and the payloads
unfoldable pub call_all : FastMessage → List FastObserver → Store → Option (List FastCall × Store)
call_all m [] s = some ([], s)
call_all m (o ∷ os) s = do
  bytes ← data_of m s
  s' ← release_one m s
  (calls, s'') ← call_all m os s'
  some (
    record {
      callback = o.callback;
      topic_id = m.topic_id;
      bytes = bytes;
      size = m.payload_size;
      user_data = o.user_data;
    }
        ∷ calls,
    s'',
  )

-- The part of `post` that follows its tests. `none` is a copy from a null pointer, or the loop
-- around `try_push` that goes on until a consumer has made room.
unfoldable pub send :
    ℕ
    → Mailbox FastMessage
    → Store
    → List FastObserver
    → ℕ
    → Option (List ℕ)
    → ℕ
    → Outside
    → Option (Mailbox FastMessage × Store)
send cap b s os topic_id bytes size out = do
  let (node, b') = reserve b out
  (m, s') ← compose s os topic_id bytes size out.payload (b'.messages node)
  b'' ← enqueue cap (write b' node m) node out
  some (b'', s')

-- `dispatchOne`: the calls, or `none` for the answer `false`
unfoldable pub deliver :
    ℕ
    → Mailbox FastMessage
    → Store
    → Outside
    → Option (Option (List FastCall) × Mailbox FastMessage × Store)
deliver cap b s out = do
  (got, b') ← receive cap b out
  elim got [
    | none ↦ some (none, b', s)
    | some node ↦ do
      let m = b'.messages node
      (calls, s') ← call_all m m.observers s
      some (some calls, recycle b' node out, s')
  ]
