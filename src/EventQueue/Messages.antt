-- ===== src/EventQueue/Messages.antt =====
-- `Post`, `GetQueueMessage` and `dispose` of src/eventqueue.cpp.
use Prim.Native.String.{String}
use message_center_cpp.Common.{ℕ, ◌≡◌, ap, Bool, Option, none, some, List, [], ◌∷◌, ◌++◌}
use message_center_cpp.Common.Int.{ℤ, pos, negsuc}
use message_center_cpp.EventQueue.Topics
use message_center_cpp.EventQueue.Types.{ObserverDescriptor, Message}
use message_center_cpp.EventQueue.State.{EventQueue}

-- `Post(id, obj, autoCleanupPayload)`
unfoldable pub post_id : EventQueue → ℤ → Option ℕ → Bool → EventQueue
post_id q (pos id) obj cleanup = record q {
  message_queue = q.message_queue ++ record { tid = id; obj = obj; cleanup_payload = cleanup } ∷ [];
}
post_id q (negsuc n) obj cleanup = q

-- `Post(topic, obj, autoCleanupPayload)`
unfoldable pub post_topic : EventQueue → String → Option ℕ → Bool → EventQueue
post_topic q topic obj cleanup = post_id q (Topics.resolve q.registry topic) obj cleanup

take_front : EventQueue → List Message → Option Message × EventQueue
take_front q [] = (none, q)
take_front q (m ∷ ms) = (some m, record q { message_queue = ms })

-- `GetQueueMessage`; `none` is the null pointer.
unfoldable pub get_queue_message : EventQueue → Option Message × EventQueue
unfolding take_front
get_queue_message q = take_front q q.message_queue

pub get_queue_message-cons :
    (q : EventQueue) {m : Message} {ms : List Message}
    → q.message_queue ≡ m ∷ ms
    → get_queue_message q ≡ (some m, record q { message_queue = ms })
unfolding get_queue_message
get_queue_message-cons q e = ap (take_front q) e

pub get_queue_message-nil :
    (q : EventQueue) → q.message_queue ≡ [] → get_queue_message q ≡ (none, q)
unfolding get_queue_message
get_queue_message-nil q e = ap (take_front q) e

unfoldable pub all_observers : List (ℤ × List ObserverDescriptor) → List ObserverDescriptor
all_observers [] = []
all_observers ((id, ds) ∷ m) = ds ++ all_observers m

-- `dispose`: the messages and the descriptors are deleted.
unfoldable pub dispose : EventQueue → EventQueue
unfolding all_observers
dispose q = record q {
  message_queue = [];
  topic_observers = [];
  deleted_messages = q.deleted_messages ++ q.message_queue;
  deleted_observers = q.deleted_observers ++ all_observers q.topic_observers;
}
