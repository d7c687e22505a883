-- ===== src/EventQueue/State.antt =====
-- The members of `EventQueue` in src/eventqueue.h, its constructor and the accessors.
use message_center_cpp.Common.{ℕ, Bool, true, false, Option, List, [], ◌==◌, ◌||◌}
use message_center_cpp.Common.Int.{ℤ}
use message_center_cpp.Common.Maps.{lookup, int_eq}
use message_center_cpp.EventQueue.Types.{ObserverDescriptor, Message, Invocation}
use message_center_cpp.EventQueue.Topics
use message_center_cpp.EventQueue.Topics.{Topics}

-- `registry` holds the three members that `m_mutexTopics` guards. `in_dispatch` is `tl_inDispatch`
-- of the thread that makes the calls. The last four fields are a log: the calls of client code
-- and what has been deleted.
pub record EventQueue : Type 0 where
  pub initialized : Bool
  pub registry : Topics
  pub topic_observers : List (ℤ × List ObserverDescriptor)
  pub message_queue : List Message
  pub next_observer_id : ℕ
  pub active_dispatches : ℕ
  pub in_dispatch : Bool
  pub calls : List Invocation
  pub deleted_payloads : List ℕ
  pub deleted_messages : List Message
  pub deleted_observers : List ObserverDescriptor

-- `EventQueue()`, with `init()`
unfoldable pub init : EventQueue
init = record {
  initialized = true;
  registry = Topics.init;
  topic_observers = [];
  message_queue = [];
  next_observer_id = 1;
  active_dispatches = 0;
  in_dispatch = false;
  calls = [];
  deleted_payloads = [];
  deleted_messages = [];
  deleted_observers = [];
}

-- `GetObservers`; `none` is the null vector pointer.
unfoldable pub get_observers : EventQueue → ℤ → Option (List ObserverDescriptor)
get_observers q id = lookup id q.topic_observers

-- Whether `WaitForDispatchesToComplete` returns now: a handler does not wait, and any other caller
-- waits until no dispatch is active.
unfoldable pub wait_returns : EventQueue → Bool
wait_returns q = q.in_dispatch || q.active_dispatches == 0
