-- ===== src/EventQueue/Dispatch.antt =====
-- `Dispatch` of src/eventqueue.cpp, with the marks that removals wait for.
pub mod Calls
use message_center_cpp.Common.{
  ℕ, ◌+◌, ◌-◌, Bool, true, false, Option, none, some, List, [], ◌∷◌, ◌++◌, if◌then◌else◌,
}
use message_center_cpp.Common.Int.{ℤ, pos}
use message_center_cpp.EventQueue.Types.{
  ObserverDescriptor, Message, Invocation, function, method, func,
}
use message_center_cpp.EventQueue.State.{EventQueue, get_observers}
use message_center_cpp.EventQueue.Observers.{or_empty}

-- Which of its callbacks a descriptor is called by: the first that is set.
by_func : ℕ → Message → Option ℕ → Option Invocation
by_func id m none = none
by_func id m (some f) = some (func f id m)

by_method : ℕ → Message → Option ℕ → Option ℕ → Option ℕ → Option Invocation
by_method id m (some c) (some i) f = some (method i c id m)
by_method id m _ _ f = by_func id m f

unfoldable pub invocation : ℕ → Message → ObserverDescriptor → Option Invocation
unfolding by_func by_method
invocation id m d = elim d.callback [
  | some c ↦ some (function c id m)
  | none ↦ by_method id m d.callback_method d.observer_instance d.callback_func
]

unfoldable pub mark_active : EventQueue → EventQueue
mark_active q = record q { active_dispatches = q.active_dispatches + 1; in_dispatch = true }

unfoldable pub mark_complete : EventQueue → EventQueue
mark_complete q = record q { active_dispatches = q.active_dispatches - 1; in_dispatch = false }

-- the payloads that the end of `Dispatch` deletes: `message->cleanupPayload && message->obj`
unfoldable pub cleaned : Message → List ℕ
cleaned m = if m.cleanup_payload then (elim m.obj [ none ↦ [] | some p ↦ p ∷ [] ]) else []

unfoldable pub cleanup : Message → EventQueue → EventQueue
cleanup m q = record q {
  deleted_payloads = q.deleted_payloads ++ cleaned m;
  deleted_messages = q.deleted_messages ++ m ∷ [];
}

-- Client code is a parameter: `handler i q` is the queue after the call `i`, which may use the
-- queue as it likes. It is assumed not to write to the message.
module _ (handler : Invocation → EventQueue → EventQueue) where
  unfoldable pub call : Option Invocation → EventQueue → EventQueue
  call none q = q
  call (some i) q = handler i (record q { calls = q.calls ++ i ∷ [] })

  -- The loop over the snapshot.
  unfoldable pub invoke_all : ℕ → Message → List ObserverDescriptor → EventQueue → EventQueue
  invoke_all id m [] q = q
  invoke_all id m (d ∷ ds) q = invoke_all id m ds (call (invocation id m d) q)

  -- The descriptors are copied before any handler runs.
  unfoldable pub dispatch : EventQueue → ℕ → Option Message → EventQueue
  dispatch q id none = q
  dispatch q id (some m) =
      let snapshot = or_empty (get_observers q (pos id)) in
      cleanup m (mark_complete (invoke_all id m snapshot (mark_active q)))
