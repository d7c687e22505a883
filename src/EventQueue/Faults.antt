-- ===== src/EventQueue/Faults.antt =====
-- Where src/eventqueue.cpp does not do what it means to.
use Prim.Native.String.{String}
use text.Mathlib.TextEquality.{eq_iff}
use message_center_cpp.Common.{ℕ, ◌≡◌, refl, ◌≢◌, true, some, [], ◌∷◌, ◌++◌, arith}
use message_center_cpp.Common.Int.{pos}
use message_center_cpp.Common.Maps.{lookup}
use message_center_cpp.EventQueue.Types.{ObserverDescriptor, Message}
use message_center_cpp.EventQueue.State.{EventQueue, get_observers}
use message_center_cpp.EventQueue.Topics
use message_center_cpp.EventQueue.Topics.Invariant.{init-IsValid, clear-eq-init}
use message_center_cpp.EventQueue.Topics.Lookup.{register-resolve}
use message_center_cpp.EventQueue.Observers.{clear_topics, add_observer}
use message_center_cpp.EventQueue.Observers.Laws.{observers, add_observer_lem, add_observer-kept}
use message_center_cpp.EventQueue.Messages.{post_id, dispose}
use message_center_cpp.EventQueue.Dispatch.{cleaned}

-- `dispose` deletes the messages that wait, and none of the payloads that they own: a payload
-- posted with `autoCleanupPayload` to a topic leaks when the queue goes before it is dispatched.
pub dispose_leaks :
    (q : EventQueue) (id payload : ℕ)
    → let q' = post_id q (pos id) (some payload) true in
      let m : Message = record { tid = id; obj = some payload; cleanup_payload = true } in
      ((dispose q').deleted_messages ≡ q.deleted_messages ++ (q.message_queue ++ m ∷ []))
      × (cleaned m ≡ payload ∷ [])
      × ((dispose q').deleted_payloads ≡ q.deleted_payloads)
unfolding dispose post_id cleaned
dispose_leaks q id payload = (refl, refl, refl)

register_first :
    (t : Topics.Topics) (name : String)
    → name ≢ ""
    → (Topics.register (Topics.clear t) name).0 ≡ pos 0
unfolding Topics.register Topics.clear lookup
register_first t name ne = ground (arith, eq_iff name "")

-- `ClearTopics` forgets the names and keeps the observers: the first topic that is registered
-- after it gets ID 0 again, and with it every observer that was registered for another name.
pub clear_topics_stale :
    (q : EventQueue) (topic : String) (d : ObserverDescriptor)
    → topic ≢ ""
    → let q' = (add_observer (clear_topics q) topic d).1 in
      (Topics.resolve q'.registry topic ≡ pos 0)
      × (observers q' (pos 0)
          ≡ observers q (pos 0) ++ record d { observer_id = q.next_observer_id } ∷ [])
unfolding clear_topics get_observers
clear_topics_stale q topic d ne = ground (
  arith,
  register_first q.registry topic ne,
  add_observer-kept (clear_topics q) topic d,
  (register-resolve {t = Topics.clear q.registry} topic
      (rw (clear-eq-init q.registry) init-IsValid)).0,
  (add_observer_lem (clear_topics q) topic d).1 (pos 0),
)
