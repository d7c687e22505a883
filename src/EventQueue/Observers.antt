-- ===== src/EventQueue/Observers.antt =====
-- `AddObserver`, the three `RemoveObserver` functions and `ClearTopics` of src/eventqueue.cpp. Each is one step:
-- the mutexes serialise them.
pub mod Lists
pub mod Laws
use Prim.Native.String.{String}
use message_center_cpp.Common.{
  ℕ, ◌+◌, ◌%◌, ◌^◌, Bool, true, false, ◌&&◌, not, Option, none, some, List, [], ◌∷◌, ◌++◌, ◌==◌,
  if◌then◌else◌,
}
use message_center_cpp.Common.Int.{ℤ, is_neg}
use message_center_cpp.Common.Maps.{insert, int_eq}
use message_center_cpp.EventQueue.Topics
use message_center_cpp.EventQueue.Types.{ObserverDescriptor, blank}
use message_center_cpp.EventQueue.State.{EventQueue, get_observers, wait_returns}

-- Equality of two pointers.
abbrev pub same_pointer : Option ℕ → Option ℕ → Bool
same_pointer none none = true
same_pointer (some a) (some b) = a == b
same_pointer _ _ = false

abbrev pub or_empty : Option (List ObserverDescriptor) → List ObserverDescriptor
or_empty none = []
or_empty (some ds) = ds

-- `AddObserver(topic, observer)`: the ID 0 is the error of an invalid topic.
unfoldable pub add_observer : EventQueue → String → ObserverDescriptor → ℕ × EventQueue
add_observer q topic observer =
    let (topic_id, registry) = Topics.register q.registry topic in
    let observer_id = q.next_observer_id in
    if is_neg topic_id then (0, record q { registry = registry }) else (
      observer_id,
      record q {
        registry = registry;
        next_observer_id = (observer_id + 1) % 2 ^ 64;
        topic_observers =
            insert topic_id
              (or_empty (get_observers q topic_id)
                ++ record observer { observer_id = observer_id } ∷ [])
              q.topic_observers;
      },
    )

-- The overloads of `AddObserver` that build the descriptor.
unfoldable pub add_callback : EventQueue → String → Option ℕ → ℕ × EventQueue
add_callback q topic callback = add_observer q topic (record blank { callback = callback })

unfoldable pub add_method : EventQueue → String → Option ℕ → Option ℕ → ℕ × EventQueue
add_method q topic instance_ptr callback =
    add_observer q topic
      (record blank { callback_method = callback; observer_instance = instance_ptr })

unfoldable pub add_func : EventQueue → String → Option ℕ → ℕ × EventQueue
add_func q topic callback = add_observer q topic (record blank { callback_func = callback })

-- The loop that erases and deletes every match: what stays, and what is deleted.
unfoldable pub erase_all :
    (ObserverDescriptor → Bool)
    → List ObserverDescriptor
    → List ObserverDescriptor × List ObserverDescriptor
erase_all matches [] = ([], [])
erase_all matches (d ∷ ds) =
    let (kept, gone) = erase_all matches ds in
    if matches d then (kept, d ∷ gone) else (d ∷ kept, gone)

-- The loop that erases and deletes the first match and breaks.
unfoldable pub erase_first :
    (ObserverDescriptor → Bool)
    → List ObserverDescriptor
    → List ObserverDescriptor × List ObserverDescriptor
erase_first matches [] = ([], [])
erase_first matches (d ∷ ds) =
    let (kept, gone) = erase_first matches ds in
    if matches d then (ds, d ∷ []) else (d ∷ kept, gone)

-- What the three functions share: the topic's vector is replaced, if there is one.
unfoldable pub replace_observers :
    EventQueue
    → ℤ
    → (List ObserverDescriptor → List ObserverDescriptor × List ObserverDescriptor)
    → EventQueue
replace_observers q topic_id loop = elim (get_observers q topic_id) [
  | none ↦ q
  | some ds ↦ record q {
    topic_observers = insert topic_id (loop ds).0 q.topic_observers;
    deleted_observers = q.deleted_observers ++ (loop ds).1;
  }
]

abbrev pub has_callback : Option ℕ → ObserverDescriptor → Bool
has_callback callback d = same_pointer d.callback callback

abbrev pub has_method : Option ℕ → Option ℕ → ObserverDescriptor → Bool
has_method instance_ptr callback d =
    same_pointer d.observer_instance instance_ptr && same_pointer d.callback_method callback

abbrev pub has_id : ℕ → ObserverDescriptor → Bool
has_id observer_id d = d.observer_id == observer_id

-- `RemoveObserver(topic, callback)`. The second result says whether the wait at its end returns.
unfoldable pub remove_callback : EventQueue → String → Option ℕ → EventQueue × Bool
remove_callback q topic callback =
    let q' =
      replace_observers q (Topics.resolve q.registry topic) (erase_all (has_callback callback)) in
    (q', wait_returns q')

-- `RemoveObserver(topic, instance, callback)`
unfoldable pub remove_method : EventQueue → String → Option ℕ → Option ℕ → EventQueue × Bool
remove_method q topic instance_ptr callback =
    let q' =
      replace_observers q (Topics.resolve q.registry topic)
        (erase_all (has_method instance_ptr callback)) in
    (q', wait_returns q')

-- `RemoveObserverById`: the ID 0 returns at once.
unfoldable pub remove_by_id : EventQueue → String → ℕ → EventQueue × Bool
remove_by_id q topic observer_id =
    let q' =
      replace_observers q (Topics.resolve q.registry topic) (erase_first (has_id observer_id)) in
    if observer_id == 0 then (q, true) else (q', wait_returns q')

-- `ClearTopics`: the observers stay.
unfoldable pub clear_topics : EventQueue → EventQueue
clear_topics q = record q { registry = Topics.clear q.registry }
