-- ===== src/Tests/Observers.antt =====
-- The observers of src/eventqueue.cpp on a queue with one topic and two observers.
use Prim.Native.String.{String}
use message_center_cpp.Common.{ℕ, ◌≡◌, some, [], ◌∷◌, ◌++◌, arith, ◌≢◌}
use text.Mathlib.TextEquality.{eq_iff}
use message_center_cpp.Common.Int.{pos}
use message_center_cpp.EventQueue.Topics
use message_center_cpp.EventQueue.Types.{ObserverDescriptor, blank}
use message_center_cpp.EventQueue.State.{EventQueue, init}
use message_center_cpp.EventQueue.Observers.{add_observer, remove_by_id, clear_topics}
use message_center_cpp.EventQueue.Observers.Laws.{
  observers, IsValid, init-IsValid, add_observer-IsValid, add_observer-remove_by_id,
}
use message_center_cpp.EventQueue.Faults.{clear_topics_stale}

abbrev logger : ObserverDescriptor
logger = record blank { callback_func = some 7 }

abbrev pub one_observer : EventQueue
one_observer = (add_observer init "audio" logger).1

pub one_observer-IsValid : IsValid one_observer
unfolding init
one_observer-IsValid = add_observer-IsValid "audio" logger (omega arith) init-IsValid

add_observer-IsValid_example : IsValid (add_observer init "audio" logger).1
unfolding init
add_observer-IsValid_example = add_observer-IsValid "audio" logger (omega arith) init-IsValid

add_observer-remove_by_id_example :
    let (observer_id, q') = add_observer one_observer "audio" logger in
    observers (remove_by_id q' "audio" observer_id).0 (pos 0) ≡ observers one_observer (pos 0)
add_observer-remove_by_id_example =
    add_observer-remove_by_id "audio" logger (pos 0) one_observer-IsValid

abbrev numbered : ℕ → ObserverDescriptor
numbered n = record logger { observer_id = n }

input_given : ◌≢◌ {A = String} "input" ""
input_given = ground (arith, eq_iff "input" "")

clear_topics_stale_example :
    let q' = (add_observer (clear_topics one_observer) "input" logger).1 in
    (Topics.resolve q'.registry "input" ≡ pos 0)
    × (observers q' (pos 0)
        ≡ observers one_observer (pos 0)
          ++ record logger { observer_id = one_observer.next_observer_id } ∷ [])
clear_topics_stale_example = clear_topics_stale one_observer "input" logger input_given
