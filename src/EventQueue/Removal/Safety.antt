-- ===== src/EventQueue/Removal/Safety.antt =====
-- What a removal of src/eventqueue.cpp promises: once it has returned, the handler is not running
-- and will not run again.
use message_center_cpp.Common.{ℕ, ◌<◌}
use message_center_cpp.EventQueue.Removal.{
  System, Step, add, begin, call, finish, remove, remove_elsewhere, remove_unresolved,
  remove_matching, return, remove_inside, remove_matching_inside, Reach, here, next,
}
use message_center_cpp.EventQueue.Removal.Threads.{pending, Absent}
use message_center_cpp.EventQueue.Removal.Invariant.{Within, Inv, start-Inv, add-Inv}
use message_center_cpp.EventQueue.Removal.Moves.{begin-Inv, call-Inv, finish-Inv, return-Inv}
use message_center_cpp.EventQueue.Removal.Erase.{
  remove-Inv, remove_elsewhere-Inv, remove_unresolved-Inv, remove_matching-Inv, remove_inside-Inv,
  remove_matching_inside-Inv,
}

Step-Inv : {n : ℕ} {s t : System} → Step n s t → Inv n s → Inv n t
Step-Inv (add topic) v = add-Inv v topic
Step-Inv (begin i topic lt e) v = begin-Inv v i topic lt e
Step-Inv (call i x xs lt e) v = call-Inv v i x xs lt e
Step-Inv (finish i lt e) v = finish-Inv v i lt e
Step-Inv (remove i x lt e some_id known) v = remove-Inv v i x lt e known
Step-Inv (remove_elsewhere i x topic lt e some_id ne) v = remove_elsewhere-Inv v i x topic lt e
Step-Inv (remove_unresolved i lt e) v = remove_unresolved-Inv v i lt e
Step-Inv (remove_matching i topic matches lt e) v = remove_matching-Inv v i topic matches lt e
Step-Inv (return i xs lt e none_active) v = return-Inv v i xs lt e none_active
Step-Inv (remove_inside i x topic snapshot lt e) v = remove_inside-Inv v x topic
Step-Inv (remove_matching_inside i topic matches snapshot lt e) v =
    remove_matching_inside-Inv v topic matches

pub Reach-Inv : {n : ℕ} {s : System} → Reach n s → Inv n s
Reach-Inv {n} here = start-Inv n
Reach-Inv (next r st) = Step-Inv st (Reach-Inv r)

-- In every interleaving of any number of threads: once a removal has returned to a caller outside
-- of any dispatch, each handler that it was to take off the topic that it named (the one of the ID,
-- where that is its topic, or those that matched) is in no topic, no thread is running it, and none
-- will call it from an older snapshot.
pub removed_is_silent :
    {n : ℕ} {s : System} (x topic i : ℕ)
    → Reach n s
    → Within x s.returned
    → i < n
    → Absent x (s.observers topic) × Absent x (pending (s.pc i))
removed_is_silent x topic i r w lt =
    ((Reach-Inv r).gone x topic w, (Reach-Inv r).unreached i x lt w)
