-- ===== src/Fast/Threads/Safety.antt =====
-- The steps of the threads of src/eventqueue_fast.h and the invariant, in any interleaving.
use message_center_cpp.Common.{ℕ, refl}
use message_center_cpp.Mpmc.Arith.{IsCapacity}
use message_center_cpp.Fast.Threads.{
  returning, deleting, System, Step, add_observer, begin, read, claimed, missed, made, written,
  pushed, popped, called, released, kept, refused, dropped, loaded, linked, put_back, overtaken,
  Reach, here, next,
}
use message_center_cpp.Fast.Threads.State.{Inv, start-Inv, observer-Inv}
use message_center_cpp.Fast.Threads.Gains.{begin-Inv, read-Inv, claimed-Inv, missed-Inv, made-Inv}
use message_center_cpp.Fast.Threads.Returns.{
  leave-Inv, drop-Inv, load-Inv, reload-Inv, link-Inv, put-Inv,
}
use message_center_cpp.Fast.Threads.Posts.{fill-Inv, push-Inv}
use message_center_cpp.Fast.Threads.Dispatches.{pop-Inv, call-Inv, release-Inv}

step-Inv : {cap : ℕ} (c : IsCapacity cap) {s t : System} → Inv cap s → Step cap s t → Inv cap t
step-Inv c v (add_observer topic_id o known room unread) = observer-Inv v topic_id o room
step-Inv c v (begin i topic_id bytes e known observed single) =
    begin-Inv v i topic_id bytes e observed single
step-Inv c v (read i os topic_id bytes old_head e) = read-Inv v i os topic_id bytes old_head e
step-Inv c v (claimed i os topic_id bytes old_head new_head e h) =
    claimed-Inv v i os topic_id bytes old_head new_head e h
step-Inv c v (missed i os topic_id bytes old_head new_head e) =
    missed-Inv v i os topic_id bytes old_head new_head e
step-Inv c v (made i os topic_id bytes e) = made-Inv v i os topic_id bytes e
step-Inv c v (written i node os topic_id bytes m t e h) =
    fill-Inv c v i node os topic_id bytes m t e h
step-Inv c v (pushed i failures node l b e h) = push-Inv c v i failures node l b e h
step-Inv c v (popped i failures node b e h) = pop-Inv c v i failures node b e h
step-Inv c v (called i node pos o rest bytes e h) = call-Inv c v i node pos o rest bytes e h
step-Inv c v (released i node pos rest t e h) = release-Inv c v i node pos rest t e h
step-Inv c v (kept i node pos e h) = leave-Inv v i node pos (returning node) refl refl refl tt tt e
step-Inv c v (refused i node pos e h) =
    leave-Inv v i node pos (deleting node) refl refl refl tt tt e
step-Inv c v (dropped i node e) = drop-Inv v i node e
step-Inv c v (loaded i node e) = load-Inv v i node e
step-Inv c v (linked i node old_head e) = link-Inv v i node old_head e
step-Inv c v (put_back i node old_head e h) = put-Inv v i node old_head e h
step-Inv c v (overtaken i node old_head e) = reload-Inv v i node old_head e

pub reach-Inv : {cap : ℕ} (c : IsCapacity cap) {s : System} → Reach cap s → Inv cap s
reach-Inv c (here free v) = start-Inv c free v
reach-Inv c (next r h) = step-Inv c (reach-Inv c r) h
