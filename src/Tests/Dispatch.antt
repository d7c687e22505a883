-- ===== src/Tests/Dispatch.antt =====
-- A dispatch of src/eventqueue.cpp whose handler removes itself and posts again.
use message_center_cpp.Common.{◌≡◌, ◌++◌, true, false, none, some, List, [], ◌∷◌}
use message_center_cpp.Common.Int.{pos}
use message_center_cpp.EventQueue.Types.{Message, Invocation, blank}
use message_center_cpp.EventQueue.State.{EventQueue, init}
use message_center_cpp.EventQueue.Observers.{add_observer}
use message_center_cpp.EventQueue.Observers.Laws.{observers}
use message_center_cpp.EventQueue.Dispatch.{dispatch, cleaned}
use message_center_cpp.EventQueue.Dispatch.Calls.{calls_of, dispatch_lem}
use message_center_cpp.EventQueue.Handlers.{
  Request, remove_numbered, post_named, serve_all, serve_all-LeavesMarks,
}

abbrev pub once : Invocation → List Request
once i = remove_numbered "audio" 1 ∷ post_named "audio" none false ∷ []

abbrev listening : EventQueue
listening =
    (add_observer (add_observer init "audio" (record blank { callback_func = some 7 })).1 "audio"
      (record blank { callback = some 8 })).1

abbrev note : Message
note = record { tid = 0; obj = some 5; cleanup_payload = true }

dispatch_lem_example :
    let q' = dispatch (λ i. serve_all (once i)) listening 0 (some note) in
    (q'.calls ≡ listening.calls ++ calls_of 0 note (observers listening (pos 0)))
    × (q'.deleted_payloads ≡ listening.deleted_payloads ++ cleaned note)
    × (q'.deleted_messages ≡ listening.deleted_messages ++ note ∷ [])
    × (q'.active_dispatches ≡ listening.active_dispatches)
    × (q'.in_dispatch ≡ false)
dispatch_lem_example = dispatch_lem (serve_all-LeavesMarks once) listening 0 note
