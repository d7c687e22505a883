-- ===== src/Tests/MessageCenter.antt =====
-- src/messagecenter.cpp: a worker with two messages whose handler posts again, and the life of one
-- worker.
use message_center_cpp.Common.{◌≡◌, refl, true, false, none, some, List, [], ◌∷◌, ◌++◌, All, arith}
use message_center_cpp.Common.Int.{pos}
use message_center_cpp.Common.Maps.{lookup}
use message_center_cpp.EventQueue.Topics
use message_center_cpp.EventQueue.Types.{Message, Invocation, blank}
use message_center_cpp.EventQueue.State.{EventQueue, init}
use message_center_cpp.EventQueue.Observers.{add_observer}
use message_center_cpp.EventQueue.Messages.{post_id}
use message_center_cpp.EventQueue.Handlers.{Request, post_named, serve_all}
use message_center_cpp.MessageCenter.{Round, thread_worker}
use message_center_cpp.MessageCenter.Office.{IsPost, calls_for, cleaned_all, office}
use message_center_cpp.MessageCenter.Delivery.{Shows, thread_worker_refines, thread_worker_delivers}
use message_center_cpp.MessageCenter.Lifecycle.{
  Center, running, finished, construct, spawn, joined, Reach, here, next, check_start, start,
  check_stop, request, leave, finish, join,
}
use message_center_cpp.MessageCenter.Lifecycle.Workers.{one_worker, double_start}

abbrev again : Invocation → List Request
again i = post_named "audio" none false ∷ []

abbrev waiting : EventQueue
waiting =
    post_id
      (post_id (add_observer init "audio" (record blank { callback = some 8 })).1 (pos 0) (some 4)
        true)
      (pos 0) (some 5) false

abbrev rounds : List Round
rounds =
    record { requests = post_named "audio" (some 6) true ∷ []; request_stop = false }
    ∷ record { requests = []; request_stop = false }
    ∷ []

again-IsPost : (i : Invocation) → All IsPost (again i)
again-IsPost i = (tt, tt)

thread_worker_refines_example :
    Shows waiting
      (office waiting again rounds (record { delivered = []; waiting = waiting.message_queue }))
      (thread_worker (λ i. serve_all (again i)) rounds waiting).1
thread_worker_refines_example =
    thread_worker_refines again again-IsPost rounds waiting ((tt, tt), (tt, tt))

thread_worker_delivers_example :
    let q' = (thread_worker (λ i. serve_all (again i)) rounds waiting).1 in
    (more : List Message) × (q'.deleted_messages
      ≡ waiting.deleted_messages ++ (waiting.message_queue ++ more))
    × (q'.calls ≡ waiting.calls ++ calls_for waiting (waiting.message_queue ++ more))
    × (q'.deleted_payloads
        ≡ waiting.deleted_payloads ++ cleaned_all (waiting.message_queue ++ more))
unfolding add_observer post_id Topics.register lookup init Topics.init
thread_worker_delivers_example =
    thread_worker_delivers again again-IsPost rounds waiting ((tt, tt), (tt, tt)) (refl, (refl, tt))
      (omega arith)

-- A start and a stop.
abbrev stopped_once : (c : Center) × Reach 1 c
unfolding construct spawn joined
stopped_once = (
  _,
  next
      (next
        (next
          (next
            (next
              (next (next here (check_start 0 (omega arith) refl refl))
                (start 0 (omega arith) refl refl))
              (check_stop 0 (omega arith) refl refl))
            (request 0 (omega arith) refl refl))
          (leave 0 (omega arith) refl refl))
        (finish 0 (omega arith) refl))
      (join 0 0 (omega arith) refl refl refl),
)

abbrev restarted : (c : Center) × Reach 1 c
unfolding construct spawn joined
restarted = (
  _,
  next (next stopped_once.1 (check_start 0 (omega arith) refl refl))
      (start 0 (omega arith) refl refl),
)

one_worker_example : restarted.0.workers 0 ≡ finished
unfolding construct spawn joined
one_worker_example = one_worker 0 1 restarted.1 (omega arith) (omega arith)

double_start_example :
    (c : Center) × Reach 3 c
    × (c.workers 0 ≡ running)
    × (c.workers 1 ≡ running)
    × (c.thread ≡ some 1)
double_start_example = double_start 3 (omega arith)
