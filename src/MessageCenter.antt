-- ===== src/MessageCenter.antt =====
-- src/messagecenter.cpp: the worker thread, its loop here, its start and stop in Lifecycle.
pub mod Office
pub mod Replies
pub mod Delivery
pub mod Lifecycle
pub mod Instance
use message_center_cpp.Common.{
  ◌≡◌, ap, Bool, if◌then◌else◌, true, false, Option, none, some, List, [], ◌∷◌,
}
use message_center_cpp.EventQueue.Types.{Message, Invocation}
use message_center_cpp.EventQueue.State.{EventQueue}
use message_center_cpp.EventQueue.Messages.{get_queue_message}
use message_center_cpp.EventQueue.Dispatch.{dispatch}
use message_center_cpp.EventQueue.Handlers.{Request, serve_all}

-- What a round of the loop meets: the calls that other threads make before it, and what
-- `m_requestStop.load()` returns in it.
pub record Round : Type 0 where
  pub requests : List Request
  pub request_stop : Bool

module _ (handler : Invocation → EventQueue → EventQueue) where
  deliver : Option Message × EventQueue → EventQueue
  deliver (none, q) = q
  deliver (some m, q) = dispatch handler q m.tid (some m)

  -- The body of the loop after its test. Where the queue is empty, the thread waits for at most
  -- 50 ms and goes on, which changes nothing.
  unfoldable pub work : EventQueue → EventQueue
  unfolding deliver
  work q = deliver (get_queue_message q)

  pub work-some :
      (q : EventQueue) {q' : EventQueue} {m : Message}
      → get_queue_message q ≡ (some m, q')
      → work q ≡ dispatch handler q' m.tid (some m)
  unfolding work
  work-some q e = ap deliver e

  pub work-none : (q : EventQueue) → get_queue_message q ≡ (none, q) → work q ≡ q
  unfolding work
  work-none q e = ap deliver e

  -- `ThreadWorker` for as many rounds as are given: whether it has stopped, and the queue.
  unfoldable pub thread_worker : List Round → EventQueue → Bool × EventQueue
  thread_worker [] q = (false, q)
  thread_worker (r ∷ rounds) q =
      let q' = serve_all r.requests q in
      let rest = thread_worker rounds (work q') in if r.request_stop then (true, q') else rest
