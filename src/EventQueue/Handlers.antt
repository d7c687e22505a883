-- ===== src/EventQueue/Handlers.antt =====
-- Client code that reaches the queue of src/eventqueue.cpp by its public functions.
use Prim.Native.String.{String}
use message_center_cpp.Common.{ℕ, ◌≡◌, refl, Bool, Option, List, [], ◌∷◌, arith}
use message_center_cpp.Common.Int.{ℤ, pos, negsuc}
use message_center_cpp.EventQueue.Types.{ObserverDescriptor, Invocation}
use message_center_cpp.EventQueue.State.{EventQueue}
use message_center_cpp.EventQueue.Observers.{
  add_observer, replace_observers, remove_callback, remove_method, remove_by_id, clear_topics,
}
use message_center_cpp.EventQueue.Messages.{post_id, post_topic}
use message_center_cpp.EventQueue.Dispatch.Calls.{LeavesMarks}

pub data Request : Type 0 where
  add : String → ObserverDescriptor → Request
  remove : String → Option ℕ → Request
  remove_bound : String → Option ℕ → Option ℕ → Request
  remove_numbered : String → ℕ → Request
  post_to : ℤ → Option ℕ → Bool → Request
  post_named : String → Option ℕ → Bool → Request
  forget_topics : Request

unfoldable pub serve : Request → EventQueue → EventQueue
serve (add topic d) q = (add_observer q topic d).1
serve (remove topic callback) q = (remove_callback q topic callback).0
serve (remove_bound topic instance_ptr callback) q = (remove_method q topic instance_ptr callback).0
serve (remove_numbered topic observer_id) q = (remove_by_id q topic observer_id).0
serve (post_to id obj cleanup) q = post_id q id obj cleanup
serve (post_named topic obj cleanup) q = post_topic q topic obj cleanup
serve forget_topics q = clear_topics q

unfoldable pub serve_all : List Request → EventQueue → EventQueue
serve_all [] q = q
serve_all (r ∷ rs) q = serve_all rs (serve r q)

abbrev pub SameMarks : EventQueue → EventQueue → Type 0
SameMarks q q' =
    (q'.calls ≡ q.calls)
    × (q'.deleted_payloads ≡ q.deleted_payloads)
    × (q'.deleted_messages ≡ q.deleted_messages)
    × (q'.active_dispatches ≡ q.active_dispatches)

serve-SameMarks : (r : Request) (q : EventQueue) → SameMarks q (serve r q)
unfolding serve add_observer remove_callback remove_method remove_by_id replace_observers post_id
    post_topic clear_topics
serve-SameMarks (add topic d) q = ground arith
serve-SameMarks (remove topic callback) q = ground arith
serve-SameMarks (remove_bound topic instance_ptr callback) q = ground arith
serve-SameMarks (remove_numbered topic observer_id) q = ground arith
serve-SameMarks (post_to (pos id) obj cleanup) q = ground arith
serve-SameMarks (post_to (negsuc n) obj cleanup) q = ground arith
serve-SameMarks (post_named topic obj cleanup) q = ground arith
serve-SameMarks forget_topics q = ground arith

pub serve_all-SameMarks : (rs : List Request) (q : EventQueue) → SameMarks q (serve_all rs q)
unfolding serve_all
serve_all-SameMarks [] q = (refl, refl, refl, refl)
serve_all-SameMarks (r ∷ rs) q =
    ground (arith, serve-SameMarks r q, serve_all-SameMarks rs (serve r q))

-- A handler that answers each call by any calls of the public functions leaves the log and the
-- marks alone.
pub serve_all-LeavesMarks :
    (script : Invocation → List Request) → LeavesMarks (λ i. serve_all (script i))
serve_all-LeavesMarks script = record {
  same_calls = λ i q. (serve_all-SameMarks (script i) q).0;
  same_payloads = λ i q. (serve_all-SameMarks (script i) q).1;
  same_messages = λ i q. (serve_all-SameMarks (script i) q).2;
  same_active = λ i q. (serve_all-SameMarks (script i) q).3;
}
