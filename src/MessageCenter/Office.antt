-- ===== src/MessageCenter/Office.antt =====
-- What the worker of src/messagecenter.cpp promises where other threads and the handlers post and do
-- nothing else to the queue, and what posts do to the queue of src/eventqueue.cpp.
use message_center_cpp.Common.{
  ℕ, ◌≡◌, refl, sym, ap, ◌∙◌, Bool, Option, List, [], ◌∷◌, ◌++◌, append-nil, append_assoc, All,
  if◌then◌else◌,
}
use message_center_cpp.Common.Int.{ℤ, pos, negsuc}
use message_center_cpp.EventQueue.Topics
use message_center_cpp.EventQueue.Topics.{Topics}
use message_center_cpp.EventQueue.Types.{Message, Invocation}
use message_center_cpp.EventQueue.State.{EventQueue}
use message_center_cpp.EventQueue.Observers.Laws.{observers}
use message_center_cpp.EventQueue.Messages.{post_id, post_topic}
use message_center_cpp.EventQueue.Dispatch.{cleaned}
use message_center_cpp.EventQueue.Dispatch.Calls.{calls_of}
use message_center_cpp.EventQueue.Handlers.{
  Request, add, remove, remove_bound, remove_numbered, post_to, post_named, forget_topics, serve,
  serve_all,
}
use message_center_cpp.MessageCenter.{Round}

-- A request to post.
abbrev pub IsPost : Request → Type 0
IsPost (add topic d) = ⊥
IsPost (remove topic callback) = ⊥
IsPost (remove_bound topic instance_ptr callback) = ⊥
IsPost (remove_numbered topic observer_id) = ⊥
IsPost (post_to id obj cleanup) = Unit
IsPost (post_named topic obj cleanup) = Unit
IsPost forget_topics = ⊥

-- The message that a post to an ID stands for; there is none for a negative ID.
abbrev pub addressed : ℤ → Option ℕ → Bool → List Message
addressed (pos id) obj cleanup = record { tid = id; obj = obj; cleanup_payload = cleanup } ∷ []
addressed (negsuc n) obj cleanup = []

-- The messages that some posts stand for, with the topics of a registry.
abbrev pub letters : Topics → List Request → List Message
letters reg [] = []
letters reg (post_to id obj cleanup ∷ rs) = addressed id obj cleanup ++ letters reg rs
letters reg (post_named topic obj cleanup ∷ rs) =
    addressed (Topics.resolve reg topic) obj cleanup ++ letters reg rs
letters reg (r ∷ rs) = letters reg rs

-- What the handlers post in answer to some calls.
abbrev pub replies : Topics → (Invocation → List Request) → List Invocation → List Message
replies reg script [] = []
replies reg script (i ∷ is) = letters reg (script i) ++ replies reg script is

-- The calls for some messages, one after the other, where a queue has the observers of the topics.
abbrev pub calls_for : EventQueue → List Message → List Invocation
calls_for q [] = []
calls_for q (m ∷ ms) = calls_of m.tid m (observers q (pos m.tid)) ++ calls_for q ms

-- The payloads that some messages ask to be deleted.
abbrev pub cleaned_all : List Message → List ℕ
cleaned_all [] = []
cleaned_all (m ∷ ms) = cleaned m ++ cleaned_all ms

-- What a worker is for: messages that are delivered, and messages that wait, first come, first served.
pub record Office : Type 0 where
  pub delivered : List Message
  pub waiting : List Message

module _ (q : EventQueue) (script : Invocation → List Request) where
  -- The first message is delivered, and what its observers post in answer goes to the end.
  abbrev pub deliver_first : List Message → List Message → Office
  deliver_first delivered [] = record { delivered = delivered; waiting = [] }
  deliver_first delivered (m ∷ ms) = record {
    delivered = delivered ++ m ∷ [];
    waiting = ms ++ replies q.registry script (calls_of m.tid m (observers q (pos m.tid)));
  }

  -- Some rounds; the posts of others go to the end before each of them.
  abbrev pub office : List Round → Office → Office
  office [] o = o
  office (r ∷ rounds) o =
      let w = o.waiting ++ letters q.registry r.requests in
      let rest = office rounds (deliver_first o.delivered w) in
      if r.request_stop then record o { waiting = w } else rest

post_id_lem :
    (q : EventQueue) (id : ℤ) (obj : Option ℕ) (cleanup : Bool)
    → post_id q id obj cleanup
      ≡ record q { message_queue = q.message_queue ++ addressed id obj cleanup }
unfolding post_id
post_id_lem q (pos id) obj cleanup = refl
post_id_lem q (negsuc n) obj cleanup =
    ap (λ ms. record q { message_queue = ms }) (sym (append-nil q.message_queue))

abbrev queue_with : EventQueue → List Message → EventQueue
queue_with q ms = record q { message_queue = q.message_queue ++ ms }

queue_with-queue_with :
    (q : EventQueue) (xs ys : List Message)
    → queue_with (queue_with q xs) ys ≡ queue_with q (xs ++ ys)
queue_with-queue_with q xs ys =
    ap (λ ms. record q { message_queue = ms }) (append_assoc q.message_queue xs ys)

pub serve_all-posts :
    (rs : List Request) (q : EventQueue)
    → All IsPost rs
    → serve_all rs q ≡ record q { message_queue = q.message_queue ++ letters q.registry rs }
unfolding serve_all serve post_topic
serve_all-posts [] q h =
    ap (λ ms. record q { message_queue = ms }) (sym (append-nil q.message_queue))
serve_all-posts (post_to id obj cleanup ∷ rs) q h =
    ap (serve_all rs) (post_id_lem q id obj cleanup)
    ∙ serve_all-posts rs (queue_with q (addressed id obj cleanup)) h.1
    ∙ queue_with-queue_with q (addressed id obj cleanup) (letters q.registry rs)
serve_all-posts (post_named topic obj cleanup ∷ rs) q h =
    let ms = addressed (Topics.resolve q.registry topic) obj cleanup in
    ap (serve_all rs) (post_id_lem q (Topics.resolve q.registry topic) obj cleanup)
    ∙ serve_all-posts rs (queue_with q ms) h.1
    ∙ queue_with-queue_with q ms (letters q.registry rs)
serve_all-posts (add topic d ∷ rs) q h = absurd h.0
serve_all-posts (remove topic callback ∷ rs) q h = absurd h.0
serve_all-posts (remove_bound topic instance_ptr callback ∷ rs) q h = absurd h.0
serve_all-posts (remove_numbered topic observer_id ∷ rs) q h = absurd h.0
serve_all-posts (forget_topics ∷ rs) q h = absurd h.0
