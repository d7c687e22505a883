-- ===== src/MessageCenter/Replies.antt =====
-- What the handlers of one `Dispatch` of src/eventqueue.cpp do to the queue where they only post.
use message_center_cpp.Common.{
  ℕ, ◌≡◌, refl, sym, ap, ap₂, ◌∙◌, Option, none, some, List, [], ◌∷◌, ◌++◌, append-nil,
  append_assoc, All,
}
use message_center_cpp.Common.Int.{pos}
use message_center_cpp.EventQueue.Topics.{Topics}
use message_center_cpp.EventQueue.Types.{ObserverDescriptor, Message, Invocation}
use message_center_cpp.EventQueue.State.{EventQueue, get_observers}
use message_center_cpp.EventQueue.Observers.Laws.{observers}
use message_center_cpp.EventQueue.Dispatch.{
  invocation, mark_active, mark_complete, cleanup, call, invoke_all, dispatch,
}
use message_center_cpp.EventQueue.Dispatch.Calls.{listed, calls_of}
use message_center_cpp.EventQueue.Handlers.{Request, serve_all}
use message_center_cpp.MessageCenter.Office.{IsPost, letters, replies, serve_all-posts}

replies-append :
    (reg : Topics) (script : Invocation → List Request) (is js : List Invocation)
    → replies reg script (is ++ js) ≡ replies reg script is ++ replies reg script js
replies-append reg script [] js = refl
replies-append reg script (i ∷ is) js =
    ap (λ ms. letters reg (script i) ++ ms) (replies-append reg script is js)
    ∙ sym (append_assoc (letters reg (script i)) (replies reg script is) (replies reg script js))

-- What stays of a queue, but for its calls, its messages and what is deleted.
abbrev pub Grows : EventQueue → List Message → EventQueue → Type 0
Grows q ms q' =
    (q'.message_queue ≡ q.message_queue ++ ms)
    × (q'.registry ≡ q.registry)
    × (q'.topic_observers ≡ q.topic_observers)

module _ (script : Invocation → List Request)
    (posts : (i : Invocation) → All IsPost (script i)) where
  call-posts :
      (o : Option Invocation) (q : EventQueue)
      → Grows q (replies q.registry script (listed o)) (call (λ i. serve_all (script i)) o q)
  unfolding call
  call-posts none q = (sym (append-nil q.message_queue), refl, refl)
  call-posts (some i) q =
      let q1 : EventQueue = record q { calls = q.calls ++ i ∷ [] } in
      let e = serve_all-posts (script i) q1 (posts i) in
      (
        ap (λ (t : EventQueue). t.message_queue) e
            ∙ ap (λ ms. q.message_queue ++ ms) (sym (append-nil (letters q.registry (script i)))),
        ap (λ (t : EventQueue). t.registry) e,
        ap (λ (t : EventQueue). t.topic_observers) e,
      )

  invoke_all-posts :
      (id : ℕ) (m : Message) (ds : List ObserverDescriptor) (q : EventQueue)
      → Grows q
          (replies q.registry script (calls_of id m ds))
          (invoke_all (λ i. serve_all (script i)) id m ds q)
  unfolding invoke_all calls_of
  invoke_all-posts id m [] q = (sym (append-nil q.message_queue), refl, refl)
  invoke_all-posts id m (d ∷ ds) q =
      let q1 = call (λ i. serve_all (script i)) (invocation id m d) q in
      let (ms, reg, obs) = call-posts (invocation id m d) q in
      let (ms', reg', obs') = invoke_all-posts id m ds q1 in
      let first = replies q.registry script (listed (invocation id m d)) in
      (
        ms'
            ∙ ap₂ (λ (xs : List Message) (r : Topics). xs ++ replies r script (calls_of id m ds)) ms
                reg
            ∙ append_assoc q.message_queue first (replies q.registry script (calls_of id m ds))
            ∙ ap (λ xs. q.message_queue ++ xs)
                (sym (
                  replies-append q.registry script (listed (invocation id m d))
                    (calls_of id m ds))),
        reg' ∙ reg,
        obs' ∙ obs,
      )

  pub dispatch-posts :
      (q : EventQueue) (id : ℕ) (m : Message)
      → Grows q
          (replies q.registry script (calls_of id m (observers q (pos id))))
          (dispatch (λ i. serve_all (script i)) q id (some m))
  unfolding dispatch cleanup mark_complete mark_active get_observers
  dispatch-posts q id m = invoke_all-posts id m (observers q (pos id)) (mark_active q)
