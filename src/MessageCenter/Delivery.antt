-- ===== src/MessageCenter/Delivery.antt =====
-- What the worker of src/messagecenter.cpp does with the messages that are posted, where other threads
-- and the handlers post and do nothing else to the queue.
use message_center_cpp.Common.{
  ◌≤◌, ◌≡◌, refl, sym, ap, ap₂, subst, ◌∙◌, false, List, [], ◌∷◌, ◌++◌, length, arith, append-nil,
  append_assoc, inl, inr, Bool-cases, All,
}
use message_center_cpp.Common.Int.{pos}
use message_center_cpp.EventQueue.Topics.{Topics}
use message_center_cpp.EventQueue.Types.{Message, Invocation}
use message_center_cpp.EventQueue.State.{EventQueue, get_observers}
use message_center_cpp.EventQueue.Observers.Laws.{observers}
use message_center_cpp.EventQueue.Messages.{get_queue_message-cons, get_queue_message-nil}
use message_center_cpp.EventQueue.Dispatch.{cleaned}
use message_center_cpp.EventQueue.Dispatch.Calls.{calls_of, dispatch_lem}
use message_center_cpp.EventQueue.Handlers.{Request, serve_all, serve_all-LeavesMarks}
use message_center_cpp.MessageCenter.{Round, work, work-some, work-none, thread_worker}
use message_center_cpp.MessageCenter.Office.{
  IsPost, letters, replies, calls_for, cleaned_all, Office, deliver_first, office, serve_all-posts,
}
use message_center_cpp.MessageCenter.Replies.{dispatch-posts}

calls_for-append :
    (q : EventQueue) (xs : List Message) (m : Message)
    → calls_for q (xs ++ m ∷ []) ≡ calls_for q xs ++ calls_of m.tid m (observers q (pos m.tid))
calls_for-append q [] m = append-nil (calls_of m.tid m (observers q (pos m.tid)))
calls_for-append q (x ∷ xs) m =
    ap (λ cs. calls_of x.tid x (observers q (pos x.tid)) ++ cs) (calls_for-append q xs m)
    ∙ sym (
        append_assoc (calls_of x.tid x (observers q (pos x.tid))) (calls_for q xs)
          (calls_of m.tid m (observers q (pos m.tid))))

cleaned_all-append :
    (xs : List Message) (m : Message) → cleaned_all (xs ++ m ∷ []) ≡ cleaned_all xs ++ cleaned m
cleaned_all-append [] m = append-nil (cleaned m)
cleaned_all-append (x ∷ xs) m =
    ap (λ ps. cleaned x ++ ps) (cleaned_all-append xs m)
    ∙ sym (append_assoc (cleaned x) (cleaned_all xs) (cleaned m))

-- The queue `q` has come from `q0` as the office says.
pub record Shows (q0 : EventQueue) (o : Office) (q : EventQueue) : Type 0 where
  pub same_registry : q.registry ≡ q0.registry
  pub same_observers : q.topic_observers ≡ q0.topic_observers
  pub waits : q.message_queue ≡ o.waiting
  pub deleted : q.deleted_messages ≡ q0.deleted_messages ++ o.delivered
  pub called : q.calls ≡ q0.calls ++ calls_for q0 o.delivered
  pub cleaned_up : q.deleted_payloads ≡ q0.deleted_payloads ++ cleaned_all o.delivered

module _ (script : Invocation → List Request)
    (posts : (i : Invocation) → All IsPost (script i)) where
  begin-Shows :
      (q0 : EventQueue) → Shows q0 (record { delivered = []; waiting = q0.message_queue }) q0
  begin-Shows q0 = record {
    same_registry = refl;
    same_observers = refl;
    waits = refl;
    deleted = sym (append-nil q0.deleted_messages);
    called = sym (append-nil q0.calls);
    cleaned_up = sym (append-nil q0.deleted_payloads);
  }

  serve_all-Shows :
      (rs : List Request) (q0 q : EventQueue) (o : Office)
      → All IsPost rs
      → Shows q0 o q
      → Shows q0 (record o { waiting = o.waiting ++ letters q0.registry rs }) (serve_all rs q)
  serve_all-Shows rs q0 q o h v =
      subst (Shows q0 (record o { waiting = o.waiting ++ letters q0.registry rs }))
        (sym (serve_all-posts rs q h))
        (record {
          same_registry = v.same_registry;
          same_observers = v.same_observers;
          waits =
              ap₂ (λ (ms : List Message) (r : Topics). ms ++ letters r rs) v.waits v.same_registry;
          deleted = v.deleted;
          called = v.called;
          cleaned_up = v.cleaned_up;
        })

  deliver-Shows :
      (q0 q : EventQueue) (delivered ms : List Message) (m : Message)
      → Shows q0 (record { delivered = delivered; waiting = m ∷ ms }) q
      → Shows q0 (deliver_first q0 script delivered (m ∷ ms)) (work (λ i. serve_all (script i)) q)
  unfolding get_observers
  deliver-Shows q0 q delivered ms m v =
      let q1 : EventQueue = record q { message_queue = ms } in
      let went = work-some (λ i. serve_all (script i)) q (get_queue_message-cons q v.waits) in
      let (called, payloads, deleted, active, out) =
        dispatch_lem (serve_all-LeavesMarks script) q1 m.tid m in
      let (grown, reg, obs) = dispatch-posts script posts q1 m.tid m in
      let seen : observers q (pos m.tid) ≡ observers q0 (pos m.tid) =
        ap (λ t. observers (record q0 { topic_observers = t }) (pos m.tid)) v.same_observers in
      let made : calls_of m.tid m (observers q (pos m.tid))
          ≡ calls_of m.tid m (observers q0 (pos m.tid)) =
        ap (calls_of m.tid m) seen in
      subst (Shows q0 (deliver_first q0 script delivered (m ∷ ms))) (sym went) (record {
        same_registry = reg ∙ v.same_registry;
        same_observers = obs ∙ v.same_observers;
        waits =
            grown
            ∙ ap₂ (λ (r : Topics) (cs : List Invocation). ms ++ replies r script cs) v.same_registry
                made;
        deleted =
            deleted
            ∙ ap (λ ds. ds ++ m ∷ []) v.deleted
            ∙ append_assoc q0.deleted_messages delivered (m ∷ []);
        called =
            called
            ∙ ap₂ (λ (cs ds : List Invocation). cs ++ ds) v.called made
            ∙ append_assoc q0.calls (calls_for q0 delivered)
                (calls_of m.tid m (observers q0 (pos m.tid)))
            ∙ ap (λ cs. q0.calls ++ cs) (sym (calls_for-append q0 delivered m));
        cleaned_up =
            payloads
            ∙ ap (λ ps. ps ++ cleaned m) v.cleaned_up
            ∙ append_assoc q0.deleted_payloads (cleaned_all delivered) (cleaned m)
            ∙ ap (λ ps. q0.deleted_payloads ++ ps) (sym (cleaned_all-append delivered m));
      })

  work-Shows :
      (q0 q : EventQueue) (delivered waiting : List Message)
      → Shows q0 (record { delivered = delivered; waiting = waiting }) q
      → Shows q0 (deliver_first q0 script delivered waiting) (work (λ i. serve_all (script i)) q)
  work-Shows q0 q delivered [] v =
      subst (Shows q0 (record { delivered = delivered; waiting = [] }))
        (sym (work-none (λ i. serve_all (script i)) q (get_queue_message-nil q v.waits))) v
  work-Shows q0 q delivered (m ∷ ms) v = deliver-Shows q0 q delivered ms m v

  thread_worker-Shows :
      (rounds : List Round) (q0 q : EventQueue) (o : Office)
      → All (λ r. All IsPost r.requests) rounds
      → Shows q0 o q
      → Shows q0 (office q0 script rounds o) (thread_worker (λ i. serve_all (script i)) rounds q).1
  unfolding thread_worker
  thread_worker-Shows [] q0 q o h v = v
  thread_worker-Shows (r ∷ rounds) q0 q o h v =
      let w = o.waiting ++ letters q0.registry r.requests in
      let first = serve_all-Shows r.requests q0 q o h.0 v in
      let q1 = serve_all r.requests q in
      elim (Bool-cases r.request_stop) [
        | inl e ↦ rw e first
        | inr e ↦ rw e (
            thread_worker-Shows rounds q0 (work (λ i. serve_all (script i)) q1)
              (deliver_first q0 script o.delivered w) h.1 (work-Shows q0 q1 o.delivered w first))
      ]

  -- Where other threads and the handlers do nothing but post: after any number of rounds of the
  -- worker, the messages that were dispatched, those that wait, the calls and the deleted payloads are
  -- those of an office that puts every post at the end once and delivers the first message in every
  -- round in which no stop is requested. Delivering a message is to call the observers of its
  -- topic, each once and in order, and to delete its payload where it asks for that; what the handlers
  -- of these calls post goes to the end.
  pub thread_worker_refines :
      (rounds : List Round) (q : EventQueue)
      → All (λ r. All IsPost r.requests) rounds
      → Shows q
          (office q script rounds (record { delivered = []; waiting = q.message_queue }))
          (thread_worker (λ i. serve_all (script i)) rounds q).1
  thread_worker_refines rounds q h = thread_worker-Shows rounds q q _ h (begin-Shows q)

  deliver_first-delivered :
      (q : EventQueue) (delivered w : List Message)
      → (more : List Message) × ((deliver_first q script delivered w).delivered ≡ delivered ++ more)
  deliver_first-delivered q delivered [] = ([], sym (append-nil delivered))
  deliver_first-delivered q delivered (m ∷ ms) = (m ∷ [], refl)

  office-delivered :
      (q : EventQueue) (rounds : List Round) (o : Office)
      → (more : List Message) × ((office q script rounds o).delivered ≡ o.delivered ++ more)
  office-delivered q [] o = ([], sym (append-nil o.delivered))
  office-delivered q (r ∷ rounds) o =
      let w = o.waiting ++ letters q.registry r.requests in
      let (first, e) = deliver_first-delivered q o.delivered w in
      let (rest, f) = office-delivered q rounds (deliver_first q script o.delivered w) in
      elim (Bool-cases r.request_stop) [
        | inl stop ↦ ([], rw stop (sym (append-nil o.delivered)))
        | inr on ↦ (
          first ++ rest,
          rw on (f ∙ ap (λ ms. ms ++ rest) e ∙ append_assoc o.delivered first rest),
        )
      ]

  abbrev sent_by : EventQueue → List Round → List Message → List Message → List Message
  sent_by q rounds delivered w =
      (office q script rounds (record { delivered = delivered; waiting = w })).delivered

  office-serves :
      (q : EventQueue) (rounds : List Round) (delivered ms extra : List Message)
      → All (λ r. r.request_stop ≡ false) rounds
      → length ms ≤ length rounds
      → (more : List Message) × (sent_by q rounds delivered (ms ++ extra)
          ≡ delivered ++ (ms ++ more))
  office-serves q rounds delivered [] extra quiet enough =
      office-delivered q rounds (record { delivered = delivered; waiting = extra })
  office-serves q [] delivered (m ∷ ms) extra quiet enough = absurd (omega arith)
  office-serves q (r ∷ rounds) delivered (m ∷ ms) extra quiet enough =
      let posted = letters q.registry r.requests in
      let answered = replies q.registry script (calls_of m.tid m (observers q (pos m.tid))) in
      let (more, e) =
        office-serves q rounds (delivered ++ m ∷ []) ms (extra ++ (posted ++ answered)) quiet.1
          (omega arith) in
      (
        more,
        rw quiet.0 (
            ap (sent_by q rounds (delivered ++ m ∷ [])) (
              append_assoc (ms ++ extra) posted answered
              ∙ append_assoc ms extra (posted ++ answered))
            ∙ e
            ∙ append_assoc delivered (m ∷ []) (ms ++ more)),
      )

  -- Where other threads and the handlers do nothing but post, and no stop is requested: as many
  -- rounds of the worker as there are messages in the queue dispatch all of them, in the order in
  -- which they were posted, and may be some more. The observers of each of these have been called,
  -- once each and in order, no other call was made, and the payloads that they own are deleted.
  pub thread_worker_delivers :
      (rounds : List Round) (q : EventQueue)
      → All (λ r. All IsPost r.requests) rounds
      → All (λ r. r.request_stop ≡ false) rounds
      → length q.message_queue ≤ length rounds
      → let q' = (thread_worker (λ i. serve_all (script i)) rounds q).1 in
        (more : List Message) × (q'.deleted_messages
          ≡ q.deleted_messages ++ (q.message_queue ++ more))
        × (q'.calls ≡ q.calls ++ calls_for q (q.message_queue ++ more))
        × (q'.deleted_payloads ≡ q.deleted_payloads ++ cleaned_all (q.message_queue ++ more))
  thread_worker_delivers rounds q only quiet enough =
      let v = thread_worker_refines rounds q only in
      let (more, e) = office-serves q rounds [] q.message_queue [] quiet enough in
      let all : sent_by q rounds [] q.message_queue ≡ q.message_queue ++ more =
        ap (sent_by q rounds []) (sym (append-nil q.message_queue)) ∙ e in
      (
        more,
        v.deleted ∙ ap (λ ms. q.deleted_messages ++ ms) all,
        v.called ∙ ap (λ ms. q.calls ++ calls_for q ms) all,
        v.cleaned_up ∙ ap (λ ms. q.deleted_payloads ++ cleaned_all ms) all,
      )
