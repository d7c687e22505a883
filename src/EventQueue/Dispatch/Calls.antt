-- ===== src/EventQueue/Dispatch/Calls.antt =====
-- Which client code `Dispatch` of src/eventqueue.cpp calls, and what it deletes.
use message_center_cpp.Common.{
  ℕ, ◌≡◌, false, Option, none, some, List, [], ◌∷◌, ◌++◌, arith, append-nil, append_assoc,
}
use message_center_cpp.Common.Int.{pos}
use message_center_cpp.EventQueue.Types.{ObserverDescriptor, Message, Invocation}
use message_center_cpp.EventQueue.State.{EventQueue}
use message_center_cpp.EventQueue.Observers.Laws.{observers}
use message_center_cpp.EventQueue.Dispatch.{
  invocation, mark_active, mark_complete, cleaned, cleanup, call, invoke_all, dispatch,
}

abbrev pub listed : Option Invocation → List Invocation
listed none = []
listed (some i) = i ∷ []

-- The calls that a message on topic `id` stands for: one for each observer with a callback, in
-- the order of registration.
unfoldable pub calls_of : ℕ → Message → List ObserverDescriptor → List Invocation
calls_of id m [] = []
calls_of id m (d ∷ ds) = listed (invocation id m d) ++ calls_of id m ds

-- Client code leaves the log of calls, the payloads and the marks to the queue.
pub record LeavesMarks (handler : Invocation → EventQueue → EventQueue) : Type 0 where
  pub same_calls : (i : Invocation) (q : EventQueue) → (handler i q).calls ≡ q.calls
  pub same_payloads :
      (i : Invocation) (q : EventQueue) → (handler i q).deleted_payloads ≡ q.deleted_payloads
  pub same_messages :
      (i : Invocation) (q : EventQueue) → (handler i q).deleted_messages ≡ q.deleted_messages
  pub same_active :
      (i : Invocation) (q : EventQueue) → (handler i q).active_dispatches ≡ q.active_dispatches

module _ {handler : Invocation → EventQueue → EventQueue} (l : LeavesMarks handler) where
  call_lem :
      (o : Option Invocation) (q : EventQueue)
      → let q' = call handler o q in
        (q'.calls ≡ q.calls ++ listed o)
        × (q'.deleted_payloads ≡ q.deleted_payloads)
        × (q'.deleted_messages ≡ q.deleted_messages)
        × (q'.active_dispatches ≡ q.active_dispatches)
  unfolding call
  call_lem none q = ground (arith, append-nil q.calls)
  call_lem (some i) q =
      let q1 = record q { calls = q.calls ++ i ∷ [] } in
      (l.same_calls i q1, l.same_payloads i q1, l.same_messages i q1, l.same_active i q1)

  invoke_all_lem :
      (id : ℕ) (m : Message) (ds : List ObserverDescriptor) (q : EventQueue)
      → let q' = invoke_all handler id m ds q in
        (q'.calls ≡ q.calls ++ calls_of id m ds)
        × (q'.deleted_payloads ≡ q.deleted_payloads)
        × (q'.deleted_messages ≡ q.deleted_messages)
        × (q'.active_dispatches ≡ q.active_dispatches)
  unfolding invoke_all calls_of
  invoke_all_lem id m [] q = ground (arith, append-nil q.calls)
  invoke_all_lem id m (d ∷ ds) q = ground (
    arith,
    call_lem (invocation id m d) q,
    invoke_all_lem id m ds (call handler (invocation id m d) q),
    append_assoc q.calls (listed (invocation id m d)) (calls_of id m ds),
  )

  -- `Dispatch` calls the observers that the topic had when it began, each once and in order,
  -- whatever the handlers do to the queue; then it deletes the message, and its payload exactly
  -- when the message asks for that, and the dispatch is no longer active.
  pub dispatch_lem :
      (q : EventQueue) (id : ℕ) (m : Message)
      → let q' = dispatch handler q id (some m) in
        (q'.calls ≡ q.calls ++ calls_of id m (observers q (pos id)))
        × (q'.deleted_payloads ≡ q.deleted_payloads ++ cleaned m)
        × (q'.deleted_messages ≡ q.deleted_messages ++ m ∷ [])
        × (q'.active_dispatches ≡ q.active_dispatches)
        × (q'.in_dispatch ≡ false)
  unfolding dispatch cleanup mark_complete mark_active
  dispatch_lem q id m = ground (arith, invoke_all_lem id m (observers q (pos id)) (mark_active q))
