-- ===== src/Broadcast/Delivery.antt =====
-- The posts of src/eventqueue_broadcast.h and the dispatches of them, while no observer is added in
-- between: a queue of letters, by what src/eventqueue_fast.h does.
use message_center_cpp.Common.{
  ℕ, zero, suc, ◌+◌, ◌≤◌, ◌<◌, ◌≡◌, ◌≢◌, refl, sym, ap, subst, ◌∙◌, Bool, true, false, Option, none,
  some, List, [], ◌∷◌, ◌++◌, length, map, count, leb, not, arith, inl, inr, some_inj, Option-cases,
}
use message_center_cpp.Mpmc.Arith.{IsCapacity}
use message_center_cpp.Payload.{Store}
use message_center_cpp.Mailbox.{Mailbox, Outside, receive}
use message_center_cpp.Mailbox.View.{view, view_received, receive-view}
use message_center_cpp.Mailbox.Queued.{Queued, length-map, receive-nil, receive-cons}
use message_center_cpp.Message.{FastMessage}
use message_center_cpp.Message.Letters.{Letter, bytes_at, all_calls, Carries}
use message_center_cpp.Message.Mail.{AllCarry}
use message_center_cpp.Fast
use message_center_cpp.Fast.{FastQueue}
use message_center_cpp.Fast.Delivery.{
  Posted, with_posted, post_refines, dispatch_one-nil, dispatch_one-cons,
}
use message_center_cpp.Fast.Loops.{dispatch_all_drains}
use message_center_cpp.Broadcast.{
  broadcast_max_topics, BroadcastMessage, BroadcastQueue, or_no_one, post, dispatch_one,
  dispatch_all,
}
use message_center_cpp.Broadcast.AsFast.{
  as_call, as_message, as_observer, as_fast, as_answer, Listed, post-as_fast, dispatch_one-as_fast,
}

answer-inv :
    {A : Type 0} (o : Option (A × BroadcastQueue)) (a : A) (f : FastQueue)
    → as_answer o ≡ some (a, f)
    → (q : BroadcastQueue) × (o ≡ some (a, q)) × (as_fast q ≡ f)
answer-inv none a f e = ground (arith, e)
answer-inv (some (b, q)) a f e =
    let same = some_inj e in (q, ap (λ c. some (c, q)) (ap (λ t. t.0) same), ap (λ t. t.1) same)

none-some : {x : ℕ} → none ≢ some x
none-some {x} e = ground (arith, e)

false-true : false ≢ true
false-true e = ground (arith, e)

-- A message that carries a letter has observers, if it has a payload.
Carries-Listed :
    (registered : ℕ → Option (List ℕ)) (before s : Store) (m : BroadcastMessage) (l : Letter)
    → Carries before s (as_message registered m) l
    → Listed registered m
Carries-Listed registered before s m l v = elim v.content [
  | inl i ↦ inl i.0
  | inr w ↦ inr (λ e.
      let none_left : length l.observers ≡ 0 =
        ap length (sym v.observers) ∙ ap (λ os. length (map as_observer (or_no_one os))) e in
      omega (arith, none_left, w.observed))
]

module _ {cap : ℕ} (c : IsCapacity cap) where
  popped-Listed :
      (before : Store) (q : BroadcastQueue) (free nodes : List ℕ) (ms : List FastMessage)
      (ls : List Letter)
      → Queued cap (as_fast q).mailbox free nodes ms
      → AllCarry before q.payloads ms ls
      → (out : Outside) (node : ℕ) (b : Mailbox BroadcastMessage)
      → receive cap q.mailbox out ≡ some (some node, b)
      → Listed q.observers (b.messages node)
  popped-Listed before q free nodes [] ls v w out node b e =
      let look = as_message q.observers in
      let got =
        sym (receive-nil c v out)
        ∙ receive-view look cap q.mailbox out
        ∙ ap (view_received look) e in
      absurd (none-some (ap (λ (t : Option ℕ × Mailbox FastMessage). t.0) (some_inj got)))
  popped-Listed before q free nodes (m ∷ ms) [] v w out node b e = ground arith
  popped-Listed before q free nodes (m ∷ ms) (l ∷ ls) v w out node b e =
      let (x, b', free', nodes', got, at_node, queued) = receive-cons c v out in
      let look = as_message q.observers in
      let same : Path (Option ℕ × Mailbox FastMessage) (some x, b') (some node, view look b) =
        some_inj (sym got ∙ receive-view look cap q.mailbox out ∙ ap (view_received look) e) in
      let here : x ≡ node = some_inj (ap (λ t. t.0) same) in
      let message : m ≡ look (b.messages node) =
        sym at_node ∙ ap b'.messages here ∙ ap (λ t. t.1.messages node) same in
      Carries-Listed q.observers before q.payloads (b.messages node) l
        (subst (λ k. Carries before q.payloads k l) message w.0)

module _ {cap : ℕ} (c : IsCapacity cap) {before : Store} where
  dispatched-Posted :
      (q q' : BroadcastQueue) (out : Outside) (free nodes : List ℕ) (ls : List Letter)
      → Posted cap before (as_fast q) free nodes ls
      → Fast.dispatch_one cap (as_fast q) out ≡ some (true, as_fast q')
      → (free' : List ℕ) × (nodes' : List ℕ) × (ls' : List Letter) × Posted cap before
          (as_fast q')
          free'
          nodes'
          ls'
  dispatched-Posted q q' out free nodes [] v e = absurd (
      false-true (
        ap (λ (t : Bool × FastQueue). t.0)
          (some_inj (sym (dispatch_one-nil c (as_fast q) out v) ∙ e))))
  dispatched-Posted q q' out free nodes (l ∷ ls) v e =
      let (f, free', nodes', went, w, called, same) = dispatch_one-cons c (as_fast q) out l ls v in
      let equal : f ≡ as_fast q' = ap (λ (t : Bool × FastQueue). t.1) (some_inj (sym went ∙ e)) in
      (free', nodes', ls, subst (λ g. Posted cap before g free' nodes' ls) equal w)

  dispatch_all-as_fast :
      (outs : ℕ → Outside) (fuel count : ℕ) (q : BroadcastQueue) (free nodes : List ℕ)
      (ls : List Letter)
      → Posted cap before (as_fast q) free nodes ls
      → Fast.dispatch_all cap outs fuel count (as_fast q)
        ≡ as_answer (dispatch_all cap outs fuel count q)
  unfolding Fast.dispatch_all dispatch_all
  dispatch_all-as_fast outs zero count q free nodes ls v = refl
  dispatch_all-as_fast outs (suc fuel) count q free nodes ls v =
      let step =
        dispatch_one-as_fast cap q (outs count)
          (popped-Listed c before q free nodes v.messages ls v.queued v.carried (outs count)) in
      elim (Option-cases (dispatch_one cap q (outs count))) [
        | inl e ↦ rw (e, step ∙ ap as_answer e) refl
        | inr ((false, q'), e) ↦ rw (e, step ∙ ap as_answer e) refl
        | inr ((true, q'), e) ↦
            let (free', nodes', ls', w) =
              dispatched-Posted q q' (outs count) free nodes ls v (step ∙ ap as_answer e) in
            rw (e, step ∙ ap as_answer e)
              (dispatch_all-as_fast outs fuel (count + 1) q' free' nodes' ls' w)
      ]

  -- On a ring with room, and with `new` returning addresses that are not in use, a post to a topic
  -- with at most 255 observers answers whether the topic ID is in range, and adds a letter to these
  -- observers, if there are any, behind those that wait. It calls nobody.
  pub post_adds :
      (q : BroadcastQueue) (free nodes : List ℕ) (ls : List Letter) (topic_id : ℕ)
      (bytes : Option (List ℕ)) (out : Outside)
      → Posted cap before (as_fast q) free nodes ls
      → length (or_no_one (q.observers topic_id)) ≤ 255
      → length ls < cap
      → count out.node free ≡ 0
      → count out.node nodes ≡ 0
      → q.payloads out.payload ≡ none
      → (q' : BroadcastQueue) × (free' : List ℕ) × (nodes' : List ℕ) × (post cap q topic_id bytes
            (length (bytes_at bytes))
            out
          ≡ some (not (leb broadcast_max_topics topic_id), q'))
        × Posted cap before (as_fast q') free' nodes' (with_posted (as_fast q) topic_id bytes ls)
        × (map as_call q'.calls ≡ map as_call q.calls)
  post_adds q free nodes ls topic_id bytes out v few room fresh new unused =
      let same = length-map as_observer (or_no_one (q.observers topic_id)) in
      let (f, free', nodes', posted, w, calls, topics) =
        post_refines c (as_fast q) ls topic_id bytes out v (omega (arith, same)) room fresh new
          unused in
      let size = length (bytes_at bytes) in
      let (q', e, equal) =
        answer-inv (post cap q topic_id bytes size out) (not (leb broadcast_max_topics topic_id)) f
          (sym (post-as_fast cap q topic_id bytes size out few) ∙ posted) in
      (
        q',
        free',
        nodes',
        e,
        subst (λ g. Posted cap before g free' nodes' (with_posted (as_fast q) topic_id bytes ls))
            (sym equal) w,
        ap (λ (g : FastQueue). g.calls) equal ∙ calls,
      )

  -- When the messages that wait were posted to the observers that their topics have now,
  -- `dispatchAll` ends after as many rounds as there are messages and one more. It has called the observers of every message once
  -- each, in the order of the posts, and no payload is left that was not there before the posts.
  pub dispatch_all_empties :
      (outs : ℕ → Outside) (fuel : ℕ) (q : BroadcastQueue) (free nodes : List ℕ) (ls : List Letter)
      → Posted cap before (as_fast q) free nodes ls
      → length ls < fuel
      → (q' : BroadcastQueue) × (dispatch_all cap outs fuel 0 q ≡ some (length ls, q'))
        × (map as_call q'.calls ≡ map as_call q.calls ++ all_calls ls)
        × ((p : ℕ) → q'.payloads p ≡ before p)
  dispatch_all_empties outs fuel q free nodes ls v enough =
      let (f, free', nodes', went, w, called, freed) =
        dispatch_all_drains c outs fuel (as_fast q) free nodes ls v enough in
      let (q', e, equal) =
        answer-inv (dispatch_all cap outs fuel 0 q) (length ls) f
          (sym (dispatch_all-as_fast outs fuel 0 q free nodes ls v) ∙ went) in
      (
        q',
        e,
        ap (λ (g : FastQueue). g.calls) equal ∙ called,
        λ p. ap (λ (g : FastQueue). g.payloads p) equal ∙ freed p,
      )
