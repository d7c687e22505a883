-- ===== src/Fast/Delivery.antt =====
-- The posts of src/eventqueue_fast.h and the dispatches of them: a queue of letters.
use message_center_cpp.Common.{
  ℕ, ◌≤◌, ◌<◌, ◌≡◌, refl, true, false, Option, none, some, List, [], ◌∷◌, ◌++◌, length, leb, ◌==◌,
  arith, count, ℕ_discrete, length-append, Bool-cases, inl, inr, if◌then◌else◌, not,
}
use message_center_cpp.Mpmc.Arith.{IsCapacity}
use message_center_cpp.Payload.{Store}
use message_center_cpp.Mailbox.{Outside}
use message_center_cpp.Message.{FastObserver}
use message_center_cpp.Message.Letters.{Letter, calls_of, bytes_at}
use message_center_cpp.Message.Mail.{Mail, send-Mail, deliver-Mail_nil, deliver-Mail_cons}
use message_center_cpp.Fast.{max_topics, max_observers, FastQueue, add_observer, post, dispatch_one}

-- The queue holds the letters, and its store the payloads of these besides those of `before`.
abbrev pub Posted : ℕ → Store → FastQueue → List ℕ → List ℕ → List Letter → Type 0
Posted cap before q free nodes ls = Mail cap before q.mailbox q.payloads free nodes ls

-- What a post is to do: nothing for an unknown topic or one that nobody observes.
abbrev pub with_posted : FastQueue → ℕ → Option (List ℕ) → List Letter → List Letter
with_posted q topic_id bytes ls =
    if leb max_topics topic_id
    then ls
    else if length (q.topics topic_id) == 0
    then ls
    else ls
      ++ record { topic_id = topic_id; bytes = bytes_at bytes; observers = q.topics topic_id } ∷ []

-- An observer that is added leaves every topic with at most 16.
pub add_observer-bounded :
    (q : FastQueue) (topic_id : ℕ) (o : FastObserver)
    → ((t : ℕ) → length (q.topics t) ≤ max_observers)
    → (t : ℕ) → length ((add_observer q topic_id o).1.topics t) ≤ max_observers
unfolding add_observer
add_observer-bounded q topic_id o few t = elim (Bool-cases (leb max_topics topic_id)) [
  | inl e ↦ rw e (few t)
  | inr e ↦ elim (Bool-cases (leb max_observers (length (q.topics topic_id)))) [
    | inl f ↦ rw (e, f) (few t)
    | inr f ↦
        rw (e, f)
          (elim (ℕ_discrete topic_id t) [
            | yes same ↦ ground (arith, few t, length-append (q.topics topic_id) (o ∷ []))
            | no ne ↦ ground (arith, few t)
          ])
  ]
]

module _ {cap : ℕ} (c : IsCapacity cap) {before : Store} (q : FastQueue) {free nodes : List ℕ} where
  -- On a ring with room, and with `new` returning addresses that are not in use, a post to a topic
  -- with at most 255 observers answers whether the topic ID is in range, and adds a letter to these
  -- observers, if there are any, behind those that wait. It calls nobody.
  pub post_refines :
      (ls : List Letter) (topic_id : ℕ) (bytes : Option (List ℕ)) (out : Outside)
      → Posted cap before q free nodes ls
      → length (q.topics topic_id) ≤ 255
      → length ls < cap
      → count out.node free ≡ 0
      → count out.node nodes ≡ 0
      → q.payloads out.payload ≡ none
      → (q' : FastQueue) × (free' : List ℕ) × (nodes' : List ℕ) × (post cap q topic_id bytes
            (length (bytes_at bytes))
            out
          ≡ some (not (leb max_topics topic_id), q'))
        × Posted cap before q' free' nodes' (with_posted q topic_id bytes ls)
        × (q'.calls ≡ q.calls)
        × (q'.topics ≡ q.topics)
  unfolding post
  post_refines ls topic_id bytes out v few room fresh new unused =
      elim (Bool-cases (leb max_topics topic_id)) [
        | inl e ↦ rw e (q, free, nodes, refl, v, refl, refl)
        | inr e ↦ elim (Bool-cases (length (q.topics topic_id) == 0)) [
          | inl e' ↦ rw (e, e') (q, free, nodes, refl, v, refl, refl)
          | inr e' ↦
              let (b, s, free', nodes', sent, w) =
                send-Mail c v (q.topics topic_id) topic_id bytes out (ground arith) (omega arith)
                  room fresh new unused in
              rw (e, e', sent)
                (record q { mailbox = b; payloads = s }, free', nodes', refl, w, refl, refl)
        ]
      ]

  pub dispatch_one-nil :
      (out : Outside) → Posted cap before q free nodes [] → dispatch_one cap q out ≡ some (false, q)
  unfolding dispatch_one
  dispatch_one-nil out v = rw (deliver-Mail_nil c v out) refl

  pub dispatch_one-cons :
      (out : Outside) (l : Letter) (ls : List Letter)
      → Posted cap before q free nodes (l ∷ ls)
      → (q' : FastQueue) × (free' : List ℕ) × (nodes' : List ℕ) × (dispatch_one cap q out
          ≡ some (true, q'))
        × Posted cap before q' free' nodes' ls
        × (q'.calls ≡ q.calls ++ calls_of l)
        × (q'.topics ≡ q.topics)
  unfolding dispatch_one
  dispatch_one-cons out l ls v =
      let (b, s, free', nodes', went, w) = deliver-Mail_cons c v out in
      (
        record q { mailbox = b; payloads = s; calls = q.calls ++ calls_of l },
        free',
        nodes',
        rw went refl,
        w,
        refl,
        refl,
      )
