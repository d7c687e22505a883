-- ===== src/Broadcast/AsFast.antt =====
-- src/eventqueue_broadcast.h next to src/eventqueue_fast.h: a message whose observers are those that
-- its topic has now, as a message with its own list of observers.
use message_center_cpp.Common.{
  ℕ, ◌≤◌, ◌≡◌, ◌≢◌, ◌⊎◌, refl, sym, ap, ◌∙◌, min, true, false, Option, none, some, ◌>>=◌, List, [],
  ◌∷◌, length, map, leb, ◌==◌, arith, Bool-cases, inl, inr, Option-cases,
}
use message_center_cpp.Payload
use message_center_cpp.Payload.{Store, releases}
use message_center_cpp.Mailbox.{Mailbox, Outside, reserve, write, enqueue, receive, recycle}
use message_center_cpp.Mailbox.View.{
  view, view_queued, view_received, write-view, enqueue-view, receive-view,
}
use message_center_cpp.Mailbox.Queued.{map-append, length-map}
use message_center_cpp.Message
use message_center_cpp.Message.{
  FastObserver, FastMessage, FastCall, compose, make_payload, copy_inline, send, release_one,
}
use message_center_cpp.Fast
use message_center_cpp.Fast.{FastQueue}
use message_center_cpp.Broadcast.{
  broadcast_max_topics, inline_payload_max, BroadcastMessage, BroadcastCall, BroadcastQueue,
  or_no_one, prepare, post, data_of, release_refs, call_all, deliver, dispatch_one,
}

abbrev pub as_observer : ℕ → FastObserver
as_observer callback = record { callback = callback; user_data = none }

abbrev pub observers_of : (ℕ → Option (List ℕ)) → ℕ → List FastObserver
observers_of registered topic_id = map as_observer (or_no_one (registered topic_id))

abbrev pub as_message : (ℕ → Option (List ℕ)) → BroadcastMessage → FastMessage
as_message registered m = record {
  topic_id = m.topic_id;
  is_inline = m.is_inline;
  payload_size = m.payload_size;
  observers = observers_of registered m.topic_id;
  managed = m.managed;
  inline_data = m.inline_data;
}

abbrev pub as_call : BroadcastCall → FastCall
as_call c = record {
  callback = c.callback;
  topic_id = c.topic_id;
  bytes = c.bytes;
  size = c.size;
  user_data = none;
}

abbrev pub as_fast : BroadcastQueue → FastQueue
as_fast q = record {
  mailbox = view (as_message q.observers) q.mailbox;
  payloads = q.payloads;
  topics = observers_of q.observers;
  topic_count = q.topic_count;
  calls = map as_call q.calls;
}

abbrev pub as_answer : {A : Type 0} → Option (A × BroadcastQueue) → Option (A × FastQueue)
as_answer none = none
as_answer (some (a, q)) = some (a, as_fast q)

abbrev as_prepared :
    (ℕ → Option (List ℕ)) → Option (BroadcastMessage × Store) → Option (FastMessage × Store)
as_prepared registered none = none
as_prepared registered (some (m, s)) = some (as_message registered m, s)

prepare-compose :
    (registered : ℕ → Option (List ℕ)) (s : Store) (topic_id : ℕ) (bytes : Option (List ℕ))
    (size : ℕ) (out : Outside) (old : BroadcastMessage)
    → compose s
        (observers_of registered topic_id)
        topic_id
        bytes
        size
        out.payload
        (as_message registered old)
      ≡ as_prepared registered
          (prepare s topic_id (length (observers_of registered topic_id)) bytes size out old)
unfolding compose prepare
prepare-compose registered s topic_id bytes size out old =
    elim (Bool-cases (leb size inline_payload_max)) [
      | inl e ↦ rw e refl
      | inr e ↦
          rw e (
            made
              (make_payload s out.payload (length (observers_of registered topic_id)) bytes size))
    ]
  where
    m : BroadcastMessage
    m = record old {
      topic_id = topic_id;
      observer_count = length (observers_of registered topic_id);
      payload_size = size;
      is_inline = false;
      managed = some out.payload;
    }

    made :
        (t : Option Store)
        → (t >>= (λ s'. some (as_message registered m, s')))
          ≡ as_prepared registered (t >>= (λ s'. some (m, s')))
    made none = refl
    made (some t) = refl

release-as_fast :
    (registered : ℕ → Option (List ℕ)) (m : BroadcastMessage) (s : Store)
    → release_one (as_message registered m) s ≡ release_refs 1 m s
unfolding release_one release_refs releases
release-as_fast registered m s = elim (Bool-cases m.is_inline) [
  | inl e ↦ rw e refl
  | inr e ↦ elim (Option-cases m.managed) [
    | inl f ↦ rw (e, f) refl
    | inr (p, f) ↦ elim (Option-cases (Payload.release s p)) [
      | inl g ↦ rw (e, f, g) refl
      | inr (t, g) ↦ rw (e, f, g) refl
    ]
  ]
]

abbrev as_called : Option (List BroadcastCall × Store) → Option (List FastCall × Store)
as_called none = none
as_called (some (calls, s)) = some (map as_call calls, s)

call_all-as_fast :
    (registered : ℕ → Option (List ℕ)) (m : BroadcastMessage) (os : List ℕ) (s : Store)
    → Message.call_all (as_message registered m) (map as_observer os) s
      ≡ as_called (call_all m os s)
unfolding Message.call_all call_all Message.data_of data_of
call_all-as_fast registered m [] s = refl
call_all-as_fast registered m (o ∷ os) s = elim (Option-cases (data_of m s)) [
  | inl e ↦ rw e refl
  | inr (bytes, e) ↦ elim (Option-cases (release_refs 1 m s)) [
    | inl f ↦ rw (e, release-as_fast registered m s, f) refl
    | inr (t, f) ↦ elim (Option-cases (call_all m os t)) [
      | inl g ↦
          rw
            (
              e,
              release-as_fast registered m s,
              f,
              g,
              call_all-as_fast registered m os t ∙ ap as_called g,
            )
            refl
      | inr (r, g) ↦
          rw
            (
              e,
              release-as_fast registered m s,
              f,
              g,
              call_all-as_fast registered m os t ∙ ap as_called g,
            )
            refl
    ]
  ]
]

-- A message whose payload has observers to release it.
abbrev pub Listed : (ℕ → Option (List ℕ)) → BroadcastMessage → Type 0
Listed registered m = (m.is_inline ≡ true) ⊎ (registered m.topic_id ≢ none)

deliver-as_fast :
    (registered : ℕ → Option (List ℕ)) (m : BroadcastMessage) (s : Store)
    → Listed registered m
    → Message.call_all (as_message registered m) (observers_of registered m.topic_id) s
      ≡ as_called (deliver m (registered m.topic_id) s)
unfolding deliver release_refs Message.call_all
deliver-as_fast registered m s h =
    let called : Option (List ℕ) → Option (List FastCall × Store) =
      λ x. Message.call_all (as_message registered m) (map as_observer (or_no_one x)) s in
    elim (Option-cases (registered m.topic_id)) [
      | inl e ↦ elim h [
        | inl i ↦ ap called e ∙ unshared i ∙ sym (ap (λ x. as_called (deliver m x s)) e)
        | inr ne ↦ absurd (ne e)
      ]
      | inr (os, e) ↦
          ap called e
          ∙ call_all-as_fast registered m os s
          ∙ sym (ap (λ x. as_called (deliver m x s)) e)
    ]
  where
    unshared :
        m.is_inline ≡ true
        → Path (Option (List FastCall × Store)) (some ([], s)) (as_called (deliver m none s))
    unshared i = rw i refl

module _ (cap : ℕ) (q : BroadcastQueue) where
  -- A post does to the queue what the post of the fast queue does, for at most 255 observers.
  pub post-as_fast :
      (topic_id : ℕ) (bytes : Option (List ℕ)) (size : ℕ) (out : Outside)
      → length (or_no_one (q.observers topic_id)) ≤ 255
      → Fast.post cap (as_fast q) topic_id bytes size out
        ≡ as_answer (post cap q topic_id bytes size out)
  unfolding Fast.post post send reserve
  post-as_fast topic_id bytes size out few =
      let os = observers_of q.observers topic_id in
      let count : min (length (or_no_one (q.observers topic_id))) 255 ≡ length os =
        omega (arith, length-map as_observer (or_no_one (q.observers topic_id))) in
      let node : ℕ = (reserve q.mailbox out).0 in
      let b : Mailbox BroadcastMessage = (reserve q.mailbox out).1 in
      let same = prepare-compose q.observers q.payloads topic_id bytes size out (b.messages node) in
      let got = prepare q.payloads topic_id (length os) bytes size out (b.messages node) in
      elim (Bool-cases (leb broadcast_max_topics topic_id)) [
        | inl e ↦ rw e refl
        | inr e ↦ elim (Bool-cases (length os == 0)) [
          | inl f ↦ rw (e, count, f) refl
          | inr f ↦ elim (Option-cases got) [
            | inl g ↦ rw (e, count, f, g, same ∙ ap (as_prepared q.observers) g) refl
            | inr (p, g) ↦
                let put = enqueue cap (write b node p.0) node out in
                let sent : enqueue cap
                      (write (view (as_message q.observers) b) node (as_message q.observers p.0))
                      node out
                    ≡ view_queued (as_message q.observers) put =
                  ap (λ b'. enqueue cap b' node out)
                    (write-view (as_message q.observers) b node p.0)
                  ∙ enqueue-view (as_message q.observers) cap (write b node p.0) node out in
                elim (Option-cases put) [
                  | inl h ↦
                      rw
                        (
                          e,
                          count,
                          f,
                          g,
                          same ∙ ap (as_prepared q.observers) g,
                          h,
                          sent ∙ ap (view_queued (as_message q.observers)) h,
                        )
                        refl
                  | inr (b', h) ↦
                      rw
                        (
                          e,
                          count,
                          f,
                          g,
                          same ∙ ap (as_prepared q.observers) g,
                          h,
                          sent ∙ ap (view_queued (as_message q.observers)) h,
                        )
                        refl
                ]
          ]
        ]
      ]

  -- A dispatch does to the queue what the dispatch of the fast queue does, unless it meets a shared
  -- payload whose topic has no list of observers.
  pub dispatch_one-as_fast :
      (out : Outside)
      → ((node : ℕ) (b : Mailbox BroadcastMessage)
          → receive cap q.mailbox out ≡ some (some node, b)
          → Listed q.observers (b.messages node))
      → Fast.dispatch_one cap (as_fast q) out ≡ as_answer (dispatch_one cap q out)
  unfolding Fast.dispatch_one dispatch_one Message.deliver recycle
  dispatch_one-as_fast out listed =
      let look = as_message q.observers in
      let got = receive-view look cap q.mailbox out in
      elim (Option-cases (receive cap q.mailbox out)) [
        | inl e ↦ rw (e, got ∙ ap (view_received look) e) refl
        | inr ((none, b), e) ↦ rw (e, got ∙ ap (view_received look) e) refl
        | inr ((some node, b), e) ↦
            let called =
              deliver-as_fast q.observers (b.messages node) q.payloads (listed node b e) in
            elim (Option-cases
              (deliver (b.messages node) (q.observers (b.messages node).topic_id) q.payloads)) [
                | inl f ↦ rw (e, got ∙ ap (view_received look) e, f, called ∙ ap as_called f) refl
                | inr (r, f) ↦
                    rw
                      (
                        e,
                        got ∙ ap (view_received look) e,
                        f,
                        called ∙ ap as_called f,
                        map-append as_call q.calls r.0,
                      )
                      refl
              ]
      ]
